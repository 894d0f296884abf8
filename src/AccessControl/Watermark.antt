-- ===== src/AccessControl/Watermark.antt =====
-- Externally managed access never goes back to an older token.
use service_backend.Prelude.{
  ℕ, ◌≤◌, String, ◌≡◌, refl, sym, ap, ◌∙◌, Bool, false, not, ◌==◌, ltb, Option, none, some, List,
  arith, Bool-cases, inl, inr, eq_iff, if◌then◌else◌,
}
use service_backend.Errors.{Result, ok, err}
use service_backend.Entities.{User}
use service_backend.Policy.{Policy}
use service_backend.Exec.{
  pure, lift, >>=-inv, pure-inv, raise_if-inv, if-inv, within_transaction-inv,
}
use service_backend.AccessControl.{
  AccessGrantInput, ExternalAccessSnapshot, ExternalAccessState, UpsertCurrentUserInput, Repository,
  Codec, reads,
}
use service_backend.AccessControl.Snapshot.{
  mapped_grants, Verdict, stale, ambiguous, unchanged, replace, compare_tokens, unusable,
}
use service_backend.AccessControl.Identity.{
  apply_verdict, synchronize, external_in_tx, resolve_external,
}
use service_backend.AccessControl.Atomic.{resolve_external-atomic}

-- the time of issue that is stored, 0 when nothing is
abbrev pub issued : Option ExternalAccessState → ℕ
issued none = 0
issued (some s) = s.issued_at

-- What resolveExternalActor relies on in the store: `stored` is the state of each user. Reading it
-- and upserting a user change no state; replacing writes the one user's.
pub record StoresStates {S : Type 0} (repo : Repository S)
    (stored : S → String → Option ExternalAccessState) : Type 0 where
  pub gets :
      (id : String) (s t : S) (o : Option ExternalAccessState)
      → repo.get_external_access_state id s ≡ (ok o, t)
      → (o ≡ stored s id) × (t ≡ s)
  pub upserts :
      (i : UpsertCurrentUserInput) (s t : S) (u : User) (k : String)
      → repo.upsert_current_user i s ≡ (ok u, t)
      → stored t k ≡ stored s k
  pub replaces :
      (id : String) (grants : List AccessGrantInput) (new : ExternalAccessState) (s t : S)
      (k : String)
      → repo.replace_external_access id grants new s ≡ (ok tt, t)
      → issued (stored t k) ≡ (if id == k then new.issued_at else issued (stored s k))

-- a token that replaces the stored state is not older
replace_newer :
    (new : ExternalAccessState) (o : Option ExternalAccessState)
    → compare_tokens new o ≡ replace
    → issued o ≤ new.issued_at
unfolding compare_tokens
replace_newer new none h = omega arith
replace_newer new (some p) h = elim (Bool-cases (ltb new.issued_at p.issued_at)) [
  | inl older ↦ cc (rw (older, compare_tokens) at h)
  | inr newer ↦ ground arith
]

module _ {S : Type 0} (repo : Repository S) (codec : Codec)
    (stored : S → String → Option ExternalAccessState) (laws : StoresStates repo stored) where
  apply_verdict-newer :
      (user : User) (grants : List AccessGrantInput) (new : ExternalAccessState) (v : Verdict)
      (s t : S)
      → compare_tokens new (stored s user.id) ≡ v
      → apply_verdict repo codec user grants new v s ≡ (ok tt, t)
      → (k : String) → issued (stored s k) ≤ issued (stored t k)
  unfolding apply_verdict
  apply_verdict-newer user grants new stale s t c h k =
      cc (ap (λ (q : Result (Unit {0}) × S). q.0) h)
  apply_verdict-newer user grants new ambiguous s t c h k =
      cc (ap (λ (q : Result (Unit {0}) × S). q.0) h)
  apply_verdict-newer user grants new unchanged s t c h k =
      pure-inv h λ _ same. omega (arith, ap (λ (x : S). issued (stored x k)) same)
  apply_verdict-newer user grants new replace s t c h k = elim (Bool-cases (user.id == k)) [
    | inl own ↦
        let here = ap (λ (x : String). issued (stored s x)) ((eq_iff user.id k).0 own) in
        ground (arith, laws.replaces user.id grants new s t k h, replace_newer new _ c, here)
    | inr other ↦ ground (arith, laws.replaces user.id grants new s t k h)
  ]

  synchronize-newer :
      (later : ℕ) (snapshot : ExternalAccessSnapshot) (user : User) (r : User × Bool) (s t : S)
      → synchronize repo codec later snapshot user s ≡ (ok r, t)
      → (k : String) → issued (stored s k) ≤ issued (stored t k)
  unfolding synchronize
  synchronize-newer later snapshot user r s t h k =
      raise_if-inv (not (ltb later snapshot.expires_at)) _ _ s h λ _ h1.
        >>=-inv (reads (λ (st : S). mapped_grants (repo.workspaces st) user snapshot.grants)) _ s h1
          λ (platform, grants) s1 mapped h2.
            >>=-inv (lift (codec.grants_hash snapshot.grants)) _ s1 h2 λ digest s2 hashed h3.
              >>=-inv (repo.get_external_access_state user.id) _ s2 h3 λ previous s3 got h4.
                >>=-inv (apply_verdict repo codec user grants _ (compare_tokens _ previous)) _ s3 h4
                  λ _ s4 applied h5. pure-inv h5 λ _ same.
                    let (exact, kept) = laws.gets user.id s2 s3 previous got in
                    let step =
                      apply_verdict-newer user grants _ _ s3 s4
                        (ap (compare_tokens _) (ap (λ (x : S). stored x user.id) kept ∙ sym exact))
                        applied k in
                    omega (
                      arith,
                      step,
                      ap (λ (x : S). issued (stored x k)) same,
                      ap (λ (x : S). issued (stored x k)) kept,
                      ap (λ (q : Result (Bool × List AccessGrantInput) × S). issued (stored q.1 k))
                          mapped,
                      ap (λ (q : Result String × S). issued (stored q.1 k)) hashed,
                    )

  accepted-newer :
      (policy : Option Policy) (now later : ℕ) (input : UpsertCurrentUserInput)
      (snapshot : ExternalAccessSnapshot) (r : User × Bool) (s t : S)
      → resolve_external repo codec policy now later input (some snapshot) s ≡ (ok r, t)
      → (k : String) → issued (stored s k) ≤ issued (stored t k)
  unfolding resolve_external external_in_tx
  accepted-newer policy now later input snapshot r s t h k =
      raise_if-inv (unusable policy now input snapshot) _ _ s h λ _ h1.
        within_transaction-inv (external_in_tx repo codec later input snapshot) s h1 λ h2.
          >>=-inv (repo.upsert_current_user input) _ s h2 λ user s1 stored_user h3.
            let same_time = ap issued (laws.upserts input s s1 user k stored_user) in
            if-inv (not user.active) (pure (user, false))
              (synchronize repo codec later snapshot user) s1 h3
              (λ barred.
                pure-inv barred
                  λ _ kept. omega (arith, same_time, ap (λ (x : S). issued (stored x k)) kept))
              (λ works.
                omega (arith, same_time, synchronize-newer later snapshot user r s1 t works k))

  -- Resolving an externally managed actor, with whatever token and outcome, leaves for every user a
  -- stored token that was issued no earlier than the one before.
  pub resolve_external_newer :
      (policy : Option Policy) (now later : ℕ) (input : UpsertCurrentUserInput)
      (snapshot : Option ExternalAccessSnapshot) (st : S) (k : String)
      → issued (stored st k)
        ≤ issued (stored (resolve_external repo codec policy now later input snapshot st).1 k)
  unfolding resolve_external
  resolve_external_newer policy now later input none st k = omega arith
  resolve_external_newer policy now later input (some snapshot) st k =
      by_result (resolve_external repo codec policy now later input (some snapshot) st) refl
    where
      by_result :
          (q : Result (User × Bool) × S)
          → resolve_external repo codec policy now later input (some snapshot) st ≡ q
          → issued (stored st k) ≤ issued (stored q.1 k)
      by_result (ok r, t) h = accepted-newer policy now later input snapshot r st t h k
      by_result (err e, t) h = omega (
        arith,
        ap (λ (x : S). issued (stored x k))
            (resolve_external-atomic repo codec policy now later input (some snapshot) st t e h),
      )
