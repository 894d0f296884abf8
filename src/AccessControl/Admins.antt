-- ===== src/AccessControl/Admins.antt =====
-- Delete keeps an administrator of the platform.
use service_backend.Prelude.{
  ℕ, ◌+◌, ◌≤◌, String, ◌≡◌, refl, sym, ap, ◌∙◌, true, false, not, ◌==◌, leb, Option, none, some,
  inl, inr, arith, subst, Bool-cases, trim_space,
}
use service_backend.Errors.{Result, ok, err, not_found}
use service_backend.Entities.{Workspace}
use service_backend.Policy.{Policy, require_local}
use service_backend.Access.Context.{RequestContext, Caller, actor}
use service_backend.Exec.{
  lift, >>=-inv, pure-inv, raise_if-inv, not_found_as-inv, within_transaction-inv, not_found_as,
}
use service_backend.AccessControl.{AccessGrant, Repository, Codec, reads, require_workspace_admin}
use service_backend.AccessControl.Operations.{may_delete, delete_in_tx, delete, grant_workspace}
use service_backend.AccessControl.Atomic.{delete-atomic}

-- What Delete relies on in the grant store: `admins` counts the platform administrators. Reads and
-- the lock change nothing, and deleting a row removes at most one administrator, none when the row
-- is not of the platform.
pub record CountsAdmins {S : Type 0} (repo : Repository S) (admins : S → ℕ) : Type 0 where
  pub counts :
      (s t : S) (n : ℕ) → repo.count_platform_admins s ≡ (ok n, t) → (admins s ≡ n) × (t ≡ s)
  pub locks : (s t : S) → repo.lock_bootstrap s ≡ (ok tt, t) → t ≡ s
  pub gets :
      (id : String) (s t : S) (g : AccessGrant) → repo.get_access_grant id s ≡ (ok g, t) → t ≡ s
  pub deletes :
      (id : String) (s t : S) → repo.delete_access_grant id s ≡ (ok tt, t) → admins s ≤ admins t + 1
  pub deletes_other :
      (id : String) (s s' t : S) (g : AccessGrant)
      → repo.get_access_grant id s ≡ (ok g, s')
      → (g.scope_type == "platform") ≡ false
      → repo.delete_access_grant id s ≡ (ok tt, t)
      → admins t ≡ admins s

module _ {S : Type 0} (repo : Repository S) (codec : Codec) (admins : S → ℕ)
    (laws : CountsAdmins repo admins) where
  grant_workspace-state :
      (ctx : RequestContext) (o : Option String) (s t : S)
      → grant_workspace repo codec ctx o s ≡ (ok tt, t)
      → t ≡ s
  grant_workspace-state ctx none s t h = cc (ap (λ (q : Result (Unit {0}) × S). q.0) h)
  grant_workspace-state ctx (some identity) s t h =
      >>=-inv (reads (λ (st : S). require_workspace_admin (repo.workspaces st) ctx identity)) _ s h
        λ w s1 r h1. pure-inv h1 λ _ same. sym same ∙ sym (ap (λ (q : Result Workspace × S). q.1) r)

  may_delete-platform :
      (ctx : RequestContext) (current : Caller) (g : AccessGrant) (s t : S)
      → may_delete repo codec ctx current g s ≡ (ok tt, t)
      → (g.scope_type == "platform") ≡ true
      → (2 ≤ admins s) × (t ≡ s)
  unfolding may_delete
  may_delete-platform ctx current g s t h platform =
      raise_if-inv (not current.platform_admin) _ _ s (rw (platform, may_delete) at h) λ _ h1.
        >>=-inv repo.lock_bootstrap _ s h1 λ _ s1 locked h2.
          >>=-inv repo.count_platform_admins _ s1 h2 λ n s2 counted h3.
            raise_if-inv (leb n 1) _ _ s2 h3 λ many h4. pure-inv h4 λ _ same.
              let (exact, kept) = laws.counts s1 s2 n counted in
              let held = laws.locks s s1 locked in
              (ground (arith, exact, many, ap admins held), sym same ∙ kept ∙ held)

  may_delete-other :
      (ctx : RequestContext) (current : Caller) (g : AccessGrant) (s t : S)
      → may_delete repo codec ctx current g s ≡ (ok tt, t)
      → (g.scope_type == "platform") ≡ false
      → t ≡ s
  unfolding may_delete
  may_delete-other ctx current g s t h other =
      grant_workspace-state ctx g.workspace_identity s t (rw (other, may_delete) at h)

  -- the transaction of Delete, when it goes through
  delete_in_tx-admins :
      (ctx : RequestContext) (current : Caller) (id : String) (s t : S)
      → delete_in_tx repo codec ctx current id s ≡ (ok tt, t)
      → 1 ≤ admins s
      → 1 ≤ admins t
  unfolding delete_in_tx
  delete_in_tx-admins ctx current id s t h some_left =
      >>=-inv (not_found_as (not_found "access_grant_not_found") (repo.get_access_grant id)) _ s h
        λ g s1 got h1. >>=-inv (may_delete repo codec ctx current g) _ s1 h1 λ _ s2 allowed h2.
          let found = not_found_as-inv _ (repo.get_access_grant id) s got in
          let here = laws.gets id s s1 g found in
          let gone = not_found_as-inv _ (repo.delete_access_grant id) s2 h2 in
          elim (Bool-cases (g.scope_type == "platform")) [
            | inl platform ↦
                let (two, same) = may_delete-platform ctx current g s1 s2 allowed platform in
                ground (arith, two, ap admins same, laws.deletes id s2 t gone)
            | inr other ↦
                let same = may_delete-other ctx current g s1 s2 allowed other in
                let from_start =
                  subst (λ (x : S). repo.delete_access_grant id x ≡ (ok tt, t)) (same ∙ here)
                    gone in
                omega (arith, laws.deletes_other id s s1 t g found other from_start, some_left)
          ]

  delete-admins :
      (policy : Option Policy) (ctx : RequestContext) (id : String) (s t : S)
      → delete repo codec policy ctx id s ≡ (ok tt, t)
      → 1 ≤ admins s
      → 1 ≤ admins t
  unfolding delete
  delete-admins policy ctx id s t h some_left =
      >>=-inv (lift (require_local policy)) _ s h λ _ s1 local h1.
        raise_if-inv (not (codec.is_uuid (trim_space id))) _ _ s1 h1 λ _ h2.
          >>=-inv (lift (actor ctx)) _ s1 h2 λ current s2 known h3.
            within_transaction-inv (delete_in_tx repo codec ctx current id) s2 h3 λ h4.
              delete_in_tx-admins ctx current id s2 t h4 (
                ground (
                  arith,
                  ap (λ (q : Result (Unit {0}) × S). admins q.1) local,
                  ap (λ (q : Result Caller × S). admins q.1) known,
                ))

  -- If the platform has an administrator, it has one after Delete, whatever is deleted, by whom, and
  -- with what outcome.
  pub delete_keeps_admin :
      (policy : Option Policy) (ctx : RequestContext) (id : String) (st : S)
      → 1 ≤ admins st
      → 1 ≤ admins (delete repo codec policy ctx id st).1
  delete_keeps_admin policy ctx id st some_left =
      by_result (delete repo codec policy ctx id st) refl
    where
      by_result :
          (q : Result (Unit {0}) × S) → delete repo codec policy ctx id st ≡ q → 1 ≤ admins q.1
      by_result (ok tt, t) h = delete-admins policy ctx id st t h some_left
      by_result (err e, t) h =
          omega (arith, ap admins (delete-atomic repo codec policy ctx id st t e h), some_left)
