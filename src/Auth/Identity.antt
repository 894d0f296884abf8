-- ===== src/Auth/Identity.antt =====
-- Whom a session of internal/auth/session_manager.go stands for.
use service_backend.Prelude.{
  ℕ, ◌<◌, String, ◌≡◌, ◌⊎◌, refl, sym, ap, ◌∙◌, Bool, true, false, not, ◌||◌, ◌==◌, Option, none,
  some, arith, eq_iff, Bool-cases, Option-cases, inl, inr, find_first, find_first-some, trim_space,
  if◌then◌else◌,
}
use service_backend.Errors.{Result, ok, err, ok-injective}
use service_backend.Policy.{Policy, external}
use service_backend.Exec
use service_backend.Auth.{
  SessionIdentity, SessionRow, selects, begins, commits, revokes, updates_session, Tables, Times,
  World, is_live,
}
use service_backend.Auth.Access.{identity_of, refresh_due}
use service_backend.Auth.Renewal.{Renewal, renewal}
use service_backend.Auth.Sessions.{
  is_stale, select_session, renew, with_locked, with_selected, resolve_with_refresh, resolve,
  resolve_after_stale,
}
use service_backend.Auth.SamePerson.{renewal-same}

-- The stored session that an identity was read from, and the time of the reading.
pub record Stands (w : World) (cookie : String) (t : Times) (st : Tables) (a : SessionIdentity)
    : Type 0 where
  pub row : SessionRow
  pub at : ℕ
  pub is_time : ((at ≡ t.database) ⊎ (at ≡ t.locked))
  pub found : find_first (is_live (w.sha256 cookie) at) st.sessions ≡ some row
  pub own : row.token_hash ≡ w.sha256 cookie
  pub unrevoked : row.revoked_at ≡ none
  pub in_time : at < row.expires_at
  pub same_id : a.session_id ≡ row.id
  pub same_provider : a.claims.provider_id ≡ row.provider_id
  pub same_subject : a.claims.subject ≡ row.subject
  pub same_issuer : a.claims.issuer ≡ row.issuer

select_session-inv :
    (w : World) (cookie : String) (now : ℕ) (st : Tables) (row : SessionRow)
    → select_session w cookie now st ≡ ok row
    → find_first (is_live (w.sha256 cookie) now) st.sessions ≡ some row
unfolding select_session
select_session-inv w cookie now st row h = elim (Bool-cases (w.fails selects)) [
  | inl fails ↦ cc (rw fails at h)
  | inr runs ↦ elim (Option-cases (find_first (is_live (w.sha256 cookie) now) st.sessions)) [
    | inl missing ↦ cc (rw (runs, missing) at h)
    | inr (found, e) ↦ e ∙ ap some (ok-injective (rw (runs, e) at h))
  ]
]

either_branch :
    {C : Type 0} (test : Bool) (m n : Result SessionIdentity × Tables)
    {o : Result SessionIdentity × Tables}
    → (if test then m else n) ≡ o
    → (m ≡ o → C)
    → (n ≡ o → C)
    → C
either_branch true m n h yes_case no_case = yes_case h
either_branch false m n h yes_case no_case = no_case h

of_row :
    (row : SessionRow) (a : SessionIdentity)
    → identity_of row ≡ a
    → (a.claims.provider_id ≡ row.provider_id)
      × (a.claims.subject ≡ row.subject)
      × (a.claims.issuer ≡ row.issuer)
of_row row a same = (
  ap (λ (x : SessionIdentity). x.claims.provider_id) (sym same),
  ap (λ (x : SessionIdentity). x.claims.subject) (sym same),
  ap (λ (x : SessionIdentity). x.claims.issuer) (sym same),
)

module _ (w : World) (policy : Option Policy) (t : Times) (cookie : String) (st : Tables) where
  stands :
      (a : SessionIdentity) (row : SessionRow) (at : ℕ)
      → (at ≡ t.database) ⊎ (at ≡ t.locked)
      → select_session w cookie at st ≡ ok row
      → a.session_id ≡ row.id
      → (a.claims.provider_id ≡ row.provider_id)
        × (a.claims.subject ≡ row.subject)
        × (a.claims.issuer ≡ row.issuer)
      → Stands w cookie t st a
  stands a row at time e id (p, q, r) =
      let found = select_session-inv w cookie at st row e in
      let live = find_first-some (is_live (w.sha256 cookie) at) st.sessions found in
      record {
        row = row;
        at = at;
        is_time = time;
        found = found;
        own = ground (arith, eq_iff row.token_hash (w.sha256 cookie));
        unrevoked = ground arith;
        in_time = ground arith;
        same_id = id;
        same_provider = p;
        same_subject = q;
        same_issuer = r;
      }

  renew-Stands :
      (row : SessionRow) (n : Result Renewal) (a : SessionIdentity) (next : Tables)
      → select_session w cookie t.locked st ≡ ok row
      → renewal w policy t row ≡ n
      → renew w t cookie row n st ≡ (ok a, next)
      → Stands w cookie t st a
  unfolding renew
  renew-Stands row (err e) a next at made h =
      Exec.refused-inv (w.fails revokes || w.fails commits) _ _ st h
        λ _ h1. cc (ap (λ (q : Result SessionIdentity × Tables). q.0) h1)
  renew-Stands row (ok n) a next at made h =
      Exec.refused-inv (w.fails updates_session) _ _ st h λ _ h1.
        Exec.refused-inv (w.fails commits) _ _ st h1 λ _ h2. Exec.pure-inv h2 λ same _.
          let (p, q, r) = renewal-same w policy t row n made in
          stands a row t.locked (inr refl) at
            (ap (λ (x : SessionIdentity). x.session_id) (sym same))
            (
              ap (λ (x : SessionIdentity). x.claims.provider_id) (sym same) ∙ p,
              ap (λ (x : SessionIdentity). x.claims.subject) (sym same) ∙ q,
              ap (λ (x : SessionIdentity). x.claims.issuer) (sym same) ∙ r,
            )

  with_locked-Stands :
      (stale : String) (r : Result SessionRow) (a : SessionIdentity) (next : Tables)
      → select_session w cookie t.locked st ≡ r
      → with_locked w policy t cookie stale r st ≡ (ok a, next)
      → Stands w cookie t st a
  with_locked-Stands stale (err e) a next at h =
      cc (ap (λ (q : Result SessionIdentity × Tables). q.0) h)
  with_locked-Stands stale (ok row) a next at h =
      either_branch (refresh_due policy row t.second_check || is_stale stale row.external_access) _
        _ h (λ h1. renew-Stands row (renewal w policy t row) a next at refl h1)
        λ h1. Exec.refused-inv (w.fails commits) _ _ st h1 λ _ h2. Exec.pure-inv h2 λ same _.
          stands a row t.locked (inr refl) at
            (ap (λ (x : SessionIdentity). x.session_id) (sym same)) (of_row row a same)

  resolve_with_refresh-Stands :
      (stale : String) (a : SessionIdentity) (next : Tables)
      → resolve_with_refresh w policy t cookie stale st ≡ (ok a, next)
      → Stands w cookie t st a
  unfolding resolve_with_refresh
  resolve_with_refresh-Stands stale a next h =
      Exec.refused-inv (w.fails begins) _ _ st h
        λ _ h1. with_locked-Stands stale (select_session w cookie t.locked st) a next refl h1

  with_selected-Stands :
      (r : Result SessionRow) (a : SessionIdentity) (next : Tables)
      → select_session w cookie t.database st ≡ r
      → with_selected w policy t cookie r st ≡ (ok a, next)
      → Stands w cookie t st a
  with_selected-Stands (err e) a next at h =
      cc (ap (λ (q : Result SessionIdentity × Tables). q.0) h)
  with_selected-Stands (ok row) a next at h =
      either_branch (not (refresh_due policy row t.first_check)) _ _ h
        (λ h1. Exec.pure-inv h1 λ same _.
          stands a row t.database (inl refl) at
            (ap (λ (x : SessionIdentity). x.session_id) (sym same)) (of_row row a same))
        λ h1. resolve_with_refresh-Stands "" a next h1

-- An identity that Resolve or ResolveAfterStale answers was read from a row of the sessions table
-- with the cookie's hash, not revoked and not expired at the database's time of the reading, the
-- first that matches; the session's id, provider, subject and issuer are that row's, also when the
-- claims come from a refresh at the provider.
pub resolve-Stands :
    (w : World) (policy : Option Policy) (t : Times) (cookie stale : String) (st : Tables)
    (a : SessionIdentity) (next : Tables)
    → (resolve w policy t cookie st ≡ (ok a, next))
      ⊎ (resolve_after_stale w policy t cookie stale st ≡ (ok a, next))
    → Stands w cookie t st a
unfolding resolve resolve_after_stale
resolve-Stands w policy t cookie stale st a next (inl h) =
    Exec.refused-inv (trim_space cookie == "") _ _ st h λ _ h1.
      with_selected-Stands w policy t cookie st (select_session w cookie t.database st) a next refl
        h1
resolve-Stands w policy t cookie stale st a next (inr h) =
    Exec.refused-inv (trim_space cookie == "" || stale == "" || not (external policy)) _ _ st h
      λ _ h1. resolve_with_refresh-Stands w policy t cookie st stale a next h1
