-- ===== src/Auth/Cleanup.antt =====
-- Cleanup of internal/auth/session_manager.go takes nothing away that could still be used.
use service_backend.Prelude.{
  ℕ, ◌≤◌, String, ◌≡◌, refl, ap, Bool, true, false, not, ◌||◌, ◌==◌, Option, arith, Option-cases,
  inl, inr, find_first-kept, trim_space, if◌then◌else◌,
}
use service_backend.Errors.{Result, ok, err, fault}
use service_backend.Policy.{Policy, external}
use service_backend.Exec.{refused_or}
use service_backend.Auth.{
  SessionRow, Tables, Times, World, is_live, begins, commits, updates_session, revokes,
  deletes_logins, deletes_sessions,
}
use service_backend.Auth.Access.{refresh_due}
use service_backend.Auth.Renewal.{Renewal, renewal}
use service_backend.Auth.Sessions.{
  is_stale, is_spent, revoked_long_ago, swept, cleanup, select_session, with_locked, with_selected,
  renew, resolve_with_refresh, resolve, resolve_after_stale,
}

-- what Cleanup deletes is not live at that time or later
spent-is_live :
    (hash : String) (now later : ℕ) (r : SessionRow)
    → now ≤ later
    → is_spent now r ≡ true
    → is_live hash later r ≡ false
spent-is_live hash now later r h spent = elim (Option-cases r.revoked_at) [
  | inl never ↦ ground (arith, ap (revoked_long_ago now) never)
  | inr (at, revoked) ↦ rw revoked (ground arith)
]

select_session-swept :
    (w : World) (cookie : String) (now later : ℕ) (st : Tables)
    → now ≤ later
    → select_session w cookie later (swept now st) ≡ select_session w cookie later st
unfolding select_session
select_session-swept w cookie now later st h = rw (
    find_first-kept (is_spent now) (is_live (w.sha256 cookie) later) st.sessions
      (λ r spent. spent-is_live (w.sha256 cookie) now later r h spent))

-- two runs of a test that answer alike on each branch
same_answer {ℓ} :
    {A : Type ℓ} (b : Bool) (q r q' r' : Result A × Tables)
    → q.0 ≡ q'.0
    → r.0 ≡ r'.0
    → (if b then q else r).0 ≡ (if b then q' else r').0
same_answer true q r q' r' left right = left
same_answer false q r q' r' left right = right

module _ (w : World) (policy : Option Policy) (t : Times) (cookie : String) (st next : Tables) where
  renew-answer :
      (row : SessionRow) (n : Result Renewal)
      → (renew w t cookie row n next).0 ≡ (renew w t cookie row n st).0
  unfolding renew
  renew-answer row (err e) = same_answer (w.fails revokes || w.fails commits) _ _ _ _ refl refl
  renew-answer row (ok n) =
      same_answer (w.fails updates_session) _ _ _ _ refl
        (same_answer (w.fails commits) _ _ _ _ refl refl)

  with_locked-answer :
      (stale : String) (r : Result SessionRow)
      → (with_locked w policy t cookie stale r next).0
        ≡ (with_locked w policy t cookie stale r st).0
  with_locked-answer stale (err e) = refl
  with_locked-answer stale (ok row) =
      same_answer (refresh_due policy row t.second_check || is_stale stale row.external_access) _ _
        _ _ (renew-answer row (renewal w policy t row))
        (same_answer (w.fails commits) _ _ _ _ refl refl)

  -- what a resolution answers depends on the tables only through its two SELECTs
  resolve_with_refresh-answer :
      (stale : String)
      → select_session w cookie t.locked next ≡ select_session w cookie t.locked st
      → (resolve_with_refresh w policy t cookie stale next).0
        ≡ (resolve_with_refresh w policy t cookie stale st).0
  unfolding resolve_with_refresh
  resolve_with_refresh-answer stale locked =
      same_answer (w.fails begins) _ _ _ _ refl
        (rw locked (with_locked-answer stale (select_session w cookie t.locked st)))

  with_selected-answer :
      (r : Result SessionRow)
      → select_session w cookie t.locked next ≡ select_session w cookie t.locked st
      → (with_selected w policy t cookie r next).0 ≡ (with_selected w policy t cookie r st).0
  with_selected-answer (err e) locked = refl
  with_selected-answer (ok row) locked =
      same_answer (not (refresh_due policy row t.first_check)) _ _ _ _ refl
        (resolve_with_refresh-answer "" locked)

  resolve-answer :
      select_session w cookie t.database next ≡ select_session w cookie t.database st
      → select_session w cookie t.locked next ≡ select_session w cookie t.locked st
      → (resolve w policy t cookie next).0 ≡ (resolve w policy t cookie st).0
  unfolding resolve
  resolve-answer first locked =
      same_answer (trim_space cookie == "") _ _ _ _ refl
        (rw first (with_selected-answer (select_session w cookie t.database st) locked))

cleanup-select_session :
    (janitor w : World) (cookie : String) (now later : ℕ) (st : Tables)
    → now ≤ later
    → select_session w cookie later (cleanup janitor now st).1 ≡ select_session w cookie later st
unfolding cleanup
cleanup-select_session janitor w cookie now later st h =
    refused_or (λ (s : Tables). select_session w cookie later s ≡ select_session w cookie later st)
      (janitor.fails begins
        || janitor.fails deletes_logins
        || janitor.fails deletes_sessions
        || janitor.fails commits)
      (fault "Configurator auth cleanup") (ok tt, swept now st) st refl
      λ _. select_session-swept w cookie now later st h

-- A Cleanup that runs before changes nothing of what Resolve and ResolveAfterStale answer, whether it
-- fails or not.
pub cleanup_unseen :
    (janitor w : World) (policy : Option Policy) (t : Times) (cookie stale : String) (now : ℕ)
    (st : Tables)
    → now ≤ t.database
    → now ≤ t.locked
    → ((resolve w policy t cookie (cleanup janitor now st).1).0 ≡ (resolve w policy t cookie st).0)
      × ((resolve_after_stale w policy t cookie stale (cleanup janitor now st).1).0
          ≡ (resolve_after_stale w policy t cookie stale st).0)
unfolding resolve_after_stale
cleanup_unseen janitor w policy t cookie stale now st early late =
    let cleaned = (cleanup janitor now st).1 in
    let first = cleanup-select_session janitor w cookie now t.database st early in
    let locked = cleanup-select_session janitor w cookie now t.locked st late in
    (
      resolve-answer w policy t cookie st cleaned first locked,
      same_answer (trim_space cookie == "" || stale == "" || not (external policy)) _ _ _ _ refl
          (resolve_with_refresh-answer w policy t cookie st cleaned stale locked),
    )
