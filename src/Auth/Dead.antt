-- ===== src/Auth/Dead.antt =====
-- When a cookie of internal/auth/session_manager.go no longer opens a session.
use service_backend.Prelude.{
  ℕ, String, ◌≡◌, refl, sym, ap, ◌∙◌, Bool, true, false, ◌||◌, ◌==◌, Option, none, some, arith,
  Bool-cases, List, subst, if◌then◌else◌, inl, inr, find_first, find_first-none, find_first-updated,
  trim_space,
}
use service_backend.Errors.{Error, ok, err, is_ok, fault}
use service_backend.Policy.{Policy}
use service_backend.Exec.{pure}
use service_backend.Auth.{
  AuthConfig, SessionRow, begins, selects, revokes, commits, Tables, Times, World, is_live,
}
use service_backend.Auth.Access.{refresh_due}
use service_backend.Auth.Renewal.{renewal}
use service_backend.Auth.Sessions.{
  is_unrevoked, is_stale, select_session, renew, resolve_with_refresh, resolve, revoke, revoked_row,
  revoked_rows,
}

-- no session of the cookie is unrevoked
abbrev pub IsDead : String → Tables → Type 0
IsDead hash st = find_first (is_unrevoked hash) st.sessions ≡ none

dead_select :
    (w : World) (cookie : String) (now : ℕ) (st : Tables)
    → IsDead (w.sha256 cookie) st
    → select_session w cookie now st ≡ err (fault "configurator session is invalid")
unfolding select_session
dead_select w cookie now st dead =
    let none_live =
      find_first-none (is_unrevoked (w.sha256 cookie)) (is_live (w.sha256 cookie) now) st.sessions
        (λ r h. ground arith) dead in
    elim (Bool-cases (w.fails selects)) [ inl fails ↦ rw fails | inr runs ↦ rw (runs, none_live) ]

-- A dead cookie resolves to nothing, whenever and in whatever world, and stays dead.
pub dead_resolve :
    (w : World) (policy : Option Policy) (t : Times) (cookie : String) (st : Tables)
    → IsDead (w.sha256 cookie) st
    → (is_ok (resolve w policy t cookie st).0 ≡ false) × ((resolve w policy t cookie st).1 ≡ st)
unfolding resolve
dead_resolve w policy t cookie st dead = elim (Bool-cases (trim_space cookie == "")) [
  | inl blank ↦ (rw (blank, resolve), rw (blank, resolve))
  | inr given ↦
      let e = dead_select w cookie t.database st dead in
      (rw (given, resolve, e), rw (given, resolve, e))
]

revoked_rows-dead :
    (hash : String) (now : ℕ) (rows : List SessionRow)
    → find_first (is_unrevoked hash) (revoked_rows hash now rows) ≡ none
revoked_rows-dead hash now rows =
    find_first-updated (λ (r : SessionRow). r.token_hash == hash) (is_unrevoked hash)
      (λ (r : SessionRow). record r { revoked_at = some now }) rows (λ r h. ground arith)
      (λ r h. ground arith)

revoked_row-IsDead :
    (w : World) (now : ℕ) (hash : String) (o : Option SessionRow) (st : Tables)
    → find_first (is_unrevoked hash) st.sessions ≡ o
    → IsDead hash (revoked_row w now hash o st).1
revoked_row-IsDead w now hash none st e = e
revoked_row-IsDead w now hash (some r) st e =
    find_first-updated (is_unrevoked hash) (is_unrevoked hash)
      (λ (x : SessionRow). record x { revoked_at = some now }) st.sessions (λ x h. ground arith)
      (λ x h. h)

revoke-IsDead :
    (w : World) (cfg : AuthConfig) (now : ℕ) (cookie : String) (st : Tables)
    → (trim_space cookie == "") ≡ false
    → cfg.dev ≡ false
    → w.fails revokes ≡ false
    → IsDead (w.sha256 cookie) (revoke w cfg now cookie st).1
unfolding revoke
revoke-IsDead w cfg now cookie st given real runs =
    let goes_on : (trim_space cookie == "" || cfg.dev || w.fails revokes) ≡ false =
      ground (arith, given, real, runs) in
    subst
      (λ (b : Bool).
        IsDead (w.sha256 cookie)
          (if b
            then pure tt st
            else revoked_row w now (w.sha256 cookie)
                (find_first (is_unrevoked (w.sha256 cookie)) st.sessions) st).1)
      (sym goes_on)
      (revoked_row-IsDead w now (w.sha256 cookie)
        (find_first (is_unrevoked (w.sha256 cookie)) st.sessions) st refl)

-- After Revoke of a cookie, outside dev mode and with a database that carries the UPDATE out, no
-- Resolve of the cookie succeeds, at whatever time and whatever the world answers then.
pub revoke_final :
    (w later : World) (cfg : AuthConfig) (policy : Option Policy) (now : ℕ) (t : Times)
    (cookie : String) (st : Tables)
    → later.sha256 ≡ w.sha256
    → (trim_space cookie == "") ≡ false
    → cfg.dev ≡ false
    → w.fails revokes ≡ false
    → is_ok (resolve later policy t cookie (revoke w cfg now cookie st).1).0 ≡ false
revoke_final w later cfg policy now t cookie st same given real runs =
    (dead_resolve later policy t cookie (revoke w cfg now cookie st).1 (
      ap
        (λ (f : String → String).
          find_first (is_unrevoked (f cookie)) (revoke w cfg now cookie st).1.sessions)
        same
      ∙ revoke-IsDead w cfg now cookie st given real runs)).0

-- If a session is due for a refresh, or holds the rejected token, and the provider's answer does not
-- renew it, the resolution reports that error, and no later Resolve of the cookie succeeds; the
-- database is one that carries the statements out.
pub refresh_fails_closed :
    (w later : World) (policy : Option Policy) (t u : Times) (cookie stale : String) (st : Tables)
    (row : SessionRow) (e : Error)
    → later.sha256 ≡ w.sha256
    → w.fails begins ≡ false
    → w.fails revokes ≡ false
    → w.fails commits ≡ false
    → select_session w cookie t.locked st ≡ ok row
    → (refresh_due policy row t.second_check || is_stale stale row.external_access) ≡ true
    → renewal w policy t row ≡ err e
    → ((resolve_with_refresh w policy t cookie stale st).0 ≡ err e)
      × (is_ok (resolve later policy u cookie (resolve_with_refresh w policy t cookie stale st).1).0
          ≡ false)
unfolding resolve_with_refresh renew
refresh_fails_closed w later policy t u cookie stale st row e same begun revoked committed found due
      declined =
    (
      rw (begun, found, due, declined, revoked, committed, resolve_with_refresh, renew),
      rw (begun, found, due, declined, revoked, committed, resolve_with_refresh, renew)
          (dead_resolve later policy u cookie
            (record st { sessions = revoked_rows (w.sha256 cookie) t.locked st.sessions })
            (ap
                (λ (f : String → String).
                  find_first (is_unrevoked (f cookie))
                    (revoked_rows (w.sha256 cookie) t.locked st.sessions))
                same
              ∙ revoked_rows-dead (w.sha256 cookie) t.locked st.sessions)).0,
    )
