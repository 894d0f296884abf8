-- ===== src/Auth/OneTime.antt =====
-- A login transaction of internal/auth/session_manager.go completes at most once.
use service_backend.Prelude.{
  ℕ, ◌≤◌, String, ◌≡◌, refl, sym, ap, ◌∙◌, Bool, true, false, not, ◌||◌, ◌==◌, Option, none, some,
  arith, any, Bool-cases, inl, inr, find_first, remove_if, find_first-removed, trim_space,
  if◌then◌else◌,
}
use service_backend.Errors.{Error, Result, ok, err, is_ok, fault}
use service_backend.Policy.{Policy}
use service_backend.Exec
use service_backend.Auth.{
  AuthConfig, LoginRow, SessionRow, inserts_session, consumes_login, Tables, Times, World,
}
use service_backend.Auth.Access.{with_external_access, claims_token, encrypt_optional}
use service_backend.Auth.Login.{
  is_consumable, taken, consume_login, insert_session, Completed, open_session, complete,
}

-- opening a session leaves the login transactions alone
insert_session-logins :
    (w : World) (row : SessionRow) (s : Tables) {u : Unit {0}} {t : Tables}
    → insert_session w row s ≡ (ok u, t)
    → t.logins ≡ s.logins
unfolding insert_session
insert_session-logins w row s h =
    Exec.refused-inv
      (w.fails inserts_session
        || any (λ (r : SessionRow). r.token_hash == row.token_hash) s.sessions)
      _ _ s h λ _ h1. Exec.pure-inv h1 λ _ same. ap (λ (x : Tables). x.logins) (sym same)

open_session-logins :
    (w : World) (policy : Option Policy) (cfg : AuthConfig) (t : Times) (code : String)
    (cookie : Result String) (id : String) (login : LoginRow) (s : Tables) {r : Completed}
    {s' : Tables}
    → open_session w policy cfg t code cookie id login s ≡ (ok r, s')
    → s'.logins ≡ s.logins
unfolding open_session
open_session-logins w policy cfg t code cookie id login s h =
    Exec.lift-inv (w.decrypt login.verifier_encrypted) _ s h λ verifier _ h1.
      Exec.lift-inv (w.decrypt login.oidc_nonce_encrypted) _ s h1 λ nonce _ h2.
        Exec.lift-inv w.current_adapter _ s h2 λ adapter _ h3.
          Exec.lift-inv (adapter.exchange code verifier) _ s h3 λ tokens _ h4.
            Exec.lift-inv (w.resolve_token (claims_token tokens)) _ s h4 λ claims _ h5.
              Exec.raise_if-inv (not (claims.nonce == nonce)) _ _ s h5 λ _ h6.
                Exec.lift-inv (with_external_access w policy t.mapping claims tokens.access_token) _
                  s h6
                  λ identity _ h7. Exec.lift-inv cookie _ s h7 λ drawn _ h8.
                    Exec.lift-inv (encrypt_optional w tokens.refresh_token) _ s h8 λ encrypted _ h9.
                      Exec.>>=-inv (insert_session w _) _ s h9 λ _ u put h10.
                        Exec.pure-inv h10 λ _ same.
                          ap (λ (x : Tables). x.logins) (sym same) ∙ insert_session-logins w _ s put

taken-removed :
    (p : LoginRow → Bool) (o : Option LoginRow) (s : Tables) {l : LoginRow} {t : Tables}
    → taken p o s ≡ (ok l, t)
    → t.logins ≡ remove_if p s.logins
taken-removed p none s h = cc (ap (λ (q : Result LoginRow × Tables). q.0) h)
taken-removed p (some l) s h = Exec.pure-inv h λ _ same. ap (λ (x : Tables). x.logins) (sym same)

consume_login-removed :
    (w : World) (now : ℕ) (state nonce : String) (s : Tables) {l : LoginRow} {t : Tables}
    → consume_login w now state nonce s ≡ (ok l, t)
    → t.logins ≡ remove_if (is_consumable (w.sha256 state) (w.sha256 nonce) now) s.logins
unfolding consume_login
consume_login-removed w now state nonce s h =
    Exec.refused-inv (w.fails consumes_login) _ _ s h
      λ _ h1. taken-removed (is_consumable (w.sha256 state) (w.sha256 nonce) now) _ s h1

consume_login-gone :
    (w : World) (now : ℕ) (state nonce : String) (s : Tables)
    → find_first (is_consumable (w.sha256 state) (w.sha256 nonce) now) s.logins ≡ none
    → consume_login w now state nonce s ≡ (err (fault "consume Configurator login transaction"), s)
unfolding consume_login
consume_login-gone w now state nonce s gone = elim (Bool-cases (w.fails consumes_login)) [
  | inl fails ↦ rw fails
  | inr runs ↦ rw (runs, gone)
]

refused_fails :
    {A : Type 0} (test : Bool) (e : Error) (m : Exec.Exec Tables A) (s : Tables)
    → is_ok (m s).0 ≡ false
    → is_ok ((if test then Exec.raise e else m) s).0 ≡ false
refused_fails true e m s h = refl
refused_fails false e m s h = h

-- After Complete has succeeded for a state and a browser nonce, no later Complete with them succeeds
-- on the tables it left, whatever code is given and whatever the world, the external access policy
-- and the configuration are by then; the hash is the same and the database's clock has not gone back.
pub complete_once :
    (w later : World) (policy policy' : Option Policy) (cfg cfg' : AuthConfig) (t u : Times)
    (state nonce code code' : String) (cookie cookie' : Result String) (id id' : String)
    (st st' : Tables) (r : Completed)
    → later.sha256 ≡ w.sha256
    → t.database ≤ u.database
    → complete w policy cfg t state code nonce cookie id st ≡ (ok r, st')
    → is_ok (complete later policy' cfg' u state code' nonce cookie' id' st').0 ≡ false
unfolding complete
complete_once w later policy policy' cfg cfg' t u state nonce code code' cookie cookie' id id' st
      st' r same after h =
    Exec.raise_if-inv cfg.dev _ _ st h λ _ h1.
      Exec.raise_if-inv (trim_space state == "" || trim_space code == "" || trim_space nonce == "")
        _ _ st h1
        λ _ h2. Exec.>>=-inv (consume_login w t.database state nonce) _ st h2 λ login s took h3.
          let left =
            open_session-logins w policy cfg t code cookie id login s h3
            ∙ consume_login-removed w t.database state nonce st took in
          let gone =
            find_first-removed (is_consumable (w.sha256 state) (w.sha256 nonce) t.database)
              (is_consumable (w.sha256 state) (w.sha256 nonce) u.database) st.logins
              (λ (l : LoginRow) hit. ground (arith, after)) in
          let still =
            ap
              (λ (f : String → String).
                find_first (is_consumable (f state) (f nonce) u.database) st'.logins)
              same
            ∙ ap (find_first (is_consumable (w.sha256 state) (w.sha256 nonce) u.database)) left
            ∙ gone in
          refused_fails cfg'.dev _ _ st' (
            refused_fails
              (trim_space state == "" || trim_space code' == "" || trim_space nonce == "") _ _ st'
              (rw (consume_login-gone later u.database state nonce st' still)))
