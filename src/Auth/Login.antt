-- ===== src/Auth/Login.antt =====
-- Begin and Complete of internal/auth/session_manager.go. What secureRandom draws comes as `Draws`.
use service_backend.Prelude.{
  ℕ, ◌+◌, String, Bool, not, ◌&&◌, ◌||◌, ◌==◌, ltb, any, Option, none, some, ◌∷◌, find_first,
  remove_if, if◌then◌else◌, trim_space,
}
use service_backend.Errors.{Result, fault}
use service_backend.Policy.{Policy}
use service_backend.Exec.{Exec, pure, raise, lift, ◌>>=◌, ◌>>◌}
use service_backend.Auth.{
  AuthConfig, LoginRow, LoginStart, SessionRow, inserts_login, consumes_login, inserts_session,
  Tables, Times, World,
}
use service_backend.Auth.Access.{with_external_access, claims_token, encrypt_optional, token_expiry}
use service_backend.Auth.ReturnUrl.{Urls, safe_return_url}

pub record Draws : Type 0 where
  pub state : Result String
  pub verifier : Result String
  pub browser_nonce : Result String
  pub oidc_nonce : Result String

-- INSERT under the primary key state_hash
abbrev insert_login : World → LoginRow → Exec Tables (Unit {0})
insert_login w row st =
    if w.fails inserts_login || any (λ (l : LoginRow). l.state_hash == row.state_hash) st.logins
    then raise (fault "store Configurator login transaction") st
    else pure tt (record st { logins = row ∷ st.logins })

-- Begin
unfoldable pub begin :
    World → Urls → AuthConfig → ℕ → Draws → String → Bool → Exec Tables LoginStart
unfolding safe_return_url
begin w urls cfg now draws requested prompt =
    if cfg.dev
    then pure (record {
      location = safe_return_url urls cfg requested;
      browser_nonce = "";
      expires_at = 0;
    })
    else (do
      adapter ← lift w.current_adapter
      state ← lift draws.state
      verifier ← lift draws.verifier
      browser_nonce ← lift draws.browser_nonce
      oidc_nonce ← lift draws.oidc_nonce
      verifier_encrypted ← lift (w.encrypt verifier)
      oidc_nonce_encrypted ← lift (w.encrypt oidc_nonce)
      insert_login w (record {
        state_hash = w.sha256 state;
        browser_nonce_hash = w.sha256 browser_nonce;
        verifier_encrypted = verifier_encrypted;
        oidc_nonce_encrypted = oidc_nonce_encrypted;
        return_url = safe_return_url urls cfg requested;
        expires_at = now + cfg.transaction_ttl;
      })
      location ← lift (adapter.login_url state (w.challenge verifier) oidc_nonce prompt)
      pure (record {
        location = location;
        browser_nonce = browser_nonce;
        expires_at = now + cfg.transaction_ttl;
      }))

-- the WHERE of the DELETE in Complete
abbrev pub is_consumable : String → String → ℕ → LoginRow → Bool
is_consumable state_hash nonce_hash now l =
    l.state_hash == state_hash && l.browser_nonce_hash == nonce_hash && ltb now l.expires_at

abbrev pub taken : (LoginRow → Bool) → Option LoginRow → Exec Tables LoginRow
taken p none st = raise (fault "consume Configurator login transaction") st
taken p (some l) st = pure l (record st { logins = remove_if p st.logins })

-- DELETE ... RETURNING
unfoldable pub consume_login : World → ℕ → String → String → Exec Tables LoginRow
consume_login w now state nonce st =
    let p = is_consumable (w.sha256 state) (w.sha256 nonce) now in
    if w.fails consumes_login
    then raise (fault "consume Configurator login transaction") st
    else taken p (find_first p st.logins) st

-- INSERT under the unique token_hash
unfoldable pub insert_session : World → SessionRow → Exec Tables (Unit {0})
insert_session w row st =
    if w.fails inserts_session
      || any (λ (s : SessionRow). s.token_hash == row.token_hash) st.sessions
    then raise (fault "create configurator session") st
    else pure tt (record st { sessions = row ∷ st.sessions })

pub record Completed : Type 0 where
  pub cookie : String
  pub return_url : String
  pub expires_at : ℕ

-- Complete after the login row is consumed; `cookie` is what secureRandom draws and `id` the row's
unfoldable pub open_session :
    World
    → Option Policy
    → AuthConfig
    → Times
    → String
    → Result String
    → String
    → LoginRow
    → Exec Tables Completed
unfolding insert_session with_external_access token_expiry
open_session w policy cfg t code cookie id login = do
  verifier ← lift (w.decrypt login.verifier_encrypted)
  expected_nonce ← lift (w.decrypt login.oidc_nonce_encrypted)
  adapter ← lift w.current_adapter
  tokens ← lift (adapter.exchange code verifier)
  claims ← lift (w.resolve_token (claims_token tokens))
  if not (claims.nonce == expected_nonce)
      then raise (fault "OIDC identity nonce is invalid")
      else do
        identity ← lift (with_external_access w policy t.mapping claims tokens.access_token)
        cookie_token ← lift cookie
        refresh_encrypted ← lift (encrypt_optional w tokens.refresh_token)
        insert_session w (record {
          id = id;
          token_hash = w.sha256 cookie_token;
          provider_id = identity.provider_id;
          subject = identity.subject;
          issuer = identity.issuer;
          username = identity.username;
          display_name = identity.display_name;
          groups = identity.groups;
          platform_admin = identity.platform_admin;
          refresh_token_encrypted = refresh_encrypted;
          identity_refresh_at = token_expiry t.expiry tokens.expires_in identity.expires_at;
          expires_at = t.expiry + cfg.session_ttl;
          external_access = identity.external_access;
          revoked_at = none;
        })
        pure (record {
          cookie = cookie_token;
          return_url = login.return_url;
          expires_at = t.expiry + cfg.session_ttl;
        })

-- Complete
unfoldable pub complete :
    World
    → Option Policy
    → AuthConfig
    → Times
    → String
    → String
    → String
    → Result String
    → String
    → Exec Tables Completed
unfolding consume_login open_session
complete w policy cfg t state code nonce cookie id =
    if cfg.dev
    then raise (fault "OIDC callback is unavailable in dev login mode")
    else if trim_space state == "" || trim_space code == "" || trim_space nonce == ""
    then raise (fault "OIDC callback state, code and browser binding are required")
    else (do
      login ← consume_login w t.database state nonce
      open_session w policy cfg t code cookie id login)
