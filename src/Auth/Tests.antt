-- ===== src/Auth/Tests.antt =====
-- One browser login and the session it opens, with tokens that the provider always accepts.
use service_backend.Prelude.{
  ℕ, ◌+◌, ◌*◌, String, ◌≡◌, ◌==◌, ◌||◌, refl, true, false, none, some, Option, [], ◌∷◌, trim_space,
  arith, inl,
}
use service_backend.Errors.{ok, err, is_ok, fault}
use service_backend.AccessControl.{pos}
use service_backend.Policy.{Policy}
use service_backend.Auth.{
  second, day, AuthConfig, Claims, LoginAdapter, LoginRow, SessionRow, Tables, Times, TokenSet,
  World,
}
use service_backend.Auth.Access.{identity_of, refresh_due, token_expiry, with_external_access}
use service_backend.Auth.ReturnUrl.{Url, Urls, safe_return_url}
use service_backend.Auth.Login.{Completed, complete, consume_login, open_session, insert_session}
use service_backend.Auth.Renewal.{renewal}
use service_backend.Auth.Sessions.{
  is_stale, select_session, cleanup, resolve, resolve_after_stale, resolve_with_refresh, revoke,
}
use service_backend.Auth.Dead.{revoke_final, refresh_fails_closed}
use service_backend.Auth.Identity.{Stands, resolve-Stands}
use service_backend.Auth.Cleanup.{cleanup_unseen}
use service_backend.Auth.OneTime.{complete_once}
use service_backend.Auth.Redirect.{IsSafe, no_open_redirect}

abbrev ann : Claims
ann = record {
  provider_id = "idp";
  subject = "ann";
  issuer = "https://idp";
  username = "ann";
  display_name = "Ann";
  nonce = "n1";
  groups = [];
  platform_admin = false;
  expires_at = 0;
  issued_at = 0;
  token_hash = "";
  attributes = none;
  external_access = none;
}

abbrev tokens : TokenSet
tokens = record {
  access_token = "a1";
  refresh_token = "r1";
  identity_token = "i1";
  expires_in = pos 3600;
}

abbrev idp : LoginAdapter
idp = record {
  login_url = λ state challenge nonce prompt. ok "https://idp/auth";
  exchange = λ code verifier. ok tokens;
  refresh = λ token. ok tokens;
  logout = λ token. ok tt;
}

abbrev world : World
world = record {
  sha256 = λ s. s;
  challenge = λ s. s;
  encrypt = λ s. ok s;
  decrypt = λ s. ok s;
  resolve_token = λ token. ok ann;
  current_adapter = ok idp;
  equal_numbers = λ a b. a == b;
  fails = λ statement. false;
}

abbrev at : ℕ → Times
at now = record {
  database = now;
  locked = now;
  first_check = now;
  second_check = now;
  mapping = now;
  expiry = now;
}

abbrev config : AuthConfig
config = record {
  dev = false;
  session_ttl = 30 * day;
  transaction_ttl = 600 * second;
  return_url = "https://app/";
  allowed_return_origins = "https://other/" ∷ [];
}

abbrev policy : Option Policy
policy = none

abbrev row : SessionRow
row = record {
  id = "s1";
  token_hash = "cookie";
  provider_id = "idp";
  subject = "ann";
  issuer = "https://idp";
  username = "ann";
  display_name = "Ann";
  groups = [];
  platform_admin = false;
  refresh_token_encrypted = "";
  identity_refresh_at = 50 * second;
  expires_at = day;
  external_access = none;
  revoked_at = none;
}

abbrev tables : Tables
tables = record { logins = []; sessions = row ∷ [] }

-- the session needs no refresh yet
resolve_runs : resolve world policy (at second) "cookie" tables ≡ (ok (identity_of row), tables)
unfolding resolve select_session refresh_due trim_space
resolve_runs = refl

resolve-Stands_example : Stands world "cookie" (at second) tables (identity_of row)
resolve-Stands_example =
    resolve-Stands world policy (at second) "cookie" "" tables (identity_of row) tables
      (inl resolve_runs)

revoke_final_example :
    is_ok
      (resolve world policy (at second) "cookie" (revoke world config second "cookie" tables).1).0
    ≡ false
unfolding trim_space
revoke_final_example =
    revoke_final world world config policy second (at second) "cookie" tables refl refl refl refl

is_selected : select_session world "cookie" (30 * second) tables ≡ ok row
unfolding select_session
is_selected = refl

is_due : (refresh_due policy row (30 * second) || is_stale "" row.external_access) ≡ true
unfolding refresh_due
is_due = refl

-- there is no refresh token
is_declined :
    renewal world policy (at (30 * second)) row ≡ err (fault "configurator session has expired")
unfolding renewal
is_declined = refl

refresh_fails_closed_example :
    ((resolve_with_refresh world policy (at (30 * second)) "cookie" "" tables).0
      ≡ err (fault "configurator session has expired"))
    × (is_ok
          (resolve world policy
            (at (31 * second))
            "cookie"
            (resolve_with_refresh world policy (at (30 * second)) "cookie" "" tables).1).0
        ≡ false)
refresh_fails_closed_example =
    refresh_fails_closed world world policy (at (30 * second)) (at (31 * second)) "cookie" "" tables
      row (fault "configurator session has expired") refl refl refl refl is_selected is_due
      is_declined

cleanup_unseen_example :
    ((resolve world policy (at second) "cookie" (cleanup world 0 tables).1).0
      ≡ (resolve world policy (at second) "cookie" tables).0)
    × ((resolve_after_stale world policy (at second) "cookie" "old" (cleanup world 0 tables).1).0
        ≡ (resolve_after_stale world policy (at second) "cookie" "old" tables).0)
cleanup_unseen_example =
    cleanup_unseen world world policy (at second) "cookie" "old" 0 tables (omega arith)
      (omega arith)

abbrev login : LoginRow
login = record {
  state_hash = "x1";
  browser_nonce_hash = "b1";
  verifier_encrypted = "v1";
  oidc_nonce_encrypted = "n1";
  return_url = "https://app/";
  expires_at = 600 * second;
}

abbrev started : Tables
started = record { logins = login ∷ []; sessions = [] }

abbrev opened : SessionRow
opened = record {
  id = "s1";
  token_hash = "cookie";
  provider_id = "idp";
  subject = "ann";
  issuer = "https://idp";
  username = "ann";
  display_name = "Ann";
  groups = [];
  platform_admin = false;
  refresh_token_encrypted = "r1";
  identity_refresh_at = 3601 * second;
  expires_at = second + 30 * day;
  external_access = none;
  revoked_at = none;
}

abbrev completed : Completed
completed = record {
  cookie = "cookie";
  return_url = "https://app/";
  expires_at = second + 30 * day;
}

complete_runs :
    complete world policy config (at second) "x1" "code" "b1" (ok "cookie") "s1" started
    ≡ (ok completed, record { logins = []; sessions = opened ∷ [] })
unfolding complete trim_space consume_login open_session insert_session with_external_access
    token_expiry
complete_runs = refl

complete_once_example :
    is_ok
      (complete world policy config
        (at (2 * second))
        "x1"
        "code"
        "b1"
        (ok "cookie2")
        "s2"
        (record { logins = []; sessions = opened ∷ [] })).0
    ≡ false
complete_once_example =
    complete_once world world policy policy config config (at second) (at (2 * second)) "x1" "b1"
      "code" "code" (ok "cookie") (ok "cookie2") "s1" "s2" started
      (record { logins = []; sessions = opened ∷ [] }) completed refl (omega arith) complete_runs

abbrev url : String → Url
url text = record {
  text = text;
  scheme = "https";
  host = text;
  has_user = false;
  is_absolute = true;
}

abbrev urls : Urls
urls = record {
  parse = λ s. some (url s);
  resolve_reference = λ base relative. relative;
  equal_fold = λ a b. a == b;
}

no_open_redirect_example :
    IsSafe urls config "https://evil/" (safe_return_url urls config "https://evil/")
no_open_redirect_example = no_open_redirect urls config "https://evil/"
