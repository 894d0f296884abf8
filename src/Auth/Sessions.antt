-- ===== src/Auth/Sessions.antt =====
-- Resolve, ResolveAfterStale, Revoke and Cleanup of internal/auth/session_manager.go.
--
-- resolveWithRefresh holds the row's lock from its SELECT to its commit, so it is one step. A failed
-- UPDATE aborts the transaction, and then the revocation that follows has no effect either.
use service_backend.Prelude.{
  ℕ, ◌+◌, String, Bool, false, not, ◌&&◌, ◌||◌, ◌==◌, leb, is_some, Option, none, some, List,
  find_first, remove_if, update_if, if◌then◌else◌, trim_space,
}
use service_backend.Errors.{Result, ok, err, fault}
use service_backend.AccessControl.{ExternalAccessSnapshot}
use service_backend.Policy.{Policy, external}
use service_backend.Exec.{Exec, pure, raise}
use service_backend.Auth.{
  AuthConfig, LoginAdapter, LoginRow, SessionIdentity, SessionRow, begins, selects, updates_session,
  revokes, deletes_logins, deletes_sessions, commits, Tables, Times, World, is_live, day,
}
use service_backend.Auth.Access.{decrypt_optional, identity_of, refresh_due}
use service_backend.Auth.Renewal.{Renewal, renewal}

-- UPDATE ... SET revoked_at WHERE token_hash
abbrev pub revoked_rows : String → ℕ → List SessionRow → List SessionRow
revoked_rows hash now rows =
    update_if (λ (r : SessionRow). r.token_hash == hash) (λ r. record r { revoked_at = some now })
      rows

abbrev pub renewed_row : Renewal → SessionRow → SessionRow
renewed_row n r = record r {
  username = n.claims.username;
  display_name = n.claims.display_name;
  groups = n.claims.groups;
  platform_admin = n.claims.platform_admin;
  refresh_token_encrypted = n.refresh_encrypted;
  identity_refresh_at = n.refresh_at;
  external_access = n.claims.external_access;
}

-- the UPDATE in refresh
abbrev pub renewed_rows : String → Renewal → List SessionRow → List SessionRow
renewed_rows hash n rows =
    update_if (λ (r : SessionRow). r.token_hash == hash && not (is_some r.revoked_at))
      (renewed_row n) rows

abbrev row_or_fault : Option SessionRow → Result SessionRow
row_or_fault none = err (fault "configurator session is invalid")
row_or_fault (some r) = ok r

-- sessionSelect and scanSessionRecord
unfoldable pub select_session : World → String → ℕ → Tables → Result SessionRow
select_session w cookie now st =
    if w.fails selects
    then err (fault "configurator session is invalid")
    else row_or_fault (find_first (is_live (w.sha256 cookie) now) st.sessions)

-- `record.ExternalAccess.TokenHash == staleTokenHash`, with a token hash to compare
abbrev pub is_stale : String → Option ExternalAccessSnapshot → Bool
is_stale stale none = false
is_stale stale (some s) = not (stale == "") && s.token_hash == stale

-- the refresh in the transaction of resolveWithRefresh, and its commit
unfoldable pub renew :
    World → Times → String → SessionRow → Result Renewal → Exec Tables SessionIdentity
renew w t cookie row (err e) st =
    if w.fails revokes || w.fails commits
    then raise e st
    else raise e (record st { sessions = revoked_rows (w.sha256 cookie) t.locked st.sessions })
renew w t cookie row (ok n) st =
    if w.fails updates_session
    then raise (fault "update refreshed Configurator session") st
    else if w.fails commits
    then raise (fault "commit refreshed Configurator session") st
    else pure
        (record { claims = record n.claims { expires_at = n.refresh_at }; session_id = row.id })
        (record st { sessions = renewed_rows (w.sha256 cookie) n st.sessions })

abbrev pub with_locked :
    World
    → Option Policy
    → Times
    → String
    → String
    → Result SessionRow
    → Exec Tables SessionIdentity
with_locked w policy t cookie stale (err e) st = raise e st
with_locked w policy t cookie stale (ok row) st =
    if refresh_due policy row t.second_check || is_stale stale row.external_access
    then renew w t cookie row (renewal w policy t row) st
    else if w.fails commits
    then raise (fault "commit Configurator session resolution") st
    else pure (identity_of row) st

-- resolveWithRefresh
unfoldable pub resolve_with_refresh :
    World → Option Policy → Times → String → String → Exec Tables SessionIdentity
unfolding select_session renew
resolve_with_refresh w policy t cookie stale st =
    if w.fails begins
    then raise (fault "begin Configurator session resolution") st
    else with_locked w policy t cookie stale (select_session w cookie t.locked st) st

abbrev pub with_selected :
    World → Option Policy → Times → String → Result SessionRow → Exec Tables SessionIdentity
with_selected w policy t cookie (err e) st = raise e st
with_selected w policy t cookie (ok row) st =
    if not (refresh_due policy row t.first_check)
    then pure (identity_of row) st
    else resolve_with_refresh w policy t cookie "" st

-- Resolve
unfoldable pub resolve : World → Option Policy → Times → String → Exec Tables SessionIdentity
unfolding select_session resolve_with_refresh
resolve w policy t cookie st =
    if trim_space cookie == ""
    then raise (fault "configurator session cookie is required") st
    else with_selected w policy t cookie (select_session w cookie t.database st) st

-- ResolveAfterStale
unfoldable pub resolve_after_stale :
    World → Option Policy → Times → String → String → Exec Tables SessionIdentity
unfolding resolve_with_refresh
resolve_after_stale w policy t cookie stale st =
    if trim_space cookie == "" || stale == "" || not (external policy)
    then raise (fault "stale external session evidence is required") st
    else resolve_with_refresh w policy t cookie stale st

-- the WHERE of the UPDATE in Revoke
abbrev pub is_unrevoked : String → SessionRow → Bool
is_unrevoked hash r = r.token_hash == hash && not (is_some r.revoked_at)

-- what Revoke answers: logging out at the provider, when there is a refresh token
abbrev log_out : World → String → Result (Unit {0})
log_out w encrypted = logged_out (decrypt_optional w encrypted)
  where
    at_provider : String → Result LoginAdapter → Result (Unit {0})
    at_provider token (err e) = err e
    at_provider token (ok adapter) = adapter.logout token

    logged_out : Result String → Result (Unit {0})
    logged_out (err e) = err e
    logged_out (ok token) = if token == "" then ok tt else at_provider token w.current_adapter

abbrev pub revoked_row : World → ℕ → String → Option SessionRow → Exec Tables (Unit {0})
revoked_row w now hash none st = pure tt st
revoked_row w now hash (some r) st = (
  log_out w r.refresh_token_encrypted,
  record st {
    sessions =
        update_if (is_unrevoked hash) (λ (x : SessionRow). record x { revoked_at = some now })
          st.sessions;
  },
)

-- Revoke
unfoldable pub revoke : World → AuthConfig → ℕ → String → Exec Tables (Unit {0})
revoke w cfg now cookie st =
    if trim_space cookie == "" || cfg.dev || w.fails revokes
    then pure tt st
    else revoked_row w now (w.sha256 cookie)
        (find_first (is_unrevoked (w.sha256 cookie)) st.sessions) st

abbrev pub revoked_long_ago : ℕ → Option ℕ → Bool
revoked_long_ago now none = false
revoked_long_ago now (some at) = leb (at + day) now

abbrev pub is_spent : ℕ → SessionRow → Bool
is_spent now r = leb r.expires_at now || revoked_long_ago now r.revoked_at

abbrev pub swept : ℕ → Tables → Tables
swept now st = record {
  logins = remove_if (λ (l : LoginRow). leb l.expires_at now) st.logins;
  sessions = remove_if (is_spent now) st.sessions;
}

-- Cleanup; its four failures share one text here
unfoldable pub cleanup : World → ℕ → Exec Tables (Unit {0})
cleanup w now st =
    if w.fails begins || w.fails deletes_logins || w.fails deletes_sessions || w.fails commits
    then raise (fault "Configurator auth cleanup") st
    else pure tt (swept now st)
