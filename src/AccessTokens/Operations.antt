-- ===== src/AccessTokens/Operations.antt =====
-- The operations of internal/usecase/access_tokens/usecase.go over a store.
use service_backend.Prelude.{
  ℕ, ◌-◌, String, Bool, true, false, not, ◌&&◌, ◌==◌, leb, Option, none, some, List, if◌then◌else◌,
  trim_space,
}
use service_backend.Errors.{Error, Result, unauthorized, forbidden, not_found}
use service_backend.Entities.{AccessToken, TokenStatus, active, expired, revoked, status}
use service_backend.Access.Context.{RequestContext}
use service_backend.Access.Authorize.{WorkspaceRepository}
use service_backend.Exec.{Exec, pure, raise, lift, ignore, not_found_as, ◌>>=◌, ◌>>◌}
use service_backend.AccessTokens.{
  CreateInput, Created, Authenticated, AccessTokenCredential, AccessTokenRepository, Crypto,
  last_used_interval, valid_secret_format, session_actor, prepare, secret_of, creation,
}

unfoldable pub invalid_token : Error
invalid_token = unauthorized "access_token_invalid"

-- `last == nil || now.Sub(*last) >= LastUsedInterval`
abbrev due : ℕ → Option ℕ → Bool
due now none = true
due now (some last) = leb last_used_interval (now - last)

module _ {S : Type 0} (tokens : AccessTokenRepository S) where
  -- Create; `random` is what generateSecret encodes, or the failure of the source of randomness
  unfoldable pub create :
      Crypto
      → WorkspaceRepository
      → ℕ
      → ℕ
      → Result String
      → RequestContext
      → CreateInput
      → Exec S Created
  create crypto workspaces max_ttl now random ctx input = do
    p ← lift (prepare workspaces max_ttl now ctx input)
    body ← lift random
    token ← tokens.create_access_token (creation crypto body p)
    pure (record { token = token; secret = secret_of body })

  -- List
  unfoldable pub list : RequestContext → Bool → Exec S (List AccessToken)
  list ctx all = do
    current ← lift (session_actor ctx)
    if all
        then (if current.platform_admin
            then tokens.list_access_tokens none
            else raise (forbidden "platform_admin_required"))
        else tokens.list_access_tokens (some current.user.id)

  -- Revoke
  unfoldable pub revoke : RequestContext → String → Exec S (Unit {0})
  revoke ctx id = do
    current ← lift (session_actor ctx)
    token ←
        not_found_as (not_found "access_token_not_found") (tokens.get_access_token (trim_space id))
    if not (token.owner.id == current.user.id) && not current.platform_admin
        then raise (not_found "access_token_not_found")
        else tokens.revoke_access_token token.id current.user.id

  abbrev pub principal_of : AccessTokenCredential → Authenticated
  principal_of credential = record {
    principal = record {
      token_id = t.id;
      user_id = credential.owner.id;
      workspace_id = t.workspace_id;
      workspace_identity = t.workspace_identity;
      scope = t.scope;
      can_commit = t.can_commit;
      can_delete = t.can_delete;
      expires_at = t.expires_at;
      owner_platform_admin = false;
    };
    owner = credential.owner;
  }
    where
      t : AccessToken
      t = credential.token

  -- Authenticate from the status of the token on: an active token is touched if that is due
  unfoldable pub accept : ℕ → AccessTokenCredential → TokenStatus → Exec S Authenticated
  accept now credential revoked = raise (unauthorized "access_token_revoked")
  accept now credential expired = raise (unauthorized "access_token_expired")
  accept now credential active =
      if due now credential.token.last_used_at
      then (do
        ignore (tokens.touch_access_token credential.token.id last_used_interval)
        pure (principal_of credential))
      else pure (principal_of credential)

  -- Authenticate
  unfoldable pub authenticate : Crypto → ℕ → String → Exec S Authenticated
  unfolding accept invalid_token
  authenticate crypto now secret =
      if not (valid_secret_format crypto secret) then raise invalid_token else do
        credential ←
            not_found_as invalid_token (tokens.find_access_token_credential (crypto.sha256 secret))
        if not (credential.secret_hash == crypto.sha256 secret)
            then raise invalid_token
            else accept now credential (status credential.token now)
