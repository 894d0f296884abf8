-- ===== src/AccessTokens.antt =====
-- internal/usecase/access_tokens: issuing, listing, revoking and checking personal access tokens.
-- The repositories are a store of type `S` behind its port. Randomness, SHA-256 and base64 are
-- parameters, and the clock is an argument.
mod Operations
mod Issue
mod Authentication
mod Tests
use Prim.Native.String.{len, count, ◌++◌, slice}
use text.Mathlib.Text.{starts_with}
use service_backend.Prelude.{
  ℕ, ◌+◌, ◌-◌, ◌*◌, String, Bool, true, false, not, ◌&&◌, ◌||◌, ◌==◌, ltb, leb, eqb, Option, none,
  some, List, if◌then◌else◌, trim_space,
}
use service_backend.Errors.{
  Error, Result, ok, err, ◌>>=◌, ◌>>◌, refuse_if, invalid_input, unauthorized, forbidden, not_found,
  map_row_missing,
}
use service_backend.Entities.{
  User, Workspace, AccessToken, AccessTokenPrincipal, TokenStatus, active, expired, revoked, status,
}
use service_backend.Access.Context.{RequestContext, Caller, actor, via_token, can_write, can_admin}
use service_backend.Access.Authorize.{WorkspaceRepository}
use service_backend.Exec.{Exec}

abbrev pub second : ℕ
second = 1000000000

-- LastUsedInterval and minimumLifetime: a minute
abbrev pub last_used_interval : ℕ
last_used_interval = 60 * second

abbrev pub minimum_lifetime : ℕ
minimum_lifetime = 60 * second

pub record CreateInput : Type 0 where
  pub workspace_identity : String
  pub name : String
  pub description : String
  pub scope : String
  pub can_commit : Bool
  pub can_delete : Bool
  pub expires_at : ℕ

pub record Created : Type 0 where
  pub token : AccessToken
  pub secret : String

pub record Authenticated : Type 0 where
  pub principal : AccessTokenPrincipal
  pub owner : User

-- ports.CreateAccessTokenInput
pub record CreateAccessTokenInput : Type 0 where
  pub user_id : String
  pub workspace_id : String
  pub name : String
  pub description : String
  pub scope : String
  pub can_commit : Bool
  pub can_delete : Bool
  pub token_prefix : String
  pub secret_hash : String
  pub expires_at : ℕ

-- ports.AccessTokenCredential
pub record AccessTokenCredential : Type 0 where
  pub token : AccessToken
  pub secret_hash : String
  pub owner : User

-- ports.AccessTokenRepository over a store `S`
pub record AccessTokenRepository (S : Type 0) : Type 0 where
  pub create_access_token : CreateAccessTokenInput → Exec S AccessToken
  pub list_access_tokens : Option String → Exec S (List AccessToken)
  pub get_access_token : String → Exec S AccessToken
  pub find_access_token_credential : String → Exec S AccessTokenCredential
  pub revoke_access_token : String → String → Exec S (Unit {0})
  pub touch_access_token : String → ℕ → Exec S (Unit {0})

-- crypto/rand, crypto/sha256 and encoding/base64
pub record Crypto : Type 0 where
  pub sha256 : String → String
  pub is_raw_url_base64 : String → Bool

abbrev pub secret_prefix : String
secret_prefix = "endge_pat_"

-- IsAccessTokenSecret
abbrev pub is_access_token_secret : String → Bool
is_access_token_secret value = starts_with value secret_prefix

-- validSecretFormat
pub valid_secret_format : Crypto → String → Bool
valid_secret_format crypto value =
    is_access_token_secret value
    && eqb (len value - len secret_prefix) 43
    && crypto.is_raw_url_base64 (slice value (len secret_prefix) (len value))

-- sessionActor: a token cannot manage tokens
pub session_actor : RequestContext → Result Caller
session_actor ctx = do
  refuse_if (via_token ctx.access_token) (forbidden "access_token_management_forbidden")
  actor ctx

-- the defaults and the trimming at the head of validateCreate
pub normalize : CreateInput → CreateInput
normalize i = record i {
  name = trim_space i.name;
  description = trim_space i.description;
  scope = (let scope = trim_space i.scope in if scope == "" then "read" else scope);
}

-- validateCreate; `max_ttl` is the configured limit
pub validate_create : ℕ → ℕ → CreateInput → Result CreateInput
validate_create max_ttl now input = do
  let i = normalize input
  refuse_if (trim_space i.workspace_identity == "") (invalid_input "workspace_required")
  refuse_if (i.name == "" || ltb 120 (count i.name)) (invalid_input "access_token_name_invalid")
  refuse_if (ltb 1000 (count i.description)) (invalid_input "access_token_description_invalid")
  refuse_if (not (i.scope == "read") && not (i.scope == "write"))
      (invalid_input "access_token_scope_invalid")
  refuse_if ((i.can_commit || i.can_delete) && not (i.scope == "write"))
      (invalid_input "access_token_flags_require_write")
  refuse_if (eqb i.expires_at 0) (invalid_input "access_token_expiry_required")
  refuse_if (ltb i.expires_at (now + minimum_lifetime))
      (invalid_input "access_token_expiry_invalid")
  refuse_if (ltb (now + max_ttl) i.expires_at) (invalid_input "access_token_expiry_too_long")
  ok i

-- the checks of Create up to the generation of the secret
pub prepare :
    WorkspaceRepository
    → ℕ
    → ℕ
    → RequestContext
    → CreateInput
    → Result (Caller × CreateInput × Workspace)
prepare workspaces max_ttl now ctx input = do
  current ← session_actor ctx
  i ← validate_create max_ttl now input
  w ←
      map_row_missing (not_found "workspace_not_found")
        (workspaces.get_workspace (trim_space i.workspace_identity))
  role ← workspaces.workspace_role w.id current.user.id current.platform_admin
  refuse_if (role == "") (forbidden "workspace_forbidden")
  refuse_if (i.scope == "write" && not (can_write role))
      (forbidden "access_token_scope_exceeds_role")
  refuse_if (i.can_commit && not (can_admin role)) (forbidden "access_token_owner_admin_required")
  ok (current, i, w)

-- generateSecret, from the base64 text of the 32 random bytes
pub secret_of : String → String
secret_of body = secret_prefix ++ body

pub display_prefix : String → String
display_prefix body = secret_prefix ++ slice body 0 8

abbrev pub creation : Crypto → String → Caller × CreateInput × Workspace → CreateAccessTokenInput
creation crypto body (current, i, w) = record {
  user_id = current.user.id;
  workspace_id = w.id;
  name = i.name;
  description = i.description;
  scope = i.scope;
  can_commit = i.can_commit;
  can_delete = i.can_delete;
  token_prefix = display_prefix body;
  secret_hash = crypto.sha256 (secret_of body);
  expires_at = i.expires_at;
}
