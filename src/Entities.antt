-- ===== src/Entities.antt =====
-- internal/domain/entities: the records that several components share.
-- A record has the fields that the modelled code reads or writes. A `time.Time` is a number of
-- nanoseconds, and 0 is the zero time; a pointer is an `Option`.
use service_backend.Prelude.{ℕ, String, Bool, Option, ◌==◌, ltb, if◌then◌else◌, is_some}

pub record Actor : Type 0 where
  pub id : String
  pub username : String
  pub display_name : String

pub record User : Type 0 where
  pub id : String
  pub provider_id : String
  pub subject : String
  pub issuer : String
  pub username : String
  pub display_name : String
  pub active : Bool

pub record Workspace : Type 0 where
  pub id : String
  pub identity : String
  pub display_name : String
  pub active : Bool
  pub deleted_at : Option ℕ

pub record CurrentActor : Type 0 where
  pub user : Option User
  pub platform_admin : Bool

pub record WorkspaceAccess : Type 0 where
  pub workspace : Workspace
  pub role : String
  -- the role of a token's owner before the token's scope narrows it; empty for sessions
  pub owner_role : String

pub record AccessToken : Type 0 where
  pub id : String
  pub owner : Actor
  pub workspace_id : String
  pub workspace_identity : String
  pub name : String
  pub description : String
  pub scope : String
  pub can_commit : Bool
  pub can_delete : Bool
  pub token_prefix : String
  pub expires_at : ℕ
  pub last_used_at : Option ℕ
  pub revoked_at : Option ℕ

pub data TokenStatus : Type 0 where
  active expired revoked : TokenStatus

-- AccessToken.Status
unfoldable pub status : AccessToken → ℕ → TokenStatus
status t now =
    if is_some t.revoked_at then revoked else if ltb now t.expires_at then active else expired

pub record AccessTokenPrincipal : Type 0 where
  pub token_id : String
  pub user_id : String
  pub workspace_id : String
  pub workspace_identity : String
  pub scope : String
  pub can_commit : Bool
  pub can_delete : Bool
  pub expires_at : ℕ
  pub owner_platform_admin : Bool

-- AccessTokenPrincipal.CanWrite
abbrev pub token_can_write : AccessTokenPrincipal → Bool
token_can_write p = p.scope == "write"

-- AccessTokenPrincipal.CapWorkspaceRole
unfoldable pub cap_workspace_role : AccessTokenPrincipal → String → String
cap_workspace_role p role =
    if role == ""
    then ""
    else if role == "viewer"
    then "viewer"
    else if token_can_write p
    then "editor"
    else "viewer"
