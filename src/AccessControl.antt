-- ===== src/AccessControl.antt =====
-- internal/usecase/access_control: who holds which role. Grants are kept in a store of type `S`
-- behind the repository's port, which may fail. This file has the data, the ports and the helpers.
--
-- uuid.Parse, the JSON and base64 of a cursor, and the digest of mapped grants are a `Codec`.
mod Operations
mod Queries
mod Snapshot
mod Identity
mod Atomic
mod Admins
mod Bulk
mod Watermark
pub mod Rights
mod Tests
use service_backend.Prelude.{
  ℕ, String, Bool, true, false, not, ◌&&◌, ◌||◌, ◌==◌, eqb, ltb, Option, none, some, List,
  if◌then◌else◌, trim_space,
}
use service_backend.Errors.{
  Error, Result, ok, err, ◌>>=◌, ◌>>◌, refuse_if, invalid_input, forbidden, not_found,
  map_row_missing,
}
use service_backend.Entities.{User, Workspace}
use service_backend.Policy.{MappedAccessGrant}
use service_backend.Access.Context.{RequestContext, actor}
use service_backend.Access.Authorize.{WorkspaceRepository}
use service_backend.Exec.{Exec}

-- a Go `int`
pub data ℤ : Type 0 where
  pos negsuc : ℕ → ℤ

pub record AccessGrantUser : Type 0 where
  pub id : String
  pub provider_id : String
  pub username : String
  pub display_name : String
  pub active : Bool

pub record AccessGrant : Type 0 where
  pub id : String
  pub user : AccessGrantUser
  pub scope_type : String
  pub workspace_id : Option String
  pub workspace_identity : Option String
  pub role : String

pub record AccessGrantCursor : Type 0 where
  pub username : String
  pub id : String

pub record Page {ℓ} (A : Type ℓ) : Type ℓ where
  pub items : List A
  pub next : Option AccessGrantCursor

-- Page of the use case: the cursor is encoded
pub record EncodedPage {ℓ} (A : Type ℓ) : Type ℓ where
  pub items : List A
  pub next_cursor : String

pub record ExternalAccessSnapshot : Type 0 where
  pub config_version : String
  pub token_hash : String
  pub issued_at : ℕ
  pub expires_at : ℕ
  pub grants : List MappedAccessGrant

pub record ExternalAccessState : Type 0 where
  pub config_version : String
  pub token_hash : String
  pub issued_at : ℕ
  pub grants_hash : String
  pub last_synchronized_at : ℕ

pub record AccessGrantInput : Type 0 where
  pub user_id : String
  pub scope_type : String
  pub workspace_id : Option String
  pub role : String
  pub actor_id : String

pub record AccessGrantListInput : Type 0 where
  pub scope_type : String
  pub workspace_id : Option String
  pub user_id : Option String
  pub query : String
  pub cursor : Option AccessGrantCursor
  pub limit : ℤ

pub record ServiceUserSearchInput : Type 0 where
  pub query : String
  pub cursor : Option AccessGrantCursor
  pub limit : ℤ

pub record UpsertCurrentUserInput : Type 0 where
  pub provider_id : String
  pub subject : String
  pub issuer : String
  pub username : String
  pub display_name : String

-- ports.AccessControlRepository, UserRepository and WorkspaceRepository over a store
pub record Repository (S : Type 0) : Type 0 where
  pub get_external_access_state : String → Exec S (Option ExternalAccessState)
  pub has_external_access_history : Exec S Bool
  pub replace_external_access :
      String → List AccessGrantInput → ExternalAccessState → Exec S (Unit {0})
  pub lock_bootstrap : Exec S (Unit {0})
  pub has_platform_admins : Exec S Bool
  pub is_platform_admin : String → Exec S Bool
  pub count_human_users : Exec S ℕ
  pub search_service_users : ServiceUserSearchInput → Exec S (Page AccessGrantUser)
  pub get_access_grant : String → Exec S AccessGrant
  pub list_access_grants : AccessGrantListInput → Exec S (Page AccessGrant)
  pub upsert_access_grant : AccessGrantInput → Exec S (AccessGrant × Bool)
  pub delete_access_grant : String → Exec S (Unit {0})
  pub count_platform_admins : Exec S ℕ
  pub upsert_current_user : UpsertCurrentUserInput → Exec S User
  -- reading workspaces leaves the store alone
  pub workspaces : S → WorkspaceRepository

pub record Codec : Type 0 where
  pub is_uuid : String → Bool
  pub encode_page_cursor : AccessGrantCursor → String
  -- base64, then JSON
  pub decode_page_cursor : String → Option AccessGrantCursor
  pub grants_hash : List MappedAccessGrant → Result String

abbrev pub reads {ℓ} : {S : Type 0} {A : Type ℓ} → (S → Result A) → Exec S A
reads f st = (f st, st)

-- validWorkspaceRole
abbrev pub valid_workspace_role : String → Bool
valid_workspace_role role = role == "viewer" || role == "editor" || role == "admin"

-- platformAdminRequired
abbrev pub platform_admin_required : Error
platform_admin_required = forbidden "platform_admin_required"

-- normalizedLimit
unfoldable pub normalized_limit : ℤ → ℕ → ℕ → ℕ
normalized_limit (negsuc n) fallback maximum = fallback
normalized_limit (pos n) fallback maximum =
    if eqb n 0 then fallback else if ltb maximum n then maximum else n

-- encodeCursor
abbrev pub encode_cursor : Codec → Option AccessGrantCursor → String
encode_cursor codec none = ""
encode_cursor codec (some c) = codec.encode_page_cursor c

abbrev checked_cursor : Codec → Option AccessGrantCursor → Result (Option AccessGrantCursor)
checked_cursor codec none = err (invalid_input "cursor_invalid")
checked_cursor codec (some c) = do
  refuse_if (trim_space c.id == "" || not (codec.is_uuid c.id)) (invalid_input "cursor_invalid")
  ok (some c)

-- decodeCursor
unfoldable pub decode_cursor : Codec → String → Result (Option AccessGrantCursor)
decode_cursor codec text =
    if trim_space text == "" then ok none else checked_cursor codec (codec.decode_page_cursor text)

-- requireWorkspaceAdmin
unfoldable pub require_workspace_admin :
    WorkspaceRepository → RequestContext → String → Result Workspace
require_workspace_admin repo ctx identity = do
  current ← actor ctx
  refuse_if (trim_space identity == "") (invalid_input "workspace_identity_required")
  w ← map_row_missing (not_found "workspace_not_found") (repo.get_workspace (trim_space identity))
  role ← repo.workspace_role w.id current.user.id current.platform_admin
  refuse_if (not (role == "admin") && not (role == "platform_admin"))
      (forbidden "workspace_admin_required")
  ok w

-- requireGrantAdmin
unfoldable pub require_grant_admin :
    WorkspaceRepository → RequestContext → String → Result (Unit {0})
unfolding require_workspace_admin
require_grant_admin repo ctx identity = do
  current ← actor ctx
  if current.platform_admin
      then ok tt
      else (do w ← require_workspace_admin repo ctx identity; ok tt)
