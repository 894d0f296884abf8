-- ===== src/Access/Context.antt =====
-- internal/usecase/shared/context.go over a request's context as a record.
pub mod Order
use service_backend.Prelude.{String, Bool, not, ◌&&◌, ◌||◌, ◌==◌, Option, none, some}
use service_backend.Errors.{
  Result, ok, err, ◌>>=◌, ◌>>◌, refuse_if, unauthorized, invalid_input, forbidden,
}
use service_backend.Entities.{
  User, CurrentActor, WorkspaceAccess, AccessTokenPrincipal, token_can_write,
}

-- the values that the middleware puts into `context.Context`
pub record RequestContext : Type 0 where
  pub current_actor : Option CurrentActor
  pub workspace_access : Option WorkspaceAccess
  pub access_token : Option AccessTokenPrincipal

-- CanWrite
abbrev pub can_write : String → Bool
can_write role = role == "editor" || role == "admin" || role == "platform_admin"

-- CanAdmin
abbrev pub can_admin : String → Bool
can_admin role = role == "admin" || role == "platform_admin"

-- The actor that `Actor` returns with no error has a user.
pub record Caller : Type 0 where
  pub user : User
  pub platform_admin : Bool

abbrev caller_of : Option User → Bool → Result Caller
caller_of none platform = err (unauthorized "auth.current_user_missing")
caller_of (some u) platform = ok (record { user = u; platform_admin = platform })

-- Actor
unfoldable pub actor : RequestContext → Result Caller
actor ctx = elim ctx.current_actor [
  | none ↦ err (unauthorized "auth.current_user_missing")
  | some a ↦ caller_of a.user a.platform_admin
]

-- Access
unfoldable pub access : RequestContext → Result WorkspaceAccess
access ctx = elim ctx.workspace_access [
  | none ↦ err (invalid_input "workspace_required")
  | some a ↦ ok a
]

abbrev pub token_is_read_only : Option AccessTokenPrincipal → Bool
token_is_read_only none = Bool.false
token_is_read_only (some token) = not (token_can_write token)

abbrev pub via_token : Option AccessTokenPrincipal → Bool
via_token none = Bool.false
via_token (some token) = Bool.true

-- WriteContext
unfoldable pub write_context : RequestContext → Result (Caller × WorkspaceAccess)
unfolding actor access
write_context ctx = do
  current ← actor ctx
  scope ← access ctx
  refuse_if (token_is_read_only ctx.access_token) (forbidden "access_token_scope_insufficient")
  refuse_if (not (can_write scope.role)) (forbidden "workspace_editor_required")
  ok (current, scope)

-- AdminContext
unfoldable pub admin_context : RequestContext → Result (Caller × WorkspaceAccess)
unfolding actor access
admin_context ctx = do
  current ← actor ctx
  scope ← access ctx
  refuse_if (via_token ctx.access_token) (forbidden "access_token_admin_forbidden")
  refuse_if (not (can_admin scope.role)) (forbidden "workspace_admin_required")
  ok (current, scope)

abbrev token_commit :
    AccessTokenPrincipal → Caller × WorkspaceAccess → Result (Caller × WorkspaceAccess)
token_commit token (current, scope) = do
  refuse_if (not token.can_commit) (forbidden "access_token_commit_forbidden")
  refuse_if (not (can_admin scope.owner_role)) (forbidden "access_token_owner_admin_required")
  ok (current, scope)

-- CommitContext
unfoldable pub commit_context : RequestContext → Result (Caller × WorkspaceAccess)
unfolding write_context admin_context
commit_context ctx = elim ctx.access_token [
  | none ↦ admin_context ctx
  | some token ↦ write_context ctx >>= token_commit token
]
