-- ===== src/Access/Authorize.antt =====
-- internal/usecase/workspaces/queries.go. The workspace repository is a parameter: it answers from
-- the database.
pub mod Limits
use service_backend.Prelude.{
  String, Bool, true, false, not, ◌||◌, ◌==◌, Option, none, some, List, [], ◌∷◌, if◌then◌else◌,
  trim_space,
}
use service_backend.Errors.{
  Error, Result, ok, err, ◌>>=◌, ◌>>◌, refuse_if, forbidden, not_found, code_of, map_row_missing,
}
use service_backend.Entities.{Workspace, WorkspaceAccess, AccessTokenPrincipal, cap_workspace_role}
use service_backend.Access.Context.{RequestContext, Caller, actor, via_token}

-- the part of ports.WorkspaceRepository that the queries call
pub record WorkspaceRepository : Type 0 where
  pub get_workspace : String → Result Workspace
  pub list_workspaces : String → Bool → Result (List Workspace)
  pub workspace_role : String → String → Bool → Result String
  pub list_deleted_workspaces : String → Bool → Result (List Workspace)
  pub deleted_workspace_role : String → String → Bool → Result String

-- `if viaToken` of Authorize: the token's own workspace only, and the flag of the owner
abbrev token_platform : Option AccessTokenPrincipal → Workspace → Bool → Result Bool
token_platform none w platform = ok platform
token_platform (some t) w platform =
    if w.id == t.workspace_id
    then ok t.owner_platform_admin
    else err (forbidden "access_token_workspace_forbidden")

abbrev pub narrow : Option AccessTokenPrincipal → String → String
narrow none role = role
narrow (some t) role = cap_workspace_role t role

abbrev pub owner_role_of : Option AccessTokenPrincipal → String → String
owner_role_of none role = ""
owner_role_of (some t) role = role

module _ (repo : WorkspaceRepository) where
  -- Authorize
  unfoldable pub authorize : RequestContext → String → Result WorkspaceAccess
  unfolding cap_workspace_role
  authorize ctx identity = do
    current ← actor ctx
    w ← map_row_missing (not_found "workspace_not_found") (repo.get_workspace (trim_space identity))
    platform ← token_platform ctx.access_token w current.platform_admin
    role ← repo.workspace_role w.id current.user.id platform
    let effective = narrow ctx.access_token role
    refuse_if (effective == "") (forbidden "workspace_forbidden")
    ok (record {
      workspace = w;
      role = effective;
      owner_role = owner_role_of ctx.access_token role;
    })

  -- List
  pub list : RequestContext → Result (List Workspace)
  list ctx = do current ← actor ctx; repo.list_workspaces current.user.id current.platform_admin

  abbrev shown_role : String → String
  shown_role role = if role == "platform_admin" then "admin" else role

  -- the loops of ListAccess and ListArchive: the first failing role query ends them
  with_roles : (String → Result String) → List Workspace → Result (List WorkspaceAccess)
  with_roles role_of [] = ok []
  with_roles role_of (w ∷ ws) = do
    role ← role_of w.id
    rest ← with_roles role_of ws
    ok (record { workspace = w; role = shown_role role; owner_role = "" } ∷ rest)

  abbrev visible_to_token : Result WorkspaceAccess → Result (List WorkspaceAccess)
  visible_to_token (ok a) = ok (a ∷ [])
  visible_to_token (err e) =
      if code_of e == "workspace_forbidden" || code_of e == "workspace_not_found"
      then ok []
      else err e

  -- listTokenAccess
  pub list_token_access : RequestContext → AccessTokenPrincipal → Result (List WorkspaceAccess)
  list_token_access ctx token = visible_to_token (authorize ctx token.workspace_identity)

  -- ListAccess
  pub list_access : RequestContext → Result (List WorkspaceAccess)
  unfolding with_roles list_token_access
  list_access ctx = do
    current ← actor ctx
    elim ctx.access_token [
      | some token ↦ list_token_access ctx token
      | none ↦ do
        items ← repo.list_workspaces current.user.id current.platform_admin
        with_roles (λ id. repo.workspace_role id current.user.id current.platform_admin) items
    ]

  -- ListArchive
  pub list_archive : RequestContext → Result (List WorkspaceAccess)
  unfolding with_roles
  list_archive ctx = do
    current ← actor ctx
    items ← repo.list_deleted_workspaces current.user.id current.platform_admin
    with_roles (λ id. repo.deleted_workspace_role id current.user.id current.platform_admin) items

  -- Get
  pub get : RequestContext → String → Result Workspace
  get ctx identity = do _ ← authorize ctx identity; repo.get_workspace identity
