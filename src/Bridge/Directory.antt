-- ===== src/Bridge/Directory.antt =====
-- `authorize` of internal/usecase/bridge/usecase.go over the answers of the repositories.
use service_backend.Prelude.{
  ℕ, String, Bool, not, ◌&&◌, ◌||◌, ◌==◌, ltb, Option, none, some, List, [], ◌∷◌, if◌then◌else◌,
  is_some,
}
use service_backend.Prelude.Map
use service_backend.Prelude.Map.{Map}
use service_backend.Errors.{Result, ok, err, fault, refuse_if, ◌>>=◌, ◌>>◌}
use service_backend.Entities.{Actor, Workspace}
use service_backend.Access.Context.{can_write}
use service_backend.Access.Authorize.{WorkspaceRepository}
use service_backend.Bridge.{BridgeAccess, Participant}

-- ports.BridgeAccessRepository, AccessControlRepository.IsPlatformAdmin and WorkspaceRepository
pub record Directory : Type 0 where
  pub bridge_user : String → String → Result Actor
  pub is_platform_admin : String → Result Bool
  pub workspaces : WorkspaceRepository

-- what authorize returns beside its error
pub record Authorization : Type 0 where
  pub actor : Actor
  pub role : String
  pub workspace_name : String
  pub permissions : Map BridgeAccess

-- any error of `m` becomes the text `e`
abbrev or_fault {ℓ} : {A : Type ℓ} → String → Result A → Result A
or_fault e (ok a) = ok a
or_fault e (err x) = err (fault e)

abbrev may_see : String → Bool
may_see role = role == "viewer" || can_write role

-- a permission under the workspace's identity and under its database id
abbrev permitted : Workspace → String → Map BridgeAccess → Map BridgeAccess
permitted w role permissions =
    if may_see role
    then (let a : BridgeAccess = record { role = role; display_name = w.display_name } in
        Map.put w.id a (Map.put w.identity a permissions))
    else permissions

-- one round of the loop of authorize over the candidate workspaces
abbrev consider :
    Directory → String → Bool → Workspace → Map BridgeAccess → Result (Map BridgeAccess)
consider dir actor_id platform w permissions =
    if not w.active || is_some w.deleted_at then ok permissions else (do
      role ←
          or_fault "Workspace access check failed"
            (dir.workspaces.workspace_role w.id actor_id platform)
      ok (permitted w role permissions))

unfoldable pub permissions_of :
    Directory → String → Bool → List Workspace → Map BridgeAccess → Result (Map BridgeAccess)
permissions_of dir actor_id platform [] permissions = ok permissions
permissions_of dir actor_id platform (w ∷ ws) permissions = do
  next ← consider dir actor_id platform w permissions
  permissions_of dir actor_id platform ws next

abbrev candidates_of : Directory → Participant → String → Bool → Result (List Workspace)
candidates_of dir p actor_id platform =
    if p.all_workspaces
    then or_fault "Workspace access check failed" (dir.workspaces.list_workspaces actor_id platform)
    else (do
      w ← or_fault "Workspace is not available" (dir.workspaces.get_workspace p.workspace)
      if w.active then ok (w ∷ []) else err (fault "Workspace is not available"))

abbrev selected : Option BridgeAccess → BridgeAccess
selected none = record { role = ""; display_name = "" }
selected (some a) = a

-- authorize
unfoldable pub authorize : Directory → ℕ → Participant → Result Authorization
unfolding permissions_of
authorize dir now p = do
  refuse_if (p.principal.user_id == "" || not (ltb now p.principal.expires_at))
      (fault "Authentication expired")
  actor ←
      or_fault "Authentication is not valid"
        (dir.bridge_user p.principal.user_id p.principal.session_id)
  platform ← or_fault "Access check failed" (dir.is_platform_admin actor.id)
  candidates ← candidates_of dir p actor.id platform
  permissions ← permissions_of dir actor.id platform candidates []
  let here = selected (Map.get permissions p.workspace)
  refuse_if (not p.all_workspaces && here.role == "") (fault "Workspace access denied")
  ok (record {
    actor = actor;
    role = here.role;
    workspace_name = here.display_name;
    permissions = permissions;
  })
