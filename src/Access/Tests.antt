-- ===== src/Access/Tests.antt =====
-- The request checks and the route policy at a token of an administrator.
use Prim.Native.String.{◌++◌}
use service_backend.Prelude.{
  ℕ, suc, inr, ◌≡◌, refl, true, false, none, some, [], ◌∷◌, trim_space, ends_with,
}
use service_backend.Errors.{ok, err, row_missing}
use service_backend.Entities.{
  User, Workspace, WorkspaceAccess, AccessTokenPrincipal, token_can_write, cap_workspace_role,
}
use service_backend.Access.Context.{
  RequestContext, Caller, actor, access, can_admin, write_context, commit_context,
}
use service_backend.Access.Context.Order.{commit_context-write_context, commit_context-token}
use service_backend.Access.Authorize.{WorkspaceRepository, authorize}
use service_backend.Access.Authorize.Limits.{Granted, authorize-Granted}
use service_backend.Access.Routes.{
  under, is_release_artifact_route, is_commit_route, access_token_route_error,
}
use service_backend.Access.Routes.Policy.{IsForbidden, closed_section}
use service_backend.Access.Memberships.{
  Membership, MembershipRepository, delete_membership, IsManaged, memberships-IsManaged,
}

abbrev ann : User
ann = record {
  id = "u1";
  provider_id = "idp";
  subject = "ann";
  issuer = "https://idp";
  username = "ann";
  display_name = "Ann";
  active = true;
}

abbrev main : Workspace
main = record {
  id = "w1";
  identity = "main";
  display_name = "Main";
  active = true;
  deleted_at = none;
}

abbrev token : AccessTokenPrincipal
token = record {
  token_id = "t1";
  user_id = "u1";
  workspace_id = "w1";
  workspace_identity = "main";
  scope = "write";
  can_commit = true;
  can_delete = false;
  expires_at = 1000;
  owner_platform_admin = false;
}

abbrev scope : WorkspaceAccess
scope = record { workspace = main; role = "editor"; owner_role = "admin" }

abbrev ctx : RequestContext
ctx = record {
  current_actor = some (record { user = some ann; platform_admin = false });
  workspace_access = some scope;
  access_token = some token;
}

abbrev caller : Caller
caller = record { user = ann; platform_admin = false }

may_commit : commit_context ctx ≡ ok (caller, scope)
unfolding commit_context write_context actor access
may_commit = refl

commit_context-write_context_example : write_context ctx ≡ ok (caller, scope)
commit_context-write_context_example = commit_context-write_context ctx (caller, scope) may_commit

commit_context-token_example :
    (true ≡ true)
    × (token_can_write token ≡ true)
    × (can_admin "admin" ≡ true)
    × (some scope ≡ some scope)
commit_context-token_example = commit_context-token ctx token (caller, scope) refl may_commit

abbrev database : WorkspaceRepository
database = record {
  get_workspace = λ identity. ok main;
  list_workspaces = λ user platform. ok (main ∷ []);
  workspace_role = λ w user platform. ok "admin";
  list_deleted_workspaces = λ user platform. ok [];
  deleted_workspace_role = λ w user platform. ok "";
}

is_authorized : authorize database ctx " main " ≡ ok scope
unfolding authorize actor cap_workspace_role trim_space
is_authorized = refl

authorize-Granted_example : Granted database ctx token scope
authorize-Granted_example = authorize-Granted database ctx token " main " scope refl is_authorized

open_route : access_token_route_error token "POST" "/v1/commits" ≡ none
unfolding access_token_route_error under is_release_artifact_route is_commit_route ends_with
open_route = refl

closed_section_example :
    IsForbidden (access_token_route_error token "GET" "/v1/bridge")
    × IsForbidden (access_token_route_error token "GET" (("/v1/bridge" ++ "/") ++ "ws"))
closed_section_example = closed_section token "GET" "/v1/bridge" "ws" refl

abbrev in_person : RequestContext
in_person = record ctx { access_token = none }

abbrev memberships : MembershipRepository ℕ
memberships = record {
  workspaces = λ n. database;
  list_memberships = λ workspace n. (ok [], n);
  put_membership = λ workspace user role by n. (err row_missing, n);
  delete_membership = λ workspace user n. (ok tt, suc n);
}

was_deleted : delete_membership memberships none in_person "main" "u2" 0 ≡ (ok tt, 1)
unfolding delete_membership authorize actor trim_space
was_deleted = refl

abbrev bob : Membership
bob = record {
  workspace_id = "w1";
  user_id = "u2";
  role = "viewer";
  username = "bob";
  display_name = "Bob";
}

memberships-IsManaged_example : IsManaged memberships in_person "main" 0
memberships-IsManaged_example =
    memberships-IsManaged memberships none in_person "main" "u2" "viewer" 0 1 [] bob tt
      (inr (inr was_deleted))
