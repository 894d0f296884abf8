-- ===== src/Access/Memberships.antt =====
-- internal/usecase/workspaces/memberships.go: who belongs to a workspace, and in which role.
use service_backend.Prelude.{
  String, ◌≡◌, ◌⊎◌, refl, sym, ◌∙◌, Bool, true, false, not, Option, none, List, [], ◌∷◌, contains,
  inl, inr, Option-cases, if◌then◌else◌,
}
use service_backend.Errors.{ok, forbidden, invalid_input, not_found}
use service_backend.Entities.{WorkspaceAccess}
use service_backend.Policy.{Policy, require_local}
use service_backend.Exec.{
  Exec, raise, lift, not_found_as, within_transaction, ◌>>=◌, lift-inv, raise_if-inv,
}
use service_backend.Access.Context.{RequestContext, actor, can_admin}
use service_backend.Access.Authorize.{WorkspaceRepository, authorize}
use service_backend.Access.Authorize.Limits.{authorize-Granted}

-- Membership, without its times
pub record Membership : Type 0 where
  pub workspace_id : String
  pub user_id : String
  pub role : String
  pub username : String
  pub display_name : String

-- the part of ports.WorkspaceRepository on memberships
pub record MembershipRepository (S : Type 0) : Type 0 where
  pub workspaces : S → WorkspaceRepository
  pub list_memberships : String → Exec S (List Membership)
  pub put_membership : String → String → String → String → Exec S Membership
  pub delete_membership : String → String → Exec S (Unit {0})

module _ {S : Type 0} (repo : MembershipRepository S) where
  abbrev authorized : RequestContext → String → Exec S WorkspaceAccess
  authorized ctx identity s = (authorize (repo.workspaces s) ctx identity, s)

  -- ListMemberships
  unfoldable pub list_memberships : RequestContext → String → Exec S (List Membership)
  unfolding authorize
  list_memberships ctx identity = do
    scope ← authorized ctx identity
    if not (can_admin scope.role)
        then raise (forbidden "workspace_admin_required")
        else repo.list_memberships scope.workspace.id

  -- PutMembership
  unfoldable pub put_membership :
      Option Policy → RequestContext → String → String → String → Exec S Membership
  unfolding authorize
  put_membership policy ctx identity user_id role = do
    _ ← lift (require_local policy)
    current ← lift (actor ctx)
    scope ← authorized ctx identity
    if not (can_admin scope.role)
        then raise (forbidden "workspace_admin_required")
        else if not (contains ("viewer" ∷ "editor" ∷ "admin" ∷ []) role)
        then raise (invalid_input "membership_role_invalid")
        else within_transaction (
            not_found_as (not_found "not_found")
              (repo.put_membership scope.workspace.id user_id role current.user.id))

  -- DeleteMembership
  unfoldable pub delete_membership :
      Option Policy → RequestContext → String → String → Exec S (Unit {0})
  unfolding authorize
  delete_membership policy ctx identity user_id = do
    _ ← lift (require_local policy)
    scope ← authorized ctx identity
    if not (can_admin scope.role)
        then raise (forbidden "workspace_admin_required")
        else within_transaction (
            not_found_as (not_found "not_found")
              (repo.delete_membership scope.workspace.id user_id))

  -- someone in person, with the administrative role in the workspace
  pub record IsManaged (ctx : RequestContext) (identity : String) (st : S) : Type 0 where
    pub scope : WorkspaceAccess
    pub is_authorized : authorize (repo.workspaces st) ctx identity ≡ ok scope
    pub is_admin : can_admin scope.role ≡ true
    pub in_person : ctx.access_token ≡ none

  true_of : (b : Bool) → not b ≡ false → b ≡ true
  true_of true h = refl
  true_of false h = cc h

  managed :
      (ctx : RequestContext) (identity : String) (st : S) (scope : WorkspaceAccess)
      → authorize (repo.workspaces st) ctx identity ≡ ok scope
      → can_admin scope.role ≡ true
      → IsManaged ctx identity st
  managed ctx identity st scope a admin = record {
    scope = scope;
    is_authorized = a;
    is_admin = admin;
    in_person = elim (Option-cases ctx.access_token) [
      | inl session ↦ session
      | inr (t, via) ↦
          cc (
            sym admin
            ∙ (authorize-Granted (repo.workspaces st) ctx t identity scope via a).no_admin)
    ];
  }

  -- If ListMemberships, PutMembership or DeleteMembership succeeds, the caller comes in person, and not
  -- with an access token, and is authorized in the workspace with the administrative role.
  pub memberships-IsManaged :
      (policy : Option Policy) (ctx : RequestContext) (identity user_id role : String) (st next : S)
      (ms : List Membership) (m : Membership) (u : Unit {0})
      → (list_memberships ctx identity st ≡ (ok ms, next))
        ⊎ (put_membership policy ctx identity user_id role st ≡ (ok m, next))
        ⊎ (delete_membership policy ctx identity user_id st ≡ (ok u, next))
      → IsManaged ctx identity st
  unfolding list_memberships put_membership delete_membership
  memberships-IsManaged policy ctx identity user_id role st next ms m u (inl h) =
      lift-inv (authorize (repo.workspaces st) ctx identity) _ st h λ scope a h1.
        raise_if-inv (not (can_admin scope.role)) _ _ st h1
          λ admin _. managed ctx identity st scope a (true_of (can_admin scope.role) admin)
  memberships-IsManaged policy ctx identity user_id role st next ms m u (inr (inl h)) =
      lift-inv (require_local policy) _ st h λ _ _ h0. lift-inv (actor ctx) _ st h0 λ current _ h1.
        lift-inv (authorize (repo.workspaces st) ctx identity) _ st h1 λ scope a h2.
          raise_if-inv (not (can_admin scope.role)) _ _ st h2
            λ admin _. managed ctx identity st scope a (true_of (can_admin scope.role) admin)
  memberships-IsManaged policy ctx identity user_id role st next ms m u (inr (inr h)) =
      lift-inv (require_local policy) _ st h λ _ _ h0.
        lift-inv (authorize (repo.workspaces st) ctx identity) _ st h0 λ scope a h1.
          raise_if-inv (not (can_admin scope.role)) _ _ st h1
            λ admin _. managed ctx identity st scope a (true_of (can_admin scope.role) admin)
