-- ===== src/AccessControl/Rights.antt =====
-- Who may grant: what a successful Put and a bootstrapped administrator in
-- internal/usecase/access_control/usecase.go rest on.
use service_backend.Prelude.{
  ℕ, String, ◌≡◌, ◌⊎◌, refl, inl, inr, ap, ap₂, sym, subst, eq_iff, ◌∙◌, Bool, true, false, not,
  ◌&&◌, ◌||◌, ◌==◌, eqb, Option, none, some, arith, trim_space, Bool-cases,
}
use service_backend.Errors.{Result, ok, err, invalid_input, forbidden, not_found, map_row_missing}
use service_backend.Errors
use service_backend.Entities.{User, Workspace}
use service_backend.Policy.{Policy, require_local, external}
use service_backend.Access.Context.{RequestContext, Caller, actor, can_admin}
use service_backend.Access.Authorize.{WorkspaceRepository}
use service_backend.Exec.{
  >>=-inv, lift-inv, raise_if-inv, pure-inv, not_found_as, not_found_as-inv, ◌>>=◌, pure, Exec,
  within_transaction-inv,
}
use service_backend.AccessControl.{
  AccessGrant, AccessGrantInput, Repository, Codec, reads, valid_workspace_role,
  require_workspace_admin,
}
use service_backend.AccessControl.Operations.{PutInput, grant_target, put}
use service_backend.AccessControl.Identity.{bootstrap}

local_only : (policy : Option Policy) → require_local policy ≡ ok tt → external policy ≡ false
local_only none h = refl
local_only (some p) h = cc

-- The caller administers the workspace `identity`.
pub record Administers (repo : WorkspaceRepository) (caller : Caller) (identity : String)
    : Type 0 where
  pub workspace : Workspace
  pub found : repo.get_workspace (trim_space identity) ≡ ok workspace
  pub role : String
  pub is_role : repo.workspace_role workspace.id caller.user.id caller.platform_admin ≡ ok role
  pub administrative : can_admin role ≡ true

require_workspace_admin-Administers :
    (repo : WorkspaceRepository) (ctx : RequestContext) (caller : Caller) (identity : String)
    (w : Workspace)
    → actor ctx ≡ ok caller
    → require_workspace_admin repo ctx identity ≡ ok w
    → (a : Administers repo caller identity) × (a.workspace ≡ w)
unfolding require_workspace_admin
require_workspace_admin-Administers repo ctx caller identity w known h =
    Errors.>>=-inv (actor ctx) _ h λ c ec h1.
      Errors.refuse_if-inv (trim_space identity == "") _ _ h1 λ _ h2.
        Errors.>>=-inv
          (map_row_missing (not_found "workspace_not_found")
            (repo.get_workspace (trim_space identity)))
          _ h2
          λ v ev h3.
            Errors.>>=-inv (repo.workspace_role v.id c.user.id c.platform_admin) _ h3 λ role er h4.
              Errors.refuse_if-inv (not (role == "admin") && not (role == "platform_admin")) _ _ h4
                λ high h5. (
                  record {
                    workspace = v;
                    found =
                        Errors.map_row_missing-ok _ (repo.get_workspace (trim_space identity)) ev;
                    role = role;
                    is_role = cc (ec, known, er);
                    administrative = ground arith;
                  },
                  Errors.ok-injective h5,
                )

-- The row that Put writes is the grant of a platform administrator, or one in the workspace that is
-- asked for and that the caller administers.
pub data MayGrant (repo : WorkspaceRepository) (caller : Caller) (i : PutInput)
    (row : AccessGrantInput) : Type 0 where
  of_platform :
      (trim_space i.scope_type == "platform") ≡ true
      → caller.platform_admin ≡ true
      → row.scope_type ≡ "platform"
      → row.role ≡ "admin"
      → row.workspace_id ≡ none
      → MayGrant repo caller i row
  of_workspace :
      (trim_space i.scope_type == "workspace") ≡ true
      → valid_workspace_role row.role ≡ true
      → (a : Administers repo caller i.workspace_identity) → row.scope_type ≡ "workspace"
      → row.role ≡ trim_space i.role
      → row.workspace_id ≡ some a.workspace.id
      → MayGrant repo caller i row

-- What Put does when it succeeds.
pub record IsPut {S : Type 0} (repo : Repository S) (policy : Option Policy) (ctx : RequestContext)
    (i : PutInput) (g : AccessGrant) (s t : S) : Type 0 where
  pub managed_here : external policy ≡ false
  pub caller : Caller
  pub known : actor ctx ≡ ok caller
  pub row : AccessGrantInput
  pub may_grant : MayGrant (repo.workspaces s) caller i row
  pub for_user : row.user_id ≡ i.user_id
  pub by_caller : row.actor_id ≡ caller.user.id
  pub made : Bool
  pub wrote : repo.upsert_access_grant row s ≡ (ok (g, made), t)

-- who may become an administrator of the platform without being made one
pub data MayBootstrap : Bool → Bool → ℕ → Bool → Type 0 where
  by_legacy_claim :
      (has_admins : Bool) (humans : ℕ) (had_external : Bool)
      → MayBootstrap true has_admins humans had_external
  alone : (legacy : Bool) → MayBootstrap legacy false 1 false

-- the row that makes someone an administrator of the platform
pub record IsAdminRow (user : User) (row : AccessGrantInput) : Type 0 where
  pub for_user : row.user_id ≡ user.id
  pub scope : row.scope_type ≡ "platform"
  pub role : row.role ≡ "admin"
  pub no_workspace : row.workspace_id ≡ none

-- What bootstrap has done.
pub record IsBootstrapped {S : Type 0} (repo : Repository S) (legacy : Bool) (user : User)
    (granted : Bool) (s t : S) : Type 0 where
  pub has_admins : Bool
  pub humans : ℕ
  pub had_external : Bool
  pub first : S
  pub second : S
  pub third : S
  pub read_admins : repo.has_platform_admins s ≡ (ok has_admins, first)
  pub read_humans : repo.count_human_users first ≡ (ok humans, second)
  pub read_history : repo.has_external_access_history second ≡ (ok had_external, third)
  pub outcome :
      ((granted ≡ true)
        × MayBootstrap legacy has_admins humans had_external
        × (row : AccessGrantInput) × IsAdminRow user row
        × (r : AccessGrant × Bool) × (repo.upsert_access_grant row third ≡ (ok r, t)))
      ⊎ ((granted ≡ false) × (MayBootstrap legacy has_admins humans had_external → ⊥) × (third ≡ t))

bootstrap_test :
    (legacy has_admins : Bool) (humans : ℕ) (had_external : Bool)
    → ((legacy || (not has_admins && eqb humans 1 && not had_external)) ≡ true)
    → MayBootstrap legacy has_admins humans had_external
bootstrap_test true has_admins humans had_external h =
    by_legacy_claim has_admins humans had_external
bootstrap_test false true humans had_external h = cc h
bootstrap_test false false humans true h = let bad : false ≡ true = ground (arith, h) in cc bad
bootstrap_test false false humans false h =
    let one : humans ≡ 1 = ground (arith, h) in
    subst (λ (n : ℕ). MayBootstrap false false n false) (sym one) (alone false)

bootstrap_fails :
    (legacy has_admins : Bool) (humans : ℕ) (had_external : Bool)
    → ((legacy || (not has_admins && eqb humans 1 && not had_external)) ≡ false)
    → MayBootstrap legacy has_admins humans had_external
    → ⊥
bootstrap_fails _ _ _ _ h (by_legacy_claim has_admins humans had_external) = cc h
bootstrap_fails _ _ _ _ h (alone true) = cc h
bootstrap_fails _ _ _ _ h (alone false) = cc h

module _ {S : Type 0} (repo : Repository S) (codec : Codec) where
  -- what Put hands to the repository
  abbrev row_of : Caller → PutInput → Option String → AccessGrantInput
  row_of caller i o = record {
    user_id = i.user_id;
    scope_type = trim_space i.scope_type;
    workspace_id = o;
    role = trim_space i.role;
    actor_id = caller.user.id;
  }

  abbrev write_row : AccessGrantInput → Exec S AccessGrant
  write_row row = do
    (grant, made) ←
        not_found_as (not_found "access_target_not_found") (repo.upsert_access_grant row)
    pure grant

  grant_target-MayGrant :
      (ctx : RequestContext) (caller : Caller) (i : PutInput) (s t : S) (o : Option String)
      → actor ctx ≡ ok caller
      → grant_target repo codec ctx caller i s ≡ (ok o, t)
      → MayGrant (repo.workspaces s) caller i (row_of caller i o) × (s ≡ t)
  unfolding grant_target
  grant_target-MayGrant ctx caller i s t o known h =
      elim (Bool-cases (trim_space i.scope_type == "platform")) [
        | inl platform ↦
            raise_if-inv (not caller.platform_admin) _ _ s (rw (platform, grant_target) at h)
              λ admin h1. raise_if-inv (not (trim_space i.role == "admin")) _ _ s h1 λ role h2.
                pure-inv h2 λ target stays. (
                  of_platform platform (ground arith)
                      (ground (arith, eq_iff (trim_space i.scope_type) "platform"))
                      (ground (arith, eq_iff (trim_space i.role) "admin")) (sym target),
                  stays,
                )
        | inr other ↦ elim (Bool-cases (trim_space i.scope_type == "workspace")) [
          | inl workspace ↦
              raise_if-inv (not (valid_workspace_role (trim_space i.role))) _ _ s
                (rw (other, workspace, grant_target) at h)
                λ valid h1.
                  >>=-inv
                    (reads (λ (st : S).
                      require_workspace_admin (repo.workspaces st) ctx i.workspace_identity))
                    _ s h1
                    λ w s1 got h2. pure-inv h2 λ target stays.
                      let (a, same) =
                        require_workspace_admin-Administers (repo.workspaces s) ctx caller
                          i.workspace_identity w known
                          (ap (λ (q : Result Workspace × S). q.0) got) in
                      (
                        of_workspace workspace (ground arith) a
                            (ground (arith, eq_iff (trim_space i.scope_type) "workspace")) refl
                            (sym target ∙ ap (λ (v : Workspace). some v.id) (sym same)),
                        ap (λ (q : Result Workspace × S). q.1) got ∙ stays,
                      )
          | inr neither ↦ cc (
              ap (λ (q : Result (Option String) × S). q.0) (rw (other, neither, grant_target) at h))
        ]
      ]

  -- If Put succeeds, access is managed locally, the caller is known, and the answer is that of one
  -- write, for the user that is asked for and in the caller's name: of the platform administrator's
  -- role, by a platform administrator, or of a known role, the one that is asked for, in the workspace
  -- that is asked for, by someone whose role there is administrative.
  pub put-MayGrant :
      (policy : Option Policy) (ctx : RequestContext) (i : PutInput) (g : AccessGrant) (s t : S)
      → put repo codec policy ctx i s ≡ (ok g, t)
      → IsPut repo policy ctx i g s t
  unfolding put
  put-MayGrant policy ctx i g s t h = lift-inv (require_local policy) _ s h λ _ here h1.
      lift-inv (actor ctx) _ s h1 λ caller known h2.
        raise_if-inv (not (codec.is_uuid (trim_space i.user_id))) _ _ s h2 λ _ h3.
          >>=-inv (grant_target repo codec ctx caller i) _ s h3 λ o s1 decided h4.
            let (may, same) = grant_target-MayGrant ctx caller i s s1 o known decided in
            within_transaction-inv (write_row (row_of caller i o)) s1 h4 λ h5.
              >>=-inv
                (not_found_as (not_found "access_target_not_found")
                  (repo.upsert_access_grant (row_of caller i o)))
                _ s1 h5
                λ r s2 wrote h6. pure-inv h6 λ answer last. record {
                  managed_here = local_only policy here;
                  caller = caller;
                  known = known;
                  row = row_of caller i o;
                  may_grant = may;
                  for_user = refl;
                  by_caller = refl;
                  made = r.1;
                  wrote =
                      subst
                        (λ (x : S).
                          repo.upsert_access_grant (row_of caller i o) x ≡ (ok (g, r.1), t))
                        (sym same)
                        (not_found_as-inv (not_found "access_target_not_found")
                            (repo.upsert_access_grant (row_of caller i o)) s1 wrote
                          ∙ ap₂ (λ (x : AccessGrant) (y : S). (ok (x, r.1), y)) answer last);
                }

  -- When bootstrap succeeds, it has read whether the platform has an administrator, how many human
  -- users and whether a history of external access. If the caller asks for it by the legacy claim, or
  -- if there is no administrator, exactly one human user and no such history, its one write makes the
  -- user an administrator of the platform, and it says so; otherwise it says no and writes nothing.
  pub bootstrap_alone :
      (legacy : Bool) (user : User) (granted : Bool) (s t : S)
      → bootstrap repo codec legacy user s ≡ (ok granted, t)
      → IsBootstrapped repo legacy user granted s t
  unfolding bootstrap
  bootstrap_alone legacy user granted s t h =
      >>=-inv repo.has_platform_admins _ s h λ admins s1 e1 h1.
        >>=-inv repo.count_human_users _ s1 h1 λ humans s2 e2 h2.
          >>=-inv repo.has_external_access_history _ s2 h2 λ before s3 e3 h3. record {
            has_admins = admins;
            humans = humans;
            had_external = before;
            first = s1;
            second = s2;
            third = s3;
            read_admins = e1;
            read_humans = e2;
            read_history = e3;
            outcome = elim (Bool-cases (legacy || (not admins && eqb humans 1 && not before))) [
              | inl may ↦
                  (let row : AccessGrantInput = record {
                    user_id = user.id;
                    scope_type = "platform";
                    workspace_id = none;
                    role = "admin";
                    actor_id = user.id;
                  } in
                    >>=-inv (repo.upsert_access_grant row) _ s3 (rw may at h3) λ r s4 wrote h4.
                      pure-inv h4 λ yes_said last. inl (
                        sym yes_said,
                        bootstrap_test legacy admins humans before may,
                        row,
                        record { for_user = refl; scope = refl; role = refl; no_workspace = refl },
                        r,
                        wrote ∙ ap (λ (x : S). (ok r, x)) last,
                      ))
              | inr may_not ↦ pure-inv (rw may_not at h3) λ no_said last.
                  inr (sym no_said, bootstrap_fails legacy admins humans before may_not, last)
            ];
          }
