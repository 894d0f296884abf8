-- ===== src/Access/Authorize/Limits.antt =====
-- What an access token can reach in a workspace: the bounds on its role.
use service_backend.Prelude.{
  String, ◌≡◌, Bool, Bool-cases, inl, inr, ap, true, false, not, ◌&&◌, some, arith, ◌==◌, eq_iff,
  trim_space,
}
use service_backend.Errors.{>>=-inv, refuse_if-inv, ok, forbidden, not_found, map_row_missing}
use service_backend.Entities.{
  Workspace, WorkspaceAccess, AccessTokenPrincipal, token_can_write, cap_workspace_role,
}
use service_backend.Access.Context.{RequestContext, Caller, actor, can_write, can_admin}
use service_backend.Access.Authorize.{WorkspaceRepository, authorize, token_platform, narrow}

-- the three answers of `CapWorkspaceRole`
data Capped (t : AccessTokenPrincipal) (role : String) : Type 0 where
  no_role : cap_workspace_role t role ≡ "" → (role == "") ≡ true → Capped t role
  reader :
      cap_workspace_role t role ≡ "viewer"
      → (role == "") ≡ false
      → (token_can_write t && not (role == "viewer")) ≡ false
      → Capped t role
  writer :
      cap_workspace_role t role ≡ "editor"
      → token_can_write t ≡ true
      → (role == "") ≡ false
      → (role == "viewer") ≡ false
      → Capped t role

capped : (t : AccessTokenPrincipal) (role : String) → Capped t role
unfolding cap_workspace_role
capped t role = elim (Bool-cases (role == "")) [
  | inl empty ↦ no_role (rw empty) empty
  | inr some_role ↦ elim (Bool-cases (role == "viewer")) [
    | inl views ↦ reader (rw (some_role, views)) some_role (ground arith)
    | inr more ↦ elim (Bool-cases (token_can_write t)) [
      | inl writes ↦ writer (rw (some_role, more, writes)) writes some_role more
      | inr reads ↦ reader (rw (some_role, more, reads)) some_role (ground arith)
    ]
  ]
]

-- the role through a token: whether it administers, writes, and is there at all
cap_workspace_role_bounds :
    (t : AccessTokenPrincipal) (role : String)
    → (can_admin (cap_workspace_role t role) ≡ false)
      × (can_write (cap_workspace_role t role)
          ≡ (token_can_write t && not (role == "") && not (role == "viewer")))
      × ((cap_workspace_role t role == "") ≡ (role == ""))
cap_workspace_role_bounds t role = elim (capped t role) [
  | no_role e r ↦ (rw e, ground (arith, ap can_write e), rw (e, r))
  | reader e r w ↦ (rw e, ground (arith, ap can_write e), rw (e, r))
  | writer e w r v ↦ (rw e, ground (arith, ap can_write e), rw (e, r))
]

-- What an authorized request with the token `t` has been granted.
pub record Granted (repo : WorkspaceRepository) (ctx : RequestContext) (t : AccessTokenPrincipal)
    (a : WorkspaceAccess) : Type 0 where
  pub same_workspace : a.workspace.id ≡ t.workspace_id
  pub caller : Caller
  pub is_caller : actor ctx ≡ ok caller
  pub owner :
      repo.workspace_role t.workspace_id caller.user.id t.owner_platform_admin ≡ ok a.owner_role
  pub capped_role : a.role ≡ cap_workspace_role t a.owner_role
  pub has_role : (a.role == "") ≡ false
  pub no_admin : can_admin a.role ≡ false
  pub writes :
      can_write a.role
      ≡ (token_can_write t && not (a.owner_role == "") && not (a.owner_role == "viewer"))

token_platform-own {κ} :
    {C : Type κ} (t : AccessTokenPrincipal) (w : Workspace) (p : Bool) {platform : Bool}
    → token_platform (some t) w p ≡ ok platform
    → (w.id ≡ t.workspace_id → platform ≡ t.owner_platform_admin → C)
    → C
token_platform-own t w p h k = k (ground (arith, eq_iff w.id t.workspace_id)) (ground arith)

-- If a request with the token `t` is authorized, the workspace is the token's own; the owner's role
-- is what the repository answers for the caller there, under the owner's own platform flag; the
-- granted role is the token's cap of it, is not empty, is no administrative one, and writes
-- exactly if the token's scope does and the owner is more than a viewer.
pub authorize-Granted :
    (repo : WorkspaceRepository) (ctx : RequestContext) (t : AccessTokenPrincipal)
    (identity : String) (a : WorkspaceAccess)
    → ctx.access_token ≡ some t
    → authorize repo ctx identity ≡ ok a
    → Granted repo ctx t a
unfolding authorize
authorize-Granted repo ctx t identity a et h = >>=-inv (actor ctx) _ h λ c ec h1.
    >>=-inv
      (map_row_missing (not_found "workspace_not_found") (repo.get_workspace (trim_space identity)))
      _ h1
      λ w ew h2. >>=-inv (token_platform ctx.access_token w c.platform_admin) _ h2 λ platform ep h3.
        >>=-inv (repo.workspace_role w.id c.user.id platform) _ h3 λ role er h4.
          refuse_if-inv (narrow ctx.access_token role == "") (forbidden "workspace_forbidden") _ h4
            λ full h5. token_platform-own t w c.platform_admin (rw et at ep) λ own flag. record {
              same_workspace = cc (own, h5);
              caller = c;
              is_caller = ec;
              owner = cc (own, flag, h5, et, er);
              capped_role = cc (h5, et);
              has_role = cc (h5, full);
              no_admin = cc (h5, et, (cap_workspace_role_bounds t role).0);
              writes = cc (h5, et, (cap_workspace_role_bounds t role).1);
            }
