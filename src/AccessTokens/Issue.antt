-- ===== src/AccessTokens/Issue.antt =====
-- What a token can be issued with.
use Prim.Native.String.{count, slice, ◌++◌}
use service_backend.Prelude.{
  ℕ, ◌+◌, ◌≤◌, String, ◌≡◌, subst, true, false, not, trim_space, ◌&&◌, ◌||◌, ◌==◌, arith,
}
use service_backend.Errors.{
  Error, Result, ok, err, >>=-inv, refuse_if-inv, refuse_if, ok-injective, ◌>>◌, forbidden,
  not_found, map_row_missing,
}
use service_backend.Entities.{Workspace}
use service_backend.Access.Context.{RequestContext, Caller, actor, via_token, can_write, can_admin}
use service_backend.Access.Authorize.{WorkspaceRepository}
use service_backend.Exec
use service_backend.AccessTokens.Operations.{create}
use service_backend.AccessTokens.{
  CreateInput, validate_create, minimum_lifetime, normalize, session_actor, prepare,
  AccessTokenRepository, Crypto, Created, CreateAccessTokenInput,
}

-- What an accepted request for a token satisfies.
pub record IsIssuable (max_ttl now : ℕ) (i : CreateInput) : Type 0 where
  pub named : (i.name == "") ≡ false
  pub name_fits : count i.name ≤ 120
  pub description_fits : count i.description ≤ 1000
  pub known_scope : ((i.scope == "read") || (i.scope == "write")) ≡ true
  pub flags_in_scope : ((i.can_commit || i.can_delete) && not (i.scope == "write")) ≡ false
  pub lives_a_minute : now + minimum_lifetime ≤ i.expires_at
  pub expires_in_time : i.expires_at ≤ now + max_ttl

validate_create-IsIssuable :
    (max_ttl now : ℕ) (input : CreateInput) {i : CreateInput}
    → validate_create max_ttl now input ≡ ok i
    → IsIssuable max_ttl now i
unfolding validate_create normalize
validate_create-IsIssuable max_ttl now input h = ground arith

-- What the checks of `Create` establish: the caller's session, the issued fields and the caller's
-- role in the workspace.
pub record IsPermitted (workspaces : WorkspaceRepository) (max_ttl now : ℕ) (ctx : RequestContext)
    (p : Caller × CreateInput × Workspace) : Type 0 where
  pub by_session : via_token ctx.access_token ≡ false
  pub is_caller : actor ctx ≡ ok p.0
  pub issuable : IsIssuable max_ttl now p.1
  pub role : String
  pub is_role : workspaces.workspace_role p.2.id p.0.user.id p.0.platform_admin ≡ ok role
  pub member : (role == "") ≡ false
  pub writes : (p.1.scope == "write" && not (can_write role)) ≡ false
  pub commits : (p.1.can_commit && not (can_admin role)) ≡ false

session_actor-inv :
    (ctx : RequestContext) {c : Caller}
    → session_actor ctx ≡ ok c
    → (via_token ctx.access_token ≡ false) × (actor ctx ≡ ok c)
unfolding session_actor
session_actor-inv ctx h =
    refuse_if-inv (via_token ctx.access_token) (forbidden "access_token_management_forbidden") _ h
      λ session rest. (session, rest)

-- the three checks of the role
role_checks-inv :
    (role : String) (i : CreateInput) (q p : Caller × CreateInput × Workspace)
    → (refuse_if (role == "") (forbidden "workspace_forbidden")
        >> (refuse_if
              (i.scope == "write" && not (can_write role))
              (forbidden "access_token_scope_exceeds_role")
            >> (refuse_if
                  (i.can_commit && not (can_admin role))
                  (forbidden "access_token_owner_admin_required")
                >> ok q)))
      ≡ ok p
    → (q ≡ p)
      × ((role == "") ≡ false)
      × ((i.scope == "write" && not (can_write role)) ≡ false)
      × ((i.can_commit && not (can_admin role)) ≡ false)
role_checks-inv role i q p h = refuse_if-inv (role == "") _ _ h λ member h1.
    refuse_if-inv (i.scope == "write" && not (can_write role)) _ _ h1 λ writes h2.
      refuse_if-inv (i.can_commit && not (can_admin role)) _ _ h2
        λ commits h3. (ok-injective h3, member, writes, commits)

-- If the checks of `Create` pass, the caller comes with a session and not with a token, the fields
-- are within their bounds, and the token's scope and commit flag do not exceed the caller's role.
pub prepare-IsPermitted :
    (workspaces : WorkspaceRepository) (max_ttl now : ℕ) (ctx : RequestContext)
    (input : CreateInput) (p : Caller × CreateInput × Workspace)
    → prepare workspaces max_ttl now ctx input ≡ ok p
    → IsPermitted workspaces max_ttl now ctx p
unfolding prepare
prepare-IsPermitted workspaces max_ttl now ctx input p h =
    >>=-inv (session_actor ctx) _ h λ c ec h1.
      >>=-inv (validate_create max_ttl now input) _ h1 λ i ei h2.
        >>=-inv
          (map_row_missing (not_found "workspace_not_found")
            (workspaces.get_workspace (trim_space i.workspace_identity)))
          _ h2
          λ w ew h3.
            >>=-inv (workspaces.workspace_role w.id c.user.id c.platform_admin) _ h3 λ role er h4.
              let good = validate_create-IsIssuable max_ttl now input ei in
              let checked = role_checks-inv role i (c, i, w) p h4 in
              subst (IsPermitted workspaces max_ttl now ctx) checked.0 (record {
                by_session = (session_actor-inv ctx ec).0;
                is_caller = (session_actor-inv ctx ec).1;
                issuable = good;
                role = role;
                is_role = er;
                member = checked.1;
                writes = checked.2;
                commits = checked.3;
              })

-- What is stored for a token: a hash of the secret and the first 8 of its characters.
pub record IsStored (crypto : Crypto) (secret : String) (p : Caller × CreateInput × Workspace)
    (x : CreateAccessTokenInput) : Type 0 where
  pub user_id : x.user_id ≡ p.0.user.id
  pub workspace_id : x.workspace_id ≡ p.2.id
  pub name : x.name ≡ p.1.name
  pub description : x.description ≡ p.1.description
  pub scope : x.scope ≡ p.1.scope
  pub can_commit : x.can_commit ≡ p.1.can_commit
  pub can_delete : x.can_delete ≡ p.1.can_delete
  pub expires_at : x.expires_at ≡ p.1.expires_at
  pub secret_hash : x.secret_hash ≡ crypto.sha256 secret

-- What one call of `Create` that returned a token has done.
pub record IsIssued {S : Type 0} (tokens : AccessTokenRepository S) (crypto : Crypto)
    (workspaces : WorkspaceRepository) (max_ttl now : ℕ) (random : Result String)
    (ctx : RequestContext) (input : CreateInput) (s : S) (r : Created) (s' : S) : Type 0 where
  pub prepared : Caller × CreateInput × Workspace
  pub permitted : IsPermitted workspaces max_ttl now ctx prepared
  pub body : String
  pub drawn : random ≡ ok body
  pub shown : r.secret ≡ "endge_pat_" ++ body
  pub row : CreateAccessTokenInput
  pub is_row : IsStored crypto r.secret prepared row
  pub display : row.token_prefix ≡ "endge_pat_" ++ slice body 0 8
  pub stored : tokens.create_access_token row s ≡ (ok r.token, s')

module _ {S : Type 0} (tokens : AccessTokenRepository S) (crypto : Crypto)
    (workspaces : WorkspaceRepository) (max_ttl now : ℕ) (random : Result String)
    (ctx : RequestContext) (input : CreateInput) (s : S) where
  -- A refused request for a token leaves the store as it was.
  pub create_refused :
      (e : Error)
      → prepare workspaces max_ttl now ctx input ≡ err e
      → create tokens crypto workspaces max_ttl now random ctx input s ≡ (err e, s)
  unfolding create
  create_refused e h = rw h
