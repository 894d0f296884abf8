-- ===== src/Access/Context/Order.antt =====
-- How the three request checks of internal/usecase/shared/context.go relate, with and without an
-- access token.
use service_backend.Prelude.{
  String, ◌≡◌, ◌∙◌, not, true, false, some, arith, ap, Option-cases, inl, inr,
}
use service_backend.Errors.{ok, >>=-inv, refuse_if-inv, forbidden, is_ok, ◌>>=◌, ok-injective}
use service_backend.Entities.{WorkspaceAccess, AccessTokenPrincipal, token_can_write}
use service_backend.Access.Context.{
  RequestContext, Caller, can_write, can_admin, write_context, admin_context, commit_context,
  token_commit,
}

can_admin-can_write : (role : String) → can_admin role ≡ true → can_write role ≡ true
can_admin-can_write role h = ground arith

admin-write :
    (ctx : RequestContext) (r : Caller × WorkspaceAccess)
    → admin_context ctx ≡ ok r
    → write_context ctx ≡ ok r
unfolding admin_context write_context
admin-write ctx r h = ground arith

-- what a committing token has passed beyond the check for writing
token_commit-inv {κ} :
    {C : Type κ} (t : AccessTokenPrincipal) (q r : Caller × WorkspaceAccess)
    → token_commit t q ≡ ok r
    → (t.can_commit ≡ true → can_admin r.1.owner_role ≡ true → q ≡ r → C)
    → C
token_commit-inv t (c, scope) r h k =
    refuse_if-inv (not t.can_commit) (forbidden "access_token_commit_forbidden") _ h λ may h1.
      refuse_if-inv (not (can_admin scope.owner_role))
        (forbidden "access_token_owner_admin_required") _ h1
        λ admin h2. k (ground arith) (ground arith) (ok-injective h2)

write_context-token :
    (ctx : RequestContext) (t : AccessTokenPrincipal) (r : Caller × WorkspaceAccess)
    → ctx.access_token ≡ some t
    → write_context ctx ≡ ok r
    → (token_can_write t ≡ true) × (can_write r.1.role ≡ true) × (ctx.workspace_access ≡ some r.1)
unfolding write_context
write_context-token ctx t r via h = (ground arith, ground arith, ground arith)

-- A request that may commit may also write, and the two checks hand on the same caller and access.
pub commit_context-write_context :
    (ctx : RequestContext) (r : Caller × WorkspaceAccess)
    → commit_context ctx ≡ ok r
    → write_context ctx ≡ ok r
unfolding commit_context
commit_context-write_context ctx r h = elim (Option-cases ctx.access_token) [
  | inl session ↦ admin-write ctx r (rw (session, commit_context) at h)
  | inr (t, via) ↦
      let h' : (write_context ctx >>= token_commit t) ≡ ok r = rw (via, commit_context) at h in
      >>=-inv (write_context ctx) _ h'
        λ q eq rest. token_commit-inv t q r rest λ may admin same. rw eq (ap ok same)
]

-- A request with a token commits only if the token has the commit flag and a writing scope, and its
-- owner is an administrator of the request's workspace.
pub commit_context-token :
    (ctx : RequestContext) (t : AccessTokenPrincipal) (r : Caller × WorkspaceAccess)
    → ctx.access_token ≡ some t
    → commit_context ctx ≡ ok r
    → (t.can_commit ≡ true)
      × (token_can_write t ≡ true)
      × (can_admin r.1.owner_role ≡ true)
      × (ctx.workspace_access ≡ some r.1)
unfolding commit_context
commit_context-token ctx t r via h =
    let h' : (write_context ctx >>= token_commit t) ≡ ok r = rw (via, commit_context) at h in
    >>=-inv (write_context ctx) _ h' λ q eq rest. token_commit-inv t q r rest λ may admin same.
      let w = write_context-token ctx t r via (eq ∙ ap ok same) in (may, w.0, admin, w.2)

-- a request with an access token does not pass the administrative check
admin_context-token :
    (ctx : RequestContext) (t : AccessTokenPrincipal)
    → ctx.access_token ≡ some t
    → is_ok (admin_context ctx) ≡ false
unfolding admin_context
admin_context-token ctx t via = ground arith
