-- ===== src/Access.antt =====
-- Authorization of a request: the request's context and its role checks
-- (internal/usecase/shared/context.go), the role in a workspace
-- (internal/usecase/workspaces/queries.go) and the route policy of access tokens
-- (internal/api/http/middleware/access_token.go).
pub mod Context
pub mod Authorize
pub mod Routes
pub mod Memberships
mod Tests
