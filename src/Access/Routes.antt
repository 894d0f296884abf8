-- ===== src/Access/Routes.antt =====
-- internal/api/http/middleware/access_token.go: which routes a request with an access token may use.
-- A route is the path below /api that accessTokenRouteError is given. AccessTokenAllowsRoute and
-- normalizeRoutePath, which makes that path from the request's, are not modelled.
pub mod Policy
use service_backend.Prelude.{
  String, Bool, true, false, not, ◌&&◌, ◌||◌, ◌==◌, Option, none, some, List, [], ◌∷◌,
  if◌then◌else◌, ends_with,
}
use Prim.Native.String.{◌++◌}
use text.Mathlib.Text.{starts_with}
use service_backend.Errors.{Error, forbidden}
use service_backend.Entities.{AccessTokenPrincipal}

-- accessTokenDeniedPrefixes
abbrev pub denied_prefixes : List String
denied_prefixes =
    "/v1/access-tokens" ∷ "/v1/access-grants" ∷ "/v1/service-users" ∷ "/v1/workspaces" ∷ "/v1/ai"
    ∷ "/v1/backend-connections" ∷ "/v1/integrations" ∷ "/v1/bridge" ∷ "/v1/domain/import"
    ∷ "/v1/domain/backups" ∷ []

-- the test and the two refusals inside the loop of accessTokenRouteError
unfoldable pub under : String → String → Bool
under prefix route = route == prefix || starts_with route (prefix ++ "/")

abbrev prefix_error : String → Error
prefix_error prefix =
    if prefix == "/v1/access-tokens"
    then forbidden "access_token_management_forbidden"
    else forbidden "access_token_route_forbidden"

pub denied : List String → String → Option Error
denied [] route = none
denied (p ∷ ps) route =
    let rest = denied ps route in if under p route then some (prefix_error p) else rest

-- isReleaseArtifactRoute
unfoldable pub is_release_artifact_route : String → Bool
is_release_artifact_route route =
    starts_with route "/v1/releases/" && (ends_with route "/bundle" || ends_with route "/export")

-- isCommitRoute
unfoldable pub is_commit_route : String → Bool
is_commit_route route =
    not (ends_with route "/plan")
    && (route == "/v1/commits"
        || route == "/v1/releases"
        || route == "/v1/releases/from-build"
        || starts_with route "/v1/commits/" && ends_with route "/restore"
        || starts_with route "/v1/releases/" && ends_with route "/restore")

-- accessTokenRouteError after its loop
flag_error : AccessTokenPrincipal → String → String → Option Error
flag_error token method route =
    if is_release_artifact_route route
    then some (forbidden "access_token_route_forbidden")
    else if method == "DELETE" && not token.can_delete
    then some (forbidden "access_token_delete_forbidden")
    else if method == "POST" && is_commit_route route && not token.can_commit
    then some (forbidden "access_token_commit_forbidden")
    else none

abbrev or_else : Option Error → Option Error → Option Error
or_else (some e) o = some e
or_else none o = o

-- accessTokenRouteError
unfoldable pub access_token_route_error : AccessTokenPrincipal → String → String → Option Error
unfolding denied flag_error
access_token_route_error token method route =
    or_else (denied denied_prefixes route) (flag_error token method route)
