-- ===== src/AccessControl/Queries.antt =====
-- SearchUsers and List of internal/usecase/access_control/usecase.go, Management and IsPlatformAdmin
-- of external.go.
use Prim.Native.String.{count}
use service_backend.Prelude.{
  String, Bool, not, ◌&&◌, ◌||◌, ◌==◌, ltb, Option, none, some, if◌then◌else◌, trim_space,
}
use service_backend.Errors.{invalid_input}
use service_backend.Policy.{Policy, AccessManagement, management, external}
use service_backend.Access.Context.{RequestContext, Caller, actor}
use service_backend.Exec.{Exec, pure, raise, lift, ◌>>=◌, ◌>>◌}
use service_backend.AccessControl.{
  ℤ, pos, AccessGrant, AccessGrantUser, Page, EncodedPage, ExternalAccessState, Repository, Codec,
  reads, platform_admin_required, normalized_limit, encode_cursor, decode_cursor,
  require_workspace_admin, require_grant_admin,
}

pub record ListInput : Type 0 where
  pub scope_type : String
  pub workspace_identity : String
  pub user_id : String
  pub query : String
  pub cursor : String
  pub limit : ℤ

-- what List restricts its rows to
pub record Filter : Type 0 where
  pub workspace : Option String
  pub user : Option String

module _ {S : Type 0} (repo : Repository S) (codec : Codec) where
  abbrev encoded {ℓ} : {A : Type ℓ} → Page A → EncodedPage A
  encoded p = record { items = p.items; next_cursor = encode_cursor codec p.next }

  -- SearchUsers
  unfoldable pub search_users :
      RequestContext → String → String → String → ℤ → Exec S (EncodedPage AccessGrantUser)
  search_users ctx query identity cursor limit =
      if ltb (count (trim_space query)) 2 then raise (invalid_input "user_query_too_short") else do
        reads (λ st. require_grant_admin (repo.workspaces st) ctx identity)
        decoded ← lift (decode_cursor codec cursor)
        page ← repo.search_service_users (record {
          query = trim_space query;
          cursor = decoded;
          limit = pos (normalized_limit limit 20 50);
        })
        pure (encoded page)

  -- the `switch` of List
  unfoldable pub filter_of : RequestContext → Caller → ListInput → Exec S Filter
  filter_of ctx current i =
      if trim_space i.scope_type == "platform" || not (trim_space i.user_id == "")
      then (if not current.platform_admin
          then raise platform_admin_required
          else if trim_space i.user_id == ""
          then pure (record { workspace = none; user = none })
          else if not (codec.is_uuid (trim_space i.user_id))
          then raise (invalid_input "access_user_id_invalid")
          else pure (record { workspace = none; user = some (trim_space i.user_id) }))
      else (do
        w ← reads (λ st. require_workspace_admin (repo.workspaces st) ctx i.workspace_identity)
        pure (record { workspace = some w.id; user = none }))

  -- List
  unfoldable pub list : RequestContext → ListInput → Exec S (EncodedPage AccessGrant)
  unfolding filter_of
  list ctx i =
      if not (trim_space i.scope_type == "platform") && not (trim_space i.scope_type == "workspace")
      then raise (invalid_input "access_scope_invalid")
      else (do
        current ← lift (actor ctx)
        kept ← filter_of ctx current i
        cursor ← lift (decode_cursor codec i.cursor)
        page ← repo.list_access_grants (record {
          scope_type = trim_space i.scope_type;
          workspace_id = kept.workspace;
          user_id = kept.user;
          query = i.query;
          cursor = cursor;
          limit = pos (normalized_limit i.limit 50 100);
        })
        pure (encoded page))

  abbrev synchronized : AccessManagement → Option ExternalAccessState → AccessManagement
  synchronized m none = m
  synchronized m (some s) = record m { last_synchronized_at = some s.last_synchronized_at }

  -- Management
  unfoldable pub manage : Option Policy → String → Exec S AccessManagement
  manage policy user_id = if not (external policy) then pure (management policy) else do
    state ← repo.get_external_access_state user_id
    pure (synchronized (management policy) state)

  -- IsPlatformAdmin
  abbrev pub is_platform_admin : String → Exec S Bool
  is_platform_admin user_id = repo.is_platform_admin user_id
