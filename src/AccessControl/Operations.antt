-- ===== src/AccessControl/Operations.antt =====
-- Put, Delete and Bulk of internal/usecase/access_control/usecase.go.
use service_backend.Prelude.{
  ℕ, ◌+◌, String, Bool, true, false, not, ◌&&◌, ◌||◌, ◌==◌, eqb, leb, Option, none, some, List, [],
  ◌∷◌, map, length, contains, if◌then◌else◌, trim_space,
}
use service_backend.Errors.{Result, ok, err, invalid_input, not_found, conflict, internal}
use service_backend.Entities.{Workspace}
use service_backend.Policy.{Policy, require_local}
use service_backend.Access.Context.{RequestContext, Caller, actor}
use service_backend.Exec.{Exec, pure, raise, lift, within_transaction, not_found_as, ◌>>=◌, ◌>>◌}
use service_backend.AccessControl.{
  AccessGrant, Repository, Codec, reads, valid_workspace_role, platform_admin_required,
  require_workspace_admin,
}

pub record PutInput : Type 0 where
  pub user_id : String
  pub scope_type : String
  pub workspace_identity : String
  pub role : String

pub record BulkInput : Type 0 where
  pub user_id : String
  pub role : String
  pub selection_type : String
  pub workspace_identities : List String

pub record BulkResult : Type 0 where
  pub affected : ℕ
  pub created : ℕ
  pub updated : ℕ

-- a Go set of texts from a slice
unfoldable pub set_of : List String → List String
set_of [] = []
set_of (s ∷ ss) = let rest = set_of ss in if contains rest s then rest else s ∷ rest

-- `selected`, or the refusal of the selection
abbrev pub selection_of : BulkInput → Result (List String)
selection_of i =
    if i.selection_type == "selected"
    then (let chosen = set_of (map trim_space i.workspace_identities) in
        if eqb (length chosen) 0
        then err (invalid_input "workspace_selection_required")
        else ok chosen)
    else if not (i.selection_type == "all-active")
    then err (invalid_input "workspace_selection_invalid")
    else ok []

-- the workspaces that the loop of Bulk does not skip
abbrev pub takes : BulkInput → List String → Workspace → Bool
takes i chosen w = w.active && (not (i.selection_type == "selected") || contains chosen w.identity)

abbrev pub counted : Bool → BulkResult → BulkResult
counted true r = record { affected = r.affected + 1; created = r.created + 1; updated = r.updated }
counted false r = record { affected = r.affected + 1; created = r.created; updated = r.updated + 1 }

module _ {S : Type 0} (repo : Repository S) (codec : Codec) where
  -- the `switch` of Put: the workspace that the grant is for
  unfoldable pub grant_target : RequestContext → Caller → PutInput → Exec S (Option String)
  grant_target ctx current i =
      if trim_space i.scope_type == "platform"
      then (if not current.platform_admin
          then raise platform_admin_required
          else if not (trim_space i.role == "admin")
          then raise (invalid_input "platform_role_invalid")
          else pure none)
      else if trim_space i.scope_type == "workspace"
      then (if not (valid_workspace_role (trim_space i.role))
          then raise (invalid_input "workspace_role_invalid")
          else (do
            w ← reads (λ st. require_workspace_admin (repo.workspaces st) ctx i.workspace_identity)
            pure (some w.id)))
      else raise (invalid_input "access_scope_invalid")

  -- Put
  unfoldable pub put : Option Policy → RequestContext → PutInput → Exec S AccessGrant
  unfolding grant_target
  put policy ctx i = do
    lift (require_local policy)
    current ← lift (actor ctx)
    if not (codec.is_uuid (trim_space i.user_id))
        then raise (invalid_input "access_user_id_invalid")
        else do
          target ← grant_target ctx current i
          within_transaction (do
            (grant, made) ← not_found_as (not_found "access_target_not_found") (
                repo.upsert_access_grant (record {
                  user_id = i.user_id;
                  scope_type = trim_space i.scope_type;
                  workspace_id = target;
                  role = trim_space i.role;
                  actor_id = current.user.id;
                }))
            pure grant)

  abbrev pub grant_workspace : RequestContext → Option String → Exec S (Unit {0})
  grant_workspace ctx none = raise (internal "access_workspace_missing")
  grant_workspace ctx (some identity) = do
    w ← reads (λ st. require_workspace_admin (repo.workspaces st) ctx identity)
    pure tt

  -- what Delete asks of the grant that it is about to remove
  unfoldable pub may_delete : RequestContext → Caller → AccessGrant → Exec S (Unit {0})
  may_delete ctx current grant =
      if grant.scope_type == "platform"
      then (if not current.platform_admin then raise platform_admin_required else do
        repo.lock_bootstrap
        n ← repo.count_platform_admins
        if leb n 1 then raise (conflict "last_platform_admin_required") else pure tt)
      else grant_workspace ctx grant.workspace_identity

  -- the transaction of Delete
  unfoldable pub delete_in_tx : RequestContext → Caller → String → Exec S (Unit {0})
  unfolding may_delete
  delete_in_tx ctx current id = do
    grant ← not_found_as (not_found "access_grant_not_found") (repo.get_access_grant id)
    may_delete ctx current grant
    not_found_as (not_found "access_grant_not_found") (repo.delete_access_grant id)

  -- Delete
  unfoldable pub delete : Option Policy → RequestContext → String → Exec S (Unit {0})
  unfolding delete_in_tx
  delete policy ctx id = do
    lift (require_local policy)
    if not (codec.is_uuid (trim_space id))
        then raise (invalid_input "access_grant_id_invalid")
        else do current ← lift (actor ctx); within_transaction (delete_in_tx ctx current id)

  -- the loop of Bulk; `seen` collects the identities that it does not skip
  unfoldable pub bulk_loop :
      Caller
      → BulkInput
      → List String
      → List Workspace
      → BulkResult
      → List String
      → Exec S (BulkResult × List String)
  bulk_loop current i chosen [] r seen = pure (r, seen)
  bulk_loop current i chosen (w ∷ ws) r seen =
      if takes i chosen w
      then (do
        (grant, made) ← not_found_as (not_found "access_target_not_found") (
            repo.upsert_access_grant (record {
              user_id = i.user_id;
              scope_type = "workspace";
              workspace_id = some w.id;
              role = i.role;
              actor_id = current.user.id;
            }))
        bulk_loop current i chosen ws (counted made r)
            (if contains seen w.identity then seen else w.identity ∷ seen))
      else bulk_loop current i chosen ws r seen

  -- the transaction of Bulk
  unfoldable pub bulk_in_tx : Caller → BulkInput → List String → List Workspace → Exec S BulkResult
  unfolding bulk_loop
  bulk_in_tx current i chosen ws = do
    (r, seen) ← bulk_loop current i chosen ws (record { affected = 0; created = 0; updated = 0 }) []
    if i.selection_type == "selected" && not (eqb (length seen) (length chosen))
        then raise (not_found "workspace_not_found")
        else pure r

  -- Bulk
  unfoldable pub bulk : Option Policy → RequestContext → BulkInput → Exec S BulkResult
  unfolding bulk_in_tx set_of
  bulk policy ctx i = do
    lift (require_local policy)
    current ← lift (actor ctx)
    if not current.platform_admin
        then raise platform_admin_required
        else if not (codec.is_uuid (trim_space i.user_id))
        then raise (invalid_input "access_user_id_invalid")
        else if not (valid_workspace_role i.role)
        then raise (invalid_input "workspace_role_invalid")
        else (do
          ws ← reads (λ st. (repo.workspaces st).list_workspaces current.user.id true)
          chosen ← lift (selection_of i)
          within_transaction (bulk_in_tx current i chosen ws))
