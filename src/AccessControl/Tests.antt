-- ===== src/AccessControl/Tests.antt =====
-- Grant operations over a small store, in runs that fail half way.
mod External
mod Granting
use service_backend.Prelude.{
  ℕ, ◌+◌, ◌-◌, ◌≤◌, String, ◌≡◌, refl, sym, ap, ◌∙◌, true, false, ◌==◌, none, some, [], ◌∷◌, arith,
  count_if, trim_space, if◌then◌else◌, inl, inr,
}
use service_backend.Prelude.Map
use service_backend.Prelude.Map.{Map, get-put}
use service_backend.Errors.{ok, err, row_missing, conflict, not_found, forbidden}
use service_backend.Entities.{User, Workspace}
use service_backend.Policy.{Policy}
use service_backend.Access.Context.{RequestContext, Caller, actor}
use service_backend.Exec.{pure-inv}
use service_backend.AccessControl.{
  AccessGrant, ExternalAccessSnapshot, ExternalAccessState, UpsertCurrentUserInput, Repository,
  Codec,
}
use service_backend.AccessControl.Operations.{
  PutInput, BulkInput, BulkResult, put, delete, bulk, grant_target, may_delete, delete_in_tx, takes,
  bulk_loop, bulk_in_tx, set_of,
}
use service_backend.AccessControl.Snapshot.{mapped_grants, compare_tokens}
use service_backend.AccessControl.Identity.{
  apply_verdict, synchronize, external_in_tx, resolve_external,
}
use service_backend.AccessControl.Atomic.{grants-atomic}
use service_backend.AccessControl.Admins.{CountsAdmins, delete_keeps_admin}
use service_backend.AccessControl.Bulk.{Grants, bulk_counts}
use service_backend.AccessControl.Watermark.{StoresStates, issued, resolve_external_newer}

record Store : Type 0 where
  admins : ℕ
  writes : ℕ
  states : Map ExternalAccessState

abbrev ann : User
ann = record {
  id = "u1";
  provider_id = "idp";
  subject = "ann";
  issuer = "https://idp";
  username = "ann";
  display_name = "Ann";
  active = true;
}

abbrev main : Workspace
main = record {
  id = "w1";
  identity = "main";
  display_name = "Main";
  active = true;
  deleted_at = none;
}

abbrev closed : Workspace
closed = record main { id = "w2"; identity = "closed"; active = false }

abbrev grant : AccessGrant
grant = record {
  id = "g1";
  user = record {
    id = "u1";
    provider_id = "idp";
    username = "ann";
    display_name = "Ann";
    active = true;
  };
  scope_type = "platform";
  workspace_id = none;
  workspace_identity = none;
  role = "admin";
}

abbrev written : Store → Store
written s = record s { writes = s.writes + 1 }

abbrev repo : Repository Store
repo = record {
  get_external_access_state = λ id s. (ok (Map.get s.states id), s);
  has_external_access_history = λ s. (ok false, s);
  replace_external_access =
      λ id grants new s. (ok tt, record s { states = Map.put id new s.states });
  lock_bootstrap = λ s. (ok tt, s);
  has_platform_admins = λ s. (ok true, s);
  is_platform_admin = λ id s. (ok true, s);
  count_human_users = λ s. (ok 1, s);
  search_service_users = λ i s. (ok (record { items = []; next = none }), s);
  get_access_grant = λ id s. (ok grant, s);
  list_access_grants = λ i s. (ok (record { items = []; next = none }), s);
  upsert_access_grant = λ i s. (ok (grant, true), written s);
  delete_access_grant = λ id s. (ok tt, record s { admins = s.admins - 1 });
  count_platform_admins = λ s. (ok s.admins, s);
  upsert_current_user = λ i s. (ok ann, written s);
  workspaces = λ s. record {
    get_workspace = λ identity. ok main;
    list_workspaces = λ user platform. ok (main ∷ closed ∷ []);
    workspace_role = λ w user platform. ok "admin";
    list_deleted_workspaces = λ user platform. ok [];
    deleted_workspace_role = λ w user platform. ok "";
  };
}

-- a repository that writes and then fails
abbrev failing : Repository Store
failing = record repo { upsert_access_grant = λ i s. (err row_missing, written s) }

abbrev codec : Codec
codec = record {
  is_uuid = λ s. true;
  encode_page_cursor = λ c. c.id;
  decode_page_cursor = λ s. none;
  grants_hash = λ gs. ok "h";
}

abbrev ctx : RequestContext
ctx = record {
  current_actor = some (record { user = some ann; platform_admin = true });
  workspace_access = none;
  access_token = none;
}

abbrev caller : Caller
caller = record { user = ann; platform_admin = true }

abbrev old_state : ExternalAccessState
old_state = record {
  config_version = "1";
  token_hash = "a";
  issued_at = 50;
  grants_hash = "h";
  last_synchronized_at = 50;
}

abbrev store : Store
store = record { admins = 1; writes = 0; states = ("u1", old_state) ∷ [] }

counts_admins : CountsAdmins repo (λ s. s.admins)
counts_admins = record {
  counts = λ s t n h. pure-inv h λ a b. (a, sym b);
  locks = λ s t h. pure-inv h λ a b. sym b;
  gets = λ id s t g h. pure-inv h λ a b. sym b;
  deletes = λ id s t h. pure-inv h λ a b. omega (arith, ap (λ (x : Store). x.admins) b);
  deletes_other = λ id s s' t g found other h.
      pure-inv found λ a b. cc (ap (λ (x : AccessGrant). x.scope_type == "platform") a, other);
}

delete_keeps_admin_example : 1 ≤ (delete repo codec none ctx "g1" store).1.admins
delete_keeps_admin_example =
    delete_keeps_admin repo codec (λ s. s.admins) counts_admins none ctx "g1" store (omega arith)

last_admin :
    delete repo codec none ctx "g1" store ≡ (err (conflict "last_platform_admin_required"), store)
unfolding delete delete_in_tx may_delete actor
last_admin = refl

abbrev for_platform : PutInput
for_platform = record {
  user_id = "u2";
  scope_type = "platform";
  workspace_identity = "";
  role = " admin ";
}

no_target :
    put failing codec none ctx for_platform store
    ≡ (err (not_found "access_target_not_found"), store)
unfolding put grant_target actor trim_space
no_target = refl

-- one workspace of the selection is not there
abbrev two : BulkInput
two = record {
  user_id = "u2";
  role = "viewer";
  selection_type = "selected";
  workspace_identities = "main" ∷ "ghost" ∷ [];
}

one_missing : bulk repo codec none ctx two store ≡ (err (not_found "workspace_not_found"), store)
unfolding bulk bulk_in_tx bulk_loop set_of actor trim_space
one_missing = refl

grants-atomic_example : store ≡ store
grants-atomic_example =
    grants-atomic repo codec none ctx for_platform "g1" two store store
      (not_found "workspace_not_found") (inr (inr one_missing))

abbrev everywhere : BulkInput
everywhere = record two { selection_type = "all-active"; workspace_identities = [] }

abbrev once : BulkResult
once = record { affected = 1; created = 1; updated = 0 }

granted_once :
    bulk_in_tx repo codec caller everywhere [] (main ∷ closed ∷ []) store ≡ (ok once, written store)
unfolding bulk_in_tx bulk_loop
granted_once = refl

bulk_counts_example :
    Grants repo codec caller everywhere [] (main ∷ closed ∷ []) 1 0 store (written store)
    × (1 ≡ 1 + 0)
bulk_counts_example =
    bulk_counts repo codec caller everywhere [] (main ∷ closed ∷ []) once store (written store)
      granted_once
