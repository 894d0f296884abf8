-- ===== src/Documents/Tests.antt =====
-- Moving one query, over a store that holds one document.
use service_backend.Prelude.{◌+◌, String, true, false, Option, none, some, [], ◌∷◌}
use service_backend.Errors.{ok}
use service_backend.AccessControl.{pos}
use service_backend.Entities.{User, Workspace}
use service_backend.Access.Context.{RequestContext}
use service_backend.Documents.{Document, Content, Repository, Formats}
use service_backend.Documents.Check.{MoveDocumentsInput, MoveDocumentsResult}
use service_backend.Documents.Lifecycle.{Resources}

abbrev main : Workspace
main = record {
  id = "w1";
  identity = "main";
  display_name = "Main";
  active = true;
  deleted_at = none;
}

abbrev ann : User
ann = record {
  id = "u1";
  provider_id = "idp";
  subject = "ann";
  issuer = "https://idp";
  username = "ann";
  display_name = "Ann";
  active = true;
}

abbrev ctx : RequestContext
ctx = record {
  current_actor = some (record { user = some ann; platform_admin = false });
  workspace_access = some (record { workspace = main; role = "editor"; owner_role = "" });
  access_token = none;
}

abbrev query : Document
query = record {
  id = "d1";
  workspace_id = "w1";
  kind = "queries";
  identity = "q1";
  display_name = "Query";
  description = none;
  folder_identity = some "old";
  workspace_folder_identity = none;
  managed_by = "user";
  managed_by_id = none;
  meta = "{}";
  data_json = "{}";
  active = true;
  deleted_at = none;
  revision = 3;
  created_by = record { id = "u1"; username = ""; display_name = "" };
  updated_by = record { id = "u1"; username = ""; display_name = "" };
  created_at = 0;
  updated_at = 0;
}

abbrev folder_of : Option String → String
folder_of none = ""
folder_of (some s) = s

-- the checksum reads the folder, which is all that a move changes here
abbrev formats : Formats
formats = record {
  folder_data = λ s. record { entity_type = ""; scope = ""; parent_identity = ""; is_root = false };
  without_parent = λ s. s;
  checksum = λ (c : Content). folder_of c.folder_identity;
  lower_text = λ e. "";
}

abbrev repo : Repository Document
repo = record {
  get_document = λ workspace collection identity archived s. (ok s, s);
  update_document =
      λ d n folder s. (ok (record d { revision = n + 1 }), record d { revision = n + 1 });
  resolve_folder = λ workspace identity kind s. (ok (some identity), s);
  begin_batch = λ workspace kind user s. (ok tt, s);
  record_document = λ d kind s. (ok tt, s);
}

abbrev input : MoveDocumentsInput
input = record {
  documents =
      (record { collection = " queries "; identity = "q1"; expected_revision = pos 3 }) ∷ [];
  folder_identity = "new";
  placement = "frontend";
}

abbrev moved : Document
moved = record query { folder_identity = some "new"; revision = 4 }

abbrev answer : MoveDocumentsResult
answer = record {
  documents =
      (record {
        collection = "queries";
        document = record moved {
          updated_by = record { id = "u1"; username = ""; display_name = "" };
        };
      })
      ∷ [];
  moved = 1;
}

abbrev resources : Resources Document
resources = record {
  get = λ workspace identity archived s. (ok s, s);
  update = λ d n folder s.
      (ok (record d { revision = d.revision + 1 }), record d { revision = d.revision + 1 });
  move_folder_contents = λ workspace id folder user s. (ok [], s);
  clear_startup_composition = λ workspace id user s. (ok (main, false), s);
  record_workspace = λ w kind s. (ok tt, s);
}

abbrev removed : Document
removed = record query { deleted_at = some 7; active = false; revision = 4 }
