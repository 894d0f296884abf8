-- ===== src/Documents/Kept.antt =====
-- What an UPDATE of MoveDocuments, Delete and Restore (internal/usecase/documents) leaves of a document.
use service_backend.Prelude.{
  ℕ, String, ◌≡◌, ◌⊎◌, refl, not, Option, none, Bool, false, ◌==◌, Bool-cases, inl, inr, some,
  if◌then◌else◌,
}
use service_backend.Entities.{Actor}
use service_backend.Documents.{Document, Formats}
use service_backend.Documents.Move.{placed}

-- the fields that none of the three changes
pub record KeepsRest (d next : Document) : Type 0 where
  pub id : next.id ≡ d.id
  pub workspace_id : next.workspace_id ≡ d.workspace_id
  pub kind : next.kind ≡ d.kind
  pub identity : next.identity ≡ d.identity
  pub display_name : next.display_name ≡ d.display_name
  pub description : next.description ≡ d.description
  pub managed_by : next.managed_by ≡ d.managed_by
  pub managed_by_id : next.managed_by_id ≡ d.managed_by_id
  pub meta : next.meta ≡ d.meta
  pub revision : next.revision ≡ d.revision
  pub created_by : next.created_by ≡ d.created_by

-- a document that a user has put into a folder
pub record IsPlaced (placement folder user : String) (d next : Document) : Type 0 where
  pub rest : KeepsRest d next
  pub folder_identity :
      next.folder_identity ≡ (if placement == "workspace" then d.folder_identity else some folder)
  pub workspace_folder_identity :
      next.workspace_folder_identity
      ≡ (if placement == "workspace" then some folder else d.workspace_folder_identity)
  pub by : next.updated_by.id ≡ user
  pub data_json : next.data_json ≡ d.data_json
  pub active : next.active ≡ d.active
  pub deleted_at : next.deleted_at ≡ d.deleted_at

pub placed-IsPlaced :
    (placement folder user : String) (d : Document)
    → IsPlaced placement folder user d (placed placement folder user d)
placed-IsPlaced placement folder user d = elim (Bool-cases (placement == "workspace")) [
  | inl workspace ↦ record {
    rest = record {
      id = simp workspace;
      workspace_id = simp workspace;
      kind = simp workspace;
      identity = simp workspace;
      display_name = simp workspace;
      description = simp workspace;
      managed_by = simp workspace;
      managed_by_id = simp workspace;
      meta = simp workspace;
      revision = simp workspace;
      created_by = simp workspace;
    };
    folder_identity = simp workspace;
    workspace_folder_identity = simp workspace;
    by = simp workspace;
    data_json = simp workspace;
    active = simp workspace;
    deleted_at = simp workspace;
  }
  | inr other ↦ record {
    rest = record {
      id = simp other;
      workspace_id = simp other;
      kind = simp other;
      identity = simp other;
      display_name = simp other;
      description = simp other;
      managed_by = simp other;
      managed_by_id = simp other;
      meta = simp other;
      revision = simp other;
      created_by = simp other;
    };
    folder_identity = simp other;
    workspace_folder_identity = simp other;
    by = simp other;
    data_json = simp other;
    active = simp other;
    deleted_at = simp other;
  }
]

-- a document with other marks, and another place
pub marked-KeepsRest :
    (d : Document) (deleted_at : Option ℕ) (active : Bool) (by : Actor)
    (folder workspace_folder : Option String) (json : String)
    → KeepsRest d (record d {
      deleted_at = deleted_at;
      active = active;
      updated_by = by;
      folder_identity = folder;
      workspace_folder_identity = workspace_folder;
      data_json = json;
    })
marked-KeepsRest d deleted_at active by folder workspace_folder json = record {
  id = refl;
  workspace_id = refl;
  kind = refl;
  identity = refl;
  display_name = refl;
  description = refl;
  managed_by = refl;
  managed_by_id = refl;
  meta = refl;
  revision = refl;
  created_by = refl;
}

pub moved-KeepsRest :
    (d next : Document) (folder workspace_folder : Option String)
    → KeepsRest d next
    → KeepsRest d
        (record next { folder_identity = folder; workspace_folder_identity = workspace_folder })
moved-KeepsRest d next folder workspace_folder v = record {
  id = v.id;
  workspace_id = v.workspace_id;
  kind = v.kind;
  identity = v.identity;
  display_name = v.display_name;
  description = v.description;
  managed_by = v.managed_by;
  managed_by_id = v.managed_by_id;
  meta = v.meta;
  revision = v.revision;
  created_by = v.created_by;
}

-- What Delete, for `true`, and Restore, for `false`, make of a document. Restore may leave a folder
-- that is gone, and a folder comes back without its parent.
pub record IsMarked (formats : Formats) (gone : Bool) (now : ℕ) (user : String) (d next : Document)
    : Type 0 where
  pub rest : KeepsRest d next
  pub deleted_at : next.deleted_at ≡ (if gone then some now else none)
  pub active : next.active ≡ not gone
  pub by : next.updated_by.id ≡ user
  pub folder_identity :
      (next.folder_identity ≡ d.folder_identity) ⊎ ((gone ≡ false) × (next.folder_identity ≡ none))
  pub workspace_folder_identity :
      (next.workspace_folder_identity ≡ d.workspace_folder_identity)
      ⊎ ((gone ≡ false) × (next.workspace_folder_identity ≡ none))
  pub data_json :
      (next.data_json ≡ d.data_json)
      ⊎ ((gone ≡ false) × (next.data_json ≡ formats.without_parent d.data_json))
