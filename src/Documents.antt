-- ===== src/Documents.antt =====
-- internal/usecase/documents: the documents of a workspace. This file has the document, what the use
-- case asks of its ports, and the folders that a document stands in (folders.go).
--
-- The ports work on a store of type `S`. Reading the JSON of a folder, the checksum of a document's
-- content, and the lower-case text of an error are the fields of `Formats`.
pub mod Check
pub mod Move
pub mod Kept
pub mod Outcome
pub mod Moved
pub mod Lifecycle
pub mod Turned
pub mod Restored
mod Tests
use Prim.Native.String.{len, ◌++◌}
use text.Mathlib.Text.{starts_with}
use service_backend.Prelude.{
  ℕ, String, Bool, true, false, not, ◌&&◌, ◌||◌, ◌==◌, Option, none, some, List, [], ◌∷◌, contains,
  eqb, ltb, trim_space, if◌then◌else◌,
}
use service_backend.Errors.{
  Error, Result, ok, err, invalid_input, conflict, not_found, map_row_missing,
}
use service_backend.Entities.{Actor}
use service_backend.Exec.{Exec, pure, raise, ◌>>=◌, ◌>>◌}

pub record Document : Type 0 where
  pub id : String
  pub workspace_id : String
  pub kind : String
  pub identity : String
  pub display_name : String
  pub description : Option String
  pub folder_identity : Option String
  pub workspace_folder_identity : Option String
  pub managed_by : String
  pub managed_by_id : Option String
  pub meta : String
  pub data_json : String
  pub active : Bool
  pub deleted_at : Option ℕ
  pub revision : ℕ
  pub created_by : Actor
  pub updated_by : Actor
  pub created_at : ℕ
  pub updated_at : ℕ

-- what checksumContent hashes
pub record Content : Type 0 where
  pub identity : String
  pub display_name : String
  pub description : Option String
  pub folder_identity : Option String
  pub workspace_folder_identity : Option String
  pub managed_by : String
  pub managed_by_id : Option String
  pub meta : String
  pub data_json : String
  pub active : Bool
  pub deleted_at : Option ℕ

abbrev pub content_of : Document → Content
content_of d = record {
  identity = d.identity;
  display_name = d.display_name;
  description = d.description;
  folder_identity = d.folder_identity;
  workspace_folder_identity = d.workspace_folder_identity;
  managed_by = d.managed_by;
  managed_by_id = d.managed_by_id;
  meta = d.meta;
  data_json = d.data_json;
  active = d.active;
  deleted_at = d.deleted_at;
}

-- the fields of a folder's JSON data; a field that is absent or no text is empty
pub record FolderData : Type 0 where
  pub entity_type : String
  pub scope : String
  pub parent_identity : String
  pub is_root : Bool

pub record Formats : Type 0 where
  pub folder_data : String → FolderData
  -- the data without the key `parentIdentity`
  pub without_parent : String → String
  pub checksum : Content → String
  pub lower_text : Error → String

-- DocumentRepository and the history's Recorder, as far as they are used
pub record Repository (S : Type 0) : Type 0 where
  pub get_document : String → String → String → Bool → Exec S Document
  pub update_document : Document → ℕ → Option String → Exec S Document
  pub resolve_folder : String → String → String → Exec S (Option String)
  pub begin_batch : String → String → String → Exec S (Unit {0})
  pub record_document : Document → String → Exec S (Unit {0})

-- DocumentCollections
abbrev pub collections : List String
collections =
    "folders" ∷ "types" ∷ "queries" ∷ "data-views" ∷ "compositions" ∷ "stores" ∷ "streams"
    ∷ "simulations" ∷ "updates" ∷ "mocks" ∷ "components" ∷ "actions" ∷ "filters" ∷ "converters"
    ∷ "computations" ∷ "vocabs" ∷ "i18n-bundles" ∷ "auth-profiles" ∷ "navigations" ∷ "styles"
    ∷ "configurations" ∷ []

-- FolderEntityType
abbrev pub folder_entity_type : String → String
folder_entity_type collection = if collection == "streams" then "queries" else collection

-- RootFolderIdentity
abbrev pub root_folder_identity : String → String
root_folder_identity collection = "root-" ++ folder_entity_type collection

-- validateCollection
abbrev pub validate_collection : String → Result (Unit {0})
validate_collection collection =
    if contains collections collection then ok tt else err (invalid_input "collection_unsupported")

-- validateIdentity
unfoldable pub validate_identity : String → Result (Unit {0})
validate_identity value =
    if eqb (len (trim_space value)) 0
    then err (invalid_input "identity_required")
    else if ltb 160 (len (trim_space value))
    then err (invalid_input "identity_too_long")
    else ok tt

-- strings.Contains
unfoldable pub has_part : String → String → Bool
has_part part String.[] = part == ""
has_part part (String.◌∷◌ c s) =
    let rest = has_part part s in starts_with (String.◌∷◌ c s) part || rest

-- MapConflict; `text` is the error's text in lower case
unfoldable pub map_conflict : (Error → String) → Error → Error
unfolding has_part
map_conflict text e =
    if has_part "revision conflict" (text e)
    then conflict "revision_conflict"
    else if has_part "duplicate" (text e)
        || has_part "unique constraint" (text e)
        || has_part "23505" (text e)
    then conflict "identity_conflict"
    else if has_part "relation target" (text e)
    then invalid_input "relation_target_not_found"
    else e

-- MapNotFound
abbrev pub entity_missing : Error
entity_missing = not_found "not_found"

abbrev pub text_or : String → Option String → String
text_or fallback none = fallback
text_or fallback (some s) = if s == "" then fallback else s

module _ {S : Type 0} (repo : Repository S) (formats : Formats) where
  -- the parent of a folder, in resolveDocumentFolder
  abbrev pub parent_of : FolderData → String
  parent_of f =
      if not (trim_space f.parent_identity == "") || f.is_root
      then trim_space f.parent_identity
      else if trim_space f.scope == "workspace"
      then "root-workspace-files"
      else root_folder_identity (folder_entity_type (trim_space f.entity_type))

  -- resolveDocumentFolder
  unfoldable pub resolve_document_folder : String → Document → Exec S (Option String)
  resolve_document_folder workspace d =
      if d.kind == "configurations"
      then pure none
      else if d.kind == "folders"
      then repo.resolve_folder workspace (parent_of (formats.folder_data d.data_json))
          (folder_entity_type (trim_space (formats.folder_data d.data_json).entity_type))
      else repo.resolve_folder workspace (text_or (root_folder_identity d.kind) d.folder_identity)
          (folder_entity_type d.kind)

  abbrev pub trimmed_or : String → Option String → String
  trimmed_or fallback none = fallback
  trimmed_or fallback (some s) = if trim_space s == "" then fallback else trim_space s

  -- resolveDocumentWorkspaceFolder
  unfoldable pub resolve_document_workspace_folder : String → Document → Exec S (Unit {0})
  resolve_document_workspace_folder workspace d = if d.kind == "folders" then pure tt else (do
    _ ←
        repo.resolve_folder workspace
          (trimmed_or "root-workspace-files" d.workspace_folder_identity) ""
    pure tt)
