-- ===== src/Documents/Lifecycle.antt =====
-- Delete and Restore of internal/usecase/documents/commands.go, with resolveRestoreFolders and
-- isSystemFolder of folders.go.
use service_backend.Prelude.{
  ℕ, String, Bool, true, false, not, ◌&&◌, ◌||◌, ◌==◌, Option, none, some, is_some, List, [], ◌∷◌,
  if◌then◌else◌,
}
use service_backend.Errors.{Result, ok, err, app, row_missing, fault, conflict}
use service_backend.AccessControl.{ℤ}
use service_backend.Entities.{Actor, Workspace, WorkspaceAccess}
use service_backend.Access.Context.{RequestContext, Caller, write_context}
use service_backend.Exec.{Exec, pure, raise, lift, not_found_as, within_transaction, ◌>>=◌}
use service_backend.Documents.{
  Document, Repository, Formats, map_conflict, entity_missing, resolve_document_folder,
  resolve_document_workspace_folder,
}
use service_backend.Documents.Check.{is_positive, is_revision}

-- DocumentResourceRepository of one collection, and what Delete asks of other ports
pub record Resources (S : Type 0) : Type 0 where
  pub get : String → String → Bool → Exec S Document
  pub update : Document → ℤ → Option String → Exec S Document
  pub move_folder_contents : String → String → Option String → String → Exec S (List Document)
  pub clear_startup_composition : String → String → String → Exec S (Workspace × Bool)
  pub record_workspace : Workspace → String → Exec S (Unit {0})

abbrev by_user : String → Actor
by_user id = record { id = id; username = ""; display_name = "" }

abbrev pub deleted : ℕ → String → Document → Document
deleted now user d = record d { deleted_at = some now; active = false; updated_by = by_user user }

-- a folder comes back without its parent
abbrev pub restored : Formats → String → String → Document → Document
restored formats collection user d =
    if collection == "folders"
    then record d {
      deleted_at = none;
      active = true;
      updated_by = by_user user;
      folder_identity = none;
      data_json = formats.without_parent d.data_json;
    }
    else record d { deleted_at = none; active = true; updated_by = by_user user }

-- the second attempt, when the first finds no row
abbrev pub retried {ℓ} : {S : Type 0} {A : Type ℓ} → Exec S A → Result A × S → Result A × S
retried again (ok a, s) = (ok a, s)
retried again (err row_missing, s) = again s
retried again (err (app code status), s) = (err (app code status), s)
retried again (err (fault text), s) = (err (fault text), s)

module _ {S : Type 0} (repo : Repository S) (res : Resources S) (formats : Formats) where
  -- isSystemFolder
  abbrev pub is_system_folder : Document → Bool
  is_system_folder d = (formats.folder_data d.data_json).is_root || d.managed_by == "system"

  -- the checks that both begin with
  unfoldable pub opened :
      RequestContext → String → ℤ → Exec S ((Caller × WorkspaceAccess) × Document)
  opened ctx identity expected = do
    writer ← lift (write_context ctx)
    if not (is_positive expected) then raise (app "precondition_required" 428) else (do
      existing ← not_found_as entity_missing (res.get writer.1.workspace.id identity true)
      if not (is_revision existing.revision expected)
          then raise (conflict "revision_conflict")
          else pure (writer, existing))

  unfoldable pub record_all : List Document → Exec S (Unit {0})
  record_all [] = pure tt
  record_all (d ∷ ds) = do _ ← repo.record_document d "update"; record_all ds

  -- what a deleted folder holds goes to its parent
  abbrev pub contents_moved :
      String → String → String → Document → Option String → Exec S (Unit {0})
  contents_moved collection workspace user existing folder_id =
      if collection == "folders"
      then (do
        _ ← repo.begin_batch workspace "delete" user
        moved ← res.move_folder_contents workspace existing.id folder_id user
        record_all moved)
      else pure tt

  abbrev pub startup_cleared : String → String → String → Document → Exec S (Unit {0})
  startup_cleared collection workspace user existing =
      if collection == "compositions"
      then (do
        cleared ← res.clear_startup_composition workspace existing.id user
        if cleared.1 then res.record_workspace cleared.0 "update" else pure tt)
      else pure tt

  -- the transaction of Delete
  unfoldable pub delete_in_tx :
      String → String → String → ℤ → Document → Document → Option String → Exec S Document
  unfolding record_all
  delete_in_tx collection workspace user expected existing next folder_id = do
    _ ← contents_moved collection workspace user existing folder_id
    updated ← res.update next expected folder_id
    _ ← startup_cleared collection workspace user existing
    _ ← repo.record_document updated "delete"
    pure updated

  abbrev pub conflicts_mapped : Result Document × S → Result Document × S
  conflicts_mapped (ok a, s) = (ok a, s)
  conflicts_mapped (err e, s) = (err (map_conflict formats.lower_text e), s)

  -- Delete
  unfoldable pub delete : RequestContext → String → ℕ → String → ℤ → Exec S Document
  unfolding opened delete_in_tx resolve_document_folder map_conflict
  delete ctx collection now identity expected = do
    found ← opened ctx identity expected
    if is_some found.1.deleted_at
        then pure found.1
        else if collection == "folders" && is_system_folder found.1
        then raise (conflict "system_folder_immutable")
        else (do
          folder_id ←
              resolve_document_folder repo formats found.0.1.workspace.id
                (deleted now found.0.0.user.id found.1)
          λ s. conflicts_mapped (
              within_transaction
                (delete_in_tx collection found.0.1.workspace.id found.0.0.user.id expected found.1
                  (deleted now found.0.0.user.id found.1) folder_id)
                s))

  abbrev pub in_folder : String → Document → Exec S (Option String × Document)
  in_folder workspace d = do
    folder_id ← resolve_document_folder repo formats workspace d
    pure (folder_id, d)

  abbrev pub in_workspace_folder :
      String → Option String → Document → Exec S (Option String × Document)
  in_workspace_folder workspace folder_id d = do
    _ ← resolve_document_workspace_folder repo formats workspace d
    pure (folder_id, d)

  -- resolveRestoreFolders: a folder that is gone is replaced by the root
  unfoldable pub resolve_restore_folders : String → Document → Exec S (Option String × Document)
  unfolding resolve_document_folder resolve_document_workspace_folder
  resolve_restore_folders workspace d = do
    placed ← λ s.
        retried (in_folder workspace (record d { folder_identity = none }))
          (in_folder workspace d s)
    λ s.
        retried
          (in_workspace_folder workspace placed.0
            (record placed.1 { workspace_folder_identity = none }))
          (in_workspace_folder workspace placed.0 placed.1 s)

  -- the transaction of Restore
  abbrev pub restore_in_tx : ℤ → Option String × Document → Exec S Document
  restore_in_tx expected placed = do
    updated ← res.update placed.1 expected placed.0
    _ ← repo.record_document updated "restore"
    pure updated

  -- Restore
  unfoldable pub restore : RequestContext → String → String → ℤ → Exec S Document
  unfolding opened resolve_restore_folders map_conflict
  restore ctx collection identity expected = do
    found ← opened ctx identity expected
    if not (is_some found.1.deleted_at) then pure found.1 else (do
      placed ←
          resolve_restore_folders found.0.1.workspace.id
            (restored formats collection found.0.0.user.id found.1)
      λ s. conflicts_mapped (within_transaction (restore_in_tx expected placed) s))
