-- ===== src/Documents/Move.antt =====
-- MoveDocuments of internal/usecase/documents/move.go: many documents go to one folder, or none does.
--
-- A `Plan` is one document of the input after the checks of the transaction: the document as it is, and
-- the one to write with the id of its folder, if its content differs.
use service_backend.Prelude.{
  ℕ, ◌+◌, String, Bool, true, not, ◌==◌, Option, none, some, is_some, List, [], ◌∷◌, any,
  trim_space, if◌then◌else◌,
}
use service_backend.Errors.{Result, ok, err, invalid_input, conflict}
use service_backend.Access.Context.{RequestContext, write_context}
use service_backend.Exec.{Exec, pure, raise, lift, not_found_as, within_transaction, ◌>>=◌}
use service_backend.Documents.{
  Document, Repository, Formats, content_of, map_conflict, entity_missing, resolve_document_folder,
  resolve_document_workspace_folder,
}
use service_backend.Documents.Check.{
  MoveDocumentInput, MoveDocumentsInput, MovedDocument, MoveDocumentsResult, is_revision,
  check_items, check_request,
}

-- the document in its new folder
abbrev pub placed : String → String → String → Document → Document
placed placement folder user d =
    if placement == "workspace"
    then record d {
      workspace_folder_identity = some folder;
      updated_by = record { id = user; username = ""; display_name = "" };
    }
    else record d {
      folder_identity = some folder;
      updated_by = record { id = user; username = ""; display_name = "" };
    }

pub record Change : Type 0 where
  pub document : Document
  pub folder_id : Option String

pub record Plan : Type 0 where
  pub collection : String
  pub existing : Document
  pub change : Option Change

abbrev pub is_changed : Plan → Bool
is_changed p = is_some p.change

module _ {S : Type 0} (repo : Repository S) (formats : Formats) where
  -- the checksums of the contents decide whether there is something to write
  abbrev pub planned : String → Document → Document → Option String → Plan
  planned collection existing next folder_id = record {
    collection = collection;
    existing = existing;
    change =
        (if formats.checksum (content_of existing) == formats.checksum (content_of next)
          then none
          else some (record { document = next; folder_id = folder_id }));
  }

  -- one turn of the first loop in the transaction
  unfoldable pub plan_of : String → String → String → String → MoveDocumentInput → Exec S Plan
  unfolding resolve_document_folder resolve_document_workspace_folder
  plan_of workspace placement folder user i = do
    existing ←
        not_found_as entity_missing (repo.get_document workspace i.collection i.identity true)
    if not (is_revision existing.revision i.expected_revision)
        then raise (conflict "revision_conflict")
        else if is_some existing.deleted_at
        then raise (invalid_input "move_document_deleted")
        else (do
          folder_id ←
              resolve_document_folder repo formats workspace (placed placement folder user existing)
          _ ←
              resolve_document_workspace_folder repo formats workspace
                (placed placement folder user existing)
          pure (planned i.collection existing (placed placement folder user existing) folder_id))

  -- the first loop
  unfoldable pub plans_of :
      String → String → String → String → List MoveDocumentInput → Exec S (List Plan)
  unfolding plan_of
  plans_of workspace placement folder user [] = pure []
  plans_of workspace placement folder user (i ∷ is) = do
    plan ← plan_of workspace placement folder user i
    rest ← plans_of workspace placement folder user is
    pure (plan ∷ rest)

  -- one turn of the second loop
  abbrev pub write : Change → Exec S Document
  write c = do
    updated ← repo.update_document c.document c.document.revision c.folder_id
    _ ← repo.record_document updated "update"
    pure updated

  abbrev pub apply_change : Plan → Option Change → Exec S (ℕ × MovedDocument)
  apply_change p none = pure (0, record { collection = p.collection; document = p.existing })
  apply_change p (some c) = do
    updated ← write c
    pure (1, record { collection = p.collection; document = updated })

  -- the second loop, and the result
  unfoldable pub apply_plans : List Plan → Exec S MoveDocumentsResult
  apply_plans [] = pure (record { documents = []; moved = 0 })
  apply_plans (p ∷ ps) = do
    one ← apply_change p p.change
    rest ← apply_plans ps
    pure (record { documents = one.1 ∷ rest.documents; moved = one.0 + rest.moved })

  -- BeginBatch, if there is anything to write
  abbrev pub begun : String → String → List Plan → Exec S (Unit {0})
  begun workspace user plans =
      if any is_changed plans then repo.begin_batch workspace "move" user else pure tt

  -- the transaction
  unfoldable pub move_in_tx :
      String → String → String → String → List MoveDocumentInput → Exec S MoveDocumentsResult
  unfolding plans_of apply_plans
  move_in_tx workspace placement folder user items = do
    plans ← plans_of workspace placement folder user items
    _ ← begun workspace user plans
    apply_plans plans

  abbrev pub conflict_mapped {ℓ} : {A : Type ℓ} → Result A × S → Result A × S
  conflict_mapped (ok a, s) = (ok a, s)
  conflict_mapped (err e, s) = (err (map_conflict formats.lower_text e), s)

  -- MoveDocuments
  unfoldable pub move_documents : RequestContext → MoveDocumentsInput → Exec S MoveDocumentsResult
  unfolding check_items move_in_tx map_conflict
  move_documents ctx input = do
    writer ← lift (write_context ctx)
    _ ← lift (check_request input)
    items ← lift (check_items [] input.documents)
    λ s. conflict_mapped (
        within_transaction
          (move_in_tx writer.1.workspace.id (trim_space input.placement)
            (trim_space input.folder_identity) writer.0.user.id items)
          s)
