-- ===== src/Documents/Moved.antt =====
-- What MoveDocuments of internal/usecase/documents/move.go has done when it succeeds.
use service_backend.Prelude.{◌≡◌, List, [], trim_space}
use service_backend.Errors.{ok}
use service_backend.Entities.{WorkspaceAccess}
use service_backend.Access.Context.{RequestContext, Caller, write_context}
use service_backend.Documents.{Repository, Formats}
use service_backend.Documents.Check.{
  MoveDocumentInput, MoveDocumentsInput, MoveDocumentsResult, check_items,
}
use service_backend.Documents.Outcome.{IsMovedIn}

module _ {S : Type 0} (repo : Repository S) (formats : Formats) where
  -- what a successful call has done
  pub record IsMoved (ctx : RequestContext) (input : MoveDocumentsInput) (r : MoveDocumentsResult)
      (st next : S) : Type 0 where
    pub writer : Caller × WorkspaceAccess
    pub may_write : write_context ctx ≡ ok writer
    pub items : List MoveDocumentInput
    pub checked : check_items [] input.documents ≡ ok items
    pub moved :
        IsMovedIn repo formats writer.1.workspace.id
          (trim_space input.placement)
          (trim_space input.folder_identity)
          writer.0.user.id
          items
          r
          st
          next
