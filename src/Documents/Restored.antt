-- ===== src/Documents/Restored.antt =====
-- What Restore of internal/usecase/documents/commands.go has done when it succeeds, and Delete and
-- Restore together.
use service_backend.Prelude.{ℕ, String, ◌≡◌, Bool, true, false, Option}
use service_backend.Errors.{ok}
use service_backend.AccessControl.{ℤ}
use service_backend.Access.Context.{RequestContext}
use service_backend.Exec
use service_backend.Exec.{
  Exec, pure, lift-inv, raise_if-inv, if-inv, not_found_as-inv, within_transaction,
}
use service_backend.Documents.{Document, Repository, Formats, resolve_document_folder}
use service_backend.Documents.Kept.{IsMarked}
use service_backend.Documents.Lifecycle.{Resources, delete, restore}

module _ {S : Type 0} (repo : Repository S) (res : Resources S) (formats : Formats) where
  abbrev IsBack : ℕ → String → Document → Document → Type 0
  IsBack now user existing next = IsMarked formats false now user existing next

  -- a document that is back, with the id of its folder
  record IsResolved (workspace : String) (now : ℕ) (user : String) (existing : Document)
      (p : Option String × Document) : Type 0 where
    back : IsBack now user existing p.1
    resolved_as : Document
    same_folder : resolved_as.folder_identity ≡ p.1.folder_identity
    same_kind : resolved_as.kind ≡ p.1.kind
    same_data : resolved_as.data_json ≡ p.1.data_json
    resolved_in : S
    resolved_out : S
    resolved :
        resolve_document_folder repo formats workspace resolved_as resolved_in
        ≡ (ok p.0, resolved_out)

  -- Delete for `true`, and Restore for `false`
  abbrev pub call : Bool → RequestContext → String → ℕ → String → ℤ → Exec S Document
  call true ctx collection now identity expected =
      delete repo res formats ctx collection now identity expected
  call false ctx collection now identity expected =
      restore repo res formats ctx collection identity expected
