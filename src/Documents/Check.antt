-- ===== src/Documents/Check.antt =====
-- The input of MoveDocuments in internal/usecase/documents/move.go, and its checks before the
-- transaction.
use Prim.Native.String.{len, ◌++◌}
use service_backend.Prelude.{
  ℕ, String, Bool, false, not, ◌&&◌, ◌||◌, ◌==◌, List, [], ◌∷◌, contains, eqb, ltb, length,
  trim_space,
}
use service_backend.Errors.{Result, ok, invalid_input, refuse_if, ◌>>=◌, ◌>>◌}
use service_backend.AccessControl.{ℤ, pos, negsuc}
use service_backend.Documents.{Document, validate_collection, validate_identity}

pub record MoveDocumentInput : Type 0 where
  pub collection : String
  pub identity : String
  pub expected_revision : ℤ

pub record MoveDocumentsInput : Type 0 where
  pub documents : List MoveDocumentInput
  pub folder_identity : String
  pub placement : String

pub record MovedDocument : Type 0 where
  pub collection : String
  pub document : Document

pub record MoveDocumentsResult : Type 0 where
  pub documents : List MovedDocument
  pub moved : ℕ

-- maxMoveDocuments
abbrev pub max_move_documents : ℕ
max_move_documents = 500

abbrev pub is_positive : ℤ → Bool
is_positive (negsuc n) = false
is_positive (pos n) = not (eqb n 0)

abbrev pub is_revision : ℕ → ℤ → Bool
is_revision revision (negsuc n) = false
is_revision revision (pos n) = eqb revision n

-- the two fields that are trimmed in place
abbrev pub trimmed : MoveDocumentInput → MoveDocumentInput
trimmed i = record i { collection = trim_space i.collection; identity = trim_space i.identity }

abbrev key_of : MoveDocumentInput → String
key_of i = i.collection ++ (":" ++ i.identity)

-- the checks of one trimmed entry
abbrev check_item : List String → MoveDocumentInput → Result (Unit {0})
check_item seen i = do
  validate_collection i.collection
  refuse_if (i.collection == "folders") (invalid_input "folder_move_unsupported")
  validate_identity i.identity
  refuse_if (not (is_positive i.expected_revision)) (invalid_input "expected_revision_invalid")
  refuse_if (contains seen (key_of i)) (invalid_input "move_document_duplicate")

-- the loop over the input
unfoldable pub check_items : List String → List MoveDocumentInput → Result (List MoveDocumentInput)
unfolding validate_identity
check_items seen [] = ok []
check_items seen (i ∷ is) = do
  check_item seen (trimmed i)
  rest ← check_items (key_of (trimmed i) ∷ seen) is
  ok (trimmed i ∷ rest)

-- the checks before the loop
abbrev pub check_request : MoveDocumentsInput → Result (Unit {0})
check_request input = do
  refuse_if (trim_space input.folder_identity == "") (invalid_input "folder_identity_required")
  refuse_if (ltb 160 (len (trim_space input.folder_identity)))
      (invalid_input "folder_identity_too_long")
  refuse_if
      (not (trim_space input.placement == "frontend")
        && not (trim_space input.placement == "workspace"))
      (invalid_input "folder_placement_invalid")
  refuse_if (eqb (length input.documents) 0 || ltb max_move_documents (length input.documents))
      (invalid_input "move_documents_count_invalid")
