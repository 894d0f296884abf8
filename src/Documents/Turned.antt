-- ===== src/Documents/Turned.antt =====
-- What Delete of internal/usecase/documents/commands.go has done when it succeeds, and what both Delete
-- and Restore check first.
use service_backend.Prelude.{
  ℕ, String, ◌≡◌, ◌⊎◌, refl, sym, ap, ◌∙◌, some, subst, Bool, true, false, not, ◌&&◌, ◌==◌, Option,
  is_some, inl, inr, if◌then◌else◌,
}
use service_backend.Errors.{Result, ok, err}
use service_backend.AccessControl.{ℤ}
use service_backend.Entities.{WorkspaceAccess}
use service_backend.Access.Context.{RequestContext, Caller, write_context}
use service_backend.Exec
use service_backend.Exec.{
  Exec, pure, lift-inv, pure-inv, raise_if-inv, if-inv, not_found_as-inv, within_transaction,
  within_transaction-inv,
}
use service_backend.Documents.{
  Document, Repository, Formats, entity_missing, resolve_document_folder,
}
use service_backend.Documents.Check.{is_positive, is_revision}
use service_backend.Documents.Kept.{IsMarked, marked-KeepsRest}
use service_backend.Documents.Lifecycle.{
  Resources, deleted, is_system_folder, opened, contents_moved, startup_cleared, delete_in_tx,
  conflicts_mapped, delete,
}

module _ {S : Type 0} (repo : Repository S) (res : Resources S) (formats : Formats) where
  -- the caller, and the document at the expected revision, as it was read first
  pub record IsOpened (ctx : RequestContext) (identity : String) (expected : ℤ)
      (writer : Caller × WorkspaceAccess) (existing : Document) (st after : S) : Type 0 where
    pub may_write : write_context ctx ≡ ok writer
    pub is_positive_revision : is_positive expected ≡ true
    pub found : res.get writer.1.workspace.id identity true st ≡ (ok existing, after)
    pub at_revision : is_revision existing.revision expected ≡ true

  -- the UPDATE at the expected revision, of the marked document with the id of its folder, and the
  -- record of its answer, which is the last write
  pub record IsUpdated (gone : Bool) (now : ℕ) (workspace user : String) (expected : ℤ)
      (existing answer : Document) (last : S) : Type 0 where
    pub next : Document
    pub is_marked : IsMarked formats gone now user existing next
    pub folder_id : Option String
    pub resolved_as : Document
    pub same_folder : resolved_as.folder_identity ≡ next.folder_identity
    pub same_kind : resolved_as.kind ≡ next.kind
    pub same_data : resolved_as.data_json ≡ next.data_json
    pub resolved_in : S
    pub resolved_out : S
    pub resolved :
        resolve_document_folder repo formats workspace resolved_as resolved_in
        ≡ (ok folder_id, resolved_out)
    pub before : S
    pub after : S
    pub wrote : res.update next expected folder_id before ≡ (ok answer, after)
    pub recorded_in : S
    pub recorded :
        repo.record_document answer (if gone then "delete" else "restore") recorded_in
        ≡ (ok tt, last)

  -- whether the document was as the call wants it, and what it did
  pub record IsTurned (gone : Bool) (ctx : RequestContext) (collection : String) (now : ℕ)
      (identity : String) (expected : ℤ) (st last : S) (answer : Document) : Type 0 where
    pub writer : Caller × WorkspaceAccess
    pub existing : Document
    pub after_read : S
    pub is_opened : IsOpened ctx identity expected writer existing st after_read
    pub outcome :
        ((is_some existing.deleted_at ≡ gone) × (answer ≡ existing) × (last ≡ after_read))
        ⊎ ((is_some existing.deleted_at ≡ not gone)
            × IsUpdated gone now writer.1.workspace.id writer.0.user.id expected existing answer
                last)

  pub true_of : (b : Bool) → not b ≡ false → b ≡ true
  true_of true h = refl
  true_of false h = cc h

  pub by_branch :
      {A : Type 0} {C : Type 0} (test : Bool) (m n : Exec S A) (s : S) {a : A} {t : S}
      → (if test then m else n) s ≡ (ok a, t)
      → (test ≡ true → m s ≡ (ok a, t) → C)
      → (test ≡ false → n s ≡ (ok a, t) → C)
      → C
  by_branch true m n s h yes_case no_case = yes_case refl h
  by_branch false m n s h yes_case no_case = no_case refl h

  pub opened-IsOpened :
      (ctx : RequestContext) (identity : String) (expected : ℤ) (s : S)
      {found : (Caller × WorkspaceAccess) × Document} {t : S}
      → opened repo res formats ctx identity expected s ≡ (ok found, t)
      → IsOpened ctx identity expected found.0 found.1 s t
  unfolding opened
  opened-IsOpened ctx identity expected s {t = t} h =
      lift-inv (write_context ctx) _ s h λ writer may h1.
        raise_if-inv (not (is_positive expected)) _ _ s h1 λ positive h2.
          Exec.>>=-inv
            (Exec.not_found_as entity_missing (res.get writer.1.workspace.id identity true)) _ s h2
            λ existing u got h3.
              raise_if-inv (not (is_revision existing.revision expected)) _ _ u h3 λ revised h4.
                pure-inv h4 λ same last.
                  subst
                    (λ (f : (Caller × WorkspaceAccess) × Document).
                      IsOpened ctx identity expected f.0 f.1 s t)
                    same
                    (record {
                      may_write = may;
                      is_positive_revision = true_of (is_positive expected) positive;
                      found =
                          not_found_as-inv entity_missing
                            (res.get writer.1.workspace.id identity true) s got
                          ∙ ap (λ (x : S). (ok existing, x)) last;
                      at_revision = true_of (is_revision existing.revision expected) revised;
                    })

  pub conflicts_mapped-inv :
      (q : Result Document × S) {d : Document} {t : S}
      → conflicts_mapped repo res formats q ≡ (ok d, t)
      → q ≡ (ok d, t)
  conflicts_mapped-inv (ok d, s) h = h
  conflicts_mapped-inv (err e, s) h = cc (ap (λ (q : Result Document × S). q.0) h)

  delete_in_tx-IsUpdated :
      (collection workspace user : String) (now : ℕ) (expected : ℤ) (existing : Document)
      (folder_id : Option String) (r s : S) {d : Document} {t : S}
      → resolve_document_folder repo formats workspace (deleted now user existing) r
        ≡ (ok folder_id, s)
      → delete_in_tx repo res formats collection workspace user expected existing
          (deleted now user existing)
          folder_id
          s
        ≡ (ok d, t)
      → IsUpdated true now workspace user expected existing d t
  unfolding delete_in_tx
  delete_in_tx-IsUpdated collection workspace user now expected existing folder_id r s {t = t}
        resolved h =
      Exec.>>=-inv (contents_moved repo res formats collection workspace user existing folder_id) _
        s h
        λ _ u _ h1.
          Exec.>>=-inv (res.update (deleted now user existing) expected folder_id) _ u h1
            λ updated v wrote h2.
              Exec.>>=-inv (startup_cleared repo res formats collection workspace user existing) _ v
                h2
                λ _ w _ h3.
                  Exec.>>=-inv (repo.record_document updated "delete") _ w h3 λ _ x recorded h4.
                    pure-inv h4 λ same last. record {
                      next = deleted now user existing;
                      folder_id = folder_id;
                      before = u;
                      after = v;
                      wrote =
                          subst
                            (λ (y : Document).
                              res.update (deleted now user existing) expected folder_id u
                              ≡ (ok y, v))
                            same wrote;
                      is_marked = record {
                        rest =
                            marked-KeepsRest existing (some now) false
                              (record { id = user; username = ""; display_name = "" })
                              existing.folder_identity existing.workspace_folder_identity
                              existing.data_json;
                        deleted_at = refl;
                        active = refl;
                        by = refl;
                        folder_identity = inl refl;
                        workspace_folder_identity = inl refl;
                        data_json = inl refl;
                      };
                      resolved_as = deleted now user existing;
                      same_folder = refl;
                      same_kind = refl;
                      same_data = refl;
                      resolved_in = r;
                      resolved_out = s;
                      resolved = resolved;
                      recorded_in = w;
                      recorded =
                          subst (λ (y : Document). repo.record_document y "delete" w ≡ (ok tt, t))
                            same (recorded ∙ ap (λ (y : S). (ok tt, y)) last);
                    }

  pub delete-IsTurned :
      (ctx : RequestContext) (collection : String) (now : ℕ) (identity : String) (expected : ℤ)
      (st : S) {answer : Document} {next : S}
      → delete repo res formats ctx collection now identity expected st ≡ (ok answer, next)
      → IsTurned true ctx collection now identity expected st next answer
  unfolding delete
  delete-IsTurned ctx collection now identity expected st h =
      Exec.>>=-inv (opened repo res formats ctx identity expected) _ st h λ found u begun h1.
        by_branch (is_some found.1.deleted_at) _ _ u h1
          (λ gone h2. pure-inv h2 λ same last. record {
            writer = found.0;
            existing = found.1;
            after_read = u;
            is_opened = opened-IsOpened ctx identity expected st begun;
            outcome = inl (gone, sym same, sym last);
          })
          λ present h2.
            raise_if-inv (collection == "folders" && is_system_folder repo res formats found.1) _ _
              u h2
              λ _ h3.
                Exec.>>=-inv
                  (resolve_document_folder repo formats found.0.1.workspace.id
                    (deleted now found.0.0.user.id found.1))
                  _ u h3
                  λ folder_id v resolved h4.
                    within_transaction-inv
                      (delete_in_tx repo res formats collection found.0.1.workspace.id
                        found.0.0.user.id expected found.1 (deleted now found.0.0.user.id found.1)
                        folder_id)
                      v (conflicts_mapped-inv _ h4)
                      λ h5. record {
                        writer = found.0;
                        existing = found.1;
                        after_read = u;
                        is_opened = opened-IsOpened ctx identity expected st begun;
                        outcome = inr (
                          present,
                          delete_in_tx-IsUpdated collection found.0.1.workspace.id found.0.0.user.id
                              now expected found.1 folder_id u v resolved h5,
                        );
                      }
