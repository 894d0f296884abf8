-- ===== src/Documents/Outcome.antt =====
-- What the transaction of MoveDocuments in internal/usecase/documents/move.go has done when it
-- succeeds.
use service_backend.Prelude.{
  ℕ, ◌+◌, String, ◌≡◌, refl, sym, ap, ap₂, subst, ◌∙◌, ◌⊎◌, inl, inr, Bool-cases, any, Bool, true,
  false, not, ◌==◌, Option, none, some, is_some, List, [], ◌∷◌, arith, if◌then◌else◌,
}
use service_backend.Errors.{ok}
use service_backend.Exec
use service_backend.Exec.{
  Exec, lift-inv, pure-inv, raise_if-inv, not_found_as-inv, within_transaction,
  within_transaction-inv,
}
use service_backend.Documents.{
  Document, Repository, Formats, content_of, entity_missing, resolve_document_folder,
  resolve_document_workspace_folder,
}
use service_backend.Documents.Check.{
  MoveDocumentInput, MovedDocument, MoveDocumentsResult, is_revision,
}
use service_backend.Documents.Move.{
  Plan, placed, planned, plan_of, plans_of, write, apply_change, apply_plans, begun, move_in_tx,
  is_changed,
}
use service_backend.Documents.Kept.{IsPlaced, placed-IsPlaced}

-- a document as it was found, as it is to be written, and its folder
pub record Found : Type 0 where
  pub existing : Document
  pub next : Document
  pub folder_id : Option String

module _ {S : Type 0} (repo : Repository S) (formats : Formats)
    (workspace placement folder user : String) where
  -- the document of an entry of the input, read in `s`, and the folder of what it becomes
  pub record IsFound (i : MoveDocumentInput) (f : Found) (s t : S) : Type 0 where
    pub after_get : S
    pub found :
        repo.get_document workspace i.collection i.identity true s ≡ (ok f.existing, after_get)
    pub at_revision : is_revision f.existing.revision i.expected_revision ≡ true
    pub alive : f.existing.deleted_at ≡ none
    pub is_placed : IsPlaced placement folder user f.existing f.next
    pub after_folder : S
    pub resolved :
        resolve_document_folder repo formats workspace f.next after_get
        ≡ (ok f.folder_id, after_folder)
    pub workspace_resolved :
        resolve_document_workspace_folder repo formats workspace f.next after_folder ≡ (ok tt, t)

  -- the first loop, from store to store
  pub data AllFound : List MoveDocumentInput → List Found → S → S → Type 0 where
    nothing : (s : S) → AllFound [] [] s s
    first :
        (i : MoveDocumentInput) (f : Found) (is : List MoveDocumentInput) (fs : List Found)
        (s t u : S)
        → IsFound i f s t
        → AllFound is fs t u
        → AllFound (i ∷ is) (f ∷ fs) s u

  -- the UPDATE at the revision that was found, with the folder's id, and its record
  pub record IsWritten (f : Found) (updated : Document) (s t : S) : Type 0 where
    pub after : S
    pub wrote : repo.update_document f.next f.existing.revision f.folder_id s ≡ (ok updated, after)
    pub recorded : repo.record_document updated "update" after ≡ (ok tt, t)

  -- whether a move changes the content
  abbrev pub stays : Found → Bool
  stays f = formats.checksum (content_of f.existing) == formats.checksum (content_of f.next)

  -- the second loop, from store to store: its answers, and how many documents were written
  pub data AllMoved
      : List MoveDocumentInput → List Found → List MovedDocument → ℕ → S → S → Type 0 where
    none_left : (s : S) → AllMoved [] [] [] 0 s s
    unchanged :
        (i : MoveDocumentInput) (f : Found) (is : List MoveDocumentInput) (fs : List Found)
        (ms : List MovedDocument) (n : ℕ) (s t : S)
        → stays f ≡ true
        → AllMoved is fs ms n s t
        → AllMoved
            (i ∷ is)
            (f ∷ fs)
            (record { collection = i.collection; document = f.existing } ∷ ms)
            n
            s
            t
    changed :
        (i : MoveDocumentInput) (f : Found) (updated : Document) (is : List MoveDocumentInput)
        (fs : List Found) (ms : List MovedDocument) (n : ℕ) (s t u : S)
        → stays f ≡ false
        → IsWritten f updated s t
        → AllMoved is fs ms n t u
        → AllMoved
            (i ∷ is)
            (f ∷ fs)
            (record { collection = i.collection; document = updated } ∷ ms)
            (1 + n)
            s
            u

  abbrev plan_for : MoveDocumentInput → Found → Plan
  plan_for i f = planned repo formats i.collection f.existing f.next f.folder_id

  abbrev plans_for : List MoveDocumentInput → List Found → List Plan
  plans_for (i ∷ is) (f ∷ fs) = plan_for i f ∷ plans_for is fs
  plans_for is fs = []

  none_of : {A : Type 0} (o : Option A) → is_some o ≡ false → o ≡ none
  none_of none h = refl
  none_of (some a) h = cc h

  true_of : (b : Bool) → not b ≡ false → b ≡ true
  true_of true h = refl
  true_of false h = cc h

  plan_of-IsFound :
      (i : MoveDocumentInput) (s : S) {p : Plan} {t : S}
      → plan_of repo formats workspace placement folder user i s ≡ (ok p, t)
      → (f : Found) × IsFound i f s t × (plan_for i f ≡ p)
  unfolding plan_of
  plan_of-IsFound i s {t = t} h =
      Exec.>>=-inv
        (Exec.not_found_as entity_missing
          (repo.get_document workspace i.collection i.identity true))
        _ s h
        λ existing u got h1.
          raise_if-inv (not (is_revision existing.revision i.expected_revision)) _ _ u h1
            λ revised h2. raise_if-inv (is_some existing.deleted_at) _ _ u h2 λ present h3.
              Exec.>>=-inv
                (resolve_document_folder repo formats workspace
                  (placed placement folder user existing))
                _ u h3
                λ folder_id v folder_found h4.
                  Exec.>>=-inv
                    (resolve_document_workspace_folder repo formats workspace
                      (placed placement folder user existing))
                    _ v h4
                    λ _ w checked h5. pure-inv h5 λ same last.
                      let f : Found = record {
                        existing = existing;
                        next = placed placement folder user existing;
                        folder_id = folder_id;
                      } in
                      (
                        f,
                        record {
                          after_get = u;
                          found =
                              not_found_as-inv entity_missing
                                (repo.get_document workspace i.collection i.identity true) s got;
                          at_revision =
                              true_of (is_revision existing.revision i.expected_revision) revised;
                          alive = none_of existing.deleted_at present;
                          is_placed = placed-IsPlaced placement folder user existing;
                          after_folder = v;
                          resolved = folder_found;
                          workspace_resolved = checked ∙ ap (λ (x : S). (ok tt, x)) last;
                        },
                        same,
                      )

  plans_of-AllFound :
      (is : List MoveDocumentInput) (s : S) {ps : List Plan} {t : S}
      → plans_of repo formats workspace placement folder user is s ≡ (ok ps, t)
      → (fs : List Found) × AllFound is fs s t × (plans_for is fs ≡ ps)
  unfolding plans_of
  plans_of-AllFound [] s h =
      pure-inv h λ same last. ([], subst (AllFound [] [] s) last (nothing s), same)
  plans_of-AllFound (i ∷ is) s {t = t} h =
      Exec.>>=-inv (plan_of repo formats workspace placement folder user i) _ s h λ p u one h1.
        Exec.>>=-inv (plans_of repo formats workspace placement folder user is) _ u h1
          λ ps v more h2. pure-inv h2 λ same last.
            let (f, is_found, is_plan) = plan_of-IsFound i s one in
            let (fs, rest, are_plans) = plans_of-AllFound is u more in
            (
              f ∷ fs,
              subst (AllFound (i ∷ is) (f ∷ fs) s) last (first i f is fs s u v is_found rest),
              ap₂ (λ (x : Plan) (xs : List Plan). x ∷ xs) is_plan are_plans ∙ same,
            )

  -- a change that was written
  write-IsWritten :
      (f : Found) (updated : Document) (s t : S)
      → f.next.revision ≡ f.existing.revision
      → write repo formats (record { document = f.next; folder_id = f.folder_id }) s
        ≡ (ok updated, t)
      → IsWritten f updated s t
  write-IsWritten f updated s t revision h =
      Exec.>>=-inv (repo.update_document f.next f.next.revision f.folder_id) _ s h λ d u wrote h1.
        Exec.>>=-inv (repo.record_document d "update") _ u h1 λ _ v recorded h2.
          pure-inv h2 λ same last. record {
            after = u;
            wrote =
                subst (λ (n : ℕ). repo.update_document f.next n f.folder_id s ≡ (ok updated, u))
                  revision (wrote ∙ ap (λ (x : Document). (ok x, u)) same);
            recorded =
                subst (λ (x : Document). repo.record_document x "update" u ≡ (ok tt, t)) same
                  (recorded ∙ ap (λ (x : S). (ok tt, x)) last);
          }

  applied :
      (i : MoveDocumentInput) (f : Found) (b : Bool) (s t u : S) (is : List MoveDocumentInput)
      (fs : List Found) (ms : List MovedDocument) (n : ℕ) {one : ℕ × MovedDocument}
      → stays f ≡ b
      → f.next.revision ≡ f.existing.revision
      → apply_change repo formats
          (plan_for i f)
          (if b then none else some (record { document = f.next; folder_id = f.folder_id }))
          s
        ≡ (ok one, t)
      → AllMoved is fs ms n t u
      → AllMoved (i ∷ is) (f ∷ fs) (one.1 ∷ ms) (one.0 + n) s u
  applied i f true s t u is fs ms n same revision h rest = pure-inv h λ e last.
      subst (λ (o : ℕ × MovedDocument). AllMoved (i ∷ is) (f ∷ fs) (o.1 ∷ ms) (o.0 + n) s u) e
        (subst
          (λ (k : ℕ).
            AllMoved (i ∷ is) (f ∷ fs)
              (record { collection = i.collection; document = f.existing } ∷ ms) k s u)
          (omega arith)
          (unchanged i f is fs ms n s u same
            (subst (λ (x : S). AllMoved is fs ms n x u) (sym last) rest)))
  applied i f false s t u is fs ms n other revision h rest =
      Exec.>>=-inv (write repo formats (record { document = f.next; folder_id = f.folder_id })) _ s
        h
        λ updated v wrote h1. pure-inv h1 λ e last.
          subst (λ (o : ℕ × MovedDocument). AllMoved (i ∷ is) (f ∷ fs) (o.1 ∷ ms) (o.0 + n) s u) e
            (changed i f updated is fs ms n s v u other
              (write-IsWritten f updated s v revision wrote)
              (subst (λ (x : S). AllMoved is fs ms n x u) (sym last) rest))

  apply_plans-AllMoved :
      (is : List MoveDocumentInput) (fs : List Found) (r0 r1 s t : S) {r : MoveDocumentsResult}
      → AllFound is fs r0 r1
      → apply_plans repo formats (plans_for is fs) s ≡ (ok r, t)
      → AllMoved is fs r.documents r.moved s t
  unfolding apply_plans
  apply_plans-AllMoved _ _ _ _ s t (nothing r0) h = pure-inv h λ same last.
      subst (λ (r : MoveDocumentsResult). AllMoved [] [] r.documents r.moved s t) same
        (subst (AllMoved [] [] [] 0 s) last (none_left s))
  apply_plans-AllMoved _ _ _ _ s t (first i f is fs r0 r1 r2 one more) h =
      Exec.>>=-inv (apply_change repo formats (plan_for i f) (plan_for i f).change) _ s h
        λ m u wrote h1.
          Exec.>>=-inv (apply_plans repo formats (plans_for is fs)) _ u h1 λ rest v others h2.
            pure-inv h2 λ same last.
              subst
                (λ (r : MoveDocumentsResult). AllMoved (i ∷ is) (f ∷ fs) r.documents r.moved s t)
                same
                (applied i f (stays f) s u t is fs rest.documents rest.moved refl
                  one.is_placed.rest.revision wrote
                  (subst (AllMoved is fs rest.documents rest.moved u) last
                    (apply_plans-AllMoved is fs r1 r2 u v more others)))

  -- what the transaction has done
  pub record IsMovedIn (is : List MoveDocumentInput) (r : MoveDocumentsResult) (s t : S)
      : Type 0 where
    pub documents : List Found
    pub after_reads : S
    pub all_found : AllFound is documents s after_reads
    pub before_writes : S
    pub batch :
        (after_reads ≡ before_writes)
        ⊎ (repo.begin_batch workspace "move" user after_reads ≡ (ok tt, before_writes))
    pub all_moved : AllMoved is documents r.documents r.moved before_writes t

  begun-batch :
      (ps : List Plan) (s t : S)
      → begun repo formats workspace user ps s ≡ (ok tt, t)
      → (s ≡ t) ⊎ (repo.begin_batch workspace "move" user s ≡ (ok tt, t))
  begun-batch ps s t h = elim (Bool-cases (any is_changed ps)) [
    | inl some_change ↦ inr (rw some_change at h)
    | inr no_change ↦ pure-inv (rw no_change at h) λ _ same. inl same
  ]

  pub move_in_tx-IsMovedIn :
      (is : List MoveDocumentInput) (s t : S) {r : MoveDocumentsResult}
      → move_in_tx repo formats workspace placement folder user is s ≡ (ok r, t)
      → IsMovedIn is r s t
  unfolding move_in_tx
  move_in_tx-IsMovedIn is s t {r = r} h =
      Exec.>>=-inv (plans_of repo formats workspace placement folder user is) _ s h λ ps u plans h1.
        Exec.>>=-inv (begun repo formats workspace user ps) _ u h1 λ _ v batch h2.
          let (fs, found, are_plans) = plans_of-AllFound is s plans in
          record {
            documents = fs;
            after_reads = u;
            all_found = found;
            before_writes = v;
            batch = begun-batch ps u v batch;
            all_moved = apply_plans-AllMoved is fs s u v t found (
                subst (λ (x : List Plan). apply_plans repo formats x v ≡ (ok r, t)) (sym are_plans)
                  h2);
          }
