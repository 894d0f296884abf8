-- ===== src/AccessControl/Atomic.antt =====
-- A grant operation that fails leaves the store as it was: what it writes, it writes in its
-- transaction.
use service_backend.Prelude.{
  String, ◌≡◌, ◌⊎◌, inl, inr, refl, sym, ap, Bool, true, false, not, ◌==◌, Option, none, some, ℕ,
  trim_space, subst, if◌then◌else◌,
}
use service_backend.Errors.{Error, Result, ok, err, invalid_input, forbidden}
use service_backend.Entities.{User}
use service_backend.Policy.{Policy, require_local}
use service_backend.Access.Context.{RequestContext, Caller, actor}
use service_backend.Exec.{Exec, continue, rolled_back, pure, raise, lift, within_transaction, ◌>>=◌}
use service_backend.AccessControl.{
  Repository, Codec, ExternalAccessSnapshot, UpsertCurrentUserInput, reads, valid_workspace_role,
  platform_admin_required, require_workspace_admin,
}
use service_backend.AccessControl.Operations.{
  PutInput, BulkInput, grant_target, selection_of, put, delete, bulk,
}
use service_backend.AccessControl.Snapshot.{unusable}
use service_backend.AccessControl.Identity.{resolve_external}

module _ {S : Type 0} where
  -- the state of an error is the given one
  abbrev Kept {ℓ} : {A : Type ℓ} → S → Result A × S → Type 0
  Kept s (ok a, t) = Unit {0}
  Kept s (err e, t) = t ≡ s

  abbrev IsAtomic {ℓ} : {A : Type ℓ} → Exec S A → Type 0
  IsAtomic m = (s : S) → Kept s (m s)

  abbrev IsReading {ℓ} : {A : Type ℓ} → Exec S A → Type 0
  IsReading m = (s : S) → (m s).1 ≡ s

  reading-bind {ℓ κ} :
      {A : Type ℓ} {B : Type κ} (m : Exec S A) (f : A → Exec S B)
      → IsReading m
      → ((a : A) → IsAtomic (f a))
      → IsAtomic (m >>= f)
  reading-bind {A = A} {B = B} m f same safe s = after_it (m s) (same s)
    where
      after_it : (q : Result A × S) → q.1 ≡ s → Kept {A = B} s (continue q.0 f q.1)
      after_it (ok a, t) e = subst (λ (x : S). Kept {A = B} x (f a t)) e (safe a t)
      after_it (err x, t) e = e

  if-IsReading {ℓ} :
      {A : Type ℓ} (test : Bool) (m n : Exec S A)
      → IsReading m
      → IsReading n
      → IsReading (if test then m else n)
  if-IsReading true m n left right s = left s
  if-IsReading false m n left right s = right s

  -- a read whose answer is only reshaped
  reads-IsReading {ℓ κ} :
      {A : Type ℓ} {B : Type κ} (f : S → Result A) (g : A → B)
      → IsReading (reads f >>= λ a. pure (g a))
  reads-IsReading {A = A} f g s = by_result (f s)
    where
      by_result : (r : Result A) → (continue r (λ a. pure (g a)) s).1 ≡ s
      by_result (ok a) = refl
      by_result (err e) = refl

  raise_if-IsAtomic {ℓ} :
      {A : Type ℓ} (test : Bool) (e : Error) (k : Exec S A)
      → IsAtomic k
      → IsAtomic (if test then raise e else k)
  raise_if-IsAtomic true e k safe s = refl
  raise_if-IsAtomic false e k safe s = safe s

  transaction-IsAtomic {ℓ} : {A : Type ℓ} (m : Exec S A) → IsAtomic (within_transaction m)
  transaction-IsAtomic {A = A} m s = by_result (m s)
    where
      by_result : (q : Result A × S) → Kept s (rolled_back s q)
      by_result (ok a, t) = tt
      by_result (err e, t) = refl

  error_state {ℓ} :
      {A : Type ℓ} (m : Exec S A) (s : S) {e : Error} {t : S}
      → IsAtomic m
      → m s ≡ (err e, t)
      → t ≡ s
  error_state m s safe h = subst (λ q. Kept s q) h (safe s)

module _ {S : Type 0} (repo : Repository S) (codec : Codec) where
  grant_target-IsReading :
      (ctx : RequestContext) (current : Caller) (i : PutInput)
      → IsReading (grant_target repo codec ctx current i)
  unfolding grant_target
  grant_target-IsReading ctx current i =
      if-IsReading (trim_space i.scope_type == "platform") _ _
        (if-IsReading (not current.platform_admin) (raise platform_admin_required) _ (λ s. refl)
          (if-IsReading (not (trim_space i.role == "admin")) _ _ (λ s. refl) (λ s. refl)))
        (if-IsReading (trim_space i.scope_type == "workspace") _ _
          (if-IsReading (not (valid_workspace_role (trim_space i.role))) _ _ (λ s. refl)
            (reads-IsReading
              (λ (st : S). require_workspace_admin (repo.workspaces st) ctx i.workspace_identity)
              (λ w. some w.id)))
          (λ s. refl))

  -- If Put fails, the store is as it was.
  put-atomic :
      (policy : Option Policy) (ctx : RequestContext) (i : PutInput) (st next : S) (e : Error)
      → put repo codec policy ctx i st ≡ (err e, next)
      → next ≡ st
  unfolding put
  put-atomic policy ctx i st next e h = error_state (put repo codec policy ctx i) st safe h
    where
      safe : IsAtomic (put repo codec policy ctx i)
      safe =
          reading-bind (lift (require_local policy)) _ (λ s. refl)
            λ _.
              reading-bind (lift (actor ctx)) _ (λ s. refl)
                λ current.
                  raise_if-IsAtomic (not (codec.is_uuid (trim_space i.user_id)))
                    (invalid_input "access_user_id_invalid") _
                    (reading-bind (grant_target repo codec ctx current i) _
                      (grant_target-IsReading ctx current i) λ _. transaction-IsAtomic _)

  -- If Delete fails, the store is as it was.
  pub delete-atomic :
      (policy : Option Policy) (ctx : RequestContext) (id : String) (st next : S) (e : Error)
      → delete repo codec policy ctx id st ≡ (err e, next)
      → next ≡ st
  unfolding delete
  delete-atomic policy ctx id st next e h = error_state (delete repo codec policy ctx id) st safe h
    where
      safe : IsAtomic (delete repo codec policy ctx id)
      safe =
          reading-bind (lift (require_local policy)) _ (λ s. refl)
            λ _.
              raise_if-IsAtomic (not (codec.is_uuid (trim_space id)))
                (invalid_input "access_grant_id_invalid") _
                (reading-bind (lift (actor ctx)) _ (λ s. refl) λ _. transaction-IsAtomic _)

  -- If Bulk fails, even after some of its grants, the store is as it was.
  bulk-atomic :
      (policy : Option Policy) (ctx : RequestContext) (i : BulkInput) (st next : S) (e : Error)
      → bulk repo codec policy ctx i st ≡ (err e, next)
      → next ≡ st
  unfolding bulk
  bulk-atomic policy ctx i st next e h = error_state (bulk repo codec policy ctx i) st safe h
    where
      safe : IsAtomic (bulk repo codec policy ctx i)
      safe =
          reading-bind (lift (require_local policy)) _ (λ s. refl)
            λ _.
              reading-bind (lift (actor ctx)) _ (λ s. refl)
                λ current.
                  raise_if-IsAtomic (not current.platform_admin) platform_admin_required _ (
                    raise_if-IsAtomic (not (codec.is_uuid (trim_space i.user_id)))
                      (invalid_input "access_user_id_invalid") _
                      (raise_if-IsAtomic (not (valid_workspace_role i.role))
                        (invalid_input "workspace_role_invalid") _
                        (reading-bind
                          (reads
                            (λ (s : S). (repo.workspaces s).list_workspaces current.user.id true))
                          _ (λ s. refl)
                          λ _.
                            reading-bind (lift (selection_of i)) _ (λ s. refl)
                              λ _. transaction-IsAtomic _)))

  -- If Put, Delete or Bulk fails, even after some of the grants of Bulk, the store is as it was.
  pub grants-atomic :
      (policy : Option Policy) (ctx : RequestContext) (p : PutInput) (id : String) (b : BulkInput)
      (st next : S) (e : Error)
      → (put repo codec policy ctx p st ≡ (err e, next))
        ⊎ (delete repo codec policy ctx id st ≡ (err e, next))
        ⊎ (bulk repo codec policy ctx b st ≡ (err e, next))
      → next ≡ st
  grants-atomic policy ctx p id b st next e (inl h) = put-atomic policy ctx p st next e h
  grants-atomic policy ctx p id b st next e (inr (inl h)) = delete-atomic policy ctx id st next e h
  grants-atomic policy ctx p id b st next e (inr (inr h)) = bulk-atomic policy ctx b st next e h

  -- If resolving an externally managed actor fails, the store is as it was: no user, no grants and no
  -- token time are written.
  pub resolve_external-atomic :
      (policy : Option Policy) (now later : ℕ) (input : UpsertCurrentUserInput)
      (snapshot : Option ExternalAccessSnapshot) (st next : S) (e : Error)
      → resolve_external repo codec policy now later input snapshot st ≡ (err e, next)
      → next ≡ st
  unfolding resolve_external
  resolve_external-atomic policy now later input none st next e h =
      sym (ap (λ (q : Result (User × Bool) × S). q.1) h)
  resolve_external-atomic policy now later input (some snapshot) st next e h =
      error_state (resolve_external repo codec policy now later input (some snapshot)) st
        (raise_if-IsAtomic (unusable policy now input snapshot)
          (forbidden "external_access_invalid") _ (transaction-IsAtomic _))
        h
