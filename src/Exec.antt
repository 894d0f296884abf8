-- ===== src/Exec.antt =====
-- Code that changes a store behind a port and may fail. What was written before a failure stays
-- written, unless the code runs in a transaction.
use service_backend.Prelude.{◌≡◌, refl, ap, Bool, true, false, if◌then◌else◌}
use service_backend.Errors.{
  Error, Result, ok, err, ok-injective, map_row_missing, map_row_missing-ok,
}

abbrev pub Exec {ℓ} : Type 0 → Type ℓ → Type ℓ
Exec S A = S → Result A × S

module _ {S : Type 0} where
  abbrev pub pure {ℓ} : {A : Type ℓ} → A → Exec S A
  pure a s = (ok a, s)

  abbrev pub raise {ℓ} : {A : Type ℓ} → Error → Exec S A
  raise e s = (err e, s)

  abbrev pub lift {ℓ} : {A : Type ℓ} → Result A → Exec S A
  lift r s = (r, s)

  abbrev pub continue {ℓ κ} : {A : Type ℓ} {B : Type κ} → Result A → (A → Exec S B) → Exec S B
  continue (ok a) f s = f a s
  continue (err e) f s = (err e, s)

  infixl 5 ◌>>=◌ ◌>>◌
  abbrev pub ◌>>=◌ {ℓ κ} : {A : Type ℓ} {B : Type κ} → Exec S A → (A → Exec S B) → Exec S B
  ◌>>=◌ m f s = let (r, s') = m s in continue r f s'

  abbrev pub ◌>>◌ {ℓ κ} : {A : Type ℓ} {B : Type κ} → Exec S A → Exec S B → Exec S B
  m >> n = m >>= λ _. n

  -- `_ = call()`: the error is dropped
  abbrev pub ignore {ℓ} : {A : Type ℓ} → Exec S A → Exec S (Unit {0})
  ignore m s = (ok tt, (m s).1)

  -- a failing body leaves the store as it was
  abbrev pub rolled_back {ℓ} : {A : Type ℓ} → S → Result A × S → Result A × S
  rolled_back s (ok a, s') = (ok a, s')
  rolled_back s (err e, s') = (err e, s)

  -- ports.TxManager.WithinTransaction
  abbrev pub within_transaction {ℓ} : {A : Type ℓ} → Exec S A → Exec S A
  within_transaction m s = rolled_back s (m s)

  continue-inv {ℓ κ ι} :
      {A : Type ℓ} {B : Type κ} {C : Type ι} (r : Result A) (f : A → Exec S B) (t : S) {b : B}
      {s' : S}
      → continue r f t ≡ (ok b, s')
      → ((a : A) → r ≡ ok a → f a t ≡ (ok b, s') → C)
      → C
  continue-inv (ok a) f t h k = k a refl h
  continue-inv (err e) f t h k = cc (ap (λ (q : Result _ × S). q.0) h)

  -- A block that ended well went well up to its first `←`, and then to its end.
  pub >>=-inv {ℓ κ ι} :
      {A : Type ℓ} {B : Type κ} {C : Type ι} (m : Exec S A) (f : A → Exec S B) (s : S) {b : B}
      {s' : S}
      → (m >>= f) s ≡ (ok b, s')
      → ((a : A) (t : S) → m s ≡ (ok a, t) → f a t ≡ (ok b, s') → C)
      → C
  >>=-inv m f s h k =
      continue-inv (m s).0 f (m s).1 h λ a e rest. k a (m s).1 (λ i. (e i, (m s).1)) rest

  pub lift-inv {ℓ κ ι} :
      {A : Type ℓ} {B : Type κ} {C : Type ι} (r : Result A) (f : A → Exec S B) (s : S) {b : B}
      {s' : S}
      → (lift r >>= f) s ≡ (ok b, s')
      → ((a : A) → r ≡ ok a → f a s ≡ (ok b, s') → C)
      → C
  lift-inv r f s h k = continue-inv r f s h k

  pub pure-inv {ℓ κ} :
      {A : Type ℓ} {C : Type κ} {a b : A} {s s' : S}
      → ◌≡◌ {A = Result A × S} (ok a, s) (ok b, s')
      → (a ≡ b → s ≡ s' → C)
      → C
  pure-inv {A = A} h k =
      k (ok-injective (ap (λ (q : Result A × S). q.0) h)) (ap (λ (q : Result A × S). q.1) h)

  -- past `if test { return err }`
  pub raise_if-inv {ℓ κ} :
      {A : Type ℓ} {C : Type κ} (test : Bool) (e : Error) (k : Exec S A) (s : S) {a : A} {s' : S}
      → (if test then raise e else k) s ≡ (ok a, s')
      → (test ≡ false → k s ≡ (ok a, s') → C)
      → C
  raise_if-inv {A = A} true e k s h c = cc (ap (λ (q : Result A × S). q.0) h)
  raise_if-inv false e k s h c = c refl h

  -- either branch of a test
  pub if-inv {ℓ κ} :
      {A : Type ℓ} {C : Type κ} (test : Bool) (m n : Exec S A) (s : S) {a : A} {s' : S}
      → (if test then m else n) s ≡ (ok a, s')
      → (m s ≡ (ok a, s') → C)
      → (n s ≡ (ok a, s') → C)
      → C
  if-inv true m n s h yes_case no_case = yes_case h
  if-inv false m n s h yes_case no_case = no_case h

  -- a missing row reported under the caller's own error
  abbrev pub not_found_as {ℓ} : {A : Type ℓ} → Error → Exec S A → Exec S A
  not_found_as e m s = let (r, s') = m s in (map_row_missing e r, s')

  pub not_found_as-inv {ℓ} :
      {A : Type ℓ} (e : Error) (m : Exec S A) (s : S) {a : A} {s' : S}
      → not_found_as e m s ≡ (ok a, s')
      → m s ≡ (ok a, s')
  not_found_as-inv {A = A} e m s h = λ i. (
    map_row_missing-ok e (m s).0 (ap (λ (q : Result A × S). q.0) h) i,
    (ap (λ (q : Result A × S). q.1) h) i,
  )

  -- A property of the store survives `if test { return err }` if it survives what follows.
  pub refused_or {ℓ κ} :
      {A : Type ℓ} (P : S → Type κ) (test : Bool) (e : Error) (q : Result A × S) (s : S)
      → P s
      → (test ≡ false → P q.1)
      → P (if test then (err e, s) else q).1
  refused_or P true e q s h k = h
  refused_or P false e q s h k = k refl

  rolled_back-inv {ℓ κ} :
      {A : Type ℓ} {C : Type κ} (s : S) (q : Result A × S) {a : A} {s' : S}
      → rolled_back s q ≡ (ok a, s')
      → (q ≡ (ok a, s') → C)
      → C
  rolled_back-inv s (ok a, t) h k = k h
  rolled_back-inv {A = A} s (err e, t) h k = cc (ap (λ (q : Result A × S). q.0) h)

  -- a transaction that succeeds is its body
  pub within_transaction-inv {ℓ κ} :
      {A : Type ℓ} {C : Type κ} (m : Exec S A) (s : S) {a : A} {s' : S}
      → within_transaction m s ≡ (ok a, s')
      → (m s ≡ (ok a, s') → C)
      → C
  within_transaction-inv m s h k = rolled_back-inv s (m s) h k

  -- past `if test { return err }`, when the store is given
  pub refused-inv {ℓ κ} :
      {A : Type ℓ} {C : Type κ} (test : Bool) (e : Error) (q : Result A × S) (s : S) {a : A}
      {s' : S}
      → (if test then (err e, s) else q) ≡ (ok a, s')
      → (test ≡ false → q ≡ (ok a, s') → C)
      → C
  refused-inv {A = A} true e q s h k = cc (ap (λ (r : Result A × S). r.0) h)
  refused-inv false e q s h k = k refl h
