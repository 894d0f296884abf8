-- ===== src/Errors.antt =====
-- internal/domain/errors/app_error.go and common.go: errors as values.
-- An `AppError` is kept as its code and HTTP status; messages and details are texts for people and
-- are left out. `row_missing` is `ports.ErrNotFound`, and `fault` any other error of a port.
use service_backend.Prelude.{ℕ, String, ◌≡◌, refl, ap, Bool, true, false}

pub data Error : Type 0 where
  app : String → ℕ → Error
  row_missing : Error
  fault : String → Error

pub data Result {ℓ} (A : Type ℓ) : Type ℓ where
  ok : A → Result A
  err : Error → Result A

-- `if test { return err }`
abbrev pub refuse_if : Bool → Error → Result (Unit {0})
refuse_if false refusal = ok tt
refuse_if true refusal = err refusal

infixl 5 ◌>>=◌ ◌>>◌
abbrev pub ◌>>=◌ {ℓ ι} : {X : Type ℓ} {Y : Type ι} → Result X → (X → Result Y) → Result Y
err e >>= next = err e
ok x >>= next = next x

abbrev pub ◌>>◌ {ι} : {Y : Type ι} → Result (Unit {0}) → Result Y → Result Y
checked >> next = checked >>= λ _. next

abbrev pub is_ok {ℓ} : {A : Type ℓ} → Result A → Bool
is_ok (ok a) = true
is_ok (err e) = false

-- a chain that ended well went well up to its first `←`, and then to its end
pub >>=-inv {ℓ κ ι} :
    {A : Type ℓ} {B : Type κ} {C : Type ι} (m : Result A) (f : A → Result B) {b : B}
    → (m >>= f) ≡ ok b
    → ((a : A) → m ≡ ok a → f a ≡ ok b → C)
    → C
>>=-inv (ok a) f h k = k a refl h
>>=-inv (err e) f h k = cc

pub refuse_if-inv {ℓ κ} :
    {B : Type ℓ} {C : Type κ} (test : Bool) (e : Error) (k : Result B) {b : B}
    → (refuse_if test e >> k) ≡ ok b
    → (test ≡ false → k ≡ ok b → C)
    → C
refuse_if-inv true e k h c = cc
refuse_if-inv false e k h c = c refl h

abbrev ok_or {ℓ} : {A : Type ℓ} → A → Result A → A
ok_or a (ok b) = b
ok_or a (err e) = a

pub ok-injective {ℓ} : {A : Type ℓ} {a b : A} → ok a ≡ ok b → a ≡ b
ok-injective {a = a} h = ap (ok_or a) h

abbrev pub invalid_input : String → Error
invalid_input code = app code 400

abbrev pub unauthorized : String → Error
unauthorized code = app code 401

abbrev pub forbidden : String → Error
forbidden code = app code 403

abbrev pub not_found : String → Error
not_found code = app code 404

abbrev pub conflict : String → Error
conflict code = app code 409

abbrev pub internal : String → Error
internal code = app code 500

-- CodeOf: what is no `AppError` is an internal error
abbrev pub code_of : Error → String
code_of (app code status) = code
code_of row_missing = "common.internal"
code_of (fault text) = "common.internal"

-- HTTPStatusOf
abbrev pub http_status_of : Error → ℕ
http_status_of (app code status) = status
http_status_of row_missing = 500
http_status_of (fault text) = 500

-- errors.Is(err, ports.ErrNotFound) { return replacement }
abbrev pub map_row_missing {ℓ} : {A : Type ℓ} → Error → Result A → Result A
map_row_missing replacement (err row_missing) = err replacement
map_row_missing replacement (err (app c n)) = err (app c n)
map_row_missing replacement (err (fault t)) = err (fault t)
map_row_missing replacement (ok a) = ok a

pub map_row_missing-ok {ℓ} :
    {A : Type ℓ} (e : Error) (r : Result A) {a : A} → map_row_missing e r ≡ ok a → r ≡ ok a
map_row_missing-ok e (ok a) h = h
map_row_missing-ok e (err (app c n)) h = cc
map_row_missing-ok e (err row_missing) h = cc
map_row_missing-ok e (err (fault t)) h = cc
