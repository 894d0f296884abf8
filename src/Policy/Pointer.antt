-- ===== src/Policy/Pointer.antt =====
-- pointerValue of internal/domain/access/policy.go over JSON values.
use Prim.Native.Char.{code}
use Prim.Native.Nat.{◌*◌}
use service_backend.Prelude.{
  ℕ, zero, suc, ◌+◌, ◌-◌, String, Bool, ◌==◌, ◌&&◌, leb, eqb, Option, none, some, List, [], ◌∷◌,
  if◌then◌else◌,
}

-- decoded JSON, with numbers as their literals (json.Number)
mutual
  pub data Value : Type 0 where
    null : Value
    boolean : Bool → Value
    text : String → Value
    number : String → Value
    array : Items → Value
    object : Fields → Value

  pub data Items : Type 0 where
    nil : Items
    cons : Value → Items → Items

  pub data Fields : Type 0 where
    end : Fields
    field : String → Value → Fields → Fields

-- m[k] of a JSON object
unfoldable pub get_field : Fields → String → Option Value
get_field end k = none
get_field (field j v fs) k = if j == k then some v else get_field fs k

-- values[i] within the bounds
unfoldable pub get_item : Items → ℕ → Option Value
get_item nil i = none
get_item (cons v vs) zero = some v
get_item (cons v vs) (suc i) = get_item vs i

unfoldable pub decimal : ℕ → String → Option ℕ
decimal n String.[] = some n
decimal n (String.◌∷◌ c s) =
    let rest = decimal (n * 10 + (code c - 48)) s in
    if leb 48 (code c) && leb (code c) 57 then rest else none

-- the numerals that strconv.Atoi reads and strconv.Itoa writes back the same: no sign, no leading 0
unfoldable pub canonical_index : String → Option ℕ
unfolding decimal
canonical_index String.[] = none
canonical_index (String.◌∷◌ c String.[]) = decimal 0 (String.◌∷◌ c String.[])
canonical_index (String.◌∷◌ c (String.◌∷◌ d s)) =
    if eqb (code c) 48 then none else decimal 0 (String.◌∷◌ c (String.◌∷◌ d s))

abbrev item_at : Items → Option ℕ → Option Value
item_at items none = none
item_at items (some i) = get_item items i

-- one segment of the path
unfoldable pub step : Value → String → Option Value
unfolding get_field get_item canonical_index
step (object fs) segment = get_field fs segment
step (array items) segment = item_at items (canonical_index segment)
step _ segment = none

abbrev not_null : Value → Option Value
not_null null = none
not_null v = some v

-- pointerValue: a null at the end is no value
unfoldable pub pointer_value : Value → List String → Option Value
unfolding step
pointer_value value [] = not_null value
pointer_value value (segment ∷ path) = elim (step value segment) [
  | none ↦ none
  | some v ↦ pointer_value v path
]
