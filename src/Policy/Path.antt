-- ===== src/Policy/Path.antt =====
-- ParsePointer of internal/domain/access/policy.go: a JSON pointer, as its bytes.
use service_backend.Prelude.{
  ℕ, Bool, true, false, not, ◌&&◌, ◌||◌, Option, none, some, List, [], ◌∷◌, eqb, if◌then◌else◌,
}

abbrev pub Bytes : Type 0
Bytes = List ℕ

abbrev pub prepend : ℕ → List Bytes → List Bytes
prepend c [] = (c ∷ []) ∷ []
prepend c (p ∷ ps) = (c ∷ p) ∷ ps

-- strings.Split at one byte
abbrev pub split : ℕ → Bytes → List Bytes
split sep [] = [] ∷ []
split sep (c ∷ s) = let rest = split sep s in if eqb c sep then [] ∷ rest else prepend c rest

-- strings.ReplaceAll of the two bytes `a`, `b` by `r`; the test says whether an `a` has been read last
abbrev pub replace_pair : ℕ → ℕ → ℕ → Bool → Bytes → Bytes
replace_pair a b r true [] = a ∷ []
replace_pair a b r false [] = []
replace_pair a b r true (c ∷ s) =
    let fresh = replace_pair a b r false s in
    let again = replace_pair a b r true s in
    if eqb c b then r ∷ fresh else if eqb c a then a ∷ again else a ∷ c ∷ fresh
replace_pair a b r false (c ∷ s) =
    let fresh = replace_pair a b r false s in
    let again = replace_pair a b r true s in if eqb c a then again else c ∷ fresh

-- every ~ is followed by 0 or 1; the test says whether a ~ has been read last
abbrev pub is_escaped : Bool → Bytes → Bool
is_escaped after_tilde [] = not after_tilde
is_escaped true (c ∷ s) = (eqb c b'0' || eqb c b'1') && is_escaped false s
is_escaped false (c ∷ s) =
    let plain = is_escaped false s in
    let escape = is_escaped true s in if eqb c b'~' then escape else plain

abbrev pub unescape : Bytes → Bytes
unescape part = replace_pair b'~' b'0' b'~' false (replace_pair b'~' b'1' b'/' false part)

abbrev with_part : Bytes → Option (List Bytes) → Option (List Bytes)
with_part p none = none
with_part p (some ps) = some (unescape p ∷ ps)

-- the loop over the parts
abbrev pub parts_of : List Bytes → Option (List Bytes)
parts_of [] = some []
parts_of (p ∷ ps) = let rest = parts_of ps in if is_escaped false p then with_part p rest else none

-- ParsePointer
unfoldable pub parse_pointer : Bytes → Option (List Bytes)
parse_pointer [] = none
parse_pointer (c ∷ path) = if eqb c b'/' then parts_of (split b'/' path) else none
