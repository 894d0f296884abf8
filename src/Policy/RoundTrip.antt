-- ===== src/Policy/RoundTrip.antt =====
-- That ParsePointer of internal/domain/access/policy.go reads every list of keys.
use service_backend.Prelude.{
  ℕ, ◌≡◌, refl, sym, ap, ap₂, ◌∙◌, Bool, true, false, not, ◌&&◌, ◌||◌, some, List, [], ◌∷◌, ◌++◌,
  eqb, arith, Bool-cases, Option-cases, some_eq, inl, inr, if◌then◌else◌, append-nil,
}
use service_backend.Policy.Path.{
  Bytes, prepend, split, replace_pair, is_escaped, unescape, parts_of, parse_pointer,
}

-- RFC 6901: ~0 for ~, and ~1 for /
abbrev pub escape : Bytes → Bytes
escape [] = []
escape (c ∷ s) =
    let rest = escape s in
    if eqb c b'~' then b'~' ∷ b'0' ∷ rest else if eqb c b'/' then b'~' ∷ b'1' ∷ rest else c ∷ rest

-- the pointer to a value below these keys
abbrev pub print_pointer : List Bytes → Bytes
print_pointer [] = []
print_pointer (k ∷ ks) = b'/' ∷ (escape k ++ print_pointer ks)

-- the first replacement leaves ~0 for ~
abbrev half : Bytes → Bytes
half [] = []
half (c ∷ s) = let rest = half s in if eqb c b'~' then b'~' ∷ b'0' ∷ rest else c ∷ rest

first_pass : (s : Bytes) → replace_pair b'~' b'1' b'/' false (escape s) ≡ half s
first_pass [] = refl
first_pass (c ∷ s) = ground (arith, first_pass s)

second_pass : (s : Bytes) → replace_pair b'~' b'0' b'~' false (half s) ≡ s
second_pass [] = refl
second_pass (c ∷ s) = ground (arith, second_pass s)

escape-is_escaped : (s : Bytes) → is_escaped false (escape s) ≡ true
escape-is_escaped [] = refl
escape-is_escaped (c ∷ s) = ground (arith, escape-is_escaped s)

split-escape : (s : Bytes) → split b'/' (escape s) ≡ escape s ∷ []
split-escape [] = refl
split-escape (c ∷ s) = elim (Bool-cases (eqb c b'~')) [
  | inl tilde ↦ rw (tilde, split-escape s)
  | inr other ↦ elim (Bool-cases (eqb c b'/')) [
    | inl slash ↦ rw (other, slash, split-escape s)
    | inr plain ↦ rw (other, plain, split-escape s, plain)
  ]
]

split-escape-slash : (s u : Bytes) → split b'/' (escape s ++ b'/' ∷ u) ≡ escape s ∷ split b'/' u
split-escape-slash [] u = refl
split-escape-slash (c ∷ s) u = elim (Bool-cases (eqb c b'~')) [
  | inl tilde ↦ rw (tilde, split-escape-slash s u)
  | inr other ↦ elim (Bool-cases (eqb c b'/')) [
    | inl slash ↦ rw (other, slash, split-escape-slash s u)
    | inr plain ↦ rw (other, plain, split-escape-slash s u, plain)
  ]
]

-- the parts of a printed pointer are read as its keys
parts_of-print :
    (k : Bytes) (ks : List Bytes)
    → parts_of (split b'/' (escape k ++ print_pointer ks)) ≡ some (k ∷ ks)
parts_of-print k [] =
    ap (λ (s : Bytes). parts_of (split b'/' s)) (append-nil (escape k))
    ∙ rw (split-escape k, escape-is_escaped k, first_pass k, second_pass k)
parts_of-print k (l ∷ ks) = rw (
  split-escape-slash k (escape l ++ print_pointer ks),
  escape-is_escaped k,
  parts_of-print l ks,
  first_pass k,
  second_pass k,
)

-- a part without a slash
abbrev has_slash : Bytes → Bool
has_slash [] = false
has_slash (c ∷ s) = eqb c b'/' || has_slash s

unescape-plain : (c : ℕ) (s : Bytes) → eqb c b'~' ≡ false → unescape (c ∷ s) ≡ c ∷ unescape s
unescape-plain c s other = rw (other, other)

plain_byte :
    (c : ℕ) (s t : Bytes)
    → eqb c b'/' ≡ false
    → escape s ≡ t
    → (if eqb c b'/' then b'~' ∷ b'1' ∷ escape s else c ∷ escape s) ≡ c ∷ t
plain_byte c s t plain e = rw plain (ap (λ (l : Bytes). c ∷ l) e)

-- ~0 or ~1, and what follows
escaped_pair :
    (c d : ℕ) (s : Bytes)
    → c ≡ b'~'
    → is_escaped false (c ∷ d ∷ s) ≡ true
    → has_slash (c ∷ d ∷ s) ≡ false
    → (is_escaped false s ≡ true → has_slash s ≡ false → escape (unescape s) ≡ s)
    → escape (unescape (c ∷ d ∷ s)) ≡ c ∷ d ∷ s
escaped_pair c d s tilde h free again = elim (Bool-cases (eqb d b'0')) [
  | inl zero ↦
      (let is_zero : d ≡ b'0' = ground (arith, zero) in
        rw (tilde, is_zero)
          (ap (λ (l : Bytes). b'~' ∷ b'0' ∷ l)
            (again (ground (arith, h, tilde)) (ground (arith, free)))))
  | inr other ↦
      (let is_one : d ≡ b'1' = ground (arith, h, tilde, other) in
        rw (tilde, is_one)
          (ap (λ (l : Bytes). b'~' ∷ b'1' ∷ l)
            (again (ground (arith, h, tilde)) (ground (arith, free)))))
]

escape-unescape :
    (p : Bytes) → is_escaped false p ≡ true → has_slash p ≡ false → escape (unescape p) ≡ p
escape-unescape [] h free = refl
escape-unescape (c ∷ []) h free = ground arith
escape-unescape (c ∷ d ∷ s) h free = elim (Bool-cases (eqb c b'~')) [
  | inl tilde ↦ escaped_pair c d s (ground arith) h free (escape-unescape s)
  | inr other ↦
      rw (unescape-plain c (d ∷ s) other, other)
        (plain_byte c (unescape (d ∷ s)) (d ∷ s) (ground (arith, free))
          (escape-unescape (d ∷ s) (rw other at h) (ground (arith, free))))
]

-- the parts, each with its slash
abbrev join : List Bytes → Bytes
join [] = []
join (p ∷ ps) = b'/' ∷ (p ++ join ps)

abbrev rest_of : Bytes → Bytes
rest_of [] = []
rest_of (c ∷ s) = s

join-prepend :
    (c : ℕ) (ps : List Bytes) (t : Bytes) → join ps ≡ b'/' ∷ t → join (prepend c ps) ≡ b'/' ∷ c ∷ t
join-prepend c [] t h = cc h
join-prepend c (p ∷ ps) t h = ap (λ (l : Bytes). b'/' ∷ c ∷ rest_of l) h

join-split : (s : Bytes) → join (split b'/' s) ≡ b'/' ∷ s
join-split [] = refl
join-split (c ∷ s) = elim (Bool-cases (eqb c b'/')) [
  | inl slash ↦
      (let is_slash : c ≡ b'/' = ground (arith, slash) in
        rw (is_slash) (ap (λ (l : Bytes). b'/' ∷ l) (join-split s)))
  | inr other ↦ rw other (join-prepend c (split b'/' s) s (join-split s))
]

abbrev all_plain : List Bytes → Bool
all_plain [] = true
all_plain (p ∷ ps) = not (has_slash p) && all_plain ps

all_plain-prepend :
    (c : ℕ) (ps : List Bytes)
    → eqb c b'/' ≡ false
    → all_plain ps ≡ true
    → all_plain (prepend c ps) ≡ true
all_plain-prepend c [] other h = ground (arith, other)
all_plain-prepend c (p ∷ ps) other h = ground (arith, other, h)

all_plain-split : (s : Bytes) → all_plain (split b'/' s) ≡ true
all_plain-split [] = refl
all_plain-split (c ∷ s) = elim (Bool-cases (eqb c b'/')) [
  | inl slash ↦ rw slash (all_plain-split s)
  | inr other ↦ rw other (all_plain-prepend c (split b'/' s) other (all_plain-split s))
]

print-parts_of :
    (ps ks : List Bytes) → all_plain ps ≡ true → parts_of ps ≡ some ks → print_pointer ks ≡ join ps
print-parts_of [] ks plain h = ap print_pointer (sym (some_eq h))
print-parts_of (p ∷ ps) ks plain h = elim (Bool-cases (is_escaped false p)) [
  | inl escaped ↦ elim (Option-cases (parts_of ps)) [
    | inl missing ↦ cc (rw (escaped, missing) at h)
    | inr (ls, e) ↦
        ap print_pointer (sym (some_eq (rw (escaped, e) at h)))
        ∙ ap₂ (λ (a b : Bytes). b'/' ∷ (a ++ b)) (escape-unescape p escaped (ground (arith, plain)))
            (print-parts_of ps ls (ground (arith, plain)) e)
  ]
  | inr broken ↦ cc (rw broken at h)
]

-- ParsePointer is the inverse of printing: every list of one key or more is read from its printed
-- pointer, with ~ and / in keys, and a pointer that is read prints as itself.
pub parse_pointer-print :
    (k : Bytes) (ks : List Bytes) (path : Bytes) (read : List Bytes)
    → parse_pointer path ≡ some read
    → (parse_pointer (print_pointer (k ∷ ks)) ≡ some (k ∷ ks)) × (print_pointer read ≡ path)
unfolding parse_pointer
parse_pointer-print k ks [] read h = cc h
parse_pointer-print k ks (c ∷ path) read h = elim (Bool-cases (eqb c b'/')) [
  | inl slash ↦
      (let is_slash : c ≡ b'/' = ground (arith, slash) in
        (
          parts_of-print k ks,
          print-parts_of (split b'/' path) read (all_plain-split path) (rw slash at h)
              ∙ join-split path
              ∙ ap (λ (n : ℕ). n ∷ path) (sym is_slash),
        ))
  | inr other ↦ cc (rw other at h)
]
