-- ===== src/Prelude/Map.antt =====
-- Go's `map[string]V`: an association list. Go's order of iteration is unspecified; here it is the
-- order of the list. Every operation is total: a missing key is `none`.
use Prim.Native.String.{String}
use mathlib.Core.Path.{◌≡◌, refl, sym, ◌∙◌, subst}
use mathlib.Core.Logic.{◌⊎◌, inl, inr}
use mathlib.Core.Bool.{Bool, true, false}
use mathlib.Core.Option.{Option, none, some}
use mathlib.Core.List.{List, [], ◌∷◌}
use native.Mathlib.Omega.{arith}
use text.Mathlib.Text.{◌==◌}
use text.Mathlib.TextEquality.{eq_iff}
use service_backend.Prelude.Tests.{if◌then◌else◌, Bool-cases, some_eq}

abbrev pub Map {ℓ} : Type ℓ → Type ℓ
Map V = List (String × V)

module _ {ℓ} {V : Type ℓ} where
  -- m[k]
  unfoldable pub get : Map V → String → Option V
  get [] k = none
  get ((j, v) ∷ m) k = if j == k then some v else get m k

  -- delete(m, k)
  unfoldable pub delete : String → Map V → Map V
  delete k [] = []
  delete k ((j, v) ∷ m) = let rest = delete k m in if j == k then rest else (j, v) ∷ rest

  -- m[k] = v
  unfoldable pub put : String → V → Map V → Map V
  unfolding delete
  put k v m = (k, v) ∷ delete k m

  -- keeps the entries whose value passes the test, and deletes the others by key
  unfoldable pub retain : (V → Bool) → Map V → Map V
  unfolding delete
  retain p [] = []
  retain p ((k, v) ∷ m) = let rest = retain p m in if p v then (k, v) ∷ rest else delete k rest

  abbrev pub filter_option : (V → Bool) → Option V → Option V
  filter_option p none = none
  filter_option p (some v) = if p v then some v else none

  pub get-delete :
      (m : Map V) (k j : String) → get (delete k m) j ≡ (if k == j then none else get m j)
  unfolding get delete
  get-delete [] k j = ground arith
  get-delete ((i, v) ∷ m) k j = ground (arith, get-delete m k j, eq_iff i k, eq_iff i j, eq_iff k j)

  pub get-put :
      (m : Map V) (k j : String) (v : V) → get (put k v m) j ≡ (if k == j then some v else get m j)
  unfolding get put
  get-put m k j v = ground (arith, get-delete m k j)

  pub get-retain :
      (p : V → Bool) (m : Map V) (j : String) → get (retain p m) j ≡ filter_option p (get m j)
  unfolding get retain
  get-retain p [] j = refl
  get-retain p ((k, v) ∷ m) j =
      ground (arith, get-retain p m j, get-delete (retain p m) k j, eq_iff k j)

pub ruleset map_laws = (get-delete, get-put, get-retain)

module _ {ℓ} {V : Type ℓ} where
  -- what is still there after a deletion was there before, under another key
  pub get-delete-some :
      (m : Map V) (k j : String) {v : V}
      → get (delete k m) j ≡ some v
      → (get m j ≡ some v) × ((k == j) ≡ false)
  get-delete-some m k j h = (ground (arith, get-delete m k j), ground (arith, get-delete m k j))

  pub get-retain-some :
      (p : V → Bool) (m : Map V) (j : String) {v : V}
      → get (retain p m) j ≡ some v
      → (get m j ≡ some v) × (p v ≡ true)
  get-retain-some p m j {v} h = from_filter (get m j) (sym (get-retain p m j) ∙ h)
    where
      from_filter : (o : Option V) → filter_option p o ≡ some v → (o ≡ some v) × (p v ≡ true)
      from_filter none e = cc
      from_filter (some w) e = kept (p w) refl e
        where
          kept :
              (b : Bool)
              → p w ≡ b
              → (if b then some w else none) ≡ some v
              → (some w ≡ some v) × (p v ≡ true)
          kept true t e' = (e', subst (λ x. p x ≡ true) (some_eq e') t)
          kept false t e' = cc

  -- a new binding: the one just put, or an old one under another key
  pub get-put-some :
      (m : Map V) (k j : String) (v : V) {w : V}
      → get (put k v m) j ≡ some w
      → ((k ≡ j) × (v ≡ w)) ⊎ (get m j ≡ some w)
  get-put-some m k j v h = elim (Bool-cases (k == j)) [
    | inl same ↦ inl ((eq_iff k j).0 same, some_eq (rw (get-put m k j v, same) at h))
    | inr other ↦ inr (rw (get-put m k j v, other) at h)
  ]
