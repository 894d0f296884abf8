-- ===== src/Prelude/Keys.antt =====
-- The number of entries of a Go map, whose keys are distinct.
use Prim.Native.Nat.{suc}
use Prim.Native.String.{String}
use mathlib.Core.Path.{◌≡◌, refl, sym, ap, ◌∙◌}
use mathlib.Core.Logic.{inl, inr}
use mathlib.Core.Option.{none, some}
use mathlib.Core.List.{[], ◌∷◌}
use native.Mathlib.Omega.{arith}
use text.Mathlib.Text.{◌==◌}
use text.Mathlib.TextEquality.{eq_iff}
use service_backend.Prelude.Tests.{Bool-cases, some_eq}
use service_backend.Prelude.Lists.{length}
use service_backend.Prelude.Map.{Map, get, delete, put, get-delete}

module _ {ℓ} {V : Type ℓ} where
  -- no key stands twice
  pub data IsDistinct : Map V → Type ℓ where
    empty : IsDistinct []
    entry :
        (k : String) (v : V) (m : Map V) → get m k ≡ none → IsDistinct m → IsDistinct ((k, v) ∷ m)

  pub get-delete-missing : (m : Map V) (k j : String) → get m j ≡ none → get (delete k m) j ≡ none
  get-delete-missing m k j h = ground (arith, get-delete m k j, h)

  pub delete-IsDistinct : (m : Map V) (k : String) → IsDistinct m → IsDistinct (delete k m)
  unfolding delete
  delete-IsDistinct _ k empty = empty
  delete-IsDistinct _ k (entry j v m missing rest) = elim (Bool-cases (j == k)) [
    | inl same ↦ rw same (delete-IsDistinct m k rest)
    | inr other ↦
        rw other
          (entry j v (delete k m) (get-delete-missing m k j missing) (delete-IsDistinct m k rest))
  ]

  pub put-IsDistinct : (m : Map V) (k : String) (v : V) → IsDistinct m → IsDistinct (put k v m)
  unfolding put
  put-IsDistinct m k v d =
      entry k v (delete k m) (ground (arith, get-delete m k k, eq_iff k k))
        (delete-IsDistinct m k d)

  -- without the key, nothing is deleted
  pub length-delete-missing :
      (m : Map V) (k : String) → get m k ≡ none → length (delete k m) ≡ length m
  unfolding get delete
  length-delete-missing [] k h = refl
  length-delete-missing ((j, v) ∷ m) k h = elim (Bool-cases (j == k)) [
    | inl same ↦ cc (rw same at h)
    | inr other ↦ rw other (ap suc (length-delete-missing m k (rw other at h)))
  ]

  -- with it, one entry is
  pub length-delete-found :
      (m : Map V) (k : String) {v : V}
      → IsDistinct m
      → get m k ≡ some v
      → length m ≡ suc (length (delete k m))
  unfolding get delete
  length-delete-found _ k empty h = cc
  length-delete-found _ k (entry j w m missing rest) h = elim (Bool-cases (j == k)) [
    | inl same ↦ rw same (
        sym (ap suc (length-delete-missing m k (ap (get m) (sym ((eq_iff j k).0 same)) ∙ missing))))
    | inr other ↦ rw other (ap suc (length-delete-found m k rest (rw other at h)))
  ]

  abbrev pub map_values : (V → V) → Map V → Map V
  map_values f [] = []
  map_values f ((k, v) ∷ m) = (k, f v) ∷ map_values f m

  pub length-map_values : (f : V → V) (m : Map V) → length (map_values f m) ≡ length m
  length-map_values f [] = refl
  length-map_values f ((k, v) ∷ m) = ap suc (length-map_values f m)

  get-map_values-missing :
      (f : V → V) (m : Map V) (k : String) → get m k ≡ none → get (map_values f m) k ≡ none
  unfolding get
  get-map_values-missing f [] k h = refl
  get-map_values-missing f ((j, v) ∷ m) k h = elim (Bool-cases (j == k)) [
    | inl same ↦ cc (rw same at h)
    | inr other ↦ rw other (get-map_values-missing f m k (rw other at h))
  ]

  pub map_values-IsDistinct : (f : V → V) (m : Map V) → IsDistinct m → IsDistinct (map_values f m)
  map_values-IsDistinct f _ empty = empty
  map_values-IsDistinct f _ (entry k v m missing rest) =
      entry k (f v) (map_values f m) (get-map_values-missing f m k missing)
        (map_values-IsDistinct f m rest)

  pub get-map_values-some :
      (f : V → V) (m : Map V) (k : String) {w : V}
      → get (map_values f m) k ≡ some w
      → (v : V) × (get m k ≡ some v) × (f v ≡ w)
  unfolding get
  get-map_values-some f [] k h = cc
  get-map_values-some f ((j, v) ∷ m) k h = elim (Bool-cases (j == k)) [
    | inl same ↦ (v, rw same, some_eq (rw same at h))
    | inr other ↦
        (let (x, found, e) = get-map_values-some f m k (rw other at h) in (x, rw other found, e))
  ]
