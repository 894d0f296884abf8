-- ===== src/Prelude/Search.antt =====
-- Finding in lists from which entries were removed, or in which some were changed.
use mathlib.Core.Path.{◌≡◌, refl, sym, ◌∙◌, ap}
use mathlib.Core.Logic.{inl, inr}
use mathlib.Core.Bool.{Bool, true, false}
use mathlib.Core.Option.{none, some}
use mathlib.Core.List.{List, [], ◌∷◌}
use service_backend.Prelude.Tests.{Bool-cases, some_eq}
use service_backend.Prelude.Lists.{find_first, remove_if, update_if}

module _ {ℓ} {A : Type ℓ} where
  pub find_first-some : (p : A → Bool) (xs : List A) {x : A} → find_first p xs ≡ some x → p x ≡ true
  find_first-some p [] h = cc
  find_first-some p (y ∷ ys) {x} h = elim (Bool-cases (p y)) [
    | inl here ↦ ap p (sym (some_eq (rw here at h))) ∙ here
    | inr later ↦ find_first-some p ys (rw later at h)
  ]

  -- a test that implies one that nothing passes
  pub find_first-none :
      (p q : A → Bool) (xs : List A)
      → ((x : A) → q x ≡ true → p x ≡ true)
      → find_first p xs ≡ none
      → find_first q xs ≡ none
  find_first-none p q [] imp h = refl
  find_first-none p q (y ∷ ys) imp h = elim (Bool-cases (q y)) [
    | inl hit ↦ cc (rw (imp y hit) at h)
    | inr miss ↦ elim (Bool-cases (p y)) [
      | inl other ↦ cc (rw other at h)
      | inr neither ↦ rw miss (find_first-none p q ys imp (rw neither at h))
    ]
  ]

  -- what was removed cannot be found
  pub find_first-removed :
      (p q : A → Bool) (xs : List A)
      → ((x : A) → q x ≡ true → p x ≡ true)
      → find_first q (remove_if p xs) ≡ none
  find_first-removed p q [] imp = refl
  find_first-removed p q (y ∷ ys) imp = elim (Bool-cases (p y)) [
    | inl gone ↦ rw gone (find_first-removed p q ys imp)
    | inr kept ↦ elim (Bool-cases (q y)) [
      | inl hit ↦ cc (imp y hit)
      | inr miss ↦ rw (kept, miss) (find_first-removed p q ys imp)
    ]
  ]

  -- what is removed would not have been found
  pub find_first-kept :
      (p q : A → Bool) (xs : List A)
      → ((x : A) → p x ≡ true → q x ≡ false)
      → find_first q (remove_if p xs) ≡ find_first q xs
  find_first-kept p q [] imp = refl
  find_first-kept p q (y ∷ ys) imp = elim (Bool-cases (p y)) [
    | inl gone ↦ rw (gone, imp y gone) (find_first-kept p q ys imp)
    | inr kept ↦ elim (Bool-cases (q y)) [
      | inl hit ↦ rw (kept, hit)
      | inr miss ↦ rw (kept, miss) (find_first-kept p q ys imp)
    ]
  ]

  -- what was changed no longer passes
  pub find_first-updated :
      (p q : A → Bool) (f : A → A) (xs : List A)
      → ((x : A) → p x ≡ true → q (f x) ≡ false)
      → ((x : A) → p x ≡ false → q x ≡ false)
      → find_first q (update_if p f xs) ≡ none
  find_first-updated p q f [] changed other = refl
  find_first-updated p q f (y ∷ ys) changed other = elim (Bool-cases (p y)) [
    | inl hit ↦ rw (hit, changed y hit) (find_first-updated p q f ys changed other)
    | inr miss ↦ rw (miss, other y miss) (find_first-updated p q f ys changed other)
  ]
