-- ===== src/Prelude/Sort.antt =====
-- Python's `sorted`, as a stable insertion sort by a comparison.
use Prim.Native.Nat.{suc, ◌+◌}
use Prim.Native.String.{String}
use mathlib.Core.Path.{◌≡◌, refl}
use mathlib.Core.Bool.{Bool}
use mathlib.Core.List.{List, [], ◌∷◌}
use native.Mathlib.Omega.{arith}
use text.Mathlib.Text.{◌==◌}
use auto_bot.Prelude.Tests.{if◌then◌else◌}
use auto_bot.Prelude.Lists.{length}
use auto_bot.Prelude.Names.{count}

module _ {ℓ} {A : Type ℓ} (le : A → A → Bool) where
  abbrev pub insert : A → List A → List A
  insert x [] = x ∷ []
  insert x (y ∷ ys) = if le x y then x ∷ y ∷ ys else y ∷ insert x ys

  abbrev pub sort : List A → List A
  sort [] = []
  sort (x ∷ xs) = insert x (sort xs)

  pub length-insert : (x : A) (ys : List A) → length (insert x ys) ≡ suc (length ys)
  length-insert x [] = refl
  length-insert x (y ∷ ys) = ground (arith, length-insert x ys)

  pub length-sort : (xs : List A) → length (sort xs) ≡ length xs
  length-sort [] = refl
  length-sort (x ∷ xs) = omega (arith, length-insert x (sort xs), length-sort xs)

module _ (le : String → String → Bool) where
  count-insert :
      (z x : String) (ys : List String)
      → count z (insert le x ys) ≡ (if x == z then 1 else 0) + count z ys
  count-insert z x [] = refl
  count-insert z x (y ∷ ys) = ground (arith, count-insert z x ys)

  pub count-sort : (z : String) (xs : List String) → count z (sort le xs) ≡ count z xs
  count-sort z [] = refl
  count-sort z (x ∷ xs) = omega (arith, count-insert z x (sort le xs), count-sort z xs)
