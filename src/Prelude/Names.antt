-- ===== src/Prelude/Names.antt =====
-- Membership and multiplicity in lists of names.
use Prim.Native.Nat.{ℕ, suc, ◌+◌, ◌≤◌, ◌<◌}
use Prim.Native.String.{String}
use mathlib.Core.Path.{◌≡◌, refl}
use mathlib.Core.Logic.{inl, inr}
use mathlib.Core.Bool.{Bool, true, false, ◌||◌}
use mathlib.Core.List.{List, [], ◌∷◌, ◌++◌}
use native.Mathlib.Omega.{arith}
use text.Mathlib.Text.{◌==◌}
use text.Mathlib.TextEquality.{eq_iff}
use text.Mathlib.TextPositions.{eq_refl}
use auto_bot.Prelude.Tests.{if◌then◌else◌, ltb, Bool-cases}
use auto_bot.Prelude.Lists.{length}

-- Python's `x in xs`.
abbrev pub mem : String → List String → Bool
mem x [] = false
mem x (y ∷ ys) = y == x || mem x ys

abbrev pub count : String → List String → ℕ
count x [] = 0
count x (y ∷ ys) = (if y == x then 1 else 0) + count x ys

pub count-append : (x : String) (xs ys : List String) → count x (xs ++ ys) ≡ count x xs + count x ys
count-append x [] ys = omega arith
count-append x (y ∷ xs) ys = omega (arith, count-append x xs ys)

pub mem-eq-count : (x : String) (xs : List String) → mem x xs ≡ ltb 0 (count x xs)
mem-eq-count x [] = refl
mem-eq-count x (y ∷ xs) = ground (arith, mem-eq-count x xs)

pub mem-append : (x : String) (xs ys : List String) → mem x (xs ++ ys) ≡ (mem x xs || mem x ys)
mem-append x [] ys = refl
mem-append x (y ∷ xs) ys = ground (arith, mem-append x xs ys)

pub eq_sym : (x y : String) → x == y ≡ true → y == x ≡ true
eq_sym x y h = ground (arith, eq_iff x y, eq_iff y x)

pub eq_comm : (x y : String) → x == y ≡ (y == x)
eq_comm x y = ground (arith, eq_iff x y, eq_iff y x)

-- The list without one occurrence of a name.
abbrev remove : String → List String → List String
remove x [] = []
remove x (y ∷ ys) = if y == x then ys else y ∷ remove x ys

length-remove :
    (x : String) (ys : List String) → 0 < count x ys → suc (length (remove x ys)) ≡ length ys
length-remove x [] h = omega arith
length-remove x (y ∷ ys) h = ground (arith, length-remove x ys)

count-remove :
    (x z : String) (ys : List String)
    → 0 < count x ys
    → count z (remove x ys) + (if x == z then 1 else 0) ≡ count z ys
count-remove x z [] h = omega arith
count-remove x z (y ∷ ys) h =
    ground (arith, count-remove x z ys, eq_iff y x, eq_iff x z, eq_iff y z)

-- Fewer of each name, so fewer names.
pub length-le_of_count :
    (xs ys : List String) → ((x : String) → count x xs ≤ count x ys) → length xs ≤ length ys
length-le_of_count [] ys h = omega arith
length-le_of_count (x ∷ xs) ys h =
    let has : 0 < count x ys = ground (arith, h x, eq_refl x) in
    omega (
      arith,
      length-remove x ys has,
      length-le_of_count xs (remove x ys) (λ z. omega (arith, h z, count-remove x z ys has)),
    )

-- At equal lengths then there is the same number of each name.
pub count-eq_of_length :
    (xs ys : List String)
    → ((x : String) → count x xs ≤ count x ys)
    → length xs ≡ length ys
    → (x : String) → count x xs ≡ count x ys
count-eq_of_length xs ys h same x = elim (Bool-cases (ltb (count x xs) (count x ys))) [
  | inl more ↦ absurd (too_many more)
  | inr equal ↦ ground (arith, h x)
]
  where
    below : ltb (count x xs) (count x ys) ≡ true → (z : String) → count z xs ≤ count z (remove x ys)
    below more z = ground (arith, h z, count-remove x z ys, eq_iff x z)

    too_many : ltb (count x xs) (count x ys) ≡ true → ⊥
    too_many more =
        ground (arith, length-le_of_count xs (remove x ys) (below more), length-remove x ys)
