-- ===== src/Scheduler/Rows.antt =====
-- Tables of rows: how tests, filters, sorts and updates of all rows go together.
use auto_bot.Prelude.{
  all, ℕ, ◌≡◌, refl, List, [], ◌∷◌, map, Bool, true, false, ◌&&◌, ◌||◌, keep, any, eqb, arith, All,
  Bool-cases, inl, inr, find, none, some, subst,
}
use auto_bot.Prelude.Sort.{sort, insert}
use auto_bot.Models.{Task}

module _ {ℓ} {A : Type ℓ} where
  pub any-insert :
      (p : A → Bool) (le : A → A → Bool) (x : A) (ys : List A)
      → any p (insert le x ys) ≡ (p x || any p ys)
  any-insert p le x [] = refl
  any-insert p le x (y ∷ ys) = ground (arith, any-insert p le x ys)

  pub any-sort : (p : A → Bool) (le : A → A → Bool) (xs : List A) → any p (sort le xs) ≡ any p xs
  any-sort p le [] = refl
  any-sort p le (x ∷ xs) = ground (arith, any-insert p le x (sort le xs), any-sort p le xs)

  pub any-keep : (p q : A → Bool) (xs : List A) → any p (keep q xs) ≡ any (λ x. q x && p x) xs
  any-keep p q [] = refl
  any-keep p q (x ∷ xs) = ground (arith, any-keep p q xs)

  pub any-cong : {p q : A → Bool} (xs : List A) → ((x : A) → p x ≡ q x) → any p xs ≡ any q xs
  any-cong [] h = refl
  any-cong (x ∷ xs) h = ground (arith, h x, any-cong xs h)

  pub any_mono :
      (p q : A → Bool) (xs : List A)
      → ((x : A) → p x ≡ true → q x ≡ true)
      → any p xs ≡ true
      → any q xs ≡ true
  any_mono p q [] h e = cc
  any_mono p q (x ∷ xs) h e = ground (arith, h x, any_mono p q xs h)

  pub any-map :
      (p q : A → Bool) (f : A → A) (xs : List A)
      → ((x : A) → p x ≡ true → q (f x) ≡ true)
      → any p xs ≡ true
      → any q (map f xs) ≡ true
  any-map p q f [] h e = cc
  any-map p q f (x ∷ xs) h e = ground (arith, h x, any-map p q f xs h)

  pub found-any :
      (p q : A → Bool) (xs : List A) (x : A) → find q xs ≡ some x → p x ≡ true → any p xs ≡ true
  found-any p q [] x h e = cc
  found-any p q (y ∷ ys) x h e = elim (Bool-cases (q y)) [
    | inl here ↦ let same : y ≡ x = ground arith in rw same (ground (arith, e))
    | inr other ↦ ground (arith, found-any p q ys x (rw other at h) e)
  ]

  pub find-none : (q : A → Bool) (xs : List A) → find q xs ≡ none → All (λ x. q x ≡ false) xs
  find-none q [] h = tt
  find-none q (y ∷ ys) h = elim (Bool-cases (q y)) [
    | inl here ↦ absurd (let found = rw here at h in cc)
    | inr other ↦ (other, find-none q ys (rw other at h))
  ]

  pub map-compose :
      (f g h : A → A) (xs : List A) → ((x : A) → g (f x) ≡ h x) → map g (map f xs) ≡ map h xs
  map-compose f g h [] e = refl
  map-compose f g h (x ∷ xs) e = ground (arith, e x, map-compose f g h xs e)

  pub map-same : (f : A → A) (xs : List A) → ((x : A) → f x ≡ x) → map f xs ≡ xs
  map-same f [] e = refl
  map-same f (x ∷ xs) e = ground (arith, e x, map-same f xs e)

  pub map-All : (f g : A → A) (xs : List A) → All (λ x. f x ≡ g x) xs → map f xs ≡ map g xs
  map-All f g [] e = refl
  map-All f g (x ∷ xs) e = ground (arith, map-All f g xs e.1)

  pub all-insert :
      (p : A → Bool) (le : A → A → Bool) (x : A) (ys : List A)
      → all p (insert le x ys) ≡ (p x && all p ys)
  all-insert p le x [] = refl
  all-insert p le x (y ∷ ys) = ground (arith, all-insert p le x ys)

  pub all-sort : (p : A → Bool) (le : A → A → Bool) (xs : List A) → all p (sort le xs) ≡ all p xs
  all-sort p le [] = refl
  all-sort p le (x ∷ xs) = ground (arith, all-insert p le x (sort le xs), all-sort p le xs)

  pub all-keep :
      (p q : A → Bool) (xs : List A)
      → all p (keep q xs) ≡ true
      → All (λ x. q x ≡ true → p x ≡ true) xs
  all-keep p q [] h = tt
  all-keep p q (x ∷ xs) h = ((λ e. ground arith), all-keep p q xs (ground arith))

module _ {ℓ κ} {A : Type κ} (P : A → Type ℓ) where
  pub All-keep : (q : A → Bool) (xs : List A) → All P xs → All (λ x. P x × (q x ≡ true)) (keep q xs)
  All-keep q [] h = tt
  All-keep q (x ∷ xs) h = elim (Bool-cases (q x)) [
    | inl stays ↦ rw stays ((h.0, stays), All-keep q xs h.1)
    | inr goes ↦ rw goes (All-keep q xs h.1)
  ]

  All-insert : (le : A → A → Bool) (x : A) (ys : List A) → P x → All P ys → All P (insert le x ys)
  All-insert le x [] here h = (here, tt)
  All-insert le x (y ∷ ys) here h = elim (Bool-cases (le x y)) [
    | inl below ↦ rw below (here, h)
    | inr above ↦ rw above (h.0, All-insert le x ys here h.1)
  ]

  pub All-sort : (le : A → A → Bool) (xs : List A) → All P xs → All P (sort le xs)
  All-sort le [] h = tt
  All-sort le (x ∷ xs) h = All-insert le x (sort le xs) h.0 (All-sort le xs h.1)

-- Some row has the id.
abbrev pub has_id : ℕ → List Task → Bool
has_id i tasks = any (λ t. eqb t.id i) tasks

-- The primary key: no id occurs twice.
abbrev pub HasUniqueIds : List Task → Type 0
HasUniqueIds [] = Unit
HasUniqueIds (t ∷ ts) = (has_id t.id ts ≡ false) × HasUniqueIds ts

pub other_ids : (i : ℕ) (ts : List Task) → has_id i ts ≡ false → All (λ r. eqb i r.id ≡ false) ts
other_ids i [] h = tt
other_ids i (t ∷ ts) h = (ground arith, other_ids i ts (ground arith))

has_id-keep :
    (p : Task → Bool) (i : ℕ) (ts : List Task) → has_id i ts ≡ false → has_id i (keep p ts) ≡ false
has_id-keep p i [] h = refl
has_id-keep p i (t ∷ ts) h = ground (arith, has_id-keep p i ts)

-- With unique ids the id of a row is kept exactly when the row is.
pub has_id-keep_self :
    (p : Task → Bool) (ts : List Task)
    → HasUniqueIds ts
    → All (λ r. has_id r.id (keep p ts) ≡ p r) ts
has_id-keep_self p [] unique = tt
has_id-keep_self p (t ∷ ts) unique = (
  ground (arith, has_id-keep p t.id ts),
  All-zip ts (other_ids t.id ts unique.0) (has_id-keep_self p ts unique.1),
)
  where
    All-zip :
        (rs : List Task)
        → All (λ r. eqb t.id r.id ≡ false) rs
        → All (λ r. has_id r.id (keep p ts) ≡ p r) rs
        → All (λ r. has_id r.id (keep p (t ∷ ts)) ≡ p r) rs
    All-zip [] h k = tt
    All-zip (r ∷ rs) h k = (ground arith, All-zip rs h.1 k.1)

-- An update that leaves the ids alone.
pub has_id-map :
    (f : Task → Task) (i : ℕ) (ts : List Task)
    → ((t : Task) → (f t).id ≡ t.id)
    → has_id i (map f ts) ≡ has_id i ts
has_id-map f i [] h = refl
has_id-map f i (t ∷ ts) h = ground (arith, h t, has_id-map f i ts h)

pub HasUniqueIds-map :
    (f : Task → Task) (ts : List Task)
    → ((t : Task) → (f t).id ≡ t.id)
    → HasUniqueIds ts
    → HasUniqueIds (map f ts)
HasUniqueIds-map f [] h unique = tt
HasUniqueIds-map f (t ∷ ts) h unique =
    (ground (arith, h t, has_id-map f t.id ts h), HasUniqueIds-map f ts h unique.1)

-- A row that is found is one of the rows.
pub found_row {ℓ κ} :
    {A : Type κ} (P : A → Type ℓ) (p : A → Bool) (ts : List A) (t : A)
    → All P ts
    → find p ts ≡ some t
    → P t
found_row P p [] t h e = cc
found_row P p (r ∷ ts) t h e = elim (Bool-cases (p r)) [
  | inl this ↦ subst P (same this) h.0
  | inr other ↦ found_row P p ts t h.1 (rw other at e)
]
  where
    same : p r ≡ true → r ≡ t
    same this = ground arith
