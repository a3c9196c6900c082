-- ===== src/Dag/Order/Relax.antt =====
-- The inner loop of `topological_order`: what it does to the in-degrees, and what it reports.
use auto_bot.Prelude.{
  ℕ, zero, suc, ◌+◌, ◌≡◌, refl, ◌∙◌, ap, subst, String, List, [], ◌∷◌, ◌++◌, Option, none, some,
  Bool, true, false, if◌then◌else◌, ◌==◌, arith, eq_iff, eq_refl, Option-cases, inl, inr,
}
use auto_bot.Prelude.Int.{ℤ, pos, pred_ℤ, is_zero}
use auto_bot.Prelude.Names.{count, count-append}
use auto_bot.Prelude.Dict.{Dict, get, put, get-put}
use auto_bot.Dag.Spec.{ok}
use auto_bot.Dag.Order.{relax}

-- The in-degree of a task that waits for `k` others, `n` of them about to be counted off.
abbrev pub degree : Option ℕ → ℕ → Option ℤ
degree none n = none
degree (some k) n = some (pos (k + n))

-- 1 if counting off `n` brings a task to zero.
abbrev pub released : Option ℕ → ℕ → ℕ
released (some zero) (suc n) = 1
released _ _ = 0

pub degree-zero : (o : Option ℕ) → degree o 0 ≡ elim o [ none ↦ none | some k ↦ some (pos k) ]
degree-zero none = refl
degree-zero (some k) = ap (λ n. some (pos n)) (omega arith)

pred-pos : (k n : ℕ) → pred_ℤ (pos (k + (1 + n))) ≡ pos (k + n)
pred-pos k n = subst (λ m. pred_ℤ (pos m) ≡ pos (k + n)) (sum k n) refl
  where
    sum : (k n : ℕ) → suc (k + n) ≡ k + (1 + n)
    sum k n = omega arith

count-snoc_if :
    (b : Bool) (x d : String) (r : List String)
    → count x (if b then r ++ d ∷ [] else r)
      ≡ count x r + (if b then (if d == x then 1 else 0) else 0)
count-snoc_if true x d r = omega (arith, count-append x r (d ∷ []))
count-snoc_if false x d r = omega arith

released-sum :
    (k c : ℕ)
    → released (some k) (1 + c) ≡ (if is_zero (pos (k + c)) then 1 else 0) + released (some k) c
released-sum zero zero = refl
released-sum zero (suc c) = ground arith
released-sum (suc k) c = ground arith

-- One round of the loop, at a name `x` and the name `d` that is counted off.
module _ (d x : String) (ds : List String) (k : ℕ) (o : Option ℕ)
    (same : d == x ≡ true → o ≡ some k) where
  degree-step :
      (if d == x then some (pos (k + count d ds)) else degree o (count x (d ∷ ds)))
      ≡ degree o (count x ds)
  degree-step = ground (arith, eq_iff d x)

  released-step :
      (if is_zero (pos (k + count d ds)) then (if d == x then 1 else 0) else 0)
        + released o (count x ds)
      ≡ released o (count x (d ∷ ds))
  released-step = ground (arith, eq_iff d x, released-sum k (count x ds))

found_at :
    (d : String) (ds : List String) (g : Dict ℤ) (o : Option ℕ) (k : ℕ)
    → get g d ≡ degree o (count d (d ∷ ds))
    → o ≡ some k
    → get g d ≡ some (pos (k + (1 + count d ds)))
found_at d ds g o k h e = ground (arith, eq_refl d)

-- `left x` is what `x` waits for when all of the list is counted off.
released-nil : (o : Option ℕ) (n : ℕ) → n ≡ n + released o 0
released-nil none n = omega arith
released-nil (some zero) n = omega arith
released-nil (some (suc k)) n = omega arith

pub relax_lem :
    (left : String → Option ℕ) (ds : List String) (g : Dict ℤ) (r : List String)
    → ((x : String) → get g x ≡ degree (left x) (count x ds))
    → ((x : String) → left x ≡ none → count x ds ≡ 0)
    → (g' : Dict ℤ) × (r' : List String) × (relax ds g r ≡ ok (g', r'))
      × ((x : String) → get g' x ≡ degree (left x) 0)
      × ((x : String) → count x r' ≡ count x r + released (left x) (count x ds))
unfolding relax
relax_lem left [] g r h known = (g, r, refl, h, λ x. released-nil (left x) (count x r))
relax_lem left (d ∷ ds) g r h known = elim (Option-cases (left d)) [
  | inl unknown ↦ absurd (ground (arith, known d, eq_refl d))
  | inr (k, e) ↦
      let c = count d ds in
      let w = pos (k + c) in
      let found : get g d ≡ some (pos (k + (1 + c))) = found_at d ds g (left d) k (h d) e in
      let same =
        λ (x : String) (m : d == x ≡ true). subst (λ z. left z ≡ some k) ((eq_iff d x).0 m) e in
      let (g', r', done, degrees, counts) =
        relax_lem left ds (put g d w) (if is_zero w then r ++ d ∷ [] else r)
          (λ x.
            get-put g d x w
            ∙ ap (λ o. if d == x then some w else o) (h x)
            ∙ degree-step d x ds k (left x) (same x))
          (λ x n. omega (arith, known x n)) in
      (
        g',
        r',
        rw found (rw (pred-pos k c) done),
        degrees,
        λ x. omega (
          arith,
          counts x,
          count-snoc_if (is_zero w) x d r,
          released-step d x ds k (left x) (same x),
        ),
      )
]
