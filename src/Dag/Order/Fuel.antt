-- ===== src/Dag/Order/Fuel.antt =====
-- The loop of `topological_order` ends within its rounds, whatever the graph.
use auto_bot.Prelude.{
  ℕ, zero, suc, ◌+◌, ◌≤◌, ◌≡◌, ◌≢◌, String, List, [], ◌∷◌, ◌++◌, map, Option, none, some, Bool,
  true, false, length, keep, eqb, if◌then◌else◌, arith, length-append, length-keep, length-map,
  Option-cases, inl, inr,
}
use auto_bot.Prelude.Int.{ℤ, pos, negsuc, pred_ℤ, is_zero}
use auto_bot.Prelude.Dict.{Dict, get, put, length-put_all}
use auto_bot.Prelude.Sort.{sort, length-sort}
use auto_bot.Dag.Spec.{TaskSpec, cycle, out_of_fuel, ok, err, or_key_error, >>=-eq-err}
use auto_bot.Dag.Graph.{ids}
use auto_bot.Dag.Order.{
  degree_entry, no_dependents, indegrees, relax, drain, link_deps, link, before, zero_at,
  order_index, first_ready, rounds, topological_order,
}

-- 1 for a positive in-degree.
abbrev sign : ℤ → ℕ
sign (pos (suc n)) = 1
sign _ = 0

-- The number of tasks that may still become ready.
abbrev positives : Dict ℤ → ℕ
positives [] = 0
positives ((k, v) ∷ d) = sign v + positives d

positives-put :
    (d : Dict ℤ) (k : String) (v w : ℤ)
    → get d k ≡ some v
    → positives (put d k w) + sign v ≡ positives d + sign w
positives-put [] k v w h = cc
positives-put ((j, u) ∷ d) k v w h = ground (arith, positives-put d k v w)

positives-le-length : (d : Dict ℤ) → positives d ≤ length d
positives-le-length [] = omega arith
positives-le-length ((k, pos zero) ∷ d) = omega (arith, positives-le-length d)
positives-le-length ((k, pos (suc n)) ∷ d) = omega (arith, positives-le-length d)
positives-le-length ((k, negsuc n) ∷ d) = omega (arith, positives-le-length d)

sign-pred : (v : ℤ) → sign (pred_ℤ v) + (if is_zero (pred_ℤ v) then 1 else 0) ≤ sign v
sign-pred (pos zero) = omega arith
sign-pred (pos (suc zero)) = omega arith
sign-pred (pos (suc (suc n))) = omega arith
sign-pred (negsuc n) = omega arith

length-snoc_if :
    (b : Bool) (xs : List String) (x : String)
    → length (if b then xs ++ x ∷ [] else xs) ≡ length xs + (if b then 1 else 0)
length-snoc_if true xs x = omega (arith, length-append xs (x ∷ []))
length-snoc_if false xs x = omega arith

-- What becomes ready is taken from the positive in-degrees.
relax-positives :
    (ds : List String) (g : Dict ℤ) (r : List String) (g' : Dict ℤ) (r' : List String)
    → relax ds g r ≡ ok (g', r')
    → positives g' + length r' ≤ positives g + length r
unfolding relax
relax-positives [] g r g' r' h = ground arith
relax-positives (d ∷ ds) g r g' r' h = elim (Option-cases (get g d)) [
  | inl missing ↦ cc
  | inr (v, found) ↦
      let w = pred_ℤ v in
      let r₁ = if is_zero w then r ++ d ∷ [] else r in
      omega (
        arith,
        relax-positives ds (put g d w) r₁ g' r' (rw found at h),
        positives-put g d v w found,
        length-snoc_if (is_zero w) r d,
        sign-pred v,
      )
]

or_key_error-no_fuel {ℓ} :
    {A : Type ℓ} (k : String) (o : Option A) → or_key_error k o ≢ err out_of_fuel
or_key_error-no_fuel k none h = cc
or_key_error-no_fuel k (some a) h = cc

relax-no_fuel : (ds : List String) (g : Dict ℤ) (r : List String) → relax ds g r ≢ err out_of_fuel
unfolding relax
relax-no_fuel [] g r h = cc
relax-no_fuel (d ∷ ds) g r h = elim (>>=-eq-err _ (or_key_error d (get g d)) h) [
  | inl missing ↦ or_key_error-no_fuel d (get g d) missing
  | inr (v, _, h') ↦ relax-no_fuel ds _ _ h'
]

module _ (dependents : Dict (List String)) (index : Dict ℕ) where
  drain-no_fuel :
      (fuel : ℕ) (g : Dict ℤ) (ready ordered : List String)
      → positives g + length ready ≤ fuel
      → drain fuel dependents index g ready ordered ≢ err out_of_fuel
  unfolding drain
  drain-no_fuel fuel g [] ordered fits h = cc
  drain-no_fuel zero g (x ∷ ready) ordered fits h = absurd (omega arith)
  drain-no_fuel (suc fuel) g (x ∷ ready) ordered fits h =
      elim (>>=-eq-err _ (or_key_error x (get dependents x)) h) [
        | inl missing ↦ or_key_error-no_fuel x (get dependents x) missing
        | inr (ds, _, h') ↦ elim (>>=-eq-err _ (relax ds g []) h') [
          | inl failed ↦ relax-no_fuel ds g [] failed
          | inr ((g', newly), done, h'') ↦
              drain-no_fuel fuel g' (ready ++ sort (before index) newly) _
                (omega (
                  arith,
                  relax-positives ds g [] g' newly done,
                  length-append ready (sort (before index) newly),
                  length-sort (before index) newly,
                ))
                h''
        ]
      ]

link_deps-no_fuel :
    (id : String) (deps : List String) (d : Dict (List String))
    → link_deps id deps d ≢ err out_of_fuel
unfolding link_deps
link_deps-no_fuel id [] d h = cc
link_deps-no_fuel id (dep ∷ deps) d h = elim (>>=-eq-err _ (or_key_error dep (get d dep)) h) [
  | inl missing ↦ or_key_error-no_fuel dep (get d dep) missing
  | inr (old, _, h') ↦ link_deps-no_fuel id deps _ h'
]

link-no_fuel : (specs : List TaskSpec) (d : Dict (List String)) → link specs d ≢ err out_of_fuel
unfolding link
link-no_fuel [] d h = cc
link-no_fuel (s ∷ specs) d h = elim (>>=-eq-err _ (link_deps s.id s.depends_on d) h) [
  | inl failed ↦ link_deps-no_fuel s.id s.depends_on d failed
  | inr (d', _, h') ↦ link-no_fuel specs d' h'
]

start_fits :
    (specs : List TaskSpec)
    → positives (indegrees specs) + length (first_ready specs) ≤ rounds specs
unfolding indegrees
start_fits specs =
    let ready = keep (zero_at (indegrees specs)) (ids specs) in
    omega (
      arith,
      positives-le-length (indegrees specs),
      length-put_all {V = ℤ} [] (map degree_entry specs),
      length-map specs degree_entry,
      length-sort (before (order_index specs)) ready,
      length-keep (zero_at (indegrees specs)) (ids specs),
      length-map specs (λ s. s.id),
    )

-- The loop is never cut off: `topological_order` returns an order, or raises an error of its own.
pub topological_order-no_fuel : (specs : List TaskSpec) → topological_order specs ≢ err out_of_fuel
unfolding topological_order
topological_order-no_fuel specs h = elim (>>=-eq-err _ (link specs (no_dependents specs)) h) [
  | inl failed ↦ link-no_fuel specs (no_dependents specs) failed
  | inr (dependents, _, h') ↦
      let index = order_index specs in
      let g = indegrees specs in
      let loop = drain (rounds specs) dependents index g (first_ready specs) [] in
      elim (>>=-eq-err _ loop h') [
        | inl cut ↦ drain-no_fuel dependents index _ g (first_ready specs) [] (start_fits specs) cut
        | inr (ordered, _, h'') ↦ last_test (eqb (length ordered) (length specs)) ordered _ h''
      ]
]
  where
    last_test :
        (b : Bool) (xs ys : List String) → (if b then ok xs else err (cycle ys)) ≢ err out_of_fuel
    last_test true xs ys e = cc
    last_test false xs ys e = cc
