-- ===== src/Dag/Levels/Waves.antt =====
-- The waves of `execution_levels`: each task stands in the level of its depth.
use Prim.Native.Nat.{max}
use auto_bot.Dag.Graph.{
  ids, find_spec, find-count, find-count_pos, HasUniqueIds, KnowsDeps, IsRanked, IsOrder,
}
use auto_bot.Dag.Levels.{
  deepest, spec_depth, depths, level_count, empty_levels, append_at, place, execution_levels,
}
use auto_bot.Dag.Levels.Depths.{IsDepth, depths_lem}
use auto_bot.Dag.Order.{topological_order}
use auto_bot.Dag.Order.Correct.{topological_order_iff, topological_order-IsOrder}
use auto_bot.Dag.Spec.{TaskSpec, ok, >>=-eq-ok}
use auto_bot.Prelude.Dict.{Dict, get}
use auto_bot.Prelude.Names.{mem, mem-eq-count}
use auto_bot.Prelude.{
  eq_refl, true, false, All-map, append_assoc, append-nil, inr, sym, refl, inl, ◌∙◌, eqb, zero,
  Option-cases, ap, ◌==◌, keep, if◌then◌else◌, none, arith, [], Bool-cases, ◌++◌, suc, some, length,
  All, ◌≡◌, ◌<◌, ◌∷◌, List, String, Option, ℕ,
}

-- levels[j], and no task beyond the end.
abbrev pub level_at : ℕ → List (List String) → List String
level_at j [] = []
level_at zero (level ∷ levels) = level
level_at (suc j) (level ∷ levels) = level_at j levels

abbrev or_zero : Option ℕ → ℕ
or_zero none = 0
or_zero (some v) = v

abbrev depth_of : Dict ℕ → String → ℕ
depth_of depth x = or_zero (get depth x)

-- The greatest depth among the dependencies.
abbrev pub deepest_of : (String → ℕ) → List String → ℕ
deepest_of rank [] = 0
deepest_of rank (d ∷ deps) = max (rank d) (deepest_of rank deps)

-- What a task's depth is to be: none of its dependencies is as deep, and one is but one level above.
abbrev pub depth_after : (String → ℕ) → List String → ℕ
depth_after rank [] = 0
depth_after rank (d ∷ deps) = suc (deepest_of rank (d ∷ deps))

append_at_lem :
    (i : ℕ) (id : String) (levels : List (List String))
    → i < length levels
    → (levels' : List (List String)) × (append_at i id levels ≡ ok levels')
      × (length levels' ≡ length levels)
      × ((j : ℕ) → level_at j levels' ≡ level_at j levels ++ (if eqb i j then id ∷ [] else []))
unfolding append_at
append_at_lem i id [] h = absurd (omega arith)
append_at_lem zero id (level ∷ levels) h = ((level ++ id ∷ []) ∷ levels, refl, refl, first)
  where
    first :
        (j : ℕ)
        → level_at j ((level ++ id ∷ []) ∷ levels)
          ≡ level_at j (level ∷ levels) ++ (if eqb 0 j then id ∷ [] else [])
    first zero = refl
    first (suc j) =
        let other : eqb 0 (suc j) ≡ false = ground arith in
        rw other (sym (append-nil (level_at j levels)))
append_at_lem (suc i) id (level ∷ levels) h =
    let (levels', appended, same, at) = append_at_lem i id levels (omega arith) in
    (level ∷ levels', rw appended refl, ap suc same, later levels' at)
  where
    later :
        (levels' : List (List String))
        → ((j : ℕ) → level_at j levels' ≡ level_at j levels ++ (if eqb i j then id ∷ [] else []))
        → (j : ℕ)
        → level_at j (level ∷ levels')
          ≡ level_at j (level ∷ levels) ++ (if eqb (suc i) j then id ∷ [] else [])
    later levels' at zero =
        let other : eqb (suc i) 0 ≡ false = ground arith in rw other (sym (append-nil level))
    later levels' at (suc j) =
        let same : eqb (suc i) (suc j) ≡ eqb i j = ground arith in rw same (at j)

-- A task has a depth for which there is a level.
abbrev HasLevel : Dict ℕ → List (List String) → TaskSpec → Type 0
HasLevel depth levels s = (v : ℕ) × (get depth s.id ≡ some v) × (v < length levels)

place_lem :
    (specs : List TaskSpec) (depth : Dict ℕ) (levels : List (List String))
    → All (HasLevel depth levels) specs
    → (levels' : List (List String)) × (place specs depth levels ≡ ok levels')
      × ((j : ℕ)
          → level_at j levels'
            ≡ level_at j levels ++ ids (keep (λ s. eqb (depth_of depth s.id) j) specs))
unfolding place
place_lem [] depth levels h = (levels, refl, λ j. sym (append-nil (level_at j levels)))
place_lem (s ∷ specs) depth levels h =
    let (v, stored, inside) = h.0 in
    let (levels₁, appended, same, at) = append_at_lem v s.id levels inside in
    let (levels₂, placed, after) =
      place_lem specs depth levels₁
        (All-map (λ t (u, there, low). (u, there, omega (arith, same))) specs h.1) in
    (levels₂, rw (stored, appended) placed, λ j. after j ∙ joined v stored levels₁ j (at j))
  where
    joined :
        (v : ℕ)
        → get depth s.id ≡ some v
        → (levels₁ : List (List String)) → (j : ℕ)
        → level_at j levels₁ ≡ level_at j levels ++ (if eqb v j then s.id ∷ [] else [])
        → level_at j levels₁ ++ ids (keep (λ t. eqb (depth_of depth t.id) j) specs)
          ≡ level_at j levels ++ ids (keep (λ t. eqb (depth_of depth t.id) j) (s ∷ specs))
    joined v stored levels₁ j at = elim (Bool-cases (eqb v j)) [
      | inl here ↦ rw (stored, here, rw here at at) (append_assoc (level_at j levels) (s.id ∷ []) _)
      | inr other ↦
          rw (stored, other, rw other at at)
            (ap (λ l. l ++ ids (keep (λ t. eqb (depth_of depth t.id) j) specs))
              (append-nil (level_at j levels)))
    ]

level_count-bound :
    (depth : Dict ℕ) (x : String) (v : ℕ) → get depth x ≡ some v → v < level_count depth
unfolding level_count
level_count-bound [] x v h = cc
level_count-bound ((k, w) ∷ depth) x v h = elim (Bool-cases (k == x)) [
  | inl here ↦ let same : w ≡ v = ground arith in omega arith
  | inr other ↦ let low = level_count-bound depth x v (rw other at h) in omega arith
]

length-empty_levels : (n : ℕ) → length (empty_levels n) ≡ n
unfolding empty_levels
length-empty_levels zero = refl
length-empty_levels (suc n) = ap suc (length-empty_levels n)

level_at-empty_levels : (n j : ℕ) → level_at j (empty_levels n) ≡ []
unfolding empty_levels
level_at-empty_levels zero j = refl
level_at-empty_levels (suc n) zero = refl
level_at-empty_levels (suc n) (suc j) = level_at-empty_levels n j

deepest-rank :
    (depth : Dict ℕ) (deps : List String) (m : ℕ)
    → deepest depth deps ≡ ok m
    → deepest_of (depth_of depth) deps ≡ m
unfolding deepest
deepest-rank depth [] m h = ground arith
deepest-rank depth (d ∷ deps) m h = elim (Option-cases (get depth d)) [
  | inl gone ↦ absurd (let wrong = rw gone at h in cc)
  | inr (v, found) ↦
      let (k, deeper, last) = >>=-eq-ok _ (deepest depth deps) (rw found at h) in
      rw (found, deepest-rank depth deps k deeper) (ground arith)
]

spec_depth-rank :
    (depth : Dict ℕ) (deps : List String) (m : ℕ)
    → spec_depth depth deps ≡ ok m
    → depth_after (depth_of depth) deps ≡ m
unfolding spec_depth
spec_depth-rank depth [] m h = ground arith
spec_depth-rank depth (d ∷ deps) m h =
    let (k, found, last) = >>=-eq-ok _ (deepest depth (d ∷ deps)) h in
    ap suc (deepest-rank depth (d ∷ deps) k found) ∙ ground arith

All-ids :
    (P : String → Type 0) (specs : List TaskSpec)
    → ((x : String) → mem x (ids specs) ≡ true → P x)
    → All (λ s. P s.id) specs
All-ids P [] h = tt
All-ids P (s ∷ specs) h =
    (h s.id (ground (arith, eq_refl s.id)), All-ids P specs (λ x e. h x (ground arith)))

mem-found :
    (x : String) (specs : List TaskSpec) (order : List String)
    → IsOrder specs order
    → mem x order ≡ true
    → (s : TaskSpec) × (find_spec x specs ≡ some s)
mem-found x specs order h listed = elim (Option-cases (find_spec x specs)) [
  | inl gone ↦ absurd (ground (arith, find-count x specs gone, h.complete x, mem-eq-count x order))
  | inr found ↦ found
]

new-IsDepth : (specs : List TaskSpec) → IsDepth specs [] []
new-IsDepth specs = record {
  filled = λ x h. absurd (cc);
  fresh = λ x h. refl;
  exact = λ x v s h e. absurd (cc);
}

module _ (specs : List TaskSpec) (unique : HasUniqueIds specs) (known : KnowsDeps specs) where
  depths-order :
      (order : List String)
      → topological_order specs ≡ ok order
      → (depth : Dict ℕ) × (depths specs order [] ≡ ok depth) × IsDepth specs order depth
  depths-order order h =
      let sorted = topological_order-IsOrder specs unique known order h in
      depths_lem specs [] order [] sorted.ordered (λ x. omega (arith, sorted.complete x, unique x))
        (λ x listed. mem-found x specs order sorted listed) (new-IsDepth specs)

  leveled :
      (order : List String) (depth : Dict ℕ)
      → IsOrder specs order
      → IsDepth specs order depth
      → All (HasLevel depth (empty_levels (level_count depth))) specs
  leveled order depth in_order inv =
      All-ids
        (λ x. (v : ℕ) × (get depth x ≡ some v) × (v < length (empty_levels (level_count depth))))
        specs here
    where
      here :
          (x : String)
          → mem x (ids specs) ≡ true
          → (v : ℕ) × (get depth x ≡ some v) × (v < length (empty_levels (level_count depth)))
      here x listed =
          let (v, stored) = inv.filled x (
            ground
              (arith, mem-eq-count x (ids specs), mem-eq-count x order, in_order.complete x)) in
          (
            v,
            stored,
            omega (
              arith,
              length-empty_levels (level_count depth),
              level_count-bound depth x v stored,
            ),
          )

  depth-exact :
      (order : List String) (depth : Dict ℕ)
      → IsOrder specs order
      → IsDepth specs order depth
      → (x : String) (s : TaskSpec) → find_spec x specs ≡ some s
      → depth_of depth x ≡ depth_after (depth_of depth) s.depends_on
  depth-exact order depth in_order inv x s found =
      let (v, stored) = inv.filled x (
        ground
          (arith, find-count_pos x specs s found, mem-eq-count x order, in_order.complete x)) in
      ap or_zero stored ∙ sym (spec_depth-rank depth s.depends_on v (inv.exact x v s stored found))

  -- For tasks with unique ids, all of whose dependencies are tasks, and without a cycle: the levels
  -- are returned, and there is a depth of the tasks such that each level holds the ids of its depth, in
  -- the order of the definition, and a task's depth is 0 if it has no dependency, and otherwise one
  -- more than the greatest depth of its dependencies.
  pub execution_levels_lem :
      (rank : String → ℕ)
      → IsRanked rank specs
      → (levels : List (List String)) × (depth : String → ℕ) × (execution_levels specs ≡ ok levels)
        × ((j : ℕ) → level_at j levels ≡ ids (keep (λ s. eqb (depth s.id) j) specs))
        × ((x : String) (s : TaskSpec)
            → find_spec x specs ≡ some s
            → depth x ≡ depth_after depth s.depends_on)
  unfolding execution_levels
  execution_levels_lem rank ranked =
      let (order, sorted) = (topological_order_iff specs unique known).1 (rank, ranked) in
      let (depth, deep, inv) = depths-order order sorted in
      let in_order = topological_order-IsOrder specs unique known order sorted in
      let count = level_count depth in
      let (levels, placed, at) =
        place_lem specs depth (empty_levels count) (leveled order depth in_order inv) in
      (
        levels,
        depth_of depth,
        rw (sorted, deep, placed) refl,
        (λ j. at j ∙ rw (level_at-empty_levels count j) refl),
        (λ x s found. depth-exact order depth in_order inv x s found),
      )
