-- ===== src/Dag/Order/Stuck.antt =====
-- The tasks that the error of `topological_order` names.
use auto_bot.Prelude.{
  ℕ, ◌+◌, ◌≤◌, ◌≡◌, ◌≢◌, refl, ap, subst, String, List, [], ◌∷◌, ◌++◌, some, true, false, not, inl,
  inr, if◌then◌else◌, ◌==◌, ◌&&◌, ◌||◌, eqb, eqb_iff, arith, eq_iff, eq_refl, Option-cases, length,
  keep, Bool-cases, length-map,
}
use auto_bot.Prelude.Names.{mem, count, mem-eq-count, length-le_of_count}
use auto_bot.Prelude.Dict.{Dict, put, put_all, keys}
use auto_bot.Prelude.Sort.{count-sort}
use auto_bot.Dag.Spec.{TaskSpec, ok, err, cycle}
use auto_bot.Dag.Graph.{ids, find_spec, HasUniqueIds, KnowsDeps, waiting, Within}
use auto_bot.Dag.Order.{order_index, enumerate, stuck, string_le, topological_order}
use auto_bot.Dag.Order.Kahn.{need, free}
use auto_bot.Dag.Order.Start.{topological_order_cases, count-le-ids, find-ne-none, count-keep}
use auto_bot.Dag.Order.Correct.{find-All, mem_placed}

mem-keys-put :
    {V : Type 0} (d : Dict V) (k : String) (v : V) (x : String)
    → mem x (keys (put d k v)) ≡ (k == x || mem x (keys d))
mem-keys-put [] k v x = refl
mem-keys-put ((j, w) ∷ d) k v x = ground (arith, mem-keys-put d k v x, eq_iff j k)

mem-keys-enumerate :
    (d : Dict ℕ) (i : ℕ) (specs : List TaskSpec) (x : String)
    → mem x (keys (put_all d (enumerate i specs))) ≡ (mem x (keys d) || mem x (ids specs))
mem-keys-enumerate d i [] x = ground arith
mem-keys-enumerate d i (s ∷ specs) x =
    ground (arith, mem-keys-enumerate (put d s.id i) (i + 1) specs x, mem-keys-put d s.id i x)

-- The stuck names are the ids that the loop did not reach.
mem-stuck :
    (specs : List TaskSpec) (order : List String) (x : String)
    → mem x (stuck (order_index specs) order) ≡ (mem x (ids specs) && not (mem x order))
unfolding stuck order_index
mem-stuck specs order x =
    let names = keys (order_index specs) in
    let left = λ (y : String). not (mem y order) in
    ground (
      arith,
      mem-eq-count x (stuck (order_index specs) order),
      count-sort string_le x (keep left names),
      count-keep left x names,
      mem-eq-count x names,
      mem-keys-enumerate [] 0 specs x,
    )

-- A task that waits for something has a dependency that is not done.
first_missing :
    (done deps : List String)
    → waiting done deps ≢ 0
    → (d : String) × (mem d deps ≡ true) × (mem d done ≡ false)
first_missing done [] h = absurd (h refl)
first_missing done (d ∷ deps) h = elim (Bool-cases (mem d done)) [
  | inl here ↦
      let (e, dep, missing) = first_missing done deps (λ z. h (ground arith)) in
      (e, ground arith, missing)
  | inr missing ↦ (d, ground (arith, eq_refl d), missing)
]

-- A reported task, and a dependency of it that is reported too.
abbrev pub DependsWithin : List TaskSpec → List String → String → Type 0
DependsWithin specs names x =
    (s : TaskSpec) × (d : String) × (find_spec x specs ≡ some s)
    × (mem d s.depends_on ≡ true)
    × (mem d names ≡ true)

module _ (specs : List TaskSpec) (unique : HasUniqueIds specs) (known : KnowsDeps specs)
    (order : List String)
    (placed : (x : String) → count x (order ++ []) ≡ free (need specs order x)) where
  stuck-nonempty :
      length order ≤ length specs
      → length order ≢ length specs
      → stuck (order_index specs) order ≢ []
  stuck-nonempty at_most short e =
      short
        (omega (arith, length-map specs (λ s. s.id), length-le_of_count (ids specs) order all_in))
    where
      all_in : (x : String) → count x (ids specs) ≤ count x order
      all_in x = ground (
        arith,
        mem-stuck specs order x,
        ap (mem x) e,
        mem-eq-count x (ids specs),
        mem-eq-count x order,
        unique x,
      )

  stuck-DependsWithin :
      (x : String)
      → mem x (stuck (order_index specs) order) ≡ true
      → DependsWithin specs (stuck (order_index specs) order) x
  stuck-DependsWithin x m = elim (Option-cases (find_spec x specs)) [
    | inl missing ↦ absurd (find-ne-none x specs (ground (arith, mem-stuck specs order x)) missing)
    | inr (s, found) ↦
        let (d, dep, missing) =
          first_missing order s.depends_on
            (λ z. absurd (not_placed (mem_placed order x s found (placed x) z))) in
        (
          s,
          d,
          found,
          dep,
          ground (
            arith,
            mem-stuck specs order d,
            find-All (λ t. Within (ids specs) t.depends_on) x specs s known found d dep,
          ),
        )
  ]
    where
      not_placed : mem x order ≡ true → ⊥
      not_placed here = ground (arith, mem-stuck specs order x)

module _ (specs : List TaskSpec) (unique : HasUniqueIds specs) (known : KnowsDeps specs) where
  -- For tasks with unique ids, all of whose dependencies are tasks: where the sort reports a cycle it
  -- names at least one task, and each task that it names depends on a task that it names.
  pub cycle-closed :
      (names : List String)
      → topological_order specs ≡ err (cycle names)
      → (names ≢ []) × ((x : String) → mem x names ≡ true → DependsWithin specs names x)
  cycle-closed names h =
      let (order, g, inv, result) = topological_order_cases specs unique known in
      let at_most = length-le_of_count order (ids specs) (count-le-ids specs unique order g inv) in
      elim (Bool-cases (eqb (length order) (length specs))) [
        | inl same ↦ cc
        | inr short ↦
            subst (λ l. (l ≢ []) × ((x : String) → mem x l ≡ true → DependsWithin specs l x))
              (named order short result)
              (
                stuck-nonempty specs unique known order inv.placed
                    (omega (arith, at_most, length-map specs (λ s. s.id)))
                    (λ e. cc ((eqb_iff (length order) (length specs)).1 e)),
                stuck-DependsWithin specs unique known order inv.placed,
              )
      ]
    where
      named :
          (order : List String)
          → eqb (length order) (length specs) ≡ false
          → topological_order specs ≡ (
              if eqb (length order) (length specs)
              then ok order
              else err (cycle (stuck (order_index specs) order)))
          → stuck (order_index specs) order ≡ names
      named order short result = ground arith
