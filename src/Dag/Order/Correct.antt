-- ===== src/Dag/Order/Correct.antt =====
-- `topological_order` finds an order of the tasks exactly when the graph has no cycle.
use auto_bot.Prelude.{
  ℕ, zero, suc, ◌≤◌, ◌<◌, ◌≡◌, sym, ◌∙◌, ap, subst, String, List, [], ◌∷◌, ◌++◌, Option, some, true,
  false, ◌⊎◌, ◌↔◌, inl, inr, if◌then◌else◌, ◌==◌, eqb, eqb_iff, arith, eq_iff, Option-cases, length,
  Bool-cases, length-map, All, append-nil,
}
use auto_bot.Prelude.Names.{
  mem, count, mem-append, mem-eq-count, length-le_of_count, count-eq_of_length,
}
use auto_bot.Dag.Spec.{TaskSpec, ok, err, cycle}
use auto_bot.Dag.Graph.{
  find-count, find-count_pos, ids, find_spec, HasUniqueIds, KnowsDeps, IsRanked, IsOrder, IsOrdered,
  waiting, Within-waiting, Within,
}
use auto_bot.Dag.Order.{order_index, stuck, topological_order}
use auto_bot.Dag.Order.Kahn.{waits, need, free}
use auto_bot.Dag.Order.Start.{topological_order_cases, count-le-ids, find-ne-none}

pub find-All {ℓ} :
    (P : TaskSpec → Type ℓ) (x : String) (specs : List TaskSpec) (s : TaskSpec)
    → All P specs
    → find_spec x specs ≡ some s
    → P s
find-All P x [] s h e = cc
find-All P x (t ∷ specs) s h e = elim (Bool-cases (t.id == x)) [
  | inl same ↦ subst P (first same) h.0
  | inr other ↦ find-All P x specs s h.1 (rw other at e)
]
  where
    first : t.id == x ≡ true → t ≡ s
    first same = ground arith

-- Where a task stands in an order.
abbrev position : String → List String → ℕ
position x [] = 0
position x (y ∷ ys) = if y == x then 0 else suc (position x ys)

module _ (specs : List TaskSpec) where
  position-lt :
      (seen xs : List String) (x d : String) (s : TaskSpec)
      → IsOrdered specs seen xs
      → find_spec x specs ≡ some s
      → mem x xs ≡ true
      → mem d s.depends_on ≡ true
      → (mem d seen ≡ true) ⊎ (position d xs < position x xs)
  position-lt seen [] x d s h e m dep = cc
  position-lt seen (y ∷ xs) x d s h e m dep = elim (Bool-cases (y == x)) [
    | inl same ↦
        inl (h.0 s (subst (λ z. find_spec z specs ≡ some s) (sym ((eq_iff y x).0 same)) e) d dep)
    | inr other ↦ elim (position-lt (seen ++ y ∷ []) xs x d s h.1 e (rw other at m) dep) [
      | inl before ↦ seen_or_here other before
      | inr less ↦ inr (ground arith)
    ]
  ]
    where
      seen_or_here :
          y == x ≡ false
          → mem d (seen ++ y ∷ []) ≡ true
          → (mem d seen ≡ true) ⊎ (position d (y ∷ xs) < position x (y ∷ xs))
      seen_or_here other before = ground (arith, mem-append d seen (y ∷ []))

  -- An order gives a rank that falls along every dependency.
  pub IsOrder-IsRanked :
      (order : List String) → IsOrder specs order → IsRanked (λ x. position x order) specs
  IsOrder-IsRanked order o x s e d dep =
      elim (position-lt [] order x d s o.ordered e
        (ground (arith, mem-eq-count x order, o.complete x, find-count_pos x specs s)) dep) [
          | inl absent ↦ cc
          | inr less ↦ less
        ]

pub mem_placed :
    (order : List String) (x : String) (t : TaskSpec) {o : Option TaskSpec}
    → o ≡ some t
    → count x (order ++ []) ≡ free (waits order o)
    → waiting order t.depends_on ≡ 0
    → mem x order ≡ true
mem_placed order x t {o} e placed h =
    ground (arith, mem-eq-count x order, append-nil order, ap (λ o. free (waits order o)) e)

module _ (specs : List TaskSpec) (unique : HasUniqueIds specs) (known : KnowsDeps specs) where
  length-ids : length (ids specs) ≡ length specs
  length-ids = length-map specs (λ s. s.id)

  -- For tasks with unique ids, all of whose dependencies are tasks, what `topological_order` returns
  -- holds every id once, each behind its dependencies.
  pub topological_order-IsOrder :
      (order : List String) → topological_order specs ≡ ok order → IsOrder specs order
  topological_order-IsOrder order h =
      let (found, g, inv, result) = topological_order_cases specs unique known in
      elim (Bool-cases (eqb (length found) (length specs))) [
        | inl same ↦ subst (IsOrder specs) (returned same result) (record {
          complete =
              count-eq_of_length found (ids specs) (count-le-ids specs unique found g inv)
                ((eqb_iff _ _).0 same ∙ sym length-ids);
          ordered = inv.in_order;
        })
        | inr short ↦ cc
      ]
    where
      returned :
          {found : List String}
          → eqb (length found) (length specs) ≡ true
          → topological_order specs ≡ (
              if eqb (length found) (length specs)
              then ok found
              else err (cycle (stuck (order_index specs) found)))
          → found ≡ order
      returned same result = ground arith

  module _ (rank : String → ℕ) (ranked : IsRanked rank specs) where
    nothing_waits :
        (order : List String)
        → ((x : String) → count x (order ++ []) ≡ free (need specs order x))
        → (n : ℕ) (x : String) (s : TaskSpec) → rank x < n
        → find_spec x specs ≡ some s
        → waiting order s.depends_on ≡ 0
    nothing_waits order placed zero x s h e = absurd (omega arith)
    nothing_waits order placed (suc n) x s h e = Within-waiting order s.depends_on λ d dep.
        elim (Option-cases (find_spec d specs)) [
          | inl missing ↦ absurd (
              find-ne-none d specs
                (find-All (λ t. Within (ids specs) t.depends_on) x specs s known e d dep) missing)
          | inr (t, found) ↦
              mem_placed order d t found (placed d)
                (nothing_waits order placed n d t (omega (arith, ranked x s e d dep)) found)
        ]

    all_placed :
        (order : List String)
        → ((x : String) → count x (order ++ []) ≡ free (need specs order x))
        → (x : String) → count x (ids specs) ≤ count x order
    all_placed order placed x = elim (Option-cases (find_spec x specs)) [
      | inl missing ↦ omega (arith, find-count x specs missing)
      | inr (s, found) ↦
          let here =
            mem_placed order x s found (placed x)
              (nothing_waits order placed (suc (rank x)) x s (omega arith) found) in
          ground (arith, mem-eq-count x order, unique x)
    ]

    -- Without a cycle every task comes to stand in the result.
    pub topological_order-total : (order : List String) × (topological_order specs ≡ ok order)
    topological_order-total =
        let (order, g, inv, result) = topological_order_cases specs unique known in
        let same : length order ≡ length specs = omega (
          arith,
          length-ids,
          length-le_of_count (ids specs) order (all_placed order inv.placed),
          length-le_of_count order (ids specs) (count-le-ids specs unique order g inv),
        ) in
        (order, rw ((eqb_iff _ _).1 same) at result)

  -- For tasks with unique ids, all of whose dependencies are tasks, the sort returns exactly when the
  -- dependencies can be ranked, that is, when the graph has no cycle.
  pub topological_order_iff :
      ((order : List String) × (topological_order specs ≡ ok order))
      ↔ ((rank : String → ℕ) × IsRanked rank specs)
  topological_order_iff = (
    λ (order, h).
        ((λ x. position x order), IsOrder-IsRanked specs order (topological_order-IsOrder order h)),
    λ (rank, ranked). topological_order-total rank ranked,
  )
