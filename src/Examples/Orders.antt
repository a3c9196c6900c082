-- ===== src/Examples/Orders.antt =====
-- The theorems of app/dag.py on the example's graphs.
use auto_bot.Prelude.{some, eqb, keep, ℕ, ◌≡◌, ◌≢◌, ◌↔◌, refl, String, List, [], ◌∷◌, true, arith}
use auto_bot.Prelude.Names.{mem}
use auto_bot.Dag.Spec.{TaskSpec, ok, err, cycle}
use auto_bot.Dag.Levels.{execution_levels}
use auto_bot.Dag.Levels.Waves.{level_at, depth_after, execution_levels_lem}
use auto_bot.Dag.Graph.{ids, find_spec, HasUniqueIds, KnowsDeps, IsRanked, IsOrder}
use auto_bot.Dag.Order.{topological_order}
use auto_bot.Dag.Order.Correct.{topological_order_iff, topological_order-IsOrder}
use auto_bot.Dag.Order.Stuck.{cycle-closed, DependsWithin}
use auto_bot.Dag.Parse.{parse_definition}
use auto_bot.Dag.Validate.{validate_definition, check_unique, check_specs, check_deps}
use auto_bot.Dag.Validate.Correct.{
  IsValid, validate_definition_iff, check_unique-ok, check_specs-ok,
}
use auto_bot.Examples.Data.{definition, specs, looped}

accepted : validate_definition definition ≡ ok specs
unfolding validate_definition parse_definition topological_order
accepted = refl

specs-IsValid : IsValid specs
specs-IsValid = ((validate_definition_iff definition specs).0 accepted).1

validate_definition_iff_example :
    (validate_definition definition ≡ ok specs)
    ↔ ((parse_definition definition ≡ ok specs) × IsValid specs)
validate_definition_iff_example = validate_definition_iff definition specs

topological_order_iff_example :
    ((order : List String) × (topological_order specs ≡ ok order))
    ↔ ((rank : String → ℕ) × IsRanked rank specs)
topological_order_iff_example = topological_order_iff specs specs-IsValid.0 specs-IsValid.1

sorted : topological_order specs ≡ ok ("fetch" ∷ "clean" ∷ "report" ∷ [])
unfolding topological_order
sorted = refl

topological_order-IsOrder_example : IsOrder specs ("fetch" ∷ "clean" ∷ "report" ∷ [])
topological_order-IsOrder_example =
    topological_order-IsOrder specs specs-IsValid.0 specs-IsValid.1
      ("fetch" ∷ "clean" ∷ "report" ∷ []) sorted

looped-HasUniqueIds : HasUniqueIds looped
unfolding check_unique
looped-HasUniqueIds = (check_unique-ok [] looped ("a" ∷ "b" ∷ "c" ∷ []) (λ x. omega arith) refl).0

looped-KnowsDeps : KnowsDeps looped
unfolding check_specs check_deps
looped-KnowsDeps = check_specs-ok ("a" ∷ "b" ∷ "c" ∷ []) looped refl

looped_cycle : topological_order looped ≡ err (cycle ("a" ∷ "b" ∷ []))
unfolding topological_order
looped_cycle = refl

cycle-closed_example :
    (◌≢◌ {A = List String} ("a" ∷ "b" ∷ []) [])
    × ((x : String) → mem x ("a" ∷ "b" ∷ []) ≡ true → DependsWithin looped ("a" ∷ "b" ∷ []) x)
cycle-closed_example =
    cycle-closed looped looped-HasUniqueIds looped-KnowsDeps ("a" ∷ "b" ∷ []) looped_cycle

execution_levels_lem_example :
    (levels : List (List String)) × (depth : String → ℕ) × (execution_levels specs ≡ ok levels)
    × ((j : ℕ) → level_at j levels ≡ ids (keep (λ s. eqb (depth s.id) j) specs))
    × ((x : String) (s : TaskSpec)
        → find_spec x specs ≡ some s
        → depth x ≡ depth_after depth s.depends_on)
execution_levels_lem_example =
    execution_levels_lem specs specs-IsValid.0 specs-IsValid.1 specs-IsValid.2.0 specs-IsValid.2.1
