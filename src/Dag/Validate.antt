-- ===== src/Dag/Validate.antt =====
-- `validate_definition` of app/dag.py: duplicate ids, self-edges, unknown dependencies and cycles.
pub mod Correct
use auto_bot.Prelude.{String, List, [], ◌∷◌, ◌++◌, if◌then◌else◌}
use auto_bot.Prelude.Names.{mem}
use auto_bot.Dag.Spec.{
  TaskSpec, Fields, Result, ok, err, ◌>>=◌, duplicate_id, self_dependency, unknown_dependency,
}
use auto_bot.Dag.Parse.{parse_definition}
use auto_bot.Dag.Order.{topological_order}

-- The first loop. It returns the set `seen`.
unfoldable pub check_unique : List String → List TaskSpec → Result (List String)
check_unique seen [] = ok seen
check_unique seen (s ∷ specs) =
    if mem s.id seen then err (duplicate_id s.id) else check_unique (seen ++ s.id ∷ []) specs

unfoldable pub check_deps : List String → String → List String → Result (Unit {0})
check_deps seen id [] = ok tt
check_deps seen id (dep ∷ deps) =
    if mem dep seen then check_deps seen id deps else err (unknown_dependency id dep)

-- The second loop.
unfoldable pub check_specs : List String → List TaskSpec → Result (Unit {0})
unfolding check_deps
check_specs seen [] = ok tt
check_specs seen (s ∷ specs) =
    let rest = check_specs seen specs in
    if mem s.id s.depends_on
    then err (self_dependency s.id)
    else do checked ← check_deps seen s.id s.depends_on; rest

-- The validation of the parsed specs.
pub validate_specs : List TaskSpec → Result (List TaskSpec)
unfolding check_unique check_specs
validate_specs specs = do
  seen ← check_unique [] specs
  checked ← check_specs seen specs
  order ← topological_order specs
  ok specs

unfoldable pub validate_definition : Fields → Result (List TaskSpec)
unfolding validate_specs
validate_definition definition = do specs ← parse_definition definition; validate_specs specs
