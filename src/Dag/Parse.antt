-- ===== src/Dag/Parse.antt =====
-- `parse_definition` of app/dag.py: from the definition's JSON to a list of `TaskSpec`.
use Prim.Native.Char.{code}
use auto_bot.Prelude.{
  ℕ, ◌+◌, String, List, [], ◌∷◌, map, Option, none, some, Bool, true, ◌&&◌, ◌||◌, leb, eqb,
  if◌then◌else◌, ◌==◌,
}
use auto_bot.Prelude.Int.{pos}
use auto_bot.Prelude.Dict.{put_all, keys}
use auto_bot.Dag.Spec.{
  TaskSpec, Value, null, int, str, list, dict, Items, nil, cons, Fields, end, field, Result, ok,
  err, ◌>>=◌, workflow_not_list, node_not_object, bad_id, bad_depends_on, bad_max_retries,
}

-- d.get(k)
abbrev pub lookup : Fields → String → Option Value
lookup end k = none
lookup (field j v rest) k = if j == k then some v else lookup rest k

-- The code points that `str.strip` removes.
abbrev is_space : ℕ → Bool
is_space c =
    leb 9 c && leb c 13
    || leb 28 c && leb c 32
    || eqb c 0x85
    || eqb c 0xa0
    || eqb c 0x1680
    || leb 0x2000 c && leb c 0x200a
    || leb 0x2028 c && leb c 0x2029
    || eqb c 0x202f
    || eqb c 0x205f
    || eqb c 0x3000

-- not s.strip()
unfoldable pub is_blank : String → Bool
is_blank String.[] = true
is_blank (String.◌∷◌ c s) = is_space (code c) && is_blank s

-- The strings of a list, if all of its items are strings.
abbrev pub strings : Items → Option (List String)
strings nil = some []
strings (cons (str s) rest) = elim (strings rest) [ none ↦ none | some ss ↦ some (s ∷ ss) ]
strings (cons _ rest) = none

-- tuple(dict.fromkeys(deps))
unfoldable pub from_keys : List String → List String
from_keys deps = keys (put_all [] (map (λ d. (d, tt {0})) deps))

pub node_id : ℕ → Option Value → Result String
node_id index (some (str id)) = if is_blank id then err (bad_id index) else ok id
node_id index _ = err (bad_id index)

abbrev checked_deps : ℕ → Option (List String) → Result (List String)
checked_deps index (some deps) = ok (from_keys deps)
checked_deps index none = err (bad_depends_on index)

pub node_deps : ℕ → Option Value → Result (List String)
node_deps index none = ok (from_keys [])
node_deps index (some (list items)) = checked_deps index (strings items)
node_deps index (some _) = err (bad_depends_on index)

-- `bool` is a subclass of `int` in Python, so the source excludes it by name: here it is a
-- constructor of its own.
pub node_retries : ℕ → Option Value → Result (Option ℕ)
node_retries index none = ok none
node_retries index (some null) = ok none
node_retries index (some (int (pos n))) = ok (some n)
node_retries index (some _) = err (bad_max_retries index)

pub parse_node : ℕ → Value → Result TaskSpec
parse_node index (dict fields) = do
  id ← node_id index (lookup fields "id")
  deps ← node_deps index (lookup fields "depends_on")
  retries ← node_retries index (lookup fields "max_retries")
  ok (record { id = id; depends_on = deps; max_retries = retries })
parse_node index _ = err (node_not_object index)

pub parse_nodes : ℕ → Items → Result (List TaskSpec)
parse_nodes index nil = ok []
parse_nodes index (cons node rest) = do
  spec ← parse_node index node
  specs ← parse_nodes (index + 1) rest
  ok (spec ∷ specs)

pub workflow_nodes : Option Value → Result Items
workflow_nodes (some (list (cons node rest))) = ok (cons node rest)
workflow_nodes _ = err workflow_not_list

unfoldable pub parse_definition : Fields → Result (List TaskSpec)
unfolding is_blank from_keys node_id node_deps node_retries parse_node parse_nodes workflow_nodes
parse_definition definition = do
  nodes ← workflow_nodes (lookup definition "workflow")
  parse_nodes 0 nodes
