-- ===== src/Dag/Order.antt =====
-- `topological_order` of app/dag.py: Kahn's algorithm over dictionaries of in-degrees and dependents.
mod Counts
mod Relax
mod Kahn
mod Start
pub mod Correct
pub mod Stuck
pub mod Fuel
use Prim.Native.Nat.{Ordering}
use Prim.Native.String as NativeString
use auto_bot.Prelude.{
  ℕ, zero, suc, ◌+◌, ◌*◌, String, List, [], ◌∷◌, ◌++◌, map, Option, none, some, Bool, true, false,
  not, length, keep, leb, eqb, if◌then◌else◌,
}
use auto_bot.Prelude.Int.{ℤ, pos, negsuc, pred_ℤ, is_zero}
use auto_bot.Prelude.Names.{mem}
use auto_bot.Prelude.Dict.{Dict, get, put, put_all, keys}
use auto_bot.Prelude.Sort.{sort}
use auto_bot.Dag.Graph.{ids}
use auto_bot.Dag.Spec.{TaskSpec, DagError, cycle, out_of_fuel, Result, ok, err, ◌>>=◌, or_key_error}

abbrev pub degree_entry : TaskSpec → String × ℤ
degree_entry s = (s.id, pos (length s.depends_on))

-- {spec.id: len(spec.depends_on) for spec in specs}
pub indegrees : List TaskSpec → Dict ℤ
indegrees specs = put_all [] (map degree_entry specs)

-- The inner loop that fills `dependents`, over the dependencies of one task.
pub link_deps : String → List String → Dict (List String) → Result (Dict (List String))
link_deps id [] dependents = ok dependents
link_deps id (dep ∷ deps) dependents = do
  old ← or_key_error dep (get dependents dep)
  link_deps id deps (put dependents dep (old ++ id ∷ []))

pub link : List TaskSpec → Dict (List String) → Result (Dict (List String))
link [] dependents = ok dependents
link (s ∷ specs) dependents = do
  dependents' ← link_deps s.id s.depends_on dependents
  link specs dependents'

abbrev pub no_entry : TaskSpec → String × List String
no_entry s = (s.id, [])

pub no_dependents : List TaskSpec → Dict (List String)
no_dependents specs = put_all [] (map no_entry specs)

abbrev pub enumerate : ℕ → List TaskSpec → List (String × ℕ)
enumerate i [] = []
enumerate i (s ∷ specs) = (s.id, i) ∷ enumerate (i + 1) specs

-- {spec.id: i for i, spec in enumerate(specs)}
pub order_index : List TaskSpec → Dict ℕ
order_index specs = put_all [] (enumerate 0 specs)

-- The key `order_index.get`. Python would refuse to compare a missing key's `None`; every name that
-- is sorted here is a key.
abbrev pub before : Dict ℕ → String → String → Bool
before index a b = elim (get index a) [
  | none ↦ true
  | some i ↦ elim (get index b) [ none ↦ true | some j ↦ leb i j ]
]

abbrev zero_at : Dict ℤ → String → Bool
zero_at indegree id = elim (get indegree id) [ none ↦ false | some v ↦ is_zero v ]

-- The loop over `dependents[node]`: lower each in-degree, and collect the names that reach zero.
pub relax : List String → Dict ℤ → List String → Result (Dict ℤ × List String)
relax [] indegree newly_ready = ok (indegree, newly_ready)
relax (d ∷ ds) indegree newly_ready = do
  v ← or_key_error d (get indegree d)
  relax ds (put indegree d (pred_ℤ v))
      (if is_zero (pred_ℤ v) then newly_ready ++ d ∷ [] else newly_ready)

-- The loop `while ready`.
pub drain :
    ℕ → Dict (List String) → Dict ℕ → Dict ℤ → List String → List String → Result (List String)
drain fuel dependents index indegree [] ordered = ok ordered
drain zero dependents index indegree (node ∷ ready) ordered = err out_of_fuel
drain (suc fuel) dependents index indegree (node ∷ ready) ordered = do
  ds ← or_key_error node (get dependents node)
  (indegree', newly_ready) ← relax ds indegree []
  drain fuel dependents index indegree' (ready ++ sort (before index) newly_ready)
      (ordered ++ node ∷ [])

-- The order of strings: by code points.
abbrev pub string_le : String → String → Bool
string_le a b = elim (NativeString.compare a b) [ Ordering.gt ↦ false | _ ↦ true ]

-- sorted(set(order_index) - set(ordered))
pub stuck : Dict ℕ → List String → List String
stuck index ordered = sort string_le (keep (λ id. not (mem id ordered)) (keys index))

-- Each name enters `ready` once at the start and once when its in-degree falls to zero, so twice the
-- number of tasks bounds the rounds.
abbrev pub rounds : List TaskSpec → ℕ
rounds specs = 2 * length specs

abbrev pub first_ready : List TaskSpec → List String
first_ready specs = sort (before (order_index specs)) (keep (zero_at (indegrees specs)) (ids specs))

unfoldable pub topological_order : List TaskSpec → Result (List String)
unfolding indegrees link_deps link no_dependents order_index relax drain stuck
topological_order specs = do
  dependents ← link specs (no_dependents specs)
  let index = order_index specs
  ordered ← drain (rounds specs) dependents index (indegrees specs) (first_ready specs) []
  if eqb (length ordered) (length specs) then ok ordered else err (cycle (stuck index ordered))
