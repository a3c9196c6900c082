-- ===== src/Dag/Levels.antt =====
-- `execution_levels` of app/dag.py: the tasks in waves.
pub mod Depths
pub mod Waves
use Prim.Native.Nat.{max}
use auto_bot.Prelude.{ℕ, zero, suc, String, List, [], ◌∷◌, ◌++◌, Option, none, some}
use auto_bot.Prelude.Dict.{Dict, get, put}
use auto_bot.Dag.Graph.{find_spec}
use auto_bot.Dag.Order.{topological_order}
use auto_bot.Dag.Spec.{TaskSpec, Result, ok, err, ◌>>=◌, or_key_error, stop_iteration, index_error}

-- next(s for s in specs if s.id == task_id)
abbrev pub or_stop : Option TaskSpec → Result TaskSpec
or_stop none = err stop_iteration
or_stop (some s) = ok s

-- max(depth[d] for d in deps); it is taken of dependencies that are not empty.
pub deepest : Dict ℕ → List String → Result ℕ
deepest depth [] = ok 0
deepest depth (d ∷ deps) = do
  v ← or_key_error d (get depth d)
  rest ← deepest depth deps
  ok (max v rest)

pub spec_depth : Dict ℕ → List String → Result ℕ
unfolding deepest
spec_depth depth [] = ok 0
spec_depth depth (d ∷ deps) = do m ← deepest depth (d ∷ deps); ok (suc m)

-- The first loop.
pub depths : List TaskSpec → List String → Dict ℕ → Result (Dict ℕ)
unfolding spec_depth
depths specs [] depth = ok depth
depths specs (task_id ∷ order) depth = do
  spec ← or_stop (find_spec task_id specs)
  d ← spec_depth depth spec.depends_on
  depths specs order (put depth task_id d)

-- max(depth.values(), default=-1) + 1
pub level_count : Dict ℕ → ℕ
level_count [] = 0
level_count ((k, v) ∷ depth) = max (suc v) (level_count depth)

pub empty_levels : ℕ → List (List String)
empty_levels zero = []
empty_levels (suc n) = [] ∷ empty_levels n

-- levels[i].append(id)
pub append_at : ℕ → String → List (List String) → Result (List (List String))
append_at i id [] = err index_error
append_at zero id (level ∷ levels) = ok ((level ++ id ∷ []) ∷ levels)
append_at (suc i) id (level ∷ levels) = do rest ← append_at i id levels; ok (level ∷ rest)

-- The second loop.
pub place : List TaskSpec → Dict ℕ → List (List String) → Result (List (List String))
unfolding append_at
place [] depth levels = ok levels
place (s ∷ specs) depth levels = do
  d ← or_key_error s.id (get depth s.id)
  levels' ← append_at d s.id levels
  place specs depth levels'

unfoldable pub execution_levels : List TaskSpec → Result (List (List String))
unfolding depths level_count empty_levels place
execution_levels specs = do
  order ← topological_order specs
  depth ← depths specs order []
  place specs depth (empty_levels (level_count depth))
