-- ===== src/Api/Graph.antt =====
-- The graph endpoint of app/main.py.
use auto_bot.Api.{Reply, reply, http_error, crash, found_or_404}
use auto_bot.Cron.{get_workflow_row}
use auto_bot.Dag.Graph.{ids, find_spec, find-count_pos, HasUniqueIds}
use auto_bot.Dag.Levels.{execution_levels}
use auto_bot.Dag.Levels.Waves.{level_at, depth_after, deepest_of, execution_levels_lem}
use auto_bot.Dag.Parse.{parse_definition}
use auto_bot.Dag.Spec as Spec
use auto_bot.Dag.Spec.{TaskSpec}
use auto_bot.Dag.Validate.{validate_definition}
use auto_bot.Dag.Validate.Correct.{validate_definition_iff}
use auto_bot.Models.{Workflow}
use auto_bot.Scheduler.Session.{Session}
use auto_bot.Prelude.{
  none, ◌&&◌, ◌+◌, Option, if◌then◌else◌, inr, subst, inl, refl, ◌==◌, eq_iff, eqb, Bool-cases,
  All-map, keep, ◌≤◌, eq_refl, [], arith, true, some, ◌++◌, ◌≡◌, All, ◌<◌, ◌∷◌, ℕ, String, List,
}
use auto_bot.Prelude.Names.{count, mem}

-- The reply's levels and edges.
pub record Graph : Type 0 where
  pub levels : List (List String)
  pub edges : List (String × String)

abbrev pub edges_to : String → List String → List (String × String)
edges_to id [] = []
edges_to id (dep ∷ deps) = (dep, id) ∷ edges_to id deps

-- [[dep, spec.id] for spec in specs for dep in spec.depends_on]
abbrev pub edges_of : List TaskSpec → List (String × String)
edges_of [] = []
edges_of (s ∷ specs) = edges_to s.id s.depends_on ++ edges_of specs

abbrev pub graph_reply : List TaskSpec → Spec.Result (List (List String)) → Reply Graph
graph_reply specs (Spec.err e) = crash
graph_reply specs (Spec.ok levels) = reply (record { levels = levels; edges = edges_of specs })

abbrev pub parsed_graph : Spec.Result (List TaskSpec) → Reply Graph
parsed_graph (Spec.err e) = crash
parsed_graph (Spec.ok specs) = graph_reply specs (execution_levels specs)

abbrev pub graph_found : Reply Workflow → Reply Graph
graph_found (http_error code) = http_error code
graph_found crash = crash
graph_found (reply workflow) = parsed_graph (parse_definition workflow.definition)

-- GET /workflows/{workflow_id}/graph
unfoldable pub get_workflow_graph : ℕ → Session → Reply Graph
get_workflow_graph workflow_id s = graph_found (found_or_404 (get_workflow_row workflow_id s))

-- An edge leads to a deeper task.
abbrev pub IsDeeper : (String → ℕ) → String × String → Type 0
IsDeeper depth (d, x) = depth d < depth x

found_self :
    (specs : List TaskSpec) → HasUniqueIds specs → All (λ s. find_spec s.id specs ≡ some s) specs
found_self [] unique = tt
found_self (s ∷ specs) unique = (
  ground (arith, eq_refl s.id),
  All-map
      (λ t found.
        ground
          (arith, eq_iff s.id t.id, unique s.id, eq_refl s.id, find-count_pos t.id specs t found))
      specs (found_self specs (λ x. ground (arith, unique x))),
)

deepest_of-mem :
    (depth : String → ℕ) (deps : List String) (d : String)
    → mem d deps ≡ true
    → depth d ≤ deepest_of depth deps
deepest_of-mem depth [] d h = cc
deepest_of-mem depth (e ∷ deps) d h = elim (Bool-cases (e == d)) [
  | inl here ↦
      let same : e ≡ d = (eq_iff e d).0 here in
      subst (λ x. depth x ≤ deepest_of depth (e ∷ deps)) same (omega arith)
  | inr other ↦ let low = deepest_of-mem depth deps d (rw other at h) in omega arith
]

edges_to-IsDeeper :
    (depth : String → ℕ) (id : String) (deps : List String)
    → ((d : String) → mem d deps ≡ true → depth d < depth id)
    → All (IsDeeper depth) (edges_to id deps)
edges_to-IsDeeper depth id [] h = tt
edges_to-IsDeeper depth id (d ∷ deps) h = (
  h d (ground (arith, eq_refl d)),
  edges_to-IsDeeper depth id deps (λ e listed. h e (ground arith)),
)

All-append {ℓ} :
    (P : String × String → Type ℓ) (xs ys : List (String × String))
    → All P xs
    → All P ys
    → All P (xs ++ ys)
All-append P [] ys h k = k
All-append P (x ∷ xs) ys h k = (h.0, All-append P xs ys h.1 k)

below_after :
    (depth : String → ℕ) (deps : List String) (d : String)
    → mem d deps ≡ true
    → depth d < depth_after depth deps
below_after depth [] d h = cc
below_after depth (e ∷ deps) d h = let low = deepest_of-mem depth (e ∷ deps) d h in omega arith

edges_of-IsDeeper :
    (depth : String → ℕ) (specs : List TaskSpec)
    → All (λ s. depth s.id ≡ depth_after depth s.depends_on) specs
    → All (IsDeeper depth) (edges_of specs)
edges_of-IsDeeper depth [] h = tt
edges_of-IsDeeper depth (s ∷ specs) h =
    All-append _ (edges_to s.id s.depends_on) (edges_of specs)
      (edges_to-IsDeeper depth s.id s.depends_on
        (λ d listed. let low = below_after depth s.depends_on d listed in omega (arith, h.0)))
      (edges_of-IsDeeper depth specs h.1)

-- How often an edge is drawn from a task to another one.
abbrev pub edge_count : String → String → List (String × String) → ℕ
edge_count d x [] = 0
edge_count d x ((e, y) ∷ edges) = (if e == d && y == x then 1 else 0) + edge_count d x edges

-- How often a task lists another one among its dependencies.
abbrev pub deps_count : String → Option TaskSpec → ℕ
deps_count d none = 0
deps_count d (some s) = count d s.depends_on

edge_count-append :
    (d x : String) (xs ys : List (String × String))
    → edge_count d x (xs ++ ys) ≡ edge_count d x xs + edge_count d x ys
edge_count-append d x [] ys = omega arith
edge_count-append d x ((e, y) ∷ xs) ys = omega (arith, edge_count-append d x xs ys)

edge_count-edges_to :
    (d x id : String) (deps : List String)
    → edge_count d x (edges_to id deps) ≡ (if id == x then count d deps else 0)
edge_count-edges_to d x id [] = ground arith
edge_count-edges_to d x id (e ∷ deps) = ground (arith, edge_count-edges_to d x id deps)

find-no_count :
    (x : String) (specs : List TaskSpec) → count x (ids specs) ≡ 0 → find_spec x specs ≡ none
find-no_count x [] h = refl
find-no_count x (s ∷ specs) h = ground (arith, find-no_count x specs)

edge_count-edges_of :
    (d x : String) (specs : List TaskSpec)
    → HasUniqueIds specs
    → edge_count d x (edges_of specs) ≡ deps_count d (find_spec x specs)
edge_count-edges_of d x [] unique = refl
edge_count-edges_of d x (s ∷ specs) unique =
    let rest = edge_count-edges_of d x specs (λ y. ground (arith, unique y)) in
    let both = edge_count-append d x (edges_to s.id s.depends_on) (edges_of specs) in
    let own = edge_count-edges_to d x s.id s.depends_on in
    elim (Bool-cases (s.id == x)) [
      | inl here ↦
          let gone = find-no_count x specs (ground (arith, unique x)) in
          let nothing : deps_count d (find_spec x specs) ≡ 0 = rw gone refl in
          rw here (omega (arith, both, rw here at own, rest, nothing))
      | inr other ↦ rw other (omega (arith, both, rw other at own, rest))
    ]

-- The graph of a stored workflow with a valid definition is returned. Its edges are the dependencies:
-- one leads from `d` to `x` as often as the task `x` lists `d`, and none to an `x` that is no task.
-- Drawn level by level, all edges lead down: there is a depth of the tasks such that each level holds
-- the ids of its depth, in the order of the definition, and each edge leads to a deeper task.
pub get_workflow_graph-reply :
    (workflow_id : ℕ) (s : Session) (w : Workflow) (specs : List TaskSpec)
    → get_workflow_row workflow_id s ≡ some w
    → validate_definition w.definition ≡ Spec.ok specs
    → (graph : Graph) × (depth : String → ℕ) × (get_workflow_graph workflow_id s ≡ reply graph)
      × ((j : ℕ) → level_at j graph.levels ≡ ids (keep (λ t. eqb (depth t.id) j) specs))
      × ((d x : String) → edge_count d x graph.edges ≡ deps_count d (find_spec x specs))
      × All (IsDeeper depth) graph.edges
unfolding get_workflow_graph
get_workflow_graph-reply workflow_id s w specs stored accepted =
    let (parsed, (unique, known, (rank, ranked))) =
      (validate_definition_iff w.definition specs).0 accepted in
    let (levels, depth, waves, at, exact) = execution_levels_lem specs unique known rank ranked in
    (
      record { levels = levels; edges = edges_of specs },
      depth,
      rw (stored, parsed, waves) refl,
      at,
      (λ d x. edge_count-edges_of d x specs unique),
      edges_of-IsDeeper depth specs
          (All-map (λ t found. exact t.id t found) specs (found_self specs unique)),
    )
