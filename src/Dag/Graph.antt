-- ===== src/Dag/Graph.antt =====
-- What the orders of app/dag.py are about: the dependency graph of a list of tasks.
use auto_bot.Prelude.{
  ℕ, ◌+◌, ◌≤◌, ◌<◌, ◌≡◌, refl, String, List, [], ◌∷◌, ◌++◌, map, Option, none, some, true, false,
  find, All, if◌then◌else◌, ◌==◌, arith, eq_iff, append_assoc, append-nil,
}
use auto_bot.Prelude.Names.{mem, count, mem-append}
use auto_bot.Dag.Spec.{TaskSpec}

abbrev pub ids : List TaskSpec → List String
ids specs = map (λ s. s.id) specs

abbrev pub find_spec : String → List TaskSpec → Option TaskSpec
find_spec x specs = find (λ s. s.id == x) specs

-- No id occurs twice.
abbrev pub HasUniqueIds : List TaskSpec → Type 0
HasUniqueIds specs = (x : String) → count x (ids specs) ≤ 1

-- Every dependency in `deps` is one of the names.
abbrev pub Within : List String → List String → Type 0
Within names deps = (d : String) → mem d deps ≡ true → mem d names ≡ true

abbrev pub KnowsDeps : List TaskSpec → Type 0
KnowsDeps specs = All (λ s. Within (ids specs) s.depends_on) specs

-- A rank that falls along every dependency: the graph has no cycle.
abbrev pub IsRanked : (String → ℕ) → List TaskSpec → Type 0
IsRanked rank specs =
    (x : String) (s : TaskSpec)
    → find_spec x specs ≡ some s
    → (d : String) → mem d s.depends_on ≡ true
    → rank d < rank x

-- The number of dependencies that are not yet in `done`.
abbrev pub waiting : List String → List String → ℕ
waiting done [] = 0
waiting done (d ∷ deps) = (if mem d done then 0 else 1) + waiting done deps

-- Each name of the list stands behind all dependencies of its task; `seen` stands before the list.
abbrev pub IsOrdered : List TaskSpec → List String → List String → Type 0
IsOrdered specs seen [] = Unit
IsOrdered specs seen (x ∷ xs) =
    ((s : TaskSpec) → find_spec x specs ≡ some s → Within seen s.depends_on)
    × IsOrdered specs (seen ++ x ∷ []) xs

-- An order of the tasks: every id once, each behind its dependencies.
pub record IsOrder (specs : List TaskSpec) (order : List String) : Type 0 where
  pub complete : (x : String) → count x order ≡ count x (ids specs)
  pub ordered : IsOrdered specs [] order

pub waiting-Within : (done deps : List String) → waiting done deps ≡ 0 → Within done deps
waiting-Within done [] h d m = cc
waiting-Within done (e ∷ deps) h d m =
    ground (arith, eq_iff e d, waiting-Within done deps (ground arith) d)

pub Within-waiting : (done deps : List String) → Within done deps → waiting done deps ≡ 0
Within-waiting done [] h = refl
Within-waiting done (e ∷ deps) h =
    ground (arith, eq_iff e e, h e, Within-waiting done deps (λ d m. h d (ground arith)))

pub waiting-snoc :
    (n : String) (done deps : List String)
    → mem n done ≡ false
    → waiting done deps ≡ waiting (done ++ n ∷ []) deps + count n deps
waiting-snoc n done [] h = refl
waiting-snoc n done (d ∷ deps) h =
    ground (arith, waiting-snoc n done deps, mem-append d done (n ∷ []), eq_iff d n, eq_iff n d)

pub IsOrdered-snoc :
    (specs : List TaskSpec) (seen xs : List String) (n : String)
    → IsOrdered specs seen xs
    → ((s : TaskSpec) → find_spec n specs ≡ some s → Within (seen ++ xs) s.depends_on)
    → IsOrdered specs seen (xs ++ n ∷ [])
IsOrdered-snoc specs seen [] n h last = ((λ s e. rw append-nil at (last s e)), tt)
IsOrdered-snoc specs seen (x ∷ xs) n h last =
    (h.0, IsOrdered-snoc specs (seen ++ x ∷ []) xs n h.1 (λ s e. rw append_assoc (last s e)))

pub find-count :
    (x : String) (specs : List TaskSpec) → find_spec x specs ≡ none → count x (ids specs) ≡ 0
find-count x [] h = refl
find-count x (s ∷ specs) h = ground (arith, find-count x specs)

pub find-count_pos :
    (x : String) (specs : List TaskSpec) (s : TaskSpec)
    → find_spec x specs ≡ some s
    → 0 < count x (ids specs)
find-count_pos x [] s h = cc
find-count_pos x (t ∷ specs) s h = ground (arith, find-count_pos x specs s)
