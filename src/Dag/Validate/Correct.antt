-- ===== src/Dag/Validate/Correct.antt =====
-- `validate_definition` accepts exactly the definitions that parse to a graph that can be run.
use auto_bot.Prelude.{
  ℕ, ◌≤◌, ◌≡◌, refl, sym, ◌∙◌, ap, subst, String, List, [], ◌∷◌, ◌++◌, some, false, ◌↔◌, inl, inr,
  arith, eq_iff, eq_refl, Bool-cases, All, append-nil, append_assoc,
}
use auto_bot.Prelude.Names.{mem, count, mem-eq-count, count-append}
use auto_bot.Dag.Spec.{TaskSpec, Fields, ok, >>=-eq-ok}
use auto_bot.Dag.Graph.{find-count_pos, ids, find_spec, HasUniqueIds, KnowsDeps, IsRanked, Within}
use auto_bot.Dag.Parse.{parse_definition}
use auto_bot.Dag.Order.{topological_order}
use auto_bot.Dag.Order.Correct.{topological_order_iff, topological_order-total}
use auto_bot.Dag.Validate.{
  check_unique, check_deps, check_specs, validate_specs, validate_definition,
}

-- Unique ids, known dependencies and no cycle.
abbrev pub IsValid : List TaskSpec → Type 0
IsValid specs = HasUniqueIds specs × KnowsDeps specs × ((rank : String → ℕ) × IsRanked rank specs)

pub check_unique-ok :
    (seen : List String) (specs : List TaskSpec) (seen' : List String)
    → ((x : String) → count x seen ≤ 1)
    → check_unique seen specs ≡ ok seen'
    → ((x : String) → count x (seen ++ ids specs) ≤ 1) × (seen' ≡ seen ++ ids specs)
unfolding check_unique
check_unique-ok seen [] seen' once h =
    ((λ x. ground (arith, once x, append-nil seen)), ground (arith, append-nil seen))
check_unique-ok seen (s ∷ specs) seen' once h = elim (Bool-cases (mem s.id seen)) [
  | inl again ↦ absurd (ground arith)
  | inr new ↦ rw (← append_assoc seen (s.id ∷ []) (ids specs)) (
      check_unique-ok (seen ++ s.id ∷ []) specs seen'
        (λ x.
          ground
            (arith, once x, count-append x seen (s.id ∷ []), mem-eq-count s.id seen, eq_iff s.id x))
        (rw new at h))
]

check_unique-total :
    (seen : List String) (specs : List TaskSpec)
    → ((x : String) → count x (seen ++ ids specs) ≤ 1)
    → check_unique seen specs ≡ ok (seen ++ ids specs)
unfolding check_unique
check_unique-total seen [] once = ap ok (sym (append-nil seen))
check_unique-total seen (s ∷ specs) once =
    rw (fresh, ← append_assoc seen (s.id ∷ []) (ids specs))
      (check_unique-total (seen ++ s.id ∷ []) specs (λ x. rw append_assoc (once x)))
  where
    fresh : mem s.id seen ≡ false
    fresh = ground (
      arith,
      once s.id,
      count-append s.id seen (s.id ∷ ids specs),
      mem-eq-count s.id seen,
      eq_refl s.id,
    )

check_deps-ok :
    (seen : List String) (id : String) (deps : List String)
    → check_deps seen id deps ≡ ok tt
    → Within seen deps
unfolding check_deps
check_deps-ok seen id [] h d m = cc
check_deps-ok seen id (dep ∷ deps) h d m = elim (Bool-cases (mem dep seen)) [
  | inl here ↦ ground (arith, eq_iff dep d, check_deps-ok seen id deps (rw here at h) d)
  | inr missing ↦ absurd (ground arith)
]

check_deps-total :
    (seen : List String) (id : String) (deps : List String)
    → Within seen deps
    → check_deps seen id deps ≡ ok tt
unfolding check_deps
check_deps-total seen id [] h = refl
check_deps-total seen id (dep ∷ deps) h =
    rw (h dep (ground (arith, eq_refl dep)))
      (check_deps-total seen id deps (λ d m. h d (ground arith)))

pub check_specs-ok :
    (seen : List String) (specs : List TaskSpec)
    → check_specs seen specs ≡ ok tt
    → All (λ s. Within seen s.depends_on) specs
unfolding check_specs
check_specs-ok seen [] h = tt
check_specs-ok seen (s ∷ specs) h = elim (Bool-cases (mem s.id s.depends_on)) [
  | inl itself ↦ absurd (ground arith)
  | inr other ↦
      let (u, deps, rest) = >>=-eq-ok _ (check_deps seen s.id s.depends_on) (rw other at h) in
      (check_deps-ok seen s.id s.depends_on deps, check_specs-ok seen specs rest)
]

check_specs-total :
    (seen : List String) (specs : List TaskSpec)
    → All (λ s. Within seen s.depends_on) specs
    → All (λ s. mem s.id s.depends_on ≡ false) specs
    → check_specs seen specs ≡ ok tt
unfolding check_specs
check_specs-total seen [] h k = refl
check_specs-total seen (s ∷ specs) h k =
    rw (k.0, check_deps-total seen s.id s.depends_on h.0) (check_specs-total seen specs h.1 k.1)

-- With unique ids, what holds of the task that each id finds holds of all tasks.
pub All-find :
    (P : TaskSpec → Type 0) (specs : List TaskSpec)
    → HasUniqueIds specs
    → ((s : TaskSpec) → find_spec s.id specs ≡ some s → P s)
    → All P specs
All-find P [] unique h = tt
All-find P (t ∷ specs) unique h = (
  h t (rw (eq_refl t.id)),
  All-find P specs (λ x. ground (arith, unique x)) (λ s e. h s (later s e)),
)
  where
    later : (s : TaskSpec) → find_spec s.id specs ≡ some s → find_spec s.id (t ∷ specs) ≡ some s
    later s e = ground (arith, unique s.id, find-count_pos s.id specs s)

IsRanked-irreflexive :
    (specs : List TaskSpec) (rank : String → ℕ)
    → HasUniqueIds specs
    → IsRanked rank specs
    → All (λ s. mem s.id s.depends_on ≡ false) specs
IsRanked-irreflexive specs rank unique ranked =
    All-find (λ s. mem s.id s.depends_on ≡ false) specs unique (λ s e. none_itself s e)
  where
    none_itself : (s : TaskSpec) → find_spec s.id specs ≡ some s → mem s.id s.depends_on ≡ false
    none_itself s e = ground (arith, ranked s.id s e s.id)

validate_specs-IsValid :
    (specs checked : List TaskSpec)
    → validate_specs specs ≡ ok checked
    → IsValid specs × (checked ≡ specs)
unfolding validate_specs
validate_specs-IsValid specs checked h =
    let (seen, unique, h₁) = >>=-eq-ok _ (check_unique [] specs) h in
    let (u, deps, h₂) = >>=-eq-ok _ (check_specs seen specs) h₁ in
    let (order, sorted, same) = >>=-eq-ok _ (topological_order specs) h₂ in
    let (once, all_seen) = check_unique-ok [] specs seen (λ x. omega arith) unique in
    let known =
      subst (λ names. All (λ s. Within names s.depends_on) specs) all_seen
        (check_specs-ok seen specs deps) in
    ((once, known, (topological_order_iff specs once known).0 (order, sorted)), cc)

validate_specs-total : (specs : List TaskSpec) → IsValid specs → validate_specs specs ≡ ok specs
unfolding validate_specs
validate_specs-total specs (unique, known, (rank, ranked)) =
    let (order, sorted) = topological_order-total specs unique known rank ranked in
    rw (
      check_unique-total [] specs unique,
      check_specs-total (ids specs) specs known (IsRanked-irreflexive specs rank unique ranked),
      sorted,
    )

-- A definition is accepted, with the tasks that it parses to, exactly when their ids are unique, their
-- dependencies are tasks of the definition, and no dependencies form a cycle.
pub validate_definition_iff :
    (definition : Fields) (specs : List TaskSpec)
    → (validate_definition definition ≡ ok specs)
      ↔ ((parse_definition definition ≡ ok specs) × IsValid specs)
unfolding validate_definition
validate_definition_iff definition specs = (
  λ h.
      let (parsed, found, checked) = >>=-eq-ok _ (parse_definition definition) h in
      let (valid, same) = validate_specs-IsValid parsed specs checked in
      (found ∙ ap ok (sym same), subst IsValid (sym same) valid),
  λ (found, valid). rw found (validate_specs-total specs valid),
)
