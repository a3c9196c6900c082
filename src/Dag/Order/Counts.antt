-- ===== src/Dag/Order/Counts.antt =====
-- What the dictionaries of `topological_order` hold at the start, as functions of a name.
use auto_bot.Prelude.{
  ℕ, ◌≤◌, ◌≡◌, refl, ap, sym, ◌∙◌, String, List, [], ◌∷◌, ◌++◌, map, Option, none, some, true, All,
  if◌then◌else◌, ◌==◌, arith, append_assoc, append-nil, eq_iff, eq_refl, Option-cases, inl, inr,
  ◌≢◌, All-map,
}
use auto_bot.Prelude.Names.{mem, count, count-append}
use auto_bot.Prelude.Dict.{Dict, get, put, put_all, get-put}
use auto_bot.Dag.Spec.{TaskSpec, ok}
use auto_bot.Dag.Graph.{find_spec, ids}
use auto_bot.Dag.Order.{link_deps, link}

abbrev pub on_spec {ℓ} : {V : Type ℓ} → (TaskSpec → V) → Option TaskSpec → Option V → Option V
on_spec f none o = o
on_spec f (some s) o = some (f s)

find_spec-absent :
    (x : String) (specs : List TaskSpec) → count x (ids specs) ≤ 0 → find_spec x specs ≡ none
find_spec-absent x [] h = refl
find_spec-absent x (s ∷ specs) h = ground (arith, find_spec-absent x specs)

-- A comprehension over tasks with unique ids holds the value of each.
pub get-put_all {ℓ} :
    {V : Type ℓ} (f : TaskSpec → V) (specs : List TaskSpec) (d : Dict V) (x : String)
    → count x (ids specs) ≤ 1
    → get (put_all d (map (λ s. (s.id, f s)) specs)) x ≡ on_spec f (find_spec x specs) (get d x)
get-put_all f [] d x h = refl
get-put_all f (s ∷ specs) d x h = ground (
  arith,
  get-put_all f specs (put d s.id (f s)) x,
  get-put d s.id x (f s),
  find_spec-absent x specs,
  eq_iff s.id x,
)

-- The names that one task appends to `dependents[x]`.
abbrev feed : String → String → List String → List String
feed x id [] = []
feed x id (d ∷ deps) = (if d == x then id ∷ [] else []) ++ feed x id deps

abbrev pub feeds : String → List TaskSpec → List String
feeds x [] = []
feeds x (s ∷ specs) = feed x s.id s.depends_on ++ feeds x specs

abbrev pub appended : Option (List String) → List String → Option (List String)
appended none ys = none
appended (some xs) ys = some (xs ++ ys)

appended-append :
    (o : Option (List String)) (ys zs : List String)
    → appended (appended o ys) zs ≡ appended o (ys ++ zs)
appended-append none ys zs = refl
appended-append (some xs) ys zs = ap some (append_assoc xs ys zs)

appended-nil : (o : Option (List String)) → o ≡ appended o []
appended-nil none = refl
appended-nil (some xs) = ap some (sym (append-nil xs))

put-present :
    (d : Dict (List String)) (k : String) (v : List String) (x : String)
    → get d x ≢ none
    → get (put d k v) x ≢ none
put-present d k v x h e = ground (arith, get-put d k x v)

-- What `link_deps` has done to the entry of `x`, given the entry before.
feed-step :
    (id dep : String) (deps : List String) (d : Dict (List String)) (old : List String) (x : String)
    → get d dep ≡ some old
    → appended (get (put d dep (old ++ id ∷ [])) x) (feed x id deps)
      ≡ appended (get d x) (feed x id (dep ∷ deps))
feed-step id dep deps d old x h = ground (
  arith,
  get-put d dep x (old ++ id ∷ []),
  eq_iff dep x,
  append_assoc old (id ∷ []) (feed x id deps),
)

link_deps_lem :
    (id : String) (deps : List String) (d : Dict (List String))
    → ((x : String) → mem x deps ≡ true → get d x ≢ none)
    → (d' : Dict (List String)) × (link_deps id deps d ≡ ok d')
      × ((x : String) → get d' x ≡ appended (get d x) (feed x id deps))
unfolding link_deps
link_deps_lem id [] d h = (d, refl, λ x. appended-nil (get d x))
link_deps_lem id (dep ∷ deps) d h = elim (Option-cases (get d dep)) [
  | inl missing ↦ absurd (h dep (ground (arith, eq_refl dep)) missing)
  | inr (old, found) ↦
      let d₁ = put d dep (old ++ id ∷ []) in
      let (d', done, holds) =
        link_deps_lem id deps d₁
          (λ x m. put-present d dep (old ++ id ∷ []) x (h x (ground arith))) in
      (d', rw found done, λ x. holds x ∙ feed-step id dep deps d old x found)
]

appended-present : (o : Option (List String)) (ys : List String) → o ≢ none → appended o ys ≢ none
appended-present none ys h e = h refl
appended-present (some xs) ys h e = cc

pub link_lem :
    (specs : List TaskSpec) (d : Dict (List String))
    → All (λ s. (x : String) → mem x s.depends_on ≡ true → get d x ≢ none) specs
    → (d' : Dict (List String)) × (link specs d ≡ ok d')
      × ((x : String) → get d' x ≡ appended (get d x) (feeds x specs))
unfolding link
link_lem [] d h = (d, refl, λ x. appended-nil (get d x))
link_lem (s ∷ specs) d h =
    let (d₁, first, holds₁) = link_deps_lem s.id s.depends_on d h.0 in
    let present = λ (x : String) (p : get d x ≢ none) (e : get d₁ x ≡ none).
      appended-present (get d x) (feed x s.id s.depends_on) p (sym (holds₁ x) ∙ e) in
    let (d', rest, holds) = link_lem specs d₁ (All-map (λ t p x m. present x (p x m)) specs h.1) in
    (
      d',
      rw first rest,
      λ x.
          holds x
          ∙ ap (λ o. appended o (feeds x specs)) (holds₁ x)
          ∙ appended-append (get d x) (feed x s.id s.depends_on) (feeds x specs),
    )

count-feed :
    (x z id : String) (deps : List String)
    → count z (feed x id deps) ≡ (if id == z then count x deps else 0)
count-feed x z id [] = ground arith
count-feed x z id (d ∷ deps) = ground (arith, count-feed x z id deps)

-- How often `z` stands in `dependents[x]`: as often as `x` is a dependency of `z`.
abbrev pub uses : String → Option TaskSpec → ℕ
uses x none = 0
uses x (some s) = count x s.depends_on

pub count-feeds :
    (x z : String) (specs : List TaskSpec)
    → count z (ids specs) ≤ 1
    → count z (feeds x specs) ≡ uses x (find_spec z specs)
count-feeds x z [] h = refl
count-feeds x z (s ∷ specs) h = ground (
  arith,
  count-append z (feed x s.id s.depends_on) (feeds x specs),
  count-feed x z s.id s.depends_on,
  count-feeds x z specs,
  find_spec-absent z specs,
)
