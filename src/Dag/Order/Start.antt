-- ===== src/Dag/Order/Start.antt =====
-- What `topological_order` starts its loop from, and what its result comes to.
use auto_bot.Prelude.{
  ℕ, zero, suc, ◌+◌, ◌≤◌, ◌<◌, ◌≡◌, ◌≢◌, refl, sym, ◌∙◌, ap, subst, String, List, [], ◌∷◌, ◌++◌,
  Option, none, some, Bool, true, false, inl, inr, if◌then◌else◌, eqb, arith, eq_iff, length, keep,
  All-map, append-nil,
}
use auto_bot.Prelude.Int.{ℤ, pos, is_zero}
use auto_bot.Prelude.Names.{mem, count, mem-eq-count}
use auto_bot.Prelude.Dict.{Dict, get}
use auto_bot.Prelude.Sort.{count-sort}
use auto_bot.Dag.Spec.{TaskSpec, ok, err, cycle}
use auto_bot.Dag.Graph.{
  ids, find_spec, find-count, find-count_pos, HasUniqueIds, KnowsDeps, waiting,
}
use auto_bot.Dag.Order.{
  indegrees, no_dependents, link, before, order_index, first_ready, rounds, zero_at, stuck,
  topological_order,
}
use auto_bot.Dag.Order.Counts.{get-put_all, on_spec, appended, link_lem, feeds}
use auto_bot.Dag.Order.Fuel.{topological_order-no_fuel}
use auto_bot.Dag.Order.Relax.{degree}
use auto_bot.Dag.Order.Kahn.{Inv, drain_lem, waits, need, free, fed}

waiting-nil : (deps : List String) → length deps ≡ waiting [] deps + 0
waiting-nil [] = omega arith
waiting-nil (d ∷ deps) = omega (arith, waiting-nil deps)

start-degree :
    (o : Option TaskSpec) → on_spec (λ s. pos (length s.depends_on)) o none ≡ degree (waits [] o) 0
start-degree none = refl
start-degree (some s) = ap (λ k. some (pos k)) (waiting-nil s.depends_on)

pub count-keep :
    (p : String → Bool) (x : String) (xs : List String)
    → count x (keep p xs) ≡ (if p x then count x xs else 0)
count-keep p x [] = ground arith
count-keep p x (y ∷ xs) = ground (arith, count-keep p x xs, eq_iff y x)

free-le-count :
    (done : List String) (o : Option TaskSpec) (c : ℕ)
    → ((s : TaskSpec) → o ≡ some s → 0 < c)
    → free (waits done o) ≤ c
free-le-count done none c h = omega arith
free-le-count done (some s) c h = ground (arith, h s refl)

fed_at :
    (specs : List TaskSpec) (x : String) (o : Option TaskSpec)
    → appended (on_spec (λ s. []) o none) (feeds x specs) ≡ fed specs x o
fed_at specs x none = refl
fed_at specs x (some s) = refl

pub find-ne-none :
    (x : String) (specs : List TaskSpec) → mem x (ids specs) ≡ true → find_spec x specs ≢ none
find-ne-none x specs m absent =
    ground (arith, mem-eq-count x (ids specs), find-count x specs absent)

on_spec-ne-none {ℓ} :
    {V : Type ℓ} (f : TaskSpec → V) (o : Option TaskSpec) → o ≢ none → on_spec f o none ≢ none
on_spec-ne-none f none h e = h refl
on_spec-ne-none f (some s) h e = cc

zero-free : (k c : ℕ) → c ≡ 1 → (if is_zero (pos (k + 0)) then c else 0) ≡ free (some k)
zero-free zero c e = ground arith
zero-free (suc k) c e = ground arith

free_at :
    (v : Option ℤ) (o : Option TaskSpec) (c : ℕ)
    → v ≡ degree (waits [] o) 0
    → (o ≡ none → c ≡ 0)
    → ((s : TaskSpec) → o ≡ some s → c ≡ 1)
    → (if elim v [ none ↦ false | some n ↦ is_zero n ] then c else 0) ≡ free (waits [] o)
free_at v none c e absent present = ground (arith, absent refl)
free_at v (some s) c e absent present =
    rw e (zero-free (waiting [] s.depends_on) c (present s refl))

module _ (specs : List TaskSpec) (unique : HasUniqueIds specs) where
  start-degrees : (x : String) → get (indegrees specs) x ≡ degree (need specs [] x) 0
  unfolding indegrees
  start-degrees x =
      get-put_all (λ s. pos (length s.depends_on)) specs [] x (unique x)
      ∙ start-degree (find_spec x specs)

  start-placed : (x : String) → count x ([] ++ first_ready specs) ≡ free (need specs [] x)
  start-placed x =
      count-sort (before (order_index specs)) x (keep (zero_at (indegrees specs)) (ids specs))
      ∙ count-keep (zero_at (indegrees specs)) x (ids specs)
      ∙ free_at (get (indegrees specs) x) (find_spec x specs) (count x (ids specs))
          (start-degrees x) (find-count x specs)
          (λ s e. omega (arith, unique x, find-count_pos x specs s e))

  start-Inv : Inv specs (indegrees specs) (first_ready specs) []
  start-Inv = record { degrees = start-degrees; placed = start-placed; in_order = tt }

  pub count-le-ids :
      (order : List String) (g : Dict ℤ)
      → Inv specs g [] order
      → (x : String) → count x order ≤ count x (ids specs)
  count-le-ids order g inv x = omega (
    arith,
    ap (count x) (append-nil order),
    inv.placed x,
    free-le-count order (find_spec x specs) (count x (ids specs)) (find-count_pos x specs),
  )

  module _ (known : KnowsDeps specs) where
    start-linked :
        (dependents : Dict (List String)) × (link specs (no_dependents specs) ≡ ok dependents)
        × ((x : String) → get dependents x ≡ fed specs x (find_spec x specs))
    unfolding no_dependents
    start-linked =
        let empty_at =
          λ (x : String). get-put_all {V = List String} (λ s. []) specs [] x (unique x) in
        let (dependents, done, holds) = link_lem specs (no_dependents specs) (
          All-map
            (λ s within d m.
              subst (λ o. o ≢ none) (sym (empty_at d))
                (on_spec-ne-none (λ s. []) (find_spec d specs) (find-ne-none d specs (within d m))))
            specs known) in
        (
          dependents,
          done,
          λ x.
              holds x
              ∙ ap (λ o. appended o (feeds x specs)) (empty_at x)
              ∙ fed_at specs x (find_spec x specs),
        )

    -- What `topological_order` comes to: the loop's result, and the test on its length.
    pub topological_order_cases :
        (order : List String) × (g : Dict ℤ) × Inv specs g [] order
        × (topological_order specs ≡ (
            if eqb (length order) (length specs)
            then ok order
            else err (cycle (stuck (order_index specs) order))))
    unfolding topological_order
    topological_order_cases =
        let (dependents, done, linked) = start-linked in
        elim (drain_lem specs unique dependents (order_index specs) linked (rounds specs)
          (indegrees specs) (first_ready specs) [] start-Inv) [
            | inl cut ↦ absurd (topological_order-no_fuel specs (rw (done, cut)))
            | inr (g, order, loop, inv) ↦ (order, g, inv, rw (done, loop))
          ]
