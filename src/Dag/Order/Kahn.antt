-- ===== src/Dag/Order/Kahn.antt =====
-- The invariant of the loop `while ready` of `topological_order`.
use auto_bot.Prelude.{
  ℕ, zero, suc, ◌+◌, ◌≤◌, ◌<◌, ◌≡◌, refl, sym, ◌∙◌, ap, String, List, [], ◌∷◌, ◌++◌, Option, none,
  some, false, ◌⊎◌, inl, inr, arith, eq_refl,
}
use auto_bot.Prelude.Int.{ℤ, pos}
use auto_bot.Prelude.Names.{mem, count, count-append, mem-eq-count}
use auto_bot.Prelude.Dict.{Dict, get}
use auto_bot.Prelude.Sort.{sort, count-sort}
use auto_bot.Dag.Spec.{TaskSpec, Result, ok, err, out_of_fuel}
use auto_bot.Dag.Graph.{
  find_spec, HasUniqueIds, waiting, waiting-snoc, waiting-Within, IsOrdered, IsOrdered-snoc, Within,
}
use auto_bot.Dag.Order.{relax, drain, before}
use auto_bot.Dag.Order.Counts.{feeds, count-feeds, uses}
use auto_bot.Dag.Order.Relax.{degree, released, relax_lem}

-- What a task still waits for, if it is one.
abbrev pub waits : List String → Option TaskSpec → Option ℕ
waits done none = none
waits done (some s) = some (waiting done s.depends_on)

abbrev pub need : List TaskSpec → List String → String → Option ℕ
need specs done x = waits done (find_spec x specs)

-- 1 for a task that waits for nothing.
abbrev pub free : Option ℕ → ℕ
free (some zero) = 1
free _ = 0

abbrev pub fed : List TaskSpec → String → Option TaskSpec → Option (List String)
fed specs x none = none
fed specs x (some s) = some (feeds x specs)

pub record Inv (specs : List TaskSpec) (g : Dict ℤ) (ready ordered : List String) : Type 0 where
  pub degrees : (x : String) → get g x ≡ degree (need specs ordered x) 0
  pub placed : (x : String) → count x (ordered ++ ready) ≡ free (need specs ordered x)
  pub in_order : IsOrdered specs [] ordered

free-le : (o : Option ℕ) → free o ≤ 1
free-le none = omega arith
free-le (some zero) = omega arith
free-le (some (suc k)) = omega arith

waits-snoc :
    (n : String) (done : List String) (o : Option TaskSpec)
    → mem n done ≡ false
    → degree (waits done o) 0 ≡ degree (waits (done ++ n ∷ []) o) (uses n o)
waits-snoc n done none h = refl
waits-snoc n done (some s) h =
    ap (λ k. some (pos k)) (omega (arith, waiting-snoc n done s.depends_on h))

free-released : (m a c : ℕ) → m ≡ a + c → free (some m) + released (some a) c ≡ free (some a)
free-released m zero zero e = ground arith
free-released m zero (suc c) e = ground arith
free-released m (suc a) c e = ground arith

free-snoc :
    (n : String) (done : List String) (o : Option TaskSpec)
    → mem n done ≡ false
    → free (waits done o) + released (waits (done ++ n ∷ []) o) (uses n o)
      ≡ free (waits (done ++ n ∷ []) o)
free-snoc n done none h = refl
free-snoc n done (some s) h = free-released _ _ _ (waiting-snoc n done s.depends_on h)

uses-none :
    (n : String) (done : List String) (o : Option TaskSpec) → waits done o ≡ none → uses n o ≡ 0
uses-none n done none h = refl
uses-none n done (some s) h = cc

free-find :
    (done : List String) (o : Option TaskSpec)
    → 0 < free (waits done o)
    → (s : TaskSpec) × (o ≡ some s) × (waiting done s.depends_on ≡ 0)
free-find done none h = absurd (omega arith)
free-find done (some s) h = (s, refl, ground arith)

free-deps :
    (done : List String) (o : Option TaskSpec) (s : TaskSpec)
    → 0 < free (waits done o)
    → o ≡ some s
    → Within done s.depends_on
free-deps done none s h e = cc
free-deps done (some t) s h e = waiting-Within done s.depends_on (ground arith)

-- The loop is cut off, or ends with nothing ready.
abbrev pub Ends : List TaskSpec → Result (List String) → Type 0
Ends specs r =
    (r ≡ err out_of_fuel) ⊎ ((g : Dict ℤ) × (out : List String) × (r ≡ ok out) × Inv specs g [] out)

module _ (specs : List TaskSpec) (unique : HasUniqueIds specs) (dependents : Dict (List String))
    (index : Dict ℕ)
    (linked : (x : String) → get dependents x ≡ fed specs x (find_spec x specs)) where
  -- One round of the loop.
  module _ (g : Dict ℤ) (node : String) (ready ordered : List String)
      (inv : Inv specs g (node ∷ ready) ordered) where
    fresh : mem node ordered ≡ false
    fresh = ground (
      arith,
      inv.placed node,
      count-append node ordered (node ∷ ready),
      free-le (need specs ordered node),
      mem-eq-count node ordered,
      eq_refl node,
    )

    is_free : 0 < free (need specs ordered node)
    is_free =
        ground (arith, inv.placed node, count-append node ordered (node ∷ ready), eq_refl node)

    abbrev Rounds : Result (Dict ℤ × List String) → Type 0
    Rounds r =
        (g' : Dict ℤ) × (newly : List String) × (r ≡ ok (g', newly))
        × Inv specs g' (ready ++ sort (before index) newly) (ordered ++ node ∷ [])

    count_placed :
        (x : String) (newly : List String)
        → count x ((ordered ++ node ∷ []) ++ (ready ++ sort (before index) newly))
          ≡ count x (ordered ++ node ∷ ready) + count x newly
    count_placed x newly = omega (
      arith,
      count-append x (ordered ++ node ∷ []) (ready ++ sort (before index) newly),
      count-append x ordered (node ∷ []),
      count-append x ready (sort (before index) newly),
      count-append x ordered (node ∷ ready),
      count-sort (before index) x newly,
    )

    round : Rounds (relax (feeds node specs) g [])
    round =
        let after = ordered ++ node ∷ [] in
        let ds = feeds node specs in
        let fed_count = λ (x : String). count-feeds node x specs (unique x) in
        let (g', newly, done, degrees, counts) =
          relax_lem (need specs after) ds g []
            (λ x.
              inv.degrees x
              ∙ waits-snoc node ordered (find_spec x specs) fresh
              ∙ ap (degree (need specs after x)) (sym (fed_count x)))
            (λ x absent. fed_count x ∙ uses-none node after (find_spec x specs) absent) in
        (
          g',
          newly,
          done,
          record {
            degrees = degrees;
            placed = λ x. omega (
              arith,
              count_placed x newly,
              inv.placed x,
              counts x,
              ap (released (need specs after x)) (fed_count x),
              free-snoc node ordered (find_spec x specs) fresh,
            );
            in_order =
                IsOrdered-snoc specs [] ordered node inv.in_order
                  (λ s. free-deps ordered _ s is_free);
          },
        )

  has_dependents :
      (x : String) (done : List String)
      → 0 < free (need specs done x)
      → get dependents x ≡ some (feeds x specs)
  has_dependents x done h =
      let (s, found, _) = free-find done (find_spec x specs) h in linked x ∙ ap (fed specs x) found

  -- From the invariant the loop ends in it, with nothing ready, unless it is cut off.
  pub drain_lem :
      (fuel : ℕ) (g : Dict ℤ) (ready ordered : List String)
      → Inv specs g ready ordered
      → Ends specs (drain fuel dependents index g ready ordered)
  unfolding drain
  drain_lem fuel g [] ordered inv = inr (g, ordered, refl, inv)
  drain_lem zero g (node ∷ ready) ordered inv = inl refl
  drain_lem (suc fuel) g (node ∷ ready) ordered inv =
      let (g', newly, done, inv') = round g node ready ordered inv in
      let found = has_dependents node ordered (is_free g node ready ordered inv) in
      rw (found, done)
        (drain_lem fuel g' (ready ++ sort (before index) newly) (ordered ++ node ∷ []) inv')
