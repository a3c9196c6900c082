-- ===== src/Dag/Levels/Depths.antt =====
-- The depths that the first loop of `execution_levels` computes.
use auto_bot.Dag.Graph.{find_spec, Within, IsOrdered}
use auto_bot.Dag.Levels.{or_key_error, deepest, spec_depth, depths}
use auto_bot.Dag.Spec.{◌>>=◌, >>=-eq-ok, TaskSpec, Result, ok}
use auto_bot.Prelude.Dict.{Dict, get, put, get-put}
use auto_bot.Prelude.Names.{mem, count, mem-append, count-append, mem-eq-count}
use Prim.Native.Nat.{max}
use auto_bot.Prelude.{
  append_assoc, append-nil, eq_iff, inr, sym, ◌∙◌, inl, subst, ◌==◌, ◌≤◌, Bool-cases, ap,
  Option-cases, ◌++◌, refl, eq_refl, [], false, suc, arith, some, ◌∷◌, true, none, ◌≡◌, String,
  List, ℕ,
}

abbrev suc_ok : ℕ → Result ℕ
suc_ok m = ok (suc m)

-- What is stored under another key stays.
get-put_new :
    (depth : Dict ℕ) (x d : String) (v w : ℕ)
    → get depth x ≡ none
    → or_key_error d (get depth d) ≡ ok w
    → get (put depth x v) d ≡ some w
get-put_new depth x d v w new here = elim (Option-cases (get depth d)) [
  | inl gone ↦ absurd (let wrong = rw gone at here in cc)
  | inr (u, found) ↦
      let same : some u ≡ some w = let h = rw found at here in ground arith in
      let other : x == d ≡ false = ground (arith, eq_iff x d) in
      get-put depth x d v ∙ rw other (found ∙ same)
]

-- A task that is not among the dependencies does not change their depth.
deepest-put :
    (depth : Dict ℕ) (x : String) (v : ℕ) (deps : List String) (m : ℕ)
    → get depth x ≡ none
    → deepest depth deps ≡ ok m
    → deepest (put depth x v) deps ≡ ok m
unfolding deepest
deepest-put depth x v [] m new h = h
deepest-put depth x v (d ∷ deps) m new h =
    let (w, here, h₁) = >>=-eq-ok _ (or_key_error d (get depth d)) h in
    let (k, deeper, last) = >>=-eq-ok _ (deepest depth deps) h₁ in
    rw (get-put_new depth x d v w new here, deepest-put depth x v deps k new deeper) last

spec_depth-put :
    (depth : Dict ℕ) (x : String) (v : ℕ) (deps : List String) (m : ℕ)
    → get depth x ≡ none
    → spec_depth depth deps ≡ ok m
    → spec_depth (put depth x v) deps ≡ ok m
unfolding spec_depth
spec_depth-put depth x v [] m new h = h
spec_depth-put depth x v (d ∷ deps) m new h =
    let (k, found, last) = >>=-eq-ok _ (deepest depth (d ∷ deps)) h in
    ap (λ r. r >>= suc_ok) (deepest-put depth x v (d ∷ deps) k new found) ∙ last

-- Dependencies that have depths have a deepest one.
deepest-total :
    (depth : Dict ℕ) (seen deps : List String)
    → ((x : String) → mem x seen ≡ true → (v : ℕ) × (get depth x ≡ some v))
    → Within seen deps
    → (m : ℕ) × (deepest depth deps ≡ ok m)
unfolding deepest
deepest-total depth seen [] filled within = (0, refl)
deepest-total depth seen (d ∷ deps) filled within =
    let (v, here) = filled d (within d (ground (arith, eq_refl d))) in
    let (m, rest) = deepest-total depth seen deps filled (λ e there. within e (ground arith)) in
    (max v m, rw (here, rest) refl)

spec_depth-total :
    (depth : Dict ℕ) (seen deps : List String)
    → ((x : String) → mem x seen ≡ true → (v : ℕ) × (get depth x ≡ some v))
    → Within seen deps
    → (m : ℕ) × (spec_depth depth deps ≡ ok m)
unfolding spec_depth
spec_depth-total depth seen [] filled within = (0, refl)
spec_depth-total depth seen (d ∷ deps) filled within =
    let (m, found) = deepest-total depth seen (d ∷ deps) filled within in (suc m, rw found refl)

-- What the loop knows: which tasks have a depth, and that it is the depth of their dependencies.
pub record IsDepth (specs : List TaskSpec) (seen : List String) (depth : Dict ℕ) : Type 0 where
  pub filled : (x : String) → mem x seen ≡ true → (v : ℕ) × (get depth x ≡ some v)
  pub fresh : (x : String) → mem x seen ≡ false → get depth x ≡ none
  pub exact :
      (x : String) (v : ℕ) (s : TaskSpec)
      → get depth x ≡ some v
      → find_spec x specs ≡ some s
      → spec_depth depth s.depends_on ≡ ok v

put-IsDepth :
    (specs : List TaskSpec) (seen : List String) (depth : Dict ℕ) (x : String) (s : TaskSpec)
    (m : ℕ)
    → IsDepth specs seen depth
    → mem x seen ≡ false
    → find_spec x specs ≡ some s
    → spec_depth depth s.depends_on ≡ ok m
    → IsDepth specs (seen ++ x ∷ []) (put depth x m)
put-IsDepth specs seen depth x s m h new found deep = record {
  filled = λ y listed. elim (Bool-cases (x == y)) [
    | inl here ↦ (m, get-put depth x y m ∙ rw here refl)
    | inr other ↦
        let (v, there) = h.filled y (ground (arith, mem-append y seen (x ∷ []))) in
        (v, get-put depth x y m ∙ rw other there)
  ];
  fresh = λ y absent.
      let other : x == y ≡ false = ground (arith, mem-append y seen (x ∷ [])) in
      let before : mem y seen ≡ false = ground (arith, mem-append y seen (x ∷ [])) in
      get-put depth x y m ∙ rw other (h.fresh y before);
  exact = λ y v t stored named. elim (Bool-cases (x == y)) [
    | inl here ↦
        let at : x ≡ y = (eq_iff x y).0 here in
        let value : some m ≡ some v = rw here at (sym (get-put depth x y m) ∙ stored) in
        let task : some s ≡ some t =
          sym found ∙ subst (λ z. find_spec z specs ≡ some t) (sym at) named in
        let same_value : m ≡ v = ground arith in
        let same_task : s ≡ t = ground arith in
        subst (λ r. spec_depth (put depth x m) r.depends_on ≡ ok v) same_task
          (spec_depth-put depth x m s.depends_on m (h.fresh x new) deep ∙ ap ok same_value)
    | inr other ↦
        let old : get depth y ≡ some v = rw other at (sym (get-put depth x y m) ∙ stored) in
        spec_depth-put depth x m t.depends_on v (h.fresh x new) (h.exact y v t old named)
  ];
}

-- Over an order of the tasks the loop returns, with the depth of each task that it has passed.
pub depths_lem :
    (specs : List TaskSpec) (seen xs : List String) (depth : Dict ℕ)
    → IsOrdered specs seen xs
    → ((x : String) → count x (seen ++ xs) ≤ 1)
    → ((x : String) → mem x xs ≡ true → (s : TaskSpec) × (find_spec x specs ≡ some s))
    → IsDepth specs seen depth
    → (depth' : Dict ℕ) × (depths specs xs depth ≡ ok depth') × IsDepth specs (seen ++ xs) depth'
unfolding depths
depths_lem specs seen [] depth ordered once known h =
    (depth, refl, subst (λ l. IsDepth specs l depth) (sym (append-nil seen)) h)
depths_lem specs seen (x ∷ xs) depth ordered once known h =
    let (s, found) = known x (ground (arith, eq_refl x)) in
    let (m, deep) = spec_depth-total depth seen s.depends_on h.filled (ordered.0 s found) in
    let new : mem x seen ≡ false =
      ground (arith, mem-eq-count x seen, count-append x seen (x ∷ xs), once x, eq_refl x) in
    let (depth', returned, after) =
      depths_lem specs (seen ++ x ∷ []) xs (put depth x m) ordered.1
        (λ y. subst (λ l. count y l ≤ 1) (sym (append_assoc seen (x ∷ []) xs)) (once y))
        (λ y later. known y (ground arith)) (put-IsDepth specs seen depth x s m h new found deep) in
    (
      depth',
      rw (found, deep) returned,
      subst (λ l. IsDepth specs l depth') (append_assoc seen (x ∷ []) xs) after,
    )
