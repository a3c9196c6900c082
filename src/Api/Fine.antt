-- ===== src/Api/Fine.antt =====
-- Failures, and completed runs, after a trigger of app/main.py.
use auto_bot.Scheduler.Clean as Clean
use auto_bot.Scheduler.Session.{>>=-eq-return, return}
use auto_bot.Api.Started.{
  new_tasks-All, stored, create_run-stored, any-append, All-append, find-append,
}
use auto_bot.Scheduler.Done.{IsDone, IsPart, is_completed}
use auto_bot.Scheduler.Done.Tick.{resolve-IsDone}
use auto_bot.Scheduler.Clean.{IsClean, clean_task, clean_run, then_resolve-Cleans}
use auto_bot.Dag.Spec as Spec
use auto_bot.Dag.Graph as Graph
use auto_bot.Dag.Graph.{ids, find_spec, IsRanked}
use auto_bot.Dag.Validate.Correct.{All-find}
use auto_bot.Scheduler.Rows.{HasUniqueIds}
use auto_bot.Prelude.{
  inr, sym, subst, inl, Bool-cases, ◌∙◌, false, ◌≤◌, ◌++◌, none, refl, eqb_iff, [], ◌+◌, arith, ◌∷◌,
  ◌<◌, ◌==◌, true, ◌&&◌, ◌≡◌, any, All, eqb, List, if◌then◌else◌, String, ℕ,
}
use auto_bot.Scheduler.Session.{get_run, Session, Env}
use auto_bot.Dag.Spec.{TaskSpec}
use auto_bot.Models.{WorkflowRun, is_success, Workflow, Task}
use auto_bot.Prelude.Names.{mem}
use auto_bot.Scheduler.Operations.{resolve, then_resolve, new_run, new_tasks}
use auto_bot.Dag.Validate.{validate_definition}
use auto_bot.Scheduler.Driven.{IsDriven}
use auto_bot.Scheduler.Driven.Moves.{nobody}
use auto_bot.Recovery.Returns.{found_run, has_run}
use auto_bot.Api.Trigger.{get_run-append}
use auto_bot.Cron.{create_and_resolve}

-- The ranks of the runs, with that of a new one.
abbrev pub with_rank : ℕ → (String → ℕ) → (ℕ → String → ℕ) → ℕ → String → ℕ
with_rank run_id r rank i = if eqb i run_id then r else rank i

-- The dependencies of a valid definition's task.
abbrev IsLower : (String → ℕ) → List TaskSpec → TaskSpec → Type 0
IsLower r specs sp =
    (d : String) → mem d sp.depends_on ≡ true → (mem d (ids specs) ≡ true) × (r d < r sp.id)

valid-IsLower :
    (r : String → ℕ) (specs : List TaskSpec)
    → Graph.HasUniqueIds specs
    → Graph.KnowsDeps specs
    → IsRanked r specs
    → All (IsLower r specs) specs
valid-IsLower r specs unique known ranked = both specs known (
    All-find (λ sp. (d : String) → mem d sp.depends_on ≡ true → r d < r sp.id) specs unique
      (λ sp e. ranked sp.id sp e))
  where
    both :
        (xs : List TaskSpec)
        → All (λ sp. Graph.Within (ids specs) sp.depends_on) xs
        → All (λ sp. (d : String) → mem d sp.depends_on ≡ true → r d < r sp.id) xs
        → All (IsLower r specs) xs
    both [] a b = tt
    both (sp ∷ xs) a b = ((λ d dep. (a.0 d dep, b.0 d dep)), both xs a.1 b.1)

module _ (env : Env) (run_id : ℕ) (uuid : ℕ → ℕ) where
  new_tasks-any :
      (i : ℕ) (d : String) (specs : List TaskSpec)
      → any (λ u. eqb u.run_id run_id && u.task_name == d) (new_tasks env uuid i run_id specs)
        ≡ mem d (ids specs)
  new_tasks-any i d [] = refl
  new_tasks-any i d (sp ∷ specs) =
      ground (arith, eqb_iff run_id run_id, new_tasks-any (i + 1) d specs)

  new_tasks-IsPart :
      (rank : ℕ → String → ℕ) (r : String → ℕ) (ts : List Task) (all_specs : List TaskSpec)
      → ((d : String)
          → mem d (ids all_specs) ≡ true
          → any (λ u. eqb u.run_id run_id && u.task_name == d) ts ≡ true)
      → rank run_id ≡ r
      → (i : ℕ) (specs : List TaskSpec) → All (IsLower r all_specs) specs
      → All (IsPart rank ts) (new_tasks env uuid i run_id specs)
  new_tasks-IsPart rank r ts all_specs there same i [] h = tt
  new_tasks-IsPart rank r ts all_specs there same i (sp ∷ specs) h = (
    (λ d dep. let (known, below) = h.0 d dep in (there d known, rw same below)),
    new_tasks-IsPart rank r ts all_specs there same (i + 1) specs h.1,
  )

module _ (env : Env) (run_id : ℕ) (uuid : ℕ → ℕ) (w : Workflow) (specs : List TaskSpec)
    (s : Session) (valid : validate_definition w.definition ≡ Spec.ok specs)
    (fresh : get_run run_id s ≡ none)
    (unique : HasUniqueIds (s.tasks ++ new_tasks env uuid 0 run_id specs))
    (few : All (λ t. t.max_retries ≤ 1024) (new_tasks env uuid 0 run_id specs))
    (driven : IsDriven nobody nobody s) (clean : IsClean s) where
  abbrev begun : Session
  unfolding stored
  begun = stored env run_id uuid w specs s valid fresh unique few

  begun-IsClean : IsClean begun
  unfolding stored begun
  begun-IsClean = record {
    tasks =
        All-append _ s.tasks (new_tasks env uuid 0 run_id specs) clean.tasks (
          new_tasks-All (λ t. clean_task t.status ≡ true) env uuid 0 run_id specs (λ j spec. refl));
    runs = All-append _ s.runs (new_run env run_id w ∷ []) clean.runs (refl, tt);
  }

  -- The rows that were there belong to other runs.
  old_run : (i : ℕ) → has_run i s ≡ true → eqb i run_id ≡ false
  old_run i there = elim (Bool-cases (eqb i run_id)) [
    | inl same ↦
        let (run, found) = found_run i s.runs there in
        absurd (
          let gone = subst (λ j. get_run j s ≡ none) (sym ((eqb_iff i run_id).0 same)) fresh in
          let both = sym found ∙ gone in cc)
    | inr other ↦ other
  ]

  begun-IsDone :
      (rank : ℕ → String → ℕ) (r : String → ℕ)
      → IsRanked r specs
      → Graph.HasUniqueIds specs
      → Graph.KnowsDeps specs
      → IsDone rank s
      → IsDone (with_rank run_id r rank) begun
  unfolding stored begun
  begun-IsDone rank r ranked once known h = record {
    parts = All-append _ s.tasks new (old_parts s.tasks driven.limits h.parts) (
        new_tasks-IsPart env run_id uuid (with_rank run_id r rank) r (s.tasks ++ new) specs
          (λ d there.
            any-append (λ u. eqb u.run_id run_id && u.task_name == d) s.tasks new
            ∙ ground (arith, new_tasks-any env run_id uuid 0 d specs, there))
          (ground (arith, eqb_iff run_id run_id)) 0 specs
          (valid-IsLower r specs once known ranked));
    done = All-append _ s.tasks new (old_done s.tasks driven.limits h.done) (
        new_tasks-All
          (λ t. is_completed (get_run t.run_id begun) ≡ true → is_success t.status ≡ true) env uuid
          0 run_id specs
          (λ j spec completed. absurd (
            let wrong =
              rw (get_run-append run_id (new_run env run_id w) s.runs refl fresh) at completed in
            cc)));
  }
    where
      new : List Task
      new = new_tasks env uuid 0 run_id specs

      old_parts :
          (ts : List Task)
          → All (λ t. (has_run t.run_id s ≡ true) × (t.max_retries ≤ 1024)) ts
          → All (IsPart rank s.tasks) ts
          → All (IsPart (with_rank run_id r rank) (s.tasks ++ new_tasks env uuid 0 run_id specs)) ts
      old_parts [] a b = tt
      old_parts (t ∷ ts) a b = (
        (λ d dep.
            let (there, below) = b.0 d dep in
            let other = old_run t.run_id a.0.0 in
            rw other (
              any-append (λ u. eqb u.run_id t.run_id && u.task_name == d) s.tasks
                    (new_tasks env uuid 0 run_id specs)
                  ∙ rw there refl,
              below,
            )),
        old_parts ts a.1 b.1,
      )

      old_done :
          (ts : List Task)
          → All (λ t. (has_run t.run_id s ≡ true) × (t.max_retries ≤ 1024)) ts
          → All (λ t. is_completed (get_run t.run_id s) ≡ true → is_success t.status ≡ true) ts
          → All (λ t. is_completed (get_run t.run_id begun) ≡ true → is_success t.status ≡ true) ts
      old_done [] a b = tt
      old_done (t ∷ ts) a b = (
        (λ completed.
            let other = old_run t.run_id a.0.0 in
            let same =
              find-append (λ (r : WorkflowRun). eqb r.id t.run_id) (new_run env run_id w) s.runs
                (ground (arith, other, eqb_iff t.run_id run_id, eqb_iff run_id t.run_id)) in
            b.0 (rw same at completed)),
        old_done ts a.1 b.1,
      )

  pub begun-fine :
      (rank : ℕ → String → ℕ) (r : String → ℕ) (s' : Session)
      → IsRanked r specs
      → Graph.HasUniqueIds specs
      → Graph.KnowsDeps specs
      → IsDone rank s
      → create_and_resolve env run_id uuid w s ≡ return s'
      → IsClean s' × IsDone (with_rank run_id r rank) s'
  unfolding create_and_resolve begun stored
  begun-fine rank r s' ranked once known h e =
      let resolved : then_resolve env run_id begun ≡ return s' =
        (let made = create_run-stored env run_id uuid w specs s valid fresh unique few in
          rw made at e) in
      let ((ts, s₂), ticked, last) = >>=-eq-return (resolve env run_id begun) _ resolved in
      let end : s₂ ≡ s' = ground arith in
      (
        Clean.returned (then_resolve env run_id begun) resolved
            (then_resolve-Cleans env run_id begun begun-IsClean),
        subst (IsDone (with_rank run_id r rank)) end (
            resolve-IsDone (with_rank run_id r rank) env run_id begun begun-IsClean
              (begun-IsDone rank r ranked once known h) ts s₂ (unfold stored begun in unique)
              ticked),
      )
