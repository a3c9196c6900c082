-- ===== src/Api/Started.antt =====
-- The tables and the queue after a trigger of app/main.py.
use auto_bot.Scheduler.Rows.{HasUniqueIds}
use auto_bot.Scheduler.Announced as Announced
use auto_bot.Scheduler.Turns.{
  held_in, commit-HasMessages, commit_world, announced as announced_before,
}
use auto_bot.Dag.Spec as Spec
use auto_bot.Scheduler.Driven.Moves.{nobody, just, then_resolve-IsDriven}
use auto_bot.Worker.Drained.{IsReady, commit-IsDriven, commit-has_run}
use auto_bot.Models.{is_running, Workflow, Task, WorkflowRun}
use auto_bot.Prelude.{
  inr, inl, subst, eqb_iff, ◌∙◌, All-map, true, eqb, ◌≤◌, none, refl, ◌||◌, any, arith, ◌+◌, [],
  ◌∷◌, ◌++◌, All, find, false, ◌≡◌, ℕ, List, Bool,
}
use auto_bot.Scheduler.Session.{return, get_run, Session, Env}
use auto_bot.Dag.Spec.{TaskSpec}
use auto_bot.Scheduler.Operations.{then_resolve, create_run, new_run, new_tasks, new_task}
use auto_bot.Dag.Validate.{validate_definition}
use auto_bot.Recovery.Returns.{has_run}
use auto_bot.Scheduler.Driven.{IsDriven}
use auto_bot.Worker.Run.{world_of, Site}
use auto_bot.Cron.{create_and_resolve}
use auto_bot.Scheduler.Announced.{create_run-Announces, then_resolve-Announces, IsAnnounced}
use auto_bot.Scheduler.Progress.{in_flight_row}

pub any-append {ℓ} :
    {A : Type ℓ} (p : A → Bool) (xs ys : List A) → any p (xs ++ ys) ≡ (any p xs || any p ys)
any-append p [] ys = refl
any-append p (x ∷ xs) ys = ground (arith, any-append p xs ys)

pub find-append :
    (p : WorkflowRun → Bool) (x : WorkflowRun) (xs : List WorkflowRun)
    → p x ≡ false
    → find p (xs ++ x ∷ []) ≡ find p xs
find-append p x [] h = ground (arith, h)
find-append p x (y ∷ xs) h = ground (arith, find-append p x xs h)

pub All-append {ℓ κ} :
    {A : Type κ} (P : A → Type ℓ) (xs ys : List A) → All P xs → All P ys → All P (xs ++ ys)
All-append P [] ys h k = k
All-append P (x ∷ xs) ys h k = (h.0, All-append P xs ys h.1 k)

pub new_tasks-All :
    (P : Task → Type 0) (env : Env) (uuid : ℕ → ℕ) (i run_id : ℕ) (specs : List TaskSpec)
    → ((j : ℕ) (spec : TaskSpec) → P (new_task env j run_id spec))
    → All P (new_tasks env uuid i run_id specs)
new_tasks-All P env uuid i run_id [] h = tt
new_tasks-All P env uuid i run_id (spec ∷ specs) h =
    (h (uuid i) spec, new_tasks-All P env uuid (i + 1) run_id specs h)

module _ (env : Env) (run_id : ℕ) (uuid : ℕ → ℕ) (w : Workflow) (specs : List TaskSpec)
    (s : Session) (valid : validate_definition w.definition ≡ Spec.ok specs)
    (fresh : get_run run_id s ≡ none)
    (unique : HasUniqueIds (s.tasks ++ new_tasks env uuid 0 run_id specs))
    (few : All (λ t. t.max_retries ≤ 1024) (new_tasks env uuid 0 run_id specs)) where
  unfoldable pub stored : Session
  stored = record s {
    runs = s.runs ++ new_run env run_id w ∷ [];
    tasks = s.tasks ++ new_tasks env uuid 0 run_id specs;
  }

  pub stored-has_run : (i : ℕ) → has_run i stored ≡ (has_run i s || (eqb run_id i || false))
  unfolding stored
  stored-has_run i = any-append (λ (r : WorkflowRun). eqb r.id i) s.runs (new_run env run_id w ∷ [])

  new-limits :
      All
        (λ t. (has_run t.run_id stored ≡ true) × (t.max_retries ≤ 1024))
        (new_tasks env uuid 0 run_id specs)
  new-limits =
      let here : has_run run_id stored ≡ true =
        stored-has_run run_id ∙ ground (arith, eqb_iff run_id run_id) in
      All-map2 (new_tasks env uuid 0 run_id specs) few (
        new_tasks-All (λ t. has_run t.run_id stored ≡ true) env uuid 0 run_id specs
          (λ j spec. here))
    where
      All-map2 :
          (ts : List Task)
          → All (λ t. t.max_retries ≤ 1024) ts
          → All (λ t. has_run t.run_id stored ≡ true) ts
          → All (λ t. (has_run t.run_id stored ≡ true) × (t.max_retries ≤ 1024)) ts
      All-map2 [] a b = tt
      All-map2 (t ∷ ts) a b = ((b.0, a.0), All-map2 ts a.1 b.1)

  pub stored-IsDriven : IsDriven nobody nobody s → IsDriven nobody (just run_id) stored
  unfolding stored
  stored-IsDriven h = record {
    unique = unique;
    limits =
        All-append _ s.tasks (new_tasks env uuid 0 run_id specs)
          (All-map (λ t k. (stored-has_run t.run_id ∙ rw k.0 refl, k.1)) s.tasks h.limits)
          new-limits;
    resting = All-append _ s.tasks (new_tasks env uuid 0 run_id specs) h.resting (
        new_tasks-All (λ t. is_running t.status ≡ true → false ≡ true) env uuid 0 run_id specs
          (λ j spec running. running));
    settled = λ i there other.
        let before : has_run i s ≡ true =
          ground (arith, stored-has_run i, eqb_iff i run_id, eqb_iff run_id i) in
        elim (h.settled i before refl) [
          | inl flying ↦ inl (
              any-append (in_flight_row i) s.tasks (new_tasks env uuid 0 run_id specs)
              ∙ rw flying refl)
          | inr (run, found, closed) ↦ inr (
            run,
            find-append (λ r. eqb r.id i) (new_run env run_id w) s.runs
                  (ground (arith, eqb_iff i run_id, eqb_iff run_id i))
                ∙ found,
            closed,
          )
        ];
  }

  pub create_run-stored : create_run env run_id uuid w s ≡ return (run_id, stored)
  unfolding create_run stored
  create_run-stored = rw valid refl

  -- The transaction of a trigger leaves no run waiting for nothing, and the new run is there.
  trigger-IsDriven :
      IsDriven nobody nobody s
      → (s' : Session) × (create_and_resolve env run_id uuid w s ≡ return s')
        × IsDriven nobody nobody s'
        × (has_run run_id s' ≡ true)
        × ((held : ℕ → Bool) → IsAnnounced held s → IsAnnounced held s')
  trigger-IsDriven h =
      let here : has_run run_id stored ≡ true =
        stored-has_run run_id ∙ ground (arith, eqb_iff run_id run_id) in
      let (s', resolved, driven, same, runs) =
        then_resolve-IsDriven env run_id stored here nobody (stored-IsDriven h) in
      (
        s',
        (unfold create_and_resolve in rw create_run-stored resolved),
        driven,
        runs run_id ∙ here,
        (λ held k. Announced.returned held (then_resolve env run_id stored) resolved (
            then_resolve-Announces held env run_id stored
              (create_run-Announces held env run_id run_id uuid w s stored create_run-stored k))),
      )

  -- A trigger keeps what a worker starts from.
  pub trigger-IsReady :
      (site : Site)
      → site.tables ≡ s
      → IsReady s site
      → (s' : Session) × (create_and_resolve env run_id uuid w s ≡ return s')
        × (has_run run_id s' ≡ true)
        × ((now : ℕ)
            → IsReady s' (record {
              tables = (commit_world now s' site.queue).tables;
              queue = (commit_world now s' site.queue).queue;
              time = now;
            }))
  trigger-IsReady site at ready =
      let (s', returned, driven, here, announced) =
        trigger-IsDriven (subst (IsDriven nobody nobody) at ready.driven) in
      (
        s',
        returned,
        here,
        (λ now. record {
          driven = commit-IsDriven now s' site.queue driven;
          held = commit-HasMessages now s' site.queue (
              announced (held_in site.queue) (
                subst (IsAnnounced (held_in site.queue)) at
                  (announced_before (world_of site) ready.held)));
          same_runs = λ i. commit-has_run now i s' site.queue;
        }),
      )
