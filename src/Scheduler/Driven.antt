-- ===== src/Scheduler/Driven.antt =====
-- The tables of app/scheduler.py in which every run waits for something or is closed.
pub mod Moves
pub mod Reports
use auto_bot.Models.{Task, WorkflowRun, is_queued, is_running, is_terminal, is_run_cancelled}
use auto_bot.Dag.Runnable.{get_runnable_tasks, is_run_finished, is_runnable}
use auto_bot.Recovery.Returns.{has_run, found_run, then_resolve-ReturnsRuns}
use auto_bot.Scheduler.Operations.{
  final_status, close_run, resolve, then_resolve, load_tasks, dispatch, dispatch_or_finalize,
  finalize_if_done, close_found, queue_all, publish_all, was_cancelled,
}
use auto_bot.Scheduler.Potential.{potential, resolve-potential}
use auto_bot.Scheduler.Progress.{in_flight, in_flight_row, IsClosed, resolve_progress}
use auto_bot.Scheduler.Rows.{HasUniqueIds, HasUniqueIds-map, has_id, any-map}
use auto_bot.Scheduler.Session.{
  Session, Env, Outcome, return, >>=-eq-return, get_run, get_task, change_task, change_run,
}
use auto_bot.Scheduler.Tick.{resolve-tasks, tick_row, done_names}
use auto_bot.Scheduler.Announced.{All-change}
use auto_bot.Prelude.{
  ◌∙◌, none, inr, sym, inl, ap, eqb_iff, subst, refl, arith, Bool-cases, find, ◌⊎◌, ◌≤◌, [], false,
  true, some, Option, ◌∷◌, eqb, map, All, List, Bool, ◌≡◌, ℕ,
}

-- The tasks' runs exist and their retries are few enough for a delay; a task runs only if its worker is
-- at work on it; and each run, but for the ones that are still to be ticked, has a task queued or
-- running, or is closed.
pub record IsDriven (at_work to_tick : ℕ → Bool) (s : Session) : Type 0 where
  pub unique : HasUniqueIds s.tasks
  pub limits : All (λ t. (has_run t.run_id s ≡ true) × (t.max_retries ≤ 1024)) s.tasks
  pub resting : All (λ t. is_running t.status ≡ true → at_work t.id ≡ true) s.tasks
  pub settled :
      (i : ℕ) → has_run i s ≡ true → to_tick i ≡ false → (in_flight i s ≡ true) ⊎ IsClosed i s

-- What an update of all rows may not change.
abbrev pub KeepsRow : (Task → Task) → Type 0
KeepsRow f =
    (r : Task) → ((f r).id ≡ r.id) × ((f r).run_id ≡ r.run_id) × ((f r).max_retries ≡ r.max_retries)

pub map-IsDriven :
    {at_work at_work' to_tick to_tick' : ℕ → Bool} (f : Task → Task) (s s' : Session)
    → KeepsRow f
    → s'.tasks ≡ map f s.tasks
    → ((i : ℕ) → has_run i s' ≡ has_run i s)
    → ((r : Task)
        → (is_running r.status ≡ true → at_work r.id ≡ true)
        → is_running (f r).status ≡ true
        → at_work' r.id ≡ true)
    → ((i : ℕ) → has_run i s' ≡ true → to_tick' i ≡ false → (in_flight i s' ≡ true) ⊎ IsClosed i s')
    → IsDriven at_work to_tick s
    → IsDriven at_work' to_tick' s'
map-IsDriven {at_work' = at_work'} f s s' keeps rows runs rests settles h = record {
  unique = subst HasUniqueIds (sym rows) (HasUniqueIds-map f s.tasks (λ r. (keeps r).0) h.unique);
  limits = subst (All (λ t. (has_run t.run_id s' ≡ true) × (t.max_retries ≤ 1024))) (sym rows) (
      All-change _ _ f s.tasks
        (λ r k. (
          ap (λ i. has_run i s') (keeps r).1 ∙ runs r.run_id ∙ k.0,
          omega (arith, (keeps r).2, k.1),
        ))
        h.limits);
  resting = subst (All (λ t. is_running t.status ≡ true → at_work' t.id ≡ true)) (sym rows) (
      All-change _ _ f s.tasks (λ r k running. ap at_work' (keeps r).0 ∙ rests r k running)
        h.resting);
  settled = settles;
}

-- The runs that a tick does not change.
change_run-other :
    (i j : ℕ) (f : WorkflowRun → WorkflowRun) (rs : List WorkflowRun)
    → ((r : WorkflowRun) → (f r).id ≡ r.id)
    → eqb i j ≡ false
    → find (λ (r : WorkflowRun). eqb r.id i) (map (change_run j f) rs) ≡ find (λ r. eqb r.id i) rs
change_run-other i j f [] keeps other = refl
change_run-other i j f (r ∷ rs) keeps other =
    ground
      (arith, keeps r, change_run-other i j f rs keeps, eqb_iff r.id i, eqb_iff r.id j, eqb_iff i j)

pub queue_all-get_run :
    (now i : ℕ) (ts : List Task) (s : Session) → get_run i (queue_all now ts s) ≡ get_run i s
queue_all-get_run now i [] s = refl
queue_all-get_run now i (t ∷ ts) s = queue_all-get_run now i ts _

pub publish_all-get_run :
    (i : ℕ) (ts : List Task) (s : Session) → get_run i (publish_all ts s) ≡ get_run i s
publish_all-get_run i [] s = refl
publish_all-get_run i (t ∷ ts) s = publish_all-get_run i ts _

module _ (env : Env) (j : ℕ) where
  close_found-get_run :
      (tasks : List Task) (o : Option WorkflowRun) (s s' : Session) (i : ℕ)
      → close_found env j tasks o s ≡ return s'
      → eqb i j ≡ false
      → get_run i s' ≡ get_run i s
  close_found-get_run tasks none s s' i h other = cc
  close_found-get_run tasks (some run) s s' i h other =
      let rows : s'.runs ≡ map (change_run j (close_run env.now (final_status tasks))) s.runs =
        ground arith in
      rw rows (change_run-other i j _ s.runs (λ r. refl) other)

  finalize-get_run :
      (tasks : List Task) (s s' : Session) (i : ℕ)
      → finalize_if_done env j (some tasks) s ≡ return s'
      → eqb i j ≡ false
      → get_run i s' ≡ get_run i s
  unfolding finalize_if_done
  finalize-get_run tasks s s' i h other = elim (Bool-cases (is_run_finished tasks)) [
    | inl done ↦ close_found-get_run tasks (get_run j s) s s' i (rw done at h) other
    | inr waits ↦ let same : s ≡ s' = ground arith in ap (get_run i) (sym same)
  ]

  tick-get_run :
      (tasks runnable ts : List Task) (s s' : Session) (i : ℕ)
      → dispatch_or_finalize env j tasks runnable s ≡ return (ts, s')
      → eqb i j ≡ false
      → get_run i s' ≡ get_run i s
  unfolding dispatch
  tick-get_run tasks [] ts s s' i h other =
      let (s₁, closed, last) = >>=-eq-return (finalize_if_done env j (some tasks) s) _ h in
      let end : s₁ ≡ s' = ground arith in
      ap (get_run i) (sym end) ∙ finalize-get_run tasks s s₁ i closed other
  tick-get_run tasks (t ∷ runnable) ts s s' i h other =
      let end : publish_all (t ∷ runnable) (queue_all env.now (t ∷ runnable) s) ≡ s' =
        ground arith in
      ap (get_run i) (sym end)
      ∙ publish_all-get_run i (t ∷ runnable) (queue_all env.now (t ∷ runnable) s)
      ∙ queue_all-get_run env.now i (t ∷ runnable) s

  -- A tick leaves every other run as it was.
  pub resolve-get_run :
      (ts : List Task) (s s' : Session) (i : ℕ)
      → resolve env j s ≡ return (ts, s')
      → eqb i j ≡ false
      → get_run i s' ≡ get_run i s
  unfolding resolve
  resolve-get_run ts s s' i h other = elim (Bool-cases (was_cancelled (get_run j s))) [
    | inl stopped ↦
        let returned = rw stopped at h in
        let same : s ≡ s' = ground arith in ap (get_run i) (sym same)
    | inr active ↦
        tick-get_run (load_tasks env j s) (get_runnable_tasks (load_tasks env j s)) ts s s' i
          (rw active at h) other
  ]
