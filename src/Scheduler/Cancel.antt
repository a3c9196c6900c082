-- ===== src/Scheduler/Cancel.antt =====
-- What is left of a run that has been cancelled.
use auto_bot.Prelude.{
  ℕ, ◌≡◌, refl, ◌∙◌, sym, subst, String, List, [], ◌∷◌, map, some, false, ◌&&◌, ◌||◌, eqb, arith,
  inl, inr, eqb_iff, Option-cases, All,
}
use auto_bot.Models.{Task, WorkflowRun, RunStatus, is_queued, is_pending}
use auto_bot.Scheduler.Session.{Session, Env, return, raise, run_already, get_run, get_task}
use auto_bot.Scheduler.Operations.{resolve, claim, cancel_run, cancel_task, close_run}
use auto_bot.Scheduler.Progress.{closed_run}
use auto_bot.Scheduler.Rows.{HasUniqueIds, HasUniqueIds-map, found_row}
use auto_bot.Scheduler.Claim.{claim_lem}

module _ (env : Env) (run_id : ℕ) (s s' : Session) (h : cancel_run env run_id s ≡ return s') where
  cancelled_run :
      (run : WorkflowRun) × (get_run run_id s' ≡ some (close_run env.now RunStatus.cancelled run))
  unfolding cancel_run
  cancelled_run = elim (Option-cases (get_run run_id s)) [
    | inl missing ↦ absurd (ground arith)
    | inr (run, found) ↦
        let moved =
          closed_run run_id (close_run env.now RunStatus.cancelled) run s.runs (λ r. refl) found in
        (run, ground arith)
  ]

  cancelled_tasks : s'.tasks ≡ map (cancel_task run_id) s.tasks
  unfolding cancel_run
  cancelled_tasks = ground arith

  -- After a cancellation a tick of the run dispatches nothing and changes nothing.
  cancel_run-resolve : (later : Env) → resolve later run_id s' ≡ return ([], s')
  unfolding resolve
  cancel_run-resolve later = rw cancelled_run.1

  -- A second cancellation is refused.
  cancel_run-cancel_run :
      (later : Env) → cancel_run later run_id s' ≡ raise (run_already RunStatus.cancelled)
  unfolding cancel_run
  cancel_run-cancel_run later = rw cancelled_run.1

  -- No task of the run is left waiting: each has an outcome, is running, or is cancelled.
  none_waiting :
      (ts : List Task)
      → All
          (λ t. eqb t.run_id run_id && (is_pending t.status || is_queued t.status) ≡ false)
          (map (cancel_task run_id) ts)
  none_waiting [] = tt
  none_waiting (t ∷ ts) = (ground arith, none_waiting ts)

  -- After a cancellation no worker can claim a task of the run. (Task ids are unique.)
  pub cancel_run-claim :
      (later : Env) (task_id : ℕ) (worker : String) (t : Task)
      → HasUniqueIds s.tasks
      → get_task task_id s' ≡ some t
      → t.run_id ≡ run_id
      → (claim later task_id worker s').0 ≡ false
  cancel_run-claim later task_id worker t unique found mine =
      let unique' =
        subst HasUniqueIds (sym cancelled_tasks)
          (HasUniqueIds-map (cancel_task run_id) s.tasks (λ r. ground arith) unique) in
      let rows =
        subst
          (All (λ r. eqb r.run_id run_id && (is_pending r.status || is_queued r.status) ≡ false))
          (sym cancelled_tasks) (none_waiting s.tasks) in
      let stopped = found_row _ (λ r. eqb r.id task_id) s'.tasks t rows found in
      let queued : is_queued t.status ≡ false = ground (arith, eqb_iff t.run_id run_id) in
      (claim_lem later task_id worker s' t unique' found).0 ∙ queued

-- A cancelled run is at rest: a tick changes nothing, a second cancellation is refused, and none of
-- its tasks is pending or queued any more.
pub cancel_run_rest :
    (env later : Env) (run_id : ℕ) (s s' : Session)
    → cancel_run env run_id s ≡ return s'
    → (resolve later run_id s' ≡ return ([], s'))
      × (cancel_run later run_id s' ≡ raise (run_already RunStatus.cancelled))
      × All
          (λ t. eqb t.run_id run_id && (is_pending t.status || is_queued t.status) ≡ false)
          s'.tasks
cancel_run_rest env later run_id s s' h = (
  cancel_run-resolve env run_id s s' h later,
  cancel_run-cancel_run env run_id s s' h later,
  subst (All _) (sym (cancelled_tasks env run_id s s' h)) (none_waiting env run_id s s' h s.tasks),
)
