-- ===== src/Worker/Finish.antt =====
-- The second transaction of a delivery: what is reported, and what the worker's row says afterwards.
use auto_bot.Models.{Task, WorkerStatus, WorkerRow, raised}
use auto_bot.Recovery.{register_worker, heartbeat, get_worker}
use auto_bot.Recovery.Beats.{beaten, heartbeat_lem}
use auto_bot.Recovery.Returns.{has_run, then_resolve-ReturnsRuns, report-ReturnsRuns}
use auto_bot.Scheduler.Kept.{fixed-return, fixed, report_result-fixed}
use auto_bot.Scheduler.Operations.{was_cancelled, mark_success, report_result}
use auto_bot.Scheduler.Report.{
  report_result-overflow, update-found, report_result-success, report_result-failure, will_retry,
}
use auto_bot.Scheduler.Rows.{HasUniqueIds, HasUniqueIds-map}
use auto_bot.Scheduler.Session.{
  no_delay, raise, get_run, Session, Env, return, get_task, update_task,
}
use auto_bot.Worker.{Execution, set_logs, capture_logs, finish_task, report_execution}
use auto_bot.Prelude.{
  ap, eq_refl, Option, ◌⊎◌, inr, ◌+◌, inl, false, ◌∙◌, suc, refl, ◌≤◌, none, arith, Option-cases,
  true, some, ◌≡◌, ℕ, String,
}
use auto_bot.Retry.{should_retry, backoff_delay}
use auto_bot.Scheduler.Written.{failed_at, succeeded_at, retried_at}

pub heartbeat-get_task :
    (env : Env) (worker_id : String) (status : WorkerStatus) (i : ℕ) (s : Session)
    → get_task i (heartbeat env worker_id (some status) s) ≡ get_task i s
unfolding heartbeat register_worker
heartbeat-get_task env worker_id status i s = elim (Option-cases (get_worker worker_id s)) [
  | inl new ↦ rw (new, new) refl
  | inr (w, found) ↦ rw found refl
]

-- The task's object after a failed execution, once reported: requeued after the delay that the policy
-- gives, or failed.
abbrev pub IsAfterFailure : Env → Task → String → String → Session → Session → Type 0
IsAfterFailure env task kind message s s' =
    (will_retry s task ≡ true)
      × ((d : ℕ) × (backoff_delay env.retry env.uniform (suc task.retry_count) ≡ some d)
          × (get_task task.id s'
              ≡ some (retried_at (some (raised kind message)) (env.now + d) task)))
    ⊎ (will_retry s task ≡ false)
      × (get_task task.id s' ≡ some (failed_at env.now (some (raised kind message)) task))

beaten-idle :
    (env : Env) (worker_id : String) (s : Session)
    → (w : WorkerRow) × (get_worker worker_id (heartbeat env worker_id (some WorkerStatus.idle) s)
        ≡ some w)
      × (w.status ≡ WorkerStatus.idle)
beaten-idle env worker_id s = (
  beaten env worker_id (some WorkerStatus.idle) (get_worker worker_id s),
  heartbeat_lem env worker_id (some WorkerStatus.idle) s worker_id ∙ rw (eq_refl worker_id) refl,
  idle_row (get_worker worker_id s),
)
  where
    idle_row :
        (o : Option WorkerRow)
        → (beaten env worker_id (some WorkerStatus.idle) o).status ≡ WorkerStatus.idle
    idle_row none = refl
    idle_row (some w) = refl

-- The task's object with the logs of its execution.
abbrev pub logged : ℕ → Execution → Task → Task
logged max_chars execution task =
    set_logs (capture_logs max_chars execution.stdout execution.stderr) task

module _ (env : Env) (worker_id : String) (max_chars : ℕ) (task : Task) (execution : Execution)
    (s : Session) (unique : HasUniqueIds s.tasks) (found : get_task task.id s ≡ some task)
    (run : has_run task.run_id s ≡ true) where
  abbrev pub written : Session
  written =
      update_task task.id (set_logs (capture_logs max_chars execution.stdout execution.stderr)) s

  written_unique : HasUniqueIds written.tasks
  written_unique = HasUniqueIds-map _ s.tasks (λ r. ground arith) unique

  written-found : get_task task.id written ≡ some (logged max_chars execution task)
  written-found = update-found _ task s.tasks (λ r. refl) found

  success-returns :
      (s₁ : Session) × (report_result env (logged max_chars execution task) true none written
        ≡ return s₁)
  unfolding report_result
  success-returns =
      let (s₁, resolved, _) =
        then_resolve-ReturnsRuns env task.run_id
          (update_task task.id (mark_success env.now) written) run in
      (s₁, resolved)

  pub finish_task-success :
      execution.error ≡ none
      → (s' : Session) × (finish_task env worker_id max_chars task execution s ≡ return s')
        × (get_task task.id s' ≡ some (succeeded_at env.now (logged max_chars execution task)))
        × ((w : WorkerRow) × (get_worker worker_id s' ≡ some w) × (w.status ≡ WorkerStatus.idle))
  unfolding finish_task report_execution
  finish_task-success quiet =
      let (s₁, reported) = success-returns in
      let row =
        report_result-success env (logged max_chars execution task) none written s₁ written_unique
          written-found reported in
      (
        heartbeat env worker_id (some WorkerStatus.idle) s₁,
        ap (λ e. report_execution env worker_id (logged max_chars execution task) e written) quiet
            ∙ rw reported refl,
        heartbeat-get_task env worker_id WorkerStatus.idle task.id s₁ ∙ row,
        beaten-idle env worker_id s₁,
      )

  pub finish_task-failure :
      (kind message : String)
      → execution.error ≡ some (kind, message)
      → task.max_retries ≤ 1024
      → (s' : Session) × (finish_task env worker_id max_chars task execution s ≡ return s')
        × IsAfterFailure env (logged max_chars execution task) kind message s s'
        × (s'.workers ≡ s.workers)
  unfolding finish_task report_execution
  finish_task-failure kind message failed small =
      let error = some (raised kind message) in
      let (s', reported, _) =
        report-ReturnsRuns env (logged max_chars execution task) error written run small in
      (
        s',
        rw failed reported,
        report_result-failure env (logged max_chars execution task) error written s' written_unique
            written-found reported,
        ap (λ x. x.1)
            (fixed-return (fixed written) _ s'
              (report_result-fixed env (logged max_chars execution task) false error written)
              reported),
      )

  -- The report of a failure raises, since the delay before the next retry is out of range.
  pub finish_task-overflow :
      (kind message : String)
      → execution.error ≡ some (kind, message)
      → was_cancelled (get_run task.run_id s) ≡ false
      → should_retry task.retry_count task.max_retries ≡ true
      → 1024 ≤ task.retry_count
      → finish_task env worker_id max_chars task execution s ≡ raise no_delay
  unfolding finish_task report_execution
  finish_task-overflow kind message failed active left many = rw failed (
      report_result-overflow env (logged max_chars execution task) (some (raised kind message))
        written (rw (active, left) refl) many)
