-- ===== src/Scheduler/Exhaust.antt =====
-- A task that keeps failing is failed for good after its retries.
use auto_bot.Prelude.{
  ℕ, zero, suc, ◌+◌, ◌≤◌, ◌<◌, leb, ◌≡◌, refl, sym, subst, map, Option, none, some, true, false,
  inl, inr, arith,
}
use auto_bot.Models.{ErrorText, Task, TaskStatus, WorkflowRun, is_run_cancelled}
use auto_bot.Retry.{jittered, backoff_delay, should_retry}
use auto_bot.Scheduler.Session.{
  Session, Env, Outcome, return, ◌>>=◌, get_run, get_task, change_task,
}
use auto_bot.Scheduler.Operations.{
  report_result, mark_retry, mark_failed, requeued, failed_for_good,
}
use auto_bot.Scheduler.Progress.{resolve_progress}
use auto_bot.Scheduler.Report.{report_result-failure, update-found}
use auto_bot.Scheduler.Rows.{HasUniqueIds, HasUniqueIds-map}

abbrev fail_task : Option Task → Env → Option ErrorText → Session → Outcome Session
fail_task none env error s = return s
fail_task (some task) env error s = report_result env task false error s

-- The task with the id is reported to have failed, as often as said, each time by its present row.
abbrev pub fail_times : ℕ → Env → ℕ → Option ErrorText → Session → Outcome Session
fail_times zero env i error s = return s
fail_times (suc k) env i error s =
    fail_task (get_task i s) env error s >>= λ s'. fail_times k env i error s'

pub backoff-some :
    (env : Env) (n : ℕ)
    → n < 1024
    → (d : ℕ) × (backoff_delay env.retry env.uniform (suc n) ≡ some d)
unfolding backoff_delay
backoff-some env n small =
    let in_range : leb 1024 n ≡ false = ground arith in
    (jittered env.retry env.uniform n, rw in_range)

-- The row ends failed, with this number of retries behind it.
abbrev pub EndsFailed : ℕ → ℕ → Outcome Session → Type 0
EndsFailed i retries o =
    (s' : Session) × (t : Task) × (o ≡ return s')
    × (get_task i s' ≡ some t)
    × (t.status ≡ TaskStatus.failed)
    × (t.retry_count ≡ retries)

module _ (env : Env) (error : Option ErrorText) (run : WorkflowRun)
    (active : is_run_cancelled run.status ≡ false) where
  module _ (s : Session) (t : Task) (found : get_run t.run_id s ≡ some run) where
    last-returns :
        should_retry t.retry_count t.max_retries ≡ false
        → (s' : Session) × (report_result env t false error s ≡ return s')
    unfolding report_result
    last-returns spent =
        let (ts, s', ticked, _) =
          resolve_progress env t.run_id (failed_for_good env t error s) run found active in
        (s', rw (found, active, spent, ticked))

    retry-returns :
        t.retry_count < 1024
        → should_retry t.retry_count t.max_retries ≡ true
        → (d : ℕ) × (s' : Session) × (report_result env t false error s ≡ return s')
          × (s'.runs ≡ s.runs)
          × (s'.tasks
              ≡ map (change_task t.id (mark_retry (suc t.retry_count) error (env.now + d))) s.tasks)
    unfolding report_result
    retry-returns small again =
        let (d, delay) = backoff-some env t.retry_count small in
        (d, requeued env t error d s, rw (found, active, again, delay), refl, refl)

  failure :
      (s : Session) (t : Task)
      → HasUniqueIds s.tasks
      → get_task t.id s ≡ some t
      → (s' : Session) → report_result env t false error s ≡ return s'
      → should_retry t.retry_count t.max_retries ≡ false
      → get_task t.id s' ≡ some (mark_failed env.now error t)
  failure s t unique row s' returned spent =
      elim (report_result-failure env t error s s' unique row returned) [
        | inl (again, _) ↦ absurd (ground arith)
        | inr (_, gone) ↦ gone
      ]

  fails :
      (k : ℕ) (s : Session) (t : Task)
      → get_run t.run_id s ≡ some run
      → HasUniqueIds s.tasks
      → get_task t.id s ≡ some t
      → t.retry_count + k ≡ t.max_retries
      → t.max_retries ≤ 1024
      → EndsFailed t.id t.max_retries (fail_times (suc k) env t.id error s)
  fails zero s t found unique row left small =
      let spent : should_retry t.retry_count t.max_retries ≡ false =
        unfold should_retry in ground arith in
      let (s', returned) = last-returns s t found spent in
      let gone = failure s t unique row s' returned in
      (s', mark_failed env.now error t, rw (row, returned), gone spent, refl, omega arith)
  fails (suc k) s t found unique row left small =
      let again : should_retry t.retry_count t.max_retries ≡ true =
        unfold should_retry in ground arith in
      let (d, s', returned, runs, tasks) = retry-returns s t found (omega arith) again in
      let f = mark_retry (suc t.retry_count) error (env.now + d) in
      rw (row, returned)
        (fails k s' (f t) (rw runs found)
          (subst HasUniqueIds (sym tasks)
            (HasUniqueIds-map (change_task t.id f) s.tasks (λ r. ground arith) unique))
          (rw tasks (update-found f t s.tasks (λ r. refl) row)) (omega arith) small)

-- A task of a run that is not cancelled may fail as often as its retries allow, and one failure more
-- fails it for good: after `max_retries` less its present count, and one, reports of failure it is
-- failed, with `max_retries` retries behind it, and no report raises. (Task ids are unique, and the
-- task allows 1024 retries at most.)
pub fail_times_lem :
    (env : Env) (error : Option ErrorText) (run : WorkflowRun) (k : ℕ) (s : Session) (t : Task)
    → is_run_cancelled run.status ≡ false
    → get_run t.run_id s ≡ some run
    → HasUniqueIds s.tasks
    → get_task t.id s ≡ some t
    → t.retry_count + k ≡ t.max_retries
    → t.max_retries ≤ 1024
    → EndsFailed t.id t.max_retries (fail_times (suc k) env t.id error s)
fail_times_lem env error run k s t active = fails env error run active k s t
