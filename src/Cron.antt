-- ===== src/Cron.antt =====
-- app/cron.py: the jobs that trigger scheduled workflows. APScheduler is a parameter: what a scheduler
-- holds is a state `Jobs`, and a parsed cron expression is a `Trigger`.
pub mod Armed
use auto_bot.Prelude.{
  true, false, keep, Bool, ℕ, String, List, [], ◌∷◌, Option, none, some, find, eqb,
}
use auto_bot.Models.{Workflow}
use auto_bot.Scheduler.Session.{Session, Env, Outcome, return, raise, ◌>>=◌}
use auto_bot.Scheduler.Operations.{create_run, resolve}

-- f"workflow:{workflow_id}"
pub data JobId : Type 0 where
  workflow_job : ℕ → JobId

-- The calls of APScheduler. `from_crontab` raises `ValueError` for an expression that is not valid, and
-- `remove_job` raises if there is no such job. A job is its trigger and the workflow that it is for.
pub record Apscheduler (Jobs Trigger : Type 0) : Type 0 where
  pub from_crontab : String → Option Trigger
  pub new_scheduler : Jobs
  pub add_job : JobId → Trigger → ℕ → Jobs → Jobs
  pub remove_job : JobId → Jobs → Option Jobs

-- session.get(Workflow, workflow_id)
abbrev pub get_workflow_row : ℕ → Session → Option Workflow
get_workflow_row workflow_id s = find (λ w. eqb w.id workflow_id) s.workflows

-- The transaction of a trigger. `run_id` and `uuid` are fresh ids.
unfoldable pub create_and_resolve : Env → ℕ → (ℕ → ℕ) → Workflow → Session → Outcome Session
create_and_resolve env run_id uuid workflow s = do
  (id, created) ← create_run env run_id uuid workflow s
  (dispatched, resolved) ← resolve env id created
  return resolved

-- Commit, or roll back and log.
abbrev pub commit_or_not : Session → Outcome Session → Session
commit_or_not s (return s') = s'
commit_or_not s (raise fault) = s

abbrev pub run_found : Env → ℕ → (ℕ → ℕ) → Option Workflow → Session → Session
run_found env run_id uuid none s = s
run_found env run_id uuid (some workflow) s =
    commit_or_not s (create_and_resolve env run_id uuid workflow s)

-- _run_scheduled
unfoldable pub run_scheduled : Env → ℕ → (ℕ → ℕ) → ℕ → Session → Session
unfolding create_and_resolve
run_scheduled env run_id uuid workflow_id s =
    run_found env run_id uuid (get_workflow_row workflow_id s) s

-- schedule IS NOT NULL
abbrev pub has_schedule : Option String → Bool
has_schedule none = false
has_schedule (some schedule) = true

module _ {Jobs Trigger : Type 0} (cron : Apscheduler Jobs Trigger) where
  abbrev pub is_some : Option Trigger → Bool
  is_some none = false
  is_some (some trigger) = true

  -- validate_cron. `false` is the `ValueError`.
  unfoldable pub validate_cron : String → Bool
  validate_cron expression = is_some (cron.from_crontab expression)

  abbrev pub armed : ℕ → Option Trigger → Jobs → Option Jobs
  armed id none jobs = none
  armed id (some trigger) jobs = some (cron.add_job (workflow_job id) trigger id jobs)

  abbrev pub add_scheduled : ℕ → Option String → Jobs → Option Jobs
  add_scheduled id none jobs = some jobs
  add_scheduled id (some String.[]) jobs = some jobs
  add_scheduled id (some (String.◌∷◌ c cs)) jobs =
      armed id (cron.from_crontab (String.◌∷◌ c cs)) jobs

  -- add_job. `none` is the `ValueError` of a schedule that is not valid.
  unfoldable pub add_job : Workflow → Jobs → Option Jobs
  add_job workflow jobs = add_scheduled workflow.id workflow.schedule jobs

  abbrev pub or_unchanged : Option Jobs → Jobs → Jobs
  or_unchanged none jobs = jobs
  or_unchanged (some jobs') jobs = jobs'

  -- remove_job. No job to remove is not an error.
  unfoldable pub remove_job : ℕ → Jobs → Jobs
  remove_job workflow_id jobs = or_unchanged (cron.remove_job (workflow_job workflow_id) jobs) jobs

  -- A `ValueError` ends the loop.
  abbrev pub next_job : (Jobs → Option Jobs) → Option Jobs → Option Jobs
  next_job rest none = none
  next_job rest (some jobs) = rest jobs

  -- The loop of `start` over the rows whose schedule is not null.
  pub add_jobs : List Workflow → Jobs → Option Jobs
  unfolding add_job
  add_jobs [] jobs = some jobs
  add_jobs (w ∷ ws) jobs = next_job (add_jobs ws) (add_job w jobs)

  -- start, before `sched.start()`.
  unfoldable pub start : Session → Option Jobs
  unfolding add_jobs
  start s = add_jobs (keep (λ w. has_schedule w.schedule) s.workflows) cron.new_scheduler
