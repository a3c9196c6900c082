-- ===== src/Examples/Runs.antt =====
-- The theorems of app/scheduler.py and app/retry.py on the example's tables.
use auto_bot.Prelude.{
  ℕ, ◌+◌, ◌≤◌, ◌≡◌, ◌⊎◌, refl, String, List, [], ◌∷◌, map, Option, some, true, false, not,
  if◌then◌else◌, all, All, arith, ◌&&◌, ◌||◌, eqb, ◌==◌,
}
use auto_bot.Dag.Finish.{IsRunOf, is_run_finished-is_run_failed}
use auto_bot.Dag.Order.{topological_order}
use auto_bot.Dag.Parse.{parse_definition}
use auto_bot.Dag.Runnable.{is_run_finished, is_run_failed, get_runnable_tasks}
use auto_bot.Dag.Validate.{validate_definition}
use auto_bot.Models.{
  Task, TaskStatus, RunStatus, is_success, is_pending, is_queued, ErrorText, simulated_failure,
}
use auto_bot.Retry.{backoff_delay, capped_delay, spread_of, should_retry}
use auto_bot.Retry.Bounds.{IsUniform, steady, backoff_delay_bounds}
use auto_bot.Scheduler.Session.{Session, return, raise, run_already, get_task, get_run, change_run}
use auto_bot.Scheduler.Operations.{
  create_run, load_tasks, dispatch, resolve, requeue_for_retry, report_result, claim, cancel_run,
  mark_queued, was_cancelled, new_run, new_tasks, new_task, requeued, close_run, cancel_task,
}
use auto_bot.Scheduler.Claim.{claim_lem}
use auto_bot.Scheduler.Cancel.{cancel_run_rest}
use auto_bot.Scheduler.Deps.{DepsDone}
use auto_bot.Scheduler.Exhaust.{EndsFailed, fail_times, fail_times_lem}
use auto_bot.Scheduler.Progress.{Settles, resolve_progress}
use auto_bot.Scheduler.Report.{report_result-failure, will_retry}
use auto_bot.Scheduler.Steps.{start, next, created, ticked, claimed, Reach-DepsDone}
use auto_bot.Scheduler.Rows.{HasUniqueIds}
use auto_bot.Scheduler.Tick.{resolve-tasks, tick_row, done_names}
use auto_bot.Examples.Data.{
  env, specs, settings, clean, fetch, run, early, later, empty, workflow, row,
}
use auto_bot.Scheduler.Written.{failed_at, running_on, retried_at}

error : Option ErrorText
error = some simulated_failure

unique_early : HasUniqueIds early.tasks
unique_early = (refl, (refl, (refl, tt)))

unique_later : HasUniqueIds later.tasks
unique_later = (refl, (refl, (refl, tt)))

abbrev new_rows : List Task
new_rows = new_tasks env (λ i. 10 + i) 0 1 specs

abbrev triggered : Session
triggered = record empty { runs = new_run env 1 workflow ∷ []; tasks = new_rows }

abbrev first : Task
first = new_task env 12 1 (record { id = "fetch"; depends_on = []; max_retries = some 1 })

abbrev waved : Session
waved = dispatch env (first ∷ []) triggered

triggering : create_run env 1 (λ i. 10 + i) workflow empty ≡ return (1, triggered)
unfolding create_run validate_definition parse_definition topological_order
triggering = refl

waving : resolve env 1 triggered ≡ return (map (mark_queued env.now) (first ∷ []), waved)
unfolding resolve load_tasks dispatch get_runnable_tasks
waving = refl

Reach-DepsDone_example : DepsDone (claim env 12 "w" waved).1.tasks
Reach-DepsDone_example = Reach-DepsDone empty (claim env 12 "w" waved).1 refl (
    next
      (next
        (next start (created env 1 (λ i. 10 + i) workflow triggering (refl, (refl, (refl, tt)))))
        (ticked env 1 (map (mark_queued env.now) (first ∷ [])) waving))
      (claimed env 12 "w" refl))

resolve_progress_example : Settles 1 (resolve env 1 early)
resolve_progress_example = resolve_progress env 1 early run refl refl

next_wave :
    resolve env 1 later
    ≡ return (map (mark_queued env.now) (clean ∷ []), dispatch env (clean ∷ []) later)
unfolding resolve load_tasks dispatch get_runnable_tasks
next_wave = refl

resolve-tasks_example : (dispatch env (clean ∷ []) later).tasks ≡ (
    if was_cancelled (get_run 1 later)
    then later.tasks
    else map (tick_row env 1 (done_names 1 later.tasks)) later.tasks)
resolve-tasks_example =
    resolve-tasks env 1 later (dispatch env (clean ∷ []) later)
      (map (mark_queued env.now) (clean ∷ [])) unique_later next_wave

abbrev broken : List Task
broken = row 12 "fetch" [] TaskStatus.failed ∷ clean ∷ []

abbrev rank : String → ℕ
rank x = if "fetch" == x then 0 else if "clean" == x then 1 else 2

broken-IsRunOf : All (IsRunOf rank broken) broken
broken-IsRunOf = (((λ h. cc), λ d h. cc), (((λ h. cc), λ d h. ground arith), tt))

broken_finished : is_run_finished broken ≡ true
unfolding is_run_finished get_runnable_tasks
broken_finished = refl

is_run_finished-is_run_failed_example :
    is_run_failed broken ≡ not (all (λ t. is_success t.status) broken)
is_run_finished-is_run_failed_example =
    is_run_finished-is_run_failed rank broken broken-IsRunOf broken_finished

fail_times_lem_example : EndsFailed 12 1 (fail_times 2 env 12 error early)
fail_times_lem_example =
    fail_times_lem env error run 1 early fetch refl refl unique_early refl refl (omega arith)

retrying :
    report_result env fetch false error early ≡ return (requeued env fetch error 2000000 early)
unfolding report_result requeue_for_retry backoff_delay should_retry
retrying = refl

report_result-failure_example :
    (will_retry early fetch ≡ true)
      × ((d : ℕ) × (backoff_delay env.retry env.uniform 1 ≡ some d)
          × (get_task 12 (requeued env fetch error 2000000 early)
              ≡ some (retried_at error (env.now + d) fetch)))
    ⊎ (will_retry early fetch ≡ false)
      × (get_task 12 (requeued env fetch error 2000000 early)
          ≡ some (failed_at env.now error fetch))
report_result-failure_example =
    report_result-failure env fetch error early (requeued env fetch error 2000000 early)
      unique_early refl retrying

claim_lem_example :
    ((claim env 12 "w" early).0 ≡ true)
    × (get_task 12 (claim env 12 "w" early).1 ≡ some (running_on env.now "w" fetch))
claim_lem_example = claim_lem env 12 "w" early fetch unique_early refl

abbrev stopped : Session
stopped = record early {
  runs = map (change_run 1 (close_run env.now RunStatus.cancelled)) early.runs;
  tasks = map (cancel_task 1) early.tasks;
}

stopping : cancel_run env 1 early ≡ return stopped
unfolding cancel_run
stopping = refl

cancel_run_rest_example :
    (resolve env 1 stopped ≡ return ([], stopped))
    × (cancel_run env 1 stopped ≡ raise (run_already RunStatus.cancelled))
    × All (λ t. eqb t.run_id 1 && (is_pending t.status || is_queued t.status) ≡ false) stopped.tasks
cancel_run_rest_example = cancel_run_rest env env 1 early stopped stopping

centred : IsUniform env.uniform
centred spread = (ground arith, ground arith)

backoff_delay_bounds_example :
    (d : ℕ) × (backoff_delay settings env.uniform 2 ≡ some d)
    × (capped_delay settings 1 ≤ d + spread_of settings (capped_delay settings 1))
    × (d ≤ capped_delay settings 1 + spread_of settings (capped_delay settings 1))
    × (d ≤ settings.maximum + spread_of settings settings.maximum)
backoff_delay_bounds_example = backoff_delay_bounds settings env.uniform 1 (omega arith) centred

steady_delay : backoff_delay (steady settings) env.uniform 1 ≡ some 2000000
unfolding backoff_delay
steady_delay = refl
