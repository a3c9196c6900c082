-- ===== src/Api/Requests.antt =====
-- The endpoints of app/main.py that change the tables, with the validator of app/schemas.py. The ids
-- of new rows are arguments; `definition` is the payload's `model_dump()`, by pydantic.
use auto_bot.Prelude.{
  ℕ, String, List, [], ◌∷◌, ◌++◌, Option, none, some, Bool, true, false, ◌||◌, if◌then◌else◌,
}
use auto_bot.Api.{
  Reply, reply, http_error, crash, RunDetail, run_detail, found_or_404, get_run_or_404, find_task,
}
use auto_bot.Cron.{Apscheduler, add_job, get_workflow_row, create_and_resolve, validate_cron}
use auto_bot.Dag.Parse.{is_blank}
use auto_bot.Dag.Spec as Spec
use auto_bot.Dag.Spec.{Fields, TaskSpec}
use auto_bot.Dag.Validate.{validate_definition}
use auto_bot.Models.{
  ErrorText, simulated_failure, Workflow, WorkflowRun, Task, is_terminal, is_queued, is_running,
}
use auto_bot.Scheduler.Operations.{cancel_run, report_result}
use auto_bot.Scheduler.Session.{
  Session, Env, Fault, bad_dag, attribute_error, no_delay, run_not_found, run_already, Outcome,
  return, raise, get_run,
}

-- `WorkflowCreate` of app/schemas.py, as a request gives it.
pub record WorkflowCreate : Type 0 where
  pub name : String
  pub definition : Fields
  pub schedule : Option String

unfoldable pub detail_of : Env → Option WorkflowRun → Session → Session × Reply RunDetail
unfolding run_detail
detail_of env none s = (s, crash)
detail_of env (some run) s = (s, reply (run_detail env run s))

-- What becomes of an exception: a `DagValidationError` is a 422.
abbrev pub dag_error : Fault → Reply RunDetail
dag_error (bad_dag e) = http_error 422
dag_error attribute_error = crash
dag_error no_delay = crash
dag_error (run_not_found i) = crash
dag_error (run_already status) = crash

unfoldable pub trigger_result : Env → ℕ → Session → Outcome Session → Session × Reply RunDetail
unfolding detail_of
trigger_result env run_id s (raise fault) = (s, dag_error fault)
trigger_result env run_id s (return s') = detail_of env (get_run run_id s') s'

unfoldable pub trigger_found :
    Env → ℕ → (ℕ → ℕ) → Reply Workflow → Session → Session × Reply RunDetail
unfolding create_and_resolve trigger_result
trigger_found env run_id uuid (http_error code) s = (s, http_error code)
trigger_found env run_id uuid crash s = (s, crash)
trigger_found env run_id uuid (reply workflow) s =
    trigger_result env run_id s (create_and_resolve env run_id uuid workflow s)

-- POST /workflows/{workflow_id}/trigger
unfoldable pub trigger_workflow : Env → ℕ → (ℕ → ℕ) → ℕ → Session → Session × Reply RunDetail
unfolding trigger_found
trigger_workflow env run_id uuid workflow_id s =
    trigger_found env run_id uuid (found_or_404 (get_workflow_row workflow_id s)) s

unfoldable pub cancel_result : Env → ℕ → Session → Outcome Session → Session × Reply RunDetail
unfolding detail_of
cancel_result env run_id s (raise fault) = (s, http_error 409)
cancel_result env run_id s (return s') = detail_of env (get_run run_id s') s'

unfoldable pub cancel_known : Env → ℕ → Reply WorkflowRun → Session → Session × Reply RunDetail
unfolding cancel_result
cancel_known env run_id (http_error code) s = (s, http_error code)
cancel_known env run_id crash s = (s, crash)
cancel_known env run_id (reply run) s = cancel_result env run_id s (cancel_run env run_id s)

-- POST /runs/{run_id}/cancel
unfoldable pub cancel_workflow_run : Env → ℕ → Session → Session × Reply RunDetail
unfolding cancel_known
cancel_workflow_run env run_id s = cancel_known env run_id (get_run_or_404 run_id s) s

unfoldable pub simulate_result : Env → ℕ → Session → Outcome Session → Session × Reply RunDetail
unfolding detail_of
simulate_result env run_id s (raise fault) = (s, crash)
simulate_result env run_id s (return s') = detail_of env (get_run run_id s') s'

abbrev pub simulated_error : Bool → Option ErrorText
simulated_error true = none
simulated_error false = some simulated_failure

unfoldable pub simulate_task : Env → ℕ → Bool → Option Task → Session → Session × Reply RunDetail
unfolding simulate_result
simulate_task env run_id succeed none s = (s, http_error 404)
simulate_task env run_id succeed (some task) s =
    let reported =
      simulate_result env run_id s (report_result env task succeed (simulated_error succeed) s) in
    if is_queued task.status || is_running task.status then reported else (s, http_error 409)

unfoldable pub simulate_run :
    Env → ℕ → String → Bool → Reply WorkflowRun → Session → Session × Reply RunDetail
unfolding simulate_task
simulate_run env run_id task_name succeed (http_error code) s = (s, http_error code)
simulate_run env run_id task_name succeed crash s = (s, crash)
simulate_run env run_id task_name succeed (reply run) s =
    if is_terminal run.status
    then (s, http_error 409)
    else simulate_task env run_id succeed (find_task run_id task_name s) s

-- POST /runs/{run_id}/tasks/{task_name}/simulate; `enabled` is ENABLE_SIMULATE_ENDPOINT.
unfoldable pub simulate_task_result :
    Env → Bool → ℕ → String → Bool → Session → Session × Reply RunDetail
unfolding simulate_run
simulate_task_result env enabled run_id task_name succeed s =
    if enabled
    then simulate_run env run_id task_name succeed (get_run_or_404 run_id s) s
    else (s, http_error 404)

module _ {Jobs Trigger : Type 0} (cron : Apscheduler Jobs Trigger) where
  -- _validate_schedule. `none` is the `ValueError`.
  unfoldable pub validate_schedule : Option String → Option (Option String)
  unfolding validate_cron
  validate_schedule none = some none
  validate_schedule (some value) =
      if is_blank value
      then some none
      else if validate_cron cron value
      then some (some value)
      else none

  abbrev pub new_workflow : Env → ℕ → WorkflowCreate → Option String → Workflow
  new_workflow env id payload schedule = record {
    id = id;
    name = payload.name;
    definition = payload.definition;
    schedule = schedule;
    created_at = env.now;
  }

  abbrev pub job_result :
      Workflow → Session → Jobs → Option Jobs → Session × Option Jobs × Reply Workflow
  job_result workflow s jobs none = (s, some jobs, crash)
  job_result workflow s jobs (some jobs') = (s, some jobs', reply workflow)

  unfoldable pub arm : Workflow → Session → Option Jobs → Session × Option Jobs × Reply Workflow
  unfolding add_job
  arm workflow s none = (s, none, reply workflow)
  arm workflow s (some jobs) = job_result workflow s jobs (add_job cron workflow jobs)

  unfoldable pub register_valid :
      Workflow
      → Spec.Result (List TaskSpec)
      → Option Jobs
      → Session
      → Session × Option Jobs × Reply Workflow
  unfolding arm
  register_valid workflow (Spec.err e) jobs s = (s, jobs, http_error 422)
  register_valid workflow (Spec.ok specs) jobs s =
      arm workflow (record s { workflows = s.workflows ++ workflow ∷ [] }) jobs

  unfoldable pub register_checked :
      Env
      → ℕ
      → WorkflowCreate
      → Option (Option String)
      → Option Jobs
      → Session
      → Session × Option Jobs × Reply Workflow
  unfolding register_valid
  register_checked env id payload none jobs s = (s, jobs, http_error 422)
  register_checked env id payload (some schedule) jobs s =
      register_valid (new_workflow env id payload schedule) (validate_definition payload.definition)
        jobs s

  -- POST /workflows; `jobs` is `app.state.cron_scheduler`.
  unfoldable pub register_workflow :
      Env → ℕ → WorkflowCreate → Option Jobs → Session → Session × Option Jobs × Reply Workflow
  unfolding validate_schedule register_checked
  register_workflow env id payload jobs s =
      register_checked env id payload (validate_schedule payload.schedule) jobs s
