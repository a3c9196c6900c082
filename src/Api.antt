-- ===== src/Api.antt =====
-- app/main.py: the endpoints, each a function from the tables to the tables and a reply. An endpoint
-- that raises leaves the tables as they were, since nothing is committed.
pub mod Requests
pub mod Graph
pub mod Socket
pub mod Sound
pub mod Safe
pub mod Trigger
pub mod Started
pub mod Closed
pub mod Fine
pub mod Completed
use auto_bot.Prelude.{
  ℕ, String, List, [], ◌∷◌, ◌++◌, map, Option, none, some, Bool, true, false, not, ◌&&◌, ◌||◌, eqb,
  leb, find, ◌==◌, if◌then◌else◌,
}
use auto_bot.Prelude.Sort.{sort}
use auto_bot.Dag.Parse.{is_blank}
use auto_bot.Dag.Runnable.{get_runnable_tasks}
use auto_bot.Dag.Spec as Spec
use auto_bot.Dag.Spec.{Fields}
use auto_bot.Dag.Validate.{validate_definition}
use auto_bot.Models.{
  ErrorText, simulated_failure, Workflow, WorkflowRun, Task, TaskStatus, is_terminal, is_queued,
  is_running,
}
use auto_bot.Scheduler.Session.{Session, Env, Fault, bad_dag, Outcome, return, raise, get_run}
use auto_bot.Scheduler.Operations.{load_tasks, create_run, resolve, cancel_run, report_result}
use auto_bot.Cron.{Apscheduler, add_job, get_workflow_row, create_and_resolve, validate_cron}

-- An endpoint's value, the status of an `HTTPException`, or an exception that it does not catch.
pub data Reply {ℓ} (A : Type ℓ) : Type ℓ where
  reply : A → Reply A
  http_error : ℕ → Reply A
  crash : Reply A

abbrev pub reply_map {ℓ κ} : {A : Type ℓ} {B : Type κ} → (A → B) → Reply A → Reply B
reply_map f (reply a) = reply (f a)
reply_map f (http_error code) = http_error code
reply_map f crash = crash

abbrev pub found_or_404 {ℓ} : {A : Type ℓ} → Option A → Reply A
found_or_404 none = http_error 404
found_or_404 (some a) = reply a

-- `TaskOut` of app/schemas.py.
pub record TaskOut : Type 0 where
  pub id : ℕ
  pub run_id : ℕ
  pub task_name : String
  pub depends_on : List String
  pub status : TaskStatus
  pub retry_count : ℕ
  pub max_retries : ℕ
  pub worker_id : Option String
  pub started_at : Option ℕ
  pub completed_at : Option ℕ
  pub error_message : Option ErrorText
  pub logs : Option String

abbrev pub task_out : Task → TaskOut
task_out t = record {
  id = t.id;
  run_id = t.run_id;
  task_name = t.task_name;
  depends_on = t.depends_on;
  status = t.status;
  retry_count = t.retry_count;
  max_retries = t.max_retries;
  worker_id = t.worker_id;
  started_at = t.started_at;
  completed_at = t.completed_at;
  error_message = t.error_message;
  logs = t.logs;
}

-- `RunDetail` of app/schemas.py; `RunOut` has the columns of the row.
pub record RunDetail : Type 0 where
  pub run : WorkflowRun
  pub tasks : List TaskOut
  pub runnable_now : List String

-- _run_detail
unfoldable pub run_detail : Env → WorkflowRun → Session → RunDetail
run_detail env run s =
    let tasks = load_tasks env run.id s in
    record {
      run = run;
      tasks = map task_out tasks;
      runnable_now = map (λ t. t.task_name) (get_runnable_tasks tasks);
    }

-- _get_run_or_404
abbrev pub get_run_or_404 : ℕ → Session → Reply WorkflowRun
get_run_or_404 run_id s = found_or_404 (get_run run_id s)

-- GET /workflows/{workflow_id}
unfoldable pub get_workflow : ℕ → Session → Reply Workflow
get_workflow workflow_id s = found_or_404 (get_workflow_row workflow_id s)

-- GET /workflows, the latest first
unfoldable pub list_workflows : Session → List Workflow
list_workflows s = sort (λ (v w : Workflow). leb w.created_at v.created_at) s.workflows

-- GET /runs/{run_id}
unfoldable pub get_run_detail : Env → ℕ → Session → Reply RunDetail
unfolding run_detail
get_run_detail env run_id s = reply_map (λ run. run_detail env run s) (get_run_or_404 run_id s)

-- GET /runs/{run_id}/tasks
unfoldable pub get_run_tasks : Env → ℕ → Session → Reply (List TaskOut)
get_run_tasks env run_id s =
    reply_map (λ run. map task_out (load_tasks env run_id s)) (get_run_or_404 run_id s)

-- GET /runs, the latest first
unfoldable pub list_runs : Session → List WorkflowRun
list_runs s = sort (λ (q r : WorkflowRun). leb r.triggered_at q.triggered_at) s.runs

abbrev pub find_task : ℕ → String → Session → Option Task
find_task run_id task_name s = find (λ t. eqb t.run_id run_id && t.task_name == task_name) s.tasks

-- The reply's task_name, attempt and logs.
pub record TaskLogs : Type 0 where
  pub task_name : String
  pub attempt : ℕ
  pub logs : Option String

abbrev pub logs_of : String → Task → TaskLogs
logs_of task_name t = record { task_name = task_name; attempt = t.retry_count; logs = t.logs }

abbrev pub logs_in : ℕ → String → Session → Reply WorkflowRun → Reply TaskLogs
logs_in run_id task_name s (reply run) =
    reply_map (logs_of task_name) (found_or_404 (find_task run_id task_name s))
logs_in run_id task_name s (http_error code) = http_error code
logs_in run_id task_name s crash = crash

-- GET /runs/{run_id}/tasks/{task_name}/logs
unfoldable pub get_task_logs : ℕ → String → Session → Reply TaskLogs
get_task_logs run_id task_name s = logs_in run_id task_name s (get_run_or_404 run_id s)
