-- ===== src/Examples/Data.antt =====
-- The workflow of the README, a chain with a join, as JSON and as tables.
use auto_bot.Prelude.{ℕ, String, List, [], ◌∷◌, none, some}
use auto_bot.Prelude.Int.{pos}
use auto_bot.Dag.Order.{string_le}
use auto_bot.Dag.Spec.{TaskSpec, Fields, field, end, list, dict, nil, cons, str, int}
use auto_bot.Models.{Workflow, WorkflowRun, RunStatus, Task, TaskStatus}
use auto_bot.Retry.{RetrySettings}
use auto_bot.Scheduler.Session.{Session, Env}

abbrev pub definition : Fields
definition =
    field "workflow"
      (list (
        cons
          (dict (
            field "id" (str "report")
              (field "depends_on" (list (cons (str "fetch") (cons (str "clean") nil))) end)))
          (cons
            (dict
              (field "id" (str "clean") (field "depends_on" (list (cons (str "fetch") nil)) end)))
            (cons (dict (field "id" (str "fetch") (field "max_retries" (int (pos 1)) end))) nil))))
      end

abbrev pub specs : List TaskSpec
specs =
    record { id = "report"; depends_on = "fetch" ∷ "clean" ∷ []; max_retries = none }
    ∷ record { id = "clean"; depends_on = "fetch" ∷ []; max_retries = none }
    ∷ record { id = "fetch"; depends_on = []; max_retries = some 1 }
    ∷ []

-- Two tasks that wait for each other, and one that waits for none.
abbrev pub looped : List TaskSpec
looped =
    record { id = "a"; depends_on = "b" ∷ []; max_retries = none }
    ∷ record { id = "b"; depends_on = "a" ∷ []; max_retries = none }
    ∷ record { id = "c"; depends_on = []; max_retries = none }
    ∷ []

abbrev pub settings : RetrySettings
settings = record { base = 2000000; maximum = 60000000; jitter = 250 }

abbrev pub env : Env
env = record {
  now = 100;
  name_le = string_le;
  default_max_retries = 3;
  retry = settings;
  uniform = λ spread. pos 0;
}

abbrev pub row : ℕ → String → List String → TaskStatus → Task
row id name deps status = record {
  id = id;
  run_id = 1;
  task_name = name;
  depends_on = deps;
  status = status;
  retry_count = 0;
  max_retries = 1;
  worker_id = none;
  dispatched_at = none;
  started_at = none;
  completed_at = none;
  error_message = none;
  logs = none;
}

abbrev pub report : Task
report = row 10 "report" ("fetch" ∷ "clean" ∷ []) TaskStatus.pending

abbrev pub clean : Task
clean = row 11 "clean" ("fetch" ∷ []) TaskStatus.pending

abbrev pub fetch : Task
fetch = row 12 "fetch" [] TaskStatus.queued

abbrev pub fetched : Task
fetched = row 12 "fetch" [] TaskStatus.success

abbrev pub run : WorkflowRun
run = record {
  id = 1;
  workflow_id = 7;
  status = RunStatus.running;
  triggered_at = 50;
  completed_at = none;
}

abbrev pub tables : List Task → Session
tables tasks = record { workflows = []; runs = run ∷ []; tasks = tasks; workers = []; outbox = [] }

abbrev pub early : Session
early = tables (report ∷ clean ∷ fetch ∷ [])

abbrev pub later : Session
later = tables (report ∷ clean ∷ fetched ∷ [])

abbrev pub empty : Session
empty = record { workflows = []; runs = []; tasks = []; workers = []; outbox = [] }

abbrev pub workflow : Workflow
workflow = record {
  id = 7;
  name = "nightly";
  definition = definition;
  schedule = none;
  created_at = 0;
}
