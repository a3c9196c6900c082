-- ===== src/Models.antt =====
-- app/models.py: the rows of the database. An id (a UUID) is a number, a time a number of
-- microseconds, and a message of the log or of an error its template with the parts that it quotes.
use auto_bot.Prelude.{ℕ, String, List, Option, Bool, true, false}
use auto_bot.Dag.Spec.{Fields}

pub data RunStatus : Type 0 where
  pending running completed failed cancelled : RunStatus

pub data TaskStatus : Type 0 where
  pending queued running success failed cancelled : TaskStatus

pub data WorkerStatus : Type 0 where
  idle busy : WorkerStatus

-- status in TERMINAL_RUN_STATUSES
abbrev pub is_terminal : RunStatus → Bool
is_terminal RunStatus.completed = true
is_terminal RunStatus.failed = true
is_terminal RunStatus.cancelled = true
is_terminal RunStatus.pending = false
is_terminal RunStatus.running = false

abbrev pub is_run_cancelled : RunStatus → Bool
is_run_cancelled RunStatus.cancelled = true
is_run_cancelled RunStatus.completed = false
is_run_cancelled RunStatus.failed = false
is_run_cancelled RunStatus.pending = false
is_run_cancelled RunStatus.running = false

abbrev pub is_pending : TaskStatus → Bool
is_pending TaskStatus.pending = true
is_pending TaskStatus.queued = false
is_pending TaskStatus.running = false
is_pending TaskStatus.success = false
is_pending TaskStatus.failed = false
is_pending TaskStatus.cancelled = false

abbrev pub is_queued : TaskStatus → Bool
is_queued TaskStatus.queued = true
is_queued TaskStatus.pending = false
is_queued TaskStatus.running = false
is_queued TaskStatus.success = false
is_queued TaskStatus.failed = false
is_queued TaskStatus.cancelled = false

abbrev pub is_running : TaskStatus → Bool
is_running TaskStatus.running = true
is_running TaskStatus.pending = false
is_running TaskStatus.queued = false
is_running TaskStatus.success = false
is_running TaskStatus.failed = false
is_running TaskStatus.cancelled = false

abbrev pub is_success : TaskStatus → Bool
is_success TaskStatus.success = true
is_success TaskStatus.pending = false
is_success TaskStatus.queued = false
is_success TaskStatus.running = false
is_success TaskStatus.failed = false
is_success TaskStatus.cancelled = false

abbrev pub is_failed : TaskStatus → Bool
is_failed TaskStatus.failed = true
is_failed TaskStatus.pending = false
is_failed TaskStatus.queued = false
is_failed TaskStatus.running = false
is_failed TaskStatus.success = false
is_failed TaskStatus.cancelled = false

-- The texts that the program stores in `error_message`.
pub data ErrorText : Type 0 where
  raised : String → String → ErrorText
  worker_gone : Option String → ErrorText
  stuck_queued : ℕ → ErrorText
  simulated_failure : ErrorText

pub record Workflow : Type 0 where
  pub id : ℕ
  pub name : String
  pub definition : Fields
  pub schedule : Option String
  pub created_at : ℕ

pub record WorkflowRun : Type 0 where
  pub id : ℕ
  pub workflow_id : ℕ
  pub status : RunStatus
  pub triggered_at : ℕ
  pub completed_at : Option ℕ

pub record Task : Type 0 where
  pub id : ℕ
  pub run_id : ℕ
  pub task_name : String
  pub depends_on : List String
  pub status : TaskStatus
  pub retry_count : ℕ
  pub max_retries : ℕ
  pub worker_id : Option String
  pub dispatched_at : Option ℕ
  pub started_at : Option ℕ
  pub completed_at : Option ℕ
  pub error_message : Option ErrorText
  pub logs : Option String

pub record WorkerRow : Type 0 where
  pub id : String
  pub last_heartbeat : Option ℕ
  pub status : WorkerStatus
