-- ===== src/Scheduler/Written.antt =====
-- The rows that the transactions of app/scheduler.py are to write, field by field: what the theorems compare the
-- updates with.
use auto_bot.Prelude.{ℕ, suc, String, Option, none, some}
use auto_bot.Models.{Task, TaskStatus, ErrorText}

-- Queued at this time.
abbrev pub queued_at : ℕ → Task → Task
queued_at now t = record {
  id = t.id;
  run_id = t.run_id;
  task_name = t.task_name;
  depends_on = t.depends_on;
  status = TaskStatus.queued;
  retry_count = t.retry_count;
  max_retries = t.max_retries;
  worker_id = t.worker_id;
  dispatched_at = some now;
  started_at = t.started_at;
  completed_at = t.completed_at;
  error_message = t.error_message;
  logs = t.logs;
}

-- Running on this worker since this time.
abbrev pub running_on : ℕ → String → Task → Task
running_on now worker t = record {
  id = t.id;
  run_id = t.run_id;
  task_name = t.task_name;
  depends_on = t.depends_on;
  status = TaskStatus.running;
  retry_count = t.retry_count;
  max_retries = t.max_retries;
  worker_id = some worker;
  dispatched_at = t.dispatched_at;
  started_at = some now;
  completed_at = t.completed_at;
  error_message = t.error_message;
  logs = t.logs;
}

-- Successful since this time, with no error left from an earlier attempt.
abbrev pub succeeded_at : ℕ → Task → Task
succeeded_at now t = record {
  id = t.id;
  run_id = t.run_id;
  task_name = t.task_name;
  depends_on = t.depends_on;
  status = TaskStatus.success;
  retry_count = t.retry_count;
  max_retries = t.max_retries;
  worker_id = t.worker_id;
  dispatched_at = t.dispatched_at;
  started_at = t.started_at;
  completed_at = some now;
  error_message = none;
  logs = t.logs;
}

-- Failed at this time, with this error.
abbrev pub failed_at : ℕ → Option ErrorText → Task → Task
failed_at now error t = record {
  id = t.id;
  run_id = t.run_id;
  task_name = t.task_name;
  depends_on = t.depends_on;
  status = TaskStatus.failed;
  retry_count = t.retry_count;
  max_retries = t.max_retries;
  worker_id = t.worker_id;
  dispatched_at = t.dispatched_at;
  started_at = t.started_at;
  completed_at = some now;
  error_message = error;
  logs = t.logs;
}

-- Queued for one more attempt, which is due at this time, and on no worker.
abbrev pub retried_at : Option ErrorText → ℕ → Task → Task
retried_at error due t = record {
  id = t.id;
  run_id = t.run_id;
  task_name = t.task_name;
  depends_on = t.depends_on;
  status = TaskStatus.queued;
  retry_count = suc t.retry_count;
  max_retries = t.max_retries;
  worker_id = none;
  dispatched_at = some due;
  started_at = none;
  completed_at = none;
  error_message = error;
  logs = t.logs;
}
