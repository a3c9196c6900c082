-- ===== src/Scheduler/Operations.antt =====
-- The functions of app/scheduler.py. `task` is the object that the caller holds; what a function
-- writes goes to the row with its id.
use auto_bot.Prelude.{
  ℕ, suc, ◌+◌, String, List, [], ◌∷◌, ◌++◌, map, Option, none, some, Bool, true, false, ◌&&◌, ◌||◌,
  keep, eqb, length, if◌then◌else◌,
}
use auto_bot.Prelude.Sort.{sort}
use auto_bot.Dag.Spec.{TaskSpec, Fields}
use auto_bot.Dag.Spec as Spec
use auto_bot.Dag.Validate.{validate_definition}
use auto_bot.Dag.Runnable.{get_runnable_tasks, is_run_finished, is_run_failed}
use auto_bot.Models.{
  ErrorText, Workflow, WorkflowRun, RunStatus, Task, TaskStatus, is_run_cancelled, is_terminal,
  is_pending, is_queued,
}
use auto_bot.Retry.{backoff_delay, should_retry}
use auto_bot.Scheduler.Session.{
  Session, Env, TaskMessage, Reason, exhausted, attribute_error, no_delay, run_not_found,
  run_already, bad_dag, Outcome, return, raise, ◌>>=◌, get_run, update_task, update_run,
  publish_on_commit,
}

-- A `DagValidationError` passes through.
abbrev pub from_dag {ℓ} : {A : Type ℓ} → Spec.Result A → Outcome A
from_dag (Spec.ok a) = return a
from_dag (Spec.err e) = raise (bad_dag e)

abbrev or_default : Option ℕ → ℕ → ℕ
or_default none d = d
or_default (some n) d = n

abbrev pub new_task : Env → ℕ → ℕ → TaskSpec → Task
new_task env id run_id spec = record {
  id = id;
  run_id = run_id;
  task_name = spec.id;
  depends_on = spec.depends_on;
  status = TaskStatus.pending;
  retry_count = 0;
  max_retries = or_default spec.max_retries env.default_max_retries;
  worker_id = none;
  dispatched_at = none;
  started_at = none;
  completed_at = none;
  error_message = none;
  logs = none;
}

-- `uuid i` is the id of the i-th task.
abbrev pub new_tasks : Env → (ℕ → ℕ) → ℕ → ℕ → List TaskSpec → List Task
new_tasks env uuid i run_id [] = []
new_tasks env uuid i run_id (spec ∷ specs) =
    new_task env (uuid i) run_id spec ∷ new_tasks env uuid (i + 1) run_id specs

abbrev pub new_run : Env → ℕ → Workflow → WorkflowRun
new_run env run_id workflow = record {
  id = run_id;
  workflow_id = workflow.id;
  status = RunStatus.running;
  triggered_at = env.now;
  completed_at = none;
}

-- `run_id` and `uuid` are the fresh ids that `uuid.uuid4` gives. It returns the run's id.
unfoldable pub create_run : Env → ℕ → (ℕ → ℕ) → Workflow → Session → Outcome (ℕ × Session)
create_run env run_id uuid workflow s = do
  specs ← from_dag (validate_definition workflow.definition)
  return (
    run_id,
    record s {
      runs = s.runs ++ new_run env run_id workflow ∷ [];
      tasks = s.tasks ++ new_tasks env uuid 0 run_id specs;
    },
  )

-- The order of the rows is the database's order of names.
unfoldable pub load_tasks : Env → ℕ → Session → List Task
load_tasks env run_id s =
    sort (λ a b. env.name_le a.task_name b.task_name) (keep (λ t. eqb t.run_id run_id) s.tasks)

-- The lock serialises the ticks of a run; what it reads is the row.
abbrev pub lock_run : ℕ → Session → Option WorkflowRun
lock_run = get_run

abbrev pub mark_queued : ℕ → Task → Task
mark_queued now t = record t { status = TaskStatus.queued; dispatched_at = some now }

abbrev pub message_of : Task → Option Reason → TaskMessage
message_of task reason = record {
  task_id = task.id;
  run_id = task.run_id;
  task_name = task.task_name;
  attempt = task.retry_count;
  reason = reason;
}

-- The first loop of `dispatch`.
abbrev pub queue_all : ℕ → List Task → Session → Session
queue_all now [] s = s
queue_all now (t ∷ ts) s = queue_all now ts (update_task t.id (mark_queued now) s)

-- The second loop.
abbrev pub publish_all : List Task → Session → Session
publish_all [] s = s
publish_all (t ∷ ts) s = publish_all ts (publish_on_commit (message_of t none) 0 false s)

unfoldable pub dispatch : Env → List Task → Session → Session
dispatch env tasks s = publish_all tasks (queue_all env.now tasks s)

abbrev tasks_or_load : Env → ℕ → Option (List Task) → Session → List Task
tasks_or_load env run_id none s = load_tasks env run_id s
tasks_or_load env run_id (some tasks) s = tasks

abbrev pub close_run : ℕ → RunStatus → WorkflowRun → WorkflowRun
close_run now status r = record r { status = status; completed_at = some now }

abbrev pub final_status : List Task → RunStatus
final_status tasks = if is_run_failed tasks then RunStatus.failed else RunStatus.completed

abbrev pub close_found : Env → ℕ → List Task → Option WorkflowRun → Session → Outcome Session
close_found env run_id tasks none s = raise attribute_error
close_found env run_id tasks (some run) s =
    return (update_run run_id (close_run env.now (final_status tasks)) s)

unfoldable pub finalize_if_done : Env → ℕ → Option (List Task) → Session → Outcome Session
unfolding load_tasks
finalize_if_done env run_id given s =
    let tasks = tasks_or_load env run_id given s in
    if is_run_finished tasks then close_found env run_id tasks (get_run run_id s) s else return s

abbrev pub dispatch_or_finalize :
    Env → ℕ → List Task → List Task → Session → Outcome (List Task × Session)
dispatch_or_finalize env run_id tasks [] s = do
  s' ← finalize_if_done env run_id (some tasks) s
  return ([], s')
dispatch_or_finalize env run_id tasks (t ∷ ts) s =
    return (map (mark_queued env.now) (t ∷ ts), dispatch env (t ∷ ts) s)

abbrev pub was_cancelled : Option WorkflowRun → Bool
was_cancelled none = false
was_cancelled (some run) = is_run_cancelled run.status

-- It returns the objects that it dispatched.
unfoldable pub resolve : Env → ℕ → Session → Outcome (List Task × Session)
unfolding load_tasks dispatch finalize_if_done
resolve env run_id s =
    if was_cancelled (lock_run run_id s)
    then return ([], s)
    else let tasks = load_tasks env run_id s in
      dispatch_or_finalize env run_id tasks (get_runnable_tasks tasks) s

abbrev pub mark_success : ℕ → Task → Task
mark_success now t = record t {
  status = TaskStatus.success;
  completed_at = some now;
  error_message = none;
}

abbrev pub mark_failed : ℕ → Option ErrorText → Task → Task
mark_failed now error t = record t {
  status = TaskStatus.failed;
  completed_at = some now;
  error_message = error;
}

abbrev pub mark_retry : ℕ → Option ErrorText → ℕ → Task → Task
mark_retry retry_count error at t = record t {
  error_message = error;
  retry_count = retry_count;
  status = TaskStatus.queued;
  worker_id = none;
  started_at = none;
  completed_at = none;
  dispatched_at = some at;
}

-- The session with the task requeued for its next attempt, after a delay.
abbrev pub requeued : Env → Task → Option ErrorText → ℕ → Session → Session
requeued env task error delay s =
    let retried = mark_retry (suc task.retry_count) error (env.now + delay) in
    publish_on_commit (message_of (retried task) none) delay false (update_task task.id retried s)

abbrev pub requeue_after : Env → Task → Option ErrorText → Option ℕ → Session → Outcome Session
requeue_after env task error none s = raise no_delay
requeue_after env task error (some delay) s = return (requeued env task error delay s)

-- _requeue_for_retry, with the error message that its caller has set.
unfoldable pub requeue_for_retry : Env → Task → Option ErrorText → Session → Outcome Session
requeue_for_retry env task error s =
    requeue_after env task error (backoff_delay env.retry env.uniform (suc task.retry_count)) s

abbrev pub then_resolve : Env → ℕ → Session → Outcome Session
then_resolve env run_id s = do (dispatched, s') ← resolve env run_id s; return s'

-- The session with the task failed and its dead letter in the outbox.
abbrev pub failed_for_good : Env → Task → Option ErrorText → Session → Session
failed_for_good env task error s =
    publish_on_commit (message_of task (some (exhausted task.max_retries error))) 0 true
      (update_task task.id (mark_failed env.now error) s)

abbrev pub fail_for_good : Env → Task → Option ErrorText → Session → Outcome Session
fail_for_good env task error s = then_resolve env task.run_id (failed_for_good env task error s)

unfoldable pub report_result : Env → Task → Bool → Option ErrorText → Session → Outcome Session
unfolding requeue_for_retry
report_result env task true error s =
    then_resolve env task.run_id (update_task task.id (mark_success env.now) s)
report_result env task false error s =
    if was_cancelled (get_run task.run_id s)
    then fail_for_good env task error s
    else if should_retry task.retry_count task.max_retries
    then requeue_for_retry env task error s
    else fail_for_good env task error s

abbrev pub claimable : ℕ → Task → Bool
claimable task_id t = eqb t.id task_id && is_queued t.status

abbrev pub mark_running : ℕ → String → Task → Task
mark_running now worker_id t = record t {
  status = TaskStatus.running;
  worker_id = some worker_id;
  started_at = some now;
}

-- The UPDATE with its precondition, and its row count.
unfoldable pub claim : Env → ℕ → String → Session → Bool × Session
claim env task_id worker_id s = (
  eqb (length (keep (claimable task_id) s.tasks)) 1,
  record s {
    tasks = map (λ t. if claimable task_id t then mark_running env.now worker_id t else t) s.tasks;
  },
)

abbrev pub mark_cancelled : Task → Task
mark_cancelled t = record t { status = TaskStatus.cancelled }

abbrev pub cancel_task : ℕ → Task → Task
cancel_task run_id t =
    if eqb t.run_id run_id && (is_pending t.status || is_queued t.status)
    then mark_cancelled t
    else t

abbrev cancel_found : Env → ℕ → Option WorkflowRun → Session → Outcome Session
cancel_found env run_id none s = raise (run_not_found run_id)
cancel_found env run_id (some run) s =
    if is_terminal run.status
    then raise (run_already run.status)
    else let closed = update_run run_id (close_run env.now RunStatus.cancelled) s in
      return (record closed { tasks = map (cancel_task run_id) closed.tasks })

unfoldable pub cancel_run : Env → ℕ → Session → Outcome Session
cancel_run env run_id s = cancel_found env run_id (lock_run run_id s) s
