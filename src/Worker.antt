-- ===== src/Worker.antt =====
-- app/worker.py: how a worker handles a delivery. A delivery is two transactions, the claim and the
-- report; in between the handler runs, and other transactions may change the tables. The text that a
-- handler prints is a string, whose length Python counts in characters.
pub mod Logs
pub mod Finish
pub mod Handle
pub mod Drives
pub mod Announces
pub mod Run
pub mod Drained
pub mod Quiet
pub mod Completed
use Prim.Native.String as NativeString
use auto_bot.Prelude.{
  ℕ, zero, suc, ◌-◌, String, Option, none, some, Bool, true, false, eqb, ltb, if◌then◌else◌,
}
use auto_bot.Prelude.Dict.{Dict}
use auto_bot.Executors.{TaskContext, get_handler}
use auto_bot.Broker.Message.{TaskMessage}
use auto_bot.Models.{ErrorText, raised, Task, WorkerStatus}
use auto_bot.Scheduler.Session.{
  Session, Env, Fault, Outcome, return, raise, ◌>>=◌, get_task, update_task,
}
use auto_bot.Scheduler.Operations.{claim, report_result}
use auto_bot.Recovery.{heartbeat}

abbrev pub drop_chars : ℕ → String → String
drop_chars zero s = s
drop_chars (suc k) String.[] = String.[]
drop_chars (suc k) (String.◌∷◌ c s) = drop_chars k s

-- s[-k:], which for k = 0 is s[0:], the whole string.
abbrev pub last_chars : ℕ → String → String
last_chars k s = if eqb k 0 then s else drop_chars (NativeString.count s - k) s

-- A stream's part of the log, if it has printed anything.
abbrev pub part : String → String → Option String
part title String.[] = none
part title (String.◌∷◌ c s) = some (NativeString.◌++◌ title (String.◌∷◌ c s))

-- "\n".join(parts), or `None` where there are no parts.
abbrev pub join_parts : Option String → Option String → Option String
join_parts none none = none
join_parts (some p) none = some p
join_parts none (some q) = some q
join_parts (some p) (some q) = some (NativeString.◌++◌ p (NativeString.◌++◌ "\n" q))

abbrev pub truncate : ℕ → String → String
truncate max_chars combined =
    if ltb max_chars (NativeString.count combined)
    then NativeString.◌++◌ "...(truncated)...\n" (last_chars max_chars combined)
    else combined

abbrev pub truncate_some : ℕ → Option String → Option String
truncate_some max_chars none = none
truncate_some max_chars (some combined) = some (truncate max_chars combined)

-- _capture_logs; `max_chars` is MAX_LOG_CHARS.
unfoldable pub capture_logs : ℕ → String → String → Option String
capture_logs max_chars stdout stderr =
    truncate_some max_chars
      (join_parts (part "--- stdout ---\n" stdout) (part "--- stderr ---\n" stderr))

-- What comes of a handler's call: the exception that it raised, by type and message, and its output.
pub record Execution : Type 0 where
  pub error : Option (String × String)
  pub stdout : String
  pub stderr : String

abbrev pub context_of : String → Task → TaskContext
context_of worker_id task = record {
  task_id = task.id;
  run_id = task.run_id;
  task_name = task.task_name;
  attempt = task.retry_count;
  worker_id = worker_id;
}

abbrev pub set_logs : Option String → Task → Task
set_logs logs t = record t { logs = logs }

-- The delivery is acked, or the exception passes through to the broker; with the tables of the last
-- commit, and the outbox that this commit sends.
pub data Delivery : Type 0 where
  acked : Session → Delivery
  raised_by : Fault → Session → Delivery

-- The claim that was won, with the row as it is then, and the heartbeat. The row is read in the claim's
-- transaction; the code loads it at its first use after the commit, before the handler is called.
abbrev pub won_task : Env → String → Option Task → Session → Option (Task × Session)
unfolding heartbeat
won_task env worker_id none s = none
won_task env worker_id (some task) s =
    some (task, heartbeat env worker_id (some WorkerStatus.busy) s)

abbrev pub start_found : Env → String → Option Task → Session → Option (Task × Session)
start_found env worker_id none s = none
start_found env worker_id (some task) s =
    let (won, s') = claim env task.id worker_id s in
    if won then won_task env worker_id (get_task task.id s') s' else none

-- The first transaction: nothing where the task is gone or the claim is lost.
unfoldable pub start_task : Env → String → ℕ → Session → Option (Task × Session)
start_task env worker_id task_id s = start_found env worker_id (get_task task_id s) s

abbrev pub report_execution :
    Env → String → Task → Option (String × String) → Session → Outcome Session
unfolding heartbeat
report_execution env worker_id task (some (kind, message)) s =
    report_result env task false (some (raised kind message)) s
report_execution env worker_id task none s = do
  s' ← report_result env task true none s
  return (heartbeat env worker_id (some WorkerStatus.idle) s')

-- The second transaction. The logs are set on the task object and written with the report.
unfoldable pub finish_task : Env → String → ℕ → Task → Execution → Session → Outcome Session
unfolding capture_logs
finish_task env worker_id max_chars task execution s =
    let logs = capture_logs max_chars execution.stdout execution.stderr in
    report_execution env worker_id (set_logs logs task) execution.error
      (update_task task.id (set_logs logs) s)

abbrev pub end_delivery : Session → Outcome Session → Delivery
end_delivery committed (return s) = acked s
end_delivery committed (raise fault) = raised_by fault committed

module _ {Handler : Type 0} (call : Handler → TaskContext → Execution) (default_handler : Handler)
    (registry : Dict Handler) where
  abbrev pub execute : String → Task → Execution
  execute worker_id task =
      call (get_handler default_handler registry task.task_name) (context_of worker_id task)

  abbrev pub handle_started :
      Env → String → ℕ → (Session → Session) → Option (Task × Session) → Session → Delivery
  handle_started env worker_id max_chars meanwhile none s = acked s
  handle_started env worker_id max_chars meanwhile (some (task, started)) s =
      let tables = meanwhile started in
      end_delivery tables (finish_task env worker_id max_chars task (execute worker_id task) tables)

  -- Worker.handle. `meanwhile` is what other transactions do to the tables while the handler runs;
  -- `claim_env` holds the time of the claim, and `report_env` that of the report.
  unfoldable pub handle :
      Env → Env → String → ℕ → (Session → Session) → TaskMessage → Session → Delivery
  unfolding start_task finish_task
  handle claim_env report_env worker_id max_chars meanwhile message s =
      handle_started report_env worker_id max_chars meanwhile
        (start_task claim_env worker_id message.task_id s) s
