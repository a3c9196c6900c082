-- ===== src/Examples/Workers.antt =====
-- The theorems of app/worker.py and app/recovery.py on the example's tables.
use Prim.Native.String as NativeString
use auto_bot.Prelude.{
  ◌≢◌, ◌<◌, ◌⊎◌, ◌≤◌, arith, ◌≡◌, refl, String, List, [], ◌∷◌, none, some, true, false, All,
}
use auto_bot.Broker.Message.{TaskMessage}
use auto_bot.Executors.{TaskContext, get_handler}
use auto_bot.Models.{Task, WorkerRow, WorkerStatus}
use auto_bot.Recovery.{
  reclaim_stuck_queued_tasks, register_worker, reclaim_orphaned_tasks, heartbeat, is_lost,
  alive_workers, get_worker,
}
use auto_bot.Recovery.Alive.{nothing, beats, heartbeat-reclaim_orphaned_tasks}
use auto_bot.Recovery.Overdue.{IsOverdue}
use auto_bot.Recovery.Sweep.{reclaim_stuck_queued_tasks_lem, reclaim_orphaned_tasks_lem}
use auto_bot.Scheduler.Operations.{claim, mark_running}
use auto_bot.Scheduler.Session.{Session, return, no_delay, get_task}
use auto_bot.Worker.{raised_by, Execution, acked, handle, capture_logs}
use auto_bot.Worker.Finish.{IsAfterFailure, logged}
use auto_bot.Worker.Handle.{
  handle-overflow, handle-declined, handle-success, handle-failure, claimed,
}
use auto_bot.Worker.Logs.{capture_logs_lem}
use auto_bot.Examples.Data.{env, fetch, clean, report, early, tables}
use auto_bot.Prelude.Dict.{put, Dict}
use auto_bot.Scheduler.Written.{succeeded_at}

-- The root task runs on a worker that has no row.
abbrev running : Task
running = mark_running 100 "w" fetch

abbrev lost : Session
lost = tables (report ∷ clean ∷ running ∷ [])

reclaim_orphaned_tasks_lem_example :
    (ts : List Task) × (s' : Session) × (reclaim_orphaned_tasks env 30 (λ i. true) lost
      ≡ return (ts, s'))
    × All (λ r. is_lost (alive_workers env 30 lost) (λ i. true) r ≡ false) s'.tasks
reclaim_orphaned_tasks_lem_example =
    reclaim_orphaned_tasks_lem env 30 (λ i. true) lost (refl, (refl, (refl, tt)))
      ((refl, omega arith), ((refl, omega arith), ((refl, omega arith), tt)))

-- The root task has been queued at 10, and nothing has claimed it.
abbrev forgotten : Session
forgotten = tables (report ∷ clean ∷ record fetch { dispatched_at = some 10 } ∷ [])

reclaim_stuck_queued_tasks_lem_example :
    (ts : List Task) × (s' : Session) × (reclaim_stuck_queued_tasks env 30 (λ i. true) forgotten
      ≡ return (ts, s'))
    × All (λ r. IsOverdue 100 30 r → true ≡ false) s'.tasks
    × All (IsOverdue 100 30) ts
reclaim_stuck_queued_tasks_lem_example =
    reclaim_stuck_queued_tasks_lem env 30 (λ i. true) forgotten (refl, (refl, (refl, tt)))
      ((refl, omega arith), ((refl, omega arith), ((refl, omega arith), tt)))

-- The worker beats, while a task runs on another worker that has no row. A third worker beats 10 later,
-- and the sweep comes another 10 later.
abbrev shared : Session
shared = tables (mark_running 100 "x" clean ∷ running ∷ [])

abbrev beating : Session
beating = heartbeat env "w" (some WorkerStatus.busy) shared

abbrev third : Session
third = heartbeat (record env { now = 110 }) "v" none beating

heartbeat-reclaim_orphaned_tasks_example :
    (ts : List Task) × (s'' : Session) × (reclaim_orphaned_tasks
        (record env { now = 120 })
        30
        (λ i. true)
        third
      ≡ return (ts, s''))
    × All (λ (t : Task). t.worker_id ≢ some "w") ts
unfolding heartbeat register_worker
heartbeat-reclaim_orphaned_tasks_example =
    heartbeat-reclaim_orphaned_tasks env (record env { now = 120 }) "w" (some WorkerStatus.busy) 30
      (λ i. true) shared third (beats (record env { now = 110 }) "v" none (omega arith) nothing)
      (omega arith) ((refl, omega arith), ((refl, omega arith), tt))

abbrev log : String
log = "--- stdout ---\nfetched 3 rows"

capture_logs_lem_example :
    (capture_logs 5 "fetched 3 rows" "" ≡ some log) × (NativeString.count log ≤ 5)
    ⊎ (5 < NativeString.count log)
      × ((front tail : String) × (capture_logs 5 "fetched 3 rows" ""
            ≡ some (NativeString.◌++◌ "...(truncated)...\n" tail))
          × (log ≡ NativeString.◌++◌ front tail)
          × (NativeString.count tail ≡ 5))
capture_logs_lem_example = capture_logs_lem 5 "fetched 3 rows" "" log refl (omega arith)

-- A handler is what its call comes to, and the one for the root task succeeds.
abbrev quiet : Execution
quiet = record { error = none; stdout = "done"; stderr = "" }

abbrev broken : Execution
broken = record { error = some ("ValueError", "no data"); stdout = ""; stderr = "" }

abbrev call : Execution → TaskContext → Execution
call execution context = execution

abbrev delivery : TaskMessage
delivery = record { task_id = 12; run_id = 1; task_name = "fetch"; attempt = 0; reason = none }

abbrev registry : Dict Execution
registry = put [] "fetch" quiet

-- The root task has been taken already.
handle-declined_example :
    handle call quiet registry env env "w" 5 (λ s. s) delivery lost ≡ acked lost
handle-declined_example =
    handle-declined call quiet registry env env "w" 5 (λ s. s) delivery lost
      (refl, (refl, (refl, tt))) (λ t found. ground arith)

abbrev started : Session
started = claimed env "w" fetch early

handle-success_example :
    (s' : Session) × (handle call quiet registry env env "w" 5 (λ s. s) delivery early ≡ acked s')
    × (get_task 12 s' ≡ some (succeeded_at 100 (logged 5 quiet running)))
    × ((w : WorkerRow) × (get_worker "w" s' ≡ some w) × (w.status ≡ WorkerStatus.idle))
unfolding get_handler claim heartbeat register_worker
handle-success_example =
    handle-success call quiet registry env env "w" 5 (λ s. s) delivery early fetch
      (refl, (refl, (refl, tt))) refl refl (refl, (refl, (refl, tt))) refl refl refl

handle-failure_example :
    (s' : Session) × (handle call broken [] env env "w" 5 (λ s. s) delivery early ≡ acked s')
    × IsAfterFailure env (logged 5 broken running) "ValueError" "no data" started s'
    × (s'.workers ≡ started.workers)
unfolding get_handler claim heartbeat register_worker
handle-failure_example =
    handle-failure call broken [] env env "w" 5 (λ s. s) delivery early fetch
      (refl, (refl, (refl, tt))) refl refl (refl, (refl, (refl, tt))) refl refl "ValueError"
      "no data" refl (omega arith)

-- The root task has been retried 1024 times.
abbrev worn : Task
worn = record fetch { retry_count = 1024; max_retries = 2000 }

abbrev worn_tables : Session
worn_tables = tables (report ∷ clean ∷ worn ∷ [])

handle-overflow_example :
    let stuck = claimed env "w" worn worn_tables in
    (handle call broken [] env env "w" 5 (λ s. s) delivery worn_tables ≡ raised_by no_delay stuck)
    × (handle call broken [] env env "v" 5 (λ s. s) delivery stuck ≡ acked stuck)
unfolding get_handler claim heartbeat register_worker
handle-overflow_example =
    handle-overflow call broken [] env env "w" 5 (λ s. s) delivery worn_tables worn
      (refl, (refl, (refl, tt))) refl refl (refl, (refl, (refl, tt))) refl refl "ValueError"
      "no data" refl refl (omega arith) (omega arith) env env "v" (λ s. s)
