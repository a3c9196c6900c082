-- ===== src/Worker/Drives.antt =====
-- `Worker.handle` of app/worker.py, and the runs that wait for something.
use auto_bot.Scheduler.Driven.{IsDriven, map-IsDriven}
use auto_bot.Scheduler.Driven.Moves.{same_id, nobody, just, same_status-IsDriven}
use auto_bot.Scheduler.Driven.Reports.{Drives, report_result-Drives}
use auto_bot.Scheduler.Session.{
  TaskMessage, ◌>>=◌, return, update_task, Outcome, get_task, Env, Session,
}
use auto_bot.Recovery.{get_worker, register_worker, heartbeat}
use auto_bot.Prelude.{
  All-map, All, find, eqb, any, ◌≤◌, ◌+◌, ap, Bool-cases, false, subst, ◌∙◌, sym, true, ◌⊎◌, none,
  some, [], inr, ◌∷◌, inl, map, arith, Option-cases, refl, List, Option, String, Bool, ◌≡◌, ℕ,
}
use auto_bot.Scheduler.Operations.{report_result, claim}
use auto_bot.Scheduler.Potential.{unsent, total-change, total, potential}
use auto_bot.Models.{is_queued, raised, ErrorText, is_running, Task, WorkerStatus}
use auto_bot.Scheduler.Claim.{claim_lem, claim_row}
use auto_bot.Scheduler.Rows.{find-none, any-map}
use auto_bot.Scheduler.Progress.{in_flight_row}
use auto_bot.Worker.{
  execute, acked, handle, Dict, TaskContext, report_execution, capture_logs, finish_task, set_logs,
  Execution, start_task,
}
use auto_bot.Worker.Handle.{start_task-queued, claimed, running_row, found_id, start_task-none}
use auto_bot.Scheduler.Report.{update-found}
use auto_bot.Worker.Finish.{heartbeat-get_task}
use auto_bot.Recovery.Returns.{has_run}

-- The rows of tasks and runs, and the outbox, are as they were.
abbrev pub SameRows : Session → Session → Type 0
SameRows s s' = (s'.tasks ≡ s.tasks) × (s'.runs ≡ s.runs) × (s'.outbox ≡ s.outbox)

pub heartbeat-SameRows :
    (env : Env) (worker_id : String) (status : Option WorkerStatus) (s : Session)
    → SameRows s (heartbeat env worker_id status s)
unfolding heartbeat register_worker
heartbeat-SameRows env worker_id status s = elim (Option-cases (get_worker worker_id s)) [
  | inl new ↦ rw (new, new) (refl, refl, refl)
  | inr (w, found) ↦ rw found (refl, refl, refl)
]

pub SameRows-IsDriven :
    {at_work to_tick : ℕ → Bool} (s s' : Session)
    → SameRows s s'
    → IsDriven at_work to_tick s
    → IsDriven at_work to_tick s'
SameRows-IsDriven {at_work} s s' (rows, runs, sent) h = record {
  unique = rw rows h.unique;
  limits = rw (rows, runs) h.limits;
  resting = rw rows h.resting;
  settled = λ i there other. rw (rows, runs) (h.settled i (rw runs at there) other);
}

SameRows-potential : (s s' : Session) → SameRows s s' → potential s' ≡ potential s
SameRows-potential s s' (rows, runs, sent) = rw (rows, sent) refl

-- A claim that is won puts its worker to work.
claim-total :
    (env : Env) (i : ℕ) (worker_id : String) (ts : List Task)
    → total (map (claim_row env i worker_id) ts) ≡ total ts
claim-total env i worker_id [] = refl
claim-total env i worker_id (t ∷ ts) = ground (arith, claim-total env i worker_id ts)

claim-IsDriven :
    (env : Env) (i : ℕ) (worker_id : String) (s : Session)
    → IsDriven nobody nobody s
    → IsDriven (just i) nobody (claim env i worker_id s).1
unfolding claim
claim-IsDriven env i worker_id s h =
    map-IsDriven (claim_row env i worker_id) s (claim env i worker_id s).1
      (λ r. (ground arith, ground arith, ground arith)) refl (λ j. refl)
      (λ r k running. ground (arith, k))
      (λ j there other. elim (h.settled j there other) [
        | inl flying ↦ inl (
            any-map (in_flight_row j) (in_flight_row j) (claim_row env i worker_id) s.tasks
              (λ r e. ground arith) flying)
        | inr closed ↦ inr closed
      ])
      h

-- What the first transaction leaves: the worker is at work on the task, and holds its row.
pub record IsStarted (env : Env) (worker_id : String) (s : Session) (task : Task)
    (started : Session) : Type 0 where
  pub driven : IsDriven (just task.id) nobody started
  pub found : get_task task.id started ≡ some task
  pub running : is_running task.status ≡ true
  pub lighter : potential started ≡ potential s
  pub claimed_rows : started.tasks ≡ (claim env task.id worker_id s).1.tasks
  pub same_runs : started.runs ≡ s.runs
  pub same_outbox : started.outbox ≡ s.outbox

-- No row with the id is queued.
abbrev pub IsIdle : ℕ → Session → Type 0
IsIdle i s = All (λ r. eqb r.id i ≡ true → is_queued r.status ≡ false) s.tasks

pub start_task-IsStarted :
    (env : Env) (worker_id : String) (i : ℕ) (s : Session)
    → IsDriven nobody nobody s
    → (start_task env worker_id i s ≡ none) × IsIdle i s
      ⊎ ((task : Task) × (started : Session) × (task.id ≡ i)
          × (start_task env worker_id i s ≡ some (task, started))
          × IsStarted env worker_id s task started)
start_task-IsStarted env worker_id i s h = elim (Option-cases (get_task i s)) [
  | inl gone ↦ inl (
    start_task-none env worker_id i s h.unique (λ t e. absurd (let wrong = sym gone ∙ e in cc)),
    All-map (λ r other here. absurd (ground (arith, other))) s.tasks (find-none _ s.tasks gone),
  )
  | inr (t, found) ↦
      let at : t.id ≡ i = found_id i s.tasks t found in
      let row : get_task t.id s ≡ some t = subst (λ k. get_task k s ≡ some t) (sym at) found in
      elim (Bool-cases (is_queued t.status)) [
        | inr idle ↦ inl (
          start_task-none env worker_id i s h.unique (λ r e.
              let same : t ≡ r = (let both = sym found ∙ e in ground arith) in
              subst (λ r. is_queued r.status ≡ false) same idle),
          All-map (λ r same here. subst (λ x. is_queued x.status ≡ false) (sym (same here)) idle)
              s.tasks (same_id i s.tasks t h.unique found),
        )
        | inl queued ↦
            let beat =
              heartbeat-SameRows env worker_id (some WorkerStatus.busy)
                (claim env t.id worker_id s).1 in
            let (_, kept) = claim_lem env t.id worker_id s t h.unique row in
            inr (
              running_row env worker_id t,
              claimed env worker_id t s,
              at,
              subst
                  (λ k.
                    start_task env worker_id k s
                    ≡ some (running_row env worker_id t, claimed env worker_id t s))
                  at (start_task-queued env worker_id s t h.unique row queued),
              record {
                driven =
                    SameRows-IsDriven (claim env t.id worker_id s).1 (claimed env worker_id t s)
                      beat (claim-IsDriven env t.id worker_id s h);
                found =
                    heartbeat-get_task env worker_id WorkerStatus.busy t.id
                      (claim env t.id worker_id s).1
                    ∙ rw queued at kept;
                running = refl;
                lighter =
                    SameRows-potential (claim env t.id worker_id s).1 (claimed env worker_id t s)
                      beat
                    ∙ unfold claim in
                      ap (λ n. n + unsent s) (claim-total env t.id worker_id s.tasks);
                claimed_rows = beat.0;
                same_runs = beat.1 ∙ unfold claim in refl;
                same_outbox = beat.2 ∙ unfold claim in refl;
              },
            )
      ]
]

-- The second transaction.
module _ (env : Env) (worker_id : String) (max_chars : ℕ) (task : Task) (execution : Execution)
    (s : Session) (found : get_task task.id s ≡ some task) (running : is_running task.status ≡ true)
    (h : IsDriven (just task.id) nobody s) where
  abbrev pub logs : Task → Task
  logs = set_logs (capture_logs max_chars execution.stdout execution.stderr)

  logged-Drives :
      (succeed : Bool) (error : Option ErrorText)
      → Drives s (report_result env (logs task) succeed error (update_task task.id logs s))
  logged-Drives succeed error =
      let s₁ = update_task task.id logs s in
      let (s', returned, driven, less, runs) =
        report_result-Drives env (logs task) s₁ (update-found logs task s.tasks (λ r. refl) found)
          running
          (same_status-IsDriven (just task.id) task.id logs s s₁ (λ r. (refl, refl, refl))
            (λ r. refl) refl refl h)
          succeed error in
      let same = total-change task.id logs task s.tasks h.unique found in
      (s', returned, driven, omega (arith, less, same), runs)

  beat-Drives :
      (o : Outcome Session) (status : Option WorkerStatus)
      → Drives s o
      → Drives s (o >>= λ s'. return (heartbeat env worker_id status s'))
  beat-Drives o status (s', returned, driven, less, runs) =
      let beat = heartbeat-SameRows env worker_id status s' in
      (
        heartbeat env worker_id status s',
        rw returned refl,
        SameRows-IsDriven s' (heartbeat env worker_id status s') beat driven,
        subst (λ n. n ≤ potential s)
            (sym (SameRows-potential s' (heartbeat env worker_id status s') beat)) less,
        (λ i. ap (any (λ r. eqb r.id i)) beat.1 ∙ runs i),
      )

  pub finish_task-Drives : Drives s (finish_task env worker_id max_chars task execution s)
  unfolding finish_task report_execution
  finish_task-Drives = by_error execution.error
    where
      by_error :
          (error : Option (String × String))
          → Drives s (report_execution env worker_id (logs task) error (update_task task.id logs s))
      by_error none = beat-Drives _ (some WorkerStatus.idle) (logged-Drives true none)
      by_error (some (kind, message)) = logged-Drives false (some (raised kind message))

module _ {Handler : Type 0} (call : Handler → TaskContext → Execution) (default_handler : Handler)
    (registry : Dict Handler) (claim_env report_env : Env) (worker_id : String) (max_chars : ℕ)
    (meanwhile : Session → Session) (aside : (s : Session) → SameRows s (meanwhile s)) where
  -- A delivery is acked, whatever it is of, and whether the handler returns or raises; it adds no work,
  -- keeps the runs, and leaves tables in which no run waits for nothing and no task is running. (Before
  -- it the same holds of the tables: task ids are unique, the tasks' runs exist, each task allows 1024
  -- retries at most, no task is running, and every run has a task queued or is closed. While the handler
  -- runs, other transactions write neither tasks nor runs nor messages.)
  pub handle-Drives :
      (message : TaskMessage) (s : Session)
      → IsDriven nobody nobody s
      → (s' : Session) × (handle call default_handler registry claim_env report_env worker_id
            max_chars meanwhile message s
          ≡ acked s')
        × IsDriven nobody nobody s'
        × (potential s' ≤ potential s)
        × ((i : ℕ) → has_run i s' ≡ has_run i s)
  unfolding handle
  handle-Drives message s h = elim (start_task-IsStarted claim_env worker_id message.task_id s h) [
    | inl (declined, idle) ↦ (s, rw declined refl, h, omega arith, λ i. refl)
    | inr (task, started, at, won, k) ↦
        let tables = meanwhile started in
        let beside = aside started in
        let row : get_task task.id tables ≡ some task =
          ap (find (λ r. eqb r.id task.id)) beside.0 ∙ k.found in
        let (s', returned, driven, less, runs) =
          finish_task-Drives report_env worker_id max_chars task
            (execute call default_handler registry worker_id task) tables row k.running
            (SameRows-IsDriven started tables beside k.driven) in
        let same = SameRows-potential started tables beside in
        (
          s',
          rw (won, returned) refl,
          driven,
          omega (arith, less, same, k.lighter),
          (λ i. runs i ∙ ap (any (λ r. eqb r.id i)) (beside.1 ∙ k.same_runs)),
        )
  ]
