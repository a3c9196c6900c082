-- ===== src/Worker/Handle.antt =====
-- What becomes of a delivery.
use auto_bot.Models.{Task, WorkerStatus, WorkerRow, is_queued}
use auto_bot.Worker.{
  raised_by, get_task, Execution, acked, start_task, won_task, finish_task, end_delivery, handle,
  execute,
}
use auto_bot.Scheduler.Rows.{HasUniqueIds}
use auto_bot.Prelude.{
  ◌<◌, ap, ◌∙◌, ◌≤◌, refl, [], sym, subst, inr, arith, inl, Option-cases, Bool-cases, ◌∷◌, eqb,
  find, List, none, false, true, ◌≡◌, some, ℕ, String,
}
use auto_bot.Recovery.{get_worker, heartbeat}
use auto_bot.Broker.Message.{TaskMessage}
use auto_bot.Scheduler.Session.{no_delay, get_run, Session, Env}
use auto_bot.Prelude.Dict.{Dict}
use auto_bot.Executors.{TaskContext}
use auto_bot.Scheduler.Operations.{was_cancelled, claim}
use auto_bot.Scheduler.Claim.{claim_lem}
use auto_bot.Recovery.Returns.{has_run}
use auto_bot.Worker.Finish.{
  finish_task-overflow, finish_task-success, finish_task-failure, IsAfterFailure, logged,
}
use auto_bot.Retry.{should_retry}
use auto_bot.Scheduler.Written.{succeeded_at, running_on}

-- The session after a claim that has been won.
abbrev pub claimed : Env → String → Task → Session → Session
claimed env worker_id t s =
    heartbeat env worker_id (some WorkerStatus.busy) (claim env t.id worker_id s).1

abbrev pub running_row : Env → String → Task → Task
running_row env worker_id t = running_on env.now worker_id t

pub start_task-queued :
    (env : Env) (worker_id : String) (s : Session) (t : Task)
    → HasUniqueIds s.tasks
    → get_task t.id s ≡ some t
    → is_queued t.status ≡ true
    → start_task env worker_id t.id s
      ≡ some (running_row env worker_id t, claimed env worker_id t s)
unfolding start_task won_task heartbeat
start_task-queued env worker_id s t unique found queued =
    let (won, row) = claim_lem env t.id worker_id s t unique found in
    rw (found, won, queued, row, queued)

pub found_id : (i : ℕ) (ts : List Task) (t : Task) → find (λ r. eqb r.id i) ts ≡ some t → t.id ≡ i
found_id i [] t e = cc
found_id i (r ∷ ts) t e = elim (Bool-cases (eqb r.id i)) [
  | inl here ↦ ground arith
  | inr other ↦ found_id i ts t (rw other at e)
]

pub start_task-none :
    (env : Env) (worker_id : String) (i : ℕ) (s : Session)
    → HasUniqueIds s.tasks
    → ((t : Task) → get_task i s ≡ some t → is_queued t.status ≡ false)
    → start_task env worker_id i s ≡ none
unfolding start_task
start_task-none env worker_id i s unique idle = elim (Option-cases (get_task i s)) [
  | inl gone ↦ rw gone
  | inr (t, found) ↦
      let same : t.id ≡ i = found_id i s.tasks t found in
      let (won, _) =
        claim_lem env t.id worker_id s t unique
          (subst (λ x. get_task x s ≡ some t) (sym same) found) in
      rw (found, won, idle t found)
]

module _ {Handler : Type 0} (call : Handler → TaskContext → Execution) (default_handler : Handler)
    (registry : Dict Handler) where
  -- A delivery whose task is gone or not queued (a duplicate, a task that another worker has taken, or
  -- one that has been cancelled) is acked and changes nothing, whatever the handlers do. (Task ids are
  -- unique.)
  pub handle-declined :
      (env later : Env) (worker_id : String) (max_chars : ℕ) (meanwhile : Session → Session)
      (m : TaskMessage) (s : Session)
      → HasUniqueIds s.tasks
      → ((t : Task) → get_task m.task_id s ≡ some t → is_queued t.status ≡ false)
      → handle call default_handler registry env later worker_id max_chars meanwhile m s ≡ acked s
  unfolding handle
  handle-declined env later worker_id max_chars meanwhile m s unique idle =
      rw (start_task-none env worker_id m.task_id s unique idle)

  module _ (env later : Env) (worker_id : String) (max_chars : ℕ) (meanwhile : Session → Session)
      (m : TaskMessage) (s : Session) (t : Task) (unique : HasUniqueIds s.tasks)
      (found : get_task m.task_id s ≡ some t) (queued : is_queued t.status ≡ true)
      (still_unique : HasUniqueIds (meanwhile (claimed env worker_id t s)).tasks)
      (kept : get_task t.id (meanwhile (claimed env worker_id t s))
        ≡ some (running_row env worker_id t))
      (run : has_run t.run_id (meanwhile (claimed env worker_id t s)) ≡ true) where
    abbrev executed : Execution
    executed = execute call default_handler registry worker_id (running_row env worker_id t)

    handle-finish :
        handle call default_handler registry env later worker_id max_chars meanwhile m s
        ≡ end_delivery (meanwhile (claimed env worker_id t s)) (
            finish_task later worker_id max_chars
              (running_row env worker_id t)
              executed
              (meanwhile (claimed env worker_id t s)))
    unfolding handle
    handle-finish =
        let same : t.id ≡ m.task_id = found_id m.task_id s.tasks t found in
        let started : start_task env worker_id m.task_id s
            ≡ some (running_row env worker_id t, claimed env worker_id t s) =
          subst
            (λ i.
              start_task env worker_id i s
              ≡ some (running_row env worker_id t, claimed env worker_id t s))
            same
            (start_task-queued env worker_id s t unique
              (subst (λ i. get_task i s ≡ some t) (sym same) found) queued) in
        rw started refl

    -- A delivery of a queued task whose handler returns is acked; the task is then successful, with the
    -- handler's output as its logs, and the worker idle. (Task ids are unique; while the handler runs,
    -- they stay so, and other transactions leave the task's row and the run in place.)
    pub handle-success :
        (execute call default_handler registry worker_id (running_row env worker_id t)).error ≡ none
        → (s' : Session) × (handle call default_handler registry env later worker_id max_chars
              meanwhile m s
            ≡ acked s')
          × (get_task t.id s'
              ≡ some (
                  succeeded_at later.now (logged max_chars executed (running_row env worker_id t))))
          × ((w : WorkerRow) × (get_worker worker_id s' ≡ some w) × (w.status ≡ WorkerStatus.idle))
    handle-success quiet =
        let tables = meanwhile (claimed env worker_id t s) in
        let (s', finished, row, idle) =
          finish_task-success later worker_id max_chars (running_row env worker_id t) executed
            tables still_unique kept run quiet in
        (s', handle-finish ∙ ap (end_delivery tables) finished, row, idle)

    -- A delivery of a queued task whose handler raises is acked as well; the task is then requeued for
    -- its next attempt, or failed, with the exception as its error and the output as its logs. The
    -- workers' rows are left as the handler's run left them: a row that says busy still does. (The
    -- conditions are those of the handler that returns; and the task allows 1024 retries at most.)
    pub handle-failure :
        (kind message : String)
        → (execute call default_handler registry worker_id (running_row env worker_id t)).error
          ≡ some (kind, message)
        → t.max_retries ≤ 1024
        → (s' : Session) × (handle call default_handler registry env later worker_id max_chars
              meanwhile m s
            ≡ acked s')
          × IsAfterFailure later
              (logged max_chars executed (running_row env worker_id t))
              kind
              message
              (meanwhile (claimed env worker_id t s))
              s'
          × (s'.workers ≡ (meanwhile (claimed env worker_id t s)).workers)
    handle-failure kind message failed small =
        let tables = meanwhile (claimed env worker_id t s) in
        let (s', finished, row, same) =
          finish_task-failure later worker_id max_chars (running_row env worker_id t) executed
            tables still_unique kept run kind message failed small in
        (s', handle-finish ∙ ap (end_delivery tables) finished, row, same)

    -- A delivery of a queued task whose handler raises raises as well, where the task has been retried
    -- 1024 times or more and is to be retried again: the delay leaves the range of a float. The
    -- tables are left as the handler's run left them, with the task running, and when the message
    -- is delivered again, to whichever worker, it is acked and nothing changes. (The conditions are
    -- those of the handler that returns; and the run is not cancelled.)
    pub handle-overflow :
        (kind message : String)
        → (execute call default_handler registry worker_id (running_row env worker_id t)).error
          ≡ some (kind, message)
        → was_cancelled (get_run t.run_id (meanwhile (claimed env worker_id t s))) ≡ false
        → t.retry_count < t.max_retries
        → 1024 ≤ t.retry_count
        → (env' later' : Env) (other : String) (meanwhile' : Session → Session)
        → let tables = meanwhile (claimed env worker_id t s) in
          (handle call default_handler registry env later worker_id max_chars meanwhile m s
            ≡ raised_by no_delay tables)
          × (handle call default_handler registry env' later' other max_chars meanwhile' m tables
              ≡ acked tables)
    handle-overflow kind message failed active left many env' later' other meanwhile' =
        let tables = meanwhile (claimed env worker_id t s) in
        let again : should_retry t.retry_count t.max_retries ≡ true =
          unfold should_retry in ground arith in
        let finished =
          finish_task-overflow later worker_id max_chars (running_row env worker_id t) executed
            tables still_unique kept run kind message failed active again many in
        let same : t.id ≡ m.task_id = found_id m.task_id s.tasks t found in
        let here : get_task m.task_id tables ≡ some (running_row env worker_id t) =
          subst (λ i. get_task i tables ≡ some (running_row env worker_id t)) same kept in
        (
          handle-finish ∙ ap (end_delivery tables) finished,
          handle-declined env' later' other max_chars meanwhile' m tables still_unique (λ r running.
              let this : running_row env worker_id t ≡ r = ground arith in
              subst (λ x. is_queued x.status ≡ false) this refl),
        )
