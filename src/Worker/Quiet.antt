-- ===== src/Worker/Quiet.antt =====
-- `Worker.handle` of app/worker.py where the handler does not raise.
use auto_bot.Scheduler.Operations.{claim}
use auto_bot.Scheduler.Done.{IsDone, same_runs-IsDone}
use auto_bot.Scheduler.Done.Tick.{success-IsDone}
use auto_bot.Scheduler.Rows.{HasUniqueIds, HasUniqueIds-map}
use auto_bot.Scheduler.Clean.{IsClean, Cleans, claim-IsClean, success-Cleans, update-IsClean}
use auto_bot.Worker.Run.{Site, Surroundings, handle_here, deliver, after_delivery}
use auto_bot.Scheduler.Session.{
  >>=-eq-return, change_task, update_task, ◌>>=◌, return, raise, TaskMessage, Outcome, Env, Session,
}
use auto_bot.Worker.{
  report_result, capture_logs, set_logs, WorkerStatus, heartbeat, execute, raised_by, Delivery,
  end_delivery, acked, handle, Execution, Task, TaskContext, report_execution, finish_task,
}
use auto_bot.Prelude.{
  sym, ◌∙◌, map, true, some, refl, inr, ◌+◌, subst, arith, [], inl, none, ◌≡◌, ℕ, String,
}
use auto_bot.Worker.Drives.{heartbeat-SameRows, start_task-IsStarted, SameRows}
use auto_bot.Scheduler.Commit.{commit}
use auto_bot.Scheduler.Driven.{IsDriven}
use auto_bot.Scheduler.Driven.Moves.{nobody}
use auto_bot.Scheduler.Claim.{claim_row}

pub SameRows-IsClean : (s s' : Session) → SameRows s s' → IsClean s → IsClean s'
SameRows-IsClean s s' (rows, runs, sent) h = record {
  tasks = rw rows h.tasks;
  runs = rw runs h.runs;
}

finish_task-Cleans :
    (env : Env) (worker_id : String) (max_chars : ℕ) (task : Task) (execution : Execution)
    (s : Session)
    → execution.error ≡ none
    → IsClean s
    → Cleans (finish_task env worker_id max_chars task execution s)
unfolding finish_task report_execution
finish_task-Cleans env worker_id max_chars task execution s quiet h =
    let logs = set_logs (capture_logs max_chars execution.stdout execution.stderr) in
    let s₁ = update_task task.id logs s in
    let reported =
      success-Cleans env (logs task) none s₁ (update-IsClean task.id logs s (λ t k. k) h) in
    rw quiet (beat (report_result env (logs task) true none s₁) reported)
  where
    beat :
        (o : Outcome Session)
        → Cleans o
        → Cleans (o >>= λ s'. return (heartbeat env worker_id (some WorkerStatus.idle) s'))
    beat (return s) k =
        SameRows-IsClean s (heartbeat env worker_id (some WorkerStatus.idle) s)
          (heartbeat-SameRows env worker_id (some WorkerStatus.idle) s) k
    beat (raise fault) k = tt

module _ {Handler : Type 0} (around : Surroundings Handler) (worker_id : String) (max_chars : ℕ)
    (aside : (s : Session) → SameRows s (around.meanwhile s))
    (quiet : (h : Handler) (context : TaskContext) → (around.call h context).error ≡ none) where
  handle-IsClean :
      (claim_env report_env : Env) (m : TaskMessage) (s s' : Session)
      → IsDriven nobody nobody s
      → IsClean s
      → handle around.call around.default_handler around.registry claim_env report_env worker_id
          max_chars around.meanwhile m s
        ≡ acked s'
      → IsClean s'
  unfolding handle
  handle-IsClean claim_env report_env m s s' driven h acks =
      elim (start_task-IsStarted claim_env worker_id m.task_id s driven) [
        | inl (declined, idle) ↦
            let ended = rw declined at acks in
            let same : s ≡ s' = ground arith in subst IsClean same h
        | inr (task, started, at, won, k) ↦
            let tables = around.meanwhile started in
            let ran = execute around.call around.default_handler around.registry worker_id task in
            let claimed = claim-IsClean claim_env task.id worker_id s h in
            let begun : IsClean started = record {
              tasks = rw k.claimed_rows claimed.tasks;
              runs = rw k.same_runs h.runs;
            } in
            let o = finish_task report_env worker_id max_chars task ran tables in
            let ended : end_delivery tables o ≡ acked s' = rw won at acks in
            ended_acked tables o ended (
              finish_task-Cleans report_env worker_id max_chars task ran tables (quiet _ _)
                (SameRows-IsClean started tables (aside started) begun))
      ]
    where
      ended_acked :
          (tables : Session) (o : Outcome Session)
          → end_delivery tables o ≡ acked s'
          → Cleans o
          → IsClean s'
      ended_acked tables (return x) e k = let same : x ≡ s' = ground arith in subst IsClean same k
      ended_acked tables (raise fault) e k = cc

  pub delivered-IsClean :
      (m : TaskMessage) (w w' : Site)
      → IsDriven nobody nobody w.tables
      → IsClean w.tables
      → handle_here around worker_id max_chars m w ≡ inl w'
      → IsClean w'.tables
  unfolding handle_here deliver commit
  delivered-IsClean m w w' driven h e =
      let now = w.time + around.lasts m w in
      by_delivery now (deliver around worker_id max_chars m w)
        (λ s' acks.
          handle-IsClean (around.env_at w.time) (around.env_at now) m w.tables s' driven h acks)
        e
    where
      by_delivery :
          (now : ℕ) (d : Delivery)
          → ((s' : Session) → d ≡ acked s' → IsClean s')
          → after_delivery now w.queue d ≡ inl w'
          → IsClean w'.tables
      by_delivery now (acked s') k e =
          let here = k s' refl in
          let same : record s' { outbox = [] } ≡ w'.tables = ground arith in
          subst IsClean same (record { tasks = here.tasks; runs = here.runs })
      by_delivery now (raised_by fault s) k e = cc

SameRows-IsDone :
    (rank : ℕ → String → ℕ) (s s' : Session) → SameRows s s' → IsDone rank s → IsDone rank s'
SameRows-IsDone rank s s' (rows, runs, sent) h = record {
  parts = rw rows h.parts;
  done = rw (rows, runs) h.done;
}

finish_task-IsDone :
    (rank : ℕ → String → ℕ) (env : Env) (worker_id : String) (max_chars : ℕ) (task : Task)
    (execution : Execution) (s s' : Session)
    → execution.error ≡ none
    → IsClean s
    → HasUniqueIds s.tasks
    → IsDone rank s
    → finish_task env worker_id max_chars task execution s ≡ return s'
    → IsDone rank s'
unfolding finish_task report_execution
finish_task-IsDone rank env worker_id max_chars task execution s s' quiet clean unique h e =
    let logs = set_logs (capture_logs max_chars execution.stdout execution.stderr) in
    let s₁ = update_task task.id logs s in
    let done₁ =
      same_runs-IsDone rank (change_task task.id logs) s s₁
        (λ t. (ground arith, ground arith, ground arith)) (λ t k. ground (arith, k)) refl refl h in
    let beaten = rw quiet at e in
    let (s₂, reported, last) =
      >>=-eq-return (report_result env (logs task) true none s₁) _ beaten in
    let end : heartbeat env worker_id (some WorkerStatus.idle) s₂ ≡ s' = ground arith in
    subst (IsDone rank) end (
      SameRows-IsDone rank s₂ (heartbeat env worker_id (some WorkerStatus.idle) s₂)
        (heartbeat-SameRows env worker_id (some WorkerStatus.idle) s₂)
        (success-IsDone rank env (logs task) none s₁ s₂
          (update-IsClean task.id logs s (λ t k. k) clean)
          (HasUniqueIds-map (change_task task.id logs) s.tasks (λ t. ground arith) unique) done₁
          reported))

module _ {Handler : Type 0} (around : Surroundings Handler) (worker_id : String) (max_chars : ℕ)
    (aside : (s : Session) → SameRows s (around.meanwhile s))
    (quiet : (h : Handler) (context : TaskContext) → (around.call h context).error ≡ none)
    (rank : ℕ → String → ℕ) where
  handle-IsDone :
      (claim_env report_env : Env) (m : TaskMessage) (s s' : Session)
      → IsDriven nobody nobody s
      → IsClean s
      → IsDone rank s
      → handle around.call around.default_handler around.registry claim_env report_env worker_id
          max_chars around.meanwhile m s
        ≡ acked s'
      → IsDone rank s'
  unfolding handle
  handle-IsDone claim_env report_env m s s' driven clean h acks =
      elim (start_task-IsStarted claim_env worker_id m.task_id s driven) [
        | inl (declined, idle) ↦
            let ended = rw declined at acks in
            let same : s ≡ s' = ground arith in subst (IsDone rank) same h
        | inr (task, started, at, won, k) ↦
            let tables = around.meanwhile started in
            let ran = execute around.call around.default_handler around.registry worker_id task in
            let claimed = claim-IsClean claim_env task.id worker_id s clean in
            let begun : IsClean started = record {
              tasks = rw k.claimed_rows claimed.tasks;
              runs = rw k.same_runs clean.runs;
            } in
            let rows : started.tasks ≡ map (claim_row claim_env task.id worker_id) s.tasks =
              k.claimed_rows ∙ unfold claim in refl in
            let done =
              same_runs-IsDone rank (claim_row claim_env task.id worker_id) s started
                (λ t. (ground arith, ground arith, ground arith)) (λ t e. ground (arith, e)) rows
                k.same_runs h in
            let o = finish_task report_env worker_id max_chars task ran tables in
            let ended : end_delivery tables o ≡ acked s' = rw won at acks in
            finish_task-IsDone rank report_env worker_id max_chars task ran tables s' (quiet _ _)
              (SameRows-IsClean started tables (aside started) begun)
              (subst HasUniqueIds (sym (aside started).0) k.driven.unique)
              (SameRows-IsDone rank started tables (aside started) done)
              (acked_return tables o ended)
      ]
    where
      acked_return :
          (tables : Session) (o : Outcome Session)
          → end_delivery tables o ≡ acked s'
          → o ≡ return s'
      acked_return tables (return x) e = ground arith
      acked_return tables (raise fault) e = cc

  pub delivered-IsDone :
      (m : TaskMessage) (w w' : Site)
      → IsDriven nobody nobody w.tables
      → IsClean w.tables
      → IsDone rank w.tables
      → handle_here around worker_id max_chars m w ≡ inl w'
      → IsDone rank w'.tables
  unfolding handle_here deliver commit
  delivered-IsDone m w w' driven clean h e =
      let now = w.time + around.lasts m w in
      by_delivery now (deliver around worker_id max_chars m w)
        (λ s' acks.
          handle-IsDone (around.env_at w.time) (around.env_at now) m w.tables s' driven clean h
            acks)
        e
    where
      by_delivery :
          (now : ℕ) (d : Delivery)
          → ((s' : Session) → d ≡ acked s' → IsDone rank s')
          → after_delivery now w.queue d ≡ inl w'
          → IsDone rank w'.tables
      by_delivery now (acked s') k e =
          let here = k s' refl in
          let same : record s' { outbox = [] } ≡ w'.tables = ground arith in
          subst (IsDone rank) same (record { parts = here.parts; done = here.done })
      by_delivery now (raised_by fault s) k e = cc
