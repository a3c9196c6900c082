-- ===== src/Worker/Announces.antt =====
-- `Worker.handle` of app/worker.py, and the messages of the queued tasks.
use auto_bot.Scheduler.Announced.{
  posted, IsAnnounced, Announces, report_result-Announces, All-change,
}
use auto_bot.Prelude.{
  [], inr, eqb_iff, inl, ◌∷◌, refl, All-map, ◌||◌, subst, ap, eqb, none, ◌∙◌, All, List, false,
  true, arith, some, ◌≡◌, Option, String, Bool, ℕ,
}
use auto_bot.Scheduler.Session.{
  ◌>>=◌, return, raise, return, change_task, update_task, Outcome, TaskMessage, Session, Env,
}
use auto_bot.Executors.{TaskContext}
use auto_bot.Worker.{
  heartbeat, execute, end_delivery, claim, raised, acked, capture_logs, set_logs, handle, Task,
  report_execution, WorkerStatus, Dict, finish_task, Execution,
}
use auto_bot.Scheduler.Turns.{popped-held_in, taken-HasMessages, held_in, HasMessages, World}
use auto_bot.Worker.Drives.{heartbeat-SameRows, start_task-IsStarted, IsStarted, IsIdle, SameRows}
use auto_bot.Broker.Memory.{pop_due, MemoryBroker}
use auto_bot.Scheduler.Driven.{IsDriven}
use auto_bot.Scheduler.Driven.Moves.{nobody}
use auto_bot.Models.{is_queued}

module _ (held : ℕ → Bool) where
  SameRows-IsAnnounced : (s s' : Session) → SameRows s s' → IsAnnounced held s → IsAnnounced held s'
  SameRows-IsAnnounced s s' (rows, runs, sent) h = rw (rows, sent) h

  beat-Announces :
      (env : Env) (worker_id : String) (status : Option WorkerStatus) (o : Outcome Session)
      → Announces held o
      → Announces held (o >>= λ s'. return (heartbeat env worker_id status s'))
  beat-Announces env worker_id status (return s) h =
      SameRows-IsAnnounced s (heartbeat env worker_id status s)
        (heartbeat-SameRows env worker_id status s) h
  beat-Announces env worker_id status (raise fault) h = tt

  finish_task-Announces :
      (env : Env) (worker_id : String) (max_chars : ℕ) (task : Task) (execution : Execution)
      (s : Session)
      → IsAnnounced held s
      → Announces held (finish_task env worker_id max_chars task execution s)
  unfolding finish_task report_execution
  finish_task-Announces env worker_id max_chars task execution s h = by_error execution.error
    where
      s₁ : Session
      s₁ =
          update_task task.id (set_logs (capture_logs max_chars execution.stdout execution.stderr))
            s

      h₁ : IsAnnounced held s₁
      h₁ =
          All-change _ _
            (change_task task.id
              (set_logs (capture_logs max_chars execution.stdout execution.stderr)))
            s.tasks (λ t k queued. ground (arith, k)) h

      by_error :
          (error : Option (String × String))
          → Announces held (
              report_execution env worker_id
                (set_logs (capture_logs max_chars execution.stdout execution.stderr) task)
                error
                s₁)
      by_error none =
          beat-Announces env worker_id (some WorkerStatus.idle) _
            (report_result-Announces held env _ true none s₁ h₁)
      by_error (some (kind, message)) =
          report_result-Announces held env _ false (some (raised kind message)) s₁ h₁

-- A message has been taken, and the row of its task is not queued, or is no longer.
module _ (env : Env) (worker_id : String) (w : World) (m : TaskMessage) (rest : MemoryBroker)
    (popped : pop_due env.now w.queue ≡ (some m, rest)) (h : HasMessages w) where
  idle-IsAnnounced : IsIdle m.task_id w.tables → IsAnnounced (held_in rest) w.tables
  idle-IsAnnounced idle = both w.tables.tasks h.held idle
    where
      both :
          (ts : List Task)
          → All (λ t. is_queued t.status ≡ true → held_in w.queue t.id ≡ true) ts
          → All (λ r. eqb r.id m.task_id ≡ true → is_queued r.status ≡ false) ts
          → All
              (λ t.
                is_queued t.status ≡ true
                → (held_in rest t.id || posted w.tables.outbox t.id) ≡ true)
              ts
      both [] a b = tt
      both (t ∷ ts) a b = (
        (λ queued.
            let other : eqb m.task_id t.id ≡ false =
              ground (arith, b.0, eqb_iff t.id m.task_id, eqb_iff m.task_id t.id) in
            let kept = popped-held_in env.now t.id w.queue rest m popped other (a.0 queued) in
            rw kept refl),
        both ts a.1 b.1,
      )

  started-IsAnnounced :
      (task : Task) (started : Session)
      → task.id ≡ m.task_id
      → IsStarted env worker_id w.tables task started
      → IsAnnounced (held_in rest) started
  started-IsAnnounced task started at k =
      let taken = taken-HasMessages env worker_id w m rest popped h in
      let rows : started.tasks ≡ (claim env m.task_id worker_id w.tables).1.tasks =
        k.claimed_rows ∙ ap (λ i. (claim env i worker_id w.tables).1.tasks) at in
      rw rows (All-map (λ t a queued. let there = a queued in rw there refl) _ taken.held)

-- A delivery that is acked leaves a message for every queued task.
module _ {Handler : Type 0} (call : Handler → TaskContext → Execution) (default_handler : Handler)
    (registry : Dict Handler) (claim_env report_env : Env) (worker_id : String) (max_chars : ℕ)
    (meanwhile : Session → Session) (aside : (s : Session) → SameRows s (meanwhile s)) where
  pub handle-IsAnnounced :
      (w : World) (m : TaskMessage) (rest : MemoryBroker) (s' : Session)
      → pop_due claim_env.now w.queue ≡ (some m, rest)
      → HasMessages w
      → IsDriven nobody nobody w.tables
      → handle call default_handler registry claim_env report_env worker_id max_chars meanwhile m
          w.tables
        ≡ acked s'
      → IsAnnounced (held_in rest) s'
  unfolding handle
  handle-IsAnnounced w m rest s' popped h driven acks =
      elim (start_task-IsStarted claim_env worker_id m.task_id w.tables driven) [
        | inl (declined, idle) ↦
            let ended = rw declined at acks in
            let same : w.tables ≡ s' = ground arith in
            subst (IsAnnounced (held_in rest)) same
              (idle-IsAnnounced claim_env worker_id w m rest popped h idle)
        | inr (task, started, at, won, k) ↦
            let tables = meanwhile started in
            let ran = execute call default_handler registry worker_id task in
            let o = finish_task report_env worker_id max_chars task ran tables in
            let ended : end_delivery tables o ≡ acked s' = rw won at acks in
            let here =
              finish_task-Announces (held_in rest) report_env worker_id max_chars task ran tables (
                SameRows-IsAnnounced (held_in rest) started tables (aside started)
                  (started-IsAnnounced claim_env worker_id w m rest popped h task started at k)) in
            ended-acked tables o s' ended here
      ]
    where
      ended-acked :
          (tables : Session) (o : Outcome Session) (s' : Session)
          → end_delivery tables o ≡ acked s'
          → Announces (held_in rest) o
          → IsAnnounced (held_in rest) s'
      ended-acked tables (return x) s' e k =
          let same : x ≡ s' = ground arith in subst (IsAnnounced (held_in rest)) same k
      ended-acked tables (raise fault) s' e k = cc
