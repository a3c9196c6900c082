-- ===== src/Scheduler/Steps.antt =====
-- The transactions of the system as steps between the tables, and what every sequence of them keeps.
use auto_bot.Prelude.{
  inl, arith, ap, ℕ, ◌≡◌, sym, subst, String, List, [], Option, some, Bool, true,
}
use auto_bot.Models.{WorkerRow, ErrorText, Workflow, Task}
use auto_bot.Scheduler.Session.{change_task, update_task, Session, Env, return, get_task}
use auto_bot.Scheduler.Operations.{create_run, resolve, report_result, claim, cancel_run}
use auto_bot.Scheduler.Rows.{HasUniqueIds-map, HasUniqueIds}
use auto_bot.Scheduler.Deps.{All-of, DepsDone-map, DepsDone}
use auto_bot.Scheduler.Safety.{
  IsSafe-tasks, IsSafe, is_dispatched, resolve-IsSafe, report_result-IsSafe, claim-IsSafe,
  cancel_run-IsSafe, create_run-IsSafe,
}
use auto_bot.Worker.{set_logs}

-- One committed transaction; the logs that are written with a report, and the workers' rows that a
-- heartbeat or a registration writes, are steps of their own. A report is of a row that is queued or running, and whose object is up to
-- date; a run is created under ids that the primary key accepts.
pub data Step : Session → Session → Type 0 where
  created :
      {s s' : Session} (env : Env) (run_id : ℕ) (uuid : ℕ → ℕ) (w : Workflow)
      → create_run env run_id uuid w s ≡ return (run_id, s')
      → HasUniqueIds s'.tasks
      → Step s s'
  ticked :
      {s s' : Session} (env : Env) (run_id : ℕ) (ts : List Task)
      → resolve env run_id s ≡ return (ts, s')
      → Step s s'
  claimed :
      {s s' : Session} (env : Env) (task_id : ℕ) (worker : String)
      → s' ≡ (claim env task_id worker s).1
      → Step s s'
  reported :
      {s s' : Session} (env : Env) (task : Task) (succeed : Bool) (error : Option ErrorText)
      → get_task task.id s ≡ some task
      → is_dispatched task.status ≡ true
      → report_result env task succeed error s ≡ return s'
      → Step s s'
  cancelled :
      {s s' : Session} (env : Env) (run_id : ℕ) → cancel_run env run_id s ≡ return s' → Step s s'
  logged :
      {s s' : Session} (task_id : ℕ) (logs : Option String)
      → s' ≡ update_task task_id (set_logs logs) s
      → Step s s'
  beaten : {s s' : Session} (ws : List WorkerRow) → s' ≡ record s { workers = ws } → Step s s'

pub data Reach (s : Session) : Session → Type 0 where
  start : Reach s s
  next : {t u : Session} → Reach s t → Step t u → Reach s u

logged-IsSafe :
    (task_id : ℕ) (logs : Option String) (s : Session)
    → IsSafe s
    → IsSafe (update_task task_id (set_logs logs) s)
logged-IsSafe task_id logs s h = record {
  unique = HasUniqueIds-map _ s.tasks (λ t. ground arith) h.unique;
  deps_done =
      DepsDone-map (change_task task_id (set_logs logs)) s.tasks
        (All-of s.tasks (λ t. record {
          same_run = ground arith;
          same_name = ground arith;
          same_deps = ground arith;
          keeps_success = λ e. ground arith;
        }))
        (All-of s.tasks (λ t begun. inl (ground arith))) h.deps_done;
}

Step-IsSafe : {s s' : Session} → Step s s' → IsSafe s → IsSafe s'
Step-IsSafe (created env run_id uuid w e unique) h =
    create_run-IsSafe env run_id run_id uuid w _ _ e unique h
Step-IsSafe (ticked env run_id ts e) h = resolve-IsSafe env run_id _ _ ts e h
Step-IsSafe (claimed env task_id worker e) h =
    subst IsSafe (sym e) (claim-IsSafe env task_id worker _ h)
Step-IsSafe (reported env task succeed error found dispatched e) h =
    report_result-IsSafe _ task h found dispatched env succeed error _ e
Step-IsSafe (cancelled env run_id e) h = cancel_run-IsSafe env run_id _ _ e h
Step-IsSafe {s} (logged task_id logs e) h = subst IsSafe (sym e) (logged-IsSafe task_id logs s h)
Step-IsSafe {s} (beaten ws e) h = IsSafe-tasks s _ (ap (λ x. x.tasks) e) h

Reach-IsSafe : {s t : Session} → IsSafe s → Reach s t → IsSafe t
Reach-IsSafe h start = h
Reach-IsSafe h (next r step) = Step-IsSafe step (Reach-IsSafe h r)

-- From tables without tasks no sequence of transactions ever starts a task of which a dependency has
-- not succeeded: the dependencies of every queued, running, successful or failed task are among the
-- successes of its run. (A report is of a row that is queued or running, by an object that is up to
-- date.)
pub Reach-DepsDone : (s s' : Session) → s.tasks ≡ [] → Reach s s' → DepsDone s'.tasks
Reach-DepsDone s s' empty r =
    (Reach-IsSafe
      (record {
        unique = subst HasUniqueIds (sym empty) tt;
        deps_done = subst DepsDone (sym empty) tt;
      })
      r).deps_done
