-- ===== src/Scheduler/Kept.antt =====
-- What the functions of app/scheduler.py leave alone: the rows of the workflows and of the workers.
use auto_bot.Scheduler.Operations.{
  from_dag, cancel_run, create_run, failed_for_good, load_tasks, mark_success, was_cancelled,
  resolve, queue_all, publish_all, dispatch_or_finalize, finalize_if_done, close_found, dispatch,
  then_resolve, report_result, requeue_for_retry, requeue_after,
}
use auto_bot.Prelude.{
  arith, subst, ◌∙◌, false, true, suc, refl, inr, none, [], inl, ◌∷◌, Bool, Bool-cases, some,
  Option, ◌≡◌, List, ℕ,
}
use auto_bot.Scheduler.Session.{
  >>=-eq-return, ◌>>=◌, raise, update_task, get_run, return, Outcome, Session, Env,
}
use auto_bot.Models.{Workflow, ErrorText, WorkflowRun, WorkerRow, Task}
use auto_bot.Dag.Runnable.{get_runnable_tasks, is_run_finished}
use auto_bot.Retry.{backoff_delay, should_retry}
use auto_bot.Dag.Validate.{validate_definition}

-- The tables that the functions of app/scheduler.py read at most.
abbrev pub fixed : Session → List Workflow × List WorkerRow
fixed s = (s.workflows, s.workers)

queue_all-fixed : (now : ℕ) (ts : List Task) (s : Session) → fixed (queue_all now ts s) ≡ fixed s
queue_all-fixed now [] s = refl
queue_all-fixed now (t ∷ ts) s = queue_all-fixed now ts _

publish_all-fixed : (ts : List Task) (s : Session) → fixed (publish_all ts s) ≡ fixed s
publish_all-fixed [] s = refl
publish_all-fixed (t ∷ ts) s = publish_all-fixed ts _

-- Every session that the call returns has these tables.
abbrev pub KeepsFixed : List Workflow × List WorkerRow → Outcome Session → Type 0
KeepsFixed ws (return s) = fixed s ≡ ws
KeepsFixed ws (raise fault) = Unit

pub fixed-return :
    (before : List Workflow × List WorkerRow) (o : Outcome Session) (s : Session)
    → KeepsFixed before o
    → o ≡ return s
    → fixed s ≡ before
fixed-return before o s keeps h = subst (KeepsFixed before) h keeps

close_found-fixed :
    (env : Env) (run_id : ℕ) (tasks : List Task) (o : Option WorkflowRun) (s : Session)
    → KeepsFixed (fixed s) (close_found env run_id tasks o s)
close_found-fixed env run_id tasks none s = tt
close_found-fixed env run_id tasks (some run) s = refl

finalize-fixed :
    (env : Env) (run_id : ℕ) (tasks : List Task) (s : Session)
    → KeepsFixed (fixed s) (finalize_if_done env run_id (some tasks) s)
unfolding finalize_if_done
finalize-fixed env run_id tasks s = elim (Bool-cases (is_run_finished tasks)) [
  | inl done ↦ rw done (close_found-fixed env run_id tasks (get_run run_id s) s)
  | inr waits ↦ rw waits refl
]

abbrev no_tasks : Session → Outcome (List Task × Session)
no_tasks s = return ([], s)

abbrev sessions : List Task × Session → Outcome Session
sessions r = return r.1

drop_tasks-fixed :
    (ws : List Workflow × List WorkerRow) (o : Outcome Session)
    → KeepsFixed ws o
    → KeepsFixed ws (o >>= no_tasks >>= sessions)
drop_tasks-fixed ws (return s) h = h
drop_tasks-fixed ws (raise fault) h = tt

tick-fixed :
    (env : Env) (run_id : ℕ) (tasks ts : List Task) (s : Session)
    → KeepsFixed (fixed s) (dispatch_or_finalize env run_id tasks ts s >>= sessions)
unfolding dispatch
tick-fixed env run_id tasks [] s =
    drop_tasks-fixed (fixed s) (finalize_if_done env run_id (some tasks) s)
      (finalize-fixed env run_id tasks s)
tick-fixed env run_id tasks (t ∷ ts) s =
    publish_all-fixed (t ∷ ts) (queue_all env.now (t ∷ ts) s) ∙ queue_all-fixed env.now (t ∷ ts) s

pub then_resolve-fixed :
    (env : Env) (run_id : ℕ) (s : Session) → KeepsFixed (fixed s) (then_resolve env run_id s)
unfolding resolve
then_resolve-fixed env run_id s = elim (Bool-cases (was_cancelled (get_run run_id s))) [
  | inl stopped ↦ rw stopped refl
  | inr active ↦ rw active (
      tick-fixed env run_id (load_tasks env run_id s) (get_runnable_tasks (load_tasks env run_id s))
        s)
]

requeue_after-fixed :
    (env : Env) (task : Task) (error : Option ErrorText) (d : Option ℕ) (s : Session)
    → KeepsFixed (fixed s) (requeue_after env task error d s)
requeue_after-fixed env task error none s = tt
requeue_after-fixed env task error (some d) s = refl

pub report_result-fixed :
    (env : Env) (task : Task) (succeed : Bool) (error : Option ErrorText) (s : Session)
    → KeepsFixed (fixed s) (report_result env task succeed error s)
unfolding report_result requeue_for_retry
report_result-fixed env task true error s =
    then_resolve-fixed env task.run_id (update_task task.id (mark_success env.now) s)
report_result-fixed env task false error s =
    elim (Bool-cases (was_cancelled (get_run task.run_id s))) [
      | inl stopped ↦
          rw stopped (then_resolve-fixed env task.run_id (failed_for_good env task error s))
      | inr active ↦ elim (Bool-cases (should_retry task.retry_count task.max_retries)) [
        | inl again ↦
            rw (active, again)
              (requeue_after-fixed env task error
                (backoff_delay env.retry env.uniform (suc task.retry_count)) s)
        | inr spent ↦
            rw (active, spent)
              (then_resolve-fixed env task.run_id (failed_for_good env task error s))
      ]
    ]

pub resolve-fixed :
    (env : Env) (run_id : ℕ) (s s' : Session) (ts : List Task)
    → resolve env run_id s ≡ return (ts, s')
    → fixed s' ≡ fixed s
resolve-fixed env run_id s s' ts h =
    fixed-return (fixed s) (then_resolve env run_id s) s' (then_resolve-fixed env run_id s)
      (rw h refl)

pub create_run-fixed :
    (env : Env) (run_id id : ℕ) (uuid : ℕ → ℕ) (w : Workflow) (s s' : Session)
    → create_run env run_id uuid w s ≡ return (id, s')
    → fixed s' ≡ fixed s
unfolding create_run
create_run-fixed env run_id id uuid w s s' h =
    let (specs, valid, last) = >>=-eq-return (from_dag (validate_definition w.definition)) _ h in
    let flows : s'.workflows ≡ s.workflows = ground arith in
    let rows : s'.workers ≡ s.workers = ground arith in λ i. (flows i, rows i)

pub cancel_run-fixed :
    (env : Env) (run_id : ℕ) (s s' : Session)
    → cancel_run env run_id s ≡ return s'
    → fixed s' ≡ fixed s
unfolding cancel_run
cancel_run-fixed env run_id s s' h =
    let flows : s'.workflows ≡ s.workflows = ground arith in
    let rows : s'.workers ≡ s.workers = ground arith in λ i. (flows i, rows i)
