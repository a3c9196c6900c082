-- ===== src/Scheduler/Clean.antt =====
-- Tables in which nothing has failed: no task is failed or cancelled, and each run goes on or is
-- completed.
use auto_bot.Scheduler.Announced.{All-change}
use auto_bot.Models.{is_failed, ErrorText, WorkflowRun, Task, RunStatus, TaskStatus}
use auto_bot.Scheduler.Session.{
  ◌>>=◌, get_run, change_run, publish_on_commit, change_task, update_task, raise, return, Env,
  Outcome, Session,
}
use auto_bot.Prelude.{
  ◌∙◌, keep, inr, [], refl, inl, ◌&&◌, none, eqb, arith, some, map, any, ◌∷◌, Bool-cases, Option,
  false, subst, true, String, ◌≡◌, All, Bool, List, ℕ,
}
use auto_bot.Dag.Runnable.{get_runnable_tasks, is_run_finished, is_run_failed}
use auto_bot.Scheduler.Operations.{
  dispatch_or_finalize, message_of, mark_success, mark_queued, was_cancelled, close_found,
  publish_all, queue_all, then_resolve, load_tasks, claim, report_result, resolve, dispatch,
  finalize_if_done,
}
use auto_bot.Scheduler.Claim.{claim_row}
use auto_bot.Scheduler.Rows.{any-keep, any-sort}

abbrev pub clean_task : TaskStatus → Bool
clean_task TaskStatus.pending = true
clean_task TaskStatus.queued = true
clean_task TaskStatus.running = true
clean_task TaskStatus.success = true
clean_task TaskStatus.failed = false
clean_task TaskStatus.cancelled = false

abbrev pub clean_run : RunStatus → Bool
clean_run RunStatus.pending = true
clean_run RunStatus.running = true
clean_run RunStatus.completed = true
clean_run RunStatus.failed = false
clean_run RunStatus.cancelled = false

pub record IsClean (s : Session) : Type 0 where
  pub tasks : All (λ t. clean_task t.status ≡ true) s.tasks
  pub runs : All (λ r. clean_run r.status ≡ true) s.runs

-- Every session that the call returns is clean.
abbrev pub Cleans : Outcome Session → Type 0
Cleans (return s) = IsClean s
Cleans (raise fault) = Unit

pub returned : (o : Outcome Session) {s' : Session} → o ≡ return s' → Cleans o → IsClean s'
returned o e h = subst Cleans e h

pub update-IsClean :
    (i : ℕ) (f : Task → Task) (s : Session)
    → ((t : Task) → clean_task t.status ≡ true → clean_task (f t).status ≡ true)
    → IsClean s
    → IsClean (update_task i f s)
update-IsClean i f s keeps h = record {
  tasks = All-change _ _ (change_task i f) s.tasks (λ t k. ground (arith, keeps t, k)) h.tasks;
  runs = h.runs;
}

queue_all-IsClean :
    (now : ℕ) (ts : List Task) (s : Session) → IsClean s → IsClean (queue_all now ts s)
queue_all-IsClean now [] s h = h
queue_all-IsClean now (t ∷ ts) s h =
    queue_all-IsClean now ts (update_task t.id (mark_queued now) s)
      (update-IsClean t.id (mark_queued now) s (λ r k. refl) h)

publish_all-IsClean : (ts : List Task) (s : Session) → IsClean s → IsClean (publish_all ts s)
publish_all-IsClean [] s h = h
publish_all-IsClean (t ∷ ts) s h =
    publish_all-IsClean ts (publish_on_commit (message_of t none) 0 false s)
      (record { tasks = h.tasks; runs = h.runs })

-- A run of clean tasks is not closed as failed.
pub none_failed :
    (env : Env) (run_id : ℕ) (s : Session)
    → IsClean s
    → is_run_failed (load_tasks env run_id s) ≡ false
unfolding is_run_failed load_tasks
none_failed env run_id s h =
    any-sort (λ t. is_failed t.status) (λ (a b : Task). env.name_le a.task_name b.task_name)
      (keep (λ t. eqb t.run_id run_id) s.tasks)
    ∙ any-keep (λ t. is_failed t.status) (λ t. eqb t.run_id run_id) s.tasks
    ∙ by_rows s.tasks h.tasks
  where
    by_rows :
        (ts : List Task)
        → All (λ t. clean_task t.status ≡ true) ts
        → any (λ t. eqb t.run_id run_id && is_failed t.status) ts ≡ false
    by_rows [] k = refl
    by_rows (t ∷ ts) k = ground (arith, k.0, by_rows ts k.1)

All-run :
    (i : ℕ) (f : WorkflowRun → WorkflowRun) (rs : List WorkflowRun)
    → ((r : WorkflowRun) → clean_run (f r).status ≡ true)
    → All (λ r. clean_run r.status ≡ true) rs
    → All (λ r. clean_run r.status ≡ true) (map (change_run i f) rs)
All-run i f [] clean h = tt
All-run i f (r ∷ rs) clean h = (ground (arith, clean r, h.0), All-run i f rs clean h.1)

close_found-Cleans :
    (env : Env) (run_id : ℕ) (tasks : List Task) (o : Option WorkflowRun) (s : Session)
    → is_run_failed tasks ≡ false
    → IsClean s
    → Cleans (close_found env run_id tasks o s)
close_found-Cleans env run_id tasks none s fine h = tt
close_found-Cleans env run_id tasks (some run) s fine h = record {
  tasks = h.tasks;
  runs = rw fine (All-run run_id _ s.runs (λ r. refl) h.runs);
}

finalize-Cleans :
    (env : Env) (run_id : ℕ) (tasks : List Task) (s : Session)
    → is_run_failed tasks ≡ false
    → IsClean s
    → Cleans (finalize_if_done env run_id (some tasks) s)
unfolding finalize_if_done
finalize-Cleans env run_id tasks s fine h = elim (Bool-cases (is_run_finished tasks)) [
  | inl done ↦ rw done (close_found-Cleans env run_id tasks (get_run run_id s) s fine h)
  | inr waits ↦ rw waits h
]

abbrev no_tasks : Session → Outcome (List Task × Session)
no_tasks s = return ([], s)

abbrev sessions : List Task × Session → Outcome Session
sessions r = return r.1

drop_tasks-Cleans : (o : Outcome Session) → Cleans o → Cleans (o >>= no_tasks >>= sessions)
drop_tasks-Cleans (return s) h = h
drop_tasks-Cleans (raise fault) h = tt

tick-Cleans :
    (env : Env) (run_id : ℕ) (tasks ts : List Task) (s : Session)
    → is_run_failed tasks ≡ false
    → IsClean s
    → Cleans (dispatch_or_finalize env run_id tasks ts s >>= sessions)
unfolding dispatch
tick-Cleans env run_id tasks [] s fine h =
    drop_tasks-Cleans (finalize_if_done env run_id (some tasks) s)
      (finalize-Cleans env run_id tasks s fine h)
tick-Cleans env run_id tasks (t ∷ ts) s fine h =
    publish_all-IsClean (t ∷ ts) (queue_all env.now (t ∷ ts) s)
      (queue_all-IsClean env.now (t ∷ ts) s h)

pub then_resolve-Cleans :
    (env : Env) (run_id : ℕ) (s : Session) → IsClean s → Cleans (then_resolve env run_id s)
unfolding resolve
then_resolve-Cleans env run_id s h = elim (Bool-cases (was_cancelled (get_run run_id s))) [
  | inl stopped ↦ rw stopped h
  | inr active ↦ rw active (
      tick-Cleans env run_id (load_tasks env run_id s)
        (get_runnable_tasks (load_tasks env run_id s)) s (none_failed env run_id s h) h)
]

pub success-Cleans :
    (env : Env) (task : Task) (error : Option ErrorText) (s : Session)
    → IsClean s
    → Cleans (report_result env task true error s)
unfolding report_result
success-Cleans env task error s h =
    then_resolve-Cleans env task.run_id (update_task task.id (mark_success env.now) s)
      (update-IsClean task.id (mark_success env.now) s (λ r k. refl) h)

pub claim-IsClean :
    (env : Env) (i : ℕ) (w : String) (s : Session) → IsClean s → IsClean (claim env i w s).1
unfolding claim
claim-IsClean env i w s h = record {
  tasks = All-change _ _ (claim_row env i w) s.tasks (λ t k. ground (arith, k)) h.tasks;
  runs = h.runs;
}
