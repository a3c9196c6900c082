-- ===== src/Scheduler/Safety.antt =====
-- What every call of app/scheduler.py keeps: ids stay unique, and no task is started before its
-- dependencies have succeeded.
use auto_bot.Prelude.{
  ℕ, suc, ◌≡◌, refl, sym, subst, String, List, [], ◌∷◌, ◌++◌, map, Option, none, some, Bool, true,
  false, ◌||◌, eqb, find, arith, inl, inr, eqb_iff, Bool-cases, All, All-map, ◌+◌,
}
use auto_bot.Dag.Spec.{TaskSpec}
use auto_bot.Dag.Validate.{validate_definition}
use auto_bot.Models.{ErrorText, Workflow, Task, TaskStatus, is_success, is_queued, is_running}
use auto_bot.Retry.{backoff_delay, should_retry}
use auto_bot.Scheduler.Session.{Session, Env, return, >>=-eq-return, get_run, get_task, change_task}
use auto_bot.Scheduler.Operations.{
  create_run, from_dag, new_tasks, resolve, report_result, claim, cancel_run, was_cancelled,
  cancel_task, mark_success, mark_failed, mark_retry, then_resolve, requeue_after, fail_for_good,
}
use auto_bot.Scheduler.Rows.{other_ids, HasUniqueIds, HasUniqueIds-map}
use auto_bot.Scheduler.Tick.{resolve-tasks}
use auto_bot.Scheduler.Deps.{
  DepsDone, DepsDone-map, DepsDone-append, tick-DepsDone, Keeps, StartsDone, All-of, is_started,
}

abbrev pub is_dispatched : TaskStatus → Bool
is_dispatched status = is_queued status || is_running status

pub record IsSafe (s : Session) : Type 0 where
  pub unique : HasUniqueIds s.tasks
  pub deps_done : DepsDone s.tasks

pub IsSafe-tasks : (s s' : Session) → s'.tasks ≡ s.tasks → IsSafe s → IsSafe s'
IsSafe-tasks s s' e h = record {
  unique = subst HasUniqueIds (sym e) h.unique;
  deps_done = subst DepsDone (sym e) h.deps_done;
}

-- Rows of a run that have just been made are pending.
new_tasks-idle :
    (env : Env) (uuid : ℕ → ℕ) (i run_id : ℕ) (specs : List TaskSpec)
    → All (λ t. is_started t.status ≡ false) (new_tasks env uuid i run_id specs)
new_tasks-idle env uuid i run_id [] = tt
new_tasks-idle env uuid i run_id (spec ∷ specs) =
    (refl, new_tasks-idle env uuid (i + 1) run_id specs)

pub resolve-IsSafe :
    (env : Env) (run_id : ℕ) (s s' : Session) (ts : List Task)
    → resolve env run_id s ≡ return (ts, s')
    → IsSafe s
    → IsSafe s'
resolve-IsSafe env run_id s s' ts e h =
    let rows = resolve-tasks env run_id s s' ts h.unique e in
    elim (Bool-cases (was_cancelled (get_run run_id s))) [
      | inl stopped ↦ IsSafe-tasks s s' (rw stopped at rows) h
      | inr active ↦
          let same = rw active at rows in
          record {
            unique =
                subst HasUniqueIds (sym same)
                  (HasUniqueIds-map _ s.tasks (λ t. ground arith) h.unique);
            deps_done = subst DepsDone (sym same) (tick-DepsDone env run_id s.tasks h.deps_done);
          }
    ]

-- A row with the id of a dispatched task has been started and has not succeeded.
only_dispatched :
    (task : Task) (ts : List Task)
    → HasUniqueIds ts
    → find (λ t. eqb t.id task.id) ts ≡ some task
    → is_dispatched task.status ≡ true
    → All (λ t. eqb t.id task.id ≡ true → is_dispatched t.status ≡ true) ts
only_dispatched task [] unique found h = tt
only_dispatched task (t ∷ ts) unique found h = elim (Bool-cases (eqb t.id task.id)) [
  | inl here ↦ (
    (λ _. ground arith),
    All-map
        (λ r other same.
          absurd (ground (arith, eqb_iff t.id task.id, eqb_iff r.id task.id, eqb_iff t.id r.id)))
        ts (other_ids t.id ts unique.0),
  )
  | inr other ↦ ((λ same. cc), only_dispatched task ts unique.1 (rw other at found) h)
]

-- A change of a dispatched task that leaves it started and says nothing of another.
abbrev Reports : (Task → Task) → Type 0
Reports f =
    (t : Task)
    → ((f t).id ≡ t.id)
      × ((f t).run_id ≡ t.run_id)
      × ((f t).task_name ≡ t.task_name)
      × ((f t).depends_on ≡ t.depends_on)
      × (is_started (f t).status ≡ true)

dispatched-not_success : (st : TaskStatus) → is_dispatched st ≡ true → is_success st ≡ false
dispatched-not_success st h = ground arith

dispatched-started : (st : TaskStatus) → is_dispatched st ≡ true → is_started st ≡ true
dispatched-started st h = ground arith

report-Keeps :
    (f : Task → Task) (i : ℕ) (t : Task)
    → Reports f
    → (eqb t.id i ≡ true → is_dispatched t.status ≡ true)
    → Keeps (change_task i f) t
report-Keeps f i t r h = elim (Bool-cases (eqb t.id i)) [
  | inl here ↦ ground (arith, r t, dispatched-not_success t.status (h here))
  | inr other ↦ ground arith
]

report-StartsDone :
    (f : Task → Task) (i : ℕ) (t : Task) (tasks : List Task)
    → (eqb t.id i ≡ true → is_dispatched t.status ≡ true)
    → StartsDone tasks (change_task i f) t
report-StartsDone f i t tasks h begun = elim (Bool-cases (eqb t.id i)) [
  | inl here ↦ inl (dispatched-started t.status (h here))
  | inr other ↦ inl (ground arith)
]

module _ (s : Session) (task : Task) (safe : IsSafe s) (found : get_task task.id s ≡ some task)
    (dispatched : is_dispatched task.status ≡ true) where
  report-IsSafe :
      (f : Task → Task) (s' : Session)
      → Reports f
      → s'.tasks ≡ map (change_task task.id f) s.tasks
      → IsSafe s'
  report-IsSafe f s' r e =
      let rows = only_dispatched task s.tasks safe.unique found dispatched in
      record {
        unique = subst HasUniqueIds (sym e) (
            HasUniqueIds-map (change_task task.id f) s.tasks (λ t. ground (arith, r t))
              safe.unique);
        deps_done = subst DepsDone (sym e) (
            DepsDone-map (change_task task.id f) s.tasks
              (All-map (λ t h. report-Keeps f task.id t r h) s.tasks rows)
              (All-map (λ t h. report-StartsDone f task.id t s.tasks h) s.tasks rows)
              safe.deps_done);
      }

  then_resolve-IsSafe :
      (env : Env) (run_id : ℕ) (f : Task → Task) (s₁ s' : Session)
      → Reports f
      → s₁.tasks ≡ map (change_task task.id f) s.tasks
      → then_resolve env run_id s₁ ≡ return s'
      → IsSafe s'
  then_resolve-IsSafe env run_id f s₁ s' r e h =
      let ((ts, s₂), resolved, last) = >>=-eq-return (resolve env run_id s₁) _ h in
      let end : s₂ ≡ s' = ground arith in
      subst IsSafe end (resolve-IsSafe env run_id s₁ s₂ ts resolved (report-IsSafe f s₁ r e))

  requeue-IsSafe :
      (env : Env) (error : Option ErrorText) (delay : Option ℕ) (s' : Session)
      → requeue_after env task error delay s ≡ return s'
      → IsSafe s'
  requeue-IsSafe env error none s' h = cc
  requeue-IsSafe env error (some d) s' h =
      report-IsSafe (mark_retry (suc task.retry_count) error (env.now + d)) s' (λ t. ground arith)
        (ground arith)

  fail-IsSafe :
      (env : Env) (error : Option ErrorText) (s' : Session)
      → fail_for_good env task error s ≡ return s'
      → IsSafe s'
  fail-IsSafe env error s' h =
      then_resolve-IsSafe env task.run_id (mark_failed env.now error) _ s' (λ t. ground arith) refl
        h

  pub report_result-IsSafe :
      (env : Env) (succeed : Bool) (error : Option ErrorText) (s' : Session)
      → report_result env task succeed error s ≡ return s'
      → IsSafe s'
  unfolding report_result
  report_result-IsSafe env true error s' h =
      then_resolve-IsSafe env task.run_id (mark_success env.now) _ s' (λ t. ground arith) refl h
  report_result-IsSafe env false error s' h =
      elim (Bool-cases (was_cancelled (get_run task.run_id s))) [
        | inl stopped ↦ fail-IsSafe env error s' (rw stopped at h)
        | inr active ↦ elim (Bool-cases (should_retry task.retry_count task.max_retries)) [
          | inl again ↦
              requeue-IsSafe env error (backoff_delay env.retry env.uniform (suc task.retry_count))
                s' (rw (active, again) at h)
          | inr exhausted ↦ fail-IsSafe env error s' (rw (active, exhausted) at h)
        ]
      ]

pub claim-IsSafe :
    (env : Env) (task_id : ℕ) (w : String) (s : Session)
    → IsSafe s
    → IsSafe (claim env task_id w s).1
unfolding claim
claim-IsSafe env task_id w s h = record {
  unique = HasUniqueIds-map _ s.tasks (λ t. ground arith) h.unique;
  deps_done =
      DepsDone-map _ s.tasks (All-of s.tasks (λ t. ground arith))
        (All-of s.tasks (λ t begun. inl (ground arith))) h.deps_done;
}

pub cancel_run-IsSafe :
    (env : Env) (run_id : ℕ) (s s' : Session)
    → cancel_run env run_id s ≡ return s'
    → IsSafe s
    → IsSafe s'
unfolding cancel_run
cancel_run-IsSafe env run_id s s' e h =
    let same : s'.tasks ≡ map (cancel_task run_id) s.tasks = ground arith in
    record {
      unique =
          subst HasUniqueIds (sym same) (HasUniqueIds-map _ s.tasks (λ t. ground arith) h.unique);
      deps_done = subst DepsDone (sym same) (
          DepsDone-map (cancel_task run_id) s.tasks (All-of s.tasks (λ t. ground arith))
            (All-of s.tasks (λ t begun. inl (ground arith))) h.deps_done);
    }

pub create_run-IsSafe :
    (env : Env) (run_id id : ℕ) (uuid : ℕ → ℕ) (w : Workflow) (s s' : Session)
    → create_run env run_id uuid w s ≡ return (id, s')
    → HasUniqueIds s'.tasks
    → IsSafe s
    → IsSafe s'
unfolding create_run
create_run-IsSafe env run_id id uuid w s s' e unique h =
    let (specs, valid, last) = >>=-eq-return (from_dag (validate_definition w.definition)) _ e in
    let same : s'.tasks ≡ s.tasks ++ new_tasks env uuid 0 run_id specs = ground arith in
    record {
      unique = unique;
      deps_done =
          subst DepsDone (sym same)
            (DepsDone-append s.tasks _ (new_tasks-idle env uuid 0 run_id specs) h.deps_done);
    }
