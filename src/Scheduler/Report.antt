-- ===== src/Scheduler/Report.antt =====
-- What a report does to the row of its task, and what it puts in the outbox.
use auto_bot.Prelude.{
  ℕ, suc, ◌+◌, ◌≤◌, leb, ◌≡◌, refl, ap, ◌∙◌, sym, subst, String, List, [], ◌∷◌, map, Option, none,
  some, Bool, true, false, ◌&&◌, not, eqb, find, arith, inl, inr, ◌⊎◌, eqb_iff, Bool-cases,
}
use auto_bot.Dag.Runnable.{is_runnable}
use auto_bot.Models.{ErrorText, Task, is_pending}
use auto_bot.Retry.{backoff_delay, should_retry}
use auto_bot.Scheduler.Session.{
  Session, Env, return, raise, no_delay, >>=-eq-return, get_run, get_task, change_task, Publication,
  exhausted,
}
use auto_bot.Scheduler.Operations.{
  mark_success, requeue_for_retry, resolve, report_result, then_resolve, requeue_after,
  fail_for_good, was_cancelled, mark_failed, mark_retry, message_of,
}
use auto_bot.Scheduler.Rows.{HasUniqueIds, HasUniqueIds-map}
use auto_bot.Scheduler.Tick.{resolve-tasks, tick_row, done_names}
use auto_bot.Scheduler.Written.{failed_at, retried_at, succeeded_at}

find-map :
    (f : Task → Task) (i : ℕ) (ts : List Task) (t : Task)
    → ((r : Task) → (f r).id ≡ r.id)
    → find (λ r. eqb r.id i) ts ≡ some t
    → find (λ r. eqb r.id i) (map f ts) ≡ some (f t)
find-map f i [] t keeps h = cc
find-map f i (r ∷ ts) t keeps h = ground (arith, keeps r, find-map f i ts t keeps)

-- A tick changes a row only if it is pending.
resolve-get_task :
    (env : Env) (run_id i : ℕ) (s s' : Session) (ts : List Task) (t : Task)
    → HasUniqueIds s.tasks
    → resolve env run_id s ≡ return (ts, s')
    → get_task i s ≡ some t
    → is_pending t.status ≡ false
    → get_task i s' ≡ some t
resolve-get_task env run_id i s s' ts t unique h found settled =
    let rows = resolve-tasks env run_id s s' ts unique h in
    elim (Bool-cases (was_cancelled (get_run run_id s))) [
      | inl stopped ↦ rw (rw stopped at rows) found
      | inr active ↦
          let tick = tick_row env run_id (done_names run_id s.tasks) in
          rw (rw active at rows) (
            find-map tick i s.tasks t (λ r. ground arith) found
            ∙ ap some (unmoved env run_id (done_names run_id s.tasks) t settled))
    ]
  where
    unmoved :
        (env : Env) (run_id : ℕ) (done : List String) (t : Task)
        → is_pending t.status ≡ false
        → tick_row env run_id done t ≡ t
    unmoved env run_id done t h = unfold is_runnable in ground arith

-- An update of the row of a task that is found.
pub update-found :
    (f : Task → Task) (task : Task) (ts : List Task)
    → ((r : Task) → (f r).id ≡ r.id)
    → find (λ r. eqb r.id task.id) ts ≡ some task
    → find (λ r. eqb r.id task.id) (map (change_task task.id f) ts) ≡ some (f task)
update-found f task ts keeps h =
    find-map (change_task task.id f) task.id ts task (λ r. ground (arith, keeps r)) h
    ∙ ground (arith, eqb_iff task.id task.id)

abbrev pub will_retry : Session → Task → Bool
will_retry s task =
    not (was_cancelled (get_run task.run_id s)) && should_retry task.retry_count task.max_retries

-- The dead letter that a task leaves when its retries are used up.
abbrev pub dead_letter_of : Task → Option ErrorText → Publication
dead_letter_of task error = record {
  message = message_of task (some (exhausted task.max_retries error));
  delay = 0;
  dead_letter = true;
}

module _ (env : Env) (task : Task) (error : Option ErrorText) (s s' : Session)
    (unique : HasUniqueIds s.tasks) (found : get_task task.id s ≡ some task) where
  resolved-row :
      (f : Task → Task) (s₁ : Session)
      → ((r : Task) → (f r).id ≡ r.id)
      → is_pending (f task).status ≡ false
      → s₁.tasks ≡ map (change_task task.id f) s.tasks
      → then_resolve env task.run_id s₁ ≡ return s'
      → get_task task.id s' ≡ some (f task)
  resolved-row f s₁ keeps settled same h =
      let ((ts, s₂), ticked, last) = >>=-eq-return (resolve env task.run_id s₁) _ h in
      let end : s₂ ≡ s' = ground arith in
      let unique₁ =
        subst HasUniqueIds (sym same) (
          HasUniqueIds-map (change_task task.id f) s.tasks (λ r. ground (arith, keeps r)) unique) in
      let row : get_task task.id s₁ ≡ some (f task) =
        rw same (update-found f task s.tasks keeps found) in
      subst (λ x. get_task task.id x ≡ some (f task)) end
        (resolve-get_task env task.run_id task.id s₁ s₂ ts (f task) unique₁ ticked row settled)

  -- The row after a report of success that returns. (Task ids are unique, and the reported object is up
  -- to date.)
  pub report_result-success :
      report_result env task true error s ≡ return s'
      → get_task task.id s' ≡ some (succeeded_at env.now task)
  unfolding report_result
  report_result-success h = resolved-row (mark_success env.now) _ (λ r. refl) refl refl h

  requeued-row :
      (o : Option ℕ)
      → requeue_after env task error o s ≡ return s'
      → (d : ℕ) × (o ≡ some d)
        × (get_task task.id s' ≡ some (mark_retry (suc task.retry_count) error (env.now + d) task))
  requeued-row none h = cc
  requeued-row (some d) h =
      let f = mark_retry (suc task.retry_count) error (env.now + d) in
      let same : s'.tasks ≡ map (change_task task.id f) s.tasks = ground arith in
      (d, refl, rw same (update-found f task s.tasks (λ r. refl) found))

  failed-row :
      fail_for_good env task error s ≡ return s'
      → get_task task.id s' ≡ some (mark_failed env.now error task)
  failed-row h = resolved-row (mark_failed env.now error) _ (λ r. refl) refl refl h

  -- The row after a report of a failure that returns: queued for the next attempt, after the delay that
  -- the policy gives, if the run is not cancelled and the retries are not used up, and otherwise
  -- failed. (Task ids are unique, and the reported object is up to date.)
  pub report_result-failure :
      report_result env task false error s ≡ return s'
      → (will_retry s task ≡ true)
          × ((d : ℕ) × (backoff_delay env.retry env.uniform (suc task.retry_count) ≡ some d)
              × (get_task task.id s' ≡ some (retried_at error (env.now + d) task)))
        ⊎ (will_retry s task ≡ false) × (get_task task.id s' ≡ some (failed_at env.now error task))
  unfolding report_result
  report_result-failure h = elim (Bool-cases (was_cancelled (get_run task.run_id s))) [
    | inl stopped ↦ inr (rw stopped, failed-row (rw stopped at h))
    | inr active ↦ elim (Bool-cases (should_retry task.retry_count task.max_retries)) [
      | inl again ↦ inl (
        rw (active, again),
        requeued-row (backoff_delay env.retry env.uniform (suc task.retry_count))
            (rw (active, again) at h),
      )
      | inr spent ↦ inr (rw (active, spent), failed-row (rw (active, spent) at h))
    ]
  ]

-- A report of a failure raises where the task is to be retried and 1024 retries or more are behind it: the
-- delay of the next one leaves the range of a float.
pub report_result-overflow :
    (env : Env) (task : Task) (error : Option ErrorText) (s : Session)
    → will_retry s task ≡ true
    → 1024 ≤ task.retry_count
    → report_result env task false error s ≡ raise no_delay
unfolding report_result requeue_for_retry backoff_delay
report_result-overflow env task error s again many =
    let active : was_cancelled (get_run task.run_id s) ≡ false = ground arith in
    let left : should_retry task.retry_count task.max_retries ≡ true = ground arith in
    let past : leb 1024 task.retry_count ≡ true = ground arith in rw (active, left, past)
