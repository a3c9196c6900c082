-- ===== src/Recovery/Reported.antt =====
-- What the reports of a sweep of app/recovery.py do to the rows of the tables: the rows that they leave are
-- not to be swept again.
use auto_bot.Prelude.{
  ◌&&◌, ℕ, suc, ◌+◌, ◌≡◌, refl, sym, ap, ◌∙◌, subst, List, [], ◌∷◌, map, Option, none, some, Bool,
  true, false, eqb, keep, arith, inl, inr, eqb_iff, Bool-cases, All, All-map, String,
}
use auto_bot.Dag.Runnable.{is_runnable}
use auto_bot.Models.{ErrorText, Task}
use auto_bot.Retry.{backoff_delay, should_retry}
use auto_bot.Scheduler.Session.{Session, Env, return, >>=-eq-return, get_run, change_task}
use auto_bot.Scheduler.Operations.{
  mark_queued, resolve, report_result, requeue_for_retry, requeue_after, fail_for_good, requeued,
  then_resolve, was_cancelled, mark_failed, mark_retry,
}
use auto_bot.Scheduler.Rows.{HasUniqueIds, HasUniqueIds-map, has_id, map-compose}
use auto_bot.Scheduler.Tick.{resolve-tasks, tick_row, done_names}
use auto_bot.Recovery.{report_all}

-- What a report of failure of the task with this id may do to a row: it keeps the id and the run, one
-- to be swept after it was one before, and is not the reported task.
abbrev IsRowOfReport : (Task → Bool) → ℕ → (Task → Task) → Type 0
IsRowOfReport bad i f =
    (r : Task) → ((f r).id ≡ r.id) × (bad (f r) ≡ true → (bad r ≡ true) × (eqb r.id i ≡ false))

abbrev ReportsRows : (Task → Bool) → ℕ → Session → Session → Type 0
ReportsRows bad i s s' = (f : Task → Task) × (s'.tasks ≡ map f s.tasks) × IsRowOfReport bad i f

-- The rows that a report of failure leaves are not to be swept again, nor are those that a tick queues.
pub record Clears (env : Env) (bad : Task → Bool) : Type 0 where
  pub failed : (error : Option ErrorText) (r : Task) → bad (mark_failed env.now error r) ≡ false
  pub retried :
      (n : ℕ) (error : Option ErrorText) (d : ℕ) (r : Task)
      → bad (mark_retry n error (env.now + d) r) ≡ false
  pub queued : (r : Task) → bad (mark_queued env.now r) ≡ false

module _ (bad : Task → Bool) (env : Env) (clears : Clears env bad) (task : Task) (s s' : Session)
    (unique : HasUniqueIds s.tasks) where
  ticked-row :
      (run_id : ℕ) (done : List String) (f : Task → Task)
      → ((r : Task) → (f r).id ≡ r.id)
      → ((r : Task) → bad (f r) ≡ false)
      → IsRowOfReport bad task.id (λ r. tick_row env run_id done (change_task task.id f r))
  ticked-row run_id done f keeps moved r =
      unfold is_runnable in
      (
        ground (arith, keeps r),
        λ h. ground (arith, keeps r, moved r, clears.queued (change_task task.id f r)),
      )

  plain-row :
      (f : Task → Task)
      → ((r : Task) → (f r).id ≡ r.id)
      → ((r : Task) → bad (f r) ≡ false)
      → IsRowOfReport bad task.id (change_task task.id f)
  plain-row f keeps moved r = (ground (arith, keeps r), λ h. ground (arith, keeps r, moved r))

  resolved-rows :
      (f : Task → Task) (s₁ : Session)
      → ((r : Task) → (f r).id ≡ r.id)
      → ((r : Task) → bad (f r) ≡ false)
      → s₁.tasks ≡ map (change_task task.id f) s.tasks
      → then_resolve env task.run_id s₁ ≡ return s'
      → ReportsRows bad task.id s s'
  resolved-rows f s₁ keeps moved same h =
      let ((ts, s₂), ticked, last) = >>=-eq-return (resolve env task.run_id s₁) _ h in
      let end : s₂ ≡ s' = ground arith in
      let unique₁ =
        subst HasUniqueIds (sym same) (
          HasUniqueIds-map (change_task task.id f) s.tasks (λ r. ground (arith, keeps r)) unique) in
      let rows = resolve-tasks env task.run_id s₁ s₂ ts unique₁ ticked in
      elim (Bool-cases (was_cancelled (get_run task.run_id s₁))) [
        | inl stopped ↦
            (change_task task.id f, (rw (← end, rw stopped at rows) same), plain-row f keeps moved)
        | inr active ↦
            let done = done_names task.run_id s₁.tasks in
            let tick = tick_row env task.run_id done in
            (
              (λ r. tick (change_task task.id f r)),
              rw (← end, rw active at rows)
                  (ap (map tick) same
                    ∙ map-compose (change_task task.id f) tick _ s.tasks (λ r. refl)),
              ticked-row task.run_id done f keeps moved,
            )
      ]

  requeued-rows :
      (error : Option ErrorText) (d : Option ℕ)
      → requeue_after env task error d s ≡ return s'
      → ReportsRows bad task.id s s'
  requeued-rows error none h = cc
  requeued-rows error (some d) h =
      let same : requeued env task error d s ≡ s' = ground arith in
      let retry = mark_retry (suc task.retry_count) error (env.now + d) in
      (
        change_task task.id retry,
        ap (λ x. x.tasks) (sym same),
        plain-row retry (λ r. refl) (clears.retried (suc task.retry_count) error d),
      )

  report_result-rows :
      (error : Option ErrorText)
      → report_result env task false error s ≡ return s'
      → ReportsRows bad task.id s s'
  unfolding report_result requeue_for_retry
  report_result-rows error h = elim (Bool-cases (was_cancelled (get_run task.run_id s))) [
    | inl stopped ↦ failed (rw stopped at h)
    | inr active ↦ elim (Bool-cases (should_retry task.retry_count task.max_retries)) [
      | inl again ↦
          requeued-rows error (backoff_delay env.retry env.uniform (suc task.retry_count))
            (rw (active, again) at h)
      | inr spent ↦ failed (rw (active, spent) at h)
    ]
  ]
    where
      failed : fail_for_good env task error s ≡ return s' → ReportsRows bad task.id s s'
      failed h =
          resolved-rows (mark_failed env.now error) _ (λ r. refl) (clears.failed error) refl h

-- Every row that is to be swept is one of the tasks that are still to be reported.
abbrev pub Listed : (Task → Bool) → (ℕ → Bool) → List Task → List Task → Type 0
Listed bad unlocked ts rows =
    All (λ r. (bad r && unlocked r.id) ≡ true → has_id r.id ts ≡ true) rows

Listed-map :
    (bad : Task → Bool) (unlocked : ℕ → Bool) (t : Task) (ts : List Task) (f : Task → Task)
    (rows : List Task)
    → IsRowOfReport bad t.id f
    → Listed bad unlocked (t ∷ ts) rows
    → Listed bad unlocked ts (map f rows)
Listed-map bad unlocked t ts f [] row h = tt
Listed-map bad unlocked t ts f (r ∷ rows) row h = (
  (λ orphan.
      let (before, other) = (row r).1 (ground arith) in
      let here = h.0 (ground (arith, (row r).0)) in
      ground (arith, (row r).0, eqb_iff t.id r.id, eqb_iff r.id t.id)),
  Listed-map bad unlocked t ts f rows row h.1,
)

pub report_all-none :
    (bad : Task → Bool) (unlocked : ℕ → Bool) (env : Env) (clears : Clears env bad)
    (text : Task → ErrorText) (ts : List Task) (s s' : Session)
    → HasUniqueIds s.tasks
    → Listed bad unlocked ts s.tasks
    → report_all env text ts s ≡ return s'
    → All (λ r. (bad r && unlocked r.id) ≡ false) s'.tasks
unfolding report_all
report_all-none bad unlocked env clears text [] s s' unique listed h =
    let same : s ≡ s' = ground arith in
    subst (λ x. All (λ r. (bad r && unlocked r.id) ≡ false) x.tasks) same
      (All-map (λ r e. ground arith) s.tasks listed)
report_all-none bad unlocked env clears text (t ∷ ts) s s' unique listed h =
    let (s₁, reported, rest) =
      >>=-eq-return (report_result env t false (some (text t)) s) (report_all env text ts) h in
    let (f, rows, row) = report_result-rows bad env clears t s s₁ unique (some (text t)) reported in
    report_all-none bad unlocked env clears text ts s₁ s'
      (subst HasUniqueIds (sym rows) (HasUniqueIds-map f s.tasks (λ r. (row r).0) unique))
      (subst (Listed bad unlocked ts) (sym rows)
        (Listed-map bad unlocked t ts f s.tasks row listed))
      rest

pub Listed-keep :
    (bad : Task → Bool) (unlocked : ℕ → Bool) (ts rows : List Task)
    → ((i : ℕ) → has_id i (keep (λ r. bad r && unlocked r.id) rows) ≡ true → has_id i ts ≡ true)
    → Listed bad unlocked ts rows
Listed-keep bad unlocked ts [] h = tt
Listed-keep bad unlocked ts (r ∷ rows) h = (
  (λ orphan. ground (arith, h r.id, eqb_iff r.id r.id)),
  Listed-keep bad unlocked ts rows (λ i e. ground (arith, h i)),
)
