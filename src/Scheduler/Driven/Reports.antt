-- ===== src/Scheduler/Driven/Reports.antt =====
-- Reports of app/scheduler.py, and the runs that wait for something.
use auto_bot.Models.{is_queued, ErrorText, Task, is_running}
use auto_bot.Recovery.Returns.{has_run}
use auto_bot.Retry.{should_retry}
use auto_bot.Scheduler.Driven.{change_task, IsDriven, KeepsRow}
use auto_bot.Scheduler.Driven.Moves.{nobody, just, update-IsDriven, then_resolve-IsDriven}
use auto_bot.Scheduler.Exhaust.{backoff-some}
use auto_bot.Scheduler.Operations.{
  message_of, report_result, then_resolve, requeue_for_retry, failed_for_good, requeued,
  mark_success, mark_failed, mark_retry, was_cancelled,
}
use auto_bot.Scheduler.Potential.{potential, total, unsent, weight, total-change, live-append}
use auto_bot.Scheduler.Progress.{in_flight, in_flight_row}
use auto_bot.Scheduler.Report.{update-found, dead_letter_of}
use auto_bot.Scheduler.Rows.{found-any, found_row}
use auto_bot.Scheduler.Session.{
  Session, Env, Publication, Outcome, return, get_run, get_task, update_task,
}
use auto_bot.Prelude.{
  eqb_iff, none, sym, subst, ◌∙◌, ◌<◌, any, refl, inr, [], ap, inl, ◌+◌, ◌∷◌, Bool-cases, suc,
  arith, map, Bool, Option, false, eqb, true, ℕ, some, ◌≤◌, ◌≡◌,
}

-- The call returns, no run waits for nothing, nobody is at work, and no work has been added.
abbrev pub Drives : Session → Outcome Session → Type 0
Drives s o =
    (s' : Session) × (o ≡ return s')
    × IsDriven nobody nobody s'
    × (potential s' ≤ potential s)
    × ((i : ℕ) → has_run i s' ≡ has_run i s)

module _ (env : Env) (task : Task) (s : Session) (found : get_task task.id s ≡ some task)
    (running : is_running task.status ≡ true) (h : IsDriven (just task.id) nobody s) where
  limits : (has_run task.run_id s ≡ true) × (task.max_retries ≤ 1024)
  limits =
      found_row (λ t. (has_run t.run_id s ≡ true) × (t.max_retries ≤ 1024)) (λ r. eqb r.id task.id)
        s.tasks task h.limits found

  -- The row is closed by an update, and the run is ticked.
  ended-Drives :
      (g : Task → Task) (s₁ : Session)
      → KeepsRow g
      → ((r : Task) → is_running (g r).status ≡ false)
      → (weight (g task) ≡ 0)
      → s₁.tasks ≡ map (change_task task.id g) s.tasks
      → s₁.runs ≡ s.runs
      → unsent s₁ ≡ unsent s
      → Drives s (then_resolve env task.run_id s₁)
  ended-Drives g s₁ keeps rested light rows runs sent =
      let there = ap (any (λ r. eqb r.id task.run_id)) runs ∙ limits.0 in
      let (s', returned, driven, same, kept) =
        then_resolve-IsDriven env task.run_id s₁ there nobody
          (update-IsDriven g task s s₁ keeps rested found rows runs h) in
      let less = total-change task.id g task s.tasks h.unique found in
      let here = ap total rows in
      (
        s',
        returned,
        driven,
        omega (arith, same, less, light, here, sent),
        (λ i. kept i ∙ ap (any (λ r. eqb r.id i)) runs),
      )

  failed-Drives :
      (error : Option ErrorText)
      → Drives s (then_resolve env task.run_id (failed_for_good env task error s))
  failed-Drives error =
      let p : Publication = dead_letter_of task error in
      ended-Drives (mark_failed env.now error) (failed_for_good env task error s)
        (λ r. (refl, refl, refl)) (λ r. refl) refl refl refl
        (omega (arith, live-append s.outbox (p ∷ [])))

  few : should_retry task.retry_count task.max_retries ≡ true → task.retry_count < 1024
  unfolding should_retry
  few again = ground (arith, limits.1)

  -- The queued row keeps its run in flight.
  requeued-settled :
      (g : Task → Task) (s₁ : Session)
      → KeepsRow g
      → ((r : Task) → is_queued (g r).status ≡ true)
      → s₁.tasks ≡ map (change_task task.id g) s.tasks
      → in_flight task.run_id s₁ ≡ true
  requeued-settled g s₁ keeps queued rows =
      let row = update-found g task s.tasks (λ r. (keeps r).0) found in
      rw rows (
        found-any (in_flight_row task.run_id) (λ r. eqb r.id task.id)
          (map (change_task task.id g) s.tasks) (g task) row
          (ground (arith, queued task, (keeps task).1, eqb_iff (g task).run_id task.run_id)))

  settle-IsDriven :
      (s₁ : Session)
      → in_flight task.run_id s₁ ≡ true
      → IsDriven nobody (just task.run_id) s₁
      → IsDriven nobody nobody s₁
  settle-IsDriven s₁ flying k = record {
    unique = k.unique;
    limits = k.limits;
    resting = k.resting;
    settled = λ i there _. elim (Bool-cases (eqb i task.run_id)) [
      | inl at ↦
          inl (subst (λ x. in_flight x s₁ ≡ true) (sym ((eqb_iff i task.run_id).0 at)) flying)
      | inr other ↦ k.settled i there other
    ];
  }

  requeued-Drives :
      (error : Option ErrorText) (d : ℕ)
      → should_retry task.retry_count task.max_retries ≡ true
      → Drives s (return (requeued env task error d s))
  unfolding should_retry
  requeued-Drives error d again =
      let g = mark_retry (suc task.retry_count) error (env.now + d) in
      let s₁ = requeued env task error d s in
      let driven =
        update-IsDriven g task s s₁ (λ r. (refl, refl, refl)) (λ r. refl) found refl refl h in
      let flying = requeued-settled g s₁ (λ r. (refl, refl, refl)) (λ r. refl) refl in
      (s₁, refl, settle-IsDriven s₁ flying driven, lighter, λ i. refl)
    where
      lighter : potential (requeued env task error d s) ≤ potential s
      lighter =
          let g = mark_retry (suc task.retry_count) error (env.now + d) in
          let p : Publication = record {
            message = message_of (g task) none;
            delay = d;
            dead_letter = false;
          } in
          let less = total-change task.id g task s.tasks h.unique found in
          let more = live-append s.outbox (p ∷ []) in ground (arith, less, more, running)

  pub report_result-Drives :
      (succeed : Bool) (error : Option ErrorText)
      → Drives s (report_result env task succeed error s)
  unfolding report_result requeue_for_retry
  report_result-Drives true error =
      ended-Drives (mark_success env.now) (update_task task.id (mark_success env.now) s)
        (λ r. (refl, refl, refl)) (λ r. refl) refl refl refl refl
  report_result-Drives false error = elim (Bool-cases (was_cancelled (get_run task.run_id s))) [
    | inl stopped ↦ rw stopped (failed-Drives error)
    | inr active ↦ elim (Bool-cases (should_retry task.retry_count task.max_retries)) [
      | inl again ↦
          let below : task.retry_count < 1024 = few again in
          let (d, delay) = backoff-some env task.retry_count below in
          rw (active, again, delay) (requeued-Drives error d again)
      | inr spent ↦ rw (active, spent) (failed-Drives error)
    ]
  ]
