-- ===== src/Scheduler/Done/Tick.antt =====
-- Completed runs, and the ticks and reports of app/scheduler.py.
use auto_bot.Scheduler.Session.{change_task, >>=-eq-return, update_task, return}
use auto_bot.Scheduler.Done.{
  load_tasks, HasUniqueIds, is_success, get_run, Task, Session, Env, IsDone, is_completed,
  map-IsDone, same_runs-IsDone, finished-done,
}
use auto_bot.Scheduler.Clean.{update-IsClean, IsClean}
use auto_bot.Scheduler.Driven.{resolve-get_run, queue_all-get_run, publish_all-get_run}
use auto_bot.Prelude.{
  refl, ◌∙◌, map, ap, [], inr, inl, Bool-cases, eqb_iff, ◌∷◌, arith, sym, subst, false, All-map,
  true, eqb, ◌≡◌, Option, List, All, String, ℕ,
}
use auto_bot.Scheduler.Operations.{
  queue_all, publish_all, mark_success, was_cancelled, dispatch_or_finalize, finalize_if_done,
  resolve, dispatch, report_result,
}
use auto_bot.Dag.Runnable.{get_runnable_tasks, is_run_finished, is_runnable}
use auto_bot.Models.{ErrorText}
use auto_bot.Scheduler.Tick.{resolve-tasks, done_names, tick_row}
use auto_bot.Scheduler.Rows.{HasUniqueIds-map}

module _ (rank : ℕ → String → ℕ) (env : Env) (j : ℕ) (s : Session) (clean : IsClean s)
    (h : IsDone rank s) where
  -- The rows of the ticked run have succeeded if it is completed afterwards.
  abbrev IsDoneAfter : Session → Type 0
  IsDoneAfter s' =
      All
        (λ t.
          is_completed (get_run j s') ≡ true → eqb t.run_id j ≡ true → is_success t.status ≡ true)
        s.tasks

  same_run-IsDoneAfter : (s' : Session) → get_run j s' ≡ get_run j s → IsDoneAfter s'
  same_run-IsDoneAfter s' same =
      All-map
        (λ t k e at. k (
          subst (λ i. is_completed (get_run i s) ≡ true) (sym ((eqb_iff t.run_id j).0 at))
            (rw same at e)))
        s.tasks h.done

  tick-IsDoneAfter :
      (runnable ts : List Task) (s' : Session)
      → dispatch_or_finalize env j (load_tasks env j s) runnable s ≡ return (ts, s')
      → IsDoneAfter s'
  unfolding dispatch finalize_if_done
  tick-IsDoneAfter [] ts s' e = elim (Bool-cases (is_run_finished (load_tasks env j s))) [
    | inl finished ↦
        All-map (λ t k completed at. k at) s.tasks (finished-done rank env j s clean h finished)
    | inr waits ↦
        let ended = rw waits at e in
        let same : s ≡ s' = ground arith in same_run-IsDoneAfter s' (ap (get_run j) (sym same))
  ]
  tick-IsDoneAfter (t ∷ runnable) ts s' e =
      let end : publish_all (t ∷ runnable) (queue_all env.now (t ∷ runnable) s) ≡ s' =
        ground arith in
      same_run-IsDoneAfter s' (
        ap (get_run j) (sym end)
        ∙ publish_all-get_run j (t ∷ runnable) (queue_all env.now (t ∷ runnable) s)
        ∙ queue_all-get_run env.now j (t ∷ runnable) s)

  tick_row-success :
      (done : List String) (t : Task)
      → is_success t.status ≡ true
      → is_success (tick_row env j done t).status ≡ true
  unfolding is_runnable
  tick_row-success done t success = ground (arith, success)

  ticked-rows :
      (done : List String) (ts : List Task) (s' : Session)
      → ((i : ℕ) → eqb i j ≡ false → get_run i s' ≡ get_run i s)
      → All (λ t. is_completed (get_run t.run_id s) ≡ true → is_success t.status ≡ true) ts
      → All
          (λ t.
            is_completed (get_run j s') ≡ true → eqb t.run_id j ≡ true → is_success t.status ≡ true)
          ts
      → All
          (λ t.
            is_completed (get_run t.run_id s') ≡ true
            → is_success (tick_row env j done t).status ≡ true)
          ts
  ticked-rows done [] s' others a b = tt
  ticked-rows done (t ∷ ts) s' others a b = (
    (λ e. tick_row-success done t (elim (Bool-cases (eqb t.run_id j)) [
      | inl at ↦
          b.0 (subst (λ i. is_completed (get_run i s') ≡ true) ((eqb_iff t.run_id j).0 at) e) at
      | inr other ↦ a.0 (rw (others t.run_id other) at e)
    ])),
    ticked-rows done ts s' others a.1 b.1,
  )

  pub resolve-IsDone :
      (ts : List Task) (s' : Session)
      → HasUniqueIds s.tasks
      → resolve env j s ≡ return (ts, s')
      → IsDone rank s'
  unfolding resolve
  resolve-IsDone ts s' unique e = elim (Bool-cases (was_cancelled (get_run j s))) [
    | inl stopped ↦
        let ended = rw stopped at e in
        let same : s ≡ s' = ground arith in subst (IsDone rank) same h
    | inr active ↦
        let done = done_names j s.tasks in
        let known = resolve-tasks env j s s' ts unique e in
        let rows : s'.tasks ≡ map (tick_row env j done) s.tasks = rw active at known in
        map-IsDone rank (tick_row env j done) s s' (λ t. (ground arith, ground arith, ground arith))
          rows
          (ticked-rows done s.tasks s' (λ i other. resolve-get_run env j ts s s' i e other) h.done
            (tick-IsDoneAfter (get_runnable_tasks (load_tasks env j s)) ts s' (rw active at e)))
          h
  ]

-- A report of success.
pub success-IsDone :
    (rank : ℕ → String → ℕ) (env : Env) (task : Task) (error : Option ErrorText) (s s' : Session)
    → IsClean s
    → HasUniqueIds s.tasks
    → IsDone rank s
    → report_result env task true error s ≡ return s'
    → IsDone rank s'
unfolding report_result
success-IsDone rank env task error s s' clean unique h e =
    let f = mark_success env.now in
    let s₁ = update_task task.id f s in
    let ((ts, s₂), ticked, last) = >>=-eq-return (resolve env task.run_id s₁) _ e in
    let end : s₂ ≡ s' = ground arith in
    let done₁ =
      same_runs-IsDone rank (change_task task.id f) s s₁
        (λ t. (ground arith, ground arith, ground arith)) (λ t k. ground (arith, k)) refl refl h in
    subst (IsDone rank) end (
      resolve-IsDone rank env task.run_id s₁ (update-IsClean task.id f s (λ t k. refl) clean) done₁
        ts s₂ (HasUniqueIds-map (change_task task.id f) s.tasks (λ t. ground arith) unique) ticked)
