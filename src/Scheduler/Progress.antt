-- ===== src/Scheduler/Progress.antt =====
-- A tick never leaves a run waiting for nothing.
use auto_bot.Prelude.{
  ℕ, ◌≡◌, refl, sym, subst, List, [], ◌∷◌, map, some, Bool, true, false, ◌&&◌, ◌||◌, keep, any, eqb,
  find, arith, ◌⊎◌, inl, inr, eqb_iff, Bool-cases,
}
use auto_bot.Prelude.Sort.{sort}
use auto_bot.Dag.Runnable.{get_runnable_tasks, is_run_finished, completed_names, is_runnable}
use auto_bot.Models.{Task, WorkflowRun, is_queued, is_running, is_terminal, is_run_cancelled}
use auto_bot.Scheduler.Session.{
  Session, Env, Outcome, return, ◌>>=◌, get_run, update_task, change_task, change_run,
}
use auto_bot.Scheduler.Operations.{
  resolve, load_tasks, finalize_if_done, queue_all, publish_all, dispatch, mark_queued,
  dispatch_or_finalize,
}
use auto_bot.Scheduler.Rows.{any-sort, any-keep, any_mono, any-map}

-- A task of the run is queued or running.
abbrev pub in_flight_row : ℕ → Task → Bool
in_flight_row run_id t = eqb t.run_id run_id && (is_queued t.status || is_running t.status)

abbrev pub in_flight : ℕ → Session → Bool
in_flight run_id s = any (in_flight_row run_id) s.tasks

-- The run has been closed.
abbrev pub IsClosed : ℕ → Session → Type 0
IsClosed run_id s =
    (run : WorkflowRun) × (get_run run_id s ≡ some run) × (is_terminal run.status ≡ true)

pub publish_all-tasks : (ts : List Task) (s : Session) → (publish_all ts s).tasks ≡ s.tasks
publish_all-tasks [] s = refl
publish_all-tasks (t ∷ ts) s = publish_all-tasks ts _

queue_all-in_flight :
    (now run_id : ℕ) (ts : List Task) (s : Session)
    → in_flight run_id s ≡ true
    → in_flight run_id (queue_all now ts s) ≡ true
queue_all-in_flight now run_id [] s h = h
queue_all-in_flight now run_id (t ∷ ts) s h =
    queue_all-in_flight now run_id ts (update_task t.id (mark_queued now) s) (
      any-map (in_flight_row run_id) (in_flight_row run_id) (change_task t.id (mark_queued now))
        s.tasks (λ r e. ground arith) h)

queue-in_flight :
    (now run_id i : ℕ) (s : Session)
    → any (λ r. eqb r.run_id run_id && eqb r.id i) s.tasks ≡ true
    → in_flight run_id (update_task i (mark_queued now) s) ≡ true
queue-in_flight now run_id i s h =
    any-map (λ r. eqb r.run_id run_id && eqb r.id i) (in_flight_row run_id)
      (change_task i (mark_queued now)) s.tasks (λ r e. ground arith) h

-- A runnable task is a row of the run.
runnable_row :
    (env : Env) (run_id : ℕ) (s : Session) (t : Task) (ts : List Task)
    → get_runnable_tasks (load_tasks env run_id s) ≡ t ∷ ts
    → any (λ r. eqb r.run_id run_id && eqb r.id t.id) s.tasks ≡ true
unfolding get_runnable_tasks load_tasks
runnable_row env run_id s t ts h =
    let mine = λ (r : Task). eqb r.id t.id in
    let le = λ (a b : Task). env.name_le a.task_name b.task_name in
    let rows = keep (λ (r : Task). eqb r.run_id run_id) s.tasks in
    let p = is_runnable (completed_names (sort le rows)) in
    let here : any mine (keep p (sort le rows)) ≡ true = rw h (ground (arith, eqb_iff t.id t.id)) in
    let loaded : any mine (sort le rows) ≡ true =
      any_mono (λ r. p r && mine r) mine (sort le rows) (λ r e. ground arith)
        (rw any-keep at here) in
    any_mono (λ r. eqb r.run_id run_id && mine r) (λ r. eqb r.run_id run_id && eqb r.id t.id)
      s.tasks (λ r e. e) (rw (any-sort, any-keep) at loaded)

pub closed_run :
    (run_id : ℕ) (f : WorkflowRun → WorkflowRun) (run : WorkflowRun) (rs : List WorkflowRun)
    → ((r : WorkflowRun) → (f r).id ≡ r.id)
    → find (λ r. eqb r.id run_id) rs ≡ some run
    → find (λ r. eqb r.id run_id) (map (change_run run_id f) rs) ≡ some (f run)
closed_run run_id f run [] keeps h = cc
closed_run run_id f run (r ∷ rs) keeps h = ground (arith, keeps r, closed_run run_id f run rs keeps)

-- Where nothing is runnable, an unfinished run has a task in flight.
unfinished-in_flight :
    (env : Env) (run_id : ℕ) (s : Session)
    → get_runnable_tasks (load_tasks env run_id s) ≡ []
    → is_run_finished (load_tasks env run_id s) ≡ false
    → in_flight run_id s ≡ true
unfolding load_tasks
unfinished-in_flight env run_id s idle h =
    let busy = λ (t : Task). is_queued t.status || is_running t.status in
    let le = λ (a b : Task). env.name_le a.task_name b.task_name in
    let rows = keep (λ (r : Task). eqb r.run_id run_id) s.tasks in
    let here : any busy (sort le rows) ≡ true = some_busy (sort le rows) idle h in
    any_mono (λ r. eqb r.run_id run_id && busy r) (in_flight_row run_id) s.tasks (λ r e. e)
      (rw (any-sort, any-keep) at here)
  where
    some_busy :
        (ts : List Task)
        → get_runnable_tasks ts ≡ []
        → is_run_finished ts ≡ false
        → any (λ t. is_queued t.status || is_running t.status) ts ≡ true
    some_busy ts none_left unfinished = unfold is_run_finished in ground arith

abbrev pub Settles : ℕ → Outcome (List Task × Session) → Type 0
Settles run_id o =
    (ts : List Task) × (s' : Session) × (o ≡ return (ts, s'))
    × ((in_flight run_id s' ≡ true) ⊎ IsClosed run_id s')

module _ (env : Env) (run_id : ℕ) (s : Session) (run : WorkflowRun)
    (found : get_run run_id s ≡ some run) where
  idle-Settles :
      get_runnable_tasks (load_tasks env run_id s) ≡ []
      → Settles run_id
          (finalize_if_done env run_id (some (load_tasks env run_id s)) s >>= λ s'. return ([], s'))
  unfolding finalize_if_done
  idle-Settles idle =
      let tasks = load_tasks env run_id s in
      elim (Bool-cases (is_run_finished tasks)) [
        | inl done ↦
            rw (done, found)
              ([], _, refl, inr (_, closed_run run_id _ run s.runs (λ r. refl) found, ground arith))
        | inr waits ↦ rw waits ([], s, refl, inl (unfinished-in_flight env run_id s idle waits))
      ]

  tick-Settles :
      (runnable : List Task)
      → get_runnable_tasks (load_tasks env run_id s) ≡ runnable
      → Settles run_id (dispatch_or_finalize env run_id (load_tasks env run_id s) runnable s)
  unfolding dispatch
  tick-Settles [] idle = idle-Settles idle
  tick-Settles (t ∷ ts) some_ready =
      let s₁ = update_task t.id (mark_queued env.now) s in
      let queued = queue_all env.now ts s₁ in
      (
        _,
        _,
        refl,
        inl (
            subst (λ l. any (in_flight_row run_id) l ≡ true)
              (sym (publish_all-tasks (t ∷ ts) queued))
              (queue_all-in_flight env.now run_id ts s₁ (
                queue-in_flight env.now run_id t.id s
                  (runnable_row env run_id s t ts some_ready)))),
      )

  -- A tick of a run that is not cancelled returns, and after it the run has a task queued or running,
  -- or has been closed.
  pub resolve_progress : is_run_cancelled run.status ≡ false → Settles run_id (resolve env run_id s)
  unfolding resolve
  resolve_progress active =
      rw (found, active) (tick-Settles (get_runnable_tasks (load_tasks env run_id s)) refl)
