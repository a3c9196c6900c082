-- ===== src/Scheduler/Again.antt =====
-- A tick leaves nothing for a second one to dispatch.
use auto_bot.Scheduler.Tick.{resolve-tasks, tick_row, done_names, is_runnable-cong}
use auto_bot.Scheduler.Rows.{any-sort, any-keep, any-cong, HasUniqueIds}
use auto_bot.Scheduler.Operations.{resolve, load_tasks, was_cancelled}
use auto_bot.Scheduler.Session.{Session, Env, return, get_run}
use auto_bot.Models.{Task}
use auto_bot.Dag.Runnable.{get_runnable_tasks, is_runnable, completed_names}
use auto_bot.Prelude.{
  refl, ap, ◌∙◌, arith, [], keep, eqb, ◌∷◌, false, ◌&&◌, map, ◌≡◌, any, String, Bool, List, ℕ,
}

module _ (env : Env) (run_id : ℕ) where
  done_names-tick :
      (done : List String) (ts : List Task)
      → done_names run_id (map (tick_row env run_id done) ts) ≡ done_names run_id ts
  unfolding is_runnable
  done_names-tick done [] = refl
  done_names-tick done (t ∷ ts) = ground (arith, done_names-tick done ts)

  ticked-any :
      (done : List String) (ts : List Task)
      → any (λ t. eqb t.run_id run_id && is_runnable done t) (map (tick_row env run_id done) ts)
        ≡ false
  unfolding is_runnable
  ticked-any done [] = refl
  ticked-any done (t ∷ ts) = ground (arith, ticked-any done ts)

  keep-none : (p : Task → Bool) (ts : List Task) → any p ts ≡ false → keep p ts ≡ []
  keep-none p [] h = refl
  keep-none p (t ∷ ts) h = ground (arith, keep-none p ts)

  loaded-any :
      (p : Task → Bool) (s : Session)
      → any p (load_tasks env run_id s) ≡ any p (keep (λ t. eqb t.run_id run_id) s.tasks)
  unfolding load_tasks
  loaded-any p s = any-sort p _ (keep (λ t. eqb t.run_id run_id) s.tasks)

  loaded :
      (s : Session)
      → any (is_runnable (completed_names (load_tasks env run_id s))) (load_tasks env run_id s)
        ≡ any (λ t. eqb t.run_id run_id && is_runnable (done_names run_id s.tasks) t) s.tasks
  loaded s =
      loaded-any (is_runnable (completed_names (load_tasks env run_id s))) s
      ∙ any-keep (is_runnable (completed_names (load_tasks env run_id s)))
          (λ t. eqb t.run_id run_id) s.tasks
      ∙ any-cong s.tasks (λ t. ap (λ b. eqb t.run_id run_id && b) (is_runnable-cong env run_id s t))

  -- After a tick of a run that is not cancelled no task of the run is runnable, so a second tick that
  -- follows at once dispatches nothing. (Task ids are unique.)
  pub resolve-no_runnable :
      (s s' : Session) (ts : List Task)
      → HasUniqueIds s.tasks
      → was_cancelled (get_run run_id s) ≡ false
      → resolve env run_id s ≡ return (ts, s')
      → get_runnable_tasks (load_tasks env run_id s') ≡ []
  unfolding get_runnable_tasks
  resolve-no_runnable s s' ts unique active h =
      let done = done_names run_id s.tasks in
      let rows : s'.tasks ≡ map (tick_row env run_id done) s.tasks =
        (let rows = resolve-tasks env run_id s s' ts unique h in rw active at rows) in
      let same : done_names run_id s'.tasks ≡ done =
        ap (done_names run_id) rows ∙ done_names-tick done s.tasks in
      let idle : any (λ t. eqb t.run_id run_id && is_runnable (done_names run_id s'.tasks) t)
            s'.tasks
          ≡ false =
        rw (same, rows) (ticked-any done s.tasks) in
      keep-none (is_runnable (completed_names (load_tasks env run_id s')))
        (load_tasks env run_id s') (loaded s' ∙ idle)
