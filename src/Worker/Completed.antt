-- ===== src/Worker/Completed.antt =====
-- The consuming loop with a worker of app/worker.py none of whose handlers raises.
use auto_bot.Scheduler.Done.{IsDone, is_completed}
use auto_bot.Worker.Quiet.{delivered-IsClean, delivered-IsDone}
use auto_bot.Worker.Drained.{IsReady, left, delivered-IsReady, worker-Drains, all-IsClosed}
use auto_bot.Broker.Memory.Consume.{consume, consume_lem, returned, Drains}
use auto_bot.Worker.Run.{worker_machine, Site, Surroundings}
use auto_bot.Prelude.{
  refl, eqb_iff, sym, subst, All-map, eqb, All, some, true, ◌≤◌, ◌+◌, ◌*◌, none, ◌≡◌, ℕ, String,
}
use auto_bot.Scheduler.Session.{get_run, Session}
use auto_bot.Worker.Drives.{SameRows}
use auto_bot.Executors.{TaskContext}
use auto_bot.Scheduler.Clean.{clean_run, IsClean}
use auto_bot.Recovery.Returns.{has_run}
use auto_bot.Models.{is_terminal, is_success, RunStatus, WorkflowRun}
use auto_bot.Scheduler.Rows.{found_row}

module _ {Handler : Type 0} (around : Surroundings Handler) (worker_id : String) (max_chars : ℕ)
    (aside : (s : Session) → SameRows s (around.meanwhile s))
    (quiet : (h : Handler) (context : TaskContext) → (around.call h context).error ≡ none)
    (rank : ℕ → String → ℕ) where
  module _ (on_time : (t : ℕ) → (around.env_at t).now ≡ t) (start : Session) where
    abbrev IsQuiet : Site → Type 0
    IsQuiet w = IsReady start w × IsClean w.tables × IsDone rank w.tables

    IsQuiet-Drains : Drains (worker_machine around worker_id max_chars) IsQuiet left
    unfolding worker_machine
    IsQuiet-Drains = record {
      takes = λ w m rest (ready, clean, done) popped.
          let (w', handled, ready', less) =
            delivered-IsReady around worker_id max_chars on_time aside start w m rest ready
              popped in
          (
            w',
            handled,
            (
              ready',
              delivered-IsClean around worker_id max_chars aside quiet m (record w { queue = rest })
                  w' ready.driven clean handled,
              delivered-IsDone around worker_id max_chars aside quiet rank m
                  (record w { queue = rest }) w' ready.driven clean done handled,
            ),
            less,
          );
      sleeps = λ d w (ready, clean, done).
          let (ready', lower, same, later) =
            (worker-Drains around worker_id max_chars on_time aside start).sleeps d w ready in
          (
            (
              ready',
              record { tasks = clean.tasks; runs = clean.runs },
              record { parts = done.parts; done = done.done },
            ),
            lower,
            same,
            later,
          );
    }

    -- A worker on the in-process broker that waits for what is delayed, and none of whose handlers
    -- raises, returns; every run is then completed, and every task of it has succeeded.
    pub consume-completed :
        (fuel : ℕ) (w : Site)
        → IsReady start w
        → IsClean w.tables
        → IsDone rank w.tables
        → 2 * left w + 2 ≤ fuel
        → (w' : Site) × (consume (worker_machine around worker_id max_chars) fuel true w
            ≡ returned w')
          × ((i : ℕ)
              → has_run i start ≡ true
              → (r : WorkflowRun) × (get_run i w'.tables ≡ some r)
                × (r.status ≡ RunStatus.completed)
                × All (λ t. eqb t.run_id i ≡ true → is_success t.status ≡ true) w'.tables.tasks)
    unfolding worker_machine
    consume-completed fuel w ready clean done enough =
        let (w', ended, (ready', clean', done'), empty) =
          consume_lem (worker_machine around worker_id max_chars) IsQuiet left IsQuiet-Drains fuel
            true w (ready, clean, done) enough in
        (
          w',
          ended,
          (λ i there.
              let (r, found, closed) =
                all-IsClosed around worker_id max_chars on_time aside start w' i ready' empty
                  there in
              let fine : r.status ≡ RunStatus.completed = closed_clean r.status closed (
                found_row (λ x. clean_run x.status ≡ true) (λ x. eqb x.id i) w'.tables.runs r
                  clean'.runs found) in
              let here : is_completed (get_run i w'.tables) ≡ true = rw (found, fine) refl in
              (
                r,
                found,
                fine,
                All-map
                    (λ t k at. k (
                      subst (λ j. is_completed (get_run j w'.tables) ≡ true)
                        (sym ((eqb_iff t.run_id i).0 at)) here))
                    w'.tables.tasks done'.done,
              )),
        )
      where
        closed_clean :
            (st : RunStatus)
            → is_terminal st ≡ true
            → clean_run st ≡ true
            → st ≡ RunStatus.completed
        closed_clean RunStatus.pending a b = cc
        closed_clean RunStatus.running a b = cc
        closed_clean RunStatus.completed a b = refl
        closed_clean RunStatus.failed a b = cc
        closed_clean RunStatus.cancelled a b = cc
