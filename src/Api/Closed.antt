-- ===== src/Api/Closed.antt =====
-- A trigger of app/main.py, and then a worker.
use auto_bot.Api.Started.{trigger-IsReady}
use auto_bot.Worker.Drained.{IsReady, left, consume-IsClosed}
use auto_bot.Broker.Memory.Consume.{consume, returned}
use auto_bot.Dag.Spec as Spec
use auto_bot.Scheduler.Rows.{HasUniqueIds}
use auto_bot.Prelude.{
  refl, subst, sym, [], true, ◌+◌, ◌*◌, ◌≤◌, All, ◌++◌, none, some, List, ◌≡◌, String, ℕ,
}
use auto_bot.Worker.Run.{worker_machine, Site, Surroundings}
use auto_bot.Scheduler.Session.{get_run, Env, Session}
use auto_bot.Scheduler.Turns.{commit_world}
use auto_bot.Worker.Drives.{SameRows}
use auto_bot.Api.Requests.{trigger_found, trigger_workflow}
use auto_bot.Models.{Workflow}
use auto_bot.Dag.Spec.{TaskSpec}
use auto_bot.Cron.{get_workflow_row}
use auto_bot.Dag.Validate.{validate_definition}
use auto_bot.Scheduler.Operations.{new_tasks}
use auto_bot.Scheduler.Progress.{IsClosed}
use auto_bot.Api.Trigger.{detail_of-tables}

-- The tables and the queue once the session has been committed.
abbrev pub committed : ℕ → Session → Site → Site
committed now s w = record {
  tables = (commit_world now s w.queue).tables;
  queue = (commit_world now s w.queue).queue;
  time = now;
}

module _ {Handler : Type 0} (around : Surroundings Handler) (worker_id : String) (max_chars : ℕ)
    (on_time : (t : ℕ) → (around.env_at t).now ≡ t)
    (aside : (s : Session) → SameRows s (around.meanwhile s)) where
  -- A trigger of a stored workflow with a valid definition, and then a worker on the in-process broker
  -- that waits for what is delayed: the worker returns with an empty queue, and the new run is closed,
  -- whichever handlers raise. Twice the work that is left after the trigger, and two rounds, are enough.
  -- (The ids of the new rows are not in use, and each new task allows 1024 retries at most. Before the
  -- trigger no run waits for nothing, no task is running and every queued task has a message in the
  -- queue. A transaction reads the clock of the queue. While the worker's handlers run, other
  -- transactions write neither tasks nor runs.)
  pub trigger_workflow-consume :
      (env : Env) (run_id : ℕ) (uuid : ℕ → ℕ) (workflow_id : ℕ) (w : Workflow)
      (specs : List TaskSpec) (now : ℕ) (site : Site)
      → get_workflow_row workflow_id site.tables ≡ some w
      → validate_definition w.definition ≡ Spec.ok specs
      → get_run run_id site.tables ≡ none
      → HasUniqueIds (site.tables.tasks ++ new_tasks env uuid 0 run_id specs)
      → All (λ t. t.max_retries ≤ 1024) (new_tasks env uuid 0 run_id specs)
      → IsReady site.tables site
      → (fuel : ℕ)
      → let begun =
          committed now (trigger_workflow env run_id uuid workflow_id site.tables).0 site in
        2 * left begun + 2 ≤ fuel
        → (end : Site) × (consume (worker_machine around worker_id max_chars) fuel true begun
            ≡ returned end)
          × (end.queue.heap ≡ [])
          × IsClosed run_id end.tables
  unfolding trigger_workflow trigger_found
  trigger_workflow-consume env run_id uuid workflow_id w specs now site row valid fresh unique few
        ready fuel enough =
      let (s', returns, here, begins) =
        trigger-IsReady env run_id uuid w specs site.tables valid fresh unique few site refl
          ready in
      let same : s' ≡ (trigger_workflow env run_id uuid workflow_id site.tables).0 =
        rw (row, returns) (sym (detail_of-tables env (get_run run_id s') s')) in
      let begun : IsReady s'
          (committed now (trigger_workflow env run_id uuid workflow_id site.tables).0 site) =
        subst (λ x. IsReady s' (committed now x site)) same (begins now) in
      let (end, ended, empty, closed) =
        consume-IsClosed around worker_id max_chars on_time aside s' fuel _ begun enough in
      (end, ended, empty, closed run_id here)
