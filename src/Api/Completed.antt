-- ===== src/Api/Completed.antt =====
-- A trigger of app/main.py, and then a worker none of whose handlers raises.
use auto_bot.Api.Fine.{with_rank, begun-fine}
use auto_bot.Scheduler.Commit.{commit}
use auto_bot.Api.Started.{trigger-IsReady}
use auto_bot.Api.Closed.{committed}
use auto_bot.Scheduler.Done.{IsDone}
use auto_bot.Scheduler.Clean.{IsClean}
use auto_bot.Dag.Spec as Spec
use auto_bot.Dag.Validate.Correct.{validate_definition_iff}
use auto_bot.Scheduler.Rows.{HasUniqueIds}
use auto_bot.Prelude.{
  ◌*◌, some, sym, subst, ◌≤◌, ◌++◌, none, refl, ◌+◌, true, ◌≡◌, All, eqb, List, String, ℕ,
}
use auto_bot.Scheduler.Session.{get_run, Session, Env}
use auto_bot.Dag.Spec.{TaskSpec}
use auto_bot.Models.{RunStatus, WorkflowRun, is_success, Workflow}
use auto_bot.Scheduler.Operations.{new_tasks}
use auto_bot.Dag.Validate.{validate_definition}
use auto_bot.Api.Trigger.{detail_of-tables}
use auto_bot.Cron.{get_workflow_row}
use auto_bot.Worker.Run.{worker_machine, Site, Surroundings}
use auto_bot.Worker.Drives.{SameRows}
use auto_bot.Executors.{TaskContext}
use auto_bot.Api.Requests.{trigger_found, trigger_workflow}
use auto_bot.Worker.Drained.{left, IsReady}
use auto_bot.Broker.Memory.Consume.{returned, consume}
use auto_bot.Worker.Completed.{consume-completed}

module _ {Handler : Type 0} (around : Surroundings Handler) (worker_id : String) (max_chars : ℕ)
    (on_time : (t : ℕ) → (around.env_at t).now ≡ t)
    (aside : (s : Session) → SameRows s (around.meanwhile s))
    (quiet : (h : Handler) (context : TaskContext) → (around.call h context).error ≡ none) where
  -- A trigger of a stored workflow with a valid definition, and then a worker on the in-process broker
  -- that waits for what is delayed and none of whose handlers raises: the worker returns, the new run is
  -- completed, and every task of it has succeeded. Twice the work that is left after the trigger, and two
  -- rounds, are enough. (The ids of the new rows are not in use, and each new task allows 1024 retries at
  -- most. Before the trigger no run waits for nothing, no task is running and every queued task has a
  -- message in the queue; no task and no run is failed or cancelled, the tasks of each run depend on
  -- tasks of it without a cycle, and those of a completed run have succeeded. A transaction reads the
  -- clock of the queue. While the handlers run, other transactions write neither tasks nor runs.)
  pub trigger_workflow-completed :
      (env : Env) (run_id : ℕ) (uuid : ℕ → ℕ) (workflow_id : ℕ) (w : Workflow)
      (specs : List TaskSpec) (now : ℕ) (site : Site) (rank : ℕ → String → ℕ)
      → get_workflow_row workflow_id site.tables ≡ some w
      → validate_definition w.definition ≡ Spec.ok specs
      → get_run run_id site.tables ≡ none
      → HasUniqueIds (site.tables.tasks ++ new_tasks env uuid 0 run_id specs)
      → All (λ t. t.max_retries ≤ 1024) (new_tasks env uuid 0 run_id specs)
      → IsReady site.tables site
      → IsClean site.tables
      → IsDone rank site.tables
      → (fuel : ℕ)
      → let started =
          committed now (trigger_workflow env run_id uuid workflow_id site.tables).0 site in
        2 * left started + 2 ≤ fuel
        → (end : Site) × (r : WorkflowRun) × (consume
              (worker_machine around worker_id max_chars)
              fuel
              true
              started
            ≡ returned end)
          × (get_run run_id end.tables ≡ some r)
          × (r.status ≡ RunStatus.completed)
          × All (λ t. eqb t.run_id run_id ≡ true → is_success t.status ≡ true) end.tables.tasks
  unfolding trigger_workflow trigger_found commit
  trigger_workflow-completed env run_id uuid workflow_id w specs now site rank row valid fresh
        unique few ready clean done fuel enough =
      let (s', returns, here, begins) =
        trigger-IsReady env run_id uuid w specs site.tables valid fresh unique few site refl
          ready in
      let same : s' ≡ (trigger_workflow env run_id uuid workflow_id site.tables).0 =
        rw (row, returns) (sym (detail_of-tables env (get_run run_id s') s')) in
      let (parsed, (once, known, (r, ranked))) =
        (validate_definition_iff w.definition specs).0 valid in
      let (clean', done') =
        begun-fine env run_id uuid w specs site.tables valid fresh unique few ready.driven clean
          rank r s' ranked once known done returns in
      let limit : 2 * left (committed now s' site) + 2 ≤ fuel =
        subst (λ x. 2 * left (committed now x site) + 2 ≤ fuel) (sym same) enough in
      let (end, ended, all_done) =
        consume-completed around worker_id max_chars aside quiet (with_rank run_id r rank) on_time
          s' fuel (committed now s' site) (begins now)
          (record { tasks = clean'.tasks; runs = clean'.runs })
          (record { parts = done'.parts; done = done'.done }) limit in
      let (run, found, completed, tasks) = all_done run_id here in
      (
        end,
        run,
        subst
            (λ x.
              consume (worker_machine around worker_id max_chars) fuel true (committed now x site)
              ≡ returned end)
            same ended,
        found,
        completed,
        tasks,
      )
