-- ===== src/Examples/Ends.antt =====
-- A trigger and a worker at work together on the in-process broker.
use auto_bot.Api.Completed.{trigger_workflow-completed}
use auto_bot.Api.Closed.{committed, trigger_workflow-consume}
use auto_bot.Broker.Memory.Consume.{consume, returned}
use auto_bot.Examples.Data.{env, specs, empty, workflow, early}
use auto_bot.Prelude.{
  eqb, All, true, ◌≤◌, ◌*◌, eqb_iff, refl, ◌≡◌, inl, ◌+◌, none, arith, ◌∷◌, [], some, ℕ,
}
use auto_bot.Worker.{acked, handle, Execution}
use auto_bot.Worker.Run.{worker_machine, Site, Surroundings}
use auto_bot.Scheduler.Session.{get_run, Env, Session}
use auto_bot.Worker.Drained.{left, IsReady}
use auto_bot.Api.Requests.{trigger_workflow}
use auto_bot.Dag.Validate.{validate_definition}
use auto_bot.Broker.Message.{TaskMessage}
use auto_bot.Scheduler.Driven.{IsDriven}
use auto_bot.Executors.{TaskContext}
use auto_bot.Broker.Memory.{new_broker}
use auto_bot.Dag.Parse.{parse_definition}
use auto_bot.Scheduler.Driven.Moves.{nobody}
use auto_bot.Dag.Order.{topological_order}
use auto_bot.Scheduler.Potential.{potential}
use auto_bot.Recovery.Returns.{has_run}
use auto_bot.Scheduler.Progress.{IsClosed}
use auto_bot.Worker.Drives.{handle-Drives}
use auto_bot.Models.{is_success, RunStatus, WorkflowRun}

abbrev at : ℕ → Env
at now = record env { now = now }

-- Every handler raises.
abbrev broken : Execution
broken = record { error = some ("ValueError", "no data"); stdout = ""; stderr = "" }

abbrev call : Execution → TaskContext → Execution
call execution context = execution

-- A handler runs for five microseconds, and a sleep is one too long.
abbrev around : Surroundings Execution
around = record {
  call = call;
  default_handler = broken;
  registry = [];
  env_at = at;
  lasts = λ message w. 5;
  oversleeps = λ d w. 1;
  meanwhile = λ s. s;
}

abbrev stored : Session
stored = record empty { workflows = workflow ∷ [] }

abbrev site : Site
site = record { tables = stored; queue = new_broker; time = 10 }

ready : IsReady stored site
ready = record {
  driven = record {
    unique = tt;
    limits = tt;
    resting = tt;
    settled = λ i there other. absurd (ground arith);
  };
  held = record { sent = refl; held = tt };
  same_runs = λ i. refl;
}

abbrev begun : Site
begun = committed 20 (trigger_workflow env 1 (λ i. 10 + i) 7 stored).0 site

trigger_workflow-consume_example :
    (end : Site) × (consume (worker_machine around "w" 100) (2 * left begun + 2) true begun
      ≡ returned end)
    × (end.queue.heap ≡ [])
    × IsClosed 1 end.tables
unfolding validate_definition parse_definition topological_order
trigger_workflow-consume_example =
    trigger_workflow-consume around "w" 100 (λ t. refl) (λ s. (refl, refl, refl)) env 1
      (λ i. 10 + i) 7 workflow specs 20 site refl refl refl (refl, (refl, (refl, tt)))
      (omega arith, (omega arith, (omega arith, tt))) ready (2 * left begun + 2) (omega arith)

-- The same with handlers that return.
abbrev fine : Execution
fine = record { error = none; stdout = "done"; stderr = "" }

abbrev calm : Surroundings Execution
calm = record around { call = λ execution context. fine; default_handler = fine }

trigger_workflow-completed_example :
    (end : Site) × (r : WorkflowRun) × (consume
        (worker_machine calm "w" 100)
        (2 * left begun + 2)
        true
        begun
      ≡ returned end)
    × (get_run 1 end.tables ≡ some r)
    × (r.status ≡ RunStatus.completed)
    × All (λ t. eqb t.run_id 1 ≡ true → is_success t.status ≡ true) end.tables.tasks
unfolding validate_definition parse_definition topological_order
trigger_workflow-completed_example =
    trigger_workflow-completed calm "w" 100 (λ t. refl) (λ s. (refl, refl, refl))
      (λ h context. refl) env 1 (λ i. 10 + i) 7 workflow specs 20 site (λ i x. 0) refl refl refl
      (refl, (refl, (refl, tt))) (omega arith, (omega arith, (omega arith, tt))) ready
      (record { tasks = tt; runs = tt }) (record { parts = tt; done = tt }) (2 * left begun + 2)
      (omega arith)

-- The message of the root task, which is queued.
abbrev delivery : TaskMessage
delivery = record { task_id = 12; run_id = 1; task_name = "fetch"; attempt = 0; reason = none }

early-IsDriven : IsDriven nobody nobody early
early-IsDriven = record {
  unique = (refl, (refl, (refl, tt)));
  limits = ((refl, omega arith), ((refl, omega arith), ((refl, omega arith), tt)));
  resting = (
    (λ running. absurd (ground arith)),
    ((λ running. absurd (ground arith)), ((λ running. absurd (ground arith)), tt)),
  );
  settled = λ i there other. inl (ground (arith, eqb_iff 1 i));
}

handle-Drives_example :
    (s' : Session) × (handle call broken [] env (at 105) "w" 100 (λ s. s) delivery early ≡ acked s')
    × IsDriven nobody nobody s'
    × (potential s' ≤ potential early)
    × ((i : ℕ) → has_run i s' ≡ has_run i early)
handle-Drives_example =
    handle-Drives call broken [] env (at 105) "w" 100 (λ s. s) (λ s. (refl, refl, refl)) delivery
      early early-IsDriven
