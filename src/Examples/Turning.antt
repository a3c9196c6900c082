-- ===== src/Examples/Turning.antt =====
-- The transactions and the in-process broker together, at work.
use auto_bot.Prelude.{◌≡◌, ◌+◌, refl, [], ◌∷◌, map, some}
use auto_bot.Broker.Memory.{new_broker}
use auto_bot.Dag.Order.{topological_order}
use auto_bot.Dag.Parse.{parse_definition}
use auto_bot.Dag.Runnable.{get_runnable_tasks}
use auto_bot.Dag.Validate.{validate_definition}
use auto_bot.Models.{Task}
use auto_bot.Scheduler.Commit.{commit}
use auto_bot.Scheduler.Operations.{
  create_run, resolve, load_tasks, dispatch, mark_queued, new_run, new_task, new_tasks,
}
use auto_bot.Scheduler.Session.{Session, return}
use auto_bot.Scheduler.Steps.{created, ticked}
use auto_bot.Scheduler.Turns.{
  World, HasMessages, commit_world, commits, now_here, then_turn, Turns-HasMessages,
}
use auto_bot.Examples.Data.{env, specs, empty, workflow}

abbrev triggered : Session
triggered = record empty {
  runs = new_run env 1 workflow ∷ [];
  tasks = new_tasks env (λ i. 10 + i) 0 1 specs;
}

abbrev root : Task
root = new_task env 12 1 (record { id = "fetch"; depends_on = []; max_retries = some 1 })

abbrev waved : Session
waved = dispatch env (root ∷ []) triggered

triggering : create_run env 1 (λ i. 10 + i) workflow empty ≡ return (1, triggered)
unfolding create_run validate_definition parse_definition topological_order
triggering = refl

waving : resolve env 1 triggered ≡ return (map (mark_queued env.now) (root ∷ []), waved)
unfolding resolve load_tasks dispatch get_runnable_tasks
waving = refl

abbrev idle : World
idle = record { tables = empty; queue = new_broker }

Turns-HasMessages_example :
    HasMessages (commit_world 20 waved (commit_world 10 triggered new_broker).queue)
unfolding commit
Turns-HasMessages_example =
    Turns-HasMessages idle (commit_world 20 waved (commit_world 10 triggered new_broker).queue) refl
      refl
      (then_turn
        (then_turn now_here
          (commits 10 (created env 1 (λ i. 10 + i) workflow triggering (refl, (refl, (refl, tt))))))
        (commits 20 (ticked env 1 (map (mark_queued env.now) (root ∷ [])) waving)))
