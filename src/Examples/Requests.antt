-- ===== src/Examples/Requests.antt =====
-- The theorems of app/main.py and app/cron.py at work, and the second tick of a run.
use auto_bot.Api.{reply, run_detail}
use auto_bot.Api.Requests.{trigger_workflow}
use auto_bot.Api.Graph.{
  deps_count, edge_count, Graph, IsDeeper, get_workflow_graph, get_workflow_graph-reply,
}
use auto_bot.Dag.Graph.{find_spec, ids}
use auto_bot.Dag.Levels.Waves.{level_at}
use auto_bot.Api.Safe.{simulate, serve, serve-IsSound}
use auto_bot.Api.Sound.{IsSound}
use auto_bot.Api.Trigger.{run_scheduled-trigger_workflow, trigger_workflow-reply}
use auto_bot.Cron.{JobId, workflow_job, Apscheduler, start, run_scheduled}
use auto_bot.Cron.Armed.{KeepsJobs, job_spec, start_lem}
use auto_bot.Dag.Order.{topological_order}
use auto_bot.Dag.Parse.{parse_definition}
use auto_bot.Dag.Runnable.{get_runnable_tasks}
use auto_bot.Dag.Spec as Spec
use auto_bot.Dag.Validate.{validate_definition}
use auto_bot.Models.{Workflow, WorkflowRun}
use auto_bot.Scheduler.Again.{resolve-no_runnable}
use auto_bot.Scheduler.Operations.{load_tasks, resolve, dispatch, mark_queued}
use auto_bot.Scheduler.Safety.{IsSafe}
use auto_bot.Scheduler.Session.{Session, return, get_run}
use auto_bot.Examples.Data.{env, specs, clean, later, early, empty, workflow}
use auto_bot.Prelude.{
  All, keep, eqb, if◌then◌else◌, Option, map, true, eqb_iff, String, [], refl, none, ◌+◌, arith, ℕ,
  List, ◌≡◌, ◌∷◌, some,
}

-- The tables with one stored workflow, which has a schedule.
abbrev nightly : Workflow
nightly = record workflow { schedule = some "0 2 * * *" }

abbrev stored : Session
stored = record empty { workflows = nightly ∷ [] }

nightly-valid : validate_definition nightly.definition ≡ Spec.ok specs
unfolding validate_definition parse_definition topological_order
nightly-valid = refl

stored-IsSound : IsSound stored
stored-IsSound = record {
  safe = record { unique = tt; deps_done = tt };
  valid = ((specs, nightly-valid), tt);
}

-- A scheduler that lists its jobs, and takes every text for an expression.
abbrev jobs_of : List (ℕ × String × ℕ) → ℕ → Option (String × ℕ)
jobs_of [] i = none
jobs_of ((j, t, w) ∷ jobs) i = if eqb j i then some (t, w) else jobs_of jobs i

abbrev id_of : JobId → ℕ
id_of (workflow_job i) = i

abbrev cron : Apscheduler (List (ℕ × String × ℕ)) String
cron = record {
  from_crontab = λ expression. some expression;
  new_scheduler = [];
  add_job = λ i trigger w jobs. (id_of i, trigger, w) ∷ jobs;
  remove_job = λ i jobs. none;
}

cron-KeepsJobs : KeepsJobs cron (λ i jobs. jobs_of jobs (id_of i))
cron-KeepsJobs = record {
  starts_empty = λ i. refl;
  adds = λ i trigger w jobs. ground (arith, eqb_iff (id_of i) (id_of i));
  keeps = λ i j trigger w jobs other. rw other refl;
}

start_lem_example :
    (jobs : List (ℕ × String × ℕ)) × (start cron stored ≡ some jobs)
    × ((i : ℕ) → jobs_of jobs i ≡ job_spec cron i stored.workflows)
start_lem_example =
    start_lem cron (λ i jobs. jobs_of jobs (id_of i)) cron-KeepsJobs stored (refl, tt) (refl, tt)

run_scheduled-trigger_workflow_example :
    run_scheduled env 1 (λ i. 10 + i) 7 stored ≡ (trigger_workflow env 1 (λ i. 10 + i) 7 stored).0
run_scheduled-trigger_workflow_example = run_scheduled-trigger_workflow env 1 (λ i. 10 + i) 7 stored

trigger_workflow-reply_example :
    (s' : Session) × (run : WorkflowRun) × (trigger_workflow env 1 (λ i. 10 + i) 7 stored
      ≡ (s', reply (run_detail env run s')))
    × (get_run 1 s' ≡ some run)
    × ((run_detail env run s').runnable_now ≡ [])
trigger_workflow-reply_example =
    trigger_workflow-reply env 1 (λ i. 10 + i) nightly specs stored nightly-valid refl
      (refl, (refl, (refl, tt))) 7 refl

-- A result is simulated for the root task.
early-IsSafe : IsSafe early
early-IsSafe = record {
  unique = (refl, (refl, (refl, tt)));
  deps_done = ((λ h d e. cc), ((λ h d e. cc), ((λ h d e. e), tt)));
}

serve-IsSound_example : IsSound (serve cron env none (simulate true 1 "fetch" true) early)
serve-IsSound_example =
    serve-IsSound cron env none (simulate true 1 "fetch" true) early tt
      (record { safe = early-IsSafe; valid = tt })

next_wave :
    resolve env 1 later
    ≡ return (map (mark_queued env.now) (clean ∷ []), dispatch env (clean ∷ []) later)
unfolding resolve load_tasks dispatch get_runnable_tasks
next_wave = refl

resolve-no_runnable_example :
    get_runnable_tasks (load_tasks env 1 (dispatch env (clean ∷ []) later)) ≡ []
resolve-no_runnable_example =
    resolve-no_runnable env 1 later (dispatch env (clean ∷ []) later)
      (map (mark_queued env.now) (clean ∷ [])) (refl, (refl, (refl, tt))) refl next_wave

get_workflow_graph-reply_example :
    (graph : Graph) × (depth : String → ℕ) × (get_workflow_graph 7 stored ≡ reply graph)
    × ((j : ℕ) → level_at j graph.levels ≡ ids (keep (λ t. eqb (depth t.id) j) specs))
    × ((d x : String) → edge_count d x graph.edges ≡ deps_count d (find_spec x specs))
    × All (IsDeeper depth) graph.edges
get_workflow_graph-reply_example =
    get_workflow_graph-reply 7 stored nightly specs refl nightly-valid
