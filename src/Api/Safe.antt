-- ===== src/Api/Safe.antt =====
-- What no request to app/main.py can break.
use auto_bot.Dag.Spec as Spec
use auto_bot.Dag.Spec.{TaskSpec}
use auto_bot.Dag.Validate.{validate_definition}
use auto_bot.Models.{Workflow}
use auto_bot.Cron.{Apscheduler, add_job}
use auto_bot.Scheduler.Operations.{create_run}
use auto_bot.Scheduler.Rows.{HasUniqueIds}
use auto_bot.Scheduler.Session.{Session, Env, return}
use auto_bot.Api.Requests.{
  WorkflowCreate, trigger_workflow, cancel_workflow_run, simulate_task_result, register_workflow,
  register_valid, register_checked, new_workflow, arm, job_result,
}
use auto_bot.Prelude.{refl, [], ◌∷◌, none, ◌++◌, Option, some, List, String, ◌≡◌, All, Bool, ℕ}
use auto_bot.Api.Sound.{
  IsSound, trigger_found-IsSound, cancel_known-IsSound, simulate_task_result-IsSound,
}

-- A request that may change the tables: the ids of new rows are the database's.
pub data Request : Type 0 where
  register : ℕ → WorkflowCreate → Request
  trigger : ℕ → ℕ → (ℕ → ℕ) → Request
  cancel : ℕ → Request
  simulate : Bool → ℕ → String → Bool → Request

-- The ids that the database gives to the rows of a new run are not in use.
abbrev pub HasFreshIds : Env → Request → Session → Type 0
HasFreshIds env (trigger workflow_id run_id uuid) s =
    (w : Workflow) (id : ℕ) (s' : Session)
    → create_run env run_id uuid w s ≡ return (id, s')
    → HasUniqueIds s'.tasks
HasFreshIds env (register id payload) s = Unit
HasFreshIds env (cancel run_id) s = Unit
HasFreshIds env (simulate enabled run_id task_name succeed) s = Unit

All-append_one {ℓ} :
    (P : Workflow → Type ℓ) (ws : List Workflow) (w : Workflow)
    → All P ws
    → P w
    → All P (ws ++ w ∷ [])
All-append_one P [] w h k = (k, tt)
All-append_one P (v ∷ ws) w h k = (h.0, All-append_one P ws w h.1 k)

module _ {Jobs Trigger : Type 0} (cron : Apscheduler Jobs Trigger) (env : Env) (s : Session)
    (h : IsSound s) where
  job_result-IsSound :
      (w : Workflow) (s' : Session) (jobs : Jobs) (o : Option Jobs)
      → IsSound s'
      → IsSound (job_result cron w s' jobs o).0
  job_result-IsSound w s' jobs none k = k
  job_result-IsSound w s' jobs (some jobs') k = k

  arm-IsSound :
      (w : Workflow) (s' : Session) (jobs : Option Jobs)
      → IsSound s'
      → IsSound (arm cron w s' jobs).0
  unfolding arm
  arm-IsSound w s' none k = k
  arm-IsSound w s' (some jobs) k = job_result-IsSound w s' jobs (add_job cron w jobs) k

  register_valid-IsSound :
      (w : Workflow) (r : Spec.Result (List TaskSpec)) (jobs : Option Jobs)
      → validate_definition w.definition ≡ r
      → IsSound (register_valid cron w r jobs s).0
  unfolding register_valid
  register_valid-IsSound w (Spec.err e) jobs v = h
  register_valid-IsSound w (Spec.ok specs) jobs v =
      arm-IsSound w (record s { workflows = s.workflows ++ w ∷ [] }) jobs
        (record {
          safe = record { unique = h.safe.unique; deps_done = h.safe.deps_done };
          valid = All-append_one _ s.workflows w h.valid (specs, v);
        })

  register_checked-IsSound :
      (id : ℕ) (payload : WorkflowCreate) (o : Option (Option String)) (jobs : Option Jobs)
      → IsSound (register_checked cron env id payload o jobs s).0
  unfolding register_checked
  register_checked-IsSound id payload none jobs = h
  register_checked-IsSound id payload (some schedule) jobs =
      register_valid-IsSound (new_workflow cron env id payload schedule) _ jobs refl

module _ {Jobs Trigger : Type 0} (cron : Apscheduler Jobs Trigger) where
  -- The tables after a request.
  unfoldable pub serve : Env → Option Jobs → Request → Session → Session
  unfolding register_workflow trigger_workflow cancel_workflow_run simulate_task_result
  serve env jobs (register id payload) s = (register_workflow cron env id payload jobs s).0
  serve env jobs (trigger workflow_id run_id uuid) s =
      (trigger_workflow env run_id uuid workflow_id s).0
  serve env jobs (cancel run_id) s = (cancel_workflow_run env run_id s).0
  serve env jobs (simulate enabled run_id task_name succeed) s =
      (simulate_task_result env enabled run_id task_name succeed s).0

  -- No request, whatever it asks for, breaks the tables: task ids stay unique, no task is started of
  -- which a dependency has not succeeded, and each stored definition is valid. (The ids that the
  -- database gives to the rows of a new run are not in use.)
  pub serve-IsSound :
      (env : Env) (jobs : Option Jobs) (request : Request) (s : Session)
      → HasFreshIds env request s
      → IsSound s
      → IsSound (serve env jobs request s)
  unfolding serve register_workflow trigger_workflow cancel_workflow_run simulate_task_result
  serve-IsSound env jobs (register id payload) s fresh h =
      register_checked-IsSound cron env s h id payload _ jobs
  serve-IsSound env jobs (trigger workflow_id run_id uuid) s fresh h =
      trigger_found-IsSound env run_id s h uuid fresh _
  serve-IsSound env jobs (cancel run_id) s fresh h = cancel_known-IsSound env run_id s h _
  serve-IsSound env jobs (simulate enabled run_id task_name succeed) s fresh h =
      simulate_task_result-IsSound env run_id s h enabled succeed task_name
