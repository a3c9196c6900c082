-- ===== src/Api/Trigger.antt =====
-- A trigger of a stored workflow: the endpoint of app/main.py, and the job of app/cron.py.
use auto_bot.Api.{reply, run_detail, found_or_404}
use auto_bot.Api.Requests.{trigger_workflow, trigger_found, trigger_result, detail_of}
use auto_bot.Cron.{run_found, commit_or_not, create_and_resolve, get_workflow_row, run_scheduled}
use auto_bot.Dag.Runnable.{get_runnable_tasks}
use auto_bot.Dag.Spec as Spec
use auto_bot.Dag.Spec.{TaskSpec}
use auto_bot.Dag.Validate.{validate_definition}
use auto_bot.Models.{Workflow, WorkflowRun}
use auto_bot.Recovery.Returns.{found_run, then_resolve-ReturnsRuns}
use auto_bot.Scheduler.Again.{resolve-no_runnable}
use auto_bot.Scheduler.Operations.{
  create_run, resolve, load_tasks, new_run, new_tasks, was_cancelled,
}
use auto_bot.Scheduler.Rows.{HasUniqueIds}
use auto_bot.Scheduler.Session.{Session, Env, Outcome, return, raise, >>=-eq-return, get_run}
use auto_bot.Prelude.{
  inr, subst, inl, ◌∙◌, eqb_iff, Bool-cases, true, arith, refl, [], false, ◌∷◌, ◌++◌, eqb, some,
  none, any, find, sym, List, ◌≡◌, ℕ, Option,
}

pub detail_of-tables :
    (env : Env) (o : Option WorkflowRun) (s : Session) → (detail_of env o s).0 ≡ s
unfolding detail_of
detail_of-tables env none s = refl
detail_of-tables env (some run) s = refl

trigger_result-tables :
    (env : Env) (run_id : ℕ) (s : Session) (o : Outcome Session)
    → commit_or_not s o ≡ (trigger_result env run_id s o).0
unfolding trigger_result
trigger_result-tables env run_id s (raise fault) = refl
trigger_result-tables env run_id s (return s') = sym (detail_of-tables env (get_run run_id s') s')

-- A scheduled run and a run that is triggered by a request leave the same tables, whatever becomes of
-- them.
pub run_scheduled-trigger_workflow :
    (env : Env) (run_id : ℕ) (uuid : ℕ → ℕ) (workflow_id : ℕ) (s : Session)
    → run_scheduled env run_id uuid workflow_id s
      ≡ (trigger_workflow env run_id uuid workflow_id s).0
unfolding run_scheduled trigger_workflow trigger_found
run_scheduled-trigger_workflow env run_id uuid workflow_id s = same (get_workflow_row workflow_id s)
  where
    same :
        (o : Option Workflow)
        → run_found env run_id uuid o s ≡ (trigger_found env run_id uuid (found_or_404 o) s).0
    same none = refl
    same (some w) = trigger_result-tables env run_id s (create_and_resolve env run_id uuid w s)

pub get_run-append :
    (run_id : ℕ) (run : WorkflowRun) (rs : List WorkflowRun)
    → run.id ≡ run_id
    → find (λ (r : WorkflowRun). eqb r.id run_id) rs ≡ none
    → find (λ (r : WorkflowRun). eqb r.id run_id) (rs ++ run ∷ []) ≡ some run
get_run-append run_id run [] same h = ground (arith, eqb_iff run.id run_id)
get_run-append run_id run (r ∷ rs) same h = ground (arith, get_run-append run_id run rs same)

pub any-append_one :
    (run_id : ℕ) (run : WorkflowRun) (rs : List WorkflowRun)
    → run.id ≡ run_id
    → any (λ (r : WorkflowRun). eqb r.id run_id) (rs ++ run ∷ []) ≡ true
any-append_one run_id run [] same = ground (arith, eqb_iff run.id run_id)
any-append_one run_id run (r ∷ rs) same = ground (arith, any-append_one run_id run rs same)

found_run-id :
    (run_id : ℕ) (run : WorkflowRun) (rs : List WorkflowRun)
    → find (λ (r : WorkflowRun). eqb r.id run_id) rs ≡ some run
    → run.id ≡ run_id
found_run-id run_id run [] h = cc
found_run-id run_id run (r ∷ rs) h = elim (Bool-cases (eqb r.id run_id)) [
  | inl here ↦ ground (arith, eqb_iff r.id run_id)
  | inr other ↦ found_run-id run_id run rs (rw other at h)
]

module _ (env : Env) (run_id : ℕ) (uuid : ℕ → ℕ) (w : Workflow) (specs : List TaskSpec)
    (s : Session) (valid : validate_definition w.definition ≡ Spec.ok specs)
    (fresh : get_run run_id s ≡ none)
    (unique : HasUniqueIds (s.tasks ++ new_tasks env uuid 0 run_id specs)) where
  abbrev pub created : Session
  created = record s {
    runs = s.runs ++ new_run env run_id w ∷ [];
    tasks = s.tasks ++ new_tasks env uuid 0 run_id specs;
  }

  pub create_run-created : create_run env run_id uuid w s ≡ return (run_id, created)
  unfolding create_run
  create_run-created = rw valid refl

  pub created_active : was_cancelled (get_run run_id created) ≡ false
  created_active = rw (get_run-append run_id (new_run env run_id w) s.runs refl fresh) refl

  -- The transaction of a trigger returns; afterwards the run is there, and none of its tasks waits to
  -- be dispatched.
  create_and_resolve_lem :
      (s' : Session) × (run : WorkflowRun) × (create_and_resolve env run_id uuid w s ≡ return s')
      × (get_run run_id s' ≡ some run)
      × (run.id ≡ run_id)
      × (get_runnable_tasks (load_tasks env run_id s') ≡ [])
  create_and_resolve_lem =
      let (s', resolved, same) =
        then_resolve-ReturnsRuns env run_id created
          (any-append_one run_id (new_run env run_id w) s.runs refl) in
      let ((ts, s₂), ticked, last) = >>=-eq-return (resolve env run_id created) _ resolved in
      let end : s₂ ≡ s' = ground arith in
      let (run, found) =
        found_run run_id s'.runs
          (same run_id ∙ any-append_one run_id (new_run env run_id w) s.runs refl) in
      (
        s',
        run,
        (unfold create_and_resolve in rw create_run-created resolved),
        found,
        found_run-id run_id run s'.runs found,
        resolve-no_runnable env run_id created s' ts unique created_active
            (subst (λ x. resolve env run_id created ≡ return (ts, x)) end ticked),
      )

  -- A trigger of a stored workflow with a valid definition is answered with the run's detail: the run
  -- has been stored, and nothing of it waits to be dispatched. (The ids of the new rows are not in
  -- use.)
  pub trigger_workflow-reply :
      (workflow_id : ℕ)
      → get_workflow_row workflow_id s ≡ some w
      → (s' : Session) × (run : WorkflowRun) × (trigger_workflow env run_id uuid workflow_id s
          ≡ (s', reply (run_detail env run s')))
        × (get_run run_id s' ≡ some run)
        × ((run_detail env run s').runnable_now ≡ [])
  unfolding trigger_workflow trigger_found trigger_result detail_of run_detail
  trigger_workflow-reply workflow_id stored =
      let (s', run, returned, found, same, idle) = create_and_resolve_lem in
      (s', run, rw (stored, returned, found) refl, found, rw (same, idle) refl)
