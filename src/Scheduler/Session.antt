-- ===== src/Scheduler/Session.antt =====
-- What a session of app/scheduler.py reads and writes: the rows of the database, and the outbox that
-- `session.info` holds until the transaction ends.
use auto_bot.Prelude.{
  ◌≡◌, refl, ℕ, String, List, [], ◌∷◌, ◌++◌, map, Option, Bool, find, eqb, if◌then◌else◌,
}
use auto_bot.Prelude.Int.{ℤ}
use auto_bot.Dag.Spec.{DagError}
use auto_bot.Models.{Workflow, WorkflowRun, RunStatus, Task, WorkerRow}
use auto_bot.Retry.{RetrySettings}
pub use auto_bot.Broker.Message.{TaskMessage, Reason, exhausted}

pub record Publication : Type 0 where
  pub message : TaskMessage
  pub delay : ℕ
  pub dead_letter : Bool

pub record Session : Type 0 where
  pub workflows : List Workflow
  pub runs : List WorkflowRun
  pub tasks : List Task
  pub workers : List WorkerRow
  pub outbox : List Publication

-- What the calls of one transaction take from outside: the time, the database's order of names, the
-- settings of app/config.py, and the generator of the jitter.
pub record Env : Type 0 where
  pub now : ℕ
  pub name_le : String → String → Bool
  pub default_max_retries : ℕ
  pub retry : RetrySettings
  pub uniform : ℕ → ℤ

-- The exceptions that the calls raise; `no_delay` is either exception of `backoff_delay`.
pub data Fault : Type 0 where
  attribute_error : Fault
  no_delay : Fault
  run_not_found : ℕ → Fault
  run_already : RunStatus → Fault
  bad_dag : DagError → Fault

pub data Outcome {ℓ} (A : Type ℓ) : Type ℓ where
  return : A → Outcome A
  raise : Fault → Outcome A

infixl 5 ◌>>=◌
abbrev pub ◌>>=◌ {ℓ κ} : {B : Type κ} {A : Type ℓ} → Outcome A → (A → Outcome B) → Outcome B
return a >>= f = f a
raise e >>= f = raise e

pub >>=-eq-return {ℓ κ} :
    {A : Type ℓ} {B : Type κ} (m : Outcome A) (f : A → Outcome B) {b : B}
    → (m >>= f) ≡ return b
    → (a : A) × (m ≡ return a) × (f a ≡ return b)
>>=-eq-return (return a) f h = (a, refl, h)
>>=-eq-return (raise e) f h = cc

-- session.get(WorkflowRun, run_id)
abbrev pub get_run : ℕ → Session → Option WorkflowRun
get_run run_id s = find (λ r. eqb r.id run_id) s.runs

-- session.get(Task, task_id)
abbrev pub get_task : ℕ → Session → Option Task
get_task task_id s = find (λ t. eqb t.id task_id) s.tasks

-- A flush writes the changed columns to the row with the object's id.
abbrev pub change_task : ℕ → (Task → Task) → Task → Task
change_task task_id f t = if eqb t.id task_id then f t else t

abbrev pub update_task : ℕ → (Task → Task) → Session → Session
update_task task_id f s = record s { tasks = map (change_task task_id f) s.tasks }

abbrev pub change_run : ℕ → (WorkflowRun → WorkflowRun) → WorkflowRun → WorkflowRun
change_run run_id f r = if eqb r.id run_id then f r else r

abbrev pub update_run : ℕ → (WorkflowRun → WorkflowRun) → Session → Session
update_run run_id f s = record s { runs = map (change_run run_id f) s.runs }

-- _publish_on_commit(session, message, delay=delay, dead_letter=dead_letter)
abbrev pub publish_on_commit : TaskMessage → ℕ → Bool → Session → Session
publish_on_commit message delay dead_letter s = record s {
  outbox = s.outbox ++ record { message = message; delay = delay; dead_letter = dead_letter } ∷ [];
}
