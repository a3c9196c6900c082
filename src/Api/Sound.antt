-- ===== src/Api/Sound.antt =====
-- What each transaction of app/main.py keeps: sound tables.
use auto_bot.Dag.Spec as Spec
use auto_bot.Dag.Spec.{TaskSpec}
use auto_bot.Dag.Validate.{validate_definition}
use auto_bot.Models.{Workflow, WorkflowRun, Task, is_terminal, is_queued, is_running}
use auto_bot.Cron.{create_and_resolve}
use auto_bot.Scheduler.Kept.{
  fixed, fixed-return, create_run-fixed, resolve-fixed, cancel_run-fixed, report_result-fixed,
}
use auto_bot.Scheduler.Operations.{create_run, resolve, cancel_run, report_result}
use auto_bot.Scheduler.Rows.{has_id, HasUniqueIds}
use auto_bot.Scheduler.Safety.{
  IsSafe, is_dispatched, create_run-IsSafe, resolve-IsSafe, cancel_run-IsSafe, report_result-IsSafe,
}
use auto_bot.Scheduler.Session.{
  Session, Env, Outcome, return, raise, >>=-eq-return, get_run, get_task,
}
use auto_bot.Api.Requests.{
  simulated_error, simulate_task_result, trigger_result, trigger_found, cancel_result, cancel_known,
  simulate_result, simulate_task, simulate_run, detail_of,
}
use auto_bot.Api.{Reply, reply, http_error, crash, find_task}
use auto_bot.Prelude.{
  refl, ◌||◌, inr, eqb_iff, inl, Bool-cases, [], false, eqb, ◌∷◌, sym, none, true, find, ap, Option,
  some, arith, subst, List, String, ◌≡◌, All, Bool, ℕ,
}

-- Each stored definition has been validated.
abbrev pub HasValidWorkflows : Session → Type 0
HasValidWorkflows s =
    All (λ w. (specs : List TaskSpec) × (validate_definition w.definition ≡ Spec.ok specs))
      s.workflows

pub record IsSound (s : Session) : Type 0 where
  pub safe : IsSafe s
  pub valid : HasValidWorkflows s

-- Every session that the call returns is sound.
abbrev AllSound : Outcome Session → Type 0
AllSound o = (s' : Session) → o ≡ return s' → IsSound s'

IsSound-fixed : (s s' : Session) → fixed s' ≡ fixed s → IsSafe s' → IsSound s → IsSound s'
IsSound-fixed s s' same safe h = record {
  safe = safe;
  valid =
      subst
        (All (λ w. (specs : List TaskSpec) × (validate_definition w.definition ≡ Spec.ok specs)))
        (ap (λ x. x.0) (sym same)) h.valid;
}

absent-find :
    (p : Task → Bool) (ts : List Task) (t : Task) → find p ts ≡ some t → has_id t.id ts ≡ true
absent-find p [] t e = cc
absent-find p (r ∷ ts) t e = elim (Bool-cases (p r)) [
  | inl here ↦ ground (arith, eqb_iff r.id t.id)
  | inr other ↦ ground (arith, absent-find p ts t (rw other at e))
]

find_unique :
    (p : Task → Bool) (ts : List Task) (t : Task)
    → HasUniqueIds ts
    → find p ts ≡ some t
    → find (λ r. eqb r.id t.id) ts ≡ some t
find_unique p [] t unique e = cc
find_unique p (r ∷ ts) t unique e = elim (Bool-cases (p r)) [
  | inl here ↦ let same : r ≡ t = ground arith in ground (arith, eqb_iff r.id t.id)
  | inr other ↦
      let later = find_unique p ts t unique.1 (rw other at e) in
      let there = absent-find p ts t (rw other at e) in ground (arith, eqb_iff r.id t.id, unique.0)
]

detail_of-IsSound :
    (env : Env) (o : Option WorkflowRun) (s : Session) → IsSound s → IsSound (detail_of env o s).0
unfolding detail_of
detail_of-IsSound env none s h = h
detail_of-IsSound env (some run) s h = h

module _ (env : Env) (run_id : ℕ) (s : Session) (h : IsSound s) where
  trigger_result-IsSound :
      (o : Outcome Session) → AllSound o → IsSound (trigger_result env run_id s o).0
  unfolding trigger_result
  trigger_result-IsSound (raise fault) k = h
  trigger_result-IsSound (return s') k = detail_of-IsSound env (get_run run_id s') s' (k s' refl)

  cancel_result-IsSound :
      (o : Outcome Session) → AllSound o → IsSound (cancel_result env run_id s o).0
  unfolding cancel_result
  cancel_result-IsSound (raise fault) k = h
  cancel_result-IsSound (return s') k = detail_of-IsSound env (get_run run_id s') s' (k s' refl)

  simulate_result-IsSound :
      (o : Outcome Session) → AllSound o → IsSound (simulate_result env run_id s o).0
  unfolding simulate_result
  simulate_result-IsSound (raise fault) k = h
  simulate_result-IsSound (return s') k = detail_of-IsSound env (get_run run_id s') s' (k s' refl)

  create_and_resolve-AllSound :
      (uuid : ℕ → ℕ) (w : Workflow)
      → ((id : ℕ) (s' : Session)
          → create_run env run_id uuid w s ≡ return (id, s')
          → HasUniqueIds s'.tasks)
      → AllSound (create_and_resolve env run_id uuid w s)
  unfolding create_and_resolve
  create_and_resolve-AllSound uuid w fresh s' e =
      let ((id, s₁), created, rest) = >>=-eq-return (create_run env run_id uuid w s) _ e in
      let ((ts, s₂), resolved, last) = >>=-eq-return (resolve env id s₁) _ rest in
      let end : s₂ ≡ s' = ground arith in
      let safe₁ =
        create_run-IsSafe env run_id id uuid w s s₁ created (fresh id s₁ created) h.safe in
      let sound₁ =
        IsSound-fixed s s₁ (create_run-fixed env run_id id uuid w s s₁ created) safe₁ h in
      subst IsSound end (
        IsSound-fixed s₁ s₂ (resolve-fixed env id s₁ s₂ ts resolved)
          (resolve-IsSafe env id s₁ s₂ ts resolved safe₁) sound₁)

  cancel_run-AllSound : AllSound (cancel_run env run_id s)
  cancel_run-AllSound s' e =
      IsSound-fixed s s' (cancel_run-fixed env run_id s s' e)
        (cancel_run-IsSafe env run_id s s' e h.safe) h

  report_result-AllSound :
      (task : Task) (succeed : Bool)
      → get_task task.id s ≡ some task
      → is_dispatched task.status ≡ true
      → AllSound (report_result env task succeed (simulated_error succeed) s)
  report_result-AllSound task succeed found dispatched s' e =
      IsSound-fixed s s'
        (fixed-return (fixed s) _ s'
          (report_result-fixed env task succeed (simulated_error succeed) s) e)
        (report_result-IsSafe s task h.safe found dispatched env succeed (simulated_error succeed)
          s' e)
        h

  -- A task that is found by its run and name is the row with its id.
  find_task-get_task :
      (task_name : String) (t : Task)
      → find_task run_id task_name s ≡ some t
      → get_task t.id s ≡ some t
  find_task-get_task task_name t e = find_unique _ s.tasks t h.safe.unique e

  simulate_task-IsSound :
      (succeed : Bool) (task_name : String) (o : Option Task)
      → find_task run_id task_name s ≡ o
      → IsSound (simulate_task env run_id succeed o s).0
  unfolding simulate_task
  simulate_task-IsSound succeed task_name none e = h
  simulate_task-IsSound succeed task_name (some task) e =
      elim (Bool-cases (is_queued task.status || is_running task.status)) [
        | inl sent ↦ rw sent (
            simulate_result-IsSound _
              (report_result-AllSound task succeed (find_task-get_task task_name task e) sent))
        | inr idle ↦ rw idle h
      ]

  simulate_run-IsSound :
      (succeed : Bool) (task_name : String) (r : Reply WorkflowRun)
      → IsSound (simulate_run env run_id task_name succeed r s).0
  unfolding simulate_run
  simulate_run-IsSound succeed task_name (http_error code) = h
  simulate_run-IsSound succeed task_name crash = h
  simulate_run-IsSound succeed task_name (reply run) = elim (Bool-cases (is_terminal run.status)) [
    | inl closed ↦ rw closed h
    | inr going ↦ rw going (simulate_task-IsSound succeed task_name _ refl)
  ]

  pub simulate_task_result-IsSound :
      (enabled succeed : Bool) (task_name : String)
      → IsSound (simulate_task_result env enabled run_id task_name succeed s).0
  unfolding simulate_task_result
  simulate_task_result-IsSound true succeed task_name = simulate_run-IsSound succeed task_name _
  simulate_task_result-IsSound false succeed task_name = h

  pub cancel_known-IsSound : (r : Reply WorkflowRun) → IsSound (cancel_known env run_id r s).0
  unfolding cancel_known
  cancel_known-IsSound (http_error code) = h
  cancel_known-IsSound crash = h
  cancel_known-IsSound (reply run) = cancel_result-IsSound _ cancel_run-AllSound

  pub trigger_found-IsSound :
      (uuid : ℕ → ℕ)
      → ((w : Workflow) (id : ℕ) (s' : Session)
          → create_run env run_id uuid w s ≡ return (id, s')
          → HasUniqueIds s'.tasks)
      → (r : Reply Workflow) → IsSound (trigger_found env run_id uuid r s).0
  unfolding trigger_found
  trigger_found-IsSound uuid fresh (http_error code) = h
  trigger_found-IsSound uuid fresh crash = h
  trigger_found-IsSound uuid fresh (reply w) =
      trigger_result-IsSound _ (create_and_resolve-AllSound uuid w (fresh w))
