-- ===== src/Recovery/Returns.antt =====
-- The sweeps of app/recovery.py return, and leave the runs where they were.
use auto_bot.Prelude.{
  ℕ, ◌≤◌, ◌<◌, ◌≡◌, refl, ap, ◌∙◌, List, [], ◌∷◌, map, Option, some, Bool, true, false, eqb, find,
  any, arith, inl, inr, Bool-cases, All, All-map,
}
use auto_bot.Dag.Runnable.{is_run_finished, get_runnable_tasks}
use auto_bot.Models.{ErrorText, Task, WorkflowRun}
use auto_bot.Retry.{should_retry}
use auto_bot.Scheduler.Exhaust.{backoff-some}
use auto_bot.Scheduler.Session.{
  Session, Env, Outcome, return, ◌>>=◌, get_run, change_run, update_run,
}
use auto_bot.Scheduler.Operations.{
  resolve, report_result, requeue_for_retry, then_resolve, was_cancelled, finalize_if_done,
  dispatch, queue_all, publish_all, dispatch_or_finalize, close_run, requeued, load_tasks,
  final_status,
}
use auto_bot.Recovery.{report_all}

abbrev pub has_run : ℕ → Session → Bool
has_run i s = any (λ (r : WorkflowRun). eqb r.id i) s.runs

-- The call returns a session with the same runs.
abbrev pub ReturnsRuns : Session → Outcome Session → Type 0
ReturnsRuns s o = (s' : Session) × (o ≡ return s') × ((i : ℕ) → has_run i s' ≡ has_run i s)

queue_all-runs : (now : ℕ) (ts : List Task) (s : Session) → (queue_all now ts s).runs ≡ s.runs
queue_all-runs now [] s = refl
queue_all-runs now (t ∷ ts) s = queue_all-runs now ts _

publish_all-runs : (ts : List Task) (s : Session) → (publish_all ts s).runs ≡ s.runs
publish_all-runs [] s = refl
publish_all-runs (t ∷ ts) s = publish_all-runs ts _

any-change_run :
    (i j : ℕ) (f : WorkflowRun → WorkflowRun) (rs : List WorkflowRun)
    → ((r : WorkflowRun) → (f r).id ≡ r.id)
    → any (λ (r : WorkflowRun). eqb r.id i) (map (change_run j f) rs) ≡ any (λ r. eqb r.id i) rs
any-change_run i j f [] h = refl
any-change_run i j f (r ∷ rs) h = ground (arith, h r, any-change_run i j f rs h)

pub found_run :
    (i : ℕ) (rs : List WorkflowRun)
    → any (λ (r : WorkflowRun). eqb r.id i) rs ≡ true
    → (run : WorkflowRun) × (find (λ (r : WorkflowRun). eqb r.id i) rs ≡ some run)
found_run i [] h = cc
found_run i (r ∷ rs) h = elim (Bool-cases (eqb r.id i)) [
  | inl here ↦ (r, rw here)
  | inr other ↦ let (run, found) = found_run i rs (rw other at h) in (run, rw other found)
]

finalize-ReturnsRuns :
    (env : Env) (run_id : ℕ) (tasks : List Task) (s : Session)
    → has_run run_id s ≡ true
    → ReturnsRuns s (finalize_if_done env run_id (some tasks) s)
unfolding finalize_if_done
finalize-ReturnsRuns env run_id tasks s h = elim (Bool-cases (is_run_finished tasks)) [
  | inl finished ↦
      let (run, found) = found_run run_id s.runs h in
      (
        update_run run_id (close_run env.now (final_status tasks)) s,
        rw (finished, found),
        λ i. any-change_run i run_id _ s.runs (λ r. refl),
      )
  | inr unfinished ↦ (s, rw unfinished, λ i. refl)
]

tick-ReturnsRuns :
    (env : Env) (run_id : ℕ) (tasks ts : List Task) (s : Session)
    → has_run run_id s ≡ true
    → ReturnsRuns s (do (dispatched, s') ← dispatch_or_finalize env run_id tasks ts s; return s')
unfolding dispatch
tick-ReturnsRuns env run_id tasks [] s h =
    let (s', e, same) = finalize-ReturnsRuns env run_id tasks s h in (s', rw e, same)
tick-ReturnsRuns env run_id tasks (t ∷ ts) s h = (
  _,
  refl,
  λ i. ap (any (λ (r : WorkflowRun). eqb r.id i)) (
      publish_all-runs (t ∷ ts) (queue_all env.now (t ∷ ts) s) ∙ queue_all-runs env.now (t ∷ ts) s),
)

pub then_resolve-ReturnsRuns :
    (env : Env) (run_id : ℕ) (s : Session)
    → has_run run_id s ≡ true
    → ReturnsRuns s (then_resolve env run_id s)
unfolding resolve
then_resolve-ReturnsRuns env run_id s h = elim (Bool-cases (was_cancelled (get_run run_id s))) [
  | inl stopped ↦ (s, rw stopped, λ i. refl)
  | inr active ↦ rw active (
      tick-ReturnsRuns env run_id (load_tasks env run_id s)
        (get_runnable_tasks (load_tasks env run_id s)) s h)
]

-- A report of failure returns, under the same conditions.
pub report-ReturnsRuns :
    (env : Env) (task : Task) (error : Option ErrorText) (s : Session)
    → has_run task.run_id s ≡ true
    → task.max_retries ≤ 1024
    → ReturnsRuns s (report_result env task false error s)
unfolding report_result requeue_for_retry
report-ReturnsRuns env task error s h small =
    elim (Bool-cases (was_cancelled (get_run task.run_id s))) [
      | inl stopped ↦ rw stopped (then_resolve-ReturnsRuns env task.run_id _ h)
      | inr active ↦ elim (Bool-cases (should_retry task.retry_count task.max_retries)) [
        | inl again ↦
            let below : task.retry_count < 1024 = unfold should_retry in ground arith in
            let (d, delay) = backoff-some env task.retry_count below in
            (requeued env task error d s, rw (active, again, delay), λ i. refl)
        | inr spent ↦ rw (active, spent) (then_resolve-ReturnsRuns env task.run_id _ h)
      ]
    ]

-- Where the runs of the tasks exist and each task allows 1024 retries at most, the reports of a sweep
-- all return.
pub report_all-ReturnsRuns :
    (env : Env) (text : Task → ErrorText) (ts : List Task) (s : Session)
    → All (λ t. (has_run t.run_id s ≡ true) × (t.max_retries ≤ 1024)) ts
    → ReturnsRuns s (report_all env text ts s)
unfolding report_all
report_all-ReturnsRuns env text [] s h = (s, refl, λ i. refl)
report_all-ReturnsRuns env text (t ∷ ts) s h =
    let (s₁, e₁, same₁) = report-ReturnsRuns env t (some (text t)) s h.0.0 h.0.1 in
    let (s₂, e₂, same₂) =
      report_all-ReturnsRuns env text ts s₁ (All-map (λ r e. (same₁ r.run_id ∙ e.0, e.1)) ts h.1) in
    (s₂, rw (e₁, e₂), λ i. same₂ i ∙ same₁ i)
