-- ===== src/Scheduler/Potential.antt =====
-- How much work the tables and the outbox of app/scheduler.py still hold.
use auto_bot.Prelude.Sort.{sort, insert}
use auto_bot.Dag.Runnable.{get_runnable_tasks, is_run_finished, completed_names, is_runnable}
use auto_bot.Models.{Task, TaskStatus, WorkflowRun}
use auto_bot.Scheduler.Operations.{
  resolve, load_tasks, finalize_if_done, close_found, queue_all, publish_all, dispatch,
  dispatch_or_finalize, message_of, was_cancelled,
}
use auto_bot.Scheduler.Commit.{live}
use auto_bot.Scheduler.Rows.{HasUniqueIds, has_id}
use auto_bot.Scheduler.Tick.{resolve-tasks, tick_row, done_names, is_runnable-cong}
use auto_bot.Scheduler.Session.{
  Session, Env, Publication, return, >>=-eq-return, get_run, change_task, publish_on_commit,
}
use auto_bot.Prelude.{
  Option, none, inr, subst, eqb_iff, inl, sym, refl, ap, Bool-cases, ◌∙◌, some, arith, [], ◌&&◌,
  keep, map, eqb, false, ◌++◌, String, find, ◌≡◌, length, ◌∷◌, ◌-◌, ◌+◌, Bool, List, ℕ,
}

-- What a task can still cost: a message for each attempt that is left, and one to be queued.
abbrev pub weigh : TaskStatus → ℕ → ℕ
weigh TaskStatus.pending retries = retries + 2
weigh TaskStatus.queued retries = retries + 1
weigh TaskStatus.running retries = retries + 1
weigh TaskStatus.success retries = 0
weigh TaskStatus.failed retries = 0
weigh TaskStatus.cancelled retries = 0

abbrev pub weight : Task → ℕ
weight t = weigh t.status (t.max_retries - t.retry_count)

abbrev pub total : List Task → ℕ
total [] = 0
total (t ∷ ts) = weight t + total ts

-- The messages that a commit sends to the queue.
abbrev pub unsent : Session → ℕ
unsent s = length (live s.outbox)

abbrev pub potential : Session → ℕ
potential s = total s.tasks + unsent s

pub live-append :
    (ps qs : List Publication) → length (live (ps ++ qs)) ≡ length (live ps) + length (live qs)
live-append [] qs = omega arith
live-append (p ∷ ps) qs = ground (arith, live-append ps qs)

-- An update of the row of a task that is found.
total-absent :
    (i : ℕ) (f : Task → Task) (ts : List Task)
    → has_id i ts ≡ false
    → total (map (change_task i f) ts) ≡ total ts
total-absent i f [] h = refl
total-absent i f (t ∷ ts) h = ground (arith, total-absent i f ts)

pub total-change :
    (i : ℕ) (f : Task → Task) (t : Task) (ts : List Task)
    → HasUniqueIds ts
    → find (λ r. eqb r.id i) ts ≡ some t
    → total (map (change_task i f) ts) + weight t ≡ total ts + weight (f t)
total-change i f t [] unique h = cc
total-change i f t (r ∷ ts) unique h = elim (Bool-cases (eqb r.id i)) [
  | inl here ↦
      let same : r ≡ t = ground arith in
      let at : r.id ≡ i = (eqb_iff r.id i).0 here in
      let rest = total-absent i f ts (subst (λ j. has_id j ts ≡ false) at unique.0) in
      rw (here, ← same) (omega (arith, rest))
  | inr other ↦
      let rest = total-change i f t ts unique.1 (rw other at h) in rw other (omega (arith, rest))
]

-- What a tick queues is one lighter for each task.
ticked : ℕ → List String → Task → Bool
ticked run_id done t = eqb t.run_id run_id && is_runnable done t

total-tick :
    (env : Env) (run_id : ℕ) (done : List String) (ts : List Task)
    → total (map (tick_row env run_id done) ts) + length (keep (ticked run_id done) ts) ≡ total ts
unfolding ticked is_runnable
total-tick env run_id done [] = refl
total-tick env run_id done (t ∷ ts) = ground (arith, total-tick env run_id done ts)

module _ (p : Task → Bool) where
  length-keep-insert :
      (le : Task → Task → Bool) (t : Task) (ts : List Task)
      → length (keep p (insert le t ts)) ≡ length (keep p (t ∷ ts))
  length-keep-insert le t [] = refl
  length-keep-insert le t (r ∷ ts) = ground (arith, length-keep-insert le t ts)

  length-keep-sort :
      (le : Task → Task → Bool) (ts : List Task) → length (keep p (sort le ts)) ≡ length (keep p ts)
  length-keep-sort le [] = refl
  length-keep-sort le (t ∷ ts) =
      length-keep-insert le t (sort le ts) ∙ ground (arith, length-keep-sort le ts)

  length-keep-keep :
      (q r : Task → Bool) (ts : List Task)
      → ((t : Task) → r t ≡ (q t && p t))
      → length (keep p (keep q ts)) ≡ length (keep r ts)
  length-keep-keep q r [] h = refl
  length-keep-keep q r (t ∷ ts) h = ground (arith, h t, length-keep-keep q r ts h)

length-runnable :
    (env : Env) (run_id : ℕ) (s : Session)
    → length (get_runnable_tasks (load_tasks env run_id s))
      ≡ length (keep (ticked run_id (done_names run_id s.tasks)) s.tasks)
unfolding get_runnable_tasks load_tasks ticked
length-runnable env run_id s =
    let p = is_runnable (completed_names (load_tasks env run_id s)) in
    let le = λ (a b : Task). env.name_le a.task_name b.task_name in
    length-keep-sort p le (keep (λ t. eqb t.run_id run_id) s.tasks)
    ∙ length-keep-keep p (λ t. eqb t.run_id run_id) (ticked run_id (done_names run_id s.tasks))
        s.tasks (λ t. ap (λ b. eqb t.run_id run_id && b) (sym (is_runnable-cong env run_id s t)))

queue_all-outbox : (now : ℕ) (ts : List Task) (s : Session) → (queue_all now ts s).outbox ≡ s.outbox
queue_all-outbox now [] s = refl
queue_all-outbox now (t ∷ ts) s = queue_all-outbox now ts _

publish_all-unsent :
    (ts : List Task) (s : Session) → unsent (publish_all ts s) ≡ unsent s + length ts
publish_all-unsent [] s = omega arith
publish_all-unsent (t ∷ ts) s =
    let p : Publication = record { message = message_of t none; delay = 0; dead_letter = false } in
    let rest = publish_all-unsent ts (publish_on_commit (message_of t none) 0 false s) in
    omega (arith, rest, live-append s.outbox (p ∷ []))

close_found-outbox :
    (env : Env) (run_id : ℕ) (tasks : List Task) (o : Option WorkflowRun) (s s' : Session)
    → close_found env run_id tasks o s ≡ return s'
    → s'.outbox ≡ s.outbox
close_found-outbox env run_id tasks none s s' h = cc
close_found-outbox env run_id tasks (some run) s s' h = ground arith

finalize_if_done-outbox :
    (env : Env) (run_id : ℕ) (tasks : List Task) (s s' : Session)
    → finalize_if_done env run_id (some tasks) s ≡ return s'
    → s'.outbox ≡ s.outbox
unfolding finalize_if_done
finalize_if_done-outbox env run_id tasks s s' h = elim (Bool-cases (is_run_finished tasks)) [
  | inl done ↦ close_found-outbox env run_id tasks (get_run run_id s) s s' (rw done at h)
  | inr waits ↦ ground arith
]

tick-unsent :
    (env : Env) (run_id : ℕ) (tasks runnable ts : List Task) (s s' : Session)
    → dispatch_or_finalize env run_id tasks runnable s ≡ return (ts, s')
    → unsent s' ≡ unsent s + length runnable
unfolding dispatch
tick-unsent env run_id tasks [] ts s s' h =
    let (s₁, closed, last) = >>=-eq-return (finalize_if_done env run_id (some tasks) s) _ h in
    let end : s₁ ≡ s' = ground arith in
    let same = finalize_if_done-outbox env run_id tasks s s₁ closed in
    ap unsent (sym end) ∙ ap (λ o. length (live o)) same ∙ omega arith
tick-unsent env run_id tasks (t ∷ runnable) ts s s' h =
    let end : publish_all (t ∷ runnable) (queue_all env.now (t ∷ runnable) s) ≡ s' = ground arith in
    ap unsent (sym end)
    ∙ publish_all-unsent (t ∷ runnable) (queue_all env.now (t ∷ runnable) s)
    ∙ ap (λ o. length (live o) + length (t ∷ runnable)) (queue_all-outbox env.now (t ∷ runnable) s)

-- A tick pays for each message with the lighter weight of the task that it queues. (Task ids are unique.)
pub resolve-potential :
    (env : Env) (run_id : ℕ) (s s' : Session) (ts : List Task)
    → HasUniqueIds s.tasks
    → resolve env run_id s ≡ return (ts, s')
    → potential s' ≡ potential s
unfolding resolve
resolve-potential env run_id s s' ts unique h =
    elim (Bool-cases (was_cancelled (get_run run_id s))) [
      | inl stopped ↦
          let returned = rw stopped at h in
          let same : s ≡ s' = ground arith in ap potential (sym same)
      | inr active ↦
          let rows = resolve-tasks env run_id s s' ts unique h in
          let ticked_rows : s'.tasks
              ≡ map (tick_row env run_id (done_names run_id s.tasks)) s.tasks =
            rw active at rows in
          let sent =
            tick-unsent env run_id (load_tasks env run_id s)
              (get_runnable_tasks (load_tasks env run_id s)) ts s s' (rw active at h) in
          let lighter = total-tick env run_id (done_names run_id s.tasks) s.tasks in
          let count = length-runnable env run_id s in
          rw ticked_rows (omega (arith, sent, lighter, count))
    ]
