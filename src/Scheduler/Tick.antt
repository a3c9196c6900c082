-- ===== src/Scheduler/Tick.antt =====
-- A tick as one update of all rows: `resolve` against its description by rows.
use auto_bot.Prelude.{
  ℕ, ◌≡◌, refl, ap, ◌∙◌, sym, String, List, [], ◌∷◌, map, Option, none, some, ◌&&◌, keep, any, all,
  eqb, if◌then◌else◌, arith, inl, inr, eqb_iff, Bool-cases, All-map,
}
use auto_bot.Prelude.Names.{mem}
use auto_bot.Prelude.Sort.{sort}
use auto_bot.Dag.Runnable.{get_runnable_tasks, is_run_finished, completed_names, is_runnable}
use auto_bot.Models.{Task, WorkflowRun, is_success}
use auto_bot.Scheduler.Session.{
  Session, Env, return, >>=-eq-return, get_run, update_task, change_task,
}
use auto_bot.Scheduler.Operations.{
  resolve, load_tasks, finalize_if_done, queue_all, publish_all, dispatch, dispatch_or_finalize,
  mark_queued, was_cancelled, close_found,
}
use auto_bot.Scheduler.Progress.{publish_all-tasks}
use auto_bot.Scheduler.Rows.{
  any-cong, any-sort, any-keep, map-compose, map-All, map-same, has_id, HasUniqueIds,
  has_id-keep_self,
}
use auto_bot.Scheduler.Written.{queued_at}

-- The names of the run's tasks that have succeeded.
abbrev pub done_names : ℕ → List Task → List String
done_names run_id tasks =
    map (λ t. t.task_name) (keep (λ t. is_success t.status) (keep (λ t. eqb t.run_id run_id) tasks))

-- What a tick of a run does to each row: it queues the run's runnable tasks.
abbrev pub tick_row : Env → ℕ → List String → Task → Task
tick_row env run_id done t =
    if eqb t.run_id run_id && is_runnable done t then queued_at env.now t else t

queue_row : ℕ → List Task → Task → Task
queue_row now ts r = if has_id r.id ts then mark_queued now r else r

queue_all-tasks :
    (now : ℕ) (ts : List Task) (s : Session)
    → (queue_all now ts s).tasks ≡ map (queue_row now ts) s.tasks
unfolding queue_row
queue_all-tasks now [] s = sym (map-same _ s.tasks (λ r. refl))
queue_all-tasks now (t ∷ ts) s =
    queue_all-tasks now ts (update_task t.id (mark_queued now) s)
    ∙ map-compose (change_task t.id (mark_queued now)) (queue_row now ts) (queue_row now (t ∷ ts))
        s.tasks (λ r. ground (arith, eqb_iff t.id r.id, eqb_iff r.id t.id))

-- A name is done in the loaded tasks exactly when it is in the rows.
mem-names :
    (x : String) (ts : List Task)
    → mem x (map (λ t. t.task_name) (keep (λ t. is_success t.status) ts))
      ≡ any (λ t. is_success t.status && mem x (t.task_name ∷ [])) ts
mem-names x [] = refl
mem-names x (t ∷ ts) = ground (arith, mem-names x ts)

mem-completed_names :
    (env : Env) (run_id : ℕ) (s : Session) (x : String)
    → mem x (completed_names (load_tasks env run_id s)) ≡ mem x (done_names run_id s.tasks)
unfolding completed_names load_tasks
mem-completed_names env run_id s x =
    let le = λ (a b : Task). env.name_le a.task_name b.task_name in
    let rows = keep (λ (r : Task). eqb r.run_id run_id) s.tasks in
    mem-names x (sort le rows) ∙ any-sort _ le rows ∙ sym (mem-names x rows)

all-cong :
    (xs ys deps : List String)
    → ((x : String) → mem x xs ≡ mem x ys)
    → all (λ d. mem d xs) deps ≡ all (λ d. mem d ys) deps
all-cong xs ys [] h = refl
all-cong xs ys (d ∷ deps) h = ground (arith, h d, all-cong xs ys deps h)

pub is_runnable-cong :
    (env : Env) (run_id : ℕ) (s : Session) (t : Task)
    → is_runnable (completed_names (load_tasks env run_id s)) t
      ≡ is_runnable (done_names run_id s.tasks) t
unfolding is_runnable
is_runnable-cong env run_id s t =
    let same =
      all-cong (completed_names (load_tasks env run_id s)) (done_names run_id s.tasks) t.depends_on
        (mem-completed_names env run_id s) in
    ground arith

-- The rows that a tick dispatches, by id.
has_id-runnable :
    (env : Env) (run_id : ℕ) (s : Session) (i : ℕ)
    → has_id i (get_runnable_tasks (load_tasks env run_id s))
      ≡ has_id i (
          keep
            (λ t. eqb t.run_id run_id && is_runnable (completed_names (load_tasks env run_id s)) t)
            s.tasks)
unfolding get_runnable_tasks load_tasks
has_id-runnable env run_id s i =
    let le = λ (a b : Task). env.name_le a.task_name b.task_name in
    let rows = keep (λ (r : Task). eqb r.run_id run_id) s.tasks in
    let p = is_runnable (completed_names (sort le rows)) in
    any-keep (λ t. eqb t.id i) p (sort le rows)
    ∙ any-sort (λ t. p t && eqb t.id i) le rows
    ∙ any-keep (λ t. p t && eqb t.id i) (λ t. eqb t.run_id run_id) s.tasks
    ∙ any-cong s.tasks (λ t. ground arith)
    ∙ sym (any-keep (λ t. eqb t.id i) (λ t. eqb t.run_id run_id && p t) s.tasks)

tick-rows :
    (env : Env) (run_id : ℕ) (s : Session)
    → HasUniqueIds s.tasks
    → map (queue_row env.now (get_runnable_tasks (load_tasks env run_id s))) s.tasks
      ≡ map (tick_row env run_id (done_names run_id s.tasks)) s.tasks
unfolding queue_row
tick-rows env run_id s unique =
    let p = λ (t : Task).
      eqb t.run_id run_id && is_runnable (completed_names (load_tasks env run_id s)) t in
    map-All _ _ s.tasks (
      All-map
        (λ r e. ground (arith, has_id-runnable env run_id s r.id, is_runnable-cong env run_id s r))
        s.tasks (has_id-keep_self p s.tasks unique))

close_found-tasks :
    (env : Env) (run_id : ℕ) (tasks : List Task) (o : Option WorkflowRun) (s s' : Session)
    → close_found env run_id tasks o s ≡ return s'
    → s'.tasks ≡ s.tasks
close_found-tasks env run_id tasks none s s' h = cc
close_found-tasks env run_id tasks (some run) s s' h = ground arith

pub finalize_if_done-tasks :
    (env : Env) (run_id : ℕ) (tasks : List Task) (s s' : Session)
    → finalize_if_done env run_id (some tasks) s ≡ return s'
    → s'.tasks ≡ s.tasks
unfolding finalize_if_done
finalize_if_done-tasks env run_id tasks s s' h = elim (Bool-cases (is_run_finished tasks)) [
  | inl done ↦ close_found-tasks env run_id tasks (get_run run_id s) s s' (rw done at h)
  | inr waits ↦ ground arith
]

tick_runnable :
    (env : Env) (run_id : ℕ) (tasks runnable ts : List Task) (s s' : Session)
    → dispatch_or_finalize env run_id tasks runnable s ≡ return (ts, s')
    → s'.tasks ≡ map (queue_row env.now runnable) s.tasks
unfolding queue_row dispatch
tick_runnable env run_id tasks [] ts s s' h =
    let (s₁, closed, last) = >>=-eq-return (finalize_if_done env run_id (some tasks) s) _ h in
    let same : s₁.tasks ≡ s.tasks = finalize_if_done-tasks env run_id tasks s s₁ closed in
    let end : s₁ ≡ s' = ground arith in
    ap (λ (x : Session). x.tasks) (sym end) ∙ same ∙ sym (map-same _ s.tasks (λ r. refl))
tick_runnable env run_id tasks (t ∷ runnable) ts s s' h =
    let end : publish_all (t ∷ runnable) (queue_all env.now (t ∷ runnable) s) ≡ s' = ground arith in
    ap (λ (x : Session). x.tasks) (sym end)
    ∙ publish_all-tasks (t ∷ runnable) (queue_all env.now (t ∷ runnable) s)
    ∙ queue_all-tasks env.now (t ∷ runnable) s

-- A tick that returns has queued, at its time, exactly the run's pending tasks all of whose
-- dependencies had succeeded, and left every other row as it was; if the run is cancelled it has left
-- all rows as they were. (Task ids are unique.)
pub resolve-tasks :
    (env : Env) (run_id : ℕ) (s s' : Session) (ts : List Task)
    → HasUniqueIds s.tasks
    → resolve env run_id s ≡ return (ts, s')
    → s'.tasks ≡ (
        if was_cancelled (get_run run_id s)
        then s.tasks
        else map (tick_row env run_id (done_names run_id s.tasks)) s.tasks)
unfolding resolve
resolve-tasks env run_id s s' ts unique h = elim (Bool-cases (was_cancelled (get_run run_id s))) [
  | inl stopped ↦ ground arith
  | inr active ↦ rw active (
      tick_runnable env run_id (load_tasks env run_id s)
        (get_runnable_tasks (load_tasks env run_id s)) ts s s' (rw active at h)
      ∙ tick-rows env run_id s unique)
]
