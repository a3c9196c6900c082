-- ===== src/Scheduler/Done.antt =====
-- The tables of app/scheduler.py in which a completed run is done.
pub mod Tick
use auto_bot.Scheduler.Announced.{All-change}
use auto_bot.Scheduler.Clean.{IsClean, clean_task, none_failed}
use auto_bot.Scheduler.Driven.{resolve-get_run, queue_all-get_run, publish_all-get_run}
use auto_bot.Scheduler.Rows.{
  HasUniqueIds, any-sort, any-keep, any-map, all-sort, all-keep, All-keep, All-sort,
}
use auto_bot.Dag.Finish.{IsRunOf, is_run_finished-is_run_failed}
use auto_bot.Prelude.{
  eqb_iff, sym, ◌∙◌, refl, all, ap, [], keep, ◌≢◌, arith, ◌∷◌, ◌<◌, ◌==◌, ◌&&◌, eqb, none, All-map,
  subst, any, some, map, All, false, true, List, ◌≡◌, Bool, String, Option, ℕ,
}
use auto_bot.Models.{TaskStatus, is_success, WorkflowRun, Task, RunStatus}
use auto_bot.Scheduler.Session.{Env, get_run, Session}
use auto_bot.Prelude.Names.{mem}
use auto_bot.Scheduler.Operations.{load_tasks}
use auto_bot.Dag.Runnable.{is_run_finished}
use auto_bot.Prelude.Sort.{sort}

-- The dependencies of a row are rows of its run, and the rank of a run falls along each of them.
abbrev pub IsPart : (ℕ → String → ℕ) → List Task → Task → Type 0
IsPart rank ts t =
    (d : String)
    → mem d t.depends_on ≡ true
    → (any (λ u. eqb u.run_id t.run_id && u.task_name == d) ts ≡ true)
      × (rank t.run_id d < rank t.run_id t.task_name)

abbrev completed_status : RunStatus → Bool
completed_status RunStatus.completed = true
completed_status RunStatus.pending = false
completed_status RunStatus.running = false
completed_status RunStatus.failed = false
completed_status RunStatus.cancelled = false

abbrev pub is_completed : Option WorkflowRun → Bool
is_completed none = false
is_completed (some run) = completed_status run.status

pub record IsDone (rank : ℕ → String → ℕ) (s : Session) : Type 0 where
  pub parts : All (IsPart rank s.tasks) s.tasks
  pub done :
      All (λ t. is_completed (get_run t.run_id s) ≡ true → is_success t.status ≡ true) s.tasks

-- What an update of all rows may not change.
abbrev pub KeepsPart : (Task → Task) → Type 0
KeepsPart f =
    (t : Task)
    → ((f t).run_id ≡ t.run_id)
      × ((f t).task_name ≡ t.task_name)
      × ((f t).depends_on ≡ t.depends_on)

module _ (rank : ℕ → String → ℕ) where
  map-IsPart :
      (f : Task → Task) (ts : List Task)
      → KeepsPart f
      → All (IsPart rank ts) ts
      → All (IsPart rank (map f ts)) (map f ts)
  map-IsPart f ts keeps h =
      All-change (IsPart rank ts) (IsPart rank (map f ts)) f ts
        (λ t k d dep.
          let (there, below) = k d (subst (λ deps. mem d deps ≡ true) (keeps t).2 dep) in
          rw ((keeps t).0, (keeps t).1)
            (
              any-map (λ u. eqb u.run_id t.run_id && u.task_name == d)
                  (λ u. eqb u.run_id t.run_id && u.task_name == d) f ts
                  (λ u e. rw ((keeps u).0, (keeps u).1) e) there,
              below,
            ))
        h

  pub map-IsDone :
      (f : Task → Task) (s s' : Session)
      → KeepsPart f
      → s'.tasks ≡ map f s.tasks
      → All
          (λ t. is_completed (get_run t.run_id s') ≡ true → is_success (f t).status ≡ true)
          s.tasks
      → IsDone rank s
      → IsDone rank s'
  map-IsDone f s s' keeps rows done h = record {
    parts = rw rows (map-IsPart f s.tasks keeps h.parts);
    done = rw rows (
        All-change _ _ f s.tasks
          (λ t k e. k (subst (λ i. is_completed (get_run i s') ≡ true) (keeps t).0 e)) done);
  }

  -- An update that leaves the runs alone and takes no success back.
  pub same_runs-IsDone :
      (f : Task → Task) (s s' : Session)
      → KeepsPart f
      → ((t : Task) → is_success t.status ≡ true → is_success (f t).status ≡ true)
      → s'.tasks ≡ map f s.tasks
      → s'.runs ≡ s.runs
      → IsDone rank s
      → IsDone rank s'
  same_runs-IsDone f s s' keeps stays rows runs h =
      map-IsDone f s s' keeps rows (All-map (λ t k e. stays t (k (rw runs at e))) s.tasks h.done) h

  -- The rows that a tick loads.
  mem-loaded :
      (d : String) (ts : List Task)
      → mem d (map (λ t. t.task_name) ts) ≡ any (λ t. t.task_name == d) ts
  mem-loaded d [] = refl
  mem-loaded d (t ∷ ts) = ground (arith, mem-loaded d ts)

  not_cancelled : (st : TaskStatus) → clean_task st ≡ true → st ≢ TaskStatus.cancelled
  not_cancelled st clean e = let same = ap clean_task e in cc

  both : (ts : List Task) (P Q : Task → Type 0) → All P ts → All Q ts → All (λ t. P t × Q t) ts
  both [] P Q a b = tt
  both (t ∷ ts) P Q a b = ((a.0, b.0), both ts P Q a.1 b.1)

  loaded-IsRunOf :
      (env : Env) (j : ℕ) (s : Session)
      → IsClean s
      → IsDone rank s
      → All (IsRunOf (rank j) (load_tasks env j s)) (load_tasks env j s)
  unfolding load_tasks
  loaded-IsRunOf env j s clean h =
      let le = λ (a b : Task). env.name_le a.task_name b.task_name in
      let mine = λ (t : Task). eqb t.run_id j in
      let rows = keep mine s.tasks in
      let known : (d : String)
          → mem d (map (λ t. t.task_name) (sort le rows))
            ≡ any (λ u. eqb u.run_id j && u.task_name == d) s.tasks =
        (λ d.
          mem-loaded d (sort le rows)
          ∙ any-sort (λ t. t.task_name == d) le rows
          ∙ any-keep (λ t. t.task_name == d) mine s.tasks) in
      All-sort (IsRunOf (rank j) (sort le rows)) le rows (
        All-map
          (λ t ((part, fine), at).
            let same : t.run_id ≡ j = (eqb_iff t.run_id j).0 at in
            (
              not_cancelled t.status fine,
              (λ d dep.
                  let (there, below) = part d dep in
                  (
                    known d
                        ∙ subst (λ i. any (λ u. eqb u.run_id i && u.task_name == d) s.tasks ≡ true)
                            same there,
                    subst (λ i. rank i d < rank i t.task_name) same below,
                  )),
            ))
          rows
          (All-keep (λ t. IsPart rank s.tasks t × (clean_task t.status ≡ true)) mine s.tasks
            (both s.tasks _ _ h.parts clean.tasks)))

  -- A finished run without failures has succeeded in all of its rows.
  finished-done :
      (env : Env) (j : ℕ) (s : Session)
      → IsClean s
      → IsDone rank s
      → is_run_finished (load_tasks env j s) ≡ true
      → All (λ t. eqb t.run_id j ≡ true → is_success t.status ≡ true) s.tasks
  finished-done env j s clean h finished =
      let failures =
        is_run_finished-is_run_failed (rank j) (load_tasks env j s) (loaded-IsRunOf env j s clean h)
          finished in
      let everything : all (λ t. is_success t.status) (load_tasks env j s) ≡ true =
        (let fine = none_failed env j s clean in ground (arith, failures, fine)) in
      by_load everything
    where
      by_load :
          all (λ t. is_success t.status) (load_tasks env j s) ≡ true
          → All (λ t. eqb t.run_id j ≡ true → is_success t.status ≡ true) s.tasks
      by_load e =
          unfold load_tasks in
          all-keep (λ t. is_success t.status) (λ t. eqb t.run_id j) s.tasks
            (sym (
                all-sort (λ t. is_success t.status)
                  (λ (a b : Task). env.name_le a.task_name b.task_name)
                  (keep (λ t. eqb t.run_id j) s.tasks))
              ∙ e)
