-- ===== src/Recovery/Sweep.antt =====
-- What a sweep of app/recovery.py does to the tables.
use auto_bot.Prelude.{
  ◌&&◌, ◌≤◌, ℕ, ◌≡◌, refl, subst, List, [], ◌∷◌, Bool, true, false, keep, arith, inl, inr,
  Bool-cases, All, All-map, String,
}
use auto_bot.Models.{stuck_queued, Task, worker_gone}
use auto_bot.Scheduler.Session.{Session, Env, return, >>=-eq-return}
use auto_bot.Scheduler.Rows.{HasUniqueIds}
use auto_bot.Recovery.Returns.{has_run, report_all-ReturnsRuns}
use auto_bot.Recovery.{
  reclaim_stuck_queued_tasks, is_stuck, report_all, is_orphan, is_lost, alive_workers,
  reclaim_orphaned_tasks,
}
use auto_bot.Recovery.Overdue.{keep-IsOverdue, IsOverdue-is_stuck, IsOverdue}
use auto_bot.Recovery.Reported.{Listed-keep, report_all-none, Clears}

orphan-Clears : (env : Env) (alive : List String) → Clears env (is_orphan alive)
orphan-Clears env alive = record {
  failed = λ error r. refl;
  retried = λ n error d r. refl;
  queued = λ r. refl;
}

stuck-Clears : (env : Env) (timeout : ℕ) → Clears env (is_stuck env.now timeout)
stuck-Clears env timeout = record {
  failed = λ error r. refl;
  retried = λ n error d r. ground arith;
  queued = λ r. ground arith;
}

reclaim_orphaned_tasks-none :
    (env : Env) (timeout : ℕ) (unlocked : ℕ → Bool) (s s' : Session) (ts : List Task)
    → HasUniqueIds s.tasks
    → reclaim_orphaned_tasks env timeout unlocked s ≡ return (ts, s')
    → All (λ r. is_lost (alive_workers env timeout s) unlocked r ≡ false) s'.tasks
unfolding reclaim_orphaned_tasks
reclaim_orphaned_tasks-none env timeout unlocked s s' ts unique h =
    let alive = alive_workers env timeout s in
    let orphaned = keep (is_lost alive unlocked) s.tasks in
    let (s₁, reported, last) =
      >>=-eq-return (report_all env (λ t. worker_gone t.worker_id) orphaned s) _ h in
    let end : s₁ ≡ s' = ground arith in
    subst (λ x. All (λ r. is_lost alive unlocked r ≡ false) x.tasks) end
      (report_all-none (is_orphan alive) unlocked env (orphan-Clears env alive) _ orphaned s s₁
        unique (Listed-keep (is_orphan alive) unlocked orphaned s.tasks (λ i e. e)) reported)

pub All-keep {ℓ} :
    (P : Task → Type ℓ) (p : Task → Bool) (ts : List Task) → All P ts → All P (keep p ts)
All-keep P p [] h = tt
All-keep P p (t ∷ ts) h = elim (Bool-cases (p t)) [
  | inl kept ↦ rw kept (h.0, All-keep P p ts h.1)
  | inr dropped ↦ rw dropped (All-keep P p ts h.1)
]

-- A sweep for orphans returns, and after it no task is left running on a worker that the sweep found
-- silent or gone, but for the rows that another sweeper held. (Task ids are unique, the runs of the
-- tasks exist, and each task allows 1024 retries at most.)
pub reclaim_orphaned_tasks_lem :
    (env : Env) (timeout : ℕ) (unlocked : ℕ → Bool) (s : Session)
    → HasUniqueIds s.tasks
    → All (λ t. (has_run t.run_id s ≡ true) × (t.max_retries ≤ 1024)) s.tasks
    → (ts : List Task) × (s' : Session) × (reclaim_orphaned_tasks env timeout unlocked s
        ≡ return (ts, s'))
      × All (λ r. is_lost (alive_workers env timeout s) unlocked r ≡ false) s'.tasks
reclaim_orphaned_tasks_lem env timeout unlocked s unique h =
    let lost = is_lost (alive_workers env timeout s) unlocked in
    let (s', reported, _) =
      report_all-ReturnsRuns env (λ t. worker_gone t.worker_id) (keep lost s.tasks) s
        (All-keep _ lost s.tasks h) in
    let returned : reclaim_orphaned_tasks env timeout unlocked s ≡ return (keep lost s.tasks, s') =
      unfold reclaim_orphaned_tasks in rw reported in
    (
      keep lost s.tasks,
      s',
      returned,
      reclaim_orphaned_tasks-none env timeout unlocked s s' (keep lost s.tasks) unique returned,
    )

-- A sweep for stuck tasks returns, and after it no task is left queued whose dispatch lies further back
-- than the timeout, but for the rows that another sweeper held; each task that the sweep reclaims
-- and returns was such a task. (Task ids are unique, the runs of the tasks exist, and each task allows
-- 1024 retries at most.)
pub reclaim_stuck_queued_tasks_lem :
    (env : Env) (timeout : ℕ) (unlocked : ℕ → Bool) (s : Session)
    → HasUniqueIds s.tasks
    → All (λ t. (has_run t.run_id s ≡ true) × (t.max_retries ≤ 1024)) s.tasks
    → (ts : List Task) × (s' : Session) × (reclaim_stuck_queued_tasks env timeout unlocked s
        ≡ return (ts, s'))
      × All (λ r. IsOverdue env.now timeout r → unlocked r.id ≡ false) s'.tasks
      × All (IsOverdue env.now timeout) ts
reclaim_stuck_queued_tasks_lem env timeout unlocked s unique h =
    let bad = is_stuck env.now timeout in
    let stuck = λ (t : Task). bad t && unlocked t.id in
    let (s', reported, _) =
      report_all-ReturnsRuns env (λ t. stuck_queued timeout) (keep stuck s.tasks) s
        (All-keep _ stuck s.tasks h) in
    (
      keep stuck s.tasks,
      s',
      (unfold reclaim_stuck_queued_tasks in rw reported refl),
      All-map (λ r none overdue. ground (arith, IsOverdue-is_stuck env.now timeout r overdue))
          s'.tasks
          (report_all-none bad unlocked env (stuck-Clears env timeout) _ (keep stuck s.tasks) s s'
            unique (Listed-keep bad unlocked (keep stuck s.tasks) s.tasks (λ i e. e)) reported),
      keep-IsOverdue env.now timeout unlocked s.tasks,
    )
