-- ===== src/Recovery/Alive.antt =====
-- The heartbeats of app/recovery.py keep a worker's tasks from being reclaimed.
use auto_bot.Prelude.{
  [], refl, none, inr, ◌∷◌, eq_iff, eq_refl, keep, inl, ◌≢◌, arith, map, All, ◌∙◌, ◌==◌, true, ◌+◌,
  ap, Bool-cases, ◌≤◌, some, Bool, ◌≡◌, subst, Option, List, String, ℕ,
}
use auto_bot.Scheduler.Session.{Session, Env, return}
use auto_bot.Models.{worker_gone, Task, WorkerStatus, WorkerRow}
use auto_bot.Recovery.{
  alive_workers, is_gone, is_lost, reclaim_orphaned_tasks, register_worker, is_alive, heartbeat,
  get_worker,
}
use auto_bot.Prelude.Names.{mem}
use auto_bot.Recovery.Sweep.{All-keep}
use auto_bot.Recovery.Beats.{heartbeat_lem, beaten, register_worker-heartbeat, row_of}
use auto_bot.Recovery.Returns.{report_all-ReturnsRuns, has_run}

mem-alive :
    (now timeout : ℕ) (w : WorkerRow) (v : String) (ws : List WorkerRow)
    → row_of v ws ≡ some w
    → is_alive now timeout w.last_heartbeat ≡ true
    → mem v (map (λ (x : WorkerRow). x.id) (keep (λ x. is_alive now timeout x.last_heartbeat) ws))
      ≡ true
mem-alive now timeout w v [] found h = cc
mem-alive now timeout w v (x ∷ ws) found h = elim (Bool-cases (x.id == v)) [
  | inl here ↦ let same : x ≡ w = ground arith in ground arith
  | inr other ↦ ground (arith, mem-alive now timeout w v ws (rw other at found))
]

-- The worker has a row, with a heartbeat not before `start`.
abbrev HasBeaten : ℕ → String → Session → Type 0
HasBeaten start worker_id s =
    (w : WorkerRow) × (get_worker worker_id s ≡ some w)
    × ((at : ℕ) × (w.last_heartbeat ≡ some at) × (start ≤ at))

heartbeat-HasBeaten :
    (env : Env) (worker_id : String) (status : Option WorkerStatus) (s : Session)
    → HasBeaten env.now worker_id (heartbeat env worker_id status s)
heartbeat-HasBeaten env worker_id status s =
    let old = get_worker worker_id s in
    (
      beaten env worker_id status old,
      heartbeat_lem env worker_id status s worker_id ∙ ground (arith, eq_refl worker_id),
      (env.now, at_now old, omega arith),
    )
  where
    at_now : (o : Option WorkerRow) → (beaten env worker_id status o).last_heartbeat ≡ some env.now
    at_now none = refl
    at_now (some w) = refl

-- What may happen to the tables from a time on: workers register or beat, at that time or later, and
-- other transactions leave the workers' rows as they are.
pub data Since (start : ℕ) (s : Session) : Session → Type 0 where
  nothing : Since start s s
  beats :
      {s' : Session} (env : Env) (worker_id : String) (status : Option WorkerStatus)
      → start ≤ env.now
      → Since start s s'
      → Since start s (heartbeat env worker_id status s')
  registers :
      {s' : Session} (env : Env) (worker_id : String) (status : WorkerStatus)
      → start ≤ env.now
      → Since start s s'
      → Since start s (register_worker env worker_id status s')
  others : {s' s'' : Session} → s''.workers ≡ s'.workers → Since start s s' → Since start s s''

beats-HasBeaten :
    (start : ℕ) (env : Env) (v worker_id : String) (status : Option WorkerStatus) (s : Session)
    → start ≤ env.now
    → HasBeaten start v s
    → HasBeaten start v (heartbeat env worker_id status s)
beats-HasBeaten start env v worker_id status s later (w, found, beat) =
    elim (Bool-cases (worker_id == v)) [
      | inl same ↦
          let here : worker_id ≡ v = (eq_iff worker_id v).0 same in
          let (w', row, (at, stamp, recent)) = heartbeat-HasBeaten env worker_id status s in
          subst (λ x. HasBeaten start x (heartbeat env worker_id status s)) here
            (w', row, (at, stamp, omega arith))
      | inr other ↦ (w, heartbeat_lem env worker_id status s v ∙ rw other found, beat)
    ]

Since-HasBeaten :
    (start : ℕ) (v : String) (s s' : Session)
    → Since start s s'
    → HasBeaten start v s
    → HasBeaten start v s'
Since-HasBeaten start v s s' nothing h = h
Since-HasBeaten start v s _ (beats {s'} env worker_id status later before) h =
    beats-HasBeaten start env v worker_id status s' later (Since-HasBeaten start v s s' before h)
Since-HasBeaten start v s _ (registers {s'} env worker_id status later before) h =
    subst (HasBeaten start v) (register_worker-heartbeat env worker_id status s') (
      beats-HasBeaten start env v worker_id (some status) s' later
        (Since-HasBeaten start v s s' before h))
Since-HasBeaten start v s s'' (others {s'} same before) h =
    let (w, found, beat) = Since-HasBeaten start v s s' before h in
    (w, ap (row_of v) same ∙ found, beat)

orphans_of_others :
    (worker_id : String) (alive : List String) (unlocked : ℕ → Bool) (ts : List Task)
    → mem worker_id alive ≡ true
    → All (λ t. t.worker_id ≢ some worker_id) (keep (is_lost alive unlocked) ts)
orphans_of_others worker_id alive unlocked [] h = tt
orphans_of_others worker_id alive unlocked (t ∷ ts) h =
    elim (Bool-cases (is_lost alive unlocked t)) [
      | inl lost ↦ rw lost (
        (λ holds. let seen : is_gone alive (some worker_id) ≡ true = ground arith in ground arith),
        orphans_of_others worker_id alive unlocked ts h,
      )
      | inr safe ↦ rw safe (orphans_of_others worker_id alive unlocked ts h)
    ]

-- A sweep for orphans returns, and reclaims no task of a worker that has sent a heartbeat not longer than
-- the timeout ago, whatever other workers and transactions have done to the tables in between. (They
-- leave the workers' rows as they are, but for the heartbeats and the registrations. The runs of the
-- tasks exist, and each task allows 1024 retries at most.)
pub heartbeat-reclaim_orphaned_tasks :
    (env later : Env) (worker_id : String) (status : Option WorkerStatus) (timeout : ℕ)
    (unlocked : ℕ → Bool) (s s' : Session)
    → Since env.now (heartbeat env worker_id status s) s'
    → later.now ≤ env.now + timeout
    → All (λ t. (has_run t.run_id s' ≡ true) × (t.max_retries ≤ 1024)) s'.tasks
    → (ts : List Task) × (s'' : Session) × (reclaim_orphaned_tasks later timeout unlocked s'
        ≡ return (ts, s''))
      × All (λ t. t.worker_id ≢ some worker_id) ts
heartbeat-reclaim_orphaned_tasks env later worker_id status timeout unlocked s s' since fresh h =
    let (w, found, (at, stamp, recent)) =
      Since-HasBeaten env.now worker_id (heartbeat env worker_id status s) s' since
        (heartbeat-HasBeaten env worker_id status s) in
    let seen : is_alive later.now timeout w.last_heartbeat ≡ true = rw stamp (ground arith) in
    let alive = mem-alive later.now timeout w worker_id s'.workers found seen in
    let lost = is_lost (alive_workers later timeout s') unlocked in
    let (s'', reported, _) =
      report_all-ReturnsRuns later (λ t. worker_gone t.worker_id) (keep lost s'.tasks) s'
        (All-keep _ lost s'.tasks h) in
    (
      keep lost s'.tasks,
      s'',
      (unfold reclaim_orphaned_tasks in rw reported refl),
      orphans_of_others worker_id (alive_workers later timeout s') unlocked s'.tasks alive,
    )
