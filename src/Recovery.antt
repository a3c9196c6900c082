-- ===== src/Recovery.antt =====
-- app/recovery.py: heartbeats, and the sweeps that put lost tasks back on the retry path. The time is
-- the call's `env.now`; a timeout is a number of microseconds.
pub mod Returns
pub mod Overdue
pub mod Reported
pub mod Sweep
pub mod Beats
pub mod Alive
use auto_bot.Prelude.{
  ℕ, ◌+◌, String, List, [], ◌∷◌, ◌++◌, map, Option, none, some, Bool, true, false, not, ◌&&◌, leb,
  ltb, keep, find, ◌==◌, if◌then◌else◌,
}
use auto_bot.Prelude.Names.{mem}
use auto_bot.Models.{
  ErrorText, worker_gone, stuck_queued, Task, WorkerRow, WorkerStatus, is_running, is_queued,
}
use auto_bot.Scheduler.Session.{Session, Env, Outcome, return, ◌>>=◌}
use auto_bot.Scheduler.Operations.{report_result}

-- session.get(WorkerRow, worker_id)
abbrev pub get_worker : String → Session → Option WorkerRow
get_worker worker_id s = find (λ w. w.id == worker_id) s.workers

abbrev pub change_worker : String → (WorkerRow → WorkerRow) → WorkerRow → WorkerRow
change_worker worker_id f w = if w.id == worker_id then f w else w

abbrev pub update_worker : String → (WorkerRow → WorkerRow) → Session → Session
update_worker worker_id f s = record s { workers = map (change_worker worker_id f) s.workers }

abbrev pub refresh : ℕ → WorkerStatus → WorkerRow → WorkerRow
refresh now status w = record w { last_heartbeat = some now; status = status }

abbrev pub new_worker : ℕ → String → WorkerStatus → WorkerRow
new_worker now worker_id status = record {
  id = worker_id;
  last_heartbeat = some now;
  status = status;
}

abbrev pub register_found : Env → String → WorkerStatus → Option WorkerRow → Session → Session
register_found env worker_id status none s = record s {
  workers = s.workers ++ new_worker env.now worker_id status ∷ [];
}
register_found env worker_id status (some w) s = update_worker worker_id (refresh env.now status) s

unfoldable pub register_worker : Env → String → WorkerStatus → Session → Session
register_worker env worker_id status s =
    register_found env worker_id status (get_worker worker_id s) s

abbrev pub status_or : Option WorkerStatus → WorkerStatus → WorkerStatus
status_or none status = status
status_or (some status) _ = status

abbrev pub beat : ℕ → Option WorkerStatus → WorkerRow → WorkerRow
beat now status w = record w { last_heartbeat = some now; status = status_or status w.status }

abbrev pub beat_found : Env → String → Option WorkerStatus → Option WorkerRow → Session → Session
unfolding register_worker
beat_found env worker_id status none s =
    register_worker env worker_id (status_or status WorkerStatus.idle) s
beat_found env worker_id status (some w) s = update_worker worker_id (beat env.now status) s

unfoldable pub heartbeat : Env → String → Option WorkerStatus → Session → Session
heartbeat env worker_id status s = beat_found env worker_id status (get_worker worker_id s) s

-- last_heartbeat < now - timeout, or no heartbeat at all.
abbrev pub is_silent : ℕ → ℕ → Option ℕ → Bool
is_silent now timeout none = true
is_silent now timeout (some at) = ltb (at + timeout) now

unfoldable pub stale_workers : Env → ℕ → Session → List WorkerRow
stale_workers env timeout s = keep (λ w. is_silent env.now timeout w.last_heartbeat) s.workers

-- last_heartbeat is not None and last_heartbeat >= now - timeout
abbrev pub is_alive : ℕ → ℕ → Option ℕ → Bool
is_alive now timeout none = false
is_alive now timeout (some at) = leb now (at + timeout)

abbrev pub alive_workers : Env → ℕ → Session → List String
alive_workers env timeout s =
    map (λ w. w.id) (keep (λ w. is_alive env.now timeout w.last_heartbeat) s.workers)

-- worker_id IS NULL OR worker_id NOT IN alive
abbrev pub is_gone : List String → Option String → Bool
is_gone alive none = true
is_gone alive (some worker_id) = not (mem worker_id alive)

abbrev pub is_orphan : List String → Task → Bool
is_orphan alive t = is_running t.status && is_gone alive t.worker_id

abbrev pub is_stuck : ℕ → ℕ → Task → Bool
is_stuck now timeout t = is_queued t.status && waits_since t.dispatched_at
  where
    -- dispatched_at IS NOT NULL AND dispatched_at < now - timeout
    waits_since : Option ℕ → Bool
    waits_since none = false
    waits_since (some at) = ltb (at + timeout) now

-- What the orphan sweep selects, and skips where another sweeper holds the row's lock.
abbrev pub is_lost : List String → (ℕ → Bool) → Task → Bool
is_lost alive unlocked t = is_orphan alive t && unlocked t.id

-- The loop of both sweeps: a report of failure for each task, with its text.
pub report_all : Env → (Task → ErrorText) → List Task → Session → Outcome Session
report_all env text [] s = return s
report_all env text (t ∷ ts) s =
    report_result env t false (some (text t)) s >>= report_all env text ts

-- The rows that a sweep finds are the ones that no other sweeper has locked: `unlocked` says which ids these are.
unfoldable pub reclaim_orphaned_tasks :
    Env → ℕ → (ℕ → Bool) → Session → Outcome (List Task × Session)
unfolding report_all
reclaim_orphaned_tasks env timeout unlocked s =
    let orphaned = keep (is_lost (alive_workers env timeout s) unlocked) s.tasks in
    do s' ← report_all env (λ t. worker_gone t.worker_id) orphaned s; return (orphaned, s')

unfoldable pub reclaim_stuck_queued_tasks :
    Env → ℕ → (ℕ → Bool) → Session → Outcome (List Task × Session)
unfolding report_all
reclaim_stuck_queued_tasks env timeout unlocked s =
    let stuck = keep (λ t. is_stuck env.now timeout t && unlocked t.id) s.tasks in
    do s' ← report_all env (λ t. stuck_queued timeout) stuck s; return (stuck, s')

-- The two sweeps of one round of `HeartbeatThread.run`.
abbrev pub sweep : Env → ℕ → ℕ → (ℕ → Bool) → Session → Outcome Session
sweep env heartbeat_timeout queued_timeout unlocked s = do
  (orphaned, s') ← reclaim_orphaned_tasks env heartbeat_timeout unlocked s
  (stuck, s'') ← reclaim_stuck_queued_tasks env queued_timeout unlocked s'
  return s''

-- One round before the commit; `due` says whether RECOVERY_INTERVAL has passed since the last sweep.
unfoldable pub heartbeat_round :
    Env → String → ℕ → ℕ → (ℕ → Bool) → Bool → Session → Outcome Session
unfolding heartbeat
heartbeat_round env worker_id heartbeat_timeout queued_timeout unlocked due s =
    let beaten = heartbeat env worker_id none s in
    if due then sweep env heartbeat_timeout queued_timeout unlocked beaten else return beaten
