-- ===== src/Recovery/Beats.antt =====
-- What a heartbeat of app/recovery.py does to the workers' rows.
use auto_bot.Models.{WorkerRow, WorkerStatus}
use auto_bot.Scheduler.Session.{Session, Env}
use auto_bot.Recovery.{
  get_worker, change_worker, new_worker, status_or, beat, heartbeat, register_worker,
}
use auto_bot.Prelude.{
  Option-cases, inr, refl, inl, Bool-cases, eq_iff, arith, false, [], ◌∷◌, if◌then◌else◌, ◌++◌, map,
  none, ◌==◌, some, ◌≡◌, find, List, Option, String,
}

-- The row of the worker after the heartbeat.
abbrev pub beaten : Env → String → Option WorkerStatus → Option WorkerRow → WorkerRow
beaten env worker_id status none = new_worker env.now worker_id (status_or status WorkerStatus.idle)
beaten env worker_id status (some w) = beat env.now status w

abbrev pub row_of : String → List WorkerRow → Option WorkerRow
row_of v ws = find (λ w. w.id == v) ws

row-append :
    (v : String) (w : WorkerRow) (ws : List WorkerRow)
    → row_of w.id ws ≡ none
    → row_of v (ws ++ w ∷ []) ≡ (if w.id == v then some w else row_of v ws)
row-append v w [] h = refl
row-append v w (x ∷ ws) h =
    ground (arith, row-append v w ws, eq_iff x.id v, eq_iff w.id v, eq_iff x.id w.id)

row-other :
    (v k : String) (f : WorkerRow → WorkerRow) (ws : List WorkerRow)
    → ((x : WorkerRow) → (f x).id ≡ x.id)
    → k == v ≡ false
    → row_of v (map (change_worker k f) ws) ≡ row_of v ws
row-other v k f [] keeps other = refl
row-other v k f (x ∷ ws) keeps other =
    ground (arith, row-other v k f ws keeps, keeps x, eq_iff x.id v, eq_iff x.id k, eq_iff k v)

row-change :
    (v k : String) (f : WorkerRow → WorkerRow) (r : WorkerRow) (ws : List WorkerRow)
    → ((x : WorkerRow) → (f x).id ≡ x.id)
    → row_of k ws ≡ some r
    → row_of v (map (change_worker k f) ws) ≡ (if k == v then some (f r) else row_of v ws)
row-change v k f r [] keeps h = cc
row-change v k f r (x ∷ ws) keeps h = elim (Bool-cases (x.id == k)) [
  | inl here ↦
      let same : x ≡ r = ground arith in
      ground (arith, row-other v k f ws keeps, keeps x, eq_iff x.id v, eq_iff x.id k, eq_iff k v)
  | inr other ↦ ground (
    arith,
    row-change v k f r ws keeps (rw other at h),
    keeps x,
    eq_iff x.id v,
    eq_iff x.id k,
    eq_iff k v,
  )
]

-- After a heartbeat the worker's row holds the time, and the status that was given, or else its old one
-- (`idle` for a new worker); the row of every other worker is as it was.
pub heartbeat_lem :
    (env : Env) (worker_id : String) (status : Option WorkerStatus) (s : Session) (v : String)
    → get_worker v (heartbeat env worker_id status s) ≡ (
        if worker_id == v
        then some (beaten env worker_id status (get_worker worker_id s))
        else get_worker v s)
unfolding heartbeat register_worker
heartbeat_lem env worker_id status s v = elim (Option-cases (get_worker worker_id s)) [
  | inl new ↦ rw (new, new) (row-append v (beaten env worker_id status none) s.workers new)
  | inr (w, found) ↦
      rw found (row-change v worker_id (beat env.now status) w s.workers (λ x. refl) found)
]

pub register_worker-heartbeat :
    (env : Env) (worker_id : String) (status : WorkerStatus) (s : Session)
    → heartbeat env worker_id (some status) s ≡ register_worker env worker_id status s
unfolding heartbeat register_worker
register_worker-heartbeat env worker_id status s = elim (Option-cases (get_worker worker_id s)) [
  | inl new ↦ rw (new, new) refl
  | inr (w, found) ↦ rw found refl
]
