-- ===== src/Scheduler/Claim.antt =====
-- A task is taken by one worker.
use auto_bot.Prelude.{
  ℕ, ◌≡◌, refl, String, List, [], ◌∷◌, map, some, true, false, keep, eqb, length, if◌then◌else◌,
  arith, inl, inr, find, eqb_iff, Bool-cases,
}
use auto_bot.Models.{Task, is_queued}
use auto_bot.Scheduler.Session.{Session, Env, get_task}
use auto_bot.Scheduler.Operations.{claim, claimable, mark_running}
use auto_bot.Scheduler.Rows.{has_id, HasUniqueIds}
use auto_bot.Scheduler.Written.{running_on}

abbrev pub claim_row : Env → ℕ → String → Task → Task
claim_row env task_id worker t = if claimable task_id t then mark_running env.now worker t else t

none_claimable :
    (env : Env) (task_id : ℕ) (w : String) (ts : List Task)
    → keep (claimable task_id) (map (claim_row env task_id w) ts) ≡ []
none_claimable env task_id w [] = refl
none_claimable env task_id w (t ∷ ts) = ground (arith, none_claimable env task_id w ts)

unclaimed_same :
    (env : Env) (task_id : ℕ) (w : String) (ts : List Task)
    → keep (claimable task_id) ts ≡ []
    → map (claim_row env task_id w) ts ≡ ts
unclaimed_same env task_id w [] h = refl
unclaimed_same env task_id w (t ∷ ts) h = ground (arith, unclaimed_same env task_id w ts)

-- Once a worker has claimed a task, or has found it taken, no claim of that task wins, at any time and
-- by any worker, and none changes the tables.
pub claim-claim :
    (env env' : Env) (task_id : ℕ) (w w' : String) (s : Session)
    → claim env' task_id w' (claim env task_id w s).1 ≡ (false, (claim env task_id w s).1)
unfolding claim
claim-claim env env' task_id w w' s =
    let after = map (claim_row env task_id w) s.tasks in
    let idle = none_claimable env task_id w s.tasks in
    λ i. (eqb (length (idle i)) 1, record s { tasks = unclaimed_same env' task_id w' after idle i })

absent_claimable :
    (task_id : ℕ) (ts : List Task) → has_id task_id ts ≡ false → keep (claimable task_id) ts ≡ []
absent_claimable task_id [] h = refl
absent_claimable task_id (t ∷ ts) h = ground (arith, absent_claimable task_id ts)

claim_at :
    (env : Env) (task_id : ℕ) (w : String) (t : Task) (ts : List Task)
    → HasUniqueIds ts
    → find (λ r. eqb r.id task_id) ts ≡ some t
    → (eqb (length (keep (claimable task_id) ts)) 1 ≡ is_queued t.status)
      × (find (λ r. eqb r.id task_id) (map (claim_row env task_id w) ts)
          ≡ some (if is_queued t.status then mark_running env.now w t else t))
claim_at env task_id w t [] unique h = cc
claim_at env task_id w t (r ∷ ts) unique h = elim (Bool-cases (eqb r.id task_id)) [
  | inl here ↦ claim_here (ground arith) here
  | inr other ↦
      let (wins, row) = claim_at env task_id w t ts unique.1 (rw other at h) in
      (ground arith, ground arith)
]
  where
    claim_here :
        r ≡ t
        → eqb r.id task_id ≡ true
        → (eqb (length (keep (claimable task_id) (r ∷ ts))) 1 ≡ is_queued t.status)
          × (find (λ r. eqb r.id task_id) (map (claim_row env task_id w) (r ∷ ts))
              ≡ some (if is_queued t.status then mark_running env.now w t else t))
    claim_here same here = (
      ground (arith, eqb_iff r.id task_id, absent_claimable task_id ts),
      ground (arith, eqb_iff r.id task_id),
    )

-- A claim of a task wins exactly when its row is queued; the row is then running on that worker, and
-- otherwise as it was.
pub claim_lem :
    (env : Env) (task_id : ℕ) (w : String) (s : Session) (t : Task)
    → HasUniqueIds s.tasks
    → get_task task_id s ≡ some t
    → ((claim env task_id w s).0 ≡ is_queued t.status)
      × (get_task task_id (claim env task_id w s).1
          ≡ some (if is_queued t.status then running_on env.now w t else t))
unfolding claim
claim_lem env task_id w s t unique found = claim_at env task_id w t s.tasks unique found
