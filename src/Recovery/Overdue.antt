-- ===== src/Recovery/Overdue.antt =====
-- What the select of reclaim_stuck_queued_tasks of app/recovery.py finds.
use auto_bot.Prelude.{
  [], Bool-cases, ◌∷◌, inr, ◌&&◌, inl, keep, ◌<◌, refl, All, arith, Option-cases, ◌+◌, List, true,
  some, Bool, ◌≡◌, ℕ,
}
use auto_bot.Models.{is_queued, TaskStatus, Task}
use auto_bot.Recovery.{is_stuck}

-- A queued task that has been dispatched at a time before now less the timeout.
abbrev pub IsOverdue : ℕ → ℕ → Task → Type 0
IsOverdue now timeout t =
    (t.status ≡ TaskStatus.queued) × ((at : ℕ) × (t.dispatched_at ≡ some at) × (at + timeout < now))

status-is_queued : (status : TaskStatus) → is_queued status ≡ true → status ≡ TaskStatus.queued
status-is_queued TaskStatus.pending h = cc
status-is_queued TaskStatus.queued h = refl
status-is_queued TaskStatus.running h = cc
status-is_queued TaskStatus.success h = cc
status-is_queued TaskStatus.failed h = cc
status-is_queued TaskStatus.cancelled h = cc

is_stuck-IsOverdue :
    (now timeout : ℕ) (t : Task) → is_stuck now timeout t ≡ true → IsOverdue now timeout t
is_stuck-IsOverdue now timeout t h = elim (Option-cases t.dispatched_at) [
  | inl never ↦ ground arith
  | inr (at, dispatched) ↦
      (status-is_queued t.status (ground arith), (at, dispatched, ground arith))
]

pub IsOverdue-is_stuck :
    (now timeout : ℕ) (t : Task) → IsOverdue now timeout t → is_stuck now timeout t ≡ true
IsOverdue-is_stuck now timeout t (waiting, (at, dispatched, late)) = ground arith

pub keep-IsOverdue :
    (now timeout : ℕ) (unlocked : ℕ → Bool) (ts : List Task)
    → All (IsOverdue now timeout) (keep (λ t. is_stuck now timeout t && unlocked t.id) ts)
keep-IsOverdue now timeout unlocked [] = tt
keep-IsOverdue now timeout unlocked (t ∷ ts) =
    elim (Bool-cases (is_stuck now timeout t && unlocked t.id)) [
      | inl kept ↦
          rw kept (
            is_stuck-IsOverdue now timeout t (ground arith),
            keep-IsOverdue now timeout unlocked ts,
          )
      | inr dropped ↦ rw dropped (keep-IsOverdue now timeout unlocked ts)
    ]
