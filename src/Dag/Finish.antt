-- ===== src/Dag/Finish.antt =====
-- When a run is finished, and what it has come to.
use auto_bot.Prelude.{
  ℕ, zero, suc, ◌<◌, ◌≡◌, ◌≢◌, refl, sym, subst, String, List, [], ◌∷◌, map, Bool, true, false, not,
  inl, inr, ◌==◌, ◌||◌, any, all, keep, arith, eq_iff, eq_refl, Bool-cases, All, All-map,
}
use auto_bot.Prelude.Names.{mem}
use auto_bot.Models.{Task, TaskStatus, is_pending, is_queued, is_running, is_success, is_failed}
use auto_bot.Dag.Runnable.{completed_names, is_runnable, is_run_finished, is_run_failed}

-- The rows of one run of a valid definition, none of them cancelled: the dependencies of each are
-- names of rows, and a rank falls along every dependency.
abbrev pub IsRunOf : (String → ℕ) → List Task → Task → Type 0
IsRunOf rank tasks t =
    (t.status ≢ TaskStatus.cancelled)
    × ((d : String)
        → mem d t.depends_on ≡ true
        → (mem d (map (λ u. u.task_name) tasks) ≡ true) × (rank d < rank t.task_name))

is_all_Within :
    (done deps : List String)
    → ((d : String) → mem d deps ≡ true → mem d done ≡ true)
    → all (λ d. mem d done) deps ≡ true
is_all_Within done [] h = refl
is_all_Within done (d ∷ deps) h =
    ground (arith, h d, eq_refl d, is_all_Within done deps (λ e m. h e (ground arith)))

-- A name whose rows have all succeeded is completed.
mem-completed :
    (x : String) (tasks : List Task)
    → mem x (map (λ t. t.task_name) tasks) ≡ true
    → All (λ t. t.task_name == x ≡ true → is_success t.status ≡ true) tasks
    → mem x (completed_names tasks) ≡ true
unfolding completed_names
mem-completed x [] m h = cc
mem-completed x (t ∷ ts) m h = ground (arith, mem-completed x ts, h.0)

-- Nothing runnable: every row fails the test.
none_runnable :
    (p : Task → Bool) (tasks : List Task) → keep p tasks ≡ [] → All (λ t. p t ≡ false) tasks
none_runnable p [] h = tt
none_runnable p (t ∷ ts) h = (ground arith, none_runnable p ts (ground arith))

-- What is known of each row of a run with nothing in flight, no failure and nothing runnable.
abbrev IsIdle : (String → ℕ) → List Task → Task → Type 0
IsIdle rank tasks t =
    IsRunOf rank tasks t
    × (is_queued t.status || is_running t.status ≡ false)
    × (is_failed t.status ≡ false)
    × (is_runnable (completed_names tasks) t ≡ false)

only_success :
    (st : TaskStatus)
    → st ≢ TaskStatus.cancelled
    → is_queued st || is_running st ≡ false
    → is_failed st ≡ false
    → is_pending st ≡ false
    → is_success st ≡ true
only_success TaskStatus.success c b f p = refl
only_success TaskStatus.cancelled c b f p = absurd (c refl)
only_success TaskStatus.pending c b f p = cc
only_success TaskStatus.queued c b f p = cc
only_success TaskStatus.running c b f p = cc
only_success TaskStatus.failed c b f p = cc

not_pending :
    (done : List String) (t : Task)
    → all (λ d. mem d done) t.depends_on ≡ true
    → is_runnable done t ≡ false
    → is_pending t.status ≡ false
unfolding is_runnable
not_pending done t h r = ground arith

module _ (rank : String → ℕ) (tasks : List Task) (idle : All (IsIdle rank tasks) tasks) where
  -- By induction on the rank: a row all of whose dependencies have succeeded is not pending.
  succeeded_below :
      (n : ℕ) (t : Task) → rank t.task_name < n → IsIdle rank tasks t → is_success t.status ≡ true
  succeeded_below zero t below h = absurd (omega arith)
  succeeded_below (suc n) t below h = only_success t.status h.0.0 h.1 h.2 (
      not_pending (completed_names tasks) t
        (is_all_Within (completed_names tasks) t.depends_on (λ d dep.
          mem-completed d tasks (h.0.1 d dep).0 (
            All-map
              (λ u hu same.
                succeeded_below n u
                  (subst (λ x. rank x < n) (sym ((eq_iff u.task_name d).0 same))
                    (omega (arith, (h.0.1 d dep).1)))
                  hu)
              tasks idle)))
        h.3)

  all_succeeded :
      (rows : List Task) → All (IsIdle rank tasks) rows → all (λ t. is_success t.status) rows ≡ true
  all_succeeded [] h = refl
  all_succeeded (t ∷ rows) h =
      ground (
        arith,
        succeeded_below (suc (rank t.task_name)) t (omega arith) h.0,
        all_succeeded rows h.1,
      )

any-All : (p : Task → Bool) (ts : List Task) → any p ts ≡ false → All (λ t. p t ≡ false) ts
any-All p [] h = tt
any-All p (t ∷ ts) h = (ground arith, any-All p ts (ground arith))

rows-IsIdle :
    (rank : String → ℕ) (tasks rows : List Task)
    → All (IsRunOf rank tasks) rows
    → All (λ t. is_queued t.status || is_running t.status ≡ false) rows
    → All (λ t. is_failed t.status ≡ false) rows
    → All (λ t. is_runnable (completed_names tasks) t ≡ false) rows
    → All (IsIdle rank tasks) rows
rows-IsIdle rank tasks [] a b c d = tt
rows-IsIdle rank tasks (t ∷ ts) a b c d =
    ((a.0, b.0, c.0, d.0), rows-IsIdle rank tasks ts a.1 b.1 c.1 d.1)

failed_or_success :
    (ts : List Task)
    → all (λ t. is_success t.status) ts ≡ true
    → any (λ t. is_failed t.status) ts ≡ false
failed_or_success [] h = refl
failed_or_success (t ∷ ts) h = ground (arith, failed_or_success ts)

-- A finished run of a valid definition, none of whose tasks is cancelled, has a failed task exactly if
-- not all of its tasks have succeeded: a run is closed as completed only when everything is done.
pub is_run_finished-is_run_failed :
    (rank : String → ℕ) (tasks : List Task)
    → All (IsRunOf rank tasks) tasks
    → is_run_finished tasks ≡ true
    → is_run_failed tasks ≡ not (all (λ t. is_success t.status) tasks)
unfolding is_run_finished is_run_failed
is_run_finished-is_run_failed rank tasks rows h =
    elim (Bool-cases (all (λ t. is_success t.status) tasks)) [
      | inl everything ↦ rw everything (failed_or_success tasks everything)
      | inr partial ↦ elim (Bool-cases (any (λ t. is_failed t.status) tasks)) [
        | inl failure ↦ rw (partial, failure)
        | inr clean ↦
            let busy : any (λ t. is_queued t.status || is_running t.status) tasks ≡ false =
              ground arith in
            let waits : keep (is_runnable (completed_names tasks)) tasks ≡ [] = ground arith in
            let idle =
              rows-IsIdle rank tasks tasks rows (any-All _ tasks busy) (any-All _ tasks clean)
                (none_runnable _ tasks waits) in
            cc (all_succeeded rank tasks idle tasks idle)
      ]
    ]
