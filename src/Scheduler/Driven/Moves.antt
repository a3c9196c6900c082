-- ===== src/Scheduler/Driven/Moves.antt =====
-- Ticks and updates of app/scheduler.py, and the runs that wait for something.
use auto_bot.Dag.Runnable.{is_runnable}
use auto_bot.Models.{Task, is_running, is_run_cancelled}
use auto_bot.Recovery.Returns.{has_run, found_run, then_resolve-ReturnsRuns}
use auto_bot.Scheduler.Driven.{IsDriven, KeepsRow, map-IsDriven, resolve-get_run}
use auto_bot.Scheduler.Operations.{resolve, then_resolve, was_cancelled}
use auto_bot.Scheduler.Potential.{potential, resolve-potential}
use auto_bot.Scheduler.Progress.{in_flight, in_flight_row, IsClosed, resolve_progress}
use auto_bot.Scheduler.Rows.{HasUniqueIds, has_id, any-map}
use auto_bot.Scheduler.Session.{Session, Env, return, >>=-eq-return, get_run, get_task, change_task}
use auto_bot.Scheduler.Tick.{resolve-tasks, tick_row, done_names}
use auto_bot.Prelude.{
  ℕ, Bool, true, false, eqb, List, String, any, map, find, arith, ◌≡◌, some, ◌∷◌, [], ◌∙◌,
  Option-cases, Bool-cases, All, All-map, ◌⊎◌, inl, inr, ap, subst, sym, eqb_iff, refl,
}

abbrev pub nobody : ℕ → Bool
nobody i = false

abbrev pub just : ℕ → ℕ → Bool
just k i = eqb i k

-- A tick changes rows so that what is in flight stays so.
tick-KeepsRow : (env : Env) (j : ℕ) (done : List String) → KeepsRow (tick_row env j done)
tick-KeepsRow env j done r = (ground arith, ground arith, ground arith)

tick-in_flight :
    (env : Env) (j i : ℕ) (done : List String) (ts : List Task)
    → any (in_flight_row i) ts ≡ true
    → any (in_flight_row i) (map (tick_row env j done) ts) ≡ true
tick-in_flight env j i done ts h =
    any-map (in_flight_row i) (in_flight_row i) (tick_row env j done) ts
      (λ r e. unfold is_runnable in ground arith) h

IsClosed-same : (i : ℕ) (s s' : Session) → get_run i s' ≡ get_run i s → IsClosed i s → IsClosed i s'
IsClosed-same i s s' same (run, found, closed) = (run, same ∙ found, closed)

cancelled-IsClosed : (j : ℕ) (s : Session) → was_cancelled (get_run j s) ≡ true → IsClosed j s
cancelled-IsClosed j s h = elim (Option-cases (get_run j s)) [
  | inl gone ↦ absurd (let wrong = rw gone at h in cc)
  | inr (run, found) ↦ (run, found, let stopped = rw found at h in ground arith)
]

module _ (env : Env) (j : ℕ) (s : Session) (here : has_run j s ≡ true) where
  stopped_same :
      (ts : List Task) (s' : Session)
      → resolve env j s ≡ return (ts, s')
      → was_cancelled (get_run j s) ≡ true
      → s ≡ s'
  unfolding resolve
  stopped_same ts s' resolved stopped = let returned = rw stopped at resolved in ground arith

  settled-after :
      (ts : List Task) (s' : Session)
      → resolve env j s ≡ return (ts, s')
      → was_cancelled (get_run j s) ≡ false
      → (in_flight j s' ≡ true) ⊎ IsClosed j s'
  settled-after ts s' resolved active =
      let (run, found) = found_run j s.runs here in
      let going : is_run_cancelled run.status ≡ false = (let h = rw found at active in h) in
      let (ts', s₂, again, settled) = resolve_progress env j s run found going in
      let returned = sym again ∙ resolved in
      let same : s₂ ≡ s' = ground arith in
      subst (λ x. (in_flight j x ≡ true) ⊎ IsClosed j x) same settled

  ticked-IsDriven :
      (at_work : ℕ → Bool) (ts : List Task) (s' : Session)
      → resolve env j s ≡ return (ts, s')
      → ((i : ℕ) → has_run i s' ≡ has_run i s)
      → IsDriven at_work (just j) s
      → IsDriven at_work nobody s'
  ticked-IsDriven at_work ts s' resolved runs h = elim (Bool-cases (was_cancelled (get_run j s))) [
    | inl stopped ↦
        let same : s ≡ s' = stopped_same ts s' resolved stopped in
        subst (IsDriven at_work nobody) same (record {
          unique = h.unique;
          limits = h.limits;
          resting = h.resting;
          settled = λ i there _. elim (Bool-cases (eqb i j)) [
            | inl at ↦ inr (
                subst (λ x. IsClosed x s) (sym ((eqb_iff i j).0 at))
                  (cancelled-IsClosed j s stopped))
            | inr other ↦ h.settled i there other
          ];
        })
    | inr active ↦
        let done = done_names j s.tasks in
        let rows : s'.tasks ≡ map (tick_row env j done) s.tasks =
          (let known = resolve-tasks env j s s' ts h.unique resolved in rw active at known) in
        map-IsDriven (tick_row env j done) s s' (tick-KeepsRow env j done) rows runs
          (λ r k running. k (ground arith))
          (λ i there _. elim (Bool-cases (eqb i j)) [
            | inl at ↦
                subst (λ x. (in_flight x s' ≡ true) ⊎ IsClosed x s') (sym ((eqb_iff i j).0 at))
                  (settled-after ts s' resolved active)
            | inr other ↦ elim (h.settled i (sym (runs i) ∙ there) other) [
              | inl flying ↦ inl (rw rows (tick-in_flight env j i done s.tasks flying))
              | inr closed ↦
                  inr (IsClosed-same i s s' (resolve-get_run env j ts s s' i resolved other) closed)
            ]
          ])
          h
  ]

  -- A tick settles its run, and keeps the others settled.
  pub then_resolve-IsDriven :
      (at_work : ℕ → Bool)
      → IsDriven at_work (just j) s
      → (s' : Session) × (then_resolve env j s ≡ return s')
        × IsDriven at_work nobody s'
        × (potential s' ≡ potential s)
        × ((i : ℕ) → has_run i s' ≡ has_run i s)
  then_resolve-IsDriven at_work h =
      let (s', returned, runs) = then_resolve-ReturnsRuns env j s here in
      let ((ts, s₂), ticked, last) = >>=-eq-return (resolve env j s) _ returned in
      let end : s₂ ≡ s' = ground arith in
      let resolved : resolve env j s ≡ return (ts, s') =
        subst (λ x. resolve env j s ≡ return (ts, x)) end ticked in
      (
        s',
        returned,
        ticked-IsDriven at_work ts s' resolved runs h,
        resolve-potential env j s s' ts h.unique resolved,
        runs,
      )

-- An update of one row.
change-KeepsRow : (k : ℕ) (g : Task → Task) → KeepsRow g → KeepsRow (change_task k g)
change-KeepsRow k g keeps r = let (a, b, c) = keeps r in (ground arith, ground arith, ground arith)

-- The rows with the id of a task that is found are that task.
pub same_id :
    (k : ℕ) (ts : List Task) (t : Task)
    → HasUniqueIds ts
    → find (λ r. eqb r.id k) ts ≡ some t
    → All (λ r. eqb r.id k ≡ true → r ≡ t) ts
same_id k [] t unique h = cc
same_id k (r ∷ ts) t unique h = elim (Bool-cases (eqb r.id k)) [
  | inl here ↦
      let same : r ≡ t = ground arith in
      let at : r.id ≡ k = (eqb_iff r.id k).0 here in
      ((λ e. same), none_there ts (subst (λ j. has_id j ts ≡ false) at unique.0))
  | inr other ↦ ((λ e. absurd (ground arith)), same_id k ts t unique.1 (rw other at h))
]
  where
    none_there : (rs : List Task) → has_id k rs ≡ false → All (λ r. eqb r.id k ≡ true → r ≡ t) rs
    none_there [] e = tt
    none_there (x ∷ rs) e = ((λ d. absurd (ground arith)), none_there rs (ground arith))

any-map-All :
    (p q : Task → Bool) (f : Task → Task) (ts : List Task)
    → All (λ r. p r ≡ true → q (f r) ≡ true) ts
    → any p ts ≡ true
    → any q (map f ts) ≡ true
any-map-All p q f [] h e = cc
any-map-All p q f (t ∷ ts) h e = ground (arith, h.0, any-map-All p q f ts h.1)

-- The rows of another run than the changed task's.
change-in_flight :
    (k i : ℕ) (g : Task → Task) (t : Task) (ts : List Task)
    → HasUniqueIds ts
    → find (λ r. eqb r.id k) ts ≡ some t
    → eqb i t.run_id ≡ false
    → any (in_flight_row i) ts ≡ true
    → any (in_flight_row i) (map (change_task k g) ts) ≡ true
change-in_flight k i g t ts unique found other h =
    any-map-All (in_flight_row i) (in_flight_row i) (change_task k g) ts
      (All-map
        (λ r same e. elim (Bool-cases (eqb r.id k)) [
          | inl here ↦
              let at = ap (λ x. x.run_id) (same here) in
              absurd (ground (arith, eqb_iff r.run_id i, eqb_iff i t.run_id))
          | inr there ↦ rw there e
        ])
        ts (same_id k ts t unique found))
      h

-- The row of a task is changed so that the task no longer runs: its run is to be ticked.
pub update-IsDriven :
    (g : Task → Task) (t : Task) (s s₁ : Session)
    → KeepsRow g
    → ((r : Task) → is_running (g r).status ≡ false)
    → get_task t.id s ≡ some t
    → s₁.tasks ≡ map (change_task t.id g) s.tasks
    → s₁.runs ≡ s.runs
    → IsDriven (just t.id) nobody s
    → IsDriven nobody (just t.run_id) s₁
update-IsDriven g t s s₁ keeps rested found rows runs h =
    map-IsDriven (change_task t.id g) s s₁ (change-KeepsRow t.id g keeps) rows
      (λ i. ap (any (λ r. eqb r.id i)) runs) (λ r k running. absurd (ground (arith, rested r, k)))
      (λ i there other. elim (h.settled i (sym (ap (any (λ r. eqb r.id i)) runs) ∙ there) refl) [
        | inl flying ↦
            inl (rw rows (change-in_flight t.id i g t s.tasks h.unique found other flying))
        | inr closed ↦ inr (IsClosed-same i s s₁ (ap (find (λ r. eqb r.id i)) runs) closed)
      ])
      h

-- An update that leaves a row's status as it was.
pub same_status-IsDriven :
    (at_work : ℕ → Bool) (k : ℕ) (g : Task → Task) (s s₁ : Session)
    → KeepsRow g
    → ((r : Task) → (g r).status ≡ r.status)
    → s₁.tasks ≡ map (change_task k g) s.tasks
    → s₁.runs ≡ s.runs
    → IsDriven at_work nobody s
    → IsDriven at_work nobody s₁
same_status-IsDriven at_work k g s s₁ keeps same rows runs h =
    map-IsDriven (change_task k g) s s₁ (change-KeepsRow k g keeps) rows
      (λ i. ap (any (λ r. eqb r.id i)) runs) (λ r k' running. k' (ground (arith, same r)))
      (λ i there _. elim (h.settled i (sym (ap (any (λ r. eqb r.id i)) runs) ∙ there) refl) [
        | inl flying ↦ inl (
            rw rows (
              any-map (in_flight_row i) (in_flight_row i) (change_task k g) s.tasks
                (λ r e. ground (arith, same r, (keeps r).1)) flying))
        | inr closed ↦ inr (IsClosed-same i s s₁ (ap (find (λ r. eqb r.id i)) runs) closed)
      ])
      h
