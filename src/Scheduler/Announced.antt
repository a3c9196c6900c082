-- ===== src/Scheduler/Announced.antt =====
-- Every task that is queued has a message: in the queue, or in the outbox that the commit sends.
use auto_bot.Dag.Runnable.{get_runnable_tasks, is_run_finished}
use auto_bot.Dag.Spec.{TaskSpec}
use auto_bot.Dag.Validate.{validate_definition}
use auto_bot.Models.{ErrorText, Task, Workflow, WorkflowRun, is_queued}
use auto_bot.Retry.{backoff_delay, should_retry}
use auto_bot.Scheduler.Operations.{
  create_run, from_dag, new_tasks, resolve, then_resolve, dispatch, queue_all, publish_all,
  dispatch_or_finalize, finalize_if_done, close_found, load_tasks, was_cancelled, report_result,
  requeue_for_retry, requeue_after, failed_for_good, mark_success, mark_failed, mark_queued,
  mark_retry, message_of, claim, cancel_run, cancel_task,
}
use auto_bot.Scheduler.Rows.{has_id}
use auto_bot.Scheduler.Report.{dead_letter_of}
use auto_bot.Scheduler.Claim.{claim_row}
use auto_bot.Scheduler.Steps.{Step, created, ticked, claimed, reported, cancelled, logged, beaten}
use auto_bot.Scheduler.Session.{
  Session, Env, Publication, Outcome, return, raise, ◌>>=◌, >>=-eq-return, get_run, update_task,
  change_task, publish_on_commit,
}
use auto_bot.Prelude.{
  sym, subst, inr, refl, inl, suc, ◌+◌, String, Bool-cases, some, Option, eqb, none, eqb_iff, ◌||◌,
  ◌&&◌, arith, false, map, true, [], not, All-map, ◌≡◌, All, ◌∷◌, any, ◌++◌, Bool, ℕ, List,
}
use auto_bot.Worker.{set_logs}

-- The outbox has a message for the queue about the task.
abbrev pub posted : List Publication → ℕ → Bool
posted ps i = any (λ p. not p.dead_letter && eqb p.message.task_id i) ps

posted-append :
    (ps : List Publication) (p : Publication) (i : ℕ)
    → posted (ps ++ p ∷ []) i ≡ (posted ps i || not p.dead_letter && eqb p.message.task_id i)
posted-append [] p i = ground arith
posted-append (q ∷ ps) p i = ground (arith, posted-append ps p i)

pub All-change :
    (P Q : Task → Type 0) (f : Task → Task) (ts : List Task)
    → ((t : Task) → P t → Q (f t))
    → All P ts
    → All Q (map f ts)
All-change P Q f [] h k = tt
All-change P Q f (t ∷ ts) h k = (h t k.0, All-change P Q f ts h k.1)

-- `held` says which tasks have a message in the queue.
module _ (held : ℕ → Bool) where
  -- But for these tasks.
  abbrev AnnouncedBut : List Task → Session → Type 0
  AnnouncedBut ts s =
      All
        (λ t.
          is_queued t.status ≡ true → (held t.id || posted s.outbox t.id || has_id t.id ts) ≡ true)
        s.tasks

  abbrev pub IsAnnounced : Session → Type 0
  IsAnnounced s =
      All (λ t. is_queued t.status ≡ true → (held t.id || posted s.outbox t.id) ≡ true) s.tasks

  -- A change of a row that does not queue it.
  unqueued-IsAnnounced :
      (i : ℕ) (f : Task → Task) (s : Session)
      → ((t : Task) → (f t).id ≡ t.id)
      → ((t : Task) → is_queued (f t).status ≡ false)
      → IsAnnounced s
      → IsAnnounced (update_task i f s)
  unqueued-IsAnnounced i f s keeps idle h =
      All-change _ _ (change_task i f) s.tasks (λ t k queued. ground (arith, keeps t, idle t, k)) h

  queue_all-AnnouncedBut :
      (now : ℕ) (ts listed : List Task) (s : Session)
      → ((i : ℕ) → has_id i ts ≡ true → has_id i listed ≡ true)
      → AnnouncedBut listed s
      → AnnouncedBut listed (queue_all now ts s)
  queue_all-AnnouncedBut now [] listed s within h = h
  queue_all-AnnouncedBut now (t ∷ ts) listed s within h =
      queue_all-AnnouncedBut now ts listed (update_task t.id (mark_queued now) s)
        (λ i e. within i (ground arith))
        (All-change _ _ (change_task t.id (mark_queued now)) s.tasks
          (λ r k queued. ground (arith, k, within r.id, eqb_iff r.id t.id, eqb_iff t.id r.id)) h)

  publish_all-IsAnnounced :
      (ts : List Task) (s : Session) → AnnouncedBut ts s → IsAnnounced (publish_all ts s)
  publish_all-IsAnnounced [] s h = All-map (λ t k queued. ground (arith, k queued)) s.tasks h
  publish_all-IsAnnounced (t ∷ ts) s h =
      publish_all-IsAnnounced ts (publish_on_commit (message_of t none) 0 false s) (
        All-map
          (λ r k queued. ground (
            arith,
            k queued,
            posted-append s.outbox
                (record { message = message_of t none; delay = 0; dead_letter = false }) r.id,
          ))
          s.tasks h)

  dispatch-IsAnnounced :
      (env : Env) (ts : List Task) (s : Session) → IsAnnounced s → IsAnnounced (dispatch env ts s)
  unfolding dispatch
  dispatch-IsAnnounced env ts s h = publish_all-IsAnnounced ts (queue_all env.now ts s) (
      queue_all-AnnouncedBut env.now ts ts s (λ i e. e)
        (All-map (λ t k queued. ground (arith, k queued)) s.tasks h))

  -- Every session that the call returns is announced.
  abbrev pub Announces : Outcome Session → Type 0
  Announces (return s) = IsAnnounced s
  Announces (raise fault) = Unit

  pub returned : (o : Outcome Session) {s' : Session} → o ≡ return s' → Announces o → IsAnnounced s'
  returned o e h = subst Announces e h

  close_found-Announces :
      (env : Env) (run_id : ℕ) (tasks : List Task) (o : Option WorkflowRun) (s : Session)
      → IsAnnounced s
      → Announces (close_found env run_id tasks o s)
  close_found-Announces env run_id tasks none s h = tt
  close_found-Announces env run_id tasks (some run) s h = h

  finalize-Announces :
      (env : Env) (run_id : ℕ) (tasks : List Task) (s : Session)
      → IsAnnounced s
      → Announces (finalize_if_done env run_id (some tasks) s)
  unfolding finalize_if_done
  finalize-Announces env run_id tasks s h = elim (Bool-cases (is_run_finished tasks)) [
    | inl done ↦ rw done (close_found-Announces env run_id tasks (get_run run_id s) s h)
    | inr waits ↦ rw waits h
  ]

  abbrev no_tasks : Session → Outcome (List Task × Session)
  no_tasks s = return ([], s)

  abbrev sessions : List Task × Session → Outcome Session
  sessions r = return r.1

  drop_tasks-Announces :
      (o : Outcome Session) → Announces o → Announces (o >>= no_tasks >>= sessions)
  drop_tasks-Announces (return s) h = h
  drop_tasks-Announces (raise fault) h = tt

  tick-Announces :
      (env : Env) (run_id : ℕ) (tasks ts : List Task) (s : Session)
      → IsAnnounced s
      → Announces (dispatch_or_finalize env run_id tasks ts s >>= sessions)
  tick-Announces env run_id tasks [] s h =
      drop_tasks-Announces (finalize_if_done env run_id (some tasks) s)
        (finalize-Announces env run_id tasks s h)
  tick-Announces env run_id tasks (t ∷ ts) s h = dispatch-IsAnnounced env (t ∷ ts) s h

  pub then_resolve-Announces :
      (env : Env) (run_id : ℕ) (s : Session) → IsAnnounced s → Announces (then_resolve env run_id s)
  unfolding resolve
  then_resolve-Announces env run_id s h = elim (Bool-cases (was_cancelled (get_run run_id s))) [
    | inl stopped ↦ rw stopped h
    | inr active ↦ rw active (
        tick-Announces env run_id (load_tasks env run_id s)
          (get_runnable_tasks (load_tasks env run_id s)) s h)
  ]

  failed-IsAnnounced :
      (env : Env) (task : Task) (error : Option ErrorText) (s : Session)
      → IsAnnounced s
      → IsAnnounced (failed_for_good env task error s)
  failed-IsAnnounced env task error s h =
      All-map
        (λ r k queued.
          ground (arith, k queued, posted-append s.outbox (dead_letter_of task error) r.id))
        (map (change_task task.id (mark_failed env.now error)) s.tasks)
        (unqueued-IsAnnounced task.id (mark_failed env.now error) s (λ t. refl) (λ t. refl) h)

  requeue_after-Announces :
      (env : Env) (task : Task) (error : Option ErrorText) (d : Option ℕ) (s : Session)
      → IsAnnounced s
      → Announces (requeue_after env task error d s)
  requeue_after-Announces env task error none s h = tt
  requeue_after-Announces env task error (some d) s h =
      let retried = mark_retry (suc task.retry_count) error (env.now + d) in
      All-change _ _ (change_task task.id retried) s.tasks
        (λ r k queued. ground (
          arith,
          k,
          posted-append s.outbox
              (record { message = message_of (retried task) none; delay = d; dead_letter = false })
              r.id,
          eqb_iff r.id task.id,
          eqb_iff task.id r.id,
        ))
        h

  pub report_result-Announces :
      (env : Env) (task : Task) (succeed : Bool) (error : Option ErrorText) (s : Session)
      → IsAnnounced s
      → Announces (report_result env task succeed error s)
  unfolding report_result requeue_for_retry
  report_result-Announces env task true error s h =
      then_resolve-Announces env task.run_id (update_task task.id (mark_success env.now) s)
        (unqueued-IsAnnounced task.id (mark_success env.now) s (λ t. refl) (λ t. refl) h)
  report_result-Announces env task false error s h =
      let failed =
        then_resolve-Announces env task.run_id (failed_for_good env task error s)
          (failed-IsAnnounced env task error s h) in
      elim (Bool-cases (was_cancelled (get_run task.run_id s))) [
        | inl stopped ↦ rw stopped failed
        | inr active ↦ elim (Bool-cases (should_retry task.retry_count task.max_retries)) [
          | inl again ↦
              rw (active, again)
                (requeue_after-Announces env task error
                  (backoff_delay env.retry env.uniform (suc task.retry_count)) s h)
          | inr spent ↦ rw (active, spent) failed
        ]
      ]

  pub claim-IsAnnounced :
      (env : Env) (i : ℕ) (w : String) (s : Session)
      → IsAnnounced s
      → IsAnnounced (claim env i w s).1
  unfolding claim
  claim-IsAnnounced env i w s h =
      All-change _ _ (claim_row env i w) s.tasks (λ t k queued. ground (arith, k)) h

  cancel_run-Announces :
      (env : Env) (run_id : ℕ) (s s' : Session)
      → cancel_run env run_id s ≡ return s'
      → IsAnnounced s
      → IsAnnounced s'
  unfolding cancel_run
  cancel_run-Announces env run_id s s' e h =
      let rows : s'.tasks ≡ map (cancel_task run_id) s.tasks = ground arith in
      let sent : s'.outbox ≡ s.outbox = ground arith in
      rw (rows, sent)
        (All-change _ _ (cancel_task run_id) s.tasks (λ t k queued. ground (arith, k)) h)

  new_tasks-IsAnnounced :
      (env : Env) (uuid : ℕ → ℕ) (i run_id : ℕ) (specs : List TaskSpec) (ts : List Task)
      (ps : List Publication)
      → All (λ t. is_queued t.status ≡ true → (held t.id || posted ps t.id) ≡ true) ts
      → All
          (λ t. is_queued t.status ≡ true → (held t.id || posted ps t.id) ≡ true)
          (ts ++ new_tasks env uuid i run_id specs)
  new_tasks-IsAnnounced env uuid i run_id [] [] ps h = tt
  new_tasks-IsAnnounced env uuid i run_id (s ∷ specs) [] ps h = (
    (λ queued. absurd (ground arith)),
    new_tasks-IsAnnounced env uuid (i + 1) run_id specs [] ps tt,
  )
  new_tasks-IsAnnounced env uuid i run_id specs (t ∷ ts) ps h =
      (h.0, new_tasks-IsAnnounced env uuid i run_id specs ts ps h.1)

  pub create_run-Announces :
      (env : Env) (run_id id : ℕ) (uuid : ℕ → ℕ) (w : Workflow) (s s' : Session)
      → create_run env run_id uuid w s ≡ return (id, s')
      → IsAnnounced s
      → IsAnnounced s'
  unfolding create_run
  create_run-Announces env run_id id uuid w s s' e h =
      let (specs, valid, last) = >>=-eq-return (from_dag (validate_definition w.definition)) _ e in
      let rows : s'.tasks ≡ s.tasks ++ new_tasks env uuid 0 run_id specs = ground arith in
      let sent : s'.outbox ≡ s.outbox = ground arith in
      rw (rows, sent) (new_tasks-IsAnnounced env uuid 0 run_id specs s.tasks s.outbox h)

  ticked-IsAnnounced :
      (env : Env) (run_id : ℕ) (ts : List Task) (s s' : Session)
      → resolve env run_id s ≡ return (ts, s')
      → IsAnnounced s
      → IsAnnounced s'
  ticked-IsAnnounced env run_id ts s s' e h =
      let ended : then_resolve env run_id s ≡ return s' = rw e refl in
      returned (then_resolve env run_id s) ended (then_resolve-Announces env run_id s h)

  logged-IsAnnounced :
      (task_id : ℕ) (logs : Option String) (s : Session)
      → IsAnnounced s
      → IsAnnounced (update_task task_id (set_logs logs) s)
  logged-IsAnnounced task_id logs s h =
      All-change _ _ (change_task task_id (set_logs logs)) s.tasks (λ t k queued. ground (arith, k))
        h

  -- A transaction keeps a message for every queued task.
  pub Step-IsAnnounced : {s s' : Session} → Step s s' → IsAnnounced s → IsAnnounced s'
  Step-IsAnnounced (created env run_id uuid w e unique) h =
      create_run-Announces env run_id run_id uuid w _ _ e h
  Step-IsAnnounced {s} (ticked env run_id ts e) h = ticked-IsAnnounced env run_id ts s _ e h
  Step-IsAnnounced (claimed env task_id worker e) h =
      subst IsAnnounced (sym e) (claim-IsAnnounced env task_id worker _ h)
  Step-IsAnnounced {s} (reported env task succeed error found dispatched e) h =
      returned (report_result env task succeed error s) e
        (report_result-Announces env task succeed error s h)
  Step-IsAnnounced (cancelled env run_id e) h = cancel_run-Announces env run_id _ _ e h
  Step-IsAnnounced {s} (logged task_id logs e) h =
      subst IsAnnounced (sym e) (logged-IsAnnounced task_id logs s h)
  Step-IsAnnounced (beaten ws e) h = subst IsAnnounced (sym e) h
