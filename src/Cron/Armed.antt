-- ===== src/Cron/Armed.antt =====
-- After a start of app/cron.py each scheduled workflow has its job, and no other job is there.
use auto_bot.Cron.{
  next_job, JobId, workflow_job, Apscheduler, add_scheduled, armed, add_job, add_jobs, start,
  is_some, has_schedule,
}
use auto_bot.Models.{Workflow}
use auto_bot.Scheduler.Session.{Session}
use auto_bot.Prelude.{
  ap, ◌∙◌, inr, keep, sym, subst, eqb_iff, inl, Bool-cases, [], refl, if◌then◌else◌, arith, eqb,
  true, false, any, none, some, All, find, String, ◌∷◌, Bool, ◌≡◌, List, ℕ, Option,
}

-- What the program relies on of APScheduler: a new scheduler has no jobs, and a job that is added
-- replaces the one with its id and leaves the others alone.
pub record KeepsJobs {Jobs Trigger : Type 0} (cron : Apscheduler Jobs Trigger)
    (job_of : JobId → Jobs → Option (Trigger × ℕ)) : Type 0 where
  pub starts_empty : (i : JobId) → job_of i cron.new_scheduler ≡ none
  pub adds :
      (i : JobId) (trigger : Trigger) (workflow_id : ℕ) (jobs : Jobs)
      → job_of i (cron.add_job i trigger workflow_id jobs) ≡ some (trigger, workflow_id)
  pub keeps :
      (i j : ℕ) (trigger : Trigger) (workflow_id : ℕ) (jobs : Jobs)
      → eqb i j ≡ false
      → job_of (workflow_job j) (cron.add_job (workflow_job i) trigger workflow_id jobs)
        ≡ job_of (workflow_job j) jobs

-- The primary key of the workflows.
abbrev pub has_workflow : ℕ → List Workflow → Bool
has_workflow i ws = any (λ (w : Workflow). eqb w.id i) ws

abbrev pub HasUniqueWorkflows : List Workflow → Type 0
HasUniqueWorkflows [] = Unit
HasUniqueWorkflows (w ∷ ws) = (has_workflow w.id ws ≡ false) × HasUniqueWorkflows ws

module _ {Jobs Trigger : Type 0} (cron : Apscheduler Jobs Trigger) where
  -- A schedule is absent, empty, or a cron expression.
  abbrev pub is_armable : Option String → Bool
  is_armable none = true
  is_armable (some String.[]) = true
  is_armable (some (String.◌∷◌ c cs)) = is_some cron (cron.from_crontab (String.◌∷◌ c cs))

  abbrev pub job_at : ℕ → Option Trigger → Option (Trigger × ℕ)
  job_at id none = none
  job_at id (some trigger) = some (trigger, id)

  -- The job that a workflow is to have.
  abbrev pub job_for : ℕ → Option String → Option (Trigger × ℕ)
  job_for id none = none
  job_for id (some String.[]) = none
  job_for id (some (String.◌∷◌ c cs)) = job_at id (cron.from_crontab (String.◌∷◌ c cs))

  abbrev pub found_job : Option Workflow → Option (Trigger × ℕ)
  found_job none = none
  found_job (some w) = job_for w.id w.schedule

  -- The job that the table of workflows gives to an id.
  abbrev pub job_spec : ℕ → List Workflow → Option (Trigger × ℕ)
  job_spec i ws = found_job (find (λ (w : Workflow). eqb w.id i) ws)

  module _ (job_of : JobId → Jobs → Option (Trigger × ℕ))
      (apscheduler : KeepsJobs cron job_of) where
    -- What adding one workflow does to the jobs.
    abbrev Adds : Workflow → Jobs → Option Jobs → Type 0
    Adds w jobs o =
        (jobs' : Jobs) × (o ≡ some jobs')
        × (job_of (workflow_job w.id) jobs ≡ none
            → job_of (workflow_job w.id) jobs' ≡ job_for w.id w.schedule)
        × ((j : ℕ)
            → eqb w.id j ≡ false
            → job_of (workflow_job j) jobs' ≡ job_of (workflow_job j) jobs)

    armed-Adds :
        (id : ℕ) (o : Option Trigger) (jobs : Jobs)
        → is_some cron o ≡ true
        → (jobs' : Jobs) × (armed cron id o jobs ≡ some jobs')
          × (job_of (workflow_job id) jobs ≡ none → job_of (workflow_job id) jobs' ≡ job_at id o)
          × ((j : ℕ)
              → eqb id j ≡ false
              → job_of (workflow_job j) jobs' ≡ job_of (workflow_job j) jobs)
    armed-Adds id none jobs h = cc
    armed-Adds id (some trigger) jobs h = (
      cron.add_job (workflow_job id) trigger id jobs,
      refl,
      (λ _. apscheduler.adds (workflow_job id) trigger id jobs),
      (λ j other. apscheduler.keeps id j trigger id jobs other),
    )

    add_job-Adds :
        (id : ℕ) (schedule : Option String) (jobs : Jobs)
        → is_armable schedule ≡ true
        → (jobs' : Jobs) × (add_scheduled cron id schedule jobs ≡ some jobs')
          × (job_of (workflow_job id) jobs ≡ none
              → job_of (workflow_job id) jobs' ≡ job_for id schedule)
          × ((j : ℕ)
              → eqb id j ≡ false
              → job_of (workflow_job j) jobs' ≡ job_of (workflow_job j) jobs)
    add_job-Adds id none jobs h = (jobs, refl, (λ e. e), λ j other. refl)
    add_job-Adds id (some String.[]) jobs h = (jobs, refl, (λ e. e), λ j other. refl)
    add_job-Adds id (some (String.◌∷◌ c cs)) jobs h =
        armed-Adds id (cron.from_crontab (String.◌∷◌ c cs)) jobs h

    absent_found :
        (i : ℕ) (ws : List Workflow)
        → has_workflow i ws ≡ false
        → find (λ (w : Workflow). eqb w.id i) ws ≡ none
    absent_found i [] h = refl
    absent_found i (w ∷ ws) h = ground (arith, absent_found i ws)

    add_jobs_lem :
        (ws : List Workflow) (jobs : Jobs)
        → HasUniqueWorkflows ws
        → All (λ w. is_armable w.schedule ≡ true) ws
        → ((i : ℕ) → has_workflow i ws ≡ true → job_of (workflow_job i) jobs ≡ none)
        → (jobs' : Jobs) × (add_jobs cron ws jobs ≡ some jobs')
          × ((i : ℕ)
              → job_of (workflow_job i) jobs'
                ≡ (if has_workflow i ws then job_spec i ws else job_of (workflow_job i) jobs))
    unfolding add_jobs add_job
    add_jobs_lem [] jobs unique armable new = (jobs, refl, λ i. refl)
    add_jobs_lem (w ∷ ws) jobs unique armable new =
        let (jobs₁, added, here, others) = add_job-Adds w.id w.schedule jobs armable.0 in
        let (jobs₂, rest, after) =
          add_jobs_lem ws jobs₁ unique.1 armable.1
            (λ i listed. others i (apart i listed) ∙ new i (ground arith)) in
        (
          jobs₂,
          ap (next_job cron (add_jobs cron ws)) added ∙ rest,
          λ i. after i ∙ whole i jobs₁ here others,
        )
      where
        apart : (i : ℕ) → has_workflow i ws ≡ true → eqb w.id i ≡ false
        apart i listed = elim (Bool-cases (eqb w.id i)) [
          | inl same ↦
              let at : w.id ≡ i = ground (arith, eqb_iff w.id i) in
              let there : has_workflow w.id ws ≡ true =
                subst (λ j. has_workflow j ws ≡ true) (sym at) listed in
              absurd (ground (arith, unique.0))
          | inr other ↦ other
        ]

        whole :
            (i : ℕ) (jobs₁ : Jobs)
            → (job_of (workflow_job w.id) jobs ≡ none
                → job_of (workflow_job w.id) jobs₁ ≡ job_for w.id w.schedule)
            → ((j : ℕ)
                → eqb w.id j ≡ false
                → job_of (workflow_job j) jobs₁ ≡ job_of (workflow_job j) jobs)
            → (if has_workflow i ws then job_spec i ws else job_of (workflow_job i) jobs₁) ≡ (
                if has_workflow i (w ∷ ws)
                then job_spec i (w ∷ ws)
                else job_of (workflow_job i) jobs)
        whole i jobs₁ here others = elim (Bool-cases (eqb w.id i)) [
          | inl same ↦
              let at : w.id ≡ i = ground (arith, eqb_iff w.id i) in
              let alone : has_workflow i ws ≡ false =
                subst (λ j. has_workflow j ws ≡ false) at unique.0 in
              rw (alone, same)
                (subst (λ j. job_of (workflow_job j) jobs₁ ≡ job_for w.id w.schedule) at
                  (here (new w.id (ground (arith, eqb_iff w.id w.id)))))
          | inr other ↦ elim (Bool-cases (has_workflow i ws)) [
            | inl listed ↦ rw (other, listed) refl
            | inr absent ↦ rw (other, absent) (others i other)
          ]
        ]

    unscheduled :
        (id : ℕ) (schedule : Option String) (jobs : Jobs)
        → has_schedule schedule ≡ false
        → add_scheduled cron id schedule jobs ≡ some jobs
    unscheduled id none jobs h = refl
    unscheduled id (some v) jobs h = cc

    -- A schedule that is null changes nothing.
    add_jobs-keep :
        (ws : List Workflow) (jobs : Jobs)
        → add_jobs cron (keep (λ w. has_schedule w.schedule) ws) jobs ≡ add_jobs cron ws jobs
    unfolding add_jobs add_job
    add_jobs-keep [] jobs = refl
    add_jobs-keep (w ∷ ws) jobs = elim (Bool-cases (has_schedule w.schedule)) [
      | inl scheduled ↦
          rw scheduled (λ i. next_job cron (λ j. add_jobs-keep ws j i) (add_job cron w jobs))
      | inr never ↦ rw never (
          add_jobs-keep ws jobs
          ∙ sym (ap (next_job cron (add_jobs cron ws)) (unscheduled w.id w.schedule jobs never)))
    ]

    -- Where each schedule is absent, empty or valid, and workflow ids are unique, a start succeeds, and
    -- then each workflow with a schedule has the job that its cron expression says, and there is no
    -- other job of a workflow.
    pub start_lem :
        (s : Session)
        → HasUniqueWorkflows s.workflows
        → All (λ w. is_armable w.schedule ≡ true) s.workflows
        → (jobs : Jobs) × (start cron s ≡ some jobs)
          × ((i : ℕ) → job_of (workflow_job i) jobs ≡ job_spec i s.workflows)
    unfolding start
    start_lem s unique armable =
        let empty = λ (i : ℕ). apscheduler.starts_empty (workflow_job i) in
        let (jobs, added, after) =
          add_jobs_lem s.workflows cron.new_scheduler unique armable (λ i listed. empty i) in
        (
          jobs,
          add_jobs-keep s.workflows cron.new_scheduler ∙ added,
          λ i. after i ∙ unlisted i (empty i),
        )
      where
        unlisted :
            (i : ℕ)
            → job_of (workflow_job i) cron.new_scheduler ≡ none
            → (if has_workflow i s.workflows
                then job_spec i s.workflows
                else job_of (workflow_job i) cron.new_scheduler)
              ≡ job_spec i s.workflows
        unlisted i empty = elim (Bool-cases (has_workflow i s.workflows)) [
          | inl listed ↦ rw listed refl
          | inr absent ↦ rw (absent, empty, absent_found i s.workflows absent) refl
        ]
