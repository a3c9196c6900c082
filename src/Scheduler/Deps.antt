-- ===== src/Scheduler/Deps.antt =====
-- No task is started before the tasks that it depends on have succeeded.
use auto_bot.Prelude.{
  ℕ, ◌≡◌, refl, ◌∙◌, sym, subst, String, List, [], ◌∷◌, ◌++◌, map, Bool, true, false, ◌&&◌, any,
  all, eqb, arith, ◌⊎◌, inl, inr, eqb_iff, Bool-cases, All, All-map, ◌==◌, eq_iff,
}
use auto_bot.Prelude.Names.{mem}
use auto_bot.Dag.Graph.{Within}
use auto_bot.Dag.Runnable.{is_runnable}
use auto_bot.Models.{Task, TaskStatus, is_success}
use auto_bot.Scheduler.Session.{Env}
use auto_bot.Scheduler.Tick.{done_names, tick_row}

-- The task has been handed to a worker, or has an outcome.
abbrev pub is_started : TaskStatus → Bool
is_started TaskStatus.pending = false
is_started TaskStatus.cancelled = false
is_started TaskStatus.queued = true
is_started TaskStatus.running = true
is_started TaskStatus.success = true
is_started TaskStatus.failed = true

abbrev pub HasDepsDone : List Task → Task → Type 0
HasDepsDone tasks t = Within (done_names t.run_id tasks) t.depends_on

-- Every task that has been started has all its dependencies among its run's successes.
abbrev pub DepsDone : List Task → Type 0
DepsDone tasks = All (λ t. is_started t.status ≡ true → HasDepsDone tasks t) tasks

abbrev done_row : ℕ → String → Task → Bool
done_row run_id x t = eqb t.run_id run_id && (is_success t.status && (t.task_name == x))

mem-done :
    (run_id : ℕ) (x : String) (ts : List Task)
    → mem x (done_names run_id ts) ≡ any (done_row run_id x) ts
mem-done run_id x [] = refl
mem-done run_id x (t ∷ ts) = ground (arith, mem-done run_id x ts)

-- What an update leaves alone: which task it is, and a success.
pub record Keeps (f : Task → Task) (t : Task) : Type 0 where
  pub same_run : (f t).run_id ≡ t.run_id
  pub same_name : (f t).task_name ≡ t.task_name
  pub same_deps : (f t).depends_on ≡ t.depends_on
  pub keeps_success : is_success t.status ≡ true → is_success (f t).status ≡ true

any-done :
    (f : Task → Task) (run_id : ℕ) (x : String) (ts : List Task)
    → All (Keeps f) ts
    → any (done_row run_id x) ts ≡ true
    → any (done_row run_id x) (map f ts) ≡ true
any-done f run_id x [] k h = cc
any-done f run_id x (t ∷ ts) k h = ground (arith, k.0, any-done f run_id x ts k.1)

names-map :
    (f : Task → Task) (run_id : ℕ) (ts : List Task) (x : String)
    → All (Keeps f) ts
    → mem x (done_names run_id ts) ≡ true
    → mem x (done_names run_id (map f ts)) ≡ true
names-map f run_id ts x k h =
    mem-done run_id x (map f ts) ∙ any-done f run_id x ts k (sym (mem-done run_id x ts) ∙ h)

-- A start that is new is a start with the dependencies done.
abbrev pub StartsDone : List Task → (Task → Task) → Task → Type 0
StartsDone tasks f t =
    is_started (f t).status ≡ true → (is_started t.status ≡ true) ⊎ HasDepsDone tasks t

HasDepsDone-map :
    (f : Task → Task) (ts : List Task) (t : Task)
    → All (Keeps f) ts
    → Keeps f t
    → HasDepsDone ts t
    → HasDepsDone (map f ts) (f t)
HasDepsDone-map f ts t k same h d dep =
    subst (λ r. mem d (done_names r (map f ts)) ≡ true) (sym same.same_run)
      (names-map f t.run_id ts d k (h d (subst (λ l. mem d l ≡ true) same.same_deps dep)))

module _ (f : Task → Task) (ts : List Task) (k : All (Keeps f) ts) where
  DepsDone-rows :
      (rs : List Task)
      → All (Keeps f) rs
      → All (StartsDone ts f) rs
      → All (λ t. is_started t.status ≡ true → HasDepsDone ts t) rs
      → All (λ t. is_started t.status ≡ true → HasDepsDone (map f ts) t) (map f rs)
  DepsDone-rows [] kr starts h = tt
  DepsDone-rows (r ∷ rs) kr starts h = (
    λ begun.
        HasDepsDone-map f ts r k kr.0 (elim (starts.0 begun) [ inl old ↦ h.0 old | inr new ↦ new ]),
    DepsDone-rows rs kr.1 starts.1 h.1,
  )

-- Every update of the rows that keeps what it must, and starts only what may start, keeps the
-- invariant.
pub DepsDone-map :
    (f : Task → Task) (ts : List Task)
    → All (Keeps f) ts
    → All (StartsDone ts f) ts
    → DepsDone ts
    → DepsDone (map f ts)
DepsDone-map f ts k starts h = DepsDone-rows f ts k ts k starts h

-- For every row.
pub All-of {ℓ} : {P : Task → Type ℓ} (ts : List Task) → ((t : Task) → P t) → All P ts
All-of [] h = tt
All-of (t ∷ ts) h = (h t, All-of ts h)

all-Within : (done deps : List String) → all (λ d. mem d done) deps ≡ true → Within done deps
all-Within done [] h d m = cc
all-Within done (e ∷ deps) h d m = ground (arith, eq_iff e d, all-Within done deps (ground arith) d)

runnable-Within :
    (done : List String) (t : Task) → is_runnable done t ≡ true → Within done t.depends_on
unfolding is_runnable
runnable-Within done t h = all-Within done t.depends_on (ground arith)

pub tick-DepsDone :
    (env : Env) (run_id : ℕ) (ts : List Task)
    → DepsDone ts
    → DepsDone (map (tick_row env run_id (done_names run_id ts)) ts)
tick-DepsDone env run_id ts h =
    let f = tick_row env run_id (done_names run_id ts) in
    DepsDone-map f ts (All-of ts keeps) (All-of ts starts) h
  where
    keeps : (t : Task) → Keeps (tick_row env run_id (done_names run_id ts)) t
    keeps t = unfold is_runnable in ground arith

    starts : (t : Task) → StartsDone ts (tick_row env run_id (done_names run_id ts)) t
    starts t begun =
        elim (Bool-cases (eqb t.run_id run_id && is_runnable (done_names run_id ts) t)) [
          | inl ready ↦ inr (
              subst (λ r. Within (done_names r ts) t.depends_on)
                (sym ((eqb_iff t.run_id run_id).0 (ground arith)))
                (runnable-Within (done_names run_id ts) t (ground arith)))
          | inr waits ↦ inl (ground arith)
        ]

any-append : (p : Task → Bool) (ts us : List Task) → any p ts ≡ true → any p (ts ++ us) ≡ true
any-append p [] us h = cc
any-append p (t ∷ ts) us h = ground (arith, any-append p ts us)

names-append :
    (run_id : ℕ) (ts us : List Task) (x : String)
    → mem x (done_names run_id ts) ≡ true
    → mem x (done_names run_id (ts ++ us)) ≡ true
names-append run_id ts us x h =
    mem-done run_id x (ts ++ us)
    ∙ any-append (done_row run_id x) ts us (sym (mem-done run_id x ts) ∙ h)

All-append {ℓ} : (P : Task → Type ℓ) (ts us : List Task) → All P ts → All P us → All P (ts ++ us)
All-append P [] us h k = k
All-append P (t ∷ ts) us h k = (h.0, All-append P ts us h.1 k)

-- Rows that have not been started may be added.
pub DepsDone-append :
    (ts us : List Task)
    → All (λ t. is_started t.status ≡ false) us
    → DepsDone ts
    → DepsDone (ts ++ us)
DepsDone-append ts us idle h =
    All-append _ ts us
      (All-map (λ t kept begun d m. names-append t.run_id ts us d (kept begun d m)) ts h)
      (All-map (λ t none_begun begun. absurd (ground arith)) us idle)
