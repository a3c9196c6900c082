-- ===== src/Scheduler/Turns.antt =====
-- The program with the in-process broker: transactions that commit, and workers that take messages.
use auto_bot.Broker.Memory.{MemoryBroker, Entry, pop_due, pop_at}
use auto_bot.Broker.Message.{TaskMessage}
use auto_bot.Models.{is_queued}
use auto_bot.Scheduler.Announced.{IsAnnounced, posted, All-change, Step-IsAnnounced}
use auto_bot.Scheduler.Claim.{claim_row}
use auto_bot.Scheduler.Commit.{commit, rollback, memory_queue, live, commit-memory}
use auto_bot.Scheduler.Operations.{claim}
use auto_bot.Scheduler.Session.{Session, Env, Publication}
use auto_bot.Scheduler.Steps.{Step}
use auto_bot.Prelude.{
  inr, inl, leb, Bool-cases, ◌∙◌, eqb_iff, false, ap, refl, sym, ◌∷◌, true, subst, All, eqb, arith,
  any, [], Bool, some, String, All-map, List, ◌≡◌, ℕ,
}

-- The tables and the queue between two transactions.
pub record World : Type 0 where
  pub tables : Session
  pub queue : MemoryBroker

abbrev pub commit_world : ℕ → Session → MemoryBroker → World
commit_world now s b =
    let (s', b') = commit (memory_queue now) s b in record { tables = s'; queue = b' }

-- A transaction commits; or it is rolled back; or a worker takes the next message and claims its task.
pub data Turn (w : World) : World → Type 0 where
  commits : (now : ℕ) {s : Session} → Step w.tables s → Turn w (commit_world now s w.queue)
  rolls_back : Turn w (record { tables = rollback w.tables; queue = w.queue })
  takes :
      (env : Env) (worker : String) {m : TaskMessage} {rest : MemoryBroker}
      → pop_due env.now w.queue ≡ (some m, rest)
      → Turn w (record { tables = (claim env m.task_id worker w.tables).1; queue = rest })

pub data Turns (w : World) : World → Type 0 where
  now_here : Turns w w
  then_turn : {v u : World} → Turns w v → Turn v u → Turns w u

-- The queue has a message about the task.
abbrev pub held_in : MemoryBroker → ℕ → Bool
held_in b i = any (λ e. eqb e.message.task_id i) b.heap

-- Nothing is left to send, and every queued task has a message in the queue.
pub record HasMessages (w : World) : Type 0 where
  pub sent : w.tables.outbox ≡ []
  pub held : All (λ t. is_queued t.status ≡ true → held_in w.queue t.id ≡ true) w.tables.tasks

posted-live :
    (ps : List Publication) (i : ℕ)
    → posted ps i ≡ any (λ (m : TaskMessage). eqb m.task_id i) (live ps)
posted-live [] i = refl
posted-live (p ∷ ps) i = ground (arith, posted-live ps i)

pub announced : (w : World) → HasMessages w → IsAnnounced (held_in w.queue) w.tables
announced w h = All-map (λ t k queued. ground (arith, k queued)) w.tables.tasks h.held

pub commit-HasMessages :
    (now : ℕ) (s : Session) (b : MemoryBroker)
    → IsAnnounced (held_in b) s
    → HasMessages (commit_world now s b)
commit-HasMessages now s b h = record {
  sent = ap (λ x. x.outbox) (commit-memory now s b (λ m. true)).0;
  held =
      subst
        (All (λ t. is_queued t.status ≡ true → held_in (commit_world now s b).queue t.id ≡ true))
        (sym (ap (λ x. x.tasks) (commit-memory now s b (λ m. true)).0))
        (All-map
          (λ t k queued.
            (commit-memory now s b (λ m. eqb m.task_id t.id)).1
            ∙ ground (arith, k queued, posted-live s.outbox t.id))
          s.tasks h);
}

pub popped-held_in :
    (now i : ℕ) (b rest : MemoryBroker) (m : TaskMessage)
    → pop_due now b ≡ (some m, rest)
    → eqb m.task_id i ≡ false
    → held_in b i ≡ true
    → held_in rest i ≡ true
unfolding pop_due
popped-held_in now i b rest m h other = left b.heap h
  where
    left :
        (es : List Entry)
        → pop_at now es b ≡ (some m, rest)
        → any (λ (e : Entry). eqb e.message.task_id i) es ≡ true
        → held_in rest i ≡ true
    left [] h k = cc
    left (e ∷ es) h k = elim (Bool-cases (leb e.due now)) [
      | inl due ↦
          let same : e.message ≡ m = ground arith in
          let rows : rest.heap ≡ es = ground arith in
          rw rows (ground (arith, ap (λ x. x.task_id) same))
      | inr early ↦ absurd (ground arith)
    ]

pub taken-HasMessages :
    (env : Env) (worker : String) (w : World) (m : TaskMessage) (rest : MemoryBroker)
    → pop_due env.now w.queue ≡ (some m, rest)
    → HasMessages w
    → HasMessages (record { tables = (claim env m.task_id worker w.tables).1; queue = rest })
unfolding claim
taken-HasMessages env worker w m rest popped h = record {
  sent = h.sent;
  held =
      All-change _ _ (claim_row env m.task_id worker) w.tables.tasks
        (λ t k queued.
          popped-held_in env.now _ w.queue rest m popped
            (ground (arith, eqb_iff t.id m.task_id, eqb_iff m.task_id t.id)) (ground (arith, k)))
        h.held;
}

Turn-HasMessages : {w v : World} → Turn w v → HasMessages w → HasMessages v
Turn-HasMessages {w} (commits now step) h =
    commit-HasMessages now _ w.queue (Step-IsAnnounced (held_in w.queue) step (announced w h))
Turn-HasMessages {w} rolls_back h = unfold rollback in record { sent = refl; held = h.held }
Turn-HasMessages {w} (takes env worker popped) h = taken-HasMessages env worker w _ _ popped h

-- On the in-process broker, from tables without tasks and with nothing left to send, no sequence of
-- committed transactions, of rollbacks, and of workers that take a message and claim its task leads to
-- a queued task without a message: whatever is queued is still in the queue, and after each turn
-- nothing is left to send.
pub Turns-HasMessages :
    (w v : World) → w.tables.tasks ≡ [] → w.tables.outbox ≡ [] → Turns w v → HasMessages v
Turns-HasMessages w v empty sent now_here = record {
  sent = sent;
  held = subst (All (λ t. is_queued t.status ≡ true → held_in w.queue t.id ≡ true)) (sym empty) tt;
}
Turns-HasMessages w v empty sent (then_turn turns turn) =
    Turn-HasMessages turn (Turns-HasMessages w _ empty sent turns)
