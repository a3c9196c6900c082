-- ===== src/Scheduler/Commit.antt =====
-- The end of a transaction in app/scheduler.py: `_flush_outbox` and `_discard_outbox`.
use auto_bot.Prelude.{
  ◌+◌, length, ℕ, ◌≡◌, refl, ◌∙◌, List, [], ◌∷◌, ◌++◌, map, Bool, true, not, ◌||◌, any, keep, arith,
  append_assoc, append-nil, inl, inr, Bool-cases, if◌then◌else◌,
}
use auto_bot.Broker.Message.{TaskMessage}
use auto_bot.Broker.Memory.{Entry, MemoryBroker, entry_le, new_entry}
use auto_bot.Broker.Memory as Memory
use auto_bot.Scheduler.Session.{Session, Publication}
use auto_bot.Scheduler.Rows.{any-insert}
use auto_bot.Prelude.Sort.{length-insert}

-- The broker that `get_broker()` gives. A call that raises returns `false`.
pub record Queue (B : Type 0) : Type 0 where
  pub publish : TaskMessage → ℕ → B → Bool × B
  pub dead_letter : TaskMessage → B → Bool × B

module _ {B : Type 0} (queue : Queue B) where
  open queue use {publish, dead_letter}

  -- The body of the `try`.
  abbrev pub send : Publication → B → Bool × B
  send p b = if p.dead_letter then dead_letter p.message b else publish p.message p.delay b

  -- The loop: whether a publication raises or not, the next one follows.
  unfoldable pub flush_outbox : List Publication → B → B
  flush_outbox [] b = b
  flush_outbox (p ∷ ps) b = let (sent, b') = send p b in flush_outbox ps b'

  -- session.commit(): the rows stand, and the outbox goes to the broker.
  unfoldable pub commit : Session → B → Session × B
  unfolding flush_outbox
  commit s b = (record s { outbox = [] }, flush_outbox s.outbox b)

-- session.rollback(): the rows are those of the last commit, and `_discard_outbox` drops the outbox.
unfoldable pub rollback : Session → Session
rollback committed = record committed { outbox = [] }

-- The in-process broker at a reading of the clock. It never raises.
abbrev pub memory_queue : ℕ → Queue MemoryBroker
memory_queue now = record {
  publish = λ m delay b. (true, Memory.publish now m delay b);
  dead_letter = λ m b. (true, Memory.dead_letter m b);
}

-- The messages of an outbox that go to the queue, and those that go to the dead letters.
abbrev pub live : List Publication → List TaskMessage
live ps = map (λ p. p.message) (keep (λ p. not p.dead_letter) ps)

abbrev pub parked : List Publication → List TaskMessage
parked ps = map (λ p. p.message) (keep (λ p. p.dead_letter) ps)

flush_outbox-queued :
    (now : ℕ) (p : TaskMessage → Bool) (ps : List Publication) (b : MemoryBroker)
    → any (λ e. p e.message) (flush_outbox (memory_queue now) ps b).heap
      ≡ (any p (live ps) || any (λ (e : Entry). p e.message) b.heap)
unfolding flush_outbox Memory.publish Memory.dead_letter
flush_outbox-queued now p [] b = refl
flush_outbox-queued now p (q ∷ ps) b = elim (Bool-cases q.dead_letter) [
  | inl park ↦ rw park (flush_outbox-queued now p ps (Memory.dead_letter q.message b))
  | inr go ↦
      let e = new_entry now q.message q.delay b in
      rw go (
        flush_outbox-queued now p ps (Memory.publish now q.message q.delay b)
        ∙ ground (arith, any-insert (λ (f : Entry). p f.message) entry_le e b.heap))
]

pub flush_outbox-length :
    (now : ℕ) (ps : List Publication) (b : MemoryBroker)
    → length (flush_outbox (memory_queue now) ps b).heap ≡ length b.heap + length (live ps)
unfolding flush_outbox Memory.publish Memory.dead_letter
flush_outbox-length now [] b = omega arith
flush_outbox-length now (q ∷ ps) b = elim (Bool-cases q.dead_letter) [
  | inl park ↦ rw park (flush_outbox-length now ps (Memory.dead_letter q.message b))
  | inr go ↦
      let e = new_entry now q.message q.delay b in
      let rest = flush_outbox-length now ps (Memory.publish now q.message q.delay b) in
      rw go (omega (arith, rest, length-insert entry_le e b.heap))
]

flush_outbox-dead :
    (now : ℕ) (ps : List Publication) (b : MemoryBroker)
    → (flush_outbox (memory_queue now) ps b).dead ≡ b.dead ++ parked ps
unfolding flush_outbox Memory.publish Memory.dead_letter
flush_outbox-dead now [] b = rw append-nil
flush_outbox-dead now (q ∷ ps) b = elim (Bool-cases q.dead_letter) [
  | inl park ↦ rw park (
      flush_outbox-dead now ps (Memory.dead_letter q.message b)
      ∙ append_assoc b.dead (q.message ∷ []) (parked ps))
  | inr go ↦ rw go (flush_outbox-dead now ps (Memory.publish now q.message q.delay b))
]

-- A commit on the in-process broker leaves the rows as they are and the outbox empty; the queue then
-- holds what it held and the outbox's messages, as far as any test of a message can tell, and the dead
-- letters of the outbox stand behind those that were there, in their order.
pub commit-memory :
    (now : ℕ) (s : Session) (b : MemoryBroker) (p : TaskMessage → Bool)
    → let (s', b') = commit (memory_queue now) s b in
      (s' ≡ record s { outbox = [] })
      × (any (λ e. p e.message) b'.heap ≡ (any p (live s.outbox) || any (λ e. p e.message) b.heap))
      × (b'.dead ≡ b.dead ++ parked s.outbox)
unfolding commit
commit-memory now s b p =
    (refl, flush_outbox-queued now p s.outbox b, flush_outbox-dead now s.outbox b)
