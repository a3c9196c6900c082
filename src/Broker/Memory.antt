-- ===== src/Broker/Memory.antt =====
-- `InMemoryBroker` of app/broker.py. Its heap is the list of its entries in their order: of `heapq` the
-- program uses that the first entry is the smallest and that a pop takes that one. A reading of
-- `time.monotonic()` is an argument, in microseconds.
pub mod Queue
pub mod Consume
use auto_bot.Prelude.{
  ℕ, suc, ◌+◌, List, [], ◌∷◌, ◌++◌, map, Option, none, some, Bool, true, false, ◌&&◌, ◌||◌, ltb,
  leb, eqb, keep, length, if◌then◌else◌,
}
use auto_bot.Prelude.Sort.{sort, insert}
use auto_bot.Broker.Message.{TaskMessage}

-- (time.monotonic() + delay, counter, message)
pub record Entry : Type 0 where
  pub due : ℕ
  pub number : ℕ
  pub message : TaskMessage

pub record MemoryBroker : Type 0 where
  pub heap : List Entry
  pub dead : List TaskMessage
  pub counter : ℕ

-- The order of tuples. No two entries have the same number, so messages are never compared.
abbrev pub entry_le : Entry → Entry → Bool
entry_le a b = ltb a.due b.due || eqb a.due b.due && leb a.number b.number

-- __init__
abbrev pub new_broker : MemoryBroker
new_broker = record { heap = []; dead = []; counter = 0 }

abbrev pub new_entry : ℕ → TaskMessage → ℕ → MemoryBroker → Entry
new_entry now message delay b = record {
  due = now + delay;
  number = suc b.counter;
  message = message;
}

unfoldable pub publish : ℕ → TaskMessage → ℕ → MemoryBroker → MemoryBroker
publish now message delay b = record b {
  heap = insert entry_le (new_entry now message delay b) b.heap;
  counter = suc b.counter;
}

unfoldable pub dead_letter : TaskMessage → MemoryBroker → MemoryBroker
dead_letter message b = record b { dead = b.dead ++ message ∷ [] }

abbrev pub pop_at : ℕ → List Entry → MemoryBroker → Option TaskMessage × MemoryBroker
pop_at now [] b = (none, b)
pop_at now (e ∷ es) b =
    if leb e.due now then (some e.message, record b { heap = es }) else (none, b)

-- _pop_due
unfoldable pub pop_due : ℕ → MemoryBroker → Option TaskMessage × MemoryBroker
pop_due now b = pop_at now b.heap b

unfoldable pub pending : MemoryBroker → ℕ
pending b = length b.heap

-- `due` of the source: how many entries can be taken now.
unfoldable pub due_count : ℕ → MemoryBroker → ℕ
due_count now b = length (keep (λ e. leb e.due now) b.heap)

unfoldable pub messages : MemoryBroker → List TaskMessage
messages b = map (λ e. e.message) (sort entry_le b.heap)

unfoldable pub dead_letters : MemoryBroker → List TaskMessage
dead_letters b = b.dead
