-- ===== src/Examples/Queues.antt =====
-- The theorems of app/broker.py at work: the in-process queue, its loop, and the RabbitMQ publisher.
use auto_bot.Prelude.{
  leb, Bool-cases, eqb_iff, ℕ, ◌≡◌, ◌≤◌, ◌<◌, ◌*◌, ◌+◌, ◌⊎◌, ◌||◌, refl, List, [], ◌∷◌, ◌++◌, none,
  some, true, false, All, any, inl, inr, arith, eqb, length, Bool,
}
use Prim.Native.Nat.{max}
use auto_bot.Broker.Message.{TaskMessage}
use auto_bot.Broker.Memory.{
  pop_at, Entry, MemoryBroker, new_broker, publish, pop_due, due_count, entry_le,
}
use auto_bot.Broker.Memory.Consume.{Machine, Drains, EndsDrained, consume, consume_lem}
use auto_bot.Broker.Memory.Queue.{IsHeap, publish-IsHeap, pop_due_lem}
use auto_bot.Broker.Rabbit as Rabbit
use auto_bot.Broker.Rabbit.{
  RoutingKey, task_queue, dead_letter_queue, retry_queue, Pika, RabbitBroker, bucket_seconds,
  ceil_seconds,
}
use auto_bot.Broker.Rabbit.Buckets.{bucket_seconds_bounds}
use auto_bot.Broker.Rabbit.Publish.{HasDurableQueues, KnowsQueues, IsSent, publish_raw_lem}
use auto_bot.Scheduler.Commit.{commit, memory_queue, live, parked, commit-memory}
use auto_bot.Scheduler.Session.{Session}
use auto_bot.Examples.Data.{early}

abbrev message : ℕ → TaskMessage
message i = record { task_id = i; run_id = 1; task_name = "fetch"; attempt = 0; reason = none }

-- The first message is delayed, the second is not.
abbrev two : MemoryBroker
two = publish 10 (message 2) 0 (publish 10 (message 1) 5 new_broker)

abbrev one : MemoryBroker
one = publish 10 (message 1) 5 new_broker

new-IsHeap : IsHeap new_broker
new-IsHeap = record { sorted = tt; numbered = tt }

one-IsHeap : IsHeap one
one-IsHeap = publish-IsHeap 10 (message 1) 5 new_broker new-IsHeap

two-IsHeap : IsHeap two
two-IsHeap = publish-IsHeap 10 (message 2) 0 one one-IsHeap

pop_due_lem_example :
    (due_count 11 two ≡ 0) × (pop_due 11 two ≡ (none, two))
    ⊎ ((e : Entry) × (rest : MemoryBroker) × (pop_due 11 two ≡ (some e.message, rest))
        × (e.due ≤ 11)
        × (two.heap ≡ e ∷ rest.heap)
        × All (λ f. entry_le e f ≡ true) rest.heap
        × IsHeap rest)
pop_due_lem_example = pop_due_lem 11 two two-IsHeap

bucket_seconds_bounds_example :
    (3000000 ≤ 60000000 → 3000000 ≤ bucket_seconds 60000000 3000000 * 1000000)
    × (bucket_seconds 60000000 3000000 ≤ 2 * max (ceil_seconds 3000000) 1)
    × (0 < 60000000
        → ceil_seconds 60000000 * 1000000 < 3000000
        → bucket_seconds 60000000 3000000 * 1000000 < 3000000)
bucket_seconds_bounds_example = bucket_seconds_bounds 60000000 3000000

-- A transaction that sends one task and gives another one up.
abbrev sending : Session
sending = record early {
  outbox =
      record { message = message 3; delay = 2; dead_letter = false }
      ∷ record { message = message 4; delay = 0; dead_letter = true }
      ∷ [];
}

commit-memory_example :
    let (s', b') = commit (memory_queue 10) sending one in
    (s' ≡ record sending { outbox = [] })
    × (any (λ e. eqb e.message.task_id 3) b'.heap ≡ (
        any (λ m. eqb m.task_id 3) (live sending.outbox)
        || any (λ e. eqb e.message.task_id 3) one.heap))
    × (b'.dead ≡ one.dead ++ parked sending.outbox)
commit-memory_example = commit-memory 10 sending one (λ m. eqb m.task_id 3)

-- A clock with its queue; the handler only takes the message.
record World : Type 0 where
  queue : MemoryBroker
  time : ℕ

abbrev machine : Machine World Unit
machine = record {
  broker = λ w. w.queue;
  with_broker = λ b w. record w { queue = b };
  clock = λ w. w.time;
  sleep = λ d w. record w { time = w.time + d };
  handle = λ m w. inl w;
}

pop_due-length :
    (now : ℕ) (b rest : MemoryBroker) (m : TaskMessage)
    → pop_due now b ≡ (some m, rest)
    → length rest.heap < length b.heap
unfolding pop_due
pop_due-length now b rest m h = shorter b.heap h
  where
    shorter : (es : List Entry) → pop_at now es b ≡ (some m, rest) → length rest.heap < length es
    shorter [] h = cc
    shorter (e ∷ es) h = elim (Bool-cases (leb e.due now)) [
      | inl due ↦ ground arith
      | inr early ↦ absurd (ground arith)
    ]

abbrev left : World → ℕ
left w = length w.queue.heap

machine-Drains : Drains machine (λ w. Unit) left
machine-Drains = record {
  takes =
      λ w m rest i h. (record w { queue = rest }, refl, tt, pop_due-length w.time w.queue rest m h);
  sleeps = λ d w i. (tt, omega arith, refl, omega arith);
}

consume_lem_example :
    EndsDrained machine
      (λ w. Unit)
      true
      (consume machine 6 true (record { queue = two; time = 10 }))
unfolding publish
consume_lem_example =
    consume_lem machine (λ w. Unit) left machine-Drains 6 true (record { queue = two; time = 10 })
      tt (omega arith)

abbrev same_key : RoutingKey → RoutingKey → Bool
same_key task_queue task_queue = true
same_key task_queue dead_letter_queue = false
same_key task_queue (retry_queue t) = false
same_key dead_letter_queue task_queue = false
same_key dead_letter_queue dead_letter_queue = true
same_key dead_letter_queue (retry_queue t) = false
same_key (retry_queue s) task_queue = false
same_key (retry_queue s) dead_letter_queue = false
same_key (retry_queue s) (retry_queue t) = eqb s t

same_key_self : (key : RoutingKey) → same_key key key ≡ true
same_key_self task_queue = refl
same_key_self dead_letter_queue = refl
same_key_self (retry_queue s) = ground (arith, eqb_iff s s)

-- A server that holds the names of the queues and always accepts.
abbrev has_queue : List RoutingKey → RoutingKey → Bool
has_queue keys key = any (λ k. same_key k key) keys

abbrev server : Pika (List RoutingKey)
server = record {
  is_open = λ keys. true;
  connect = λ keys. (true, keys);
  queue_declare = λ key keys. (true, key ∷ keys);
  basic_qos = λ keys. (true, keys);
  basic_publish = λ key m keys. (true, keys);
  close = λ keys. keys;
}

server-HasDurableQueues : HasDurableQueues server has_queue
server-HasDurableQueues = record {
  declares = λ key keys h. ground (arith, same_key_self key);
  declare_keeps = λ key other keys h. ground arith;
  qos_keeps = λ other keys h. h;
  publish_keeps = λ key m other keys h. h;
}

abbrev fresh : RabbitBroker
fresh = record { channel = false; retry_queues = [] }

publish_raw_lem_example :
    let (done, b, keys) = Rabbit.publish_raw server (retry_queue 4) (message 1) fresh [] in
    KnowsQueues server has_queue server-HasDurableQueues b keys
    × (done ≡ true
        → IsSent server has_queue server-HasDurableQueues (retry_queue 4) (message 1) keys)
publish_raw_lem_example =
    publish_raw_lem server has_queue server-HasDurableQueues (retry_queue 4) (message 1) fresh []
      ((λ e. cc), tt)
