-- ===== src/Broker/Memory/Queue.antt =====
-- The in-process queue hands out what is due, the earliest first, and in the order of publication
-- among messages that are due at once.
use auto_bot.Prelude.Sort.{sort, insert}
use auto_bot.Broker.Message.{TaskMessage}
use auto_bot.Broker.Memory.{
  Entry, MemoryBroker, entry_le, new_entry, publish, pop_due, pop_at, due_count, messages,
}
use auto_bot.Prelude.{
  suc, ap, ◌++◌, refl, ◌+◌, map, ◌<◌, inr, inl, length, some, [], All-map, ◌⊎◌, keep, Bool-cases,
  arith, none, leb, false, true, ◌≤◌, ◌∷◌, ℕ, ◌≡◌, All, List,
}

-- Each entry stands before all that come later in the list.
abbrev pub IsSorted : List Entry → Type 0
IsSorted [] = Unit
IsSorted (e ∷ es) = All (λ f. entry_le e f ≡ true) es × IsSorted es

-- The heap is in order, and no entry has a number that is still to be given.
pub record IsHeap (b : MemoryBroker) : Type 0 where
  pub sorted : IsSorted b.heap
  pub numbered : All (λ e. e.number ≤ b.counter) b.heap

entry_le_trans : (a b c : Entry) → entry_le a b ≡ true → entry_le b c ≡ true → entry_le a c ≡ true
entry_le_trans a b c h k = ground arith

entry_le_total : (a b : Entry) → entry_le a b ≡ false → entry_le b a ≡ true
entry_le_total a b h = ground arith

All-insert {ℓ} :
    (P : Entry → Type ℓ) (e : Entry) (es : List Entry)
    → P e
    → All P es
    → All P (insert entry_le e es)
All-insert P e [] h k = (h, tt)
All-insert P e (f ∷ es) h k = elim (Bool-cases (entry_le e f)) [
  | inl first ↦ rw first (h, k)
  | inr later ↦ rw later (k.0, All-insert P e es h k.1)
]

insert-IsSorted : (e : Entry) (es : List Entry) → IsSorted es → IsSorted (insert entry_le e es)
insert-IsSorted e [] h = (tt, tt)
insert-IsSorted e (f ∷ es) h = elim (Bool-cases (entry_le e f)) [
  | inl first ↦
      rw first ((first, All-map (λ g before. entry_le_trans e f g first before) es h.0), h)
  | inr later ↦
      rw later (All-insert _ e es (entry_le_total e f later) h.0, insert-IsSorted e es h.1)
]

pub publish-IsHeap :
    (now : ℕ) (m : TaskMessage) (delay : ℕ) (b : MemoryBroker)
    → IsHeap b
    → IsHeap (publish now m delay b)
unfolding publish
publish-IsHeap now m delay b h = record {
  sorted = insert-IsSorted (new_entry now m delay b) b.heap h.sorted;
  numbered =
      All-insert _ (new_entry now m delay b) b.heap (omega arith)
        (All-map (λ e below. omega arith) b.heap h.numbered);
}

-- What is in front is a smallest entry, so nothing is due if it is not.
none_due :
    (now : ℕ) (e : Entry) (es : List Entry)
    → leb e.due now ≡ false
    → All (λ f. entry_le e f ≡ true) es
    → keep (λ (f : Entry). leb f.due now) es ≡ []
none_due now e [] h k = refl
none_due now e (f ∷ es) h k = ground (arith, none_due now e es)

-- A pop of a queue in order takes a message exactly if some entry is due, and then the first entry:
-- it is due, no entry that is left comes before it, and the rest stays in order.
pub pop_due_lem :
    (now : ℕ) (b : MemoryBroker)
    → IsHeap b
    → (due_count now b ≡ 0) × (pop_due now b ≡ (none, b))
      ⊎ ((e : Entry) × (rest : MemoryBroker) × (pop_due now b ≡ (some e.message, rest))
          × (e.due ≤ now)
          × (b.heap ≡ e ∷ rest.heap)
          × All (λ f. entry_le e f ≡ true) rest.heap
          × IsHeap rest)
unfolding pop_due due_count
pop_due_lem now b h = taken b.heap h.sorted h.numbered
  where
    taken :
        (es : List Entry)
        → IsSorted es
        → All (λ e. e.number ≤ b.counter) es
        → (length (keep (λ (f : Entry). leb f.due now) es) ≡ 0) × (pop_at now es b ≡ (none, b))
          ⊎ ((e : Entry) × (rest : MemoryBroker) × (pop_at now es b ≡ (some e.message, rest))
              × (e.due ≤ now)
              × (es ≡ e ∷ rest.heap)
              × All (λ f. entry_le e f ≡ true) rest.heap
              × IsHeap rest)
    taken [] sorted numbered = inl (refl, refl)
    taken (e ∷ es) sorted numbered = elim (Bool-cases (leb e.due now)) [
      | inl due ↦ inr (
        e,
        record b { heap = es },
        rw due,
        ground arith,
        refl,
        sorted.0,
        record { sorted = sorted.1; numbered = numbered.1 },
      )
      | inr early ↦ inl (rw (early, none_due now e es early sorted.0), rw early)
    ]

insert-last :
    (e : Entry) (es : List Entry)
    → All (λ f. (f.due ≤ e.due) × (f.number < e.number)) es
    → insert entry_le e es ≡ es ++ e ∷ []
insert-last e [] h = refl
insert-last e (f ∷ es) h = ground (arith, h.0, insert-last e es)

insert-first :
    (e : Entry) (es : List Entry)
    → All (λ f. entry_le e f ≡ true) es
    → insert entry_le e es ≡ e ∷ es
insert-first e [] h = refl
insert-first e (f ∷ es) h = ground arith

sort-IsSorted : (es : List Entry) → IsSorted es → sort entry_le es ≡ es
sort-IsSorted [] h = refl
sort-IsSorted (e ∷ es) h = rw (sort-IsSorted es h.1) (insert-first e es h.0)

map-append_one :
    (es : List Entry) (e : Entry)
    → map (λ (f : Entry). f.message) (es ++ e ∷ []) ≡ map (λ f. f.message) es ++ e.message ∷ []
map-append_one [] e = refl
map-append_one (f ∷ es) e = ap (λ ms. f.message ∷ ms) (map-append_one es e)

-- A message that is published goes last if no message of the queue is due after it: so with one delay,
-- and times that do not go back, messages are handed out in the order of their publication.
pub publish-messages :
    (now : ℕ) (m : TaskMessage) (delay : ℕ) (b : MemoryBroker)
    → IsHeap b
    → All (λ e. e.due ≤ now + delay) b.heap
    → messages (publish now m delay b) ≡ messages b ++ m ∷ []
unfolding publish messages
publish-messages now m delay b h early =
    let e = new_entry now m delay b in
    rw
      (
        sort-IsSorted (insert entry_le e b.heap) (insert-IsSorted e b.heap h.sorted),
        sort-IsSorted b.heap h.sorted,
        insert-last e b.heap (All-both b.heap early h.numbered),
      )
      (map-append_one b.heap e)
  where
    All-both :
        (es : List Entry)
        → All (λ e. e.due ≤ now + delay) es
        → All (λ e. e.number ≤ b.counter) es
        → All (λ f. (f.due ≤ now + delay) × (f.number < suc b.counter)) es
    All-both [] k l = tt
    All-both (e ∷ es) k l = ((k.0, omega arith), All-both es k.1 l.1)
