-- ===== src/Worker/Drained.antt =====
-- `Worker.handle` of app/worker.py under the consuming loop of app/broker.py: what is left to do.
use auto_bot.Worker.Run.{Site, Surroundings, world_of, worker_machine, handle_here, deliver}
use auto_bot.Broker.Memory.Consume.{consume, consume_lem, returned, Drains}
use auto_bot.Scheduler.Commit.{flush_outbox-length, commit}
use auto_bot.Prelude.{
  ◌<◌, eqb, ap, any, leb, inr, Bool-cases, inl, ◌∷◌, ◌∙◌, All, true, false, List, ◌≤◌, arith, suc,
  refl, ◌*◌, [], some, length, ◌+◌, ◌≡◌, String, ℕ,
}
use auto_bot.Scheduler.Session.{TaskMessage, Session}
use auto_bot.Broker.Memory.{pop_at, Entry, MemoryBroker, pop_due}
use auto_bot.Scheduler.Potential.{potential}
use auto_bot.Scheduler.Driven.{IsDriven}
use auto_bot.Scheduler.Driven.Moves.{nobody}
use auto_bot.Scheduler.Turns.{commit-HasMessages, held_in, HasMessages, commit_world}
use auto_bot.Recovery.Returns.{has_run}
use auto_bot.Worker.Drives.{handle-Drives, SameRows}
use auto_bot.Scheduler.Progress.{in_flight_row, IsClosed, in_flight}
use auto_bot.Models.{is_running, is_queued, Task}
use auto_bot.Worker.Announces.{handle-IsAnnounced}

-- The work that is left: what the tasks can still cost, and the messages in the queue.
abbrev pub left : Site → ℕ
left w = potential w.tables + length w.queue.heap

-- No run waits for nothing, no task is running, and every queued task has a message in the queue; the
-- runs are those of the tables at the start.
pub record IsReady (start : Session) (w : Site) : Type 0 where
  pub driven : IsDriven nobody nobody w.tables
  pub held : HasMessages (world_of w)
  pub same_runs : (i : ℕ) → has_run i w.tables ≡ has_run i start

popped-length :
    (now : ℕ) (b rest : MemoryBroker) (m : TaskMessage)
    → pop_due now b ≡ (some m, rest)
    → length b.heap ≡ suc (length rest.heap)
unfolding pop_due
popped-length now b rest m h = by_heap b.heap h
  where
    by_heap :
        (es : List Entry) → pop_at now es b ≡ (some m, rest) → length es ≡ suc (length rest.heap)
    by_heap [] h = cc
    by_heap (e ∷ es) h = elim (Bool-cases (leb e.due now)) [
      | inl due ↦ let rows : rest.heap ≡ es = ground arith in rw rows refl
      | inr early ↦ absurd (ground arith)
    ]

commit-left :
    (now t : ℕ) (s : Session) (b : MemoryBroker)
    → let world = commit_world now s b in
      left (record { tables = world.tables; queue = world.queue; time = t })
      ≡ potential s + length b.heap
unfolding commit
commit-left now t s b = let sent = flush_outbox-length now s.outbox b in omega (arith, sent)

pub commit-IsDriven :
    (now : ℕ) (s : Session) (b : MemoryBroker)
    → IsDriven nobody nobody s
    → IsDriven nobody nobody (commit_world now s b).tables
unfolding commit
commit-IsDriven now s b h = record {
  unique = h.unique;
  limits = h.limits;
  resting = h.resting;
  settled = h.settled;
}

pub commit-has_run :
    (now i : ℕ) (s : Session) (b : MemoryBroker)
    → has_run i (commit_world now s b).tables ≡ has_run i s
unfolding commit
commit-has_run now i s b = refl

module _ {Handler : Type 0} (around : Surroundings Handler) (worker_id : String) (max_chars : ℕ)
    (on_time : (t : ℕ) → (around.env_at t).now ≡ t)
    (aside : (s : Session) → SameRows s (around.meanwhile s)) (start : Session) where
  pub delivered-IsReady :
      (w : Site) (m : TaskMessage) (rest : MemoryBroker)
      → IsReady start w
      → pop_due w.time w.queue ≡ (some m, rest)
      → (w' : Site) × (handle_here around worker_id max_chars m (record w { queue = rest })
          ≡ inl w')
        × IsReady start w'
        × (left w' < left w)
  unfolding handle_here deliver
  delivered-IsReady w m rest ready popped =
      let then = w.time + around.lasts m (record w { queue = rest }) in
      let (s', acks, driven, less, runs) =
        handle-Drives around.call around.default_handler around.registry (around.env_at w.time)
          (around.env_at then) worker_id max_chars around.meanwhile aside m w.tables ready.driven in
      let popped_then : pop_due (around.env_at w.time).now w.queue ≡ (some m, rest) =
        ap (λ t. pop_due t w.queue) (on_time w.time) ∙ popped in
      let announced =
        handle-IsAnnounced around.call around.default_handler around.registry (around.env_at w.time)
          (around.env_at then) worker_id max_chars around.meanwhile aside (world_of w) m rest s'
          popped_then ready.held ready.driven acks in
      let world = commit_world then s' rest in
      let fewer = popped-length w.time w.queue rest m popped in
      let rank = commit-left then then s' rest in
      (
        record { tables = world.tables; queue = world.queue; time = then },
        rw acks refl,
        record {
          driven = commit-IsDriven then s' rest driven;
          held = commit-HasMessages then s' rest announced;
          same_runs = λ i. commit-has_run then i s' rest ∙ runs i ∙ ready.same_runs i;
        },
        omega (arith, rank, less, fewer),
      )

  pub worker-Drains : Drains (worker_machine around worker_id max_chars) (IsReady start) left
  unfolding worker_machine
  worker-Drains = record {
    takes = λ w m rest ready popped. delivered-IsReady w m rest ready popped;
    sleeps = λ d w ready. (
      record { driven = ready.driven; held = ready.held; same_runs = ready.same_runs },
      omega arith,
      refl,
      omega arith,
    );
  }

  -- With nothing in the queue no task is queued or running.
  empty-at_rest :
      (w : Site) (i : ℕ) → IsReady start w → w.queue.heap ≡ [] → in_flight i w.tables ≡ false
  empty-at_rest w i ready empty = rests w.tables.tasks ready.held.held ready.driven.resting
    where
      rests :
          (ts : List Task)
          → All (λ t. is_queued t.status ≡ true → held_in w.queue t.id ≡ true) ts
          → All (λ t. is_running t.status ≡ true → nobody t.id ≡ true) ts
          → any (in_flight_row i) ts ≡ false
      rests [] a b = refl
      rests (t ∷ ts) a b = ground (
        arith,
        a.0,
        b.0,
        ap (any (λ (e : Entry). eqb e.message.task_id t.id)) empty,
        rests ts a.1 b.1,
      )

  -- With nothing in the queue every run is closed.
  pub all-IsClosed :
      (w : Site) (i : ℕ)
      → IsReady start w
      → w.queue.heap ≡ []
      → has_run i start ≡ true
      → IsClosed i w.tables
  all-IsClosed w i ready empty there =
      elim (ready.driven.settled i (ready.same_runs i ∙ there) refl) [
        | inl flying ↦ absurd (let resting = empty-at_rest w i ready empty in cc)
        | inr closed ↦ closed
      ]

  -- A worker on the in-process broker that waits for what is delayed consumes all of it and returns, and
  -- every run is then closed, whichever handlers raise. Twice the work that is left at the start, and
  -- two rounds, are enough. (At the start no run waits for nothing, no task is running and every queued
  -- task has a message in the queue; nothing else writes tasks or runs.)
  pub consume-IsClosed :
      (fuel : ℕ) (w : Site)
      → IsReady start w
      → 2 * left w + 2 ≤ fuel
      → (w' : Site) × (consume (worker_machine around worker_id max_chars) fuel true w
          ≡ returned w')
        × (w'.queue.heap ≡ [])
        × ((i : ℕ) → has_run i start ≡ true → IsClosed i w'.tables)
  unfolding worker_machine
  consume-IsClosed fuel w ready enough =
      let (w', ended, here, empty) =
        consume_lem (worker_machine around worker_id max_chars) (IsReady start) left worker-Drains
          fuel true w ready enough in
      (w', ended, empty, (λ i there. all-IsClosed w' i here empty there))
