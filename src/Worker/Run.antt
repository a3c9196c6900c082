-- ===== src/Worker/Run.antt =====
-- `Worker.run` of app/worker.py on the in-process broker: `broker.consume(self.handle)`. The world is the
-- tables, the queue and the time; a handler takes time, and a sleep may last longer than asked.
use auto_bot.Broker.Memory.Consume.{Machine}
use auto_bot.Scheduler.Session.{TaskMessage, Env, Fault, Session}
use auto_bot.Scheduler.Turns.{commit_world, World}
use auto_bot.Executors.{TaskContext}
use auto_bot.Prelude.{inr, inl, ◌⊎◌, ◌+◌, String, ℕ}
use auto_bot.Broker.Memory.{MemoryBroker}
use auto_bot.Worker.{raised_by, acked, handle, Delivery, Dict, Execution}

pub record Site : Type 0 where
  pub tables : Session
  pub queue : MemoryBroker
  pub time : ℕ

abbrev pub world_of : Site → World
world_of w = record { tables = w.tables; queue = w.queue }

-- What surrounds a worker: the handlers, the settings and the jitter at each time, how long the handler
-- of a message runs, by how much a sleep is too long, and what other transactions do while a handler
-- runs.
pub record Surroundings (Handler : Type 0) : Type 0 where
  pub call : Handler → TaskContext → Execution
  pub default_handler : Handler
  pub registry : Dict Handler
  pub env_at : ℕ → Env
  pub lasts : TaskMessage → Site → ℕ
  pub oversleeps : ℕ → Site → ℕ
  pub meanwhile : Session → Session

-- A delivery that is acked has committed its report, and its publications are in the queue; an exception
-- passes through the broker's loop.
abbrev pub after_delivery : ℕ → MemoryBroker → Delivery → Site ⊎ Fault
after_delivery now b (acked s) =
    let world = commit_world now s b in
    inl (record { tables = world.tables; queue = world.queue; time = now })
after_delivery now b (raised_by fault s) = inr fault

module _ {Handler : Type 0} (around : Surroundings Handler) (worker_id : String)
    (max_chars : ℕ) where
  unfoldable pub deliver : TaskMessage → Site → Delivery
  unfolding handle
  deliver message w =
      handle around.call around.default_handler around.registry (around.env_at w.time)
        (around.env_at (w.time + around.lasts message w)) worker_id max_chars around.meanwhile
        message w.tables

  unfoldable pub handle_here : TaskMessage → Site → Site ⊎ Fault
  unfolding deliver
  handle_here message w =
      after_delivery (w.time + around.lasts message w) w.queue (deliver message w)

  unfoldable pub worker_machine : Machine Site Fault
  unfolding handle_here
  worker_machine = record {
    broker = λ w. w.queue;
    with_broker = λ b w. record w { queue = b };
    clock = λ w. w.time;
    sleep = λ d w. record w { time = w.time + d + around.oversleeps d w };
    handle = handle_here;
  }
