-- ===== src/Broker/Rabbit.antt =====
-- The publishing side of `RabbitMQBroker` of app/broker.py. The client library and the server are a
-- parameter: what they hold is a state `Net`, and a call that may raise an AMQP or OS error returns
-- whether it did not. A delay is a number of microseconds.
pub mod Buckets
pub mod Publish
pub mod Receive
use Prim.Native.Nat.{min, max}
use auto_bot.Prelude.{
  ℕ, zero, suc, ◌+◌, ◌*◌, ◌/◌, List, [], ◌∷◌, Bool, true, false, ◌&&◌, leb, eqb, any, if◌then◌else◌,
}
use auto_bot.Broker.Message.{TaskMessage}

-- The names of the queues: the main queue, the dead letter queue, and the holding queue for messages
-- that wait this number of seconds.
pub data RoutingKey : Type 0 where
  task_queue dead_letter_queue : RoutingKey
  retry_queue : ℕ → RoutingKey

-- The calls of pika. `connect` opens a connection and a channel on it.
pub record Pika (Net : Type 0) : Type 0 where
  pub is_open : Net → Bool
  pub connect : Net → Bool × Net
  pub queue_declare : RoutingKey → Net → Bool × Net
  pub basic_qos : Net → Bool × Net
  pub basic_publish : RoutingKey → TaskMessage → Net → Bool × Net
  pub close : Net → Net

-- Whether there is a channel, and the holding queues that have been declared on it.
pub record RabbitBroker : Type 0 where
  pub channel : Bool
  pub retry_queues : List ℕ

-- The whole seconds that a delay takes, rounded up.
abbrev pub ceil_seconds : ℕ → ℕ
ceil_seconds delay = (delay + 999999) / 1000000

-- The first of p, 2p, 4p, … that is not below n.
pub next_power : ℕ → ℕ → ℕ → ℕ
next_power zero p n = p
next_power (suc fuel) p n = let rest = next_power fuel (2 * p) n in if leb n p then p else rest

-- 2 ** ceil(log2(max(delay, 1))): the first power of two that is not below the delay.
abbrev pub power_of_delay : ℕ → ℕ
power_of_delay delay = let n = max (ceil_seconds delay) 1 in next_power n 1 n

-- `maximum` is RETRY_MAX_DELAY.
unfoldable pub bucket_seconds : ℕ → ℕ → ℕ
unfolding next_power
bucket_seconds maximum delay = max 1 (min (power_of_delay delay) (ceil_seconds maximum))

module _ {Net : Type 0} (pika : Pika Net) where
  open pika use {is_open, connect, queue_declare, basic_qos, basic_publish, close}

  abbrev pub and_then : (Net → Bool × Net) → Bool × Net → Bool × Net
  and_then next (false, net) = (false, net)
  and_then next (true, net) = next net

  -- What is called on a new channel; the first call that raises is the last.
  abbrev pub set_up : Net → Bool × Net
  set_up net =
      and_then basic_qos (and_then (queue_declare dead_letter_queue) (queue_declare task_queue net))

  abbrev pub finish_set_up : RabbitBroker → Bool × Net → Bool × RabbitBroker × Net
  finish_set_up b (false, net) = (false, b, net)
  finish_set_up b (true, net) = (true, record b { retry_queues = [] }, net)

  -- The new channel is remembered before it is set up, and so where that raises.
  abbrev pub set_up_channel : RabbitBroker → Bool × Net → Bool × RabbitBroker × Net
  set_up_channel b (false, net) = (false, b, net)
  set_up_channel b (true, net) = finish_set_up (record b { channel = true }) (set_up net)

  -- _ensure_channel
  unfoldable pub ensure_channel : RabbitBroker → Net → Bool × RabbitBroker × Net
  ensure_channel b net =
      if b.channel && is_open net then (true, b, net) else set_up_channel b (connect net)

  -- _retry_queue: a holding queue is declared once for each channel.
  unfoldable pub declare_retry : ℕ → RabbitBroker → Net → Bool × RabbitBroker × Net
  declare_retry seconds b net =
      if any (λ s. eqb s seconds) b.retry_queues
      then (true, b, net)
      else let (done, net') = queue_declare (retry_queue seconds) net in
        (
          done,
          record b { retry_queues = if done then seconds ∷ b.retry_queues else b.retry_queues },
          net',
        )

  -- _reset
  abbrev pub reset : RabbitBroker → Net → RabbitBroker × Net
  reset b net = (record { channel = false; retry_queues = [] }, close net)

  -- What `routing_key_for` does before the message goes out.
  abbrev pub prepare : RoutingKey → RabbitBroker → Net → Bool × RabbitBroker × Net
  prepare (retry_queue seconds) b net = declare_retry seconds b net
  prepare task_queue b net = (true, b, net)
  prepare dead_letter_queue b net = (true, b, net)

  abbrev pub send_prepared :
      RoutingKey → TaskMessage → Bool × RabbitBroker × Net → Bool × RabbitBroker × Net
  send_prepared key message (false, b, net) = (false, b, net)
  send_prepared key message (true, b, net) =
      let (done, net') = basic_publish key message net in (done, b, net')

  abbrev pub send_connected :
      RoutingKey → TaskMessage → Bool × RabbitBroker × Net → Bool × RabbitBroker × Net
  send_connected key message (false, b, net) = (false, b, net)
  send_connected key message (true, b, net) = send_prepared key message (prepare key b net)

  -- The body of the `try`.
  abbrev pub attempt : RoutingKey → TaskMessage → RabbitBroker → Net → Bool × RabbitBroker × Net
  attempt key message b net = send_connected key message (ensure_channel b net)

  -- The `except` branch.
  abbrev pub on_error :
      (RabbitBroker → Net → Bool × RabbitBroker × Net)
      → Bool × RabbitBroker × Net
      → Bool × RabbitBroker × Net
  on_error next (true, b, net) = (true, b, net)
  on_error next (false, b, net) = let (b', net') = reset b net in next b' net'

  -- raise last_error
  abbrev pub give_up : RabbitBroker → Net → Bool × RabbitBroker × Net
  give_up b net = (false, b, net)

  abbrev pub second_attempt :
      RoutingKey → TaskMessage → RabbitBroker → Net → Bool × RabbitBroker × Net
  second_attempt key message b net = on_error give_up (attempt key message b net)

  -- _publish_raw: two attempts. `false` is the raised error.
  unfoldable pub publish_raw :
      RoutingKey → TaskMessage → RabbitBroker → Net → Bool × RabbitBroker × Net
  unfolding ensure_channel declare_retry
  publish_raw key message b net = on_error (second_attempt key message) (attempt key message b net)

  unfoldable pub publish : ℕ → TaskMessage → ℕ → RabbitBroker → Net → Bool × RabbitBroker × Net
  unfolding publish_raw bucket_seconds
  publish maximum message delay b net =
      publish_raw (if eqb delay 0 then task_queue else retry_queue (bucket_seconds maximum delay))
        message b net

  unfoldable pub dead_letter : TaskMessage → RabbitBroker → Net → Bool × RabbitBroker × Net
  unfolding publish_raw
  dead_letter message b net = publish_raw dead_letter_queue message b net
