-- ===== src/Broker/Rabbit/Publish.antt =====
-- A publication that returns has been accepted by the server, on a queue that the server has.
use auto_bot.Prelude.{
  arith, ℕ, ◌≡◌, refl, List, [], ◌∷◌, Bool, true, false, ◌&&◌, eqb, eqb_iff, any, All, All-map,
  subst, Bool-cases, inl, inr,
}
use auto_bot.Broker.Message.{TaskMessage}
use auto_bot.Broker.Rabbit.{
  finish_set_up, set_up_channel, set_up, and_then, give_up, second_attempt, RoutingKey, task_queue,
  dead_letter_queue, retry_queue, Pika, RabbitBroker, ensure_channel, declare_retry, prepare,
  send_prepared, send_connected, attempt, on_error, publish_raw,
}

-- What the program relies on of the server: a queue that has been declared is there, and since it is
-- durable, it stays, whatever is declared or published.
pub record HasDurableQueues {Net : Type 0} (pika : Pika Net) (declared : Net → RoutingKey → Bool)
    : Type 0 where
  pub declares :
      (key : RoutingKey) (net : Net)
      → (pika.queue_declare key net).0 ≡ true
      → declared (pika.queue_declare key net).1 key ≡ true
  pub declare_keeps :
      (key other : RoutingKey) (net : Net)
      → declared net other ≡ true
      → declared (pika.queue_declare key net).1 other ≡ true
  pub qos_keeps :
      (other : RoutingKey) (net : Net)
      → declared net other ≡ true
      → declared (pika.basic_qos net).1 other ≡ true
  pub publish_keeps :
      (key : RoutingKey) (m : TaskMessage) (other : RoutingKey) (net : Net)
      → declared net other ≡ true
      → declared (pika.basic_publish key m net).1 other ≡ true

module _ {Net : Type 0} (pika : Pika Net) (declared : Net → RoutingKey → Bool)
    (server : HasDurableQueues pika declared) where
  abbrev pub IsDeclared : RoutingKey → Net → Type 0
  IsDeclared key net = declared net key ≡ true

  -- The main queue, the dead letter queue and the holding queues that the broker remembers.
  abbrev pub OnServer : RabbitBroker → Net → Type 0
  OnServer b net =
      (IsDeclared task_queue net × IsDeclared dead_letter_queue net)
      × All (λ s. IsDeclared (retry_queue s) net) b.retry_queues

  -- The holding queues that the broker remembers are on the server, and where it has a channel, the main
  -- queue and the dead letter queue are as well.
  abbrev pub KnowsQueues : RabbitBroker → Net → Type 0
  KnowsQueues b net =
      (b.channel ≡ true → IsDeclared task_queue net × IsDeclared dead_letter_queue net)
      × All (λ s. IsDeclared (retry_queue s) net) b.retry_queues

  -- The message has gone out, on a queue that was there, in the call that led to this state.
  abbrev pub IsSent : RoutingKey → TaskMessage → Net → Type 0
  IsSent key m net' =
      (net : Net) × (pika.basic_publish key m net ≡ (true, net')) × IsDeclared key net

  abbrev Done : (Net → Type 0) → Bool × Net → Type 0
  Done P (done, net) = done ≡ true → P net

  and_then-Done :
      (P Q : Net → Type 0) (next : Net → Bool × Net) (r : Bool × Net)
      → Done P r
      → ((net : Net) → P net → Done Q (next net))
      → Done Q (and_then pika next r)
  and_then-Done P Q next (false, net) h k = λ e. cc
  and_then-Done P Q next (true, net) h k = k net (h refl)

  set_up-Done :
      (net : Net)
      → Done (λ x. IsDeclared task_queue x × IsDeclared dead_letter_queue x) (set_up pika net)
  set_up-Done net =
      and_then-Done (λ x. IsDeclared task_queue x × IsDeclared dead_letter_queue x)
        (λ x. IsDeclared task_queue x × IsDeclared dead_letter_queue x) pika.basic_qos
        (and_then pika (pika.queue_declare dead_letter_queue) (pika.queue_declare task_queue net))
        (and_then-Done (IsDeclared task_queue)
          (λ x. IsDeclared task_queue x × IsDeclared dead_letter_queue x)
          (pika.queue_declare dead_letter_queue) (pika.queue_declare task_queue net)
          (server.declares task_queue net)
          (λ x h done. (
            server.declare_keeps dead_letter_queue task_queue x h,
            server.declares dead_letter_queue x done,
          )))
        (λ x h done. (server.qos_keeps task_queue x h.0, server.qos_keeps dead_letter_queue x h.1))

  -- What holds after a step that has not raised.
  abbrev Fine : (RabbitBroker → Net → Type 0) → Bool × RabbitBroker × Net → Type 0
  Fine P (done, b, net) = done ≡ true → P b net

  set_up_channel-Fine :
      (b : RabbitBroker) (r : Bool × Net) → Fine OnServer (set_up_channel pika b r)
  set_up_channel-Fine b (false, net) = λ e. cc
  set_up_channel-Fine b (true, net) =
      finished (record b { channel = true }) (set_up pika net) (set_up-Done net)
    where
      finished :
          (b' : RabbitBroker) (r : Bool × Net)
          → Done (λ x. IsDeclared task_queue x × IsDeclared dead_letter_queue x) r
          → Fine OnServer (finish_set_up pika b' r)
      finished b' (false, net') h = λ e. cc
      finished b' (true, net') h = λ e. (h refl, tt)

  ensure_channel-Fine :
      (b : RabbitBroker) (net : Net) → KnowsQueues b net → Fine OnServer (ensure_channel pika b net)
  unfolding ensure_channel
  ensure_channel-Fine b net h = elim (Bool-cases (b.channel && pika.is_open net)) [
    | inl live ↦ rw live (λ e. (h.0 (ground arith), h.1))
    | inr down ↦ rw down (set_up_channel-Fine b (pika.connect net))
  ]

  known-IsDeclared :
      (s : ℕ) (net : Net) (qs : List ℕ)
      → All (λ q. IsDeclared (retry_queue q) net) qs
      → any (λ q. eqb q s) qs ≡ true
      → IsDeclared (retry_queue s) net
  known-IsDeclared s net [] h e = cc
  known-IsDeclared s net (q ∷ qs) h e = elim (Bool-cases (eqb q s)) [
    | inl here ↦ subst (λ x. IsDeclared (retry_queue x) net) ((eqb_iff q s).0 here) h.0
    | inr other ↦ known-IsDeclared s net qs h.1 (rw other at e)
  ]

  abbrev Ready : RoutingKey → RabbitBroker → Net → Type 0
  Ready key b net = OnServer b net × IsDeclared key net

  prepare-Fine :
      (key : RoutingKey) (b : RabbitBroker) (net : Net)
      → OnServer b net
      → Fine (Ready key) (prepare pika key b net)
  unfolding declare_retry
  prepare-Fine task_queue b net h = λ e. (h, h.0.0)
  prepare-Fine dead_letter_queue b net h = λ e. (h, h.0.1)
  prepare-Fine (retry_queue s) b net h = elim (Bool-cases (any (λ q. eqb q s) b.retry_queues)) [
    | inl known ↦ rw known (λ e. (h, known-IsDeclared s net b.retry_queues h.1 known))
    | inr new ↦
        let keeps = λ (key : RoutingKey). server.declare_keeps (retry_queue s) key net in
        let kept = All-map (λ q here. keeps (retry_queue q) here) b.retry_queues h.1 in
        rw new (λ done.
          let here = server.declares (retry_queue s) net done in
          rw done (((keeps task_queue h.0.0, keeps dead_letter_queue h.0.1), (here, kept)), here))
  ]

  abbrev Sent : RoutingKey → TaskMessage → RabbitBroker → Net → Type 0
  Sent key m b net = OnServer b net × IsSent key m net

  send_prepared-Fine :
      (key : RoutingKey) (m : TaskMessage) (r : Bool × RabbitBroker × Net)
      → Fine (Ready key) r
      → Fine (Sent key m) (send_prepared pika key m r)
  send_prepared-Fine key m (false, b, net) h = λ e. cc
  send_prepared-Fine key m (true, b, net) h = λ done.
      let ((main, holding), here) = h refl in
      (
        (
          (
            server.publish_keeps key m task_queue net main.0,
            server.publish_keeps key m dead_letter_queue net main.1,
          ),
          All-map (λ q k. server.publish_keeps key m (retry_queue q) net k) b.retry_queues holding,
        ),
        (net, (λ i. (done i, (pika.basic_publish key m net).1)), here),
      )

  attempt-Fine :
      (key : RoutingKey) (m : TaskMessage) (b : RabbitBroker) (net : Net)
      → KnowsQueues b net
      → Fine (Sent key m) (attempt pika key m b net)
  attempt-Fine key m b net h = connected (ensure_channel pika b net) (ensure_channel-Fine b net h)
    where
      connected :
          (r : Bool × RabbitBroker × Net)
          → Fine OnServer r
          → Fine (Sent key m) (send_connected pika key m r)
      connected (false, b₁, net₁) k = λ e. cc
      connected (true, b₁, net₁) k =
          send_prepared-Fine key m (prepare pika key b₁ net₁) (prepare-Fine key b₁ net₁ (k refl))

  abbrev Outcome : RoutingKey → TaskMessage → Bool × RabbitBroker × Net → Type 0
  Outcome key m (done, b, net) = KnowsQueues b net × (done ≡ true → IsSent key m net)

  -- An attempt, and what follows on a broker that has been reset if it raises.
  on_error-Outcome :
      (key : RoutingKey) (m : TaskMessage) (next : RabbitBroker → Net → Bool × RabbitBroker × Net)
      (r : Bool × RabbitBroker × Net)
      → ((b' : RabbitBroker) (net' : Net) → KnowsQueues b' net' → Outcome key m (next b' net'))
      → Fine (Sent key m) r
      → Outcome key m (on_error pika next r)
  on_error-Outcome key m next (true, b, net) h k =
      let (here, sent) = k refl in (((λ e. here.0), here.1), λ e. sent)
  on_error-Outcome key m next (false, b, net) h k =
      h (record { channel = false; retry_queues = [] }) (pika.close net) ((λ e. cc), tt)

  -- Where the holding queues that the broker remembers are on the server, with the main queue and the
  -- dead letter queue if it has a channel, and queues that have been declared stay there: after a
  -- publication, with its second attempt where the first one fails, the same holds, and if the call
  -- has not raised, the server has accepted the message, on a queue that it had at that moment.
  pub publish_raw_lem :
      (key : RoutingKey) (m : TaskMessage) (b : RabbitBroker) (net : Net)
      → KnowsQueues b net
      → let (done, b', net') = publish_raw pika key m b net in
        KnowsQueues b' net' × (done ≡ true → IsSent key m net')
  unfolding publish_raw
  publish_raw_lem key m b net h =
      on_error-Outcome key m (second_attempt pika key m) (attempt pika key m b net)
        (λ b₁ net₁ k₁.
          on_error-Outcome key m (give_up pika) (attempt pika key m b₁ net₁)
            (λ b₂ net₂ k₂. (k₂, λ e. cc)) (attempt-Fine key m b₁ net₁ k₁))
        (attempt-Fine key m b net h)
