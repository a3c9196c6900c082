-- ===== src/Broker/Rabbit/Receive.antt =====
-- The consuming side of `RabbitMQBroker` of app/broker.py: what becomes of a delivery. The client's loop
-- calls `on_message` for one delivery after the other; the handler works on a state `W`.
use auto_bot.Broker.Codec.{
  wire-PlainMessage, wire, from_json-to_json, PlainMessage, RendersPlain, WireMessage, Json,
  Decoded, decoded, undecodable, DecodeError, from_json, to_json,
}
use auto_bot.Prelude.{
  ◌∙◌, ap, String, ℕ, refl, ◌≡◌, map, if◌then◌else◌, [], false, All, ◌∷◌, true, List, Bool,
}
use auto_bot.Broker.Rabbit.{
  retry_queue, dead_letter_queue, task_queue, ensure_channel, RoutingKey, RabbitBroker, Pika,
}
use auto_bot.Broker.Message.{TaskMessage, Reason}

-- basic_ack, basic_nack with requeue=True, or an exception that ends the client's loop: the delivery is
-- then neither acked nor nacked.
pub data Reply : Type 0 where
  ack nack_requeue : Reply
  raises : DecodeError → Reply

-- What comes of a handler's call: the value that it returns, or an exception.
pub data Handled : Type 0 where
  returned : Bool → Handled
  exception : Handled

module _ {Bytes W : Type 0} (json : Json Bytes) (handler : WireMessage → W → Handled × W) where
  -- The value is not looked at.
  abbrev pub after_handler : Handled × W → Reply × W
  after_handler (returned value, w) = (ack, w)
  after_handler (exception, w) = (nack_requeue, w)

  abbrev pub on_decoded : Decoded WireMessage → W → Reply × W
  on_decoded (decoded m) w = after_handler (handler m w)
  on_decoded (undecodable e) w = (raises e, w)

  -- on_message
  unfoldable pub on_message : Bytes → W → Reply × W
  unfolding from_json
  on_message body w = on_decoded (from_json json body) w

  -- The deliveries of a session of the client's loop, one by one: the first one that raises ends it.
  abbrev pub next_delivery : (W → List Reply × W) → Reply × W → List Reply × W
  next_delivery rest (raises e, w) = (raises e ∷ [], w)
  next_delivery rest (ack, w) = let (rs, w') = rest w in (ack ∷ rs, w')
  next_delivery rest (nack_requeue, w) = let (rs, w') = rest w in (nack_requeue ∷ rs, w')

  unfoldable pub deliver_all : List Bytes → W → List Reply × W
  unfolding on_message
  deliver_all [] w = ([], w)
  deliver_all (body ∷ bodies) w = next_delivery (deliver_all bodies) (on_message body w)

  abbrev pub has_returned : Handled → Bool
  has_returned (returned value) = true
  has_returned exception = false

  -- The handler called with messages as they are, acked exactly where it does not raise.
  abbrev pub handle_all : List WireMessage → W → List Reply × W
  handle_all [] w = ([], w)
  handle_all (m ∷ ms) w =
      let (outcome, w₁) = handler m w in
      let (rs, w₂) = handle_all ms w₁ in
      ((if has_returned outcome then ack else nack_requeue) ∷ rs, w₂)

  -- Deliveries of plain messages.
  pub deliver_all-to_json :
      RendersPlain json
      → (ms : List WireMessage) (w : W) → All PlainMessage ms
      → deliver_all (map (to_json json) ms) w ≡ handle_all ms w
  unfolding deliver_all on_message
  deliver_all-to_json renders [] w plain = refl
  deliver_all-to_json renders (m ∷ ms) w plain =
      rw (from_json-to_json json renders m plain.0)
        (by_reply (handler m w) (deliver_all-to_json renders ms (handler m w).1 plain.1))
    where
      by_reply :
          (r : Handled × W)
          → deliver_all (map (to_json json) ms) r.1 ≡ handle_all ms r.1
          → next_delivery (deliver_all (map (to_json json) ms)) (after_handler r) ≡ (
              let (rs, w₂) = handle_all ms r.1 in
              ((if has_returned r.0 then ack else nack_requeue) ∷ rs, w₂))
      by_reply (returned value, w₁) h = rw h refl
      by_reply (exception, w₁) h = rw h refl

  -- Deliveries of what the scheduler has published, as JSON, are handled as the messages that were
  -- published, all of them and in their order: each is acked if the handler returns, whatever value it
  -- returns, and put back if it raises, and none ends the client's loop. (`json` gives a dictionary of strings, whole numbers and
  -- `None` back as it was.)
  pub deliver_all-published :
      (uuid : ℕ → String) (text : Reason → String)
      → RendersPlain json
      → (ms : List TaskMessage) (w : W)
      → deliver_all (map (λ m. to_json json (wire uuid text m)) ms) w
        ≡ handle_all (map (wire uuid text) ms) w
  deliver_all-published uuid text renders ms w =
      ap (λ bodies. deliver_all bodies w) (map-map ms)
      ∙ deliver_all-to_json renders (map (wire uuid text) ms) w (plain ms)
    where
      map-map :
          (xs : List TaskMessage)
          → map (λ m. to_json json (wire uuid text m)) xs
            ≡ map (to_json json) (map (wire uuid text) xs)
      map-map [] = refl
      map-map (x ∷ xs) = ap (λ ys. to_json json (wire uuid text x) ∷ ys) (map-map xs)

      plain : (xs : List TaskMessage) → All PlainMessage (map (wire uuid text) xs)
      plain [] = tt
      plain (x ∷ xs) = (wire-PlainMessage uuid text x, plain xs)

module _ {Net : Type 0} (pika : Pika Net) where
  -- close: the remembered holding queues stay, until the next channel is opened.
  unfoldable pub close_broker : RabbitBroker → Net → RabbitBroker × Net
  close_broker b net = (record b { channel = false }, pika.close net)

  -- `queue_purge` of the channel, which returns whether it has not raised.
  abbrev pub purge_all : (RoutingKey → Net → Bool × Net) → List RoutingKey → Net → Bool × Net
  purge_all queue_purge [] net = (true, net)
  purge_all queue_purge (key ∷ keys) net =
      let (done, net') = queue_purge key net in
      let rest = purge_all queue_purge keys net' in if done then rest else (false, net')

  abbrev pub purge_connected :
      (RoutingKey → Net → Bool × Net) → Bool × RabbitBroker × Net → Bool × RabbitBroker × Net
  purge_connected queue_purge (false, b, net) = (false, b, net)
  purge_connected queue_purge (true, b, net) =
      let (done, net') =
        purge_all queue_purge
          (task_queue ∷ dead_letter_queue ∷ map (λ s. retry_queue s) b.retry_queues) net in
      (done, b, net')

  -- purge: the queues of the program that the broker knows, in a set's order for the holding queues.
  unfoldable pub purge :
      (RoutingKey → Net → Bool × Net) → RabbitBroker → Net → Bool × RabbitBroker × Net
  unfolding ensure_channel
  purge queue_purge b net = purge_connected queue_purge (ensure_channel pika b net)
