-- ===== src/Broker/Codec.antt =====
-- A message on the wire: `TaskMessage.to_json` and `from_json` of app/broker.py. The module `json` is a
-- parameter. Nothing checks the types of what arrives, so a field of a message is any JSON value, and
-- `None` is `null`.
use auto_bot.Dag.Parse.{lookup}
use auto_bot.Dag.Spec.{Value, Fields, null, bool, int, float, str, list, dict, field, end}
use auto_bot.Prelude.Int.{pos}
use auto_bot.Prelude.{ℕ, Option, none, some, Bool, true, false, String, if◌then◌else◌, ◌≡◌, refl}
use auto_bot.Broker.Message.{TaskMessage, Reason}

pub record WireMessage : Type 0 where
  pub task_id : Value
  pub run_id : Value
  pub task_name : Value
  pub attempt : Value
  pub reason : Value

abbrev reason_value : (Reason → String) → Option Reason → Value
reason_value text none = null
reason_value text (some reason) = str (text reason)

-- The message that stands for one of the scheduler: `uuid` writes an id, and `text` a reason.
abbrev pub wire : (ℕ → String) → (Reason → String) → TaskMessage → WireMessage
wire uuid text m = record {
  task_id = str (uuid m.task_id);
  run_id = str (uuid m.run_id);
  task_name = str m.task_name;
  attempt = int (pos m.attempt);
  reason = reason_value text m.reason;
}

-- What decoding raises: an error of `json.loads`, a `TypeError` for a value that is no dictionary, a
-- `KeyError`.
pub data DecodeError : Type 0 where
  not_json not_dict : DecodeError
  no_key : String → DecodeError

pub data Decoded {ℓ} (A : Type ℓ) : Type ℓ where
  decoded : A → Decoded A
  undecodable : DecodeError → Decoded A

infixl 5 ◌>>=◌
abbrev ◌>>=◌ {ℓ κ} : {B : Type κ} {A : Type ℓ} → Decoded A → (A → Decoded B) → Decoded B
undecodable e >>= next = undecodable e
decoded a >>= next = next a

abbrev is_none : Value → Bool
is_none null = true
is_none (bool b) = false
is_none (int n) = false
is_none (float m e) = false
is_none (str s) = false
is_none (list items) = false
is_none (dict fields) = false

abbrev reason_field : Value → Fields
reason_field reason = if is_none reason then end else field "reason" reason end

unfoldable pub to_payload : WireMessage → Fields
to_payload m = field "task_id" m.task_id (
    field "run_id" m.run_id
      (field "task_name" m.task_name (field "attempt" m.attempt (reason_field m.reason))))

-- data[k]
abbrev required : Fields → String → Decoded Value
required fields k = elim (lookup fields k) [ none ↦ undecodable (no_key k) | some v ↦ decoded v ]

-- data.get(k, default)
abbrev or_default : Value → Option Value → Value
or_default default none = default
or_default default (some v) = v

unfoldable pub from_payload : Value → Decoded WireMessage
from_payload (dict fields) = do
  task_id ← required fields "task_id"
  run_id ← required fields "run_id"
  task_name ← required fields "task_name"
  decoded (record {
    task_id = task_id;
    run_id = run_id;
    task_name = task_name;
    attempt = or_default (int (pos 0)) (lookup fields "attempt");
    reason = or_default null (lookup fields "reason");
  })
from_payload _ = undecodable not_dict

-- `json.dumps` with `.encode()`, and `json.loads`, which may raise.
pub record Json (Bytes : Type 0) : Type 0 where
  pub dumps : Value → Bytes
  pub loads : Bytes → Option Value

module _ {Bytes : Type 0} (json : Json Bytes) where
  open json use {dumps, loads}

  unfoldable pub to_json : WireMessage → Bytes
  unfolding to_payload
  to_json m = dumps (dict (to_payload m))

  abbrev from_value : Option Value → Decoded WireMessage
  unfolding from_payload
  from_value none = undecodable not_json
  from_value (some v) = from_payload v

  unfoldable pub from_json : Bytes → Decoded WireMessage
  unfolding from_payload
  from_json raw = from_value (loads raw)

-- A value that JSON renders as it is: no fraction, and nothing nested.
abbrev pub IsPlain : Value → Type 0
IsPlain null = Unit
IsPlain (bool b) = Unit
IsPlain (int n) = Unit
IsPlain (float m e) = ⊥
IsPlain (str s) = Unit
IsPlain (list items) = ⊥
IsPlain (dict fields) = ⊥

abbrev pub AllPlain : Fields → Type 0
AllPlain end = Unit
AllPlain (field k v rest) = IsPlain v × AllPlain rest

-- What the program relies on of `json`: a dictionary of plain values comes back as it was.
abbrev pub RendersPlain : {Bytes : Type 0} → Json Bytes → Type 0
RendersPlain json = (d : Fields) → AllPlain d → json.loads (json.dumps (dict d)) ≡ some (dict d)

abbrev pub PlainMessage : WireMessage → Type 0
PlainMessage m =
    IsPlain m.task_id
    × IsPlain m.run_id
    × IsPlain m.task_name
    × IsPlain m.attempt
    × IsPlain m.reason

pub wire-PlainMessage :
    (uuid : ℕ → String) (text : Reason → String) (m : TaskMessage) → PlainMessage (wire uuid text m)
wire-PlainMessage uuid text m = (tt, tt, tt, tt, by_reason m.reason)
  where
    by_reason : (o : Option Reason) → IsPlain (reason_value text o)
    by_reason none = tt
    by_reason (some reason) = tt

to_payload-AllPlain : (m : WireMessage) → PlainMessage m → AllPlain (to_payload m)
unfolding to_payload
to_payload-AllPlain m (a, b, c, d, e) = (a, (b, (c, (d, by_reason m.reason e))))
  where
    by_reason : (v : Value) → IsPlain v → AllPlain (reason_field v)
    by_reason null e = tt
    by_reason (bool b) e = (e, tt)
    by_reason (int n) e = (e, tt)
    by_reason (str s) e = (e, tt)
    by_reason (float k n) e = absurd e
    by_reason (list items) e = absurd e
    by_reason (dict fields) e = absurd e

-- The payload of any message decodes to that message.
pub from_payload-to_payload : (m : WireMessage) → from_payload (dict (to_payload m)) ≡ decoded m
unfolding from_payload to_payload
from_payload-to_payload m = by_reason m.reason
  where
    by_reason :
        (v : Value)
        → from_payload (dict (to_payload (record m { reason = v })))
          ≡ decoded (record m { reason = v })
    by_reason null = refl
    by_reason (bool b) = refl
    by_reason (int n) = refl
    by_reason (float k e) = refl
    by_reason (str s) = refl
    by_reason (list items) = refl
    by_reason (dict fields) = refl

-- A message whose fields are strings, numbers or `None` comes back from its JSON as it was, its reason
-- too where there is none.
pub from_json-to_json :
    {Bytes : Type 0} (json : Json Bytes)
    → RendersPlain json
    → (m : WireMessage) → PlainMessage m
    → from_json json (to_json json m) ≡ decoded m
unfolding from_json to_json
from_json-to_json json renders m plain =
    rw (renders (to_payload m) (to_payload-AllPlain m plain)) (from_payload-to_payload m)
