-- ===== src/Examples/Wires.antt =====
-- What leaves the program: messages as JSON, brokers for threads, and frames on a socket.
use auto_bot.Broker.Codec.{Json, WireMessage, wire, to_json}
use auto_bot.Broker.Rabbit.Receive.{
  returned, exception, Handled, deliver_all, handle_all, deliver_all-published,
}
use auto_bot.Broker.Pool.{gets, resets, get_broker, after_calls, new_pool}
use auto_bot.Broker.Pool.Apart.{get_broker-isolates}
use auto_bot.Models.{RunStatus}
use auto_bot.Api.{run_detail}
use auto_bot.Api.Socket.{
  run_detail_or_none, stopped, run_detail_or_none, run_updates, run_updates_lem, frames, is_last,
  read,
}
use auto_bot.Examples.Data.{env, early, run}
use auto_bot.Dag.Spec.{Value}
use auto_bot.Prelude.{
  ◌<◌, arith, suc, ltb, eqb, refl, [], if◌then◌else◌, ◌≡◌, ◌∷◌, none, String, some, true, false,
  map, List, ℕ,
}
use auto_bot.Broker.Message.{TaskMessage, Reason}
use auto_bot.Scheduler.Session.{Session}
use auto_bot.Api.{run_detail}

-- A wire that carries the values themselves.
abbrev plain_json : Json Value
plain_json = record { dumps = λ v. v; loads = λ v. some v }

abbrev name : ℕ → String
name i = if eqb i 12 then "12" else "other"

abbrev text : Reason → String
text reason = "exhausted"

-- It counts the deliveries, returns `False` for the first one, and raises at the second one.
abbrev counter : WireMessage → ℕ → Handled × ℕ
counter m n = (if eqb n 1 then exception else returned false, suc n)

abbrev root : TaskMessage
root = record { task_id = 12; run_id = 1; task_name = "fetch"; attempt = 0; reason = none }

abbrev published : List TaskMessage
published = root ∷ record root { attempt = 1 } ∷ []

deliver_all-published_example :
    deliver_all plain_json counter (map (λ m. to_json plain_json (wire name text m)) published) 0
    ≡ handle_all plain_json counter (map (wire name text) published) 0
deliver_all-published_example =
    deliver_all-published plain_json counter name text (λ d plain. refl) published 0

-- The second thread has dropped its broker in between.
get_broker-isolates_example :
    let (b, p) = get_broker false 1 (after_calls false (gets 2 ∷ []) (new_pool 0)) in
    let (c, p') = get_broker false 2 (after_calls false (resets 2 ∷ []) p) in eqb b c ≡ false
get_broker-isolates_example = get_broker-isolates 0 (gets 2 ∷ []) (resets 2 ∷ []) 1 2 refl

-- The run is closed before the third round.
abbrev tables_at : ℕ → Session
tables_at k =
    if ltb k 2
    then early
    else record early { runs = record run { status = RunStatus.completed } ∷ [] }

going : (k : ℕ) → k < 2 → is_last (read env 1 tables_at (λ k. true) k) ≡ false
unfolding read run_detail_or_none run_detail
going k small = rw (the_test k small) refl
  where
    the_test : (k : ℕ) → k < 2 → ltb k 2 ≡ true
    the_test k small = ground (arith, small)

run_updates_lem_example :
    run_updates env 1 tables_at (λ k. true) 3 0 ≡ (frames env 1 tables_at (λ k. true) 0 3, stopped)
unfolding read run_detail_or_none run_detail
run_updates_lem_example =
    run_updates_lem env 1 tables_at (λ k. true) 2 3 (omega arith) going (λ k small. refl) refl
