-- ===== src/Broker/Pool.antt =====
-- `get_broker` and `set_broker` of app/broker.py. A broker is an object, so which one it is matters: a
-- number names it, and new objects take the next number. `local_brokers` is `_local.broker` of each
-- thread. `in_memory` says whether BROKER_URL starts with "memory:".
pub mod Apart
use auto_bot.Prelude.{
  ◌∙◌, refl, sym, ap, subst, inr, eqb_iff, inl, any, arith, All-map, Bool-cases, true, false, ◌≡◌,
  not, suc, if◌then◌else◌, [], some, ◌<◌, eqb, ◌∷◌, keep, none, All, List, Bool, ℕ, Option,
}

pub record Pool : Type 0 where
  pub override : Option ℕ
  pub memory_broker : Option ℕ
  pub local_brokers : List (ℕ × ℕ)
  pub next : ℕ

-- The module's globals at the start; `next` is past every broker that the program has made itself.
abbrev pub new_pool : ℕ → Pool
new_pool next = record { override = none; memory_broker = none; local_brokers = []; next = next }

-- getattr(_local, "broker", None)
abbrev pub local_broker : ℕ → List (ℕ × ℕ) → Option ℕ
local_broker thread [] = none
local_broker thread ((t, b) ∷ rest) = if eqb t thread then some b else local_broker thread rest

abbrev shared : Option ℕ → Pool → ℕ × Pool
shared (some b) p = (b, p)
shared none p = (p.next, record p { memory_broker = some p.next; next = suc p.next })

abbrev own : ℕ → Option ℕ → Pool → ℕ × Pool
own thread (some b) p = (b, p)
own thread none p =
    (p.next, record p { local_brokers = (thread, p.next) ∷ p.local_brokers; next = suc p.next })

abbrev chosen : Bool → ℕ → Option ℕ → Pool → ℕ × Pool
chosen in_memory thread (some b) p = (b, p)
chosen in_memory thread none p =
    if in_memory
    then shared p.memory_broker p
    else own thread (local_broker thread p.local_brokers) p

-- get_broker, called by a thread.
unfoldable pub get_broker : Bool → ℕ → Pool → ℕ × Pool
get_broker in_memory thread p = chosen in_memory thread p.override p

abbrev drop_local : ℕ → List (ℕ × ℕ) → List (ℕ × ℕ)
drop_local thread locals = keep (λ e. not (eqb e.0 thread)) locals

-- set_broker, called by a thread: only that thread's own broker is dropped.
unfoldable pub set_broker : ℕ → Option ℕ → Pool → Pool
set_broker thread none p = record p {
  override = none;
  memory_broker = none;
  local_brokers = drop_local thread p.local_brokers;
}
set_broker thread (some b) p = record p { override = some b }

-- The calls of a program's threads, in any order.
pub data Call : Type 0 where
  gets : ℕ → Call
  resets : ℕ → Call

abbrev pub after_call : Bool → Call → Pool → Pool
unfolding get_broker set_broker
after_call in_memory (gets thread) p = (get_broker in_memory thread p).1
after_call in_memory (resets thread) p = set_broker thread none p

abbrev pub after_calls : Bool → List Call → Pool → Pool
unfolding after_call
after_calls in_memory [] p = p
after_calls in_memory (c ∷ cs) p = after_calls in_memory cs (after_call in_memory c p)
