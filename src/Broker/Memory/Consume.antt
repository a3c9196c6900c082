-- ===== src/Broker/Memory/Consume.antt =====
-- `InMemoryBroker.consume` of app/broker.py. The world `W` holds the queue, the clock and whatever the
-- handler reads and writes. The loop takes fuel; `consume_lem` gives the fuel that is enough.
use auto_bot.Prelude.{
  ap, subst, ℕ, zero, suc, ◌+◌, ◌-◌, ◌*◌, ◌≤◌, ◌<◌, ◌≡◌, refl, List, [], ◌∷◌, Option, none, some,
  Bool, true, false, leb, arith, ◌⊎◌, inl, inr,
}
use auto_bot.Broker.Message.{TaskMessage}
use auto_bot.Broker.Memory.{Entry, MemoryBroker, pop_due}

-- What the loop calls: the queue, the clock, `time.sleep`, and the handler, which may raise an `X`.
pub record Machine (W X : Type 0) : Type 0 where
  pub broker : W → MemoryBroker
  pub with_broker : MemoryBroker → W → W
  pub clock : W → ℕ
  pub sleep : ℕ → W → W
  pub handle : TaskMessage → W → W ⊎ X

pub data Ended (W X : Type 0) : Type 0 where
  returned : W → Ended W X
  raised : X → Ended W X
  out_of_fuel : Ended W X

module _ {W X : Type 0} (machine : Machine W X) where
  open machine use {broker, with_broker, clock, sleep, handle}

  abbrev pub after_handler : (W → Ended W X) → W ⊎ X → Ended W X
  after_handler next (inl w) = next w
  after_handler next (inr x) = raised x

  -- Nothing is due: stop if nothing is left or the call does not wait, and otherwise sleep.
  abbrev pub idle : (W → Ended W X) → Bool → List Entry → W → Ended W X
  idle next wait [] w = returned w
  idle next false (e ∷ es) w = returned w
  idle next true (e ∷ es) w = next (sleep (e.due - clock w) w)

  abbrev pub consume_step :
      (W → Ended W X) → Bool → Option TaskMessage × MemoryBroker → W → Ended W X
  consume_step next wait (some message, rest) w =
      after_handler next (handle message (with_broker rest w))
  consume_step next wait (none, rest) w = idle next wait (broker w).heap w

  unfoldable pub consume : ℕ → Bool → W → Ended W X
  consume zero wait w = out_of_fuel
  consume (suc fuel) wait w = consume_step (consume fuel wait) wait (pop_due (clock w) (broker w)) w

  -- What makes the loop end: an invariant of the world under which every handler returns and lowers a
  -- rank, and a sleep that lasts as long as asked and leaves the queue alone.
  pub record Drains (I : W → Type 0) (rank : W → ℕ) : Type 0 where
    pub takes :
        (w : W) (m : TaskMessage) (rest : MemoryBroker)
        → I w
        → pop_due (clock w) (broker w) ≡ (some m, rest)
        → (w' : W) × (handle m (with_broker rest w) ≡ inl w') × I w' × (rank w' < rank w)
    pub sleeps :
        (d : ℕ) (w : W)
        → I w
        → I (sleep d w)
          × (rank (sleep d w) ≤ rank w)
          × (broker (sleep d w) ≡ broker w)
          × (clock w + d ≤ clock (sleep d w))

  -- Why the loop has stopped: nothing is left, or, for a call that does not wait, nothing is due.
  abbrev pub IsDrained : Bool → W → Type 0
  IsDrained true w = (broker w).heap ≡ []
  IsDrained false w = (pop_due (clock w) (broker w)).0 ≡ none

  abbrev pub EndsDrained : (W → Type 0) → Bool → Ended W X → Type 0
  EndsDrained I wait r = (w' : W) × (r ≡ returned w') × I w' × IsDrained wait w'

  empty-IsDrained : (wait : Bool) (w : W) → (broker w).heap ≡ [] → IsDrained wait w
  unfolding pop_due
  empty-IsDrained true w h = h
  empty-IsDrained false w h = rw h

  module _ (I : W → Type 0) (rank : W → ℕ) (drains : Drains I rank) where
    -- After a sleep to the time of the first entry that entry is taken.
    taken_after_sleep :
        (w : W) (e : Entry) (es : List Entry)
        → I w
        → (broker w).heap ≡ e ∷ es
        → let w₁ = sleep (e.due - clock w) w in
          (rest : MemoryBroker) × (pop_due (clock w₁) (broker w₁) ≡ (some e.message, rest))
    unfolding pop_due
    taken_after_sleep w e es i h =
        let (_, _, same, later) = drains.sleeps (e.due - clock w) w i in
        let due : leb e.due (clock (sleep (e.due - clock w) w)) ≡ true = ground arith in
        (record (broker w) { heap = es }, rw (same, h, due))

    -- Under an invariant under which every handler returns and lowers a rank, and sleeps last as long as
    -- asked and leave the queue alone, twice the rank and two rounds are enough: the loop returns with
    -- the invariant, and with nothing left in the queue if it waits, nothing due if it does not.
    pub consume_lem :
        (fuel : ℕ) (wait : Bool) (w : W)
        → I w
        → 2 * rank w + 2 ≤ fuel
        → EndsDrained I wait (consume fuel wait w)
    unfolding consume
    consume_lem zero wait w i enough = absurd (omega arith)
    consume_lem (suc zero) wait w i enough = absurd (omega arith)
    consume_lem (suc (suc fuel)) wait w i enough =
        round (pop_due (clock w) (broker w)) refl (consume_lem (suc fuel) wait)
          (consume_lem fuel wait)
      where
        stopped :
            (b : Bool) (es : List Entry)
            → (broker w).heap ≡ es
            → (pop_due (clock w) (broker w)).0 ≡ none
            → b ≡ wait
            → ((w' : W) → I w' → 2 * rank w' + 2 ≤ fuel → EndsDrained I wait (consume fuel wait w'))
            → EndsDrained I wait (idle (consume (suc fuel) wait) b es w)
        stopped b [] h none_due same again = (w, refl, i, empty-IsDrained wait w h)
        stopped false (e ∷ es) h none_due same again =
            (w, refl, i, subst (λ x. IsDrained x w) same none_due)
        stopped true (e ∷ es) h none_due same again =
            let w₁ = sleep (e.due - clock w) w in
            let (i₁, low, _, _) = drains.sleeps (e.due - clock w) w i in
            let (rest, popped) = taken_after_sleep w e es i h in
            let (w₂, handled, i₂, less) = drains.takes w₁ e.message rest i₁ popped in
            rw (popped, handled) (again w₂ i₂ (omega arith))

        round :
            (r : Option TaskMessage × MemoryBroker)
            → pop_due (clock w) (broker w) ≡ r
            → ((w' : W)
                → I w'
                → 2 * rank w' + 2 ≤ suc fuel
                → EndsDrained I wait (consume (suc fuel) wait w'))
            → ((w' : W) → I w' → 2 * rank w' + 2 ≤ fuel → EndsDrained I wait (consume fuel wait w'))
            → EndsDrained I wait (consume_step (consume (suc fuel) wait) wait r w)
        round (some m, rest) popped next again =
            let (w', handled, i', less) = drains.takes w m rest i popped in
            rw handled (next w' i' (omega arith))
        round (none, rest) popped next again =
            stopped wait (broker w).heap refl (ap (λ x. x.0) popped) refl again
