-- ===== src/Broker/Pool/Apart.antt =====
-- Which broker of app/broker.py a thread gets, over the calls of all threads.
use auto_bot.Broker.Pool.{
  new_pool, set_broker, after_calls, get_broker, Pool, chosen, own, local_broker, after_call, Call,
  gets, resets,
}
use auto_bot.Prelude.{
  ◌∙◌, refl, sym, ap, subst, inr, eqb_iff, inl, any, arith, All-map, Bool-cases, true, false, ◌≡◌,
  [], some, ◌<◌, eqb, ◌∷◌, keep, none, All, List, Bool, ℕ, Option,
}

-- No two entries have the same broker, and all are older than the next one.
abbrev IsApart : List (ℕ × ℕ) → Type 0
IsApart [] = Unit
IsApart ((t, b) ∷ rest) = All (λ e. eqb e.1 b ≡ false) rest × IsApart rest

record IsPool (p : Pool) : Type 0 where
  apart : IsApart p.local_brokers
  older : All (λ e. e.1 < p.next) p.local_brokers
  free : p.override ≡ none

-- The broker has been made, and no other thread than this one has it.
record IsOwned (thread b : ℕ) (p : Pool) : Type 0 where
  owner : All (λ e. eqb e.1 b ≡ true → e.0 ≡ thread) p.local_brokers
  made : b < p.next
  free : p.override ≡ none

All-keep {ℓ} :
    {A : Type ℓ} (P : A → Type 0) (q : A → Bool) (xs : List A) → All P xs → All P (keep q xs)
All-keep P q [] h = tt
All-keep P q (x ∷ xs) h = elim (Bool-cases (q x)) [
  | inl stays ↦ rw stays (h.0, All-keep P q xs h.1)
  | inr goes ↦ rw goes (All-keep P q xs h.1)
]

keep-IsApart : (q : ℕ × ℕ → Bool) (locals : List (ℕ × ℕ)) → IsApart locals → IsApart (keep q locals)
keep-IsApart q [] h = tt
keep-IsApart q ((t, b) ∷ rest) h = elim (Bool-cases (q (t, b))) [
  | inl stays ↦ rw stays (All-keep (λ e. eqb e.1 b ≡ false) q rest h.0, keep-IsApart q rest h.1)
  | inr goes ↦ rw goes (keep-IsApart q rest h.1)
]

older-other :
    (b : ℕ) (locals : List (ℕ × ℕ))
    → All (λ e. e.1 < b) locals
    → All (λ e. eqb e.1 b ≡ false) locals
older-other b locals h = All-map (λ e less. ground (arith, eqb_iff e.1 b)) locals h

-- Without an override, and with a RabbitMQ URL, a thread gets its own broker.
gets_own :
    (thread : ℕ) (p : Pool)
    → p.override ≡ none
    → get_broker false thread p ≡ own thread (local_broker thread p.local_brokers) p
unfolding get_broker
gets_own thread p free = ap (λ o. chosen false thread o p) free

own-IsPool : (thread : ℕ) (o : Option ℕ) (p : Pool) → IsPool p → IsPool (own thread o p).1
own-IsPool thread (some b) p h = h
own-IsPool thread none p h = record {
  apart = (older-other p.next p.local_brokers h.older, h.apart);
  older = (omega arith, All-map (λ e less. omega (arith, less)) p.local_brokers h.older);
  free = h.free;
}

call-IsPool : (c : Call) (p : Pool) → IsPool p → IsPool (after_call false c p)
unfolding get_broker set_broker after_call
call-IsPool (resets thread) p h = record {
  apart = keep-IsApart _ p.local_brokers h.apart;
  older = All-keep _ _ p.local_brokers h.older;
  free = refl;
}
call-IsPool (gets thread) p h =
    subst IsPool (sym (ap (λ r. r.1) (gets_own thread p h.free)))
      (own-IsPool thread (local_broker thread p.local_brokers) p h)

calls-IsPool : (cs : List Call) (p : Pool) → IsPool p → IsPool (after_calls false cs p)
unfolding after_calls
calls-IsPool [] p h = h
calls-IsPool (c ∷ cs) p h = calls-IsPool cs (after_call false c p) (call-IsPool c p h)

-- The broker that a thread finds is its own.
found-owner :
    (thread b : ℕ) (locals : List (ℕ × ℕ))
    → IsApart locals
    → local_broker thread locals ≡ some b
    → All (λ e. eqb e.1 b ≡ true → e.0 ≡ thread) locals
found-owner thread b [] h found = tt
found-owner thread b ((t, c) ∷ rest) h found = elim (Bool-cases (eqb t thread)) [
  | inl here ↦
      let same : c ≡ b = ground arith in
      (
        (λ _. (eqb_iff t thread).0 here),
        subst (λ x. All (λ e. eqb e.1 x ≡ true → e.0 ≡ thread) rest) same
            (All-map (λ e other at. absurd (ground arith)) rest h.0),
      )
  | inr other ↦
      let later = rw other at found in
      let there = found_there thread b rest later in
      (
        (λ at. absurd (not_there c b rest h.0 there ((eqb_iff c b).0 at))),
        found-owner thread b rest h.1 later,
      )
]
  where
    found_there :
        (thread b : ℕ) (rest : List (ℕ × ℕ))
        → local_broker thread rest ≡ some b
        → any (λ e. eqb e.1 b) rest ≡ true
    found_there thread b [] e = cc
    found_there thread b ((t, c) ∷ rest) e = ground (arith, found_there thread b rest, eqb_iff c b)

    not_there :
        (c b : ℕ) (rest : List (ℕ × ℕ))
        → All (λ e. eqb e.1 c ≡ false) rest
        → any (λ e. eqb e.1 b) rest ≡ true
        → c ≡ b
        → ⊥
    not_there c b [] h e same = cc
    not_there c b (x ∷ rest) h e same =
        let here : eqb x.1 b ≡ false = subst (λ y. eqb x.1 y ≡ false) same h.0 in
        not_there c b rest h.1 (ground arith) same

module _ (thread b : ℕ) where
  own-IsOwned :
      (u : ℕ) (o : Option ℕ) (p : Pool) → IsOwned thread b p → IsOwned thread b (own u o p).1
  own-IsOwned u (some c) p h = h
  own-IsOwned u none p h = record {
    owner = ((λ at. absurd (ground (arith, h.made, eqb_iff p.next b))), h.owner);
    made = omega (arith, h.made);
    free = h.free;
  }

  call-IsOwned :
      (c : Call) (p : Pool) → IsOwned thread b p → IsOwned thread b (after_call false c p)
  unfolding get_broker set_broker after_call
  call-IsOwned (resets u) p h = record {
    owner = All-keep _ _ p.local_brokers h.owner;
    made = h.made;
    free = refl;
  }
  call-IsOwned (gets u) p h =
      subst (IsOwned thread b) (sym (ap (λ r. r.1) (gets_own u p h.free)))
        (own-IsOwned u (local_broker u p.local_brokers) p h)

  calls-IsOwned :
      (cs : List Call) (p : Pool) → IsOwned thread b p → IsOwned thread b (after_calls false cs p)
  unfolding after_calls
  calls-IsOwned [] p h = h
  calls-IsOwned (c ∷ cs) p h = calls-IsOwned cs (after_call false c p) (call-IsOwned c p h)

  -- Another thread gets another broker.
  other-broker :
      (u : ℕ) (p : Pool)
      → eqb thread u ≡ false
      → IsOwned thread b p
      → eqb b (get_broker false u p).0 ≡ false
  other-broker u p other h =
      ap (λ r. eqb b r.0) (gets_own u p h.free) ∙ by_local (local_broker u p.local_brokers) refl
    where
      foreign :
          (c : ℕ) (locals : List (ℕ × ℕ))
          → All (λ e. eqb e.1 b ≡ true → e.0 ≡ thread) locals
          → local_broker u locals ≡ some c
          → eqb b c ≡ false
      foreign c [] k e = cc
      foreign c ((t, d) ∷ rest) k e = elim (Bool-cases (eqb t u)) [
        | inl here ↦
            let same : d ≡ c = ground arith in
            ground (arith, k.0, eqb_iff t u, eqb_iff thread u, eqb_iff d b, eqb_iff b c)
        | inr there ↦ foreign c rest k.1 (rw there at e)
      ]

      by_local : (o : Option ℕ) → local_broker u p.local_brokers ≡ o → eqb b (own u o p).0 ≡ false
      by_local none e = ground (arith, h.made, eqb_iff b p.next)
      by_local (some c) e = foreign c p.local_brokers h.owner e

made-IsOwned :
    (thread : ℕ) (p : Pool)
    → IsPool p
    → let (b, p') = get_broker false thread p in IsOwned thread b p'
made-IsOwned thread p h =
    subst (λ r. IsOwned thread r.0 r.1) (sym (gets_own thread p h.free))
      (by_local (local_broker thread p.local_brokers) refl)
  where
    found-older :
        (b : ℕ) (locals : List (ℕ × ℕ))
        → All (λ e. e.1 < p.next) locals
        → local_broker thread locals ≡ some b
        → b < p.next
    found-older b [] k e = cc
    found-older b ((t, c) ∷ rest) k e = ground (arith, k.0, found-older b rest k.1)

    by_local :
        (o : Option ℕ)
        → local_broker thread p.local_brokers ≡ o
        → let (b, p') = own thread o p in IsOwned thread b p'
    by_local (some b) e = record {
      owner = found-owner thread b p.local_brokers h.apart e;
      made = found-older b p.local_brokers h.older e;
      free = h.free;
    }
    by_local none e = record {
      owner = (
        (λ at. refl),
        All-map (λ e other at. absurd (ground arith)) p.local_brokers
            (older-other p.next p.local_brokers h.older),
      );
      made = omega arith;
      free = h.free;
    }

-- With a RabbitMQ URL no two threads ever share a broker: what one thread has got, another thread does
-- not get later, whichever threads have asked for brokers or dropped theirs before and in between. (No
-- broker is set by `set_broker`.)
pub get_broker-isolates :
    (next : ℕ) (before between : List Call) (thread u : ℕ)
    → eqb thread u ≡ false
    → let (b, p) = get_broker false thread (after_calls false before (new_pool next)) in
      let (c, p') = get_broker false u (after_calls false between p) in eqb b c ≡ false
get_broker-isolates next before between thread u other =
    let start = after_calls false before (new_pool next) in
    let pool =
      calls-IsPool before (new_pool next) (record { apart = tt; older = tt; free = refl }) in
    let (b, p) = get_broker false thread start in
    other-broker thread b u (after_calls false between p) other
      (calls-IsOwned thread b between p (made-IsOwned thread start pool))
