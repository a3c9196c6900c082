-- ===== src/Api/Socket.antt =====
-- The WebSocket of app/main.py, `run_updates`. The k-th round of its loop reads the tables as they are
-- then, `tables k`, and its send succeeds, or raises `WebSocketDisconnect`, as `connected k` says. The
-- loop takes fuel.
use auto_bot.Api.{is_terminal, get_run, Session, WorkflowRun, Env, RunDetail, run_detail}
use auto_bot.Prelude.{
  inr, inl, Bool-cases, not, ◌||◌, refl, ap, ◌∙◌, subst, zero, arith, if◌then◌else◌, suc, false,
  ◌∷◌, ◌+◌, ◌≡◌, [], none, ◌<◌, List, true, some, Bool, Option, ℕ,
}

pub data Frame : Type 0 where
  not_found : ℕ → Frame
  detail : RunDetail → Frame

pub data SocketEnd : Type 0 where
  stopped disconnected out_of_fuel : SocketEnd

abbrev found_detail : Env → Option WorkflowRun → Session → Option RunDetail
unfolding run_detail
found_detail env none s = none
found_detail env (some run) s = some (run_detail env run s)

-- _run_detail_or_none
unfoldable pub run_detail_or_none : Env → ℕ → Session → Option RunDetail
unfolding found_detail
run_detail_or_none env run_id s = found_detail env (get_run run_id s) s

-- What a round sends, and whether it is the last one.
abbrev pub frame_of : ℕ → Option RunDetail → Frame
frame_of run_id none = not_found run_id
frame_of run_id (some d) = detail d

abbrev pub is_last : Option RunDetail → Bool
is_last none = true
is_last (some d) = is_terminal d.run.status

module _ (env : Env) (run_id : ℕ) (tables : ℕ → Session) (connected : ℕ → Bool) where
  unfoldable pub read : ℕ → Option RunDetail
  unfolding run_detail_or_none
  read k = run_detail_or_none env run_id (tables k)

  abbrev pub round : Option RunDetail → Bool → List Frame × SocketEnd → List Frame × SocketEnd
  round o false rest = ([], disconnected)
  round none true rest = (not_found run_id ∷ [], stopped)
  round (some d) true rest =
      if is_terminal d.run.status then (detail d ∷ [], stopped) else (detail d ∷ rest.0, rest.1)

  -- The rounds from the k-th on.
  unfoldable pub run_updates : ℕ → ℕ → List Frame × SocketEnd
  unfolding read
  run_updates zero k = ([], out_of_fuel)
  run_updates (suc fuel) k =
      let rest = run_updates fuel (suc k) in round (read k) (connected k) rest

  -- The frames of n rounds from the k-th on.
  abbrev pub frames : ℕ → ℕ → List Frame
  unfolding read
  frames k zero = []
  frames k (suc n) = frame_of run_id (read k) ∷ frames (suc k) n

  round-last :
      (o : Option RunDetail) (rest : List Frame × SocketEnd)
      → is_last o ≡ true
      → round o true rest ≡ (frame_of run_id o ∷ [], stopped)
  round-last none rest h = refl
  round-last (some d) rest h = rw h refl

  round-next :
      (o : Option RunDetail) (rest : List Frame × SocketEnd)
      → is_last o ≡ false
      → round o true rest ≡ (frame_of run_id o ∷ rest.0, rest.1)
  round-next none rest h = cc
  round-next (some d) rest h = rw h refl

  run_updates_from :
      (n k fuel : ℕ)
      → n < fuel
      → ((j : ℕ) → j < n → is_last (read (k + j)) ≡ false)
      → ((j : ℕ) → j < n → connected (k + j) ≡ true)
      → ((connected (k + n) ≡ true)
          → (is_last (read (k + n)) ≡ true)
          → run_updates fuel k ≡ (frames k (suc n), stopped))
        × ((connected (k + n) ≡ false) → run_updates fuel k ≡ (frames k n, disconnected))
  unfolding run_updates frames
  run_updates_from n k zero less going up = absurd (omega (arith, less))
  run_updates_from zero k (suc fuel) less going up =
      let here : k + 0 ≡ k = omega arith in
      (
        (λ sent last.
            rw (subst (λ x. connected x ≡ true) here sent)
              (round-last (read k) _ (subst (λ x. is_last (read x) ≡ true) here last))),
        (λ lost. rw (subst (λ x. connected x ≡ false) here lost) refl),
      )
  run_updates_from (suc n) k (suc fuel) less going up =
      let here : k + 0 ≡ k = omega arith in
      let move = λ (j : ℕ). the_same j in
      let (a, b) =
        run_updates_from n (suc k) fuel (omega (arith, less))
          (λ j small.
            subst (λ x. is_last (read x) ≡ false) (move j) (going (suc j) (omega (arith, small))))
          (λ j small.
            subst (λ x. connected x ≡ true) (move j) (up (suc j) (omega (arith, small)))) in
      let sent : connected k ≡ true = subst (λ x. connected x ≡ true) here (up 0 (omega arith)) in
      let next =
        round-next (read k) (run_updates fuel (suc k))
          (subst (λ x. is_last (read x) ≡ false) here (going 0 (omega arith))) in
      (
        (λ at last. rw sent (
            next
            ∙ ap (λ (r : List Frame × SocketEnd). (frame_of run_id (read k) ∷ r.0, r.1))
                (a (subst (λ x. connected x ≡ true) (move n) at)
                  (subst (λ x. is_last (read x) ≡ true) (move n) last)))),
        (λ lost. rw sent (
            next
            ∙ ap (λ (r : List Frame × SocketEnd). (frame_of run_id (read k) ∷ r.0, r.1))
                (b (subst (λ x. connected x ≡ false) (move n) lost)))),
      )
    where
      the_same : (j : ℕ) → k + suc j ≡ suc k + j
      the_same j = omega arith

  -- A socket sends the run's detail in each round in which it is open and the run is there and not
  -- terminal; the first round of another kind is the last: if its send fails it ends there, and
  -- otherwise it has sent that the run is gone, or the detail of the terminal run, and stops. The number
  -- of rounds is fuel enough.
  pub run_updates_lem :
      (n fuel : ℕ)
      → n < fuel
      → ((j : ℕ) → j < n → is_last (read j) ≡ false)
      → ((j : ℕ) → j < n → connected j ≡ true)
      → (is_last (read n) || not (connected n)) ≡ true
      → run_updates fuel 0
        ≡ (if connected n then (frames 0 (suc n), stopped) else (frames 0 n, disconnected))
  run_updates_lem n fuel less going up ends =
      let start : (j : ℕ) → j ≡ 0 + j = (λ j. omega arith) in
      let (a, b) =
        run_updates_from n 0 fuel less
          (λ j small. subst (λ x. is_last (read x) ≡ false) (start j) (going j small))
          (λ j small. subst (λ x. connected x ≡ true) (start j) (up j small)) in
      elim (Bool-cases (connected n)) [
        | inl at ↦
            let last : is_last (read n) ≡ true = (let either = rw at at ends in ground arith) in
            rw at (
              a (subst (λ x. connected x ≡ true) (start n) at)
                (subst (λ x. is_last (read x) ≡ true) (start n) last))
        | inr lost ↦ rw lost (b (subst (λ x. connected x ≡ false) (start n) lost))
      ]
