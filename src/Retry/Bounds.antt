-- ===== src/Retry/Bounds.antt =====
-- How long a retry waits.
use Prim.Native.Nat.{min}
use native.Mathlib.Nat.{pow-suc}
use auto_bot.Prelude.{
  ap, ◌∙◌, ℕ, suc, ◌+◌, ◌*◌, ◌/◌, ◌^◌, ◌≤◌, ◌<◌, ◌≡◌, some, Bool, true, false, leb, eqb,
  if◌then◌else◌, arith,
}
use auto_bot.Prelude.Int.{ℤ, pos, negsuc, neg, ◌≤ℤ◌, ◌+ℤ◌, pos_part}
use auto_bot.Retry.{RetrySettings, capped_delay, spread_of, jittered, backoff_delay}

-- The generator keeps to its range.
abbrev pub IsUniform : (ℕ → ℤ) → Type 0
IsUniform uniform =
    (spread : ℕ) → (neg (pos spread) ≤ℤ uniform spread) × (uniform spread ≤ℤ pos spread)

spread_mono : (a b j : ℕ) → a ≤ b → a * j / 1000 ≤ b * j / 1000
spread_mono a b j h = grind arith

abbrev Near : ℕ → ℕ → ℕ → Type 0
Near spread delay d = (delay ≤ d + spread) × (d ≤ delay + spread)

offset-Near :
    (spread delay : ℕ) (u : ℤ)
    → neg (pos spread) ≤ℤ u
    → u ≤ℤ pos spread
    → Near spread delay (pos_part (pos delay +ℤ u))
unfolding ◌+ℤ◌
offset-Near spread delay (pos n) low high = ground arith
offset-Near spread delay (negsuc n) low high = ground arith

jitter-Near :
    (b : Bool) (spread delay : ℕ) (u : ℤ)
    → neg (pos spread) ≤ℤ u
    → u ≤ℤ pos spread
    → Near spread delay (if b then delay else pos_part (pos delay +ℤ u))
jitter-Near true spread delay u low high = omega arith
jitter-Near false spread delay u low high = offset-Near spread delay u low high

-- Each of the first 1024 retries has a delay, which differs from the capped delay by at most the spread and so passes
-- the maximum by at most the maximum's spread.
pub backoff_delay_bounds :
    (settings : RetrySettings) (uniform : ℕ → ℤ) (n : ℕ)
    → n < 1024
    → IsUniform uniform
    → (d : ℕ) × (backoff_delay settings uniform (suc n) ≡ some d)
      × (capped_delay settings n ≤ d + spread_of settings (capped_delay settings n))
      × (d ≤ capped_delay settings n + spread_of settings (capped_delay settings n))
      × (d ≤ settings.maximum + spread_of settings settings.maximum)
unfolding backoff_delay
backoff_delay_bounds settings uniform n small h =
    let delay = capped_delay settings n in
    let spread = spread_of settings delay in
    let near =
      jitter-Near (eqb settings.jitter 0) spread delay (uniform spread) (h spread).0 (h spread).1 in
    let in_range : leb 1024 n ≡ false = ground arith in
    (
      jittered settings uniform n,
      rw in_range,
      near.0,
      near.1,
      omega (arith, near.1, spread_mono delay settings.maximum settings.jitter (omega arith)),
    )

abbrev pub steady : RetrySettings → RetrySettings
steady settings = record settings { jitter = 0 }

min-double : (a m : ℕ) → min (2 * a) m ≡ min (2 * min a m) m
min-double a m = ground arith

-- Without jitter the delay doubles with each attempt, up to the maximum, for the first 1024 attempts.
pub backoff_delay-double :
    (settings : RetrySettings) (uniform : ℕ → ℤ) (n d : ℕ)
    → suc n < 1024
    → backoff_delay (steady settings) uniform (suc n) ≡ some d
    → backoff_delay (steady settings) uniform (suc (suc n)) ≡ some (min (2 * d) settings.maximum)
unfolding backoff_delay
backoff_delay-double settings uniform n d small h =
    let twice : settings.base * 2 ^ suc n ≡ 2 * (settings.base * 2 ^ n) =
      omega (arith, ap (λ (t : ℕ). settings.base * t) (pow-suc 2 n)) in
    let step : capped_delay settings (suc n) ≡ min (2 * capped_delay settings n) settings.maximum =
      rw twice (min-double (settings.base * 2 ^ n) settings.maximum) in
    let now : capped_delay settings n ≡ d = ground arith in
    let in_range : leb 1024 (suc n) ≡ false = ground arith in
    rw in_range (ap some (step ∙ ap (λ t. min (2 * t) settings.maximum) now))
