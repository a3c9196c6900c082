-- ===== src/Broker/Rabbit/Buckets.antt =====
-- How long a message waits in the holding queue of its delay.
use auto_bot.Broker.Rabbit.{ceil_seconds, next_power, power_of_delay, bucket_seconds}
use auto_bot.Prelude.{zero, inr, inl, leb, Bool-cases, suc, arith, ◌*◌, ◌+◌, ◌≤◌, ◌<◌, ℕ}
use Prim.Native.Nat.{max}

-- With enough doublings left the power is not below the number, and it is below its double.
next_power_bounds :
    (fuel p n : ℕ)
    → 0 < p
    → n ≤ p + fuel
    → p < 2 * n
    → (n ≤ next_power fuel p n) × (next_power fuel p n < 2 * n)
unfolding next_power
next_power_bounds zero p n positive enough low = omega arith
next_power_bounds (suc fuel) p n positive enough low = elim (Bool-cases (leb n p)) [
  | inl reached ↦ rw reached (ground arith)
  | inr below ↦
      rw below (next_power_bounds fuel (2 * p) n (omega arith) (omega arith) (ground arith))
]

power_bounds :
    (delay : ℕ)
    → (delay ≤ power_of_delay delay * 1000000)
      × (power_of_delay delay < 2 * max (ceil_seconds delay) 1)
power_bounds delay =
    let n = max (ceil_seconds delay) 1 in
    let b = next_power_bounds n 1 n (omega arith) (omega arith) (omega arith) in
    (omega (arith, b.0), b.1)

-- A message is not held less than its delay, unless the delay is above the maximum that the settings
-- give; and a delay of more than a second at most twice as long as its whole seconds. A delay above
-- the maximum, rounded up to seconds and not zero, is cut short: the message comes before its time.
pub bucket_seconds_bounds :
    (maximum delay : ℕ)
    → (delay ≤ maximum → delay ≤ bucket_seconds maximum delay * 1000000)
      × (bucket_seconds maximum delay ≤ 2 * max (ceil_seconds delay) 1)
      × (0 < maximum
          → ceil_seconds maximum * 1000000 < delay
          → bucket_seconds maximum delay * 1000000 < delay)
unfolding bucket_seconds
bucket_seconds_bounds maximum delay =
    let b = power_bounds delay in (λ h. omega (arith, b.0), omega (arith, b.1), λ h k. omega arith)
