-- ===== src/Retry.antt =====
-- app/retry.py: the delay before a retry, and whether there is one. A delay is a number of
-- microseconds, the jitter a number of thousandths; the settings are not negative.
pub mod Bounds
use Prim.Native.Nat.{min}
use auto_bot.Prelude.{
  ℕ, zero, suc, ◌*◌, ◌/◌, ◌^◌, Option, none, some, Bool, ltb, leb, eqb, if◌then◌else◌,
}
use auto_bot.Prelude.Int.{ℤ, pos, ◌+ℤ◌, pos_part}

pub record RetrySettings : Type 0 where
  pub base : ℕ
  pub maximum : ℕ
  pub jitter : ℕ

-- base * 2 ** (attempt - 1), capped.
abbrev pub capped_delay : RetrySettings → ℕ → ℕ
capped_delay settings n = min (settings.base * 2 ^ n) settings.maximum

abbrev pub spread_of : RetrySettings → ℕ → ℕ
spread_of settings delay = delay * settings.jitter / 1000

-- The delay with its jitter, never below zero.
abbrev pub jittered : RetrySettings → (ℕ → ℤ) → ℕ → ℕ
jittered settings uniform n =
    let delay = capped_delay settings n in
    if eqb settings.jitter 0
    then delay
    else pos_part (pos delay +ℤ uniform (spread_of settings delay))

-- `uniform spread` is what the generator draws from [-spread, spread]. `none` is an exception: the
-- `ValueError` for an attempt below 1, or the `OverflowError` of the product, since a Python `int`
-- from 2 ** 1024 on has no `float`.
unfoldable pub backoff_delay : RetrySettings → (ℕ → ℤ) → ℕ → Option ℕ
unfolding ◌+ℤ◌
backoff_delay settings uniform zero = none
backoff_delay settings uniform (suc n) =
    if leb 1024 n then none else some (jittered settings uniform n)

unfoldable pub should_retry : ℕ → ℕ → Bool
should_retry retry_count max_retries = ltb retry_count max_retries
