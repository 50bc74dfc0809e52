-- ===== src/Retry/Delay.antt =====
-- The wait before a retry (crates/workflow/src/engine/retry.rs).
use rust_agent_framework.Common.{ℕ, zero, suc, ◌+◌, ◌*◌, ◌^◌, ◌%◌, ◌≤◌, ◌<◌, min, ◌≡◌, arith}
use native.Mathlib.Nat.{mod-eq_of_lt}
use rust_agent_framework.Retry.{
  exponential, delay, millis, saturating_pow2, u64_mod, nanos_per_milli,
}

-- Whatever the attempt, and also where the product wraps, the wait is at most `max` and a whole
-- number of milliseconds.
pub delay-le-max :
    (base max attempt : ℕ)
    → (delay (exponential base max) attempt ≤ max)
      × (delay (exponential base max) attempt % nanos_per_milli ≡ 0)
unfolding delay
delay-le-max base max attempt = omega arith

-- While the product fits in 64 bits and the settings are whole milliseconds below 2^64, the wait
-- is `base * 2^attempt`, or `max` if that is less.
pub delay_exact :
    (b m attempt : ℕ)
    → b < u64_mod
    → m < u64_mod
    → 2 ^ attempt < u64_mod
    → b * 2 ^ attempt < u64_mod
    → delay (exponential (b * nanos_per_milli) (m * nanos_per_milli)) attempt
      ≡ min (b * 2 ^ attempt) m * nanos_per_milli
unfolding delay
delay_exact b m attempt hb hm hp hd =
    let eb : millis (b * nanos_per_milli) ≡ b = omega arith in
    let em : millis (m * nanos_per_milli) ≡ m = omega arith in
    let ep : saturating_pow2 attempt ≡ 2 ^ attempt = omega arith in rw (eb, em, ep, mod-eq_of_lt hd)

-- A base that is a multiple of 8 ms, as the default second is, makes the 64-bit product 0 at the
-- attempts 61, 62 and 63: the retry is not delayed at all, however long `max` is.
pub delay_wraps :
    (b max k : ℕ) → k < 3 → delay (exponential (8 * b * nanos_per_milli) max) (61 + k) ≡ 0
unfolding delay
delay_wraps b max zero h = omega arith
delay_wraps b max (suc zero) h = omega arith
delay_wraps b max (suc (suc zero)) h = omega arith
delay_wraps b max (suc (suc (suc k))) h = absurd (omega arith)
