-- ===== src/Retry.antt =====
-- internal/retry/retry.go. A delay is in nanoseconds.
use mgl_communication.Base.{ℕ, ◌*◌, ◌≤◌, zero, suc, Bool, ◌&&◌, ltb, arith}
mod Tests

abbrev pub second : ℕ
second = 1000000000

-- The switch of `DelayForAttempt`; an attempt of 0 falls into the default.
unfoldable pub delay_for_attempt : ℕ → ℕ
delay_for_attempt (suc zero) = 0
delay_for_attempt (suc (suc zero)) = 5 * second
delay_for_attempt (suc (suc (suc zero))) = 30 * second
delay_for_attempt (suc (suc (suc (suc zero)))) = 5 * 60 * second
delay_for_attempt _ = 30 * 60 * second

unfoldable pub should_retry : Bool → ℕ → ℕ → Bool
should_retry retryable attempts max_attempts = retryable && ltb attempts max_attempts

-- From the first attempt on the retry delays never fall, and no delay passes half an hour.
pub delay_for_attempt_mono :
    (n : ℕ)
    → (delay_for_attempt (suc n) ≤ delay_for_attempt (suc (suc n)))
      × (delay_for_attempt n ≤ 30 * 60 * second)
unfolding delay_for_attempt
delay_for_attempt_mono zero = omega arith
delay_for_attempt_mono (suc zero) = omega arith
delay_for_attempt_mono (suc (suc zero)) = omega arith
delay_for_attempt_mono (suc (suc (suc zero))) = omega arith
delay_for_attempt_mono (suc (suc (suc (suc zero)))) = omega arith
delay_for_attempt_mono (suc (suc (suc (suc (suc n))))) = omega arith
