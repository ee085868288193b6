-- ===== src/Retry/Tests.antt =====
-- The delays at a concrete attempt.
use mgl_communication.Base.{◌≡◌, ◌≤◌, ◌*◌, refl}
use mgl_communication.Retry.{second, delay_for_attempt, delay_for_attempt_mono}

third_delay : delay_for_attempt 3 ≡ 30 * second
unfolding delay_for_attempt
third_delay = refl

delays_grow : (delay_for_attempt 3 ≤ delay_for_attempt 4) × (delay_for_attempt 2 ≤ 30 * 60 * second)
delays_grow = delay_for_attempt_mono 2
