-- ===== src/Ratelimit.antt =====
-- internal/ratelimit/limiter.go.
use mgl_communication.Base.{
  List, ◌∷◌, ℕ, ◌+◌, String, Bool, true, false, Option, none, some, [], ltb, leb, if◌then◌else◌,
  Dict, lookup, insert,
}
pub mod Window
pub mod Agreement
pub mod Cleanup
mod Tests

-- A window's counter. Times are nanoseconds.
pub record Bucket : Type 0 where
  pub count : ℕ
  pub reset_at : ℕ

pub record Limiter : Type 0 where
  pub window : ℕ
  pub limit : ℕ
  pub buckets : Dict Bucket

abbrev pub minute : ℕ
minute = 60000000000

-- A value that is not positive takes the default.
abbrev pub or_default : ℕ → ℕ → ℕ
or_default n d = if ltb 0 n then n else d

unfoldable pub new : ℕ → ℕ → Limiter
new limit window = record {
  window = or_default window minute;
  limit = or_default limit 60;
  buckets = [];
}

unfoldable pub decide_bucket : Limiter → String → ℕ → Option Bucket → Limiter × Bool
decide_bucket l key now none = (
  record l { buckets = insert key (record { count = 1; reset_at = now + l.window }) l.buckets },
  true,
)
decide_bucket l key now (some b) =
    if ltb b.reset_at now
    then (
      record l { buckets = insert key (record { count = 1; reset_at = now + l.window }) l.buckets },
      true,
    )
    else if leb l.limit b.count
    then (l, false)
    else (record l { buckets = insert key (record b { count = b.count + 1 }) l.buckets }, true)

unfoldable pub allow : Limiter → String → ℕ → Limiter × Bool
unfolding decide_bucket
allow l key now = decide_bucket l key now (lookup key l.buckets)

-- The loop of `Cleanup`.
unfoldable pub drop_expired : ℕ → Dict Bucket → Dict Bucket
drop_expired now [] = []
drop_expired now ((k, b) ∷ m) =
    if ltb b.reset_at now then drop_expired now m else (k, b) ∷ drop_expired now m

unfoldable pub cleanup : Limiter → ℕ → Limiter
unfolding drop_expired
cleanup l now = record l { buckets = drop_expired now l.buckets }
