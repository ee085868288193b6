-- ===== src/Ratelimit/Tests.antt =====
-- The theorems about the limiter at concrete inputs: two requests in a window of 10.
use Prim.Native.Nat.{min}
use mgl_communication.Base.{◌≡◌, refl, inl, List, [], ◌∷◌, lookup, insert, String-discrete, arith}
use mgl_communication.Ratelimit.{Limiter, allow, cleanup}
use mgl_communication.Ratelimit.Window.{Event, request, sweep, requests, granted, window_quota}
use mgl_communication.Ratelimit.Cleanup.{answers, answers-cleanup}

abbrev two_per_window : Limiter
two_per_window = record { window = 10; limit = 2; buckets = [] }

abbrev busy : List Event
busy = request "ann" 101 ∷ request "bob" 102 ∷ sweep 105 ∷ request "ann" 110 ∷ []

two_pass : granted "ann" two_per_window (request "ann" 100 ∷ busy) ≡ 2
unfolding granted allow cleanup lookup insert String-discrete
two_pass = refl

window_quota_example :
    granted "ann" two_per_window (request "ann" 100 ∷ busy)
    ≡ min (requests "ann" (request "ann" 100 ∷ busy)) 2
unfolding lookup
window_quota_example =
    window_quota "ann" 100 two_per_window busy (omega arith) (inl refl) (omega arith)

answers-cleanup_example :
    answers (cleanup two_per_window 50) (request "ann" 100 ∷ busy)
    ≡ answers two_per_window (request "ann" 100 ∷ busy)
answers-cleanup_example =
    answers-cleanup two_per_window 50 (request "ann" 100 ∷ busy) tt
      (omega arith, (omega arith, (omega arith, (omega arith, (omega arith, tt)))))
