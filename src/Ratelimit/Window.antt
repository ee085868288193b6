-- ===== src/Ratelimit/Window.antt =====
-- How many requests of a key pass in one window.
use Prim.Native.Nat.{min}
use mgl_communication.Base.{
  Bool-cases, String-discrete, ◌≢◌, ℕ, suc, ◌+◌, ◌-◌, ◌≤◌, ◌<◌, ◌≡◌, refl, ◌⊎◌, inl, inr, String,
  Bool, true, false, Option, none, some, List, [], ◌∷◌, All, ltb, if◌then◌else◌, ◌==◌, Dict, lookup,
  lookup-insert, arith,
}
use mgl_communication.Ratelimit.{Bucket, Limiter, new, allow, cleanup, drop_expired, decide_bucket}

-- What can happen to a limiter: a request of a key, or a cleanup, at a time.
pub data Event : Type 0 where
  request : String → ℕ → Event
  sweep : ℕ → Event

abbrev pub time : Event → ℕ
time (request key at) = at
time (sweep at) = at

abbrev pub after : Limiter → Event → Limiter
after l (request key at) = (allow l key at).0
after l (sweep at) = cleanup l at

-- Whether the event is a request of the key, and whether it passes.
abbrev pub asks : String → Event → Bool
asks k (request key at) = key == k
asks k (sweep at) = false

abbrev pub passes : Limiter → Event → Bool
passes l (request key at) = (allow l key at).1
passes l (sweep at) = false

unfoldable pub requests : String → List Event → ℕ
requests k [] = 0
requests k (e ∷ es) = if asks k e then suc (requests k es) else requests k es

unfoldable pub granted : String → Limiter → List Event → ℕ
granted k l [] = 0
granted k l (e ∷ es) =
    let rest = granted k (after l e) es in
    if asks k e then (if passes l e then suc rest else rest) else rest

-- Cleanup keeps every entry that has not run out; of an entry that has, it keeps none before it.
lookup-drop_expired :
    (key : String) (now : ℕ) (m : Dict Bucket) {b : Bucket}
    → lookup key m ≡ some b
    → now ≤ b.reset_at
    → lookup key (drop_expired now m) ≡ some b
unfolding lookup drop_expired
lookup-drop_expired key now [] h le = cc
lookup-drop_expired key now ((k, c) ∷ m) {b} h le =
    ground (arith, lookup-drop_expired key now m {b = b})

lookup-decide_bucket_other :
    (key other : String) (at : ℕ) (l : Limiter) (o : Option Bucket)
    → other ≢ key
    → lookup key (decide_bucket l other at o).0.buckets ≡ lookup key l.buckets
unfolding decide_bucket
lookup-decide_bucket_other key other at l none ne =
    ground
      (arith, lookup-insert key other (record { count = 1; reset_at = at + l.window }) l.buckets)
lookup-decide_bucket_other key other at l (some b) ne = ground (
  arith,
  lookup-insert key other (record { count = 1; reset_at = at + l.window }) l.buckets,
  lookup-insert key other (record b { count = b.count + 1 }) l.buckets,
)

-- A request of another key does not touch this one's window.
lookup-allow_other :
    (key other : String) (at : ℕ) (l : Limiter)
    → other ≢ key
    → lookup key (allow l other at).0.buckets ≡ lookup key l.buckets
unfolding allow
lookup-allow_other key other at l ne =
    lookup-decide_bucket_other key other at l (lookup other l.buckets) ne

limit-decide_bucket :
    (other : String) (at : ℕ) (l : Limiter) (o : Option Bucket)
    → (decide_bucket l other at o).0.limit ≡ l.limit
unfolding decide_bucket
limit-decide_bucket other at l none = refl
limit-decide_bucket other at l (some b) = ground arith

limit-after : (l : Limiter) (e : Event) → (after l e).limit ≡ l.limit
unfolding allow cleanup
limit-after l (request k at) = limit-decide_bucket k at l (lookup k l.buckets)
limit-after l (sweep at) = refl

-- A window of the key is open until `b.reset_at`, and `b.count` requests have passed in it.
abbrev IsOpen : String → Bucket → Limiter → Type 0
IsOpen key b l = lookup key l.buckets ≡ some b

own_request_free :
    (key k : String) (at : ℕ) (b : Bucket) (l : Limiter)
    → k ≡ key
    → ltb b.count l.limit ≡ true
    → IsOpen key b l
    → at ≤ b.reset_at
    → ((allow l k at).1 ≡ true) × IsOpen key (record b { count = b.count + 1 }) (allow l k at).0
unfolding allow
own_request_free key k at b l e free o h =
    ground (arith, o, lookup-insert key k (record b { count = b.count + 1 }) l.buckets)

own_request_full :
    (key k : String) (at : ℕ) (b : Bucket) (l : Limiter)
    → k ≡ key
    → ltb b.count l.limit ≡ false
    → IsOpen key b l
    → at ≤ b.reset_at
    → ((allow l k at).1 ≡ false) × IsOpen key b (allow l k at).0
unfolding allow
own_request_full key k at b l e full o h = ground (arith, o)

other_event :
    (key : String) (e : Event) (b : Bucket) (l : Limiter)
    → asks key e ≡ false
    → time e ≤ b.reset_at
    → IsOpen key b l
    → IsOpen key b (after l e)
unfolding cleanup
other_event key (request k at) b l n h o = ground (arith, lookup-allow_other key k at l, o)
other_event key (sweep at) b l n h o = lookup-drop_expired key at l.buckets o h

granted_open :
    (key : String) (es : List Event) (b : Bucket) (l : Limiter)
    → IsOpen key b l
    → All (λ e. time e ≤ b.reset_at) es
    → granted key l es ≡ min (requests key es) (l.limit - b.count)
unfolding granted requests
granted_open key [] b l o h = omega arith
granted_open key (sweep at ∷ es) b l o h =
    let l' = after l (sweep at) in
    rw
      (
        granted_open key es b l' (other_event key (sweep at) b l refl h.0 o) h.1,
        limit-after l (sweep at),
      )
      refl
granted_open key (request k at ∷ es) b l o h =
    let l' = after l (request k at) in
    elim (String-discrete k key) [
      | yes e ↦ elim (Bool-cases (ltb b.count l.limit)) [
        | inl free ↦
            let (passed, o') = own_request_free key k at b l e free o h.0 in
            ground (
              arith,
              passed,
              granted_open key es (record b { count = b.count + 1 }) l' o' h.1,
              limit-after l (request k at),
            )
        | inr full ↦
            let (refused, o') = own_request_full key k at b l e full o h.0 in
            ground (arith, refused, granted_open key es b l' o' h.1, limit-after l (request k at))
      ]
      | no n ↦ ground (
        arith,
        granted_open key es b l' (other_event key (request k at) b l (ground arith) h.0 o) h.1,
        limit-after l (request k at),
      )
    ]

-- No window of the key is open at this time.
abbrev pub IsClosed : String → ℕ → Limiter → Type 0
IsClosed key at l =
    (lookup key l.buckets ≡ none)
    ⊎ ((b : Bucket) × (lookup key l.buckets ≡ some b) × (b.reset_at < at))

opens :
    (key : String) (at : ℕ) (l : Limiter)
    → IsClosed key at l
    → ((allow l key at).1 ≡ true)
      × IsOpen key (record { count = 1; reset_at = at + l.window }) (allow l key at).0
unfolding allow
opens key at l c =
    ground (arith, lookup-insert key key (record { count = 1; reset_at = at + l.window }) l.buckets)

-- When a request of a key finds no open window, then of it and of the later requests of this key
-- up to the end of the window that it opens, with any requests of other keys and any cleanups in
-- between, exactly the first ones up to the positive limit pass.
pub window_quota :
    (key : String) (at : ℕ) (l : Limiter) (es : List Event)
    → 0 < l.limit
    → IsClosed key at l
    → All (λ e. time e ≤ at + l.window) es
    → granted key l (request key at ∷ es) ≡ min (requests key (request key at ∷ es)) l.limit
unfolding granted requests
window_quota key at l es pos closed h =
    let l' = after l (request key at) in
    let (passed, o) = opens key at l closed in
    ground (
      arith,
      passed,
      granted_open key es (record { count = 1; reset_at = at + l.window }) l' o h,
      limit-after l (request key at),
    )

-- `New` never makes a limiter that refuses everything, or whose windows are empty.
pub new_positive :
    (limit window : ℕ) → (0 < (new limit window).limit) × (0 < (new limit window).window)
unfolding new
new_positive limit window = ground arith
