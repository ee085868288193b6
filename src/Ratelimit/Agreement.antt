-- ===== src/Ratelimit/Agreement.antt =====
-- Limiters that differ in windows that are over decide alike.
use mgl_communication.Base.{
  ◌==◌, Bool, true, false, ◌<◌, ◌⊎◌, inl, inr, ap, sym, ◌∙◌, insert, lookup-insert, leb, ◌+◌, ℕ,
  ◌≤◌, ◌≡◌, refl, String, Option, none, some, [], ◌∷◌, ltb, if◌then◌else◌, Dict, lookup, arith,
  NodupKeys, insert-NodupKeys,
}
use mgl_communication.Ratelimit.{Bucket, Limiter, allow, cleanup, drop_expired, decide_bucket}

abbrev pub still_open : ℕ → Option Bucket → Option Bucket
still_open now none = none
still_open now (some b) = if ltb b.reset_at now then none else some b

pub lookup-drop_expired :
    (key : String) (now : ℕ) (m : Dict Bucket)
    → NodupKeys m
    → lookup key (drop_expired now m) ≡ still_open now (lookup key m)
unfolding lookup drop_expired
lookup-drop_expired key now [] u = refl
lookup-drop_expired key now ((k, b) ∷ m) u = ground (arith, lookup-drop_expired key now m u.1, u.0)

decide_bucket-NodupKeys :
    (l : Limiter) (key : String) (at : ℕ) (o : Option Bucket)
    → NodupKeys l.buckets
    → NodupKeys (decide_bucket l key at o).0.buckets
unfolding decide_bucket
decide_bucket-NodupKeys l key at none u = insert-NodupKeys key _ l.buckets u
decide_bucket-NodupKeys l key at (some b) u = ground (
  arith,
  insert-NodupKeys key (record { count = 1; reset_at = at + l.window }) l.buckets u,
  insert-NodupKeys key (record b { count = b.count + 1 }) l.buckets u,
)

-- A limiter's keys are distinct, as in any Go map: in a new one, and after each request.
pub allow-NodupKeys :
    (l : Limiter) (key : String) (at : ℕ)
    → NodupKeys l.buckets
    → NodupKeys (allow l key at).0.buckets
unfolding allow
allow-NodupKeys l key at u = decide_bucket-NodupKeys l key at (lookup key l.buckets) u

pub drop_expired-NodupKeys :
    (now : ℕ) (m : Dict Bucket) → NodupKeys m → NodupKeys (drop_expired now m)
unfolding drop_expired lookup
drop_expired-NodupKeys now [] u = tt
drop_expired-NodupKeys now ((k, b) ∷ m) u =
    ground (arith, drop_expired-NodupKeys now m u.1, lookup-drop_expired k now m u.1, u.0)

-- The same entry, or one that has run out and none.
abbrev pub Related : ℕ → Option Bucket → Option Bucket → Type 0
Related now o p = (o ≡ p) ⊎ ((p ≡ none) × (b : Bucket) × (o ≡ some b) × (ltb b.reset_at now ≡ true))

-- Two limiters that decide alike from `now` on.
pub record Agree (now : ℕ) (l c : Limiter) : Type 0 where
  pub limits : c.limit ≡ l.limit
  pub windows : c.window ≡ l.window
  pub entries : (key : String) → Related now (lookup key l.buckets) (lookup key c.buckets)
  pub distinct : NodupKeys l.buckets
  pub distinct_too : NodupKeys c.buckets

insert-Related :
    (now : ℕ) (j k : String) (v w : Bucket) (m n : Dict Bucket)
    → v ≡ w
    → Related now (lookup j m) (lookup j n)
    → Related now (lookup j (insert k v m)) (lookup j (insert k w n))
insert-Related now j k v w m n e r = rw (lookup-insert j k v m, lookup-insert j k w n) (go (j == k))
  where
    go :
        (b : Bool)
        → Related now (if b then some v else lookup j m) (if b then some w else lookup j n)
    go true = inl (ap some e)
    go false = r

-- The same decision, and the limiters agree behind it.
abbrev pub AgreeBehind : ℕ → Limiter × Bool → Limiter × Bool → Type 0
AgreeBehind now x y = (y.1 ≡ x.1) × Agree now x.0 y.0

stored-Agree :
    (now : ℕ) (k : String) (v w : Bucket) (l c : Limiter)
    → v ≡ w
    → Agree now l c
    → Agree now
        (record l { buckets = insert k v l.buckets })
        (record c { buckets = insert k w c.buckets })
stored-Agree now k v w l c e a = record {
  limits = a.limits;
  windows = a.windows;
  entries = λ j. insert-Related now j k v w l.buckets c.buckets e (a.entries j);
  distinct = insert-NodupKeys k v l.buckets a.distinct;
  distinct_too = insert-NodupKeys k w c.buckets a.distinct_too;
}

decide_bucket-Agree :
    (now : ℕ) (k : String) (at : ℕ) (l c : Limiter) (o : Option Bucket)
    → Agree now l c
    → AgreeBehind now (decide_bucket l k at o) (decide_bucket c k at o)
unfolding decide_bucket
decide_bucket-Agree now k at l c none a = (refl, stored-Agree now k _ _ l c (rw a.windows refl) a)
decide_bucket-Agree now k at l c (some b) a =
    go (ltb b.reset_at at) (leb l.limit b.count) (leb c.limit b.count)
      (ap (λ n. leb n b.count) a.limits)
  where
    go :
        (over full other : Bool)
        → other ≡ full
        → AgreeBehind now
            (if over
              then (
                record l {
                  buckets = insert k (record { count = 1; reset_at = at + l.window }) l.buckets;
                },
                true,
              )
              else if full
              then (l, false)
              else (
                record l { buckets = insert k (record b { count = b.count + 1 }) l.buckets },
                true,
              ))
            (if over
              then (
                record c {
                  buckets = insert k (record { count = 1; reset_at = at + c.window }) c.buckets;
                },
                true,
              )
              else if other
              then (c, false)
              else (
                record c { buckets = insert k (record b { count = b.count + 1 }) c.buckets },
                true,
              ))
    go true full other e = (refl, stored-Agree now k _ _ l c (rw a.windows refl) a)
    go false true true e = (refl, a)
    go false true false e = cc
    go false false true e = cc
    go false false false e = (refl, stored-Agree now k _ _ l c refl a)

decide_expired :
    (l : Limiter) (k : String) (at : ℕ) (b : Bucket)
    → b.reset_at < at
    → decide_bucket l k at (some b) ≡ decide_bucket l k at none
unfolding decide_bucket
decide_expired l k at b h = ground arith

pub allow-Agree :
    (now : ℕ) (k : String) (at : ℕ) (l c : Limiter)
    → now ≤ at
    → Agree now l c
    → AgreeBehind now (allow l k at) (allow c k at)
unfolding allow
allow-Agree now k at l c h a = go (a.entries k)
  where
    go :
        Related now (lookup k l.buckets) (lookup k c.buckets)
        → AgreeBehind now (allow l k at) (allow c k at)
    go (inl e) = rw (sym e) (decide_bucket-Agree now k at l c (lookup k l.buckets) a)
    go (inr (p, b, o, r)) =
        rw (p, o, decide_expired l k at b (ground (arith, r)))
          (decide_bucket-Agree now k at l c none a)

swept_entries :
    (now at : ℕ) (o p : Option Bucket)
    → now ≤ at
    → Related now o p
    → still_open at o ≡ still_open at p
swept_entries now at o p h (inl e) = ap (still_open at) e
swept_entries now at o p h (inr (e, b, f, r)) = rw (e, f) (ground (arith, r))

pub sweep-Agree :
    (now at : ℕ) (l c : Limiter)
    → now ≤ at
    → Agree now l c
    → Agree now (cleanup l at) (cleanup c at)
unfolding cleanup
sweep-Agree now at l c h a = record {
  limits = a.limits;
  windows = a.windows;
  entries = λ j. inl (
      lookup-drop_expired j at l.buckets a.distinct
      ∙ swept_entries now at (lookup j l.buckets) (lookup j c.buckets) h (a.entries j)
      ∙ sym (lookup-drop_expired j at c.buckets a.distinct_too));
  distinct = drop_expired-NodupKeys at l.buckets a.distinct;
  distinct_too = drop_expired-NodupKeys at c.buckets a.distinct_too;
}
