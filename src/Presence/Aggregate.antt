-- ===== src/Presence/Aggregate.antt =====
-- The user's status is the highest of the devices' statuses, whatever the order of the loop.
use Prim.Native.Nat.{max}
use mathlib.Core.List.{Perm, Permᴰ}
use mathlib.Core.Logic.{∥∥₁_elim}
use mathlib.Core.HLevel.{hedberg}
use native.Mathlib.Decide.{dec_lt}
use mgl_communication.Base.{
  ℕ, ◌≡◌, ◌≤◌, ◌<◌, refl, ◌⊎◌, inl, inr, String, List, [], ◌∷◌, All, arith, ap, String-discrete,
  sym, ◌∙◌,
}
use mgl_communication.Presence.{DevicePresence, rank, merge_status, aggregate, offline}

-- Two known statuses of one rank are the same.
rank-injective : (a b : String) → 0 < rank a → rank a ≡ rank b → a ≡ b
unfolding rank
rank-injective a b p h = ground arith

rank-merge_status : (a b : String) → rank (merge_status a b) ≡ max (rank a) (rank b)
unfolding merge_status
rank-merge_status a b = ground arith

merge_status_cases : (a b : String) → (merge_status a b ≡ a) ⊎ (merge_status a b ≡ b)
unfolding merge_status
merge_status_cases a b = ground arith

-- The highest rank of the devices.
abbrev pub top_rank : List DevicePresence → ℕ
top_rank [] = 0
top_rank (d ∷ ds) = max (rank d.status) (top_rank ds)

rank-aggregate :
    (agg : String) (ds : List DevicePresence)
    → rank (aggregate agg ds) ≡ max (rank agg) (top_rank ds)
unfolding aggregate
rank-aggregate agg [] = omega arith
rank-aggregate agg (d ∷ ds) =
    omega (arith, rank-aggregate (merge_status agg d.status) ds, rank-merge_status agg d.status)

top_rank-permᴰ : {ds es : List DevicePresence} → Permᴰ ds es → top_rank ds ≡ top_rank es
top_rank-permᴰ Permᴰ.nil = refl
top_rank-permᴰ (Permᴰ.cons {l₁ = l} {l₂ = m} e p) =
    omega (arith, ap (λ d. rank d.status) e, top_rank-permᴰ p)
top_rank-permᴰ (Permᴰ.swap {l = l} e f) =
    omega (arith, ap (λ d. rank d.status) e, ap (λ d. rank d.status) f)
top_rank-permᴰ (Permᴰ.trans p q) = top_rank-permᴰ p ∙ top_rank-permᴰ q

-- A loop over statuses that rank no higher leaves the status alone.
aggregate-low :
    (agg : String) (ds : List DevicePresence) → top_rank ds ≤ rank agg → aggregate agg ds ≡ agg
unfolding aggregate merge_status
aggregate-low agg [] h = refl
aggregate-low agg (d ∷ ds) h = ground (arith, aggregate-low agg ds)

-- The status is determined by the highest rank.
aggregate_by_rank :
    (ds es : List DevicePresence)
    → top_rank ds ≡ top_rank es
    → aggregate offline ds ≡ aggregate offline es
aggregate_by_rank ds es h = elim (dec_lt 0 (top_rank ds)) [
  | yes p ↦
      rank-injective (aggregate offline ds) (aggregate offline es)
        (omega (arith, rank-aggregate offline ds))
        (omega (arith, rank-aggregate offline ds, rank-aggregate offline es))
  | no n ↦ aggregate-low offline ds (omega arith) ∙ sym (aggregate-low offline es (omega arith))
]

-- The status of a user does not depend on the order in which the loop over the map of devices
-- visits them.
pub aggregate-perm :
    (ds es : List DevicePresence) → Perm ds es → aggregate offline ds ≡ aggregate offline es
aggregate-perm ds es p =
    ∥∥₁_elim p (hedberg String-discrete _ _) (λ q. aggregate_by_rank ds es (top_rank-permᴰ q))

-- Some device of the list satisfies `P`.
abbrev pub SomeDevice : (DevicePresence → Type 0) → List DevicePresence → Type 0
SomeDevice P [] = ⊥
SomeDevice P (d ∷ ds) = P d ⊎ SomeDevice P ds

aggregate_source :
    (agg : String) (ds : List DevicePresence)
    → (aggregate agg ds ≡ agg) ⊎ SomeDevice (λ d. d.status ≡ aggregate agg ds) ds
unfolding aggregate
aggregate_source agg [] = inl refl
aggregate_source agg (d ∷ ds) = elim (aggregate_source (merge_status agg d.status) ds) [
  | inl e ↦ elim (merge_status_cases agg d.status) [
    | inl kept ↦ inl (e ∙ kept)
    | inr taken ↦ inr (inl (sym (e ∙ taken)))
  ]
  | inr rest ↦ inr (inr rest)
]

All-top_rank :
    (ds : List DevicePresence) (n : ℕ) → top_rank ds ≤ n → All (λ d. rank d.status ≤ n) ds
All-top_rank [] n h = tt
All-top_rank (d ∷ ds) n h = (omega arith, All-top_rank ds n (omega arith))

-- The status of a user ranks at least as high as that of each of the devices, and is offline or
-- the status of one of them.
pub aggregate-highest :
    (ds : List DevicePresence)
    → All (λ d. rank d.status ≤ rank (aggregate offline ds)) ds
      × ((aggregate offline ds ≡ offline) ⊎ SomeDevice (λ d. d.status ≡ aggregate offline ds) ds)
aggregate-highest ds = (
  All-top_rank ds (rank (aggregate offline ds)) (omega (arith, rank-aggregate offline ds)),
  aggregate_source offline ds,
)
