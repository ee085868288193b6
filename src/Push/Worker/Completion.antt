-- ===== src/Push/Worker/Completion.antt =====
-- When maybeCompleteMessage completes a message.
use mgl_communication.Base.{
  ℕ, ◌<◌, String, true, not, ◌&&◌, List, [], ◌∷◌, keep_if, length, All, Some, ◌≡◌, refl, ◌≢◌, ◌⊎◌,
  inl, inr, arith,
}
use mgl_communication.Push.Types.{
  Delivery, DeliveryStatus, pending, sending, accepted, delivered, opened, failed, retrying,
}
use mgl_communication.Push.Tables.{
  Database, is_of, is_open, is_final, has_pending, count_by_message, mark_completed,
}
use mgl_communication.Push.Worker.{maybe_complete_message}

open_or_final : (s : DeliveryStatus) → is_open s ≡ not (is_final s)
open_or_final pending = refl
open_or_final sending = refl
open_or_final accepted = refl
open_or_final delivered = refl
open_or_final opened = refl
open_or_final failed = refl
open_or_final retrying = refl

abbrev AllFinal : String → List Delivery → Type 0
AllFinal id = All (λ d. (d.message_id ≢ id) ⊎ (is_final d.status ≡ true))

abbrev open_of : String → List Delivery → List Delivery
open_of id = keep_if (λ d. is_of id d && is_open d.status)

abbrev final_of : String → List Delivery → List Delivery
final_of id = keep_if (λ d. is_of id d && is_final d.status)

AllFinal-counts :
    (id : String) (ds : List Delivery)
    → AllFinal id ds
    → (length (open_of id ds) ≡ 0) × (length (final_of id ds) ≡ length (keep_if (is_of id) ds))
AllFinal-counts id [] a = (refl, refl)
AllFinal-counts id (d ∷ ds) a =
    ground (arith, a.0, AllFinal-counts id ds a.1, open_or_final d.status)

none_open-AllFinal :
    (id : String) (ds : List Delivery) → length (open_of id ds) ≡ 0 → AllFinal id ds
none_open-AllFinal id [] h = tt
none_open-AllFinal id (d ∷ ds) h = ground (arith, none_open-AllFinal id ds, open_or_final d.status)

Some-count :
    (id : String) (ds : List Delivery)
    → Some (λ d. d.message_id ≡ id) ds
    → 0 < length (keep_if (is_of id) ds)
Some-count id [] h = absurd h
Some-count id (d ∷ ds) (inl e) = ground arith
Some-count id (d ∷ ds) (inr h) = ground (arith, Some-count id ds h)

count-Some :
    (id : String) (ds : List Delivery)
    → 0 < length (keep_if (is_of id) ds)
    → Some (λ d. d.message_id ≡ id) ds
count-Some id [] h = absurd (omega arith)
count-Some id (d ∷ ds) h = ground (arith, count-Some id ds)

-- The message has a delivery, and each of them is final.
abbrev pub Done : String → Database → Type 0
Done id db =
    Some (λ d. d.message_id ≡ id) db.deliveries
    × All (λ d. (d.message_id ≢ id) ⊎ (is_final d.status ≡ true)) db.deliveries

-- maybeCompleteMessage marks a message as completed when it has a delivery and all its deliveries
-- are accepted, failed, delivered or opened, also when all of them have failed, and changes
-- nothing otherwise.
pub maybe_complete_message-completes :
    (now : ℕ) (id : String) (db : Database)
    → (Done id db → maybe_complete_message now id db ≡ mark_completed now id db)
      × (¬ Done id db → maybe_complete_message now id db ≡ db)
unfolding maybe_complete_message has_pending count_by_message
maybe_complete_message-completes now id db = (
  λ d. ground (arith, AllFinal-counts id db.deliveries d.1, Some-count id db.deliveries d.0),
  λ n. ground (
    arith,
    none_open-AllFinal id db.deliveries,
    count-Some id db.deliveries,
    λ (a : Some (λ d. d.message_id ≡ id) db.deliveries) (b : AllFinal id db.deliveries). n (a, b),
  ),
)
