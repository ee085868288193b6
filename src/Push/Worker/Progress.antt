-- ===== src/Push/Worker/Progress.antt =====
-- A tick of the worker leaves no delivery behind.
use mgl_communication.Base.{
  ℕ, zero, suc, String, Bool, true, false, if◌then◌else◌, List, [], ◌∷◌, map, All, ◌≡◌, ◌≢◌, ◌⊎◌,
  inl, inr, arith, subst, refl, none, contains,
}
use mgl_communication.Push.Types.{Delivery, sending}
use mgl_communication.Push.Tables.{claim_if, Database, claim_ready, is_ready, edit_delivery}
use mgl_communication.Push.Worker.{
  Worker, process_delivery, process_all, tick, tick_claimed, marking, Claiming, rows_read,
  rows_refused, rows_lost,
}
use mgl_communication.Push.Worker.Settle.{Settled, Settles, SettlesUnless, process_delivery-Settles}

abbrev ids : List Delivery → List String
ids = map (λ d. d.id)

-- A delivery that is being sent is one of those that are still to be processed.
abbrev Owed : List String → List Delivery → Type 0
Owed keys = All (λ r. (r.status ≢ sending) ⊎ (contains r.id keys ≡ true))

Owed-cons :
    (key : String) (keys : List String) (rows : List Delivery)
    → Owed keys rows
    → Owed (key ∷ keys) rows
Owed-cons key keys [] a = tt
Owed-cons key keys (r ∷ rows) (inl n, a) = (inl n, Owed-cons key keys rows a)
Owed-cons key keys (r ∷ rows) (inr h, a) = (inr (ground arith), Owed-cons key keys rows a)

claim_step-Owed :
    (b : Bool) (d : Delivery) (rest : List Delivery × List Delivery)
    → d.status ≢ sending
    → Owed (ids rest.0) rest.1
    → Owed (ids (claim_if b d rest).0) (claim_if b d rest).1
claim_step-Owed true d rest n a = (inr (ground arith), Owed-cons d.id (ids rest.0) rest.1 a)
claim_step-Owed false d rest n a = (inl n, a)

claim_ready-Owed :
    (now limit : ℕ) (rows : List Delivery)
    → All (λ r. r.status ≢ sending) rows
    → Owed (ids (claim_ready now limit rows).0) (claim_ready now limit rows).1
unfolding claim_ready
claim_ready-Owed now limit [] a = tt
claim_ready-Owed now zero (d ∷ ds) a = (inl a.0, go ds a.1)
  where
    go : (rows : List Delivery) → All (λ r. r.status ≢ sending) rows → Owed [] rows
    go [] b = tt
    go (r ∷ rows) b = (inl b.0, go rows b.1)
claim_ready-Owed now (suc limit) (d ∷ ds) a =
    claim_step-Owed (is_ready now d) d
      (claim_ready now (if is_ready now d then limit else suc limit) ds) a.0
      (claim_ready-Owed now (if is_ready now d then limit else suc limit) ds a.1)

-- A settled row is not being sent.
Settled-not_sending :
    (w : Worker) (now : ℕ) (d r : Delivery) → Settled w now d r → r.status ≢ sending
Settled-not_sending w now d r (inl e) h = cc
Settled-not_sending w now d r (inr (inl e)) h = cc
Settled-not_sending w now d r (inr (inr (e, _, _))) h = cc

edit-Owed :
    (w : Worker) (now : ℕ) (d : Delivery) (edit : Delivery → Delivery)
    → ((r : Delivery)
        → Settled w now d (edit r) × ((edit r).id ≡ r.id) × ((edit r).attempts ≡ r.attempts))
    → (keys : List String) (rows : List Delivery) → Owed (d.id ∷ keys) rows
    → Owed keys (map (edit_delivery d.id edit) rows)
edit-Owed w now d edit f keys [] a = tt
edit-Owed w now d edit f keys (r ∷ rows) a = (
  ground (arith, a.0, Settled-not_sending w now d (edit r) (f r).0),
  edit-Owed w now d edit f keys rows a.1,
)

process_all-Owed :
    (w : Worker) (now : ℕ) (ds : List Delivery) (db : Database)
    → ((d : Delivery) → w.fails d marking ≡ none)
    → Owed (ids ds) db.deliveries
    → Owed [] (process_all w now ds db).deliveries
unfolding process_all
process_all-Owed w now [] db m a = a
process_all-Owed w now (d ∷ ds) db m a =
    let s : Settles w now d db (process_delivery w now d db) =
      subst (λ o. SettlesUnless o w now d db (process_delivery w now d db)) (m d)
        (process_delivery-Settles w now d db) in
    process_all-Owed w now ds (process_delivery w now d db) m
      (rw s.2 (edit-Owed w now d s.0 s.1 (ids ds) db.deliveries a))

not_sending_now : (rows : List Delivery) → Owed [] rows → All (λ r. r.status ≢ sending) rows
not_sending_now [] b = tt
not_sending_now (r ∷ rows) (inl n, b) = (n, not_sending_now rows b)
not_sending_now (r ∷ rows) (inr h, b) = cc

-- If no delivery is in the state sending, the worker gets the rows that it claims, and no mark of
-- a delivery fails, a tick of the worker leaves no delivery in this state.
pub tick-settles :
    (w : Worker) (now : ℕ) (db : Database)
    → All (λ r. r.status ≢ sending) db.deliveries
    → w.claims ≢ rows_lost
    → ((d : Delivery) → w.fails d marking ≡ none)
    → All (λ r. r.status ≢ sending) (tick w now db).deliveries
unfolding tick
tick-settles w now db a n m = go w.claims n
  where
    rows : List Delivery × List Delivery
    rows = claim_ready now w.batch_size db.deliveries

    go :
        (c : Claiming)
        → c ≢ rows_lost
        → All (λ r. r.status ≢ sending) (tick_claimed w now c rows db).deliveries
    go rows_read k = not_sending_now _ (
        process_all-Owed w now rows.0 (record db { deliveries = rows.1 }) m
          (claim_ready-Owed now w.batch_size db.deliveries a))
    go rows_refused k = a
    go rows_lost k = absurd (k refl)
