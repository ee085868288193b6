-- ===== src/Push/Worker/Budget.antt =====
-- No delivery is attempted more often than the worker's limit.
use mgl_communication.Base.{
  ℕ, zero, suc, ◌≤◌, ◌<◌, String, Bool, true, false, if◌then◌else◌, List, [], ◌∷◌, map, All,
  All-map, ◌≡◌, refl, sym, ◌≢◌, ◌⊎◌, inl, inr, arith,
}
use mgl_communication.Push.Types.{Delivery}
use mgl_communication.Push.Tables.{
  claim_if, Database, claim_ready, claim, is_ready, is_waiting, edit_delivery,
}
use mgl_communication.Push.Worker.{
  Worker, process_delivery, process_all, tick, tick_claimed, marking, Claiming, rows_read,
  rows_refused, rows_lost,
}
use mgl_communication.Push.Worker.Settle.{Settled, processed_or_not, process_delivery-Settles}

-- A delivery that waits has an attempt left, and none has had too many.
abbrev pub WithinBudget : ℕ → Delivery → Type 0
WithinBudget max r = (r.attempts ≤ max) × ((is_waiting r.status ≡ true) → (r.attempts < max))

-- The primary key: another row has another id.
abbrev pub DistinctIds : List Delivery → Type 0
DistinctIds [] = Unit
DistinctIds (d ∷ ds) = All (λ e. e.id ≢ d.id) ds × DistinctIds ds

-- The rows with the id of `d` have its number of attempts.
abbrev Agrees : Delivery → List Delivery → Type 0
Agrees d = All (λ r. (r.id ≢ d.id) ⊎ (r.attempts ≡ d.attempts))

abbrev AllAgree : List Delivery → List Delivery → Type 0
AllAgree ds rows = All (λ d. Agrees d rows) ds

-- What claim_ready returns and leaves has the ids of the table.
claim_ready-ids :
    (key : String) (now limit : ℕ) (rows : List Delivery)
    → All (λ e. e.id ≢ key) rows
    → All (λ e. e.id ≢ key) (claim_ready now limit rows).0
      × All (λ e. e.id ≢ key) (claim_ready now limit rows).1
unfolding claim_ready
claim_ready-ids key now limit [] a = (tt, tt)
claim_ready-ids key now zero (d ∷ ds) a = (tt, a)
claim_ready-ids key now (suc limit) (d ∷ ds) a =
    ground
      (arith, a.0, claim_ready-ids key now (if is_ready now d then limit else suc limit) ds a.1)

Agrees-cons_other :
    (e : Delivery) (ds rows : List Delivery)
    → All (λ d. d.id ≢ e.id) ds
    → AllAgree ds rows
    → AllAgree ds (e ∷ rows)
Agrees-cons_other e [] rows n a = tt
Agrees-cons_other e (d ∷ ds) rows n a =
    ((inl (λ h. n.0 (sym h)), a.0), Agrees-cons_other e ds rows n.1 a.1)

Agrees-others : (d : Delivery) (rows : List Delivery) → All (λ e. e.id ≢ d.id) rows → Agrees d rows
Agrees-others d rows a =
    All-map (λ e. e.id ≢ d.id) (λ r. (r.id ≢ d.id) ⊎ (r.attempts ≡ d.attempts)) rows (λ e n. inl n)
      a

claim_step-AllAgree :
    (b : Bool) (d : Delivery) (rest : List Delivery × List Delivery)
    → All (λ e. e.id ≢ d.id) rest.0 × All (λ e. e.id ≢ d.id) rest.1
    → AllAgree rest.0 rest.1
    → AllAgree (claim_if b d rest).0 (claim_if b d rest).1
claim_step-AllAgree true d rest n a = (
  (inr refl, Agrees-others (claim d) rest.1 n.1),
  Agrees-cons_other (claim d) rest.0 rest.1 n.0 a,
)
claim_step-AllAgree false d rest n a = Agrees-cons_other d rest.0 rest.1 n.0 a

claim_ready-AllAgree :
    (now limit : ℕ) (rows : List Delivery)
    → DistinctIds rows
    → AllAgree (claim_ready now limit rows).0 (claim_ready now limit rows).1
unfolding claim_ready
claim_ready-AllAgree now limit [] u = tt
claim_ready-AllAgree now zero (d ∷ ds) u = tt
claim_ready-AllAgree now (suc limit) (d ∷ ds) u =
    let left = if is_ready now d then limit else suc limit in
    claim_step-AllAgree (is_ready now d) d (claim_ready now left ds)
      (claim_ready-ids d.id now left ds u.0) (claim_ready-AllAgree now left ds u.1)

claim_step-WithinBudget :
    (max now : ℕ) (b : Bool) (d : Delivery) (rest : List Delivery × List Delivery)
    → (b ≡ true → is_waiting d.status ≡ true)
    → WithinBudget max d
    → All (WithinBudget max) rest.1
    → All (WithinBudget max) (claim_if b d rest).1
claim_step-WithinBudget max now true d rest h p a = ((ground arith, λ e. absurd (ground arith)), a)
claim_step-WithinBudget max now false d rest h p a = (p, a)

claim_ready-WithinBudget :
    (max now limit : ℕ) (rows : List Delivery)
    → All (WithinBudget max) rows
    → All (WithinBudget max) (claim_ready now limit rows).1
unfolding claim_ready
claim_ready-WithinBudget max now limit [] a = tt
claim_ready-WithinBudget max now zero (d ∷ ds) a = a
claim_ready-WithinBudget max now (suc limit) (d ∷ ds) a =
    claim_step-WithinBudget max now (is_ready now d) d
      (claim_ready now (if is_ready now d then limit else suc limit) ds) (λ h. ground arith) a.0
      (claim_ready-WithinBudget max now (if is_ready now d then limit else suc limit) ds a.1)

Settled-WithinBudget :
    (w : Worker) (now : ℕ) (d r e : Delivery)
    → Settled w now d e
    → e.attempts ≡ r.attempts
    → r.attempts ≡ d.attempts
    → WithinBudget w.max_attempt r
    → WithinBudget w.max_attempt e
Settled-WithinBudget w now d r e (inl s) q p b = ground arith
Settled-WithinBudget w now d r e (inr (inl s)) q p b = ground arith
Settled-WithinBudget w now d r e (inr (inr (s, l, _))) q p b = ground arith

edit-WithinBudget :
    (w : Worker) (now : ℕ) (d : Delivery) (edit : Delivery → Delivery)
    → ((r : Delivery)
        → Settled w now d (edit r) × ((edit r).id ≡ r.id) × ((edit r).attempts ≡ r.attempts))
    → (rows : List Delivery) → Agrees d rows
    → All (WithinBudget w.max_attempt) rows
    → All (WithinBudget w.max_attempt) (map (edit_delivery d.id edit) rows)
edit-WithinBudget w now d edit f [] g a = tt
edit-WithinBudget w now d edit f (r ∷ rows) g a = (
  ground (arith, a.0, g.0, Settled-WithinBudget w now d r (edit r) (f r).0 (f r).2),
  edit-WithinBudget w now d edit f rows g.1 a.1,
)

edit-Agrees :
    (w : Worker) (now : ℕ) (d c : Delivery) (edit : Delivery → Delivery)
    → ((r : Delivery)
        → Settled w now d (edit r) × ((edit r).id ≡ r.id) × ((edit r).attempts ≡ r.attempts))
    → (rows : List Delivery) → Agrees c rows
    → Agrees c (map (edit_delivery d.id edit) rows)
edit-Agrees w now d c edit f [] g = tt
edit-Agrees w now d c edit f (r ∷ rows) g =
    (ground (arith, g.0, (f r).1, (f r).2), edit-Agrees w now d c edit f rows g.1)

process_all-WithinBudget :
    (w : Worker) (now : ℕ) (ds : List Delivery) (db : Database)
    → AllAgree ds db.deliveries
    → All (WithinBudget w.max_attempt) db.deliveries
    → All (WithinBudget w.max_attempt) (process_all w now ds db).deliveries
unfolding process_all
process_all-WithinBudget w now [] db g a = a
process_all-WithinBudget w now (d ∷ ds) db g a =
    let next = process_delivery w now d db in
    elim (processed_or_not (w.fails d marking) w now d db next
      (process_delivery-Settles w now d db)) [
        | inl s ↦
            process_all-WithinBudget w now ds next
              (rw s.2 (
                All-map (λ c. Agrees c db.deliveries)
                  (λ c. Agrees c (map (edit_delivery d.id s.0) db.deliveries)) ds
                  (λ c h. edit-Agrees w now d c s.0 s.1 db.deliveries h) g.1))
              (rw s.2 (edit-WithinBudget w now d s.0 s.1 db.deliveries g.0 a))
        | inr e ↦ process_all-WithinBudget w now ds next (rw e g.1) (rw e a)
      ]

-- With distinct delivery ids, a tick keeps the number of attempts of every delivery within the
-- limit of the worker, and below it for each delivery that is pending or retrying, whichever
-- statements fail.
pub tick-WithinBudget :
    (w : Worker) (now : ℕ) (db : Database)
    → DistinctIds db.deliveries
    → All (WithinBudget w.max_attempt) db.deliveries
    → All (WithinBudget w.max_attempt) (tick w now db).deliveries
unfolding tick
tick-WithinBudget w now db u a = go w.claims
  where
    rows : List Delivery × List Delivery
    rows = claim_ready now w.batch_size db.deliveries

    go : (c : Claiming) → All (WithinBudget w.max_attempt) (tick_claimed w now c rows db).deliveries
    go rows_read =
        process_all-WithinBudget w now rows.0 (record db { deliveries = rows.1 })
          (claim_ready-AllAgree now w.batch_size db.deliveries u)
          (claim_ready-WithinBudget w.max_attempt now w.batch_size db.deliveries a)
    go rows_refused = a
    go rows_lost = claim_ready-WithinBudget w.max_attempt now w.batch_size db.deliveries a
