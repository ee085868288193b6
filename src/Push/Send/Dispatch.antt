-- ===== src/Push/Send/Dispatch.antt =====
-- What step 4 of Send leaves, with or without an error, internal/service/message.go.
use mathlib.Core.List.{append_assoc, append-nil}
use mgl_communication.Base.{
  ℕ, suc, String, Bool, true, false, if◌then◌else◌, Option, none, some, List, [], ◌∷◌, ◌++◌, All,
  All-append, ◌≡◌, refl, sym, ◌∙◌, ap, Error, Result, ok, err,
}
use mgl_communication.Push.Types.{
  pending, queueing, upserting, inserting, Statement, Device, Message, Delivery, Tools,
}
use mgl_communication.Push.Select.{filter_devices_for_message}
use mgl_communication.Push.Devices.{upsert_device, upsert_over, same_slot, stamp}
use mgl_communication.Push.Tables.{Database, find_row, mark_queued, insert_delivery}
use mgl_communication.Push.Validate.{SendMessageInput, is_direct}
use mgl_communication.Push.Send.{
  direct_device, new_deliveries, create_many, unless_failed, queue_inserted, enqueue_deliveries,
  dispatch,
}

-- A delivery of the message that nobody has attempted.
abbrev pub IsFresh : String → Delivery → Type 0
IsFresh id d = (d.message_id ≡ id) × (d.status ≡ pending) × (d.attempts ≡ 0)

-- The keys and the messages stay, and fresh deliveries of the message are added.
abbrev pub Adds : String → Database → Database → Type 0
Adds id db after =
    (after.keys ≡ db.keys)
    × (after.messages ≡ db.messages)
    × (ds : List Delivery) × (after.deliveries ≡ db.deliveries ++ ds)
    × All (IsFresh id) ds

Adds-refl : (id : String) (db : Database) → Adds id db db
Adds-refl id db = (refl, refl, [], sym (append-nil db.deliveries), tt)

Adds-trans :
    (id : String) (db mid after : Database) → Adds id db mid → Adds id mid after → Adds id db after
Adds-trans id db mid after (k, m, ds, d, a) (k', m', es, e, b) = (
  k' ∙ k,
  m' ∙ m,
  ds ++ es,
  e ∙ ap (λ x. x ++ es) d ∙ append_assoc db.deliveries ds es,
  All-append (IsFresh id) ds es a b,
)

insert_delivery-Adds :
    (id : String) (d : Delivery) (db : Database) → IsFresh id d → Adds id db (insert_delivery d db)
insert_delivery-Adds id d db f = (refl, refl, d ∷ [], refl, (f, tt))

unless_failed-Adds :
    (id : String) (o : Option Error) (db : Database) (rest : Result (Unit {0}) × Database)
    → Adds id db rest.1
    → Adds id db (unless_failed o db rest).1
unless_failed-Adds id (some e) db rest a = Adds-refl id db
unless_failed-Adds id none db rest a = a

create_many-Adds :
    (fails : Statement → Option Error) (number : ℕ) (id : String) (ds : List Delivery)
    (db : Database)
    → All (IsFresh id) ds
    → Adds id db (create_many fails number ds db).1
unfolding create_many
create_many-Adds fails number id [] db a = Adds-refl id db
create_many-Adds fails number id (d ∷ ds) db a =
    let rest = create_many fails (suc number) ds (insert_delivery d db) in
    unless_failed-Adds id (fails (inserting number)) db rest (
      Adds-trans id db (insert_delivery d db) rest.1 (insert_delivery-Adds id d db a.0)
        (create_many-Adds fails (suc number) id ds (insert_delivery d db) a.1))

new_deliveries-IsFresh :
    (tools : Tools) (now number : ℕ) (m : Message) (ds : List Device)
    → All (IsFresh m.id) (new_deliveries tools now number m ds)
unfolding new_deliveries
new_deliveries-IsFresh tools now number m [] = tt
new_deliveries-IsFresh tools now number m (d ∷ ds) =
    ((refl, refl, refl), new_deliveries-IsFresh tools now (suc number) m ds)

-- Only deliveries are added, and behind the last of them the message is marked as queued, unless
-- there was an error.
pub data Dispatched (now : ℕ) (id : String) (db : Database)
    : Result (Unit {0}) × Database → Type 0 where
  stopped : (e : Error) (after : Database) → Adds id db after → Dispatched now id db (err e, after)
  finished :
      (mid : Database) → Adds id db mid → Dispatched now id db (ok tt, mark_queued now id mid)

queue_inserted-Dispatched :
    (failure : Option Error) (now : ℕ) (id : String) (db : Database)
    (r : Result (Unit {0}) × Database)
    → Adds id db r.1
    → Dispatched now id db (queue_inserted failure now id r)
queue_inserted-Dispatched failure now id db (err e, after) a = stopped e after a
queue_inserted-Dispatched none now id db (ok _, after) a = finished after a
queue_inserted-Dispatched (some e) now id db (ok _, after) a = stopped e after a

enqueue_deliveries-Dispatched :
    (tools : Tools) (fails : Statement → Option Error) (now number : ℕ) (m : Message)
    (ds : List Device) (db mid : Database)
    → Adds m.id db mid
    → Dispatched now m.id db (enqueue_deliveries tools fails now number m ds mid)
unfolding enqueue_deliveries
enqueue_deliveries-Dispatched tools fails now number m ds db mid a =
    let rows = new_deliveries tools now number m (filter_devices_for_message ds m.type) in
    let made = create_many fails 0 rows mid in
    queue_inserted-Dispatched (fails queueing) now m.id db made (
      Adds-trans m.id db mid made.1 a (
        create_many-Adds fails 0 m.id rows mid
          (new_deliveries-IsFresh tools now number m (filter_devices_for_message ds m.type))))

upsert_device-Adds :
    (now : ℕ) (id : String) (d : Device) (db : Database) → Adds id db (upsert_device now d db).1
unfolding upsert_device
upsert_device-Adds now id d db = go (find_row (same_slot (stamp now d)) db.devices)
  where
    go : (o : Option Device) → Adds id db (upsert_over (stamp now d) o db).1
    go none = Adds-refl id db
    go (some old) = Adds-refl id db

pub dispatch-Dispatched :
    (tools : Tools) (fails : Statement → Option Error) (now first : ℕ) (in_ : SendMessageInput)
    (m : Message) (ds : List Device) (db : Database)
    → Dispatched now m.id db (dispatch tools fails now first in_ m ds db)
unfolding dispatch
dispatch-Dispatched tools fails now first in_ m ds db = go (is_direct in_) (fails upserting)
  where
    direct : Device × Database
    direct = upsert_device now (direct_device tools first in_) db

    go :
        (b : Bool) (o : Option Error)
        → Dispatched now m.id db (
            if b
            then unless_failed o db
                (enqueue_deliveries tools fails now (suc (suc first)) m (direct.0 ∷ []) direct.1)
            else enqueue_deliveries tools fails now first m ds db)
    go false o = enqueue_deliveries-Dispatched tools fails now first m ds db db (Adds-refl m.id db)
    go true (some e) = stopped e db (Adds-refl m.id db)
    go true none =
        enqueue_deliveries-Dispatched tools fails now (suc (suc first)) m (direct.0 ∷ []) db
          direct.1 (upsert_device-Adds now m.id (direct_device tools first in_) db)
