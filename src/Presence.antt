-- ===== src/Presence.antt =====
-- Who is online: internal/presence/store.go and the in-memory store, memory_store.go. A method
-- runs under the store's mutex, so it is one step; `now` is what time.Now returns in it.
use Prim.Native.Nat.{max}
use Prim.Native.String.{◌++◌ as str_append}
use mgl_communication.Base.{
  ℕ, String, Option, none, some, List, [], ◌∷◌, ◌++◌, ◌==◌, if◌then◌else◌, ltb, Dict, lookup,
  insert, add_member, Context, live, done,
}
pub mod Aggregate
pub mod Devices
mod Tests

-- A status is a string, since SetStatus takes any. `rank` is the map that mergeStatus looks up:
-- an unknown status has rank 0.
abbrev pub offline : String
offline = "offline"

unfoldable pub rank : String → ℕ
rank status =
    if status == "offline"
    then 0
    else if status == "idle"
    then 1
    else if status == "online"
    then 2
    else if status == "busy"
    then 3
    else if status == "in_call"
    then 4
    else 0

unfoldable pub merge_status : String → String → String
merge_status a b = if ltb (rank a) (rank b) then b else a

pub record DevicePresence : Type 0 where
  pub device_id : String
  pub user_id : String
  pub app_id : String
  pub status : String
  pub updated_at : ℕ

pub record UserPresence : Type 0 where
  pub user_id : String
  pub app_id : String
  pub status : String
  pub devices : List DevicePresence
  pub updated_at : ℕ

pub data EventType : Type 0 where
  presence_online presence_offline presence_updated : EventType

-- The event that `update` publishes; its payload is the user's status.
pub record Event : Type 0 where
  pub type : EventType
  pub app_id : String
  pub user_id : String
  pub device_id : String
  pub status : String

-- The devices by their id, the device ids by app|user, and what was published so far.
pub record Store : Type 0 where
  pub devices : Dict DevicePresence
  pub by_user : Dict (List String)
  pub events : List Event

unfoldable pub empty : Store
empty = record { devices = []; by_user = []; events = [] }

unfoldable pub user_key : String → String → String
user_key app_id user_id = str_append app_id (str_append "|" user_id)

abbrev pub ids_of : Option (List String) → List String
ids_of none = []
ids_of (some ids) = ids

abbrev pub device_ids : String → String → Store → List String
device_ids app_id user_id s = ids_of (lookup (user_key app_id user_id) s.by_user)

abbrev pub cons_found : Option DevicePresence → List DevicePresence → List DevicePresence
cons_found none ds = ds
cons_found (some d) ds = d ∷ ds

-- The devices that the loop of `snapshotLocked` finds, in the order of the ids.
unfoldable pub collect : Dict DevicePresence → List String → List DevicePresence
collect devices [] = []
collect devices (id ∷ ids) = cons_found (lookup id devices) (collect devices ids)

-- `agg` over the loop.
unfoldable pub aggregate : String → List DevicePresence → String
aggregate agg [] = agg
aggregate agg (d ∷ ds) = aggregate (merge_status agg d.status) ds

-- `updated` over the loop; 0 is the zero time.
unfoldable pub latest : ℕ → List DevicePresence → ℕ
latest updated [] = updated
latest updated (d ∷ ds) = latest (if ltb updated d.updated_at then d.updated_at else updated) ds

abbrev pub or_now : ℕ → ℕ → ℕ
or_now updated now = if ltb 0 updated then updated else now

unfoldable pub snapshot : String → String → ℕ → Store → UserPresence
snapshot app_id user_id now s =
    let ds = collect s.devices (device_ids app_id user_id s) in
    record {
      user_id = user_id;
      app_id = app_id;
      status = aggregate offline ds;
      devices = ds;
      updated_at = or_now (latest 0 ds) now;
    }

-- The map writes of `update`, under the lock.
unfoldable pub write_device : String → String → String → String → ℕ → Store → Store
write_device app_id user_id device_id status now s = record s {
  devices =
      insert device_id
        (record {
          device_id = device_id;
          user_id = user_id;
          app_id = app_id;
          status = status;
          updated_at = now;
        })
        s.devices;
  by_user =
      insert (user_key app_id user_id) (add_member device_id (device_ids app_id user_id s))
        s.by_user;
}

unfoldable pub update :
    String → String → String → String → EventType → ℕ → Store → Store × UserPresence
unfolding snapshot
update app_id user_id device_id status type now s =
    let s' = write_device app_id user_id device_id status now s in
    let up = snapshot app_id user_id now s' in
    (
      record s' {
        events =
            s'.events
            ++ record {
              type = type;
              app_id = app_id;
              user_id = user_id;
              device_id = device_id;
              status = up.status;
            }
              ∷ [];
      },
      up,
    )

abbrev nobody : String → String → ℕ → UserPresence
nobody app_id user_id now = record {
  user_id = user_id;
  app_id = app_id;
  status = offline;
  devices = [];
  updated_at = now;
}

unfoldable pub set_status :
    Context → String → String → String → String → ℕ → Store → Store × UserPresence
unfolding update
set_status done app_id user_id device_id status now s = (s, nobody app_id user_id now)
set_status live app_id user_id device_id status now s =
    update app_id user_id device_id status presence_updated now s

unfoldable pub set_online : Context → String → String → String → ℕ → Store → Store × UserPresence
unfolding update
set_online done app_id user_id device_id now s = (s, nobody app_id user_id now)
set_online live app_id user_id device_id now s =
    update app_id user_id device_id "online" presence_online now s

unfoldable pub set_offline : Context → String → String → String → ℕ → Store → Store × UserPresence
unfolding update
set_offline done app_id user_id device_id now s = (s, nobody app_id user_id now)
set_offline live app_id user_id device_id now s =
    update app_id user_id device_id offline presence_offline now s

unfoldable pub get_user : Context → String → String → ℕ → Store → UserPresence
unfolding snapshot
get_user done app_id user_id now s = nobody app_id user_id now
get_user live app_id user_id now s = snapshot app_id user_id now s
