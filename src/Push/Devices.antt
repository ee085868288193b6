-- ===== src/Push/Devices.antt =====
-- The statements of internal/repository/device.go on the table of devices.
use mgl_communication.Base.{
  ◌||◌, ℕ, String, Bool, true, ◌&&◌, ◌==◌, leb, if◌then◌else◌, Option, none, some, List, [], ◌∷◌,
  ◌++◌, map, keep_if, contains, any, Error, Result, ok, err, device_not_found,
}
use mgl_communication.Push.Types.{Device}
use mgl_communication.Push.Tables.{Database, find_row}

abbrev pub find_device : String → Database → Option Device
find_device id db = find_row (λ d. d.id == id) db.devices

abbrev pub edit_device : (Device → Bool) → (Device → Device) → Device → Device
edit_device p edit d = if p d then edit d else d

-- UPDATE devices SET ... WHERE ...
abbrev pub update_devices : (Device → Bool) → (Device → Device) → Database → Database
update_devices p edit db = record db { devices = map (edit_device p edit) db.devices }

unfoldable pub mark_invalid : ℕ → String → Database → Database
mark_invalid now id =
    update_devices (λ d. d.id == id) λ d. record d { status = "invalid"; updated_at = now }

-- The two lists of active devices, in table order.
abbrev pub active_by_user_ids : String → List String → Database → List Device
active_by_user_ids app_id user_ids db =
    keep_if (λ d. d.app_id == app_id && d.status == "active" && contains d.user_id user_ids)
      db.devices

abbrev pub active_by_installation_ids : String → List String → Database → List Device
active_by_installation_ids app_id ids db =
    keep_if (λ d. d.app_id == app_id && d.status == "active" && contains d.installation_id ids)
      db.devices

-- The conflict target of Upsert, and the row that the conflict leaves.
abbrev pub same_slot : Device → Device → Bool
same_slot new d = d.installation_id == new.installation_id && d.provider == new.provider

abbrev pub merge_device : Device → Device → Device
merge_device new old = record old {
  user_id = if new.user_id == "" then old.user_id else new.user_id;
  platform = new.platform;
  token = new.token;
  app_id = new.app_id;
  app_version = new.app_version;
  os_version = new.os_version;
  device_model = new.device_model;
  locale = new.locale;
  timezone = new.timezone;
  status = "active";
  updated_at = new.updated_at;
  last_seen_at = new.last_seen_at;
}

abbrev pub upsert_over : Device → Option Device → Database → Device × Database
upsert_over new none db = (new, record db { devices = db.devices ++ new ∷ [] })
upsert_over new (some old) db =
    (merge_device new old, update_devices (same_slot new) (merge_device new) db)

abbrev pub stamp : ℕ → Device → Device
stamp now d = record d {
  status = if d.status == "" then "active" else d.status;
  created_at = now;
  updated_at = now;
  last_seen_at = now;
}

-- Upsert of a device that has its id.
unfoldable pub upsert_device : ℕ → Device → Database → Device × Database
upsert_device now new db =
    upsert_over (stamp now new) (find_row (same_slot (stamp now new)) db.devices) db

-- WHERE installation_id = $1 AND app_id = $2
abbrev pub is_installation : String → String → Device → Bool
is_installation app_id installation_id d =
    d.installation_id == installation_id && d.app_id == app_id

-- ORDER BY CASE WHEN provider = 'apns_voip' THEN 1 ELSE 0 END, updated_at DESC LIMIT 1
abbrev pub comes_before : Device → Device → Bool
comes_before d e =
    if d.provider == "apns_voip"
    then e.provider == "apns_voip" && leb e.updated_at d.updated_at
    else if e.provider == "apns_voip"
    then true
    else leb e.updated_at d.updated_at

unfoldable pub first_of : Device → List Device → Device
first_of d [] = d
first_of d (e ∷ es) = first_of (if comes_before d e then d else e) es

abbrev pub pick_first : List Device → Result Device
pick_first [] = err device_not_found
pick_first (d ∷ ds) = ok (first_of d ds)

unfoldable pub find_by_installation_id : String → String → Database → Result Device
unfolding first_of
find_by_installation_id app_id installation_id db =
    pick_first (keep_if (is_installation app_id installation_id) db.devices)

-- The rows that UpdateToken writes: all of the installation, or that of the provider.
abbrev pub takes_token : String → String → String → Device → Bool
takes_token app_id installation_id provider d =
    is_installation app_id installation_id d && (provider == "" || d.provider == provider)

abbrev pub with_token : ℕ → String → Device → Device
with_token now token d = record d {
  token = token;
  status = "active";
  updated_at = now;
  last_seen_at = now;
}

abbrev pub first_updated : List Device → Result Device
first_updated [] = err device_not_found
first_updated (d ∷ ds) = ok d

-- The row returned is the first of those written, in table order.
unfoldable pub update_token :
    ℕ → String → String → String → String → Database → Result Device × Database
update_token now app_id installation_id provider token db = (
  first_updated (
      map (with_token now token)
        (keep_if (takes_token app_id installation_id provider) db.devices)),
  update_devices (takes_token app_id installation_id provider) (with_token now token) db,
)

-- A statement that must affect some row.
abbrev pub update_some : (Device → Bool) → (Device → Device) → Database → Option Error × Database
update_some p edit db =
    (if any p db.devices then none else some device_not_found, update_devices p edit db)

unfoldable pub set_user_id : ℕ → String → String → String → Database → Option Error × Database
set_user_id now app_id installation_id user_id =
    update_some (is_installation app_id installation_id)
      λ d. record d { user_id = user_id; updated_at = now; last_seen_at = now }

unfoldable pub clear_user_id : ℕ → String → String → Database → Option Error × Database
clear_user_id now app_id installation_id =
    update_some (is_installation app_id installation_id)
      λ d. record d { user_id = ""; updated_at = now; last_seen_at = now }

unfoldable pub unregister : ℕ → String → String → Database → Option Error × Database
unregister now app_id installation_id =
    update_some (is_installation app_id installation_id)
      λ d. record d { status = "disabled"; updated_at = now }
