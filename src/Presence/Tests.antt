-- ===== src/Presence/Tests.antt =====
-- The theorems about presence at concrete inputs.
use mathlib.Core.List.Perm
use mgl_communication.Base.{
  ◌≡◌, ◌≢◌, ◌≤◌, refl, ◌⊎◌, [], ◌∷◌, All, live, lookup, String-discrete, text_ne,
}
use mgl_communication.Presence.{
  DevicePresence, Store, empty, rank, aggregate, merge_status, offline, user_key, set_status,
  set_online, get_user,
}
use mgl_communication.Presence.Aggregate.{aggregate-perm, SomeDevice, aggregate-highest}
use mgl_communication.Presence.Devices.{set_status-shown, set_status-isolated, moved_device}

abbrev phone : DevicePresence
phone = record {
  device_id = "phone";
  user_id = "ann";
  app_id = "nomio";
  status = "online";
  updated_at = 10;
}

abbrev tablet : DevicePresence
tablet = record phone { device_id = "tablet"; status = "busy" }

busiest : aggregate offline (phone ∷ tablet ∷ []) ≡ "busy"
unfolding aggregate merge_status rank String-discrete
busiest = refl

aggregate-perm_example :
    aggregate offline (phone ∷ tablet ∷ []) ≡ aggregate offline (tablet ∷ phone ∷ [])
aggregate-perm_example =
    aggregate-perm (phone ∷ tablet ∷ []) (tablet ∷ phone ∷ []) (Perm.swap tablet phone [])

highest_status :
    All (λ d. rank d.status ≤ rank (aggregate offline (phone ∷ tablet ∷ []))) (phone ∷ tablet ∷ [])
    × ((aggregate offline (phone ∷ tablet ∷ []) ≡ offline)
        ⊎ SomeDevice
            (λ d. d.status ≡ aggregate offline (phone ∷ tablet ∷ []))
            (phone ∷ tablet ∷ []))
highest_status = aggregate-highest (phone ∷ tablet ∷ [])

abbrev ann_online : Store
ann_online = (set_online live "nomio" "ann" "phone" 10 empty).0

busy_shown :
    let r = set_status live "nomio" "ann" "phone" "busy" 20 ann_online in
    (get_user live "nomio" "ann" 20 r.0 ≡ r.1)
    × SomeDevice
        (λ d. (d.device_id ≡ "phone") × (d.user_id ≡ "ann") × (d.status ≡ "busy"))
        r.1.devices
    × (rank "busy" ≤ rank r.1.status)
busy_shown = set_status-shown "nomio" "ann" "phone" "busy" 20 ann_online

keys_differ : user_key "nomio" "bob" ≢ user_key "nomio" "ann"
unfolding user_key
keys_differ = text_ne _ _ refl

set_status-isolated_example :
    get_user live "nomio" "bob" 30 (set_status live "nomio" "ann" "phone" "busy" 20 empty).0
    ≡ get_user live "nomio" "bob" 30 empty
unfolding empty lookup
set_status-isolated_example =
    set_status-isolated "nomio" "ann" "phone" "busy" "nomio" "bob" 20 30 empty keys_differ refl

phone_moved :
    let s = (set_online live "nomio" "bob" "phone" 20 ann_online).0 in
    let up = get_user live "nomio" "ann" 30 s in
    (rank "online" ≤ rank up.status)
    × SomeDevice (λ d. (d.device_id ≡ "phone") × (d.user_id ≡ "bob")) up.devices
phone_moved = moved_device "nomio" "ann" "bob" "phone" 10 20 30 empty
