-- ===== src/Push/Select.antt =====
-- Which devices a message goes to: filterDevicesForMessage, selectProviderForMessage and the
-- de-duplication of resolveDevices, internal/service/message.go.
use Prim.Native.String.{◌++◌ as str_append}
use mgl_communication.Base.{
  String, Bool, true, false, not, ◌&&◌, ◌||◌, ◌==◌, if◌then◌else◌, Option, none, some, List, [],
  ◌∷◌, ◌++◌, Dict, lookup, insert, contains, keep_if, is_empty, length,
}
use mgl_communication.Push.Types.{
  MessageType, incoming_call, call_cancelled, call_ended, Device, Message, is_call_related,
}
pub mod Installations

unfoldable pub install_key : Device → String
install_key d = str_append d.app_id (str_append "|" d.installation_id)

abbrev pub group_of : Option (List Device) → List Device
group_of none = []
group_of (some ds) = ds

-- `byInstall` and `order` behind the first loop.
pub record Groups : Type 0 where
  pub by_install : Dict (List Device)
  pub order : List String

abbrev add_key : Option (List Device) → String → List String → List String
add_key none key order = order ++ key ∷ []
add_key (some _) key order = order

unfoldable pub add_device : Device → Groups → Groups
add_device d g =
    let key = install_key d in
    record {
      by_install = insert key (group_of (lookup key g.by_install) ++ d ∷ []) g.by_install;
      order = add_key (lookup key g.by_install) key g.order;
    }

unfoldable pub group_devices : List Device → Groups → Groups
unfolding add_device
group_devices [] g = g
group_devices (d ∷ ds) g = group_devices ds (add_device d g)

abbrev pub is_voip : Device → Bool
is_voip d = d.provider == "apns_voip"

abbrev pub is_apns : Device → Bool
is_apns d = not (is_voip d) && d.provider == "apns"

abbrev pub is_other : Device → Bool
is_other d = not (is_voip d) && not (d.provider == "apns")

-- The second loop's choice within the devices of one iOS installation.
unfoldable pub choose_ios : Bool → List Device → List Device
choose_ios incoming group =
    let voip = keep_if is_voip group in
    let apns = keep_if is_apns group in
    let other = keep_if is_other group in
    if incoming
    then (if not (is_empty voip) then voip else apns ++ other)
    else (if not (is_empty apns) then apns else if not (is_empty other) then other else voip)

-- `len(group) == 1 || group[0].Platform != ios`
abbrev pub takes_all : List Device → Bool
takes_all [] = true
takes_all (d ∷ []) = true
takes_all (d ∷ e ∷ ds) = not (d.platform == "ios")

unfoldable pub choose : Bool → List Device → List Device
unfolding choose_ios
choose incoming group = if takes_all group then group else choose_ios incoming group

unfoldable pub choose_groups : Bool → Dict (List Device) → List String → List Device
unfolding choose
choose_groups incoming by_install [] = []
choose_groups incoming by_install (key ∷ order) =
    choose incoming (group_of (lookup key by_install)) ++ choose_groups incoming by_install order

unfoldable pub filter_devices_for_message : List Device → MessageType → List Device
unfolding group_devices choose_groups
filter_devices_for_message devices type =
    let g = group_devices devices (record { by_install = []; order = [] }) in
    choose_groups (is_call_related type) g.by_install g.order

abbrev is_incoming : MessageType → Bool
is_incoming incoming_call = true
is_incoming _ = false

unfoldable pub select_provider_for_message : Device → MessageType → String
select_provider_for_message d type =
    if d.platform == "ios" && is_incoming type
    then (if d.provider == "apns_voip" then "apns_voip" else "apns")
    else d.provider

-- The loops of resolveDevices: `seen` holds the ids that were taken.
unfoldable pub add_unseen : List Device → List String → List Device
add_unseen [] seen = []
add_unseen (d ∷ ds) seen =
    if contains d.id seen then add_unseen ds seen else d ∷ add_unseen ds (d.id ∷ seen)
