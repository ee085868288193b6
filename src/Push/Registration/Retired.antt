-- ===== src/Push/Registration/Retired.antt =====
-- Devices that are not sent to any more: unregistered ones and those with an invalid token.
use mgl_communication.Base.{
  invalid_request, ℕ, String, Bool, true, false, ◌&&◌, ◌==◌, if◌then◌else◌, some, List, [], ◌∷◌,
  map, keep_if, contains, is_empty, All, All-append, ◌≡◌, refl, ◌≢◌, arith, text_ne,
}
use mgl_communication.Push.Types.{Device}
use mgl_communication.Push.Select.{add_unseen}
use mgl_communication.Push.Tables.{Database}
use mgl_communication.Push.Devices
use mgl_communication.Push.Devices.{edit_device, is_installation, mark_invalid}
use mgl_communication.Push.Validate.{SendMessageInput}
use mgl_communication.Push.Send.{resolve_devices}
use mgl_communication.Push.Registration.{unregister}

add_unseen-All :
    (P : Device → Type 0) (ds : List Device) (seen : List String)
    → All P ds
    → All P (add_unseen ds seen)
unfolding add_unseen
add_unseen-All P [] seen a = tt
add_unseen-All P (d ∷ ds) seen a =
    ground (arith, a.0, add_unseen-All P ds seen a.1, add_unseen-All P ds (d.id ∷ seen) a.1)

-- Of rows that an update has taken out of the active state, a list of active rows has none.
retire_active :
    (p : Device → Bool) (edit : Device → Device)
    → ((d : Device) → (edit d).status ≢ "active")
    → (app_id : String) (q : Device → Bool) (ds : List Device)
    → All
        (λ d. p d ≡ false)
        (keep_if
          (λ d. d.app_id == app_id && d.status == "active" && q d)
          (map (edit_device p edit) ds))
retire_active p edit n app_id q [] = tt
retire_active p edit n app_id q (d ∷ ds) = ground (arith, n d, retire_active p edit n app_id q ds)

resolve_retired :
    (p : Device → Bool) (edit : Device → Device)
    → ((d : Device) → (edit d).status ≢ "active")
    → (in_ : SendMessageInput) (db : Database)
    → All (λ d. p d ≡ false) (resolve_devices in_ (Devices.update_devices p edit db))
unfolding resolve_devices
resolve_retired p edit n in_ db = add_unseen-All _ _ [] (
    All-append _ _ _ (part (is_empty in_.user_ids) (λ d. contains d.user_id in_.user_ids))
      (part (is_empty in_.installation_ids) (λ d. contains d.installation_id in_.installation_ids)))
  where
    part :
        (none : Bool) (q : Device → Bool)
        → All
            (λ d. p d ≡ false)
            (if none
              then []
              else keep_if
                  (λ d. d.app_id == in_.app_id && d.status == "active" && q d)
                  (map (edit_device p edit) db.devices))
    part true q = tt
    part false q = retire_active p edit n in_.app_id q db.devices

-- After an Unregister with an installation id, resolveDevices finds no device of that
-- installation and app for any request.
pub resolve_devices-unregister :
    (now : ℕ) (app_id installation_id : String) (in_ : SendMessageInput) (db : Database)
    → installation_id ≢ ""
    → All
        (λ d. is_installation app_id installation_id d ≡ false)
        (resolve_devices in_ (unregister now app_id installation_id db).1)
unfolding unregister Devices.unregister
resolve_devices-unregister now app_id installation_id in_ db n =
    go (installation_id == "") (ground (arith, n))
  where
    go :
        (b : Bool)
        → b ≡ false
        → All
            (λ d. is_installation app_id installation_id d ≡ false)
            (resolve_devices in_
              (if b
                then (some (invalid_request "installation_id is required"), db)
                else Devices.unregister now app_id installation_id db).1)
    go true h = cc
    go false h =
        resolve_retired (is_installation app_id installation_id)
          (λ d. record d { status = "disabled"; updated_at = now })
          (λ d. text_ne "disabled" "active" refl) in_ db

-- After MarkInvalid of a device, resolveDevices does not find the device for any request.
pub resolve_devices-mark_invalid :
    (now : ℕ) (id : String) (in_ : SendMessageInput) (db : Database)
    → All (λ d. (d.id == id) ≡ false) (resolve_devices in_ (mark_invalid now id db))
unfolding mark_invalid
resolve_devices-mark_invalid now id in_ db =
    resolve_retired (λ d. d.id == id) (λ d. record d { status = "invalid"; updated_at = now })
      (λ d. text_ne "invalid" "active" refl) in_ db
