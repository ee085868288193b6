-- ===== src/Signal/Leaving.antt =====
-- What the end of a connection does to the presence of a device with another connection.
use mgl_communication.Base.{
  ℕ, String, true, false, Option, none, some, lookup, lookup-insert, ◌≡◌, ◌≢◌, refl, ◌∙◌, arith,
  eq_refl,
}
use mgl_communication.Presence.{DevicePresence, set_offline, update, write_device}
use mgl_communication.Signal.Connection.{Conn}
use mgl_communication.Signal.Hub.{Hub, unregister, broadcast_presence, deliver_local}
use mgl_communication.Signal.Hub.Wired.{is_open, sent-is_open}
use mgl_communication.Signal.Hub.Changes.{shut}
use mgl_communication.Signal.Handlers.Sessions.{unregister-Quiet, lookup-close_object}

-- The status of a device.
abbrev pub status_of : Option DevicePresence → Option String
status_of none = none
status_of (some d) = some d.status

offline_written :
    (c : Conn) (now : ℕ) (h : Hub)
    → c.authed ≡ true
    → status_of (lookup c.device_id (unregister c now h).presence.devices) ≡ some "offline"
unfolding unregister broadcast_presence deliver_local set_offline update write_device
offline_written c now h a = ground (
  arith,
  a,
  eq_refl c.device_id,
  lookup-insert c.device_id c.device_id
      (record {
        device_id = c.device_id;
        user_id = c.user_id;
        app_id = c.app_id;
        status = "offline";
        updated_at = now;
      })
      h.presence.devices,
)

-- When an authenticated connection ends while another connection of the same device is open, the
-- other one stays open, and the presence store shows the device as offline.
pub unregister_other :
    (c d : Conn) (k : String) (now : ℕ) (h : Hub)
    → c.authed ≡ true
    → k ≢ c.id
    → lookup k h.objects ≡ some d
    → d.closed ≡ false
    → d.device_id ≡ c.device_id
    → (is_open (lookup k (unregister c now h).objects) ≡ true)
      × (status_of (lookup d.device_id (unregister c now h).presence.devices) ≡ some "offline")
unregister_other c d k now h a n e o same = (
  sent-is_open (lookup k (shut c h).objects) (lookup k (unregister c now h).objects)
        ((unregister-Quiet c now h).objects k)
      ∙ ground (arith, lookup-close_object k c.id (lookup c.id h.objects) h.objects refl, n, e, o),
  rw same (offline_written c now h a),
)
