-- ===== src/Signal/Login.antt =====
-- handleAuth of internal/signaling/websocket/hub.go.
use mgl_communication.Base.{
  ℕ, String, not, ◌==◌, if◌then◌else◌, Option, none, some, lookup, insert, live,
}
use Prim.Native.String.{◌++◌ as str_append}
use mgl_communication.Auth.{UserClaims, validate}
use mgl_communication.Presence.{set_online}
use mgl_communication.Call.Service.{list_active_for_user}
use mgl_communication.Signal.Protocol.{EnvelopeType, AuthenticateData, authenticated_data}
use mgl_communication.Signal.Connection.{Conn, set_identity}
use mgl_communication.Signal.Hub.{
  Hub, Parts, send_to, broadcast_presence, bind_user, publish_event, device_connected,
}
use mgl_communication.Signal.Replies.{Moment, reply_error}

abbrev pub data_or_inner : AuthenticateData → AuthenticateData → AuthenticateData
data_or_inner outer inner = if outer.token == "" then inner else outer

abbrev pub device_for : AuthenticateData → UserClaims → Conn → String
device_for d claims c =
    if not (d.device_id == "")
    then d.device_id
    else if not (claims.device_id == "")
    then claims.device_id
    else str_append "device_" c.id

abbrev pub app_for : UserClaims → String
app_for claims = if claims.app == "" then "unknown" else claims.app

abbrev pub identify : String → String → String → String → Option Conn → Hub → Hub
identify id user app_id device none h = h
identify id user app_id device (some c) h = record h {
  objects = insert id (set_identity user app_id device c) h.objects;
}

abbrev pub go_online : String → String → String → ℕ → Hub → Hub
go_online app_id user device now h =
    let set = set_online live app_id user device now h.presence in
    broadcast_presence set.1 (record h { presence = set.0 })

-- handleAuth behind a valid token.
unfoldable pub log_in : Moment → Conn → AuthenticateData → UserClaims → Hub → Hub
unfolding set_identity bind_user broadcast_presence send_to
log_in t c d claims h =
    let user = claims.subject in
    let app_id = app_for claims in
    let device = device_for d claims c in
    let as_user = set_identity user app_id device c in
    let bound = bind_user as_user (identify c.id user app_id device (lookup c.id h.objects) h) in
    let online =
      publish_event device_connected as_user (go_online app_id user device t.now bound) in
    send_to c.id
      (record {
        type = EnvelopeType.authenticated;
        call_id = "";
        sender_id = user;
        body = authenticated_data (record {
          user_id = user;
          app_id = app_id;
          device_id = device;
          reconnect = d.reconnect;
          active_calls = list_active_for_user live app_id user online.runtime;
        });
      })
      online

abbrev pub log_in_if : Moment → Conn → AuthenticateData → Option UserClaims → Hub → Hub
log_in_if t c d none h = reply_error c "" "" "UNAUTHORIZED" "invalid token" h
log_in_if t c d (some claims) h = log_in t c d claims h

unfoldable pub handle_auth : Parts → Moment → Conn → String → Hub → Hub
unfolding log_in reply_error
handle_auth parts t c text h =
    let outer = parts.json.decode_auth text in
    let d = data_or_inner outer (parts.json.decode_auth_data text outer) in
    log_in_if t c d (validate parts.jwt d.token) h
