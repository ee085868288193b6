-- ===== src/Api/Devices.antt =====
-- The handlers of /devices, internal/api/server.go. The path's installation id is an argument.
use mgl_communication.Base.{
  String, not, ◌==◌, if◌then◌else◌, Option, none, some, Error, Result, ok, err, invalid_request,
  forbidden,
}
use mgl_communication.Auth.{Verdict, require_app_id}
use mgl_communication.Push.Types.{Device}
use mgl_communication.Push.Tables.{Database}
use mgl_communication.Push.Registration
use mgl_communication.Push.Registration.{RegisterDeviceInput}
use mgl_communication.Api.{
  Services, Deps, Instant, Response, status_reply, device_reply, write_error, write_ok,
}

pub record UpdateTokenRequest : Type 0 where
  pub provider : String
  pub token : String

abbrev pub app_or : String → RegisterDeviceInput → RegisterDeviceInput
app_or app_id req = record req { app_id = if req.app_id == "" then app_id else req.app_id }

abbrev pub registered : Services → Result Device × Database → Services × Response
registered s (err e, db) = (record s { database = db }, write_error e)
registered s (ok d, db) =
    (record s { database = db }, write_ok (device_reply d.id d.installation_id d.status))

abbrev pub register_for :
    Deps → Instant → String → Option RegisterDeviceInput → Services → Services × Response
register_for deps t app_id none s = (s, write_error (invalid_request "invalid json"))
register_for deps t app_id (some req) s =
    if not ((app_or app_id req).app_id == app_id)
    then (s, write_error (forbidden "app_id mismatch"))
    else registered s
        (Registration.register t.now (deps.tools.new_id t.first) (app_or app_id req) s.database)

abbrev pub register_as :
    Deps → Instant → Result String → Option RegisterDeviceInput → Services → Services × Response
register_as deps t (err e) req s = (s, write_error e)
register_as deps t (ok app_id) req s = register_for deps t app_id req s

unfoldable pub handle_register_device :
    Deps → Instant → Verdict → Option RegisterDeviceInput → Services → Services × Response
unfolding require_app_id Registration.register
handle_register_device deps t v req s = register_as deps t (require_app_id v) req s

abbrev pub token_updated : Services → Result Device × Database → Services × Response
token_updated s (err e, db) = (record s { database = db }, write_error e)
token_updated s (ok d, db) = (record s { database = db }, write_ok (status_reply d.status))

abbrev pub update_token_as :
    Deps
    → Instant
    → Result String
    → String
    → Option UpdateTokenRequest
    → Services
    → Services × Response
update_token_as deps t (err e) id req s = (s, write_error e)
update_token_as deps t (ok app_id) id none s = (s, write_error (invalid_request "invalid json"))
update_token_as deps t (ok app_id) id (some req) s = token_updated s (
    Registration.update_token t.now (deps.tools.new_id t.first) app_id id req.provider req.token
      s.database)

unfoldable pub handle_update_token :
    Deps → Instant → Verdict → String → Option UpdateTokenRequest → Services → Services × Response
unfolding require_app_id Registration.update_token
handle_update_token deps t v id req s = update_token_as deps t (require_app_id v) id req s

-- The answer of a method that returns an error only.
abbrev pub done_as : String → Services → Option Error × Database → Services × Response
done_as status s (some e, db) = (record s { database = db }, write_error e)
done_as status s (none, db) = (record s { database = db }, write_ok (status_reply status))

-- The body is the user id.
abbrev pub set_user_as :
    Instant → Result String → String → Option String → Services → Services × Response
set_user_as t (err e) id req s = (s, write_error e)
set_user_as t (ok app_id) id none s = (s, write_error (invalid_request "invalid json"))
set_user_as t (ok app_id) id (some user_id) s =
    done_as "ok" s (Registration.set_user_id t.now app_id id user_id s.database)

unfoldable pub handle_set_user :
    Instant → Verdict → String → Option String → Services → Services × Response
unfolding require_app_id Registration.set_user_id
handle_set_user t v id req s = set_user_as t (require_app_id v) id req s

abbrev pub clear_user_as : Instant → Result String → String → Services → Services × Response
clear_user_as t (err e) id s = (s, write_error e)
clear_user_as t (ok app_id) id s =
    done_as "ok" s (Registration.clear_user_id t.now app_id id s.database)

unfoldable pub handle_clear_user : Instant → Verdict → String → Services → Services × Response
unfolding require_app_id Registration.clear_user_id
handle_clear_user t v id s = clear_user_as t (require_app_id v) id s

abbrev pub unregister_as : Instant → Result String → String → Services → Services × Response
unregister_as t (err e) id s = (s, write_error e)
unregister_as t (ok app_id) id s =
    done_as "disabled" s (Registration.unregister t.now app_id id s.database)

unfoldable pub handle_unregister : Instant → Verdict → String → Services → Services × Response
unfolding require_app_id Registration.unregister
handle_unregister t v id s = unregister_as t (require_app_id v) id s
