-- ===== src/Push/Registration.antt =====
-- internal/service/device.go: the service over the table of devices. The id of a new device is an
-- argument.
use Prim.Native.String.{count}
use mgl_communication.Base.{
  ℕ, String, Bool, true, false, not, ◌&&◌, ◌||◌, ◌==◌, ltb, if◌then◌else◌, Option, none, some,
  Error, app, ErrorCode, device_not_found_code, call_not_found_code, message_not_found_code,
  canceled, invalid_request, Result, ok, err,
}
use mgl_communication.Push.Types.{Device, is_allowed_provider}
use mgl_communication.Push.Tables.{Database}
use mgl_communication.Push.Devices
use mgl_communication.Push.Devices.{upsert_device, find_by_installation_id}
pub mod Retired

pub record RegisterDeviceInput : Type 0 where
  pub installation_id : String
  pub user_id : String
  pub platform : String
  pub provider : String
  pub token : String
  pub app_id : String
  pub app_version : String
  pub os_version : String
  pub device_model : String
  pub locale : String
  pub timezone : String

abbrev pub is_allowed_platform : String → Bool
is_allowed_platform p = p == "android" || p == "ios"

unfoldable pub validate_register : RegisterDeviceInput → Option Error
validate_register in_ =
    if in_.installation_id == ""
    then some (invalid_request "installation_id is required")
    else if in_.platform == "" || not (is_allowed_platform in_.platform)
    then some (invalid_request "platform must be android or ios")
    else if in_.provider == "" || not (is_allowed_provider in_.provider)
    then some (invalid_request "invalid provider")
    else if in_.token == ""
    then some (invalid_request "token is required")
    else if in_.app_id == ""
    then some (invalid_request "app_id is required")
    else if ltb 4096 (count in_.token)
    then some (invalid_request "token too long")
    else none

abbrev pub device_of : String → RegisterDeviceInput → Device
device_of id in_ = record {
  id = id;
  user_id = in_.user_id;
  installation_id = in_.installation_id;
  platform = in_.platform;
  provider = in_.provider;
  token = in_.token;
  app_id = in_.app_id;
  app_version = in_.app_version;
  os_version = in_.os_version;
  device_model = in_.device_model;
  locale = in_.locale;
  timezone = in_.timezone;
  status = "active";
  created_at = 0;
  updated_at = 0;
  last_seen_at = 0;
}

abbrev pub upsert_checked :
    ℕ → String → RegisterDeviceInput → Option Error → Database → Result Device × Database
upsert_checked now id in_ (some e) db = (err e, db)
upsert_checked now id in_ none db =
    let written = upsert_device now (device_of id in_) db in (ok written.0, written.1)

unfoldable pub register : ℕ → String → RegisterDeviceInput → Database → Result Device × Database
register now id in_ db = upsert_checked now id in_ (validate_register in_) db

-- IsNotFound, internal/domain/errors.go.
abbrev pub is_not_found_code : ErrorCode → Bool
is_not_found_code device_not_found_code = true
is_not_found_code call_not_found_code = true
is_not_found_code message_not_found_code = true
is_not_found_code _ = false

abbrev pub is_not_found : Error → Bool
is_not_found (app e) = is_not_found_code e.code
is_not_found canceled = false

-- A registration for a provider that the installation has no row for yet: it takes over what the
-- row that is there says of the device.
abbrev pub late_registration :
    String → String → String → String → Result Device → RegisterDeviceInput
late_registration app_id installation_id provider token (ok d) = record {
  installation_id = installation_id;
  user_id = d.user_id;
  platform = d.platform;
  provider = provider;
  token = token;
  app_id = app_id;
  app_version = d.app_version;
  os_version = d.os_version;
  device_model = d.device_model;
  locale = d.locale;
  timezone = d.timezone;
}
late_registration app_id installation_id provider token (err e) = record {
  installation_id = installation_id;
  user_id = "";
  platform = "ios";
  provider = provider;
  token = token;
  app_id = app_id;
  app_version = "";
  os_version = "";
  device_model = "";
  locale = "";
  timezone = "";
}

abbrev pub register_if_missing :
    ℕ
    → String
    → String
    → String
    → String
    → String
    → Result Device × Database
    → Result Device × Database
register_if_missing now id app_id installation_id provider token (ok d, db) = (ok d, db)
register_if_missing now id app_id installation_id provider token (err e, db) =
    if not (is_not_found e) || provider == ""
    then (err e, db)
    else register now id
        (late_registration app_id installation_id provider token
          (find_by_installation_id app_id installation_id db))
        db

unfoldable pub update_token :
    ℕ → String → String → String → String → String → Database → Result Device × Database
unfolding register find_by_installation_id
update_token now id app_id installation_id provider token db =
    if installation_id == "" || token == ""
    then (err (invalid_request "installation_id and token are required"), db)
    else if not (provider == "") && not (is_allowed_provider provider)
    then (err (invalid_request "invalid provider"), db)
    else register_if_missing now id app_id installation_id provider token
        (Devices.update_token now app_id installation_id provider token db)

unfoldable pub set_user_id : ℕ → String → String → String → Database → Option Error × Database
set_user_id now app_id installation_id user_id db =
    if installation_id == "" || user_id == ""
    then (some (invalid_request "installation_id and user_id are required"), db)
    else Devices.set_user_id now app_id installation_id user_id db

unfoldable pub clear_user_id : ℕ → String → String → Database → Option Error × Database
clear_user_id now app_id installation_id db =
    if installation_id == ""
    then (some (invalid_request "installation_id is required"), db)
    else Devices.clear_user_id now app_id installation_id db

unfoldable pub unregister : ℕ → String → String → Database → Option Error × Database
unregister now app_id installation_id db =
    if installation_id == ""
    then (some (invalid_request "installation_id is required"), db)
    else Devices.unregister now app_id installation_id db
