-- ===== src/Api/Errors.antt =====
-- What an error response of the API leaves behind.
use mgl_communication.Base.{
  ℕ, String, Bool, true, false, not, ◌&&◌, ◌||◌, ◌==◌, if◌then◌else◌, Option, none, some, List, [],
  ◌∷◌, map, keep_if, any, Error, Result, ok, err, ◌≡◌, refl, ◌∙◌, ap, arith, invalid_request,
  device_not_found,
}
use mgl_communication.Push.Types.{is_allowed_provider, Device}
use mgl_communication.Push.Tables.{Database}
use mgl_communication.Push.Devices
use mgl_communication.Push.Devices.{
  find_by_installation_id, edit_device, update_devices, update_some, first_updated, with_token,
  takes_token, is_installation,
}
use mgl_communication.Push.Registration
use mgl_communication.Push.Registration.{
  RegisterDeviceInput, upsert_checked, validate_register, register_if_missing, is_not_found,
  late_registration,
}
use mgl_communication.Call.Service.{Runtime}
use mgl_communication.Call.Answers.{Unchanged}
use mgl_communication.Api.{Services, Reply, error_reply}

abbrev pub is_error : Reply → Bool
is_error (error_reply code message) = true
is_error body = false

-- Nothing that a handler may change has changed.
pub record Kept (s after : Services) : Type 0 where
  pub database : after.database ≡ s.database
  pub presence : after.presence ≡ s.presence
  pub notices : after.notices ≡ s.notices
  pub runtime : Unchanged s.runtime after.runtime

runtime_same : (rt : Runtime) → Unchanged rt rt
runtime_same rt = record { calls = λ k. refl; index = refl; events = refl; timers = refl }

pub Kept-refl : (s : Services) → Kept s s
Kept-refl s = record {
  database = refl;
  presence = refl;
  notices = refl;
  runtime = runtime_same s.runtime;
}

pub Kept-database :
    (s : Services) (db : Database) → db ≡ s.database → Kept s (record s { database = db })
Kept-database s db e = record {
  database = e;
  presence = refl;
  notices = refl;
  runtime = runtime_same s.runtime;
}

pub Kept-runtime :
    (s : Services) (rt : Runtime) → Unchanged s.runtime rt → Kept s (record s { runtime = rt })
Kept-runtime s rt u = record { database = refl; presence = refl; notices = refl; runtime = u }

-- An UPDATE that no row fits.
map_unfit :
    (p : Device → Bool) (f : Device → Device) (ds : List Device)
    → any p ds ≡ false
    → map (edit_device p f) ds ≡ ds
map_unfit p f [] h = refl
map_unfit p f (d ∷ ds) h = ground (arith, map_unfit p f ds)

update_some-error :
    (p : Device → Bool) (f : Device → Device) (db : Database) (e : Error)
    → (update_some p f db).0 ≡ some e
    → (update_some p f db).1 ≡ db
update_some-error p f db e h = go (any p db.devices) refl h
  where
    go :
        (b : Bool)
        → any p db.devices ≡ b
        → (if b then none else some device_not_found) ≡ some e
        → update_devices p f db ≡ db
    go true a h = cc
    go false a h = ap (λ ds. record db { devices = ds }) (map_unfit p f db.devices a)

-- The methods of the device service that fail.
pub register-error :
    (now : ℕ) (id : String) (in_ : RegisterDeviceInput) (db : Database) (e : Error)
    → (Registration.register now id in_ db).0 ≡ err e
    → (Registration.register now id in_ db).1 ≡ db
unfolding Registration.register
register-error now id in_ db e h = go (validate_register in_) h
  where
    go :
        (o : Option Error)
        → (upsert_checked now id in_ o db).0 ≡ err e
        → (upsert_checked now id in_ o db).1 ≡ db
    go none k = cc
    go (some x) k = refl

nothing_taken :
    (p : Device → Bool) (f : Device → Device) (ds : List Device) (e : Error)
    → first_updated (map f (keep_if p ds)) ≡ err e
    → any p ds ≡ false
nothing_taken p f [] e h = refl
nothing_taken p f (d ∷ ds) e h = ground (arith, nothing_taken p f ds e)

update_row-error :
    (now : ℕ) (app_id id provider token : String) (db : Database) (e : Error)
    → (Devices.update_token now app_id id provider token db).0 ≡ err e
    → (Devices.update_token now app_id id provider token db).1 ≡ db
unfolding Devices.update_token
update_row-error now app_id id provider token db e h =
    let p = takes_token app_id id provider in
    ap (λ ds. record db { devices = ds })
      (map_unfit p (with_token now token) db.devices
        (nothing_taken p (with_token now token) db.devices e h))

register_if_missing-error :
    (now : ℕ) (fresh app_id id provider token : String) (db : Database)
    (r : Result Device × Database) (e : Error)
    → ((x : Error) → r.0 ≡ err x → r.1 ≡ db)
    → (register_if_missing now fresh app_id id provider token r).0 ≡ err e
    → (register_if_missing now fresh app_id id provider token r).1 ≡ db
register_if_missing-error now fresh app_id id provider token db (ok d, db') e same h = cc
register_if_missing-error now fresh app_id id provider token db (err x, db') e same h =
    go (not (is_not_found x) || provider == "") h
  where
    again : RegisterDeviceInput
    again = late_registration app_id id provider token (find_by_installation_id app_id id db')

    go :
        (b : Bool)
        → (if b then (err x, db') else Registration.register now fresh again db').0 ≡ err e
        → (if b then (err x, db') else Registration.register now fresh again db').1 ≡ db
    go true k = same x refl
    go false k = register-error now fresh again db' e k ∙ same x refl

pub update_token-error :
    (now : ℕ) (fresh app_id id provider token : String) (db : Database) (e : Error)
    → (Registration.update_token now fresh app_id id provider token db).0 ≡ err e
    → (Registration.update_token now fresh app_id id provider token db).1 ≡ db
unfolding Registration.update_token
update_token-error now fresh app_id id provider token db e h =
    go (id == "" || token == "") (not (provider == "") && not (is_allowed_provider provider)) h
  where
    tried : Result Device × Database
    tried =
        register_if_missing now fresh app_id id provider token
          (Devices.update_token now app_id id provider token db)

    checked : Bool → Bool → Result Device × Database
    checked a b =
        if a
        then (err (invalid_request "installation_id and token are required"), db)
        else if b
        then (err (invalid_request "invalid provider"), db)
        else tried

    go : (a b : Bool) → (checked a b).0 ≡ err e → (checked a b).1 ≡ db
    go true b k = refl
    go false true k = refl
    go false false k =
        register_if_missing-error now fresh app_id id provider token db
          (Devices.update_token now app_id id provider token db) e
          (λ x. update_row-error now app_id id provider token db x) k

-- A statement behind a check of its arguments.
checked_update-error :
    (b : Bool) (refusal e : Error) (p : Device → Bool) (f : Device → Device) (db : Database)
    → (if b then (some refusal, db) else update_some p f db).0 ≡ some e
    → (if b then (some refusal, db) else update_some p f db).1 ≡ db
checked_update-error true refusal e p f db h = refl
checked_update-error false refusal e p f db h = update_some-error p f db e h

pub set_user_id-error :
    (now : ℕ) (app_id id user : String) (db : Database) (e : Error)
    → (Registration.set_user_id now app_id id user db).0 ≡ some e
    → (Registration.set_user_id now app_id id user db).1 ≡ db
unfolding Registration.set_user_id Devices.set_user_id
set_user_id-error now app_id id user db e h =
    checked_update-error (id == "" || user == "")
      (invalid_request "installation_id and user_id are required") e (is_installation app_id id)
      (λ d. record d { user_id = user; updated_at = now; last_seen_at = now }) db h

pub clear_user_id-error :
    (now : ℕ) (app_id id : String) (db : Database) (e : Error)
    → (Registration.clear_user_id now app_id id db).0 ≡ some e
    → (Registration.clear_user_id now app_id id db).1 ≡ db
unfolding Registration.clear_user_id Devices.clear_user_id
clear_user_id-error now app_id id db e h =
    checked_update-error (id == "") (invalid_request "installation_id is required") e
      (is_installation app_id id)
      (λ d. record d { user_id = ""; updated_at = now; last_seen_at = now }) db h

pub unregister-error :
    (now : ℕ) (app_id id : String) (db : Database) (e : Error)
    → (Registration.unregister now app_id id db).0 ≡ some e
    → (Registration.unregister now app_id id db).1 ≡ db
unfolding Registration.unregister Devices.unregister
unregister-error now app_id id db e h =
    checked_update-error (id == "") (invalid_request "installation_id is required") e
      (is_installation app_id id) (λ d. record d { status = "disabled"; updated_at = now }) db h
