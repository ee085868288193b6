-- ===== src/Call/Orchestrator.antt =====
-- internal/call/orchestrator.go, with the SFU service that it calls, internal/sfu/service.go. The
-- authorizer and the SFU provider are behind HTTP, and the tokens are signed by a library: they are
-- functions in the orchestrator's record. The methods that only pass a call on to the runtime are
-- the runtime's.
use Prim.Native.String.{◌++◌ as str_append}
use mgl_communication.Base.{
  ℕ, ◌*◌, ◌/◌, String, ◌==◌, ltb, if◌then◌else◌, Option, none, some, List, [], is_empty, Result, ok,
  err, Context, forbidden, internal,
}
use mgl_communication.Retry.{second}
use mgl_communication.Call.Types.{
  Transport, p2p, sfu, Participant, Call, is_terminal, find_participant,
}
use mgl_communication.Call.Store.{get}
use mgl_communication.Call.Creation.{CreateInput}
use mgl_communication.Call.Edits.{not_a_participant}
use mgl_communication.Call.Service.{Runtime, create, fail, resume}
pub mod Outcome
mod Tests

-- Provider of internal/sfu/service.go: an error is its text.
pub record Provider : Type 0 where
  pub create_room : String → Option String
  pub join_token : String → String → String → ℕ → Option String
  pub url : String

-- The fields of Orchestrator behind the runtime. `sign` is IssueCallToken, `none` its error.
pub record Orchestrator : Type 0 where
  pub authz : Option (String → String → List String → Option String)
  pub provider : Option Provider
  pub sign : String → String → String → String → String → ℕ → Option String
  pub token_ttl : ℕ
  pub ice_servers : List String

-- CanUserCall of the authorizer, if there is one; its answer is an error.
abbrev pub authorize :
    Option (String → String → List String → Option String) → CreateInput → Option String
authorize none input = none
authorize (some may) input = may input.app_id input.caller_id input.callee_ids

-- EnsureRoom, for a call over the SFU with an SFU service.
abbrev pub ensure_room : Option Provider → Call → Option String
ensure_room none c = none
ensure_room (some p) c = elim c.transport [ p2p ↦ none | sfu ↦ p.create_room c.room_id ]

abbrev pub room_ensured : Context → ℕ → Call → Option String → Runtime → Runtime × Result Call
room_ensured ctx now c none rt = (rt, ok c)
room_ensured ctx now c (some e) rt =
    ((fail ctx c.id "sfu_room_failed" now rt).0, err (internal "sfu room create failed"))

abbrev pub create_finished :
    Orchestrator → Context → ℕ → Runtime × Result Call → Runtime × Result Call
create_finished o ctx now (rt, err e) = (rt, err e)
create_finished o ctx now (rt, ok c) = room_ensured ctx now c (ensure_room o.provider c) rt

abbrev pub create_authorized :
    Orchestrator
    → Context
    → CreateInput
    → String
    → String
    → ℕ
    → Option String
    → Runtime
    → Runtime × Result Call
create_authorized o ctx input call_ulid room_ulid now (some reason) rt =
    (rt, err (forbidden (str_append "not allowed: " reason)))
create_authorized o ctx input call_ulid room_ulid now none rt =
    create_finished o ctx now (create ctx input call_ulid room_ulid now rt)

unfoldable pub create_call :
    Orchestrator → Context → CreateInput → String → String → ℕ → Runtime → Runtime × Result Call
create_call o ctx input call_ulid room_ulid now rt =
    create_authorized o ctx input call_ulid room_ulid now (authorize o.authz input) rt

pub record TokenResult : Type 0 where
  pub call_id : String
  pub room_id : String
  pub token : String
  pub transport : Transport
  pub sfu_url : String
  pub ice_servers : List String
  pub role : String
  pub expires_in : ℕ

-- RoomInfo, what `Join` of the SFU service returns.
pub record RoomInfo : Type 0 where
  pub url : String
  pub token : String

abbrev pub room_joined : Provider → Option String → Option RoomInfo
room_joined p none = none
room_joined p (some token) = some (record { url = p.url; token = token })

abbrev pub join_if_created :
    Provider → String → String → String → ℕ → Option String → Option RoomInfo
join_if_created p room user role ttl (some e) = none
join_if_created p room user role ttl none = room_joined p (p.join_token room user role ttl)

-- sfu.Service.Join: `none` is an error. Without a service the source panics, and this fails.
unfoldable pub join_room : Option Provider → String → String → String → ℕ → Option RoomInfo
join_room none room user role ttl = none
join_room (some p) room user role ttl = join_if_created p room user role ttl (p.create_room room)

abbrev pub role_of : Participant → String
role_of p = if p.role == "" then "publisher" else p.role

abbrev pub ttl_or_default : ℕ → ℕ
ttl_or_default ttl = if ltb 0 ttl then ttl else 5 * 60 * second

abbrev pub blank_token : Call → String → ℕ → TokenResult
blank_token c role ttl = record {
  call_id = c.id;
  room_id = c.room_id;
  token = "";
  transport = c.transport;
  sfu_url = "";
  ice_servers = [];
  role = role;
  expires_in = ttl / second;
}

abbrev pub sfu_token : TokenResult → Option RoomInfo → Result TokenResult
sfu_token t none = err (internal "sfu token failed")
sfu_token t (some info) = ok (record t { token = info.token; sfu_url = info.url })

abbrev pub p2p_token : Orchestrator → TokenResult → Option String → Result TokenResult
p2p_token o t none = err (internal "call token failed")
p2p_token o t (some token) = ok (record t { token = token; ice_servers = o.ice_servers })

abbrev pub token_for : Orchestrator → Call → String → Option Participant → Result TokenResult
token_for o c user none = err not_a_participant
token_for o c user (some p) =
    let ttl = ttl_or_default o.token_ttl in
    let role = role_of p in
    elim c.transport [
      | sfu ↦ sfu_token (blank_token c role ttl) (join_room o.provider c.room_id user role ttl)
      | p2p ↦ p2p_token o (blank_token c role ttl) (o.sign c.id user c.room_id role c.app_id ttl)
    ]

abbrev pub token_of : Orchestrator → String → Result Call → Result TokenResult
token_of o user (err e) = err e
token_of o user (ok c) = token_for o c user (find_participant user c.participants)

unfoldable pub issue_token : Orchestrator → Context → String → String → Runtime → Result TokenResult
unfolding join_room
issue_token o ctx call_id user rt = token_of o user (get ctx call_id rt.store)

-- `Room` is the map with the room's id and transport, and the SFU's URL if there is one.
pub record ResumeResult : Type 0 where
  pub call : Call
  pub sfu_url : String
  pub token : Option TokenResult
  pub ice_servers : List String

abbrev pub with_token : Orchestrator → Call → Result TokenResult → ResumeResult
with_token o c (err e) = record {
  call = c;
  sfu_url = "";
  token = none;
  ice_servers = o.ice_servers;
}
with_token o c (ok t) = record {
  call = c;
  sfu_url = t.sfu_url;
  token = some t;
  ice_servers = if is_empty t.ice_servers then o.ice_servers else t.ice_servers;
}

abbrev pub snapshot_of :
    Orchestrator → Context → String → String → Runtime × Result Call → Runtime × Result ResumeResult
snapshot_of o ctx call_id user (rt, err e) = (rt, err e)
snapshot_of o ctx call_id user (rt, ok c) =
    if is_terminal c
    then (rt, ok (record { call = c; sfu_url = ""; token = none; ice_servers = o.ice_servers }))
    else (rt, ok (with_token o c (issue_token o ctx call_id user rt)))

unfoldable pub resume_full :
    Orchestrator → Context → String → String → String → Runtime → Runtime × Result ResumeResult
unfolding issue_token resume
resume_full o ctx call_id user device rt =
    snapshot_of o ctx call_id user (resume ctx call_id user device rt)
