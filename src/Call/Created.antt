-- ===== src/Call/Created.antt =====
-- What `Create` accepts, and the call that it makes.
use mgl_communication.Base.{
  text_ne, ◌<◌, subst, map, ℕ, ◌≡◌, ◌≤◌, refl, ◌⊎◌, inl, inr, ◌↔◌, String, some, arith, ap, List,
  [], ◌∷◌, ◌++◌, All, ◌≢◌, ◌==◌, not, Result, ok, err, keep_if, length, lookup, lookup-insert,
  Context, live, done,
}
use mgl_communication.Call.Types.{
  CallState, ParticipantState, CallType, audio, video, Mode, direct, group, Call, sfu,
}
use mgl_communication.Call.Store.{put}
use mgl_communication.Call.Creation.{
  CreateInput, read_type, read_mode, check_create, new_call, ring_callees,
}
use mgl_communication.Call.Service.{Event, Runtime, create, create_checked, EventType}
use mgl_communication.Call.Roster.{user_ids}
use mgl_communication.Call.Effects.{call_id_of, created_call}

-- The callees that are rung: those of the request but the caller.
abbrev pub others : String → List String → List String
others caller = keep_if (λ user. not (user == caller))

user_ids-ring_callees :
    (id caller : String) (users : List String)
    → user_ids (ring_callees id caller users) ≡ others caller users
unfolding ring_callees
user_ids-ring_callees id caller [] = refl
user_ids-ring_callees id caller (u ∷ us) = ground (arith, user_ids-ring_callees id caller us)

ring_callees-ringing :
    (id caller : String) (users : List String)
    → All (λ p. p.state ≡ ParticipantState.ringing) (ring_callees id caller users)
unfolding ring_callees
ring_callees-ringing id caller [] = tt
ring_callees-ringing id caller (u ∷ us) = ground (arith, ring_callees-ringing id caller us)

-- The type that a request names: audio unless it says otherwise.
abbrev pub TypeFits : String → CallType → Type 0
TypeFits s audio = (s ≡ "") ⊎ (s ≡ "audio")
TypeFits s video = s ≡ "video"

-- The mode that a request names; by default it is direct for one callee, and group for more.
abbrev pub ModeFits : String → ℕ → Mode → Type 0
ModeFits s n direct = ((s ≡ "") ⊎ (s ≡ "direct")) × (n ≡ 1)
ModeFits s n group = ((s ≡ "") × (n ≢ 1)) ⊎ (s ≡ "group")

-- A request that `Create` takes: a caller, callees, a known type, and a mode that fits.
pub record IsAcceptable (input : CreateInput) (t : CallType) (m : Mode) : Type 0 where
  pub caller : input.caller_id ≢ ""
  pub callees : 0 < length input.callee_ids
  pub type : TypeFits input.type t
  pub mode : ModeFits input.mode (length input.callee_ids) m

words_differ :
    ◌≢◌ {A = String} "" "group"
    × ◌≢◌ {A = String} "direct" "group"
    × ◌≢◌ {A = String} "" "video"
    × ◌≢◌ {A = String} "audio" "video"
words_differ = (text_ne _ _ refl, text_ne _ _ refl, text_ne _ _ refl, text_ne _ _ refl)

check_create_sound :
    (input : CreateInput) (t : CallType) (m : Mode)
    → check_create input ≡ ok (t, m)
    → IsAcceptable input t m
unfolding check_create read_type read_mode
check_create_sound input audio direct h = ground arith
check_create_sound input audio group h = ground arith
check_create_sound input video direct h = ground arith
check_create_sound input video group h = ground arith

check_create_complete :
    (input : CreateInput) (t : CallType) (m : Mode)
    → IsAcceptable input t m
    → check_create input ≡ ok (t, m)
unfolding check_create read_type read_mode
check_create_complete input audio direct a = ground (arith, words_differ)
check_create_complete input audio group a = ground (arith, words_differ)
check_create_complete input video direct a = ground (arith, words_differ)
check_create_complete input video group a = ground (arith, words_differ)

-- The checks of Create take exactly the requests with a caller, at least one callee, a type that
-- is audio, video or left out, and a mode that is direct with one callee, group, or left out;
-- they read the type and the mode from them.
pub check_create-accepts_iff :
    (input : CreateInput) (t : CallType) (m : Mode)
    → (check_create input ≡ ok (t, m)) ↔ IsAcceptable input t m
check_create-accepts_iff input t m = (check_create_sound input t m, check_create_complete input t m)

-- What a `Create` that succeeds returns and leaves behind.
pub record Starts (input : CreateInput) (call_ulid : String) (now : ℕ) (rt rt' : Runtime) (c : Call)
    : Type 0 where
  pub id : c.id ≡ call_id_of call_ulid
  pub state : c.state ≡ CallState.ringing
  pub users : user_ids c.participants ≡ input.caller_id ∷ others input.caller_id input.callee_ids
  pub routed : (c.transport ≡ sfu) ↔ (c.mode ≡ group)
  pub small : (c.mode ≡ group) ⊎ (length c.participants ≤ 2)
  pub stored : lookup (call_id_of call_ulid) rt'.store.calls ≡ some c
  pub timer : rt'.timers ≡ call_id_of call_ulid ∷ rt.timers
  pub announced :
      map (λ e. e.type) rt'.events
      ≡ map (λ e. e.type) rt.events ++ EventType.call_created ∷ EventType.call_ringing ∷ []

length-ring_callees-le :
    (id caller : String) (us : List String) → length (ring_callees id caller us) ≤ length us
unfolding ring_callees
length-ring_callees-le id caller [] = omega arith
length-ring_callees-le id caller (u ∷ us) = ground (arith, length-ring_callees-le id caller us)

types-append :
    (es : List Event) (e f : Event)
    → map (λ x. x.type) ((es ++ e ∷ []) ++ f ∷ []) ≡ map (λ x. x.type) es ++ e.type ∷ f.type ∷ []
types-append [] e f = refl
types-append (x ∷ es) e f = ground (arith, types-append es e f)

ok-injective : {c d : Call} → ◌≡◌ {A = Result Call} (ok c) (ok d) → c ≡ d
ok-injective h = cc

module _ (input : CreateInput) (u r : String) (now : ℕ) (rt : Runtime) (t : CallType)
    (m : Mode) where
  started-Starts :
      (m ≡ group) ⊎ (length input.callee_ids ≡ 1)
      → Starts input u now rt
          (create_checked live input u r now rt (ok (t, m))).0
          (created_call input u r now (t, m))
  unfolding create_checked put new_call
  started-Starts one = record {
    id = refl;
    state = refl;
    users =
        ap (λ us. input.caller_id ∷ us)
          (user_ids-ring_callees (call_id_of u) input.caller_id input.callee_ids);
    routed = ((λ h. ground arith), λ h. ground arith);
    small = ground (arith, length-ring_callees-le (call_id_of u) input.caller_id input.callee_ids);
    stored = ground (
      arith,
      lookup-insert (call_id_of u) (call_id_of u) (created_call input u r now (t, m))
          rt.store.calls,
    );
    timer = refl;
    announced = types-append rt.events _ _;
  }

one_callee :
    (input : CreateInput) (t : CallType) (m : Mode)
    → IsAcceptable input t m
    → (m ≡ group) ⊎ (length input.callee_ids ≡ 1)
one_callee input t direct a = inr a.mode.1
one_callee input t group a = inl refl

create_checked-Starts :
    (ctx : Context) (input : CreateInput) (u r : String) (now : ℕ) (rt : Runtime)
    (checked : Result (CallType × Mode)) {c : Call}
    → check_create input ≡ checked
    → (create_checked ctx input u r now rt checked).1 ≡ ok c
    → Starts input u now rt (create_checked ctx input u r now rt checked).0 c
unfolding create_checked put
create_checked-Starts ctx input u r now rt (err e) q h = cc
create_checked-Starts done input u r now rt (ok (t, m)) q h = cc
create_checked-Starts live input u r now rt (ok (t, m)) q h =
    subst (Starts input u now rt _) (ok-injective h)
      (started-Starts input u r now rt t m (one_callee input t m (check_create_sound input t m q)))

-- A Create that succeeds returns a ringing call of the caller and the other callees in their
-- order, with the SFU as its transport exactly if it is a group call and with at most two
-- participants unless it is; the call is stored under its id, its timer runs, and the created and
-- ringing events are published in this order.
pub create-Starts :
    (ctx : Context) (input : CreateInput) (call_ulid room_ulid : String) (now : ℕ) (rt : Runtime)
    {c : Call}
    → (create ctx input call_ulid room_ulid now rt).1 ≡ ok c
    → Starts input call_ulid now rt (create ctx input call_ulid room_ulid now rt).0 c
unfolding create
create-Starts ctx input u r now rt h =
    create_checked-Starts ctx input u r now rt (check_create input) refl h

abbrev pub call_oneself : String → String → String → String → CreateInput
call_oneself app_id user device name = record {
  app_id = app_id;
  caller_id = user;
  caller_device = device;
  callee_ids = user ∷ [];
  type = "";
  mode = "";
  caller_name = name;
}

-- A Create in a live context whose one callee is the caller, with type and mode left out,
-- succeeds with a direct call that has the caller as its only participant.
pub self_call :
    (app_id user device name u r : String) (now : ℕ) (rt : Runtime)
    → user ≢ ""
    → (c : Call) × ((create live (call_oneself app_id user device name) u r now rt).1 ≡ ok c)
      × (c.mode ≡ direct)
      × (user_ids c.participants ≡ user ∷ [])
unfolding create check_create create_checked put new_call read_type read_mode
self_call app_id user device name u r now rt h = (
  created_call (call_oneself app_id user device name) u r now (audio, direct),
  ground arith,
  refl,
  ground arith,
)
