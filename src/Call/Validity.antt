-- ===== src/Call/Validity.antt =====
-- What holds of every call between two methods, and that each closure keeps it.
use mgl_communication.Base.{
  refl, List, [], ◌∷◌, ℕ, ◌≡◌, String, Bool, true, false, Option, none, some, arith, All,
}
use mgl_communication.Call.Types.{
  modify_participant, Mode, CallType, CallState, ParticipantState, Participant, Call,
  is_terminal_state, is_terminal,
}
use mgl_communication.Call.Creation.{new_call, CreateInput, ring_callees, transport_for}
use mgl_communication.Call.Edits.{
  after_accept, timeout_edit, reject_as, newcomer, connect_as, leave_as, silence, accept_as,
  join_as, resume_as,
}
use mgl_communication.Call.Actions.{Action, edit_of}
use mgl_communication.Call.Roster.{All-snoc, All-silence_waiting, All-modify, All-silence_others}

abbrev pub is_set : Option ℕ → Bool
is_set none = false
is_set (some _) = true

-- A start time is there from `connected` on, and only there and in a call that ended.
abbrev pub start_fits : CallState → Option ℕ → Bool
start_fits CallState.connected none = false
start_fits CallState.connected (some _) = true
start_fits s none = true
start_fits s (some _) = is_terminal_state s

-- Who left, refused or was cut off.
abbrev pub is_out : ParticipantState → Bool
is_out ParticipantState.left = true
is_out ParticipantState.disconnected = true
is_out ParticipantState.rejected = true
is_out _ = false

-- A participant belongs to the call, and has a time of leaving if they are out.
abbrev pub IsMember : String → Participant → Type 0
IsMember id p = (p.call_id ≡ id) × (is_out p.state ≡ true → is_set p.left_at ≡ true)

pub record IsValid (id : String) (c : Call) : Type 0 where
  pub keyed : c.id ≡ id
  pub end_recorded : is_set c.ended_at ≡ is_terminal c
  pub start_recorded : start_fits c.state c.started_at ≡ true
  pub reason_late : is_terminal c ≡ false → c.reason ≡ ""
  pub routed : c.transport ≡ transport_for c.mode
  pub members_belong : All (IsMember id) c.participants

silence-IsMember :
    (id : String) (now : ℕ) (p : Participant) → IsMember id p → IsMember id (silence now p)
silence-IsMember id now p m = ground arith

join_as-IsMember :
    (id device : String) (now : ℕ) (p : Participant)
    → IsMember id p
    → IsMember id (join_as device now p)
join_as-IsMember id device now p m = ground arith

resume_as-IsMember :
    (id device : String) (p : Participant) → IsMember id p → IsMember id (resume_as device p)
resume_as-IsMember id device p m = ground arith

module _ (id : String) (now : ℕ) (c : Call) (m : All (IsMember id) c.participants) where
  modified :
      (user : String) (f : Participant → Participant)
      → ((p : Participant) → IsMember id p → IsMember id (f p))
      → All (IsMember id) (modify_participant user f c.participants)
  modified user f h = All-modify (IsMember id) f user c.participants h m

  members-after_accept : (user device : String) → All (IsMember id) (after_accept user device now c)
  members-after_accept user device =
      let ms = modified user (accept_as device now) (λ p q. (q.0, λ e. cc)) in
      ground (
        arith,
        ms,
        All-silence_others (IsMember id) user c.caller_id now _ (silence-IsMember id now) ms,
      )

  pub edit-members :
      (a : Action) → c.id ≡ id → All (IsMember id) (edit_of id now a c).0.participants
  unfolding edit_of
  edit-members (Action.accepts user device) e = ground (arith, members-after_accept user device)
  edit-members (Action.joins user device) e = ground (
    arith,
    modified user (join_as device now) (join_as-IsMember id device now),
    All-snoc (IsMember id) c.participants (newcomer id user device now) m (refl, λ e. cc),
  )
  edit-members (Action.resumes user device) e =
      modified user (resume_as device) (resume_as-IsMember id device)
  edit-members (Action.rejects user) e =
      ground (arith, modified user (reject_as now) (λ p q. (q.0, λ e. refl)))
  edit-members (Action.cancels user) e =
      ground
        (arith, All-silence_waiting (IsMember id) now c.participants (silence-IsMember id now) m)
  edit-members (Action.connects user) e =
      ground (arith, modified user connect_as (λ p q. (q.0, λ e. cc)))
  edit-members (Action.leaves user) e =
      ground (arith, modified user (leave_as now) (λ p q. (q.0, λ e. refl)))
  edit-members (Action.hangs_up user) e =
      ground (arith, modified user (leave_as now) (λ p q. (q.0, λ e. refl)))
  edit-members (Action.fails reason) e = ground (arith, m)

-- Every closure keeps the invariant, also where it returns an error.
pub edit-IsValid :
    (id : String) (now : ℕ) (a : Action) (c : Call)
    → IsValid id c
    → IsValid id (edit_of id now a c).0
unfolding edit_of
edit-IsValid id now (Action.accepts user device) c v =
    ground (arith, edit-members id now c v.members_belong (Action.accepts user device) v.keyed)
edit-IsValid id now (Action.joins user device) c v =
    ground (arith, edit-members id now c v.members_belong (Action.joins user device) v.keyed)
edit-IsValid id now (Action.resumes user device) c v =
    ground (arith, edit-members id now c v.members_belong (Action.resumes user device) v.keyed)
edit-IsValid id now (Action.rejects user) c v =
    ground (arith, edit-members id now c v.members_belong (Action.rejects user) v.keyed)
edit-IsValid id now (Action.cancels user) c v =
    ground (arith, edit-members id now c v.members_belong (Action.cancels user) v.keyed)
edit-IsValid id now (Action.connects user) c v =
    ground (arith, edit-members id now c v.members_belong (Action.connects user) v.keyed)
edit-IsValid id now (Action.leaves user) c v =
    ground (arith, edit-members id now c v.members_belong (Action.leaves user) v.keyed)
edit-IsValid id now (Action.hangs_up user) c v =
    ground (arith, edit-members id now c v.members_belong (Action.hangs_up user) v.keyed)
edit-IsValid id now (Action.fails reason) c v =
    ground (arith, edit-members id now c v.members_belong (Action.fails reason) v.keyed)

pub timeout_edit-IsValid :
    (id : String) (now : ℕ) (c : Call) → IsValid id c → IsValid id (timeout_edit now c).0
unfolding timeout_edit
timeout_edit-IsValid id now c v = ground (
  arith,
  All-silence_waiting (IsMember id) now c.participants (silence-IsMember id now) v.members_belong,
)

ring_callees-members :
    (id caller : String) (users : List String) → All (IsMember id) (ring_callees id caller users)
unfolding ring_callees
ring_callees-members id caller [] = tt
ring_callees-members id caller (user ∷ users) = ground (arith, ring_callees-members id caller users)

pub new_call-IsValid :
    (input : CreateInput) (id room_id : String) (now : ℕ) (kind : CallType × Mode)
    → IsValid id (new_call input id room_id now kind)
unfolding new_call
new_call-IsValid input id room_id now (t, m) =
    ground (arith, ring_callees-members id input.caller_id input.callee_ids)
