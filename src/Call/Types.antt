-- ===== src/Call/Types.antt =====
-- internal/call/types.go. The string constants of a call's fields are enumerations; an optional
-- time is an `Option`, and times are nanoseconds.
use mgl_communication.Base.{
  ℕ, String, Bool, true, false, Option, none, some, List, [], ◌∷◌, ◌==◌, if◌then◌else◌,
}

pub data CallState : Type 0 where
  created ringing accepted connecting connected : CallState
  ended rejected cancelled timeout failed : CallState

pub data ParticipantState : Type 0 where
  invited ringing accepted connecting connected : ParticipantState
  left reconnecting disconnected rejected : ParticipantState

pub data CallType : Type 0 where
  audio video : CallType

pub data Mode : Type 0 where
  direct group : Mode

pub data Transport : Type 0 where
  p2p sfu : Transport

pub record Participant : Type 0 where
  pub call_id : String
  pub user_id : String
  pub device_id : String
  pub state : ParticipantState
  pub joined_at : Option ℕ
  pub left_at : Option ℕ
  pub role : String

pub record Call : Type 0 where
  pub id : String
  pub room_id : String
  pub app_id : String
  pub caller_id : String
  pub type : CallType
  pub mode : Mode
  pub state : CallState
  pub transport : Transport
  pub created_at : ℕ
  pub started_at : Option ℕ
  pub ended_at : Option ℕ
  pub reason : String
  pub participants : List Participant

-- The switch of `IsTerminal`.
abbrev pub is_terminal_state : CallState → Bool
is_terminal_state CallState.ended = true
is_terminal_state CallState.rejected = true
is_terminal_state CallState.cancelled = true
is_terminal_state CallState.timeout = true
is_terminal_state CallState.failed = true
is_terminal_state _ = false

abbrev pub is_terminal : Call → Bool
is_terminal c = is_terminal_state c.state

-- FindParticipant: the first one of that user.
unfoldable pub find_participant : String → List Participant → Option Participant
find_participant user [] = none
find_participant user (p ∷ ps) = if p.user_id == user then some p else find_participant user ps

-- A write through the pointer that FindParticipant returned: it goes to the first participant of
-- that user.
unfoldable pub modify_participant :
    String → (Participant → Participant) → List Participant → List Participant
modify_participant user f [] = []
modify_participant user f (p ∷ ps) =
    if p.user_id == user then f p ∷ ps else p ∷ modify_participant user f ps

-- `p.State == ParticipantRinging || p.State == ParticipantInvited`
abbrev pub is_waiting : ParticipantState → Bool
is_waiting ParticipantState.ringing = true
is_waiting ParticipantState.invited = true
is_waiting _ = false
