-- ===== src/Call/Outcome.antt =====
-- What a closure that succeeds has done, and when it succeeds.
use mgl_communication.Base.{
  ℕ, ◌≡◌, refl, ◌⊎◌, inl, inr, ◌↔◌, String, Bool, true, false, none, some, arith, List, [], ◌∷◌,
  All, ◌≢◌, Option-cases,
}
use mgl_communication.Call.Types.{
  CallState, ParticipantState, direct, group, Participant, Call, is_terminal, find_participant,
  modify_participant, is_waiting,
}
use mgl_communication.Call.Edits.{
  accept_edit, accept_as, silence_others, leave_edit, leave_as, count_active, counts_active,
}

module _ (f : Participant → Participant)
    (keeps : (p : Participant) → (f p).user_id ≡ p.user_id) where
  -- After a write through its pointer, FindParticipant finds the written participant.
  find_participant-modify :
      (user : String) (ps : List Participant) {p : Participant}
      → find_participant user ps ≡ some p
      → find_participant user (modify_participant user f ps) ≡ some (f p)
  unfolding find_participant modify_participant
  find_participant-modify user [] h = cc
  find_participant-modify user (q ∷ ps) {p} h =
      ground (arith, keeps q, find_participant-modify user ps {p = p})

find_participant-silence_others :
    (user caller : String) (now : ℕ) (ps : List Participant)
    → find_participant user (silence_others user caller now ps) ≡ find_participant user ps
unfolding find_participant silence_others
find_participant-silence_others user caller now [] = refl
find_participant-silence_others user caller now (p ∷ ps) =
    ground (arith, find_participant-silence_others user caller now ps)

-- A participant who is neither of the two users does not ring.
abbrev pub IsQuiet : String → String → Participant → Type 0
IsQuiet user caller p = (p.user_id ≡ user) ⊎ (p.user_id ≡ caller) ⊎ (is_waiting p.state ≡ false)

silence_others-IsQuiet :
    (user caller : String) (now : ℕ) (ps : List Participant)
    → All (IsQuiet user caller) (silence_others user caller now ps)
unfolding silence_others
silence_others-IsQuiet user caller now [] = tt
silence_others-IsQuiet user caller now (p ∷ ps) =
    ground (arith, silence_others-IsQuiet user caller now ps)

-- The participant as `Accept` leaves them.
pub record HasAccepted (user device : String) (now : ℕ) (c : Call) : Type 0 where
  pub participant : Participant
  pub present : find_participant user c.participants ≡ some participant
  pub state : participant.state ≡ ParticipantState.accepted
  pub device_id : participant.device_id ≡ device
  pub joined_at : participant.joined_at ≡ some now

-- Accept succeeds exactly for a participant of a call that rings, was accepted or is connecting.
pub accept_edit-succeeds_iff :
    (user device : String) (now : ℕ) (c : Call)
    → ((accept_edit user device now c).1 ≡ none) ↔ (
        ((c.state ≡ CallState.ringing)
          ⊎ (c.state ≡ CallState.accepted)
          ⊎ (c.state ≡ CallState.connecting))
        × (find_participant user c.participants ≢ none))
unfolding accept_edit
accept_edit-succeeds_iff user device now c = ((λ h. ground arith), λ h. ground arith)

-- An Accept that succeeds puts the call into accepted; FindParticipant then finds the user
-- accepted, with the device and the time of the answer, and unless it is a group call nobody but
-- the user and the caller still rings.
pub accept_edit-outcome :
    (user device : String) (now : ℕ) (c : Call)
    → (accept_edit user device now c).1 ≡ none
    → let d = (accept_edit user device now c).0 in
      (d.state ≡ CallState.accepted)
      × HasAccepted user device now d
      × ((c.mode ≡ group) ⊎ All (IsQuiet user c.caller_id) d.participants)
unfolding accept_edit
accept_edit-outcome user device now c h =
    elim (Option-cases (find_participant user c.participants)) [
      | inl missing ↦ absurd (ground (arith, missing))
      | inr (p, hit) ↦ (
        ground arith,
        record {
          participant = accept_as device now p;
          present = ground (
            arith,
            hit,
            find_participant-modify (accept_as device now) (λ q. refl) user c.participants hit,
            find_participant-silence_others user c.caller_id now
                (modify_participant user (accept_as device now) c.participants),
          );
          state = refl;
          device_id = refl;
          joined_at = refl;
        },
        ground (
          arith,
          silence_others-IsQuiet user c.caller_id now
              (modify_participant user (accept_as device now) c.participants),
        ),
      )
    ]

count_active-zero :
    (ps : List Participant) → (count_active ps ≡ 0) ↔ All (λ p. counts_active p.state ≡ false) ps
unfolding count_active
count_active-zero [] = (λ h. tt, λ h. refl)
count_active-zero (p ∷ ps) =
    let (to, from) = count_active-zero ps in
    (λ h. ground (arith, to), λ h. ground (arith, from h.1))

-- A Leave or Hangup that succeeds ends the call exactly if it was told to, if the call is direct,
-- or if no participant is active any more.
pub leave_edit-ends_iff :
    (user reason : String) (end_call : Bool) (now : ℕ) (c : Call)
    → (leave_edit user reason end_call now c).1 ≡ none
    → let d = (leave_edit user reason end_call now c).0 in
      (is_terminal d ≡ true) ↔ (
        (end_call ≡ true)
        ⊎ (c.mode ≡ direct)
        ⊎ All (λ p. counts_active p.state ≡ false) d.participants)
unfolding leave_edit
leave_edit-ends_iff user reason end_call now c h =
    let (to, from) = count_active-zero (modify_participant user (leave_as now) c.participants) in
    ((λ t. ground (arith, to)), λ t. ground (arith, from))

-- The caller of a ringing direct call, if a participant, can accept it: the call becomes
-- accepted, and nobody but the caller still rings.
pub caller_accepts_own_call :
    (device : String) (now : ℕ) (c : Call)
    → c.state ≡ CallState.ringing
    → c.mode ≡ direct
    → find_participant c.caller_id c.participants ≢ none
    → let d = (accept_edit c.caller_id device now c).0 in
      ((accept_edit c.caller_id device now c).1 ≡ none)
      × (d.state ≡ CallState.accepted)
      × All (IsQuiet c.caller_id c.caller_id) d.participants
caller_accepts_own_call device now c r m f =
    let ok = (accept_edit-succeeds_iff c.caller_id device now c).1 (inl r, f) in
    let (s, _, q) = accept_edit-outcome c.caller_id device now c ok in
    (ok, s, elim q [ inl g ↦ absurd (cc) | inr quiet ↦ quiet ])
