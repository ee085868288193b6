-- ===== src/Call/Roster.antt =====
-- What the loops over the participants keep.
use mgl_communication.Base.{false, ℕ, ◌≡◌, refl, String, List, [], ◌∷◌, ◌++◌, All, arith}
use mgl_communication.Call.Types.{is_waiting, Participant, modify_participant}
use mgl_communication.Call.Edits.{silence, silence_waiting, silence_others}

-- The users of a call, in the order of its participants.
abbrev pub user_ids : List Participant → List String
user_ids [] = []
user_ids (p ∷ ps) = p.user_id ∷ user_ids ps

module _ (f : Participant → Participant)
    (keeps : (p : Participant) → (f p).user_id ≡ p.user_id) where
  pub user_ids-modify :
      (user : String) (ps : List Participant)
      → user_ids (modify_participant user f ps) ≡ user_ids ps
  unfolding modify_participant
  user_ids-modify user [] = refl
  user_ids-modify user (p ∷ ps) = ground (arith, keeps p, user_ids-modify user ps)

pub user_ids-silence_waiting :
    (now : ℕ) (ps : List Participant) → user_ids (silence_waiting now ps) ≡ user_ids ps
unfolding silence_waiting
user_ids-silence_waiting now [] = refl
user_ids-silence_waiting now (p ∷ ps) = ground (arith, user_ids-silence_waiting now ps)

pub user_ids-silence_others :
    (user caller : String) (now : ℕ) (ps : List Participant)
    → user_ids (silence_others user caller now ps) ≡ user_ids ps
unfolding silence_others
user_ids-silence_others user caller now [] = refl
user_ids-silence_others user caller now (p ∷ ps) =
    ground (arith, user_ids-silence_others user caller now ps)

module _ (P : Participant → Type 0) where
  pub All-modify :
      (f : Participant → Participant) (user : String) (ps : List Participant)
      → ((p : Participant) → P p → P (f p))
      → All P ps
      → All P (modify_participant user f ps)
  unfolding modify_participant
  All-modify f user [] h a = tt
  All-modify f user (p ∷ ps) h a = ground (arith, h p a.0, All-modify f user ps h a.1)

  pub All-silence_waiting :
      (now : ℕ) (ps : List Participant)
      → ((p : Participant) → P p → P (silence now p))
      → All P ps
      → All P (silence_waiting now ps)
  unfolding silence_waiting
  All-silence_waiting now [] h a = tt
  All-silence_waiting now (p ∷ ps) h a = (h p a.0, All-silence_waiting now ps h a.1)

  pub All-silence_others :
      (user caller : String) (now : ℕ) (ps : List Participant)
      → ((p : Participant) → P p → P (silence now p))
      → All P ps
      → All P (silence_others user caller now ps)
  unfolding silence_others
  All-silence_others user caller now [] h a = tt
  All-silence_others user caller now (p ∷ ps) h a =
      ground (arith, h p a.0, All-silence_others user caller now ps h a.1)

  pub All-snoc : (ps : List Participant) (p : Participant) → All P ps → P p → All P (ps ++ p ∷ [])
  All-snoc [] p a h = (h, tt)
  All-snoc (q ∷ ps) p a h = (a.0, All-snoc ps p a.1 h)

-- After the loop nobody is left waiting.
pub silence_waiting-quiet :
    (now : ℕ) (ps : List Participant)
    → All (λ p. is_waiting p.state ≡ false) (silence_waiting now ps)
unfolding silence_waiting
silence_waiting-quiet now [] = tt
silence_waiting-quiet now (p ∷ ps) = ground (arith, silence_waiting-quiet now ps)
