-- ===== src/Call/Users.antt =====
-- The users of a call under the closures, and what the store's user index needs of a closure.
use mgl_communication.Base.{
  Bool-cases, ℕ, ◌≡◌, refl, ◌⊎◌, inl, inr, String, Bool, true, false, some, arith, List, [], ◌∷◌,
  ◌++◌, Option-cases, Error, ◌==◌, ◌||◌,
}
use mgl_communication.Call.Types.{
  modify_participant, find_participant, Call, Participant, is_terminal,
}
use mgl_communication.Call.Store.{Edit, user_key}
use mgl_communication.Call.Edits.{
  is_direct, newcomer, timeout_edit, accept_as, reject_as, join_as, connect_as, leave_as, resume_as,
}
use mgl_communication.Call.Actions.{Action, edit_of}
use mgl_communication.Call.Roster.{
  user_ids, user_ids-modify, user_ids-silence_waiting, user_ids-silence_others,
}
use mgl_communication.Call.Atomic.{edit_error_unchanged, timeout_edit_error_unchanged}

-- One of the users has this key.
abbrev pub has_key : String → String → List String → Bool
has_key uk app_id [] = false
has_key uk app_id (u ∷ us) = user_key app_id u == uk || has_key uk app_id us

has_key-append :
    (uk app_id : String) (us vs : List String)
    → has_key uk app_id us ≡ true
    → has_key uk app_id (us ++ vs) ≡ true
has_key-append uk app_id [] vs h = cc
has_key-append uk app_id (u ∷ us) vs h = ground (arith, has_key-append uk app_id us vs)

user_ids-append :
    (ps : List Participant) (p : Participant)
    → user_ids (ps ++ p ∷ []) ≡ user_ids ps ++ p.user_id ∷ []
user_ids-append [] p = refl
user_ids-append (q ∷ ps) p = ground (arith, user_ids-append ps p)

-- A closure keeps the participants' users in their order, and can add one at the end.
pub edit-user_ids :
    (id : String) (now : ℕ) (a : Action) (c : Call)
    → (user_ids (edit_of id now a c).0.participants ≡ user_ids c.participants)
      ⊎ ((u : String) × (user_ids (edit_of id now a c).0.participants
            ≡ user_ids c.participants ++ u ∷ []))
unfolding edit_of
edit-user_ids id now (Action.accepts user device) c = inl (
    ground (
      arith,
      user_ids-modify (accept_as device now) (λ p. refl) user c.participants,
      user_ids-silence_others user c.caller_id now
          (modify_participant user (accept_as device now) c.participants),
    ))
edit-user_ids id now (Action.joins user device) c =
    elim (Option-cases (find_participant user c.participants)) [
      | inl new ↦ elim (Bool-cases (is_terminal c || is_direct c.mode)) [
        | inl refused ↦ inl (ground (arith, new))
        | inr taken ↦ inr (
          user,
          ground (arith, new, user_ids-append c.participants (newcomer id user device now)),
        )
      ]
      | inr (p, old) ↦ inl (
          ground (arith, old, user_ids-modify (join_as device now) (λ p. refl) user c.participants))
    ]
edit-user_ids id now (Action.resumes user device) c =
    inl (user_ids-modify (resume_as device) (λ p. refl) user c.participants)
edit-user_ids id now (Action.rejects user) c =
    inl (ground (arith, user_ids-modify (reject_as now) (λ p. refl) user c.participants))
edit-user_ids id now (Action.cancels user) c =
    inl (ground (arith, user_ids-silence_waiting now c.participants))
edit-user_ids id now (Action.connects user) c =
    inl (ground (arith, user_ids-modify connect_as (λ p. refl) user c.participants))
edit-user_ids id now (Action.leaves user) c =
    inl (ground (arith, user_ids-modify (leave_as now) (λ p. refl) user c.participants))
edit-user_ids id now (Action.hangs_up user) c =
    inl (ground (arith, user_ids-modify (leave_as now) (λ p. refl) user c.participants))
edit-user_ids id now (Action.fails reason) c = inl (ground arith)

-- What the index needs of a closure.
pub record Indexable (f : Edit) : Type 0 where
  pub app_id_kept : (c : Call) → (f c).0.app_id ≡ c.app_id
  pub id_kept : (c : Call) → (f c).0.id ≡ c.id
  pub error_unchanged : (c : Call) (e : Error) → (f c).1 ≡ some e → (f c).0 ≡ c
  pub keys_kept :
      (uk : String) (c : Call)
      → has_key uk c.app_id (user_ids c.participants) ≡ true
      → has_key uk c.app_id (user_ids (f c).0.participants) ≡ true

edit-app_id :
    (id : String) (now : ℕ) (a : Action) (c : Call) → (edit_of id now a c).0.app_id ≡ c.app_id
unfolding edit_of
edit-app_id id now (Action.accepts user device) c = ground arith
edit-app_id id now _ c = ground arith

edit-id : (id : String) (now : ℕ) (a : Action) (c : Call) → (edit_of id now a c).0.id ≡ c.id
unfolding edit_of
edit-id id now (Action.accepts user device) c = ground arith
edit-id id now _ c = ground arith

pub edit-Indexable : (id : String) (now : ℕ) (a : Action) → Indexable (edit_of id now a)
edit-Indexable id now a = record {
  app_id_kept = edit-app_id id now a;
  id_kept = edit-id id now a;
  error_unchanged = λ c e. edit_error_unchanged id now a c;
  keys_kept = λ uk c h. elim (edit-user_ids id now a c) [
    | inl same ↦ rw same h
    | inr (u, more) ↦ rw more (has_key-append uk c.app_id (user_ids c.participants) (u ∷ []) h)
  ];
}

timeout_edit-app_id : (now : ℕ) (c : Call) → (timeout_edit now c).0.app_id ≡ c.app_id
unfolding timeout_edit
timeout_edit-app_id now c = ground arith

timeout_edit-id : (now : ℕ) (c : Call) → (timeout_edit now c).0.id ≡ c.id
unfolding timeout_edit
timeout_edit-id now c = ground arith

timeout_edit-user_ids :
    (now : ℕ) (c : Call) → user_ids (timeout_edit now c).0.participants ≡ user_ids c.participants
unfolding timeout_edit
timeout_edit-user_ids now c = ground (arith, user_ids-silence_waiting now c.participants)

pub timeout_edit-Indexable : (now : ℕ) → Indexable (timeout_edit now)
timeout_edit-Indexable now = record {
  app_id_kept = timeout_edit-app_id now;
  id_kept = timeout_edit-id now;
  error_unchanged = λ c e. timeout_edit_error_unchanged now c;
  keys_kept = λ uk c h. rw (timeout_edit-user_ids now c) h;
}
