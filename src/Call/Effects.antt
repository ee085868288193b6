-- ===== src/Call/Effects.antt =====
-- What a method of the service does to the store, to the events and to the timers, in terms of
-- the closure that it hands to the store.
use Prim.Native.String.{◌++◌ as str_append}
use mgl_communication.Base.{
  keep_if, not, ℕ, ◌≡◌, refl, ◌⊎◌, inl, inr, String, Option, none, some, arith, ◌∷◌, Result, ok,
  err, lookup, lookup-insert, Option-cases, Error, Context, live, done, if◌then◌else◌, ◌==◌,
}
use mgl_communication.Call.Types.{CallType, Mode, Call}
use mgl_communication.Call.Store.{Store, Edit, update, update_found, commit, put}
use mgl_communication.Call.Creation.{CreateInput, new_call, check_create}
use mgl_communication.Call.Edits.{resume_edit, timeout_edit}
use mgl_communication.Call.Service.{create_checked, Runtime, ring_timeout, create, resume}
use mgl_communication.Call.Actions.{Action, perform, edit_of}

-- Every stored call satisfies `P`, with its key.
abbrev pub EachCall : (String → Call → Type 0) → Store → Type 0
EachCall P s = (id : String) (c : Call) → lookup id s.calls ≡ some c → P id c

abbrev pub edited : Edit → Option Call → Option Call
edited edit none = none
edited edit (some c) = some (edit c).0

lookup-commit :
    (id k : String) (r : Call × Option Error) (s : Store)
    → lookup k (commit id r s).0.calls ≡ (if k == id then some r.0 else lookup k s.calls)
unfolding commit
lookup-commit id k (c, none) s = lookup-insert k id c s.calls
lookup-commit id k (c, some e) s = lookup-insert k id c s.calls

lookup-update_found :
    (id k : String) (edit : Edit) (s : Store) (o : Option Call)
    → lookup id s.calls ≡ o
    → lookup k (update_found id edit s o).0.calls
      ≡ (if k == id then edited edit o else lookup k s.calls)
unfolding update_found
lookup-update_found id k edit s none e = ground arith
lookup-update_found id k edit s (some c) e = lookup-commit id k (edit c) s

-- What `Update` leaves in the map of calls, whether or not its closure fails.
pub lookup-update :
    (id k : String) (edit : Edit) (s : Store)
    → lookup k (update live id edit s).0.calls
      ≡ (if k == id then edited edit (lookup id s.calls) else lookup k s.calls)
unfolding update
lookup-update id k edit s = lookup-update_found id k edit s (lookup id s.calls) refl

module _ (P : String → Call → Type 0) where
  -- A closure that keeps `P` keeps it in the store.
  pub update-EachCall :
      (ctx : Context) (id : String) (edit : Edit) (s : Store)
      → ((c : Call) → lookup id s.calls ≡ some c → P id (edit c).0)
      → EachCall P s
      → EachCall P (update ctx id edit s).0
  unfolding update
  update-EachCall done id edit s keeps all k c e = all k c e
  update-EachCall live id edit s keeps all k c e = elim (Option-cases (lookup id s.calls)) [
    | inl missing ↦ ground (arith, lookup-update_found id k edit s _ refl, all k c, missing)
    | inr (b, hit) ↦
        ground (arith, lookup-update_found id k edit s _ refl, all k c, hit, keeps b hit)
  ]

  pub put-EachCall :
      (ctx : Context) (c : Call) (s : Store) → P c.id c → EachCall P s → EachCall P (put ctx c s).0
  unfolding put
  put-EachCall done c s h all k b e = all k b e
  put-EachCall live c s h all k b e = ground (arith, lookup-insert k c.id c s.calls, all k b)

resume_store :
    (ctx : Context) (id user device : String) (rt : Runtime)
    → ((resume ctx id user device rt).0.store ≡ rt.store)
      ⊎ ((resume ctx id user device rt).0.store
          ≡ (update ctx id (resume_edit user device) rt.store).0)
unfolding resume
resume_store ctx id user device rt = ground arith

-- A method changes the store by its closure alone, or not at all.
pub perform_store :
    (ctx : Context) (id : String) (a : Action) (now : ℕ) (rt : Runtime)
    → ((perform ctx id a now rt).0.store ≡ rt.store)
      ⊎ ((perform ctx id a now rt).0.store ≡ (update ctx id (edit_of id now a) rt.store).0)
unfolding perform edit_of
perform_store ctx id (Action.accepts user device) now rt = ground arith
perform_store ctx id (Action.joins user device) now rt = ground arith
perform_store ctx id (Action.resumes user device) now rt = resume_store ctx id user device rt
perform_store ctx id (Action.rejects user) now rt = ground arith
perform_store ctx id (Action.cancels user) now rt = ground arith
perform_store ctx id (Action.connects user) now rt = ground arith
perform_store ctx id (Action.leaves user) now rt = ground arith
perform_store ctx id (Action.hangs_up user) now rt = ground arith
perform_store ctx id (Action.fails reason) now rt = ground arith

pub perform_timers :
    (ctx : Context) (id : String) (a : Action) (now : ℕ) (rt : Runtime)
    → (perform ctx id a now rt).0.timers ≡ rt.timers
unfolding perform resume
perform_timers ctx id (Action.accepts user device) now rt = ground arith
perform_timers ctx id (Action.joins user device) now rt = ground arith
perform_timers ctx id (Action.resumes user device) now rt = ground arith
perform_timers ctx id (Action.rejects user) now rt = ground arith
perform_timers ctx id (Action.cancels user) now rt = ground arith
perform_timers ctx id (Action.connects user) now rt = ground arith
perform_timers ctx id (Action.leaves user) now rt = ground arith
perform_timers ctx id (Action.hangs_up user) now rt = ground arith
perform_timers ctx id (Action.fails reason) now rt = ground arith

pub ring_timeout_store :
    (id : String) (now : ℕ) (rt : Runtime)
    → (ring_timeout id now rt).store ≡ (update live id (timeout_edit now) rt.store).0
unfolding ring_timeout
ring_timeout_store id now rt = ground arith

pub ring_timeout_timers :
    (id : String) (now : ℕ) (rt : Runtime)
    → (ring_timeout id now rt).timers ≡ keep_if (λ j. not (j == id)) rt.timers
unfolding ring_timeout
ring_timeout_timers id now rt = ground arith

abbrev pub call_id_of : String → String
call_id_of ulid = str_append "call_" ulid

abbrev pub created_call : CreateInput → String → String → ℕ → CallType × Mode → Call
created_call input call_ulid room_ulid now kind =
    new_call input (call_id_of call_ulid) (str_append "room_" room_ulid) now kind

create_checked_effect :
    (ctx : Context) (input : CreateInput) (call_ulid room_ulid : String) (now : ℕ) (rt : Runtime)
    (checked : Result (CallType × Mode))
    → (((create_checked ctx input call_ulid room_ulid now rt checked).0.store ≡ rt.store)
        × ((create_checked ctx input call_ulid room_ulid now rt checked).0.timers ≡ rt.timers))
      ⊎ ((kind : CallType × Mode) × ((create_checked ctx input call_ulid room_ulid now rt
              checked).0.store
            ≡ (put live (created_call input call_ulid room_ulid now kind) rt.store).0)
          × ((create_checked ctx input call_ulid room_ulid now rt checked).0.timers
              ≡ call_id_of call_ulid ∷ rt.timers))
unfolding create_checked put new_call
create_checked_effect ctx input call_ulid room_ulid now rt (err e) = inl (refl, refl)
create_checked_effect done input call_ulid room_ulid now rt (ok kind) = inl (refl, refl)
create_checked_effect live input call_ulid room_ulid now rt (ok (t, m)) = inr ((t, m), refl, refl)

-- A `Create` that its checks or its context refuse changes nothing; else the new call is stored
-- and its timer runs.
pub create_effect :
    (ctx : Context) (input : CreateInput) (call_ulid room_ulid : String) (now : ℕ) (rt : Runtime)
    → (((create ctx input call_ulid room_ulid now rt).0.store ≡ rt.store)
        × ((create ctx input call_ulid room_ulid now rt).0.timers ≡ rt.timers))
      ⊎ ((kind : CallType × Mode) × ((create ctx input call_ulid room_ulid now rt).0.store
            ≡ (put live (created_call input call_ulid room_ulid now kind) rt.store).0)
          × ((create ctx input call_ulid room_ulid now rt).0.timers
              ≡ call_id_of call_ulid ∷ rt.timers))
unfolding create
create_effect ctx input call_ulid room_ulid now rt =
    create_checked_effect ctx input call_ulid room_ulid now rt (check_create input)
