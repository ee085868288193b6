-- ===== src/Call/Sound.antt =====
-- What holds of the runtime after any sequence of steps, and that no call rings for ever.
use Prim.Native.String.{◌++◌ as str_append}
use mgl_communication.Base.{
  refl, All, ℕ, ◌≡◌, inl, inr, String, true, false, Option, some, arith, List, [], ◌∷◌, ◌≢◌, lookup,
  lookup-insert, Option-cases, Error, Context, live, done, if◌then◌else◌, ◌==◌, contains, keep_if,
  not,
}
use mgl_communication.Call.Types.{is_waiting, Call, CallState}
use mgl_communication.Call.Store.{empty, update, put}
use mgl_communication.Call.Creation.{new_call}
use mgl_communication.Call.Edits.{timeout_edit}
use mgl_communication.Call.Service.{Runtime, ring_timeout}
use mgl_communication.Call.Actions.{edit_of}
use mgl_communication.Call.Lifecycle.{Edge, edit-Edge}
use mgl_communication.Call.Validity.{IsValid, edit-IsValid, timeout_edit-IsValid, new_call-IsValid}
use mgl_communication.Call.Roster.{silence_waiting-quiet}
use mgl_communication.Call.Users.{edit-Indexable, timeout_edit-Indexable}
use mgl_communication.Call.Index.{IndexFits, update-IndexFits, put-IndexFits}
use mgl_communication.Call.Effects.{
  EachCall, lookup-update, update-EachCall, put-EachCall, perform_store, perform_timers,
  ring_timeout_store, ring_timeout_timers, create_effect, call_id_of, created_call,
}
use mgl_communication.Call.Reach.{Step, creates, acts, expires, Reach, here, next, initial}

-- A call that still rings has its timer running.
abbrev pub IsTimed : Runtime → Type 0
IsTimed rt =
    (k : String) (c : Call)
    → lookup k rt.store.calls ≡ some c
    → c.state ≡ CallState.ringing
    → contains k rt.timers ≡ true

pub record IsSound (rt : Runtime) : Type 0 where
  pub valid : EachCall IsValid rt.store
  pub timed : IsTimed rt
  pub indexed : IndexFits rt.store

Step-IsValid :
    {rt rt' : Runtime} → Step rt rt' → EachCall IsValid rt.store → EachCall IsValid rt'.store
unfolding new_call
Step-IsValid {rt} (creates ctx input u r now fresh) v = elim (create_effect ctx input u r now rt) [
  | inl e ↦ rw (e.0) v
  | inr (kind, e, _) ↦ rw e (
      put-EachCall IsValid live (created_call input u r now kind) rt.store
        (new_call-IsValid input (call_id_of u) (str_append "room_" r) now kind) v)
]
Step-IsValid {rt} (acts ctx id a now) v = elim (perform_store ctx id a now rt) [
  | inl e ↦ rw e v
  | inr e ↦ rw e (
      update-EachCall IsValid ctx id (edit_of id now a) rt.store
        (λ c h. edit-IsValid id now a c (v id c h)) v)
]
Step-IsValid {rt} (expires id now _) v = rw (ring_timeout_store id now rt) (
    update-EachCall IsValid live id (timeout_edit now) rt.store
      (λ c h. timeout_edit-IsValid id now c (v id c h)) v)

Edge-ringing : {s t : CallState} → Edge s t → t ≡ CallState.ringing → s ≡ CallState.ringing
Edge-ringing Edge.stay h = h
Edge-ringing (Edge.accept p) h = cc
Edge-ringing (Edge.connect p) h = cc
Edge-ringing (Edge.establish p) h = cc
Edge-ringing (Edge.finish p) h = cc
Edge-ringing (Edge.refuse p) h = cc
Edge-ringing (Edge.withdraw p) h = cc
Edge-ringing (Edge.break p) h = cc
Edge-ringing (Edge.expire p) h = cc

contains-keep_if :
    (k id : String) (ids : List String)
    → contains k (keep_if (λ j. not (j == id)) ids) ≡ (if k == id then false else contains k ids)
contains-keep_if k id [] = ground arith
contains-keep_if k id (j ∷ ids) = ground (arith, contains-keep_if k id ids)

timeout_not_ringing : (now : ℕ) (c : Call) → (timeout_edit now c).0.state ≢ CallState.ringing
unfolding timeout_edit
timeout_not_ringing now c = ground arith

put-timed :
    (c : Call) (rt : Runtime) (k : String) (b : Call)
    → IsTimed rt
    → lookup k (put live c rt.store).0.calls ≡ some b
    → b.state ≡ CallState.ringing
    → contains k (c.id ∷ rt.timers) ≡ true
unfolding put
put-timed c rt k b all h r = ground (arith, lookup-insert k c.id c rt.store.calls, all k b)

update-timed :
    (ctx : Context) (id : String) (f : Call → Call × Option Error) (rt : Runtime) (k : String)
    (b : Call)
    → ((c : Call) → Edge c.state (f c).0.state)
    → IsTimed rt
    → lookup k (update ctx id f rt.store).0.calls ≡ some b
    → b.state ≡ CallState.ringing
    → contains k rt.timers ≡ true
unfolding update
update-timed done id f rt k b edge all h r = all k b h r
update-timed live id f rt k b edge all h r = elim (Option-cases (lookup id rt.store.calls)) [
  | inl missing ↦ ground (arith, lookup-update id k f rt.store, missing, all k b)
  | inr (c, hit) ↦
      ground
        (arith, lookup-update id k f rt.store, hit, all k b, all id c hit, Edge-ringing (edge c))
]

-- A timer that fires takes its call out of `ringing`, so no timer is missed.
expire-timed :
    (id : String) (now : ℕ) (rt : Runtime) (k : String) (b : Call)
    → IsTimed rt
    → lookup k (update live id (timeout_edit now) rt.store).0.calls ≡ some b
    → b.state ≡ CallState.ringing
    → contains k (keep_if (λ j. not (j == id)) rt.timers) ≡ true
expire-timed id now rt k b all h r = elim (Option-cases (lookup id rt.store.calls)) [
  | inl missing ↦ ground (
    arith,
    lookup-update id k (timeout_edit now) rt.store,
    missing,
    all k b,
    contains-keep_if k id rt.timers,
  )
  | inr (c, hit) ↦ ground (
    arith,
    lookup-update id k (timeout_edit now) rt.store,
    hit,
    all k b,
    timeout_not_ringing now c,
    contains-keep_if k id rt.timers,
  )
]

Step-IsTimed : {rt rt' : Runtime} → Step rt rt' → IsTimed rt → IsTimed rt'
unfolding new_call
Step-IsTimed {rt} (creates ctx input u r now fresh) all k b h q =
    elim (create_effect ctx input u r now rt) [
      | inl e ↦ rw (e.1) (all k b (rw (e.0) at h) q)
      | inr (kind, e, t) ↦
          rw t (put-timed (created_call input u r now kind) rt k b all (rw e at h) q)
    ]
Step-IsTimed {rt} (acts ctx id a now) all k b h q =
    rw (perform_timers ctx id a now rt) (elim (perform_store ctx id a now rt) [
      | inl e ↦ all k b (rw e at h) q
      | inr e ↦ update-timed ctx id (edit_of id now a) rt k b (edit-Edge id now a) all (rw e at h) q
    ])
Step-IsTimed {rt} (expires id now _) all k b h q =
    rw (ring_timeout_timers id now rt)
      (expire-timed id now rt k b all (rw (ring_timeout_store id now rt) at h) q)

Step-indexed :
    {rt rt' : Runtime}
    → Step rt rt'
    → EachCall IsValid rt.store
    → IndexFits rt.store
    → IndexFits rt'.store
unfolding new_call
Step-indexed {rt} (creates ctx input u r now fresh) v x =
    elim (create_effect ctx input u r now rt) [
      | inl e ↦ rw (e.0) x
      | inr (kind, e, _) ↦ rw e (put-IndexFits (created_call input u r now kind) rt.store fresh x)
    ]
Step-indexed {rt} (acts ctx id a now) v x = elim (perform_store ctx id a now rt) [
  | inl e ↦ rw e x
  | inr e ↦ rw e (
      update-IndexFits ctx id (edit_of id now a) rt.store (edit-Indexable id now a)
        (λ c h. (v id c h).keyed) x)
]
Step-indexed {rt} (expires id now _) v x = rw (ring_timeout_store id now rt) (
    update-IndexFits live id (timeout_edit now) rt.store (timeout_edit-Indexable now)
      (λ c h. (v id c h).keyed) x)

pub Step-IsSound : {rt rt' : Runtime} → Step rt rt' → IsSound rt → IsSound rt'
Step-IsSound st v = record {
  valid = Step-IsValid st v.valid;
  timed = Step-IsTimed st v.timed;
  indexed = Step-indexed st v.valid v.indexed;
}

-- Whatever methods of the call service run and whichever ring timers fire, in any order, from a
-- sound runtime: every stored call stays valid (its end time is there exactly when it is over,
-- its start time fits its state, its transport its mode, and whoever is out has a time of
-- leaving), every call that still rings has its timer running, and the user index lists exactly
-- the calls of each user.
pub Reach-IsSound : {rt rt' : Runtime} → Reach rt rt' → IsSound rt → IsSound rt'
Reach-IsSound here v = v
Reach-IsSound (next r st) v = Step-IsSound st (Reach-IsSound r v)

pub initial-IsSound : IsSound initial
unfolding lookup empty initial
initial-IsSound = record { valid = λ id c h. cc; timed = λ k c h r. cc; indexed = λ uk k. refl }

-- In a sound runtime a call that rings has its timer pending, and the firing of the timer is a
-- step that puts the call into the timeout state, with the time and the reason of a ring timeout,
-- and leaves no participant waiting.
pub ringing_expires :
    {rt : Runtime} (k : String) (c : Call) (now : ℕ)
    → IsSound rt
    → lookup k rt.store.calls ≡ some c
    → c.state ≡ CallState.ringing
    → Step rt (ring_timeout k now rt)
      × ((d : Call) × (lookup k (ring_timeout k now rt).store.calls ≡ some d)
          × (d.state ≡ CallState.timeout)
          × (d.ended_at ≡ some now)
          × (d.reason ≡ "ring_timeout")
          × All (λ p. is_waiting p.state ≡ false) d.participants)
ringing_expires {rt} k c now v h r = (
  expires k now (v.timed k c h r),
  (
    (timeout_edit now c).0,
    rw (ring_timeout_store k now rt)
        (ground (arith, lookup-update k k (timeout_edit now) rt.store)),
    unfold timeout_edit in ground arith,
    unfold timeout_edit in ground arith,
    unfold timeout_edit in ground arith,
    unfold timeout_edit in ground (arith, silence_waiting-quiet now c.participants),
  ),
)
