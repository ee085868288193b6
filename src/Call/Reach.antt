-- ===== src/Call/Reach.antt =====
-- The runtime under any sequence of calls of its methods and of ring timers that fire.
use mgl_communication.Base.{
  String-discrete, ◌∙◌, ℕ, ◌≡◌, refl, inl, inr, String, true, Option, none, some, arith, [], lookup,
  lookup-insert, Error, Context, live, done, sym, contains, subst,
}
use mgl_communication.Call.Types.{Call, is_terminal}
use mgl_communication.Call.Store.{empty, Store, update, put}
use mgl_communication.Call.Creation.{CreateInput, new_call}
use mgl_communication.Call.Edits.{resume_as, timeout_edit}
use mgl_communication.Call.Service.{Runtime, ring_timeout, create}
use mgl_communication.Call.Actions.{Action, perform, edit_of}
use mgl_communication.Call.Lifecycle.{Edge, edit-Edge, timeout_edit-Edge}
use mgl_communication.Call.Roster.{user_ids, user_ids-modify}
use mgl_communication.Call.Effects.{
  lookup-update, perform_store, ring_timeout_store, create_effect, call_id_of, created_call,
}

-- `NewService` over an empty store.
unfoldable pub initial : Runtime
initial = record { store = empty; events = []; timers = []; notified = [] }

-- `creates` supposes that idgen gives a call an id that no stored call has.
pub data Step (rt : Runtime) : Runtime → Type 0 where
  creates :
      (ctx : Context) (input : CreateInput) (call_ulid room_ulid : String) (now : ℕ)
      → lookup (call_id_of call_ulid) rt.store.calls ≡ none
      → Step rt (create ctx input call_ulid room_ulid now rt).0
  acts : (ctx : Context) (id : String) (a : Action) (now : ℕ) → Step rt (perform ctx id a now rt).0
  expires :
      (id : String) (now : ℕ) → contains id rt.timers ≡ true → Step rt (ring_timeout id now rt)

pub data Reach (rt : Runtime) : Runtime → Type 0 where
  here : Reach rt rt
  next : {s t : Runtime} → Reach rt s → Step s t → Reach rt t

-- What one step can do to a stored call.
pub data Change (id : String) (c : Call) : Call → Type 0 where
  same : Change id c c
  edit : (now : ℕ) (a : Action) → Change id c (edit_of id now a c).0
  expire : (now : ℕ) → Change id c (timeout_edit now c).0

abbrev Became : String → Call → Store → Type 0
Became id c s = (c' : Call) × (lookup id s.calls ≡ some c') × Change id c c'

update-Became :
    (ctx : Context) (id k : String) (f : Call → Call × Option Error) (s : Store) {c : Call}
    → ((b : Call) → Change id b (f b).0)
    → lookup k s.calls ≡ some c
    → Became k c (update ctx id f s).0
unfolding update
update-Became done id k f s {c} ch h = (c, h, same)
update-Became live id k f s {c} ch h = elim (String-discrete k id) [
  | yes e ↦ (
    (f c).0,
    ground (arith, lookup-update id k f s),
    subst (λ j. Change j c (f c).0) (sym e) (ch c),
  )
  | no n ↦ (c, ground (arith, lookup-update id k f s), same)
]

put-Became :
    (c b : Call) (k : String) (s : Store)
    → lookup c.id s.calls ≡ none
    → lookup k s.calls ≡ some b
    → Became k b (put live c s).0
unfolding put
put-Became c b k s fresh h = (b, ground (arith, lookup-insert k c.id c s.calls), same)

Step-Became :
    {rt rt' : Runtime} (k : String) (c : Call)
    → Step rt rt'
    → lookup k rt.store.calls ≡ some c
    → Became k c rt'.store
unfolding new_call
Step-Became {rt} k c (creates ctx input u r now fresh) h =
    elim (create_effect ctx input u r now rt) [
      | inl e ↦ rw (e.0) (c, h, same)
      | inr (kind, e, _) ↦ rw e (put-Became (created_call input u r now kind) c k rt.store fresh h)
    ]
Step-Became {rt} k c (acts ctx id a now) h = elim (perform_store ctx id a now rt) [
  | inl e ↦ rw e (c, h, same)
  | inr e ↦ rw e (update-Became ctx id k (edit_of id now a) rt.store (λ b. edit now a) h)
]
Step-Became {rt} k c (expires id now _) h =
    rw (ring_timeout_store id now rt)
      (update-Became live id k (timeout_edit now) rt.store (λ b. expire now) h)

Change-Edge : {id : String} {c d : Call} → Change id c d → Edge c.state d.state
Change-Edge same = Edge.stay
Change-Edge {id} {c} (edit now a) = edit-Edge id now a c
Change-Edge {id} {c} (expire now) = timeout_edit-Edge now c

-- Every method and every ring timer keeps each stored call, and moves its state along an edge of
-- the lifecycle diagram: accepted and connecting only from a call not yet connected, timeout only
-- from ringing, and no edge out of a state in which the call is over.
pub Step-Edge :
    {rt rt' : Runtime} (k : String) (c : Call)
    → Step rt rt'
    → lookup k rt.store.calls ≡ some c
    → (c' : Call) × (lookup k rt'.store.calls ≡ some c') × Edge c.state c'.state
Step-Edge k c st h = let (c', e, ch) = Step-Became k c st h in (c', e, Change-Edge ch)

-- What is settled once a call is over.
pub record Settled (c d : Call) : Type 0 where
  pub state : d.state ≡ c.state
  pub started_at : d.started_at ≡ c.started_at
  pub ended_at : d.ended_at ≡ c.ended_at
  pub reason : d.reason ≡ c.reason
  pub users : user_ids d.participants ≡ user_ids c.participants

edit-Settled :
    (id : String) (now : ℕ) (a : Action) (c : Call)
    → is_terminal c ≡ true
    → Settled c (edit_of id now a c).0
unfolding edit_of
edit-Settled id now (Action.resumes user device) c h = record {
  state = refl;
  started_at = refl;
  ended_at = refl;
  reason = refl;
  users = user_ids-modify (resume_as device) (λ p. refl) user c.participants;
}
edit-Settled id now _ c h = ground arith

timeout_edit-Settled :
    (now : ℕ) (c : Call) → is_terminal c ≡ true → Settled c (timeout_edit now c).0
unfolding timeout_edit
timeout_edit-Settled now c h = ground arith

Change-Settled : {id : String} {c d : Call} → Change id c d → is_terminal c ≡ true → Settled c d
Change-Settled same h = ground arith
Change-Settled {id} {c} (edit now a) h = edit-Settled id now a c h
Change-Settled {id} {c} (expire now) h = timeout_edit-Settled now c h

Settled-trans : {b c d : Call} → Settled b c → Settled c d → Settled b d
Settled-trans p q = record {
  state = q.state ∙ p.state;
  started_at = q.started_at ∙ p.started_at;
  ended_at = q.ended_at ∙ p.ended_at;
  reason = q.reason ∙ p.reason;
  users = q.users ∙ p.users;
}

-- A call that is over stays stored and keeps its state, its start and end times, its reason and
-- its users, whatever methods and timers run afterwards.
pub Reach-Settled :
    {rt rt' : Runtime} (k : String) (c : Call)
    → Reach rt rt'
    → lookup k rt.store.calls ≡ some c
    → is_terminal c ≡ true
    → (d : Call) × (lookup k rt'.store.calls ≡ some d) × Settled c d
Reach-Settled k c here h t = (c, h, ground arith)
Reach-Settled k c (next r st) h t =
    let (d, e, p) = Reach-Settled k c r h t in
    let (d', e', ch) = Step-Became k d st e in
    (d', e', Settled-trans p (Change-Settled ch (rw (p.state) t)))
