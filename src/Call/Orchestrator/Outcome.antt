-- ===== src/Call/Orchestrator/Outcome.antt =====
-- How the orchestrator's methods can end.
use mgl_communication.Base.{
  ℕ, String, Option, none, some, Result, ok, err, Error, live, lookup, ◌≡◌, refl, subst, ◌⊎◌, inl,
  inr,
}
use mgl_communication.Call.Types.{
  CallState, Transport, p2p, sfu, Call, Participant, find_participant,
}
use mgl_communication.Call.Store.{get, found}
use mgl_communication.Call.Creation.{CreateInput}
use mgl_communication.Call.Service.{Runtime}
use mgl_communication.Call.Orchestrator.{
  Orchestrator, authorize, ensure_room, issue_token, token_of, token_for, TokenResult, RoomInfo,
  sfu_token, p2p_token, join_room, blank_token, role_of, ttl_or_default,
}

-- The three ends of `Create`: nothing was done; the call was stored, and failed as there is no
-- room for it; or the call rings, in a room if it needs one.
pub data Created (o : Orchestrator) (input : CreateInput) (id : String) (rt : Runtime)
    : Runtime × Result Call → Type 0 where
  refused : (e : Error) → Created o input id rt (rt, err e)
  roomless :
      (after : Runtime) (e : Error) (c : Call)
      → lookup id after.store.calls ≡ some c
      → c.state ≡ CallState.failed
      → c.reason ≡ "sfu_room_failed"
      → Created o input id rt (after, err e)
  rings :
      (after : Runtime) (c : Call)
      → authorize o.authz input ≡ none
      → ensure_room o.provider c ≡ none
      → lookup id after.store.calls ≡ some c
      → c.state ≡ CallState.ringing
      → Created o input id rt (after, ok c)

-- A call that rings, failed.
failed_call : String → ℕ → Call → Call
failed_call why now c = record c { state = CallState.failed; ended_at = some now; reason = why }

ok-injective : {a b : TokenResult} → ◌≡◌ {A = Result TokenResult} (ok a) (ok b) → a ≡ b
ok-injective h = cc

-- What a token gives: the room of a stored call, in the role of a participant, and a secret of the
-- SFU for a call over the SFU or one that the signer made.
pub record Admits (o : Orchestrator) (id user : String) (rt : Runtime) (t : TokenResult)
    : Type 0 where
  pub call : Call
  pub participant : Participant
  pub stored : lookup id rt.store.calls ≡ some call
  pub member : find_participant user call.participants ≡ some participant
  pub room : t.room_id ≡ call.room_id
  pub role : t.role ≡ role_of participant
  pub transport : t.transport ≡ call.transport
  pub secret :
      (call.transport ≡ sfu)
        × ((i : RoomInfo) × (join_room o.provider call.room_id user t.role
                (ttl_or_default o.token_ttl)
              ≡ some i)
            × (t.token ≡ i.token))
      ⊎ (call.transport ≡ p2p)
        × (o.sign call.id user call.room_id t.role call.app_id (ttl_or_default o.token_ttl)
            ≡ some t.token)

-- A token that IssueToken returns in a live context is for a stored call with the user as a
-- participant: it names the room and the transport of the call and the role of the participant,
-- and its secret is the one of the SFU for a call over the SFU, and the signed one otherwise.
pub issue_token-Admits :
    (o : Orchestrator) (id user : String) (rt : Runtime) (t : TokenResult)
    → issue_token o live id user rt ≡ ok t
    → Admits o id user rt t
unfolding issue_token get
issue_token-Admits o id user rt t e = by_call (lookup id rt.store.calls) refl e
  where
    by_sfu :
        (c : Call) (p : Participant) (i : Option RoomInfo)
        → lookup id rt.store.calls ≡ some c
        → find_participant user c.participants ≡ some p
        → c.transport ≡ sfu
        → join_room o.provider c.room_id user (role_of p) (ttl_or_default o.token_ttl) ≡ i
        → sfu_token (blank_token c (role_of p) (ttl_or_default o.token_ttl)) i ≡ ok t
        → Admits o id user rt t
    by_sfu c p none h f s j r = cc
    by_sfu c p (some i) h f s j r = subst (Admits o id user rt) (ok-injective r) (record {
      call = c;
      participant = p;
      stored = h;
      member = f;
      room = refl;
      role = refl;
      transport = refl;
      secret = inl (s, (i, j, refl));
    })

    by_p2p :
        (c : Call) (p : Participant) (token : Option String)
        → lookup id rt.store.calls ≡ some c
        → find_participant user c.participants ≡ some p
        → c.transport ≡ p2p
        → o.sign c.id user c.room_id (role_of p) c.app_id (ttl_or_default o.token_ttl) ≡ token
        → p2p_token o (blank_token c (role_of p) (ttl_or_default o.token_ttl)) token ≡ ok t
        → Admits o id user rt t
    by_p2p c p none h f s j r = cc
    by_p2p c p (some token) h f s j r = subst (Admits o id user rt) (ok-injective r) (record {
      call = c;
      participant = p;
      stored = h;
      member = f;
      room = refl;
      role = refl;
      transport = refl;
      secret = inr (s, j);
    })

    by_transport :
        (c : Call) (p : Participant) (over : Transport)
        → lookup id rt.store.calls ≡ some c
        → find_participant user c.participants ≡ some p
        → c.transport ≡ over
        → (let ttl = ttl_or_default o.token_ttl in
            let blank = blank_token c (role_of p) ttl in
            elim over [
              | sfu ↦ sfu_token blank (join_room o.provider c.room_id user (role_of p) ttl)
              | p2p ↦ p2p_token o blank (o.sign c.id user c.room_id (role_of p) c.app_id ttl)
            ])
          ≡ ok t
        → Admits o id user rt t
    by_transport c p sfu h f s r = by_sfu c p _ h f s refl r
    by_transport c p p2p h f s r = by_p2p c p _ h f s refl r

    by_participant :
        (c : Call) (p : Option Participant)
        → lookup id rt.store.calls ≡ some c
        → find_participant user c.participants ≡ p
        → token_for o c user p ≡ ok t
        → Admits o id user rt t
    by_participant c none h f r = cc
    by_participant c (some p) h f r = by_transport c p c.transport h f refl r

    by_call :
        (k : Option Call)
        → lookup id rt.store.calls ≡ k
        → token_of o user (found k) ≡ ok t
        → Admits o id user rt t
    by_call none h r = cc
    by_call (some c) h r = by_participant c _ h refl r
