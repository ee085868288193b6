-- ===== src/Call/Lifecycle.antt =====
-- The state machine of a call: which state may follow which.
use mgl_communication.Base.{ℕ, ◌≡◌, String, false, arith}
use mgl_communication.Call.Types.{CallState, Call, is_terminal_state}
use mgl_communication.Call.Actions.{Action, edit_of}
use mgl_communication.Call.Edits.{timeout_edit}

-- The states in which a call has not begun to carry media.
pub data IsPending : CallState → Type 0 where
  ringing : IsPending CallState.ringing
  accepted : IsPending CallState.accepted
  connecting : IsPending CallState.connecting

pub data Edge (s : CallState) : CallState → Type 0 where
  stay : Edge s s
  accept : IsPending s → Edge s CallState.accepted
  connect : IsPending s → Edge s CallState.connecting
  establish : is_terminal_state s ≡ false → Edge s CallState.connected
  finish : is_terminal_state s ≡ false → Edge s CallState.ended
  refuse : is_terminal_state s ≡ false → Edge s CallState.rejected
  withdraw : is_terminal_state s ≡ false → Edge s CallState.cancelled
  break : is_terminal_state s ≡ false → Edge s CallState.failed
  expire : s ≡ CallState.ringing → Edge s CallState.timeout

ruleset edges = (stay, accept, connect, establish, finish, refuse, withdraw, break, expire)

ruleset pending = (ringing, accepted, connecting)

pub edit-Edge :
    (id : String) (now : ℕ) (a : Action) (c : Call) → Edge c.state (edit_of id now a c).0.state
unfolding edit_of
edit-Edge id now (Action.accepts user device) c = grind (arith, edges, pending)
edit-Edge id now (Action.joins user device) c = grind (arith, edges, pending)
edit-Edge id now (Action.resumes user device) c = stay
edit-Edge id now (Action.rejects user) c = grind (arith, edges, pending)
edit-Edge id now (Action.cancels user) c = grind (arith, edges, pending)
edit-Edge id now (Action.connects user) c = grind (arith, edges, pending)
edit-Edge id now (Action.leaves user) c = grind (arith, edges, pending)
edit-Edge id now (Action.hangs_up user) c = grind (arith, edges, pending)
edit-Edge id now (Action.fails reason) c = grind (arith, edges, pending)

pub timeout_edit-Edge : (now : ℕ) (c : Call) → Edge c.state (timeout_edit now c).0.state
unfolding timeout_edit
timeout_edit-Edge now c = grind (arith, edges, pending)
