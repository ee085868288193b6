-- ===== src/Call/Atomic.antt =====
-- A closure that returns an error has written nothing, though the store would keep its writes.
use mgl_communication.Base.{ℕ, ◌≡◌, String, some, arith, Error}
use mgl_communication.Call.Types.{Call}
use mgl_communication.Call.Edits.{timeout_edit}
use mgl_communication.Call.Actions.{Action, edit_of}

pub edit_error_unchanged :
    (id : String) (now : ℕ) (a : Action) (c : Call) {e : Error}
    → (edit_of id now a c).1 ≡ some e
    → (edit_of id now a c).0 ≡ c
unfolding edit_of
edit_error_unchanged id now (Action.accepts user device) c h = ground arith
edit_error_unchanged id now _ c h = ground arith

pub timeout_edit_error_unchanged :
    (now : ℕ) (c : Call) {e : Error} → (timeout_edit now c).1 ≡ some e → (timeout_edit now c).0 ≡ c
unfolding timeout_edit
timeout_edit_error_unchanged now c h = ground arith
