-- ===== src/Call/Actions.antt =====
-- The service's methods that work on an existing call, named by one type, so that a theorem can
-- speak of all of them.
use mgl_communication.Base.{ℕ, String, true, false, Result, Context}
use mgl_communication.Call.Types.{Call}
use mgl_communication.Call.Store.{Edit}
use mgl_communication.Call.Edits.{
  accept_edit, reject_edit, cancel_edit, join_edit, connect_edit, fail_edit, resume_edit,
  leave_edit,
}
use mgl_communication.Call.Service.{
  Runtime, accept, reject, cancel, join, mark_connected, fail, leave, hangup, resume,
}

pub data Action : Type 0 where
  accepts joins resumes : String → String → Action
  rejects cancels connects leaves hangs_up fails : String → Action

-- The method that an action calls.
unfoldable pub perform : Context → String → Action → ℕ → Runtime → Runtime × Result Call
unfolding accept reject cancel join mark_connected fail leave hangup
perform ctx id (accepts user device) now rt = accept ctx id user device now rt
perform ctx id (joins user device) now rt = join ctx id user device now rt
perform ctx id (resumes user device) now rt = resume ctx id user device rt
perform ctx id (rejects user) now rt = reject ctx id user now rt
perform ctx id (cancels user) now rt = cancel ctx id user now rt
perform ctx id (connects user) now rt = mark_connected ctx id user now rt
perform ctx id (leaves user) now rt = leave ctx id user now rt
perform ctx id (hangs_up user) now rt = hangup ctx id user now rt
perform ctx id (fails reason) now rt = fail ctx id reason now rt

-- The closure that the method hands to the store.
unfoldable pub edit_of : String → ℕ → Action → Edit
unfolding accept_edit join_edit resume_edit reject_edit cancel_edit connect_edit leave_edit
    fail_edit
edit_of id now (accepts user device) = accept_edit user device now
edit_of id now (joins user device) = join_edit id user device now
edit_of id now (resumes user device) = resume_edit user device
edit_of id now (rejects user) = reject_edit user now
edit_of id now (cancels user) = cancel_edit user now
edit_of id now (connects user) = connect_edit user now
edit_of id now (leaves user) = leave_edit user "left" false now
edit_of id now (hangs_up user) = leave_edit user "hangup" true now
edit_of id now (fails reason) = fail_edit reason now
