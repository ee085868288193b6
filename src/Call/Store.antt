-- ===== src/Call/Store.antt =====
-- internal/call/memory_store.go. A method runs under the store's mutex, so it is one step. `Get`
-- and `Update` hand out clones: a caller has a value, and no alias of what the store holds.
use mgl_communication.Base.{
  String, Bool, false, Option, none, some, List, [], ◌∷◌, not, if◌then◌else◌, Dict, lookup, insert,
  add_member, Error, Result, ok, err, call_not_found, Context, live, done, canceled,
}
use mgl_communication.Call.Types.{Call, Participant, is_terminal}
use Prim.Native.String.{◌++◌ as str_append}

-- The user index maps app|user to the ids of the user's calls.
pub record Store : Type 0 where
  pub calls : Dict Call
  pub by_user : Dict (List String)

unfoldable pub empty : Store
empty = record { calls = []; by_user = [] }

unfoldable pub user_key : String → String → String
user_key app_id user_id = str_append app_id (str_append "|" user_id)

abbrev pub members_of : Option (List String) → List String
members_of none = []
members_of (some ids) = ids

abbrev pub members : String → Dict (List String) → List String
members uk m = members_of (lookup uk m)

-- The loop over the participants in `Put` and `Update`.
unfoldable pub index_participants :
    String → String → List Participant → Dict (List String) → Dict (List String)
index_participants app_id id [] m = m
index_participants app_id id (p ∷ ps) m =
    let uk = user_key app_id p.user_id in
    index_participants app_id id ps (insert uk (add_member id (members uk m)) m)

unfoldable pub put : Context → Call → Store → Store × Result (Unit {0})
unfolding index_participants
put done c s = (s, err canceled)
put live c s = (
  record {
    calls = insert c.id c s.calls;
    by_user = index_participants c.app_id c.id c.participants s.by_user;
  },
  ok tt,
)

abbrev pub found : Option Call → Result Call
found none = err call_not_found
found (some c) = ok c

unfoldable pub get : Context → String → Store → Result Call
get done id s = err canceled
get live id s = found (lookup id s.calls)

-- The closure that `Update` runs on the stored call: what it leaves there, and its error. The
-- writes stay in the store also when an error is returned.
abbrev pub Edit : Type 0
Edit = Call → Call × Option Error

unfoldable pub commit : String → Call × Option Error → Store → Store × Result Call
commit id (c, some e) s = (record s { calls = insert id c s.calls }, err e)
commit id (c, none) s = (
  record {
    calls = insert id c s.calls;
    by_user = index_participants c.app_id c.id c.participants s.by_user;
  },
  ok c,
)

unfoldable pub update_found : String → Edit → Store → Option Call → Store × Result Call
unfolding commit
update_found id edit s none = (s, err call_not_found)
update_found id edit s (some c) = commit id (edit c) s

unfoldable pub update : Context → String → Edit → Store → Store × Result Call
unfolding update_found
update done id edit s = (s, err canceled)
update live id edit s = update_found id edit s (lookup id s.calls)

abbrev pub is_active : Option Call → Bool
is_active none = false
is_active (some c) = not (is_terminal c)

unfoldable pub active_of : Dict Call → List String → List String
active_of calls [] = []
active_of calls (id ∷ ids) =
    if is_active (lookup id calls) then id ∷ active_of calls ids else active_of calls ids

-- The order of the result is that of a Go map: any.
unfoldable pub active_call_ids : Context → String → String → Store → List String
unfolding active_of
active_call_ids done app_id user_id s = []
active_call_ids live app_id user_id s =
    active_of s.calls (members (user_key app_id user_id) s.by_user)
