-- ===== src/Call/Answers.antt =====
-- What a method's answer says of the store: after an error nothing has changed, and a call that
-- is returned is the stored one.
use mgl_communication.Call.Sound.{IsSound}
use mgl_communication.Call.Index.{indexes, active_call_ids-exact}
use mgl_communication.Base.{
  ◌&&◌, ℕ, ◌≡◌, refl, ◌⊎◌, inl, inr, String, true, false, Option, none, some, arith, List, [], ◌∷◌,
  ok, err, lookup, lookup-insert, Option-cases, Error, Context, live, done, contains, map,
}
use mgl_communication.Call.Types.{Call}
use mgl_communication.Call.Store.{
  user_key, members, Store, Edit, get, update, update_found, commit, active_call_ids, active_of,
  is_active,
}
use mgl_communication.Call.Edits.{
  accept_edit, join_edit, reject_edit, cancel_edit, connect_edit, leave_edit, fail_edit,
  resume_edit,
}
use mgl_communication.Call.Service.{Runtime, resume, list_active_for_user, load_active}
use mgl_communication.Call.Actions.{Action, edit_of, perform}
use mgl_communication.Call.Atomic.{edit_error_unchanged}
use mgl_communication.Call.Effects.{lookup-update}
use mgl_communication.Call.Validity.{IsValid}
use mgl_communication.Call.Effects.{EachCall}

-- Nothing that a later method can see differs.
pub record Unchanged (rt rt' : Runtime) : Type 0 where
  pub calls : (k : String) → lookup k rt'.store.calls ≡ lookup k rt.store.calls
  pub index : rt'.store.by_user ≡ rt.store.by_user
  pub events : rt'.events ≡ rt.events
  pub timers : rt'.timers ≡ rt.timers

commit_error :
    (id : String) (s : Store) (c : Call) (r : Call × Option Error) {e : Error}
    → lookup id s.calls ≡ some c
    → ((x : Error) → r.1 ≡ some x → r.0 ≡ c)
    → (commit id r s).1 ≡ err e
    → (((k : String) → lookup k (commit id r s).0.calls ≡ lookup k s.calls)
        × ((commit id r s).0.by_user ≡ s.by_user))
unfolding commit
commit_error id s c (d, none) h same q = cc
commit_error id s c (d, some x) h same q =
    ((λ k. ground (arith, lookup-insert k id d s.calls, same x refl, h)), refl)

update_found_error :
    (id : String) (f : Edit) (s : Store) (o : Option Call) {e : Error}
    → lookup id s.calls ≡ o
    → ((c : Call) (x : Error) → (f c).1 ≡ some x → (f c).0 ≡ c)
    → (update_found id f s o).1 ≡ err e
    → (((k : String) → lookup k (update_found id f s o).0.calls ≡ lookup k s.calls)
        × ((update_found id f s o).0.by_user ≡ s.by_user))
unfolding update_found
update_found_error id f s none h same q = ((λ k. refl), refl)
update_found_error id f s (some c) h same q = commit_error id s c (f c) h (same c) q

update_error :
    (ctx : Context) (id : String) (f : Edit) (s : Store) {e : Error}
    → ((c : Call) (x : Error) → (f c).1 ≡ some x → (f c).0 ≡ c)
    → (update ctx id f s).1 ≡ err e
    → (((k : String) → lookup k (update ctx id f s).0.calls ≡ lookup k s.calls)
        × ((update ctx id f s).0.by_user ≡ s.by_user))
unfolding update
update_error done id f s same q = ((λ k. refl), refl)
update_error live id f s same q = update_found_error id f s (lookup id s.calls) refl same q

-- After its update `Resume` finds the call again, so it fails before the update or not at all.
resume_error :
    (ctx : Context) (id user device : String) (rt : Runtime) {e : Error}
    → (resume ctx id user device rt).1 ≡ err e
    → (resume ctx id user device rt).0 ≡ rt
unfolding resume get
resume_error done id user device rt h = ground arith
resume_error live id user device rt h = elim (Option-cases (lookup id rt.store.calls)) [
  | inl missing ↦ ground (arith, missing)
  | inr (c, hit) ↦ ground (arith, hit, lookup-update id id (resume_edit user device) rt.store)
]

-- A method's answer and its state come from those of the store's `Update`.
perform_answer :
    (ctx : Context) (id : String) (a : Action) (now : ℕ) (rt : Runtime) {e : Error}
    → (perform ctx id a now rt).1 ≡ err e
    → ((perform ctx id a now rt).0 ≡ rt)
      ⊎ (((perform ctx id a now rt).0
            ≡ record rt { store = (update ctx id (edit_of id now a) rt.store).0 })
          × ((update ctx id (edit_of id now a) rt.store).1 ≡ err e))
unfolding perform edit_of
perform_answer ctx id (Action.accepts user device) now rt h = ground arith
perform_answer ctx id (Action.joins user device) now rt h = ground arith
perform_answer ctx id (Action.resumes user device) now rt h =
    inl (resume_error ctx id user device rt h)
perform_answer ctx id (Action.rejects user) now rt h = ground arith
perform_answer ctx id (Action.cancels user) now rt h = ground arith
perform_answer ctx id (Action.connects user) now rt h = ground arith
perform_answer ctx id (Action.leaves user) now rt h = ground arith
perform_answer ctx id (Action.hangs_up user) now rt h = ground arith
perform_answer ctx id (Action.fails reason) now rt h = ground arith

-- A method of the call service that returns an error has changed nothing: every stored call, the
-- user index, the published events and the timers are what they were, although the store would
-- keep what the closure wrote.
pub perform_error-Unchanged :
    (ctx : Context) (id : String) (a : Action) (now : ℕ) (rt : Runtime) {e : Error}
    → (perform ctx id a now rt).1 ≡ err e
    → Unchanged rt (perform ctx id a now rt).0
perform_error-Unchanged ctx id a now rt h = elim (perform_answer ctx id a now rt h) [
  | inl same ↦ rw same (record { calls = λ k. refl; index = refl; events = refl; timers = refl })
  | inr (same, failed) ↦
      let (calls, index) =
        update_error ctx id (edit_of id now a) rt.store (λ c x. edit_error_unchanged id now a c)
          failed in
      rw same (record { calls = calls; index = index; events = refl; timers = refl })
]

commit_ok :
    (id : String) (s : Store) (r : Call × Option Error) {c : Call}
    → (commit id r s).1 ≡ ok c
    → lookup id (commit id r s).0.calls ≡ some c
unfolding commit
commit_ok id s (d, none) q = ground (arith, lookup-insert id id d s.calls)
commit_ok id s (d, some x) q = cc

update_found_ok :
    (id : String) (f : Edit) (s : Store) (o : Option Call) {c : Call}
    → (update_found id f s o).1 ≡ ok c
    → lookup id (update_found id f s o).0.calls ≡ some c
unfolding update_found
update_found_ok id f s none q = cc
update_found_ok id f s (some b) q = commit_ok id s (f b) q

update_ok :
    (ctx : Context) (id : String) (f : Edit) (s : Store) {c : Call}
    → (update ctx id f s).1 ≡ ok c
    → lookup id (update ctx id f s).0.calls ≡ some c
unfolding update
update_ok done id f s q = cc
update_ok live id f s q = update_found_ok id f s (lookup id s.calls) q

resume_ok :
    (ctx : Context) (id user device : String) (rt : Runtime) {c : Call}
    → (resume ctx id user device rt).1 ≡ ok c
    → lookup id (resume ctx id user device rt).0.store.calls ≡ some c
unfolding resume get
resume_ok done id user device rt h = ground arith
resume_ok live id user device rt h = elim (Option-cases (lookup id rt.store.calls)) [
  | inl missing ↦ ground (arith, missing)
  | inr (c, hit) ↦ ground (arith, hit, lookup-update id id (resume_edit user device) rt.store)
]

-- A call that a method of the call service returns is the one that the store holds under its id
-- afterwards.
pub perform_answer_stored :
    (ctx : Context) (id : String) (a : Action) (now : ℕ) (rt : Runtime) {c : Call}
    → (perform ctx id a now rt).1 ≡ ok c
    → lookup id (perform ctx id a now rt).0.store.calls ≡ some c
unfolding perform
perform_answer_stored ctx id (Action.accepts user device) now rt {c} h =
    ground (arith, update_ok ctx id (accept_edit user device now) rt.store {c = c})
perform_answer_stored ctx id (Action.joins user device) now rt {c} h =
    ground (arith, update_ok ctx id (join_edit id user device now) rt.store {c = c})
perform_answer_stored ctx id (Action.resumes user device) now rt h =
    resume_ok ctx id user device rt h
perform_answer_stored ctx id (Action.rejects user) now rt {c} h =
    ground (arith, update_ok ctx id (reject_edit user now) rt.store {c = c})
perform_answer_stored ctx id (Action.cancels user) now rt {c} h =
    ground (arith, update_ok ctx id (cancel_edit user now) rt.store {c = c})
perform_answer_stored ctx id (Action.connects user) now rt {c} h =
    ground (arith, update_ok ctx id (connect_edit user now) rt.store {c = c})
perform_answer_stored ctx id (Action.leaves user) now rt {c} h =
    ground (arith, update_ok ctx id (leave_edit user "left" false now) rt.store {c = c})
perform_answer_stored ctx id (Action.hangs_up user) now rt {c} h =
    ground (arith, update_ok ctx id (leave_edit user "hangup" true now) rt.store {c = c})
perform_answer_stored ctx id (Action.fails reason) now rt {c} h =
    ground (arith, update_ok ctx id (fail_edit reason now) rt.store {c = c})

-- In a sound store the calls that ListActiveForUser loads are those of the listed ids, in order.
load_active-ids :
    (s : Store) (ids : List String)
    → EachCall IsValid s
    → map (λ c. c.id) (load_active live s (active_of s.calls ids)) ≡ active_of s.calls ids
unfolding load_active active_of get
load_active-ids s [] v = refl
load_active-ids s (id ∷ ids) v = elim (Option-cases (lookup id s.calls)) [
  | inl missing ↦ ground (arith, missing, load_active-ids s ids v)
  | inr (c, hit) ↦ ground (arith, hit, v id c hit, load_active-ids s ids v)
]

-- In a sound runtime and a live context ListActiveForUser returns a call exactly if it is stored,
-- is not over and has a participant with the app|user key that is asked for.
pub list_active_for_user-exact :
    (rt : Runtime) (app_id user_id k : String)
    → IsSound rt
    → contains k (map (λ c. c.id) (list_active_for_user live app_id user_id rt)) ≡ (
        is_active (lookup k rt.store.calls)
        && indexes (user_key app_id user_id) (lookup k rt.store.calls))
unfolding list_active_for_user active_call_ids
list_active_for_user-exact rt app_id user_id k v =
    rw (load_active-ids rt.store (members (user_key app_id user_id) rt.store.by_user) v.valid)
      (active_call_ids-exact rt.store app_id user_id k v.indexed)
