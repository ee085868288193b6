-- ===== src/Call/Index.antt =====
-- The store's user index: it lists for each app|user exactly the calls of that user.
use mgl_communication.Base.{
  subst, ◌≡◌, refl, String, Bool, true, false, Option, none, some, arith, ap, List, [], ◌∷◌, lookup,
  lookup-insert, Error, Context, live, done, insert, if◌then◌else◌, ◌==◌, contains, ◌||◌, ◌&&◌,
  add_member, contains-add_member, Dict,
}
use mgl_communication.Call.Types.{Call, Participant}
use mgl_communication.Call.Store.{
  Store, Edit, user_key, members, index_participants, put, update, update_found, commit,
  active_call_ids, active_of, is_active,
}
use mgl_communication.Call.Roster.{user_ids}
use mgl_communication.Call.Users.{has_key, Indexable}

abbrev pub indexes : String → Option Call → Bool
indexes uk none = false
indexes uk (some c) = has_key uk c.app_id (user_ids c.participants)

-- The index lists a call under a key exactly if a participant of the call has that key.
abbrev pub IndexFits : Store → Type 0
IndexFits s = (uk k : String) → contains k (members uk s.by_user) ≡ indexes uk (lookup k s.calls)

contains-members-insert :
    (uk j k id : String) (m : Dict (List String))
    → contains k (members uk (insert j (add_member id (members j m)) m)) ≡ (
        if j == uk
        then (if k == id then true else contains k (members uk m))
        else contains k (members uk m))
contains-members-insert uk j k id m = ground (
  arith,
  lookup-insert uk j (add_member id (members j m)) m,
  contains-add_member id k (members j m),
)

contains-index :
    (app_id id uk k : String) (ps : List Participant) (m : Dict (List String))
    → contains k (members uk (index_participants app_id id ps m)) ≡ (
        if k == id
        then contains k (members uk m) || has_key uk app_id (user_ids ps)
        else contains k (members uk m))
unfolding index_participants
contains-index app_id id uk k [] m = ground arith
contains-index app_id id uk k (p ∷ ps) m =
    let j = user_key app_id p.user_id in
    ground (
      arith,
      contains-index app_id id uk k ps (insert j (add_member id (members j m)) m),
      contains-members-insert uk j k id m,
    )

-- Storing a changed call and indexing its participants keeps the index right.
stored-IndexFits :
    (id : String) (s : Store) (c d : Call)
    → lookup id s.calls ≡ some c
    → d.app_id ≡ c.app_id
    → d.id ≡ id
    → ((uk : String)
        → has_key uk c.app_id (user_ids c.participants) ≡ true
        → has_key uk c.app_id (user_ids d.participants) ≡ true)
    → IndexFits s
    → IndexFits (commit id (d, none) s).0
unfolding commit
stored-IndexFits id s c d h ea ei kept fits uk k = ground (
  arith,
  contains-index d.app_id d.id uk k d.participants s.by_user,
  lookup-insert k id d s.calls,
  fits uk k,
  kept uk,
  h,
)

failed-IndexFits :
    (id : String) (s : Store) (c d : Call) (e : Error)
    → lookup id s.calls ≡ some c
    → d ≡ c
    → IndexFits s
    → IndexFits (commit id (d, some e) s).0
unfolding commit
failed-IndexFits id s c d e h same fits uk k =
    ground (arith, lookup-insert k id d s.calls, fits uk k, h)

commit-IndexFits :
    (id : String) (f : Edit) (s : Store) (c : Call) (r : Call × Option Error)
    → f c ≡ r
    → Indexable f
    → c.id ≡ id
    → lookup id s.calls ≡ some c
    → IndexFits s
    → IndexFits (commit id r s).0
commit-IndexFits id f s c (d, none) q x e h fits =
    stored-IndexFits id s c d h (cc (ap (λ t. t.0) q, x.app_id_kept c))
      (cc (ap (λ t. t.0) q, x.id_kept c))
      (λ uk g.
        subst (λ t. has_key uk c.app_id (user_ids t.0.participants) ≡ true) q (x.keys_kept uk c g))
      fits
commit-IndexFits id f s c (d, some e') q x e h fits =
    failed-IndexFits id s c d e' h (cc (ap (λ t. t.0) q, x.error_unchanged c e' (ap (λ t. t.1) q)))
      fits

update_found-IndexFits :
    (id : String) (f : Edit) (s : Store) (o : Option Call)
    → Indexable f
    → ((c : Call) → lookup id s.calls ≡ some c → c.id ≡ id)
    → lookup id s.calls ≡ o
    → IndexFits s
    → IndexFits (update_found id f s o).0
unfolding update_found
update_found-IndexFits id f s none x keyed e fits = fits
update_found-IndexFits id f s (some c) x keyed e fits =
    commit-IndexFits id f s c (f c) refl x (keyed c e) e fits

-- `Update` keeps the index right, if its closure keeps the call's ids and its users.
pub update-IndexFits :
    (ctx : Context) (id : String) (f : Edit) (s : Store)
    → Indexable f
    → ((c : Call) → lookup id s.calls ≡ some c → c.id ≡ id)
    → IndexFits s
    → IndexFits (update ctx id f s).0
unfolding update
update-IndexFits done id f s x keyed fits = fits
update-IndexFits live id f s x keyed fits =
    update_found-IndexFits id f s (lookup id s.calls) x keyed refl fits

pub put-IndexFits :
    (c : Call) (s : Store) → lookup c.id s.calls ≡ none → IndexFits s → IndexFits (put live c s).0
unfolding put
put-IndexFits c s fresh fits uk k = ground (
  arith,
  contains-index c.app_id c.id uk k c.participants s.by_user,
  lookup-insert k c.id c s.calls,
  fits uk k,
)

contains-active_of :
    (k : String) (calls : Dict Call) (ids : List String)
    → contains k (active_of calls ids) ≡ (is_active (lookup k calls) && contains k ids)
unfolding active_of
contains-active_of k calls [] = ground arith
contains-active_of k calls (id ∷ ids) = ground (arith, contains-active_of k calls ids)

-- ActiveCallIDsForUser lists exactly the calls that are not over and have a participant with the
-- asked app|user key, in a store whose index is right.
pub active_call_ids-exact :
    (s : Store) (app_id user_id k : String)
    → IndexFits s
    → contains k (active_call_ids live app_id user_id s)
      ≡ (is_active (lookup k s.calls) && indexes (user_key app_id user_id) (lookup k s.calls))
unfolding active_call_ids
active_call_ids-exact s app_id user_id k fits = ground (
  arith,
  contains-active_of k s.calls (members (user_key app_id user_id) s.by_user),
  fits (user_key app_id user_id) k,
)
