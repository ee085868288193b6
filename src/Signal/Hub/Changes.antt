-- ===== src/Signal/Hub/Changes.antt =====
-- What each change of the tables keeps: a new connection, a connection that is bound to a user, one
-- that leaves, and a message that the write pump takes.
use mgl_communication.Base.{
  ◌≤◌, String, Bool, true, false, not, ◌&&◌, ◌==◌, if◌then◌else◌, Option, none, some, List, [], ◌∷◌,
  Dict, lookup, insert, lookup-insert, contains, contains-add_member, length, ◌≡◌, ◌≢◌, refl, arith,
  subst,
}
use mgl_communication.Signal.Protocol.{Envelope}
use mgl_communication.Signal.Connection
use mgl_communication.Signal.Connection.{Conn, set_identity, close, take_message, taken}
use mgl_communication.Signal.Hub.{
  Hub, user_key, members, register, drain, drain_object, without, unbind_user, close_object, unbind,
}
use mgl_communication.Signal.Hub.Bindings.{
  Distinct, contains-without, contains-bound_in, bound_in, bound_in-Distinct, contains-unbind,
  unbind-Distinct,
}
use mgl_communication.Signal.Hub.Wired.{
  is_open, belongs, is_some, IsProper, ProperAt, IsWired, IsExact,
}

-- One object in place of another.
module _ (id : String) (d : Conn) (objects : Dict Conn) where
  proper-insert :
      IsProper id d
      → ((k : String) → ProperAt k (lookup k objects))
      → (k : String) → ProperAt k (lookup k (insert id d objects))
  proper-insert p u k = rw (lookup-insert k id d objects) (ground (arith, p, u k))

  is_open-insert :
      (k : String)
      → is_open (lookup k (insert id d objects))
        ≡ (if k == id then not d.closed else is_open (lookup k objects))
  is_open-insert k = ground (arith, lookup-insert k id d objects)

  belongs-insert :
      (uk k : String)
      → belongs uk (lookup k (insert id d objects))
        ≡ (if k == id then belongs uk (some d) else belongs uk (lookup k objects))
  belongs-insert uk k = ground (arith, lookup-insert k id d objects)

  is_some-insert :
      (k : String)
      → is_some (lookup k objects) ≡ true
      → is_some (lookup k (insert id d objects)) ≡ true
  is_some-insert k h = ground (arith, lookup-insert k id d objects)

pub register-IsWired :
    (id : String) (h : Hub) → lookup id h.objects ≡ none → IsWired h → IsWired (register id h)
unfolding register Connection.new
register-IsWired id h fresh w =
    let c = Connection.new id 128 in
    record {
      proper =
          proper-insert id c h.objects
            (record { named = refl; fits = omega arith; subject = λ e. cc }) w.proper;
      registered = λ k. ground (
        arith,
        contains-add_member id k h.conns,
        is_open-insert id c h.objects k,
        w.registered k,
      );
      bound = λ uk k b. w.bound uk k (ground (arith, belongs-insert id c h.objects uk k));
      distinct = w.distinct;
      known = λ uk k b. is_some-insert id c h.objects k (w.known uk k b);
    }

pub register-IsExact :
    (id : String) (h : Hub) → lookup id h.objects ≡ none → IsExact h → IsExact (register id h)
unfolding register Connection.new
register-IsExact id h fresh x uk k =
    ground (arith, belongs-insert id (Connection.new id 128) h.objects uk k, x uk k, fresh)

take_message-IsProper : (k : String) (c : Conn) → IsProper k c → IsProper k (take_message c)
unfolding take_message
take_message-IsProper k c p = record {
  named = p.named;
  fits = taken_le c.queue p.fits;
  subject = p.subject;
}
  where
    taken_le : (q : List Envelope) → length q ≤ c.capacity → length (taken q) ≤ c.capacity
    taken_le [] f = omega (arith, f)
    taken_le (env ∷ q) f = omega (arith, f)

drain_object-IsWired :
    (id : String) (o : Option Conn) (h : Hub)
    → lookup id h.objects ≡ o
    → IsWired h
    → IsWired (record h { objects = drain_object id o h.objects })
unfolding take_message
drain_object-IsWired id none h e w = w
drain_object-IsWired id (some c) h e w =
    let d = take_message c in
    record {
      proper = proper-insert id d h.objects (take_message-IsProper id c (at_id w.proper)) w.proper;
      registered = λ k. ground (arith, is_open-insert id d h.objects k, w.registered k, e);
      bound = λ uk k b. w.bound uk k (ground (arith, belongs-insert id d h.objects uk k, e));
      distinct = w.distinct;
      known = λ uk k b. is_some-insert id d h.objects k (w.known uk k b);
    }
  where
    at_id : ((k : String) → ProperAt k (lookup k h.objects)) → IsProper id c
    at_id u = subst (ProperAt id) e (u id)

pub drain-IsWired : (id : String) (h : Hub) → IsWired h → IsWired (drain id h)
unfolding drain
drain-IsWired id h w = drain_object-IsWired id (lookup id h.objects) h refl w

drain_object-IsExact :
    (id : String) (o : Option Conn) (h : Hub)
    → lookup id h.objects ≡ o
    → IsExact h
    → IsExact (record h { objects = drain_object id o h.objects })
unfolding take_message
drain_object-IsExact id none h e x uk k = x uk k
drain_object-IsExact id (some c) h e x uk k =
    ground (arith, belongs-insert id (take_message c) h.objects uk k, x uk k, e)

pub drain-IsExact : (id : String) (h : Hub) → IsExact h → IsExact (drain id h)
unfolding drain
drain-IsExact id h x = drain_object-IsExact id (lookup id h.objects) h refl x

-- The tables after an authentication.
abbrev pub bound_as : String → String → String → Conn → Hub → Hub
bound_as user app device c h = record h {
  objects = insert c.id (set_identity user app device c) h.objects;
  by_user = bound_in (user_key app user) c.id h.by_user;
}

module _ (user app device : String) (c : Conn) (h : Hub) (e : lookup c.id h.objects ≡ some c) where
  pub bound_as-IsWired : user ≢ "" → IsWired h → IsWired (bound_as user app device c h)
  unfolding set_identity
  bound_as-IsWired subject w =
      let d = set_identity user app device c in
      let at_id = subst (ProperAt c.id) e (w.proper c.id) in
      record {
        proper =
            proper-insert c.id d h.objects
              (record { named = refl; fits = at_id.fits; subject = λ _. subject }) w.proper;
        registered = λ k. ground (arith, is_open-insert c.id d h.objects k, w.registered k, e);
        bound = λ uk k b. ground (
          arith,
          contains-bound_in uk k (user_key app user) c.id h.by_user,
          belongs-insert c.id d h.objects uk k,
          w.bound uk k,
          b,
        );
        distinct = λ uk. bound_in-Distinct uk (user_key app user) c.id h.by_user w.distinct;
        known = λ uk k b. ground (
          arith,
          contains-bound_in uk k (user_key app user) c.id h.by_user,
          lookup-insert k c.id d h.objects,
          w.known uk k,
          b,
        );
      }

  -- A connection that authenticates for the first time was on no list.
  pub bound_as-IsExact :
      c.authed ≡ false → c.closed ≡ false → IsExact h → IsExact (bound_as user app device c h)
  unfolding set_identity
  bound_as-IsExact first opened x uk k = ground (
    arith,
    contains-bound_in uk k (user_key app user) c.id h.by_user,
    belongs-insert c.id (set_identity user app device c) h.objects uk k,
    x uk k,
    e,
    first,
    opened,
  )

-- The tables after a connection left them and was closed.
abbrev pub shut : Conn → Hub → Hub
shut c h = record h {
  objects = close_object c.id (lookup c.id h.objects) h.objects;
  conns = without c.id h.conns;
  by_user = unbind_user c h.by_user;
}

module _ (c : Conn) (h : Hub) (e : lookup c.id h.objects ≡ some c) where
  contains-unbind_user :
      (uk k : String)
      → contains k (members uk (unbind_user c h.by_user)) ≡ (
          if not (c.user_id == "") && (uk == user_key c.app_id c.user_id && k == c.id)
          then false
          else contains k (members uk h.by_user))
  contains-unbind_user uk k =
      ground (arith, contains-unbind uk k (user_key c.app_id c.user_id) c.id h.by_user)

  unbind_user-Distinct :
      ((u : String) → Distinct (members u h.by_user))
      → (uk : String) → Distinct (members uk (unbind_user c h.by_user))
  unbind_user-Distinct d uk = go (c.user_id == "")
    where
      go :
          (b : Bool)
          → Distinct (
              members uk
                (if b then h.by_user else unbind (user_key c.app_id c.user_id) c.id h.by_user))
      go true = d uk
      go false = unbind-Distinct uk (user_key c.app_id c.user_id) c.id h.by_user d

  pub shut-IsWired : IsWired h → IsWired (shut c h)
  unfolding close
  shut-IsWired w =
      let d = close c in
      let at_id = subst (ProperAt c.id) e (w.proper c.id) in
      rw (e) (record {
        proper =
            proper-insert c.id d h.objects
              (record { named = refl; fits = at_id.fits; subject = at_id.subject }) w.proper;
        registered = λ k. ground (
          arith,
          is_open-insert c.id d h.objects k,
          contains-without k c.id h.conns,
          w.registered k,
        );
        bound = λ uk k b. ground (
          arith,
          contains-unbind_user uk k,
          belongs-insert c.id d h.objects uk k,
          w.bound uk k,
          b,
        );
        distinct = unbind_user-Distinct w.distinct;
        known = λ uk k b.
            ground
              (arith, contains-unbind_user uk k, lookup-insert k c.id d h.objects, w.known uk k, b);
      })

  pub shut-IsExact : IsWired h → IsExact h → IsExact (shut c h)
  unfolding close
  shut-IsExact w x uk k = ground (
    arith,
    contains-unbind_user uk k,
    belongs-insert c.id (close c) h.objects uk k,
    x uk k,
    e,
    (subst (ProperAt c.id) e (w.proper c.id)).subject,
  )
