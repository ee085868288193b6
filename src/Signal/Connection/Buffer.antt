-- ===== src/Signal/Connection/Buffer.antt =====
-- What sending to a connection does to it.
use mathlib.Core.List.{append_assoc, append-nil}
use mgl_communication.Base.{
  ◌≤◌, Bool, true, false, List, [], ◌∷◌, ◌++◌, ltb, if◌then◌else◌, length, length-append, ◌≡◌, refl,
  sym, ◌∙◌, ap, arith,
}
use mgl_communication.Signal.Protocol.{Envelope}
use mgl_communication.Signal.Connection.{Conn, send}

-- `d` is `c` after some messages were offered: the identity, the flags and the capacity are the
-- same, the buffer has more messages at its end, and it stays within the capacity.
pub record Sent (c d : Conn) : Type 0 where
  pub id : d.id ≡ c.id
  pub user_id : d.user_id ≡ c.user_id
  pub app_id : d.app_id ≡ c.app_id
  pub device_id : d.device_id ≡ c.device_id
  pub authed : d.authed ≡ c.authed
  pub closed : d.closed ≡ c.closed
  pub capacity : d.capacity ≡ c.capacity
  pub extra : List Envelope
  pub queue : d.queue ≡ c.queue ++ extra
  pub fits : length c.queue ≤ c.capacity → length d.queue ≤ d.capacity

pub Sent-refl : (c : Conn) → Sent c c
Sent-refl c = record {
  id = refl;
  user_id = refl;
  app_id = refl;
  device_id = refl;
  authed = refl;
  closed = refl;
  capacity = refl;
  extra = [];
  queue = sym (append-nil c.queue);
  fits = λ h. h;
}

pub Sent-trans : (c d e : Conn) → Sent c d → Sent d e → Sent c e
Sent-trans c d e p q = record {
  id = q.id ∙ p.id;
  user_id = q.user_id ∙ p.user_id;
  app_id = q.app_id ∙ p.app_id;
  device_id = q.device_id ∙ p.device_id;
  authed = q.authed ∙ p.authed;
  closed = q.closed ∙ p.closed;
  capacity = q.capacity ∙ p.capacity;
  extra = p.extra ++ q.extra;
  queue = q.queue ∙ ap (λ x. x ++ q.extra) p.queue ∙ append_assoc c.queue p.extra q.extra;
  fits = λ h. q.fits (p.fits h);
}

-- A full buffer and a closed connection drop the message.
pub send-Sent : (env : Envelope) (c : Conn) → Sent c (send env c).0
unfolding send
send-Sent env c = go c.closed (ltb (length c.queue) c.capacity) refl
  where
    appended :
        ltb (length c.queue) c.capacity ≡ true → Sent c (record c { queue = c.queue ++ env ∷ [] })
    appended room = record {
      id = refl;
      user_id = refl;
      app_id = refl;
      device_id = refl;
      authed = refl;
      closed = refl;
      capacity = refl;
      extra = env ∷ [];
      queue = refl;
      fits = λ h. ground (arith, length-append c.queue (env ∷ []));
    }

    go :
        (shut room : Bool)
        → ltb (length c.queue) c.capacity ≡ room
        → Sent c
            (if◌then◌else◌ {A = Conn × Bool} shut
              (c, false)
              (if room then (record c { queue = c.queue ++ env ∷ [] }, true) else (c, false))).0
    go true room e = Sent-refl c
    go false true e = appended e
    go false false e = Sent-refl c
