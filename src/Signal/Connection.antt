-- ===== src/Signal/Connection.antt =====
-- internal/signaling/connection/conn.go: the identity of a connection and its bounded send buffer.
-- The socket itself, its deadlines and `lastSeen`, which is only written, are left out.
use mgl_communication.Base.{
  ℕ, suc, String, Bool, true, false, Option, none, some, List, [], ◌∷◌, ◌++◌, ltb, if◌then◌else◌,
  length,
}
use mgl_communication.Signal.Protocol.{Envelope}
pub mod Buffer

pub record Conn : Type 0 where
  pub id : String
  pub user_id : String
  pub app_id : String
  pub device_id : String
  pub authed : Bool
  pub closed : Bool
  pub capacity : ℕ
  pub queue : List Envelope

unfoldable pub new : String → ℕ → Conn
new id send_buf = record {
  id = id;
  user_id = "";
  app_id = "";
  device_id = "";
  authed = false;
  closed = false;
  capacity = if ltb 0 send_buf then send_buf else 64;
  queue = [];
}

unfoldable pub set_identity : String → String → String → Conn → Conn
set_identity user app device c = record c {
  user_id = user;
  app_id = app;
  device_id = device;
  authed = true;
}

-- What is offered to a closed connection or to a full buffer is dropped; the flag is the result.
unfoldable pub send : Envelope → Conn → Conn × Bool
send env c =
    if c.closed
    then (c, false)
    else if ltb (length c.queue) c.capacity
    then (record c { queue = c.queue ++ env ∷ [] }, true)
    else (c, false)

-- One round of the write pump: it takes the oldest message out of the channel.
abbrev pub taken : List Envelope → List Envelope
taken [] = []
taken (env ∷ q) = q

unfoldable pub take_message : Conn → Conn
take_message c = record c { queue = taken c.queue }

unfoldable pub close : Conn → Conn
close c = record c { closed = true }
