-- ===== src/Signal/Hub/Wired.antt =====
-- How the tables of the hub fit the connections, and what sending keeps of it.
use mgl_communication.Base.{
  ◌≤◌, String, Bool, true, false, not, ◌&&◌, ◌==◌, Option, none, some, lookup, contains, length,
  ◌≡◌, ◌≢◌, refl, sym, ◌∙◌, ap,
}
use mgl_communication.Signal.Connection.{Conn}
use mgl_communication.Signal.Hub.{Hub, user_key, members}
use mgl_communication.Signal.Hub.Bindings.{Distinct}
use mgl_communication.Signal.Hub.Delivered.{SentAt, Quiet}

abbrev pub is_open : Option Conn → Bool
is_open none = false
is_open (some c) = not c.closed

-- An open connection that authenticated as the user with this key.
abbrev pub belongs : String → Option Conn → Bool
belongs uk none = false
belongs uk (some c) = not c.closed && c.authed && user_key c.app_id c.user_id == uk

abbrev pub is_some : Option Conn → Bool
is_some none = false
is_some (some c) = true

-- A connection under an id: it has that id, its buffer is within its capacity, and it
-- authenticated as somebody.
pub record IsProper (k : String) (c : Conn) : Type 0 where
  pub named : c.id ≡ k
  pub fits : length c.queue ≤ c.capacity
  pub subject : c.authed ≡ true → c.user_id ≢ ""

abbrev pub ProperAt : String → Option Conn → Type 0
ProperAt k none = Unit
ProperAt k (some c) = IsProper k c

-- The table of connections holds exactly the open ones; an open one is listed under its user; no
-- list has a connection twice, or one that never was.
pub record IsWired (h : Hub) : Type 0 where
  pub proper : (k : String) → ProperAt k (lookup k h.objects)
  pub registered : (k : String) → contains k h.conns ≡ is_open (lookup k h.objects)
  pub bound :
      (uk k : String)
      → belongs uk (lookup k h.objects) ≡ true
      → contains k (members uk h.by_user) ≡ true
  pub distinct : (uk : String) → Distinct (members uk h.by_user)
  pub known :
      (uk k : String)
      → contains k (members uk h.by_user) ≡ true
      → is_some (lookup k h.objects) ≡ true

-- A user's list has exactly the open connections that authenticated as the user.
abbrev pub IsExact : Hub → Type 0
IsExact h = (uk k : String) → contains k (members uk h.by_user) ≡ belongs uk (lookup k h.objects)

sent-proper : (k : String) (o p : Option Conn) → SentAt o p → ProperAt k o → ProperAt k p
sent-proper k none none s u = tt
sent-proper k none (some d) s u = absurd s
sent-proper k (some c) none s u = absurd s
sent-proper k (some c) (some d) s u = record {
  named = s.id ∙ u.named;
  fits = s.fits u.fits;
  subject = λ a e. u.subject (sym s.authed ∙ a) (sym s.user_id ∙ e);
}

pub sent-is_open : (o p : Option Conn) → SentAt o p → is_open p ≡ is_open o
sent-is_open none none s = refl
sent-is_open none (some d) s = absurd s
sent-is_open (some c) none s = absurd s
sent-is_open (some c) (some d) s = ap not s.closed

pub sent-belongs : (uk : String) (o p : Option Conn) → SentAt o p → belongs uk p ≡ belongs uk o
sent-belongs uk none none s = refl
sent-belongs uk none (some d) s = absurd s
sent-belongs uk (some c) none s = absurd s
sent-belongs uk (some c) (some d) s = rw (s.closed, s.authed, s.app_id, s.user_id) refl

sent-is_some : (o p : Option Conn) → SentAt o p → is_some p ≡ is_some o
sent-is_some none none s = refl
sent-is_some none (some d) s = absurd s
sent-is_some (some c) none s = absurd s
sent-is_some (some c) (some d) s = refl

pub Quiet-IsWired : (h after : Hub) → Quiet h after → IsWired h → IsWired after
Quiet-IsWired h after q w = record {
  proper =
      λ k. sent-proper k (lookup k h.objects) (lookup k after.objects) (q.objects k) (w.proper k);
  registered = λ k.
      ap (contains k) q.conns
      ∙ w.registered k
      ∙ sym (sent-is_open (lookup k h.objects) (lookup k after.objects) (q.objects k));
  bound = λ uk k b.
      ap (λ m. contains k (members uk m)) q.by_user
      ∙ w.bound uk k
          (sym (sent-belongs uk (lookup k h.objects) (lookup k after.objects) (q.objects k)) ∙ b);
  distinct = λ uk. rw (q.by_user) (w.distinct uk);
  known = λ uk k b.
      sent-is_some (lookup k h.objects) (lookup k after.objects) (q.objects k)
      ∙ w.known uk k (sym (ap (λ m. contains k (members uk m)) q.by_user) ∙ b);
}

pub Quiet-IsExact : (h after : Hub) → Quiet h after → IsExact h → IsExact after
Quiet-IsExact h after q x uk k =
    ap (λ m. contains k (members uk m)) q.by_user
    ∙ x uk k
    ∙ sym (sent-belongs uk (lookup k h.objects) (lookup k after.objects) (q.objects k))
