-- ===== src/Smtpd/AuthDeadline.antt =====
-- internal/smtpd/authdeadline.go: the deadline that bounds a connection until it has authenticated. The
-- times are those of the two deadlines of the connection below, and `none` is the zero time, which is no
-- deadline. The registry is seen from one connection.
pub mod Clamped
mod Tests
use outboxd.Common.{
  ℕ, ◌+◌, Bool, true, false, ◌&&◌, Option, none, some, List, [], ◌∷◌, ltb, if◌then◌else◌,
}

pub record AuthDeadlineConn : Type 0 where
  pub deadline : ℕ
  pub active : Bool
  pub read_deadline : Option ℕ
  pub write_deadline : Option ℕ
  -- Whether the server's map has the connection.
  pub registered : Bool
  -- The state of `once`.
  pub closed : Bool

-- deadline.IsZero() || deadline.After(c.deadline)
abbrev exceeds : Option ℕ → ℕ → Bool
exceeds none limit = true
exceeds (some t) limit = ltb limit t

unfoldable pub clamp : AuthDeadlineConn → Option ℕ → Option ℕ
clamp c t = if c.active && exceeds t c.deadline then some c.deadline else t

unfoldable pub set_deadline : Option ℕ → AuthDeadlineConn → AuthDeadlineConn
set_deadline t c = record c { read_deadline = clamp c t; write_deadline = clamp c t }

unfoldable pub set_read_deadline : Option ℕ → AuthDeadlineConn → AuthDeadlineConn
set_read_deadline t c = record c { read_deadline = clamp c t }

unfoldable pub set_write_deadline : Option ℕ → AuthDeadlineConn → AuthDeadlineConn
set_write_deadline t c = record c { write_deadline = clamp c t }

-- clear goes to the connection below, past the clamp.
unfoldable pub clear : AuthDeadlineConn → AuthDeadlineConn
clear c = record c { active = false; read_deadline = none; write_deadline = none }

unfoldable pub close : AuthDeadlineConn → AuthDeadlineConn
close c = if c.closed then c else record c { registered = false; closed = true }

-- Accept, at time `now`, of a connection without deadlines.
unfoldable pub accept : ℕ → ℕ → AuthDeadlineConn
accept now lifetime = set_deadline (some (now + lifetime)) (record {
  deadline = now + lifetime;
  active = true;
  read_deadline = none;
  write_deadline = none;
  registered = true;
  closed = false;
})
