-- ===== src/Smtpd/ConnLimit.antt =====
-- internal/smtpd/connlimit.go: the connection limiter and the listener that it guards.
-- Counters are natural numbers: the source never lets them fall below zero, and no counter passes
-- the configured cap, far below 2 ^ 63. A remote address is its host part.
pub mod Counts
mod Tests
use outboxd.Common.{
  ℕ, suc, ◌+◌, ◌-◌, Bool, true, false, Bytes, Option, none, some, List, [], ◌∷◌, leb, ◌==◌,
  if◌then◌else◌, get_elem?, set,
}
use outboxd.Common.Map.{Map, get, insert, remove}

pub record ConnectionLimiter : Type 0 where
  pub global : ℕ
  pub per_ip : ℕ
  pub active : ℕ
  pub by_ip : Map ℕ

-- `m[k]` of a map to int, which is 0 for a missing key.
abbrev pub or_zero : Option ℕ → ℕ
or_zero none = 0
or_zero (some n) = n

-- A zero stands for every configured number that is not positive.
unfoldable pub new_connection_limiter : ℕ → ℕ → ConnectionLimiter
new_connection_limiter global per_ip = record {
  global = if global == 0 then 256 else global;
  per_ip = if per_ip == 0 then 16 else per_ip;
  active = 0;
  by_ip = [];
}

unfoldable pub acquire : Bytes → ConnectionLimiter → ConnectionLimiter × Bool
acquire ip l =
    if leb l.global l.active
    then (l, false)
    else if leb l.per_ip (or_zero (get ip l.by_ip))
    then (l, false)
    else (
      record l { active = l.active + 1; by_ip = insert ip (or_zero (get ip l.by_ip) + 1) l.by_ip },
      true,
    )

-- Subtraction stops at 0, which is the source's `if l.active < 0` and its `n <= 0`.
unfoldable pub release : Bytes → ConnectionLimiter → ConnectionLimiter
release ip l =
    let n = or_zero (get ip l.by_ip) - 1 in
    record l {
      active = l.active - 1;
      by_ip = if n == 0 then remove ip l.by_ip else insert ip n l.by_ip;
    }

-- `done` is the state of the connection's sync.Once.
pub record LimitedConn : Type 0 where
  pub ip : Bytes
  pub done : Bool

-- The limiter with every connection that Accept has handed out, in order.
pub record LimitListener : Type 0 where
  pub limiter : ConnectionLimiter
  pub conns : List LimitedConn

-- Accept's loop over what the inner listener yields: the hosts of the connections that come in,
-- then an error. It returns whether a connection was handed out.
unfoldable pub accept : List Bytes → LimitListener → LimitListener × Bool
accept [] s = (s, false)
accept (ip ∷ rest) s =
    let again = accept rest s in
    let (l, granted) = acquire ip s.limiter in
    if granted
    then (record { limiter = l; conns = record { ip = ip; done = false } ∷ s.conns }, true)
    else again

-- limitedConn.Close, on the connection at a position.
unfoldable pub close_found : Option LimitedConn → ℕ → LimitListener → LimitListener
close_found none i s = s
close_found (some c) i s = if c.done then s else record {
  limiter = release c.ip s.limiter;
  conns = set s.conns i (record c { done = true });
}

unfoldable pub close : ℕ → LimitListener → LimitListener
unfolding close_found
close i s = close_found (get_elem? s.conns i) i s

pub data Event : Type 0 where
  accepts : List Bytes → Event
  closes : ℕ → Event

-- Calls hold the limiter's mutex, so an interleaving of goroutines is a sequence of them.
unfoldable pub run : List Event → LimitListener → LimitListener
run [] s = s
run (accepts ips ∷ es) s = run es (accept ips s).0
run (closes i ∷ es) s = run es (close i s)
