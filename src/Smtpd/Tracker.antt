-- ===== src/Smtpd/Tracker.antt =====
-- connectionTracker and trackListener of internal/smtpd/connlimit.go, in steps that hold the mutex. A
-- connection is its number, in the order of acceptance; `pending` are the calls of Close that the
-- snapshot of closeAll and a refused acceptance still have to make.
pub mod Shutdown
mod Tests
use outboxd.Common.{ℕ, zero, suc, ◌+◌, Bool, true, false, List, [], ◌∷◌, ◌++◌, ◌==◌, if◌then◌else◌}

pub record ConnectionTracker : Type 0 where
  pub next : ℕ
  -- The connections that have not been closed, and those in the map.
  pub opened : ℕ → Bool
  pub conns : ℕ → Bool
  pub closed : Bool
  pub pending : List ℕ

abbrev pub update : (ℕ → Bool) → ℕ → Bool → ℕ → Bool
update f i b j = if i == j then b else f j

abbrev nowhere : ℕ → Bool
nowhere i = false

abbrev pub new_connection_tracker : ConnectionTracker
new_connection_tracker = record {
  next = 0;
  opened = nowhere;
  conns = nowhere;
  closed = false;
  pending = [];
}

-- Accept with add: a connection that comes after the shutdown has begun is closed and not handed out.
unfoldable pub accept_tracked : ConnectionTracker → ConnectionTracker
accept_tracked t =
    if t.closed
    then record t {
      next = t.next + 1;
      opened = update t.opened t.next true;
      pending = t.pending ++ t.next ∷ [];
    }
    else record t {
      next = t.next + 1;
      opened = update t.opened t.next true;
      conns = update t.conns t.next true;
    }

-- trackedConn.Close with remove; a second call changes nothing.
unfoldable pub close_tracked : ℕ → ConnectionTracker → ConnectionTracker
close_tracked i t = record t { opened = update t.opened i false; conns = update t.conns i false }

-- The connections in the map, below a number.
unfoldable pub snapshot : ℕ → (ℕ → Bool) → List ℕ
snapshot zero conns = []
snapshot (suc n) conns = let rest = snapshot n conns in if conns n then n ∷ rest else rest

-- The part of closeAll that holds the mutex.
unfoldable pub begin_close_all : ConnectionTracker → ConnectionTracker
unfolding snapshot
begin_close_all t = record t { closed = true; pending = snapshot t.next t.conns ++ t.pending }

abbrev pub close_pending : List ℕ → ConnectionTracker → ConnectionTracker
close_pending [] t = t
close_pending (i ∷ rest) t = record (close_tracked i t) { pending = rest }

-- The next call of Close that is still to be made.
unfoldable pub close_next : ConnectionTracker → ConnectionTracker
close_next t = close_pending t.pending t
