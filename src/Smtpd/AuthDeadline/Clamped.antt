-- ===== src/Smtpd/AuthDeadline/Clamped.antt =====
-- Until a connection of internal/smtpd/authdeadline.go has authenticated, its deadlines stay bounded.
use outboxd.Common.{
  ℕ, ◌+◌, ◌≡◌, refl, Bool, true, false, Option, none, some, List, [], ◌∷◌, arith, leb,
}
use outboxd.Smtpd.AuthDeadline.{
  AuthDeadlineConn, clamp, set_deadline, set_read_deadline, set_write_deadline, clear, close,
  accept,
}

pub data Call : Type 0 where
  sets sets_read sets_write : Option ℕ → Call
  closes : Call
  -- The session has authenticated.
  clears : Call

unfoldable pub call : Call → AuthDeadlineConn → AuthDeadlineConn
call (sets t) c = set_deadline t c
call (sets_read t) c = set_read_deadline t c
call (sets_write t) c = set_write_deadline t c
call closes c = close c
call clears c = clear c

unfoldable pub run : List Call → AuthDeadlineConn → AuthDeadlineConn
run [] c = c
run (x ∷ xs) c = run xs (call x c)

abbrev pub authenticated : List Call → Bool
authenticated [] = false
authenticated (clears ∷ xs) = true
authenticated (x ∷ xs) = authenticated xs

abbrev pub at_most : ℕ → Option ℕ → Bool
at_most limit none = false
at_most limit (some t) = leb t limit

-- The bound is in force and both deadlines are set, none of them past it.
pub record Bounded (limit : ℕ) (c : AuthDeadlineConn) : Type 0 where
  pub deadline : c.deadline ≡ limit
  pub active : c.active ≡ true
  pub read : at_most limit c.read_deadline ≡ true
  pub write : at_most limit c.write_deadline ≡ true

clamp-at_most :
    (limit : ℕ) (c : AuthDeadlineConn) (t : Option ℕ)
    → c.deadline ≡ limit
    → c.active ≡ true
    → at_most limit (clamp c t) ≡ true
unfolding clamp
clamp-at_most limit c none d a = ground arith
clamp-at_most limit c (some t) d a = ground arith

call-Bounded :
    (limit : ℕ) (x : Call) (c : AuthDeadlineConn)
    → authenticated (x ∷ []) ≡ false
    → Bounded limit c
    → Bounded limit (call x c)
unfolding call set_deadline set_read_deadline set_write_deadline close
call-Bounded limit (sets t) c n b = record {
  deadline = b.deadline;
  active = b.active;
  read = clamp-at_most limit c t b.deadline b.active;
  write = clamp-at_most limit c t b.deadline b.active;
}
call-Bounded limit (sets_read t) c n b = record {
  deadline = b.deadline;
  active = b.active;
  read = clamp-at_most limit c t b.deadline b.active;
  write = b.write;
}
call-Bounded limit (sets_write t) c n b = record {
  deadline = b.deadline;
  active = b.active;
  read = b.read;
  write = clamp-at_most limit c t b.deadline b.active;
}
call-Bounded limit closes c n b = record {
  deadline = ground (arith, b.deadline);
  active = ground (arith, b.active);
  read = ground (arith, b.read);
  write = ground (arith, b.write);
}
call-Bounded limit clears c n b = cc

run-Bounded :
    (limit : ℕ) (xs : List Call) (c : AuthDeadlineConn)
    → authenticated xs ≡ false
    → Bounded limit c
    → Bounded limit (run xs c)
unfolding run
run-Bounded limit [] c n b = b
run-Bounded limit (clears ∷ xs) c n b = cc
run-Bounded limit (sets t ∷ xs) c n b =
    run-Bounded limit xs (call (sets t) c) n (call-Bounded limit (sets t) c refl b)
run-Bounded limit (sets_read t ∷ xs) c n b =
    run-Bounded limit xs (call (sets_read t) c) n (call-Bounded limit (sets_read t) c refl b)
run-Bounded limit (sets_write t ∷ xs) c n b =
    run-Bounded limit xs (call (sets_write t) c) n (call-Bounded limit (sets_write t) c refl b)
run-Bounded limit (closes ∷ xs) c n b =
    run-Bounded limit xs (call closes c) n (call-Bounded limit closes c refl b)

accept-Bounded : (now lifetime : ℕ) → Bounded (now + lifetime) (accept now lifetime)
unfolding accept set_deadline clamp
accept-Bounded now lifetime = record {
  deadline = refl;
  active = refl;
  read = ground arith;
  write = ground arith;
}

-- Whatever deadlines the server sets on an accepted connection, also the zero ones that mean none, and
-- whether it is closed in between: until the session authenticates, reading and writing both keep a
-- deadline, and neither is later than the lifetime after the connection was accepted.
pub run-accept-Bounded :
    (now lifetime : ℕ) (xs : List Call)
    → authenticated xs ≡ false
    → Bounded (now + lifetime) (run xs (accept now lifetime))
run-accept-Bounded now lifetime xs n =
    run-Bounded (now + lifetime) xs (accept now lifetime) n (accept-Bounded now lifetime)
