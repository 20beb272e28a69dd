-- ===== src/Smtpd/AuthDeadline/Tests.antt =====
-- The deadlines of internal/smtpd/authdeadline.go at a concrete run.
use outboxd.Common.{refl, none, some, [], ◌∷◌}
use outboxd.Smtpd.AuthDeadline.{accept}
use outboxd.Smtpd.AuthDeadline.Clamped.{
  Bounded, sets, sets_read, sets_write, run, run-accept-Bounded,
}

run-accept-Bounded_example :
    Bounded 130
      (run (sets none ∷ sets_read (some 500) ∷ sets_write (some 110) ∷ []) (accept 100 30))
run-accept-Bounded_example =
    run-accept-Bounded 100 30 (sets none ∷ sets_read (some 500) ∷ sets_write (some 110) ∷ []) refl
