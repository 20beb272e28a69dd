-- ===== src/Smtpd/ConnLimit/Tests.antt =====
-- The connection limiter of internal/smtpd/connlimit.go at a concrete run.
use outboxd.Common.{[], ◌∷◌, codes}
use outboxd.Smtpd.ConnLimit.{accepts, closes, run}
use outboxd.Smtpd.ConnLimit.Counts.{Counts, fresh, run-fresh-Counts}

run-fresh-Counts_example : Counts (
    run
      (accepts (codes "192.0.2.1" ∷ codes "192.0.2.1" ∷ codes "192.0.2.7" ∷ [])
        ∷ closes 0
        ∷ closes 0
        ∷ [])
      (fresh 2 1))
run-fresh-Counts_example = run-fresh-Counts 2 1 (
    accepts (codes "192.0.2.1" ∷ codes "192.0.2.1" ∷ codes "192.0.2.7" ∷ [])
    ∷ closes 0
    ∷ closes 0
    ∷ [])
