-- ===== src/Deliver/Selection/Tests.antt =====
-- The groups of an attempt of internal/deliver/attempt.go for a concrete envelope.
use outboxd.Common.{◌≡◌, codes, get_elem?}
use outboxd.Deliver.Samples.{two, letter}
use outboxd.Deliver.Selection.{plan}
use outboxd.Deliver.Selection.Plan.{times_in, belongs, plan-times}

plan-times_example :
    times_in (record { domain = codes "b.org"; body = 0 }) 1 (plan (codes "b.org") letter)
    ≡ belongs (record { domain = codes "b.org"; body = 0 }) (get_elem? two 1)
plan-times_example =
    plan-times (codes "b.org") letter (record { domain = codes "b.org"; body = 0 }) 1
