-- ===== src/Deliver/Response/Tests.antt =====
-- The bound on a reply of internal/deliver/response.go at concrete reads.
use outboxd.Common.{ℕ, ◌≡◌, ◌≤◌, ◌+◌, ltb, false, [], ◌∷◌, arith, min}
use outboxd.Deliver.Response.{
  BoundedResponseConn, Arrival, max_smtp_response_bytes, reset, exceeded_limit,
}
use outboxd.Deliver.Response.Bound.{read_all, read_all-reset}

abbrev fast : ℕ → Arrival
fast limit = record { bytes = limit; fails = false }

abbrev slow : ℕ → Arrival
slow limit = record { bytes = min limit 3; fails = false }

abbrev used : BoundedResponseConn
used = record { remaining = 17; exceeded = false }

read_all-reset_example :
    ((read_all ((4096, fast) ∷ (4096, slow) ∷ []) (reset used)).1 ≤ max_smtp_response_bytes + 1)
    × (exceeded_limit (read_all ((4096, fast) ∷ (4096, slow) ∷ []) (reset used)).0
        ≡ ltb max_smtp_response_bytes (read_all ((4096, fast) ∷ (4096, slow) ∷ []) (reset used)).1)
read_all-reset_example =
    read_all-reset ((4096, fast) ∷ (4096, slow) ∷ []) used
      ((λ limit. omega arith), ((λ limit. omega arith), tt))
