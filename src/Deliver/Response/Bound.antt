-- ===== src/Deliver/Response/Bound.antt =====
-- How much of one reply internal/deliver/response.go reads.
use outboxd.Common.{ℕ, ◌+◌, ◌≤◌, ◌≡◌, refl, min, List, [], ◌∷◌, arith, ltb, ◌==◌}
use outboxd.Deliver.Response.{
  BoundedResponseConn, Arrival, max_smtp_response_bytes, max_response_read, reset, exceeded_limit,
  read,
}

-- A read: the size of the buffer, and the connection below.
abbrev pub Read : Type 0
Read = ℕ × (ℕ → Arrival)

-- A connection returns no more bytes than it is asked for.
abbrev pub AllHonest : List Read → Type 0
AllHonest [] = Unit
AllHonest ((size, conn) ∷ rs) = ((limit : ℕ) → (conn limit).bytes ≤ limit) × AllHonest rs

-- The state after the reads, and the bytes that they return together.
unfoldable pub read_all : List Read → BoundedResponseConn → BoundedResponseConn × ℕ
read_all [] c = (c, 0)
read_all ((size, conn) ∷ rs) c =
    let (c', n, e) = read size conn c in let (final, more) = read_all rs c' in (final, n + more)

module _ (size : ℕ) (conn : ℕ → Arrival) (c : BoundedResponseConn)
    (honest : (conn (min size (min c.remaining max_response_read))).bytes
      ≤ min size (min c.remaining max_response_read)) where
  read-remaining : (read size conn c).0.remaining + (read size conn c).1 ≡ c.remaining
  unfolding read
  read-remaining = ground arith

  read-exceeded :
      c.exceeded ≡ (c.remaining == 0)
      → (read size conn c).0.exceeded ≡ ((read size conn c).0.remaining == 0)
  unfolding read
  read-exceeded h = ground arith

read_all-bound :
    (rs : List Read) (c : BoundedResponseConn)
    → AllHonest rs
    → c.exceeded ≡ (c.remaining == 0)
    → ((read_all rs c).0.remaining + (read_all rs c).1 ≡ c.remaining)
      × ((read_all rs c).0.exceeded ≡ ((read_all rs c).0.remaining == 0))
unfolding read_all
read_all-bound [] c h x = (omega arith, x)
read_all-bound ((size, conn) ∷ rs) c h x =
    let honest = h.0 (min size (min c.remaining max_response_read)) in
    let (sum, flag) =
      read_all-bound rs (read size conn c).0 h.1 (read-exceeded size conn c honest x) in
    (omega (arith, sum, read-remaining size conn c honest), flag)

-- The reads of one reply after a reset, over a connection that returns no more than it is asked for,
-- return together at most one byte more than the largest reply, and the limit counts as exceeded exactly
-- where they return that byte: a reply of exactly the largest size is not refused.
pub read_all-reset :
    (rs : List Read) (c : BoundedResponseConn)
    → AllHonest rs
    → ((read_all rs (reset c)).1 ≤ max_smtp_response_bytes + 1)
      × (exceeded_limit (read_all rs (reset c)).0
          ≡ ltb max_smtp_response_bytes (read_all rs (reset c)).1)
unfolding reset exceeded_limit
read_all-reset rs c h =
    let (sum, flag) = read_all-bound rs (reset c) h refl in
    (omega (arith, sum), ground (arith, sum, flag))
