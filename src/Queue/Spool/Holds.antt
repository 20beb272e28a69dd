-- ===== src/Queue/Spool/Holds.antt =====
-- A hold of internal/queue/spool.go and the two ways to end it.
use outboxd.Common.{ℕ, ◌+◌, ◌≤◌, ◌≡◌, refl, ◌⊎◌, Bool, true, false, Option, arith}
use outboxd.Common.Result.{Result, ok}
use outboxd.Queue.State.{QueueError, Queue, max_int, checked_add, minus_to_zero}
use outboxd.Queue.Capacity.Admission.{reserve_physical-eq, reserve_physical-fits}
use outboxd.Queue.Spool.{add_physical, commit_physical, hold_physical, release_hold}

module _ (bytes : ℕ) (q : Queue) where
  abbrev held : Queue
  held = record q { spool_reserved = q.spool_reserved + bytes }

  given_back :
      ((release_hold bytes false held).spool_reserved ≡ q.spool_reserved)
      × ((release_hold bytes false held).spool_bytes ≡ q.spool_bytes)
  unfolding release_hold
  given_back = (ground arith, ground arith)

  committed_reserved : (release_hold bytes true held).spool_reserved ≡ q.spool_reserved
  unfolding release_hold commit_physical add_physical minus_to_zero
  committed_reserved = ground arith

  committed_bytes :
      (bytes ≡ 0) ⊎ (q.spool_bytes + bytes ≤ max_int)
      → (release_hold bytes true held).spool_bytes ≡ q.spool_bytes + bytes
  unfolding release_hold commit_physical add_physical checked_add
  committed_bytes h = ground arith

-- A granted hold on a number of bytes that an int64 holds sets them aside; ended without a commit
-- it leaves both counters as they were, and ended with one it has moved the bytes into the estimate
-- of what is stored, without wrapping around.
pub release_hold-hold_physical :
    (free : Option (Result QueueError ℕ)) (bytes : ℕ) (terminal : Bool) (q r : Queue)
    → bytes ≤ max_int
    → hold_physical free bytes terminal q ≡ ok r
    → (r.spool_reserved ≡ q.spool_reserved + bytes)
      × ((release_hold bytes false r).spool_reserved ≡ q.spool_reserved)
      × ((release_hold bytes false r).spool_bytes ≡ q.spool_bytes)
      × ((release_hold bytes true r).spool_reserved ≡ q.spool_reserved)
      × ((release_hold bytes true r).spool_bytes ≡ q.spool_bytes + bytes)
unfolding hold_physical
release_hold-hold_physical free bytes terminal q r b h =
    let e = reserve_physical-eq free bytes true terminal q r h in
    let (reserved, stored) = given_back bytes q in
    rw e (
      refl,
      reserved,
      stored,
      committed_reserved bytes q,
      committed_bytes bytes q (reserve_physical-fits free bytes true terminal q r b h),
    )
