-- ===== src/Queue/Spool.antt =====
-- internal/queue/spool.go: holds on the physical estimate, its correction, what it reports, and the
-- estimate of an entry. The arithmetic of one reservation is in Capacity.
pub mod Holds
mod Tests
use outboxd.Common.{
  ℕ, ◌==◌, ◌+◌, ◌-◌, ◌/◌, Bool, true, false, ◌&&◌, ◌||◌, Option, none, some, List, [], ◌∷◌, ltb,
  leb, if◌then◌else◌,
}
use outboxd.Common.Result.{Result}
use outboxd.Queue.State.{QueueError, Queue, Limits, max_int, checked_add, minus_to_zero}
use outboxd.Queue.Capacity.{allocation_size, reserve_physical}

unfoldable pub add_physical : ℕ → Queue → Queue
add_physical bytes q = if bytes == 0 then q else record q {
  spool_bytes = elim (checked_add q.spool_bytes bytes) [ none ↦ max_int | some t ↦ t ];
}

unfoldable pub commit_physical : ℕ → Queue → Queue
unfolding add_physical minus_to_zero
commit_physical bytes q =
    add_physical bytes (record q { spool_reserved = minus_to_zero q.spool_reserved bytes })

unfoldable pub remove_physical : ℕ → Queue → Queue
remove_physical bytes q =
    if bytes == 0
    then q
    else record q { spool_bytes = if leb q.spool_bytes bytes then 0 else q.spool_bytes - bytes }

-- holdPhysical; its result is the state, and the returned function is release_hold.
unfoldable pub hold_physical :
    Option (Result QueueError ℕ) → ℕ → Bool → Queue → Result QueueError Queue
hold_physical free bytes terminal q = reserve_physical free bytes true terminal q

unfoldable pub release_hold : ℕ → Bool → Queue → Queue
release_hold bytes commit q =
    if commit
    then commit_physical bytes q
    else if ltb q.spool_reserved bytes
    then record q { spool_reserved = 0 }
    else record q { spool_reserved = q.spool_reserved - bytes }

unfoldable pub adjust_physical_delta : ℕ → ℕ → Queue → Queue
adjust_physical_delta before after q =
    if leb before after
    then add_physical (after - before) q
    else if leb q.spool_bytes (before - after)
    then record q { spool_bytes = 0 }
    else record q { spool_bytes = q.spool_bytes - (before - after) }

pub record PhysicalStats : Type 0 where
  pub used : ℕ
  pub reserved : ℕ
  pub limit : ℕ
  pub emergency : ℕ
  pub high_water : Bool

abbrev or_max : Option ℕ → ℕ
or_max none = max_int
or_max (some n) = n

-- SpoolStats, of a queue in operation. Where the headroom is larger than the limit, the source's
-- difference is negative and every total reaches it.
unfoldable pub spool_stats : Queue → PhysicalStats
spool_stats q =
    let total = or_max (checked_add q.spool_bytes q.spool_reserved) in
    let limit = q.limits.max_spool_bytes in
    record {
      used = q.spool_bytes;
      reserved = q.spool_reserved;
      limit = limit;
      emergency = q.limits.spool_emergency_bytes;
      high_water =
          ltb 0 limit
          && (leb (limit - q.limits.spool_emergency_bytes) total || leb (limit - limit / 10) total);
    }

-- The loop that adds the parts, or the largest integer.
unfoldable pub add_parts : ℕ → List ℕ → ℕ
add_parts total [] = total
add_parts total (part ∷ parts) = elim (checked_add total part) [
  | none ↦ max_int
  | some t ↦ add_parts t parts
]

-- The length of addAccepted, the marker of an accepted entry in layout.go.
abbrev pub add_accepted_length : ℕ
add_accepted_length = 24

unfoldable pub estimate_persistent : ℕ → ℕ → ℕ
unfolding add_parts
estimate_persistent body_size metadata_size = add_parts 0 (
    allocation_size 0
    ∷ allocation_size body_size
    ∷ allocation_size metadata_size
    ∷ allocation_size add_accepted_length
    ∷ [])

unfoldable pub estimate_entry : ℕ → ℕ → ℕ
unfolding add_parts
estimate_entry body_size metadata_size =
    add_parts 0 (estimate_persistent body_size metadata_size ∷ allocation_size 0 ∷ [])
