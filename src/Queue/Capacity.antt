-- ===== src/Queue/Capacity.antt =====
-- internal/queue/capacity.go and spool.go: admission against the quotas, and the accounting of what
-- is stored. FreeDisk's answer is an argument: `none` where no such function is set.
-- disk.AllocationSize is internal/disk/disk.go.

pub mod Admission
pub mod Effects
pub mod Accounting
pub mod Steps
mod Tests
use outboxd.Common.{
  ℕ, ◌+◌, ◌-◌, ◌*◌, ◌/◌, ◌^◌, Bool, true, false, ◌&&◌, ◌||◌, not, Bytes, Option, none, some, List,
  [], ◌∷◌, leb, ltb, ◌==◌, str_eq, if◌then◌else◌,
}
use outboxd.Common.Map.{Map, get, insert, remove}
use outboxd.Common.Result.{Result, ok, err, ◌>>=◌, ◌>>◌, reject_if}
use outboxd.Queue.Envelope.{Envelope}
use outboxd.Queue.State.{
  QueueError, queue_full, spool_full, insufficient_disk, Queue, Limits, AccountedEntry, UserUsage,
  max_int, checked_add, or_no_usage, minus_to_zero,
}

abbrev pub allocation_unit : ℕ
allocation_unit = 64 * 2 ^ 10

unfoldable pub allocation_size : ℕ → ℕ
allocation_size size =
    if size == 0
    then allocation_unit
    else if ltb (max_int - (allocation_unit - 1)) size
    then max_int
    else (size + allocation_unit - 1) / allocation_unit * allocation_unit

-- maxEnvelopeMetadata is 4 << 20.
unfoldable pub terminal_spool_reserve : ℕ
unfolding allocation_size
terminal_spool_reserve = allocation_size (4 * 2 ^ 20 + allocation_size 0) + allocation_size 0

abbrev or_fail : Option ℕ → QueueError → Result QueueError ℕ
or_fail none e = err e
or_fail (some n) e = ok n

-- `limit` and `floor` of reservePhysicalLocked. `none` stands for a limit below zero.
unfoldable pub spool_limit : Limits → Bool → Bool → Option ℕ
unfolding terminal_spool_reserve
spool_limit limits emergency terminal =
    let margin =
      (if not emergency
        then limits.spool_emergency_bytes
        else if not terminal
        then terminal_spool_reserve
        else 0) in
    if ltb limits.max_spool_bytes margin then none else some (limits.max_spool_bytes - margin)

unfoldable pub within_spool : Limits → Bool → Bool → ℕ → Result QueueError (Unit {0})
unfolding spool_limit
within_spool limits emergency terminal total =
    if ltb 0 limits.max_spool_bytes
    then (elim (spool_limit limits emergency terminal) [
      | none ↦ err spool_full
      | some limit ↦ reject_if (ltb limit total) spool_full
    ])
    else ok tt

unfoldable pub disk_floor : Limits → Bool → Bool → Result QueueError ℕ
unfolding terminal_spool_reserve
disk_floor limits emergency terminal =
    if not emergency
    then or_fail (checked_add limits.min_free_disk limits.spool_emergency_bytes) insufficient_disk
    else if not terminal
    then or_fail (checked_add limits.min_free_disk terminal_spool_reserve) insufficient_disk
    else ok limits.min_free_disk

unfoldable pub within_disk :
    Limits → Option (Result QueueError ℕ) → Bool → Bool → ℕ → Result QueueError (Unit {0})
unfolding disk_floor
within_disk limits none emergency terminal held = ok tt
within_disk limits (some answer) emergency terminal held =
    if ltb 0 limits.min_free_disk
    then (do
      free ← answer
      floor ← disk_floor limits emergency terminal
      reject_if (ltb free floor || ltb (free - floor) held) insufficient_disk)
    else ok tt

unfoldable pub reserve_physical :
    Option (Result QueueError ℕ) → ℕ → Bool → Bool → Queue → Result QueueError Queue
unfolding within_spool within_disk
reserve_physical free physical emergency terminal q = do
  held ← or_fail (checked_add q.spool_reserved physical) spool_full
  total ← or_fail (checked_add q.spool_bytes held) spool_full
  within_spool q.limits emergency terminal total
  within_disk q.limits free emergency terminal held
  ok (record q { spool_reserved = held })

-- The checks of reserveLocked that `exempt` skips.
unfoldable pub within_quotas : Queue → Bytes → ℕ → ℕ → ℕ → Result QueueError (Unit {0})
within_quotas q owner size used total_bytes = do
  reject_if (ltb 0 q.limits.max_messages && leb q.limits.max_messages used) queue_full
  reject_if (ltb 0 q.limits.max_bytes && ltb q.limits.max_bytes total_bytes) queue_full
  let usage = or_no_usage (get owner q.users)
  messages ← or_fail (checked_add usage.messages usage.reserved) queue_full
  reject_if (ltb 0 q.limits.max_messages_per_user && leb q.limits.max_messages_per_user messages)
      queue_full
  stored ← or_fail (checked_add usage.bytes usage.res_bytes) queue_full
  bytes ← or_fail (checked_add stored size) queue_full
  reject_if (ltb 0 q.limits.max_bytes_per_user && ltb q.limits.max_bytes_per_user bytes) queue_full

unfoldable pub add_reservation : UserUsage → ℕ → UserUsage
add_reservation usage size = record usage {
  reserved = usage.reserved + 1;
  res_bytes = usage.res_bytes + size;
}

unfoldable pub reserve :
    Option (Result QueueError ℕ) → ℕ → ℕ → Bool → Bool → Bytes → Queue → Result QueueError Queue
reserve free size physical exempt emergency owner q = do
  used ← or_fail (checked_add q.count q.reserved) queue_full
  reject_if (used == max_int) queue_full
  used_bytes ← or_fail (checked_add q.bytes q.res_bytes) queue_full
  total_bytes ← or_fail (checked_add used_bytes size) queue_full
  reserved_bytes ← or_fail (checked_add q.res_bytes size) queue_full
  if exempt then ok tt else within_quotas q owner size used total_bytes
  held ← reserve_physical free physical emergency false q
  let admitted = record held { reserved = held.reserved + 1; res_bytes = reserved_bytes }
  if exempt
      then ok admitted
      else ok (record admitted {
        users = insert owner (add_reservation (or_no_usage (get owner q.users)) size) q.users;
      })

unfoldable pub drop_reservation : UserUsage → ℕ → UserUsage
drop_reservation usage size = record usage {
  reserved = usage.reserved - 1;
  res_bytes = if leb usage.res_bytes size then 0 else usage.res_bytes - size;
}

unfoldable pub release_reserve : ℕ → ℕ → Bytes → Queue → Queue
unfolding drop_reservation minus_to_zero
release_reserve size physical owner q =
    let released = record q {
      reserved = q.reserved - 1;
      res_bytes = minus_to_zero q.res_bytes size;
      spool_reserved = minus_to_zero q.spool_reserved physical;
    } in
    if str_eq owner [] then released else record released {
      users = insert owner (drop_reservation (or_no_usage (get owner q.users)) size) q.users;
    }

unfoldable pub quota_owner : Envelope → Bytes
quota_owner e = if str_eq e.dsn_source_id [] then e.username else []

unfoldable pub accounted_entry : Envelope → AccountedEntry
unfolding quota_owner
accounted_entry e = record {
  size = e.size;
  owner = quota_owner e;
  incarnation = e.incarnation;
  revision = e.revision;
}

unfoldable pub add_message : UserUsage → ℕ → UserUsage
add_message usage size = record usage { messages = usage.messages + 1; bytes = usage.bytes + size }

abbrev add_usage : Bytes → ℕ → Map UserUsage → Map UserUsage
add_usage owner size users =
    if str_eq owner []
    then users
    else insert owner (add_message (or_no_usage (get owner users)) size) users

note_fresh : Option ℕ → Envelope → Queue → Queue × Bool
note_fresh none e q = (q, false)
note_fresh (some bytes) e q = if q.count == max_int then (q, false) else (
  record q {
    accounted = insert e.id (accounted_entry e) q.accounted;
    count = q.count + 1;
    bytes = bytes;
    users = add_usage (quota_owner e) e.size q.users;
  },
  true,
)

note_added_found : Option AccountedEntry → Envelope → Queue → Queue × Bool
note_added_found (some _) e q = (q, true)
note_added_found none e q = note_fresh (checked_add q.bytes e.size) e q

unfoldable pub note_added : Envelope → Queue → Queue × Bool
unfolding note_added_found note_fresh add_message accounted_entry
note_added e q = note_added_found (get e.id q.accounted) e q

unfoldable pub drop_message : UserUsage → ℕ → UserUsage
drop_message usage size = record usage { messages = usage.messages - 1; bytes = usage.bytes - size }

abbrev drop_usage : Bytes → ℕ → Map UserUsage → Map UserUsage
drop_usage owner size users =
    if str_eq owner []
    then users
    else (let usage = drop_message (or_no_usage (get owner users)) size in
        if usage.messages == 0 && usage.reserved == 0
        then remove owner users
        else insert owner usage users)

note_removed_found : Option AccountedEntry → Bytes → Queue → Queue
note_removed_found none id q = q
note_removed_found (some entry) id q = record q {
  accounted = remove id q.accounted;
  scheduled = remove id q.scheduled;
  requeues = remove id q.requeues;
  count = q.count - 1;
  bytes = q.bytes - entry.size;
  users = drop_usage entry.owner entry.size q.users;
}

unfoldable pub note_removed : Bytes → Queue → Queue
unfolding note_removed_found drop_message
note_removed id q = note_removed_found (get id q.accounted) id q
