-- ===== src/Queue/State.antt =====
-- internal/queue/queue.go, errors.go and capacity.go: the state of a queue that its mutex guards, and
-- the errors. Counters are natural numbers; the largest int and int64 is `max_int`.
use outboxd.Common.{
  ℕ, ◌+◌, ◌-◌, ◌^◌, Bool, ◌&&◌, Bytes, Option, none, some, List, ltb, if◌then◌else◌,
}
use outboxd.Common.Map.{Map}
use outboxd.Queue.Envelope.{Envelope}
use outboxd.Queue.Schedule.{Schedule}

pub data QueueError : Type 0 where
  queue_full insufficient_disk spool_full invalid_id read_only queue_busy queue_closed : QueueError
  id_conflict cleanup corrupt acceptance_unknown nil_envelope : QueueError
  -- An error of the operating system, by its number.
  system : ℕ → QueueError

-- Zero means unlimited.
pub record Limits : Type 0 where
  pub max_messages : ℕ
  pub max_bytes : ℕ
  pub max_messages_per_user : ℕ
  pub max_bytes_per_user : ℕ
  pub max_spool_bytes : ℕ
  pub spool_emergency_bytes : ℕ
  pub min_free_disk : ℕ

pub record AccountedEntry : Type 0 where
  pub size : ℕ
  pub owner : Bytes
  pub incarnation : Bytes
  pub revision : ℕ

pub record UserUsage : Type 0 where
  pub messages : ℕ
  pub bytes : ℕ
  pub reserved : ℕ
  pub res_bytes : ℕ

abbrev pub no_usage : UserUsage
no_usage = record { messages = 0; bytes = 0; reserved = 0; res_bytes = 0 }

pub record Queue : Type 0 where
  pub limits : Limits
  pub count : ℕ
  pub bytes : ℕ
  pub accounted : Map AccountedEntry
  pub scheduled : Map Envelope
  pub transitioning : Map (Unit {0})
  pub requeues : Map (List Envelope)
  pub reserved : ℕ
  pub res_bytes : ℕ
  pub users : Map UserUsage
  pub spool_bytes : ℕ
  pub spool_reserved : ℕ
  pub blocked : Map (Unit {0})
  pub pending : Schedule
  pub closing : Bool
  -- The operations that have begun and not ended.
  pub active : ℕ

abbrev pub max_int : ℕ
max_int = 2 ^ 63 - 1

-- checkedAddInt and checkedAddInt64, on operands that are not negative.
unfoldable pub checked_add : ℕ → ℕ → Option ℕ
checked_add a b = if ltb 0 b && ltb (max_int - b) a then none else some (a + b)

-- `m[k]` of users, whose zero value is no usage.
abbrev pub or_no_usage : Option UserUsage → UserUsage
or_no_usage none = no_usage
or_no_usage (some u) = u

-- `x -= n`, stopping at 0 by the source's own test.
unfoldable pub minus_to_zero : ℕ → ℕ → ℕ
minus_to_zero x n = if ltb x n then 0 else x - n
