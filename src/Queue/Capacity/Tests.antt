-- ===== src/Queue/Capacity/Tests.antt =====
-- Admission and accounting of internal/queue/capacity.go and spool.go at concrete queues.
use outboxd.Common.{◌≡◌, refl, str_eq, false, none, List, [], ◌∷◌, codes, arith}
use outboxd.Common.Map.{get, total, insert}
use outboxd.Common.Result.{ok}
use outboxd.Queue.State.{Queue, checked_add}
use outboxd.Queue.Samples.{letter, empty}
use outboxd.Queue.Capacity.{
  allocation_size, terminal_spool_reserve, spool_limit, within_spool, disk_floor, within_disk,
  within_quotas, add_reservation, reserve, reserve_physical,
}
use outboxd.Queue.Capacity.Admission.{InQuota, reserve-InQuota}
use outboxd.Queue.Capacity.Accounting.{Accounts}
use outboxd.Queue.Capacity.Steps.{Change, added, removed, released, changes, changes-Accounts}

empty-Accounts : Accounts empty
unfolding get total
empty-Accounts = record {
  distinct = tt;
  count = refl;
  bytes = refl;
  user_messages = λ owner n. refl;
  user_bytes = λ owner n. refl;
}

abbrev one_message : List Change
one_message = added letter ∷ released 700 4096 (codes "alice") ∷ removed (codes "m1") ∷ []

changes-Accounts_example : Accounts (changes one_message empty)
changes-Accounts_example = changes-Accounts one_message empty empty-Accounts

-- The queue with the reservation of one message.
abbrev reserved : Queue
reserved = record empty {
  reserved = 1;
  res_bytes = 700;
  spool_reserved = 4096;
  users = (codes "alice", record { messages = 0; bytes = 0; reserved = 1; res_bytes = 700 }) ∷ [];
}

granted : reserve none 700 4096 false false (codes "alice") empty ≡ ok reserved
unfolding reserve reserve_physical within_spool spool_limit within_disk disk_floor within_quotas
    add_reservation checked_add get insert terminal_spool_reserve allocation_size str_eq
granted = refl

reserve-InQuota_example : InQuota (codes "alice") reserved
reserve-InQuota_example =
    reserve-InQuota none 700 4096 false (codes "alice") empty reserved granted (omega arith)
      (omega arith) (omega arith)

held : reserve_physical none 4096 false false empty ≡ ok (record empty { spool_reserved = 4096 })
unfolding reserve_physical within_spool spool_limit within_disk disk_floor checked_add
    terminal_spool_reserve allocation_size
held = refl
