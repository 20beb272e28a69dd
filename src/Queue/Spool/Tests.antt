-- ===== src/Queue/Spool/Tests.antt =====
-- A hold of internal/queue/spool.go on an empty queue.
use outboxd.Common.{◌≡◌, refl, ◌+◌, true, false, none, arith}
use outboxd.Common.Result.{ok}
use outboxd.Queue.State.{Queue, checked_add}
use outboxd.Queue.Samples.{empty}
use outboxd.Queue.Capacity.{
  allocation_size, terminal_spool_reserve, within_spool, spool_limit, within_disk, disk_floor,
  reserve_physical,
}
use outboxd.Queue.Spool.{hold_physical, release_hold}
use outboxd.Queue.Spool.Holds.{release_hold-hold_physical}

abbrev holding : Queue
holding = record empty { spool_reserved = 4096 }

granted : hold_physical none 4096 true empty ≡ ok holding
unfolding hold_physical reserve_physical within_spool spool_limit within_disk disk_floor checked_add
    terminal_spool_reserve allocation_size
granted = refl

release_hold-hold_physical_example :
    (holding.spool_reserved ≡ empty.spool_reserved + 4096)
    × ((release_hold 4096 false holding).spool_reserved ≡ empty.spool_reserved)
    × ((release_hold 4096 false holding).spool_bytes ≡ empty.spool_bytes)
    × ((release_hold 4096 true holding).spool_reserved ≡ empty.spool_reserved)
    × ((release_hold 4096 true holding).spool_bytes ≡ empty.spool_bytes + 4096)
release_hold-hold_physical_example =
    release_hold-hold_physical none 4096 true empty holding (omega arith) granted
