-- ===== src/Smtpd/Tracker/Tests.antt =====
-- A shutdown of internal/smtpd/connlimit.go while a connection comes in.
use outboxd.Common.{◌≡◌, refl, false, [], ◌∷◌}
use outboxd.Smtpd.Tracker.{
  new_connection_tracker, accept_tracked, close_tracked, snapshot, begin_close_all, close_next,
}
use outboxd.Smtpd.Tracker.Shutdown.{
  accepts, begins_close_all, closes_next, step, run, run-new_connection_tracker,
}

run-new_connection_tracker_example :
    (run
        (accepts ∷ begins_close_all ∷ accepts ∷ closes_next ∷ closes_next ∷ [])
        new_connection_tracker).opened
      1
    ≡ false
unfolding run step accept_tracked close_tracked snapshot begin_close_all close_next
run-new_connection_tracker_example =
    run-new_connection_tracker
      (accepts ∷ begins_close_all ∷ accepts ∷ closes_next ∷ closes_next ∷ []) 1 refl refl
