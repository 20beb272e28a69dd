-- ===== src/Queue/Transitions/Tests.antt =====
-- Transitions and requeues of internal/queue at a concrete queue.
use outboxd.Common.{◌≡◌, refl, true, some, [], ◌∷◌, codes, str_eq}
use outboxd.Common.Map.{get}
use outboxd.Queue.State.{Queue}
use outboxd.Queue.Samples.{letter, empty}
use outboxd.Queue.Transitions.{requeue, end_transitions, is_accounted}
use outboxd.Queue.Transitions.Current.{
  Current, begins, ends, requeues, adds_entry, removes_entry, run, run-Current,
}
use outboxd.Queue.Transitions.Waiting.{Waits, end_transitions-requeue}

empty-Current : Current empty
unfolding Current get
empty-Current id = tt

run-Current_example : Current (
    run
      (adds_entry letter
        ∷ begins (codes "m1" ∷ [])
        ∷ requeues letter
        ∷ ends (codes "m1" ∷ [])
        ∷ removes_entry (codes "m1")
        ∷ [])
      empty)
run-Current_example =
    run-Current
      (adds_entry letter
        ∷ begins (codes "m1" ∷ [])
        ∷ requeues letter
        ∷ ends (codes "m1" ∷ [])
        ∷ removes_entry (codes "m1")
        ∷ [])
      empty empty-Current

abbrev retrying : Queue
retrying = record empty {
  accounted =
      (
        codes "m1",
        record { size = 700; owner = codes "alice"; incarnation = codes "i1"; revision = 1 },
      )
      ∷ [];
  transitioning = (codes "m1", tt) ∷ [];
  count = 1;
  bytes = 700;
}

letter-Waits : Waits letter retrying
unfolding get is_accounted str_eq
letter-Waits = record {
  open_queue = refl;
  transitioning = refl;
  accounted = refl;
  unblocked = refl;
  unscheduled = refl;
  alone = refl;
}

end_transitions-requeue_example :
    let waiting = (requeue letter retrying).0 in
    (waiting.scheduled ≡ retrying.scheduled)
    × (get (codes "m1") (end_transitions (codes "m1" ∷ []) waiting).0.scheduled ≡ some letter)
    × ((end_transitions (codes "m1" ∷ []) waiting).1 ≡ true)
end_transitions-requeue_example = end_transitions-requeue letter retrying letter-Waits
