-- ===== src/Queue/Transitions/Waiting.antt =====
-- A requeue that meets a transition of its message is not lost: internal/queue/delivery.go keeps it, and
-- internal/queue/transitions.go schedules it when the transition ends.
use outboxd.Common.{◌≡◌, refl, true, false, none, some, [], ◌∷◌, arith, str_eq_refl}
use outboxd.Common.Map.{get, insert, get-insert}
use outboxd.Queue.Envelope.{Envelope}
use outboxd.Queue.State.{Queue}
use outboxd.Queue.Transitions.{
  begin_operation, end_operation, is_accounted, schedule_locked, schedule_any, end_one,
  end_transitions, same_version, requeue_locked, requeue,
}

-- The message is in transition, its version is the accounted one, it is neither blocked nor scheduled,
-- and no other requeue waits.
pub record Waits (e : Envelope) (q : Queue) : Type 0 where
  pub open_queue : q.closing ≡ false
  pub transitioning : get e.id q.transitioning ≡ some tt
  pub accounted : is_accounted e (get e.id q.accounted) ≡ true
  pub unblocked : get e.id q.blocked ≡ none
  pub unscheduled : get e.id q.scheduled ≡ none
  pub alone : get e.id q.requeues ≡ none

kept : Envelope → Queue → Queue
kept e q = record q { requeues = insert e.id (e ∷ []) q.requeues }

requeue-kept : (e : Envelope) (q : Queue) → Waits e q → requeue e q ≡ (kept e q, false)
unfolding requeue begin_operation end_operation requeue_locked same_version kept
requeue-kept e q w = ground arith

-- The state after the transition ends.
end_one-kept :
    (e : Envelope) (q : Queue)
    → Waits e q
    → (get e.id (end_one e.id (kept e q)).0.scheduled ≡ some e)
      × ((end_one e.id (kept e q)).1 ≡ true)
unfolding end_one kept schedule_any schedule_locked
end_one-kept e q w =
    let got = get-insert e.id e.id (e ∷ []) q.requeues in
    let put = get-insert e.id e.id e q.scheduled in
    (ground (arith, got, put, str_eq_refl e.id), ground (arith, got, put, str_eq_refl e.id))

-- In a queue that is not closing, an envelope in its accounted version, neither blocked nor
-- scheduled, that is requeued while its message is in transition and no other requeue of it waits,
-- stays out of the schedule until the transition ends; then it is scheduled, and the end tells to
-- signal.
pub end_transitions-requeue :
    (e : Envelope) (q : Queue)
    → Waits e q
    → let waiting = (requeue e q).0 in
      (waiting.scheduled ≡ q.scheduled)
      × (get e.id (end_transitions (e.id ∷ []) waiting).0.scheduled ≡ some e)
      × ((end_transitions (e.id ∷ []) waiting).1 ≡ true)
unfolding end_transitions kept
end_transitions-requeue e q w =
    rw (requeue-kept e q w) (refl, (end_one-kept e q w).0, rw (end_one-kept e q w).1 refl)
