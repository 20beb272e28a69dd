-- ===== src/Queue/Transitions.antt =====
-- internal/queue: transitions.go, scheduleLocked of schedule.go, beginOperation and endOperation of
-- queue.go, and Requeue and RequeueAfter of delivery.go. A function that holds the mutex throughout is
-- one step; the flag beside a new state tells that the source calls q.signal. An envelope is a value
-- here, so cloneEnvelope leaves no trace.
pub mod Current
pub mod Waiting
mod Tests
use outboxd.Common.{
  ℕ, ◌+◌, ◌-◌, Bool, true, false, not, ◌&&◌, ◌||◌, Bytes, Option, none, some, List, [], ◌∷◌, ◌++◌,
  ◌==◌, if◌then◌else◌, str_eq,
}
use outboxd.Common.Map.{Map, get, insert, remove}
use outboxd.Common.Result.{Result, ok, err}
use outboxd.Queue.Envelope.{Envelope}
use outboxd.Queue.State.{QueueError, queue_busy, queue_closed, AccountedEntry, Queue}
use outboxd.Queue.Schedule.{push, remove_envelope}

abbrev pub is_some {ℓ} : {A : Type ℓ} → Option A → Bool
is_some none = false
is_some (some x) = true

unfoldable pub begin_operation : Queue → Result QueueError Queue
begin_operation q = if q.closing then err queue_closed else ok (record q { active = q.active + 1 })

unfoldable pub end_operation : Queue → Queue
end_operation q = record q { active = q.active - 1 }

unfoldable pub any_transitioning : List Bytes → Queue → Bool
any_transitioning [] q = false
any_transitioning (id ∷ ids) q =
    if is_some (get id q.transitioning) then true else any_transitioning ids q

unfoldable pub mark_transitioning : List Bytes → Queue → Queue
mark_transitioning [] q = q
mark_transitioning (id ∷ ids) q =
    mark_transitioning ids (record q { transitioning = insert id tt q.transitioning })

unfoldable pub begin_transitions : List Bytes → Queue → Result QueueError Queue
unfolding any_transitioning mark_transitioning
begin_transitions ids q =
    if any_transitioning ids q then err queue_busy else ok (mark_transitioning ids q)

unfoldable pub is_accounted : Envelope → Option AccountedEntry → Bool
is_accounted e none = false
is_accounted e (some a) = str_eq a.incarnation e.incarnation && a.revision == e.revision

unfoldable pub schedule_locked : Envelope → Queue → Queue × Bool
unfolding is_accounted
schedule_locked e q =
    if is_some (get e.id q.blocked)
    then (q, false)
    else if not (is_accounted e (get e.id q.accounted))
    then (q, false)
    else if is_some (get e.id q.scheduled)
    then (q, false)
    else (record q { pending = push e q.pending; scheduled = insert e.id e q.scheduled }, true)

-- slices.ContainsFunc(envelopes, q.scheduleLocked), which ends with the first success.
unfoldable pub schedule_any : List Envelope → Queue → Queue × Bool
schedule_any [] q = (q, false)
schedule_any (e ∷ es) q =
    let (q', added) = schedule_locked e q in
    let later = schedule_any es q' in if added then (q', true) else later

abbrev pub or_nil : Option (List Envelope) → List Envelope
or_nil none = []
or_nil (some es) = es

-- The loop body of endTransitions.
unfoldable pub end_one : Bytes → Queue → Queue × Bool
end_one id q =
    let (q', added) =
      schedule_any (or_nil (get id q.requeues))
        (record q { transitioning = remove id q.transitioning }) in
    (record q' { requeues = remove id q'.requeues }, added)

unfoldable pub end_transitions : List Bytes → Queue → Queue × Bool
end_transitions [] q = (q, false)
end_transitions (id ∷ ids) q =
    let (q', added) = end_one id q in
    let (q'', more) = end_transitions ids q' in (q'', added || more)

unfoldable pub same_version : Envelope → List Envelope → Bool
same_version e [] = false
same_version e (f ∷ fs) =
    if str_eq f.incarnation e.incarnation && f.revision == e.revision
    then true
    else same_version e fs

-- The part of Requeue that holds the mutex.
unfoldable pub requeue_locked : Envelope → Queue → Queue × Bool
unfolding same_version
requeue_locked e q =
    if is_some (get e.id q.transitioning)
    then (
      (if same_version e (or_nil (get e.id q.requeues)) then q else record q {
        requeues = insert e.id (or_nil (get e.id q.requeues) ++ e ∷ []) q.requeues;
      }),
      false,
    )
    else schedule_locked e q

abbrev pub during_operation :
    (Queue → Queue × Bool) → Queue → Result QueueError Queue → Queue × Bool
during_operation body q (err e) = (q, false)
during_operation body q (ok q') = let (done, added) = body q' in (end_operation done, added)

unfoldable pub requeue : Envelope → Queue → Queue × Bool
unfolding begin_operation
requeue e q = during_operation (requeue_locked e) q (begin_operation q)

abbrev pub unschedule : ℕ → Bytes → Option Envelope → Queue → Queue
unschedule now id none q = q
unschedule now id (some queued) q = record q {
  pending = (remove_envelope now queued q.pending).0;
  scheduled = remove id q.scheduled;
}

unfoldable pub requeue_after_locked : ℕ → Envelope → Queue → Queue × Bool
requeue_after_locked now deferred q =
    schedule_locked deferred (unschedule now deferred.id (get deferred.id q.scheduled) q)

unfoldable pub requeue_after : ℕ → ℕ → Envelope → Queue → Queue × Bool
unfolding begin_operation
requeue_after now delay e q =
    during_operation (requeue_after_locked now (record e { next_attempt = now + delay })) q
      (begin_operation q)
