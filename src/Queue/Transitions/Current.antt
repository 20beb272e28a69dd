-- ===== src/Queue/Transitions/Current.antt =====
-- What internal/queue keeps in the schedule is current, and a requeue that meets a transition waits.
use outboxd.Common.{
  ℕ, ◌+◌, ◌≡◌, refl, inl, inr, Bool, true, false, Bytes, Option, none, some, List, [], ◌∷◌,
  if◌then◌else◌, str_eq, str_eq_cases, subst, str_eq_cases, subst, Bool-cases, Option-cases,
}
use outboxd.Common.Map.{get, insert, remove, get-insert, get-remove}
use outboxd.Common.Result.{Result, ok, err}
use outboxd.Queue.Envelope.{Envelope}
use outboxd.Queue.State.{QueueError, queue_closed, AccountedEntry, Queue}
use outboxd.Queue.Capacity.{note_added, note_removed}
use outboxd.Queue.Capacity.Effects.{note_removed_effects, note_added_effects, note_added_keeps}
use outboxd.Queue.Schedule.{push}
use outboxd.Queue.Schedule.{push}
use outboxd.Queue.Transitions.{
  begin_operation, end_operation, any_transitioning, mark_transitioning, begin_transitions,
  is_accounted, schedule_locked, schedule_any, or_nil, end_one, end_transitions, same_version,
  requeue_locked, during_operation, requeue, unschedule, requeue_after_locked, requeue_after,
}

-- A scheduled envelope stands under its own ID, in the accounted incarnation and revision, and its ID
-- is not blocked.
abbrev pub Fits : Option AccountedEntry → Option (Unit {0}) → Bytes → Option Envelope → Type 0
Fits accounted blocked id none = Unit
Fits accounted blocked id (some e) =
    (e.id ≡ id) × (is_accounted e accounted ≡ true) × (blocked ≡ none)

unfoldable pub Current : Queue → Type 0
Current q = (id : Bytes) → Fits (get id q.accounted) (get id q.blocked) id (get id q.scheduled)

added-Current :
    (e : Envelope) (q : Queue)
    → Current q
    → is_accounted e (get e.id q.accounted) ≡ true
    → get e.id q.blocked ≡ none
    → Current (record q { pending = push e q.pending; scheduled = insert e.id e q.scheduled })
unfolding Current
added-Current e q c a b id = rw (get-insert e.id id e q.scheduled) (elim (str_eq_cases e.id id) [
  | inl (s, p) ↦
      rw s (subst (λ i. Fits (get i q.accounted) (get i q.blocked) i (some e)) p (refl, a, b))
  | inr (s, p) ↦ rw s (c id)
])

schedule_locked-Current : (e : Envelope) (q : Queue) → Current q → Current (schedule_locked e q).0
unfolding schedule_locked Current
schedule_locked-Current e q c = elim (Option-cases (get e.id q.blocked)) [
  | inr (t, b) ↦ rw (b, schedule_locked) c
  | inl b ↦ elim (Bool-cases (is_accounted e (get e.id q.accounted))) [
    | inr a ↦ rw (b, a, schedule_locked) c
    | inl a ↦ elim (Option-cases (get e.id q.scheduled)) [
      | inr (f, d) ↦ rw (b, a, d, schedule_locked) c
      | inl d ↦ rw (b, a, d, schedule_locked) (added-Current e q c a b)
    ]
  ]
]

schedule_any-Current : (es : List Envelope) (q : Queue) → Current q → Current (schedule_any es q).0
unfolding schedule_any
schedule_any-Current [] q c = c
schedule_any-Current (e ∷ es) q c = elim (Bool-cases (schedule_locked e q).1) [
  | inl b ↦ rw (b, schedule_any) (schedule_locked-Current e q c)
  | inr b ↦
      rw (b, schedule_any)
        (schedule_any-Current es (schedule_locked e q).0 (schedule_locked-Current e q c))
]

end_transitions-Current :
    (ids : List Bytes) (q : Queue) → Current q → Current (end_transitions ids q).0
unfolding end_transitions end_one Current
end_transitions-Current [] q c = c
end_transitions-Current (id ∷ ids) q c = end_transitions-Current ids (end_one id q).0 (
    schedule_any-Current (or_nil (get id q.requeues))
      (record q { transitioning = remove id q.transitioning }) c)

requeue_locked-Current : (e : Envelope) (q : Queue) → Current q → Current (requeue_locked e q).0
unfolding requeue_locked Current
requeue_locked-Current e q c = elim (Option-cases (get e.id q.transitioning)) [
  | inl t ↦ rw (t, requeue_locked) (schedule_locked-Current e q c)
  | inr (u, t) ↦ elim (Bool-cases (same_version e (or_nil (get e.id q.requeues)))) [
    | inl v ↦ rw (t, v, requeue_locked) c
    | inr v ↦ rw (t, v, requeue_locked) c
  ]
]

unschedule-Current :
    (now : ℕ) (id : Bytes) (queued : Option Envelope) (q : Queue)
    → Current q
    → Current (unschedule now id queued q)
unfolding Current
unschedule-Current now id none q c j = c j
unschedule-Current now id (some queued) q c j =
    rw (get-remove id j q.scheduled)
      (elim (Bool-cases (str_eq id j)) [ inl s ↦ rw s tt | inr s ↦ rw s (c j) ])

abbrev CurrentIf : Result QueueError Queue → Type 0
CurrentIf (ok q) = Current q
CurrentIf (err e) = Unit

begun-CurrentIf :
    (closing : Bool) (q : Queue)
    → Current q
    → CurrentIf (if closing then err queue_closed else ok q)
begun-CurrentIf true q c = tt
begun-CurrentIf false q c = c

begin_operation-CurrentIf : (q : Queue) → Current q → CurrentIf (begin_operation q)
unfolding begin_operation Current
begin_operation-CurrentIf q c = begun-CurrentIf q.closing (record q { active = q.active + 1 }) c

during_operation-Current :
    (body : Queue → Queue × Bool) (q : Queue) (r : Result QueueError Queue)
    → ((p : Queue) → Current p → Current (body p).0)
    → Current q
    → CurrentIf r
    → Current (during_operation body q r).0
unfolding end_operation Current
during_operation-Current body q (err e) h c i = c
during_operation-Current body q (ok p) h c i = h p i

mark-Current : (ids : List Bytes) (q : Queue) → Current q → Current (mark_transitioning ids q)
unfolding mark_transitioning Current
mark-Current [] q c = c
mark-Current (id ∷ ids) q c =
    mark-Current ids (record q { transitioning = insert id tt q.transitioning }) c

requeue-Current : (e : Envelope) (q : Queue) → Current q → Current (requeue e q).0
unfolding requeue
requeue-Current e q c =
    during_operation-Current (requeue_locked e) q (begin_operation q) (requeue_locked-Current e) c
      (begin_operation-CurrentIf q c)

requeue_after_locked-Current :
    (now : ℕ) (e : Envelope) (q : Queue) → Current q → Current (requeue_after_locked now e q).0
unfolding requeue_after_locked
requeue_after_locked-Current now e q c =
    schedule_locked-Current e (unschedule now e.id (get e.id q.scheduled) q)
      (unschedule-Current now e.id (get e.id q.scheduled) q c)

requeue_after-Current :
    (now delay : ℕ) (e : Envelope) (q : Queue) → Current q → Current (requeue_after now delay e q).0
unfolding requeue_after
requeue_after-Current now delay e q c =
    during_operation-Current (requeue_after_locked now (record e { next_attempt = now + delay })) q
      (begin_operation q)
      (requeue_after_locked-Current now (record e { next_attempt = now + delay })) c
      (begin_operation-CurrentIf q c)

-- An event of a queue in operation; a transition that cannot begin changes nothing.
pub data Event : Type 0 where
  begins ends : List Bytes → Event
  requeues : Envelope → Event
  requeues_after : ℕ → ℕ → Envelope → Event
  removes_entry : Bytes → Event
  adds_entry : Envelope → Event

unfoldable pub handle : Event → Queue → Queue
handle (begins ids) q = elim (begin_transitions ids q) [ ok q' ↦ q' | err e ↦ q ]
handle (ends ids) q = (end_transitions ids q).0
handle (requeues e) q = (requeue e q).0
handle (requeues_after now delay e) q = (requeue_after now delay e q).0
handle (removes_entry id) q = note_removed id q
handle (adds_entry e) q = (note_added e q).0

unfoldable pub run : List Event → Queue → Queue
run [] q = q
run (x ∷ xs) q = run xs (handle x q)

removed-Current : (id : Bytes) (q : Queue) → Current q → Current (note_removed id q)
unfolding Current
removed-Current id q c j = elim (note_removed_effects id j q) [
  | inl (e, same) ↦ rw same (c j)
  | inr (scheduled, accounted, blocked) ↦
      rw (scheduled, accounted, blocked)
        (elim (Bool-cases (str_eq id j)) [ inl s ↦ rw s tt | inr s ↦ rw s (c j) ])
]

-- A scheduled envelope still fits where its entry is kept.
Fits-keeps :
    (x y : Option AccountedEntry) (blocked : Option (Unit {0})) (id : Bytes) (s : Option Envelope)
    → ((a : AccountedEntry) → x ≡ some a → y ≡ some a)
    → Fits x blocked id s
    → Fits y blocked id s
unfolding is_accounted
Fits-keeps x y blocked id none h f = tt
Fits-keeps none y blocked id (some e) h f = cc
Fits-keeps (some a) y blocked id (some e) h f = rw (h a refl) f

added_entry-Current : (e : Envelope) (q : Queue) → Current q → Current (note_added e q).0
unfolding Current
added_entry-Current e q c j =
    let (scheduled, blocked) = note_added_effects e q in
    rw (scheduled, blocked)
      (Fits-keeps (get j q.accounted) (get j (note_added e q).0.accounted) (get j q.blocked) j
        (get j q.scheduled) (note_added_keeps e q j) (c j))

begins-Current : (ids : List Bytes) (q : Queue) → Current q → Current (handle (begins ids) q)
unfolding handle begin_transitions
begins-Current ids q c = elim (Bool-cases (any_transitioning ids q)) [
  | inl b ↦ rw (b, begin_transitions, handle) c
  | inr b ↦ rw (b, begin_transitions, handle) (mark-Current ids q c)
]

handle-Current : (x : Event) (q : Queue) → Current q → Current (handle x q)
unfolding handle
handle-Current (begins ids) q c = begins-Current ids q c
handle-Current (ends ids) q c = end_transitions-Current ids q c
handle-Current (requeues e) q c = requeue-Current e q c
handle-Current (requeues_after now delay e) q c = requeue_after-Current now delay e q c
handle-Current (removes_entry id) q c = removed-Current id q c
handle-Current (adds_entry e) q c = added_entry-Current e q c

-- Where each scheduled envelope stands under its own ID, has the incarnation and the revision that
-- the queue accounts for, and is not blocked, this holds after any requeues, transitions, additions
-- and removals.
pub run-Current : (xs : List Event) (q : Queue) → Current q → Current (run xs q)
unfolding run
run-Current [] q c = c
run-Current (x ∷ xs) q c = run-Current xs (handle x q) (handle-Current x q c)
