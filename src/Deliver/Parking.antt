-- ===== src/Deliver/Parking.antt =====
-- internal/deliver/admission.go: the envelopes that wait for a user's or a domain's capacity, with the
-- callbacks on a release that constructor.go sets. parkAdmission and wakeAdmission take the locks of the
-- parking, a limiter and the queue one after the other; the functions here run all of that with no
-- other call in between, and the interleavings at those points are not modelled.
pub mod Fifo
mod Tests
use outboxd.Common.{
  ℕ, Bool, true, false, ◌&&◌, Bytes, Option, none, some, List, [], ◌∷◌, ◌++◌, str_eq, if◌then◌else◌,
}
use outboxd.Common.Map.{get}
use outboxd.Queue.Envelope.{Envelope}
use outboxd.Queue.State.{Queue}
use outboxd.Queue.Transitions.{requeue}
use outboxd.Deliver.Limiter.{DomainLimiter, available, release}

pub data AdmissionKind : Type 0 where
  admission_user admission_domain : AdmissionKind

pub record AdmissionWait : Type 0 where
  pub envelope : Envelope
  pub kind : AdmissionKind
  pub key : Bytes

pub record Admission : Type 0 where
  pub users : DomainLimiter
  pub domains : DomainLimiter
  pub waiting : List AdmissionWait
  pub queue : Queue

abbrev same_kind : AdmissionKind → AdmissionKind → Bool
same_kind admission_user admission_user = true
same_kind admission_domain admission_domain = true
same_kind _ _ = false

abbrev pub limiter_of : AdmissionKind → Admission → DomainLimiter
limiter_of admission_user s = s.users
limiter_of admission_domain s = s.domains

abbrev pub waits_for : AdmissionKind → Bytes → AdmissionWait → Bool
waits_for kind key w = same_kind w.kind kind && str_eq w.key key

-- The first one that waits for the capacity, and the others in their order.
unfoldable pub take_waiter :
    AdmissionKind → Bytes → List AdmissionWait → Option (Envelope × List AdmissionWait)
take_waiter kind key [] = none
take_waiter kind key (w ∷ ws) =
    let found = take_waiter kind key ws in
    if waits_for kind key w
    then some (w.envelope, ws)
    else elim found [ none ↦ none | some (e, rest) ↦ some (e, w ∷ rest) ]

abbrev pub requeue_taken : Option (Envelope × List AdmissionWait) → Admission → Admission
requeue_taken none s = s
requeue_taken (some (e, rest)) s = record s { waiting = rest; queue = (requeue e s.queue).0 }

unfoldable pub wake_admission : AdmissionKind → Bytes → Admission → Admission
unfolding take_waiter
wake_admission kind key s =
    if available key (limiter_of kind s)
    then requeue_taken (take_waiter kind key s.waiting) s
    else s

abbrev pub preferring : AdmissionKind → Bytes → Envelope → Envelope
preferring admission_user key e = e
preferring admission_domain key e = record e { preferred_domain = key }

unfoldable pub park_admission : Envelope → AdmissionKind → Bytes → Admission → Admission
unfolding wake_admission
park_admission e kind key s = wake_admission kind key (record s {
  waiting = s.waiting ++ record { envelope = preferring kind key e; kind = kind; key = key } ∷ [];
})

unfoldable requeue_all : List AdmissionWait → Queue → Queue
requeue_all [] q = q
requeue_all (w ∷ ws) q = requeue_all ws (requeue w.envelope q).0

unfoldable pub requeue_parked : Admission → Admission
unfolding requeue_all
requeue_parked s = record s { waiting = []; queue = requeue_all s.waiting s.queue }

abbrev pub with_limiter : AdmissionKind → DomainLimiter → Admission → Admission
with_limiter admission_user l s = record s { users = l }
with_limiter admission_domain l s = record s { domains = l }

abbrev pub when_held : Option ℕ → Admission → Admission → Admission
when_held none s t = s
when_held (some n) s t = t

-- A release of a limiter with its callback, which the source calls only where there is a slot.
unfoldable pub release_waking : AdmissionKind → Bytes → Admission → Admission
unfolding wake_admission
release_waking kind key s =
    let l = limiter_of kind s in
    when_held (get key l.slots) s (wake_admission kind key (with_limiter kind (release key l) s))
