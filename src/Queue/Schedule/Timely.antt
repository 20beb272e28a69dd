-- ===== src/Queue/Schedule/Timely.antt =====
-- The envelopes that PopDue of internal/queue/schedule.go hands out while time passes.
use outboxd.Common.{ℕ, ◌+◌, refl, Option, List, [], ◌∷◌, arith, All}
use outboxd.Common.Map.{get}
use outboxd.Queue.Envelope.{Envelope}
use outboxd.Queue.Schedule.{Schedule, empty_schedule, push, pop_due, remove_envelope}
use outboxd.Queue.Schedule.Rotation.{Rotation, Rotation-le, occurrences, push-Rotation}
use outboxd.Queue.Schedule.Due.{DueAt, pop_due-Rotation, remove_found-Rotation}

-- A call, with the time that has passed since the last one.
pub data TimedCall : Type 0 where
  pushing : Envelope → TimedCall
  popping : ℕ → TimedCall
  removing : ℕ → Envelope → TimedCall

-- What the pops hand out, each with its time.
unfoldable pub handed_out : List TimedCall → ℕ → Schedule → List (ℕ × Option Envelope)
handed_out [] t s = []
handed_out (pushing e ∷ calls) t s = handed_out calls t (push e s)
handed_out (popping d ∷ calls) t s =
    (t + d, (pop_due (t + d) s).0) ∷ handed_out calls (t + d) (pop_due (t + d) s).1
handed_out (removing d e ∷ calls) t s = handed_out calls (t + d) (remove_envelope (t + d) e s).0

abbrev pub Timely : ℕ × Option Envelope → Type 0
Timely (t, e) = DueAt t e

handed_out-Timely :
    (calls : List TimedCall) (t : ℕ) (s : Schedule)
    → Rotation t s
    → All Timely (handed_out calls t s)
unfolding handed_out remove_envelope
handed_out-Timely [] t s r = tt
handed_out-Timely (pushing e ∷ calls) t s r =
    handed_out-Timely calls t (push e s) (push-Rotation t e s r)
handed_out-Timely (popping d ∷ calls) t s r =
    let (due, r') = pop_due-Rotation (t + d) s (Rotation-le t (t + d) s (omega arith) r) in
    (due, handed_out-Timely calls (t + d) (pop_due (t + d) s).1 r')
handed_out-Timely (removing d e ∷ calls) t s r =
    handed_out-Timely calls (t + d) (remove_envelope (t + d) e s).0 (
      remove_found-Rotation (t + d) e (get e.username s.users) s
        (Rotation-le t (t + d) s (omega arith) r) refl)

-- In any run of a schedule in which time does not go back, no envelope is handed out before its next
-- attempt is due.
pub handed_out-empty_schedule :
    (calls : List TimedCall) (t : ℕ) → All Timely (handed_out calls t empty_schedule)
unfolding occurrences get
handed_out-empty_schedule calls t =
    handed_out-Timely calls t empty_schedule
      (record { due = λ n. refl; future = λ n. refl; sound = λ n. refl })
