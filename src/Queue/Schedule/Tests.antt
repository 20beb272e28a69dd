-- ===== src/Queue/Schedule/Tests.antt =====
-- The schedule of internal/queue/schedule.go at a concrete run.
use outboxd.Common.{◌≡◌, refl, false, none, [], ◌∷◌, codes, str_eq, All}
use outboxd.Common.Map.{get, insert}
use outboxd.Queue.Samples.{letter}
use outboxd.Queue.Schedule.{
  Schedule, empty_schedule, push, insert_message, promote, take_least, pop_first, pop_due, is_due,
  first_attempt,
}
use outboxd.Queue.Schedule.Rotation.{Rotation, occurrences, push-Rotation}
use outboxd.Queue.Schedule.Idle.{pop_due-idle}
use outboxd.Queue.Schedule.Timely.{
  pushing, popping, removing, handed_out, Timely, handed_out-empty_schedule,
}
use outboxd.Queue.Schedule.Counted.{
  Counted, run, pushes, pops_due, removes, run-empty_schedule-Counted,
}

run-empty_schedule-Counted_example : Counted (
    run
      (pushes letter
        ∷ pushes (record letter { id = codes "m2" })
        ∷ removes 5000 letter
        ∷ pops_due 3000
        ∷ [])
      empty_schedule)
run-empty_schedule-Counted_example = run-empty_schedule-Counted (
    pushes letter
    ∷ pushes (record letter { id = codes "m2" })
    ∷ removes 5000 letter
    ∷ pops_due 3000
    ∷ [])

handed_out-empty_schedule_example : All Timely (
    handed_out
      (pushing letter ∷ popping 500 ∷ popping 2000 ∷ removing 1 letter ∷ popping 1 ∷ [])
      0
      empty_schedule)
handed_out-empty_schedule_example =
    handed_out-empty_schedule
      (pushing letter ∷ popping 500 ∷ popping 2000 ∷ removing 1 letter ∷ popping 1 ∷ []) 0

abbrev waiting : Schedule
waiting = push letter empty_schedule

waiting-Rotation : Rotation 1000 waiting
unfolding occurrences get
waiting-Rotation =
    push-Rotation 1000 letter empty_schedule
      (record { due = λ n. refl; future = λ n. refl; sound = λ n. refl })

nothing_due : (pop_due 1000 waiting).0 ≡ none
unfolding push insert_message promote take_least pop_first pop_due get insert str_eq
nothing_due = refl

pop_due-idle_example : is_due 1000 (first_attempt waiting (codes "alice")) ≡ false
pop_due-idle_example = pop_due-idle 1000 waiting waiting-Rotation nothing_due (codes "alice")
