-- ===== src/Queue/Schedule/Counted.antt =====
-- The count of internal/queue/schedule.go is the number of messages that the users hold.
use outboxd.Common.{
  ℕ, zero, suc, ◌≡◌, refl, inl, inr, Bool, true, false, ◌&&◌, Bytes, Option, none, some, List, [],
  ◌∷◌, ◌++◌, arith, ltb, leb, if◌then◌else◌, length, Bool-cases, Option-cases, List-cases,
}
use outboxd.Common.Map.{
  Map, get, Distinct, total, total-insert, total-remove, insert-Distinct, remove-Distinct,
}
use outboxd.Queue.Envelope.{Envelope}
use outboxd.Queue.Schedule.{
  UserQueue, Schedule, empty_schedule, insert_message, remove_message, has_message, or_new_user,
  push, promote, take_least, is_due, first_attempt, set_due, put_back, take_first, pop_first,
  pop_due, after_remove, remove_found, remove_envelope, is_first,
}

abbrev pub size : Bytes → UserQueue → ℕ
size name u = length u.messages

pub record Counted (s : Schedule) : Type 0 where
  pub distinct : Distinct s.users
  pub counted : s.count ≡ total size s.users

length-insert_message :
    (e : Envelope) (ms : List Envelope) → length (insert_message e ms) ≡ suc (length ms)
unfolding insert_message
length-insert_message e [] = refl
length-insert_message e (m ∷ ms) = ground (arith, length-insert_message e ms)

push-Counted : (e : Envelope) (s : Schedule) → Counted s → Counted (push e s)
unfolding push
push-Counted e s c =
    let user = or_new_user e.username (get e.username s.users) in
    let user' = record user { messages = insert_message e user.messages } in
    record {
      distinct = insert-Distinct e.username user' s.users c.distinct;
      counted = ground (
        arith,
        c.counted,
        total-insert size e.username user' s.users,
        length-insert_message e user.messages,
        Option-cases (get e.username s.users),
      );
    }

set_due-size :
    (due : Bool) (u : Option UserQueue) (n : Bytes) (m : Map UserQueue)
    → get n m ≡ u
    → total size (set_due due u n m) ≡ total size m
set_due-size due none n m e = refl
set_due-size due (some u) n m e = ground (arith, total-insert size n (record u { due = due }) m)

set_due-Distinct :
    (due : Bool) (u : Option UserQueue) (n : Bytes) (m : Map UserQueue)
    → Distinct m
    → Distinct (set_due due u n m)
set_due-Distinct due none n m d = d
set_due-Distinct due (some u) n m d = insert-Distinct n (record u { due = due }) m d

promote-Counted : (now fuel : ℕ) (s : Schedule) → Counted s → Counted (promote now fuel s)
unfolding promote
promote-Counted now zero s c = c
promote-Counted now (suc fuel) s c = elim (Option-cases (take_least s s.future)) [
  | inl e ↦ rw (e, promote) c
  | inr ((n, ns), e) ↦
      let next : Schedule = record {
        users = set_due true (get n s.users) n s.users;
        future = ns;
        due = s.due ++ n ∷ [];
        count = s.count;
      } in
      let kept : Counted next = record {
        distinct = set_due-Distinct true (get n s.users) n s.users c.distinct;
        counted = omega (arith, c.counted, set_due-size true (get n s.users) n s.users refl);
      } in
      elim (Bool-cases (is_due now (first_attempt s n))) [
        | inl b ↦ rw (e, b, promote) (promote-Counted now fuel next kept)
        | inr b ↦ rw (e, b, promote) c
      ]
]

put_back-Counted :
    (now : ℕ) (n : Bytes) (u : UserQueue) (m : Envelope) (ms : List Envelope)
    (rotation : List Bytes) (s : Schedule)
    → get n s.users ≡ some u
    → u.messages ≡ m ∷ ms
    → Counted s
    → Counted (put_back now n u ms rotation s)
put_back-Counted now n u m [] rotation s g h c = record {
  distinct = remove-Distinct n s.users c.distinct;
  counted = ground (arith, c.counted, total-remove size n s.users c.distinct);
}
put_back-Counted now n u m (k ∷ ms) rotation s g h c = elim (Bool-cases (leb k.next_attempt now)) [
  | inl b ↦ rw b record {
    distinct = insert-Distinct n (record u { messages = k ∷ ms }) s.users c.distinct;
    counted =
        ground (arith, c.counted, total-insert size n (record u { messages = k ∷ ms }) s.users);
  }
  | inr b ↦ rw b record {
    distinct = insert-Distinct n (record u { messages = k ∷ ms; due = false }) s.users c.distinct;
    counted = ground (
      arith,
      c.counted,
      total-insert size n (record u { messages = k ∷ ms; due = false }) s.users,
    );
  }
]

take_first-Counted :
    (now : ℕ) (n : Bytes) (rotation : List Bytes) (u : Option UserQueue) (s : Schedule)
    → get n s.users ≡ u
    → Counted s
    → Counted (take_first now n rotation u s).1
take_first-Counted now n rotation none s g c = c
take_first-Counted now n rotation (some u) s g c = elim (List-cases u.messages) [
  | inl e ↦ rw (e, take_first) c
  | inr (m, ms, e) ↦ rw (e, take_first) (put_back-Counted now n u m ms rotation s g e c)
]

pop_first-Counted : (now : ℕ) (s : Schedule) → Counted s → Counted (pop_first now s).1
unfolding pop_first
pop_first-Counted now s c = elim (List-cases s.due) [
  | inl e ↦ rw (e, pop_first) c
  | inr (n, rotation, e) ↦
      rw (e, pop_first) (take_first-Counted now n rotation (get n s.users) s refl c)
]

length-remove_message :
    (id : Bytes) (ms : List Envelope)
    → has_message id ms ≡ true
    → suc (length (remove_message id ms)) ≡ length ms
unfolding remove_message has_message
length-remove_message id [] h = cc
length-remove_message id (m ∷ ms) h = ground (arith, length-remove_message id ms)

after_remove-Counted :
    (now : ℕ) (was_first : Bool) (n : Bytes) (u : UserQueue) (ms : List Envelope) (s : Schedule)
    → get n s.users ≡ some u
    → suc (length ms) ≡ length u.messages
    → Counted s
    → Counted (after_remove now was_first n u ms s)
unfolding after_remove
after_remove-Counted now was_first n u [] s g h c = record {
  distinct = remove-Distinct n s.users c.distinct;
  counted = ground (arith, c.counted, total-remove size n s.users c.distinct);
}
after_remove-Counted now was_first n u (m ∷ ms) s g h c =
    let late = was_first && u.due && ltb now m.next_attempt in
    let u' = record u { messages = m ∷ ms; due = if late then false else u.due } in
    record {
      distinct = insert-Distinct n u' s.users c.distinct;
      counted = ground (arith, c.counted, total-insert size n u' s.users);
    }

remove_found-Counted :
    (now : ℕ) (e : Envelope) (u : Option UserQueue) (s : Schedule)
    → get e.username s.users ≡ u
    → Counted s
    → Counted (remove_found now e u s).0
unfolding remove_found
remove_found-Counted now e none s g c = c
remove_found-Counted now e (some u) s g c = elim (Bool-cases (has_message e.id u.messages)) [
  | inl b ↦ rw b (
      after_remove-Counted now (is_first e.id u.messages) e.username u
        (remove_message e.id u.messages) s g (length-remove_message e.id u.messages b) c)
  | inr b ↦ rw b c
]

pub data Call : Type 0 where
  pushes : Envelope → Call
  pops_due : ℕ → Call
  removes : ℕ → Envelope → Call

unfoldable pub step : Call → Schedule → Schedule
step (pushes e) s = push e s
step (pops_due now) s = (pop_due now s).1
step (removes now e) s = (remove_envelope now e s).0

unfoldable pub run : List Call → Schedule → Schedule
run [] s = s
run (c ∷ cs) s = run cs (step c s)

step-Counted : (call : Call) (s : Schedule) → Counted s → Counted (step call s)
unfolding step pop_due remove_envelope
step-Counted (pushes e) s c = push-Counted e s c
step-Counted (pops_due now) s c =
    pop_first-Counted now (promote now (length s.future) s)
      (promote-Counted now (length s.future) s c)
step-Counted (removes now e) s c = remove_found-Counted now e (get e.username s.users) s refl c

run-Counted : (calls : List Call) (s : Schedule) → Counted s → Counted (run calls s)
unfolding run
run-Counted [] s c = c
run-Counted (call ∷ calls) s c = run-Counted calls (step call s) (step-Counted call s c)

-- After any sequence of pushes, pops and removals, at whatever times, the schedule has one queue for a
-- user and its count is the number of messages that the queues hold.
pub run-empty_schedule-Counted : (calls : List Call) → Counted (run calls empty_schedule)
unfolding total
run-empty_schedule-Counted calls =
    run-Counted calls empty_schedule (record { distinct = tt; counted = refl })
