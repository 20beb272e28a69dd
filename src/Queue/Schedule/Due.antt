-- ===== src/Queue/Schedule/Due.antt =====
-- What PopDue of internal/queue/schedule.go hands out, and that Remove keeps the rotation.
use outboxd.Common.{
  ℕ, ◌+◌, ◌≤◌, ◌≡◌, refl, ap, sym, ◌∙◌, inl, inr, Bool, true, false, ◌&&◌, Bytes, Option, none,
  some, List, [], ◌∷◌, arith, ltb, if◌then◌else◌, length, str_eq, str_eq_iff, Bool-cases,
  List-cases,
}
use outboxd.Common.Map.{get, get-insert, get-remove}
use outboxd.Queue.Envelope.{Envelope}
use outboxd.Queue.Schedule.{
  UserQueue, Schedule, remove_message, has_message, promote, take_first, pop_first, pop_due,
  after_remove, remove_found, is_first, without,
}
use outboxd.Queue.Schedule.Rotation.{
  Rotation, occurrences, occurrences-one, occurrences-without, head_due, is_sound,
}
use outboxd.Queue.Schedule.Moves.{promote-Rotation, put_back-Rotation, head_user}

-- The envelope that is handed out is due.
abbrev pub DueAt : ℕ → Option Envelope → Type 0
DueAt now none = Unit
DueAt now (some e) = e.next_attempt ≤ now

take_first-Rotation :
    (now : ℕ) (s : Schedule) (n : Bytes) (rotation : List Bytes) (u : Option UserQueue)
    → Rotation now s
    → s.due ≡ n ∷ rotation
    → get n s.users ≡ u
    → DueAt now (take_first now n rotation u s).0 × Rotation now (take_first now n rotation u s).1
take_first-Rotation now s n rotation none r e g = (tt, r)
take_first-Rotation now s n rotation (some u) r e g = elim (List-cases u.messages) [
  | inl l ↦ rw (l, take_first) (tt, r)
  | inr (m, ms, l) ↦
      let due = (head_user now s r n rotation e u g).0 in
      let sound : is_sound now (some u) ≡ true = ap (is_sound now) (sym g) ∙ r.sound n in
      rw (l, take_first)
        (ground (arith, l, due, sound), put_back-Rotation now s r n rotation e u g ms)
]

pub pop_first-Rotation :
    (now : ℕ) (s : Schedule)
    → Rotation now s
    → DueAt now (pop_first now s).0 × Rotation now (pop_first now s).1
unfolding pop_first
pop_first-Rotation now s r = elim (List-cases s.due) [
  | inl e ↦ rw (e, pop_first) (tt, r)
  | inr (n, rotation, e) ↦
      rw (e, pop_first) (take_first-Rotation now s n rotation (get n s.users) r e refl)
]

pub pop_due-Rotation :
    (now : ℕ) (s : Schedule)
    → Rotation now s
    → DueAt now (pop_due now s).0 × Rotation now (pop_due now s).1
unfolding pop_due
pop_due-Rotation now s r =
    pop_first-Rotation now (promote now (length s.future) s)
      (promote-Rotation now (length s.future) s r)

-- A message that is not the first one leaves the first one in place.
remove_message-head :
    (t : ℕ) (id : Bytes) (ms : List Envelope)
    → is_first id ms ≡ false
    → head_due t (remove_message id ms) ≡ head_due t ms
unfolding remove_message
remove_message-head t id [] h = refl
remove_message-head t id (m ∷ ms) h = rw h refl

module _ (now : ℕ) (s : Schedule) (r : Rotation now s) (n : Bytes) (u : UserQueue)
    (g : get n s.users ≡ some u) where
  without_due :
      (j : Bytes)
      → u.due ≡ true
      → occurrences j (without n s.due) + (if str_eq n j then 1 else 0) ≡ occurrences j s.due
  without_due j d = occurrences-without j n s.due (ground (arith, g, d, r.due n))

  without_future :
      (j : Bytes)
      → u.due ≡ false
      → occurrences j (without n s.future) + (if str_eq n j then 1 else 0) ≡ occurrences j s.future
  without_future j d = occurrences-without j n s.future (ground (arith, g, d, r.future n))

  after_remove-Rotation :
      (was_first : Bool) (ms : List Envelope)
      → (was_first ≡ false → head_due now ms ≡ head_due now u.messages)
      → Rotation now (after_remove now was_first n u ms s)
  unfolding after_remove
  after_remove-Rotation was_first [] h = record {
    due = λ j.
        ground (arith, g, without_due j, r.due j, r.due n, str_eq_iff n j, get-remove n j s.users);
    future = λ j. ground (
      arith,
      g,
      without_future j,
      r.future j,
      r.future n,
      str_eq_iff n j,
      get-remove n j s.users,
    );
    sound = λ j. ground (arith, r.sound j, str_eq_iff n j, get-remove n j s.users);
  }
  after_remove-Rotation was_first (m ∷ ms) h =
      let late = was_first && u.due && ltb now m.next_attempt in
      let u' = record u { messages = m ∷ ms; due = if late then false else u.due } in
      record {
        due = λ j.
            ground (
              arith,
              g,
              without_due j,
              r.due j,
              r.due n,
              str_eq_iff n j,
              get-insert n j u' s.users,
            );
        future = λ j. ground (
          arith,
          g,
          r.future j,
          r.future n,
          occurrences-one j n s.future,
          str_eq_iff n j,
          get-insert n j u' s.users,
        );
        sound = λ j.
            ground (arith, g, h, r.sound j, r.sound n, str_eq_iff n j, get-insert n j u' s.users);
      }

pub remove_found-Rotation :
    (now : ℕ) (e : Envelope) (u : Option UserQueue) (s : Schedule)
    → Rotation now s
    → get e.username s.users ≡ u
    → Rotation now (remove_found now e u s).0
unfolding remove_found
remove_found-Rotation now e none s r g = r
remove_found-Rotation now e (some u) s r g = elim (Bool-cases (has_message e.id u.messages)) [
  | inl b ↦ rw b (
      after_remove-Rotation now s r e.username u g (is_first e.id u.messages)
        (remove_message e.id u.messages) (remove_message-head now e.id u.messages))
  | inr b ↦ rw b r
]
