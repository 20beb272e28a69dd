-- ===== src/Queue/Schedule/Moves.antt =====
-- The steps of PopDue in internal/queue/schedule.go keep each user in one place.
use outboxd.Common.{
  ℕ, zero, suc, ◌+◌, ◌≡◌, ap, sym, ◌∙◌, inl, inr, true, false, Bytes, some, List, [], ◌∷◌, ◌++◌,
  arith, leb, if◌then◌else◌, str_eq, str_eq_iff, str_eq_refl, Bool-cases, Option-cases, List-cases,
}
use Prim.{absurd}
use outboxd.Common.Map.{get, get-insert, get-remove}
use outboxd.Queue.Envelope.{Envelope}
use outboxd.Queue.Schedule.{
  UserQueue, Schedule, promote, take_least, is_due, first_attempt, set_due, put_back,
}
use outboxd.Queue.Schedule.Rotation.{
  Rotation, occurrences, occurrences-one, in_rotation, taken, take_least-taken,
}

module _ (now : ℕ) (s : Schedule) (r : Rotation now s) (n : Bytes) (ns : List Bytes)
    (e : take_least s s.future ≡ some (n, ns)) where
  abbrev moved : Schedule
  moved = record {
    users = set_due true (get n s.users) n s.users;
    future = ns;
    due = s.due ++ n ∷ [];
    count = s.count;
  }

  took : (j : Bytes) → (if str_eq n j then 1 else 0) + occurrences j ns ≡ occurrences j s.future
  took j =
      let h : taken j (take_least s s.future) ≡ occurrences j s.future =
        take_least-taken s s.future j in
      rw e at h

  pub moved-Rotation : is_due now (first_attempt s n) ≡ true → Rotation now moved
  moved-Rotation b = elim (Option-cases (get n s.users)) [
    | inl g ↦ absurd (ground (arith, g, r.future n, took n, str_eq_refl n))
    | inr (u, g) ↦ rw g (record {
      due = λ j. ground (
        arith,
        g,
        r.due j,
        r.due n,
        r.future n,
        took n,
        str_eq_refl n,
        str_eq_iff n j,
        occurrences-one j n s.due,
        get-insert n j (record u { due = true }) s.users,
      );
      future = λ j. ground (
        arith,
        g,
        r.future j,
        r.future n,
        took j,
        took n,
        str_eq_refl n,
        str_eq_iff n j,
        get-insert n j (record u { due = true }) s.users,
      );
      sound = λ j. ground (
        arith,
        g,
        b,
        r.sound j,
        r.sound n,
        str_eq_iff n j,
        List-cases u.messages,
        get-insert n j (record u { due = true }) s.users,
      );
    })
  ]

pub promote-Rotation :
    (now fuel : ℕ) (s : Schedule) → Rotation now s → Rotation now (promote now fuel s)
unfolding promote
promote-Rotation now zero s r = r
promote-Rotation now (suc fuel) s r = elim (Option-cases (take_least s s.future)) [
  | inl e ↦ rw (e, promote) r
  | inr ((n, ns), e) ↦ elim (Bool-cases (is_due now (first_attempt s n))) [
    | inl b ↦
        rw (e, b, promote)
          (promote-Rotation now fuel (moved now s r n ns e) (moved-Rotation now s r n ns e b))
    | inr b ↦ rw (e, b, promote) r
  ]
]

module _ (now : ℕ) (s : Schedule) (r : Rotation now s) (n : Bytes) (rotation : List Bytes)
    (e : s.due ≡ n ∷ rotation) (u : UserQueue) (g : get n s.users ≡ some u) where
  in_due :
      (j : Bytes)
      → (if str_eq n j then 1 else 0) + occurrences j rotation ≡ in_rotation (get j s.users)
  unfolding occurrences
  in_due j = ap (occurrences j) (sym e) ∙ r.due j

  -- The user at the head of the rotation is in it, and so not in the heap.
  pub head_user : (u.due ≡ true) × (occurrences n rotation ≡ 0) × (occurrences n s.future ≡ 0)
  head_user = (
    ground (arith, g, in_due n, str_eq_refl n),
    ground (arith, g, in_due n, str_eq_refl n),
    ground (arith, g, in_due n, r.future n, str_eq_refl n),
  )

  pub put_back-Rotation : (ms : List Envelope) → Rotation now (put_back now n u ms rotation s)
  put_back-Rotation [] = record {
    due = λ j. ground (arith, g, in_due j, head_user.1, str_eq_iff n j, get-remove n j s.users);
    future =
        λ j. ground (arith, g, r.future j, head_user.2, str_eq_iff n j, get-remove n j s.users);
    sound = λ j. ground (arith, r.sound j, str_eq_iff n j, get-remove n j s.users);
  }
  put_back-Rotation (m ∷ ms) = elim (Bool-cases (leb m.next_attempt now)) [
    | inl b ↦ rw b (record {
      due = λ j. ground (
        arith,
        g,
        in_due j,
        head_user.0,
        str_eq_iff n j,
        occurrences-one j n rotation,
        get-insert n j (record u { messages = m ∷ ms }) s.users,
      );
      future = λ j. ground (
        arith,
        g,
        r.future j,
        head_user.0,
        head_user.2,
        str_eq_iff n j,
        get-insert n j (record u { messages = m ∷ ms }) s.users,
      );
      sound = λ j. ground (
        arith,
        b,
        r.sound j,
        str_eq_iff n j,
        get-insert n j (record u { messages = m ∷ ms }) s.users,
      );
    })
    | inr b ↦ rw b (record {
      due = λ j. ground (
        arith,
        g,
        in_due j,
        head_user.1,
        str_eq_iff n j,
        get-insert n j (record u { messages = m ∷ ms; due = false }) s.users,
      );
      future = λ j. ground (
        arith,
        g,
        r.future j,
        head_user.2,
        str_eq_iff n j,
        occurrences-one j n s.future,
        get-insert n j (record u { messages = m ∷ ms; due = false }) s.users,
      );
      sound = λ j. ground (
        arith,
        r.sound j,
        str_eq_iff n j,
        get-insert n j (record u { messages = m ∷ ms; due = false }) s.users,
      );
    })
  ]
