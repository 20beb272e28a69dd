-- ===== src/Queue/Schedule/Rotation.antt =====
-- The heap and the rotation of internal/queue/schedule.go hold each user once, and the users in the
-- rotation have a message that is due.
use outboxd.Common.{
  ℕ, ◌+◌, ◌≤◌, ◌≡◌, refl, inl, inr, Bool, true, false, not, ◌&&◌, ◌||◌, Bytes, Option, none, some,
  List, [], ◌∷◌, ◌++◌, arith, leb, if◌then◌else◌, str_eq, str_eq_iff, Bool-cases, Option-cases,
}
use outboxd.Common.Map.{get, get-insert}
use outboxd.Queue.Envelope.{Envelope}
use outboxd.Queue.Schedule.{
  UserQueue, Schedule, envelope_less, user_less, insert_message, or_new_user, push, take_least,
  without, no_messages,
}

unfoldable pub occurrences : Bytes → List Bytes → ℕ
occurrences n [] = 0
occurrences n (m ∷ ms) = (if str_eq m n then 1 else 0) + occurrences n ms

abbrev pub in_rotation : Option UserQueue → ℕ
in_rotation none = 0
in_rotation (some u) = if u.due then 1 else 0

abbrev pub in_heap : Option UserQueue → ℕ
in_heap none = 0
in_heap (some u) = if u.due then 0 else 1

abbrev pub head_due : ℕ → List Envelope → Bool
head_due t [] = false
head_due t (m ∷ ms) = leb m.next_attempt t

-- A user has a message, and one in the rotation has a message that is due.
abbrev pub is_sound : ℕ → Option UserQueue → Bool
is_sound t none = true
is_sound t (some u) = not (no_messages u.messages) && (not u.due || head_due t u.messages)

-- At time `t`.
pub record Rotation (t : ℕ) (s : Schedule) : Type 0 where
  pub due : (n : Bytes) → occurrences n s.due ≡ in_rotation (get n s.users)
  pub future : (n : Bytes) → occurrences n s.future ≡ in_heap (get n s.users)
  pub sound : (n : Bytes) → is_sound t (get n s.users) ≡ true

occurrences-append :
    (n : Bytes) (xs ys : List Bytes)
    → occurrences n (xs ++ ys) ≡ occurrences n xs + occurrences n ys
unfolding occurrences
occurrences-append n [] ys = omega arith
occurrences-append n (x ∷ xs) ys = omega (arith, occurrences-append n xs ys)

pub occurrences-one :
    (n m : Bytes) (xs : List Bytes)
    → occurrences n (xs ++ m ∷ []) ≡ occurrences n xs + (if str_eq m n then 1 else 0)
unfolding occurrences
occurrences-one n m xs = ground (arith, occurrences-append n xs (m ∷ []))

pub occurrences-without :
    (n m : Bytes) (xs : List Bytes)
    → occurrences m xs ≡ 1
    → occurrences n (without m xs) + (if str_eq m n then 1 else 0) ≡ occurrences n xs
unfolding occurrences without
occurrences-without n m [] h = ground arith
occurrences-without n m (x ∷ xs) h =
    ground (arith, occurrences-without n m xs, str_eq_iff x m, str_eq_iff m n, str_eq_iff x n)

insert_message_sound :
    (t : ℕ) (e : Envelope) (ms : List Envelope) (due : Bool)
    → (not due || head_due t ms) ≡ true
    → (not (no_messages (insert_message e ms)) && (not due || head_due t (insert_message e ms)))
      ≡ true
unfolding insert_message envelope_less
insert_message_sound t e [] due h = ground arith
insert_message_sound t e (m ∷ ms) due h = ground arith

pub push-Rotation : (t : ℕ) (e : Envelope) (s : Schedule) → Rotation t s → Rotation t (push e s)
unfolding push
push-Rotation t e s r =
    let user = or_new_user e.username (get e.username s.users) in
    let user' = record user { messages = insert_message e user.messages } in
    record {
      due = λ n. ground (
        arith,
        r.due n,
        get-insert e.username n user' s.users,
        str_eq_iff e.username n,
        Option-cases (get e.username s.users),
      );
      future = λ n. ground (
        arith,
        r.future n,
        r.sound n,
        get-insert e.username n user' s.users,
        str_eq_iff e.username n,
        occurrences-one n e.username s.future,
        Option-cases (get e.username s.users),
      );
      sound = λ n. ground (
        arith,
        r.sound n,
        get-insert e.username n user' s.users,
        str_eq_iff e.username n,
        Option-cases (get e.username s.users),
        insert_message_sound t e user.messages user.due,
      );
    }

abbrev pub taken : Bytes → Option (Bytes × List Bytes) → ℕ
taken j none = 0
taken j (some (n, ns)) = (if str_eq n j then 1 else 0) + occurrences j ns

pub take_least-taken :
    (s : Schedule) (xs : List Bytes) (j : Bytes) → taken j (take_least s xs) ≡ occurrences j xs
unfolding take_least occurrences
take_least-taken s [] j = refl
take_least-taken s (x ∷ xs) j =
    let ih : taken j (take_least s xs) ≡ occurrences j xs = take_least-taken s xs j in
    elim (Option-cases (take_least s xs)) [
      | inl e ↦ let rest : 0 ≡ occurrences j xs = rw e at ih in rw e (omega arith)
      | inr ((m, ms), e) ↦
          let rest : (if str_eq m j then 1 else 0) + occurrences j ms ≡ occurrences j xs =
            rw e at ih in
          rw e
            (elim (Bool-cases (user_less s m x)) [ inl b ↦ rw b (omega arith) | inr b ↦ rw b refl ])
    ]

-- Time may pass.
head_due-le :
    (t now : ℕ) (ms : List Envelope) → t ≤ now → head_due t ms ≡ true → head_due now ms ≡ true
head_due-le t now [] h d = d
head_due-le t now (m ∷ ms) h d = ground arith

is_sound-le :
    (t now : ℕ) (u : Option UserQueue) → t ≤ now → is_sound t u ≡ true → is_sound now u ≡ true
is_sound-le t now none h d = refl
is_sound-le t now (some u) h d = ground (arith, head_due-le t now u.messages h)

pub Rotation-le : (t now : ℕ) (s : Schedule) → t ≤ now → Rotation t s → Rotation now s
Rotation-le t now s h r = record {
  due = r.due;
  future = r.future;
  sound = λ n. is_sound-le t now (get n s.users) h (r.sound n);
}
