-- ===== src/Queue/Schedule.antt =====
-- internal/queue/schedule.go: the order in which queued envelopes come up. A heap of container/heap is
-- used through Push, Pop, Fix, Remove and its first element only, so a user's messages are a list in
-- the order of Less, and the heap of users is a list of names whose least element is looked for where
-- the source pops or reads it; Fix then has nothing to do. A user queue is found by its name, and an
-- envelope, whose pointer the source compares, by its ID. Times are numbers of nanoseconds.
pub mod Counted
pub mod Due
pub mod Idle
pub mod Timely
pub mod Moves
pub mod Rotation
mod Tests
use outboxd.Common.{
  ℕ, zero, suc, ◌+◌, ◌-◌, Bool, true, false, not, ◌&&◌, ◌||◌, Bytes, Option, none, some, List, [],
  ◌∷◌, ◌++◌, ltb, leb, ◌==◌, if◌then◌else◌, str_eq, length,
}
use outboxd.Common.Map.{Map, get, insert, remove}
use outboxd.Queue.Envelope.{Envelope}

pub record UserQueue : Type 0 where
  pub name : Bytes
  pub messages : List Envelope
  pub due : Bool

pub record Schedule : Type 0 where
  pub users : Map UserQueue
  pub future : List Bytes
  pub due : List Bytes
  pub count : ℕ

abbrev pub empty_schedule : Schedule
empty_schedule = record { users = []; future = []; due = []; count = 0 }

-- a < b of Go strings
unfoldable pub str_less : Bytes → Bytes → Bool
str_less [] [] = false
str_less [] (y ∷ ys) = true
str_less (x ∷ xs) [] = false
str_less (x ∷ xs) (y ∷ ys) = if x == y then str_less xs ys else ltb x y

-- envelopeHeap.Less
unfoldable pub envelope_less : Envelope → Envelope → Bool
unfolding str_less
envelope_less a b =
    if a.next_attempt == b.next_attempt
    then str_less a.id b.id
    else ltb a.next_attempt b.next_attempt

-- heap.Push on a user's messages
unfoldable pub insert_message : Envelope → List Envelope → List Envelope
unfolding envelope_less
insert_message e [] = e ∷ []
insert_message e (m ∷ ms) = if envelope_less e m then e ∷ m ∷ ms else m ∷ insert_message e ms

-- heap.Remove on a user's messages, of the envelope with the ID
unfoldable pub remove_message : Bytes → List Envelope → List Envelope
remove_message id [] = []
remove_message id (m ∷ ms) =
    let rest = remove_message id ms in if str_eq m.id id then ms else m ∷ rest

unfoldable pub has_message : Bytes → List Envelope → Bool
has_message id [] = false
has_message id (m ∷ ms) = str_eq m.id id || has_message id ms

abbrev pub first_message : Option UserQueue → Option Envelope
first_message none = none
first_message (some u) = elim u.messages [ [] ↦ none | m ∷ ms ↦ some m ]

-- The next attempt of the first message of a user.
abbrev pub first_attempt : Schedule → Bytes → Option ℕ
first_attempt s name = elim (first_message (get name s.users)) [
  | none ↦ none
  | some m ↦ some m.next_attempt
]

-- userHeap.Less, by the first messages and then by the names
unfoldable pub user_less : Schedule → Bytes → Bytes → Bool
unfolding str_less
user_less s a b = elim (first_attempt s a) [
  | none ↦ false
  | some x ↦ elim (first_attempt s b) [
    | none ↦ true
    | some y ↦ (if x == y then str_less a b else ltb x y)
  ]
]

-- heap.Pop on the heap of users: the least one, and the others.
unfoldable pub take_least : Schedule → List Bytes → Option (Bytes × List Bytes)
unfolding user_less
take_least s [] = none
take_least s (n ∷ ns) = elim (take_least s ns) [
  | none ↦ some (n, [])
  | some (m, rest) ↦ (if user_less s m n then some (m, n ∷ rest) else some (n, ns))
]

abbrev pub or_new_user : Bytes → Option UserQueue → UserQueue
or_new_user name none = record { name = name; messages = []; due = false }
or_new_user name (some u) = u

abbrev no_messages : List Envelope → Bool
no_messages [] = true
no_messages (m ∷ ms) = false

unfoldable pub push : Envelope → Schedule → Schedule
unfolding insert_message
push e s =
    let user = or_new_user e.username (get e.username s.users) in
    record s {
      users = insert e.username (record user { messages = insert_message e user.messages }) s.users;
      future =
          if user.due
          then s.future
          else if no_messages user.messages
          then s.future ++ e.username ∷ []
          else s.future;
      count = s.count + 1;
    }

unfoldable pub next_attempt : Schedule → Option ℕ
unfolding take_least
next_attempt s = elim s.due [
  | n ∷ ns ↦ first_attempt s n
  | [] ↦ elim (take_least s s.future) [ none ↦ none | some (n, ns) ↦ first_attempt s n ]
]

abbrev pub is_due : ℕ → Option ℕ → Bool
is_due now none = false
is_due now (some t) = leb t now

abbrev pub set_due : Bool → Option UserQueue → Bytes → Map UserQueue → Map UserQueue
set_due due none name users = users
set_due due (some u) name users = insert name (record u { due = due }) users

-- The loop of PopDue moves the users that have come due to the rotation, for at most `fuel` users.
unfoldable pub promote : ℕ → ℕ → Schedule → Schedule
unfolding take_least
promote now zero s = s
promote now (suc fuel) s = elim (take_least s s.future) [
  | none ↦ s
  | some (n, ns) ↦
      (let moved = promote now fuel (record {
        users = set_due true (get n s.users) n s.users;
        future = ns;
        due = s.due ++ n ∷ [];
        count = s.count;
      }) in
        if is_due now (first_attempt s n) then moved else s)
]

-- The rest of PopDue, after the user's first message is taken.
abbrev pub put_back : ℕ → Bytes → UserQueue → List Envelope → List Bytes → Schedule → Schedule
put_back now n u [] rotation s = record s {
  users = remove n s.users;
  due = rotation;
  count = s.count - 1;
}
put_back now n u (m ∷ ms) rotation s =
    if leb m.next_attempt now
    then record s {
      users = insert n (record u { messages = m ∷ ms }) s.users;
      due = rotation ++ n ∷ [];
      count = s.count - 1;
    }
    else record {
      users = insert n (record u { messages = m ∷ ms; due = false }) s.users;
      future = s.future ++ n ∷ [];
      due = rotation;
      count = s.count - 1;
    }

abbrev pub take_first :
    ℕ → Bytes → List Bytes → Option UserQueue → Schedule → Option Envelope × Schedule
take_first now n rotation none s = (none, s)
take_first now n rotation (some u) s = elim u.messages [
  | [] ↦ (none, s)
  | m ∷ ms ↦ (some m, put_back now n u ms rotation s)
]

unfoldable pub pop_first : ℕ → Schedule → Option Envelope × Schedule
pop_first now s = elim s.due [
  | [] ↦ (none, s)
  | n ∷ rotation ↦ take_first now n rotation (get n s.users) s
]

-- Each round takes a user out of `future`, so its length is enough fuel.
unfoldable pub pop_due : ℕ → Schedule → Option Envelope × Schedule
unfolding promote pop_first
pop_due now s = pop_first now (promote now (length s.future) s)

-- The name leaves a list where it first stands.
unfoldable pub without : Bytes → List Bytes → List Bytes
without n [] = []
without n (m ∷ ms) = let rest = without n ms in if str_eq m n then ms else m ∷ rest

-- Remove, after the message is taken out of the user's heap. `was_first` is its index being 0.
unfoldable pub after_remove : ℕ → Bool → Bytes → UserQueue → List Envelope → Schedule → Schedule
unfolding without
after_remove now was_first n u [] s = record {
  users = remove n s.users;
  future = if u.due then s.future else without n s.future;
  due = if u.due then without n s.due else s.due;
  count = s.count - 1;
}
after_remove now was_first n u (m ∷ ms) s =
    let late = was_first && u.due && ltb now m.next_attempt in
    record {
      users =
          insert n (record u { messages = m ∷ ms; due = if late then false else u.due }) s.users;
      future = if late then s.future ++ n ∷ [] else s.future;
      due = if late then without n s.due else s.due;
      count = s.count - 1;
    }

abbrev pub is_first : Bytes → List Envelope → Bool
is_first id [] = false
is_first id (m ∷ ms) = str_eq m.id id

unfoldable pub remove_found : ℕ → Envelope → Option UserQueue → Schedule → Schedule × Bool
unfolding after_remove remove_message has_message
remove_found now e none s = (s, false)
remove_found now e (some u) s =
    if has_message e.id u.messages
    then (
      after_remove now (is_first e.id u.messages) e.username u (remove_message e.id u.messages) s,
      true,
    )
    else (s, false)

-- schedule.Remove
unfoldable pub remove_envelope : ℕ → Envelope → Schedule → Schedule × Bool
unfolding remove_found
remove_envelope now e s = remove_found now e (get e.username s.users) s
