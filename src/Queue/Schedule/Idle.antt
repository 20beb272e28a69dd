-- ===== src/Queue/Schedule/Idle.antt =====
-- PopDue of internal/queue/schedule.go hands out nothing only where nothing is due.
use Prim.{absurd}
use outboxd.Common.{
  ℕ, zero, suc, ◌+◌, ◌≤◌, ◌≡◌, ◌≢◌, refl, ap, sym, ◌∙◌, ◌⊎◌, inl, inr, true, false, Bytes, Option,
  none, some, List, [], ◌∷◌, ◌++◌, arith, length, str_eq_refl, str_eq_cases, subst, Bool-cases,
  Option-cases, List-cases,
}
use outboxd.Common.Map.{get}
use outboxd.Queue.Schedule.{
  UserQueue, Schedule, user_less, take_least, promote, is_due, first_attempt, take_first, pop_first,
  pop_due, set_due,
}
use outboxd.Queue.Schedule.Rotation.{
  Rotation, occurrences, in_rotation, is_sound, taken, take_least-taken,
}
use outboxd.Queue.Schedule.Moves.{promote-Rotation}

-- `n` comes no later than `x`.
least-before :
    (now : ℕ) (s : Schedule) (m x : Bytes)
    → user_less s m x ≡ true
    → is_due now (first_attempt s m) ≡ false
    → is_due now (first_attempt s x) ≡ false
unfolding user_less
least-before now s m x h d = ground arith

least-after :
    (now : ℕ) (s : Schedule) (m x : Bytes)
    → user_less s m x ≡ false
    → is_due now (first_attempt s x) ≡ false
    → is_due now (first_attempt s m) ≡ false
unfolding user_less
least-after now s m x h d = ground arith

-- Where the least one is not due, none is.
abbrev NoneDue : ℕ → Schedule → List Bytes → Option (Bytes × List Bytes) → Type 0
NoneDue now s xs none = Unit
NoneDue now s xs (some (n, ns)) =
    is_due now (first_attempt s n) ≡ false
    → (j : Bytes) → occurrences j xs ≢ 0
    → is_due now (first_attempt s j) ≡ false

take_least-NoneDue : (now : ℕ) (s : Schedule) (xs : List Bytes) → NoneDue now s xs (take_least s xs)
unfolding take_least occurrences
take_least-NoneDue now s [] = tt
take_least-NoneDue now s (x ∷ xs) =
    let ih : NoneDue now s xs (take_least s xs) = take_least-NoneDue now s xs in
    let same : (j : Bytes) → taken j (take_least s xs) ≡ occurrences j xs = take_least-taken s xs in
    elim (Option-cases (take_least s xs)) [
      | inl e ↦ rw e (λ d j o. elim (str_eq_cases x j) [
        | inl (_, p) ↦ subst (λ k. is_due now (first_attempt s k) ≡ false) p d
        | inr (q, _) ↦ absurd (o (ground (arith, q, same j, e)))
      ])
      | inr ((m, ms), e) ↦
          let others : NoneDue now s xs (some (m, ms)) = rw e at ih in
          rw e (elim (Bool-cases (user_less s m x)) [
            | inl b ↦ rw b (λ d j o. elim (str_eq_cases x j) [
              | inl (_, p) ↦
                  subst (λ k. is_due now (first_attempt s k) ≡ false) p (least-before now s m x b d)
              | inr (q, _) ↦ others d j (λ z. o (ground (arith, q, z)))
            ])
            | inr b ↦ rw b (λ d j o. elim (str_eq_cases x j) [
              | inl (_, p) ↦ subst (λ k. is_due now (first_attempt s k) ≡ false) p d
              | inr (q, _) ↦ others (least-after now s m x b d) j (λ z. o (ground (arith, q, z)))
            ])
          ])
    ]

abbrev moved : Schedule → Bytes → List Bytes → Schedule
moved s n ns = record {
  users = set_due true (get n s.users) n s.users;
  future = ns;
  due = s.due ++ n ∷ [];
  count = s.count;
}

empty_heap : (s : Schedule) (xs : List Bytes) → take_least s xs ≡ none → xs ≡ []
unfolding take_least
empty_heap s [] h = refl
empty_heap s (x ∷ xs) h = ground arith

no_occurrence : (j : Bytes) (xs : List Bytes) → length xs ≤ 0 → occurrences j xs ≡ 0
unfolding occurrences
no_occurrence j [] h = refl
no_occurrence j (x ∷ xs) h = absurd (omega arith)

Nat-cases : (n : ℕ) → (n ≡ 0) ⊎ (1 ≤ n)
Nat-cases zero = inl refl
Nat-cases (suc n) = inr (omega arith)

append_one : (xs : List Bytes) (n : Bytes) → (xs ++ n ∷ []) ≢ []
append_one [] n h = cc
append_one (x ∷ xs) n h = cc

promote-keeps : (now fuel : ℕ) (s : Schedule) → (promote now fuel s).due ≡ [] → s.due ≡ []
unfolding promote
promote-keeps now zero s h = h
promote-keeps now (suc fuel) s h = elim (Option-cases (take_least s s.future)) [
  | inl e ↦ rw (e, promote) at h
  | inr ((n, ns), e) ↦ elim (Bool-cases (is_due now (first_attempt s n))) [
    | inl b ↦
        absurd
          (append_one s.due n (promote-keeps now fuel (moved s n ns) (rw (e, b, promote) at h)))
    | inr b ↦ rw (e, b, promote) at h
  ]
]

-- With fuel where there is a user in the heap, the loop ends where none of them is due, if it moved
-- nobody.
promote-idle :
    (now fuel : ℕ) (s : Schedule)
    → length s.future ≤ fuel
    → (promote now fuel s).due ≡ []
    → (j : Bytes) → occurrences j s.future ≢ 0
    → is_due now (first_attempt s j) ≡ false
unfolding promote occurrences
promote-idle now zero s l h j o = absurd (o (no_occurrence j s.future l))
promote-idle now (suc fuel) s l h j o = elim (Option-cases (take_least s s.future)) [
  | inl e ↦ absurd (o (ap (occurrences j) (empty_heap s s.future e)))
  | inr ((n, ns), e) ↦ elim (Bool-cases (is_due now (first_attempt s n))) [
    | inl b ↦
        absurd
          (append_one s.due n (promote-keeps now fuel (moved s n ns) (rw (e, b, promote) at h)))
    | inr b ↦
        let all : NoneDue now s s.future (some (n, ns)) =
          subst (NoneDue now s s.future) e (take_least-NoneDue now s s.future) in
        all b j o
  ]
]

-- A user of a schedule that keeps its rotation is in the heap where it is not in the rotation.
placed :
    (now : ℕ) (s : Schedule) (j : Bytes)
    → Rotation now s
    → s.due ≡ []
    → occurrences j s.future ≡ 0
    → is_due now (first_attempt s j) ≡ false
unfolding occurrences
placed now s j r e z =
    let d : 0 ≡ in_rotation (get j s.users) = ap (occurrences j) (sym e) ∙ r.due j in
    ground (arith, d, z, r.future j, Option-cases (get j s.users))

-- The user at the head of the rotation has a message to hand out.
taken_some :
    (now : ℕ) (s : Schedule) (n : Bytes) (rotation : List Bytes) (u : Option UserQueue)
    → is_sound now u ≡ true
    → 1 ≤ in_rotation u
    → (take_first now n rotation u s).0 ≢ none
taken_some now s n rotation none f p h = omega arith
taken_some now s n rotation (some u) f p h = elim (List-cases u.messages) [
  | inl l ↦ cc (rw l at f)
  | inr (m, ms, l) ↦ cc (rw (l, take_first) at h)
]

nothing_first : (now : ℕ) (s : Schedule) → Rotation now s → (pop_first now s).0 ≡ none → s.due ≡ []
unfolding pop_first occurrences
nothing_first now s r h = elim (List-cases s.due) [
  | inl e ↦ e
  | inr (n, rotation, e) ↦
      let here : 1 + occurrences n rotation ≡ in_rotation (get n s.users) =
        ground (arith, ap (occurrences n) (sym e) ∙ r.due n, str_eq_refl n) in
      absurd (
        taken_some now s n rotation (get n s.users) (r.sound n) (omega arith)
          (rw (e, pop_first) at h))
]

-- In a schedule in which the heap and the rotation hold each user once, as its flag says, each user
-- has a message, and those in the rotation have one that is due, PopDue hands out nothing only
-- where no user's first message is due.
pub pop_due-idle :
    (now : ℕ) (s : Schedule)
    → Rotation now s
    → (pop_due now s).0 ≡ none
    → (j : Bytes) → is_due now (first_attempt s j) ≡ false
unfolding pop_due
pop_due-idle now s r h j =
    let r' = promote-Rotation now (length s.future) s r in
    let idle = nothing_first now (promote now (length s.future) s) r' h in
    elim (Nat-cases (occurrences j s.future)) [
      | inl z ↦ placed now s j r (promote-keeps now (length s.future) s idle) z
      | inr p ↦ promote-idle now (length s.future) s (omega arith) idle j (λ z. omega arith)
    ]
