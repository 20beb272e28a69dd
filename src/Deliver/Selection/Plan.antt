-- ===== src/Deliver/Selection/Plan.antt =====
-- The order of the groups that attemptAdmitted of internal/deliver/attempt.go goes through.
use outboxd.Common.{
  ℕ, zero, suc, ◌+◌, ◌<◌, ◌≡◌, refl, inl, inr, true, ◌&&◌, Bytes, Option, none, some, List, [], ◌∷◌,
  ◌++◌, arith, ◌==◌, if◌then◌else◌, str_eq, str_eq_iff, Bool-cases, Option-cases, get_elem?,
}
use outboxd.Queue.Envelope.{Recipient, Envelope, is_pending}
use outboxd.Deliver.Selection.{
  GroupKey, same_key, add_index, key_of, group_from, take_domain, put_first, admitted_first, plan,
}

-- How often the index stands in a list, and in the groups of a key.
unfoldable pub times : ℕ → List ℕ → ℕ
times i [] = 0
times i (j ∷ js) = (if i == j then 1 else 0) + times i js

unfoldable pub times_in : GroupKey → ℕ → List (GroupKey × List ℕ) → ℕ
times_in key i [] = 0
times_in key i ((k, js) ∷ groups) =
    (if same_key k key then times i js else 0) + times_in key i groups

times-append : (i : ℕ) (xs ys : List ℕ) → times i (xs ++ ys) ≡ times i xs + times i ys
unfolding times
times-append i [] ys = omega arith
times-append i (x ∷ xs) ys = omega (arith, times-append i xs ys)

same_key_trans : (k a b : GroupKey) → same_key k a ≡ true → same_key k b ≡ same_key a b
same_key_trans k a b h = ground (
  arith,
  str_eq_iff k.domain a.domain,
  str_eq_iff k.domain b.domain,
  str_eq_iff a.domain b.domain,
)

times_in-add_index :
    (key key' : GroupKey) (i j : ℕ) (groups : List (GroupKey × List ℕ))
    → times_in key' j (add_index key i groups)
      ≡ (if same_key key key' && i == j then 1 else 0) + times_in key' j groups
unfolding times_in add_index times
times_in-add_index key key' i j [] = ground arith
times_in-add_index key key' i j ((k, js) ∷ groups) = ground (
  arith,
  times_in-add_index key key' i j groups,
  same_key_trans k key key',
  times-append j js (i ∷ []),
)

times_in-take_domain :
    (d : Bytes) (key : GroupKey) (i : ℕ) (groups : List (GroupKey × List ℕ))
    → times_in key i (put_first (take_domain d groups) groups) ≡ times_in key i groups
unfolding times_in take_domain
times_in-take_domain d key i [] = refl
times_in-take_domain d key i ((k, js) ∷ groups) = elim (Bool-cases (str_eq k.domain d)) [
  | inl e ↦ rw e refl
  | inr e ↦ elim (Option-cases (take_domain d groups)) [
    | inl n ↦ rw (e, n) refl
    | inr ((g, rest), f) ↦
        let ih : times_in key i (put_first (take_domain d groups) groups) ≡ times_in key i groups =
          times_in-take_domain d key i groups in
        rw (e, f) (omega (arith, rw f at ih))
  ]
]

times_in-admitted_first :
    (d : Bytes) (key : GroupKey) (i : ℕ) (groups : List (GroupKey × List ℕ))
    → times_in key i (admitted_first d groups) ≡ times_in key i groups
unfolding admitted_first
times_in-admitted_first d key i [] = refl
times_in-admitted_first d key i ((k, js) ∷ groups) =
    ground (arith, times_in-take_domain d key i ((k, js) ∷ groups))

-- 1 where the recipient at the index is pending with the key.
unfoldable pub belongs : GroupKey → Option Recipient → ℕ
belongs key none = 0
belongs key (some r) = if is_pending r.status && same_key (key_of r) key then 1 else 0

-- One round of the loop over the recipients.
abbrev grouped : ℕ → Recipient → List (GroupKey × List ℕ) → List (GroupKey × List ℕ)
grouped i r groups = if is_pending r.status then add_index (key_of r) i groups else groups

times_in-grouped :
    (key : GroupKey) (i m : ℕ) (r : Recipient) (groups : List (GroupKey × List ℕ))
    → times_in key m (grouped i r groups)
      ≡ (if i == m then belongs key (some r) else 0) + times_in key m groups
unfolding belongs
times_in-grouped key i m r groups = ground (arith, times_in-add_index (key_of r) key i m groups)

times_in-before :
    (key : GroupKey) (i m : ℕ) (rs : List Recipient) (groups : List (GroupKey × List ℕ))
    → m < i
    → times_in key m (group_from i rs groups) ≡ times_in key m groups
unfolding group_from
times_in-before key i m [] groups h = refl
times_in-before key i m (r ∷ rs) groups h = ground (
  arith,
  times_in-before key (i + 1) m rs (grouped i r groups),
  times_in-grouped key i m r groups,
)

times_in-group_from :
    (key : GroupKey) (i j : ℕ) (rs : List Recipient) (groups : List (GroupKey × List ℕ))
    → times_in key (i + j) (group_from i rs groups)
      ≡ belongs key (get_elem? rs j) + times_in key (i + j) groups
unfolding group_from belongs
times_in-group_from key i j [] groups = omega arith
times_in-group_from key i zero (r ∷ rs) groups = ground (
  arith,
  times_in-before key (i + 1) (i + 0) rs (grouped i r groups),
  times_in-grouped key i (i + 0) r groups,
)
times_in-group_from key i (suc j) (r ∷ rs) groups =
    let e : i + suc j ≡ (i + 1) + j = omega arith in
    rw e (
      ground (
        arith,
        times_in-group_from key (i + 1) j rs (grouped i r groups),
        times_in-grouped key i (i + 1 + j) r groups,
      ))

-- In the groups of an attempt, whatever domain was admitted, the index of a recipient that is pending
-- stands exactly once in the groups of its own domain and body, and no other index stands in a group.
pub plan-times :
    (admitted : Bytes) (e : Envelope) (key : GroupKey) (i : ℕ)
    → times_in key i (plan admitted e) ≡ belongs key (get_elem? e.recipients i)
unfolding plan times_in
plan-times admitted e key i =
    let zero_add : 0 + i ≡ i = omega arith in
    let found = times_in-group_from key 0 i e.recipients [] in
    omega (
      arith,
      times_in-admitted_first admitted key i (group_from 0 e.recipients []),
      rw zero_add at found,
    )
