-- ===== src/Deliver/Selection/Admitted.antt =====
-- The domain that Run of internal/deliver/run.go admits is the one that the attempt begins with.
use outboxd.Common.{
  ℕ, ◌+◌, ◌≡◌, ◌≢◌, refl, ◌∙◌, inl, inr, Bool, true, false, not, ◌&&◌, ◌||◌, Bytes, some, List, [],
  ◌∷◌, ◌++◌, arith, str_eq, str_eq_iff, str_eq_cases, Bool-cases,
}
use Prim.{absurd}
use outboxd.Queue.Envelope.{Recipient, Envelope, is_pending}
use outboxd.Deliver.Selection.{
  is_empty, any_pending_in, first_pending, next_pending_domain, GroupKey, same_key, add_index,
  key_of, group_from, take_domain, admitted_first, plan,
}

-- The domain of the first group.
abbrev pub first_domain : List (GroupKey × List ℕ) → Bytes
first_domain [] = []
first_domain ((k, js) ∷ groups) = k.domain

unfoldable has_domain : Bytes → List (GroupKey × List ℕ) → Bool
has_domain d [] = false
has_domain d ((k, js) ∷ groups) = str_eq k.domain d || has_domain d groups

has_domain-add_index :
    (d : Bytes) (key : GroupKey) (i : ℕ) (groups : List (GroupKey × List ℕ))
    → has_domain d (add_index key i groups) ≡ (str_eq key.domain d || has_domain d groups)
unfolding has_domain add_index
has_domain-add_index d key i [] = refl
has_domain-add_index d key i ((k, js) ∷ groups) =
    ground (arith, has_domain-add_index d key i groups, str_eq_iff k.domain key.domain)

has_domain-group_from :
    (d : Bytes) (i : ℕ) (rs : List Recipient) (groups : List (GroupKey × List ℕ))
    → has_domain d (group_from i rs groups) ≡ (any_pending_in d rs || has_domain d groups)
unfolding group_from any_pending_in
has_domain-group_from d i [] groups = refl
has_domain-group_from d i (r ∷ rs) groups = ground (
  arith,
  has_domain-group_from d (i + 1) rs groups,
  has_domain-add_index d (key_of r) i groups,
  has_domain-group_from d (i + 1) rs (add_index (key_of r) i groups),
)

first-add_index :
    (key : GroupKey) (i : ℕ) (g : GroupKey × List ℕ) (groups : List (GroupKey × List ℕ))
    → (js : List ℕ) × (rest : List (GroupKey × List ℕ)) × (add_index key i (g ∷ groups)
        ≡ (g.0, js) ∷ rest)
unfolding add_index
first-add_index key i (k, js) groups = elim (Bool-cases (same_key k key)) [
  | inl e ↦ (js ++ i ∷ [], groups, rw e refl)
  | inr e ↦ (js, add_index key i groups, rw e refl)
]

first-group_from :
    (i : ℕ) (rs : List Recipient) (g : GroupKey × List ℕ) (groups : List (GroupKey × List ℕ))
    → first_domain (group_from i rs (g ∷ groups)) ≡ g.0.domain
unfolding group_from
first-group_from i [] g groups = refl
first-group_from i (r ∷ rs) g groups = elim (Bool-cases (is_pending r.status)) [
  | inl e ↦
      let (js, rest, f) = first-add_index (key_of r) i g groups in
      rw (e, f) (first-group_from (i + 1) rs (g.0, js) rest)
  | inr e ↦ rw e (first-group_from (i + 1) rs g groups)
]

first_pending-group_from :
    (i : ℕ) (rs : List Recipient) → first_domain (group_from i rs []) ≡ first_pending rs
unfolding group_from first_pending add_index
first_pending-group_from i [] = refl
first_pending-group_from i (r ∷ rs) = elim (Bool-cases (is_pending r.status)) [
  | inl e ↦ rw e (first-group_from (i + 1) rs (key_of r, i ∷ []) [])
  | inr e ↦ rw e (first_pending-group_from (i + 1) rs)
]

take_domain-has :
    (d : Bytes) (groups : List (GroupKey × List ℕ))
    → has_domain d groups ≡ true
    → (g : GroupKey × List ℕ) × (rest : List (GroupKey × List ℕ)) × (take_domain d groups
        ≡ some (g, rest))
      × (g.0.domain ≡ d)
unfolding has_domain take_domain
take_domain-has d [] h = cc
take_domain-has d ((k, js) ∷ groups) h = elim (str_eq_cases k.domain d) [
  | inl (e, p) ↦ ((k, js), groups, rw e refl, p)
  | inr (e, p) ↦
      let (g, rest, f, q) = take_domain-has d groups (ground (arith, e, h)) in
      (g, (k, js) ∷ rest, rw (e, f) refl, q)
]

admitted_first-first :
    (d : Bytes) (groups : List (GroupKey × List ℕ))
    → d ≢ []
    → has_domain d groups ≡ true
    → first_domain (admitted_first d groups) ≡ d
unfolding admitted_first has_domain
admitted_first-first [] groups n h = absurd (n refl)
admitted_first-first (c ∷ d) [] n h = cc
admitted_first-first (c ∷ d) ((k, js) ∷ groups) n h = elim (str_eq_cases k.domain (c ∷ d)) [
  | inl (e, p) ↦ rw e p
  | inr (e, p) ↦
      let (g, rest, f, q) = take_domain-has (c ∷ d) ((k, js) ∷ groups) h in rw (e, f, q) refl
]

admitted_first-keeps :
    (d : Bytes) (groups : List (GroupKey × List ℕ))
    → first_domain groups ≡ d
    → first_domain (admitted_first d groups) ≡ d
unfolding admitted_first
admitted_first-keeps d [] h = h
admitted_first-keeps d ((k, js) ∷ groups) h = ground (arith, str_eq_iff k.domain d)

given : (d : Bytes) → is_empty d ≡ false → d ≢ []
given [] h p = cc
given (c ∷ d) h p = cc

-- Whatever domain the envelope prefers, the attempt that Run starts for it begins with the very domain
-- whose slot Run has acquired, so that this slot is used and not acquired a second time.
pub plan-next_pending_domain :
    (e : Envelope) → first_domain (plan (next_pending_domain e) e) ≡ next_pending_domain e
unfolding plan next_pending_domain has_domain
plan-next_pending_domain e =
    elim (Bool-cases
      (not (is_empty e.preferred_domain) && any_pending_in e.preferred_domain e.recipients)) [
        | inl b ↦ rw b (
            admitted_first-first e.preferred_domain (group_from 0 e.recipients [])
              (given e.preferred_domain (ground (arith, b)))
              (has_domain-group_from e.preferred_domain 0 e.recipients [] ∙ ground (arith, b)))
        | inr b ↦ rw b (
            admitted_first-keeps (first_pending e.recipients) (group_from 0 e.recipients [])
              (first_pending-group_from 0 e.recipients))
      ]
