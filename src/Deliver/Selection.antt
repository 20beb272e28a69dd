-- ===== src/Deliver/Selection.antt =====
-- internal/deliver: nextPendingDomain and deliveryOwner of run.go, and the groups of attemptAdmitted
-- in attempt.go. The map of groups and the order of its keys are one list of pairs here: the loop
-- appends a key to the order when it adds it to the map.
pub mod Admitted
pub mod Plan
mod Tests
use outboxd.Common.{
  ℕ, zero, suc, ◌+◌, Bool, true, false, not, ◌&&◌, Bytes, Option, none, some, List, [], ◌∷◌, ◌++◌,
  ◌==◌, if◌then◌else◌, str_eq, codes,
}
use outboxd.Queue.Envelope.{Recipient, Envelope, is_pending}

abbrev pub is_empty : Bytes → Bool
is_empty [] = true
is_empty (c ∷ s) = false

unfoldable pub any_pending_in : Bytes → List Recipient → Bool
any_pending_in domain [] = false
any_pending_in domain (r ∷ rs) =
    if is_pending r.status && str_eq r.domain domain then true else any_pending_in domain rs

unfoldable pub first_pending : List Recipient → Bytes
first_pending [] = []
first_pending (r ∷ rs) = if is_pending r.status then r.domain else first_pending rs

unfoldable pub next_pending_domain : Envelope → Bytes
next_pending_domain e =
    if not (is_empty e.preferred_domain) && any_pending_in e.preferred_domain e.recipients
    then e.preferred_domain
    else first_pending e.recipients

abbrev pub generated_dsn_owner : Bytes
generated_dsn_owner = 0 ∷ codes "generated-dsn"

unfoldable pub delivery_owner : Envelope → Bytes
delivery_owner e = if is_empty e.dsn_source_id then e.username else generated_dsn_owner

pub record GroupKey : Type 0 where
  pub domain : Bytes
  pub body : ℕ

abbrev pub same_key : GroupKey → GroupKey → Bool
same_key a b = str_eq a.domain b.domain && a.body == b.body

unfoldable pub add_index : GroupKey → ℕ → List (GroupKey × List ℕ) → List (GroupKey × List ℕ)
add_index key i [] = (key, i ∷ []) ∷ []
add_index key i ((k, indexes) ∷ groups) =
    if same_key k key
    then (k, indexes ++ i ∷ []) ∷ groups
    else (k, indexes) ∷ add_index key i groups

abbrev pub key_of : Recipient → GroupKey
key_of r = record { domain = r.domain; body = r.body }

-- The loop over the recipients from index `i` on.
unfoldable pub group_from : ℕ → List Recipient → List (GroupKey × List ℕ) → List (GroupKey × List ℕ)
group_from i [] groups = groups
group_from i (r ∷ rs) groups =
    group_from (i + 1) rs (if is_pending r.status then add_index (key_of r) i groups else groups)

-- The first group with the domain, taken out of the list.
unfoldable pub take_domain :
    Bytes → List (GroupKey × List ℕ) → Option ((GroupKey × List ℕ) × List (GroupKey × List ℕ))
take_domain domain [] = none
take_domain domain ((k, indexes) ∷ groups) =
    let found = take_domain domain groups in
    if str_eq k.domain domain
    then some ((k, indexes), groups)
    else elim found [ none ↦ none | some (g, rest) ↦ some (g, (k, indexes) ∷ rest) ]

abbrev pub put_first :
    Option ((GroupKey × List ℕ) × List (GroupKey × List ℕ))
    → List (GroupKey × List ℕ)
    → List (GroupKey × List ℕ)
put_first none groups = groups
put_first (some (g, rest)) groups = g ∷ rest

-- A group of the admitted domain moves to the front, unless the first group has that domain.
unfoldable pub admitted_first : Bytes → List (GroupKey × List ℕ) → List (GroupKey × List ℕ)
admitted_first admitted [] = []
admitted_first admitted ((k, indexes) ∷ groups) =
    if is_empty admitted
    then (k, indexes) ∷ groups
    else if str_eq k.domain admitted
    then (k, indexes) ∷ groups
    else put_first (take_domain admitted ((k, indexes) ∷ groups)) ((k, indexes) ∷ groups)

unfoldable pub plan : Bytes → Envelope → List (GroupKey × List ℕ)
unfolding group_from admitted_first
plan admitted e = admitted_first admitted (group_from 0 e.recipients [])
