-- ===== src/Deliver/Discovery/Selected.antt =====
-- internal/deliver/discovery.go: the addresses that lookup_host_ips selects.
use outboxd.Common.{
  ℕ, zero, suc, ◌≤◌, Bool, true, false, Bytes, str_eq, str_eq_refl, str_eq_cases, Option, none,
  some, List, [], ◌∷◌, ◌++◌, length, if◌then◌else◌, ◌≡◌, ◌⊎◌, inl, inr, refl, sym, ap, subst, arith,
  Bool-cases, Option-cases,
}
use outboxd.Common.Result.{Result, ok, err, bind-parts}
use outboxd.Common.Strings.{take}
use outboxd.Netpolicy.{canonical, restricted}
use outboxd.Netpolicy.Canonical.{restricted-canonical}
use outboxd.Deliver.Discovery.{
  Deliverer, LookupError, DnsError, Gathered, lookup_host_ips, lookup_network, gather, gather_ip,
  check_destination, allowlisted, add_unique, has_text, insert, sort, ordered_by, select, lift_dns,
  addr_before,
}

-- How often a text stands in a list.
unfoldable pub times : Bytes → List Bytes → ℕ
times s [] = 0
times s (x ∷ xs) = if str_eq x s then suc (times s xs) else times s xs

-- An order changes only the places.
abbrev pub Reorders : Option (List Bytes → List Bytes) → Type 0
Reorders none = Unit
Reorders (some order) = (xs : List Bytes) (s : Bytes) → times s (order xs) ≡ times s xs

pub times-head : (s : Bytes) (xs : List Bytes) → times s (s ∷ xs) ≡ suc (times s xs)
unfolding times
times-head s xs = rw (str_eq_refl s) refl

pub times-tail : (s x : Bytes) (xs : List Bytes) → times s xs ≤ times s (x ∷ xs)
unfolding times
times-tail s x xs = ground arith

times-take : (s : Bytes) (n : ℕ) (xs : List Bytes) → times s (take n xs) ≤ times s xs
unfolding times
times-take s zero xs = ground arith
times-take s (suc n) [] = ground arith
times-take s (suc n) (x ∷ xs) = ground (arith, times-take s n xs)

pub times-append : (s x : Bytes) (xs : List Bytes) → times s (xs ++ x ∷ []) ≡ times s (x ∷ xs)
unfolding times
times-append s x [] = refl
times-append s x (y ∷ ys) = ground (arith, times-append s x ys)

times-insert :
    (before : Bytes → Bytes → Bool) (s x : Bytes) (xs : List Bytes)
    → times s (insert before x xs) ≡ times s (x ∷ xs)
unfolding times insert
times-insert before s x [] = refl
times-insert before s x (y ∷ ys) = ground (arith, times-insert before s x ys)

times-sort :
    (before : Bytes → Bytes → Bool) (s : Bytes) (xs : List Bytes)
    → times s (sort before xs) ≡ times s xs
unfolding times sort
times-sort before s [] = refl
times-sort before s (x ∷ xs) =
    ground (arith, times-insert before s x (sort before xs), times-sort before s xs)

times-ordered_by :
    (order : Option (List Bytes → List Bytes)) (xs : List Bytes) (s : Bytes)
    → Reorders order
    → times s (ordered_by order xs) ≡ times s xs
times-ordered_by none xs s h = refl
times-ordered_by (some order) xs s h = h xs s

pub times-absent : (s : Bytes) (xs : List Bytes) → has_text xs s ≡ false → times s xs ≡ 0
unfolding times
times-absent s [] h = refl
times-absent s (x ∷ xs) h = ground (arith, times-absent s xs (ground arith))

length-take : (n : ℕ) (xs : List Bytes) → length (take n xs) ≤ n
length-take zero xs = omega arith
length-take (suc n) [] = omega arith
length-take (suc n) (x ∷ xs) = omega (arith, length-take n xs)

module _ (d : Deliverer) (answers : List Bytes) where
  -- The address of an answer that passes the policy.
  abbrev pub IsDestination : Bytes → Type 0
  IsDestination addr =
      (answer : Bytes) × (1 ≤ times answer answers)
      × (check_destination d answer ≡ none)
      × (canonical answer ≡ some addr)

  abbrev pub AreDestinations : List Bytes → Type 0
  AreDestinations addrs =
      (addr : Bytes) → (times addr addrs ≤ 1) × (1 ≤ times addr addrs → IsDestination addr)

  none-AreDestinations : AreDestinations []
  unfolding times
  none-AreDestinations = λ a. (omega arith, λ m. ground arith)

  add_unique-AreDestinations :
      (addr : Bytes) (ordered : List Bytes)
      → IsDestination addr
      → AreDestinations ordered
      → AreDestinations (add_unique addr ordered)
  unfolding times
  add_unique-AreDestinations addr ordered new h = elim (Bool-cases (has_text ordered addr)) [
    | inl e ↦ rw e h
    | inr e ↦ rw e (λ a.
        let n = times-append a addr ordered in
        elim (str_eq_cases addr a) [
          | inl (t, same) ↦ (
            ground (arith, ap (λ x. times x ordered) same, times-absent addr ordered e),
            λ _. subst IsDestination same new,
          )
          | inr (f, _) ↦ (ground (arith, (h a).0), λ m. (h a).1 (ground arith))
        ])
  ]

  gather_ip-AreDestinations :
      (ip : Bytes) (g : Gathered)
      → 1 ≤ times ip answers
      → AreDestinations g.ordered
      → AreDestinations (gather_ip d ip g).ordered
  unfolding gather_ip
  gather_ip-AreDestinations ip g m h = elim (Option-cases (check_destination d ip)) [
    | inr (e, refused) ↦ rw (gather_ip, refused) h
    | inl passed ↦ elim (Option-cases (canonical ip)) [
      | inl c ↦ rw (gather_ip, passed, c) h
      | inr (addr, c) ↦
          rw (gather_ip, passed, c) (add_unique-AreDestinations addr g.ordered (ip, m, passed, c) h)
    ]
  ]

  gather-AreDestinations :
      (ips : List Bytes) (g : Gathered)
      → ((ip : Bytes) → 1 ≤ times ip ips → 1 ≤ times ip answers)
      → AreDestinations g.ordered
      → AreDestinations (gather d ips g).ordered
  unfolding gather
  gather-AreDestinations [] g within h = h
  gather-AreDestinations (ip ∷ ips) g within h =
      gather-AreDestinations ips (gather_ip d ip g)
        (λ a m. within a (omega (arith, times-tail a ip ips)))
        (gather_ip-AreDestinations ip g (within ip (omega (arith, times-head ip ips))) h)

  fewer-AreDestinations :
      (some_of addrs : List Bytes)
      → ((a : Bytes) → times a some_of ≤ times a addrs)
      → AreDestinations addrs
      → AreDestinations some_of
  fewer-AreDestinations some_of addrs fewer h =
      λ a. (omega (arith, fewer a, (h a).0), λ m. (h a).1 (omega (arith, fewer a)))

-- The policy allows the address of an answer.
abbrev pub IsAllowed : Deliverer → Bytes → Bytes → Type 0
IsAllowed d answer addr =
    (d.allow_private_destinations ≡ true)
    ⊎ (allowlisted d answer ≡ true)
    ⊎ (restricted addr ≡ false)

check_destination-IsAllowed :
    (d : Deliverer) (answer addr : Bytes)
    → check_destination d answer ≡ none
    → canonical answer ≡ some addr
    → IsAllowed d answer addr
unfolding check_destination
check_destination-IsAllowed d answer addr passed c =
    elim (Bool-cases d.allow_private_destinations) [
      | inl e ↦ inl e
      | inr n ↦ elim (Bool-cases (allowlisted d answer)) [
        | inl e ↦ inr (inl e)
        | inr m ↦ inr (inr (rw (restricted-canonical answer addr c) (ground arith)))
      ]
    ]

-- What a client may rely on of the addresses selected from an answer.
abbrev pub IsSelection : Deliverer → List Bytes → List Bytes → Type 0
IsSelection d answers ips =
    (length ips ≤ d.max_ip)
    × ((addr : Bytes)
        → (times addr ips ≤ 1)
          × (1 ≤ times addr ips
              → (answer : Bytes) × (1 ≤ times answer answers)
                × (canonical answer ≡ some addr)
                × IsAllowed d answer addr))

select-ordered :
    (d : Deliverer) (ordered : List Bytes) (disallowed : Option LookupError) {ips : List Bytes}
    → select d ordered disallowed ≡ ok ips
    → ips ≡ take d.max_ip (ordered_by d.order_ips (sort addr_before ordered))
select-ordered d [] none h = cc
select-ordered d [] (some e) h = cc
select-ordered d (x ∷ xs) disallowed h = cc

take-IsSelection :
    (d : Deliverer) (answers ordered : List Bytes)
    → Reorders d.order_ips
    → AreDestinations d answers ordered
    → IsSelection d answers (take d.max_ip (ordered_by d.order_ips (sort addr_before ordered)))
take-IsSelection d answers ordered reorders h =
    let sorted = sort addr_before ordered in
    let placed = ordered_by d.order_ips sorted in
    let few =
      fewer-AreDestinations d answers (take d.max_ip placed) ordered
        (λ a. omega (
          arith,
          times-take a d.max_ip placed,
          times-ordered_by d.order_ips sorted a reorders,
          times-sort addr_before a ordered,
        ))
        h in
    (
      length-take d.max_ip placed,
      λ addr. (
        (few addr).0,
        λ m.
            let (answer, from, passed, c) = (few addr).1 m in
            (answer, from, c, check_destination-IsAllowed d answer addr passed c),
      ),
    )

pub lift_dns-ok : {A : Type 0} (r : Result DnsError A) {v : A} → lift_dns r ≡ ok v → r ≡ ok v
lift_dns-ok (ok _) h = cc
lift_dns-ok (err _) h = cc

-- Whatever addresses `lookup_host_ips` returns, if the order moves them only: there are at most
-- `max_ip`, none of them twice, and each is the canonical form of an address that the resolver
-- answered and that is allowed: the configuration allows private destinations, or the answered
-- address is on the allowlist, or the address itself is not restricted.
pub lookup_host_ips-IsSelection :
    (d : Deliverer) (host : Bytes) (ips : List Bytes)
    → Reorders d.order_ips
    → lookup_host_ips d host ≡ ok ips
    → (answers : List Bytes) × (d.lookup_net_ip (lookup_network d) host ≡ ok answers)
      × IsSelection d answers ips
unfolding lookup_host_ips
lookup_host_ips-IsSelection d host ips reorders returned =
    let (addrs, answered, selected) =
      bind-parts (lift_dns (d.lookup_net_ip (lookup_network d) host)) _ returned in
    let g = gather d addrs (record { ordered = []; disallowed = none }) in
    let found =
      gather-AreDestinations d addrs addrs (record { ordered = []; disallowed = none }) (λ _ m. m)
        (none-AreDestinations d addrs) in
    (
      addrs,
      lift_dns-ok (d.lookup_net_ip (lookup_network d) host) answered,
      subst (IsSelection d addrs) (sym (select-ordered d g.ordered g.disallowed selected))
          (take-IsSelection d addrs g.ordered reorders found),
    )
