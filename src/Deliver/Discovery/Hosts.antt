-- ===== src/Deliver/Discovery/Hosts.antt =====
-- internal/deliver/discovery.go: the candidates that the records of a domain give.
use outboxd.Common.{
  ℕ, suc, ◌≤◌, ◌<◌, Bool, true, false, Bytes, str_eq, str_eq_cases, codes, Option, none, some, List,
  [], ◌∷◌, ◌++◌, length, length-append, get_elem?, ◌==◌, ◌≡◌, ◌⊎◌, inl, inr, refl, sym, ap, ◌∙◌,
  subst, arith, All, Bool-cases,
}
use outboxd.Common.Result.{Result, ok, err, bind-parts, Result-cases}
use outboxd.Common.Strings.{is_empty}
use outboxd.Deliver.Discovery.{
  Deliverer, Mx, MxCandidate, LookupError, not_found, other_dns, valid_records, rotate, sort,
  mx_before, pick, candidate_host, is_left_out, has_text, candidates, some_hosts, choose_hosts,
  no_records, hosts, lookup_host_ips,
}
use outboxd.Deliver.Discovery.Selected.{times, times-absent, times-append}
use outboxd.Deliver.Discovery.Preferences.{
  Ascending, Ascending-le, KeepsRecords, rotate-Ascending, rotate-All,
}

abbrev pub hosts_of : List Mx → List Bytes
hosts_of [] = []
hosts_of (r ∷ rs) = candidate_host r ∷ hosts_of rs

abbrev pub HasHost : Mx → Type 0
HasHost r = is_empty (candidate_host r) ≡ false

append_assoc : (xs : List Bytes) (y : Bytes) (ys : List Bytes) → (xs ++ y ∷ []) ++ ys ≡ xs ++ y ∷ ys
append_assoc [] y ys = refl
append_assoc (x ∷ xs) y ys = ap (λ zs. x ∷ zs) (append_assoc xs y ys)

append-nil : (xs : List Bytes) → xs ++ [] ≡ xs
append-nil [] = refl
append-nil (x ∷ xs) = ap (λ zs. x ∷ zs) (append-nil xs)

-- The candidates come from records, in the order of those.
abbrev Picked : (Mx → Type 0) → ℕ → List Bytes → List Bytes → Type 0
Picked P n seen out =
    (chosen : List Mx) × (out ≡ seen ++ hosts_of chosen)
    × Ascending n chosen
    × All P chosen
    × All HasHost chosen

pick-Picked :
    (P : Mx → Type 0) (max_mx n : ℕ) (seen : List Bytes) (rs : List Mx)
    → Ascending n rs
    → All P rs
    → Picked P n seen (pick max_mx seen rs)
unfolding pick
pick-Picked P max_mx n seen [] a h = ([], sym (append-nil seen), tt, tt, tt)
pick-Picked P max_mx n seen (r ∷ rs) a h = elim (Bool-cases (is_left_out (candidate_host r) seen)) [
  | inl e ↦ rw (pick, e) (pick-Picked P max_mx n seen rs (Ascending-le n r.pref rs a.0 a.1) h.1)
  | inr e ↦
      let host = candidate_host r in
      let named : HasHost r = ground arith in
      elim (Bool-cases (length (seen ++ host ∷ []) == max_mx)) [
        | inl f ↦ rw (pick, e, f) (r ∷ [], refl, (a.0, tt), (h.0, tt), (named, tt))
        | inr f ↦
            let (chosen, same, up, all_p, all_named) =
              pick-Picked P max_mx r.pref (seen ++ host ∷ []) rs a.1 h.1 in
            rw (pick, e, f)
              (
                r ∷ chosen,
                same ∙ append_assoc seen host (hosts_of chosen),
                (a.0, up),
                (h.0, all_p),
                (named, all_named),
              )
      ]
]

abbrev pub AreDistinct : List Bytes → Type 0
AreDistinct names = (name : Bytes) → times name names ≤ 1

append-AreDistinct :
    (seen : List Bytes) (host : Bytes)
    → has_text seen host ≡ false
    → AreDistinct seen
    → AreDistinct (seen ++ host ∷ [])
unfolding times
append-AreDistinct seen host new h = λ name.
    let n = times-append name host seen in
    elim (str_eq_cases host name) [
      | inl (t, same) ↦ ground (arith, ap (λ x. times x seen) same, times-absent host seen new)
      | inr (f, _) ↦ ground (arith, h name)
    ]

pick-AreDistinct :
    (max_mx : ℕ) (seen : List Bytes) (rs : List Mx)
    → AreDistinct seen
    → AreDistinct (pick max_mx seen rs)
unfolding pick
pick-AreDistinct max_mx seen [] h = h
pick-AreDistinct max_mx seen (r ∷ rs) h =
    let host = candidate_host r in
    elim (Bool-cases (is_left_out host seen)) [
      | inl e ↦ rw (pick, e) (pick-AreDistinct max_mx seen rs h)
      | inr e ↦
          let more = append-AreDistinct seen host (ground arith) h in
          elim (Bool-cases (length (seen ++ host ∷ []) == max_mx)) [
            | inl f ↦ rw (pick, e, f) more
            | inr f ↦ rw (pick, e, f) (pick-AreDistinct max_mx (seen ++ host ∷ []) rs more)
          ]
    ]

pick-length :
    (max_mx : ℕ) (seen : List Bytes) (rs : List Mx)
    → length seen < max_mx
    → length (pick max_mx seen rs) ≤ max_mx
unfolding pick
pick-length max_mx seen [] h = omega arith
pick-length max_mx seen (r ∷ rs) h =
    let host = candidate_host r in
    let n = length-append seen (host ∷ []) in
    elim (Bool-cases (is_left_out host seen)) [
      | inl e ↦ rw (pick, e) (pick-length max_mx seen rs h)
      | inr e ↦ elim (Bool-cases (length (seen ++ host ∷ []) == max_mx)) [
        | inl f ↦ rw (pick, e, f) (ground arith)
        | inr f ↦ rw (pick, e, f) (pick-length max_mx (seen ++ host ∷ []) rs (ground arith))
      ]
    ]

abbrev pub HasRecord : List (Option Mx) → Mx → Type 0
HasRecord records r = (i : ℕ) × (get_elem? records i ≡ some (some r))

-- No record is a null MX.
abbrev pub TakesMail : Option Mx → Type 0
TakesMail none = Unit
TakesMail (some r) = str_eq r.host (codes ".") ≡ false

valid_records-parts :
    (P : Mx → Type 0) (records : List (Option Mx)) {valid : List Mx}
    → ((i : ℕ) (r : Mx) → get_elem? records i ≡ some (some r) → P r)
    → valid_records records ≡ ok valid
    → All TakesMail records × All P valid
unfolding valid_records
valid_records-parts P [] {valid} has h =
    let same : [] ≡ valid = ground arith in (tt, subst (All P) same tt)
valid_records-parts P (none ∷ rs) has h =
    let (mail, all_p) = valid_records-parts P rs (λ i. has (suc i)) h in ((tt, mail), all_p)
valid_records-parts P (some r ∷ rs) {valid} has h = elim (Bool-cases (str_eq r.host (codes "."))) [
  | inl e ↦ ground arith
  | inr e ↦ elim (Result-cases (valid_records rs)) [
    | inl (rest, f) ↦
        let (mail, all_p) = valid_records-parts P rs (λ i. has (suc i)) f in
        let same : r ∷ rest ≡ valid = ground arith in
        ((e, mail), subst (All P) same (has 0 r refl, all_p))
    | inr (_, f) ↦ ground arith
  ]
]

-- The candidates of a domain that has records: they name distinct hosts of its records, at least one
-- and at most `max_mx`, in the order of the preferences.
abbrev pub IsHostList : Deliverer → List (Option Mx) → List MxCandidate → Type 0
IsHostList d records found =
    (chosen : List Mx) × (found ≡ candidates (hosts_of chosen))
    × Ascending 0 chosen
    × All (HasRecord records) chosen
    × All HasHost chosen
    × AreDistinct (hosts_of chosen)
    × (1 ≤ length (hosts_of chosen))
    × (length (hosts_of chosen) ≤ d.max_mx)

some_hosts-candidates :
    (names : List Bytes) {found : List MxCandidate}
    → some_hosts names ≡ ok found
    → (found ≡ candidates names) × (1 ≤ length names)
some_hosts-candidates [] h = cc
some_hosts-candidates (h ∷ hs) eq = (cc, omega arith)

none-AreDistinct : AreDistinct []
unfolding times
none-AreDistinct = λ name. omega arith

choose_hosts-IsHostList :
    (d : Deliverer) (records : List (Option Mx)) {found : List MxCandidate}
    → 1 ≤ d.max_mx
    → KeepsRecords d.order_mx
    → choose_hosts d records ≡ ok found
    → All TakesMail records × IsHostList d records found
unfolding choose_hosts
choose_hosts-IsHostList d records room keeps returned =
    let (valid, read, some_left) = bind-parts (valid_records records) _ returned in
    let (mail, all_has) = valid_records-parts (HasRecord records) records (λ i r e. (i, e)) read in
    let placed = rotate d.order_mx (sort mx_before valid) in
    let (chosen, same, up, has, named) =
      pick-Picked (HasRecord records) d.max_mx 0 [] placed (rotate-Ascending d.order_mx valid keeps)
        (rotate-All (HasRecord records) d.order_mx valid keeps all_has) in
    let (made, one) = some_hosts-candidates (pick d.max_mx [] placed) some_left in
    (
      mail,
      (
        chosen,
        made ∙ ap candidates same,
        up,
        has,
        named,
        subst AreDistinct same (pick-AreDistinct d.max_mx [] placed none-AreDistinct),
        subst (λ ns. 1 ≤ length ns) same one,
        subst (λ ns. length ns ≤ d.max_mx) same (pick-length d.max_mx [] placed (omega arith)),
      ),
    )

abbrev pub IsItself : Deliverer → Bytes → List MxCandidate → Type 0
IsItself d domain found =
    (ips : List Bytes) × (lookup_host_ips d domain ≡ ok ips)
    × (found ≡ record { host = domain; ips = some ips } ∷ [])

no_records-IsItself :
    (missing : Bool) (found_ips : Result LookupError (List Bytes)) (domain : Bytes)
    {found : List MxCandidate}
    → no_records missing found_ips domain ≡ ok found
    → (ips : List Bytes) × (found_ips ≡ ok ips)
      × (found ≡ record { host = domain; ips = some ips } ∷ [])
no_records-IsItself missing (ok ips) domain h = (ips, refl, cc)
no_records-IsItself true (err (LookupError.dns not_found)) domain h = cc
no_records-IsItself true (err (LookupError.dns (other_dns e))) domain h = cc
no_records-IsItself true (err (LookupError.private_destination ip)) domain h = cc
no_records-IsItself true (err LookupError.no_such_domain) domain h = cc
no_records-IsItself true (err LookupError.null_mx) domain h = cc
no_records-IsItself false (err e) domain h = cc

-- The domain has no records: none is found, or the answer is empty.
abbrev pub HasNoRecords : Deliverer → Bytes → Type 0
HasNoRecords d domain = (d.lookup_mx domain ≡ err not_found) ⊎ (d.lookup_mx domain ≡ ok [])

-- If the orders move records within their group only, and there is room for a candidate, whatever
-- `hosts` returns is one of two things. The domain has no records, and is its own candidate with the
-- addresses that were found for it. Or it has records, none of them a null MX, and the candidates
-- are the hosts of records, in ascending preference, none empty and none twice, at least one and at
-- most `max_mx`.
pub hosts-IsHostList :
    (d : Deliverer) (domain : Bytes) (found : List MxCandidate)
    → 1 ≤ d.max_mx
    → KeepsRecords d.order_mx
    → hosts d domain ≡ ok found
    → (HasNoRecords d domain × IsItself d domain found)
      ⊎ ((records : List (Option Mx)) × (d.lookup_mx domain ≡ ok records)
          × All TakesMail records
          × IsHostList d records found)
unfolding hosts
hosts-IsHostList d domain found room keeps returned = elim (Result-cases (d.lookup_mx domain)) [
  | inr (not_found, e) ↦ inl (
    inl e,
    no_records-IsItself true (lookup_host_ips d domain) domain (rw (e, hosts) at returned),
  )
  | inr (other_dns text, e) ↦ ground arith
  | inl ([], e) ↦ inl (
    inr e,
    no_records-IsItself false (lookup_host_ips d domain) domain (rw (e, hosts) at returned),
  )
  | inl (r ∷ rs, e) ↦
      let (mail, listed) =
        choose_hosts-IsHostList d (r ∷ rs) room keeps (rw (e, hosts) at returned) in
      inr (r ∷ rs, e, mail, listed)
]
