-- ===== src/Deliver/Discovery.antt =====
-- internal/deliver/discovery.go: the hosts of a domain and the addresses of a host. The resolver and
-- the text of an address (net.IP.String) are parameters, and so are the two orders, which shuffle in
-- production; a lookup that its context cancels is one that fails. A host of a DNS record is ASCII.
pub mod Selected
pub mod Hosts
pub mod Preferences
mod Tests
use outboxd.Common.{
  ℕ, zero, suc, ◌+◌, ◌-◌, Bool, true, false, not, ◌&&◌, ◌||◌, Bytes, codes, str_eq, Option, none,
  some, List, [], ◌∷◌, ◌++◌, length, ltb, leb, ◌==◌, if◌then◌else◌,
}
use outboxd.Common.Result.{Result, ok, err, ◌>>=◌}
use outboxd.Common.Strings.{take, drop, any, is_empty, has_suffix, to_lower_ascii, trim_dot}
use outboxd.Netpolicy.{is_mapped, canonical, restricted}

-- A net.DNSError that says that the name does not exist, and any other error.
pub data DnsError : Type 0 where
  not_found : DnsError
  other_dns : Bytes → DnsError

pub data LookupError : Type 0 where
  dns : DnsError → LookupError
  private_destination : Bytes → LookupError
  no_such_domain null_mx : LookupError

-- net.MX
pub record Mx : Type 0 where
  pub host : Bytes
  pub pref : ℕ

pub record MxCandidate : Type 0 where
  pub host : Bytes
  -- The nil slice is `none`.
  pub ips : Option (List Bytes)

-- What the lookups read of the Deliverer and of its configuration.
pub record Deliverer : Type 0 where
  pub bind_ipv4 : Bytes
  pub bind_ipv6 : Bytes
  pub allow_private_destinations : Bool
  pub allowlist : List Bytes
  pub max_mx : ℕ
  pub max_ip : ℕ
  pub order_ips : Option (List Bytes → List Bytes)
  pub order_mx : Option (List Mx → List Mx)
  pub show_ip : Bytes → Bytes
  pub lookup_net_ip : Bytes → Bytes → Result DnsError (List Bytes)
  pub lookup_mx : Bytes → Result DnsError (List (Option Mx))

abbrev pub has_text : List Bytes → Bytes → Bool
has_text [] s = false
has_text (x ∷ xs) s = str_eq x s || has_text xs s

unfoldable pub lookup_network : Deliverer → Bytes
lookup_network d =
    let has4 = not (is_empty d.bind_ipv4) || is_empty d.bind_ipv6 in
    let has6 = not (is_empty d.bind_ipv6) in
    if has4 && has6 then codes "ip" else if has6 && not has4 then codes "ip6" else codes "ip4"

-- net.IP.To4
abbrev pub to4 : Bytes → Option Bytes
to4 ip = if length ip == 4 then some ip else if is_mapped ip then some (drop 12 ip) else none

unfoldable pub allowlisted : Deliverer → Bytes → Bool
allowlisted d ip =
    has_text d.allowlist (d.show_ip ip)
    || elim (to4 ip) [ none ↦ false | some ip4 ↦ has_text d.allowlist (d.show_ip ip4) ]

unfoldable pub check_destination : Deliverer → Bytes → Option LookupError
check_destination d ip =
    if d.allow_private_destinations
    then none
    else if allowlisted d ip
    then none
    else if restricted ip
    then some (private_destination (d.show_ip ip))
    else none

-- The addresses in the order of the answer, and the last error of the policy.
pub record Gathered : Type 0 where
  pub ordered : List Bytes
  pub disallowed : Option LookupError

abbrev pub add_unique : Bytes → List Bytes → List Bytes
add_unique addr ordered = if has_text ordered addr then ordered else ordered ++ addr ∷ []

unfoldable pub gather_ip : Deliverer → Bytes → Gathered → Gathered
gather_ip d ip g = elim (check_destination d ip) [
  | some e ↦ record g { disallowed = some e }
  | none ↦ elim (canonical ip) [
    | none ↦ g
    | some addr ↦ record g { ordered = add_unique addr g.ordered }
  ]
]

unfoldable pub gather : Deliverer → List Bytes → Gathered → Gathered
gather d [] g = g
gather d (ip ∷ ips) g = gather d ips (gather_ip d ip g)

-- The order of the bytes of two texts, strings.Compare being below zero.
unfoldable pub text_before : Bytes → Bytes → Bool
text_before s [] = false
text_before [] (b ∷ t) = true
text_before (a ∷ s) (b ∷ t) = ltb a b || a == b && text_before s t

-- Addr.Compare is below zero: a shorter address comes first.
abbrev pub addr_before : Bytes → Bytes → Bool
addr_before a b = ltb (length a) (length b) || length a == length b && text_before a b

-- slices.SortFunc at the order `before`: equal elements stay as they are.
module _ {A : Type 0} (before : A → A → Bool) where
  unfoldable pub insert : A → List A → List A
  insert x [] = x ∷ []
  insert x (y ∷ ys) = let rest = insert x ys in if before y x then y ∷ rest else x ∷ y ∷ ys

  unfoldable pub sort : List A → List A
  sort [] = []
  sort (x ∷ xs) = insert x (sort xs)

abbrev pub ordered_by {ℓ} : {A : Type ℓ} → Option (List A → List A) → List A → List A
ordered_by none xs = xs
ordered_by (some order) xs = order xs

abbrev pub select : Deliverer → List Bytes → Option LookupError → Result LookupError (List Bytes)
select d [] (some e) = err e
select d ordered disallowed = ok (take d.max_ip (ordered_by d.order_ips (sort addr_before ordered)))

abbrev pub lift_dns {ℓ} : {A : Type ℓ} → Result DnsError A → Result LookupError A
lift_dns (err e) = err (dns e)
lift_dns (ok v) = ok v

unfoldable pub lookup_host_ips : Deliverer → Bytes → Result LookupError (List Bytes)
lookup_host_ips d host = lift_dns (d.lookup_net_ip (lookup_network d) host) >>= λ addrs.
    let g = gather d addrs (record { ordered = []; disallowed = none }) in
    select d g.ordered g.disallowed

-- The records that are not nil. A null MX says that the domain takes no mail.
unfoldable pub valid_records : List (Option Mx) → Result LookupError (List Mx)
valid_records [] = ok []
valid_records (none ∷ rs) = valid_records rs
valid_records (some r ∷ rs) =
    let rest = valid_records rs >>= λ valid. ok (r ∷ valid) in
    if str_eq r.host (codes ".") then err null_mx else rest

abbrev pub mx_before : Mx → Mx → Bool
mx_before a b =
    if a.pref == b.pref
    then text_before (to_lower_ascii a.host) (to_lower_ascii b.host)
    else ltb a.pref b.pref

-- A record joins the group behind it, if that has the same preference.
abbrev pub join_group : Mx → List (List Mx) → List (List Mx)
join_group r [] = (r ∷ []) ∷ []
join_group r ([] ∷ groups) = (r ∷ []) ∷ groups
join_group r ((x ∷ group) ∷ groups) =
    if r.pref == x.pref then (r ∷ x ∷ group) ∷ groups else (r ∷ []) ∷ (x ∷ group) ∷ groups

unfoldable pub groups : List Mx → List (List Mx)
groups [] = []
groups (r ∷ rs) = join_group r (groups rs)

unfoldable pub order_groups : (List Mx → List Mx) → List (List Mx) → List Mx
order_groups order [] = []
order_groups order (g ∷ gs) = order g ++ order_groups order gs

abbrev pub rotate : Option (List Mx → List Mx) → List Mx → List Mx
rotate none valid = valid
rotate (some order) valid = order_groups order (groups valid)

abbrev pub candidate_host : Mx → Bytes
candidate_host r = to_lower_ascii (trim_dot r.host)

abbrev pub is_left_out : Bytes → List Bytes → Bool
is_left_out host seen = is_empty host || str_eq host (codes ".") || has_text seen host

-- The loop over the ordered records, with the hosts that are already candidates.
unfoldable pub pick : ℕ → List Bytes → List Mx → List Bytes
pick max_mx seen [] = seen
pick max_mx seen (r ∷ rs) =
    let host = candidate_host r in
    elim (is_left_out host seen) [
      | true ↦ pick max_mx seen rs
      | false ↦ elim (length (seen ++ host ∷ []) == max_mx) [
        | true ↦ seen ++ host ∷ []
        | false ↦ pick max_mx (seen ++ host ∷ []) rs
      ]
    ]

abbrev pub candidates : List Bytes → List MxCandidate
candidates [] = []
candidates (h ∷ hs) = record { host = h; ips = none } ∷ candidates hs

abbrev pub some_hosts : List Bytes → Result LookupError (List MxCandidate)
some_hosts [] = err null_mx
some_hosts (h ∷ hs) = ok (candidates (h ∷ hs))

unfoldable pub choose_hosts : Deliverer → List (Option Mx) → Result LookupError (List MxCandidate)
choose_hosts d records = valid_records records >>= λ valid.
    some_hosts (pick d.max_mx [] (rotate d.order_mx (sort mx_before valid)))

abbrev pub no_records :
    Bool → Result LookupError (List Bytes) → Bytes → Result LookupError (List MxCandidate)
no_records missing (ok ips) domain = ok (record { host = domain; ips = some ips } ∷ [])
no_records true (err (dns not_found)) domain = err no_such_domain
no_records missing (err e) domain = err e

unfoldable pub hosts : Deliverer → Bytes → Result LookupError (List MxCandidate)
hosts d domain = elim (d.lookup_mx domain) [
  | err (other_dns e) ↦ err (dns (other_dns e))
  | err not_found ↦ no_records true (lookup_host_ips d domain) domain
  | ok [] ↦ no_records false (lookup_host_ips d domain) domain
  | ok (r ∷ rs) ↦ choose_hosts d (r ∷ rs)
]
