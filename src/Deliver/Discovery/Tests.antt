-- ===== src/Deliver/Discovery/Tests.antt =====
-- The lookups of internal/deliver/discovery.go at a concrete resolver.
use outboxd.Common.{
  true, false, Bytes, codes, str_eq, Option, none, some, List, [], ◌∷◌, ◌≡◌, refl, ◌⊎◌, arith, All,
}
use outboxd.Common.Result.{ok, err}
use outboxd.Common.Strings.{has_prefix, to_lower_ascii, trim_dot}
use outboxd.Netpolicy.{addr_from_slice, unmap, same_bits, in_prefix, in_any, canonical, restricted}
use outboxd.Deliver.Discovery.{
  Deliverer, Mx, null_mx, lookup_host_ips, lookup_network, hosts, allowlisted, check_destination,
  gather, gather_ip, sort, insert, text_before, valid_records, groups, order_groups, pick,
  choose_hosts,
}
use outboxd.Deliver.Discovery.Selected.{times, Reorders, IsSelection, lookup_host_ips-IsSelection}
use outboxd.Deliver.Discovery.Hosts.{
  HasNoRecords, IsItself, TakesMail, IsHostList, hosts-IsHostList,
}
use outboxd.Deliver.Discovery.Preferences.{KeepsRecords}

-- Another order: the first two change places.
abbrev swap {ℓ} : {A : Type ℓ} → List A → List A
swap [] = []
swap (x ∷ []) = x ∷ []
swap (x ∷ y ∷ xs) = y ∷ x ∷ xs

swap-Reorders : Reorders (some swap)
unfolding times
swap-Reorders [] s = refl
swap-Reorders (x ∷ []) s = refl
swap-Reorders (x ∷ y ∷ xs) s = ground arith

swap-KeepsRecords : KeepsRecords (some swap)
swap-KeepsRecords P [] h = tt
swap-KeepsRecords P (x ∷ []) h = h
swap-KeepsRecords P (x ∷ y ∷ rs) h = (h.1.0, (h.0, h.1.1))

abbrev public_ip : Bytes
public_ip = 93 ∷ 184 ∷ 216 ∷ 34 ∷ []

abbrev other_ip : Bytes
other_ip = 8 ∷ 8 ∷ 8 ∷ 8 ∷ []

abbrev private_ip : Bytes
private_ip = 10 ∷ 1 ∷ 2 ∷ 3 ∷ []

-- The public address in an IPv6 address.
abbrev mapped_ip : Bytes
mapped_ip = 0 ∷ 0 ∷ 0 ∷ 0 ∷ 0 ∷ 0 ∷ 0 ∷ 0 ∷ 0 ∷ 0 ∷ 255 ∷ 255 ∷ public_ip

abbrev answers : List Bytes
answers = public_ip ∷ private_ip ∷ mapped_ip ∷ other_ip ∷ []

abbrev records : List (Option Mx)
records =
    some (record { host = codes "b.example."; pref = 20 })
    ∷ some (record { host = codes "A.example."; pref = 10 })
    ∷ none
    ∷ some (record { host = codes "a.example"; pref = 30 })
    ∷ some (record { host = codes "c.example"; pref = 20 })
    ∷ []

abbrev deliverer : Deliverer
deliverer = record {
  bind_ipv4 = [];
  bind_ipv6 = [];
  allow_private_destinations = false;
  allowlist = [];
  max_mx = 2;
  max_ip = 3;
  order_ips = some swap;
  order_mx = some swap;
  show_ip = λ ip. ip;
  lookup_net_ip = λ network host. ok answers;
  lookup_mx = λ domain. ok records;
}

restricted_private : restricted private_ip ≡ true
unfolding addr_from_slice unmap same_bits in_prefix in_any canonical restricted
restricted_private = refl

restricted_public : restricted mapped_ip ≡ false
unfolding addr_from_slice unmap same_bits in_prefix in_any canonical restricted has_prefix
restricted_public = refl

restricted_short : restricted (10 ∷ 0 ∷ []) ≡ true
unfolding addr_from_slice canonical restricted
restricted_short = refl

-- The private address is left out, and the mapped one is the public one.
selected_ips : lookup_host_ips deliverer (codes "a.example") ≡ ok (public_ip ∷ other_ip ∷ [])
unfolding lookup_host_ips lookup_network allowlisted check_destination gather gather_ip sort insert
    text_before addr_from_slice unmap same_bits in_prefix in_any canonical restricted has_prefix
    str_eq
selected_ips = refl

selected_hosts :
    hosts deliverer (codes "example")
    ≡ ok (
        record { host = codes "a.example"; ips = none }
        ∷ record { host = codes "c.example"; ips = none }
        ∷ [])
unfolding hosts choose_hosts valid_records sort insert text_before groups order_groups pick trim_dot
    str_eq to_lower_ascii
selected_hosts = refl

null_mx_refused :
    hosts
      (record deliverer {
        lookup_mx = λ domain. ok (some (record { host = codes "."; pref = 0 }) ∷ []);
      })
      (codes "example")
    ≡ err null_mx
unfolding hosts choose_hosts valid_records str_eq
null_mx_refused = refl

lookup_host_ips-IsSelection_example :
    (found : List Bytes) × (deliverer.lookup_net_ip (lookup_network deliverer) (codes "a.example")
      ≡ ok found)
    × IsSelection deliverer found (public_ip ∷ other_ip ∷ [])
lookup_host_ips-IsSelection_example =
    lookup_host_ips-IsSelection deliverer (codes "a.example") (public_ip ∷ other_ip ∷ [])
      swap-Reorders selected_ips

hosts-IsHostList_example :
    (HasNoRecords deliverer (codes "example")
      × IsItself deliverer (codes "example") (
          record { host = codes "a.example"; ips = none }
          ∷ record { host = codes "c.example"; ips = none }
          ∷ []))
    ⊎ ((read : List (Option Mx)) × (deliverer.lookup_mx (codes "example") ≡ ok read)
        × All TakesMail read
        × IsHostList deliverer read (
            record { host = codes "a.example"; ips = none }
            ∷ record { host = codes "c.example"; ips = none }
            ∷ []))
hosts-IsHostList_example =
    hosts-IsHostList deliverer (codes "example")
      (record { host = codes "a.example"; ips = none }
        ∷ record { host = codes "c.example"; ips = none }
        ∷ [])
      (omega arith) swap-KeepsRecords selected_hosts
