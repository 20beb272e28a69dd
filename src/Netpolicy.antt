-- ===== src/Netpolicy.antt =====
-- internal/netpolicy/address.go: the addresses that no public connection should go to. A `netip.Addr`
-- is the sequence of its bytes, four or sixteen of them: no address of the program has a zone.
pub mod Canonical
use outboxd.Common.{
  ℕ, zero, suc, ◌+◌, ◌-◌, ◌*◌, ◌/◌, ◌^◌, Bool, true, false, not, ◌&&◌, ◌||◌, Bytes, Option, none,
  some, List, [], ◌∷◌, ◌++◌, length, leb, ◌==◌, if◌then◌else◌,
}
use outboxd.Common.Strings.{drop, any, has_prefix}

-- netip.AddrFromSlice
unfoldable pub addr_from_slice : Bytes → Option Bytes
addr_from_slice ip = if length ip == 4 || length ip == 16 then some ip else none

abbrev pub mapped_prefix : Bytes
mapped_prefix = 0 ∷ 0 ∷ 0 ∷ 0 ∷ 0 ∷ 0 ∷ 0 ∷ 0 ∷ 0 ∷ 0 ∷ 255 ∷ 255 ∷ []

abbrev pub is_mapped : Bytes → Bool
is_mapped addr = length addr == 16 && has_prefix addr mapped_prefix

-- Addr.Unmap
unfoldable pub unmap : Bytes → Bytes
unmap addr = if is_mapped addr then drop 12 addr else addr

pub record Prefix : Type 0 where
  pub base : Bytes
  pub bits : ℕ

-- The first bits of two addresses of one length agree.
unfoldable pub same_bits : Bytes → Bytes → ℕ → Bool
same_bits [] _ bits = true
same_bits (a ∷ xs) [] bits = true
same_bits (a ∷ xs) (b ∷ ys) bits =
    let rest = same_bits xs ys (bits - 8) in
    if leb 8 bits then a == b && rest else a / 2 ^ (8 - bits) == b / 2 ^ (8 - bits)

-- Prefix.Contains
unfoldable pub in_prefix : Bytes → Prefix → Bool
in_prefix addr p = length p.base == length addr && same_bits p.base addr p.bits

abbrev zeros : ℕ → Bytes
zeros zero = []
zeros (suc n) = 0 ∷ zeros n

abbrev prefix4 : ℕ → ℕ → ℕ → ℕ → ℕ → Prefix
prefix4 a b c d bits = record { base = a ∷ b ∷ c ∷ d ∷ []; bits = bits }

-- The bytes that are left out at the end are zero.
abbrev prefix6 : Bytes → ℕ → Prefix
prefix6 start bits = record { base = start ++ zeros (16 - length start); bits = bits }

abbrev pub restricted_prefixes : List Prefix
restricted_prefixes =
    prefix4 0 0 0 0 8
    ∷ prefix4 10 0 0 0 8
    ∷ prefix4 100 64 0 0 10
    ∷ prefix4 127 0 0 0 8
    ∷ prefix4 169 254 0 0 16
    ∷ prefix4 172 16 0 0 12
    ∷ prefix4 192 0 0 0 24
    ∷ prefix4 192 0 2 0 24
    ∷ prefix4 192 31 196 0 24
    ∷ prefix4 192 52 193 0 24
    ∷ prefix4 192 88 99 0 24
    ∷ prefix4 192 168 0 0 16
    ∷ prefix4 192 175 48 0 24
    ∷ prefix4 198 18 0 0 15
    ∷ prefix4 198 51 100 0 24
    ∷ prefix4 203 0 113 0 24
    ∷ prefix4 224 0 0 0 4
    ∷ prefix4 240 0 0 0 4
    ∷ prefix6 [] 128
    ∷ record { base = zeros 15 ++ 1 ∷ []; bits = 128 }
    ∷ prefix6 (0 ∷ 100 ∷ 255 ∷ 155 ∷ []) 96
    ∷ prefix6 (0 ∷ 100 ∷ 255 ∷ 155 ∷ 0 ∷ 1 ∷ []) 48
    ∷ prefix6 (1 ∷ 0 ∷ []) 64
    ∷ prefix6 (1 ∷ 0 ∷ 0 ∷ 0 ∷ 0 ∷ 0 ∷ 0 ∷ 1 ∷ []) 64
    ∷ prefix6 (32 ∷ 1 ∷ []) 23
    ∷ prefix6 (32 ∷ 1 ∷ 13 ∷ 184 ∷ []) 32
    ∷ prefix6 (32 ∷ 2 ∷ []) 16
    ∷ prefix6 (38 ∷ 32 ∷ 0 ∷ 79 ∷ 128 ∷ 0 ∷ []) 48
    ∷ prefix6 (63 ∷ 255 ∷ []) 20
    ∷ prefix6 (95 ∷ 0 ∷ []) 16
    ∷ prefix6 (252 ∷ 0 ∷ []) 7
    ∷ prefix6 (254 ∷ 192 ∷ []) 10
    ∷ prefix6 (254 ∷ 128 ∷ []) 10
    ∷ prefix6 (255 ∷ 0 ∷ []) 8
    ∷ []

unfoldable pub in_any : List Prefix → Bytes → Bool
in_any [] addr = false
in_any (p ∷ ps) addr = in_prefix addr p || in_any ps addr

-- The address that a slice stands for, if any.
unfoldable pub canonical : Bytes → Option Bytes
canonical ip = elim (addr_from_slice ip) [ none ↦ none | some addr ↦ some (unmap addr) ]

unfoldable pub restricted : Bytes → Bool
restricted ip = elim (canonical ip) [ none ↦ true | some addr ↦ in_any restricted_prefixes addr ]
