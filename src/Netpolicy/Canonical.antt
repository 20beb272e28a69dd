-- ===== src/Netpolicy/Canonical.antt =====
-- internal/netpolicy/address.go: a canonical address is its own canonical form.
use outboxd.Common.{
  ℕ, zero, suc, ◌-◌, Bool, true, false, ◌||◌, Bytes, some, [], ◌∷◌, length, ◌==◌, ◌≡◌, refl, subst,
  inl, inr, arith, Bool-cases,
}
use outboxd.Common.Strings.{drop}
use outboxd.Netpolicy.{addr_from_slice, unmap, is_mapped, canonical, restricted}

length-drop : (n : ℕ) (s : Bytes) → length (drop n s) ≡ length s - n
length-drop zero s = omega arith
length-drop (suc n) [] = omega arith
length-drop (suc n) (x ∷ s) = omega (arith, length-drop n s)

abbrev four_or_sixteen : Bytes → Bool
four_or_sixteen ip = length ip == 4 || length ip == 16

from_slice-some : (ip : Bytes) → four_or_sixteen ip ≡ true → addr_from_slice ip ≡ some ip
unfolding addr_from_slice
from_slice-some ip h = rw h refl

-- The canonical form of an address is a canonical address.
canonical-fixed : (ip : Bytes) → four_or_sixteen ip ≡ true → canonical (unmap ip) ≡ some (unmap ip)
unfolding canonical unmap
canonical-fixed ip h = elim (Bool-cases (is_mapped ip)) [
  | inl m ↦
      let e = from_slice-some (drop 12 ip) (ground (arith, length-drop 12 ip)) in
      let f : is_mapped (drop 12 ip) ≡ false = ground (arith, length-drop 12 ip) in
      rw (m, canonical, e, unmap, f) refl
  | inr m ↦ rw (m, canonical, from_slice-some ip h, unmap, m) refl
]

pub canonical-twice : (ip addr : Bytes) → canonical ip ≡ some addr → canonical addr ≡ some addr
unfolding canonical addr_from_slice
canonical-twice ip addr h = elim (Bool-cases (four_or_sixteen ip)) [
  | inl e ↦
      let f : unmap ip ≡ addr = ground arith in
      subst (λ a. canonical a ≡ some a) f (canonical-fixed ip e)
  | inr e ↦ ground arith
]

-- A slice and the address it stands for are restricted alike.
pub restricted-canonical :
    (ip addr : Bytes) → canonical ip ≡ some addr → restricted addr ≡ restricted ip
unfolding restricted
restricted-canonical ip addr h = rw (restricted, h, canonical-twice ip addr h) refl
