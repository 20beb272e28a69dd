-- ===== src/Deliver/Limiter.antt =====
-- internal/deliver/limiter.go: the slots that bound the attempts for one domain, or for one user.
-- The callback on a release is the caller's business: Parking runs it after `release`.
pub mod Counts
mod Tests
use outboxd.Common.{
  ℕ, suc, ◌+◌, ◌-◌, Bool, true, false, Bytes, Option, none, some, List, [], ◌∷◌, ltb, leb,
  if◌then◌else◌,
}
use outboxd.Common.Map.{Map, get, insert, remove}

pub record DomainLimiter : Type 0 where
  pub limit : ℕ
  -- The holders of each slot.
  pub slots : Map ℕ

abbrev pub is_empty : Bytes → Bool
is_empty [] = true
is_empty (c ∷ s) = false

unfoldable pub new_domain_limiter : ℕ → DomainLimiter
new_domain_limiter limit = record { limit = if ltb limit 1 then 1 else limit; slots = [] }

-- The part of tryAcquire after the entry is looked up.
abbrev pub acquire_entry : Option ℕ → Bytes → DomainLimiter → DomainLimiter × Bool
acquire_entry none domain l = (record l { slots = insert domain 1 l.slots }, true)
acquire_entry (some holders) domain l =
    if leb l.limit holders
    then (l, false)
    else (record l { slots = insert domain (holders + 1) l.slots }, true)

unfoldable pub try_acquire : Bytes → DomainLimiter → DomainLimiter × Bool
try_acquire domain l =
    if is_empty domain then (l, true) else acquire_entry (get domain l.slots) domain l

-- A slot in the map has a holder, so that its decrement does not pass below zero.
abbrev pub release_entry : Option ℕ → Bytes → DomainLimiter → DomainLimiter
release_entry none domain l = l
release_entry (some holders) domain l =
    if leb holders 1
    then record l { slots = remove domain l.slots }
    else record l { slots = insert domain (holders - 1) l.slots }

unfoldable pub release : Bytes → DomainLimiter → DomainLimiter
release domain l = release_entry (get domain l.slots) domain l

abbrev pub has_room : Option ℕ → ℕ → Bool
has_room none limit = true
has_room (some holders) limit = ltb holders limit

unfoldable pub available : Bytes → DomainLimiter → Bool
available domain l = if is_empty domain then true else has_room (get domain l.slots) l.limit
