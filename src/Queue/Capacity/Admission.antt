-- ===== src/Queue/Capacity/Admission.antt =====
-- What an admitted reservation of internal/queue/capacity.go promises.
use outboxd.Common.{
  ℕ, ◌+◌, ◌≤◌, ◌≡◌, Bool, false, ◌⊎◌, Bytes, Option, none, some, arith, str_eq_refl,
}
use outboxd.Common.Map.{get, insert, get-insert}
use outboxd.Common.Result.{Result, ok}
use outboxd.Queue.State.{QueueError, Queue, max_int, checked_add, or_no_usage}
use outboxd.Queue.Capacity.{reserve_physical, within_quotas, add_reservation, reserve, or_fail}

-- A limit of 0 is none.
abbrev pub Within : ℕ → ℕ → Type 0
Within n limit = (limit ≡ 0) ⊎ (n ≤ limit)

-- The quotas hold of what is stored and what is reserved, for the queue and for one owner.
pub record InQuota (owner : Bytes) (q : Queue) : Type 0 where
  pub messages : Within (q.count + q.reserved) q.limits.max_messages
  pub bytes : Within (q.bytes + q.res_bytes) q.limits.max_bytes
  pub user_messages :
      Within
        ((or_no_usage (get owner q.users)).messages + (or_no_usage (get owner q.users)).reserved)
        q.limits.max_messages_per_user
  pub user_bytes :
      Within
        ((or_no_usage (get owner q.users)).bytes + (or_no_usage (get owner q.users)).res_bytes)
        q.limits.max_bytes_per_user
  pub no_overflow : q.bytes + q.res_bytes ≤ max_int

checked_add-eq : (a b : ℕ) (c : ℕ) → checked_add a b ≡ some c → (c ≡ a + b)
unfolding checked_add
checked_add-eq a b c h = ground arith

checked_add_bound :
    (a b : ℕ) (c : ℕ) → a ≤ max_int → b ≤ max_int → checked_add a b ≡ some c → a + b ≤ max_int
unfolding checked_add
checked_add_bound a b c ha hb h = ground arith

or_fail-eq : (o : Option ℕ) (e : QueueError) (n : ℕ) → or_fail o e ≡ ok n → o ≡ some n
or_fail-eq none e n h = ground arith
or_fail-eq (some m) e n h = ground arith

pub reserve_physical-eq :
    (free : Option (Result QueueError ℕ)) (physical : ℕ) (emergency terminal : Bool) (q r : Queue)
    → reserve_physical free physical emergency terminal q ≡ ok r
    → r ≡ record q { spool_reserved = q.spool_reserved + physical }
unfolding reserve_physical checked_add
reserve_physical-eq free physical emergency terminal q r h = ground arith

-- What is stored and held fits into an integer, but where nothing is held.
pub reserve_physical-fits :
    (free : Option (Result QueueError ℕ)) (physical : ℕ) (emergency terminal : Bool) (q r : Queue)
    → physical ≤ max_int
    → reserve_physical free physical emergency terminal q ≡ ok r
    → (physical ≡ 0) ⊎ (q.spool_bytes + physical ≤ max_int)
unfolding reserve_physical checked_add
reserve_physical-fits free physical emergency terminal q r b h = ground arith

within_quotas_lem :
    (q : Queue) (owner : Bytes) (size used total : ℕ)
    → within_quotas q owner size used total ≡ ok tt
    → let u = or_no_usage (get owner q.users) in
      Within (used + 1) q.limits.max_messages
      × Within total q.limits.max_bytes
      × Within (u.messages + u.reserved + 1) q.limits.max_messages_per_user
      × Within (u.bytes + u.res_bytes + size) q.limits.max_bytes_per_user
unfolding within_quotas checked_add
within_quotas_lem q owner size used total h = ground arith

-- An ordinary reservation never takes the spool's estimate past its limit less the emergency
-- reserve.
abbrev pub SpoolRoom : Queue → ℕ → Type 0
SpoolRoom q margin =
    (q.limits.max_spool_bytes ≡ 0)
    ⊎ (q.spool_bytes + q.spool_reserved + margin ≤ q.limits.max_spool_bytes)

-- A granted reservation without emergency leaves the estimate of the spool, with what is reserved,
-- at most the configured limit less the emergency headroom, where a limit is configured.
pub reserve_physical-room :
    (free : Option (Result QueueError ℕ)) (physical : ℕ) (terminal : Bool) (q r : Queue)
    → reserve_physical free physical false terminal q ≡ ok r
    → SpoolRoom r r.limits.spool_emergency_bytes
unfolding reserve_physical checked_add
reserve_physical-room free physical terminal q r h = ground arith

module _ (free : Option (Result QueueError ℕ)) (size physical : ℕ) (emergency : Bool)
    (owner : Bytes) (q r : Queue)
    (h : reserve free size physical false emergency owner q ≡ ok r) where
  quota_checked :
      within_quotas q owner size (q.count + q.reserved) (q.bytes + q.res_bytes + size) ≡ ok tt
  unfolding reserve checked_add
  quota_checked = ground arith

  held : (q' : Queue) × (reserve_physical free physical emergency false q ≡ ok q')
  unfolding reserve checked_add
  held = ground arith

  admitted : r ≡ record q {
    spool_reserved = q.spool_reserved + physical;
    reserved = q.reserved + 1;
    res_bytes = q.res_bytes + size;
    users = insert owner (add_reservation (or_no_usage (get owner q.users)) size) q.users;
  }
  unfolding reserve checked_add
  admitted =
      ground (arith, held.1, reserve_physical-eq free physical emergency false q held.0 held.1)

  within :
      (let u = or_no_usage (get owner q.users) in
        Within (q.count + q.reserved + 1) q.limits.max_messages
        × Within (q.bytes + q.res_bytes + size) q.limits.max_bytes
        × Within (u.messages + u.reserved + 1) q.limits.max_messages_per_user
        × Within (u.bytes + u.res_bytes + size) q.limits.max_bytes_per_user)
  within = within_quotas_lem q owner size _ _ quota_checked

  owner_usage :
      get owner (insert owner (add_reservation (or_no_usage (get owner q.users)) size) q.users)
      ≡ some (add_reservation (or_no_usage (get owner q.users)) size)
  owner_usage = rw (get-insert, str_eq_refl owner)

  sum_fits :
      q.bytes ≤ max_int
      → q.res_bytes ≤ max_int
      → size ≤ max_int
      → q.bytes + (q.res_bytes + size) ≤ max_int
  unfolding reserve checked_add
  sum_fits a b c = ground arith

  -- A granted ordinary reservation leaves the stored and reserved messages and bytes together
  -- within the queue's limits and within the limits of the user who is charged, and their sum has
  -- not wrapped around, given that the byte
  -- counters and the message's size are values of an int64.
  pub reserve-InQuota : q.bytes ≤ max_int → q.res_bytes ≤ max_int → size ≤ max_int → InQuota owner r
  unfolding add_reservation
  reserve-InQuota a b c = rw admitted (record {
    messages = ground (arith, within.0);
    bytes = ground (arith, within.1);
    user_messages = ground (arith, within.2, owner_usage);
    user_bytes = ground (arith, within.3, owner_usage);
    no_overflow = sum_fits a b c;
  })
