-- ===== src/Smtpd/AuthLimiter.antt =====
-- internal/smtpd/limiter.go: the authentication limiter's state, its tests, and the operations that
-- end a reservation. Times are nanoseconds since Go's zero time, which is 0; durations are
-- nanoseconds. The counters stay far below 2 ^ 63. `strings.ToLower(strings.TrimSpace(username))`
-- goes by Unicode tables and is the parameter `canon`, of which nothing is assumed.
pub mod Agree
pub mod Terminal
pub mod Admission
pub mod Orphans
pub mod Evictions
pub mod Steps
pub mod Sweep
pub mod Tests
pub mod Reserve
use outboxd.Common.{
  ℕ, ◌+◌, ◌-◌, ◌*◌, ◌^◌, min, Bool, true, false, not, ◌&&◌, Bytes, Option, none, some, List, [],
  ◌∷◌, ◌++◌, ltb, ◌==◌, if◌then◌else◌,
}
use outboxd.Common.Map.{Map, get, insert, remove, modify}

abbrev pub free_attempts : ℕ
free_attempts = 5

abbrev pub second : ℕ
second = 1_000_000_000

abbrev pub lockout_base : ℕ
lockout_base = 2 * second

abbrev pub lockout_max : ℕ
lockout_max = 300 * second

abbrev pub cap_sweep_interval : ℕ
cap_sweep_interval = second

abbrev pub entry_expiry : ℕ
entry_expiry = 1800 * second

-- maxAuthIPEntries, maxAuthKeyEntries and maxAuthUserEntries
abbrev pub max_entries : ℕ
max_entries = 10000

pub record AttemptState : Type 0 where
  pub failures : ℕ
  pub until : ℕ
  pub seen : ℕ
  pub in_flight : ℕ

abbrev pub zero_state : AttemptState
zero_state = record { failures = 0; until = 0; seen = 0; in_flight = 0 }

pub record AuthLimiter : Type 0 where
  pub by_ip : Map AttemptState
  pub by_key : Map AttemptState
  pub by_user : Map AttemptState
  pub pruned : ℕ
  pub max_ip : ℕ
  pub max_key : ℕ
  pub max_user : ℕ
  pub expiry : ℕ
  pub prune_every : ℕ
  pub last_cap_sweep : ℕ
  pub full_sweeps : ℕ

-- newAuthLimiterSized, where a zero stands for every argument that is not positive; `now` is the time
-- of the call.
unfoldable pub new_auth_limiter_sized : ℕ → ℕ → ℕ → ℕ → ℕ → AuthLimiter
new_auth_limiter_sized max_ip max_key expiry prune_every now = record {
  by_ip = [];
  by_key = [];
  by_user = [];
  pruned = now;
  max_ip = if max_ip == 0 then max_entries else max_ip;
  max_key = if max_key == 0 then max_entries else max_key;
  max_user = max_entries;
  expiry = if expiry == 0 then entry_expiry else expiry;
  prune_every = if prune_every == 0 then entry_expiry else prune_every;
  last_cap_sweep = 0;
  full_sweeps = 0;
}

-- The second component of canonicalLimiterKey, for a username that is canonical already.
unfoldable pub identity_key : Bytes → Bytes → Bytes
identity_key ip user = ip ++ (0 ∷ user)

-- strings.Cut(key, "\x00"), the part before.
unfoldable pub ip_from_key : Bytes → Bytes
ip_from_key [] = []
ip_from_key (c ∷ cs) = if c == 0 then [] else c ∷ ip_from_key cs

unfoldable pub can_reserve : Option AttemptState → ℕ → Bool
can_reserve none now = true
can_reserve (some st) now =
    if ltb now st.until
    then false
    else if ltb st.failures free_attempts
    then ltb (st.failures + st.in_flight) free_attempts
    else st.in_flight == 0

unfoldable pub empty_state : AttemptState → ℕ → Bool
empty_state st now = st.failures == 0 && st.in_flight == 0 && not (ltb now st.until)

-- The write of a state that the caller has just changed, deleted at once where it is empty.
unfoldable pub settle : Bytes → AttemptState → ℕ → Map AttemptState → Map AttemptState
settle k st now m = if empty_state st now then remove k m else insert k st m

unfoldable pub drop_empty_found :
    Option AttemptState → Bytes → ℕ → Map AttemptState → Map AttemptState
drop_empty_found none k now m = m
drop_empty_found (some st) k now m = if empty_state st now then remove k m else m

-- dropEmpty, on one of its two maps
unfoldable pub drop_empty : Bytes → ℕ → Map AttemptState → Map AttemptState
unfolding drop_empty_found
drop_empty k now m = drop_empty_found (get k m) k now m

-- releaseInFlight, on the state
unfoldable pub released : ℕ → AttemptState → AttemptState
released now st = record st { in_flight = st.in_flight - 1; seen = now }

unfoldable pub lockout : ℕ → ℕ
lockout failures = min (lockout_base * 2 ^ min (failures - free_attempts) 10) lockout_max

-- convertFail, on the state
unfoldable pub fail_state : ℕ → AttemptState → AttemptState
fail_state now st =
    let failures = st.failures + 1 in
    record {
      failures = failures;
      until = if ltb failures free_attempts then st.until else now + lockout failures;
      seen = now;
      in_flight = st.in_flight - 1;
    }

unfoldable pub release_user_found :
    Option AttemptState → Bytes → ℕ → Map AttemptState → Map AttemptState
release_user_found none user now m = m
release_user_found (some st) user now m =
    if (released now st).in_flight == 0 then remove user m else insert user (released now st) m

unfoldable pub release_user : Bytes → ℕ → Map AttemptState → Map AttemptState
unfolding release_user_found released
release_user user now m = release_user_found (get user m) user now m

-- `st == nil || st.inFlight == 0`, negated
unfoldable pub is_reserved : Option AttemptState → Bool
is_reserved none = false
is_reserved (some st) = not (st.in_flight == 0)

-- An identity after its success, and the source IP's state after it.
unfoldable pub success_state : ℕ → AttemptState → AttemptState
success_state now st = record { failures = 0; until = 0; seen = now; in_flight = st.in_flight - 1 }

unfoldable pub cleared_ip_state : ℕ → ℕ → AttemptState → AttemptState
cleared_ip_state cleared now st =
    let failures = st.failures - cleared in
    record {
      failures = failures;
      until = if ltb failures free_attempts then 0 else st.until;
      seen = now;
      in_flight = st.in_flight - 1;
    }

unfoldable pub success_ip_found :
    Option AttemptState → Bytes → ℕ → ℕ → Map AttemptState → Map AttemptState
success_ip_found none ip cleared now m = m
success_ip_found (some st) ip cleared now m = settle ip (cleared_ip_state cleared now st) now m

unfoldable pub success_ip : Bytes → ℕ → ℕ → Map AttemptState → Map AttemptState
unfolding success_ip_found
success_ip ip cleared now m = success_ip_found (get ip m) ip cleared now m

unfoldable pub success_found :
    Option AttemptState → Bytes → Bytes → Bytes → ℕ → AuthLimiter → AuthLimiter
success_found none ip key user now l = l
success_found (some st) ip key user now l = if st.in_flight == 0 then l else record l {
  by_key = settle key (success_state now st) now l.by_key;
  by_ip = success_ip ip st.failures now l.by_ip;
  by_user = release_user user now l.by_user;
}

module _ (canon : Bytes → Bytes) where
  unfoldable pub failed : Bytes → Bytes → ℕ → AuthLimiter → AuthLimiter
  failed ip username now l =
      let key = identity_key ip (canon username) in
      if is_reserved (get key l.by_key)
      then record l {
        by_key = modify key (fail_state now) l.by_key;
        by_ip = modify ip (fail_state now) l.by_ip;
        by_user = release_user (canon username) now l.by_user;
      }
      else l

  unfoldable pub canceled : Bytes → Bytes → ℕ → AuthLimiter → AuthLimiter
  canceled ip username now l =
      let key = identity_key ip (canon username) in
      if is_reserved (get key l.by_key)
      then record l {
        by_key = drop_empty key now (modify key (released now) l.by_key);
        by_ip = drop_empty ip now (modify ip (released now) l.by_ip);
        by_user = release_user (canon username) now l.by_user;
      }
      else l

  unfoldable pub succeeded : Bytes → Bytes → ℕ → AuthLimiter → AuthLimiter
  unfolding success_found
  succeeded ip username now l =
      let key = identity_key ip (canon username) in
      success_found (get key l.by_key) ip key (canon username) now l
