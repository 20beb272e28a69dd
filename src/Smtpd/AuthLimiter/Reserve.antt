-- ===== src/Smtpd/AuthLimiter/Reserve.antt =====
-- internal/smtpd/limiter.go: reserve. The source holds pointers to the three states while it
-- sweeps, so the model keeps the value that each pointer shows beside the maps.
use outboxd.Common.{
  ℕ, ◌+◌, ◌-◌, Bool, true, false, not, ◌&&◌, ◌||◌, Bytes, Option, none, some, leb, ltb, str_eq,
  length, if◌then◌else◌,
}
use outboxd.Common.Map.{Map, get, insert, modify}
use outboxd.Smtpd.AuthLimiter.{
  free_attempts, cap_sweep_interval, AttemptState, AuthLimiter, zero_state, identity_key,
  ip_from_key, can_reserve,
}
use outboxd.Smtpd.AuthLimiter.Sweep.{
  dropped_ip_state, force_prune, maybe_periodic_prune, evict_oldest_key, evict_oldest_ip,
}

-- What reserve holds between its capacity check and its end: the limiter, and the states that
-- ipState and keyState point to.
pub record Held : Type 0 where
  pub limiter : AuthLimiter
  pub ip_state : Option AttemptState
  pub key_state : Option AttemptState

unfoldable pub is_nil {ℓ} : {A : Type ℓ} → Option A → Bool
is_nil none = true
is_nil (some a) = false

unfoldable pub hold : Bytes → Bytes → AuthLimiter → Held
hold ip key l = record { limiter = l; ip_state = get ip l.by_ip; key_state = get key l.by_key }

-- dropIdentityLocked changes the source IP's state in place, also where it then deletes the entry.
unfoldable pub seen_through :
    Bytes → Bytes → AttemptState → ℕ → Option AttemptState → Option AttemptState
seen_through ip key st now none = none
seen_through ip key st now (some ip_state) =
    if str_eq (ip_from_key key) ip then some (dropped_ip_state st now ip_state) else some ip_state

unfoldable pub evicted_key :
    Option (Bytes × AttemptState × AuthLimiter) → Bytes → ℕ → Held → Option Held
evicted_key none ip now h = none
evicted_key (some (k, st, l)) ip now h =
    some (record h { limiter = l; ip_state = seen_through ip k st now h.ip_state })

-- `if needNewKey && len(l.byKey) >= l.maxKey && !l.evictOldestKey(now) { return false }`
unfoldable pub room_for_key : Bytes → ℕ → Held → Option Held
unfolding is_nil evicted_key
room_for_key ip now h =
    if is_nil h.key_state && leb h.limiter.max_key (length h.limiter.by_key)
    then evicted_key (evict_oldest_key now h.limiter) ip now h
    else some h

unfoldable pub evicted_ip : Option AuthLimiter → Held → Option Held
evicted_ip none h = none
evicted_ip (some l) h = some (record h { limiter = l })

unfoldable pub room_for_ip : Bytes → ℕ → Held → Option Held
unfolding is_nil evicted_ip
room_for_ip ip now h =
    if is_nil h.ip_state && leb h.limiter.max_ip (length h.limiter.by_ip)
    then evicted_ip (evict_oldest_ip now h.limiter) h
    else some h

-- The block that runs where a map is full. `none` in the second component is `return false`; what
-- a sweep or an eviction has removed by then stays removed.
unfoldable pub then_room : Option Held → Bytes → ℕ → AuthLimiter → AuthLimiter × Option Held
then_room none ip now l = (l, none)
then_room (some h) ip now l = elim (room_for_key ip now h) [
  | none ↦ (h.limiter, none)
  | some h' ↦ (h'.limiter, some h')
]

unfoldable pub make_room : Bytes → Bytes → ℕ → AuthLimiter → AuthLimiter × Option Held
unfolding is_nil then_room
make_room ip key now l =
    let h = hold ip key l in
    if (is_nil h.ip_state && leb l.max_ip (length l.by_ip))
      || (is_nil h.key_state && leb l.max_key (length l.by_key))
    then (if ltb (now - l.last_cap_sweep) cap_sweep_interval
        then (l, none)
        else (let swept = force_prune now (record l { last_cap_sweep = now }) in
            then_room (room_for_ip ip now (hold ip key swept)) ip now swept))
    else (l, some h)

unfoldable pub reserved_state : ℕ → AttemptState → AttemptState
reserved_state now st = record st { in_flight = st.in_flight + 1; seen = now }

-- A fresh state is published under its key; a state that is there already changes through the
-- pointer, which shows in the map only while the map still holds it.
unfoldable pub publish : Bool → Bytes → ℕ → Map AttemptState → Map AttemptState
unfolding reserved_state
publish true k now m = insert k (reserved_state now zero_state) m
publish false k now m = modify k (reserved_state now) m

unfoldable pub user_busy : Option AttemptState → Bool
user_busy none = false
user_busy (some st) = leb free_attempts st.in_flight

unfoldable pub admit : Bytes → Bytes → Bytes → ℕ → Option AttemptState → Held → AuthLimiter × Bool
unfolding is_nil user_busy
admit ip key user now user_state h =
    let l = h.limiter in
    if is_nil user_state && leb l.max_user (length l.by_user)
    then (l, false)
    else if not (can_reserve h.ip_state now)
        || not (can_reserve h.key_state now)
        || user_busy user_state
    then (l, false)
    else (
      record l {
        by_ip = publish (is_nil h.ip_state) ip now l.by_ip;
        by_key = publish (is_nil h.key_state) key now l.by_key;
        by_user = publish (is_nil user_state) user now l.by_user;
      },
      true,
    )

unfoldable pub admit_held :
    AuthLimiter × Option Held → Bytes → Bytes → Bytes → ℕ → Option AttemptState → AuthLimiter × Bool
admit_held (l, none) ip key user now user_state = (l, false)
admit_held (l, some h) ip key user now user_state = admit ip key user now user_state h

module _ (canon : Bytes → Bytes) where
  unfoldable pub reserve : Bytes → Bytes → ℕ → AuthLimiter → AuthLimiter × Bool
  unfolding admit_held
  reserve ip username now l0 =
      let l = maybe_periodic_prune now l0 in
      let user = canon username in
      let key = identity_key ip user in
      admit_held (make_room ip key now l) ip key user now (get user l.by_user)
