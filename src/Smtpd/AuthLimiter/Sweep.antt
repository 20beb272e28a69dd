-- ===== src/Smtpd/AuthLimiter/Sweep.antt =====
-- internal/smtpd/limiter.go: expiry sweeps and evictions. A `range` over a map visits the entries
-- in the order of its list.
use outboxd.Common.{
  ℕ, ◌+◌, ◌-◌, Bool, false, not, ◌&&◌, ◌||◌, Bytes, Option, none, some, [], ◌∷◌, leb, ltb, ◌==◌,
  str_eq, if◌then◌else◌,
}
use outboxd.Common.Map.{Map, get, remove}
use outboxd.Smtpd.AuthLimiter.{
  free_attempts, AttemptState, AuthLimiter, ip_from_key, empty_state, settle,
}

unfoldable pub safe_to_prune : ℕ → AttemptState → ℕ → Bool
safe_to_prune expiry st now =
    if not (st.in_flight == 0) || ltb now st.until
    then false
    else empty_state st now || ltb expiry (now - st.seen)

-- dropIdentityLocked, on the source IP's state
unfoldable pub dropped_ip_state : AttemptState → ℕ → AttemptState → AttemptState
dropped_ip_state st now ip_state =
    let failures = ip_state.failures - st.failures in
    record {
      failures = failures;
      until = if ltb failures free_attempts then 0 else ip_state.until;
      seen = now;
      in_flight = ip_state.in_flight - st.in_flight;
    }

unfoldable pub drop_ip_found :
    Option AttemptState → Bytes → AttemptState → ℕ → Map AttemptState → Map AttemptState
drop_ip_found none ip st now m = m
drop_ip_found (some ip_state) ip st now m = settle ip (dropped_ip_state st now ip_state) now m

unfoldable pub drop_identity : Bytes → AttemptState → ℕ → AuthLimiter → AuthLimiter
unfolding drop_ip_found
drop_identity key st now l =
    let ip = ip_from_key key in
    record l {
      by_ip = drop_ip_found (get ip l.by_ip) ip st now l.by_ip;
      by_key = remove key l.by_key;
    }

-- The first loop of forcePrune, over the entries that `range` visits.
unfoldable pub prune_keys : Map AttemptState → ℕ → AuthLimiter → AuthLimiter
prune_keys [] now l = l
prune_keys ((k, st) ∷ rest) now l =
    prune_keys rest now (if safe_to_prune l.expiry st now then drop_identity k st now l else l)

-- The second and third loops.
unfoldable pub prune_ips : ℕ → ℕ → Map AttemptState → Map AttemptState
prune_ips expiry now [] = []
prune_ips expiry now ((k, st) ∷ rest) =
    let kept = prune_ips expiry now rest in
    if safe_to_prune expiry st now then kept else (k, st) ∷ kept

unfoldable pub prune_users : Map AttemptState → Map AttemptState
prune_users [] = []
prune_users ((k, st) ∷ rest) =
    let kept = prune_users rest in if st.in_flight == 0 then kept else (k, st) ∷ kept

unfoldable pub force_prune : ℕ → AuthLimiter → AuthLimiter
force_prune now l =
    let swept =
      prune_keys l.by_key now (record l { pruned = now; full_sweeps = l.full_sweeps + 1 }) in
    record swept {
      by_ip = prune_ips swept.expiry now swept.by_ip;
      by_user = prune_users swept.by_user;
    }

unfoldable pub maybe_periodic_prune : ℕ → AuthLimiter → AuthLimiter
maybe_periodic_prune now l = if ltb (now - l.pruned) l.prune_every then l else force_prune now l

unfoldable pub is_idle : AttemptState → ℕ → Bool
is_idle st now = st.in_flight == 0 && leb st.until now

-- One round of an eviction's search: the oldest key so far, "" at first, and when it was seen.
unfoldable pub older : Bytes × ℕ → Bytes → AttemptState → Bytes × ℕ
older (oldest, at) k st = if str_eq oldest [] || ltb st.seen at then (k, st.seen) else (oldest, at)

unfoldable pub oldest_key : Map AttemptState → ℕ → Bytes × ℕ → Bytes × ℕ
oldest_key [] now best = best
oldest_key ((k, st) ∷ rest) now best =
    oldest_key rest now (if is_idle st now then older best k st else best)

-- The IPs that hold an active identity.
unfoldable pub is_unsafe : Map AttemptState → ℕ → Bytes → Bool
is_unsafe [] now ip = false
is_unsafe ((k, st) ∷ rest) now ip =
    (not (is_idle st now) && str_eq (ip_from_key k) ip) || is_unsafe rest now ip

unfoldable pub oldest_ip : Map AttemptState → Map AttemptState → ℕ → Bytes × ℕ → Bytes × ℕ
oldest_ip keys [] now best = best
oldest_ip keys ((ip, st) ∷ rest) now best =
    oldest_ip keys rest now
      (if not (is_unsafe keys now ip) && is_idle st now then older best ip st else best)

-- evictOldestKey, with the identity that it removed. The key comes from the map, so the lookup
-- finds it.
unfoldable pub evict_key_found :
    Option AttemptState → Bytes → ℕ → AuthLimiter → Option (Bytes × AttemptState × AuthLimiter)
evict_key_found none k now l = none
evict_key_found (some st) k now l = some (k, st, drop_identity k st now l)

unfoldable pub evict_oldest_key : ℕ → AuthLimiter → Option (Bytes × AttemptState × AuthLimiter)
unfolding evict_key_found
evict_oldest_key now l =
    let oldest = (oldest_key l.by_key now ([], 0)).0 in
    if str_eq oldest [] then none else evict_key_found (get oldest l.by_key) oldest now l

unfoldable pub remove_ip_keys : Bytes → Map AttemptState → Map AttemptState
remove_ip_keys ip [] = []
remove_ip_keys ip ((k, st) ∷ rest) =
    let kept = remove_ip_keys ip rest in if str_eq (ip_from_key k) ip then kept else (k, st) ∷ kept

unfoldable pub evict_oldest_ip : ℕ → AuthLimiter → Option AuthLimiter
evict_oldest_ip now l =
    let oldest = (oldest_ip l.by_key l.by_ip now ([], 0)).0 in
    if str_eq oldest []
    then none
    else some (record l { by_key = remove_ip_keys oldest l.by_key; by_ip = remove oldest l.by_ip })
