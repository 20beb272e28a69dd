-- ===== src/Smtpd/AuthLimiter/Evictions.antt =====
-- Evictions and the sweep over identities of internal/smtpd/limiter.go keep the aggregates.
use outboxd.Common.{
  ℕ, ◌-◌, ◌≡◌, refl, subst, Bytes, none, some, [], ◌∷◌, arith, str_eq, str_eq_iff, str_eq_refl,
  Option-cases, Bool-cases, inl, inr, if◌then◌else◌,
}
use outboxd.Common.Map.{
  Map, get, remove, total, total-remove, get-remove, Distinct, remove-Distinct, get-insert,
}
use outboxd.Smtpd.AuthLimiter.{AttemptState, AuthLimiter, ip_from_key}
use outboxd.Smtpd.AuthLimiter.Sweep.{
  safe_to_prune, dropped_ip_state, drop_ip_found, drop_identity, prune_keys, evict_oldest_key,
  oldest_ip, remove_ip_keys, evict_oldest_ip,
}
use outboxd.Smtpd.AuthLimiter.Agree.{
  Measure, failure_count, flight_count, Agree, Aggregates, share, settle-Distinct, ip_count-settle,
}

-- What dropping an identity takes off its IP's counter.
record Drops (μ : Measure) (st : AttemptState) (now : ℕ) : Type 0 where
  drops :
      (ip_state : AttemptState) → μ.of (dropped_ip_state st now ip_state) ≡ μ.of ip_state - μ.of st

failure-Drops : (st : AttemptState) (now : ℕ) → Drops failure_count st now
unfolding dropped_ip_state
failure-Drops st now = record { drops = λ s. refl }

flight-Drops : (st : AttemptState) (now : ℕ) → Drops flight_count st now
unfolding dropped_ip_state
flight-Drops st now = record { drops = λ s. refl }

module _ (key : Bytes) (st : AttemptState) (now : ℕ) (l : AuthLimiter) (a : Aggregates l)
    (found : get key l.by_key ≡ some st) where
  abbrev ip : Bytes
  ip = ip_from_key key

  drop-Agree :
      (μ : Measure)
      → Drops μ st now
      → Agree μ l.by_key l.by_ip
      → Agree μ (remove key l.by_key) (drop_ip_found (get ip l.by_ip) ip st now l.by_ip)
  unfolding drop_ip_found
  drop-Agree μ d ag j = elim (Option-cases (get ip l.by_ip)) [
    | inl e ↦
        rw (e, drop_ip_found)
          (ground (
            arith,
            e,
            ag j,
            ag ip,
            total-remove (share μ j) key l.by_key a.distinct_keys,
            total-remove (share μ ip) key l.by_key a.distinct_keys,
            found,
            str_eq_iff ip j,
            str_eq_refl ip,
          ))
    | inr (s, e) ↦
        rw (e, drop_ip_found)
          (ground (
            arith,
            e,
            ag j,
            ag ip,
            total-remove (share μ j) key l.by_key a.distinct_keys,
            found,
            total-remove (share μ ip) key l.by_key a.distinct_keys,
            str_eq_iff ip j,
            str_eq_refl ip,
            d.drops s,
            ip_count-settle μ ip j (dropped_ip_state st now s) now l.by_ip,
            get-insert ip j (dropped_ip_state st now s) l.by_ip,
          ))
  ]

  drop_ips-Distinct : Distinct (drop_ip_found (get ip l.by_ip) ip st now l.by_ip)
  unfolding drop_ip_found
  drop_ips-Distinct = elim (Option-cases (get ip l.by_ip)) [
    | inl e ↦ rw (e, drop_ip_found) a.distinct_ips
    | inr (s, e) ↦
        rw (e, drop_ip_found)
          (settle-Distinct ip (dropped_ip_state st now s) now l.by_ip a.distinct_ips)
  ]

  pub drop_identity-Aggregates : Aggregates (drop_identity key st now l)
  unfolding drop_identity
  drop_identity-Aggregates = record {
    distinct_keys = remove-Distinct key l.by_key a.distinct_keys;
    distinct_ips = drop_ips-Distinct;
    failures = drop-Agree failure_count (failure-Drops st now) a.failures;
    in_flight = drop-Agree flight_count (flight-Drops st now) a.in_flight;
  }

-- The entries that a sweep has still to visit are in the map.
abbrev pub Unvisited : Map AttemptState → Map AttemptState → Type 0
Unvisited [] m = Unit
Unvisited ((k, st) ∷ rest) m = (get k m ≡ some st) × Unvisited rest m

Unvisited-remove :
    (k : Bytes) (rest m : Map AttemptState)
    → get k rest ≡ none
    → Unvisited rest m
    → Unvisited rest (remove k m)
unfolding get
Unvisited-remove k [] m n u = tt
Unvisited-remove k ((j, st) ∷ rest) m n u =
    ground (arith, str_eq_iff k j, str_eq_iff j k, get-remove k j m, u.0, Unvisited-remove k rest m)

Unvisited-cons :
    (k : Bytes) (s : AttemptState) (rest m : Map AttemptState)
    → get k rest ≡ none
    → Unvisited rest m
    → Unvisited rest ((k, s) ∷ m)
unfolding get
Unvisited-cons k s [] m n u = tt
Unvisited-cons k s ((j, st) ∷ rest) m n u =
    ground (arith, str_eq_iff k j, str_eq_iff j k, Unvisited-cons k s rest m)

Unvisited-self : (m : Map AttemptState) → Distinct m → Unvisited m m
unfolding get
Unvisited-self [] d = tt
Unvisited-self ((k, s) ∷ m) d =
    (ground (arith, str_eq_refl k), Unvisited-cons k s m m d.0 (Unvisited-self m d.1))

prune_rest-Aggregates :
    (rest : Map AttemptState) (now : ℕ) (l : AuthLimiter)
    → Distinct rest
    → Unvisited rest l.by_key
    → Aggregates l
    → Aggregates (prune_keys rest now l)
unfolding prune_keys
prune_rest-Aggregates [] now l d u a = a
prune_rest-Aggregates ((k, st) ∷ rest) now l d u a =
    elim (Bool-cases (safe_to_prune l.expiry st now)) [
      | inl s ↦ rw s (
          prune_rest-Aggregates rest now (drop_identity k st now l) d.1
            (unfold drop_identity in Unvisited-remove k rest l.by_key d.0 u.1)
            (drop_identity-Aggregates k st now l a u.0))
      | inr s ↦ rw s (prune_rest-Aggregates rest now l d.1 u.1 a)
    ]

-- The sweep over the identities of a limiter in which every IP's failure and in-flight totals are
-- the sums over its identities leaves such a limiter.
pub prune_keys-Aggregates :
    (now : ℕ) (l : AuthLimiter) → Aggregates l → Aggregates (prune_keys l.by_key now l)
prune_keys-Aggregates now l a =
    prune_rest-Aggregates l.by_key now l a.distinct_keys (Unvisited-self l.by_key a.distinct_keys) a

evicted_identity :
    (now : ℕ) (l e : AuthLimiter) (k : Bytes) (st : AttemptState)
    → evict_oldest_key now l ≡ some (k, st, e)
    → (get k l.by_key ≡ some st) × (drop_identity k st now l ≡ e)
unfolding evict_oldest_key
evicted_identity now l e k st h = (ground arith, ground arith)

-- Where the oldest idle identity is evicted from a limiter in which every IP's failure and
-- in-flight totals are the sums over its identities, the limiter that is left has this property
-- too.
pub evict_oldest_key-Aggregates :
    (now : ℕ) (l e : AuthLimiter) (k : Bytes) (st : AttemptState)
    → evict_oldest_key now l ≡ some (k, st, e)
    → Aggregates l
    → Aggregates e
evict_oldest_key-Aggregates now l e k st h a =
    let (found, eq) = evicted_identity now l e k st h in
    subst Aggregates eq (drop_identity-Aggregates k st now l a found)

total-remove_ip_keys :
    (μ : Measure) (ip j : Bytes) (m : Map AttemptState)
    → total (share μ j) (remove_ip_keys ip m) ≡ (if str_eq ip j then 0 else total (share μ j) m)
unfolding total remove_ip_keys
total-remove_ip_keys μ ip j [] = ground arith
total-remove_ip_keys μ ip j ((k, st) ∷ m) = ground (
  arith,
  total-remove_ip_keys μ ip j m,
  str_eq_iff ip j,
  str_eq_iff (ip_from_key k) ip,
  str_eq_iff (ip_from_key k) j,
)

get-remove_ip_keys :
    (ip k : Bytes) (m : Map AttemptState)
    → get k (remove_ip_keys ip m) ≡ (if str_eq (ip_from_key k) ip then none else get k m)
unfolding get remove_ip_keys
get-remove_ip_keys ip k [] = ground arith
get-remove_ip_keys ip k ((j, st) ∷ m) = ground (
  arith,
  get-remove_ip_keys ip k m,
  str_eq_iff j k,
  str_eq_iff (ip_from_key k) ip,
  str_eq_iff (ip_from_key j) ip,
)

remove_ip_keys-Distinct :
    (ip : Bytes) (m : Map AttemptState) → Distinct m → Distinct (remove_ip_keys ip m)
unfolding get remove_ip_keys
remove_ip_keys-Distinct ip [] d = tt
remove_ip_keys-Distinct ip ((k, st) ∷ m) d =
    ground (arith, remove_ip_keys-Distinct ip m d.1, get-remove_ip_keys ip k m)

removed : Bytes → AuthLimiter → AuthLimiter
removed ip l = record l { by_key = remove_ip_keys ip l.by_key; by_ip = remove ip l.by_ip }

module _ (ip : Bytes) (l : AuthLimiter) (a : Aggregates l) where
  removed-Agree :
      (μ : Measure)
      → Agree μ l.by_key l.by_ip
      → Agree μ (remove_ip_keys ip l.by_key) (remove ip l.by_ip)
  removed-Agree μ ag j =
      ground (arith, ag j, total-remove_ip_keys μ ip j l.by_key, get-remove ip j l.by_ip)

  removed-Aggregates : Aggregates (removed ip l)
  unfolding removed
  removed-Aggregates = record {
    distinct_keys = remove_ip_keys-Distinct ip l.by_key a.distinct_keys;
    distinct_ips = remove-Distinct ip l.by_ip a.distinct_ips;
    failures = removed-Agree failure_count a.failures;
    in_flight = removed-Agree flight_count a.in_flight;
  }

removed_eq :
    (now : ℕ) (l e : AuthLimiter)
    → evict_oldest_ip now l ≡ some e
    → removed (oldest_ip l.by_key l.by_ip now ([], 0)).0 l ≡ e
unfolding evict_oldest_ip removed
removed_eq now l e h = ground arith

-- Where an IP is evicted with all its identities from a limiter in which every IP's failure and
-- in-flight totals are the sums over its identities, the limiter that is left has this property
-- too.
pub evict_oldest_ip-Aggregates :
    (now : ℕ) (l e : AuthLimiter) → evict_oldest_ip now l ≡ some e → Aggregates l → Aggregates e
evict_oldest_ip-Aggregates now l e h a =
    subst Aggregates (removed_eq now l e h)
      (removed-Aggregates (oldest_ip l.by_key l.by_ip now ([], 0)).0 l a)
