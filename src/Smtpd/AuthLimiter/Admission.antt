-- ===== src/Smtpd/AuthLimiter/Admission.antt =====
-- reserve of internal/smtpd/limiter.go and the aggregates, where no map is full.
use outboxd.Common.{
  ℕ, ◌+◌, ◌-◌, ◌<◌, ◌≡◌, refl, true, false, Bytes, Option, none, some, length, ◌⊎◌, arith,
  str_eq_iff, inl, inr, lt→ltb,
}
use outboxd.Common.Map.{
  Map, get, insert, modify, total-insert, get-insert, insert-Distinct, Distinct,
}
use outboxd.Smtpd.AuthLimiter.{AttemptState, AuthLimiter, zero_state, identity_key, ip_from_key}
use outboxd.Smtpd.AuthLimiter.Sweep.{maybe_periodic_prune}
use outboxd.Smtpd.AuthLimiter.Reserve.{
  hold, is_nil, reserved_state, publish, admit, admit_held, make_room, reserve,
}
use outboxd.Smtpd.AuthLimiter.Agree.{Measure, failure_count, flight_count, Agree, Aggregates, share}
use outboxd.Smtpd.AuthLimiter.Terminal.{NoNul, ip_from_key-identity_key}

abbrev or_new : Option AttemptState → AttemptState
or_new none = zero_state
or_new (some st) = st

published :
    (k : Bytes) (now : ℕ) (m : Map AttemptState)
    → publish (is_nil (get k m)) k now m ≡ insert k (reserved_state now (or_new (get k m))) m
unfolding publish is_nil modify
published k now m = ground arith

Agree-published :
    (μ : Measure) (δ : ℕ) (key ip : Bytes) (now : ℕ) (by_key by_ip : Map AttemptState)
    → ip_from_key key ≡ ip
    → μ.of zero_state ≡ 0
    → ((st : AttemptState) → μ.of (reserved_state now st) ≡ μ.of st + δ)
    → Agree μ by_key by_ip
    → Agree μ
        (publish (is_nil (get key by_key)) key now by_key)
        (publish (is_nil (get ip by_ip)) ip now by_ip)
Agree-published μ δ key ip now by_key by_ip same z d a j =
    rw (published key now by_key, published ip now by_ip)
      (ground (
        arith,
        a j,
        z,
        d (or_new (get key by_key)),
        d (or_new (get ip by_ip)),
        str_eq_iff (ip_from_key key) j,
        str_eq_iff ip j,
        total-insert (share μ j) key (reserved_state now (or_new (get key by_key))) by_key,
        get-insert ip j (reserved_state now (or_new (get ip by_ip))) by_ip,
      ))

publish-Distinct :
    (k : Bytes) (now : ℕ) (m : Map AttemptState)
    → Distinct m
    → Distinct (publish (is_nil (get k m)) k now m)
publish-Distinct k now m d = rw (published k now m) (insert-Distinct k _ m d)

module _ (key ip user : Bytes) (now : ℕ) (user_state : Option AttemptState) (l : AuthLimiter)
    (same : ip_from_key key ≡ ip) (a : Aggregates l) where
  admitted-Aggregates :
      (users : Map AttemptState)
      → Aggregates (record l {
        by_ip = publish (is_nil (get ip l.by_ip)) ip now l.by_ip;
        by_key = publish (is_nil (get key l.by_key)) key now l.by_key;
        by_user = users;
      })
  unfolding reserved_state
  admitted-Aggregates users = record {
    distinct_keys = publish-Distinct key now l.by_key a.distinct_keys;
    distinct_ips = publish-Distinct ip now l.by_ip a.distinct_ips;
    failures =
        Agree-published failure_count 0 key ip now l.by_key l.by_ip same refl (λ st. omega arith)
          a.failures;
    in_flight =
        Agree-published flight_count 1 key ip now l.by_key l.by_ip same refl (λ st. refl)
          a.in_flight;
  }

  refused_or_published :
      (admit ip key user now user_state (hold ip key l) ≡ (l, false))
      ⊎ (admit ip key user now user_state (hold ip key l) ≡ (
        record l {
          by_ip = publish (is_nil (get ip l.by_ip)) ip now l.by_ip;
          by_key = publish (is_nil (get key l.by_key)) key now l.by_key;
          by_user = publish (is_nil user_state) user now l.by_user;
        },
        true,
      ))
  unfolding admit hold
  refused_or_published = ground arith

  admit-Aggregates : Aggregates (admit ip key user now user_state (hold ip key l)).0
  admit-Aggregates = elim refused_or_published [
    | inl e ↦ rw e a
    | inr e ↦ rw e (admitted-Aggregates (publish (is_nil user_state) user now l.by_user))
  ]

module _ (canon : Bytes → Bytes) (ip username : Bytes) (now : ℕ) (l : AuthLimiter) where
  abbrev user : Bytes
  user = canon username

  abbrev key : Bytes
  key = identity_key ip user

  module _ (host : NoNul ip) (a : Aggregates l) (not_due : now - l.pruned < l.prune_every)
      (ip_room : length l.by_ip < l.max_ip) (key_room : length l.by_key < l.max_key) where
    no_sweep : maybe_periodic_prune now l ≡ l
    unfolding maybe_periodic_prune
    no_sweep = rw (lt→ltb _ _ not_due)

    no_eviction : make_room ip key now l ≡ (l, some (hold ip key l))
    unfolding make_room
    no_eviction = ground arith

    -- From a limiter in which every IP's failure and in-flight totals are the sums over its
    -- identities, a reservation for an IP without NUL in its text, granted or refused, leads to
    -- such a limiter again, where no sweep is due and neither the map of IPs nor that of identities
    -- is full.
    pub reserve-Aggregates : Aggregates (reserve canon ip username now l).0
    unfolding reserve
    reserve-Aggregates =
        rw (no_sweep, no_eviction, admit_held)
          (admit-Aggregates key ip user now (get user l.by_user) l
            (ip_from_key-identity_key ip user host) a)
