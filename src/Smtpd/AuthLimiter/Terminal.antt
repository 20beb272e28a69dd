-- ===== src/Smtpd/AuthLimiter/Terminal.antt =====
-- Every operation of internal/smtpd/limiter.go that ends a reservation keeps the aggregates.
use outboxd.Common.{
  ℕ, ◌+◌, ◌≤◌, ◌<◌, ◌≡◌, ◌≢◌, refl, sym, ◌∙◌, true, false, ◌==◌, ==_iff, Bytes, none, some, [], ◌∷◌,
  arith, str_eq_iff, Option-cases, Bool-cases, inl, inr, All,
}
use outboxd.Common.Map.{Map, get, insert, modify, modify_present, weight-le-total, insert-Distinct}
use outboxd.Smtpd.AuthLimiter.{
  AttemptState, AuthLimiter, identity_key, ip_from_key, is_reserved, fail_state, released,
  release_user, success_state, cleared_ip_state, success_ip, success_ip_found, success_found,
  settle, drop_empty, failed, canceled, succeeded,
}
use outboxd.Smtpd.AuthLimiter.Agree.{
  Measure, failure_count, flight_count, Agree, Aggregates, ip_present, Agree-insert,
  ip_count-settle, identity_sum-settle, ip_count-drop_empty, identity_sum-drop_empty,
  settle-Distinct, drop_empty-Distinct, share,
}

-- The host part of an address holds no NUL.
abbrev pub NoNul : Bytes → Type 0
NoNul ip = All (λ c. c ≢ 0) ip

pub ip_from_key-identity_key :
    (ip user : Bytes) → NoNul ip → ip_from_key (identity_key ip user) ≡ ip
unfolding ip_from_key identity_key
ip_from_key-identity_key [] user n = refl
ip_from_key-identity_key (c ∷ cs) user n = ground (arith, n.0, ip_from_key-identity_key cs user n.1)

-- A reserved identity, with the state of its IP.
pub record Reserved (key ip : Bytes) (l : AuthLimiter) : Type 0 where
  pub st : AttemptState
  pub ip_state : AttemptState
  pub key_found : get key l.by_key ≡ some st
  pub ip_found : get ip l.by_ip ≡ some ip_state
  pub active : 0 < st.in_flight
  pub active_le : st.in_flight ≤ ip_state.in_flight
  pub failures_le : st.failures ≤ ip_state.failures

module _ (key ip : Bytes) (same : ip_from_key key ≡ ip) (l : AuthLimiter) (a : Aggregates l) where
  failures-le-ip :
      (st ip_state : AttemptState)
      → get key l.by_key ≡ some st
      → get ip l.by_ip ≡ some ip_state
      → st.failures ≤ ip_state.failures
  failures-le-ip st ip_state e f = ground (
    arith,
    a.failures ip,
    str_eq_iff (ip_from_key key) ip,
    weight-le-total (share failure_count ip) key l.by_key,
  )

  pub Reserved-of :
      (st : AttemptState) → get key l.by_key ≡ some st → 0 < st.in_flight → Reserved key ip l
  Reserved-of st e pos =
      let (ip_state, f, le) =
        ip_present flight_count key ip same l.by_key l.by_ip st a.in_flight e pos in
      record {
        st = st;
        ip_state = ip_state;
        key_found = e;
        ip_found = f;
        active = pos;
        active_le = le;
        failures_le = failures-le-ip st ip_state e f;
      }

module _ (key ip : Bytes) (same : ip_from_key key ≡ ip) (l : AuthLimiter) (a : Aggregates l)
    (r : Reserved key ip l) (st' ip_state' : AttemptState)
    (fail_eq : ip_state'.failures + r.st.failures ≡ r.ip_state.failures + st'.failures)
    (flight_eq : ip_state'.in_flight + r.st.in_flight ≡ r.ip_state.in_flight + st'.in_flight) where
  abbrev by_key' : Map AttemptState
  by_key' = insert key st' l.by_key

  abbrev by_ip' : Map AttemptState
  by_ip' = insert ip ip_state' l.by_ip

  moved :
      (μ : Measure)
      → Agree μ l.by_key l.by_ip
      → μ.of ip_state' + μ.of r.st ≡ μ.of r.ip_state + μ.of st'
      → Agree μ by_key' by_ip'
  moved μ ag h =
      Agree-insert μ key ip same l.by_key l.by_ip r.st st' r.ip_state ip_state' ag r.key_found
        r.ip_found h

  inserted-Aggregates :
      (users : Map AttemptState)
      → Aggregates (record l { by_key = by_key'; by_ip = by_ip'; by_user = users })
  inserted-Aggregates users = record {
    distinct_keys = insert-Distinct key st' l.by_key a.distinct_keys;
    distinct_ips = insert-Distinct ip ip_state' l.by_ip a.distinct_ips;
    failures = moved failure_count a.failures fail_eq;
    in_flight = moved flight_count a.in_flight flight_eq;
  }

  settled-Agree :
      (μ : Measure) (now : ℕ)
      → Agree μ by_key' by_ip'
      → Agree μ (settle key st' now l.by_key) (settle ip ip_state' now l.by_ip)
  settled-Agree μ now ag j =
      identity_sum-settle μ key j st' now l.by_key a.distinct_keys
      ∙ ag j
      ∙ sym (ip_count-settle μ ip j ip_state' now l.by_ip)

  settled-Aggregates :
      (now : ℕ) (users : Map AttemptState)
      → Aggregates (record l {
        by_key = settle key st' now l.by_key;
        by_ip = settle ip ip_state' now l.by_ip;
        by_user = users;
      })
  settled-Aggregates now users = record {
    distinct_keys = settle-Distinct key st' now l.by_key a.distinct_keys;
    distinct_ips = settle-Distinct ip ip_state' now l.by_ip a.distinct_ips;
    failures = settled-Agree failure_count now (moved failure_count a.failures fail_eq);
    in_flight = settled-Agree flight_count now (moved flight_count a.in_flight flight_eq);
  }

  dropped-Agree :
      (μ : Measure) (now : ℕ)
      → Agree μ by_key' by_ip'
      → Agree μ (drop_empty key now by_key') (drop_empty ip now by_ip')
  dropped-Agree μ now ag j =
      identity_sum-drop_empty μ key j now by_key' (insert-Distinct key st' l.by_key a.distinct_keys)
      ∙ ag j
      ∙ sym (ip_count-drop_empty μ ip j now by_ip')

  dropped-Aggregates :
      (now : ℕ) (users : Map AttemptState)
      → Aggregates (record l {
        by_key = drop_empty key now by_key';
        by_ip = drop_empty ip now by_ip';
        by_user = users;
      })
  dropped-Aggregates now users = record {
    distinct_keys =
        drop_empty-Distinct key now by_key' (insert-Distinct key st' l.by_key a.distinct_keys);
    distinct_ips =
        drop_empty-Distinct ip now by_ip' (insert-Distinct ip ip_state' l.by_ip a.distinct_ips);
    failures = dropped-Agree failure_count now (moved failure_count a.failures fail_eq);
    in_flight = dropped-Agree flight_count now (moved flight_count a.in_flight flight_eq);
  }

module _ (canon : Bytes → Bytes) (ip username : Bytes) (now : ℕ) (l : AuthLimiter) (host : NoNul ip)
    (a : Aggregates l) where
  abbrev key : Bytes
  key = identity_key ip (canon username)

  same_ip : ip_from_key key ≡ ip
  same_ip = ip_from_key-identity_key ip (canon username) host

  users : Map AttemptState
  users = release_user (canon username) now l.by_user

  module _ (r : Reserved key ip l) where
    is_reserved_eq : is_reserved (get key l.by_key) ≡ true
    unfolding is_reserved
    is_reserved_eq = rw r.key_found (ground (arith, r.active))

    not_idle : (r.st.in_flight == 0) ≡ false
    not_idle = ground (arith, r.active)

    modified :
        (f : AttemptState → AttemptState)
        → (modify key f l.by_key ≡ insert key (f r.st) l.by_key)
          × (modify ip f l.by_ip ≡ insert ip (f r.ip_state) l.by_ip)
    modified f = (
      modify_present key f l.by_key r.st r.key_found,
      modify_present ip f l.by_ip r.ip_state r.ip_found,
    )

    failed_reserved : Aggregates (failed canon ip username now l)
    unfolding failed users
    failed_reserved =
        rw (is_reserved_eq, (modified (fail_state now)).0, (modified (fail_state now)).1)
          (inserted-Aggregates key ip same_ip l a r (fail_state now r.st)
            (fail_state now r.ip_state) (unfold fail_state in omega arith)
            (unfold fail_state in omega (arith, r.active, r.active_le)) users)

    canceled_reserved : Aggregates (canceled canon ip username now l)
    unfolding canceled users
    canceled_reserved =
        rw (is_reserved_eq, (modified (released now)).0, (modified (released now)).1)
          (dropped-Aggregates key ip same_ip l a r (released now r.st) (released now r.ip_state)
            (unfold released in omega arith)
            (unfold released in omega (arith, r.active, r.active_le)) now users)

    succeeded_reserved : Aggregates (succeeded canon ip username now l)
    unfolding succeeded users success_ip
    succeeded_reserved =
        rw (r.key_found, success_found, not_idle, r.ip_found, success_ip_found)
          (settled-Aggregates key ip same_ip l a r (success_state now r.st)
            (cleared_ip_state r.st.failures now r.ip_state)
            (unfold success_state cleared_ip_state in omega (arith, r.failures_le))
            (unfold success_state cleared_ip_state in omega (arith, r.active, r.active_le)) now
            users)

  -- Each operation does nothing without a reservation, so one case is left.
  Reserved-or :
      (op : AuthLimiter)
      → (Reserved key ip l → Aggregates op)
      → (get key l.by_key ≡ none → op ≡ l)
      → ((st : AttemptState) → get key l.by_key ≡ some st → st.in_flight ≡ 0 → op ≡ l)
      → Aggregates op
  Reserved-or op go absent idle = elim (Option-cases (get key l.by_key)) [
    | inl e ↦ rw (absent e) a
    | inr (st, e) ↦ elim (Bool-cases (st.in_flight == 0)) [
      | inl z ↦ rw (idle st e ((==_iff st.in_flight 0).0 z)) a
      | inr nz ↦ go (Reserved-of key ip same_ip l a st e (ground arith))
    ]
  ]

  -- From a limiter in which every IP's failure and in-flight totals are the sums over its
  -- identities, a failure reported for an IP without NUL in its text leads to such a limiter again,
  -- whatever user name is reported and whether or not there is a reservation for it.
  pub failed-Aggregates : Aggregates (failed canon ip username now l)
  failed-Aggregates =
      Reserved-or (failed canon ip username now l) failed_reserved
        (λ e. unfold failed is_reserved in rw e)
        (λ st e z. unfold failed is_reserved in rw e (ground (arith, z)))

  -- From a limiter in which every IP's failure and in-flight totals are the sums over its
  -- identities, a cancellation for an IP without NUL in its text leads to such a limiter again,
  -- with or without a reservation.
  pub canceled-Aggregates : Aggregates (canceled canon ip username now l)
  canceled-Aggregates =
      Reserved-or (canceled canon ip username now l) canceled_reserved
        (λ e. unfold canceled is_reserved in rw e)
        (λ st e z. unfold canceled is_reserved in rw e (ground (arith, z)))

  -- From a limiter in which every IP's failure and in-flight totals are the sums over its
  -- identities, a success for an IP without NUL in its text leads to such a limiter again: what is
  -- taken off the IP is exactly what the identity's entry loses.
  pub succeeded-Aggregates : Aggregates (succeeded canon ip username now l)
  succeeded-Aggregates =
      Reserved-or (succeeded canon ip username now l) succeeded_reserved
        (λ e. unfold succeeded in rw (e, success_found))
        (λ st e z. unfold succeeded in rw (e, success_found) (ground (arith, z)))
