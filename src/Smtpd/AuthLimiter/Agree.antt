-- ===== src/Smtpd/AuthLimiter/Agree.antt =====
-- The aggregates of internal/smtpd/limiter.go: each source IP holds the sums over its identities.
use outboxd.Common.{
  ℕ, ◌+◌, ◌≤◌, ◌<◌, ◌≡◌, true, Bytes, some, arith, str_eq, str_eq_iff, Option-cases, Bool-cases,
  inl, inr, if◌then◌else◌,
}
use outboxd.Common.Map.{
  Map, get, insert, total, weight, get-insert, get-remove, total-insert, total-remove,
  weight-le-total, Distinct, insert-Distinct, remove-Distinct,
}
use outboxd.Smtpd.AuthLimiter.{
  AttemptState, AuthLimiter, ip_from_key, empty_state, settle, drop_empty_found, drop_empty,
}

-- One of the two counters that are aggregated. An empty state has none of it.
pub record Measure : Type 0 where
  pub of : AttemptState → ℕ
  pub of_empty : (st : AttemptState) (now : ℕ) → empty_state st now ≡ true → of st ≡ 0

pub empty-failures : (st : AttemptState) (now : ℕ) → empty_state st now ≡ true → st.failures ≡ 0
unfolding empty_state
empty-failures st now h = ground arith

pub empty-in_flight : (st : AttemptState) (now : ℕ) → empty_state st now ≡ true → st.in_flight ≡ 0
unfolding empty_state
empty-in_flight st now h = ground arith

abbrev pub failure_count : Measure
failure_count = record { of = λ st. st.failures; of_empty = empty-failures }

abbrev pub flight_count : Measure
flight_count = record { of = λ st. st.in_flight; of_empty = empty-in_flight }

abbrev pub share : Measure → Bytes → Bytes → AttemptState → ℕ
share μ ip k st = if str_eq (ip_from_key k) ip then μ.of st else 0

-- The sum over the identities of one IP, and what the IP's own state says.
abbrev pub identity_sum : Measure → Bytes → Map AttemptState → ℕ
identity_sum μ ip m = total (share μ ip) m

abbrev pub ip_count : Measure → Bytes → Map AttemptState → ℕ
ip_count μ ip m = weight (λ k st. μ.of st) ip (get ip m)

abbrev pub Agree : Measure → Map AttemptState → Map AttemptState → Type 0
Agree μ by_key by_ip = (ip : Bytes) → identity_sum μ ip by_key ≡ ip_count μ ip by_ip

-- What the source's assertAggregatesLocked asks of the two maps.
pub record Aggregates (l : AuthLimiter) : Type 0 where
  pub distinct_keys : Distinct l.by_key
  pub distinct_ips : Distinct l.by_ip
  pub failures : Agree failure_count l.by_key l.by_ip
  pub in_flight : Agree flight_count l.by_key l.by_ip

module _ (μ : Measure) where
  -- An identity that counts something has its IP's state.
  pub ip_present :
      (key ip : Bytes)
      → ip_from_key key ≡ ip
      → (by_key by_ip : Map AttemptState) (st : AttemptState) → Agree μ by_key by_ip
      → get key by_key ≡ some st
      → 0 < μ.of st
      → (ip_state : AttemptState) × (get ip by_ip ≡ some ip_state) × (μ.of st ≤ μ.of ip_state)
  ip_present key ip same by_key by_ip st a e pos =
      ground (arith, a ip, weight-le-total (share μ ip) key by_key, str_eq_iff (ip_from_key key) ip)

  -- Changing an identity and its IP by the same amount.
  pub Agree-insert :
      (key ip : Bytes)
      → ip_from_key key ≡ ip
      → (by_key by_ip : Map AttemptState) (st st' ip_state ip_state' : AttemptState)
      → Agree μ by_key by_ip
      → get key by_key ≡ some st
      → get ip by_ip ≡ some ip_state
      → μ.of ip_state' + μ.of st ≡ μ.of ip_state + μ.of st'
      → Agree μ (insert key st' by_key) (insert ip ip_state' by_ip)
  Agree-insert key ip same by_key by_ip st st' ip_state ip_state' a e e' h j = ground (
    arith,
    a j,
    total-insert (share μ j) key st' by_key,
    get-insert ip j ip_state' by_ip,
    str_eq_iff (ip_from_key key) j,
    str_eq_iff ip j,
  )

  pub ip_count-settle :
      (k ip : Bytes) (st : AttemptState) (now : ℕ) (m : Map AttemptState)
      → ip_count μ ip (settle k st now m) ≡ ip_count μ ip (insert k st m)
  unfolding settle
  ip_count-settle k ip st now m =
      ground (arith, get-insert k ip st m, get-remove k ip m, μ.of_empty st now)

  pub identity_sum-settle :
      (k ip : Bytes) (st : AttemptState) (now : ℕ) (m : Map AttemptState)
      → Distinct m
      → identity_sum μ ip (settle k st now m) ≡ identity_sum μ ip (insert k st m)
  unfolding settle
  identity_sum-settle k ip st now m d =
      ground (
        arith,
        total-insert (share μ ip) k st m,
        total-remove (share μ ip) k m d,
        μ.of_empty st now,
      )

  pub ip_count-drop_empty :
      (k ip : Bytes) (now : ℕ) (m : Map AttemptState)
      → ip_count μ ip (drop_empty k now m) ≡ ip_count μ ip m
  unfolding drop_empty
  ip_count-drop_empty k ip now m = elim (Option-cases (get k m)) [
    | inl e ↦ rw (e, drop_empty_found)
    | inr (st, e) ↦
        rw (e, drop_empty_found)
          (ground (arith, e, get-remove k ip m, str_eq_iff k ip, μ.of_empty st now))
  ]

  pub identity_sum-drop_empty :
      (k ip : Bytes) (now : ℕ) (m : Map AttemptState)
      → Distinct m
      → identity_sum μ ip (drop_empty k now m) ≡ identity_sum μ ip m
  unfolding drop_empty
  identity_sum-drop_empty k ip now m d = elim (Option-cases (get k m)) [
    | inl e ↦ rw (e, drop_empty_found)
    | inr (st, e) ↦
        rw (e, drop_empty_found)
          (ground (arith, e, total-remove (share μ ip) k m d, μ.of_empty st now))
  ]

pub settle-Distinct :
    (k : Bytes) (st : AttemptState) (now : ℕ) (m : Map AttemptState)
    → Distinct m
    → Distinct (settle k st now m)
unfolding settle
settle-Distinct k st now m d = elim (Bool-cases (empty_state st now)) [
  | inl e ↦ rw e (remove-Distinct k m d)
  | inr e ↦ rw e (insert-Distinct k st m d)
]

pub drop_empty-Distinct :
    (k : Bytes) (now : ℕ) (m : Map AttemptState) → Distinct m → Distinct (drop_empty k now m)
unfolding drop_empty
drop_empty-Distinct k now m d = elim (Option-cases (get k m)) [
  | inl e ↦ rw (e, drop_empty_found) d
  | inr (st, e) ↦ elim (Bool-cases (empty_state st now)) [
    | inl f ↦ rw (e, drop_empty_found, f) (remove-Distinct k m d)
    | inr f ↦ rw (e, drop_empty_found, f) d
  ]
]
