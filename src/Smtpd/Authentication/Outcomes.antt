-- ===== src/Smtpd/Authentication/Outcomes.antt =====
-- What a login of internal/smtpd/session.go leaves behind.
use outboxd.Common.{
  ℕ, ◌-◌, ◌<◌, ◌≡◌, refl, inl, inr, Bool, true, false, ◌&&◌, Bytes, Option, none, some, arith, ltb,
  if◌then◌else◌, Bool-cases, length,
}
use outboxd.Common.Map.{Map}
use outboxd.Smtpd.AuthLimiter.{AuthLimiter}
use outboxd.Smtpd.AuthLimiter.Reserve.{reserve}
use outboxd.Smtpd.AuthLimiter.Agree.{Aggregates}
use outboxd.Smtpd.AuthLimiter.Terminal.{NoNul, failed-Aggregates, succeeded-Aggregates}
use outboxd.Smtpd.AuthLimiter.Admission.{reserve-Aggregates}
use outboxd.Smtpd.Authentication.{
  User, Server, AuthReply, authenticated, acquire_hash_slot, release_hash_slot, find_user,
  credentials, check_user, authenticate,
}

abbrev pub is_authenticated : AuthReply → Bool
is_authenticated authenticated = true
is_authenticated _ = false

module _ (canon : Bytes → Bytes) (verify : Bytes → Bytes → Bool) (ip username password : Bytes)
    (start now : ℕ) (users : Map User) (s : Server) where
  checked :
      (u : Option User) (l : AuthLimiter)
      → is_authenticated (check_user canon verify ip username password now u l).2
        ≡ credentials canon verify u password
  unfolding check_user credentials
  checked none l = refl
  checked (some u) l = ground arith

  checked_user :
      (u : Option User) (l : AuthLimiter)
      → (check_user canon verify ip username password now u l).1 ≡ (
          if is_authenticated (check_user canon verify ip username password now u l).2
          then u
          else none)
  unfolding check_user
  checked_user none l = refl
  checked_user (some u) l = ground arith

  checked-Aggregates :
      (u : Option User) (l : AuthLimiter)
      → NoNul ip
      → Aggregates l
      → Aggregates (check_user canon verify ip username password now u l).0
  unfolding check_user
  checked-Aggregates none l host a = failed-Aggregates canon ip username now l host a
  checked-Aggregates (some u) l host a = elim (Bool-cases u.enabled) [
    | inr d ↦ rw d (failed-Aggregates canon ip username now l host a)
    | inl d ↦ rw d (elim (Bool-cases (verify u.password_hash password)) [
      | inr v ↦ rw v (failed-Aggregates canon ip username now l host a)
      | inl v ↦ rw v (succeeded-Aggregates canon ip username now l host a)
    ])
  ]

  abbrev attempt : AuthLimiter × Bool
  attempt = reserve canon ip username start s.auth_limit

  abbrev result : Server × Option User × AuthReply
  result = authenticate canon verify ip username password start now users s

  slots : result.0.hashing ≡ s.hashing
  unfolding authenticate acquire_hash_slot release_hash_slot
  slots = elim (Bool-cases (ltb s.hashing s.hash_slots)) [
    | inr b ↦ rw b refl
    | inl b ↦
        rw b
          (elim (Bool-cases attempt.1) [ inr g ↦ rw g (omega arith) | inl g ↦ rw g (omega arith) ])
  ]

  answered : is_authenticated result.2 ≡ (
      ltb s.hashing s.hash_slots
      && (attempt.1 && credentials canon verify (find_user canon verify users username) password))
  unfolding authenticate acquire_hash_slot
  answered = elim (Bool-cases (ltb s.hashing s.hash_slots)) [
    | inr b ↦ rw b refl
    | inl b ↦ rw b (elim (Bool-cases attempt.1) [
      | inr g ↦ rw g refl
      | inl g ↦ rw g (checked (find_user canon verify users username) attempt.0)
    ])
  ]

  taken_over :
      result.1 ≡ (if is_authenticated result.2 then find_user canon verify users username else none)
  unfolding authenticate acquire_hash_slot
  taken_over = elim (Bool-cases (ltb s.hashing s.hash_slots)) [
    | inr b ↦ rw b refl
    | inl b ↦ rw b (elim (Bool-cases attempt.1) [
      | inr g ↦ rw g refl
      | inl g ↦ rw g (checked_user (find_user canon verify users username) attempt.0)
    ])
  ]

  -- A login succeeds exactly where a hash slot is free, the limiter grants the attempt, the user is known
  -- and enabled and the password fits. The session gets a user exactly then, and it is the configured one.
  -- The hash slots are the same as before in every case.
  pub authenticate-outcome :
      (is_authenticated (authenticate canon verify ip username password start now users s).2 ≡ (
        ltb s.hashing s.hash_slots
        && ((reserve canon ip username start s.auth_limit).1
            && credentials canon verify (find_user canon verify users username) password)))
      × ((authenticate canon verify ip username password start now users s).1 ≡ (
          if is_authenticated (authenticate canon verify ip username password start now users s).2
          then find_user canon verify users username
          else none))
      × ((authenticate canon verify ip username password start now users s).0.hashing ≡ s.hashing)
  authenticate-outcome = (answered, taken_over, slots)

  -- A login, successful or not, for an IP without NUL in its text takes a limiter in which every
  -- IP's failure and in-flight totals are the sums over its identities to such a limiter, where no
  -- sweep is due and neither the map of IPs nor that of identities is full.
  pub authenticate-Aggregates :
      NoNul ip
      → Aggregates s.auth_limit
      → start - s.auth_limit.pruned < s.auth_limit.prune_every
      → length s.auth_limit.by_key < s.auth_limit.max_key
      → length s.auth_limit.by_ip < s.auth_limit.max_ip
      → Aggregates (authenticate canon verify ip username password start now users s).0.auth_limit
  unfolding authenticate acquire_hash_slot release_hash_slot
  authenticate-Aggregates host a due keys ips =
      let reserved = reserve-Aggregates canon ip username start s.auth_limit host a due ips keys in
      elim (Bool-cases (ltb s.hashing s.hash_slots)) [
        | inr b ↦ rw b a
        | inl b ↦ rw b (elim (Bool-cases attempt.1) [
          | inr g ↦ rw g reserved
          | inl g ↦
              rw g
                (checked-Aggregates (find_user canon verify users username) attempt.0 host reserved)
        ])
      ]
