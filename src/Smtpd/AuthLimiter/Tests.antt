-- ===== src/Smtpd/AuthLimiter/Tests.antt =====
-- The authentication limiter of internal/smtpd/limiter.go at concrete inputs.
use outboxd.Common.{ℕ, ◌≡◌, refl, true, Bytes, some, [], codes, arith, str_eq, ◌+◌, ◌*◌}
use outboxd.Common.Map.{get, insert, remove, modify, total}
use outboxd.Smtpd.AuthLimiter.{
  AttemptState, AuthLimiter, new_auth_limiter_sized, second, failed, canceled, identity_key,
  ip_from_key, can_reserve, empty_state, settle, fail_state, is_reserved, release_user,
}
use outboxd.Smtpd.AuthLimiter.Sweep.{
  force_prune, prune_keys, prune_ips, prune_users, safe_to_prune, is_idle, older, oldest_key,
  evict_oldest_key, evict_oldest_ip, drop_identity, maybe_periodic_prune, dropped_ip_state,
  oldest_ip, is_unsafe, remove_ip_keys,
}
use outboxd.Smtpd.AuthLimiter.Reserve.{
  reserve, make_room, admit, admit_held, publish, hold, is_nil, reserved_state, user_busy,
}
use outboxd.Smtpd.AuthLimiter.Agree.{Aggregates}
use outboxd.Smtpd.AuthLimiter.Terminal.{NoNul, failed-Aggregates}
use outboxd.Smtpd.AuthLimiter.Admission.{reserve-Aggregates}
use outboxd.Smtpd.AuthLimiter.Orphans.{LastIdentity, reserve-orphans}
use outboxd.Smtpd.AuthLimiter.Steps.{nothing, first, cancels, evicts_ip, Steps-Aggregates}

abbrev same : Bytes → Bytes
same u = u

abbrev home : Bytes
home = codes "192.0.2.1"

abbrev alice : Bytes
alice = codes "alice"

abbrev start : ℕ
start = 1000 * second

abbrev fresh : AuthLimiter
unfolding new_auth_limiter_sized
fresh = new_auth_limiter_sized 0 0 0 0 start

home-NoNul : NoNul home
home-NoNul = omega arith

fresh-Aggregates : Aggregates fresh
unfolding new_auth_limiter_sized total get
fresh-Aggregates = record {
  distinct_keys = tt;
  distinct_ips = tt;
  failures = λ ip. refl;
  in_flight = λ ip. refl;
}

abbrev one_flight : AuthLimiter
one_flight = (reserve same home alice (start + 1) fresh).0

-- One identity at most, and one failure of it.
abbrev small : AuthLimiter
unfolding new_auth_limiter_sized
small = new_auth_limiter_sized 10 1 0 0 start

abbrev after_failure : AuthLimiter
after_failure = failed same home alice (start + 2) (reserve same home alice (start + 1) small).0

abbrev bob : Bytes
bob = codes "bob"

abbrev one_failure : AttemptState
one_failure = record { failures = 1; until = 0; seen = start + 2; in_flight = 0 }

abbrev later : AuthLimiter
later = record after_failure { last_cap_sweep = start + 3 }

abbrev swept : AuthLimiter
swept = force_prune (start + 3) later

abbrev evicted : AuthLimiter
evicted = drop_identity (identity_key home alice) one_failure (start + 3) swept

bob_orphans :
    LastIdentity same home bob
      (start + 3)
      after_failure
      swept
      evicted
      (identity_key home alice)
      one_failure
      one_failure
unfolding new_auth_limiter_sized failed reserve maybe_periodic_prune make_room hold is_nil admit
    admit_held publish reserved_state fail_state modify get insert identity_key str_eq can_reserve
    user_busy is_reserved release_user remove force_prune prune_keys safe_to_prune empty_state
    prune_ips prune_users drop_identity evict_oldest_key oldest_key older is_idle ip_from_key settle
    dropped_ip_state
bob_orphans = record {
  host = home-NoNul;
  not_due = omega arith;
  sweep_allowed = omega arith;
  new_key = refl;
  keys_full = omega arith;
  swept_eq = refl;
  still_new = refl;
  still_full = omega arith;
  ip_known = refl;
  oldest = refl;
  own = refl;
  only_failures = refl;
  only_flights = refl;
  new_user = refl;
  user_room = omega arith;
}

reserve-orphans_example :
    ((reserve same home bob (start + 3) after_failure).1 ≡ true)
    × ¬ Aggregates (reserve same home bob (start + 3) after_failure).0
reserve-orphans_example =
    reserve-orphans same home bob (start + 3) after_failure swept evicted (identity_key home alice)
      one_failure one_failure bob_orphans

small-Aggregates : Aggregates small
unfolding new_auth_limiter_sized total get
small-Aggregates = record {
  distinct_keys = tt;
  distinct_ips = tt;
  failures = λ ip. refl;
  in_flight = λ ip. refl;
}

after_failure-Aggregates : Aggregates after_failure
unfolding new_auth_limiter_sized
after_failure-Aggregates =
    failed-Aggregates same home alice (start + 2) (reserve same home alice (start + 1) small).0
      home-NoNul
      (reserve-Aggregates same home alice (start + 1) small home-NoNul small-Aggregates
        (omega arith) (omega arith) (omega arith))

abbrev without_alice : AuthLimiter
without_alice = drop_identity (identity_key home alice) one_failure (start + 3) after_failure

alice_evicted :
    evict_oldest_key (start + 3) after_failure
    ≡ some (identity_key home alice, one_failure, without_alice)
unfolding new_auth_limiter_sized failed reserve maybe_periodic_prune make_room hold is_nil admit
    admit_held publish reserved_state fail_state modify get insert identity_key str_eq can_reserve
    user_busy is_reserved release_user remove force_prune prune_keys safe_to_prune empty_state
    prune_ips prune_users drop_identity evict_oldest_key oldest_key older is_idle ip_from_key settle
    dropped_ip_state
alice_evicted = refl

abbrev without_home : AuthLimiter
without_home = record after_failure { by_key = []; by_ip = [] }

home_evicted : evict_oldest_ip (start + 3) after_failure ≡ some without_home
unfolding new_auth_limiter_sized failed reserve maybe_periodic_prune make_room hold is_nil admit
    admit_held publish reserved_state fail_state modify get insert identity_key str_eq can_reserve
    user_busy is_reserved release_user remove force_prune prune_keys safe_to_prune empty_state
    prune_ips prune_users evict_oldest_ip oldest_ip is_unsafe remove_ip_keys older is_idle
    ip_from_key settle
home_evicted = refl

-- The only host is evicted; the next attempt there is canceled.
Steps-Aggregates_example : Aggregates (canceled same home alice (start + 4) without_home)
Steps-Aggregates_example =
    Steps-Aggregates same
      (first (evicts_ip (start + 3) home_evicted) (
        first (cancels home alice (start + 4) home-NoNul)
          (nothing (canceled same home alice (start + 4) without_home))))
      after_failure-Aggregates
