-- ===== src/Smtpd/Authentication/Tests.antt =====
-- A login of internal/smtpd/session.go with one configured user.
use outboxd.Common.{
  ◌≡◌, refl, ◌+◌, ◌*◌, ltb, if◌then◌else◌, ◌&&◌, Bool, true, none, Bytes, [], ◌∷◌, codes, str_eq,
  arith,
}
use outboxd.Common.Map.{Map, get, total}
use outboxd.Smtpd.AuthLimiter.{new_auth_limiter_sized, second}
use outboxd.Smtpd.AuthLimiter.Reserve.{reserve}
use outboxd.Smtpd.AuthLimiter.Agree.{Aggregates}
use outboxd.Smtpd.AuthLimiter.Terminal.{NoNul}
use outboxd.Smtpd.Authentication.{User, Server, find_user, credentials, authenticate}
use outboxd.Smtpd.Authentication.Outcomes.{is_authenticated, authenticate-outcome}

abbrev as_given : Bytes → Bytes
as_given name = name

-- The password is its own hash.
abbrev equal : Bytes → Bytes → Bool
equal hash password = str_eq hash password

abbrev users : Map User
users =
    (
      codes "alice",
      record {
        username = codes "alice";
        password_hash = codes "pw";
        allowed_senders = [];
        enabled = true;
      },
    )
    ∷ []

abbrev idle : Server
idle = record {
  hashing = 0;
  hash_slots = 2;
  auth_limit = new_auth_limiter_sized 0 0 0 0 (1000 * second);
}

authenticate-outcome_example :
    (is_authenticated
        (authenticate as_given equal
          (codes "192.0.2.1")
          (codes "alice")
          (codes "pw")
          (1000 * second + 1)
          (1000 * second + 2)
          users
          idle).2
      ≡ (ltb 0 2
          && ((reserve as_given
                (codes "192.0.2.1")
                (codes "alice")
                (1000 * second + 1)
                idle.auth_limit).1
              && credentials as_given equal
                  (find_user as_given equal users (codes "alice"))
                  (codes "pw"))))
    × ((authenticate as_given equal
          (codes "192.0.2.1")
          (codes "alice")
          (codes "pw")
          (1000 * second + 1)
          (1000 * second + 2)
          users
          idle).1
        ≡ (if is_authenticated
              (authenticate as_given equal
                (codes "192.0.2.1")
                (codes "alice")
                (codes "pw")
                (1000 * second + 1)
                (1000 * second + 2)
                users
                idle).2
            then find_user as_given equal users (codes "alice")
            else none))
    × ((authenticate as_given equal
          (codes "192.0.2.1")
          (codes "alice")
          (codes "pw")
          (1000 * second + 1)
          (1000 * second + 2)
          users
          idle).0.hashing
        ≡ 0)
authenticate-outcome_example =
    authenticate-outcome as_given equal (codes "192.0.2.1") (codes "alice") (codes "pw")
      (1000 * second + 1) (1000 * second + 2) users idle

host-NoNul : NoNul (codes "192.0.2.1")
host-NoNul = omega arith

idle-Aggregates : Aggregates idle.auth_limit
unfolding new_auth_limiter_sized total get
idle-Aggregates = record {
  distinct_keys = tt;
  distinct_ips = tt;
  failures = λ ip. refl;
  in_flight = λ ip. refl;
}
