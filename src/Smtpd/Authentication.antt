-- ===== src/Smtpd/Authentication.antt =====
-- session.authenticate of internal/smtpd/session.go, with the hash slots of smtpd.go and Config.User of
-- internal/config/users.go. It takes the limiter of AuthLimiter through one reservation and its end.
-- passwd.Verify derives keys with argon2, so that its answer is the parameter `verify`, which is false
-- for an unusable hash; the lower case of a name is `canon` for the limiter and for the configuration.
pub mod Outcomes
mod Tests
use outboxd.Common.{
  ℕ, ◌+◌, ◌-◌, Bool, true, false, not, ◌&&◌, ◌||◌, Bytes, Option, none, some, List, [], ◌∷◌, ltb,
  if◌then◌else◌,
}
use outboxd.Common.Map.{Map, get}
use outboxd.Smtpd.AuthLimiter.{AuthLimiter, failed, succeeded}
use outboxd.Smtpd.AuthLimiter.Reserve.{reserve}

pub record User : Type 0 where
  pub username : Bytes
  pub password_hash : Bytes
  pub allowed_senders : List Bytes
  pub enabled : Bool

pub record Server : Type 0 where
  -- The hash slots in use, and their number.
  pub hashing : ℕ
  pub hash_slots : ℕ
  pub auth_limit : AuthLimiter

pub data AuthReply : Type 0 where
  auth_busy auth_failed authenticated : AuthReply

unfoldable pub acquire_hash_slot : Server → Server × Bool
acquire_hash_slot s =
    if ltb s.hashing s.hash_slots then (record s { hashing = s.hashing + 1 }, true) else (s, false)

unfoldable pub release_hash_slot : Server → Server
release_hash_slot s = record s { hashing = s.hashing - 1 }

module _ (canon : Bytes → Bytes) (verify : Bytes → Bytes → Bool) where
  unfoldable pub find_user : Map User → Bytes → Option User
  find_user users username = get (canon username) users

  -- The credentials hold: the user is known and enabled, and the password fits.
  unfoldable pub credentials : Option User → Bytes → Bool
  credentials none password = false
  credentials (some u) password = u.enabled && verify u.password_hash password

  -- From a granted reservation on, at the time when the password has been checked.
  unfoldable pub check_user :
      Bytes → Bytes → Bytes → ℕ → Option User → AuthLimiter → AuthLimiter × Option User × AuthReply
  check_user ip username password now none l = (failed canon ip username now l, none, auth_failed)
  check_user ip username password now (some u) l =
      if not u.enabled
      then (failed canon ip username now l, none, auth_failed)
      else if not (verify u.password_hash password)
      then (failed canon ip username now l, none, auth_failed)
      else (succeeded canon ip username now l, some u, authenticated)

  -- `start` is the time of the reservation, and `now` that of its end. The user is the one that the
  -- session takes over.
  unfoldable pub authenticate :
      Bytes → Bytes → Bytes → ℕ → ℕ → Map User → Server → Server × Option User × AuthReply
  unfolding acquire_hash_slot release_hash_slot check_user find_user
  authenticate ip username password start now users s =
      let (busy, slot) = acquire_hash_slot s in
      let (reserved, granted) = reserve canon ip username start busy.auth_limit in
      let (l, user, reply) =
        check_user ip username password now (find_user users username) reserved in
      if not slot
      then (s, none, auth_busy)
      else if not granted
      then (release_hash_slot (record busy { auth_limit = reserved }), none, auth_failed)
      else (release_hash_slot (record busy { auth_limit = l }), user, reply)
