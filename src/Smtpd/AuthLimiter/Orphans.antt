-- ===== src/Smtpd/AuthLimiter/Orphans.antt =====
-- reserve of internal/smtpd/limiter.go where an eviction takes the last identity of the IP that is
-- being admitted.
use outboxd.Common.{
  ℕ, ◌-◌, ◌≤◌, ◌<◌, ◌≡◌, refl, Bool, true, false, Bytes, none, some, length, leb, ltb, ◌||◌, arith,
  str_eq_iff, str_eq_refl, le→leb, lt→ltb,
}
use outboxd.Common.Map.{Map, get, insert, modify, total, get-insert, get-remove, weight-le-total}
use outboxd.Smtpd.AuthLimiter.{
  AttemptState, AuthLimiter, zero_state, cap_sweep_interval, identity_key, ip_from_key, can_reserve,
  settle, empty_state,
}
use outboxd.Smtpd.AuthLimiter.Sweep.{
  dropped_ip_state, drop_ip_found, drop_identity, force_prune, maybe_periodic_prune,
  evict_oldest_key,
}
use outboxd.Smtpd.AuthLimiter.Reserve.{
  Held, hold, reserved_state, publish, admit, admit_held, make_room, then_room, room_for_key,
  room_for_ip, seen_through, reserve,
}
use outboxd.Smtpd.AuthLimiter.Agree.{flight_count, Agree, Aggregates, share}
use outboxd.Smtpd.AuthLimiter.Terminal.{NoNul, ip_from_key-identity_key}

-- An admission at full capacity of identities, by an IP that is known under one other identity
-- only, which is the oldest idle one and so is the one that is evicted, and a user without a state.
pub record LastIdentity (canon : Bytes → Bytes) (ip username : Bytes) (now : ℕ)
    (l swept evicted : AuthLimiter) (old : Bytes) (st ip_state : AttemptState) : Type 0 where
  pub host : NoNul ip
  pub not_due : now - l.pruned < l.prune_every
  pub sweep_allowed : cap_sweep_interval ≤ now - l.last_cap_sweep
  pub new_key : get (identity_key ip (canon username)) l.by_key ≡ none
  pub keys_full : l.max_key ≤ length l.by_key
  pub swept_eq : force_prune now (record l { last_cap_sweep = now }) ≡ swept
  pub still_new : get (identity_key ip (canon username)) swept.by_key ≡ none
  pub still_full : swept.max_key ≤ length swept.by_key
  pub ip_known : get ip swept.by_ip ≡ some ip_state
  pub oldest : evict_oldest_key now swept ≡ some (old, st, evicted)
  pub own : ip_from_key old ≡ ip
  pub only_failures : ip_state.failures ≡ st.failures
  pub only_flights : ip_state.in_flight ≡ st.in_flight
  pub new_user : get (canon username) l.by_user ≡ none
  pub user_room : length evicted.by_user < evicted.max_user

ge→not-ltb : (a b : ℕ) → b ≤ a → ltb a b ≡ false
ge→not-ltb a b h = ground arith

ge→not-leb : (a b : ℕ) → b < a → leb a b ≡ false
ge→not-leb a b h = ground arith

or_true : (a : Bool) → (a || true) ≡ true
or_true true = refl
or_true false = refl

evicted-drop :
    (now : ℕ) (l : AuthLimiter) (old : Bytes) (st : AttemptState) (e : AuthLimiter)
    → evict_oldest_key now l ≡ some (old, st, e)
    → drop_identity old st now l ≡ e
unfolding evict_oldest_key
evicted-drop now l old st e h = ground arith

module _ (canon : Bytes → Bytes) (ip username : Bytes) (now : ℕ) (l swept evicted : AuthLimiter)
    (old : Bytes) (st ip_state : AttemptState)
    (h : LastIdentity canon ip username now l swept evicted old st ip_state) where
  last_held : Held
  last_held = record {
    limiter = evicted;
    ip_state = some (dropped_ip_state st now ip_state);
    key_state = none;
  }

  abbrev new_identity : Bytes
  new_identity = identity_key ip (canon username)

  ip_room_kept : room_for_ip ip now (hold ip new_identity swept) ≡ some (hold ip new_identity swept)
  unfolding room_for_ip hold
  ip_room_kept = rw h.ip_known

  own_state : seen_through ip old st now (some ip_state) ≡ some (dropped_ip_state st now ip_state)
  unfolding seen_through
  own_state = rw ((str_eq_iff (ip_from_key old) ip).1 h.own)

  key_room_made : room_for_key ip now (hold ip new_identity swept) ≡ some last_held
  unfolding room_for_key hold last_held
  key_room_made = rw (h.still_new, le→leb _ _ h.still_full, h.oldest, h.ip_known, own_state)

  makes_room : make_room ip new_identity now l ≡ (evicted, some last_held)
  unfolding make_room hold last_held
  makes_room =
      rw (h.new_key, le→leb _ _ h.keys_full, ge→not-ltb _ _ h.sweep_allowed, or_true, h.swept_eq)
        (rw (ip_room_kept, then_room, key_room_made))

  evicted_eq : drop_identity old st now swept ≡ evicted
  evicted_eq = evicted-drop now swept old st evicted h.oldest

  -- The eviction deletes the IP's own entry.
  ip_gone : get ip evicted.by_ip ≡ none
  unfolding drop_identity drop_ip_found dropped_ip_state settle empty_state
  ip_gone =
      rw (← evicted_eq, h.own, h.ip_known)
        (ground
          (arith, h.only_failures, h.only_flights, get-remove ip ip swept.by_ip, str_eq_refl ip))

  unswept : maybe_periodic_prune now l ≡ l
  unfolding maybe_periodic_prune
  unswept = rw (lt→ltb _ _ h.not_due)

  granted : admit ip new_identity (canon username) now none last_held ≡ (
    record evicted {
      by_ip = modify ip (reserved_state now) evicted.by_ip;
      by_key = insert new_identity (reserved_state now zero_state) evicted.by_key;
      by_user = insert (canon username) (reserved_state now zero_state) evicted.by_user;
    },
    true,
  )
  unfolding admit last_held dropped_ip_state can_reserve publish
  granted = rw (ge→not-leb _ _ h.user_room) (ground (arith, h.only_failures, h.only_flights))

  reserve_eq :
      reserve canon ip username now l ≡ admit ip new_identity (canon username) now none last_held
  unfolding reserve
  reserve_eq = rw (unswept, makes_room, admit_held, h.new_user)

  new_keys : Map AttemptState
  new_keys = insert new_identity (reserved_state now zero_state) evicted.by_key

  counted : 1 ≤ total (share flight_count ip) new_keys
  unfolding new_keys reserved_state
  counted = ground (
    arith,
    str_eq_iff (ip_from_key new_identity) ip,
    ip_from_key-identity_key ip (canon username) h.host,
    weight-le-total (share flight_count ip) new_identity new_keys,
    str_eq_refl new_identity,
    get-insert new_identity new_identity (reserved_state now zero_state) evicted.by_key,
  )

  disagree : ¬ Agree flight_count new_keys (modify ip (reserved_state now) evicted.by_ip)
  unfolding modify
  disagree a = ground (arith, a ip, counted, ip_gone)

  -- Take an admission for an IP without a NUL byte and a user who has no state, when no periodic prune
  -- is due, the map of identities is full, also after the sweep that is allowed then, and does not
  -- have the new identity, the oldest idle identity is the only one of this IP, and the map of users
  -- has room after its eviction. The reservation is granted and breaks the aggregates: the eviction
  -- deletes the IP's entry, and the in-flight attempt is counted on a state that no map holds.
  pub reserve-orphans :
      ((reserve canon ip username now l).1 ≡ true)
      × ¬ Aggregates (reserve canon ip username now l).0
  unfolding new_keys
  reserve-orphans = rw (reserve_eq, granted) (refl, λ a. disagree a.in_flight)
