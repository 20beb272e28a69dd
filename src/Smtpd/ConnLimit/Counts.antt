-- ===== src/Smtpd/ConnLimit/Counts.antt =====
-- The limiter of internal/smtpd/connlimit.go counts exactly the open connections.
use outboxd.Common.{
  ℕ, zero, suc, ◌+◌, ◌-◌, ◌≤◌, ◌<◌, ◌≡◌, refl, true, false, Bytes, some, List, [], ◌∷◌, arith,
  str_eq, str_eq_iff, str_eq_refl, Option-cases, Bool-cases, inl, inr, if◌then◌else◌, get_elem?,
  set,
}
use outboxd.Common.Map.{get, get-insert, get-remove}
use outboxd.Smtpd.ConnLimit.{
  ConnectionLimiter, or_zero, new_connection_limiter, acquire, release, LimitedConn, LimitListener,
  accept, close_found, close, Event, accepts, closes, run,
}

-- How many connections are open, and how many of them from one host.
abbrev pub open_conns : List LimitedConn → ℕ
open_conns [] = 0
open_conns (c ∷ cs) = (if c.done then 0 else 1) + open_conns cs

abbrev pub open_from : Bytes → List LimitedConn → ℕ
open_from ip [] = 0
open_from ip (c ∷ cs) = (if c.done then 0 else if str_eq c.ip ip then 1 else 0) + open_from ip cs

-- The limiter's counters are the numbers of open connections, and within the caps.
pub record Counts (s : LimitListener) : Type 0 where
  pub active : s.limiter.active ≡ open_conns s.conns
  pub by_ip : (ip : Bytes) → or_zero (get ip s.limiter.by_ip) ≡ open_from ip s.conns
  pub global_cap : open_conns s.conns ≤ s.limiter.global
  pub ip_cap : (ip : Bytes) → open_from ip s.conns ≤ s.limiter.per_ip

set-open_conns :
    (cs : List LimitedConn) (i : ℕ) (c : LimitedConn)
    → get_elem? cs i ≡ some c
    → c.done ≡ false
    → suc (open_conns (set cs i (record c { done = true }))) ≡ open_conns cs
set-open_conns [] i c e d = ground arith
set-open_conns (x ∷ cs) zero c e d = ground arith
set-open_conns (x ∷ cs) (suc i) c e d = omega (arith, set-open_conns cs i c e d)

set-open_from :
    (ip : Bytes) (cs : List LimitedConn) (i : ℕ) (c : LimitedConn)
    → get_elem? cs i ≡ some c
    → c.done ≡ false
    → (if str_eq c.ip ip then 1 else 0) + open_from ip (set cs i (record c { done = true }))
      ≡ open_from ip cs
set-open_from ip [] i c e d = ground arith
set-open_from ip (x ∷ cs) zero c e d = ground arith
set-open_from ip (x ∷ cs) (suc i) c e d = ground (arith, set-open_from ip cs i c e d)

accept-Counts : (ips : List Bytes) (s : LimitListener) → Counts s → Counts (accept ips s).0
unfolding accept acquire
accept-Counts [] s v = v
accept-Counts (ip ∷ ips) s v = record {
  active = ground (arith, (accept-Counts ips s v).active);
  by_ip = λ j. ground (
    arith,
    (accept-Counts ips s v).by_ip j,
    v.by_ip ip,
    v.by_ip j,
    str_eq_iff ip j,
    get-insert ip j (or_zero (get ip s.limiter.by_ip) + 1) s.limiter.by_ip,
  );
  global_cap = ground (arith, (accept-Counts ips s v).global_cap);
  ip_cap = λ j.
      ground (arith, (accept-Counts ips s v).ip_cap j, v.ip_cap j, v.by_ip ip, str_eq_iff ip j);
}

release-get :
    (ip j : Bytes) (l : ConnectionLimiter)
    → 0 < or_zero (get ip l.by_ip)
    → (if str_eq ip j then 1 else 0) + or_zero (get j (release ip l).by_ip)
      ≡ or_zero (get j l.by_ip)
unfolding release
release-get ip j l h = ground (
  arith,
  str_eq_iff ip j,
  get-remove ip j l.by_ip,
  get-insert ip j (or_zero (get ip l.by_ip) - 1) l.by_ip,
)

release-active : (ip : Bytes) (l : ConnectionLimiter) → (release ip l).active ≡ l.active - 1
unfolding release
release-active ip l = refl

release-caps :
    (ip : Bytes) (l : ConnectionLimiter)
    → ((release ip l).global ≡ l.global) × ((release ip l).per_ip ≡ l.per_ip)
unfolding release
release-caps ip l = (refl, refl)

module _ (i : ℕ) (s : LimitListener) (c : LimitedConn) (v : Counts s)
    (e : get_elem? s.conns i ≡ some c) (d : c.done ≡ false) where
  held : 0 < or_zero (get c.ip s.limiter.by_ip)
  held = ground (arith, v.by_ip c.ip, set-open_from c.ip s.conns i c e d, str_eq_refl c.ip)

  freed-Counts : Counts (record {
    limiter = release c.ip s.limiter;
    conns = set s.conns i (record c { done = true });
  })
  freed-Counts = record {
    active = omega (arith, release-active c.ip s.limiter, v.active, set-open_conns s.conns i c e d);
    by_ip = λ j.
        ground
          (arith, release-get c.ip j s.limiter held, v.by_ip j, set-open_from j s.conns i c e d);
    global_cap =
        omega
          (arith, (release-caps c.ip s.limiter).0, v.global_cap, set-open_conns s.conns i c e d);
    ip_cap = λ j.
        ground
          (arith, (release-caps c.ip s.limiter).1, v.ip_cap j, set-open_from j s.conns i c e d);
  }

close-Counts : (i : ℕ) (s : LimitListener) → Counts s → Counts (close i s)
unfolding close
close-Counts i s v = elim (Option-cases (get_elem? s.conns i)) [
  | inl e ↦ rw (e, close_found) v
  | inr (c, e) ↦ elim (Bool-cases c.done) [
    | inl d ↦ rw (e, close_found, d) v
    | inr d ↦ rw (e, close_found, d) (freed-Counts i s c v e d)
  ]
]

run-Counts : (es : List Event) (s : LimitListener) → Counts s → Counts (run es s)
unfolding run
run-Counts [] s v = v
run-Counts (accepts ips ∷ es) s v = run-Counts es (accept ips s).0 (accept-Counts ips s v)
run-Counts (closes i ∷ es) s v = run-Counts es (close i s) (close-Counts i s v)

abbrev pub fresh : ℕ → ℕ → LimitListener
unfolding new_connection_limiter
fresh global per_ip = record { limiter = new_connection_limiter global per_ip; conns = [] }

fresh-Counts : (global per_ip : ℕ) → Counts (fresh global per_ip)
unfolding new_connection_limiter get
fresh-Counts global per_ip = record {
  active = refl;
  by_ip = λ ip. refl;
  global_cap = omega arith;
  ip_cap = λ ip. omega arith;
}

-- After any sequence of accepted and closed connections, whichever connections are closed twice,
-- the limiter's counters are exactly the numbers of connections that are open, in all and from
-- each host, and both stay within the configured caps.
pub run-fresh-Counts : (global per_ip : ℕ) (es : List Event) → Counts (run es (fresh global per_ip))
run-fresh-Counts global per_ip es = run-Counts es (fresh global per_ip) (fresh-Counts global per_ip)
