-- ===== src/Smtpd/AuthLimiter/Steps.antt =====
-- internal/smtpd/limiter.go: sequences of ends of attempts, evictions and sweeps.
use outboxd.Common.{ℕ, ◌≡◌, Bytes, some}
use outboxd.Smtpd.AuthLimiter.{AttemptState, AuthLimiter, failed, canceled, succeeded}
use outboxd.Smtpd.AuthLimiter.Agree.{Aggregates}
use outboxd.Smtpd.AuthLimiter.Evictions.{
  prune_keys-Aggregates, evict_oldest_key-Aggregates, evict_oldest_ip-Aggregates,
}
use outboxd.Smtpd.AuthLimiter.Sweep.{prune_keys, evict_oldest_key, evict_oldest_ip}
use outboxd.Smtpd.AuthLimiter.Terminal.{
  NoNul, failed-Aggregates, canceled-Aggregates, succeeded-Aggregates,
}

module _ (canon : Bytes → Bytes) where
  -- What may happen to a limiter between two admissions; a host's text has no NUL.
  pub data Step (l : AuthLimiter) : AuthLimiter → Type 0 where
    fails : (ip username : Bytes) (now : ℕ) → NoNul ip → Step l (failed canon ip username now l)
    cancels : (ip username : Bytes) (now : ℕ) → NoNul ip → Step l (canceled canon ip username now l)
    succeeds :
        (ip username : Bytes) (now : ℕ) → NoNul ip → Step l (succeeded canon ip username now l)
    sweeps_keys : (now : ℕ) → Step l (prune_keys l.by_key now l)
    evicts_key :
        {e : AuthLimiter} (now : ℕ) (k : Bytes) (st : AttemptState)
        → evict_oldest_key now l ≡ some (k, st, e)
        → Step l e
    evicts_ip : {e : AuthLimiter} (now : ℕ) → evict_oldest_ip now l ≡ some e → Step l e

  -- A history of steps, the first one first.
  pub data Steps : AuthLimiter → AuthLimiter → Type 0 where
    nothing : (l : AuthLimiter) → Steps l l
    first : {l middle e : AuthLimiter} → Step l middle → Steps middle e → Steps l e

  Step-Aggregates : {l e : AuthLimiter} → Step l e → Aggregates l → Aggregates e
  Step-Aggregates {l} (fails ip username now n) a = failed-Aggregates canon ip username now l n a
  Step-Aggregates {l} (cancels ip username now n) a =
      canceled-Aggregates canon ip username now l n a
  Step-Aggregates {l} (succeeds ip username now n) a =
      succeeded-Aggregates canon ip username now l n a
  Step-Aggregates {l} (sweeps_keys now) a = prune_keys-Aggregates now l a
  Step-Aggregates {l} {e} (evicts_key now k st h) a = evict_oldest_key-Aggregates now l e k st h a
  Step-Aggregates {l} {e} (evicts_ip now h) a = evict_oldest_ip-Aggregates now l e h a

  -- Where every IP's failure and in-flight totals are the sums over its identities, they are so after
  -- any failures, cancellations, successes, sweeps over the identities and evictions of an identity or
  -- of an IP, in any order, for IPs without NUL in their text.
  pub Steps-Aggregates : {l e : AuthLimiter} → Steps l e → Aggregates l → Aggregates e
  Steps-Aggregates (nothing l) a = a
  Steps-Aggregates (first step later) a = Steps-Aggregates later (Step-Aggregates step a)
