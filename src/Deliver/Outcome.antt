-- ===== src/Deliver/Outcome.antt =====
-- internal/deliver: expire, expirePending, complete and backoff of outcome.go, and the end of
-- attemptAdmitted in attempt.go, which decides what becomes of the envelope. Times and durations are
-- numbers of nanoseconds. The queue call that the code then makes is returned as a value.
pub mod Backoff
pub mod Ends
mod Tests
use outboxd.Common.{
  ℕ, zero, suc, ◌+◌, ◌-◌, ◌*◌, ◌/◌, Bool, true, false, not, ◌&&◌, ◌||◌, Bytes, List, [], ◌∷◌, ltb,
  leb, ◌==◌, if◌then◌else◌, map, codes,
}
use outboxd.Queue.Envelope.{
  Recipient, Envelope, failed, is_pending, is_sent, is_failed, count_status, pending_count,
}

abbrev pub lifetime_detail : Bytes
lifetime_detail = codes "maximum queue lifetime exceeded"

abbrev pub exhausted_detail : Bytes
exhausted_detail = codes "delivery attempts exhausted"

abbrev pub terminal_enhanced_code : Bytes
terminal_enhanced_code = codes "5.4.7"

-- What the attempt asks of the queue. `buries` and `finishes` come after ensureDSN.
pub data Action : Type 0 where
  finishes buries retries : Action
  -- RetryDeferred, then parkAdmission for the domain.
  parks : Bytes → Action

unfoldable pub is_expired : ℕ → ℕ → Envelope → Bool
is_expired now lifetime e = not (ltb now (e.created + lifetime))

-- The loop body of expirePending.
unfoldable pub expire_recipient : Recipient → Recipient
expire_recipient r =
    if is_pending r.status
    then record r {
      status = failed;
      detail = lifetime_detail;
      code = 554;
      enhanced_code = terminal_enhanced_code;
    }
    else r

unfoldable pub expire_pending : Envelope → Envelope × Action
unfolding expire_recipient
expire_pending e = (
  record e { recipients = map expire_recipient e.recipients; last_error = lifetime_detail },
  buries,
)

unfoldable pub complete : Envelope → Envelope × Action
unfolding count_status
complete e =
    if count_status is_sent e.recipients == 0 && ltb 0 (count_status is_failed e.recipients)
    then (e, buries)
    else (e, finishes)

-- The loop of backoff, for the rounds that are left.
unfoldable pub double_delay : ℕ → ℕ → ℕ → ℕ
double_delay zero delay maximum = delay
double_delay (suc rounds) delay maximum =
    let doubled = double_delay rounds (delay * 2) maximum in
    if leb maximum delay || ltb (maximum / 2) delay then maximum else doubled

-- `r` is what rand.Int64N returns for the spread.
unfoldable pub jitter : ℕ → ℕ → ℕ → ℕ
jitter r delay maximum =
    if delay / 5 == 0
    then delay
    else if ltb (delay / 10) r && ltb maximum (delay + (r - delay / 10))
    then maximum
    else if ltb maximum (delay + r - delay / 10)
    then maximum
    else delay + r - delay / 10

unfoldable pub backoff : ℕ → ℕ → ℕ → ℕ → ℕ
unfolding double_delay jitter
backoff r initial maximum attempts = jitter r (double_delay (attempts - 1) initial maximum) maximum

pub data Cause : Type 0 where
  no_cause lifetime_over attempt_timeout parent_canceled : Cause

abbrev pub is_lifetime : Cause → Bool
is_lifetime lifetime_over = true
is_lifetime _ = false

-- What the end of the attempt reads besides the envelope. `blocked` is empty where no domain blocks.
pub record Ending : Type 0 where
  pub now : ℕ
  pub lifetime : ℕ
  pub max_attempts : ℕ
  pub delay : ℕ
  pub canceled : Bool
  pub cause : Cause
  pub blocked : Bytes

unfoldable pub exhaust_recipient : Recipient → Recipient
exhaust_recipient r =
    if is_pending r.status
    then record r {
      status = failed;
      detail = elim r.detail [ [] ↦ exhausted_detail | c ∷ s ↦ c ∷ s ];
      code = 554;
      enhanced_code = terminal_enhanced_code;
    }
    else r

abbrev pub is_empty : Bytes → Bool
is_empty [] = true
is_empty (c ∷ s) = false

abbrev pub earlier : ℕ → ℕ → ℕ
earlier deadline next = if ltb deadline next then deadline else next

-- The switch at the end of attemptAdmitted.
unfoldable pub end_attempt : Ending → Envelope → Envelope × Action
unfolding pending_count
end_attempt x e =
    if pending_count e == 0
    then complete e
    else if x.canceled
    then (record e { attempts = e.attempts - 1; next_attempt = x.now }, retries)
    else if is_lifetime x.cause
    then expire_pending e
    else if not (is_empty x.blocked)
    then (record e { next_attempt = x.now }, parks x.blocked)
    else if leb x.max_attempts e.attempts
    then (record e { recipients = map exhaust_recipient e.recipients }, buries)
    else (record e { next_attempt = earlier (e.created + x.lifetime) (x.now + x.delay) }, retries)
