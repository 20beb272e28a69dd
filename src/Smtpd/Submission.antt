-- ===== src/Smtpd/Submission.antt =====
-- session.Data of internal/smtpd/data.go: from the end of a transaction to the queue. The message is
-- read by Message.Prepare; OpenPGP signing, the rate limiter (rate.go, which counts with floating point)
-- and queue.Add answer by parameters. The deadline of the call is seen where the code asks for it:
-- `expired` says so for each of these points, and waitDataDeadlineClose waits until the connection is
-- closed.
pub mod Envelopes
pub mod Delivered
pub mod Runs
pub mod Settled
mod Tests
use outboxd.Common.{
  ℕ, zero, suc, ◌+◌, ◌-◌, Bool, true, false, not, ◌&&◌, ◌||◌, Bytes, codes, Option, none, some,
  List, [], ◌∷◌, length, ltb, if◌then◌else◌,
}
use outboxd.Common.Result.{Result, ok, err, ◌>>=◌, ◌>>◌, reject_if}
use outboxd.Common.Strings.{any, is_empty}
use outboxd.Config.Senders.{allows}
use outboxd.Mailbox.{domain_of}
use outboxd.Message.Normalize.{oversized}
use outboxd.Message.Prepare.{Library, Options, Message, PrepareError, message, prepare}
use outboxd.Queue.Envelope.{Envelope, Recipient, Body, pending}
use outboxd.Smtpd.Session.{
  Session, Server, Reply, smtp_error, BodyType, unset, seven_bit, eight_bit_mime, binary_mime,
  needs_utf8, too_large, invalid_recipient,
}
use outboxd.Smtpd.Variants.{Makers, Bundle, VariantError, message_too_large, prepare_variants}

-- A failure of message.PrepareContext: ErrOversized or ErrDataTooLarge, or any other with the text of
-- its reply.
pub data PrepareFailure : Type 0 where
  data_too_large : PrepareFailure
  rejected : Bytes → PrepareFailure

-- A failure of OpenPGP signing.
pub data SignError : Type 0 where
  signed_too_large sign_failed : SignError

-- A failure of queue.AddContext: whether it is ErrQueueFull or ErrInsufficientDisk, and whether it is
-- ErrAcceptanceUnknown, which leaves open that the queue has the message.
pub record AddError : Type 0 where
  pub no_room : Bool
  pub acceptance_unknown : Bool

-- Where Data asks for the error of its context.
pub data Point : Type 0 where
  after_prepare before_signing after_signing after_variants before_add after_add : Point

pub record Backend : Type 0 where
  pub server : Server
  pub makers : Makers
  -- rates.take for a user and a number of recipients.
  pub take_rate : Bytes → ℕ → Bool
  -- allowDataTerminator returns no error.
  pub reader_accepted : Bool
  -- The bytes of the message, or the error of reading them.
  pub read : Result PrepareFailure Bytes
  pub library : Library
  pub options : Options
  -- responseText of an error of Prepare.
  pub error_text : PrepareError → Bytes
  pub expired : Point → Bool
  -- openPGPSign for an originator and a message: the message, and whether it was signed.
  pub sign : Bytes → Bytes → Result SignError (Bytes × Bool)
  pub add : Envelope → Bytes → Result AddError (Unit {0})
  pub id : Bytes
  pub created : ℕ
  pub next_attempt : ℕ

-- A reply, a reply after the wait for the deadline to close the connection, or an index out of range.
pub data Stop : Type 0 where
  replies : Reply → Stop
  closes : Reply → Stop
  index_out_of_range : Stop

abbrev pub no_recipients : Reply
no_recipients = smtp_error 503 (5, 5, 1) (codes "No valid recipients")

abbrev pub data_busy : Reply
data_busy = smtp_error 421 (4, 3, 2) (codes "Message processing busy; connection closing")

abbrev pub submission_rate : Reply
submission_rate = smtp_error 452 (4, 7, 0) (codes "Submission rate limit exceeded, try again later")

abbrev pub temporary_failure : Reply
temporary_failure = smtp_error 451 (4, 3, 0) (codes "Temporary failure, try again later")

abbrev pub queue_full : Reply
queue_full = smtp_error 452 (4, 3, 1) (codes "Queue full, try again later")

abbrev pub not_seven_bit : Reply
not_seven_bit = smtp_error 550 (5, 6, 3) (codes "BODY=7BIT message contains 8-bit data")

abbrev pub utf8_required : Reply
utf8_required = smtp_error 550 (5, 6, 7) (codes "SMTPUTF8 required for this message")

abbrev pub from_not_allowed : Reply
from_not_allowed = smtp_error 550 (5, 7, 1) (codes "From header not allowed for this account")

abbrev pub sender_header_not_allowed : Reply
sender_header_not_allowed =
    smtp_error 550 (5, 7, 1) (codes "Sender header not allowed for this account")

abbrev pub too_large_signed : Reply
too_large_signed = smtp_error 552 (5, 3, 4) (codes "Message too large after OpenPGP signing")

abbrev pub too_large_encrypted : Reply
too_large_encrypted =
    smtp_error 552 (5, 3, 4) (codes "Message too large after recipient encryption")

abbrev pub is_seven_bit : BodyType → Bool
is_seven_bit seven_bit = true
is_seven_bit _ = false

abbrev pub stop_if : Bool → Reply → Result Stop (Unit {0})
stop_if bad reply = reject_if bad (replies reply)

-- The context is done.
abbrev pub stop_at : Bool → Result Stop (Unit {0})
stop_at expired = reject_if expired (closes temporary_failure)

abbrev pub or_stop {ℓ} : {E : Type 0} {A : Type ℓ} → (E → Stop) → Result E A → Result Stop A
or_stop f (ok a) = ok a
or_stop f (err e) = err (f e)

abbrev pub prepare_reply : Bool → PrepareFailure → Stop
prepare_reply true e = closes temporary_failure
prepare_reply false data_too_large = replies too_large
prepare_reply false (rejected text) = replies (smtp_error 550 (5, 6, 0) text)

abbrev pub sign_reply : Bool → SignError → Stop
sign_reply true e = closes temporary_failure
sign_reply false signed_too_large = replies too_large_signed
sign_reply false sign_failed = replies temporary_failure

abbrev pub variant_reply : Bool → VariantError → Stop
variant_reply true e = closes temporary_failure
variant_reply false message_too_large = replies too_large_encrypted
variant_reply false e = replies temporary_failure

abbrev pub lift_prepare : Backend → Result PrepareError Message → Result PrepareFailure Message
lift_prepare d (ok msg) = ok msg
lift_prepare d (err (message oversized)) = err data_too_large
lift_prepare d (err e) = err (rejected (d.error_text e))

-- The options of the session, with the limit of the server.
abbrev pub prepare_options : Backend → Options
prepare_options d = record d.options { max_bytes = d.server.max_message_bytes }

-- message.PrepareContext on what the client sends.
unfoldable pub prepared : Backend → Result PrepareFailure Message
prepared d = d.read >>= λ raw. lift_prepare d (prepare d.library (prepare_options d) raw)

-- The loop over s.recipients, with what is left of bodyIndexes.
unfoldable pub make_recipients :
    (Bytes → Option Bytes) → List Bytes → List ℕ → Result Stop (List Recipient)
make_recipients to_ascii [] indexes = ok []
make_recipients to_ascii (r ∷ rs) indexes = do
  domain ← or_stop (λ _. replies invalid_recipient) (domain_of to_ascii r)
  elim indexes [
    | [] ↦ err index_out_of_range
    | i ∷ is ↦ do
      rest ← make_recipients to_ascii rs is
      let first : Recipient = record {
        address = r;
        domain = domain;
        body = i;
        status = pending;
        detail = [];
        code = 0;
        enhanced_code = [];
      }
      ok (first ∷ rest)
  ]

-- bodies[0].EightBit
abbrev pub first_eight_bit : List Body → Result Stop Bool
first_eight_bit [] = err index_out_of_range
first_eight_bit (b ∷ bs) = ok b.eight_bit

-- A single body is the whole of what is stored, and is not listed.
abbrev pub stored_bodies : List Body → List Body
stored_bodies (b ∷ c ∷ bs) = b ∷ c ∷ bs
stored_bodies bs = []

unfoldable pub new_envelope :
    Backend → Session → Bool → Bool → List Body → List Recipient → Envelope
new_envelope d s utf8 eight_bit bodies recipients = record {
  id = d.id;
  incarnation = [];
  revision = 0;
  username = s.user.username;
  sender = s.sender;
  recipients = recipients;
  bodies = bodies;
  size = 0;
  created = d.created;
  attempts = 0;
  next_attempt = d.next_attempt;
  last_error = [];
  smtp_utf8 = utf8;
  eight_bit = eight_bit;
  body_digest = [];
  dsn_id = [];
  dsn_source_id = [];
  dsn_source_incarnation = [];
  dsn_source_revision = 0;
  dsn_generation = 0;
  preferred_domain = [];
}

unfoldable pub check_message : Backend → Session → Message → Result Stop (Unit {0})
check_message d s msg = do
  stop_if (is_seven_bit s.body && msg.eight_bit) not_seven_bit
  stop_if (msg.needs_utf8 && not s.smtp_utf8) utf8_required
  stop_if (not (allows d.server.equal_fold s.user.allowed_senders msg.from)) from_not_allowed
  stop_if
      (not (is_empty msg.sender)
        && not (allows d.server.equal_fold s.user.allowed_senders msg.sender))
      sender_header_not_allowed

-- From the signed message on: the envelope and what is stored with it.
unfoldable pub build : Backend → Session → Message → Bytes → Bool → Result Stop (Envelope × Bytes)
build d s msg text eight_bit = do
  bundle ←
      or_stop (variant_reply (d.expired after_variants))
        (prepare_variants d.makers msg.from text s.recipients eight_bit)
  first ← first_eight_bit bundle.bodies
  recipients ← make_recipients d.server.to_ascii s.recipients bundle.indexes
  let utf8 = msg.needs_utf8 || needs_utf8 s.sender || any needs_utf8 s.recipients
  ok (new_envelope d s utf8 first (stored_bodies bundle.bodies) recipients, bundle.bytes)

-- What Data hands to the queue.
unfoldable pub process : Backend → Session → Result Stop (Envelope × Bytes)
process d s = do
  stop_if (not d.reader_accepted) temporary_failure
  msg ← or_stop (prepare_reply (d.expired after_prepare)) (prepared d)
  check_message d s msg
  stop_at (d.expired before_signing)
  signed ← or_stop (sign_reply (d.expired after_signing)) (d.sign msg.from msg.text)
  submission ← build d s msg signed.0 (msg.eight_bit && not signed.1)
  stop_at (d.expired before_add)
  ok submission

-- What the call leaves in the queue.
pub data Queued : Type 0 where
  nothing : Queued
  holds : Envelope × Bytes → Queued
  may_hold : Envelope × Bytes → Queued

-- The reply (`none` is acceptance), what was queued, and whether Data closed the connection or waited
-- until the deadline did.
pub record Outcome : Type 0 where
  pub reply : Option Stop
  pub queued : Queued
  pub closed : Bool

abbrev pub is_closing : Stop → Bool
is_closing (closes _) = true
is_closing _ = false

abbrev pub refuse : Stop → Outcome
refuse stop = record { reply = some stop; queued = nothing; closed = is_closing stop }

-- abortData closes the connection after its reply.
abbrev pub abort : Reply → Outcome
abort reply = record { reply = some (replies reply); queued = nothing; closed = true }

abbrev pub add_reply : AddError → Reply
add_reply f = if f.no_room then queue_full else temporary_failure

unfoldable pub finish : Backend → Result Stop (Envelope × Bytes) → Outcome
finish d (err stop) = refuse stop
finish d (ok (envelope, text)) = elim (d.add envelope text) [
  | ok _ ↦ record { reply = none; queued = holds (envelope, text); closed = d.expired after_add }
  | err f ↦ record {
    reply = some (replies (add_reply f));
    queued = if f.acceptance_unknown then may_hold (envelope, text) else nothing;
    closed = d.expired after_add;
  }
]

-- `busy` of `slots` are taken when Data is called. The slot that it takes is released when it returns.
unfoldable pub submit : Backend → ℕ → ℕ → Session → Outcome × ℕ
submit d slots busy s =
    if is_empty s.sender || is_empty s.recipients
    then (refuse (replies no_recipients), busy)
    else if not (ltb busy slots)
    then (abort data_busy, busy)
    else if not (d.take_rate s.user.username (length s.recipients))
    then (abort submission_rate, busy + 1 - 1)
    else (finish d (process d s), busy + 1 - 1)
