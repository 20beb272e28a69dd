-- ===== src/Smtpd/Session.antt =====
-- internal/smtpd/session.go: the mail transaction of a session whose user is authenticated or not yet.
-- Reset also ends the deadline of the transaction's Data call, which is part of Smtpd/Submission.antt.
pub mod Transaction
mod Tests
use outboxd.Common.{
  ℕ, ◌+◌, Bool, true, false, not, ◌&&◌, ◌||◌, Bytes, codes, str_eq, Option, none, some, List, [],
  ◌∷◌, ◌++◌, length, ltb, ◌==◌, if◌then◌else◌,
}
use outboxd.Common.Result.{Result, ok, err, ◌>>=◌, ◌>>◌, reject_if}
use outboxd.Common.Strings.{any, drop, is_empty, has_prefix, last_index_byte}
use outboxd.Common.Utf8.{valid_utf8, has_high_bit}
use outboxd.Config.Senders.{allows}
use outboxd.Mailbox.{MailboxError, address, domain_of}
use outboxd.Smtpd.Authentication.{User}

-- An error of a command: go-smtp's ErrAuthRequired, or an SMTPError with its code, its enhanced code
-- and its text.
pub data Reply : Type 0 where
  auth_required : Reply
  smtp_error : ℕ → ℕ × ℕ × ℕ → Bytes → Reply

pub data BodyType : Type 0 where
  unset seven_bit eight_bit_mime binary_mime : BodyType

pub record MailOptions : Type 0 where
  pub utf8 : Bool
  pub size : ℕ
  pub body : BodyType

-- The zero User is the one without a name.
pub record Session : Type 0 where
  pub user : User
  pub sender : Bytes
  pub recipients : List Bytes
  pub smtp_utf8 : Bool
  pub body : BodyType

abbrev pub invalid_sender : Reply
invalid_sender = smtp_error 501 (5, 1, 7) (codes "Invalid sender address")

abbrev pub utf8_required_for_sender : Reply
utf8_required_for_sender =
    smtp_error 550 (5, 6, 7) (codes "SMTPUTF8 required for this sender address")

abbrev pub sender_not_allowed : Reply
sender_not_allowed = smtp_error 550 (5, 7, 1) (codes "Sender address not allowed for this account")

abbrev pub too_large : Reply
too_large = smtp_error 552 (5, 3, 4) (codes "Message too large")

abbrev pub mail_first : Reply
mail_first = smtp_error 503 (5, 5, 1) (codes "MAIL FROM required first")

abbrev pub invalid_recipient : Reply
invalid_recipient = smtp_error 501 (5, 1, 3) (codes "Invalid recipient address")

abbrev pub utf8_required_for_recipient : Reply
utf8_required_for_recipient =
    smtp_error 553 (5, 6, 7) (codes "SMTPUTF8 required for this recipient address")

abbrev pub too_many_recipients : Reply
too_many_recipients = smtp_error 452 (4, 5, 3) (codes "Too many recipients")

unfoldable pub needs_utf8 : Bytes → Bool
needs_utf8 s = not (valid_utf8 s) || has_high_bit s

abbrev pub wants_utf8 : Option MailOptions → Bool
wants_utf8 none = false
wants_utf8 (some o) = o.utf8

abbrev pub announced_size : Option MailOptions → ℕ
announced_size none = 0
announced_size (some o) = o.size

abbrev pub body_or_seven : BodyType → BodyType
body_or_seven unset = seven_bit
body_or_seven b = b

abbrev pub wanted_body : Option MailOptions → BodyType
wanted_body none = seven_bit
wanted_body (some o) = body_or_seven o.body

-- The text after the final '@', or all of it.
unfoldable pub after_at : Bytes → Bytes
after_at addr = elim (last_index_byte addr b'@') [ none ↦ addr | some at ↦ drop (at + 1) addr ]

abbrev pub has_text : List Bytes → Bytes → Bool
has_text texts t = any (λ x. str_eq x t) texts

abbrev pub or_reply {ℓ} : {E : Type 0} {A : Type ℓ} → Reply → Result E A → Result Reply A
or_reply reply (ok a) = ok a
or_reply reply (err _) = err reply

-- What net/mail, the IDNA profile and strings.EqualFold do, and the server's configuration.
pub record Server : Type 0 where
  pub parse : Bytes → Option (Bytes × Bytes)
  pub to_ascii : Bytes → Option Bytes
  pub equal_fold : Bytes → Bytes → Bool
  pub max_message_bytes : ℕ
  pub max_recipients : ℕ

module _ (server : Server) where
  unfoldable pub check_mail : Session → Bytes → Option MailOptions → Result Reply Bytes
  check_mail s from opts = do
    reject_if (is_empty s.user.username) auth_required
    addr ← or_reply invalid_sender (address server.to_ascii server.parse from)
    reject_if (needs_utf8 addr && not (wants_utf8 opts)) utf8_required_for_sender
    reject_if (not (allows server.equal_fold s.user.allowed_senders addr)) sender_not_allowed
    reject_if (ltb server.max_message_bytes (announced_size opts)) too_large
    ok addr

  -- A command leaves the session as it was where it replies with an error.
  unfoldable pub mail : Session → Bytes → Option MailOptions → Session × Option Reply
  mail s from opts = elim (check_mail s from opts) [
    | err reply ↦ (s, some reply)
    | ok addr ↦ (
      record s {
        sender = addr;
        recipients = [];
        smtp_utf8 = wants_utf8 opts;
        body = wanted_body opts;
      },
      none,
    )
  ]

  -- The routing domain of a recipient that is no address literal.
  unfoldable pub route : Bytes → Result MailboxError Bytes
  route addr =
      if has_prefix (after_at addr) (codes "[")
      then err MailboxError.invalid_domain
      else domain_of server.to_ascii addr

  unfoldable pub check_rcpt : Session → Bytes → Result Reply Bytes
  check_rcpt s to = do
    reject_if (is_empty s.sender) mail_first
    addr ← or_reply invalid_recipient (address server.to_ascii server.parse to)
    routing ← or_reply invalid_recipient (route addr)
    reject_if (is_empty routing) invalid_recipient
    reject_if (needs_utf8 addr && not s.smtp_utf8) utf8_required_for_recipient
    ok addr

  unfoldable pub add_rcpt : Session → Bytes → Session × Option Reply
  add_rcpt s addr =
      if has_text s.recipients addr
      then (s, none)
      else if length s.recipients == server.max_recipients
      then (s, some too_many_recipients)
      else (record s { recipients = s.recipients ++ addr ∷ [] }, none)

  unfoldable pub rcpt : Session → Bytes → Session × Option Reply
  rcpt s to = elim (check_rcpt s to) [ err reply ↦ (s, some reply) | ok addr ↦ add_rcpt s addr ]

unfoldable pub reset : Session → Session
reset s = record s { sender = []; recipients = []; smtp_utf8 = false; body = unset }

unfoldable pub start : User → Session
start user = record { user = user; sender = []; recipients = []; smtp_utf8 = false; body = unset }
