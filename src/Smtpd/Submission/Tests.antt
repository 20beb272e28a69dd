-- ===== src/Smtpd/Submission/Tests.antt =====
-- internal/smtpd/data.go: runs of Data.
use Prim.{absurd}
use outboxd.Common.{
  ◌<◌, Bool, true, false, Bytes, codes, str_eq, none, some, [], ◌∷◌, ◌≡◌, ◌⊎◌, refl, arith, length,
  if◌then◌else◌, ◌++◌,
}
use outboxd.Common.Result.{Result, ok, err}
use outboxd.Common.Strings.{
  is_empty, has_prefix, has_suffix, contains, last_index_byte, split_at_byte, to_lower_ascii,
}
use outboxd.Common.Utf8.{
  valid_utf8, valid_after, decode_rune, trim_space, trim_left_after, trim_right_after, runes_after,
  has_high_bit, runes,
}
use outboxd.Config.Senders.{allows}
use outboxd.Mailbox.{
  routing_domain, ascii_domain, check_domain, check_ascii, convert, domain_of, split_address,
  validate_address, check_mailbox_domain,
}
use outboxd.Mailbox.AsciiNames.{ascii_names}
use outboxd.Queue.Envelope.{Envelope, new_body, pending}
use outboxd.Smtpd.Authentication.{User}
use outboxd.Smtpd.Session.{Session, needs_utf8, seven_bit}
use outboxd.Smtpd.Variants.{
  Makers, empty_bundle, find_variant, variant_key, seal, append_variant, add_new, add_recipient,
  add_recipients, prepare_variants,
}
use outboxd.Smtpd.Submission.{
  Backend, AddError, replies, nothing, holds, Point, after_add, finish, prepared, prepare_options,
  process, build, check_message, make_recipients, new_envelope, submit, from_not_allowed, data_busy,
}
use outboxd.Smtpd.Submission.Delivered.{IsDeliverable, process-IsDeliverable}
use outboxd.Smtpd.Submission.Settled.{Settled, submit-Settled}
use outboxd.Message.Normalize.{
  normalize, normalize_from, finish as finish_text, contains_nul, kind, split, is_separator,
}
use outboxd.Message.Fields.{
  cut_line, cut_colon, add_fold, add_field, add_line, scan_from, scan, valid_field_name,
  contains_header_controls, text, unfold_lines, valid_message_id, valid_inner, first_field,
}
use outboxd.Message.Trace.{
  trace_value, trace_from, protocol, trim_angles, trim_left_angles, trim_right_angles,
}
use outboxd.Message.Prepare.{
  Message, prepare, visit, visit_all, read_originator, set_originator, check_from, check_size,
  read_fields, count_named, stays, kept, added, used_id, preserve_local_part_case, addr_spec,
  addr_start, needs_utf8_addr, has_date, has_id, usable, valid_date, identifier, identifier_domain,
  received, line_if,
}
use outboxd.Message.Prepare.Samples.{library, options, submission, prepared_text}

abbrev alice : User
alice = record {
  username = codes "alice";
  password_hash = [];
  allowed_senders = codes "*@a.org" ∷ [];
  enabled = true;
}

abbrev session : Session
session = record {
  user = alice;
  sender = codes "al@a.org";
  recipients = codes "a@x.net" ∷ codes "b@x.net" ∷ [];
  smtp_utf8 = false;
  body = seven_bit;
}

-- The second recipient has a key; an encrypted message is "E" and the message.
abbrev makers : Makers
makers = record {
  key_id = λ r. ok (if str_eq r (codes "a@x.net") then none else some (codes "7"));
  encrypt = λ r key text. ok (some (b'E' ∷ text));
  sign = λ from text. ok (codes "s:");
  digest = λ text. [];
  max_message_bytes = 1000;
}

-- A signed message is "P" and the message; there is no signature for an empty one.
abbrev sign_text : Bytes → Bytes × Bool
sign_text [] = ([], false)
sign_text (c ∷ text) = (b'P' ∷ c ∷ text, true)

-- The client sends the submission of the samples of Prepare.
abbrev backend : Result AddError (Unit {0}) → Backend
backend added = record {
  server = record {
    parse = λ value. some ([], value);
    to_ascii = ascii_names;
    equal_fold = str_eq;
    max_message_bytes = 1000;
    max_recipients = 10;
  };
  makers = makers;
  take_rate = λ user n. true;
  reader_accepted = true;
  read = ok submission;
  library = library;
  options = options;
  error_text = λ e. codes "rejected";
  expired = λ point. false;
  sign = λ from text. ok (sign_text text);
  add = λ e stored. added;
  id = codes "m1";
  created = 1;
  next_attempt = 1;
}

abbrev plain_text : Bytes
plain_text = codes "s:P" ++ prepared_text

abbrev sealed_text : Bytes
sealed_text = codes "s:EP" ++ prepared_text

abbrev envelope : Envelope
envelope = record {
  id = codes "m1";
  incarnation = [];
  revision = 0;
  username = codes "alice";
  sender = codes "al@a.org";
  recipients =
      record {
        address = codes "a@x.net";
        domain = codes "x.net";
        body = 0;
        status = pending;
        detail = [];
        code = 0;
        enhanced_code = [];
      }
      ∷ record {
        address = codes "b@x.net";
        domain = codes "x.net";
        body = 1;
        status = pending;
        detail = [];
        code = 0;
        enhanced_code = [];
      }
      ∷ [];
  bodies =
      new_body (λ text. []) 0 plain_text false
      ∷ new_body (λ text. []) (length plain_text) sealed_text false
      ∷ [];
  size = 0;
  created = 1;
  attempts = 0;
  next_attempt = 1;
  last_error = [];
  smtp_utf8 = false;
  eight_bit = false;
  body_digest = [];
  dsn_id = [];
  dsn_source_id = [];
  dsn_source_incarnation = [];
  dsn_source_revision = 0;
  dsn_generation = 0;
  preferred_domain = [];
}

abbrev stored : Bytes
stored = plain_text ++ sealed_text

processed : process (backend (ok tt)) session ≡ ok (envelope, stored)
unfolding process build check_message make_recipients new_envelope new_body prepare_variants
    add_recipients add_recipient add_new append_variant find_variant variant_key seal empty_bundle
    allows needs_utf8 routing_domain domain_of prepared prepare visit visit_all read_originator
    set_originator check_from check_size read_fields count_named stays kept added used_id
    preserve_local_part_case addr_spec addr_start needs_utf8_addr has_date has_id usable valid_date
    identifier identifier_domain received line_if normalize normalize_from finish_text contains_nul
    kind split is_separator cut_line cut_colon add_fold add_field add_line scan_from scan
    valid_field_name contains_header_controls text unfold_lines valid_message_id valid_inner
    first_field trace_value trace_from protocol trim_angles trim_left_angles trim_right_angles
    to_lower_ascii last_index_byte has_prefix has_suffix contains split_at_byte trim_space
    trim_left_after trim_right_after runes_after runes decode_rune valid_utf8 valid_after
    has_high_bit validate_address check_mailbox_domain ascii_domain check_domain check_ascii convert
    split_address ascii_names str_eq
processed = refl

-- The user may not send as the address in From.
abbrev stranger : Session
stranger = record session { user = record alice { allowed_senders = codes "*@b.org" ∷ [] } }

other_from : process (backend (ok tt)) stranger ≡ err (replies from_not_allowed)
unfolding process build check_message make_recipients new_envelope new_body prepare_variants
    add_recipients add_recipient add_new append_variant find_variant variant_key seal empty_bundle
    allows needs_utf8 routing_domain domain_of prepared prepare visit visit_all read_originator
    set_originator check_from check_size read_fields count_named stays kept added used_id
    preserve_local_part_case addr_spec addr_start needs_utf8_addr has_date has_id usable valid_date
    identifier identifier_domain received line_if normalize normalize_from finish_text contains_nul
    kind split is_separator cut_line cut_colon add_fold add_field add_line scan_from scan
    valid_field_name contains_header_controls text unfold_lines valid_message_id valid_inner
    first_field trace_value trace_from protocol trim_angles trim_left_angles trim_right_angles
    to_lower_ascii last_index_byte has_prefix has_suffix contains split_at_byte trim_space
    trim_left_after trim_right_after runes_after runes decode_rune valid_utf8 valid_after
    has_high_bit validate_address check_mailbox_domain ascii_domain check_domain check_ascii convert
    split_address ascii_names str_eq
other_from = refl

-- All slots are taken.
busy :
    submit (backend (ok tt)) 2 2 session
    ≡ (record { reply = some (replies data_busy); queued = nothing; closed = true }, 2)
unfolding submit
busy = refl

-- The deadline passes while the queue adds the message: it is accepted, and the connection closes.
abbrev late : Point → Bool
late after_add = true
late _ = false

accepted_late :
    finish (record (backend (ok tt)) { expired = late }) (ok (envelope, stored))
    ≡ record { reply = none; queued = holds (envelope, stored); closed = true }
unfolding finish
accepted_late = refl

abbrev uncertain : AddError
uncertain = record { no_room = false; acceptance_unknown = true }

signed :
    (added : Result AddError (Unit {0})) (from text out : Bytes) (did_sign : Bool)
    → 0 < length text
    → (backend added).sign from text ≡ ok (out, did_sign)
    → 0 < length out
signed added from [] out did_sign full h = absurd (omega (arith, full))
signed added from (c ∷ text) out did_sign full h = ground arith

encrypted : (r key t u : Bytes) → 0 < length t → makers.encrypt r key t ≡ ok (some u) → 0 < length u
encrypted r key t u full h = ground arith

process-IsDeliverable_example :
    (raw : Bytes) × (msg : Message) × (text : Bytes) × (did_sign : Bool) × ((backend (ok tt)).read
      ≡ ok raw)
    × (prepare library (prepare_options (backend (ok tt))) raw ≡ ok msg)
    × ((backend (ok tt)).sign msg.from msg.text ≡ ok (text, did_sign))
    × (allows str_eq alice.allowed_senders msg.from ≡ true)
    × ((is_empty msg.sender ≡ true) ⊎ (allows str_eq alice.allowed_senders msg.sender ≡ true))
    × IsDeliverable
        (backend (ok tt))
        (signed (ok tt))
        encrypted
        session
        msg.from
        text
        envelope
        stored
process-IsDeliverable_example =
    process-IsDeliverable (backend (ok tt)) (signed (ok tt)) encrypted session envelope stored
      processed

submit-Settled_example :
    Settled
      (backend (err uncertain))
      (process (backend (err uncertain)) session)
      (submit (backend (err uncertain)) 2 1 session).0
    × ((submit (backend (err uncertain)) 2 1 session).1 ≡ 1)
submit-Settled_example =
    submit-Settled (backend (err uncertain)) (signed (err uncertain)) encrypted 2 1 session
