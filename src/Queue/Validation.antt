-- ===== src/Queue/Validation.antt =====
-- internal/queue/validation.go: what an envelope must satisfy before it is stored or loaded. The
-- model's sizes, codes, indexes and counts are natural, so that the source's tests against negative
-- values have no counterpart. A created time of 0 stands for the zero time.
pub mod Accepted
pub mod Bodies
pub mod Recipients
pub mod Stable
mod Tests
use outboxd.Common.{
  ℕ, zero, suc, ◌+◌, ◌-◌, ◌*◌, ◌/◌, ◌^◌, ◌≤◌, Bool, true, false, not, ◌&&◌, ◌||◌, Bytes, codes,
  str_eq, Option, none, some, List, [], ◌∷◌, ◌++◌, length, set, ltb, leb, ◌==◌, if◌then◌else◌,
}
use outboxd.Common.Result.{Result, ok, err, ◌>>=◌, ◌>>◌, reject_if}
use outboxd.Common.Strings.{
  take, drop, all, any, is_empty, is_digit, hex_decode, hex_encode, is_hex_string, has_prefix,
  contains, split_at_byte,
}
use outboxd.Common.Utf8.{valid_utf8, runes, is_display_control, has_high_bit}
use outboxd.Mailbox.{MailboxError, split_address, domain_of, routing_domain}
use outboxd.Queue.Envelope.{
  Envelope, Recipient, Body, Status, pending, sent, failed, unset, other_status,
}
use outboxd.Queue.Ids.{validate_id, dsn_id}

abbrev pub max_envelope_metadata : ℕ
max_envelope_metadata = 4 * 2 ^ 20

abbrev pub max_envelope_recipients : ℕ
max_envelope_recipients = 1000

abbrev pub max_envelope_string_bytes : ℕ
max_envelope_string_bytes = 4096

abbrev pub max_envelope_detail_bytes : ℕ
max_envelope_detail_bytes = 64 * 2 ^ 10

abbrev pub max_envelope_attempts : ℕ
max_envelope_attempts = 2 ^ 20

abbrev pub max_envelope_revision : ℕ
max_envelope_revision = 2 ^ 64 - 2

abbrev pub body_digest_prefix : Bytes
body_digest_prefix = codes "sha256:"

pub data AddressFault : Type 0 where
  empty_address invalid_utf8 address_too_long control_character : AddressFault
  missing_domain whitespace : AddressFault

pub data RecipientFault : Type 0 where
  body_without_bodies invalid_body_index domain_too_long detail_too_long : RecipientFault
  detail_display_control invalid_status invalid_code invalid_enhanced_code : RecipientFault
  pending_with_code sent_without_success failed_without_permanence : RecipientFault
  bad_address : AddressFault → RecipientFault
  bad_domain : MailboxError → RecipientFault
  domain_mismatch : RecipientFault

pub data Fault : Type 0 where
  invalid_id invalid_incarnation invalid_revision missing_username username_too_long : Fault
  last_error_too_long invalid_dsn_source invalid_dsn_source_incarnation dsn_id_mismatch : Fault
  invalid_dsn_source_revision dsn_links_dsn dsn_with_sender revision_without_source : Fault
  incarnation_without_source missing_sender source_link_mismatch no_recipients : Fault
  too_many_recipients missing_created invalid_attempts invalid_body_digest : Fault
  more_bodies_than_recipients bodies_do_not_cover smtputf8_required metadata_too_large : Fault
  bad_sender : AddressFault → Fault
  invalid_body_range invalid_digest_of body_not_referenced : ℕ → Fault
  recipient : ℕ → RecipientFault → Fault

unfoldable pub valid_body_digest : Bytes → Bool
valid_body_digest digest =
    length digest == 71
    && has_prefix digest body_digest_prefix
    && elim (hex_decode (drop 7 digest)) [
      | none ↦ false
      | some bytes ↦ str_eq (body_digest_prefix ++ hex_encode bytes) digest
    ]

unfoldable pub contains_display_control : Bytes → Bool
contains_display_control s = any is_display_control (runes s)

abbrev pub is_code_part : Bytes → Bool
is_code_part part = leb 1 (length part) && leb (length part) 3 && all is_digit part

-- The class is a text of one byte, so that only its first byte is left to compare.
abbrev pub is_class : Bytes → ℕ → Bool
is_class [] code = false
is_class (c ∷ s) code =
    is_empty s && (c == b'2' || c == b'4' || c == b'5') && (code == 0 || (c - b'0') == (code / 100))

abbrev pub are_code_parts : List Bytes → ℕ → Bool
are_code_parts (class ∷ subject ∷ detail ∷ []) code =
    is_class class code && is_code_part subject && is_code_part detail
are_code_parts _ code = false

unfoldable pub valid_enhanced_code : Bytes → ℕ → Bool
valid_enhanced_code enhanced code = are_code_parts (split_at_byte enhanced b'.') code

unfoldable pub check_address : Bytes → Result AddressFault (Unit {0})
check_address addr = do
  reject_if (is_empty addr) empty_address
  reject_if (not (valid_utf8 addr)) invalid_utf8
  reject_if (ltb max_envelope_string_bytes (length addr)) address_too_long
  reject_if (any (λ c. ltb c 0x20 || c == 0x7F) addr) control_character
  elim (split_address addr) [
    | none ↦ err missing_domain
    | some _ ↦ reject_if (contains addr (codes " ")) whitespace
  ]

unfoldable pub increment_revision : ℕ → Option ℕ
increment_revision revision =
    if revision == 0 || leb max_envelope_revision revision then none else some (revision + 1)

abbrev pub status_text : Status → Bytes
status_text pending = codes "pending"
status_text sent = codes "sent"
status_text failed = codes "failed"
status_text unset = []
status_text (other_status s) = s

unfoldable pub recipient_texts : List Recipient → List Bytes
recipient_texts [] = []
recipient_texts (r ∷ rs) =
    r.address ∷ r.domain ∷ status_text r.status ∷ r.detail ∷ r.enhanced_code ∷ recipient_texts rs

-- What is left of the bytes after six for each byte of the texts; `none` where they do not fit.
unfoldable pub spend : List Bytes → ℕ → Option ℕ
spend [] remaining = some remaining
spend (t ∷ ts) remaining =
    let rest = spend ts (remaining - length t * 6) in
    if ltb (remaining / 6) (length t) then none else rest

-- With at most 1000 recipients the fixed overhead lies below the limit.
unfoldable pub metadata_within_limit : Envelope → Bool
metadata_within_limit e =
    let texts =
      e.id
      ∷ e.incarnation
      ∷ e.username
      ∷ e.sender
      ∷ e.last_error
      ∷ e.body_digest
      ∷ e.dsn_id
      ∷ e.dsn_source_id
      ∷ e.dsn_source_incarnation
      ∷ recipient_texts e.recipients in
    elim (spend texts (max_envelope_metadata - 2048 - length e.recipients * 256)) [
      | none ↦ false
      | some _ ↦ true
    ]

abbrev pub lift_fault {ℓ} : {E F : Type 0} {A : Type ℓ} → (E → F) → Result E A → Result F A
lift_fault f (ok a) = ok a
lift_fault f (err e) = err (f e)

-- The loop over e.Bodies: `i` is the index and `end` is bodyEnd.
unfoldable pub check_bodies : ℕ → ℕ → ℕ → List Body → Result Fault ℕ
check_bodies size i end [] = ok end
check_bodies size i end (b ∷ bs) = do
  reject_if (not (b.offset == end) || b.size == 0 || ltb (size - b.offset) b.size)
      (invalid_body_range i)
  reject_if (not (valid_body_digest b.digest)) (invalid_digest_of i)
  check_bodies size (i + 1) (end + b.size) bs

-- The switch that replaces the empty status.
abbrev pub normal_status : Status → Result RecipientFault Status
normal_status unset = ok pending
normal_status (other_status _) = err invalid_status
normal_status s = ok s

abbrev pub status_fault : Status → ℕ → Bytes → Option RecipientFault
status_fault pending code enhanced =
    if not (code == 0) || not (is_empty enhanced) then some pending_with_code else none
status_fault sent code enhanced =
    if not (code == 0) && not ((code / 100) == 2) then some sent_without_success else none
status_fault failed code enhanced =
    if not (code == 0) && not ((code / 100) == 5) then some failed_without_permanence else none
status_fault _ code enhanced = none

abbrev pub reject : {E : Type 0} → Option E → Result E (Unit {0})
reject none = ok tt
reject (some e) = err e

-- usedBodies as the loop over the recipients leaves it, and needUTF8.
pub record Seen : Type 0 where
  pub used : List Bool
  pub need_utf8 : Bool

abbrev pub body_index_fault : List Body → ℕ → Option RecipientFault
body_index_fault [] i = if i == 0 then none else some body_without_bodies
body_index_fault (b ∷ bs) i = if leb (length (b ∷ bs)) i then some invalid_body_index else none

unfoldable pub mark_used : List Body → ℕ → List Bool → List Bool
mark_used [] i used = used
mark_used (_ ∷ _) i used = set used i true

-- The first recipient's checks before its address.
unfoldable pub check_recipient_fields : List Body → Recipient → Result RecipientFault Status
check_recipient_fields bodies r = do
  reject (body_index_fault bodies r.body)
  reject_if (ltb max_envelope_string_bytes (length r.domain)) domain_too_long
  reject_if (ltb max_envelope_detail_bytes (length r.detail)) detail_too_long
  reject_if (contains_display_control r.detail) detail_display_control
  status ← normal_status r.status
  reject_if (not (r.code == 0) && (ltb r.code 200 || ltb 599 r.code)) invalid_code
  reject_if
      (not (is_empty r.enhanced_code)
        && (r.code == 0 || not (valid_enhanced_code r.enhanced_code r.code)))
      invalid_enhanced_code
  reject (status_fault status r.code r.enhanced_code)
  ok status

unfoldable pub index_unused : ℕ → List Bool → Option ℕ
index_unused i [] = none
index_unused i (used ∷ rest) =
    let later = index_unused (i + 1) rest in if used then later else some i

abbrev pub unused : List Body → List Bool
unused [] = []
unused (_ ∷ bs) = false ∷ unused bs

-- The checks after the loop over the recipients.
unfoldable pub check_whole : Envelope → List Recipient → Seen → Result Fault Envelope
check_whole e recipients seen = do
  reject (elim (index_unused 0 seen.used) [ none ↦ none | some i ↦ some (body_not_referenced i) ])
  reject_if (seen.need_utf8 && not e.smtp_utf8) smtputf8_required
  reject_if (not (metadata_within_limit (record e { recipients = recipients }))) metadata_too_large
  ok (record e { recipients = recipients })

-- `to_ascii` is the conversion of the IDNA profile.
module _ (to_ascii : Bytes → Option Bytes) where
  -- A stored routing domain may differ from the address's, if it normalizes to it.
  unfoldable pub check_routing : Bytes → Bytes → Result RecipientFault (Unit {0})
  check_routing domain routing =
      if is_empty domain then ok tt else elim (routing_domain to_ascii domain) [
        | err _ ↦ err domain_mismatch
        | ok stored ↦ reject_if (not (str_eq stored routing)) domain_mismatch
      ]

  unfoldable pub check_recipient : List Body → Recipient → Result RecipientFault Recipient
  check_recipient bodies r = do
    status ← check_recipient_fields bodies r
    lift_fault bad_address (check_address r.address)
    routing ← lift_fault bad_domain (domain_of to_ascii r.address)
    check_routing r.domain routing
    ok (record r { status = status; domain = routing })

  unfoldable pub check_recipients :
      List Body → ℕ → List Recipient → Seen → Result Fault (List Recipient × Seen)
  check_recipients bodies i [] seen = ok ([], seen)
  check_recipients bodies i (r ∷ rs) seen = do
    r' ← lift_fault (recipient i) (check_recipient bodies r)
    let seen' : Seen = record {
      used = mark_used bodies r.body seen.used;
      need_utf8 = seen.need_utf8 || has_high_bit r.address;
    }
    rest ← check_recipients bodies (i + 1) rs seen'
    ok (r' ∷ rest.0, rest.1)

module _ (sha256 : Bytes → Bytes) where
  -- A message either reports on a source message or has a sender.
  unfoldable pub check_origin : Envelope → Result Fault (Unit {0})
  check_origin e =
      if not (is_empty e.dsn_source_id)
      then (do
        reject_if (not (validate_id e.dsn_source_id)) invalid_dsn_source
        reject_if
            (not (length e.dsn_source_incarnation == 32)
              || not (is_hex_string e.dsn_source_incarnation))
            invalid_dsn_source_incarnation
        reject_if
            (not (
              str_eq e.id
                (dsn_id sha256 e.dsn_source_id e.dsn_source_incarnation e.dsn_generation)))
            dsn_id_mismatch
        reject_if (e.dsn_source_revision == 0 || ltb max_envelope_revision e.dsn_source_revision)
            invalid_dsn_source_revision
        reject_if (not (is_empty e.dsn_id)) dsn_links_dsn
        reject_if (not (is_empty e.sender)) dsn_with_sender)
      else if not (is_empty e.sender)
      then (do
        reject_if (not (e.dsn_source_revision == 0)) revision_without_source
        reject_if (not (is_empty e.dsn_source_incarnation)) incarnation_without_source
        lift_fault bad_sender (check_address e.sender))
      else err missing_sender

  -- The checks before the loop over the bodies.
  unfoldable pub check_head : Envelope → Result Fault (Unit {0})
  check_head e = do
    reject_if (not (validate_id e.id)) invalid_id
    reject_if (not (length e.incarnation == 32) || not (is_hex_string e.incarnation))
        invalid_incarnation
    reject_if (e.revision == 0 || ltb max_envelope_revision e.revision) invalid_revision
    reject_if (is_empty e.username) missing_username
    reject_if (ltb max_envelope_string_bytes (length e.username)) username_too_long
    reject_if (ltb max_envelope_detail_bytes (length e.last_error)) last_error_too_long
    check_origin e
    reject_if
        (not (is_empty e.dsn_id)
          && not (str_eq e.dsn_id (dsn_id sha256 e.id e.incarnation e.dsn_generation)))
        source_link_mismatch
    reject_if (is_empty e.recipients) no_recipients
    reject_if (ltb max_envelope_recipients (length e.recipients)) too_many_recipients
    reject_if (e.created == 0) missing_created
    reject_if (ltb max_envelope_attempts e.attempts) invalid_attempts
    reject_if (not (valid_body_digest e.body_digest)) invalid_body_digest
    reject_if (ltb (length e.recipients) (length e.bodies)) more_bodies_than_recipients

-- `to_ascii` is the conversion of the IDNA profile, and `sha256` the hash.
module _ (to_ascii : Bytes → Option Bytes) (sha256 : Bytes → Bytes) where
  -- validateEnvelope: the envelope with the statuses and routing domains that it writes back.
  unfoldable pub validate_envelope : Envelope → Result Fault Envelope
  validate_envelope e = do
    check_head sha256 e
    end ← check_bodies e.size 0 0 e.bodies
    reject_if (not (is_empty e.bodies) && not (end == e.size)) bodies_do_not_cover
    checked ← check_recipients to_ascii e.bodies 0 e.recipients (record {
      used = unused e.bodies;
      need_utf8 = not (is_empty e.sender) && has_high_bit e.sender;
    })
    check_whole e checked.0 checked.1
