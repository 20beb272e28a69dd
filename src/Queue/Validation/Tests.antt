-- ===== src/Queue/Validation/Tests.antt =====
-- internal/queue/validation.go: runs on a small envelope with two bodies.
use outboxd.Common.{ℕ, ◌<◌, zero, suc, false, Bytes, codes, str_eq, [], ◌∷◌, ◌≡◌, refl, All, length}
use outboxd.Common.Result.{ok, err}
use outboxd.Common.Strings.{
  has_prefix, has_suffix, contains, last_index_byte, split_at_byte, to_lower_ascii, hex_encode,
  hex_decode, contains_byte,
}
use outboxd.Common.Utf8.{
  valid_utf8, valid_after, decode_rune, trim_space, trim_left_after, trim_right_after, runes_after,
  runes, has_high_bit,
}
use outboxd.Mailbox.{
  routing_domain, ascii_domain, check_domain, check_ascii, convert, domain_of, split_address,
}
use outboxd.Mailbox.AsciiNames.{ascii_names, ascii_names-domain, ascii_names-fixed}
use outboxd.Queue.Envelope.{Envelope, Recipient, pending, sent, failed, unset}
use outboxd.Queue.Samples.{letter}
use outboxd.Queue.Ids.{
  validate_id, matches_id_pattern, base, clean, clean_parts, clean_step, join_reversed,
  drop_trailing_slashes,
}
use outboxd.Queue.Validation.{
  validate_envelope, check_recipients, check_recipient, check_recipient_fields, check_routing,
  check_address, check_whole, check_head, check_bodies, check_origin, metadata_within_limit, spend,
  recipient_texts, index_unused, mark_used, valid_body_digest, contains_display_control,
  valid_enhanced_code, invalid_body_range, sent_without_success,
}
use outboxd.Queue.Validation.Bodies.{Covers, join_slices, validate-join_slices}
use outboxd.Queue.Validation.Recipients.{IsRoutable, HasReader, validate-IsRoutable}
use outboxd.Queue.Validation.Stable.{validate-twice}

abbrev zeros : ℕ → Bytes
zeros zero = []
zeros (suc n) = 0 ∷ zeros n

abbrev no_hash : Bytes → Bytes
no_hash text = zeros 32

abbrev digest : Bytes
digest = codes "sha256:0000000000000000000000000000000000000000000000000000000000000000"

abbrev to_bob : Recipient
to_bob = record {
  address = codes "bob@example.net";
  domain = codes "Example.NET";
  body = 0;
  status = unset;
  detail = [];
  code = 0;
  enhanced_code = [];
}

abbrev to_carol : Recipient
to_carol = record {
  address = codes "carol@example.com";
  domain = [];
  body = 1;
  status = failed;
  detail = codes "no such user";
  code = 550;
  enhanced_code = codes "5.1.1";
}

abbrev two_bodies : Envelope
two_bodies = record letter {
  incarnation = codes "00112233445566778899aabbccddeeff";
  recipients = to_bob ∷ to_carol ∷ [];
  bodies =
      record { offset = 0; size = 3; digest = digest; eight_bit = false }
      ∷ record { offset = 3; size = 2; digest = digest; eight_bit = false }
      ∷ [];
  size = 5;
  body_digest = digest;
}

abbrev normalized : Envelope
normalized = record two_bodies {
  recipients =
      record to_bob { domain = codes "example.net"; status = pending }
      ∷ record to_carol { domain = codes "example.com" }
      ∷ [];
}

accepted : validate_envelope ascii_names no_hash two_bodies ≡ ok normalized
unfolding validate_envelope check_recipients check_recipient check_recipient_fields check_routing
    check_address check_whole check_head check_bodies check_origin metadata_within_limit spend
    recipient_texts index_unused mark_used valid_body_digest contains_display_control
    valid_enhanced_code validate_id matches_id_pattern base clean clean_parts clean_step
    join_reversed drop_trailing_slashes routing_domain ascii_domain check_domain check_ascii convert
    domain_of split_address ascii_names valid_utf8 valid_after decode_rune trim_space
    trim_left_after trim_right_after runes_after runes has_prefix has_suffix contains contains_byte
    last_index_byte split_at_byte to_lower_ascii hex_encode hex_decode has_high_bit str_eq
accepted = refl

-- A gap between the bodies.
gap :
    check_bodies 5 0 0 (record { offset = 1; size = 4; digest = digest; eight_bit = false } ∷ [])
    ≡ err (invalid_body_range 0)
unfolding check_bodies
gap = refl

sent_with_failure :
    check_recipient_fields [] (record to_bob { status = sent; code = 550 })
    ≡ err sent_without_success
unfolding check_recipient_fields contains_display_control runes runes_after
sent_with_failure = refl

validate-join_slices_example :
    Covers 0 normalized.bodies 5 × (join_slices (codes "hello") normalized.bodies ≡ codes "hello")
validate-join_slices_example =
    validate-join_slices ascii_names no_hash (codes "hello") two_bodies accepted (cc) refl

validate-IsRoutable_example :
    All (IsRoutable ascii_names normalized.bodies) normalized.recipients
    × (length normalized.recipients ≡ length two_bodies.recipients)
    × ((k : ℕ) → k < length normalized.bodies → HasReader normalized.recipients k)
validate-IsRoutable_example = validate-IsRoutable ascii_names no_hash two_bodies normalized accepted

validate-twice_example : validate_envelope ascii_names no_hash normalized ≡ ok normalized
validate-twice_example =
    validate-twice ascii_names ascii_names-domain ascii_names-fixed no_hash two_bodies normalized
      accepted
