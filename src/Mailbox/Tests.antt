-- ===== src/Mailbox/Tests.antt =====
-- internal/mailbox/mailbox.go: runs on concrete names.
use outboxd.Common.{codes, str_eq, ◌≡◌, refl}
use outboxd.Common.Result.{ok, err}
use outboxd.Common.Strings.{
  has_prefix, has_suffix, contains, last_index_byte, split_at_byte, to_lower_ascii,
}
use outboxd.Common.Utf8.{
  valid_utf8, valid_after, decode_rune, trim_space, trim_left_after, trim_right_after, runes_after,
}
use outboxd.Mailbox.{
  routing_domain, ascii_domain, check_domain, check_ascii, convert, domain_of, split_address,
  domain_label, empty_domain, validate_address, check_mailbox_domain,
}
use outboxd.Mailbox.AsciiNames.{ascii_names, ascii_names-domain, ascii_names-fixed}
use outboxd.Mailbox.Routing.{routing_domain-twice}

routed : routing_domain ascii_names (codes "Mail.Example.ORG") ≡ ok (codes "mail.example.org")
unfolding routing_domain ascii_domain check_domain check_ascii convert ascii_names valid_utf8
    valid_after decode_rune trim_space trim_left_after trim_right_after runes_after has_prefix
    has_suffix contains split_at_byte to_lower_ascii str_eq
routed = refl

single_label : routing_domain ascii_names (codes "localhost") ≡ err domain_label
unfolding routing_domain ascii_domain check_domain check_ascii convert ascii_names valid_utf8
    valid_after decode_rune trim_space trim_left_after trim_right_after runes_after has_prefix
    has_suffix contains split_at_byte to_lower_ascii str_eq
single_label = refl

-- An address literal is a mailbox, without a routing domain.
literal : validate_address ascii_names (codes "postmaster@[192.0.2.1]") ≡ ok tt
unfolding validate_address check_mailbox_domain split_address last_index_byte valid_utf8 valid_after
    decode_rune has_prefix has_suffix str_eq
literal = refl

no_local : domain_of ascii_names (codes "@example.org") ≡ err empty_domain
unfolding domain_of split_address last_index_byte
no_local = refl

routing_domain-twice_example :
    routing_domain ascii_names (codes "mail.example.org") ≡ ok (codes "mail.example.org")
routing_domain-twice_example =
    routing_domain-twice ascii_names ascii_names-domain ascii_names-fixed (codes "Mail.Example.ORG")
      (codes "mail.example.org") routed
