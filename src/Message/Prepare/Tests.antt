-- ===== src/Message/Prepare/Tests.antt =====
-- internal/message/message.go: a run of Prepare.
use outboxd.Common.{codes, str_eq, ◌++◌, ◌≡◌, refl, All, length, ◌<◌, ◌≤◌}
use outboxd.Common.Result.{ok, err}
use outboxd.Common.Strings.{
  to_lower_ascii, last_index_byte, has_prefix, has_suffix, contains, split_at_byte,
}
use outboxd.Common.Utf8.{
  trim_space, trim_left_after, trim_right_after, runes_after, runes, decode_rune, valid_utf8,
  valid_after, has_high_bit,
}
use outboxd.Mailbox.{
  validate_address, check_mailbox_domain, ascii_domain, check_domain, check_ascii, convert,
  split_address,
}
use outboxd.Mailbox.AsciiNames.{ascii_names}
use outboxd.Message.Normalize.{
  crlf, normalize, normalize_from, finish, contains_nul, kind, split, is_separator, no_from,
}
use outboxd.Message.Fields.{
  cut_line, cut_colon, add_fold, add_field, add_line, scan_from, scan, valid_field_name,
  contains_header_controls, text, unfold_lines, valid_message_id, valid_inner, first_field,
}
use outboxd.Message.Trace.{
  trace_value, trace_from, protocol, trim_angles, trim_left_angles, trim_right_angles,
}
use outboxd.Message.Trace.Clean.{IsAtomByte, trace_value-IsAtomByte}
use outboxd.Message.Prepare.{
  message, prepare, visit, visit_all, read_originator, set_originator, check_from, check_size,
  read_fields, count_named, stays, kept, added, used_id, preserve_local_part_case, addr_spec,
  addr_start, needs_utf8_addr, has_date, has_id, usable, valid_date, identifier, identifier_domain,
  received, line_if,
}
use outboxd.Message.Prepare.Samples.{library, options, submission, prepared}
use outboxd.Message.Prepare.Kept.{IsPrepared, prepare-IsPrepared}

runs : prepare library options submission ≡ ok prepared
unfolding prepare visit visit_all read_originator set_originator check_from check_size read_fields
    count_named stays kept added used_id preserve_local_part_case addr_spec addr_start
    needs_utf8_addr has_date has_id usable valid_date identifier identifier_domain received line_if
    normalize normalize_from finish contains_nul kind split is_separator cut_line cut_colon add_fold
    add_field add_line scan_from scan valid_field_name contains_header_controls text unfold_lines
    valid_message_id valid_inner first_field trace_value trace_from protocol trim_angles
    trim_left_angles trim_right_angles to_lower_ascii last_index_byte has_prefix has_suffix contains
    split_at_byte trim_space trim_left_after trim_right_after runes_after runes decode_rune
    valid_utf8 valid_after has_high_bit validate_address check_mailbox_domain ascii_domain
    check_domain check_ascii convert split_address ascii_names str_eq
runs = refl

without_from : prepare library options (codes "To: a" ++ crlf) ≡ err (message no_from)
unfolding prepare check_from check_size read_fields count_named normalize normalize_from finish
    contains_nul kind split is_separator cut_line cut_colon add_field add_line scan_from scan
    valid_field_name contains_header_controls to_lower_ascii str_eq
without_from = refl

prepare-IsPrepared_example : IsPrepared library options submission prepared
prepare-IsPrepared_example = prepare-IsPrepared library options submission prepared runs

trace_value-IsAtomByte_example :
    All IsAtomByte (trace_value (codes "a b"))
    × (0 < length (trace_value (codes "a b")))
    × (length (trace_value (codes "a b")) ≤ 128)
trace_value-IsAtomByte_example = trace_value-IsAtomByte (codes "a b")
