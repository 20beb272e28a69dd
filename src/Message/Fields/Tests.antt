-- ===== src/Message/Fields/Tests.antt =====
-- internal/message/message.go: runs of scan.
use outboxd.Common.{◌≤◌, Bytes, codes, some, List, [], ◌∷◌, ◌++◌, ◌≡◌, refl, All, length, true}
use outboxd.Common.Result.{Result, ok, err}
use outboxd.Common.Strings.{to_lower_ascii, last_index_byte}
use outboxd.Common.Utf8.{trim_space, trim_left_after, trim_right_after, runes_after, decode_rune}
use outboxd.Message.Normalize.{MessageError, malformed, crlf}
use outboxd.Message.Fields.{
  Field, cut_line, cut_colon, add_fold, add_field, add_line, scan_from, scan, valid_field_name,
  contains_header_controls, text, unfold_lines, valid_message_id, valid_inner,
}
use outboxd.Message.Fields.Fuel.{scan-ends}
use outboxd.Message.Fields.Scanned.{IsField, join_values, scan-fields}

header : Bytes
header = codes "To: a" ++ (crlf ++ (codes "  ,b" ++ (crlf ++ (codes "Date:" ++ crlf))))

abbrev fields : List Field
fields =
    record { name = codes "to"; value = codes "To: a" ++ (crlf ++ (codes "  ,b" ++ crlf)) }
    ∷ record { name = codes "date"; value = codes "Date:" ++ crlf }
    ∷ []

scanned : scan header ≡ some (ok fields)
unfolding scan scan_from cut_line cut_colon add_line add_fold add_field valid_field_name
    contains_header_controls to_lower_ascii trim_space trim_left_after trim_right_after runes_after
    decode_rune header
scanned = refl

-- A fold before any field.
fold_first : scan (codes " x" ++ crlf) ≡ some (err malformed)
unfolding scan scan_from cut_line add_line add_fold
fold_first = refl

folded_text :
    text (record { name = codes "to"; value = codes "To: a" ++ (crlf ++ (codes "  ,b" ++ crlf)) })
    ≡ codes "a  ,b"
unfolding text cut_colon unfold_lines trim_space trim_left_after trim_right_after runes_after
    decode_rune
folded_text = refl

message_id : valid_message_id (codes "<1.a@b>") ≡ true
unfolding valid_message_id valid_inner last_index_byte trim_space trim_left_after trim_right_after
    runes_after decode_rune
message_id = refl

scan-ends_example : (r : Result MessageError (List Field)) × (scan header ≡ some r)
scan-ends_example = scan-ends header

scan-fields_example : (join_values fields ≡ header) × All IsField fields × (length fields ≤ 1000)
scan-fields_example = scan-fields header fields scanned
