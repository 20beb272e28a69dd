-- ===== src/Deliver/Diagnostic.antt =====
-- internal/deliver/response.go: the texts that a delivery keeps. A text that another server sent
-- becomes valid UTF-8 without control characters, of bounded length; and parseEnhancedCode.
pub mod Runes
pub mod Clean
pub mod Bounds
mod Tests
use outboxd.Common.{
  ℕ, zero, suc, ◌+◌, ◌-◌, ◌/◌, Bool, true, false, not, ◌&&◌, Bytes, List, [], ◌∷◌, ◌++◌, length,
  ltb, leb, ◌==◌, if◌then◌else◌,
}
use outboxd.Common.Strings.{take, all, is_empty, is_digit, split_at_byte}
use outboxd.Common.Utf8.{decode_rune, rune_error, is_display_control, trim_space}
use outboxd.Queue.Ids.{decimal}
use outboxd.Deliver.Connect.{cut_space}
use outboxd.Deliver.Response.{SmtpError}

abbrev pub max_diagnostic_bytes : ℕ
max_diagnostic_bytes = 1024

-- strings.ToValidUTF8 with U+FFFD: each run of invalid bytes becomes one.
unfoldable pub to_valid_after : Bool → ℕ → Bytes → Bytes
to_valid_after in_run skip [] = []
to_valid_after in_run (suc skip) (c ∷ s) = c ∷ to_valid_after false skip s
to_valid_after in_run zero (c ∷ s) =
    let (rune, width) = decode_rune c s in
    elim (width == 1 && rune == rune_error) [
      | false ↦ c ∷ to_valid_after false (width - 1) s
      | true ↦
          let rest = to_valid_after true 0 s in if in_run then rest else 0xEF ∷ 0xBF ∷ 0xBD ∷ rest
    ]

-- The builder with a space before the next rune, where one is due.
abbrev pub spaced : Bool → Bytes → Bytes
spaced space out =
    if space && not (is_empty out) && ltb (length out) max_diagnostic_bytes
    then out ++ b' ' ∷ []
    else out

-- The loop over the runes: the bytes to pass over, `space` and the builder.
unfoldable pub write_runes : ℕ → Bool → Bytes → Bytes → Bytes
write_runes skip space out [] = out
write_runes (suc skip) space out (c ∷ s) = write_runes skip space out s
write_runes zero space out (c ∷ s) =
    let (rune, width) = decode_rune c s in
    elim (is_display_control rune) [
      | true ↦ write_runes (width - 1) true out s
      | false ↦ elim (ltb max_diagnostic_bytes (length (spaced space out) + width)) [
        | true ↦ spaced space out
        | false ↦ write_runes (width - 1) false (spaced space out ++ take width (c ∷ s)) s
      ]
    ]

unfoldable pub normalize_diagnostic : Bytes → Bytes
normalize_diagnostic s = trim_space (write_runes 0 false [] (to_valid_after false 0 s))

-- describe at a negative reply.
unfoldable pub describe_reply : SmtpError → Bytes
describe_reply e = normalize_diagnostic (decimal e.code ++ b' ' ∷ e.message)

abbrev pub is_class_digit : Bytes → ℕ → Bool
is_class_digit (d ∷ []) code = leb b'2' d && leb d b'5' && d - b'0' == code / 100 && not (d == b'3')
is_class_digit _ code = false

abbrev pub is_detail_part : Bytes → Bool
is_detail_part part = leb 1 (length part) && leb (length part) 3 && all is_digit part

abbrev pub fits_enhanced : List Bytes → ℕ → Bool
fits_enhanced (class ∷ subject ∷ detail ∷ []) code =
    is_class_digit class code && is_detail_part subject && is_detail_part detail
fits_enhanced _ code = false

unfoldable pub parse_enhanced_code : ℕ → Bytes → Bytes
parse_enhanced_code code message =
    let field = (cut_space (trim_space message)).0 in
    if fits_enhanced (split_at_byte field b'.') code then field else []
