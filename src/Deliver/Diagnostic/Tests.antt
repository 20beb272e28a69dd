-- ===== src/Deliver/Diagnostic/Tests.antt =====
-- The texts of internal/deliver/response.go at concrete replies.
use outboxd.Common.{◌≤◌, true, false, codes, [], ◌∷◌, ◌++◌, length, ◌≡◌, ◌⊎◌, refl}
use outboxd.Common.Strings.{split_at_byte}
use outboxd.Common.Utf8.{decode_rune, runes_after, trim_left_after, trim_right_after, trim_space}
use outboxd.Queue.Validation.{
  contains_display_control, valid_enhanced_code, max_envelope_detail_bytes,
}
use outboxd.Deliver.Connect.{cut_space}
use outboxd.Deliver.Response.{SmtpError}
use outboxd.Deliver.Diagnostic.{
  to_valid_after, write_runes, normalize_diagnostic, describe_reply, parse_enhanced_code,
}
use outboxd.Deliver.Diagnostic.Bounds.{reply-Storable}

enhanced : parse_enhanced_code 550 (codes "5.7.1 no") ≡ codes "5.7.1"
unfolding parse_enhanced_code trim_space trim_left_after trim_right_after runes_after decode_rune
    cut_space split_at_byte
enhanced = refl

enhanced_of_another_class : parse_enhanced_code 450 (codes "5.7.1 no") ≡ []
unfolding parse_enhanced_code trim_space trim_left_after trim_right_after runes_after decode_rune
    cut_space split_at_byte
enhanced_of_another_class = refl

-- A line break becomes a space, a byte that is not UTF-8 the replacement, and the ends are trimmed.
normalized :
    normalize_diagnostic (codes " a" ++ 13 ∷ 10 ∷ b'b' ∷ 0xFF ∷ 0xFE ∷ b' ' ∷ [])
    ≡ codes "a b" ++ 0xEF ∷ 0xBF ∷ 0xBD ∷ []
unfolding normalize_diagnostic write_runes to_valid_after trim_space trim_left_after
    trim_right_after runes_after decode_rune
normalized = refl

abbrev refusal : SmtpError
refusal = record { code = 550; enhanced_code = codes "5.7.1"; message = codes "5.7.1 no" }

reply-Storable_example :
    (length (describe_reply refusal) ≤ max_envelope_detail_bytes)
    × (contains_display_control (describe_reply refusal) ≡ false)
    × ((parse_enhanced_code 550 (codes "5.7.1 no") ≡ [])
        ⊎ (valid_enhanced_code (parse_enhanced_code 550 (codes "5.7.1 no")) 550 ≡ true))
reply-Storable_example = reply-Storable refusal (codes "5.7.1 no")
