-- ===== src/Deliver/Diagnostic/Bounds.antt =====
-- internal/deliver/response.go: the text and the enhanced code that a reply leaves in a recipient.
use outboxd.Common.{
  ℕ, zero, suc, ◌+◌, ◌-◌, ◌≤◌, Bool, true, false, Bytes, List, [], ◌∷◌, ◌++◌, length, length-append,
  ltb, ◌≡◌, ◌⊎◌, inl, inr, refl, arith, Bool-cases,
}
use outboxd.Common.Strings.{take, all, split_at_byte}
use outboxd.Common.Utf8.{
  decode_rune, is_display_control, is_space, runes_after, trim_left_after, trim_right_after,
  trim_space,
}
use outboxd.Queue.Validation.{
  contains_display_control, valid_enhanced_code, are_code_parts, is_class,
  max_envelope_detail_bytes,
}
use outboxd.Queue.Ids.{decimal}
use outboxd.Deliver.Connect.{cut_space}
use outboxd.Deliver.Response.{SmtpError}
use outboxd.Deliver.Diagnostic.Clean.{normalize_diagnostic-controls}
use outboxd.Deliver.Diagnostic.{
  max_diagnostic_bytes, spaced, write_runes, to_valid_after, normalize_diagnostic, fits_enhanced,
  parse_enhanced_code, describe_reply, is_class_digit,
}

length-take : (n : ℕ) (s : Bytes) → length (take n s) ≤ n
length-take zero s = omega arith
length-take (suc n) [] = omega arith
length-take (suc n) (c ∷ s) = omega (arith, length-take n s)

length-spaced :
    (space : Bool) (out : Bytes)
    → length out ≤ max_diagnostic_bytes
    → length (spaced space out) ≤ max_diagnostic_bytes
length-spaced space out h = ground (arith, length-append out (b' ' ∷ []))

length-write_runes :
    (skip : ℕ) (space : Bool) (out s : Bytes)
    → length out ≤ max_diagnostic_bytes
    → length (write_runes skip space out s) ≤ max_diagnostic_bytes
unfolding write_runes
length-write_runes skip space out [] h = h
length-write_runes (suc skip) space out (c ∷ s) h = length-write_runes skip space out s h
length-write_runes zero space out (c ∷ s) h =
    let rune = (decode_rune c s).0 in
    let width = (decode_rune c s).1 in
    let fits = length-spaced space out h in
    elim (Bool-cases (is_display_control rune)) [
      | inl e ↦ simp (write_runes, e) (length-write_runes (width - 1) true out s h)
      | inr e ↦ elim (Bool-cases (ltb max_diagnostic_bytes (length (spaced space out) + width))) [
        | inl f ↦ simp (write_runes, e, f) fits
        | inr f ↦
            let more = spaced space out ++ take width (c ∷ s) in
            let room : length more ≤ max_diagnostic_bytes = ground (
              arith,
              length-append (spaced space out) (take width (c ∷ s)),
              length-take width (c ∷ s),
            ) in
            simp (write_runes, e, f) (length-write_runes (width - 1) false more s room)
      ]
    ]

length-trim_left : (skip : ℕ) (s : Bytes) → length (trim_left_after skip s) ≤ length s
unfolding trim_left_after
length-trim_left skip [] = omega arith
length-trim_left (suc skip) (c ∷ s) = omega (arith, length-trim_left skip s)
length-trim_left zero (c ∷ s) =
    let h = length-trim_left ((decode_rune c s).1 - 1) s in
    elim (Bool-cases (is_space (decode_rune c s).0)) [
      | inl e ↦ rw (trim_left_after, e) (omega arith)
      | inr e ↦ rw (trim_left_after, e) (omega arith)
    ]

length-trim_right : (skip : ℕ) (s : Bytes) → length (trim_right_after skip s) ≤ length s
unfolding trim_right_after
length-trim_right skip [] = omega arith
length-trim_right (suc skip) (c ∷ s) = omega (arith, length-trim_right skip s)
length-trim_right zero (c ∷ s) =
    let h = length-trim_right ((decode_rune c s).1 - 1) s in
    elim (Bool-cases (all is_space (runes_after 0 (c ∷ s)))) [
      | inl e ↦ rw (trim_right_after, e) (omega arith)
      | inr e ↦ rw (trim_right_after, e) (omega arith)
    ]

length-normalize_diagnostic : (s : Bytes) → length (normalize_diagnostic s) ≤ max_diagnostic_bytes
unfolding normalize_diagnostic trim_space
length-normalize_diagnostic s =
    let valid = to_valid_after false 0 s in
    let out = write_runes 0 false [] valid in
    omega (
      arith,
      length-write_runes 0 false [] valid (omega arith),
      length-trim_left 0 out,
      length-trim_right 0 (trim_left_after 0 out),
    )

class-fits :
    (class : Bytes) (code : ℕ) → is_class_digit class code ≡ true → is_class class code ≡ true
class-fits [] code h = cc
class-fits (d ∷ []) code h = ground arith
class-fits (d ∷ e ∷ s) code h = cc

parts-fit :
    (parts : List Bytes) (code : ℕ)
    → fits_enhanced parts code ≡ true
    → are_code_parts parts code ≡ true
parts-fit [] code h = cc
parts-fit (a ∷ []) code h = cc
parts-fit (a ∷ b ∷ []) code h = cc
parts-fit (a ∷ b ∷ c ∷ []) code h = ground (arith, class-fits a code)
parts-fit (a ∷ b ∷ c ∷ d ∷ parts) code h = cc

-- The text that `describe` makes of a negative reply has at most `max_envelope_detail_bytes` bytes
-- and none of the display controls that the queue refuses in a detail, and `parse_enhanced_code`
-- gives no code or one that `valid_enhanced_code` accepts with the code of the reply.
pub reply-Storable :
    (e : SmtpError) (message : Bytes)
    → (length (describe_reply e) ≤ max_envelope_detail_bytes)
      × (contains_display_control (describe_reply e) ≡ false)
      × ((parse_enhanced_code e.code message ≡ [])
          ⊎ (valid_enhanced_code (parse_enhanced_code e.code message) e.code ≡ true))
unfolding describe_reply parse_enhanced_code valid_enhanced_code
reply-Storable e message =
    let detail = decimal e.code ++ b' ' ∷ e.message in
    let field = (cut_space (trim_space message)).0 in
    (
      omega (arith, length-normalize_diagnostic detail),
      normalize_diagnostic-controls detail,
      elim (Bool-cases (fits_enhanced (split_at_byte field b'.') e.code)) [
        | inl fits ↦
            inr (rw (parse_enhanced_code, fits) (parts-fit (split_at_byte field b'.') e.code fits))
        | inr f ↦ inl (rw (parse_enhanced_code, f) refl)
      ],
    )
