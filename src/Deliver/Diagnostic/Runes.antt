-- ===== src/Deliver/Diagnostic/Runes.antt =====
-- The first rune of a text, as `range` over a string reads it in normalizeDiagnostic of
-- internal/deliver/response.go.
use outboxd.Common.{
  ℕ, suc, ◌-◌, Bool, true, false, ◌&&◌, Bytes, [], ◌∷◌, ◌++◌, length, ltb, ◌==◌, ◌≡◌, inl, inr,
  refl, ap, ◌∙◌, arith, Bool-cases,
}
use outboxd.Common.Strings.{take}
use outboxd.Common.Utf8.{
  decode_rune, decode_two, decode_three, decode_four, rune_error, is_continuation, accepts_second,
  within,
}

abbrev pub is_invalid : ℕ × ℕ → Bool
is_invalid r = r.1 == 1 && r.0 == rune_error

-- The first rune of `c ∷ s` is read in the same way whatever follows its bytes, and has its width.
abbrev Local : (ℕ → Bytes → ℕ × ℕ) → ℕ → Bytes → Type 0
Local decode c s =
    (t : Bytes)
    → (decode c (take ((decode c s).1 - 1) s ++ t) ≡ decode c s)
      × ((decode c s).1 ≡ suc (length (take ((decode c s).1 - 1) s)))

two-Local : (a : ℕ) (s : Bytes) → is_invalid (decode_two a s) ≡ false → Local decode_two a s
two-Local a [] h t = ground arith
two-Local a (b ∷ s) h t = elim (Bool-cases (is_continuation b)) [
  | inl e ↦ rw e (rw e refl, refl)
  | inr e ↦ ground arith
]

three-Local : (a : ℕ) (s : Bytes) → is_invalid (decode_three a s) ≡ false → Local decode_three a s
three-Local a [] h t = ground arith
three-Local a (b ∷ []) h t = ground arith
three-Local a (b ∷ c ∷ s) h t = elim (Bool-cases (accepts_second a b && is_continuation c)) [
  | inl e ↦ rw e (rw e refl, refl)
  | inr e ↦ let f : is_invalid (decode_three a (b ∷ c ∷ s)) ≡ true = rw e refl in cc
]

four-Local : (a : ℕ) (s : Bytes) → is_invalid (decode_four a s) ≡ false → Local decode_four a s
four-Local a [] h t = ground arith
four-Local a (b ∷ []) h t = ground arith
four-Local a (b ∷ c ∷ []) h t = ground arith
four-Local a (b ∷ c ∷ d ∷ s) h t =
    elim (Bool-cases (accepts_second a b && is_continuation c && is_continuation d)) [
      | inl e ↦ rw e (rw e refl, refl)
      | inr e ↦ let f : is_invalid (decode_four a (b ∷ c ∷ d ∷ s)) ≡ true = rw e refl in cc
    ]

decode-Local : (a : ℕ) (s : Bytes) → is_invalid (decode_rune a s) ≡ false → Local decode_rune a s
unfolding decode_rune
decode-Local a s h t = elim (Bool-cases (ltb a 0x80)) [
  | inl e ↦ simp (decode_rune, e) (refl, refl)
  | inr e ↦ elim (Bool-cases (within 0xC2 0xDF a)) [
    | inl two ↦
        let h2 : is_invalid (decode_two a s) ≡ false = simp (decode_rune, e, two) at h in
        simp (decode_rune, e, two) (two-Local a s h2 t)
    | inr two ↦ elim (Bool-cases (within 0xE0 0xEF a)) [
      | inl three ↦
          let h3 : is_invalid (decode_three a s) ≡ false = simp (decode_rune, e, two, three) at h in
          simp (decode_rune, e, two, three) (three-Local a s h3 t)
      | inr three ↦ elim (Bool-cases (within 0xF0 0xF4 a)) [
        | inl four ↦
            let h4 : is_invalid (decode_four a s) ≡ false =
              simp (decode_rune, e, two, three, four) at h in
            simp (decode_rune, e, two, three, four) (four-Local a s h4 t)
        | inr four ↦
            let f : is_invalid (decode_rune a s) ≡ true =
              simp (decode_rune, e, two, three, four) refl in
            cc
      ]
    ]
  ]
]

-- `c` and the bytes `s` are the rune `r`, whatever follows.
abbrev pub IsRune : ℕ → ℕ → Bytes → Type 0
IsRune r c s = (t : Bytes) → decode_rune c (s ++ t) ≡ (r, suc (length s))

pub decode-IsRune :
    (c : ℕ) (s : Bytes)
    → is_invalid (decode_rune c s) ≡ false
    → IsRune (decode_rune c s).0 c (take ((decode_rune c s).1 - 1) s)
decode-IsRune c s h t =
    let (same, width) = decode-Local c s h t in same ∙ ap (λ w. ((decode_rune c s).0, w)) width
