-- ===== src/Deliver/Diagnostic/Clean.antt =====
-- internal/deliver/response.go: normalizeDiagnostic leaves no display control in a text.
use outboxd.Common.{
  ℕ, zero, suc, ◌+◌, ◌-◌, Bool, true, false, not, ◌&&◌, Bytes, [], ◌∷◌, ◌++◌, length, ltb, ◌≡◌, inl,
  inr, refl, sym, ap, subst, arith, Bool-cases,
}
use mathlib.Core.List.{append_assoc, append-nil}
use outboxd.Common.Strings.{is_empty, take, all}
use outboxd.Common.Utf8.{
  decode_rune, rune_error, is_display_control, is_space, runes, runes_after, trim_left_after,
  trim_right_after, trim_space,
}
use outboxd.Queue.Validation.{contains_display_control}
use outboxd.Deliver.Diagnostic.{
  max_diagnostic_bytes, spaced, to_valid_after, write_runes, normalize_diagnostic,
}
use outboxd.Deliver.Diagnostic.Runes.{is_invalid, IsRune, decode-IsRune}

-- A text that is a sequence of runes, none of which `bad` finds.
data Runes (bad : ℕ → Bool) : Bytes → Type 0 where
  end : Runes bad []
  rune :
      (r c : ℕ) (s : Bytes) {t : Bytes}
      → IsRune r c s
      → bad r ≡ false
      → Runes bad t
      → Runes bad (c ∷ (s ++ t))

abbrev anything : ℕ → Bool
anything r = false

replacement-IsRune : IsRune rune_error 0xEF (0xBF ∷ 0xBD ∷ [])
unfolding decode_rune
replacement-IsRune t = refl

-- What ToValidUTF8 leaves: the bytes that are passed over, then valid runes.
to_valid-Runes :
    (in_run : Bool) (skip : ℕ) (s : Bytes)
    → (t : Bytes) × (to_valid_after in_run skip s ≡ take skip s ++ t) × Runes anything t
unfolding to_valid_after
to_valid-Runes in_run zero [] = ([], refl, end)
to_valid-Runes in_run (suc skip) [] = ([], refl, end)
to_valid-Runes in_run (suc skip) (c ∷ s) =
    let (t, same, valid) = to_valid-Runes false skip s in (t, ap (λ u. c ∷ u) same, valid)
to_valid-Runes in_run zero (c ∷ s) = elim (Bool-cases (is_invalid (decode_rune c s))) [
  | inl e ↦
      let (t, same, valid) = to_valid-Runes true 0 s in
      let all_valid = subst (Runes anything) (sym same) valid in
      elim (Bool-cases in_run) [
        | inl i ↦ (to_valid_after true 0 s, simp (to_valid_after, e, i) refl, all_valid)
        | inr i ↦ (
          0xEF ∷ 0xBF ∷ 0xBD ∷ to_valid_after true 0 s,
          simp (to_valid_after, e, i) refl,
          rune rune_error 0xEF (0xBF ∷ 0xBD ∷ []) replacement-IsRune refl all_valid,
        )
      ]
  | inr e ↦
      let width = (decode_rune c s).1 in
      let (t, same, valid) = to_valid-Runes false (width - 1) s in
      (
        c ∷ (take (width - 1) s ++ t),
        simp (to_valid_after, e) (ap (λ u. c ∷ u) same),
        rune (decode_rune c s).0 c (take (width - 1) s) (decode-IsRune c s e) refl valid,
      )
]

Runes-append : {bad : ℕ → Bool} (s t : Bytes) → Runes bad s → Runes bad t → Runes bad (s ++ t)
Runes-append [] t end w = w
Runes-append (_ ∷ _) t (rune r c s {t = rest} is_rune fine v) w =
    rw (append_assoc s rest t) (rune r c s is_rune fine (Runes-append rest t v w))

sub_one : (n : ℕ) → suc n - 1 ≡ n
sub_one n = omega arith

take-append : (s t : Bytes) → take (length s) (s ++ t) ≡ s
take-append [] [] = refl
take-append [] (c ∷ t) = refl
take-append (c ∷ s) t = ap (λ u. c ∷ u) (take-append s t)

write_runes-skip :
    (space : Bool) (out s t : Bytes)
    → write_runes (length s) space out (s ++ t) ≡ write_runes 0 space out t
unfolding write_runes
write_runes-skip space out [] t = refl
write_runes-skip space out (c ∷ s) t = write_runes-skip space out s t

trim_left-skip : (s t : Bytes) → trim_left_after (length s) (s ++ t) ≡ trim_left_after 0 t
unfolding trim_left_after
trim_left-skip [] t = refl
trim_left-skip (c ∷ s) t = trim_left-skip s t

trim_right-skip : (s t : Bytes) → trim_right_after (length s) (s ++ t) ≡ s ++ trim_right_after 0 t
unfolding trim_right_after
trim_right-skip [] t = refl
trim_right-skip (c ∷ s) t = ap (λ u. c ∷ u) (trim_right-skip s t)

runes-skip : (s t : Bytes) → runes_after (length s) (s ++ t) ≡ runes_after 0 t
unfolding runes_after
runes-skip [] t = refl
runes-skip (c ∷ s) t = runes-skip s t

-- A text whose runes are no display controls.
abbrev Clean : Bytes → Type 0
Clean = Runes is_display_control

blank-IsRune : IsRune 32 32 []
unfolding decode_rune
blank-IsRune t = refl

spaced-Clean : (space : Bool) (out : Bytes) → Clean out → Clean (spaced space out)
spaced-Clean space out clean =
    elim (Bool-cases (space && not (is_empty out) && ltb (length out) max_diagnostic_bytes)) [
      | inl e ↦
          let blank : Clean (b' ' ∷ []) = rune 32 32 [] blank-IsRune refl end in
          rw e (Runes-append out (b' ' ∷ []) clean blank)
      | inr e ↦ rw e clean
    ]

write_runes-Clean :
    (space : Bool) (out s : Bytes)
    → Clean out
    → Runes anything s
    → Clean (write_runes 0 space out s)
unfolding write_runes
write_runes-Clean space out [] clean end = clean
write_runes-Clean space out (_ ∷ _) clean (rune r c s {t = rest} is_rune fine valid) =
    let decoded = is_rune rest in
    let spaced_clean = spaced-Clean space out clean in
    elim (Bool-cases (is_display_control r)) [
      | inl e ↦
          let later = write_runes-Clean true out rest clean valid in
          simp (write_runes, decoded, e, sub_one, write_runes-skip) later
      | inr e ↦
          elim (Bool-cases
            (ltb max_diagnostic_bytes (length (spaced space out) + suc (length s)))) [
              | inl full ↦ simp (write_runes, decoded, e, full) spaced_clean
              | inr room ↦
                  let one : Clean (c ∷ (s ++ [])) = rune r c s is_rune e end in
                  let more = spaced space out ++ (c ∷ s) in
                  let more_clean : Clean more =
                    Runes-append (spaced space out) (c ∷ s) spaced_clean
                      (subst Clean (ap (λ u. c ∷ u) (append-nil s)) one) in
                  let later = write_runes-Clean false more rest more_clean valid in
                  simp (write_runes, decoded, e, room, take-append, sub_one, write_runes-skip) later
            ]
    ]

trim_left-Clean : (s : Bytes) → Clean s → Clean (trim_left_after 0 s)
unfolding trim_left_after
trim_left-Clean [] end = end
trim_left-Clean (_ ∷ _) (rune r c s {t = rest} is_rune fine clean) =
    let decoded = is_rune rest in
    elim (Bool-cases (is_space r)) [
      | inl e ↦
          simp (trim_left_after, decoded, e, sub_one, trim_left-skip) (trim_left-Clean rest clean)
      | inr e ↦ simp (trim_left_after, decoded, e) (rune r c s is_rune fine clean)
    ]

trim_right-Clean : (s : Bytes) → Clean s → Clean (trim_right_after 0 s)
unfolding trim_right_after
trim_right-Clean [] end = end
trim_right-Clean (_ ∷ _) (rune r c s {t = rest} is_rune fine clean) =
    let decoded = is_rune rest in
    let later = trim_right-Clean rest clean in
    elim (Bool-cases (all is_space (runes_after 0 (c ∷ (s ++ rest))))) [
      | inl e ↦ simp (trim_right_after, decoded, e) end
      | inr e ↦
          simp (trim_right_after, decoded, e, sub_one, trim_right-skip)
            (rune r c s is_rune fine later)
    ]

Clean-controls : (s : Bytes) → Clean s → contains_display_control s ≡ false
unfolding contains_display_control runes runes_after
Clean-controls [] end = refl
Clean-controls (_ ∷ _) (rune r c s {t = rest} is_rune fine clean) =
    let decoded = is_rune rest in
    let later = Clean-controls rest clean in
    simp (runes_after, decoded, fine, sub_one, runes-skip) later

pub normalize_diagnostic-controls :
    (s : Bytes) → contains_display_control (normalize_diagnostic s) ≡ false
unfolding normalize_diagnostic trim_space
normalize_diagnostic-controls s =
    let (t, same, valid) = to_valid-Runes false 0 s in
    let written = write_runes-Clean false [] t end valid in
    let trimmed = trim_right-Clean _ (trim_left-Clean _ written) in
    rw same (Clean-controls _ trimmed)
