-- ===== src/Message/Trace/Clean.antt =====
-- internal/message/message.go: what a client says of itself cannot break out of the Received field.
use outboxd.Common.{
  ℕ, ◌+◌, ◌≤◌, ◌<◌, Bool, true, false, ◌&&◌, Bytes, codes, List, [], ◌∷◌, length, leb, ◌≡◌, ◌≢◌,
  refl, arith, All, Bool-cases, inl, inr,
}
use outboxd.Common.Strings.{is_empty}
use outboxd.Common.Utf8.{runes}
use outboxd.Message.Trace.{trace_from, trace_value, is_traced}

-- A visible ASCII byte that neither opens nor ends a comment, nor quotes.
pub record IsAtomByte (c : ℕ) : Type 0 where
  pub visible : (33 ≤ c) × (c ≤ 126)
  pub plain : (c ≢ b'(') × (c ≢ b')') × (c ≢ b'\\')

traced-IsAtomByte : (c : ℕ) → is_traced c ≡ true → IsAtomByte c
traced-IsAtomByte c h = record {
  visible = (ground arith, ground arith);
  plain = (λ e. ground arith, λ e. ground arith, λ e. ground arith);
}

trace_from-Clean :
    (written : ℕ) (cs : List ℕ)
    → written ≤ 128
    → All IsAtomByte (trace_from written cs) × (written + length (trace_from written cs) ≤ 128)
unfolding trace_from
trace_from-Clean written [] h = (tt, omega arith)
trace_from-Clean written (c ∷ cs) h = elim (Bool-cases (leb 128 written)) [
  | inl e ↦ rw (e, trace_from) (tt, omega arith)
  | inr e ↦ elim (Bool-cases (is_traced c)) [
    | inl t ↦
        let room : written + 1 ≤ 128 = ground arith in
        let (clean, short) = trace_from-Clean (written + 1) cs room in
        rw (e, t, trace_from) ((traced-IsAtomByte c t, clean), omega arith)
    | inr t ↦ rw (e, t, trace_from) (trace_from-Clean written cs h)
  ]
]

nonempty-length : (s : Bytes) → is_empty s ≡ false → 0 < length s
nonempty-length [] h = cc
nonempty-length (c ∷ s) h = omega arith

atom_text : Bytes → Bool
atom_text [] = true
atom_text (c ∷ s) = is_traced c && atom_text s

atom_text-All : (s : Bytes) → atom_text s ≡ true → All IsAtomByte s
unfolding atom_text
atom_text-All [] h = tt
atom_text-All (c ∷ s) h = (traced-IsAtomByte c (ground arith), atom_text-All s (ground arith))

unknown-Clean : All IsAtomByte (codes "unknown")
unfolding atom_text
unknown-Clean = atom_text-All (codes "unknown") refl

-- Whatever a client sends, the text that traceValue makes of it has between 1 and 128 bytes, each a
-- visible ASCII character other than a parenthesis or a backslash: no line break or white space.
pub trace_value-IsAtomByte :
    (value : Bytes)
    → All IsAtomByte (trace_value value)
      × (0 < length (trace_value value))
      × (length (trace_value value) ≤ 128)
unfolding trace_value
trace_value-IsAtomByte value =
    let written = trace_from 0 (runes value) in
    let (clean, short) = trace_from-Clean 0 (runes value) (omega arith) in
    elim (Bool-cases (is_empty written)) [
      | inl e ↦ rw e (unknown-Clean, omega arith, omega arith)
      | inr e ↦ rw e (clean, nonempty-length written e, omega arith)
    ]
