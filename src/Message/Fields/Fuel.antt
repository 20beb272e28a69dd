-- ===== src/Message/Fields/Fuel.antt =====
-- internal/message/message.go: the loop of scan ends.
use Prim.{absurd}
use outboxd.Common.{
  ℕ, zero, suc, ◌+◌, ◌≤◌, ◌&&◌, Bytes, some, List, [], ◌∷◌, ◌++◌, length, length-append, ◌==◌, ◌≡◌,
  refl, ap, arith, Option-cases, Bool-cases, inl, inr,
}
use outboxd.Common.Result.{Result, Result-cases}
use outboxd.Message.Normalize.{MessageError, crlf}
use outboxd.Message.Fields.{Field, cut_line, add_line, scan_from, scan}

-- A line that is cut off, its CRLF and what is left are the text.
pub cut_line-parts :
    (s line after : Bytes) → cut_line s ≡ some (line, after) → s ≡ line ++ (crlf ++ after)
unfolding cut_line
cut_line-parts [] line after h = cc
cut_line-parts (c ∷ []) line after h = cc
cut_line-parts (c ∷ d ∷ rest) line after h = elim (Bool-cases (c == 13 && d == 10)) [
  | inl e ↦ ground arith
  | inr e ↦ elim (Option-cases (cut_line (d ∷ rest))) [
    | inl n ↦ ground arith
    | inr ((line', after'), n) ↦
        let ih = cut_line-parts (d ∷ rest) line' after' n in ground (arith, ih)
  ]
]

cut_line-shorter :
    (s line after : Bytes) → cut_line s ≡ some (line, after) → length after + 2 ≤ length s
cut_line-shorter s line after h =
    omega (arith, ap length (cut_line-parts s line after h), length-append line (crlf ++ after))

-- A loop with a round for each byte that is left ends.
scan_from-ends :
    (fuel : ℕ) (header : Bytes) (fields : List Field)
    → length header ≤ fuel
    → (r : Result MessageError (List Field)) × (scan_from fuel header fields ≡ some r)
unfolding scan_from
scan_from-ends fuel [] fields h = (_, refl)
scan_from-ends zero (c ∷ rest) fields h = absurd (omega arith)
scan_from-ends (suc fuel) (c ∷ rest) fields h = elim (Option-cases (cut_line (c ∷ rest))) [
  | inl e ↦ rw (e, scan_from) (_, refl)
  | inr ((line, after), e) ↦ elim (Result-cases (add_line line fields)) [
    | inr (f, g) ↦ rw (e, g, scan_from) (_, refl)
    | inl (fields', g) ↦
        rw (e, g, scan_from)
          (scan_from-ends fuel after fields'
            (omega (arith, cut_line-shorter (c ∷ rest) line after e)))
  ]
]

-- The loop of scan ends for every header: a round for each of its bytes is enough.
pub scan-ends : (header : Bytes) → (r : Result MessageError (List Field)) × (scan header ≡ some r)
unfolding scan
scan-ends header = scan_from-ends (length header) header [] (omega arith)
