-- ===== src/Message/Normalize/Canonical.antt =====
-- The normal form that internal/message/message.go's normalize produces, and keeps.
use outboxd.Common.{
  ℕ, zero, suc, ◌+◌, ◌<◌, ◌≡◌, ◌≢◌, refl, ap, ◌∙◌, subst, ◌⊎◌, inl, inr, false, Bytes, [], ◌∷◌,
  arith, ltb, if◌then◌else◌, Bool-cases,
}
use Prim.{absurd, ⊥}
use native.Mathlib.Numerals.{add-one}
use outboxd.Common.Result.{Result, ok, err}
use outboxd.Message.Normalize.{
  MessageError, long_line, max_line_length, crlf, contains_nul, Kind, pair, single, other, kind,
  normalize_from, finish, finished, normalize, put, break,
}

-- Lines that end in CRLF, without CR, LF or NUL inside and of at most 998 bytes; `n` bytes of the
-- first one have gone before.
pub data Lines : ℕ → Bytes → Type 0 where
  end : Lines zero []
  line : {n : ℕ} {rest : Bytes} → Lines zero rest → Lines n (13 ∷ 10 ∷ rest)
  byte :
      {n c : ℕ} {rest : Bytes}
      → c ≢ 13
      → c ≢ 10
      → c ≢ 0
      → n < max_line_length
      → Lines (suc n) rest
      → Lines n (c ∷ rest)

finish-byte : (c : ℕ) (out : Bytes) → c ≢ 13 → finish (c ∷ out) ≡ c ∷ finish out
unfolding finish
finish-byte c [] n = refl
finish-byte c (d ∷ []) n = ground arith
finish-byte c (d ∷ e ∷ out) n = ground arith

finish-line : (d : ℕ) (out : Bytes) → finish (13 ∷ 10 ∷ d ∷ out) ≡ 13 ∷ 10 ∷ finish (d ∷ out)
unfolding finish
finish-line d [] = ground arith
finish-line d (e ∷ out) = ground arith

-- What holds of the output, where there is one.
abbrev Yields : (Bytes → Type 0) → Result MessageError Bytes → Type 0
Yields P (ok out) = P out
Yields P (err e) = Unit

Kind-cases : (k : Kind) → (k ≡ pair) ⊎ (k ≡ single) ⊎ (k ≡ other)
Kind-cases pair = inl refl
Kind-cases single = inr (inl refl)
Kind-cases other = inr (inr refl)

kind-other : (c : ℕ) (rest : Bytes) → kind c rest ≡ other → (c ≢ 13) × (c ≢ 10)
unfolding kind
kind-other c [] h = ground arith
kind-other c (d ∷ rest) h = ground arith

abbrev Finishes : ℕ → Bytes → Type 0
Finishes n out = Lines n (finish out)

break-Finishes :
    (n : ℕ) (m : Result MessageError Bytes) → Yields (Finishes 0) m → Yields (Finishes n) (break m)
unfolding finish
break-Finishes n (ok []) y = line end
break-Finishes n (ok (d ∷ out)) y = rw finish-line (line y)
break-Finishes n (err e) y = tt

put-Finishes :
    (n c : ℕ) (m : Result MessageError Bytes)
    → c ≢ 13
    → c ≢ 10
    → c ≢ 0
    → n < max_line_length
    → Yields (Finishes (suc n)) m
    → Yields (Finishes n) (put c m)
put-Finishes n c (ok out) p q z l y = rw (finish-byte c out p) (byte p q z l y)
put-Finishes n c (err e) p q z l y = tt

crlf-Finishes : (n : ℕ) → Finishes n crlf
unfolding finish
crlf-Finishes n = line end

nul-cons :
    (c : ℕ) (rest : Bytes) → contains_nul (c ∷ rest) ≡ false → (c ≢ 0) × (contains_nul rest ≡ false)
unfolding contains_nul
nul-cons c rest h = ground arith

-- The branch for a byte that ends no line.
other-Finishes :
    (n c : ℕ) (m : Result MessageError Bytes)
    → c ≢ 13
    → c ≢ 10
    → c ≢ 0
    → Yields (Finishes (suc n)) m
    → Yields (Finishes n) (if ltb max_line_length (n + 1) then err long_line else put c m)
other-Finishes n c m p q z y = elim (Bool-cases (ltb max_line_length (n + 1))) [
  | inl e ↦ rw e tt
  | inr e ↦ rw e (put-Finishes n c m p q z (ground arith) y)
]

-- The loop ends each line within the bound, and the last line is closed at the end.
normalize_from-Finishes :
    (n : ℕ) (raw : Bytes) → contains_nul raw ≡ false → Yields (Finishes n) (normalize_from n raw)
unfolding normalize_from finish
normalize_from-Finishes n [] z = line end
normalize_from-Finishes n (c ∷ []) z = elim (Kind-cases (kind c [])) [
  | inl e ↦ rw (e, normalize_from) (crlf-Finishes n)
  | inr (inl e) ↦ rw (e, normalize_from) (crlf-Finishes n)
  | inr (inr e) ↦
      rw (e, normalize_from)
        (other-Finishes n c (ok []) (kind-other c [] e).0 (kind-other c [] e).1 (nul-cons c [] z).0
          (crlf-Finishes (suc n)))
]
normalize_from-Finishes n (c ∷ d ∷ rest) z =
    let z' = (nul-cons c (d ∷ rest) z).1 in
    elim (Kind-cases (kind c (d ∷ rest))) [
      | inl e ↦
          rw (e, normalize_from)
            (break-Finishes n (normalize_from 0 rest)
              (normalize_from-Finishes 0 rest (nul-cons d rest z').1))
      | inr (inl e) ↦
          rw (e, normalize_from)
            (break-Finishes n (normalize_from 0 (d ∷ rest))
              (normalize_from-Finishes 0 (d ∷ rest) z'))
      | inr (inr e) ↦
          rw (e, normalize_from)
            (other-Finishes n c (normalize_from (n + 1) (d ∷ rest)) (kind-other c (d ∷ rest) e).0
              (kind-other c (d ∷ rest) e).1 (nul-cons c (d ∷ rest) z).0
              (rw add-one (normalize_from-Finishes (suc n) (d ∷ rest) z')))
    ]

finished-Lines :
    (m : Result MessageError Bytes) (out : Bytes)
    → Yields (Finishes 0) m
    → finished m ≡ ok out
    → Lines 0 out
finished-Lines (ok o) out y h = subst (Lines 0) (ground arith) y
finished-Lines (err e) out y h = cc

-- An accepted message consists of lines that end in CRLF and hold no CR, LF or NUL and at most 998
-- bytes.
pub normalize-Lines : (raw out : Bytes) → normalize raw ≡ ok out → Lines 0 out
unfolding normalize
normalize-Lines raw out h = elim (Bool-cases (contains_nul raw)) [
  | inl e ↦ cc (rw e at h)
  | inr e ↦ finished-Lines (normalize_from 0 raw) out (normalize_from-Finishes 0 raw e) (rw e at h)
]

kind-byte : (c : ℕ) (rest : Bytes) → c ≢ 13 → c ≢ 10 → kind c rest ≡ other
unfolding kind
kind-byte c [] p q = ground arith
kind-byte c (d ∷ rest) p q = ground arith

Lines-suc : {n : ℕ} → Lines (suc n) [] → ⊥
Lines-suc l = elim l [ ]

-- The loop keeps a text in normal form as it is.
Lines-fixed : {n : ℕ} {out : Bytes} → Lines n out → normalize_from n out ≡ ok out
unfolding normalize_from kind
Lines-fixed end = refl
Lines-fixed (line {rest = []} l) = refl
Lines-fixed (line {rest = (d ∷ rest)} l) = ap break (Lines-fixed l)
Lines-fixed (byte {n = n} {c = c} {rest = []} p q z b l) = absurd (Lines-suc l)
Lines-fixed (byte {n = n} {c = c} {rest = (d ∷ rest)} p q z b l) =
    let ih = Lines-fixed l in
    let bound : ltb max_line_length (n + 1) ≡ false = ground arith in
    rw (kind-byte c (d ∷ rest) p q, bound, add-one, ih, normalize_from) refl

Lines-no-nul : {n : ℕ} {out : Bytes} → Lines n out → contains_nul out ≡ false
unfolding contains_nul
Lines-no-nul end = refl
Lines-no-nul (line l) = Lines-no-nul l
Lines-no-nul (byte p q z b l) = let ih = Lines-no-nul l in ground arith

-- Finishing a text in normal form that is not empty changes nothing.
Lines-finish : {n : ℕ} {out : Bytes} → Lines n out → out ≢ [] → finish out ≡ out
unfolding finish
Lines-finish end e = absurd (e refl)
Lines-finish (line {rest = []} l) e = refl
Lines-finish (line {rest = (d ∷ rest)} l) e =
    finish-line d rest ∙ ap (λ t. 13 ∷ 10 ∷ t) (Lines-finish l (λ h. cc))
Lines-finish (byte {n = n} {c = c} {rest = []} p q z b l) e = absurd (Lines-suc l)
Lines-finish (byte {n = n} {c = c} {rest = (d ∷ rest)} p q z b l) e =
    finish-byte c (d ∷ rest) p ∙ ap (λ t. c ∷ t) (Lines-finish l (λ h. cc))

finish-nonempty : (out : Bytes) → finish out ≢ []
unfolding finish
finish-nonempty [] h = cc
finish-nonempty (a ∷ []) h = ground arith
finish-nonempty (a ∷ b ∷ []) h = ground arith
finish-nonempty (a ∷ b ∷ c ∷ out) h = ground arith

finished-nonempty : (m : Result MessageError Bytes) (out : Bytes) → finished m ≡ ok out → out ≢ []
finished-nonempty (ok o) out h e = finish-nonempty o (ground arith)
finished-nonempty (err x) out h e = cc

normalize-nonempty : (raw out : Bytes) → normalize raw ≡ ok out → out ≢ []
unfolding normalize
normalize-nonempty raw out h e = elim (Bool-cases (contains_nul raw)) [
  | inl b ↦ cc (rw b at h)
  | inr b ↦ finished-nonempty (normalize_from 0 raw) out (rw b at h) e
]

-- Normalizing an accepted message's normal form gives that form back.
pub normalize-idempotent : (raw out : Bytes) → normalize raw ≡ ok out → normalize out ≡ ok out
unfolding normalize
normalize-idempotent raw out h =
    let l = normalize-Lines raw out h in
    rw (Lines-no-nul l, Lines-fixed l, Lines-finish l (normalize-nonempty raw out h), normalize)
      refl
