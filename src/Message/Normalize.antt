-- ===== src/Message/Normalize.antt =====
-- normalize and split of internal/message/message.go, for a context that is not canceled. The loop's
-- index is the list of the bytes that are left; `out` is what the loop appends from there on.
pub mod Canonical
mod Tests
use outboxd.Common.{
  ℕ, zero, suc, ◌+◌, Bool, true, false, ◌&&◌, Bytes, List, [], ◌∷◌, ◌++◌, ltb, ◌==◌, if◌then◌else◌,
}
use outboxd.Common.Result.{Result, ok, err, ◌>>=◌}

pub data MessageError : Type 0 where
  empty malformed no_from many_from binary long_line oversized header_size field_count resent :
      MessageError

abbrev pub max_line_length : ℕ
max_line_length = 998

abbrev pub crlf : Bytes
crlf = 13 ∷ 10 ∷ []

unfoldable pub contains_nul : Bytes → Bool
contains_nul [] = false
contains_nul (c ∷ cs) = if c == 0 then true else contains_nul cs

-- The byte that the loop looks at: a CR with its LF, a CR or LF alone, or another byte.
pub data Kind : Type 0 where
  pair single other : Kind

unfoldable pub kind : ℕ → Bytes → Kind
kind c [] = if c == 13 then single else if c == 10 then single else other
kind c (d ∷ rest) =
    if c == 13 then (if d == 10 then pair else single) else if c == 10 then single else other

abbrev put : ℕ → Result MessageError Bytes → Result MessageError Bytes
put c (ok out) = ok (c ∷ out)
put c (err e) = err e

abbrev break : Result MessageError Bytes → Result MessageError Bytes
break (ok out) = ok (13 ∷ 10 ∷ out)
break (err e) = err e

-- `length` counts the bytes of the line so far.
unfoldable pub normalize_from : ℕ → Bytes → Result MessageError Bytes
normalize_from length [] = ok []
normalize_from length (c ∷ []) = elim (kind c []) [
  | other ↦ (if ltb max_line_length (length + 1) then err long_line else ok (c ∷ []))
  | _ ↦ ok crlf
]
normalize_from length (c ∷ d ∷ rest) = elim (kind c (d ∷ rest)) [
  | pair ↦ break (normalize_from 0 rest)
  | single ↦ break (normalize_from 0 (d ∷ rest))
  | other ↦
      (let more = normalize_from (length + 1) (d ∷ rest) in
        if ltb max_line_length (length + 1) then err long_line else put c more)
]

unfoldable pub ends_with_crlf : Bytes → Bool
ends_with_crlf [] = false
ends_with_crlf (a ∷ []) = false
ends_with_crlf (a ∷ b ∷ []) = a == 13 && b == 10
ends_with_crlf (a ∷ b ∷ c ∷ rest) = ends_with_crlf (b ∷ c ∷ rest)

unfoldable pub finish : Bytes → Bytes
unfolding ends_with_crlf
finish out = if ends_with_crlf out then out else out ++ crlf

abbrev pub finished : Result MessageError Bytes → Result MessageError Bytes
finished (ok out) = ok (finish out)
finished (err e) = err e

unfoldable pub normalize : Bytes → Result MessageError Bytes
normalize raw = if contains_nul raw then err binary else finished (normalize_from 0 raw)

-- split: the header keeps its last line's CRLF, and the empty line belongs to neither part.
abbrev to_header : ℕ → Bytes × Bytes → Bytes × Bytes
to_header c (header, body) = (c ∷ header, body)

unfoldable pub is_separator : Bytes → Bool
is_separator (a ∷ b ∷ c ∷ d ∷ rest) = a == 13 && b == 10 && c == 13 && d == 10
is_separator _ = false

abbrev after_separator : Bytes → Bytes
after_separator (a ∷ b ∷ c ∷ d ∷ rest) = rest
after_separator _ = []

unfoldable pub split : Bytes → Bytes × Bytes
unfolding is_separator
split [] = ([], [])
split (a ∷ rest) =
    if is_separator (a ∷ rest) then (crlf, after_separator (a ∷ rest)) else to_header a (split rest)
