-- ===== src/Message/Fields.antt =====
-- The header fields of internal/message/message.go: scan, and the questions asked of a field. The
-- context is not canceled.
pub mod Scanned
pub mod Fuel
mod Tests
use outboxd.Common.{
  ℕ, zero, suc, ◌+◌, ◌-◌, Bool, true, false, not, ◌&&◌, ◌||◌, Bytes, str_eq, Option, none, some,
  List, [], ◌∷◌, ◌++◌, length, leb, ltb, ◌==◌, if◌then◌else◌,
}
use outboxd.Common.Result.{Result, ok, err}
use outboxd.Common.Strings.{all, any, is_empty, to_lower_ascii, take, drop, last_index_byte}
use outboxd.Common.Utf8.{trim_space}
use outboxd.Message.Normalize.{MessageError, malformed, field_count, crlf}

abbrev pub max_header_fields : ℕ
max_header_fields = 1000

-- `value` is the whole field, its name, folds and last CRLF included.
pub record Field : Type 0 where
  pub name : Bytes
  pub value : Bytes

unfoldable pub valid_field_name : Bytes → Bool
valid_field_name name =
    not (is_empty name) && all (λ c. leb 33 c && leb c 126 && not (c == b':')) name

unfoldable pub contains_header_controls : Bytes → Bool
contains_header_controls b = any (λ c. c == 127 || ltb c 32 && not (c == 9)) b

-- The line before the first CRLF, and what follows the CRLF.
unfoldable pub cut_line : Bytes → Option (Bytes × Bytes)
cut_line [] = none
cut_line (c ∷ []) = none
cut_line (c ∷ d ∷ rest) =
    let later = cut_line (d ∷ rest) in
    if c == 13 && d == 10
    then some ([], rest)
    else elim later [ none ↦ none | some (line, after) ↦ some (c ∷ line, after) ]

-- bytes.Cut at a colon: what stands before and after the first one.
unfoldable pub cut_colon : Bytes → Option (Bytes × Bytes)
cut_colon [] = none
cut_colon (c ∷ rest) =
    let later = cut_colon rest in
    if c == b':'
    then some ([], rest)
    else elim later [ none ↦ none | some (before, after) ↦ some (c ∷ before, after) ]

abbrev pub is_fold : Bytes → Bool
is_fold [] = false
is_fold (c ∷ _) = c == b' ' || c == 9

-- The fields so far are in reverse order. A continuation is put to the last one.
unfoldable pub add_fold : Bytes → List Field → Result MessageError (List Field)
add_fold line [] = err malformed
add_fold line (f ∷ fields) =
    if is_empty (trim_space line) || contains_header_controls line
    then err malformed
    else ok (record f { value = f.value ++ (line ++ crlf) } ∷ fields)

unfoldable pub add_field : Bytes → List Field → Result MessageError (List Field)
add_field line fields = elim (cut_colon line) [
  | none ↦ err malformed
  | some (name, body) ↦
      if not (valid_field_name name) || contains_header_controls body
      then err malformed
      else if leb max_header_fields (length fields)
      then err field_count
      else ok (record { name = to_lower_ascii name; value = line ++ crlf } ∷ fields)
]

-- One round of the loop for a line without its CRLF.
unfoldable pub add_line : Bytes → List Field → Result MessageError (List Field)
add_line line fields = if is_fold line then add_fold line fields else add_field line fields

abbrev pub reverse_onto : List Field → List Field → List Field
reverse_onto [] out = out
reverse_onto (f ∷ fs) out = reverse_onto fs (f ∷ out)

-- The loop over what is left of the header: `none` means that the fuel ran out.
unfoldable pub scan_from : ℕ → Bytes → List Field → Option (Result MessageError (List Field))
scan_from fuel [] fields = some (ok (reverse_onto fields []))
scan_from zero (c ∷ rest) fields = none
scan_from (suc fuel) (c ∷ rest) fields = elim (cut_line (c ∷ rest)) [
  | none ↦ some (err malformed)
  | some (line, after) ↦ elim (add_line line fields) [
    | err e ↦ some (err e)
    | ok fields' ↦ scan_from fuel after fields'
  ]
]

-- scan: each round takes a byte at least.
unfoldable pub scan : Bytes → Option (Result MessageError (List Field))
scan header = scan_from (length header) header []

unfoldable pub first_field : List Field → Bytes → Option Field
first_field [] name = none
first_field (f ∷ fs) name =
    let later = first_field fs name in if str_eq f.name name then some f else later

-- bytes.ReplaceAll of CRLF by nothing.
unfoldable pub unfold_lines : Bytes → Bytes
unfold_lines [] = []
unfold_lines (c ∷ []) = c ∷ []
unfold_lines (c ∷ d ∷ rest) = elim (c == 13 && d == 10) [
  | true ↦ unfold_lines rest
  | false ↦ c ∷ unfold_lines (d ∷ rest)
]

-- field.text
unfoldable pub text : Field → Bytes
text f = elim (cut_colon f.value) [ none ↦ [] | some (name, body) ↦ trim_space (unfold_lines body) ]

abbrev pub last_byte : Bytes → ℕ
last_byte [] = 0
last_byte (c ∷ []) = c
last_byte (c ∷ d ∷ s) = last_byte (d ∷ s)

abbrev pub first_byte : Bytes → ℕ
first_byte [] = 0
first_byte (c ∷ s) = c

unfoldable pub valid_inner : Bytes → Bool
valid_inner inner = elim (last_index_byte inner b'@') [
  | none ↦ false
  | some at ↦
      not (at == 0) && not (at + 1 == length inner) && all (λ c. ltb 32 c && ltb c 127) inner
]

unfoldable pub valid_message_id : Bytes → Bool
valid_message_id value =
    let v = trim_space value in
    if ltb (length v) 5 || not (first_byte v == b'<') || not (last_byte v == b'>')
    then false
    else valid_inner (take (length v - 2) (drop 1 v))
