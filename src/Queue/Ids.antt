-- ===== src/Queue/Ids.antt =====
-- internal/queue/identity.go: the identifiers of queued messages. The hash (crypto/sha256) is a
-- parameter. A path is read as filepath reads it on Unix; the pattern excludes both separators.
pub mod Pattern
mod Tests
use outboxd.Common.{
  ℕ, zero, suc, ◌+◌, ◌/◌, ◌%◌, Bool, true, false, not, ◌&&◌, ◌||◌, Bytes, codes, str_eq, Option,
  none, some, List, [], ◌∷◌, ◌++◌, length, leb, ltb, ◌==◌, if◌then◌else◌,
}
use outboxd.Common.Strings.{
  all, is_empty, is_alphanumeric, contains_byte, has_prefix, last_index_byte, drop, split_at_byte,
  hex_encode,
}

abbrev pub slash : ℕ
slash = b'/'

abbrev pub is_id_byte : ℕ → Bool
is_id_byte c = is_alphanumeric c || c == b'.' || c == b'_' || c == b'-'

-- ^[A-Za-z0-9][A-Za-z0-9._-]{0,190}$
unfoldable pub matches_id_pattern : Bytes → Bool
matches_id_pattern [] = false
matches_id_pattern (c ∷ s) = is_alphanumeric c && all is_id_byte s && leb (length s) 190

unfoldable pub drop_trailing_slashes : Bytes → Bytes
drop_trailing_slashes [] = []
drop_trailing_slashes (c ∷ s) =
    let rest = drop_trailing_slashes s in if c == slash && is_empty rest then [] else c ∷ rest

-- filepath.Base
unfoldable pub base : Bytes → Bytes
base path =
    let trimmed = drop_trailing_slashes path in
    if is_empty path
    then codes "."
    else if is_empty trimmed
    then codes "/"
    else elim (last_index_byte trimmed slash) [ none ↦ trimmed | some i ↦ drop (i + 1) trimmed ]

-- The elements that filepath.Clean has kept, the last one first.
unfoldable pub clean_step : Bool → List Bytes → Bytes → List Bytes
clean_step rooted kept part =
    if is_empty part || str_eq part (codes ".")
    then kept
    else if not (str_eq part (codes ".."))
    then part ∷ kept
    else elim kept [
      | [] ↦ if rooted then [] else part ∷ []
      | top ∷ rest ↦ if str_eq top (codes "..") then part ∷ top ∷ rest else rest
    ]

unfoldable pub clean_parts : Bool → List Bytes → List Bytes → List Bytes
clean_parts rooted kept [] = kept
clean_parts rooted kept (part ∷ parts) = clean_parts rooted (clean_step rooted kept part) parts

-- Joined by slashes, from the last element to the first.
unfoldable pub join_reversed : List Bytes → Bytes → Bytes
join_reversed [] tail = tail
join_reversed (part ∷ []) tail = part ++ tail
join_reversed (part ∷ more ∷ rest) tail = join_reversed (more ∷ rest) (slash ∷ part ++ tail)

-- filepath.Clean
unfoldable pub clean : Bytes → Bytes
clean path =
    let rooted = has_prefix path (codes "/") in
    let joined = join_reversed (clean_parts rooted [] (split_at_byte path slash)) [] in
    if rooted then slash ∷ joined else if is_empty joined then codes "." else joined

-- ValidateID returns no error.
unfoldable pub validate_id : Bytes → Bool
validate_id id =
    if is_empty id || not (matches_id_pattern id)
    then false
    else if str_eq id (codes ".")
        || str_eq id (codes "..")
        || contains_byte id slash
        || contains_byte id b'\\'
    then false
    else if not (str_eq (base id) id) || has_prefix id (codes "/")
    then false
    else str_eq (clean id) id

-- The decimal digits of a number below 10 to the power of the fuel, before `tail`.
unfoldable pub decimal_digits : ℕ → ℕ → Bytes → Bytes
decimal_digits zero n tail = tail
decimal_digits (suc fuel) n tail =
    let digits = decimal_digits fuel (n / 10) ((b'0' + n % 10) ∷ tail) in
    if ltb n 10 then (b'0' + n) ∷ tail else digits

-- A uint64 has at most twenty digits.
unfoldable pub decimal : ℕ → Bytes
unfolding decimal_digits
decimal n = decimal_digits 20 n []

-- "outboxd-dsn-v1\x00%s\x00%s\x00%d"
unfoldable pub dsn_text : Bytes → Bytes → ℕ → Bytes
dsn_text source incarnation generation =
    codes "outboxd-dsn-v1" ++ 0 ∷ (source ++ 0 ∷ (incarnation ++ 0 ∷ decimal generation))

unfoldable pub dsn_id : (Bytes → Bytes) → Bytes → Bytes → ℕ → Bytes
dsn_id sha256 source incarnation generation =
    codes "dsn." ++ hex_encode (sha256 (dsn_text source incarnation generation))

-- newIncarnation of sixteen random bytes
unfoldable pub new_incarnation : Bytes → Bytes
new_incarnation token = hex_encode token
