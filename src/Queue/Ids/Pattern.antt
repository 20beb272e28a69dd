-- ===== src/Queue/Ids/Pattern.antt =====
-- internal/queue/identity.go: which identifiers ValidateID accepts.
use Prim.{absurd}
use outboxd.Common.{
  ℕ, ◌*◌, ◌/◌, ◌%◌, ◌<◌, true, false, ◌||◌, Bytes, codes, none, [], ◌∷◌, ◌++◌, length, ◌==◌, ◌≡◌,
  inl, inr, refl, sym, ap, ◌∙◌, arith, Bool-cases, str_eq, str_eq_refl, All,
}
use outboxd.Common.Strings.{
  all, is_alphanumeric, contains_byte, has_prefix, last_index_byte, split_at_byte, hex_digit,
  hex_encode,
}
use outboxd.Queue.Ids.{
  validate_id, matches_id_pattern, is_id_byte, slash, base, clean, clean_parts, clean_step,
  join_reversed, drop_trailing_slashes, dsn_id, dsn_text,
}

-- A text without a slash.
abbrev NoSlash : Bytes → Type 0
NoSlash s = contains_byte s slash ≡ false

id_bytes-without :
    (s : Bytes) (b : ℕ) → is_id_byte b ≡ false → all is_id_byte s ≡ true → contains_byte s b ≡ false
unfolding contains_byte
id_bytes-without [] b hb h = refl
id_bytes-without (c ∷ s) b hb h = elim (Bool-cases (c == b)) [
  | inl e ↦ absurd (let q : c ≡ b = ground arith in ground arith)
  | inr e ↦ rw e (id_bytes-without s b hb (ground arith))
]

drop_trailing_slashes-NoSlash : (s : Bytes) → NoSlash s → drop_trailing_slashes s ≡ s
unfolding drop_trailing_slashes contains_byte
drop_trailing_slashes-NoSlash [] h = refl
drop_trailing_slashes-NoSlash (c ∷ s) h = ground (arith, drop_trailing_slashes-NoSlash s)

last_index_byte-NoSlash : (s : Bytes) → NoSlash s → last_index_byte s slash ≡ none
unfolding last_index_byte contains_byte
last_index_byte-NoSlash [] h = refl
last_index_byte-NoSlash (c ∷ s) h = ground (arith, last_index_byte-NoSlash s)

split-NoSlash : (s : Bytes) → NoSlash s → split_at_byte s slash ≡ s ∷ []
unfolding split_at_byte contains_byte
split-NoSlash [] h = refl
split-NoSlash (c ∷ s) h = ground (arith, split-NoSlash s)

base-NoSlash : (c : ℕ) (s : Bytes) → NoSlash (c ∷ s) → base (c ∷ s) ≡ c ∷ s
unfolding base
base-NoSlash c s h =
    ground (arith, drop_trailing_slashes-NoSlash (c ∷ s) h, last_index_byte-NoSlash (c ∷ s) h)

append-nil' : (s : Bytes) → s ++ [] ≡ s
append-nil' [] = refl
append-nil' (c ∷ s) = ap (λ t. c ∷ t) (append-nil' s)

clean-NoSlash :
    (c : ℕ) (s : Bytes) → is_alphanumeric c ≡ true → NoSlash (c ∷ s) → clean (c ∷ s) ≡ c ∷ s
unfolding clean clean_parts clean_step join_reversed str_eq has_prefix
clean-NoSlash c s a h = rw (split-NoSlash (c ∷ s) h) (ground (arith, append-nil' s))

not_dots :
    (c : ℕ) (s : Bytes)
    → is_alphanumeric c ≡ true
    → (str_eq (c ∷ s) (codes ".") || str_eq (c ∷ s) (codes "..")) ≡ false
unfolding str_eq
not_dots c s a = ground arith

not_absolute :
    (c : ℕ) (s : Bytes) → is_alphanumeric c ≡ true → has_prefix (c ∷ s) (codes "/") ≡ false
unfolding has_prefix
not_absolute c s a = ground arith

pattern_parts :
    (c : ℕ) (s : Bytes)
    → matches_id_pattern (c ∷ s) ≡ true
    → (is_alphanumeric c ≡ true) × (all is_id_byte s ≡ true)
unfolding matches_id_pattern
pattern_parts c s m = (ground arith, ground arith)

matched-validate_id :
    (c : ℕ) (s : Bytes)
    → matches_id_pattern (c ∷ s) ≡ true
    → is_alphanumeric c ≡ true
    → all is_id_byte s ≡ true
    → validate_id (c ∷ s) ≡ true
unfolding validate_id
matched-validate_id c s m a bytes =
    let no_slash = id_bytes-without (c ∷ s) slash refl (rw bytes (ground arith)) in
    let no_backslash = id_bytes-without (c ∷ s) b'\\' refl (rw bytes (ground arith)) in
    rw
      (
        m,
        not_dots c s a,
        no_slash,
        no_backslash,
        base-NoSlash c s no_slash,
        str_eq_refl (c ∷ s),
        not_absolute c s a,
        clean-NoSlash c s a no_slash,
      )
      (str_eq_refl (c ∷ s))

-- ValidateID accepts exactly the texts that its pattern matches: none that the pattern lets through
-- contains a separator, is a dot entry or changes under filepath.Base or filepath.Clean.
pub validate_id-pattern : (id : Bytes) → validate_id id ≡ matches_id_pattern id
unfolding validate_id
validate_id-pattern [] = unfold matches_id_pattern in refl
validate_id-pattern (c ∷ s) = elim (Bool-cases (matches_id_pattern (c ∷ s))) [
  | inl m ↦ matched-validate_id c s m (pattern_parts c s m).0 (pattern_parts c s m).1 ∙ sym m
  | inr m ↦ rw m refl
]

hex_digit-id_byte : (n : ℕ) → n < 16 → is_id_byte (hex_digit n) ≡ true
hex_digit-id_byte n h = ground arith

all-hex_encode : (s : Bytes) → All (λ b. b < 256) s → all is_id_byte (hex_encode s) ≡ true
unfolding hex_encode
all-hex_encode [] h = refl
all-hex_encode (b ∷ s) h =
    rw (hex_digit-id_byte (b / 16) (omega (arith, h.0)), hex_digit-id_byte (b % 16) (omega arith))
      (all-hex_encode s h.1)

length-hex_encode : (s : Bytes) → length (hex_encode s) ≡ 2 * length s
unfolding hex_encode
length-hex_encode [] = refl
length-hex_encode (b ∷ s) = omega (arith, length-hex_encode s)

-- DSNID returns an identifier that ValidateID accepts, for every source, incarnation and generation,
-- where the hash returns 32 bytes.
pub validate_id-dsn_id :
    (sha256 : Bytes → Bytes) (source incarnation : Bytes) (generation : ℕ)
    → ((text : Bytes) → (length (sha256 text) ≡ 32) × All (λ b. b < 256) (sha256 text))
    → validate_id (dsn_id sha256 source incarnation generation) ≡ true
unfolding dsn_id matches_id_pattern
validate_id-dsn_id sha256 source incarnation generation hash =
    let text = dsn_text source incarnation generation in
    let digest = hex_encode (sha256 text) in
    let bytes = all-hex_encode (sha256 text) (hash text).1 in
    let short : length digest ≡ 64 =
      omega (arith, length-hex_encode (sha256 text), (hash text).0) in
    validate_id-pattern (codes "dsn." ++ digest) ∙ (rw (bytes, short) refl)
