-- ===== src/Mailbox/Labels.antt =====
-- internal/mailbox/mailbox.go: a domain whose labels are not empty has no dot at an end and no two in
-- a row, and one of ASCII letters, digits, hyphens and dots is valid UTF-8 without white space.
use outboxd.Common.{
  ℕ, Bool, true, false, ◌||◌, Bytes, codes, str_eq, List, [], ◌∷◌, ltb, ◌==◌, ◌≡◌, ◌⊎◌, inl, inr,
  refl, ap, ◌∙◌, arith, Bool-cases,
}
use outboxd.Common.Strings.{
  all, any, is_empty, has_prefix, has_suffix, contains, split_at_byte, cons_head, is_alphanumeric,
  to_lower_ascii,
}
use outboxd.Common.Utf8.{
  valid_utf8, valid_after, trim_space, trim_left_after, trim_right_after, runes_after, decode_rune,
  is_space,
}
use outboxd.Mailbox.{is_bad_label}

abbrev pub dot : ℕ
dot = b'.'

abbrev pub is_domain_byte : ℕ → Bool
is_domain_byte c = is_alphanumeric c || c == b'-' || c == dot

-- The labels after the first.
abbrev later_labels : List Bytes → List Bytes
later_labels [] = []
later_labels (l ∷ ls) = ls

abbrev has_empty_label : List Bytes → Bool
has_empty_label ls = any is_empty ls

has_empty-later :
    (ls : List Bytes) → has_empty_label (later_labels ls) ≡ true → has_empty_label ls ≡ true
has_empty-later [] h = h
has_empty-later (l ∷ ls) h = ground arith

later-cons_head :
    (c : ℕ) (ls : List Bytes)
    → has_empty_label (later_labels (cons_head c ls)) ≡ has_empty_label (later_labels ls)
later-cons_head c [] = refl
later-cons_head c (l ∷ ls) = refl

prefix-has_empty :
    (s : Bytes) → has_prefix s (codes ".") ≡ true → has_empty_label (split_at_byte s dot) ≡ true
unfolding has_prefix split_at_byte
prefix-has_empty [] h = cc
prefix-has_empty (c ∷ s) h = ground arith

later-split :
    (c : ℕ) (s : Bytes)
    → has_empty_label (later_labels (split_at_byte s dot)) ≡ true
    → has_empty_label (later_labels (split_at_byte (c ∷ s) dot)) ≡ true
unfolding split_at_byte
later-split c s h = elim (Bool-cases (c == dot)) [
  | inl e ↦ rw e (has_empty-later (split_at_byte s dot) h)
  | inr e ↦ rw e (later-cons_head c (split_at_byte s dot) ∙ h)
]

suffix_step :
    (c d : ℕ) (s : Bytes)
    → has_suffix (c ∷ d ∷ s) (codes ".") ≡ true
    → has_suffix (d ∷ s) (codes ".") ≡ true
unfolding has_suffix str_eq
suffix_step c d s h = ground arith

suffix_end : (c : ℕ) → has_suffix (c ∷ []) (codes ".") ≡ true → c ≡ dot
unfolding has_suffix str_eq
suffix_end c h = ground arith

suffix-has_empty :
    (s : Bytes)
    → has_suffix s (codes ".") ≡ true
    → has_empty_label (later_labels (split_at_byte s dot)) ≡ true
suffix-has_empty [] h = unfold has_suffix str_eq in cc
suffix-has_empty (c ∷ []) h = rw (suffix_end c h) (unfold split_at_byte in refl)
suffix-has_empty (c ∷ d ∷ s) h =
    later-split c (d ∷ s) (suffix-has_empty (d ∷ s) (suffix_step c d s h))

contains_step :
    (c : ℕ) (s : Bytes)
    → contains (c ∷ s) (codes "..") ≡ true
    → ((c ≡ dot) × (has_prefix s (codes ".") ≡ true)) ⊎ (contains s (codes "..") ≡ true)
unfolding contains has_prefix
contains_step c s h = elim (Bool-cases (contains s (codes ".."))) [
  | inl e ↦ inr e
  | inr e ↦ inl (ground arith, ground arith)
]

contains-has_empty :
    (s : Bytes)
    → contains s (codes "..") ≡ true
    → has_empty_label (later_labels (split_at_byte s dot)) ≡ true
contains-has_empty [] h = unfold contains in cc
contains-has_empty (c ∷ s) h = elim (contains_step c s h) [
  | inl (e, next) ↦ rw e (unfold split_at_byte in prefix-has_empty s next)
  | inr later ↦ later-split c s (contains-has_empty s later)
]

empty-is_bad : (ls : List Bytes) → has_empty_label ls ≡ true → any is_bad_label ls ≡ true
empty-is_bad [] h = h
empty-is_bad (l ∷ ls) h = ground (arith, empty-is_bad ls)

abbrev misplaced_dot : Bytes → Bool
misplaced_dot s = has_prefix s (codes ".") || has_suffix s (codes ".") || contains s (codes "..")

-- Where no label is empty, no dot is misplaced.
pub labels-dots :
    (s : Bytes) → any is_bad_label (split_at_byte s dot) ≡ false → misplaced_dot s ≡ false
labels-dots s h =
    let parts = split_at_byte s dot in
    ground (
      arith,
      prefix-has_empty s,
      suffix-has_empty s,
      contains-has_empty s,
      empty-is_bad parts,
      has_empty-later parts,
    )

decode-ascii : (c : ℕ) (s : Bytes) → is_domain_byte c ≡ true → decode_rune c s ≡ (c, 1)
unfolding decode_rune
decode-ascii c s h = let lt : ltb c 0x80 ≡ true = ground arith in rw lt refl

domain_byte-space : (c : ℕ) → is_domain_byte c ≡ true → is_space c ≡ false
domain_byte-space c h = ground arith

valid-domain : (s : Bytes) → all is_domain_byte s ≡ true → valid_after 0 s ≡ true
unfolding valid_after
valid-domain [] h = refl
valid-domain (c ∷ s) h =
    let hc : is_domain_byte c ≡ true = ground arith in
    let hs : all is_domain_byte s ≡ true = ground arith in
    let ne : (c == 0xFFFD) ≡ false = ground arith in
    rw (decode-ascii c s hc, ne) (valid-domain s hs)

trim_right-domain : (s : Bytes) → all is_domain_byte s ≡ true → trim_right_after 0 s ≡ s
unfolding trim_right_after runes_after
trim_right-domain [] h = refl
trim_right-domain (c ∷ s) h =
    let hc : is_domain_byte c ≡ true = ground arith in
    let hs : all is_domain_byte s ≡ true = ground arith in
    rw (decode-ascii c s hc, domain_byte-space c hc) (ap (λ t. c ∷ t) (trim_right-domain s hs))

-- A text of domain bytes is valid UTF-8, and strings.TrimSpace leaves it as it is.
pub domain-valid_utf8 : (s : Bytes) → all is_domain_byte s ≡ true → valid_utf8 s ≡ true
unfolding valid_utf8
domain-valid_utf8 s h = valid-domain s h

pub trim_space-domain : (s : Bytes) → all is_domain_byte s ≡ true → trim_space s ≡ s
unfolding trim_space trim_left_after
trim_space-domain [] h = unfold trim_right_after in refl
trim_space-domain (c ∷ s) h =
    let hc : is_domain_byte c ≡ true = ground arith in
    rw (decode-ascii c s hc, domain_byte-space c hc) (trim_right-domain (c ∷ s) h)

pub to_lower-twice : (s : Bytes) → to_lower_ascii (to_lower_ascii s) ≡ to_lower_ascii s
unfolding to_lower_ascii
to_lower-twice [] = refl
to_lower-twice (c ∷ s) = ground (arith, to_lower-twice s)

pub to_lower-domain :
    (s : Bytes) → all is_domain_byte s ≡ true → all is_domain_byte (to_lower_ascii s) ≡ true
unfolding to_lower_ascii
to_lower-domain [] h = refl
to_lower-domain (c ∷ s) h = ground (arith, to_lower-domain s)
