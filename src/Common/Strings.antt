-- ===== src/Common/Strings.antt =====
-- The functions of Go's `strings` and `encoding/hex` that the program uses. An index is `none` where
-- Go returns -1.
use Prim.Native.Nat.{ℕ, zero, suc, ◌+◌, ◌-◌, ◌*◌, ◌/◌, ◌%◌}
use mathlib.Core.Path.{◌≡◌, refl, ap, ◌∙◌}
use mathlib.Core.Bool.{Bool, true, false, ◌&&◌, ◌||◌}
use mathlib.Core.List.{List, [], ◌∷◌, ◌++◌}
use mathlib.Core.Option.{Option, none, some}
use native.Mathlib.Omega.{arith}
use outboxd.Common.Tests.{◌==◌, ltb, leb, if◌then◌else◌}
use outboxd.Common.Lists.{length}
use outboxd.Common.Text.{Bytes, str_eq}

module _ {ℓ} {A : Type ℓ} where
  abbrev pub take : ℕ → List A → List A
  take zero xs = []
  take (suc n) [] = []
  take (suc n) (x ∷ xs) = x ∷ take n xs

  abbrev pub drop : ℕ → List A → List A
  drop zero xs = xs
  drop (suc n) [] = []
  drop (suc n) (x ∷ xs) = drop n xs

  take-nil : (n : ℕ) → take n [] ≡ []
  take-nil zero = refl
  take-nil (suc n) = refl

  drop-nil : (n : ℕ) → drop n [] ≡ []
  drop-nil zero = refl
  drop-nil (suc n) = refl

  pub take-drop-append :
      (s m n : ℕ) (xs : List A)
      → take m (drop s xs) ++ take n (drop (s + m) xs) ≡ take (m + n) (drop s xs)
  take-drop-append zero zero n xs = let e : 0 + n ≡ n = omega arith in rw e refl
  take-drop-append zero (suc m) n [] =
      let e : 0 + suc m ≡ suc m = omega arith in
      rw (e, drop-nil (suc m), take-nil n, take-nil (suc m + n)) refl
  take-drop-append zero (suc m) n (x ∷ xs) =
      let e : 0 + suc m ≡ suc m = omega arith in
      let f : suc m + n ≡ suc (m + n) = omega arith in
      let g : m ≡ 0 + m = omega arith in
      rw (e, f)
        (ap (λ ys. x ∷ ys)
          (ap (λ k. take m xs ++ take n (drop k xs)) g ∙ take-drop-append zero m n xs))
  take-drop-append (suc s) m n [] =
      rw (take-nil m, drop-nil (suc s + m), take-nil n, take-nil (m + n)) refl
  take-drop-append (suc s) m n (x ∷ xs) =
      let e : suc s + m ≡ suc (s + m) = omega arith in rw e (take-drop-append s m n xs)

  pub take-length : (xs : List A) → take (length xs) xs ≡ xs
  take-length [] = refl
  take-length (x ∷ xs) = ap (λ ys. x ∷ ys) (take-length xs)

-- Every element passes, or some does.
module _ {ℓ} {A : Type ℓ} where
  abbrev pub all : (A → Bool) → List A → Bool
  all p [] = true
  all p (x ∷ xs) = p x && all p xs

  abbrev pub any : (A → Bool) → List A → Bool
  any p [] = false
  any p (x ∷ xs) = p x || any p xs

abbrev pub is_empty {ℓ} : {A : Type ℓ} → List A → Bool
is_empty [] = true
is_empty (_ ∷ _) = false

unfoldable pub has_prefix : Bytes → Bytes → Bool
has_prefix s [] = true
has_prefix [] (p ∷ ps) = false
has_prefix (c ∷ s) (p ∷ ps) = c == p && has_prefix s ps

unfoldable pub has_suffix : Bytes → Bytes → Bool
has_suffix [] p = str_eq [] p
has_suffix (c ∷ s) p = str_eq (c ∷ s) p || has_suffix s p

unfoldable pub contains : Bytes → Bytes → Bool
contains [] sub = is_empty sub
contains (c ∷ s) sub = has_prefix (c ∷ s) sub || contains s sub

unfoldable pub contains_byte : Bytes → ℕ → Bool
contains_byte [] b = false
contains_byte (c ∷ s) b = c == b || contains_byte s b

unfoldable pub last_index_byte : Bytes → ℕ → Option ℕ
last_index_byte [] b = none
last_index_byte (c ∷ s) b = elim (last_index_byte s b) [
  | some i ↦ some (suc i)
  | none ↦ if c == b then some 0 else none
]

abbrev pub cons_head : ℕ → List Bytes → List Bytes
cons_head c [] = (c ∷ []) ∷ []
cons_head c (part ∷ parts) = (c ∷ part) ∷ parts

-- strings.Split at a separator of one byte.
unfoldable pub split_at_byte : Bytes → ℕ → List Bytes
split_at_byte [] b = [] ∷ []
split_at_byte (c ∷ s) b =
    let parts = split_at_byte s b in if c == b then [] ∷ parts else cons_head c parts

abbrev pub is_digit : ℕ → Bool
is_digit c = leb b'0' c && leb c b'9'

abbrev pub is_lower : ℕ → Bool
is_lower c = leb b'a' c && leb c b'z'

abbrev pub is_upper : ℕ → Bool
is_upper c = leb b'A' c && leb c b'Z'

abbrev pub is_alphanumeric : ℕ → Bool
is_alphanumeric c = is_lower c || is_upper c || is_digit c

-- strings.ToLower of an ASCII text.
abbrev pub lower : ℕ → ℕ
lower c = if is_upper c then c + 32 else c

unfoldable pub to_lower_ascii : Bytes → Bytes
to_lower_ascii [] = []
to_lower_ascii (c ∷ s) = lower c ∷ to_lower_ascii s

-- strings.TrimSuffix at a dot
unfoldable pub trim_dot : Bytes → Bytes
trim_dot [] = []
trim_dot (c ∷ s) = let rest = trim_dot s in if is_empty s && c == b'.' then [] else c ∷ rest

-- The value of a hexadecimal digit.
abbrev pub hex_value : ℕ → Option ℕ
hex_value c =
    if is_digit c
    then some (c - b'0')
    else if leb b'a' c && leb c b'f'
    then some (c - 87)
    else if leb b'A' c && leb c b'F'
    then some (c - 55)
    else none

abbrev pub hex_byte : Option ℕ → Option ℕ → Option Bytes → Option Bytes
hex_byte (some high) (some low) (some rest) = some ((high * 16 + low) ∷ rest)
hex_byte _ _ _ = none

-- hex.DecodeString, `none` where it returns an error.
unfoldable pub hex_decode : Bytes → Option Bytes
hex_decode [] = some []
hex_decode (_ ∷ []) = none
hex_decode (a ∷ b ∷ s) = hex_byte (hex_value a) (hex_value b) (hex_decode s)

abbrev pub hex_digit : ℕ → ℕ
hex_digit n = if ltb n 10 then b'0' + n else 87 + n

-- hex.EncodeToString
unfoldable pub hex_encode : Bytes → Bytes
hex_encode [] = []
hex_encode (b ∷ s) = hex_digit (b / 16) ∷ hex_digit (b % 16) ∷ hex_encode s

abbrev pub is_hex_string : Bytes → Bool
is_hex_string s = elim (hex_decode s) [ none ↦ false | some _ ↦ true ]

pub is_empty-cases : (s : Bytes) → is_empty s ≡ true → s ≡ []
is_empty-cases [] h = refl
is_empty-cases (c ∷ s) h = ground arith
