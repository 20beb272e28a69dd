-- ===== src/Common/Utf8.antt =====
-- UTF-8 as Go's `unicode/utf8` and `range` over a string read it: a byte that begins no valid
-- sequence is the rune U+FFFD of width 1.
use Prim.Native.Nat.{ℕ, zero, suc, ◌+◌, ◌-◌, ◌*◌}
use mathlib.Core.Bool.{Bool, true, ◌&&◌, ◌||◌, not}
use mathlib.Core.List.{List, [], ◌∷◌}
use outboxd.Common.Tests.{ltb, leb, ◌==◌, if◌then◌else◌}
use outboxd.Common.Text.{Bytes}
use outboxd.Common.Strings.{all, any}

abbrev pub rune_error : ℕ
rune_error = 0xFFFD

abbrev pub within : ℕ → ℕ → ℕ → Bool
within lo hi c = leb lo c && leb c hi

abbrev pub is_continuation : ℕ → Bool
is_continuation c = within 0x80 0xBF c

-- The second byte's range depends on the first: no overlong form, surrogate or value past U+10FFFF.
abbrev pub accepts_second : ℕ → ℕ → Bool
accepts_second first second =
    if first == 0xE0
    then within 0xA0 0xBF second
    else if first == 0xED
    then within 0x80 0x9F second
    else if first == 0xF0
    then within 0x90 0xBF second
    else if first == 0xF4
    then within 0x80 0x8F second
    else is_continuation second

abbrev pub invalid_rune : ℕ × ℕ
invalid_rune = (rune_error, 1)

abbrev pub decode_two : ℕ → Bytes → ℕ × ℕ
decode_two a (b ∷ _) = if is_continuation b then ((a - 0xC0) * 64 + (b - 0x80), 2) else invalid_rune
decode_two a _ = invalid_rune

abbrev pub decode_three : ℕ → Bytes → ℕ × ℕ
decode_three a (b ∷ c ∷ _) =
    if accepts_second a b && is_continuation c
    then ((a - 0xE0) * 4096 + (b - 0x80) * 64 + (c - 0x80), 3)
    else invalid_rune
decode_three a _ = invalid_rune

abbrev pub decode_four : ℕ → Bytes → ℕ × ℕ
decode_four a (b ∷ c ∷ d ∷ _) =
    if accepts_second a b && is_continuation c && is_continuation d
    then ((a - 0xF0) * 262144 + (b - 0x80) * 4096 + (c - 0x80) * 64 + (d - 0x80), 4)
    else invalid_rune
decode_four a _ = invalid_rune

-- utf8.DecodeRune of a text that begins with `a`: the rune and its width.
unfoldable pub decode_rune : ℕ → Bytes → ℕ × ℕ
decode_rune a s =
    if ltb a 0x80
    then (a, 1)
    else if within 0xC2 0xDF a
    then decode_two a s
    else if within 0xE0 0xEF a
    then decode_three a s
    else if within 0xF0 0xF4 a
    then decode_four a s
    else invalid_rune

-- The runes after the first `skip` bytes.
unfoldable pub runes_after : ℕ → Bytes → List ℕ
runes_after skip [] = []
runes_after (suc skip) (c ∷ s) = runes_after skip s
runes_after zero (c ∷ s) = let (rune, width) = decode_rune c s in rune ∷ runes_after (width - 1) s

unfoldable pub runes : Bytes → List ℕ
runes s = runes_after 0 s

unfoldable pub valid_after : ℕ → Bytes → Bool
valid_after skip [] = true
valid_after (suc skip) (c ∷ s) = valid_after skip s
valid_after zero (c ∷ s) =
    let (rune, width) = decode_rune c s in
    let rest = valid_after (width - 1) s in not (width == 1 && rune == rune_error) && rest

-- utf8.ValidString
unfoldable pub valid_utf8 : Bytes → Bool
valid_utf8 s = valid_after 0 s

-- unicode.IsSpace
abbrev pub is_space : ℕ → Bool
is_space r =
    within 9 13 r
    || r == 32
    || r == 0x85
    || r == 0xA0
    || r == 0x1680
    || within 0x2000 0x200A r
    || within 0x2028 0x2029 r
    || r == 0x202F
    || r == 0x205F
    || r == 0x3000

-- unicode.IsControl, or one of the categories Cf, Zl and Zp.
abbrev pub is_display_control : ℕ → Bool
is_display_control r =
    ltb r 0x20
    || within 0x7F 0x9F r
    || within 0x2028 0x2029 r
    || r == 0xAD
    || within 0x600 0x605 r
    || r == 0x61C
    || r == 0x6DD
    || r == 0x70F
    || within 0x890 0x891 r
    || r == 0x8E2
    || r == 0x180E
    || within 0x200B 0x200F r
    || within 0x202A 0x202E r
    || within 0x2060 0x2064 r
    || within 0x2066 0x206F r
    || r == 0xFEFF
    || within 0xFFF9 0xFFFB r
    || r == 0x110BD
    || r == 0x110CD
    || within 0x13430 0x1343F r
    || within 0x1BCA0 0x1BCA3 r
    || within 0x1D173 0x1D17A r
    || r == 0xE0001
    || within 0xE0020 0xE007F r

-- `s` begins at the end of what is dropped; the runes are white space.
unfoldable pub trim_left_after : ℕ → Bytes → Bytes
trim_left_after skip [] = []
trim_left_after (suc skip) (c ∷ s) = trim_left_after skip s
trim_left_after zero (c ∷ s) =
    let (rune, width) = decode_rune c s in
    let rest = trim_left_after (width - 1) s in if is_space rune then rest else c ∷ s

unfoldable pub trim_right_after : ℕ → Bytes → Bytes
trim_right_after skip [] = []
trim_right_after (suc skip) (c ∷ s) = c ∷ trim_right_after skip s
trim_right_after zero (c ∷ s) =
    let (rune, width) = decode_rune c s in
    let rest = trim_right_after (width - 1) s in
    if all is_space (runes_after 0 (c ∷ s)) then [] else c ∷ rest

-- strings.TrimSpace
unfoldable pub trim_space : Bytes → Bytes
trim_space s = trim_right_after 0 (trim_left_after 0 s)

-- Some byte is above 0x7F: addressHasNonASCII and ascii of the program.
unfoldable pub has_high_bit : Bytes → Bool
has_high_bit s = any (leb 0x80) s
