-- ===== src/Message/Trace.antt =====
-- internal/message/message.go: the texts that Prepare puts into the Received field.
pub mod Clean
use outboxd.Common.{
  ℕ, zero, suc, ◌+◌, Bool, true, false, not, ◌&&◌, ◌||◌, Bytes, codes, List, [], ◌∷◌, ◌++◌, length,
  leb, ltb, ◌==◌, if◌then◌else◌,
}
use outboxd.Common.Strings.{is_empty}
use outboxd.Common.Utf8.{runes}

abbrev pub max_trace_length : ℕ
max_trace_length = 128

abbrev pub is_traced : ℕ → Bool
is_traced c = not (ltb c 33 || ltb 126 c || c == b'(' || c == b')' || c == b'\\')

-- The loop over the runes after `written` bytes: what it writes is ASCII.
unfoldable pub trace_from : ℕ → List ℕ → Bytes
trace_from written [] = []
trace_from written (c ∷ cs) = elim (leb max_trace_length written) [
  | true ↦ []
  | false ↦ elim (is_traced c) [
    | true ↦ c ∷ trace_from (written + 1) cs
    | false ↦ trace_from written cs
  ]
]

unfoldable pub trace_value : Bytes → Bytes
trace_value value =
    let written = trace_from 0 (runes value) in
    if is_empty written then codes "unknown" else written

unfoldable pub protocol : Bytes → Bytes
protocol state = if is_empty state then codes "ESMTPA" else codes "ESMTPSA"

abbrev is_angle : ℕ → Bool
is_angle c = c == b'<' || c == b'>'

-- strings.Trim of angle brackets.
unfoldable pub trim_left_angles : Bytes → Bytes
trim_left_angles [] = []
trim_left_angles (c ∷ s) = let rest = trim_left_angles s in if is_angle c then rest else c ∷ s

unfoldable pub trim_right_angles : Bytes → Bytes
trim_right_angles [] = []
trim_right_angles (c ∷ s) =
    let rest = trim_right_angles s in if is_empty rest && is_angle c then [] else c ∷ rest

unfoldable pub trim_angles : Bytes → Bytes
trim_angles s = trim_right_angles (trim_left_angles s)
