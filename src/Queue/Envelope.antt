-- ===== src/Queue/Envelope.antt =====
-- internal/queue/envelope.go: the metadata of a queued message. A time is a number of nanoseconds.
-- Sizes, codes, indexes and counters are natural numbers: validateEnvelope refuses an envelope in
-- which one of them is negative.
use outboxd.Common.{
  ℕ, ◌+◌, Bool, true, false, Bytes, Option, none, some, List, [], ◌∷◌, length, get_elem?,
  if◌then◌else◌,
}

-- A status is a string; `unset` is the empty one.
pub data Status : Type 0 where
  pending sent failed unset : Status
  other_status : Bytes → Status

pub record Body : Type 0 where
  pub offset : ℕ
  pub size : ℕ
  pub digest : Bytes
  pub eight_bit : Bool

pub record Recipient : Type 0 where
  pub address : Bytes
  pub domain : Bytes
  pub body : ℕ
  pub status : Status
  pub detail : Bytes
  pub code : ℕ
  pub enhanced_code : Bytes

pub record Envelope : Type 0 where
  pub id : Bytes
  pub incarnation : Bytes
  pub revision : ℕ
  pub username : Bytes
  pub sender : Bytes
  pub recipients : List Recipient
  pub bodies : List Body
  pub size : ℕ
  pub created : ℕ
  pub attempts : ℕ
  pub next_attempt : ℕ
  pub last_error : Bytes
  pub smtp_utf8 : Bool
  pub eight_bit : Bool
  pub body_digest : Bytes
  pub dsn_id : Bytes
  pub dsn_source_id : Bytes
  pub dsn_source_incarnation : Bytes
  pub dsn_source_revision : ℕ
  pub dsn_generation : ℕ
  pub preferred_domain : Bytes

abbrev pub is_pending : Status → Bool
is_pending pending = true
is_pending _ = false

abbrev pub is_sent : Status → Bool
is_sent sent = true
is_sent _ = false

abbrev pub is_failed : Status → Bool
is_failed failed = true
is_failed _ = false

unfoldable pub count_status : (Status → Bool) → List Recipient → ℕ
count_status p [] = 0
count_status p (r ∷ rs) = (if p r.status then 1 else 0) + count_status p rs

-- Envelope.Pending and Envelope.Failed
unfoldable pub pending_count : Envelope → ℕ
unfolding count_status
pending_count e = count_status is_pending e.recipients

unfoldable pub failed_count : Envelope → ℕ
unfolding count_status
failed_count e = count_status is_failed e.recipients

-- e.Bodies[e.Recipients[recipient].Body], where an index out of range panics: `none`.
unfoldable pub body_of : Envelope → ℕ → Option Body
body_of e recipient = elim (get_elem? e.recipients recipient) [
  | none ↦ none
  | some r ↦ get_elem? e.bodies r.body
]

unfoldable pub message_size : Envelope → ℕ → Option ℕ
unfolding body_of
message_size e recipient = elim e.bodies [
  | [] ↦ some e.size
  | _ ∷ _ ↦ elim (body_of e recipient) [ none ↦ none | some b ↦ some b.size ]
]

unfoldable pub message_eight_bit : Envelope → ℕ → Option Bool
unfolding body_of
message_eight_bit e recipient = elim e.bodies [
  | [] ↦ some e.eight_bit
  | _ ∷ _ ↦ elim (body_of e recipient) [ none ↦ none | some b ↦ some b.eight_bit ]
]

-- NewBody; `digest` is bodyDigest, a hash that the model takes as a parameter.
unfoldable pub new_body : (Bytes → Bytes) → ℕ → Bytes → Bool → Body
new_body digest offset bytes eight_bit = record {
  offset = offset;
  size = length bytes;
  digest = digest bytes;
  eight_bit = eight_bit;
}
