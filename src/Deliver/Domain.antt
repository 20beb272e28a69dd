-- ===== src/Deliver/Domain.antt =====
-- internal/deliver/domain.go: what becomes of the recipients at one domain, from the lookup of its
-- hosts and what `send` returns for each of them. What the connection does is `Step`'s business: the
-- list of steps is what the candidates would give, in order.
pub mod Verdicts
mod Tests
use outboxd.Common.{
  ℕ, Bool, true, false, not, ◌&&◌, ◌||◌, Bytes, Option, none, some, List, [], ◌∷◌, ◌++◌,
  if◌then◌else◌, codes,
}

-- The errors that the loop tells apart with errors.Is, and any other one with its text.
pub data SendError : Type 0 where
  smtp_utf8_unsupported eight_bit_unsupported : SendError
  private_destination : Bytes → SendError
  other_error : Bytes → SendError

pub data Step : Type 0 where
  -- The context is canceled before the candidate, or while waiting for global capacity.
  canceled : Step
  -- send settles every recipient that was pending, each one sent or failed by a reply (Send).
  done : Step
  -- send returns no error and settles nothing.
  unfinished : Step
  fails : SendError → Step

pub data Lookup : Type 0 where
  null_mx no_such_domain : Bytes → Lookup
  lookup_failed : Bytes → Lookup
  hosts : List Step → Lookup

pub data Verdict : Type 0 where
  settled : Verdict
  -- d.reject: a permanent failure of every recipient, with its detail.
  rejected : Bytes → Verdict
  -- An error: the recipients stay pending.
  deferred : SendError → Verdict
  interrupted : Verdict

pub record Seen : Type 0 where
  pub last : Option SendError
  pub eligible : Bool
  pub retryable : Bool
  pub capability_only : Bool
  pub no_utf8 : Bool
  pub no_eight_bit : Bool

abbrev pub nothing_seen : Seen
nothing_seen = record {
  last = none;
  eligible = false;
  retryable = false;
  capability_only = true;
  no_utf8 = false;
  no_eight_bit = false;
}

abbrev pub utf8_text : Bytes
utf8_text = codes "destination does not support SMTPUTF8"

abbrev pub eight_bit_text : Bytes
eight_bit_text = codes "destination does not support 8BITMIME"

unfoldable pub capability_detail : Bool → Bool → Bytes
capability_detail need_utf8 need_eight =
    if need_utf8 && need_eight
    then utf8_text ++ codes "; " ++ eight_bit_text
    else if need_utf8
    then utf8_text
    else if need_eight
    then eight_bit_text
    else codes "required SMTP capability missing"

-- `if last == nil { last = err }`
abbrev pub or_first : Option SendError → SendError → Option SendError
or_first none e = some e
or_first (some l) e = some l

-- The loop body after a send that returns the error.
unfoldable pub note_error : SendError → Seen → Seen
note_error smtp_utf8_unsupported s = record s {
  eligible = true;
  no_utf8 = true;
  last = or_first s.last smtp_utf8_unsupported;
}
note_error eight_bit_unsupported s = record s {
  eligible = true;
  no_eight_bit = true;
  last = or_first s.last eight_bit_unsupported;
}
note_error (private_destination t) s = record s {
  eligible = true;
  capability_only = false;
  last = or_first s.last (private_destination t);
}
note_error (other_error t) s = record s {
  eligible = true;
  capability_only = false;
  retryable = true;
  last = some (other_error t);
}

abbrev pub is_private : Option SendError → Bool
is_private (some (private_destination t)) = true
is_private _ = false

-- err.Error(), where errors.Is has found one.
abbrev pub error_text : Option SendError → Bytes
error_text none = []
error_text (some smtp_utf8_unsupported) = utf8_text
error_text (some eight_bit_unsupported) = eight_bit_text
error_text (some (private_destination t)) = t
error_text (some (other_error t)) = t

abbrev or_no_host : Option SendError → SendError
or_no_host none = other_error (codes "no usable MX host")
or_no_host (some e) = e

unfoldable pub conclude : Seen → Verdict
unfolding capability_detail
conclude s =
    if s.eligible && s.capability_only && (s.no_utf8 || s.no_eight_bit)
    then rejected (capability_detail s.no_utf8 s.no_eight_bit)
    else if not s.retryable && is_private s.last
    then rejected (error_text s.last)
    else deferred (or_no_host s.last)

unfoldable pub try_hosts : List Step → Seen → Verdict
try_hosts [] s = conclude s
try_hosts (canceled ∷ rest) s = interrupted
try_hosts (done ∷ rest) s = settled
try_hosts (unfinished ∷ rest) s =
    try_hosts rest (record s { capability_only = false; retryable = true })
try_hosts (fails e ∷ rest) s = try_hosts rest (note_error e s)

unfoldable pub domain : Lookup → Verdict
unfolding try_hosts
domain (null_mx text) = rejected text
domain (no_such_domain text) = rejected text
domain (lookup_failed text) = deferred (other_error text)
domain (hosts steps) = try_hosts steps nothing_seen
