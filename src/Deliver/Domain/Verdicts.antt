-- ===== src/Deliver/Domain/Verdicts.antt =====
-- When internal/deliver/domain.go fails the recipients for good.
use outboxd.Common.{
  ◌≡◌, Bool, true, false, not, ◌&&◌, ◌||◌, Bytes, Option, none, some, List, [], ◌∷◌, arith, refl,
  ap, if◌then◌else◌,
}
use outboxd.Deliver.Domain.{
  SendError, smtp_utf8_unsupported, eight_bit_unsupported, private_destination, other_error, Step,
  canceled, done, unfinished, fails, hosts, Verdict, rejected, deferred, Seen, or_first, error_text,
  nothing_seen, note_error, is_private, conclude, try_hosts, domain,
}

abbrev pub is_rejected : Verdict → Bool
is_rejected (rejected t) = true
is_rejected _ = false

-- A missing extension, and an error that is permanent.
abbrev pub capability : Step → Bool
capability (fails smtp_utf8_unsupported) = true
capability (fails eight_bit_unsupported) = true
capability _ = false

abbrev pub permanent : Step → Bool
permanent (fails (other_error t)) = false
permanent (fails e) = true
permanent _ = false

abbrev pub all : (Step → Bool) → List Step → Bool
all p [] = true
all p (s ∷ rest) = p s && all p rest

-- The first error of a list, where the steps are all permanent.
abbrev first_private : Option SendError → List Step → Bool
first_private (some e) steps = is_private (some e)
first_private none (fails (private_destination t) ∷ rest) = true
first_private none _ = false

abbrev pub some_step : List Step → Bool
some_step [] = false
some_step _ = true

abbrev rejects_from : Seen → List Step → Bool
rejects_from s steps =
    ((s.eligible || some_step steps)
      && s.capability_only
      && all capability steps
      && (s.no_utf8 || s.no_eight_bit || some_step steps))
    || (not s.retryable && all permanent steps && first_private s.last steps)

abbrev pub starts_private : List Step → Bool
starts_private (fails (private_destination t) ∷ rest) = true
starts_private _ = false

abbrev pub is_deferred : Verdict → Bool
is_deferred (deferred e) = true
is_deferred _ = false

-- The loop ends at the step.
abbrev pub some_stop : List Step → Bool
some_stop [] = false
some_stop (canceled ∷ rest) = true
some_stop (done ∷ rest) = true
some_stop (_ ∷ rest) = some_stop rest

-- Each candidate lacks a required extension; or each fails with a missing extension or a private
-- address, the first one with a private address.
abbrev pub refuses_all : List Step → Bool
refuses_all steps =
    (some_step steps && all capability steps) || (all permanent steps && starts_private steps)

-- After a private address and a missing extension, other permanent failures change nothing: the
-- first error decides.
try_hosts-permanent :
    (rest : List Step) (s : Seen) (e : SendError)
    → all permanent rest ≡ true
    → s.last ≡ some e
    → s.capability_only ≡ false
    → s.retryable ≡ false
    → try_hosts rest s
      ≡ (if is_private (some e) then rejected (error_text (some e)) else deferred e)
unfolding try_hosts note_error conclude
try_hosts-permanent [] s e h l c r = rw (l, c, r) (ground arith)
try_hosts-permanent (canceled ∷ rest) s e h l c r = ground arith
try_hosts-permanent (done ∷ rest) s e h l c r = ground arith
try_hosts-permanent (unfinished ∷ rest) s e h l c r = ground arith
try_hosts-permanent (fails smtp_utf8_unsupported ∷ rest) s e h l c r =
    try_hosts-permanent rest (note_error smtp_utf8_unsupported s) e h
      (ap (λ o. or_first o smtp_utf8_unsupported) l) c r
try_hosts-permanent (fails eight_bit_unsupported ∷ rest) s e h l c r =
    try_hosts-permanent rest (note_error eight_bit_unsupported s) e h
      (ap (λ o. or_first o eight_bit_unsupported) l) c r
try_hosts-permanent (fails (private_destination t) ∷ rest) s e h l c r =
    try_hosts-permanent rest (note_error (private_destination t) s) e h
      (ap (λ o. or_first o (private_destination t)) l) refl r
try_hosts-permanent (fails (other_error t) ∷ rest) s e h l c r = ground arith

-- Where the first two candidates are one with a private address and one without SMTPUTF8, and all
-- others fail with a private address or a missing extension, the order decides: with the private
-- address first `domain` fails the recipients for good, with that address as the reason, and with it
-- second it returns the missing extension as a temporary error.
pub domain-mixed :
    (t : Bytes) (rest : List Step)
    → all permanent rest ≡ true
    → (domain (hosts (fails (private_destination t) ∷ fails smtp_utf8_unsupported ∷ rest))
        ≡ rejected t)
      × (domain (hosts (fails smtp_utf8_unsupported ∷ fails (private_destination t) ∷ rest))
          ≡ deferred smtp_utf8_unsupported)
unfolding domain try_hosts note_error
domain-mixed t rest h = (
  try_hosts-permanent rest
      (note_error smtp_utf8_unsupported (note_error (private_destination t) nothing_seen))
      (private_destination t) h refl refl refl,
  try_hosts-permanent rest
      (note_error (private_destination t) (note_error smtp_utf8_unsupported nothing_seen))
      smtp_utf8_unsupported h refl refl refl,
)
