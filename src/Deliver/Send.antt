-- ===== src/Deliver/Send.antt =====
-- internal/deliver/send.go: one transaction with the host of a candidate, from the connection to the
-- reply to the body. What the peer answers and what the queue reads are parameters.
pub mod Fates
pub mod Replies
pub mod Outcomes
mod Tests
use outboxd.Common.{
  ℕ, zero, suc, ◌+◌, Bool, true, false, not, ◌&&◌, ◌||◌, Bytes, codes, Option, none, some, List, [],
  ◌∷◌, ◌++◌, length, get_elem?, set, min, ltb, ◌==◌, if◌then◌else◌,
}
use outboxd.Common.Result.{Result, ok, err}
use outboxd.Common.Strings.{is_empty}
use outboxd.Queue.Envelope.{
  Envelope, Recipient, sent, failed, is_pending, message_size, message_eight_bit,
}
use outboxd.Queue.Ids.{decimal}
use outboxd.Deliver.Response.{smtp_code, smtp_enhanced_code, permanent}
use outboxd.Deliver.Connect.{Failure, reply, transport, as_smtp, Client, ConnectError, extension}
use outboxd.Deliver.Diagnostic.{normalize_diagnostic, describe_reply}

-- The errors of send, with `temporary_rcpt` for its list of temporary failures.
pub data SendFailure : Type 0 where
  not_connected : ConnectError → SendFailure
  smtp_utf8_unsupported eight_bit_unsupported : SendFailure
  peer_failed : Failure → SendFailure
  temporary_rcpt : List Bytes → SendFailure
  open_failed : Bytes → SendFailure
  body_too_short body_too_long : ℕ → SendFailure

pub data Outcome : Type 0 where
  -- true, nil
  done : Outcome
  -- false and an error
  fails : SendFailure → Outcome

-- What the transaction meets. `rcpt_reply` answers for the recipient at an index.
pub record Peer : Type 0 where
  pub session : Result ConnectError Client
  pub mail_reply : Bytes → Option Failure
  -- An error of writing the commands of a batch.
  pub batch_write : Option Bytes
  pub rcpt_reply : ℕ → Option Failure
  pub open_error : Option Bytes
  pub data_reply : Option Failure
  -- The length of the body as it is read, and an error of copying it.
  pub body_length : ℕ
  pub copy_error : Option Bytes
  pub final_reply : Result Failure Bytes

-- describe
unfoldable pub describe : Failure → Bytes
describe (reply e) = describe_reply e
describe (transport text) = normalize_diagnostic text

-- Client.Mail: its command, or the extension that it misses.
unfoldable pub mail_command : Client → Bytes → ℕ → Bool → Bool → Result SendFailure Bytes
mail_command c from size utf8 eight_bit =
    let start = codes "MAIL FROM:<" ++ (from ++ codes ">") in
    let body = if eight_bit then codes " BODY=8BITMIME" else [] in
    let sized =
      if ltb 0 size && extension c (codes "SIZE") then codes " SIZE=" ++ decimal size else [] in
    let international = if utf8 then codes " SMTPUTF8" else [] in
    if eight_bit && not (extension c (codes "8BITMIME"))
    then err eight_bit_unsupported
    else if utf8 && not (extension c (codes "SMTPUTF8"))
    then err smtp_utf8_unsupported
    else ok (start ++ (body ++ (sized ++ international)))

unfoldable pub modify_at : List Recipient → ℕ → (Recipient → Recipient) → List Recipient
modify_at [] i f = []
modify_at (r ∷ rs) zero f = f r ∷ rs
modify_at (r ∷ rs) (suc i) f = r ∷ modify_at rs i f

unfoldable pub reject_recipient : Failure → Recipient → Recipient
reject_recipient f r = record r {
  status = failed;
  detail = describe f;
  code = smtp_code (as_smtp f);
  enhanced_code = smtp_enhanced_code (as_smtp f);
}

-- rejectSMTP
unfoldable pub reject_smtp : List Recipient → List ℕ → Failure → List Recipient
reject_smtp rs [] f = rs
reject_smtp rs (i ∷ is) f = reject_smtp (modify_at rs i (reject_recipient f)) is f

-- The indexes of the recipients that are pending.
unfoldable pub pending_indexes : List Recipient → List ℕ → List ℕ
pending_indexes rs [] = []
pending_indexes rs (i ∷ is) =
    let rest = pending_indexes rs is in
    elim (get_elem? rs i) [ none ↦ rest | some r ↦ if is_pending r.status then i ∷ rest else rest ]

-- The replies to RCPT in order, and an error of the whole batch.
unfoldable pub rcpt_each : Peer → List ℕ → List (ℕ × Option Failure)
rcpt_each p [] = []
rcpt_each p (i ∷ is) = (i, p.rcpt_reply i) ∷ rcpt_each p is

abbrev pub is_transport : Option Failure → Bool
is_transport none = false
is_transport (some f) = smtp_code (as_smtp f) == 0

-- The replies that RcptBatch reads: none follows an error of the transport.
unfoldable pub rcpt_batch : Peer → List ℕ → List (ℕ × Option Failure) × Option Failure
rcpt_batch p [] = ([], none)
rcpt_batch p (i ∷ is) =
    let (results, failure) = rcpt_batch p is in
    if is_transport (p.rcpt_reply i)
    then ((i, p.rcpt_reply i) ∷ [], p.rcpt_reply i)
    else ((i, p.rcpt_reply i) ∷ results, failure)

unfoldable pub rcpt_all : Peer → Client → List ℕ → List (ℕ × Option Failure) × Option Failure
rcpt_all p c pending =
    if extension c (codes "PIPELINING") && ltb 1 (length pending)
    then elim p.batch_write [
      | some text ↦ ([], some (transport text))
      | none ↦ rcpt_batch p pending
    ]
    else (rcpt_each p pending, none)

-- The loop over the results: the recipients, the accepted indexes and the temporary failures.
pub record Progress : Type 0 where
  pub recipients : List Recipient
  pub accepted : List ℕ
  pub temporary : List Bytes

abbrev pub address_at : List Recipient → ℕ → Bytes
address_at rs i = elim (get_elem? rs i) [ none ↦ [] | some r ↦ r.address ]

abbrev pub set_detail : Failure → Recipient → Recipient
set_detail f r = record r { detail = describe f }

unfoldable pub note_result : ℕ → Option Failure → Progress → Progress
note_result i none s = record s { accepted = s.accepted ++ i ∷ [] }
note_result i (some f) s =
    if permanent (as_smtp f)
    then record s { recipients = reject_smtp s.recipients (i ∷ []) f }
    else record s {
      recipients = modify_at s.recipients i (set_detail f);
      temporary = s.temporary ++ (address_at s.recipients i ++ (codes ": " ++ describe f)) ∷ [];
    }

unfoldable pub note_results : List (ℕ × Option Failure) → Progress → Progress
note_results [] s = s
note_results ((i, result) ∷ results) s = note_results results (note_result i result s)

abbrev pub temporary_outcome : List Bytes → Outcome
temporary_outcome [] = done
temporary_outcome (t ∷ ts) = fails (temporary_rcpt (t ∷ ts))

unfoldable pub mark_sent : List Recipient → List ℕ → Bytes → List Recipient
mark_sent rs [] detail = rs
mark_sent rs (i ∷ is) detail =
    mark_sent (modify_at rs i (λ r. record r { status = sent; detail = detail })) is detail

-- A negative reply to MAIL, DATA or the body: permanent ones settle the recipients.
unfoldable pub refuse : List Recipient → List ℕ → Failure → List Recipient × Outcome
refuse rs indexes f =
    if permanent (as_smtp f) then (reject_smtp rs indexes f, done) else (rs, fails (peer_failed f))

-- io.Copy from the reader that is limited to one byte more than the size.
abbrev pub written : Peer → ℕ → ℕ
written p size = min p.body_length (size + 1)

-- From the opening of the body on.
unfoldable pub send_body : Peer → Bytes → ℕ → Progress → List Recipient × Outcome
send_body p host size s = elim p.open_error [
  | some text ↦ (s.recipients, fails (open_failed text))
  | none ↦ elim p.data_reply [
    | some f ↦ refuse s.recipients s.accepted f
    | none ↦ elim p.copy_error [
      | some text ↦ (s.recipients, fails (peer_failed (transport text)))
      | none ↦
          if ltb (written p size) size
          then (s.recipients, fails (body_too_short (written p size)))
          else if ltb size (written p size)
          then (s.recipients, fails (body_too_long (written p size)))
          else elim p.final_reply [
            | err f ↦ refuse s.recipients s.accepted f
            | ok text ↦ (
              mark_sent s.recipients s.accepted
                  (normalize_diagnostic (host ++ (codes ": " ++ text))),
              temporary_outcome s.temporary,
            )
          ]
    ]
  ]
]

-- From RCPT on.
unfoldable pub send_rcpt :
    Peer → Client → Bytes → ℕ → List Recipient → List ℕ → List Recipient × Outcome
send_rcpt p c host size rs indexes =
    let (results, batch) = rcpt_all p c (pending_indexes rs indexes) in
    let s = note_results results (record { recipients = rs; accepted = []; temporary = [] }) in
    elim batch [
      | some f ↦ (s.recipients, fails (peer_failed f))
      | none ↦ elim s.accepted [
        | [] ↦ (s.recipients, temporary_outcome s.temporary)
        | _ ∷ _ ↦ send_body p host size s
      ]
    ]

-- send for a message of `size` bytes: the recipients after it and what it returns.
unfoldable pub transact : Peer → Bytes → Envelope → ℕ → Bool → List ℕ → List Recipient × Outcome
transact p host e size eight_bit indexes = elim p.session [
  | err f ↦ (e.recipients, fails (not_connected f))
  | ok c ↦
      if e.smtp_utf8 && not (extension c (codes "SMTPUTF8"))
      then (e.recipients, fails smtp_utf8_unsupported)
      else if eight_bit && not (extension c (codes "8BITMIME"))
      then (e.recipients, fails eight_bit_unsupported)
      else elim (mail_command c e.sender size e.smtp_utf8 eight_bit) [
        | err f ↦ (e.recipients, fails f)
        | ok command ↦ elim (p.mail_reply command) [
          | some f ↦ refuse e.recipients indexes f
          | none ↦ send_rcpt p c host size e.recipients indexes
        ]
      ]
]

-- send; an index out of range panics, and the caller gives at least one: `none`.
unfoldable pub send : Peer → Bytes → Envelope → List ℕ → Option (List Recipient × Outcome)
send p host e [] = none
send p host e (i ∷ is) = elim (message_size e i) [
  | none ↦ none
  | some size ↦ elim (message_eight_bit e i) [
    | none ↦ none
    | some eight_bit ↦ some (transact p host e size eight_bit (i ∷ is))
  ]
]
