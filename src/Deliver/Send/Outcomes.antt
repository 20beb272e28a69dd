-- ===== src/Deliver/Send/Outcomes.antt =====
-- internal/deliver/send.go: the recipients after a whole transaction.
use outboxd.Common.{
  ℕ, Bool, true, false, not, ◌&&◌, Bytes, codes, some, List, [], ◌∷◌, ltb, ◌≡◌, inl, inr, subst,
  arith, Bool-cases, Option-cases, List-cases,
}
use outboxd.Common.Result.{Result-cases}
use outboxd.Queue.Envelope.{Envelope, Recipient, message_size, message_eight_bit}
use outboxd.Deliver.Response.{permanent}
use outboxd.Deliver.Connect.{Failure, as_smtp, Client, extension}
use outboxd.Deliver.Send.{
  Peer, Outcome, Progress, pending_indexes, rcpt_all, note_results, refuse, written, send_body,
  send_rcpt, transact, send, mail_command,
}
use outboxd.Deliver.Send.Fates.{
  among, Replied, to_mail, to_data, to_body, HaveFates, before-HaveFates, reject_smtp-HaveFates,
  mark_sent-HaveFates,
}
use outboxd.Deliver.Send.Replies.{
  Progresses, note_results-Progresses, pending_indexes-AreTargets, rcpt_all-AreReplies,
}

module _ (p : Peer) (size : ℕ) (before : List Recipient) (indexes : List ℕ) where
  refuse-HaveFates :
      (rs : List Recipient) (is : List ℕ) (f : Failure)
      → ((j : ℕ) → among j is ≡ true → (among j indexes ≡ true) × Replied p size before indexes j f)
      → HaveFates p size before indexes rs
      → HaveFates p size before indexes (refuse rs is f).0
  unfolding refuse
  refuse-HaveFates rs is f why h = elim (Bool-cases (permanent (as_smtp f))) [
    | inl e ↦ rw (refuse, e) (reject_smtp-HaveFates p size before indexes rs is f e why h)
    | inr e ↦ rw (refuse, e) h
  ]

  written-whole :
      ltb (written p size) size ≡ false → ltb size (written p size) ≡ false → p.body_length ≡ size
  written-whole low high = ground arith

  send_body-HaveFates :
      (host : Bytes) (s : Progress)
      → Progresses p size before indexes s
      → HaveFates p size before indexes (send_body p host size s).0
  unfolding send_body
  send_body-HaveFates host s (h, taken) = elim (Option-cases p.open_error) [
    | inr (text, e) ↦ simp (send_body, e) h
    | inl opened ↦ elim (Option-cases p.data_reply) [
      | inr (f, e) ↦
          simp (send_body, opened, e)
            (refuse-HaveFates s.recipients s.accepted f
              (λ j m. let (known, took, _) = taken j m in (known, to_data took e)) h)
      | inl started ↦ elim (Option-cases p.copy_error) [
        | inr (text, e) ↦ simp (send_body, opened, started, e) h
        | inl copied ↦ elim (Bool-cases (ltb (written p size) size)) [
          | inl e ↦ simp (send_body, opened, started, copied, e) h
          | inr low ↦ elim (Bool-cases (ltb size (written p size))) [
            | inl e ↦ simp (send_body, opened, started, copied, low, e) h
            | inr high ↦ elim (Result-cases p.final_reply) [
              | inr (f, e) ↦
                  simp (send_body, opened, started, copied, low, high, e)
                    (refuse-HaveFates s.recipients s.accepted f
                      (λ j m. let (known, took, _) = taken j m in (known, to_body took e)) h)
              | inl (text, e) ↦
                  simp (send_body, opened, started, copied, low, high, e)
                    (mark_sent-HaveFates p size before indexes s.recipients s.accepted _ taken
                      (opened, started, copied, written-whole low high, (text, e)) h)
            ]
          ]
        ]
      ]
    ]
  ]

  send_rcpt-HaveFates :
      (c : Client) (host : Bytes)
      → HaveFates p size before indexes (send_rcpt p c host size before indexes).0
  unfolding send_rcpt
  send_rcpt-HaveFates c host =
      let waiting = pending_indexes before indexes in
      let (results, batch) = rcpt_all p c waiting in
      let s =
        note_results results (record { recipients = before; accepted = []; temporary = [] }) in
      let progressed =
        note_results-Progresses p size before indexes results
          (record { recipients = before; accepted = []; temporary = [] })
          (rcpt_all-AreReplies p size before indexes c waiting
            (pending_indexes-AreTargets p size before indexes indexes (λ j m. m)))
          (before-HaveFates p size before indexes, λ j m. cc) in
      elim (Option-cases batch) [
        | inr (f, e) ↦ rw (send_rcpt, e) progressed.0
        | inl e ↦ elim (List-cases s.accepted) [
          | inl none_left ↦ rw (send_rcpt, e, none_left) progressed.0
          | inr (i, is, some_left) ↦
              rw (send_rcpt, e, some_left) (send_body-HaveFates host s progressed)
        ]
      ]

transact-HaveFates :
    (p : Peer) (host : Bytes) (e : Envelope) (size : ℕ) (eight_bit : Bool) (indexes : List ℕ)
    → HaveFates p size e.recipients indexes (transact p host e size eight_bit indexes).0
unfolding transact
transact-HaveFates p host e size eight_bit indexes =
    let same = before-HaveFates p size e.recipients indexes in
    elim (Result-cases p.session) [
      | inr (f, s) ↦ simp (transact, s) same
      | inl (c, s) ↦ elim (Bool-cases (e.smtp_utf8 && not (extension c (codes "SMTPUTF8")))) [
        | inl u ↦ simp (transact, s, u) same
        | inr u ↦ elim (Bool-cases (eight_bit && not (extension c (codes "8BITMIME")))) [
          | inl b ↦ simp (transact, s, u, b) same
          | inr b ↦ elim (Result-cases (mail_command c e.sender size e.smtp_utf8 eight_bit)) [
            | inr (f, m) ↦ simp (transact, s, u, b, m) same
            | inl (command, m) ↦ elim (Option-cases (p.mail_reply command)) [
              | inr (f, r) ↦
                  simp (transact, s, u, b, m, r)
                    (refuse-HaveFates p size e.recipients indexes e.recipients indexes f
                      (λ j known. (known, to_mail command r)) same)
              | inl r ↦
                  simp (transact, s, u, b, m, r)
                    (send_rcpt-HaveFates p size e.recipients indexes c host)
            ]
          ]
        ]
      ]
    ]

-- Whatever one transaction for some recipients of an envelope leaves as the recipient at an index,
-- there was a recipient at this index before, and one of three things holds. Its status is the one
-- it had. Or it is sent: it was pending and among them, the peer accepted it and the body, and the
-- body that was read had the size of the recipient's message. Or it is failed: it was among them,
-- with the code of a permanent reply that the peer gave to the sender, to this recipient, or, where
-- this recipient was accepted, to the body.
pub send-HaveFates :
    (p : Peer) (host : Bytes) (e : Envelope) (i : ℕ) (is : List ℕ) (after : List Recipient)
    (outcome : Outcome)
    → send p host e (i ∷ is) ≡ some (after, outcome)
    → (size : ℕ) × (message_size e i ≡ some size) × HaveFates p size e.recipients (i ∷ is) after
unfolding send
send-HaveFates p host e i is after outcome h = elim (Option-cases (message_size e i)) [
  | inl n ↦ ground arith
  | inr (size, n) ↦ elim (Option-cases (message_eight_bit e i)) [
    | inl b ↦ ground arith
    | inr (eight_bit, b) ↦
        let same : transact p host e size eight_bit (i ∷ is) ≡ (after, outcome) = ground arith in
        (
          size,
          n,
          subst (λ out. HaveFates p size e.recipients (i ∷ is) out.0) same
              (transact-HaveFates p host e size eight_bit (i ∷ is)),
        )
  ]
]
