-- ===== src/Smtpd/Submission/Settled.antt =====
-- internal/smtpd/data.go: how a Data call ends.
use Prim.{absurd}
use outboxd.Common.{
  ℕ, ◌<◌, Bool, true, false, not, ◌&&◌, ◌||◌, Bytes, none, some, List, [], ◌∷◌, length, ltb, ◌≡◌,
  ◌⊎◌, inl, inr, refl, ap, arith, if◌then◌else◌, Bool-cases,
}
use outboxd.Common.Result.{Result, ok, err, Result-cases}
use outboxd.Common.Strings.{is_empty}
use outboxd.Config.Senders.{allows}
use outboxd.Mailbox.{domain_of}
use outboxd.Queue.Envelope.{Envelope, Body}
use outboxd.Smtpd.Session.{Session, Reply, invalid_recipient}
use outboxd.Smtpd.Variants.{prepare_variants}
use outboxd.Smtpd.Variants.Sealed.{Served}
use outboxd.Smtpd.Variants.Prepared.{prepare_variants-Laid}
use outboxd.Message.Prepare.{Message}
use outboxd.Message.Prepare.Kept.{prepare-nonempty}
use outboxd.Smtpd.Submission.{
  Backend, Stop, replies, closes, index_out_of_range, process, prepared, prepare_options, build,
  check_message, make_recipients, first_eight_bit, or_stop, stop_if, stop_at, prepare_reply,
  sign_reply, variant_reply, AddError, add_reply, after_prepare, before_signing, after_signing,
  after_variants, before_add, after_add, temporary_failure, submit, queue_full, no_recipients,
  data_busy, submission_rate, is_seven_bit, not_seven_bit, utf8_required, from_not_allowed,
  sender_header_not_allowed, finish, Outcome, Queued, nothing, holds, may_hold,
}
use outboxd.Smtpd.Submission.Envelopes.{or_stop_ok}
use outboxd.Smtpd.Submission.Delivered.{seal-filled, prepared-parts}
use outboxd.Smtpd.Submission.Runs.{
  Runs, Runs-bind, Runs-or_stop, prepare_reply-Answers, sign_reply-Answers, variant_reply-Answers,
  Runs-stop_at, Runs-stop_if, stops-Runs,
}

-- What the call leaves in the queue after an error of the queue.
abbrev pub left_by : AddError → Envelope × Bytes → Queued
left_by f q = if f.acceptance_unknown then may_hold q else nothing

-- The replies before the message is read, and whether Data closes the connection.
abbrev pub IsTurnedAway : Reply → Bool → Type 0
IsTurnedAway r closed =
    ((r ≡ no_recipients) × (closed ≡ false))
    ⊎ (((r ≡ data_busy) ⊎ (r ≡ submission_rate)) × (closed ≡ true))

-- How a Data call may end, where `made` is what it hands to the queue.
pub data Settled (d : Backend) (made : Result Stop (Envelope × Bytes)) (o : Outcome) : Type 0 where
  accepted :
      (q : Envelope × Bytes)
      → made ≡ ok q
      → d.add q.0 q.1 ≡ ok tt
      → o.reply ≡ none
      → o.queued ≡ holds q
      → o.closed ≡ d.expired after_add
      → Settled d made o
  not_added :
      (q : Envelope × Bytes) (f : AddError)
      → made ≡ ok q
      → d.add q.0 q.1 ≡ err f
      → o.reply ≡ some (replies (if f.no_room then queue_full else temporary_failure))
      → o.queued ≡ left_by f q
      → o.closed ≡ d.expired after_add
      → Settled d made o
  turned_away :
      (r : Reply)
      → IsTurnedAway r o.closed
      → o.reply ≡ some (replies r)
      → o.queued ≡ nothing
      → Settled d made o
  refused :
      (r : Reply)
      → made ≡ err (replies r)
      → o.reply ≡ some (replies r)
      → o.queued ≡ nothing
      → o.closed ≡ false
      → Settled d made o
  timed_out :
      (r : Reply)
      → made ≡ err (closes r)
      → o.reply ≡ some (closes r)
      → o.queued ≡ nothing
      → o.closed ≡ true
      → Settled d made o

finish-Settled :
    (d : Backend) (made : Result Stop (Envelope × Bytes))
    → Runs made
    → Settled d made (finish d made)
unfolding finish
finish-Settled d (err (replies r)) h = refused r refl refl refl refl
finish-Settled d (err (closes r)) h = timed_out r refl refl refl refl
finish-Settled d (err index_out_of_range) h = absurd h
finish-Settled d (ok (e, stored)) h = elim (Result-cases (d.add e stored)) [
  | inl (tt, added) ↦
      let same : finish d (ok (e, stored))
          ≡ record { reply = none; queued = holds (e, stored); closed = d.expired after_add } =
        rw (finish, added) refl in
      accepted (e, stored) refl added (ap (λ (o : Outcome). o.reply) same)
        (ap (λ (o : Outcome). o.queued) same) (ap (λ (o : Outcome). o.closed) same)
  | inr (f, failed) ↦
      let same : finish d (ok (e, stored)) ≡ record {
        reply = some (replies (add_reply f));
        queued = left_by f (e, stored);
        closed = d.expired after_add;
      } =
        rw (finish, failed) refl in
      not_added (e, stored) f refl failed (ap (λ (o : Outcome). o.reply) same)
        (ap (λ (o : Outcome). o.queued) same) (ap (λ (o : Outcome). o.closed) same)
]

module _ (d : Backend)
    (signed : (from text out : Bytes) (did_sign : Bool)
      → 0 < length text
      → d.sign from text ≡ ok (out, did_sign)
      → 0 < length out)
    (encrypted : (r key t u : Bytes)
      → 0 < length t
      → d.makers.encrypt r key t ≡ ok (some u)
      → 0 < length u) where
  recipients-Runs :
      (from text : Bytes) (eight_bit : Bool) (bodies : List Body) (stored : Bytes) (rs : List Bytes)
      (is : List ℕ)
      → Served d.makers from text eight_bit bodies stored rs is
      → Runs (make_recipients d.server.to_ascii rs is)
  unfolding make_recipients
  recipients-Runs from text eight_bit bodies stored [] is h = tt
  recipients-Runs from text eight_bit bodies stored (r ∷ rs) [] h = absurd h
  recipients-Runs from text eight_bit bodies stored (r ∷ rs) (i ∷ is) h =
      Runs-bind (or_stop (λ _. replies invalid_recipient) (domain_of d.server.to_ascii r)) _
        (Runs-or_stop (λ _. replies invalid_recipient) (domain_of d.server.to_ascii r) (λ _. tt))
        (λ domain _.
          Runs-bind (make_recipients d.server.to_ascii rs is) _
            (recipients-Runs from text eight_bit bodies stored rs is h.1) (λ rest _. tt))

  first-Runs :
      (from text : Bytes) (eight_bit : Bool) (bodies : List Body) (stored : Bytes) (rs : List Bytes)
      (is : List ℕ)
      → is_empty rs ≡ false
      → Served d.makers from text eight_bit bodies stored rs is
      → Runs (first_eight_bit bodies)
  first-Runs from text eight_bit bodies stored [] is e h = cc
  first-Runs from text eight_bit bodies stored (r ∷ rs) [] e h = absurd h
  first-Runs from text eight_bit [] stored (r ∷ rs) (i ∷ is) e ((key, hk, held), rest) =
      let at = held.at in cc
  first-Runs from text eight_bit (b ∷ bs) stored (r ∷ rs) (i ∷ is) e h = tt

  build-Runs :
      (s : Session) (msg : Message) (text : Bytes) (eight_bit : Bool)
      → 0 < length text
      → is_empty s.recipients ≡ false
      → Runs (build d s msg text eight_bit)
  unfolding build
  build-Runs s msg text eight_bit full some_recipient =
      let variants = prepare_variants d.makers msg.from text s.recipients eight_bit in
      let reply = variant_reply (d.expired after_variants) in
      Runs-bind (or_stop reply variants) _
        (Runs-or_stop reply variants (variant_reply-Answers (d.expired after_variants)))
        (λ b hb.
          let laid =
            prepare_variants-Laid d.makers msg.from text eight_bit
              (seal-filled d.makers text encrypted full) s.recipients b
              (or_stop_ok reply variants b hb) in
          Runs-bind (first_eight_bit b.bodies) _
            (first-Runs msg.from text eight_bit b.bodies b.bytes s.recipients b.indexes
              some_recipient laid.served)
            (λ first _.
              Runs-bind (make_recipients d.server.to_ascii s.recipients b.indexes) _
                (recipients-Runs msg.from text eight_bit b.bodies b.bytes s.recipients b.indexes
                  laid.served)
                (λ xs _. tt)))

  check_message-Runs : (s : Session) (msg : Message) → Runs (check_message d s msg)
  unfolding check_message
  check_message-Runs s msg =
      stops-Runs (is_seven_bit s.body && msg.eight_bit) (msg.needs_utf8 && not s.smtp_utf8)
        (not (allows d.server.equal_fold s.user.allowed_senders msg.from))
        (not (is_empty msg.sender)
          && not (allows d.server.equal_fold s.user.allowed_senders msg.sender))
        not_seven_bit utf8_required from_not_allowed sender_header_not_allowed

  process-Runs : (s : Session) → is_empty s.recipients ≡ false → Runs (process d s)
  unfolding process
  process-Runs s some_recipient =
      let refused_as = prepare_reply (d.expired after_prepare) in
      let unsigned_as = sign_reply (d.expired after_signing) in
      Runs-bind (stop_if (not d.reader_accepted) temporary_failure) _ (Runs-stop_if _ _) (λ _ _.
        Runs-bind (or_stop refused_as (prepared d)) _
          (Runs-or_stop refused_as (prepared d) (prepare_reply-Answers (d.expired after_prepare)))
          (λ msg hm. Runs-bind (check_message d s msg) _ (check_message-Runs s msg) (λ _ _.
            Runs-bind (stop_at (d.expired before_signing)) _
              (Runs-stop_at (d.expired before_signing))
              (λ _ _.
                Runs-bind (or_stop unsigned_as (d.sign msg.from msg.text)) _
                  (Runs-or_stop unsigned_as (d.sign msg.from msg.text)
                    (sign_reply-Answers (d.expired after_signing)))
                  (λ out ho.
                    let (raw, _, made) =
                      prepared-parts d msg (or_stop_ok refused_as (prepared d) msg hm) in
                    let full = prepare-nonempty d.library (prepare_options d) raw msg made in
                    let did = or_stop_ok unsigned_as (d.sign msg.from msg.text) out ho in
                    Runs-bind (build d s msg out.0 (msg.eight_bit && not out.1)) _
                      (build-Runs s msg out.0 (msg.eight_bit && not out.1)
                        (signed msg.from msg.text out.0 out.1 full did) some_recipient)
                      (λ submission _.
                        Runs-bind (stop_at (d.expired before_add)) _
                          (Runs-stop_at (d.expired before_add)) (λ _ _. tt)))))))

  -- A Data call never runs out of an index, and the slot that it takes is free again. It ends in one
  -- of five ways. It is turned away before the message is read, with nothing in the queue: with
  -- `no_recipients`, or with `data_busy` or `submission_rate` and a connection that Data closes. Or the
  -- queue has added what `process` made, the message is accepted, and Data waits for the deadline to
  -- close the connection exactly if it has passed by then. Or the queue refuses that with an error,
  -- which says what the reply is and whether the queue may hold the message all the same; the wait is
  -- as before. Or `process` gives a reply, with nothing in the queue and no such wait. Or `process`
  -- finds the deadline passed: Data waits for the connection to be closed, and nothing is in the queue.
  -- Neither OpenPGP signing nor encryption is to make an empty message of one that is not empty.
  pub submit-Settled :
      (slots busy : ℕ) (s : Session)
      → Settled d (process d s) (submit d slots busy s).0 × ((submit d slots busy s).1 ≡ busy)
  unfolding submit
  submit-Settled slots busy s = elim (Bool-cases (is_empty s.sender || is_empty s.recipients)) [
    | inl e ↦ simp e (turned_away no_recipients (inl (refl, refl)) refl refl, refl)
    | inr e ↦ elim (Bool-cases (ltb busy slots)) [
      | inr full ↦ simp (e, full) (turned_away data_busy (inr (inl refl, refl)) refl refl, refl)
      | inl free ↦ elim (Bool-cases (d.take_rate s.user.username (length s.recipients))) [
        | inr limited ↦
            simp (e, free, limited)
              (turned_away submission_rate (inr (inr refl, refl)) refl refl, omega arith)
        | inl admitted ↦
            let some_recipient : is_empty s.recipients ≡ false = ground arith in
            simp (e, free, admitted)
              (finish-Settled d (process d s) (process-Runs s some_recipient), omega arith)
      ]
    ]
  ]
