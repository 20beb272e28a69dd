-- ===== src/Queue/Validation/Accepted.antt =====
-- internal/queue/validation.go: the steps that validateEnvelope went through for an envelope that it
-- accepts.
use outboxd.Common.{ℕ, true, false, not, ◌&&◌, Bytes, Option, none, List, ◌==◌, ◌≡◌, arith}
use outboxd.Common.Result.{ok, bind-parts, then-parts, reject_if-parts}
use outboxd.Common.Strings.{is_empty}
use outboxd.Common.Utf8.{has_high_bit}
use outboxd.Queue.Envelope.{Envelope, Recipient}
use outboxd.Queue.Validation.{
  validate_envelope, check_head, check_bodies, check_recipients, check_whole, Seen, unused,
  index_unused, metadata_within_limit, bodies_do_not_cover,
}

-- The loop's result for the recipients starts from this.
abbrev pub unseen : Envelope → Seen
unseen e = record {
  used = unused e.bodies;
  need_utf8 = not (is_empty e.sender) && has_high_bit e.sender;
}

whole-parts :
    (e : Envelope) (rs : List Recipient) (seen : Seen) {e' : Envelope}
    → check_whole e rs seen ≡ ok e'
    → (index_unused 0 seen.used ≡ none)
      × ((seen.need_utf8 && not e.smtp_utf8) ≡ false)
      × (metadata_within_limit (record e { recipients = rs }) ≡ true)
      × (e' ≡ record e { recipients = rs })
unfolding check_whole
whole-parts e rs seen h = (ground arith, ground arith, ground arith, ground arith)

module _ (to_ascii : Bytes → Option Bytes) (sha256 : Bytes → Bytes) where
  pub record Accepted (e e' : Envelope) : Type 0 where
    pub end : ℕ
    pub recipients : List Recipient
    pub seen : Seen
    pub head : check_head sha256 e ≡ ok tt
    pub bodies : check_bodies e.size 0 0 e.bodies ≡ ok end
    pub cover : (not (is_empty e.bodies) && not (end == e.size)) ≡ false
    pub checked :
        check_recipients to_ascii e.bodies 0 e.recipients (unseen e) ≡ ok (recipients, seen)
    pub referenced : index_unused 0 seen.used ≡ none
    pub utf8 : (seen.need_utf8 && not e.smtp_utf8) ≡ false
    pub metadata : metadata_within_limit (record e { recipients = recipients }) ≡ true
    pub result : e' ≡ record e { recipients = recipients }

  -- An accepted envelope went through every step.
  pub accept-parts :
      (e : Envelope) {e' : Envelope} → validate_envelope to_ascii sha256 e ≡ ok e' → Accepted e e'
  unfolding validate_envelope
  accept-parts e h =
      let (head, h1) = then-parts (check_head sha256 e) _ h in
      let (end, bodies, h2) = bind-parts (check_bodies e.size 0 0 e.bodies) _ h1 in
      let (cover, h3) = reject_if-parts _ bodies_do_not_cover _ h2 in
      let (checked, he, h4) =
        bind-parts (check_recipients to_ascii e.bodies 0 e.recipients (unseen e)) _ h3 in
      let (referenced, utf8, metadata, result) = whole-parts e checked.0 checked.1 h4 in
      record {
        end = end;
        recipients = checked.0;
        seen = checked.1;
        head = head;
        bodies = bodies;
        cover = cover;
        checked = he;
        referenced = referenced;
        utf8 = utf8;
        metadata = metadata;
        result = result;
      }
