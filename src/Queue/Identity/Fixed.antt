-- ===== src/Queue/Identity/Fixed.antt =====
-- The parts of a stored envelope that no update of internal/queue/storage.go changes.
use outboxd.Common.{
  ℕ, ◌≡◌, ◌≢◌, refl, Bool, true, false, Bytes, List, [], ◌∷◌, map, arith, if◌then◌else◌, str_eq_iff,
}
use outboxd.Common.Result.{ok}
use outboxd.Queue.Envelope.{Body, Recipient, Envelope}
use outboxd.Queue.Identity.{
  bool_eq, same_body, same_bodies, same_recipients, same_message_content, same_dsn_source_linkage,
  same_dsn_linkage, same_message_identity, adds_dsn_link, match_loaded, match_ready_update,
}

bool_eq_sound : (a b : Bool) → bool_eq a b ≡ true → a ≡ b
bool_eq_sound true b h = ground arith
bool_eq_sound false b h = ground arith

same_body_sound : (a b : Body) → same_body a b ≡ true → a ≡ b
unfolding same_body
same_body_sound a b h =
    ground (arith, str_eq_iff a.digest b.digest, bool_eq_sound a.eight_bit b.eight_bit)

same_bodies_sound : (xs ys : List Body) → same_bodies xs ys ≡ true → xs ≡ ys
unfolding same_bodies
same_bodies_sound [] [] h = refl
same_bodies_sound [] (b ∷ ys) h = cc
same_bodies_sound (a ∷ xs) [] h = cc
same_bodies_sound (a ∷ xs) (b ∷ ys) h = ground (arith, same_body_sound a b, same_bodies_sound xs ys)

-- A recipient without its delivery status.
abbrev pub destination : Recipient → Bytes × Bytes × ℕ
destination r = (r.address, r.domain, r.body)

same_recipients_sound :
    (xs ys : List Recipient)
    → same_recipients xs ys ≡ true
    → map destination xs ≡ map destination ys
unfolding same_recipients
same_recipients_sound [] [] h = refl
same_recipients_sound [] (b ∷ ys) h = cc
same_recipients_sound (a ∷ xs) [] h = cc
same_recipients_sound (a ∷ xs) (b ∷ ys) h = ground (
  arith,
  str_eq_iff a.address b.address,
  str_eq_iff a.domain b.domain,
  same_recipients_sound xs ys,
)

-- What an update may not change: who submitted the message and when, its bodies, and the recipients but
-- for their delivery.
pub record Kept (current updated : Envelope) : Type 0 where
  pub incarnation : updated.incarnation ≡ current.incarnation
  pub revision : updated.revision ≡ current.revision
  pub size : updated.size ≡ current.size
  pub body_digest : updated.body_digest ≡ current.body_digest
  pub username : updated.username ≡ current.username
  pub sender : updated.sender ≡ current.sender
  pub created : updated.created ≡ current.created
  pub bodies : updated.bodies ≡ current.bodies
  pub recipients : map destination updated.recipients ≡ map destination current.recipients
  pub dsn_source_id : updated.dsn_source_id ≡ current.dsn_source_id
  pub dsn_generation : updated.dsn_generation ≡ current.dsn_generation

module _ (allow : Bool) (current e : Envelope) (h : match_loaded allow current e ≡ ok tt) where
  content : same_message_content current e ≡ true
  unfolding match_loaded same_message_identity
  content = ground arith

  linkage : same_dsn_source_linkage current e ≡ true
  unfolding match_loaded same_message_identity same_dsn_linkage adds_dsn_link
  linkage = ground arith

  link : allow ≡ false → e.dsn_id ≡ current.dsn_id
  unfolding match_loaded same_message_identity same_dsn_linkage
  link f = ground (arith, str_eq_iff current.dsn_id e.dsn_id)

  new_link : allow ≡ true → (current.dsn_id ≡ []) × (e.dsn_id ≢ [])
  unfolding match_loaded adds_dsn_link
  new_link t =
      (ground (arith, str_eq_iff current.dsn_id []), λ z. ground (arith, str_eq_iff e.dsn_id []))

  loaded-Kept : Kept current e
  unfolding same_message_content same_dsn_source_linkage match_loaded
  loaded-Kept = record {
    incarnation = ground (arith, str_eq_iff current.incarnation e.incarnation);
    revision = ground arith;
    size = ground arith;
    body_digest = ground (arith, str_eq_iff current.body_digest e.body_digest);
    username = ground (arith, content, str_eq_iff current.username e.username);
    sender = ground (arith, content, str_eq_iff current.sender e.sender);
    created = ground (arith, content);
    bodies = ground (arith, content, same_bodies_sound current.bodies e.bodies);
    recipients = ground (arith, content, same_recipients_sound current.recipients e.recipients);
    dsn_source_id = ground (arith, linkage, str_eq_iff current.dsn_source_id e.dsn_source_id);
    dsn_generation = ground (arith, linkage);
  }

-- An update that is let through is one of the stored envelope: it keeps the incarnation, the revision,
-- the submitter, the sender, the time, the bodies and the destinations. It keeps the link to a delivery
-- report, unless the update is the one that may add a link, and then there was none and there is one.
pub match_ready_update-Kept :
    (allow : Bool) (current e : Envelope)
    → match_ready_update allow (ok current) e ≡ ok tt
    → Kept current e
      × (if allow then (current.dsn_id ≡ []) × (e.dsn_id ≢ []) else (e.dsn_id ≡ current.dsn_id))
unfolding match_ready_update
match_ready_update-Kept true current e h =
    (loaded-Kept true current e h, new_link true current e h refl)
match_ready_update-Kept false current e h =
    (loaded-Kept false current e h, link false current e h refl)
