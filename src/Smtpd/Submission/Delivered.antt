-- ===== src/Smtpd/Submission/Delivered.antt =====
-- internal/smtpd/data.go: what the queue holds after an accepted submission.
use Prim.{absurd}
use outboxd.Common.{
  ℕ, ◌<◌, Bool, true, false, not, ◌&&◌, ◌||◌, Bytes, Option, none, some, List, [], ◌∷◌, ◌++◌,
  length, get_elem?, ◌≡◌, ◌⊎◌, inl, inr, refl, ap, ◌∙◌, subst, arith, All, Bool-cases, Option-cases,
  map,
}
use outboxd.Common.Result.{Result, ok, err, bind-parts, then-parts, reject_if-parts}
use outboxd.Common.Strings.{any, is_empty}
use outboxd.Config.Senders.{allows}
use outboxd.Queue.Envelope.{Envelope, Recipient, Body}
use outboxd.Queue.Validation.Bodies.{Covers}
use outboxd.Smtpd.Session.{Session, needs_utf8}
use outboxd.Smtpd.Variants.{Makers, prepare_variants, seal}
use outboxd.Smtpd.Variants.Sealed.{Served}
use outboxd.Smtpd.Variants.Prepared.{prepare_variants-Laid}
use outboxd.Message.Normalize.{oversized}
use outboxd.Message.Prepare.{Message, PrepareError, message, prepare}
use outboxd.Message.Prepare.Kept.{prepare-nonempty}
use outboxd.Smtpd.Submission.{
  Backend, replies, closes, prepared, lift_prepare, prepare_options, process, build, check_message,
  make_recipients, stored_bodies, new_envelope, first_eight_bit, or_stop, prepare_reply, sign_reply,
  variant_reply, after_prepare, before_signing, after_signing, after_variants, before_add,
  temporary_failure,
}
use outboxd.Smtpd.Submission.Envelopes.{
  Matches, make_recipients-Matches, or_stop_ok, read_body, read_body-stored_bodies,
}

module _ (d : Backend) (from text : Bytes) where
  -- What the queue reads for a recipient: the message, encrypted for the recipient's key exactly if it
  -- has one, below its signature.
  pub record Gets (bodies : List Body) (stored : Bytes) (r : Recipient) : Type 0 where
    pub key : Option Bytes
    pub sealed_for : Bytes
    pub sealed : Bytes
    pub signature : Bytes
    pub key_is : d.makers.key_id r.address ≡ ok key
    pub sealed_is : seal d.makers text sealed_for key ≡ ok sealed
    pub signature_is : d.makers.sign from sealed ≡ ok signature
    pub read : read_body bodies stored r.body ≡ some (signature ++ sealed)

  Gets-each :
      (eight_bit : Bool) (bodies : List Body) (stored : Bytes) (rs : List Bytes) (is : List ℕ)
      (xs : List Recipient)
      → Covers 0 bodies (length stored)
      → Served d.makers from text eight_bit bodies stored rs is
      → Matches d.server.to_ascii rs is xs
      → All (Gets (stored_bodies bodies) stored) xs × (map (λ (x : Recipient). x.address) xs ≡ rs)
  Gets-each eight_bit bodies stored [] [] [] c s m = (tt, refl)
  Gets-each eight_bit bodies stored [] [] (x ∷ xs) c s m = absurd m
  Gets-each eight_bit bodies stored [] (i ∷ is) xs c s m = absurd s
  Gets-each eight_bit bodies stored (r ∷ rs) [] xs c s m = absurd m
  Gets-each eight_bit bodies stored (r ∷ rs) (i ∷ is) [] c s m = absurd m
  Gets-each eight_bit bodies stored (r ∷ rs) (i ∷ is) (x ∷ xs) c ((key, hk, h), served)
        ((addr, body, _, _), matches) =
      let (later, same) = Gets-each eight_bit bodies stored rs is xs c served matches in
      let at : get_elem? bodies x.body ≡ some h.body = ap (get_elem? bodies) body ∙ h.at in
      let first : Gets (stored_bodies bodies) stored x = record {
        key = key;
        sealed_for = h.sealed_for;
        sealed = h.text;
        signature = h.signature;
        key_is = ap d.makers.key_id addr ∙ hk;
        sealed_is = h.sealed;
        signature_is = h.signed;
        read = read_body-stored_bodies bodies stored x.body h.body c at ∙ ap some h.bytes_are;
      } in
      ((first, later), rw (addr, same) refl)

lift_prepare_ok :
    (d : Backend) (r : Result PrepareError Message) (msg : Message)
    → lift_prepare d r ≡ ok msg
    → r ≡ ok msg
lift_prepare_ok d (ok m) msg h = cc
lift_prepare_ok d (err (message oversized)) msg h = cc
lift_prepare_ok d (err e) msg h = ground arith

-- The message is what Prepare makes of what the client sent.
pub prepared-parts :
    (d : Backend) (msg : Message)
    → prepared d ≡ ok msg
    → (raw : Bytes) × (d.read ≡ ok raw) × (prepare d.library (prepare_options d) raw ≡ ok msg)
unfolding prepared
prepared-parts d msg h =
    let (raw, received, lifted) = bind-parts d.read _ h in
    (raw, received, lift_prepare_ok d (prepare d.library (prepare_options d) raw) msg lifted)

pub seal-filled :
    (m : Makers) (text : Bytes)
    → ((r key t u : Bytes) → 0 < length t → m.encrypt r key t ≡ ok (some u) → 0 < length u)
    → 0 < length text
    → (r : Bytes) (key : Option Bytes) (sealed : Bytes) → seal m text r key ≡ ok sealed
    → 0 < length sealed
unfolding seal
seal-filled m text encrypted full r none sealed h = ground arith
seal-filled m text encrypted full r (some key) sealed h =
    let (u, hu, h1) = bind-parts (m.encrypt r key text) _ h in
    elim (Option-cases u) [
      | inl e ↦ ground arith
      | inr (t, e) ↦
          let same : t ≡ sealed = ground arith in
          subst (λ x. 0 < length x) same (encrypted r key text t full (hu ∙ ap ok e))
    ]

module _ (d : Backend)
    (signed : (from text out : Bytes) (did_sign : Bool)
      → 0 < length text
      → d.sign from text ≡ ok (out, did_sign)
      → 0 < length out)
    (encrypted : (r key t u : Bytes)
      → 0 < length t
      → d.makers.encrypt r key t ≡ ok (some u)
      → 0 < length u) where
  -- An envelope and what is stored with it, for an originator and a message.
  pub record IsDeliverable (s : Session) (from text : Bytes) (e : Envelope) (stored : Bytes)
      : Type 0 where
    pub sender : e.sender ≡ s.sender
    pub username : e.username ≡ s.user.username
    pub addresses : map (λ (r : Recipient). r.address) e.recipients ≡ s.recipients
    pub gets : All (Gets d from text e.bodies stored) e.recipients
    pub layout : (e.bodies ≡ []) ⊎ Covers 0 e.bodies (length stored)

  stored_bodies-Covers :
      (bodies : List Body) (n : ℕ)
      → Covers 0 bodies n
      → (stored_bodies bodies ≡ []) ⊎ Covers 0 (stored_bodies bodies) n
  stored_bodies-Covers [] n c = inl refl
  stored_bodies-Covers (b ∷ []) n c = inl refl
  stored_bodies-Covers (b ∷ x ∷ bs) n c = inr c

  build-IsDeliverable :
      (s : Session) (msg : Message) (text : Bytes) (eight_bit : Bool) (e : Envelope)
      (stored : Bytes)
      → 0 < length text
      → build d s msg text eight_bit ≡ ok (e, stored)
      → IsDeliverable s msg.from text e stored
  unfolding build
  build-IsDeliverable s msg text eight_bit e stored full h =
      let (b, hb, h1) =
        bind-parts
          (or_stop (variant_reply (d.expired after_variants))
            (prepare_variants d.makers msg.from text s.recipients eight_bit))
          _ h in
      let (first, _, h2) = bind-parts (first_eight_bit b.bodies) _ h1 in
      let (xs, hx, h3) =
        bind-parts (make_recipients d.server.to_ascii s.recipients b.indexes) _ h2 in
      let variants =
        or_stop_ok (variant_reply (d.expired after_variants))
          (prepare_variants d.makers msg.from text s.recipients eight_bit) b hb in
      let laid =
        prepare_variants-Laid d.makers msg.from text eight_bit
          (seal-filled d.makers text encrypted full) s.recipients b variants in
      let matches = make_recipients-Matches d.server.to_ascii s.recipients b.indexes xs hx in
      let (gets, same) =
        Gets-each d msg.from text eight_bit b.bodies b.bytes s.recipients b.indexes xs laid.covers
          laid.served matches in
      let env =
        new_envelope d s (msg.needs_utf8 || needs_utf8 s.sender || any needs_utf8 s.recipients)
          first (stored_bodies b.bodies) xs in
      let q : ◌≡◌ {A = Envelope × Bytes} (env, b.bytes) (e, stored) = cc in
      let made : IsDeliverable s msg.from text env b.bytes =
        unfold new_envelope in
        record {
          sender = refl;
          username = refl;
          addresses = same;
          gets = gets;
          layout = stored_bodies-Covers b.bodies (length b.bytes) laid.covers;
        } in
      subst (λ (x : Envelope × Bytes). IsDeliverable s msg.from text x.0 x.1) q made

  check_message-Allows :
      (s : Session) (msg : Message)
      → check_message d s msg ≡ ok tt
      → (allows d.server.equal_fold s.user.allowed_senders msg.from ≡ true)
        × ((msg.needs_utf8 && not s.smtp_utf8) ≡ false)
        × ((is_empty msg.sender ≡ true)
            ⊎ (allows d.server.equal_fold s.user.allowed_senders msg.sender ≡ true))
  unfolding check_message
  check_message-Allows s msg h = elim (Bool-cases (is_empty msg.sender)) [
    | inl e ↦ (ground arith, ground arith, inl e)
    | inr e ↦ (ground arith, ground arith, inr (ground arith))
  ]

  -- What Data hands to the queue has the transaction's sender, user and recipients, in their order,
  -- and is made of the message that Prepare makes of what the client sent, whose From, and Sender if
  -- it has one, the user's account allows. The queue reads for each recipient that message with its
  -- OpenPGP signature, encrypted for the recipient's key exactly if it has one, below the DKIM
  -- signature made for it; and more than one body lie one after the other over all that is stored.
  -- Neither OpenPGP signing nor encryption is to make an empty message of one that is not empty.
  pub process-IsDeliverable :
      (s : Session) (e : Envelope) (stored : Bytes)
      → process d s ≡ ok (e, stored)
      → (raw : Bytes) × (msg : Message) × (text : Bytes) × (did_sign : Bool) × (d.read ≡ ok raw)
        × (prepare d.library (prepare_options d) raw ≡ ok msg)
        × (d.sign msg.from msg.text ≡ ok (text, did_sign))
        × (allows d.server.equal_fold s.user.allowed_senders msg.from ≡ true)
        × ((is_empty msg.sender ≡ true)
            ⊎ (allows d.server.equal_fold s.user.allowed_senders msg.sender ≡ true))
        × IsDeliverable s msg.from text e stored
  unfolding process
  process-IsDeliverable s e stored h =
      let (_, h1) = reject_if-parts (not d.reader_accepted) (replies temporary_failure) _ h in
      let (msg, hm, h2) =
        bind-parts (or_stop (prepare_reply (d.expired after_prepare)) (prepared d)) _ h1 in
      let (hc, h3) = then-parts (check_message d s msg) _ h2 in
      let (_, h4) = reject_if-parts (d.expired before_signing) (closes temporary_failure) _ h3 in
      let (out, hs, h5) =
        bind-parts (or_stop (sign_reply (d.expired after_signing)) (d.sign msg.from msg.text)) _
          h4 in
      let eight_bit = msg.eight_bit && not out.1 in
      let (submission, hb, h6) = bind-parts (build d s msg out.0 eight_bit) _ h5 in
      let (_, h7) =
        reject_if-parts (d.expired before_add) (closes temporary_failure) (ok submission) h6 in
      let q : submission ≡ (e, stored) = cc in
      let was = or_stop_ok (prepare_reply (d.expired after_prepare)) (prepared d) msg hm in
      let (raw, received, made) = prepared-parts d msg was in
      let did =
        or_stop_ok (sign_reply (d.expired after_signing)) (d.sign msg.from msg.text) out hs in
      let (from_allowed, _, sender_allowed) = check_message-Allows s msg hc in
      (
        raw,
        msg,
        out.0,
        out.1,
        received,
        made,
        did,
        from_allowed,
        sender_allowed,
        build-IsDeliverable s msg out.0 eight_bit e stored
            (signed msg.from msg.text out.0 out.1
              (prepare-nonempty d.library (prepare_options d) raw msg made) did)
            (hb ∙ ap ok q),
      )
