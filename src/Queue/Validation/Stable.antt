-- ===== src/Queue/Validation/Stable.antt =====
-- internal/queue/validation.go: an envelope that was accepted is accepted again as it is.
use outboxd.Common.{
  ℕ, ◌+◌, ◌≤◌, ltb, true, false, Bytes, Option, some, List, [], ◌∷◌, length, ◌≡◌, refl, sym, subst,
  arith, str_eq_refl,
}
use outboxd.Common.Result.{ok, bind-parts, then-parts}
use outboxd.Common.Strings.{all, is_empty, to_lower_ascii}
use outboxd.Mailbox.{domain_of, routing_domain}
use outboxd.Mailbox.Labels.{is_domain_byte}
use outboxd.Mailbox.Routing.{domain_of-IsRouting}
use outboxd.Queue.Envelope.{
  Envelope, Recipient, Body, Status, pending, sent, failed, unset, other_status,
}
use outboxd.Queue.Validation.{
  validate_envelope, check_recipients, check_recipient, check_recipient_fields, check_routing,
  check_address, check_whole, check_head, check_origin, lift_fault, normal_status, Seen,
  bad_address, bad_domain,
}
use outboxd.Queue.Validation.Accepted.{accept-parts, unseen}
use outboxd.Queue.Validation.Recipients.{
  see, lift_ok, check_recipients-cons, check_recipients-length,
}

normal_status-twice : (s s' : Status) → normal_status s ≡ ok s' → normal_status s' ≡ ok s'
normal_status-twice pending s' h = ground arith
normal_status-twice sent s' h = ground arith
normal_status-twice failed s' h = ground arith
normal_status-twice unset s' h = ground arith
normal_status-twice (other_status _) s' h = cc

fields-twice :
    (bodies : List Body) (r : Recipient) (s : Status) (domain : Bytes)
    → check_recipient_fields bodies r ≡ ok s
    → length domain ≤ 4096
    → check_recipient_fields bodies (record r { status = s; domain = domain }) ≡ ok s
unfolding check_recipient_fields
fields-twice bodies r s domain h short =
    let short' : ltb 4096 (length domain) ≡ false = ground arith in
    ground (arith, normal_status-twice r.status s)

module _ (to_ascii : Bytes → Option Bytes)
    (ascii : (d : Bytes) (a : Bytes) → to_ascii d ≡ some a → all is_domain_byte a ≡ true)
    (fixed : (d : Bytes) (a : Bytes)
      → to_ascii d ≡ some a
      → to_ascii (to_lower_ascii a) ≡ some (to_lower_ascii a)) where
  check_routing_self :
      (r : Bytes)
      → routing_domain to_ascii r ≡ ok r
      → is_empty r ≡ false
      → check_routing to_ascii r r ≡ ok tt
  unfolding check_routing
  check_routing_self r h e = rw (e, h, str_eq_refl r) refl

  check_recipient-twice :
      (bodies : List Body) (r r' : Recipient)
      → check_recipient to_ascii bodies r ≡ ok r'
      → (check_recipient to_ascii bodies r' ≡ ok r') × (r'.body ≡ r.body) × (r'.address ≡ r.address)
  unfolding check_recipient
  check_recipient-twice bodies r r' h =
      let (status, hs, h1) = bind-parts (check_recipient_fields bodies r) _ h in
      let (ha, h2) = then-parts (lift_fault bad_address (check_address r.address)) _ h1 in
      let (routing, hr, h3) =
        bind-parts (lift_fault bad_domain (domain_of to_ascii r.address)) _ h2 in
      let (_, h4) =
        then-parts (check_routing to_ascii r.domain routing)
          (ok (record r { status = status; domain = routing })) h3 in
      let e : r' ≡ record r { status = status; domain = routing } = cc in
      let (routed, nonempty, short) =
        domain_of-IsRouting to_ascii ascii fixed r.address routing
          (lift_ok bad_domain (domain_of to_ascii r.address) routing hr) in
      let again : Recipient = record r { status = status; domain = routing } in
      let kept : check_recipient to_ascii bodies again ≡ ok again =
        rw
          (
            fields-twice bodies r status routing hs (omega arith),
            ha,
            hr,
            check_routing_self routing routed nonempty,
          )
          refl in
      subst
        (λ (x : Recipient).
          (check_recipient to_ascii bodies x ≡ ok x) × (x.body ≡ r.body) × (x.address ≡ r.address))
        (sym e) (kept, refl, refl)

  check_recipients-twice :
      (bodies : List Body) (i : ℕ) (rs : List Recipient) (seen : Seen) (rs' : List Recipient)
      (seen' : Seen)
      → check_recipients to_ascii bodies i rs seen ≡ ok (rs', seen')
      → check_recipients to_ascii bodies i rs' seen ≡ ok (rs', seen')
  unfolding check_recipients
  check_recipients-twice bodies i [] seen rs' seen' h = let e : rs' ≡ [] = cc in rw e (ground arith)
  check_recipients-twice bodies i (r ∷ rs) seen rs' seen' h =
      let (r', later, hr, hs, e) = check_recipients-cons to_ascii bodies i r rs seen rs' seen' h in
      let (again, body, address) = check_recipient-twice bodies r r' hr in
      let ih = check_recipients-twice bodies (i + 1) rs (see bodies r seen) later seen' hs in
      rw (e, again, body, address, ih) refl

  check_origin-recipients :
      (sha256 : Bytes → Bytes) (e : Envelope) (rs : List Recipient)
      → check_origin sha256 (record e { recipients = rs }) ≡ check_origin sha256 e
  unfolding check_origin
  check_origin-recipients sha256 e rs = refl

  nonempty-length : (rs rs' : List Recipient) → length rs' ≡ length rs → is_empty rs' ≡ is_empty rs
  nonempty-length [] [] h = refl
  nonempty-length [] (x ∷ rs') h = ground arith
  nonempty-length (x ∷ rs) [] h = ground arith
  nonempty-length (x ∷ rs) (y ∷ rs') h = refl

  -- The checks of the head see of the recipients only how many there are.
  check_head-recipients :
      (sha256 : Bytes → Bytes) (e : Envelope) (rs : List Recipient)
      → length rs ≡ length e.recipients
      → check_head sha256 (record e { recipients = rs }) ≡ check_head sha256 e
  unfolding check_head
  check_head-recipients sha256 e rs same =
      rw (same, nonempty-length e.recipients rs same, check_origin-recipients sha256 e rs) refl

  -- An envelope that validateEnvelope returned passes it again and is returned as it is: statuses and
  -- routing domains are in their normal form. RoutingDomain is assumed to convert as the conversion's
  -- documentation says: to ASCII letters, digits, hyphens and dots, which it leaves as they are.
  pub validate-twice :
      (sha256 : Bytes → Bytes) (e e' : Envelope)
      → validate_envelope to_ascii sha256 e ≡ ok e'
      → validate_envelope to_ascii sha256 e' ≡ ok e'
  unfolding validate_envelope check_whole
  validate-twice sha256 e e' h =
      let a = accept-parts to_ascii sha256 e h in
      let lengths =
        check_recipients-length to_ascii e.bodies 0 e.recipients (unseen e) a.recipients a.seen
          a.checked in
      let again =
        check_recipients-twice e.bodies 0 e.recipients (unseen e) a.recipients a.seen a.checked in
      let kept : validate_envelope to_ascii sha256 (record e { recipients = a.recipients })
          ≡ ok (record e { recipients = a.recipients }) =
        rw
          (
            check_head-recipients sha256 e a.recipients lengths.0,
            a.head,
            a.bodies,
            a.cover,
            again,
            a.referenced,
            a.utf8,
            a.metadata,
          )
          refl in
      subst (λ (x : Envelope). validate_envelope to_ascii sha256 x ≡ ok x) (sym a.result) kept
