-- ===== src/Smtpd/Session/Transaction.antt =====
-- internal/smtpd/session.go: what holds of a session after any commands.
use outboxd.Common.{
  ◌≤◌, Bool, true, false, not, ◌&&◌, ◌||◌, Bytes, str_eq, str_eq_sym, Option, List, [], ◌∷◌, ◌++◌,
  length, length-append, ◌==◌, ◌≡◌, refl, subst, arith, All, Bool-cases, inl, inr, ◌⊎◌,
}
use outboxd.Common.Result.{Result, ok, err, Result-cases, bind-parts, reject_if-parts}
use outboxd.Common.Strings.{is_empty}
use outboxd.Config.Senders.{allows}
use outboxd.Mailbox.{address, domain_of}
use outboxd.Smtpd.Authentication.{User}
use outboxd.Smtpd.Session.{
  Session, Server, MailOptions, Reply, check_mail, mail, check_rcpt, add_rcpt, rcpt, reset, start,
  route, needs_utf8, wants_utf8, has_text, or_reply, invalid_recipient, mail_first,
  utf8_required_for_recipient,
}

pub data Command : Type 0 where
  mail_from : Bytes → Option MailOptions → Command
  rcpt_to : Bytes → Command
  rset : Command

unfoldable pub step : Server → Session → Command → Session
step server s (mail_from from opts) = (mail server s from opts).0
step server s (rcpt_to to) = (rcpt server s to).0
step server s rset = reset s

unfoldable pub run : Server → Session → List Command → Session
run server s [] = s
run server s (c ∷ cs) = run server (step server s c) cs

abbrev pub Distinct : List Bytes → Type 0
Distinct [] = Unit
Distinct (x ∷ xs) = (has_text xs x ≡ false) × Distinct xs

has_text-append :
    (xs : List Bytes) (x y : Bytes) → has_text (xs ++ x ∷ []) y ≡ (has_text xs y || str_eq x y)
has_text-append [] x y = ground arith
has_text-append (z ∷ xs) x y = ground (arith, has_text-append xs x y)

Distinct-append :
    (xs : List Bytes) (x : Bytes) → Distinct xs → has_text xs x ≡ false → Distinct (xs ++ x ∷ [])
Distinct-append [] x d h = (refl, tt)
Distinct-append (y ∷ xs) x d h = (
  ground (arith, has_text-append xs x y, str_eq_sym x y),
  Distinct-append xs x d.1 (ground arith),
)

All-append :
    {A : Type 0} (P : A → Type 0) (xs : List A) (x : A) → All P xs → P x → All P (xs ++ x ∷ [])
All-append P [] x h p = (p, tt)
All-append P (y ∷ xs) x h p = (h.0, All-append P xs x h.1 p)

module _ (server : Server) where
  -- An address goes out only if it is ASCII or the client asked for SMTPUTF8.
  abbrev pub MayGoOut : Bool → Bytes → Type 0
  MayGoOut smtp_utf8 addr = (needs_utf8 addr && not smtp_utf8) ≡ false

  abbrev pub HasRoute : Bytes → Type 0
  HasRoute addr =
      (domain : Bytes) × (domain_of server.to_ascii addr ≡ ok domain) × (is_empty domain ≡ false)

  pub record IsSound (s : Session) : Type 0 where
    pub sender :
        (is_empty s.sender ≡ true)
        ⊎ ((is_empty s.user.username ≡ false)
            × (allows server.equal_fold s.user.allowed_senders s.sender ≡ true)
            × MayGoOut s.smtp_utf8 s.sender)
    pub recipients : All (λ r. HasRoute r × MayGoOut s.smtp_utf8 r) s.recipients
    pub distinct : Distinct s.recipients
    pub few : length s.recipients ≤ server.max_recipients
    pub needs_sender : (is_empty s.sender ≡ true) → s.recipients ≡ []

  or_reply_ok :
      {E A : Type 0} (reply : Reply) (m : Result E A) (a : A) → or_reply reply m ≡ ok a → m ≡ ok a
  or_reply_ok reply (ok b) a h = ground arith
  or_reply_ok reply (err e) a h = cc

  mail-parts :
      (s : Session) (from : Bytes) (opts : Option MailOptions) (addr : Bytes)
      → check_mail server s from opts ≡ ok addr
      → (is_empty s.user.username ≡ false)
        × (allows server.equal_fold s.user.allowed_senders addr ≡ true)
        × MayGoOut (wants_utf8 opts) addr
  unfolding check_mail
  mail-parts s from opts addr h = (ground arith, ground arith, ground arith)

  route-HasRoute :
      (addr routing : Bytes)
      → route server addr ≡ ok routing
      → is_empty routing ≡ false
      → HasRoute addr
  unfolding route
  route-HasRoute addr routing h e = (routing, ground arith, e)

  rcpt-parts :
      (s : Session) (to addr : Bytes)
      → check_rcpt server s to ≡ ok addr
      → (is_empty s.sender ≡ false) × HasRoute addr × MayGoOut s.smtp_utf8 addr
  unfolding check_rcpt
  rcpt-parts s to addr h =
      let (from_given, h1) = reject_if-parts (is_empty s.sender) mail_first _ h in
      let (a, _, h2) =
        bind-parts (or_reply invalid_recipient (address server.to_ascii server.parse to)) _ h1 in
      let (routing, hr, h3) = bind-parts (or_reply invalid_recipient (route server a)) _ h2 in
      let (routed, h4) = reject_if-parts (is_empty routing) invalid_recipient _ h3 in
      let (utf8, h5) =
        reject_if-parts (needs_utf8 a && not s.smtp_utf8) utf8_required_for_recipient (ok a) h4 in
      let e : a ≡ addr = cc in
      let has_route =
        route-HasRoute a routing (or_reply_ok invalid_recipient (route server a) routing hr)
          routed in
      (from_given, subst HasRoute e has_route, subst (MayGoOut s.smtp_utf8) e utf8)

  mail-IsSound :
      (s : Session) (from : Bytes) (opts : Option MailOptions)
      → IsSound s
      → IsSound (mail server s from opts).0
  unfolding mail
  mail-IsSound s from opts h = elim (Result-cases (check_mail server s from opts)) [
    | inr (reply, e) ↦ rw (e, mail) h
    | inl (addr, e) ↦
        let parts = mail-parts s from opts addr e in
        rw (e, mail)
          (record {
            sender = inr parts;
            recipients = tt;
            distinct = tt;
            few = omega arith;
            needs_sender = λ _. refl;
          })
  ]

  add_rcpt-IsSound :
      (s : Session) (addr : Bytes)
      → IsSound s
      → is_empty s.sender ≡ false
      → HasRoute addr
      → MayGoOut s.smtp_utf8 addr
      → IsSound (add_rcpt server s addr).0
  unfolding add_rcpt
  add_rcpt-IsSound s addr h given routed utf8 = elim (Bool-cases (has_text s.recipients addr)) [
    | inl e ↦ rw e h
    | inr e ↦ elim (Bool-cases (length s.recipients == server.max_recipients)) [
      | inl full ↦ rw (e, full) h
      | inr room ↦
          rw (e, room)
            (record {
              sender = h.sender;
              recipients =
                  All-append (λ r. HasRoute r × MayGoOut s.smtp_utf8 r) s.recipients addr
                    h.recipients (routed, utf8);
              distinct = Distinct-append s.recipients addr h.distinct e;
              few = ground (arith, length-append s.recipients (addr ∷ []), h.few);
              needs_sender = λ (e : is_empty s.sender ≡ true). cc;
            })
    ]
  ]

  rcpt-IsSound : (s : Session) (to : Bytes) → IsSound s → IsSound (rcpt server s to).0
  unfolding rcpt
  rcpt-IsSound s to h = elim (Result-cases (check_rcpt server s to)) [
    | inr (reply, e) ↦ rw (e, rcpt) h
    | inl (addr, e) ↦
        let (given, routed, utf8) = rcpt-parts s to addr e in
        rw (e, rcpt) (add_rcpt-IsSound s addr h given routed utf8)
  ]

  step-IsSound : (s : Session) (c : Command) → IsSound s → IsSound (step server s c)
  unfolding step reset
  step-IsSound s (mail_from from opts) h = mail-IsSound s from opts h
  step-IsSound s (rcpt_to to) h = rcpt-IsSound s to h
  step-IsSound s rset h = record {
    sender = inl refl;
    recipients = tt;
    distinct = tt;
    few = omega arith;
    needs_sender = λ _. refl;
  }

  run_keeps-IsSound : (s : Session) (cs : List Command) → IsSound s → IsSound (run server s cs)
  unfolding run
  run_keeps-IsSound s [] h = h
  run_keeps-IsSound s (c ∷ cs) h = run_keeps-IsSound (step server s c) cs (step-IsSound s c h)

  -- After any MAIL, RCPT and RSET commands, accepted or refused: a sender is one that the account of
  -- an authenticated user allows; no recipient is without sender, and they are distinct, at most the
  -- configured number, each with a routing domain; and none of these addresses needs an SMTPUTF8 that
  -- the client did not ask for.
  pub run-start-IsSound : (user : User) (cs : List Command) → IsSound (run server (start user) cs)
  unfolding start
  run-start-IsSound user cs = run_keeps-IsSound (start user) cs (record {
    sender = inl refl;
    recipients = tt;
    distinct = tt;
    few = omega arith;
    needs_sender = λ _. refl;
  })
