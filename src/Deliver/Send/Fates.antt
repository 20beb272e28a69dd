-- ===== src/Deliver/Send/Fates.antt =====
-- internal/deliver/send.go: what one transaction makes of a recipient, and for what reason.
use outboxd.Common.{
  ℕ, zero, suc, Bool, true, false, ◌||◌, Bytes, none, some, List, [], ◌∷◌, get_elem?, ◌==◌, ◌≡◌,
  ◌⊎◌, inl, inr, refl, sym, ap, subst, arith,
}
use outboxd.Common.Result.{ok, err}
use outboxd.Queue.Envelope.{Recipient, sent, failed, is_pending}
use outboxd.Deliver.Response.{smtp_code, permanent}
use outboxd.Deliver.Connect.{Failure, as_smtp}
use outboxd.Deliver.Send.{Peer, modify_at, reject_recipient, reject_smtp, set_detail, mark_sent}

abbrev pub among : ℕ → List ℕ → Bool
among j [] = false
among j (i ∷ is) = i == j || among j is

modify_at-parts :
    (rs : List Recipient) (i j : ℕ) (f : Recipient → Recipient) (r' : Recipient)
    → get_elem? (modify_at rs i f) j ≡ some r'
    → ((i ≡ j) × (r : Recipient) × (get_elem? rs j ≡ some r) × (f r ≡ r'))
      ⊎ (get_elem? rs j ≡ some r')
unfolding modify_at
modify_at-parts [] i j f r' h = inr h
modify_at-parts (r ∷ rs) zero zero f r' h = inl (refl, r, refl, cc)
modify_at-parts (r ∷ rs) zero (suc j) f r' h = inr h
modify_at-parts (r ∷ rs) (suc i) zero f r' h = inr h
modify_at-parts (r ∷ rs) (suc i) (suc j) f r' h = elim (modify_at-parts rs i j f r' h) [
  | inl (e, q, at, made) ↦ inl (ap suc e, q, at, made)
  | inr at ↦ inr at
]

module _ (p : Peer) (size : ℕ) (before : List Recipient) (indexes : List ℕ) where
  -- The peer took the recipient and the whole body.
  abbrev pub TookBody : Type 0
  TookBody =
      (p.open_error ≡ none)
      × (p.data_reply ≡ none)
      × (p.copy_error ≡ none)
      × (p.body_length ≡ size)
      × ((text : Bytes) × (p.final_reply ≡ ok text))

  -- Some reply that concerns the recipient at `j`.
  pub data Replied (j : ℕ) (f : Failure) : Type 0 where
    to_mail : (command : Bytes) → p.mail_reply command ≡ some f → Replied j f
    to_rcpt : p.rcpt_reply j ≡ some f → Replied j f
    to_data : p.rcpt_reply j ≡ none → p.data_reply ≡ some f → Replied j f
    to_body : p.rcpt_reply j ≡ none → p.final_reply ≡ err f → Replied j f

  -- What becomes of the recipient `r` at `j`.
  pub data Fate (j : ℕ) (r r' : Recipient) : Type 0 where
    kept : r'.status ≡ r.status → Fate j r r'
    delivered :
        r'.status ≡ sent
        → among j indexes ≡ true
        → is_pending r.status ≡ true
        → p.rcpt_reply j ≡ none
        → TookBody
        → Fate j r r'
    refused :
        (f : Failure)
        → r'.status ≡ failed
        → r'.code ≡ smtp_code (as_smtp f)
        → among j indexes ≡ true
        → permanent (as_smtp f) ≡ true
        → Replied j f
        → Fate j r r'

  abbrev pub HaveFates : List Recipient → Type 0
  HaveFates rs =
      (j : ℕ) (r' : Recipient)
      → get_elem? rs j ≡ some r'
      → (r : Recipient) × (get_elem? before j ≡ some r) × Fate j r r'

  pub before-HaveFates : HaveFates before
  before-HaveFates j r' h = (r', h, kept refl)

  pub modify_at-HaveFates :
      (rs : List Recipient) (i : ℕ) (f : Recipient → Recipient)
      → ((r r' : Recipient) → get_elem? before i ≡ some r → Fate i r r' → Fate i r (f r'))
      → HaveFates rs
      → HaveFates (modify_at rs i f)
  modify_at-HaveFates rs i f change h = λ j r' e. elim (modify_at-parts rs i j f r' e) [
    | inr at ↦ h j r' at
    | inl (same, q, at, made) ↦
        let (r, was, fate) = h j q at in
        let there : get_elem? before i ≡ some r = rw same was in
        let here : Fate i r q = subst (λ k. Fate k r q) (sym same) fate in
        (
          r,
          was,
          subst (λ v. Fate j r v) made (subst (λ k. Fate k r (f q)) same (change r q there here)),
        )
  ]

  pub reject_smtp-HaveFates :
      (rs : List Recipient) (is : List ℕ) (f : Failure)
      → permanent (as_smtp f) ≡ true
      → ((j : ℕ) → among j is ≡ true → (among j indexes ≡ true) × Replied j f)
      → HaveFates rs
      → HaveFates (reject_smtp rs is f)
  unfolding reject_smtp reject_recipient
  reject_smtp-HaveFates rs [] f always why h = h
  reject_smtp-HaveFates rs (i ∷ is) f always why h =
      let (known, replied) = why i (ground arith) in
      reject_smtp-HaveFates (modify_at rs i (reject_recipient f)) is f always
        (λ j m. why j (ground arith))
        (modify_at-HaveFates rs i (reject_recipient f)
          (λ r r' _ _. refused f refl refl known always replied) h)

  -- The peer took the recipients, which are pending ones of the group.
  abbrev pub AreTaken : List ℕ → Type 0
  AreTaken accepted =
      (j : ℕ)
      → among j accepted ≡ true
      → (among j indexes ≡ true)
        × (p.rcpt_reply j ≡ none)
        × ((r : Recipient) → get_elem? before j ≡ some r → is_pending r.status ≡ true)

  pub mark_sent-HaveFates :
      (rs : List Recipient) (is : List ℕ) (detail : Bytes)
      → AreTaken is
      → TookBody
      → HaveFates rs
      → HaveFates (mark_sent rs is detail)
  unfolding mark_sent
  mark_sent-HaveFates rs [] detail taken body h = h
  mark_sent-HaveFates rs (i ∷ is) detail taken body h =
      let (known, ok_rcpt, waits) = taken i (ground arith) in
      mark_sent-HaveFates (modify_at rs i (λ r. record r { status = sent; detail = detail })) is
        detail (λ j m. taken j (ground arith)) body
        (modify_at-HaveFates rs i (λ r. record r { status = sent; detail = detail })
          (λ r r' was _. delivered refl known (waits r was) ok_rcpt body) h)

  pub set_detail-Fate :
      (f : Failure) (j : ℕ) (r r' : Recipient) → Fate j r r' → Fate j r (set_detail f r')
  set_detail-Fate f j r r' (kept e) = kept e
  set_detail-Fate f j r r' (delivered e m w t b) = delivered e m w t b
  set_detail-Fate f j r r' (refused g e c m a w) = refused g e c m a w
