-- ===== src/Queue/Validation/Recipients.antt =====
-- internal/queue/validation.go: what holds of the recipients of an accepted envelope.
use Prim.{absurd, ⊥}
use outboxd.Common.{
  ℕ, zero, suc, ◌+◌, ◌≤◌, ◌<◌, Bool, true, false, not, ◌&&◌, ◌||◌, Bytes, Option, none, some, List,
  [], ◌∷◌, length, get_elem?, set, ltb, ◌==◌, ◌≡◌, ◌≢◌, ◌⊎◌, inl, inr, refl, sym, ap, ◌∙◌, subst,
  arith, All, Bool-cases, List-cases,
}
use outboxd.Common.Result.{Result, ok, err, bind-parts, then-parts}
use outboxd.Common.Strings.{is_empty-cases}
use outboxd.Common.Utf8.{has_high_bit}
use outboxd.Mailbox.{domain_of}
use outboxd.Queue.Envelope.{
  Envelope, Recipient, Body, Status, pending, sent, failed, unset, other_status, message_size,
  message_eight_bit, body_of,
}
use outboxd.Queue.Validation.{
  validate_envelope, check_recipients, check_recipient, check_recipient_fields, check_address,
  check_routing, lift_fault, Seen, recipient, bad_address, bad_domain, mark_used, status_fault,
  normal_status, body_index_fault, index_unused, unused,
}
use outboxd.Queue.Validation.Accepted.{accept-parts, unseen}

-- A recipient's outcome agrees with the code of the reply that decided it.
abbrev pub Agrees : Status → ℕ → Bytes → Type 0
Agrees pending code enhanced = (code ≡ 0) × (enhanced ≡ [])
Agrees sent code enhanced = (code ≡ 0) ⊎ ((200 ≤ code) × (code < 300))
Agrees failed code enhanced = (code ≡ 0) ⊎ ((500 ≤ code) × (code < 600))
Agrees unset code enhanced = ⊥
Agrees (other_status _) code enhanced = ⊥

-- The recipient's body is one of the envelope's, if it has any.
abbrev pub HasBody : List Body → ℕ → Type 0
HasBody [] i = i ≡ 0
HasBody (b ∷ bs) i = i < length (b ∷ bs)

abbrev CodeInRange : ℕ → Type 0
CodeInRange code = (not (code == 0) && (ltb code 200 || ltb 599 code)) ≡ false

fields-parts :
    (bodies : List Body) (r : Recipient) (status : Status)
    → check_recipient_fields bodies r ≡ ok status
    → (body_index_fault bodies r.body ≡ none)
      × (normal_status r.status ≡ ok status)
      × CodeInRange r.code
      × (status_fault status r.code r.enhanced_code ≡ none)
unfolding check_recipient_fields
fields-parts bodies r status h = (ground arith, ground arith, ground arith, ground arith)

body_index-HasBody :
    (bodies : List Body) (i : ℕ) → body_index_fault bodies i ≡ none → HasBody bodies i
body_index-HasBody [] i h = ground arith
body_index-HasBody (b ∷ bs) i h = ground arith

status-Agrees :
    (before status : Status) (r : Recipient)
    → normal_status before ≡ ok status
    → CodeInRange r.code
    → status_fault status r.code r.enhanced_code ≡ none
    → Agrees status r.code r.enhanced_code
status-Agrees before pending r n c h = (ground arith, is_empty-cases r.enhanced_code (ground arith))
status-Agrees before sent r n c h = elim (Bool-cases (r.code == 0)) [
  | inl e ↦ inl (ground arith)
  | inr e ↦ inr (ground arith, ground arith)
]
status-Agrees before failed r n c h = elim (Bool-cases (r.code == 0)) [
  | inl e ↦ inl (ground arith)
  | inr e ↦ inr (ground arith, ground arith)
]
status-Agrees pending unset r n c h = cc
status-Agrees sent unset r n c h = cc
status-Agrees failed unset r n c h = cc
status-Agrees unset unset r n c h = cc
status-Agrees (other_status _) unset r n c h = cc
status-Agrees pending (other_status s) r n c h = cc
status-Agrees sent (other_status s) r n c h = cc
status-Agrees failed (other_status s) r n c h = cc
status-Agrees unset (other_status s) r n c h = cc
status-Agrees (other_status _) (other_status s) r n c h = cc

-- What the rest of the loop over the recipients starts from.
abbrev pub see : List Body → Recipient → Seen → Seen
see bodies r seen = record {
  used = mark_used bodies r.body seen.used;
  need_utf8 = seen.need_utf8 || has_high_bit r.address;
}

-- A recipient of this body is in the list.
abbrev pub HasReader : List Recipient → ℕ → Type 0
HasReader rs k = (j : ℕ) × (r : Recipient) × (get_elem? rs j ≡ some r) × (r.body ≡ k)

mark-cases :
    (bodies : List Body) (i k : ℕ) (used : List Bool)
    → get_elem? (mark_used bodies i used) k ≡ some true
    → (i ≡ k) ⊎ (get_elem? used k ≡ some true)
unfolding mark_used
mark-cases [] i k used h = inr h
mark-cases (b ∷ bs) i k [] h = inr h
mark-cases (b ∷ bs) zero zero (u ∷ used) h = inl refl
mark-cases (b ∷ bs) (suc i) zero (u ∷ used) h = inr h
mark-cases (b ∷ bs) zero (suc k) (u ∷ used) h = inr h
mark-cases (b ∷ bs) (suc i) (suc k) (u ∷ used) h = elim (mark-cases (b ∷ bs) i k used h) [
  | inl e ↦ inl (ap suc e)
  | inr e ↦ inr e
]

read_later : (r : Recipient) (rs : List Recipient) (k : ℕ) → HasReader rs k → HasReader (r ∷ rs) k
read_later r rs k (j, r', e, b) = (suc j, r', e, b)

length-set : {A : Type 0} (xs : List A) (i : ℕ) (x : A) → length (set xs i x) ≡ length xs
length-set [] i x = refl
length-set (y ∷ xs) zero x = refl
length-set (y ∷ xs) (suc i) x = ap suc (length-set xs i x)

length-mark_used :
    (bodies : List Body) (i : ℕ) (used : List Bool) → length (mark_used bodies i used) ≡ length used
unfolding mark_used
length-mark_used [] i used = refl
length-mark_used (b ∷ bs) i used = length-set used i true

pub lift_ok :
    {E F : Type 0} {A : Type 0} (f : E → F) (m : Result E A) (a : A)
    → lift_fault f m ≡ ok a
    → m ≡ ok a
lift_ok f (ok b) a h = ground arith
lift_ok f (err e) a h = cc

module _ (to_ascii : Bytes → Option Bytes) where
  -- A recipient that validateEnvelope leaves in an envelope of these bodies.
  pub record IsRoutable (bodies : List Body) (r : Recipient) : Type 0 where
    pub body : HasBody bodies r.body
    pub outcome : Agrees r.status r.code r.enhanced_code
    pub address : check_address r.address ≡ ok tt
    pub domain : domain_of to_ascii r.address ≡ ok r.domain

  pub check_recipient-IsRoutable :
      (bodies : List Body) (r : Recipient) (r' : Recipient)
      → check_recipient to_ascii bodies r ≡ ok r'
      → IsRoutable bodies r' × (r'.body ≡ r.body) × (r'.address ≡ r.address)
  unfolding check_recipient
  check_recipient-IsRoutable bodies r r' h =
      let (status, hs, h1) = bind-parts (check_recipient_fields bodies r) _ h in
      let (index, normal, range, fault) = fields-parts bodies r status hs in
      let (ha, h2) = then-parts (lift_fault bad_address (check_address r.address)) _ h1 in
      let (routing, hr, h3) =
        bind-parts (lift_fault bad_domain (domain_of to_ascii r.address)) _ h2 in
      let (_, h4) =
        then-parts (check_routing to_ascii r.domain routing)
          (ok (record r { status = status; domain = routing })) h3 in
      let e : r' ≡ record r { status = status; domain = routing } = cc in
      rw e (
        record {
          body = body_index-HasBody bodies r.body index;
          outcome = status-Agrees r.status status r normal range fault;
          address = lift_ok bad_address (check_address r.address) tt ha;
          domain = lift_ok bad_domain (domain_of to_ascii r.address) routing hr;
        },
        refl,
        refl,
      )

  -- One round of the loop.
  pub check_recipients-cons :
      (bodies : List Body) (i : ℕ) (r : Recipient) (rs : List Recipient) (seen : Seen)
      (rs' : List Recipient) (seen' : Seen)
      → check_recipients to_ascii bodies i (r ∷ rs) seen ≡ ok (rs', seen')
      → (r' : Recipient) × (later : List Recipient) × (check_recipient to_ascii bodies r ≡ ok r')
        × (check_recipients to_ascii bodies (i + 1) rs (see bodies r seen) ≡ ok (later, seen'))
        × (rs' ≡ r' ∷ later)
  unfolding check_recipients
  check_recipients-cons bodies i r rs seen rs' seen' h =
      let (r', hr, h1) =
        bind-parts (lift_fault (recipient i) (check_recipient to_ascii bodies r)) _ h in
      let (rest, hs, h2) =
        bind-parts (check_recipients to_ascii bodies (i + 1) rs (see bodies r seen))
          (λ (rest : List Recipient × Seen). ok (r' ∷ rest.0, rest.1)) h1 in
      let e : rest.1 ≡ seen' = ground arith in
      let hs' =
        subst
          (λ (s : Seen).
            check_recipients to_ascii bodies (i + 1) rs (see bodies r seen) ≡ ok (rest.0, s))
          e hs in
      (
        r',
        rest.0,
        lift_ok (recipient i) (check_recipient to_ascii bodies r) r' hr,
        hs',
        ground arith,
      )

  pub check_recipients-All-IsRoutable :
      (bodies : List Body) (i : ℕ) (rs : List Recipient) (seen : Seen) (rs' : List Recipient)
      (seen' : Seen)
      → check_recipients to_ascii bodies i rs seen ≡ ok (rs', seen')
      → All (IsRoutable bodies) rs'
  unfolding check_recipients
  check_recipients-All-IsRoutable bodies i [] seen rs' seen' h = let e : rs' ≡ [] = cc in rw e tt
  check_recipients-All-IsRoutable bodies i (r ∷ rs) seen rs' seen' h =
      let (r', later, hr, hs, e) = check_recipients-cons bodies i r rs seen rs' seen' h in
      let rest =
        check_recipients-All-IsRoutable bodies (i + 1) rs (see bodies r seen) later seen' hs in
      rw e ((check_recipient-IsRoutable bodies r r' hr).0, rest)

  -- A body that is marked at the end was marked before, or a recipient of the list has it.
  pub check_recipients-HasReader :
      (bodies : List Body) (i : ℕ) (rs : List Recipient) (seen : Seen) (rs' : List Recipient)
      (seen' : Seen) (k : ℕ)
      → check_recipients to_ascii bodies i rs seen ≡ ok (rs', seen')
      → get_elem? seen'.used k ≡ some true
      → (get_elem? seen.used k ≡ some true) ⊎ HasReader rs' k
  unfolding check_recipients
  check_recipients-HasReader bodies i [] seen rs' seen' k h u =
      let e : seen' ≡ seen = cc in inl (ap (λ (s : Seen). get_elem? s.used k) (sym e) ∙ u)
  check_recipients-HasReader bodies i (r ∷ rs) seen rs' seen' k h u =
      let (r', later, hr, hs, e) = check_recipients-cons bodies i r rs seen rs' seen' h in
      let same = (check_recipient-IsRoutable bodies r r' hr).1 in
      elim (check_recipients-HasReader bodies (i + 1) rs (see bodies r seen) later seen' k hs u) [
        | inr reader ↦ inr (rw e (read_later r' later k reader))
        | inl before ↦ elim (mark-cases bodies r.body k seen.used before) [
          | inl b ↦ inr (rw e (0, r', refl, same ∙ b))
          | inr b ↦ inl b
        ]
      ]

  pub check_recipients-length :
      (bodies : List Body) (i : ℕ) (rs : List Recipient) (seen : Seen) (rs' : List Recipient)
      (seen' : Seen)
      → check_recipients to_ascii bodies i rs seen ≡ ok (rs', seen')
      → (length rs' ≡ length rs) × (length seen'.used ≡ length seen.used)
  unfolding check_recipients
  check_recipients-length bodies i [] seen rs' seen' h = ground arith
  check_recipients-length bodies i (r ∷ rs) seen rs' seen' h =
      let (r', later, hr, hs, e) = check_recipients-cons bodies i r rs seen rs' seen' h in
      let ih = check_recipients-length bodies (i + 1) rs (see bodies r seen) later seen' hs in
      let marked = length-mark_used bodies r.body seen.used in (rw e (ap suc ih.0), ih.1 ∙ marked)

index_unused-none :
    (i : ℕ) (used : List Bool) (k : ℕ)
    → index_unused i used ≡ none
    → k < length used
    → get_elem? used k ≡ some true
unfolding index_unused
index_unused-none i [] k h lt = elim lt [ ]
index_unused-none i (false ∷ used) k h lt = cc
index_unused-none i (true ∷ used) zero h lt = refl
index_unused-none i (true ∷ used) (suc k) h lt = index_unused-none (i + 1) used k h (omega arith)

length-unused : (bodies : List Body) → length (unused bodies) ≡ length bodies
length-unused [] = refl
length-unused (b ∷ bs) = ap suc (length-unused bs)

unused-not_used : (bodies : List Body) (k : ℕ) → get_elem? (unused bodies) k ≢ some true
unused-not_used [] k h = cc
unused-not_used (b ∷ bs) zero h = cc
unused-not_used (b ∷ bs) (suc k) h = unused-not_used bs k h

-- In an accepted envelope every recipient has one of the bodies if there are any, an outcome that
-- agrees with its reply code, an address without fault, and its address's routing domain; and every
-- body has a recipient that reads it.
pub validate-IsRoutable :
    (to_ascii : Bytes → Option Bytes) (sha256 : Bytes → Bytes) (e e' : Envelope)
    → validate_envelope to_ascii sha256 e ≡ ok e'
    → All (IsRoutable to_ascii e'.bodies) e'.recipients
      × (length e'.recipients ≡ length e.recipients)
      × ((k : ℕ) → k < length e'.bodies → HasReader e'.recipients k)
validate-IsRoutable to_ascii sha256 e e' h =
    let a = accept-parts to_ascii sha256 e h in
    let bodies = e.bodies in
    let routable =
      check_recipients-All-IsRoutable to_ascii bodies 0 e.recipients (unseen e) a.recipients a.seen
        a.checked in
    let lengths =
      check_recipients-length to_ascii bodies 0 e.recipients (unseen e) a.recipients a.seen
        a.checked in
    let used = λ (k : ℕ) (lt : k < length bodies).
      index_unused-none 0 a.seen.used k a.referenced
        (subst (λ n. k < n) (sym (lengths.1 ∙ length-unused bodies)) lt) in
    rw a.result (
      routable,
      lengths.0,
      λ k lt.
          elim (check_recipients-HasReader to_ascii bodies 0 e.recipients (unseen e) a.recipients
            a.seen k a.checked (used k lt)) [
              | inl before ↦ absurd (unused-not_used bodies k before)
              | inr reader ↦ reader
            ],
    )

All-get :
    (P : Recipient → Type 0) (rs : List Recipient) (i : ℕ) (r : Recipient)
    → All P rs
    → get_elem? rs i ≡ some r
    → P r
All-get P [] i r h e = cc
All-get P (x ∷ rs) zero r h e = let q : x ≡ r = cc in subst P q h.0
All-get P (x ∷ rs) (suc i) r h e = All-get P rs i r h.1 e

get_elem?-some :
    {A : Type 0} (xs : List A) (i : ℕ) → i < length xs → (x : A) × (get_elem? xs i ≡ some x)
get_elem?-some [] i h = elim h [ ]
get_elem?-some (x ∷ xs) zero h = (x, refl)
get_elem?-some (x ∷ xs) (suc i) h = get_elem?-some xs i (omega arith)

body-some :
    (bodies : List Body) (i : ℕ)
    → HasBody bodies i
    → (bodies ≡ []) ⊎ ((b : Body) × (get_elem? bodies i ≡ some b))
body-some [] i h = inl refl
body-some (b ∷ bs) i h = inr (get_elem?-some (b ∷ bs) i h)

-- In an accepted envelope the size and the encoding of every recipient's message are defined: no
-- index is out of range.
pub validate-message_size :
    (to_ascii : Bytes → Option Bytes) (sha256 : Bytes → Bytes) (e e' : Envelope) (i : ℕ)
    → validate_envelope to_ascii sha256 e ≡ ok e'
    → i < length e'.recipients
    → ((size : ℕ) × (message_size e' i ≡ some size))
      × ((eight_bit : Bool) × (message_eight_bit e' i ≡ some eight_bit))
unfolding message_size message_eight_bit body_of
validate-message_size to_ascii sha256 e e' i h lt =
    let (r, er) = get_elem?-some e'.recipients i lt in
    let routable =
      All-get (IsRoutable to_ascii e'.bodies) e'.recipients i r
        (validate-IsRoutable to_ascii sha256 e e' h).0 er in
    elim (body-some e'.bodies r.body routable.body) [
      | inl none_stored ↦ rw none_stored ((e'.size, refl), (e'.eight_bit, refl))
      | inr (b, eb) ↦ elim (List-cases e'.bodies) [
        | inl none_stored ↦ rw none_stored ((e'.size, refl), (e'.eight_bit, refl))
        | inr (first, rest, stored) ↦ ((b.size, ground arith), (b.eight_bit, ground arith))
      ]
    ]
