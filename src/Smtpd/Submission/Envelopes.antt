-- ===== src/Smtpd/Submission/Envelopes.antt =====
-- internal/smtpd/data.go: the recipients and bodies of the envelope that Data builds.
use Prim.{⊥}
use outboxd.Common.{
  ℕ, zero, suc, Bytes, Option, none, some, List, [], ◌∷◌, length, get_elem?, ◌≡◌, refl, sym, ap,
  ◌∙◌, subst, arith,
}
use outboxd.Common.Result.{Result, ok, err, bind-parts}
use outboxd.Common.Strings.{take-length}
use outboxd.Mailbox.{domain_of}
use outboxd.Queue.Envelope.{Recipient, Body, pending}
use outboxd.Queue.Validation.Bodies.{Covers, slice}
use outboxd.Smtpd.Session.{invalid_recipient}
use outboxd.Smtpd.Submission.{make_recipients, stored_bodies, or_stop, replies}

-- Each recipient is pending, with its address's routing domain and its index.
abbrev pub Matches : (Bytes → Option Bytes) → List Bytes → List ℕ → List Recipient → Type 0
Matches to_ascii [] is [] = Unit
Matches to_ascii [] is (x ∷ xs) = ⊥
Matches to_ascii (r ∷ rs) [] xs = ⊥
Matches to_ascii (r ∷ rs) (i ∷ is) [] = ⊥
Matches to_ascii (r ∷ rs) (i ∷ is) (x ∷ xs) =
    ((x.address ≡ r) × (x.body ≡ i) × (domain_of to_ascii r ≡ ok x.domain) × (x.status ≡ pending))
    × Matches to_ascii rs is xs

pub or_stop_ok : {E A : Type 0} (f : E → _) (m : Result E A) (a : A) → or_stop f m ≡ ok a → m ≡ ok a
or_stop_ok f (ok b) a h = ground arith
or_stop_ok f (err e) a h = cc

pub make_recipients-Matches :
    (to_ascii : Bytes → Option Bytes) (rs : List Bytes) (is : List ℕ) (xs : List Recipient)
    → make_recipients to_ascii rs is ≡ ok xs
    → Matches to_ascii rs is xs
unfolding make_recipients
make_recipients-Matches to_ascii [] is [] h = tt
make_recipients-Matches to_ascii [] is (x ∷ xs) h = cc
make_recipients-Matches to_ascii (r ∷ rs) [] xs h =
    let (domain, _, h1) =
      bind-parts (or_stop (λ _. replies invalid_recipient) (domain_of to_ascii r)) _ h in
    cc
make_recipients-Matches to_ascii (r ∷ rs) (i ∷ is) [] h =
    let (domain, _, h1) =
      bind-parts (or_stop (λ _. replies invalid_recipient) (domain_of to_ascii r)) _ h in
    let (rest, hr, h2) = bind-parts (make_recipients to_ascii rs is) _ h1 in cc
make_recipients-Matches to_ascii (r ∷ rs) (i ∷ is) (x ∷ xs) h =
    let (domain, hd, h1) =
      bind-parts (or_stop (λ _. replies invalid_recipient) (domain_of to_ascii r)) _ h in
    let (rest, hr, h2) = bind-parts (make_recipients to_ascii rs is) _ h1 in
    let d : domain ≡ x.domain = ground arith in
    let e : rest ≡ xs = ground arith in
    let routed = or_stop_ok (λ _. replies invalid_recipient) (domain_of to_ascii r) domain hd in
    (
      (ground arith, ground arith, routed ∙ ap ok d, ground arith),
      subst (Matches to_ascii rs is) e (make_recipients-Matches to_ascii rs is rest hr),
    )

-- What the queue reads for the body `i`, where an index out of range is `none`.
unfoldable pub read_body : List Body → Bytes → ℕ → Option Bytes
read_body [] stored i = some stored
read_body (b ∷ bs) stored i = elim (get_elem? (b ∷ bs) i) [
  | none ↦ none
  | some body ↦ some (slice stored body)
]

slice-whole :
    (b : Body) (stored : Bytes) → Covers 0 (b ∷ []) (length stored) → slice stored b ≡ stored
slice-whole b stored c =
    let size : b.size ≡ length stored = omega arith in rw (c.0, size) (take-length stored)

-- To leave out the list of a single body changes nothing of what is read.
pub read_body-stored_bodies :
    (bodies : List Body) (stored : Bytes) (i : ℕ) (b : Body)
    → Covers 0 bodies (length stored)
    → get_elem? bodies i ≡ some b
    → read_body (stored_bodies bodies) stored i ≡ some (slice stored b)
unfolding read_body
read_body-stored_bodies [] stored i b c e = cc
read_body-stored_bodies (x ∷ []) stored zero b c e =
    let q : x ≡ b = cc in
    ap some (sym (subst (λ (y : Body). slice stored y ≡ stored) q (slice-whole x stored c)))
read_body-stored_bodies (x ∷ []) stored (suc i) b c e = cc
read_body-stored_bodies (x ∷ y ∷ bs) stored i b c e = rw (e, read_body) refl
