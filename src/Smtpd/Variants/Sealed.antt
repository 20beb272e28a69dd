-- ===== src/Smtpd/Variants/Sealed.antt =====
-- internal/smtpd/data.go: what prepareVariants gives to each recipient.
use Prim.{absurd, ⊥}
use outboxd.Common.{
  ℕ, ◌<◌, Bool, Bytes, str_eq, str_eq_iff, Option, none, some, List, [], ◌∷◌, ◌++◌, length,
  get_elem?, length-append, ltb, ◌≡◌, refl, sym, ap, ◌∙◌, subst, arith, Bool-cases, inl, inr,
}
use outboxd.Common.Result.{ok}
use outboxd.Queue.Envelope.{Body, new_body}
use outboxd.Queue.Validation.Bodies.{Covers, slice}
use outboxd.Smtpd.Variants.{
  Makers, Bundle, find_variant, variant_key, seal, variant_eight_bit, append_variant,
}
use outboxd.Smtpd.Variants.Layout.{
  Covers-within, Covers-append, get_elem?-append, get_elem?-last, slice-within, slice-new_body,
}

abbrev first_byte : Bytes → ℕ
first_byte [] = 0
first_byte (c ∷ s) = c

variant_key-injective : (k j : Option Bytes) → variant_key k ≡ variant_key j → k ≡ j
unfolding variant_key
variant_key-injective none none h = refl
variant_key-injective none (some j) h = absurd (omega (arith, ap first_byte h))
variant_key-injective (some k) none h = absurd (omega (arith, ap first_byte h))
variant_key-injective (some k) (some j) h = ground arith

-- Some recipient has the body `k`.
abbrev pub HasIndex : List ℕ → ℕ → Type 0
HasIndex is k = (j : ℕ) × (get_elem? is j ≡ some k)

read_appended :
    (bodies : List Body) (b : Body) (is : List ℕ)
    → ((k : ℕ) → k < length bodies → HasIndex is k)
    → (k : ℕ) → k < length (bodies ++ b ∷ [])
    → HasIndex (is ++ length bodies ∷ []) k
read_appended bodies b is h k lt = elim (Bool-cases (ltb k (length bodies))) [
  | inl below ↦
      let (j, e) = h k (ground arith) in (j, get_elem?-append is (length bodies ∷ []) j k e)
  | inr above ↦
      let last : length bodies ≡ k = ground (arith, length-append bodies (b ∷ [])) in
      (length is, get_elem?-last is (length bodies) ∙ ap some last)
]

module _ (m : Makers) (from message : Bytes) (eight_bit : Bool) where
  -- The bytes of body `i` are the message, encrypted with the key if there is one, below its signature.
  pub record Holds (bodies : List Body) (bytes : Bytes) (key : Option Bytes) (i : ℕ) : Type 0 where
    pub body : Body
    pub sealed_for : Bytes
    pub text : Bytes
    pub signature : Bytes
    pub at : get_elem? bodies i ≡ some body
    pub sealed : seal m message sealed_for key ≡ ok text
    pub signed : m.sign from text ≡ ok signature
    pub bytes_are : slice bytes body ≡ signature ++ text
    pub eight_bit_is : body.eight_bit ≡ variant_eight_bit key eight_bit

  abbrev pub Serves : List Body → Bytes → List (Bytes × ℕ) → Type 0
  Serves bodies bytes [] = Unit
  Serves bodies bytes ((k, i) ∷ vs) =
      ((key : Option Bytes) × (variant_key key ≡ k) × Holds bodies bytes key i)
      × Serves bodies bytes vs

  Holds-append :
      (bodies : List Body) (bytes more : Bytes) (b : Body) (key : Option Bytes) (i : ℕ)
      → Covers 0 bodies (length bytes)
      → Holds bodies bytes key i
      → Holds (bodies ++ b ∷ []) (bytes ++ more) key i
  Holds-append bodies bytes more b key i c h = record {
    body = h.body;
    sealed_for = h.sealed_for;
    text = h.text;
    signature = h.signature;
    at = get_elem?-append bodies (b ∷ []) i h.body h.at;
    sealed = h.sealed;
    signed = h.signed;
    bytes_are =
        slice-within bytes more h.body (Covers-within 0 bodies (length bytes) i h.body c h.at)
        ∙ h.bytes_are;
    eight_bit_is = h.eight_bit_is;
  }

  Serves-append :
      (bodies : List Body) (bytes more : Bytes) (b : Body) (vs : List (Bytes × ℕ))
      → Covers 0 bodies (length bytes)
      → Serves bodies bytes vs
      → Serves (bodies ++ b ∷ []) (bytes ++ more) vs
  Serves-append bodies bytes more b [] c h = tt
  Serves-append bodies bytes more b ((k, i) ∷ vs) c ((key, e, h), rest) = (
    (key, e, Holds-append bodies bytes more b key i c h),
    Serves-append bodies bytes more b vs c rest,
  )

  pub find-Holds :
      (bodies : List Body) (bytes : Bytes) (key : Option Bytes) (vs : List (Bytes × ℕ)) (i : ℕ)
      → Serves bodies bytes vs
      → find_variant (variant_key key) vs ≡ some i
      → Holds bodies bytes key i
  unfolding find_variant
  find-Holds bodies bytes key [] i h e = cc
  find-Holds bodies bytes key ((k, j) ∷ vs) i ((key', q, h), rest) e =
      elim (Bool-cases (str_eq k (variant_key key))) [
        | inl same ↦
            let ji : j ≡ i = ground arith in
            let keys : key' ≡ key =
              variant_key-injective key' key (q ∙ (str_eq_iff k (variant_key key)).0 same) in
            subst (λ x. Holds bodies bytes key x) ji (subst (λ x. Holds bodies bytes x j) keys h)
        | inr other ↦ find-Holds bodies bytes key vs i rest (ground arith)
      ]

  -- Each recipient's body is the one that its key calls for.
  abbrev pub Served : List Body → Bytes → List Bytes → List ℕ → Type 0
  Served bodies bytes [] [] = Unit
  Served bodies bytes [] (i ∷ is) = ⊥
  Served bodies bytes (r ∷ rs) [] = ⊥
  Served bodies bytes (r ∷ rs) (i ∷ is) =
      ((key : Option Bytes) × (m.key_id r ≡ ok key) × Holds bodies bytes key i)
      × Served bodies bytes rs is

  Served-append :
      (bodies : List Body) (bytes more : Bytes) (b : Body) (rs : List Bytes) (is : List ℕ)
      → Covers 0 bodies (length bytes)
      → Served bodies bytes rs is
      → Served (bodies ++ b ∷ []) (bytes ++ more) rs is
  Served-append bodies bytes more b [] [] c h = tt
  Served-append bodies bytes more b [] (i ∷ is) c h = h
  Served-append bodies bytes more b (r ∷ rs) [] c h = h
  Served-append bodies bytes more b (r ∷ rs) (i ∷ is) c ((key, e, h), rest) = (
    (key, e, Holds-append bodies bytes more b key i c h),
    Served-append bodies bytes more b rs is c rest,
  )

  pub Served-snoc :
      (bodies : List Body) (bytes : Bytes) (rs : List Bytes) (is : List ℕ) (r : Bytes) (i : ℕ)
      (key : Option Bytes)
      → Served bodies bytes rs is
      → m.key_id r ≡ ok key
      → Holds bodies bytes key i
      → Served bodies bytes (rs ++ r ∷ []) (is ++ i ∷ [])
  Served-snoc bodies bytes [] [] r i key h e holds = ((key, e, holds), tt)
  Served-snoc bodies bytes [] (j ∷ is) r i key h e holds = absurd h
  Served-snoc bodies bytes (x ∷ rs) [] r i key h e holds = absurd h
  Served-snoc bodies bytes (x ∷ rs) (j ∷ is) r i key h e holds =
      (h.0, Served-snoc bodies bytes rs is r i key h.1 e holds)

  -- The bundle after the recipients `done`.
  pub record Laid (done : List Bytes) (b : Bundle) : Type 0 where
    pub covers : Covers 0 b.bodies (length b.bytes)
    pub variants : Serves b.bodies b.bytes b.variants
    pub served : Served b.bodies b.bytes done b.indexes
    pub read : (k : ℕ) → k < length b.bodies → HasIndex b.indexes k

  -- No variant is empty.
  module _
      (filled : (r : Bytes) (key : Option Bytes) (text : Bytes)
        → seal m message r key ≡ ok text
        → 0 < length text) where
    pub append-Laid :
        (done : List Bytes) (b : Bundle) (r : Bytes) (key : Option Bytes) (text signature : Bytes)
        → Laid done b
        → m.key_id r ≡ ok key
        → seal m message r key ≡ ok text
        → m.sign from text ≡ ok signature
        → Laid (done ++ r ∷ []) (
            append_variant m.digest b
              (variant_key key)
              (signature ++ text)
              (variant_eight_bit key eight_bit))
    unfolding append_variant new_body
    append-Laid done b r key text signature laid hk hs hg =
        let variant = signature ++ text in
        let body = new_body m.digest (length b.bytes) variant (variant_eight_bit key eight_bit) in
        let nonempty : 0 < length variant =
          omega (arith, length-append signature text, filled r key text hs) in
        let holds : Holds (b.bodies ++ body ∷ []) (b.bytes ++ variant) key (length b.bodies) =
          record {
            body = body;
            sealed_for = r;
            text = text;
            signature = signature;
            at = get_elem?-last b.bodies body;
            sealed = hs;
            signed = hg;
            bytes_are = slice-new_body m.digest b.bytes variant (variant_eight_bit key eight_bit);
            eight_bit_is = refl;
          } in
        record {
          covers =
              subst (λ n. Covers 0 (b.bodies ++ body ∷ []) n) (sym (length-append b.bytes variant))
                (Covers-append 0 b.bodies (length b.bytes) body laid.covers refl nonempty);
          variants = (
            (key, refl, holds),
            Serves-append b.bodies b.bytes variant body b.variants laid.covers laid.variants,
          );
          served =
              Served-snoc (b.bodies ++ body ∷ []) (b.bytes ++ variant) done b.indexes r
                (length b.bodies) key
                (Served-append b.bodies b.bytes variant body done b.indexes laid.covers laid.served)
                hk holds;
          read = read_appended b.bodies body b.indexes laid.read;
        }
