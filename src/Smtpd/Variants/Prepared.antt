-- ===== src/Smtpd/Variants/Prepared.antt =====
-- internal/smtpd/data.go: what prepareVariants returns.
use outboxd.Common.{
  ℕ, ◌+◌, ◌<◌, Bool, not, ◌&&◌, Bytes, Option, some, List, [], ◌∷◌, ◌++◌, length, ltb, ◌≡◌, refl,
  ap, subst, arith, Option-cases, inl, inr,
}
use outboxd.Common.Result.{ok, bind-parts, reject_if-parts}
use outboxd.Common.Strings.{is_empty}
use outboxd.Smtpd.Variants.{
  Makers, Bundle, empty_bundle, find_variant, variant_key, seal, variant_eight_bit, append_variant,
  add_new, add_recipient, add_recipients, prepare_variants, message_too_large,
}
use outboxd.Smtpd.Variants.Layout.{get_elem?-append}
use outboxd.Smtpd.Variants.Sealed.{Served-snoc, Laid, append-Laid, find-Holds}

append_assoc :
    (xs : List Bytes) (y : Bytes) (ys : List Bytes) → (xs ++ y ∷ []) ++ ys ≡ xs ++ (y ∷ ys)
append_assoc [] y ys = refl
append_assoc (x ∷ xs) y ys = ap (λ t. x ∷ t) (append_assoc xs y ys)

append_nil : (xs : List Bytes) → xs ++ [] ≡ xs
append_nil [] = refl
append_nil (x ∷ xs) = ap (λ t. x ∷ t) (append_nil xs)

module _ (m : Makers) (from message : Bytes) (eight_bit : Bool)
    (filled : (r : Bytes) (key : Option Bytes) (text : Bytes)
      → seal m message r key ≡ ok text
      → 0 < length text) where
  add_new-Laid :
      (done : List Bytes) (b b' : Bundle) (r : Bytes) (key : Option Bytes)
      → Laid m from message eight_bit done b
      → m.key_id r ≡ ok key
      → add_new m from message eight_bit b r key ≡ ok b'
      → Laid m from message eight_bit (done ++ r ∷ []) b'
  unfolding add_new
  add_new-Laid done b b' r key laid hk h =
      let (text, hs, h1) = bind-parts (seal m message r key) _ h in
      let (signature, hg, h2) = bind-parts (m.sign from text) _ h1 in
      let made =
        append_variant m.digest b (variant_key key) (signature ++ text)
          (variant_eight_bit key eight_bit) in
      let (_, h3) =
        reject_if-parts
          (not (is_empty b.bodies)
            && ltb m.max_message_bytes (length b.bytes + length (signature ++ text)))
          message_too_large (ok made) h2 in
      let e : made ≡ b' = cc in
      subst (Laid m from message eight_bit (done ++ r ∷ [])) e
        (append-Laid m from message eight_bit filled done b r key text signature laid hk hs hg)

  reuse-Laid :
      (done : List Bytes) (b : Bundle) (r : Bytes) (key : Option Bytes) (i : ℕ)
      → Laid m from message eight_bit done b
      → m.key_id r ≡ ok key
      → find_variant (variant_key key) b.variants ≡ some i
      → Laid m from message eight_bit (done ++ r ∷ []) (record b { indexes = b.indexes ++ i ∷ [] })
  reuse-Laid done b r key i laid hk found = record {
    covers = laid.covers;
    variants = laid.variants;
    served =
        Served-snoc m from message eight_bit b.bodies b.bytes done b.indexes r i key laid.served hk
          (find-Holds m from message eight_bit b.bodies b.bytes key b.variants i laid.variants
            found);
    read = λ k lt. let (j, e) = laid.read k lt in (j, get_elem?-append b.indexes (i ∷ []) j k e);
  }

  add_recipient-Laid :
      (done : List Bytes) (b b' : Bundle) (r : Bytes)
      → Laid m from message eight_bit done b
      → add_recipient m from message eight_bit b r ≡ ok b'
      → Laid m from message eight_bit (done ++ r ∷ []) b'
  unfolding add_recipient
  add_recipient-Laid done b b' r laid h =
      let (key, hk, h1) = bind-parts (m.key_id r) _ h in
      elim (Option-cases (find_variant (variant_key key) b.variants)) [
        | inl e ↦ add_new-Laid done b b' r key laid hk (ground arith)
        | inr (i, e) ↦
            let made : record b { indexes = b.indexes ++ i ∷ [] } ≡ b' = ground arith in
            subst (Laid m from message eight_bit (done ++ r ∷ [])) made
              (reuse-Laid done b r key i laid hk e)
      ]

  add_recipients-Laid :
      (done rs : List Bytes) (b b' : Bundle)
      → Laid m from message eight_bit done b
      → add_recipients m from message eight_bit b rs ≡ ok b'
      → Laid m from message eight_bit (done ++ rs) b'
  unfolding add_recipients
  add_recipients-Laid done [] b b' laid h =
      let e : b ≡ b' = cc in
      rw (append_nil done) (subst (Laid m from message eight_bit done) e laid)
  add_recipients-Laid done (r ∷ rs) b b' laid h =
      let (b1, h1, h2) = bind-parts (add_recipient m from message eight_bit b r) _ h in
      let laid1 = add_recipient-Laid done b b1 r laid h1 in
      rw (← (append_assoc done r rs)) (add_recipients-Laid (done ++ r ∷ []) rs b1 b' laid1 h2)

  empty-Laid : Laid m from message eight_bit [] empty_bundle
  unfolding empty_bundle
  empty-Laid = record { covers = refl; variants = tt; served = tt; read = λ k lt. elim lt [ ] }

  -- Where no message is empty, the bodies of the bundle lie one after the other over all its bytes,
  -- each recipient's body is the message, encrypted with the recipient's key exactly where it has one,
  -- below the signature made for it, and every body is some recipient's.
  pub prepare_variants-Laid :
      (recipients : List Bytes) (b : Bundle)
      → prepare_variants m from message recipients eight_bit ≡ ok b
      → Laid m from message eight_bit recipients b
  unfolding prepare_variants
  prepare_variants-Laid recipients b h =
      add_recipients-Laid [] recipients empty_bundle b empty-Laid h
