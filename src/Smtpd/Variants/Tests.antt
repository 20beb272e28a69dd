-- ===== src/Smtpd/Variants/Tests.antt =====
-- internal/smtpd/data.go: runs of prepareVariants.
use outboxd.Common.{
  ℕ, ◌<◌, true, false, Bytes, codes, str_eq, Option, none, some, List, [], ◌∷◌, ◌++◌, ◌≡◌, refl,
  arith, length, if◌then◌else◌,
}
use outboxd.Common.Result.{ok, err}
use outboxd.Queue.Envelope.{new_body}
use outboxd.Smtpd.Variants.{
  Makers, Bundle, empty_bundle, find_variant, variant_key, seal, append_variant, add_new,
  add_recipient, add_recipients, prepare_variants, message_too_large,
}
use outboxd.Smtpd.Variants.Sealed.{Laid}
use outboxd.Smtpd.Variants.Prepared.{prepare_variants-Laid}

-- One recipient has a key; an encrypted message is "E", the key and the message.
abbrev makers : ℕ → Makers
makers limit = record {
  key_id = λ r. ok (if str_eq r (codes "a@x") then none else some (codes "7"));
  encrypt = λ r key text. ok (some (b'E' ∷ key ++ text));
  sign = λ from text. ok (codes "s:");
  digest = λ text. [];
  max_message_bytes = limit;
}

abbrev three : List Bytes
three = codes "a@x" ∷ codes "b@x" ∷ codes "c@x" ∷ []

abbrev made : Bundle
made = record {
  variants = (codes "key:7", 1) ∷ (codes "plaintext", 0) ∷ [];
  indexes = 0 ∷ 1 ∷ 1 ∷ [];
  bodies =
      new_body (λ text. []) 0 (codes "s:hi") true
      ∷ new_body (λ text. []) 4 (codes "s:E7hi") false
      ∷ [];
  bytes = codes "s:his:E7hi";
}

prepared : prepare_variants (makers 10) (codes "f") (codes "hi") three true ≡ ok made
unfolding prepare_variants add_recipients add_recipient add_new append_variant find_variant
    variant_key seal empty_bundle str_eq
prepared = refl

too_large : prepare_variants (makers 9) (codes "f") (codes "hi") three true ≡ err message_too_large
unfolding prepare_variants add_recipients add_recipient add_new append_variant find_variant
    variant_key seal empty_bundle str_eq
too_large = refl

filled :
    (r : Bytes) (key : Option Bytes) (text : Bytes)
    → seal (makers 10) (codes "hi") r key ≡ ok text
    → 0 < length text
unfolding seal
filled r none text h = ground arith
filled r (some key) text h = ground arith

prepare_variants-Laid_example : Laid (makers 10) (codes "f") (codes "hi") true three made
prepare_variants-Laid_example =
    prepare_variants-Laid (makers 10) (codes "f") (codes "hi") true filled three made prepared
