-- ===== src/Smtpd/Variants.antt =====
-- internal/smtpd/data.go: prepareVariants, which builds one stored body out of the messages that the
-- recipients get. OpenPGP, DKIM signing and the hash are parameters; an outcome of `none` is an error.
pub mod Layout
pub mod Sealed
pub mod Prepared
mod Tests
use outboxd.Common.{
  ℕ, zero, suc, ◌+◌, ◌<◌, Bool, true, false, not, ◌&&◌, Bytes, codes, str_eq, Option, none, some,
  List, [], ◌∷◌, ◌++◌, length, ltb, if◌then◌else◌,
}
use outboxd.Common.Result.{Result, ok, err, ◌>>=◌, ◌>>◌, reject_if}
use outboxd.Common.Strings.{is_empty}
use outboxd.Queue.Envelope.{Body, new_body}

pub data VariantError : Type 0 where
  key_lookup_failed encryption_failed key_disappeared signing_failed message_too_large :
      VariantError

-- The services that a variant is made with.
pub record Makers : Type 0 where
  -- openPGPRecipients.KeyID: an error, or the recipient's key if it has one.
  pub key_id : Bytes → Result VariantError (Option Bytes)
  -- openPGPRecipients.Encrypt for a recipient, a key and a message: an error, or the encrypted message
  -- unless the key is gone.
  pub encrypt : Bytes → Bytes → Bytes → Result VariantError (Option Bytes)
  -- signMessage: the signature's header for an originator and a message.
  pub sign : Bytes → Bytes → Result VariantError Bytes
  pub digest : Bytes → Bytes
  pub max_message_bytes : ℕ

-- The map `variants`, the indexes in the recipients' order, the bodies and the bundle.
pub record Bundle : Type 0 where
  pub variants : List (Bytes × ℕ)
  pub indexes : List ℕ
  pub bodies : List Body
  pub bytes : Bytes

unfoldable pub empty_bundle : Bundle
empty_bundle = record { variants = []; indexes = []; bodies = []; bytes = [] }

unfoldable pub find_variant : Bytes → List (Bytes × ℕ) → Option ℕ
find_variant key [] = none
find_variant key ((k, i) ∷ vs) =
    let rest = find_variant key vs in if str_eq k key then some i else rest

unfoldable pub variant_key : Option Bytes → Bytes
variant_key none = codes "plaintext"
variant_key (some key) = codes "key:" ++ key

-- The message for a recipient before it is signed.
unfoldable pub seal : Makers → Bytes → Bytes → Option Bytes → Result VariantError Bytes
seal m message recipient none = ok message
seal m message recipient (some key) = do
  sealed ← m.encrypt recipient key message
  elim sealed [ none ↦ err key_disappeared | some text ↦ ok text ]

-- A variant of an encrypted message has no 8-bit text.
abbrev pub variant_eight_bit : Option Bytes → Bool → Bool
variant_eight_bit none eight_bit = eight_bit
variant_eight_bit (some _) eight_bit = false

unfoldable pub append_variant : (Bytes → Bytes) → Bundle → Bytes → Bytes → Bool → Bundle
append_variant digest b key variant eight_bit = record {
  variants = (key, length b.bodies) ∷ b.variants;
  indexes = b.indexes ++ length b.bodies ∷ [];
  bodies = b.bodies ++ new_body digest (length b.bytes) variant eight_bit ∷ [];
  bytes = b.bytes ++ variant;
}

unfoldable pub add_new :
    Makers → Bytes → Bytes → Bool → Bundle → Bytes → Option Bytes → Result VariantError Bundle
add_new m from message eight_bit b recipient key = do
  text ← seal m message recipient key
  signature ← m.sign from text
  reject_if
      (not (is_empty b.bodies)
        && ltb m.max_message_bytes (length b.bytes + length (signature ++ text)))
      message_too_large
  ok (
      append_variant m.digest b (variant_key key) (signature ++ text)
        (variant_eight_bit key eight_bit))

-- One round of the loop.
unfoldable pub add_recipient :
    Makers → Bytes → Bytes → Bool → Bundle → Bytes → Result VariantError Bundle
add_recipient m from message eight_bit b recipient = do
  key ← m.key_id recipient
  elim (find_variant (variant_key key) b.variants) [
    | some i ↦ ok (record b { indexes = b.indexes ++ i ∷ [] })
    | none ↦ add_new m from message eight_bit b recipient key
  ]

unfoldable pub add_recipients :
    Makers → Bytes → Bytes → Bool → Bundle → List Bytes → Result VariantError Bundle
add_recipients m from message eight_bit b [] = ok b
add_recipients m from message eight_bit b (r ∷ rs) = do
  b' ← add_recipient m from message eight_bit b r
  add_recipients m from message eight_bit b' rs

unfoldable pub prepare_variants :
    Makers → Bytes → Bytes → List Bytes → Bool → Result VariantError Bundle
prepare_variants m from message recipients eight_bit =
    add_recipients m from message eight_bit empty_bundle recipients
