-- ===== src/Mailbox.antt =====
-- internal/mailbox/mailbox.go: mailboxes and routing domains. The conversion of the IDNA profile
-- (golang.org/x/net/idna) and the grammar of net/mail.ParseAddress are parameters; strings.ToLower
-- is applied to the conversion's result, which is ASCII.
pub mod Routing
pub mod Labels
pub mod AsciiNames
mod Tests
use outboxd.Common.{
  ℕ, ◌+◌, ◌-◌, Bool, true, false, not, ◌&&◌, ◌||◌, Bytes, codes, str_eq, Option, none, some, List,
  [], ◌∷◌, ◌++◌, length, ltb, ◌==◌, if◌then◌else◌,
}
use outboxd.Common.Result.{Result, ok, err, ◌>>=◌, ◌>>◌, reject_if}
use outboxd.Common.Strings.{
  take, drop, any, is_empty, has_prefix, has_suffix, contains, last_index_byte, split_at_byte,
  to_lower_ascii,
}
use outboxd.Common.Utf8.{valid_utf8, trim_space}

abbrev pub max_local_octets : ℕ
max_local_octets = 64

abbrev pub max_mailbox_octets : ℕ
max_mailbox_octets = 254

pub data MailboxError : Type 0 where
  empty_domain invalid_utf8 invalid_domain domain_label domain_length : MailboxError
  local_length mailbox_length empty_address unparsable display_name : MailboxError

-- The texts before and after the final '@', or `none` where one of them is empty or there is none.
unfoldable pub split_address : Bytes → Option (Bytes × Bytes)
split_address addr = elim (last_index_byte addr b'@') [
  | none ↦ none
  | some at ↦
      if at == 0 || at + 1 == length addr then none else some (take at addr, drop (at + 1) addr)
]

abbrev pub is_bad_label : Bytes → Bool
is_bad_label label = is_empty label || ltb 63 (length label)

-- The checks before the conversion.
unfoldable pub check_domain : Bytes → Result MailboxError (Unit {0})
check_domain domain = do
  reject_if (is_empty domain) empty_domain
  reject_if (not (valid_utf8 domain)) invalid_utf8
  reject_if (not (str_eq (trim_space domain) domain)) invalid_domain
  reject_if
      (has_prefix domain (codes ".")
        || has_suffix domain (codes ".")
        || contains domain (codes ".."))
      domain_label

-- The checks after it.
unfoldable pub check_ascii : Bool → Bytes → Result MailboxError (Unit {0})
check_ascii require_fqdn ascii = do
  reject_if (is_empty ascii) empty_domain
  reject_if (ltb 253 (length ascii)) domain_length
  reject_if (require_fqdn && ltb (length (split_at_byte ascii b'.')) 2) domain_label
  reject_if (any is_bad_label (split_at_byte ascii b'.')) domain_label

-- `to_ascii` is idnaProfile.ToASCII, `none` where it returns an error.
module _ (to_ascii : Bytes → Option Bytes) where
  unfoldable pub convert : Bytes → Result MailboxError Bytes
  convert domain = elim (to_ascii domain) [ none ↦ err invalid_domain | some ascii ↦ ok ascii ]

  unfoldable pub ascii_domain : Bool → Bytes → Result MailboxError Bytes
  ascii_domain require_fqdn domain = do
    check_domain domain
    ascii ← convert domain
    check_ascii require_fqdn (to_lower_ascii ascii)
    ok (to_lower_ascii ascii)

  unfoldable pub routing_domain : Bytes → Result MailboxError Bytes
  routing_domain domain = ascii_domain true domain

  unfoldable pub domain_of : Bytes → Result MailboxError Bytes
  domain_of addr = elim (split_address addr) [
    | none ↦ err empty_domain
    | some (local, domain) ↦ routing_domain domain
  ]

  -- The domain of a mailbox: an address literal is accepted as it stands.
  unfoldable pub check_mailbox_domain : Bytes → Result MailboxError (Unit {0})
  check_mailbox_domain domain =
      if has_prefix domain (codes "[") && has_suffix domain (codes "]")
      then reject_if (ltb 255 (length domain)) domain_length
      else (ascii_domain false domain >>= λ _. ok tt)

  unfoldable pub validate_address : Bytes → Result MailboxError (Unit {0})
  validate_address addr = do
    reject_if (not (valid_utf8 addr)) invalid_utf8
    reject_if (ltb max_mailbox_octets (length addr)) mailbox_length
    elim (split_address addr) [
      | none ↦ err empty_domain
      | some (local, domain) ↦ do
        reject_if (ltb max_local_octets (length local)) local_length
        check_mailbox_domain domain
    ]

  -- `parse` is net/mail.ParseAddress: the display name and the address.
  module _ (parse : Bytes → Option (Bytes × Bytes)) where
    abbrev pub has_display_name : Bytes → Bytes → Bytes → Bool
    has_display_name value name addr =
        not (is_empty name)
        || not (str_eq addr value) && not (str_eq value (b'<' ∷ addr ++ b'>' ∷ []))

    unfoldable pub address : Bytes → Result MailboxError Bytes
    address value =
        let trimmed = trim_space value in
        if is_empty trimmed then err empty_address else elim (parse trimmed) [
          | none ↦ err unparsable
          | some (name, addr) ↦ do
            reject_if (has_display_name trimmed name addr) display_name
            validate_address addr
            ok addr
        ]

    unfoldable pub canonical_address : Bytes → Result MailboxError Bytes
    canonical_address value = do
      addr ← address value
      domain ← domain_of addr
      elim (last_index_byte addr b'@') [
        | none ↦ ok domain
        | some at ↦ ok (take (at + 1) addr ++ domain)
      ]
