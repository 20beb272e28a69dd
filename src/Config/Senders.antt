-- ===== src/Config/Senders.antt =====
-- internal/config/helpers.go: which addresses a user may send as. strings.EqualFold is a parameter: it
-- folds by the tables of Unicode.
use outboxd.Common.{◌+◌, Bool, false, ◌&&◌, ◌||◌, Bytes, codes, str_eq, none, some, List, ltb}
use outboxd.Common.Strings.{any, take, drop, has_prefix, last_index_byte}
use outboxd.Common.Utf8.{trim_space}
use outboxd.Mailbox.{split_address}

module _ (equal_fold : Bytes → Bytes → Bool) where
  -- *@domain
  abbrev pub is_wildcard_for : Bytes → Bytes → Bool
  is_wildcard_for sender domain =
      has_prefix sender (codes "*@") && equal_fold (drop 2 sender) domain

  -- local@domain, where the local part is not empty
  abbrev pub is_exactly : Bytes → Bytes → Bytes → Bool
  is_exactly sender local domain = elim (last_index_byte sender b'@') [
    | none ↦ false
    | some at ↦
        ltb 0 at && str_eq (take at sender) local && equal_fold (drop (at + 1) sender) domain
  ]

  -- User.Allows
  unfoldable pub allows : List Bytes → Bytes → Bool
  allows allowed_senders addr = elim (split_address (trim_space addr)) [
    | none ↦ false
    | some (local, domain) ↦
        any (λ sender. is_wildcard_for sender domain || is_exactly sender local domain)
          allowed_senders
  ]
