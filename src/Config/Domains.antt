-- ===== src/Config/Domains.antt =====
-- internal/config/domains.go: the configured domain that signs for a sender's domain, which is ASCII.
pub mod Specific
mod Tests
use outboxd.Common.{
  ℕ, Bool, true, false, not, ◌&&◌, ◌||◌, Bytes, codes, str_eq, Option, none, some, List, [], ◌∷◌,
  ◌++◌, length, ltb, if◌then◌else◌,
}
use outboxd.Common.Strings.{has_suffix, to_lower_ascii, trim_dot}

pub record Domain : Type 0 where
  pub name : Bytes
  pub selector : Bytes
  pub private_key_file : Bytes
  pub headers : List Bytes

abbrev pub covers : Bytes → Domain → Bool
covers name d = str_eq name d.name || has_suffix name (codes "." ++ d.name)

abbrev pub is_longer : Domain → Option Domain → Bool
is_longer d none = true
is_longer d (some matched) = ltb (length matched.name) (length d.name)

-- The loop, from what has matched.
unfoldable pub match_domain : Bytes → List Domain → Option Domain → Option Domain
match_domain name [] matched = matched
match_domain name (d ∷ ds) matched =
    match_domain name ds (if covers name d && is_longer d matched then some d else matched)

unfoldable pub domain_for : List Domain → Bytes → Option Domain
domain_for domains name = match_domain (to_lower_ascii (trim_dot name)) domains none
