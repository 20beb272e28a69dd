-- ===== src/Mailbox/AsciiNames.antt =====
-- A conversion of domains for the tests of internal/mailbox and its clients: that of ASCII names.
use outboxd.Common.{true, Bytes, Option, none, some, ◌≡◌, refl, arith, if◌then◌else◌}
use outboxd.Common.Strings.{all, to_lower_ascii}
use outboxd.Mailbox.Labels.{is_domain_byte, to_lower-domain, to_lower-twice}

unfoldable pub ascii_names : Bytes → Option Bytes
ascii_names d = if all is_domain_byte d then some (to_lower_ascii d) else none

pub ascii_names-domain : (d a : Bytes) → ascii_names d ≡ some a → all is_domain_byte a ≡ true
unfolding ascii_names
ascii_names-domain d a h = ground (arith, to_lower-domain d)

pub ascii_names-fixed :
    (d a : Bytes)
    → ascii_names d ≡ some a
    → ascii_names (to_lower_ascii a) ≡ some (to_lower_ascii a)
unfolding ascii_names
ascii_names-fixed d a h =
    let low = to_lower_ascii a in
    let bytes = to_lower-domain a (ascii_names-domain d a h) in rw (bytes, to_lower-twice a) refl
