-- ===== src/Deliver/Connect.antt =====
-- internal/deliver/connect.go with the greetings of client.go: from the addresses of a host to a
-- session. What the peer, the network and the TLS handshake do at one address is a parameter.
pub mod Secure
mod Tests
use outboxd.Common.{
  ℕ, zero, suc, ◌-◌, Bool, true, false, not, ◌&&◌, ◌||◌, Bytes, codes, str_eq, Option, none, some,
  List, [], ◌∷◌, ◌==◌, if◌then◌else◌,
}
use outboxd.Common.Map.{Map, insert, get}
use outboxd.Common.Result.{Result, ok, err, ◌>>=◌, ◌>>◌, reject_if}
use outboxd.Common.Strings.{is_empty, is_lower}
use outboxd.Common.Utf8.{trim_space}
use outboxd.Deliver.Response.{SmtpError, smtp_code}
use outboxd.Deliver.Discovery.{Deliverer, MxCandidate, LookupError, lookup_host_ips}

-- config.Delivery, as far as TLS goes. `none` is an unset allow_plaintext.
pub record TlsConfig : Type 0 where
  pub tls_mode : Bytes
  pub allow_plaintext : Option Bool
  pub require_valid_mx_tls_cert : Bool

unfoldable pub plaintext_allowed : TlsConfig → Bool
plaintext_allowed c =
    if str_eq c.tls_mode (codes "required")
    then false
    else elim c.allow_plaintext [ none ↦ false | some allowed ↦ allowed ]

unfoldable pub insecure_tls_allowed : TlsConfig → Bool
insecure_tls_allowed c =
    if str_eq c.tls_mode (codes "opportunistic_insecure")
    then true
    else str_eq c.tls_mode (codes "opportunistic") && not c.require_valid_mx_tls_cert

pub record OutboundTls : Type 0 where
  pub require_starttls : Bool
  pub insecure_skip_verify : Bool
  pub allow_plaintext : Bool

unfoldable pub effective_tls : TlsConfig → OutboundTls
effective_tls c = record {
  require_starttls = str_eq c.tls_mode (codes "required") || not (plaintext_allowed c);
  insecure_skip_verify = insecure_tls_allowed c;
  allow_plaintext = plaintext_allowed c && not (str_eq c.tls_mode (codes "required"));
}

-- A negative reply, or an error of the transport with its text.
pub data Failure : Type 0 where
  reply : SmtpError → Failure
  transport : Bytes → Failure

abbrev pub as_smtp : Failure → Option SmtpError
as_smtp (reply e) = some e
as_smtp (transport _) = none

-- The texts before and after the first space of strings.Cut.
abbrev pub cut_head : ℕ → Bytes × Bytes → Bytes × Bytes
cut_head c (before, after) = (c ∷ before, after)

unfoldable pub cut_space : Bytes → Bytes × Bytes
cut_space [] = ([], [])
cut_space (c ∷ s) = let rest = cut_space s in if c == b' ' then ([], s) else cut_head c rest

-- strings.ToUpper of an ASCII text.
unfoldable pub to_upper_ascii : Bytes → Bytes
to_upper_ascii [] = []
to_upper_ascii (c ∷ s) = (if is_lower c then c - 32 else c) ∷ to_upper_ascii s

abbrev pub add_extension : Bytes → Map Bytes → Map Bytes
add_extension line ext =
    if is_empty line then ext else insert (to_upper_ascii (cut_space line).0) (cut_space line).1 ext

-- The lines after the first one.
unfoldable pub add_extensions : List Bytes → Map Bytes → Map Bytes
add_extensions [] ext = ext
add_extensions (line ∷ lines) ext = add_extensions lines (add_extension (trim_space line) ext)

unfoldable pub parse_extensions : List Bytes → Map Bytes
parse_extensions [] = []
parse_extensions (_ ∷ lines) = add_extensions lines []

-- `verified` is that the handshake checked the certificate.
pub record Client : Type 0 where
  pub ext : Map Bytes
  pub tls : Bool
  pub verified : Bool

unfoldable pub extension : Client → Bytes → Bool
extension c name = elim (get (to_upper_ascii name) c.ext) [ none ↦ false | some _ ↦ true ]

-- What happens at one address: the dial, the replies to the greetings (with the lines of a positive
-- one), and STARTTLS with its handshake, which may skip the verification.
pub record Endpoint : Type 0 where
  pub dial : Option Bytes
  pub greeting : Option Failure
  pub ehlo : Result Failure (List Bytes)
  pub helo : Option Failure
  pub start_tls : Bool → Option Failure
  pub ehlo_again : Result Failure (List Bytes)

pub data ConnectError : Type 0 where
  lookup : LookupError → ConnectError
  dial_failed : Bytes → ConnectError
  peer : Failure → ConnectError
  tls_required no_usable_ip : ConnectError
  tls_failed : Failure → ConnectError

abbrev pub no_error : {E : Type 0} → (E → ConnectError) → Option E → Result ConnectError (Unit {0})
no_error lift none = ok tt
no_error lift (some e) = err (lift e)

abbrev pub lift_peer {ℓ} : {A : Type ℓ} → Result Failure A → Result ConnectError A
lift_peer (ok v) = ok v
lift_peer (err e) = err (peer e)

abbrev pub plain_client : List Bytes → Client
plain_client lines = record { ext = parse_extensions lines; tls = false; verified = false }

abbrev pub not_understood : Option SmtpError → Bool
not_understood e = smtp_code e == 500 || smtp_code e == 502 || smtp_code e == 504

-- EHLO failed: HELO, if the policy allows plaintext and the message needs no extension.
unfoldable pub fall_back : OutboundTls → Bool → Endpoint → Failure → Result ConnectError Client
fall_back policy no_extensions at f =
    reject_if (not policy.allow_plaintext || not no_extensions || not (not_understood (as_smtp f)))
      (peer f)
    >> no_error peer at.helo
    >> ok (record { ext = []; tls = false; verified = false })

unfoldable pub upgrade : OutboundTls → Endpoint → Result ConnectError Client
upgrade policy at =
    no_error tls_failed (at.start_tls policy.insecure_skip_verify)
    >> lift_peer at.ehlo_again
    >>= λ lines. ok (record {
      ext = parse_extensions lines;
      tls = true;
      verified = not policy.insecure_skip_verify;
    })

unfoldable pub after_ehlo : OutboundTls → Endpoint → Client → Result ConnectError Client
after_ehlo policy at client =
    if extension client (codes "STARTTLS")
    then upgrade policy at
    else if policy.require_starttls || not policy.allow_plaintext
    then err tls_required
    else ok client

unfoldable pub dial_and_session : OutboundTls → Bool → Endpoint → Result ConnectError Client
dial_and_session policy no_extensions at =
    no_error dial_failed at.dial >> no_error peer at.greeting >> elim at.ehlo [
      | err f ↦ fall_back policy no_extensions at f
      | ok lines ↦ after_ehlo policy at (plain_client lines)
    ]

-- The loop over the addresses, with the last error.
unfoldable pub try_addresses :
    OutboundTls → Bool → (Bytes → Endpoint) → List Bytes → ConnectError → Result ConnectError Client
try_addresses policy no_extensions net [] last = err last
try_addresses policy no_extensions net (ip ∷ ips) last =
    elim (dial_and_session policy no_extensions (net ip)) [
      | ok client ↦ ok client
      | err e ↦ try_addresses policy no_extensions net ips e
    ]

abbrev pub lift_lookup : Result LookupError (List Bytes) → Result ConnectError (List Bytes)
lift_lookup (ok ips) = ok ips
lift_lookup (err e) = err (lookup e)

abbrev pub addresses : Deliverer → MxCandidate → Result ConnectError (List Bytes)
addresses d c = elim c.ips [ none ↦ lift_lookup (lookup_host_ips d c.host) | some ips ↦ ok ips ]

unfoldable pub connect :
    Deliverer → TlsConfig → (Bytes → Endpoint) → MxCandidate → Bool → Result ConnectError Client
connect d c net candidate no_extensions = addresses d candidate >>= λ ips.
    try_addresses (effective_tls c) no_extensions net ips no_usable_ip
