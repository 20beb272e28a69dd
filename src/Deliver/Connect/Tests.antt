-- ===== src/Deliver/Connect/Tests.antt =====
-- The sessions of internal/deliver/connect.go at concrete peers.
use outboxd.Common.{
  ◌≤◌, true, false, Bytes, codes, str_eq, none, some, List, [], ◌∷◌, ◌≡◌, refl, if◌then◌else◌,
}
use outboxd.Common.Map.{insert, get}
use outboxd.Common.Result.{ok, err}
use outboxd.Common.Utf8.{decode_rune, trim_left_after, trim_right_after, trim_space, runes_after}
use outboxd.Deliver.Response.{smtp_code}
use outboxd.Deliver.Discovery.{Deliverer, MxCandidate}
use outboxd.Deliver.Discovery.Selected.{times}
use outboxd.Deliver.Connect.{
  TlsConfig, plaintext_allowed, insecure_tls_allowed, effective_tls, reply, transport, cut_space,
  to_upper_ascii, add_extensions, parse_extensions, Client, extension, Endpoint, tls_failed,
  fall_back, upgrade, after_ehlo, dial_and_session, try_addresses, addresses, connect,
}
use outboxd.Deliver.Connect.Secure.{IsSecure, connect-IsSecure}

abbrev deliverer : Deliverer
deliverer = record {
  bind_ipv4 = [];
  bind_ipv6 = [];
  allow_private_destinations = false;
  allowlist = [];
  max_mx = 2;
  max_ip = 3;
  order_ips = none;
  order_mx = none;
  show_ip = λ ip. ip;
  lookup_net_ip = λ network host. ok [];
  lookup_mx = λ domain. ok [];
}

abbrev strict : TlsConfig
strict = record {
  tls_mode = codes "required";
  allow_plaintext = some true;
  require_valid_mx_tls_cert = true;
}

abbrev lenient : TlsConfig
lenient = record strict { tls_mode = codes "opportunistic" }

abbrev hello : List Bytes
hello = codes "mx.example" ∷ codes "PIPELINING" ∷ codes "starttls" ∷ codes "SIZE 1000" ∷ []

-- The peer offers STARTTLS and the handshake succeeds.
abbrev good : Endpoint
good = record {
  dial = none;
  greeting = none;
  ehlo = ok hello;
  helo = none;
  start_tls = λ insecure. none;
  ehlo_again = ok (codes "mx.example" ∷ codes "8BITMIME" ∷ []);
}

-- The handshake fails.
abbrev bad : Endpoint
bad = record good { start_tls = λ insecure. some (transport (codes "certificate")) }

-- The peer knows no EHLO.
abbrev old : Endpoint
old = record good {
  ehlo = err (reply (record { code = 502; enhanced_code = []; message = codes "unknown" }));
}

abbrev candidate : MxCandidate
candidate = record {
  host = codes "mx.example";
  ips = some ((8 ∷ 8 ∷ 8 ∷ 8 ∷ []) ∷ (8 ∷ 8 ∷ 4 ∷ 4 ∷ []) ∷ []);
}

-- The first address fails its handshake, the second one is good.
abbrev network : Bytes → Endpoint
network ip = if str_eq ip (8 ∷ 8 ∷ 4 ∷ 4 ∷ []) then good else bad

abbrev session : Client
session = record { ext = (codes "8BITMIME", []) ∷ []; tls = true; verified = true }

second_address : connect deliverer strict network candidate true ≡ ok session
unfolding connect try_addresses dial_and_session after_ehlo upgrade effective_tls plaintext_allowed
    insecure_tls_allowed extension parse_extensions add_extensions cut_space to_upper_ascii insert
    get str_eq trim_space trim_left_after trim_right_after runes_after decode_rune
second_address = refl

no_downgrade :
    connect deliverer lenient (λ ip. bad) candidate true
    ≡ err (tls_failed (transport (codes "certificate")))
unfolding connect try_addresses dial_and_session after_ehlo upgrade effective_tls plaintext_allowed
    insecure_tls_allowed extension parse_extensions add_extensions cut_space to_upper_ascii insert
    get str_eq trim_space trim_left_after trim_right_after runes_after decode_rune
no_downgrade = refl

plain_session :
    connect deliverer lenient (λ ip. old) candidate true
    ≡ ok (record { ext = []; tls = false; verified = false })
unfolding connect try_addresses dial_and_session fall_back effective_tls plaintext_allowed str_eq
    smtp_code
plain_session = refl

connect-IsSecure_example :
    (ips : List Bytes) × (addresses deliverer candidate ≡ ok ips)
    × (ip : Bytes) × (1 ≤ times ip ips)
    × IsSecure strict true (network ip) session
connect-IsSecure_example =
    connect-IsSecure deliverer strict network candidate true session second_address
