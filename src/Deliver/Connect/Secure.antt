-- ===== src/Deliver/Connect/Secure.antt =====
-- internal/deliver/connect.go: what holds of a session that connect returns.
use outboxd.Common.{
  ◌≤◌, Bool, true, false, not, Bytes, codes, str_eq, Option, none, some, List, [], ◌∷◌, ◌≡◌, ◌⊎◌,
  inl, inr, refl, arith, Bool-cases,
}
use outboxd.Common.Result.{
  ok, err, ◌>>◌, reject_if, bind-parts, then-parts, reject_if-parts, Result-cases,
}
use outboxd.Deliver.Discovery.{Deliverer, MxCandidate}
use outboxd.Deliver.Discovery.Selected.{times, times-head, times-tail}
use outboxd.Deliver.Connect.{
  TlsConfig, OutboundTls, effective_tls, plaintext_allowed, insecure_tls_allowed, Failure, as_smtp,
  Client, Endpoint, ConnectError, extension, plain_client, not_understood, fall_back, upgrade,
  after_ehlo, dial_and_session, try_addresses, addresses, connect, no_error, lift_peer,
  no_usable_ip, peer, tls_failed, dial_failed,
}

-- The peer gave no way to STARTTLS: it does not offer it, or knows no EHLO and the message needs
-- none of the extensions.
abbrev pub OffersNoTls : Bool → Endpoint → Type 0
OffersNoTls no_extensions at =
    ((lines : List Bytes) × (at.ehlo ≡ ok lines)
      × (extension (plain_client lines) (codes "STARTTLS") ≡ false))
    ⊎ ((no_extensions ≡ true)
        × (f : Failure) × (at.ehlo ≡ err f)
        × (not_understood (as_smtp f) ≡ true))

abbrev pub IsSecureFor : OutboundTls → Bool → Endpoint → Client → Type 0
IsSecureFor policy no_extensions at client =
    ((client.tls ≡ true)
      × (client.verified ≡ not policy.insecure_skip_verify)
      × (at.start_tls policy.insecure_skip_verify ≡ none))
    ⊎ ((client.tls ≡ false) × (policy.allow_plaintext ≡ true) × OffersNoTls no_extensions at)

no_error-none :
    {E : Type 0} (lift : E → ConnectError) (e : Option E) → no_error lift e ≡ ok tt → e ≡ none
no_error-none lift none h = refl
no_error-none lift (some e) h = cc

fall_back-IsSecureFor :
    (policy : OutboundTls) (no_extensions : Bool) (at : Endpoint) (f : Failure) (client : Client)
    → at.ehlo ≡ err f
    → fall_back policy no_extensions at f ≡ ok client
    → IsSecureFor policy no_extensions at client
unfolding fall_back
fall_back-IsSecureFor policy no_extensions at f client refused h =
    let (allowed, made) = then-parts (reject_if _ (peer f) >> no_error peer at.helo) _ h in
    let (fit, _) = reject_if-parts _ (peer f) (no_error peer at.helo) allowed in
    inr (ground arith, ground arith, inr (ground arith, f, refused, ground arith))

upgrade-IsSecureFor :
    (policy : OutboundTls) (no_extensions : Bool) (at : Endpoint) (client : Client)
    → upgrade policy at ≡ ok client
    → IsSecureFor policy no_extensions at client
unfolding upgrade
upgrade-IsSecureFor policy no_extensions at client h =
    let handshake = no_error tls_failed (at.start_tls policy.insecure_skip_verify) in
    let (lines, greeted, made) = bind-parts (handshake >> lift_peer at.ehlo_again) _ h in
    let (shaken, _) = then-parts handshake (lift_peer at.ehlo_again) greeted in
    inl (
      ground arith,
      ground arith,
      no_error-none tls_failed (at.start_tls policy.insecure_skip_verify) shaken,
    )

after_ehlo-IsSecureFor :
    (policy : OutboundTls) (no_extensions : Bool) (at : Endpoint) (lines : List Bytes)
    (client : Client)
    → at.ehlo ≡ ok lines
    → after_ehlo policy at (plain_client lines) ≡ ok client
    → IsSecureFor policy no_extensions at client
unfolding after_ehlo
after_ehlo-IsSecureFor policy no_extensions at lines client greeted h =
    elim (Bool-cases (extension (plain_client lines) (codes "STARTTLS"))) [
      | inl e ↦ upgrade-IsSecureFor policy no_extensions at client (rw (e, after_ehlo) at h)
      | inr e ↦
          let made = rw (e, after_ehlo) at h in
          inr (ground arith, ground arith, inl (lines, greeted, e))
    ]

dial-IsSecureFor :
    (policy : OutboundTls) (no_extensions : Bool) (at : Endpoint) (client : Client)
    → dial_and_session policy no_extensions at ≡ ok client
    → IsSecureFor policy no_extensions at client
unfolding dial_and_session
dial-IsSecureFor policy no_extensions at client h =
    let dialed = no_error dial_failed at.dial >> no_error peer at.greeting in
    let (_, greeted) = then-parts dialed _ h in
    elim (Result-cases at.ehlo) [
      | inl (lines, e) ↦
          after_ehlo-IsSecureFor policy no_extensions at lines client e (rw e at greeted)
      | inr (f, e) ↦ fall_back-IsSecureFor policy no_extensions at f client e (rw e at greeted)
    ]

try_addresses-IsSecureFor :
    (policy : OutboundTls) (no_extensions : Bool) (net : Bytes → Endpoint) (ips : List Bytes)
    (last : ConnectError) (client : Client)
    → try_addresses policy no_extensions net ips last ≡ ok client
    → (ip : Bytes) × (1 ≤ times ip ips) × IsSecureFor policy no_extensions (net ip) client
unfolding try_addresses
try_addresses-IsSecureFor policy no_extensions net [] last client h = cc
try_addresses-IsSecureFor policy no_extensions net (ip ∷ ips) last client h =
    elim (Result-cases (dial_and_session policy no_extensions (net ip))) [
      | inl (found, e) ↦
          let same : dial_and_session policy no_extensions (net ip) ≡ ok client = ground arith in
          (
            ip,
            omega (arith, times-head ip ips),
            dial-IsSecureFor policy no_extensions (net ip) client same,
          )
      | inr (f, e) ↦
          let (at, has, secure) =
            try_addresses-IsSecureFor policy no_extensions net ips f client
              (rw (e, try_addresses) at h) in
          (at, omega (arith, times-tail at ip ips), secure)
    ]

-- The configuration lets a message go out without TLS.
abbrev pub AllowsPlaintext : TlsConfig → Type 0
AllowsPlaintext c = (str_eq c.tls_mode (codes "required") ≡ false) × (c.allow_plaintext ≡ some true)

-- What a session is, and under which configuration.
abbrev pub IsSecure : TlsConfig → Bool → Endpoint → Client → Type 0
IsSecure c no_extensions at client =
    ((client.tls ≡ true)
      × (at.start_tls (insecure_tls_allowed c) ≡ none)
      × (client.verified ≡ not (insecure_tls_allowed c)))
    ⊎ ((client.tls ≡ false) × AllowsPlaintext c × OffersNoTls no_extensions at)

effective-IsSecure :
    (c : TlsConfig) (no_extensions : Bool) (at : Endpoint) (client : Client)
    → IsSecureFor (effective_tls c) no_extensions at client
    → IsSecure c no_extensions at client
unfolding effective_tls plaintext_allowed
effective-IsSecure c no_extensions at client (inl (t, v, s)) = inl (t, s, v)
effective-IsSecure c no_extensions at client (inr (t, allowed, offers)) =
    inr (t, (ground arith, ground arith), offers)

-- Whatever session `connect` returns, it is to an address of the candidate: one that came with it,
-- or one that was looked up. Either it is under TLS after a handshake that the configuration asks
-- for, with the certificate checked unless the configuration allows insecure TLS. Or it is in the
-- clear, and then the configuration allows plaintext and does not require TLS, and the peer offers
-- no STARTTLS, or answers EHLO as unknown where the message needs no extension.
pub connect-IsSecure :
    (d : Deliverer) (c : TlsConfig) (net : Bytes → Endpoint) (candidate : MxCandidate)
    (no_extensions : Bool) (client : Client)
    → connect d c net candidate no_extensions ≡ ok client
    → (ips : List Bytes) × (addresses d candidate ≡ ok ips)
      × (ip : Bytes) × (1 ≤ times ip ips)
      × IsSecure c no_extensions (net ip) client
unfolding connect
connect-IsSecure d c net candidate no_extensions client h =
    let (ips, found, tried) = bind-parts (addresses d candidate) _ h in
    let (ip, has, secure) =
      try_addresses-IsSecureFor (effective_tls c) no_extensions net ips no_usable_ip client tried in
    (ips, found, ip, has, effective-IsSecure c no_extensions (net ip) client secure)
