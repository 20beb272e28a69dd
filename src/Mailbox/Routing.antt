-- ===== src/Mailbox/Routing.antt =====
-- internal/mailbox/mailbox.go: what RoutingDomain returns.
use outboxd.Common.{
  ◌≤◌, Bool, true, false, ◌||◌, Bytes, codes, Option, some, length, ◌≡◌, refl, arith, str_eq_refl,
  Option-cases, inl, inr,
}
use outboxd.Common.Result.{ok, err, bind-parts, then-parts}
use outboxd.Common.Strings.{
  all, any, is_empty, has_prefix, has_suffix, contains, split_at_byte, to_lower_ascii,
}
use outboxd.Common.Utf8.{valid_utf8, trim_space}
use outboxd.Mailbox.{
  check_domain, check_ascii, convert, ascii_domain, routing_domain, domain_of, is_bad_label,
  split_address, empty_domain,
}
use outboxd.Mailbox.Labels.{
  dot, is_domain_byte, labels-dots, domain-valid_utf8, trim_space-domain, to_lower-twice,
  to_lower-domain,
}

-- What an accepted name is: between one and 253 bytes, two labels or more, each of 1 to 63 bytes.
ascii-parts :
    (fqdn : Bool) (a : Bytes)
    → check_ascii fqdn a ≡ ok tt
    → (is_empty a ≡ false) × (any is_bad_label (split_at_byte a dot) ≡ false)
unfolding check_ascii
ascii-parts fqdn a h = (ground arith, ground arith)

ascii-length :
    (fqdn : Bool) (a : Bytes) → check_ascii fqdn a ≡ ok tt → (is_empty a ≡ false) × (length a ≤ 253)
unfolding check_ascii
ascii-length fqdn a h = (ground arith, ground arith)

check_domain-ok :
    (a : Bytes)
    → is_empty a ≡ false
    → valid_utf8 a ≡ true
    → trim_space a ≡ a
    → (has_prefix a (codes ".") || has_suffix a (codes ".") || contains a (codes "..")) ≡ false
    → check_domain a ≡ ok tt
unfolding check_domain
check_domain-ok a e v t d = rw (e, v, t, d, str_eq_refl a) refl

module _ (to_ascii : Bytes → Option Bytes)
    (ascii : (d : Bytes) (a : Bytes) → to_ascii d ≡ some a → all is_domain_byte a ≡ true)
    (fixed : (d : Bytes) (a : Bytes)
      → to_ascii d ≡ some a
      → to_ascii (to_lower_ascii a) ≡ some (to_lower_ascii a)) where
  convert-some : (d a : Bytes) → convert to_ascii d ≡ ok a → to_ascii d ≡ some a
  unfolding convert
  convert-some d a h = ground arith

  some-convert : (d a : Bytes) → to_ascii d ≡ some a → convert to_ascii d ≡ ok a
  unfolding convert
  some-convert d a h = rw (h, convert) refl

  -- What the check after the conversion leaves.
  result-IsShort :
      (fqdn : Bool) (d r : Bytes)
      → ascii_domain to_ascii fqdn d ≡ ok r
      → (is_empty r ≡ false) × (length r ≤ 253)
  unfolding ascii_domain check_ascii
  result-IsShort fqdn d r h =
      let (_, h1) = then-parts (check_domain d) _ h in
      let (a, _, h2) = bind-parts (convert to_ascii d) _ h1 in
      let (after, h3) =
        then-parts (check_ascii fqdn (to_lower_ascii a)) (ok (to_lower_ascii a)) h2 in
      let e : r ≡ to_lower_ascii a = cc in rw e (ascii-length fqdn (to_lower_ascii a) after)

  ascii_domain-twice :
      (fqdn : Bool) (d r : Bytes)
      → ascii_domain to_ascii fqdn d ≡ ok r
      → ascii_domain to_ascii fqdn r ≡ ok r
  unfolding ascii_domain
  ascii_domain-twice fqdn d r h =
      let (before, h1) = then-parts (check_domain d) _ h in
      let (a, ha, h2) = bind-parts (convert to_ascii d) _ h1 in
      let (after, h3) =
        then-parts (check_ascii fqdn (to_lower_ascii a)) (ok (to_lower_ascii a)) h2 in
      let e : r ≡ to_lower_ascii a = cc in
      let low = to_lower_ascii a in
      let some_a = convert-some d a ha in
      let bytes = to_lower-domain a (ascii d a some_a) in
      let (nonempty, labels) = ascii-parts fqdn low after in
      let checked =
        check_domain-ok low nonempty (domain-valid_utf8 low bytes) (trim_space-domain low bytes)
          (labels-dots low labels) in
      rw (e, checked, some-convert low low (fixed d a some_a), to_lower-twice a, after) refl

  -- RoutingDomain returns its own result unchanged, where the conversion returns ASCII letters,
  -- digits, hyphens and dots and leaves what it returned, in lower case, as it is.
  pub routing_domain-twice :
      (d r : Bytes) → routing_domain to_ascii d ≡ ok r → routing_domain to_ascii r ≡ ok r
  unfolding routing_domain
  routing_domain-twice d r h = ascii_domain-twice true d r h

  -- The domain of an address is its own routing domain, and neither empty nor longer than a DNS name.
  pub domain_of-IsRouting :
      (addr r : Bytes)
      → domain_of to_ascii addr ≡ ok r
      → (routing_domain to_ascii r ≡ ok r) × (is_empty r ≡ false) × (length r ≤ 253)
  unfolding domain_of
  domain_of-IsRouting addr r h = elim (Option-cases (split_address addr)) [
    | inl e ↦ let bad : domain_of to_ascii addr ≡ err empty_domain = rw (e, domain_of) refl in cc
    | inr ((local, domain), e) ↦
        let routed : routing_domain to_ascii domain ≡ ok r = ground arith in
        let (nonempty, short) = result-IsShort true domain r (unfold routing_domain in routed) in
        (routing_domain-twice domain r routed, nonempty, short)
  ]
