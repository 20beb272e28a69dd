-- ===== src/Config/Domains/Tests.antt =====
-- DomainFor of internal/config/domains.go at concrete domains.
use outboxd.Common.{Bytes, codes, str_eq, none, some, List, [], ◌∷◌, ◌≡◌, refl}
use outboxd.Common.Strings.{has_suffix, to_lower_ascii, trim_dot}
use outboxd.Config.Domains.{Domain, match_domain, domain_for}
use outboxd.Config.Domains.Specific.{IsMostSpecific, IsFrom, domain_for-IsMostSpecific}

abbrev named : Bytes → Domain
named name = record {
  name = name;
  selector = codes "s1";
  private_key_file = codes "key.pem";
  headers = codes "From" ∷ codes "Sender" ∷ [];
}

abbrev domains : List Domain
domains =
    named (codes "example.org") ∷ named (codes "mail.example.org") ∷ named (codes "org.net") ∷ []

subdomain :
    domain_for domains (codes "A.Mail.example.org.") ≡ some (named (codes "mail.example.org"))
unfolding domain_for match_domain has_suffix to_lower_ascii trim_dot str_eq
subdomain = refl

not_a_label : domain_for domains (codes "myexample.org") ≡ none
unfolding domain_for match_domain has_suffix to_lower_ascii trim_dot str_eq
not_a_label = refl

domain_for-IsMostSpecific_example :
    IsMostSpecific
      (to_lower_ascii (trim_dot (codes "a.mail.example.org")))
      domains
      (domain_for domains (codes "a.mail.example.org"))
    × IsFrom domains none (domain_for domains (codes "a.mail.example.org"))
domain_for-IsMostSpecific_example = domain_for-IsMostSpecific domains (codes "a.mail.example.org")
