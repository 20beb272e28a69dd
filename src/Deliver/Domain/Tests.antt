-- ===== src/Deliver/Domain/Tests.antt =====
-- The verdicts of internal/deliver/domain.go at concrete candidates.
use outboxd.Common.{◌≡◌, refl, List, [], ◌∷◌, codes}
use outboxd.Deliver.Domain.{
  smtp_utf8_unsupported, eight_bit_unsupported, private_destination, other_error, fails, unfinished,
  hosts, domain, Step, rejected, deferred,
}
use outboxd.Deliver.Domain.Verdicts.{domain-mixed}

abbrev mixed_steps : List Step
mixed_steps = fails smtp_utf8_unsupported ∷ unfinished ∷ fails (other_error (codes "timeout")) ∷ []

domain-mixed_example :
    (domain (
        hosts (
          fails (private_destination (codes "10.0.0.1"))
          ∷ fails smtp_utf8_unsupported
          ∷ fails eight_bit_unsupported
          ∷ []))
      ≡ rejected (codes "10.0.0.1"))
    × (domain (
          hosts (
            fails smtp_utf8_unsupported
            ∷ fails (private_destination (codes "10.0.0.1"))
            ∷ fails eight_bit_unsupported
            ∷ []))
        ≡ deferred smtp_utf8_unsupported)
domain-mixed_example = domain-mixed (codes "10.0.0.1") (fails eight_bit_unsupported ∷ []) refl
