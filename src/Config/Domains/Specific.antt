-- ===== src/Config/Domains/Specific.antt =====
-- internal/config/domains.go: DomainFor finds the most specific of the domains.
use Prim.{absurd, ⊥}
use outboxd.Common.{
  ℕ, zero, suc, ◌≤◌, true, false, ◌&&◌, Bytes, Option, none, some, List, [], ◌∷◌, length, get_elem?,
  ◌≡◌, ◌⊎◌, inl, inr, refl, sym, arith, All, Bool-cases,
}
use outboxd.Common.Strings.{to_lower_ascii, trim_dot}
use outboxd.Config.Domains.{Domain, covers, is_longer, match_domain, domain_for}

-- No domain covers the name, or this one does and is as long as any that does.
abbrev pub IsMostSpecific : Bytes → List Domain → Option Domain → Type 0
IsMostSpecific name domains none = All (λ d. covers name d ≡ false) domains
IsMostSpecific name domains (some found) =
    (covers name found ≡ true)
    × All (λ d. (covers name d ≡ false) ⊎ (length d.name ≤ length found.name)) domains

-- What the loop returns is what it began with, or one of the domains.
abbrev pub IsFrom : List Domain → Option Domain → Option Domain → Type 0
IsFrom domains start out = (out ≡ start) ⊎ ((i : ℕ) × (get_elem? domains i ≡ out))

pub match_domain-IsFrom :
    (name : Bytes) (domains : List Domain) (start : Option Domain)
    → IsFrom domains start (match_domain name domains start)
unfolding match_domain
match_domain-IsFrom name [] start = inl refl
match_domain-IsFrom name (d ∷ ds) start = elim (Bool-cases (covers name d && is_longer d start)) [
  | inl e ↦
      rw (match_domain, e)
        (elim (match_domain-IsFrom name ds (some d)) [
          | inl same ↦ inr (zero, sym same)
          | inr (i, at) ↦ inr (suc i, at)
        ])
  | inr e ↦
      rw (match_domain, e)
        (elim (match_domain-IsFrom name ds start) [
          | inl same ↦ inl same
          | inr (i, at) ↦ inr (suc i, at)
        ])
]

-- What has matched so far stays the bound.
abbrev Bounds : Bytes → Option Domain → List Domain → Option Domain → Type 0
Bounds name none domains out = IsMostSpecific name domains out
Bounds name (some m) domains none = ⊥
Bounds name (some m) domains (some found) =
    IsMostSpecific name domains (some found) × (length m.name ≤ length found.name)

abbrev Covered : Bytes → Option Domain → Type 0
Covered name none = Unit
Covered name (some m) = covers name m ≡ true

skip-Bounds :
    (name : Bytes) (d : Domain) (ds : List Domain) (start out : Option Domain)
    → (covers name d && is_longer d start) ≡ false
    → Bounds name start ds out
    → Bounds name start (d ∷ ds) out
skip-Bounds name d ds none none e h = (ground arith, h)
skip-Bounds name d ds none (some found) e h = (h.0, (inl (ground arith), h.1))
skip-Bounds name d ds (some m) none e h = h
skip-Bounds name d ds (some m) (some found) e ((c, h), le) =
    ((c, (elim (Bool-cases (covers name d)) [ inr f ↦ inl f | inl f ↦ inr (ground arith) ], h)), le)

take-Bounds :
    (name : Bytes) (d : Domain) (ds : List Domain) (start out : Option Domain)
    → (covers name d && is_longer d start) ≡ true
    → Bounds name (some d) ds out
    → Bounds name start (d ∷ ds) out
take-Bounds name d ds start none e h = absurd h
take-Bounds name d ds none (some found) e ((c, h), le) = (c, (inr le, h))
take-Bounds name d ds (some m) (some found) e ((c, h), le) = ((c, (inr le, h)), ground arith)

match_domain-Bounds :
    (name : Bytes) (domains : List Domain) (start : Option Domain)
    → Covered name start
    → Bounds name start domains (match_domain name domains start)
unfolding match_domain
match_domain-Bounds name [] none c = tt
match_domain-Bounds name [] (some m) c = ((c, tt), ground arith)
match_domain-Bounds name (d ∷ ds) start c = elim (Bool-cases (covers name d && is_longer d start)) [
  | inl e ↦
      rw (match_domain, e)
        (take-Bounds name d ds start (match_domain name ds (some d)) e
          (match_domain-Bounds name ds (some d) (ground arith)))
  | inr e ↦
      rw (match_domain, e)
        (skip-Bounds name d ds start (match_domain name ds start) e
          (match_domain-Bounds name ds start c))
]

-- `domain_for` looks up the name in lower case and without a dot at its end. It finds none exactly
-- where no configured domain is that name or a parent of it; else it finds one of the configured
-- domains that is, and no such domain has a longer name.
pub domain_for-IsMostSpecific :
    (domains : List Domain) (name : Bytes)
    → IsMostSpecific (to_lower_ascii (trim_dot name)) domains (domain_for domains name)
      × IsFrom domains none (domain_for domains name)
unfolding domain_for
domain_for-IsMostSpecific domains name = (
  match_domain-Bounds (to_lower_ascii (trim_dot name)) domains none tt,
  match_domain-IsFrom (to_lower_ascii (trim_dot name)) domains none,
)
