-- ===== src/Common/Result.antt =====
-- A Go call that returns a value and an error.
use mathlib.Core.Path.{◌≡◌, refl}
use mathlib.Core.Bool.{Bool, true, false}
use mathlib.Core.Logic.{◌⊎◌, inl, inr}

pub data Result {ℓ} (E : Type 0) (A : Type ℓ) : Type ℓ where
  ok : A → Result E A
  err : E → Result E A

infixl 5 ◌>>=◌ ◌>>◌
abbrev pub ◌>>=◌ {ℓ κ} :
    {E : Type 0} {A : Type ℓ} {B : Type κ} → Result E A → (A → Result E B) → Result E B
ok a >>= f = f a
err e >>= f = err e

abbrev pub ◌>>◌ {ℓ} : {E : Type 0} {B : Type ℓ} → Result E (Unit {0}) → Result E B → Result E B
m >> k = m >>= λ _. k

-- `if bad { return e }`
abbrev pub reject_if : {E : Type 0} → Bool → E → Result E (Unit {0})
reject_if true e = err e
reject_if false e = ok tt

-- The parts of a chain that returned: no step of it was an error.
module _ {ℓ} {E : Type 0} {B : Type ℓ} where
  pub bind-parts {κ} :
      {A : Type κ} (step : Result E A) (next : A → Result E B) {out : B}
      → step >>= next ≡ ok out
      → (v : A) × (step ≡ ok v) × (next v ≡ ok out)
  bind-parts (err _) next returned = cc
  bind-parts (ok v) next returned = (v, refl, returned)

  pub then-parts :
      (step : Result E (Unit {0})) (rest : Result E B) {out : B}
      → step >> rest ≡ ok out
      → (step ≡ ok tt) × (rest ≡ ok out)
  then-parts (err _) rest returned = cc
  then-parts (ok tt) rest returned = (refl, returned)

  pub reject_if-parts :
      (bad : Bool) (e : E) (rest : Result E B) {out : B}
      → reject_if bad e >> rest ≡ ok out
      → (bad ≡ false) × (rest ≡ ok out)
  reject_if-parts true e rest returned = cc
  reject_if-parts false e rest returned = (refl, returned)

pub Result-cases {ℓ} :
    {E : Type 0} {A : Type ℓ} (r : Result E A) → ((a : A) × (r ≡ ok a)) ⊎ ((e : E) × (r ≡ err e))
Result-cases (ok a) = inl (a, refl)
Result-cases (err e) = inr (e, refl)
