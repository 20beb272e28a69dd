-- ===== src/Deliver/Outcome/Backoff.antt =====
-- The delays of backoff in internal/deliver/outcome.go.
use outboxd.Common.{
  ℕ, zero, suc, ◌+◌, ◌-◌, ◌*◌, ◌/◌, ◌^◌, ◌≤◌, ◌<◌, ◌≡◌, refl, sym, ap, ◌∙◌, ◌⊎◌, inl, inr, ◌||◌,
  arith, ltb, leb, min, Bool-cases,
}
use native.Mathlib.Nat.{mul_assoc, pow-le-pow_right, mul-le-mul_left}
use native.Mathlib.Omega.{pow_step}
use outboxd.Deliver.Outcome.{double_delay, jitter, backoff}

-- Doubled for each round, up to the maximum.
double_delay_lem :
    (rounds delay maximum : ℕ)
    → delay ≤ maximum
    → 1 ≤ delay
    → double_delay rounds delay maximum ≡ min maximum (delay * 2 ^ rounds)
unfolding double_delay
double_delay_lem zero delay maximum h p = ground arith
double_delay_lem (suc rounds) delay maximum h p =
    let step : delay * 2 ^ suc rounds ≡ (delay * 2) * 2 ^ rounds =
      ap (λ n. delay * n) (pow_step 2 rounds) ∙ sym (mul_assoc delay 2 (2 ^ rounds)) in
    let grows : delay * 2 * 1 ≤ delay * 2 * 2 ^ rounds =
      mul-le-mul_left (delay * 2)
        (pow-le-pow_right {n = 2} (omega arith) {i = 0} {j = rounds} (omega arith)) in
    elim (Bool-cases (leb maximum delay || ltb (maximum / 2) delay)) [
      | inl b ↦ rw (b, step) (ground (arith, b))
      | inr b ↦
          rw
            (b, step, double_delay_lem rounds (delay * 2) maximum (ground (arith, b)) (omega arith))
            refl
    ]

jitter-bounds :
    (r delay maximum : ℕ)
    → delay ≤ maximum
    → r < delay / 5 ⊎ r ≡ 0
    → (jitter r delay maximum ≤ maximum)
      × (delay ≤ jitter r delay maximum + delay / 10)
      × (jitter r delay maximum ≤ delay + delay / 10)
unfolding jitter
jitter-bounds r delay maximum h p = ground arith

-- The initial delay, doubled for each attempt after the first one and capped at the maximum.
abbrev pub base_delay : ℕ → ℕ → ℕ → ℕ
base_delay initial maximum attempts = min maximum (initial * 2 ^ (attempts - 1))

-- With an initial delay of at least 1 and at most the maximum, and a random number below a fifth of
-- the base, the delay lies within a tenth of the base, which is the initial delay doubled for each
-- attempt after the first and capped at the maximum, and does not pass the maximum.
pub backoff-bounds :
    (r initial maximum attempts : ℕ)
    → 1 ≤ initial
    → initial ≤ maximum
    → r < base_delay initial maximum attempts / 5 ⊎ r ≡ 0
    → (backoff r initial maximum attempts ≤ maximum)
      × (base_delay initial maximum attempts
          ≤ backoff r initial maximum attempts + base_delay initial maximum attempts / 10)
      × (backoff r initial maximum attempts
          ≤ base_delay initial maximum attempts + base_delay initial maximum attempts / 10)
unfolding backoff
backoff-bounds r initial maximum attempts p h s =
    rw (double_delay_lem (attempts - 1) initial maximum h p)
      (jitter-bounds r (base_delay initial maximum attempts) maximum (omega arith) s)
