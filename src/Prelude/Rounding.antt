-- ===== src/Prelude/Rounding.antt =====
-- Python's `round` of a quotient of natural numbers: to the nearest integer, a half to the even
-- one.
use Prim.Native.Nat.{ℕ, zero, suc, ◌+◌, ◌-◌, ◌*◌, ◌/◌, ◌%◌, ◌≤◌, ◌<◌, compare, Ordering}
use mathlib.Core.Path.{◌≡◌, ap, ◌∙◌, subst}
use mathlib.Core.Logic.{inl, inr}
use native.Mathlib.Omega.{arith}
use native.Mathlib.Nat.{
  le-div_iff_mul-le, div-le_of_le-mul, mod-eq-sub-div-mul, mul_comm, eq-or-lt_of_le,
}

-- What is added to the quotient, by twice the remainder against the divisor.
abbrev pub step_up : Ordering → ℕ → ℕ
step_up Ordering.lt q = 0
step_up Ordering.gt q = 1
step_up Ordering.eq q = q % 2

unfoldable pub round_ratio : ℕ → ℕ → ℕ
round_ratio a b = a / b + step_up (compare (2 * (a % b)) b) (a / b)

suc_step : (o : Ordering) (q : ℕ) → step_up o q ≤ 1
suc_step Ordering.lt q = omega arith
suc_step Ordering.gt q = omega arith
suc_step Ordering.eq q = omega arith

no_remainder : (n : ℕ) (r q : ℕ) → r ≡ 0 → step_up (compare (2 * r) (suc n)) q ≡ 0
no_remainder n r q e = ground (arith, e)

-- A quotient's rounding stays between two bounds of the quotient.
pub round_ratio-between :
    (a n lo hi : ℕ)
    → lo * suc n ≤ a
    → a ≤ hi * suc n
    → lo ≤ round_ratio a (suc n) × round_ratio a (suc n) ≤ hi
unfolding round_ratio
round_ratio-between a n lo hi low high =
    let pos : zero < suc n = omega arith in
    let above : lo ≤ a / suc n = (le-div_iff_mul-le pos).1 low in
    let below : a / suc n ≤ hi =
      div-le_of_le-mul (suc n) (subst (λ x. a ≤ x) (mul_comm hi (suc n)) high) in
    let rest : a % suc n ≡ a - a / suc n * suc n = mod-eq-sub-div-mul a (suc n) in
    (
      omega arith,
      elim (eq-or-lt_of_le below) [
        | inr less ↦ omega (arith, suc_step (compare (2 * (a % suc n)) (suc n)) (a / suc n))
        | inl same ↦ omega (
          arith,
          no_remainder n (a % suc n) (a / suc n) (
              rest
              ∙ (ap (λ q. a - q * suc n) same ∙ (let z : a - hi * suc n ≡ 0 = omega arith in z))),
        )
      ],
    )

pub round_ratio_ge : (a d lo : ℕ) → zero < d → lo * d ≤ a → lo ≤ round_ratio a d
round_ratio_ge a zero lo pos h = absurd (omega arith)
round_ratio_ge a (suc n) lo pos h = (round_ratio-between a n lo a h (grind arith)).0

pub round_ratio_le : (a d hi : ℕ) → zero < d → a ≤ hi * d → round_ratio a d ≤ hi
round_ratio_le a zero hi pos h = absurd (omega arith)
round_ratio_le a (suc n) hi pos h = (round_ratio-between a n 0 hi (grind arith) h).1
