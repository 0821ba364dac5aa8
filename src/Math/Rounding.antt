-- ===== src/Math/Rounding.antt =====
-- How the operators of packages/membrane/src/math.rs round.
use native.Mathlib.Nat.{div-mul-le_self, lt-div-mul-add}
use membrane_core.Prelude.{ℕ, ◌+◌, ◌*◌, ◌<◌, ◌≤◌, ◌≡◌, arith}
use membrane_core.Crates.{Crates}
use membrane_core.Result.{ok}
use membrane_core.Math.Decimal256
use membrane_core.Math.Decimal256.{fractional}
use membrane_core.Math.Uint256

module _ ⦃x : Crates⦄ where
  -- A quotient of decimals that is multiplied back by the divisor never exceeds the dividend, and
  -- falls short of it by less than the divisor and one unit of the last place.
  pub mul-div_bounds :
      (a b q p : ℕ)
      → Decimal256.div a b ≡ ok q
      → Decimal256.mul q b ≡ ok p
      → (p ≤ a) × (a * fractional < (p + 1) * fractional + b)
  mul-div_bounds a b q p hq hp =
      let (positive, quotient, _) = Decimal256.div-eq-ok a b q hq in
      let below : q * b ≤ a * fractional = rw quotient (div-mul-le_self (a * fractional) b) in
      let above : a * fractional < q * b + b = rw quotient (lt-div-mul-add positive) in
      omega (arith, Decimal256.mul-eq-ok q b p hp)

  -- A whole number times a decimal, where it has a value, is the exact product rounded down to
  -- the unit.
  pub mul_decimal_bounds :
      (n d r : ℕ)
      → Uint256.mul_decimal n d ≡ ok r
      → (r * fractional ≤ n * d) × (n * d < (r + 1) * fractional)
  mul_decimal_bounds n d r h = omega (arith, Uint256.mul_decimal-eq-ok n d r h)
