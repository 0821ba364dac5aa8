-- ===== src/Math/Decimal.antt =====
-- The checked operations of packages/membrane/src/math.rs on `cosmwasm_std::Decimal`, kept as its
-- atomics: a number below 2 ^ 128.
use membrane_core.Prelude.{ℕ, ◌*◌, ◌/◌, ◌^◌, ◌≢◌, ◌≡◌, arith}
use membrane_core.Crates.{Crates}
use membrane_core.Result.{Result, ok, or_err, generic_err}

abbrev pub Decimal : Type 0
Decimal = ℕ

module _ ⦃x : Crates⦄ where
  unfoldable pub decimal_subtraction : Decimal → Decimal → Result Decimal
  decimal_subtraction a b =
      or_err (x.decimal_checked_sub a b) (generic_err "Decimal subtraction overflow")

  unfoldable pub decimal_division : Decimal → Decimal → Result Decimal
  decimal_division a b =
      or_err (x.decimal_checked_div a b) (generic_err "Decimal division overflow")

  unfoldable pub decimal_multiplication : Decimal → Decimal → Result Decimal
  decimal_multiplication a b =
      or_err (x.decimal_checked_mul a b) (generic_err "Decimal multiplication overflow")

  pub decimal_division-eq-ok :
      (a b c : Decimal) → decimal_division a b ≡ ok c → (b ≢ 0) × (c ≡ a * 10 ^ 18 / b)
  unfolding decimal_division
  decimal_division-eq-ok a b c h = ground (arith, x.decimal_checked_div_lem a b)
