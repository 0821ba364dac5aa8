-- ===== src/Tests/Shares.antt =====
-- The theorems on a bid's share and on the arithmetic at concrete inputs.
use membrane_core.Prelude.{ℕ, ◌+◌, ◌*◌, ◌<◌, ◌≤◌, ◌≡◌, ◌⊎◌, refl, arith, some}
use membrane_core.Tests.{documented}
use membrane_core.Tests.Scenario.{slot, active_bid}
use membrane_core.Result.{ok, err, invalid_withdrawal}
use membrane_core.Math.Decimal256
use membrane_core.Math.Decimal256.{fractional}
use membrane_core.Math.Uint256
use membrane_core.Math.Uint256.{from_u128, to_u128}
use membrane_core.Math.Words.{to_u128-from_u128}
use membrane_core.Math.Rounding.{mul-div_bounds, mul_decimal_bounds}
use membrane_core.LiqQueue.Types.{PremiumSlot}
use membrane_core.LiqQueue.Shares.{
  calculate_remaining_bid, claim_bid_residue, claim_col_residue, assert_withdraw_amount,
}
use membrane_core.LiqQueue.Shares.Remaining.{
  IsActiveIn, calculate_remaining_bid_lem, calculate_remaining_bid_bounds,
}
use membrane_core.LiqQueue.Shares.Residues.{claim_bid_residue_lem, claim_col_residue_lem}
use membrane_core.LiqQueue.Shares.Withdrawals.{IsWithdrawable, assert_withdraw_amount_lem}

-- The slot after a third of it was spent.
abbrev spent_slot : PremiumSlot
spent_slot = record slot {
  product_snapshot = 666_666_666_666_666_666;
  residue_collateral = 1_250_000_000_000_000_000;
}

active : IsActiveIn spent_slot active_bid
active = record {
  amount_fits = omega arith;
  product_pos = omega arith;
  product_le = omega arith;
  scale_le = omega arith;
  epoch_le = omega arith;
}

calculate_remaining_bid_lem_example :
    calculate_remaining_bid active_bid spent_slot ≡ ok (333, 333_333_333_333_333_000)
calculate_remaining_bid_lem_example = calculate_remaining_bid_lem active_bid spent_slot active

calculate_remaining_bid_bounds_example :
    (333 ≤ 500)
    × (333_333_333_333_333_000 < fractional)
    × (spent_slot.current_epoch ≡ 0
        → spent_slot.current_scale ≡ 0
        → spent_slot.product_snapshot ≡ fractional
        → (◌≡◌ {A = ℕ} 333 500) × (◌≡◌ {A = ℕ} 333_333_333_333_333_000 0))
calculate_remaining_bid_bounds_example =
    calculate_remaining_bid_bounds active_bid spent_slot 333 333_333_333_333_333_000 active
      ((λ e. omega arith), omega arith) calculate_remaining_bid_lem_example

claim_bid_residue_lem_example :
    claim_bid_residue slot ≡ ok (2, record slot { residue_bid = 500_000_000_000_000_000 })
claim_bid_residue_lem_example = claim_bid_residue_lem slot (omega arith)

claim_col_residue_lem_example :
    claim_col_residue spent_slot
    ≡ ok (1, record spent_slot { residue_collateral = 250_000_000_000_000_000 })
claim_col_residue_lem_example = claim_col_residue_lem spent_slot (omega arith)

assert_withdraw_amount_lem_example :
    (IsWithdrawable 200 500 10 × (assert_withdraw_amount (some 200) 500 10 ≡ ok 200))
    ⊎ ((¬ IsWithdrawable 200 500 10)
        × (assert_withdraw_amount (some 200) 500 10 ≡ err (invalid_withdrawal 10)))
assert_withdraw_amount_lem_example = assert_withdraw_amount_lem 200 500 10

to_u128-from_u128_example : (to_u128 7 ≡ ok 7) × (to_u128 (from_u128 9) ≡ ok 9)
to_u128-from_u128_example = to_u128-from_u128 7 9 (omega arith) (omega arith)

-- One third, tripled.
mul-div_bounds_example :
    (999_999_999_999_999_999 ≤ fractional)
    × (fractional * fractional < (999_999_999_999_999_999 + 1) * fractional + 3 * fractional)
unfolding Decimal256.div Decimal256.mul
mul-div_bounds_example =
    mul-div_bounds fractional (3 * fractional) 333_333_333_333_333_333 999_999_999_999_999_999 refl
      refl

mul_decimal_bounds_example :
    (4 * fractional ≤ 9 * 500_000_000_000_000_000)
    × (9 * 500_000_000_000_000_000 < (4 + 1) * fractional)
unfolding Uint256.mul_decimal Uint256.multiply_ratio
mul_decimal_bounds_example = mul_decimal_bounds 9 500_000_000_000_000_000 4 refl
