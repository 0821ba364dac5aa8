-- ===== src/LiqQueue/Shares.antt =====
-- What a bid has left and what it has earned: `calculate_remaining_bid`,
-- `calculate_liquidated_collateral`, the residues and the withdrawal check of
-- contracts/liq-queue/src/bid.rs.
pub mod Remaining
pub mod Residues
pub mod Withdrawals
use membrane_core.Prelude.{
  ℕ, ◌+◌, ◌-◌, ◌<◌, ◌≡◌, Bool, ◌&&◌, ◌||◌, not, Option, some, none, String, ltb, ◌==◌,
  if◌then◌else◌,
}
use membrane_core.Crates.{Crates}
use membrane_core.Result.{Result, ok, err, overflow, invalid_withdrawal, ◌>>=◌, must, or_err}
use membrane_core.Math.Decimal256
use membrane_core.Math.Decimal256.{Decimal256}
use membrane_core.Math.Uint256
use membrane_core.Math.Uint256.{Uint256}
use membrane_core.LiqQueue.Types.{Bid, PremiumSlot}
use membrane_core.LiqQueue.State.{Store, read_epoch_scale_sum}
use membrane_core.LiqQueue.Pool.{scale_factor}

abbrev pub or_default : Option Decimal256 → Decimal256
or_default none = 0
or_default (some d) = d

module _ ⦃x : Crates⦄ where
  -- `d * Uint256::one()`, with what the conversion drops: nothing is subtracted where that would
  -- go below zero.
  unfoldable pub to_integer : Decimal256 → Result (Uint256 × Decimal256)
  to_integer d = do
    whole ← Uint256.mul_decimal Uint256.one d
    whole_dec ← Decimal256.from_uint256 whole
    if ltb d whole_dec
        then ok (whole, 0)
        else (do residue ← Decimal256.sub d whole_dec; ok (whole, residue))

  -- `Decimal256::from_uint256(bid.amount) * slot.product_snapshot / bid.product_snapshot`
  unfoldable pub compounded : Bid → Decimal256 → Result Decimal256
  compounded bid product = do
    amount ← Decimal256.from_uint256 bid.amount
    scaled ← Decimal256.mul amount product
    Decimal256.div scaled bid.product_snapshot

  unfoldable pub remaining_bid_dec : Bid → PremiumSlot → ℕ → ℕ → Result Decimal256
  remaining_bid_dec bid slot epoch_diff scale_diff =
      if not (epoch_diff == 0)
      then ok 0
      else if scale_diff == 0
      then compounded bid slot.product_snapshot
      else if scale_diff == 1
      then (do
        scaled_remaining_bid ← compounded bid slot.product_snapshot
        must (x.u256_div scaled_remaining_bid scale_factor))
      else ok 0

  -- The remaining amount and the residue.
  unfoldable pub calculate_remaining_bid : Bid → PremiumSlot → Result (Uint256 × Decimal256)
  calculate_remaining_bid bid slot = do
    scale_diff ← or_err (x.u128_sub slot.current_scale bid.scale_snapshot) overflow
    epoch_diff ← or_err (x.u128_sub slot.current_epoch bid.epoch_snapshot) overflow
    remaining ← remaining_bid_dec bid slot epoch_diff scale_diff
    to_integer remaining

  -- What the sum of the next scale adds; nothing if none is stored there or it fell below.
  unfoldable pub second_portion : Option Decimal256 → Decimal256 → Result Decimal256
  second_portion none reference = ok 0
  second_portion (some second) reference = if ltb second reference then ok 0 else (do
    difference ← must (x.u256_sub second reference)
    must (x.u256_div difference scale_factor))

  -- The collateral and the residue.
  unfoldable pub calculate_liquidated_collateral :
      Store → Bid → String → Result (Uint256 × Decimal256)
  calculate_liquidated_collateral store bid bid_for =
      let reference = or_default (
        read_epoch_scale_sum store bid_for bid.liq_premium bid.epoch_snapshot bid.scale_snapshot) in
      if reference == 0 || ltb reference bid.sum_snapshot then ok (0, 0) else (do
        first ← Decimal256.sub reference bid.sum_snapshot
        next_scale ← must (x.u128_add bid.scale_snapshot 1)
        second ←
            second_portion
              (read_epoch_scale_sum store bid_for bid.liq_premium bid.epoch_snapshot next_scale)
              reference
        amount ← Decimal256.from_uint256 bid.amount
        portions ← Decimal256.add first second
        earned ← Decimal256.mul amount portions
        liquidated_collateral_dec ← Decimal256.div earned bid.product_snapshot
        to_integer liquidated_collateral_dec)

  -- `claim_bid_residue`: the whole part of the slot's residue, which is taken out of it.
  unfoldable pub claim_bid_residue : PremiumSlot → Result (Uint256 × PremiumSlot)
  claim_bid_residue slot = do
    claimable ← Uint256.mul_decimal Uint256.one slot.residue_bid
    claimable_dec ← Decimal256.from_uint256 claimable
    if ltb slot.residue_bid claimable_dec
        then ok (0, slot)
        else if claimable == 0
        then ok (claimable, slot)
        else (do
          residue ← Decimal256.sub slot.residue_bid claimable_dec
          ok (claimable, record slot { residue_bid = residue }))

  -- `claim_col_residue`
  unfoldable pub claim_col_residue : PremiumSlot → Result (Uint256 × PremiumSlot)
  claim_col_residue slot = do
    claimable ← Uint256.mul_decimal Uint256.one slot.residue_collateral
    if claimable == 0 then ok (claimable, slot) else (do
      claimable_dec ← Decimal256.from_uint256 claimable
      residue ← Decimal256.sub slot.residue_collateral claimable_dec
      ok (claimable, record slot { residue_collateral = residue }))

  -- `assert_withdraw_amount`: part of a bid may be withdrawn if nothing or the minimum is left.
  unfoldable pub assert_withdraw_amount : Option Uint256 → Uint256 → Uint256 → Result Uint256
  assert_withdraw_amount none withdrawable_amount minimum_bid = ok withdrawable_amount
  assert_withdraw_amount (some withdraw_amount) withdrawable_amount minimum_bid =
      if ltb withdrawable_amount withdraw_amount then err (invalid_withdrawal minimum_bid) else (do
        left ← Uint256.sub withdrawable_amount withdraw_amount
        if ltb left minimum_bid && ltb 0 left
            then err (invalid_withdrawal minimum_bid)
            else ok withdraw_amount)
