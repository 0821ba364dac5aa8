-- ===== src/LiqQueue/Pool.antt =====
-- One premium slot under a liquidation: `execute_pool_liquidation` of contracts/liq-queue/src/bid.rs.
-- The slot's product and sum track what each of its bids has spent and earned.
pub mod Amounts
pub mod Product
use membrane_core.Prelude.{ℕ, ◌+◌, ◌^◌, Bool, true, String, ltb, ◌==◌, if◌then◌else◌}
use membrane_core.Crates.{Crates}
use membrane_core.Result.{Result, ok, ◌>>=◌, must}
use membrane_core.Price.{PriceResponse256, get_value, get_amount}
use membrane_core.Math.Decimal256
use membrane_core.Math.Decimal256.{Decimal256, one}
use membrane_core.Math.Uint256
use membrane_core.Math.Uint256.{Uint256}
use membrane_core.LiqQueue.Types.{PremiumSlot}
use membrane_core.LiqQueue.State.{Store, store_epoch_scale_sum}

-- `U256::from(1_000_000_000u64)`
abbrev pub scale_factor : ℕ
scale_factor = 1_000_000_000

-- What the pool spends, the collateral it buys, and the flag `filled`.
pub record PoolAmounts : Type 0 where
  pub required_stable : Uint256
  pub collateral : Uint256
  pub filled : Bool

pub record PoolLiquidation : Type 0 where
  pub slot : PremiumSlot
  pub store : Store
  pub amounts : PoolAmounts

module _ ⦃x : Crates⦄ where
  -- All the slot's bids, and the collateral that they pay for.
  unfoldable pub spend_all :
      Uint256 → PriceResponse256 → PriceResponse256 → Bool → Result PoolAmounts
  spend_all total_bid_amount price credit_price filled = do
    stable_value ← get_value credit_price total_bid_amount
    affordable ← get_amount price stable_value
    ok (record { required_stable = total_bid_amount; collateral = affordable; filled = filled })

  -- The whole collateral at the premium price, or what the slot's bids can pay for.
  unfoldable pub pool_amounts :
      Uint256 → Uint256 → PriceResponse256 → PriceResponse256 → Bool → Result PoolAmounts
  pool_amounts total_bid_amount collateral_to_liquidate price credit_price filled = do
    value ← get_value price collateral_to_liquidate
    required ← get_amount credit_price value
    if ltb total_bid_amount required
        then spend_all total_bid_amount price credit_price filled
        else ok (record {
          required_stable = required;
          collateral = collateral_to_liquidate;
          filled = true;
        })

  -- `Decimal256::from_uint256(amount) / Decimal256::from_uint256(total)`
  unfoldable pub per_bid : Uint256 → Uint256 → Result Decimal256
  per_bid amount total = do
    a ← Decimal256.from_uint256 amount
    t ← Decimal256.from_uint256 total
    Decimal256.div a t

  -- S + E / D * P, and the bids that are left.
  unfoldable pub update_sum : PremiumSlot → Decimal256 → Uint256 → Result PremiumSlot
  update_sum slot col_per_bid required = do
    sum ← Decimal256.mul slot.product_snapshot col_per_bid
    sum_snapshot ← Decimal256.add slot.sum_snapshot sum
    total ← Uint256.sub slot.total_bid_amount required
    ok (record slot { sum_snapshot = sum_snapshot; total_bid_amount = total })

  -- An emptied pool starts a new epoch.
  unfoldable pub reset_slot : PremiumSlot → Result PremiumSlot
  reset_slot slot = do
    epoch ← must (x.u128_add slot.current_epoch 1)
    ok (record slot {
      sum_snapshot = 0;
      product_snapshot = one;
      current_scale = 0;
      current_epoch = epoch;
    })

  -- P * 10 ^ 9 * (1 - Q / D) in the next scale.
  unfoldable pub raise_scale : PremiumSlot → Decimal256 → Result PremiumSlot
  raise_scale slot product = do
    scale ← must (x.u128_add slot.current_scale 1)
    raised ← must (x.u256_mul slot.product_snapshot scale_factor)
    scaled ← Decimal256.mul raised product
    ok (record slot { product_snapshot = scaled; current_scale = scale })

  -- P * (1 - Q / D), moved up one scale where it would fall below 10 ^ -9.
  unfoldable pub shrink_product : PremiumSlot → Decimal256 → Result PremiumSlot
  shrink_product slot expense_per_bid = do
    product ← Decimal256.sub one expense_per_bid
    new_product ← Decimal256.mul slot.product_snapshot product
    if ltb new_product scale_factor
        then raise_scale slot product
        else ok (record slot { product_snapshot = new_product })

  unfoldable pub update_product : PremiumSlot → Decimal256 → Result PremiumSlot
  update_product slot expense_per_bid =
      if expense_per_bid == one then reset_slot slot else shrink_product slot expense_per_bid

  unfoldable pub execute_pool_liquidation :
      Store
      → PremiumSlot
      → ℕ
      → String
      → Uint256
      → PriceResponse256
      → PriceResponse256
      → Bool
      → Result PoolLiquidation
  execute_pool_liquidation store slot premium bid_for collateral price credit_price filled = do
    discount ← Decimal256.sub one slot.liq_premium
    premium_price ← Decimal256.mul price.price discount
    amounts ←
        pool_amounts slot.total_bid_amount collateral (record price { price = premium_price })
          credit_price filled
    col_per_bid ← per_bid amounts.collateral slot.total_bid_amount
    expense_per_bid ← per_bid amounts.required_stable slot.total_bid_amount
    summed ← update_sum slot col_per_bid amounts.required_stable
    let store' =
        store_epoch_scale_sum store bid_for premium summed.current_epoch summed.current_scale
          summed.sum_snapshot
    updated ← update_product summed expense_per_bid
    ok (record { slot = updated; store = store'; amounts = amounts })
