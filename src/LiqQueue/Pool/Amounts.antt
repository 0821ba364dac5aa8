-- ===== src/LiqQueue/Pool/Amounts.antt =====
-- The steps of `execute_pool_liquidation` of contracts/liq-queue/src/bid.rs.
use native.Mathlib.Nat.{
  mul-div-mul_right, div-le_of_le-mul, le-div_iff_mul-le, div-eq_of_eq-mul_left,
}
use membrane_core.Prelude.{
  ℕ, sym, ap, ◌+◌, ◌-◌, ◌*◌, ◌/◌, ◌<◌, ◌≤◌, ◌≡◌, Bool, true, String, arith, ◌⊎◌,
}
use membrane_core.Crates.{Crates}
use membrane_core.Result.{ok, >>=-eq-ok, ok-injective}
use membrane_core.Price.{PriceResponse256, get_value, get_amount}
use membrane_core.Math.Decimal256
use membrane_core.Math.Decimal256.{one, fractional}
use membrane_core.Math.Uint256
use membrane_core.LiqQueue.Types.{PremiumSlot}
use membrane_core.LiqQueue.State.{Store, store_epoch_scale_sum}
use membrane_core.LiqQueue.Pool.{
  PoolAmounts, PoolLiquidation, spend_all, pool_amounts, per_bid, update_sum, update_product,
  execute_pool_liquidation,
}

-- amount / total in decimals, for a total that is not zero.
share_value :
    (amount total : ℕ)
    → 0 < total
    → amount * one * fractional / (total * one) ≡ amount * one / total
share_value amount total pos = mul-div-mul_right (amount * one) total (omega arith)

share_full :
    (amount total : ℕ)
    → 0 < total
    → amount ≤ total
    → (amount * one / total ≤ one)
      × (amount * one / total ≡ one → amount ≡ total)
      × (amount ≡ total → amount * one / total ≡ one)
share_full amount total pos le = (
  div-le_of_le-mul total (omega arith),
  λ whole.
      let reached : one ≤ amount * one / total = omega (arith, whole) in
      omega (arith, (le-div_iff_mul-le pos).0 reached),
  λ all. div-eq_of_eq-mul_left pos (omega (arith, all)),
)

module _ ⦃x : Crates⦄ where
  -- The stages of a liquidation that succeeded.
  pub record Stages (store : Store) (slot : PremiumSlot) (premium : ℕ) (bid_for : String)
      (collateral : ℕ) (credit_price : PriceResponse256) (filled : Bool) (done : PoolLiquidation)
      : Type 0 where
    pub premium_price : PriceResponse256
    pub col_per_bid : ℕ
    pub expense_per_bid : ℕ
    pub summed : PremiumSlot
    pub amounts_eq :
        pool_amounts slot.total_bid_amount collateral premium_price credit_price filled
        ≡ ok done.amounts
    pub expense_eq : per_bid done.amounts.required_stable slot.total_bid_amount ≡ ok expense_per_bid
    pub col_eq : per_bid done.amounts.collateral slot.total_bid_amount ≡ ok col_per_bid
    pub summed_eq : update_sum slot col_per_bid done.amounts.required_stable ≡ ok summed
    pub updated_eq : update_product summed expense_per_bid ≡ ok done.slot
    pub stored_eq :
        done.store
        ≡ store_epoch_scale_sum store bid_for premium summed.current_epoch summed.current_scale
            summed.sum_snapshot

  pub execute_pool_liquidation-Stages :
      (store : Store) (slot : PremiumSlot) (premium : ℕ) (bid_for : String) (collateral : ℕ)
      (price credit_price : PriceResponse256) (filled : Bool) (done : PoolLiquidation)
      → execute_pool_liquidation store slot premium bid_for collateral price credit_price filled
        ≡ ok done
      → Stages store slot premium bid_for collateral credit_price filled done
  unfolding execute_pool_liquidation
  execute_pool_liquidation-Stages store slot premium bid_for collateral price credit_price filled
        done h =
      let (discount, _, h₁) = >>=-eq-ok (Decimal256.sub one slot.liq_premium) _ h in
      let (premium_price, _, h₂) = >>=-eq-ok (Decimal256.mul price.price discount) _ h₁ in
      let discounted : PriceResponse256 = record price { price = premium_price } in
      let (amounts, ea, h₃) =
        >>=-eq-ok (pool_amounts slot.total_bid_amount collateral discounted credit_price filled) _
          h₂ in
      let (col, ec, h₄) = >>=-eq-ok (per_bid amounts.collateral slot.total_bid_amount) _ h₃ in
      let (expense, ee, h₅) =
        >>=-eq-ok (per_bid amounts.required_stable slot.total_bid_amount) _ h₄ in
      let (summed, es, h₆) = >>=-eq-ok (update_sum slot col amounts.required_stable) _ h₅ in
      let (updated, eu, h₇) = >>=-eq-ok (update_product summed expense) _ h₆ in
      record {
        premium_price = record price { price = premium_price };
        col_per_bid = col;
        expense_per_bid = expense;
        summed = summed;
        amounts_eq = ground arith;
        expense_eq = ground arith;
        col_eq = ground arith;
        summed_eq = ground arith;
        updated_eq = ground arith;
        stored_eq = ap (λ d. d.store) (sym (ok-injective h₇));
      }

  spend_all-eq-ok :
      (total : ℕ) (price credit_price : PriceResponse256) (filled : Bool) (a : PoolAmounts)
      → spend_all total price credit_price filled ≡ ok a
      → a.required_stable ≡ total
  unfolding spend_all
  spend_all-eq-ok total price credit_price filled a h =
      let (value, _, h₁) = >>=-eq-ok (get_value credit_price total) _ h in
      let (affordable, _, h₂) = >>=-eq-ok (get_amount price value) _ h₁ in ground arith

  -- The pool never spends more than its bids; it leaves collateral over only when it spends them all.
  pub pool_amounts_bounds :
      (total collateral : ℕ) (price credit_price : PriceResponse256) (filled : Bool)
      (a : PoolAmounts)
      → pool_amounts total collateral price credit_price filled ≡ ok a
      → (a.required_stable ≤ total)
        × ((a.required_stable ≡ total) ⊎ ((a.filled ≡ true) × (a.collateral ≡ collateral)))
  unfolding pool_amounts
  pool_amounts_bounds total collateral price credit_price filled a h =
      let (value, _, h₁) = >>=-eq-ok (get_value price collateral) _ h in
      let (required, _, h₂) = >>=-eq-ok (get_amount credit_price value) _ h₁ in
      ground (arith, spend_all-eq-ok total price credit_price filled a)

  -- The share per bid, of a total that is not zero.
  pub per_bid_value :
      (amount total share : ℕ)
      → per_bid amount total ≡ ok share
      → (0 < total) × (share ≡ amount * one / total)
  unfolding per_bid
  per_bid_value amount total share h =
      let (a, ea, h₁) = >>=-eq-ok (Decimal256.from_uint256 amount) _ h in
      let (t, et, h₂) = >>=-eq-ok (Decimal256.from_uint256 total) _ h₁ in
      let (ea', _) = Decimal256.from_uint256-eq-ok amount a ea in
      let (et', _) = Decimal256.from_uint256-eq-ok total t et in
      let (positive, es, _) = Decimal256.div-eq-ok a t share h₂ in
      let some_total : 0 < total = omega arith in
      (some_total, rw (es, ea', et') (share_value amount total some_total))

  -- The share per bid is a whole one exactly where everything is spent.
  pub per_bid-eq-ok :
      (amount total share : ℕ)
      → per_bid amount total ≡ ok share
      → amount ≤ total
      → (0 < total)
        × ((share ≤ one) × (share ≡ one → amount ≡ total) × (amount ≡ total → share ≡ one))
  per_bid-eq-ok amount total share h le =
      let (some_total, value) = per_bid_value amount total share h in
      (some_total, rw value (share_full amount total some_total le))

  pub update_sum-eq-ok :
      (slot : PremiumSlot) (col_per_bid required : ℕ) (summed : PremiumSlot)
      → update_sum slot col_per_bid required ≡ ok summed
      → (required ≤ slot.total_bid_amount)
        × (summed ≡ record slot {
          sum_snapshot = slot.sum_snapshot + slot.product_snapshot * col_per_bid / fractional;
          total_bid_amount = slot.total_bid_amount - required;
        })
  unfolding update_sum
  update_sum-eq-ok slot col_per_bid required summed h =
      let (sum, em, h₁) = >>=-eq-ok (Decimal256.mul slot.product_snapshot col_per_bid) _ h in
      let (sum_snapshot, es, h₂) = >>=-eq-ok (Decimal256.add slot.sum_snapshot sum) _ h₁ in
      let (total, et, h₃) = >>=-eq-ok (Uint256.sub slot.total_bid_amount required) _ h₂ in
      ground (
        arith,
        Decimal256.mul-eq-ok slot.product_snapshot col_per_bid sum em,
        Decimal256.add-eq-ok slot.sum_snapshot sum sum_snapshot es,
        Uint256.sub-eq-ok slot.total_bid_amount required total et,
      )
