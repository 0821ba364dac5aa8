-- ===== src/LiqQueue/Pool/Product.antt =====
-- `execute_pool_liquidation` of contracts/liq-queue/src/bid.rs: amounts, epochs, scales, sum and
-- product.
use native.Mathlib.Nat.{mul-le-mul_left}
use membrane_core.Prelude.{
  ℕ, sym, ap, subst, ◌∙◌, ◌-◌, ◌+◌, ◌*◌, ◌/◌, ◌<◌, ◌≤◌, ◌≡◌, ◌≢◌, ◌⊎◌, Bool, true, String, arith,
}
use membrane_core.Crates.{Crates}
use membrane_core.Result.{ok, >>=-eq-ok, must, must-eq-ok}
use membrane_core.Price.{PriceResponse256}
use membrane_core.Math.Decimal256
use membrane_core.Math.Decimal256.{one, fractional}
use membrane_core.LiqQueue.Types.{PremiumSlot}
use membrane_core.LiqQueue.State.{Store, store_epoch_scale_sum}
use membrane_core.LiqQueue.Pool.{
  PoolLiquidation, scale_factor, reset_slot, raise_scale, shrink_product, update_product,
  execute_pool_liquidation,
}
use membrane_core.LiqQueue.Pool.Amounts.{
  Stages, execute_pool_liquidation-Stages, pool_amounts_bounds, per_bid-eq-ok, per_bid_value,
  update_sum-eq-ok,
}

-- The slot starts a new epoch.
pub record IsReset (slot slot' : PremiumSlot) : Type 0 where
  pub product : slot'.product_snapshot ≡ one
  pub sum : slot'.sum_snapshot ≡ 0
  pub scale : slot'.current_scale ≡ 0
  pub epoch : slot'.current_epoch ≡ slot.current_epoch + 1

-- Everything but the snapshots and their counters stays.
abbrev pub with_snapshots_of : PremiumSlot → PremiumSlot → PremiumSlot
with_snapshots_of slot slot' = record slot {
  sum_snapshot = slot'.sum_snapshot;
  product_snapshot = slot'.product_snapshot;
  current_epoch = slot'.current_epoch;
  current_scale = slot'.current_scale;
}

-- The slot's product falls within a scale, or is raised to the next one.
pub record IsReduced (slot slot' : PremiumSlot) : Type 0 where
  pub epoch : slot'.current_epoch ≡ slot.current_epoch
  pub product :
      ((slot'.current_scale ≡ slot.current_scale)
        × (slot'.product_snapshot ≤ slot.product_snapshot)
        × (scale_factor ≤ slot'.product_snapshot))
      ⊎ ((slot'.current_scale ≡ slot.current_scale + 1)
          × (slot'.product_snapshot ≤ slot.product_snapshot * scale_factor)
          × (slot'.product_snapshot < one))

-- A liquidation that succeeds takes what it spends, and no more than there is, off the slot's
-- total. If it spends everything a new epoch starts; otherwise the epoch stays and the product
-- falls, in the same scale or raised to the next. It leaves collateral over only if it spends
-- everything. The bids, the premium and the residues stay.
pub record Effect (slot : PremiumSlot) (collateral : ℕ) (done : PoolLiquidation) : Type 0 where
  pub spent : done.slot.total_bid_amount + done.amounts.required_stable ≡ slot.total_bid_amount
  pub emptied : done.slot.total_bid_amount ≡ 0 → IsReset slot done.slot
  pub reduced : done.slot.total_bid_amount ≢ 0 → IsReduced slot done.slot
  pub leftover :
      (done.slot.total_bid_amount ≡ 0)
      ⊎ ((done.amounts.filled ≡ true) × (done.amounts.collateral ≡ collateral))
  pub kept :
      done.slot
      ≡ with_snapshots_of (record slot { total_bid_amount = done.slot.total_bid_amount }) done.slot

-- The share of the slot's bids that is not spent, in decimals.
abbrev pub unspent : PremiumSlot → PoolLiquidation → ℕ
unspent slot done = one - done.amounts.required_stable * one / slot.total_bid_amount

-- S + P * (E / D), for the collateral E that is bought.
abbrev pub earned_sum : PremiumSlot → PoolLiquidation → ℕ
earned_sum slot done =
    let share = done.amounts.collateral * one / slot.total_bid_amount in
    slot.sum_snapshot + slot.product_snapshot * share / fractional

-- The product of the slot times what is not spent: within the scale, or 10 ^ 9 times as much in the
-- next one, where it would fall below 10 ^ -9.
abbrev pub IsScaled : PremiumSlot → ℕ → PremiumSlot → Type 0
IsScaled slot rest slot' =
    ((slot'.current_scale ≡ slot.current_scale)
      × (slot'.product_snapshot ≡ slot.product_snapshot * rest / fractional))
    ⊎ ((slot'.current_scale ≡ slot.current_scale + 1)
        × (slot'.product_snapshot ≡ slot.product_snapshot * scale_factor * rest / fractional)
        × (slot.product_snapshot * rest / fractional < scale_factor))

-- The sum that is stored for the slot's epoch and scale, and the sum and product that a slot which is
-- not emptied goes on with.
pub record IsAccounted (store : Store) (slot : PremiumSlot) (premium : ℕ) (bid_for : String)
    (done : PoolLiquidation) : Type 0 where
  pub stored :
      done.store
      ≡ store_epoch_scale_sum store bid_for premium slot.current_epoch slot.current_scale
          (earned_sum slot done)
  pub sum : done.slot.total_bid_amount ≢ 0 → done.slot.sum_snapshot ≡ earned_sum slot done
  pub product : done.slot.total_bid_amount ≢ 0 → IsScaled slot (unspent slot done) done.slot

-- P * r / 10 ^ 18 falls where r is one at most; and raised by 10 ^ 9 it stays below one where the
-- unraised one is below 10 ^ 9.
product_falls : (p r : ℕ) → r ≤ one → p * r / fractional ≤ p
product_falls p r h = omega (arith, mul-le-mul_left p h)

raised_below :
    (p r : ℕ) → p * r / fractional < scale_factor → p * scale_factor * r / fractional < one
raised_below p r h = omega arith

module _ ⦃x : Crates⦄ where
  reset_slot-IsReset : (slot slot' : PremiumSlot) → reset_slot slot ≡ ok slot' → IsReset slot slot'
  unfolding reset_slot
  reset_slot-IsReset slot slot' h =
      let add = x.u128_add slot.current_epoch 1 in
      let (epoch, e, h₁) = >>=-eq-ok (must add) _ h in
      ground (arith, must-eq-ok add e, x.u128_add_lem slot.current_epoch 1)

  -- What `raise_scale` leaves.
  raise_scale-eq-ok :
      (slot slot' : PremiumSlot) (product : ℕ)
      → raise_scale slot product ≡ ok slot'
      → slot' ≡ record slot {
        product_snapshot = slot.product_snapshot * scale_factor * product / fractional;
        current_scale = slot.current_scale + 1;
      }
  unfolding raise_scale
  raise_scale-eq-ok slot slot' product h =
      let add = x.u128_add slot.current_scale 1 in
      let mul = x.u256_mul slot.product_snapshot scale_factor in
      let (scale, e, h₁) = >>=-eq-ok (must add) _ h in
      let (raised, er, h₂) = >>=-eq-ok (must mul) _ h₁ in
      let (scaled, es, h₃) = >>=-eq-ok (Decimal256.mul raised product) _ h₂ in
      ground (
        arith,
        must-eq-ok add e,
        must-eq-ok mul er,
        x.u128_add_lem slot.current_scale 1,
        x.u256_mul_lem slot.product_snapshot scale_factor,
        Decimal256.mul-eq-ok raised product scaled es,
      )

  shrink_product-IsReduced :
      (slot slot' : PremiumSlot) (expense : ℕ)
      → shrink_product slot expense ≡ ok slot'
      → IsReduced slot slot'
  unfolding shrink_product
  shrink_product-IsReduced slot slot' expense h =
      let (product, ep, h₁) = >>=-eq-ok (Decimal256.sub one expense) _ h in
      let (new_product, en, h₂) = >>=-eq-ok (Decimal256.mul slot.product_snapshot product) _ h₁ in
      let part : product ≤ one = omega (arith, Decimal256.sub-eq-ok one expense product ep) in
      ground (
        arith,
        Decimal256.mul-eq-ok slot.product_snapshot product new_product en,
        product_falls slot.product_snapshot product part,
        product_falls (slot.product_snapshot * scale_factor) product part,
        raised_below slot.product_snapshot product,
        raise_scale-eq-ok slot slot' product,
      )

  shrink_product-IsScaled :
      (slot slot' : PremiumSlot) (expense : ℕ)
      → shrink_product slot expense ≡ ok slot'
      → (slot'.sum_snapshot ≡ slot.sum_snapshot) × IsScaled slot (one - expense) slot'
  unfolding shrink_product
  shrink_product-IsScaled slot slot' expense h =
      let (product, ep, h₁) = >>=-eq-ok (Decimal256.sub one expense) _ h in
      let (new_product, en, h₂) = >>=-eq-ok (Decimal256.mul slot.product_snapshot product) _ h₁ in
      let rest : product ≡ one - expense =
        omega (arith, Decimal256.sub-eq-ok one expense product ep) in
      subst (λ r. (slot'.sum_snapshot ≡ slot.sum_snapshot) × IsScaled slot r slot') rest
        (ground (
          arith,
          Decimal256.mul-eq-ok slot.product_snapshot product new_product en,
          raise_scale-eq-ok slot slot' product,
        ))

  update_product-IsScaled :
      (slot slot' : PremiumSlot) (expense : ℕ)
      → update_product slot expense ≡ ok slot'
      → expense ≢ one
      → (slot'.sum_snapshot ≡ slot.sum_snapshot) × IsScaled slot (one - expense) slot'
  unfolding update_product
  update_product-IsScaled slot slot' expense h n =
      ground (arith, shrink_product-IsScaled slot slot' expense)

  reset_slot_kept :
      (slot slot' : PremiumSlot) → reset_slot slot ≡ ok slot' → slot' ≡ with_snapshots_of slot slot'
  unfolding reset_slot
  reset_slot_kept slot slot' h =
      let (epoch, _, h₁) = >>=-eq-ok (must (x.u128_add slot.current_epoch 1)) _ h in ground arith

  shrink_product_kept :
      (slot slot' : PremiumSlot) (expense : ℕ)
      → shrink_product slot expense ≡ ok slot'
      → slot' ≡ with_snapshots_of slot slot'
  unfolding shrink_product
  shrink_product_kept slot slot' expense h =
      let (product, _, h₁) = >>=-eq-ok (Decimal256.sub one expense) _ h in
      let (new_product, _, h₂) = >>=-eq-ok (Decimal256.mul slot.product_snapshot product) _ h₁ in
      ground (arith, raise_scale-eq-ok slot slot' product)

  update_product-eq-ok :
      (slot slot' : PremiumSlot) (expense : ℕ)
      → update_product slot expense ≡ ok slot'
      → (slot' ≡ with_snapshots_of slot slot')
        × (expense ≡ one → IsReset slot slot')
        × (expense ≢ one → IsReduced slot slot')
  unfolding update_product
  update_product-eq-ok slot slot' expense h = (
    ground (arith, reset_slot_kept slot slot', shrink_product_kept slot slot' expense),
    λ e. ground (arith, reset_slot-IsReset slot slot'),
    λ n. ground (arith, shrink_product-IsReduced slot slot' expense),
  )

  Stages-IsAccounted :
      (store : Store) (slot : PremiumSlot) (premium : ℕ) (bid_for : String) (collateral : ℕ)
      (credit_price : PriceResponse256) (filled : Bool) (done : PoolLiquidation)
      → Effect slot collateral done
      → Stages store slot premium bid_for collateral credit_price filled done
      → IsAccounted store slot premium bid_for done
  Stages-IsAccounted store slot premium bid_for collateral credit_price filled done effect s =
      let required = done.amounts.required_stable in
      let total = slot.total_bid_amount in
      let (_, expense) = per_bid_value required total s.expense_per_bid s.expense_eq in
      let (_, bought) = per_bid_value done.amounts.collateral total s.col_per_bid s.col_eq in
      let share =
        per_bid-eq-ok required total s.expense_per_bid s.expense_eq (omega (arith, effect.spent)) in
      let (_, after) = update_sum-eq-ok slot s.col_per_bid required s.summed s.summed_eq in
      let sum : s.summed.sum_snapshot ≡ earned_sum slot done =
        ap (λ t. t.sum_snapshot) after
        ∙ ap (λ c. slot.sum_snapshot + slot.product_snapshot * c / fractional) bought in
      let scaled = update_product-IsScaled s.summed done.slot s.expense_per_bid s.updated_eq in
      let some_left = λ (n : done.slot.total_bid_amount ≢ 0) (whole : s.expense_per_bid ≡ one).
        n (omega (arith, effect.spent, share.1.1 whole)) in
      record {
        stored =
            s.stored_eq
            ∙ ap
                (λ t.
                  store_epoch_scale_sum store bid_for premium t.current_epoch t.current_scale
                    s.summed.sum_snapshot)
                after
            ∙ ap
                (λ n.
                  store_epoch_scale_sum store bid_for premium slot.current_epoch slot.current_scale
                    n)
                sum;
        sum = λ n. (scaled (some_left n)).0 ∙ sum;
        product = λ n.
            rescale s.summed (scaled (some_left n)).1 expense (ap (λ t. t.product_snapshot) after)
              (ap (λ t. t.current_scale) after);
      }
    where
      rescale :
          (t : PremiumSlot) {expense value : ℕ}
          → IsScaled t (one - expense) done.slot
          → expense ≡ value
          → t.product_snapshot ≡ slot.product_snapshot
          → t.current_scale ≡ slot.current_scale
          → IsScaled slot (one - value) done.slot
      rescale t scaled same product scale = rw (sym same) (rw (sym product) (rw (sym scale) scaled))

  Stages-Effect :
      (store : Store) (slot : PremiumSlot) (premium : ℕ) (bid_for : String) (collateral : ℕ)
      (credit_price : PriceResponse256) (filled : Bool) (done : PoolLiquidation)
      → Stages store slot premium bid_for collateral credit_price filled done
      → Effect slot collateral done
  Stages-Effect store slot premium bid_for collateral credit_price filled done s =
      let required = done.amounts.required_stable in
      let total = slot.total_bid_amount in
      let amounts =
        pool_amounts_bounds total collateral s.premium_price credit_price filled done.amounts
          s.amounts_eq in
      let share = per_bid-eq-ok required total s.expense_per_bid s.expense_eq amounts.0 in
      let summed = update_sum-eq-ok slot s.col_per_bid required s.summed s.summed_eq in
      let updated = update_product-eq-ok s.summed done.slot s.expense_per_bid s.updated_eq in
      record {
        spent = ground (arith, summed, updated.0);
        emptied = λ z. ground (arith, summed.1, updated);
        reduced = λ n. ground (arith, summed.1, updated);
        leftover = ground (arith, summed.1, updated.0, amounts);
        kept = ground (arith, summed.1, updated.0);
      }

  -- The effect of `execute_pool_liquidation` on a slot, whenever it succeeds: what it spends is taken
  -- off the slot's total and is no more than that; an emptied slot starts a new epoch with product
  -- one, sum and scale zero; otherwise the epoch stays, the product is multiplied by the share of the
  -- bids that is not spent, falls within its scale or is raised by 10 ^ 9 to the next and stays below
  -- one, and the sum grows by the old product times the collateral per bid, which is the sum stored
  -- for the slot's epoch and scale, of an emptied slot too; collateral is left over only if the slot is emptied; the
  -- bids, the premium and the residues stay.
  pub execute_pool_liquidation-Effect :
      (store : Store) (slot : PremiumSlot) (premium : ℕ) (bid_for : String) (collateral : ℕ)
      (price credit_price : PriceResponse256) (filled : Bool) (done : PoolLiquidation)
      → execute_pool_liquidation store slot premium bid_for collateral price credit_price filled
        ≡ ok done
      → Effect slot collateral done × IsAccounted store slot premium bid_for done
  execute_pool_liquidation-Effect store slot premium bid_for collateral price credit_price filled
        done h =
      let s =
        execute_pool_liquidation-Stages store slot premium bid_for collateral price credit_price
          filled done h in
      let effect = Stages-Effect store slot premium bid_for collateral credit_price filled done s in
      (
        effect,
        Stages-IsAccounted store slot premium bid_for collateral credit_price filled done effect s,
      )
