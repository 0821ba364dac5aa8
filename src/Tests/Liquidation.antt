-- ===== src/Tests/Liquidation.antt =====
-- The theorems on liquidations at concrete inputs.
use membrane_core.Prelude.{◌+◌, ◌<◌, ◌≤◌, ◌≡◌, refl, arith, false, some, []}
use membrane_core.Asset.{equal, to_string}
use membrane_core.LiqQueue.Slots.{read_premium_slot}
use membrane_core.Tests.{documented}
use membrane_core.Tests.Scenario.{
  config, store, queue, queue-IsCounted, slot, osmo, at, from_sender, unit_price, no_response,
  from_ok,
}
use membrane_core.Result.{ok}
use membrane_core.Asset.{to_string, equal}
use membrane_core.Price.{PriceResponse256, pow_decimals, to_decimal256, get_value, get_amount}
use membrane_core.Math.Decimal256
use membrane_core.Math.Uint256
use membrane_core.LiqQueue.Types.{PremiumSlot, Queue}
use membrane_core.LiqQueue.State.{
  Store, Response, load_queue, save_queue, load_config, store_epoch_scale_sum,
}
use membrane_core.LiqQueue.Slots.{replace_slot, read_premium_slot, store_premium_slot}
use membrane_core.LiqQueue.Pool.{
  PoolLiquidation, spend_all, pool_amounts, per_bid, update_sum, reset_slot, raise_scale,
  shrink_product, update_product, execute_pool_liquidation,
}
use membrane_core.LiqQueue.Pool.Product.{Effect, IsAccounted, execute_pool_liquidation-Effect}
use membrane_core.LiqQueue.Activation.{
  process_bid_activation, add_to_queue, activate_bid, try_activate, activate_all, recount,
  set_slot_total,
}
use membrane_core.LiqQueue.Activation.Totals.{IsTotalled, set_slot_total-Totalled}
use membrane_core.LiqQueue.Counted.{IsCounted}
use membrane_core.LiqQueue.Liquidate.{
  Liquidation, Progress, spend_slot, visit_slot, liquidate_premium, liquidate_from, settle,
  burn_messages, spent_collateral, finish, execute_liquidation,
}
use membrane_core.LiqQueue.Liquidate.Books.{start, liquidation_books, execute_liquidation-IsCounted}

-- 100 units of collateral are offered at second 200, when the waiting bid is due.
abbrev after : Store × Response
after =
    from_ok (store, no_response)
      (execute_liquidation store (at 200) (from_sender "positions") 100 osmo unit_price unit_price)

execute_liquidation-IsCounted_example :
    (queue' : Queue) × (after.0.queues "osmo" ≡ some queue') × IsCounted queue'
unfolding execute_liquidation load_config load_queue save_queue to_string equal spent_collateral
    finish burn_messages liquidate_from liquidate_premium read_premium_slot Decimal256.percent
    visit_slot set_slot_total recount activate_all try_activate activate_bid process_bid_activation
    Uint256.to_u128 add_to_queue Uint256.add spend_slot to_decimal256 Decimal256.from_str
    store_premium_slot replace_slot settle execute_pool_liquidation Decimal256.sub Decimal256.mul
    pool_amounts get_value pow_decimals Decimal256.from_ratio Uint256.from_u128 get_amount
    Decimal256.div Uint256.mul_decimal Uint256.multiply_ratio spend_all per_bid
    Decimal256.from_uint256 update_sum Decimal256.add Uint256.sub store_epoch_scale_sum
    update_product shrink_product reset_slot raise_scale
execute_liquidation-IsCounted_example =
    execute_liquidation-IsCounted store after.0 (at 200) (from_sender "positions") 100 osmo
      unit_price unit_price after.1 queue refl queue-IsCounted refl

abbrev unit_price_256 : PriceResponse256
unit_price_256 = record { prices = []; price = Decimal256.one; decimals = 6 }

abbrev liquidation : Liquidation
liquidation = record {
  bid_for = "osmo";
  price = unit_price_256;
  credit_price = unit_price;
  env = at 200;
  config = config;
}

abbrev looped : Progress
looped = from_ok (start store queue 100) (liquidate_from 3 0 liquidation (start store queue 100))

liquidation_books_example :
    (settled : Queue) × (settle looped.queue looped.repaid ≡ ok settled)
    × IsCounted settled
    × (settled.bid_asset.amount + looped.repaid ≡ looped.queue.bid_asset.amount)
    × (looped.remaining ≤ 100)
    × (looped.repaid
        < 115792089237316195423570985008687907853269984665640564039457584007913129639936)
unfolding liquidate_from liquidate_premium read_premium_slot Decimal256.percent visit_slot
    set_slot_total recount activate_all try_activate activate_bid process_bid_activation
    Uint256.to_u128 add_to_queue Uint256.add spend_slot to_decimal256 Decimal256.from_str
    store_premium_slot replace_slot settle execute_pool_liquidation Decimal256.sub Decimal256.mul
    pool_amounts get_value pow_decimals Decimal256.from_ratio Uint256.from_u128 get_amount
    Decimal256.div Uint256.mul_decimal Uint256.multiply_ratio spend_all per_bid
    Decimal256.from_uint256 update_sum Decimal256.add Uint256.sub store_epoch_scale_sum
    update_product shrink_product reset_slot raise_scale
liquidation_books_example =
    liquidation_books store queue 100 3 liquidation looped queue-IsCounted refl

abbrev nothing : PoolLiquidation
nothing = record {
  store = store;
  slot = slot;
  amounts = record { required_stable = 0; collateral = 0; filled = false };
}

-- The slot at 2% is offered more than its 500 units can buy.
abbrev emptied : PoolLiquidation
emptied =
    from_ok nothing
      (execute_pool_liquidation store slot 2 "osmo" 1000 unit_price_256 unit_price_256 false)

execute_pool_liquidation-Effect_example :
    Effect slot 1000 emptied × IsAccounted store slot 2 "osmo" emptied
unfolding execute_pool_liquidation Decimal256.sub Decimal256.mul pool_amounts get_value pow_decimals
    Decimal256.from_ratio Uint256.from_u128 get_amount Decimal256.div Uint256.mul_decimal
    Uint256.multiply_ratio spend_all per_bid Decimal256.from_uint256 update_sum Decimal256.add
    Uint256.sub store_epoch_scale_sum update_product shrink_product reset_slot raise_scale
execute_pool_liquidation-Effect_example =
    execute_pool_liquidation-Effect store slot 2 "osmo" 1000 unit_price_256 unit_price_256 false
      emptied refl

abbrev totalled : PremiumSlot × Queue
totalled = from_ok (slot, queue) (set_slot_total slot (at 200) queue config)

set_slot_total-Totalled_example : IsTotalled 200 slot queue totalled.0 totalled.1
unfolding set_slot_total recount activate_all try_activate activate_bid Uint256.to_u128 add_to_queue
    Uint256.add
set_slot_total-Totalled_example =
    set_slot_total-Totalled slot (at 200) queue config totalled.0 totalled.1 (omega arith, tt) refl
