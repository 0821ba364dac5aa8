-- ===== src/LiqQueue/Activation.antt =====
-- Waiting bids that become active: `process_bid_activation` and `set_slot_total` of
-- contracts/liq-queue/src/bid.rs.
pub mod Totals
use membrane_core.Prelude.{
  ℕ, ◌-◌, Bool, Option, some, none, List, [], ◌∷◌, ◌&&◌, not, ltb, leb, ◌==◌, if◌then◌else◌, filter,
}
use membrane_core.Crates.{Crates, checked_sub}
use membrane_core.Result.{Result, ok, ◌>>=◌, must}
use membrane_core.Math.Uint256
use membrane_core.Math.Uint256.{to_u128}
use membrane_core.LiqQueue.Types.{Bid, PremiumSlot, Queue, Config}
use membrane_core.LiqQueue.State.{Env}
use membrane_core.LiqQueue.Slots.{push}

unfoldable pub process_bid_activation : Bid → PremiumSlot → Bid
process_bid_activation bid slot = record bid {
  product_snapshot = slot.product_snapshot;
  sum_snapshot = slot.sum_snapshot;
  wait_end = none;
  scale_snapshot = slot.current_scale;
  epoch_snapshot = slot.current_epoch;
}

-- What the closure of `set_slot_total` captures, with the bid that it returns.
pub record Activated : Type 0 where
  pub bid : Bid
  pub slot : PremiumSlot
  pub queue : Queue

module _ ⦃x : Crates⦄ where
  -- `queue.bid_asset.amount += amount`
  unfoldable pub add_to_queue : Queue → ℕ → Result Queue
  add_to_queue queue amount = do
    total ← must (x.u128_add queue.bid_asset.amount amount)
    ok (record queue { bid_asset = record queue.bid_asset { amount = total } })

  -- Counts the bid in the queue and the slot and lists it as active; the amount that is left is 0.
  unfoldable pub activate_bid : Bid → PremiumSlot → Queue → Result Activated
  activate_bid bid slot queue = do
    b_amount ← to_u128 bid.amount
    queue' ← add_to_queue queue b_amount
    total ← Uint256.add slot.total_bid_amount bid.amount
    let counted = record slot { total_bid_amount = total }
    let active = process_bid_activation bid counted
    ok (record {
      bid = record active { amount = 0 };
      slot = record counted { bids = push slot.bids active };
      queue = queue';
    })

  -- A bid past its wait, or below the threshold, is activated.
  unfoldable pub try_activate : ℕ → Bid → PremiumSlot → Queue → Result Activated
  try_activate block_time bid slot queue = do
    wait_end ← must bid.wait_end
    if leb wait_end block_time
        then activate_bid bid slot queue
        else if leb slot.total_bid_amount queue.bid_threshold
        then activate_bid bid slot queue
        else ok (record { bid = bid; slot = slot; queue = queue })

  -- The `map` over the waiting bids, in order.
  unfoldable pub activate_all :
      ℕ → List Bid → PremiumSlot → Queue → Result (List Bid × PremiumSlot × Queue)
  activate_all block_time [] slot queue = ok ([], slot, queue)
  activate_all block_time (bid ∷ bids) slot queue = do
    a ← try_activate block_time bid slot queue
    (edited, slot', queue') ← activate_all block_time bids a.slot a.queue
    ok (a.bid ∷ edited, slot', queue')

  -- The part of `set_slot_total` after its early return.
  unfoldable pub recount : ℕ → PremiumSlot → Queue → Result (PremiumSlot × Queue)
  recount block_time slot queue = do
    (edited, slot', queue') ← activate_all block_time slot.waiting_bids slot queue
    ok (
      record slot' {
        waiting_bids = filter (λ b. not (b.amount == 0)) edited;
        last_total = block_time;
      },
      queue',
    )

  -- `block_time - slot.last_total` is of u64, and panics below zero.
  unfoldable pub set_slot_total : PremiumSlot → Env → Queue → Config → Result (PremiumSlot × Queue)
  set_slot_total slot env queue config = do
    elapsed ← must (checked_sub (x.seconds env.time) slot.last_total)
    if ltb elapsed config.waiting_period && leb queue.bid_threshold slot.total_bid_amount
        then ok (slot, queue)
        else recount (x.seconds env.time) slot queue
