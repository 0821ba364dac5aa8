-- ===== src/LiqQueue/Retract.antt =====
-- `retract_bid` of contracts/liq-queue/src/bid.rs.
pub mod Totals
pub mod Waiting
pub mod Active
use membrane_core.Prelude.{
  ℕ, Option, some, none, List, [], ◌∷◌, String, str_eq, ◌&&◌, not, ◌==◌, if◌then◌else◌,
}
use membrane_core.Crates.{Crates}
use membrane_core.Result.{Result, ok, err, generic_err, unauthorized, ◌>>=◌, ◌>>◌, must, reject_if}
use membrane_core.Asset.{Addr, AssetInfo, token, native_token, to_string}
use membrane_core.Math.Decimal256
use membrane_core.Math.Uint256
use membrane_core.Math.Uint256.{Uint256, from_u128, to_u128}
use membrane_core.LiqQueue.Types.{Bid, PremiumSlot, Queue}
use membrane_core.LiqQueue.State.{
  Store, Env, MessageInfo, Response, CosmosMsg, bank_send, text, number, load_queue, save_queue,
  load_config,
}
use membrane_core.LiqQueue.Slots.{
  is_some, read_premium_slot, store_premium_slot, remove_bid, store_bid, read_bid,
}
use membrane_core.LiqQueue.Shares.{
  calculate_remaining_bid, calculate_liquidated_collateral, claim_bid_residue,
  assert_withdraw_amount,
}

-- `withdrawal_msg` of packages/membrane/src/helpers.rs: only native assets are sent.
unfoldable pub withdrawal_msg : AssetInfo → ℕ → Addr → Result CosmosMsg
withdrawal_msg (native_token denom) amount recipient =
    ok (bank_send recipient (record { denom = denom; amount = amount }))
withdrawal_msg (token address) amount recipient = err (generic_err "Native assets only")

-- The queue after the bid was paid, and the refund.
pub record Refund : Type 0 where
  pub queue : Queue
  pub amount : Uint256

module _ ⦃x : Crates⦄ where
  unfoldable pub retract_waiting : Queue → Bid → Option Uint256 → ℕ → Result Refund
  retract_waiting queue bid amount minimum_bid = do
    withdraw_amount ← assert_withdraw_amount amount bid.amount (from_u128 minimum_bid)
    queue' ←
        (if withdraw_amount == bid.amount then remove_bid bid queue else (do
          left ← Uint256.sub bid.amount withdraw_amount
          store_bid queue (record bid { amount = left })))
    ok (record { queue = queue'; amount = withdraw_amount })

  -- The withdrawal is taken off the slot's total, and the slot's residue is added to it.
  unfoldable pub deduct_withdrawal : Queue → Bid → Uint256 → Result Refund
  deduct_withdrawal queue bid withdraw_amount = do
    reloaded ← read_premium_slot queue bid.liq_premium
    total ← Uint256.sub reloaded.total_bid_amount withdraw_amount
    (residue, paid) ← claim_bid_residue (record reloaded { total_bid_amount = total })
    refund ← Uint256.add withdraw_amount residue
    ok (record { queue = store_premium_slot queue paid; amount = refund })

  -- The bid is removed, or written back with what is left of it.
  unfoldable pub update_active : Queue → PremiumSlot → Bid → Uint256 → Uint256 → Result Queue
  update_active queue slot bid withdrawable_amount withdraw_amount =
      if withdraw_amount == bid.amount && (bid.pending_liquidated_collateral == 0)
      then remove_bid bid queue
      else (do
        left ← Uint256.sub withdrawable_amount withdraw_amount
        store_bid queue (record bid {
          amount = left;
          product_snapshot = slot.product_snapshot;
          sum_snapshot = slot.sum_snapshot;
          scale_snapshot = slot.current_scale;
        }))

  -- What is left of the bid is paid out, from the slot with its residues stacked.
  unfoldable pub withdraw_active :
      Queue → PremiumSlot → Bid → Uint256 → Option Uint256 → ℕ → Result Refund
  withdraw_active queue stacked bid withdrawable_amount amount minimum_bid = do
    let with_residues = store_premium_slot queue stacked
    withdraw_amount ← assert_withdraw_amount amount withdrawable_amount (from_u128 minimum_bid)
    with_bid ← update_active with_residues stacked bid withdrawable_amount withdraw_amount
    deduct_withdrawal with_bid bid withdraw_amount

  -- The bid is paid from what is left of it, and what it has earned stays pending.
  unfoldable pub retract_active :
      Store → Queue → PremiumSlot → Bid → String → Option Uint256 → ℕ → Result Refund
  retract_active store queue slot old bid_for amount minimum_bid = do
    (withdrawable_amount, residue_bid) ← calculate_remaining_bid old slot
    (liquidated, residue_collateral) ← calculate_liquidated_collateral store old bid_for
    pending ← Uint256.add old.pending_liquidated_collateral liquidated
    collateral_residues ← Decimal256.add slot.residue_collateral residue_collateral
    bid_residues ← Decimal256.add slot.residue_bid residue_bid
    withdraw_active queue
        (record slot { residue_collateral = collateral_residues; residue_bid = bid_residues })
        (record old { pending_liquidated_collateral = pending }) withdrawable_amount amount
        minimum_bid

  -- `queue.bid_asset.amount -= amount`
  unfoldable pub take_from_queue : Queue → ℕ → Result Queue
  take_from_queue queue amount = do
    total ← must (x.u128_sub queue.bid_asset.amount amount)
    ok (record queue { bid_asset = record queue.bid_asset { amount = total } })

  -- The bid, taken off the queue and its slot by whichever way it stands there.
  unfoldable pub refund_bid : Store → Queue → Bid → String → Option Uint256 → ℕ → Result Refund
  refund_bid store queue bid bid_for amount minimum_bid = do
    slot ← read_premium_slot queue bid.liq_premium
    if is_some bid.wait_end
        then retract_waiting queue bid amount minimum_bid
        else retract_active store queue slot bid bid_for amount minimum_bid

  -- What is paid out leaves the queue's total too.
  unfoldable pub pay_refund : Refund → Addr → Result (Queue × List CosmosMsg)
  pay_refund refund recipient = if refund.amount == 0 then ok (refund.queue, []) else (do
    w_amount ← to_u128 refund.amount
    queue ← take_from_queue refund.queue w_amount
    msg ← withdrawal_msg queue.bid_asset.info w_amount recipient
    ok (queue, msg ∷ []))

  unfoldable pub retract_bid :
      Store → MessageInfo → ℕ → AssetInfo → Option Uint256 → Result (Store × Response)
  retract_bid store info bid_id bid_for amount = do
    config ← load_config store
    let key = to_string bid_for
    queue ← load_queue store key
    bid ← read_bid bid_id queue
    reject_if (not (str_eq bid.user info.sender)) unauthorized
    refund ← refund_bid store queue bid key amount config.minimum_bid
    (paid, msgs) ← pay_refund refund info.sender
    ok (
      save_queue store key paid,
      record {
        messages = msgs;
        attributes =
            ("method", text "retract_bid")
            ∷ ("bid_for", text key)
            ∷ ("bid_id", number bid_id)
            ∷ ("amount", number refund.amount)
            ∷ [];
      },
    )
