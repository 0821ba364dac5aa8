-- ===== src/Tests/Bids.antt =====
-- The theorems on submitting and retracting bids, and on finding slots, at concrete inputs.
use membrane_core.Prelude.{ℕ, ◌+◌, ◌≤◌, ◌≡◌, refl, arith, some, none, List, [], ◌∷◌}
use membrane_core.LiqQueue.Activation.{add_to_queue}
use membrane_core.Tests.{documented}
use membrane_core.Tests.Scenario.{
  config, store, queue, queue-IsCounted, slot, active_bid, waiting_bid, at, from_sender,
  no_response, from_ok,
}
use membrane_core.Result.{ok}
use membrane_core.Asset.{native_token, to_string}
use membrane_core.Math.Decimal256
use membrane_core.Math.Uint256
use membrane_core.LiqQueue.Types.{PremiumSlot, Queue}
use membrane_core.LiqQueue.State.{Store, Response, CosmosMsg, load_queue, read_epoch_scale_sum}
use membrane_core.LiqQueue.Slots.{
  replace_slot, remove_bid, store_bid, put_bid, drop_bid, slot_premium, read_premium_slot, read_bid,
  read_bid_from, store_premium_slot,
}
use membrane_core.LiqQueue.Slots.Lookup.{read-store_premium_slot}
use membrane_core.LiqQueue.Shares.{
  calculate_remaining_bid, remaining_bid_dec, compounded, to_integer,
  calculate_liquidated_collateral, claim_bid_residue, claim_col_residue, assert_withdraw_amount,
}
use membrane_core.LiqQueue.Counted.{slots_total}
use membrane_core.LiqQueue.Submit.{
  place_waiting, place_split, new_bid, place_active, Placement, place_bid,
}
use membrane_core.LiqQueue.Submit.Conservation.{IsDeposited, place_bid-IsDeposited}
use membrane_core.LiqQueue.Claim.{
  assert_unique, bids_to_claim, is_waiting, claim_share, claim_bid, claim_bids, claim_liquidations,
}
use membrane_core.LiqQueue.Claim.Unique.{AreUnique, claim_liquidations-AreUnique}
use membrane_core.LiqQueue.Retract.{
  retract_waiting, retract_active, withdraw_active, update_active, deduct_withdrawal,
  take_from_queue, withdrawal_msg, Refund, refund_bid, pay_refund,
}
use membrane_core.LiqQueue.Retract.Active.{IsRetracted, pay_refund-active}
use membrane_core.LiqQueue.Retract.Waiting.{pay_refund-waiting}

abbrev unplaced : Placement
unplaced = record { queue = queue; slot = slot; bid = active_bid; attrs = [] }

-- Of 700 units 500 fit below the threshold.
abbrev placed : Placement
placed = from_ok unplaced (place_bid queue "bob" 2 700 (at 100) config [])

place_bid-IsDeposited_example :
    (old : PremiumSlot) × (active : ℕ) × (waits : ℕ) × IsDeposited queue 700 10 old placed active
      waits
unfolding place_bid slot_premium Decimal256.percent Decimal256.from_uint256 Uint256.from_u128
    Decimal256.mul place_active Uint256.add new_bid place_split Uint256.sub Uint256.to_u128
    add_to_queue place_waiting
place_bid-IsDeposited_example =
    place_bid-IsDeposited queue "bob" 2 700 (at 100) config [] placed queue-IsCounted
      (omega arith, (omega arith, (omega arith, tt))) (omega arith) (omega arith) refl

read-store_premium_slot_example :
    read_premium_slot (store_premium_slot queue (record slot { last_total = 7 })) 2
    ≡ ok (record slot { last_total = 7 })
read-store_premium_slot_example =
    read-store_premium_slot queue (record slot { last_total = 7 }) 2 (omega arith)

abbrev refund : Refund
refund =
    from_ok (record { queue = queue; amount = 0 })
      (refund_bid store queue waiting_bid "osmo" none 10)

abbrev paid : Queue × List CosmosMsg
paid = from_ok (queue, []) (pay_refund refund "alice")

-- The 300 units that alice withdraws were never counted.
pay_refund-waiting_example :
    (slots_total paid.0.slots ≡ 500)
    × (slots_total paid.0.slots ≡ paid.0.bid_asset.amount + refund.amount)
    × (refund.amount ≤ 500)
unfolding refund_bid read_premium_slot Decimal256.percent retract_waiting assert_withdraw_amount
    remove_bid slot_premium Decimal256.from_uint256 Uint256.from_u128 Decimal256.mul replace_slot
    drop_bid pay_refund Uint256.to_u128 take_from_queue withdrawal_msg
pay_refund-waiting_example =
    pay_refund-waiting store queue paid.0 waiting_bid "osmo" none 10 refund "alice" paid.1
      queue-IsCounted refl (omega arith) refl refl

abbrev taken : Refund
taken =
    from_ok (record { queue = queue; amount = 0 })
      (refund_bid store queue active_bid "osmo" (some 200) 10)

abbrev taken_paid : Queue × List CosmosMsg
taken_paid = from_ok (queue, []) (pay_refund taken "alice")

-- The 200 units come with two units of residue.
pay_refund-active_example :
    IsRetracted queue taken_paid.0 active_bid (some 200) 10 taken "alice" taken_paid.1
unfolding refund_bid read_premium_slot Decimal256.percent retract_active withdraw_active
    update_active deduct_withdrawal calculate_remaining_bid remaining_bid_dec compounded to_integer
    calculate_liquidated_collateral read_epoch_scale_sum claim_bid_residue store_premium_slot
    assert_withdraw_amount remove_bid store_bid put_bid slot_premium Decimal256.from_uint256
    Uint256.from_u128 Decimal256.mul Decimal256.div Decimal256.sub Decimal256.add Uint256.add
    Uint256.sub Uint256.mul_decimal Uint256.multiply_ratio replace_slot drop_bid pay_refund
    Uint256.to_u128 take_from_queue withdrawal_msg
pay_refund-active_example =
    pay_refund-active store queue taken_paid.0 active_bid "osmo" (some 200) 10 taken "alice"
      taken_paid.1 queue-IsCounted refl (omega arith) refl refl

abbrev claimed : Store × Response
claimed =
    from_ok (store, no_response)
      (claim_liquidations store (at 100) (from_sender "alice") (native_token "osmo")
        (some (1 ∷ 2 ∷ [])))

claim_liquidations-AreUnique_example : AreUnique (1 ∷ 2 ∷ [])
unfolding claim_liquidations load_queue to_string bids_to_claim assert_unique read_bid read_bid_from
    claim_bids claim_bid is_waiting claim_share read_premium_slot Decimal256.percent
    calculate_remaining_bid remaining_bid_dec compounded to_integer calculate_liquidated_collateral
    read_epoch_scale_sum claim_col_residue store_premium_slot remove_bid store_bid put_bid
    slot_premium Decimal256.from_uint256 Uint256.from_u128 Decimal256.mul Decimal256.div
    Decimal256.sub Decimal256.add Uint256.add Uint256.sub Uint256.mul_decimal Uint256.multiply_ratio
    replace_slot drop_bid Uint256.to_u128 withdrawal_msg
claim_liquidations-AreUnique_example =
    claim_liquidations-AreUnique store claimed.0 (at 100) (from_sender "alice")
      (native_token "osmo") (1 ∷ 2 ∷ []) claimed.1 refl
