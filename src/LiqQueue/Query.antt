-- ===== src/LiqQueue/Query.antt =====
-- contracts/liq-queue/src/query.rs. What a response prints is kept as a number.
pub mod Quotes
use membrane_core.Prelude.{
  ℕ, zero, suc, ◌%◌, ◌^◌, Bool, true, false, Option, some, none, List, [], ◌∷◌, String, ◌||◌, not,
  ltb, ◌==◌, if◌then◌else◌, find?, take,
}
use membrane_core.Crates.{Crates, checked_add}
use membrane_core.Result.{Result, ok, err, panic, generic_err, ◌>>=◌, ◌>>◌, must, or_err, reject_if}
use membrane_core.Asset.{Addr, AssetInfo, Asset, to_string, equal}
use membrane_core.Price.{PriceResponse, PriceResponse256, to_decimal256, get_value, get_amount}
use membrane_core.Math.Decimal256
use membrane_core.Math.Decimal256.{Decimal256, one}
use membrane_core.Math.Uint256
use membrane_core.Math.Uint256.{Uint256, from_u128}
use membrane_core.LiqQueue.Types.{Bid, PremiumSlot, Queue}
use membrane_core.LiqQueue.State.{Store, load_queue, load_config}
use membrane_core.LiqQueue.Slots.{
  is_some, has_premium, read_premium_slot, read_bid, read_bids_by_user,
}
use membrane_core.LiqQueue.Shares.{calculate_remaining_bid, calculate_liquidated_collateral}

pub record QueueResponse : Type 0 where
  pub bid_asset : Asset
  pub max_premium : ℕ
  pub current_bid_id : ℕ
  pub bid_threshold : Uint256

pub record SlotResponse : Type 0 where
  pub bids : List Bid
  pub waiting_bids : List Bid
  pub liq_premium : Decimal256
  pub sum_snapshot : Decimal256
  pub product_snapshot : Decimal256
  pub total_bid_amount : Uint256
  pub current_epoch : ℕ
  pub current_scale : ℕ
  pub residue_collateral : Decimal256
  pub residue_bid : Decimal256

pub record BidResponse : Type 0 where
  pub user : Addr
  pub id : ℕ
  pub amount : Uint256
  pub liq_premium : ℕ
  pub product_snapshot : Decimal256
  pub sum_snapshot : Decimal256
  pub pending_liquidated_collateral : Uint256
  pub wait_end : Option ℕ
  pub epoch_snapshot : ℕ
  pub scale_snapshot : ℕ

pub record ClaimsResponse : Type 0 where
  pub bid_for : String
  pub pending_liquidated_collateral : Uint256

-- What is left of the collateral and what was repaid: the variables of the loop of
-- `query_liquidatible`, and its response.
pub record Quote : Type 0 where
  pub remaining : Uint256
  pub repaid : Uint256

into_queue_response : Queue → QueueResponse
into_queue_response queue = record {
  bid_asset = queue.bid_asset;
  max_premium = queue.max_premium;
  current_bid_id = queue.current_bid_id;
  bid_threshold = queue.bid_threshold;
}

slot_response : PremiumSlot → SlotResponse
slot_response slot = record {
  bids = slot.bids;
  waiting_bids = slot.waiting_bids;
  liq_premium = slot.liq_premium;
  sum_snapshot = slot.sum_snapshot;
  product_snapshot = slot.product_snapshot;
  total_bid_amount = slot.total_bid_amount;
  current_epoch = slot.current_epoch;
  current_scale = slot.current_scale;
  residue_collateral = slot.residue_collateral;
  residue_bid = slot.residue_bid;
}

abbrev limit_or : Option ℕ → ℕ → ℕ
limit_or none n = n
limit_or (some limit) n = limit

-- The assets from the first one that equals this one.
assets_from : AssetInfo → List AssetInfo → Option (List AssetInfo)
assets_from start [] = none
assets_from start (asset ∷ assets) =
    let rest = assets_from start assets in if equal asset start then some (asset ∷ assets) else rest

queue_responses : Store → List AssetInfo → Result (List QueueResponse)
unfolding into_queue_response
queue_responses store [] = ok []
queue_responses store (asset ∷ assets) = do
  queue ← load_queue store (to_string asset)
  others ← queue_responses store assets
  ok (into_queue_response queue ∷ others)

-- The limit only counts where no start is given.
unfoldable pub query_queues : Store → Option AssetInfo → Option ℕ → Result (List QueueResponse)
unfolding assets_from queue_responses
query_queues store start_after limit = do
  config ← load_config store
  asset_list ← must config.added_assets
  elim start_after [
    | some start ↦ must (assets_from start asset_list) >>= queue_responses store
    | none ↦ queue_responses store (take (limit_or limit 31) asset_list)
  ]

module _ ⦃x : Crates⦄ where
  -- What the slot repays of what is left, at these prices.
  unfoldable pub quote_amounts :
      PriceResponse256 → PriceResponse256 → PremiumSlot → Quote → Result Quote
  quote_amounts collateral_price credit_price slot q = do
    value ← get_value collateral_price q.remaining
    required ← get_amount credit_price value
    if ltb slot.total_bid_amount required
        then (do
          spent_value ← get_value credit_price slot.total_bid_amount
          spent ← get_amount collateral_price spent_value
          remaining ← Uint256.sub q.remaining spent
          repaid ← Uint256.add q.repaid slot.total_bid_amount
          ok (record { remaining = remaining; repaid = repaid }))
        else (do
          repaid ← Uint256.add q.repaid required
          ok (record { remaining = 0; repaid = repaid }))

  -- One round of the loop.
  unfoldable pub quote_slot : PriceResponse → PriceResponse → PremiumSlot → Quote → Result Quote
  quote_slot collateral_price credit_price slot q =
      if slot.total_bid_amount == 0 || (q.remaining == 0) then ok q else (do
        collateral ← to_decimal256 collateral_price
        credit ← to_decimal256 credit_price
        discount ← Decimal256.sub one slot.liq_premium
        premium_price ← Decimal256.mul collateral.price discount
        quote_amounts (record collateral { price = premium_price }) credit slot q)

  unfoldable pub quote_slots :
      PriceResponse → PriceResponse → List PremiumSlot → Quote → Result Quote
  quote_slots collateral_price credit_price [] q = ok q
  quote_slots collateral_price credit_price (slot ∷ slots) q = do
    q' ← quote_slot collateral_price credit_price slot q
    quote_slots collateral_price credit_price slots q'

  unfoldable pub query_liquidatible :
      Store → AssetInfo → PriceResponse → Uint256 → AssetInfo → PriceResponse → Result Quote
  query_liquidatible store bid_for collateral_price collateral_amount credit_info credit_price = do
    queue ←
        or_err (store.queues (to_string bid_for)) (generic_err "Queue for this asset doesn't exist")
    reject_if (not (equal queue.bid_asset.info credit_info))
        (generic_err "Invalid bid denomination for {}")
    quote_slots collateral_price credit_price queue.slots
        (record { remaining = collateral_amount; repaid = 0 })

  unfoldable pub query_premium_slot : Store → AssetInfo → ℕ → Result SlotResponse
  unfolding slot_response
  query_premium_slot store bid_for premium = do
    queue ← load_queue store (to_string bid_for)
    p ← Decimal256.percent premium
    slot ← or_err (find? (has_premium p) queue.slots) (generic_err "Invalid premium")
    ok (slot_response slot)

  -- So many slots of the list; after a start, those of a premium above it.
  slots_after : ℕ → Option ℕ → List PremiumSlot → Result (List SlotResponse)
  unfolding slot_response
  slots_after zero start slots = ok []
  slots_after (suc limit) start [] = ok []
  slots_after (suc limit) none (slot ∷ slots) = do
    others ← slots_after limit none slots
    ok (slot_response slot ∷ others)
  slots_after (suc limit) (some start) (slot ∷ slots) = do
    hundred ← Decimal256.from_uint256 (from_u128 100)
    percentage ← Decimal256.mul slot.liq_premium hundred
    from ← Decimal256.from_uint256 (from_u128 start)
    elim (ltb from percentage) [
      | true ↦ slots_after limit (some start) slots >>= λ others. ok (slot_response slot ∷ others)
      | false ↦ slots_after (suc limit) (some start) slots
    ]

  unfoldable pub query_premium_slots :
      Store → AssetInfo → Option ℕ → Option ℕ → Result (List SlotResponse)
  unfolding slots_after
  query_premium_slots store bid_for start_after limit = do
    queue ← load_queue store (to_string bid_for)
    count ← must (checked_add (2 ^ 128) queue.max_premium 1)
    let all = count % 2 ^ 8
    let given = limit_or limit all
    slots_after (if ltb all given then all else given) start_after queue.slots

  -- What is left of a bid and what it can claim; a waiting bid is as it was submitted.
  bid_amounts : Store → Bid → PremiumSlot → String → Result (Uint256 × Uint256)
  bid_amounts store bid slot bid_for =
      if is_some bid.wait_end then ok (bid.amount, bid.pending_liquidated_collateral) else (do
        (remaining_bid, _) ← calculate_remaining_bid bid slot
        (liquidated_collateral, _) ← calculate_liquidated_collateral store bid bid_for
        pending ← Uint256.add bid.pending_liquidated_collateral liquidated_collateral
        ok (remaining_bid, pending))

  unfoldable pub query_bid : Store → AssetInfo → ℕ → Result BidResponse
  unfolding bid_amounts
  query_bid store bid_for bid_id = do
    queue ← load_queue store (to_string bid_for)
    bid ← read_bid bid_id queue
    slot ← read_premium_slot queue bid.liq_premium
    (amount, pending) ← bid_amounts store bid slot (to_string bid_for)
    ok (record {
      user = bid.user;
      id = bid.id;
      amount = amount;
      liq_premium = bid.liq_premium;
      product_snapshot = bid.product_snapshot;
      sum_snapshot = bid.sum_snapshot;
      pending_liquidated_collateral = pending;
      wait_end = bid.wait_end;
      epoch_snapshot = bid.epoch_snapshot;
      scale_snapshot = bid.scale_snapshot;
    })

  query_bids : Store → AssetInfo → List Bid → Result (List BidResponse)
  query_bids store bid_for [] = ok []
  query_bids store bid_for (bid ∷ bids) = do
    response ← query_bid store bid_for bid.id
    others ← query_bids store bid_for bids
    ok (response ∷ others)

  unfoldable pub query_bids_by_user :
      Store → AssetInfo → String → Option ℕ → Option ℕ → Result (List BidResponse)
  unfolding query_bids
  query_bids_by_user store bid_for user limit start_after = do
    valid_user ← or_err (x.addr_validate user) (generic_err "addr_validate")
    queue ← load_queue store (to_string bid_for)
    query_bids store bid_for (read_bids_by_user queue valid_user limit start_after)

  pending_sum : Uint256 → List BidResponse → Result Uint256
  pending_sum sum [] = ok sum
  pending_sum sum (response ∷ responses) = do
    sum' ← Uint256.add sum response.pending_liquidated_collateral
    pending_sum sum' responses

  claims : Store → String → List AssetInfo → Result (List ClaimsResponse)
  unfolding pending_sum
  claims store user [] = ok []
  claims store user (asset ∷ assets) = do
    responses ← query_bids_by_user store asset user none none
    pending ← pending_sum 0 responses
    others ← claims store user assets
    ok (record { bid_for = to_string asset; pending_liquidated_collateral = pending } ∷ others)

  unfoldable pub query_user_claims : Store → String → Result (List ClaimsResponse)
  unfolding claims
  query_user_claims store user = do
    valid_user ← or_err (x.addr_validate user) (generic_err "addr_validate")
    config ← load_config store
    assets ← must config.added_assets
    claims store valid_user assets
