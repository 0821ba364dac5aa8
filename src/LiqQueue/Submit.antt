-- ===== src/LiqQueue/Submit.antt =====
-- `submit_bid` of contracts/liq-queue/src/bid.rs, with its checks.
pub mod Placing
pub mod Conservation
use membrane_core.Prelude.{
  ◌^◌, ℕ, ◌+◌, ◌%◌, Bool, Option, some, none, List, [], ◌∷◌, ◌++◌, String, str_eq, ◌&&◌, not, ltb,
  leb, ◌==◌, if◌then◌else◌, find?, length,
}
use membrane_core.Crates.{Crates}
use membrane_core.Result.{
  Result, ok, err, panic, generic_err, generic_err_with, invalid_premium, invalid_asset,
  too_many_waiting_bids, ◌>>=◌, ◌>>◌, must, or_err, reject_if,
}
use membrane_core.Asset.{Addr, AssetInfo, token, native_token, Asset, to_string}
use membrane_core.Math.Decimal256.{one}
use membrane_core.Math.Uint256
use membrane_core.Math.Uint256.{from_u128, to_u128}
unfoldable pub use membrane_core.Chain.{validate_position_owner}
use membrane_core.LiqQueue.Types.{Bid, BidInput, PremiumSlot, Queue, Config}
use membrane_core.LiqQueue.State.{
  Store, Env, Coin, MessageInfo, Response, Attribute, text, number, bid_input_text, load_queue,
  save_queue, load_config,
}
use membrane_core.LiqQueue.Slots.{push, has_premium, slot_premium, replace_slot}
use membrane_core.LiqQueue.Activation.{process_bid_activation, add_to_queue}

-- `validate_bid_input`: `max_premium as u8` keeps the low byte.
unfoldable pub validate_bid_input : Store → BidInput → Result (Unit {0})
validate_bid_input store bid_input = elim (store.queues (to_string bid_input.bid_for)) [
  | none ↦ err invalid_asset
  | some queue ↦ reject_if (ltb (queue.max_premium % 256) bid_input.liq_premium) invalid_premium
]

check_funds : AssetInfo → String → List Coin → ℕ → Result Asset
check_funds bid_asset denom [] minimum_bid =
    err (generic_err "No asset provided, only bid asset allowed")
check_funds bid_asset denom (coin ∷ coins) minimum_bid =
    if str_eq coin.denom denom && (length coins == 0)
    then (if ltb coin.amount minimum_bid
        then err (generic_err_with "Bid amount too small, minimum is {}" minimum_bid)
        else ok (record { info = bid_asset; amount = coin.amount }))
    else err (generic_err "Invalid asset provided, only bid asset allowed")

-- `assert_bid_asset_from_sent_funds`
unfoldable pub assert_bid_asset_from_sent_funds : AssetInfo → List Coin → ℕ → Result Asset
unfolding check_funds
assert_bid_asset_from_sent_funds (token address) [] minimum_bid =
    err (generic_err "No asset provided, only bid asset allowed")
assert_bid_asset_from_sent_funds (token address) (coin ∷ coins) minimum_bid =
    err (generic_err "Bid asset's are native assets")
assert_bid_asset_from_sent_funds (native_token denom) funds minimum_bid =
    check_funds (native_token denom) denom funds minimum_bid

-- The local variables of `submit_bid`: `bid` is what is still to be placed.
pub record Placement : Type 0 where
  pub queue : Queue
  pub slot : PremiumSlot
  pub bid : Bid
  pub attrs : List Attribute

abbrev bid_attrs : ℕ → ℕ → List Attribute
bid_attrs id amount = ("bid_id", number id) ∷ ("bid", number amount) ∷ []

module _ ⦃x : Crates⦄ where
  -- The whole bid is activated.
  unfoldable pub place_whole : Placement → ℕ → Result Placement
  place_whole p sent = do
    queue ← add_to_queue p.queue sent
    total ← Uint256.add p.slot.total_bid_amount p.bid.amount
    let counted = record p.slot { total_bid_amount = total }
    let active = process_bid_activation p.bid counted
    ok (record {
      queue = queue;
      slot = record counted { bids = push counted.bids active };
      bid = record active { amount = 0 };
      attrs = p.attrs ++ bid_attrs active.id sent;
    })

  -- The amount within the threshold is activated; the rest keeps a new id.
  unfoldable pub place_split : Placement → ℕ → Result Placement
  place_split p sent = do
    sum ← Uint256.add p.slot.total_bid_amount p.bid.amount
    amount_sent_to_wait ← Uint256.sub sum p.queue.bid_threshold
    active_amount ← Uint256.sub p.bid.amount amount_sent_to_wait
    next_id ← must (x.u128_add p.queue.current_bid_id 1)
    waiting ← to_u128 amount_sent_to_wait
    active_sent ← must (x.u128_sub sent waiting)
    queue ← add_to_queue (record p.queue { current_bid_id = next_id }) active_sent
    total ← Uint256.add p.slot.total_bid_amount active_amount
    let counted = record p.slot { total_bid_amount = total }
    let active = process_bid_activation (record p.bid { amount = active_amount }) counted
    ok (record {
      queue = queue;
      slot = record counted { bids = push counted.bids active };
      bid = record p.bid { id = p.queue.current_bid_id; amount = amount_sent_to_wait };
      attrs = p.attrs ++ bid_attrs active.id active_sent;
    })

  -- The branch on the threshold.
  unfoldable pub place_active : Placement → ℕ → ℕ → Result Placement
  place_active p sent minimum_bid =
      if not (leb p.slot.total_bid_amount p.queue.bid_threshold) then ok p else (do
        sum ← Uint256.add p.slot.total_bid_amount p.bid.amount
        limit ← Uint256.add p.queue.bid_threshold (from_u128 minimum_bid)
        if ltb sum limit then place_whole p sent else place_split p sent)

  -- What is left of the bid waits.
  unfoldable pub place_waiting : Placement → Env → Config → Result Placement
  place_waiting p env config = if p.bid.amount == 0 then ok p else (do
    wait_until ← must (x.plus_seconds env.time config.waiting_period)
    let bid = record p.bid { wait_end = some (x.seconds wait_until) }
    let slot = record p.slot { waiting_bids = push p.slot.waiting_bids bid }
    reject_if (ltb (config.maximum_waiting_bids % 2 ^ 32) (length slot.waiting_bids))
        (too_many_waiting_bids config.maximum_waiting_bids)
    ok (record p { slot = slot; bid = bid; attrs = p.attrs ++ bid_attrs bid.id bid.amount }))

  unfoldable pub new_bid : Addr → ℕ → ℕ → ℕ → Bid
  new_bid user id amount liq_premium = record {
    user = user;
    id = id;
    amount = from_u128 amount;
    liq_premium = liq_premium;
    product_snapshot = one;
    sum_snapshot = 0;
    pending_liquidated_collateral = 0;
    wait_end = none;
    epoch_snapshot = 0;
    scale_snapshot = 0;
  }

  -- The bid of the amount sent, placed in the slot of its premium; the queue as it is saved.
  unfoldable pub place_bid : Queue → Addr → ℕ → ℕ → Env → Config → List Attribute → Result Placement
  place_bid queue owner liq_premium sent env config attrs = do
    p ← slot_premium liq_premium
    slot ← or_err (find? (has_premium p) queue.slots) invalid_premium
    next_id ← must (x.u128_add queue.current_bid_id 1)
    placed ←
        place_active
          (record {
            queue = record queue { current_bid_id = next_id };
            slot = slot;
            bid = new_bid owner queue.current_bid_id sent liq_premium;
            attrs = attrs;
          })
          sent config.minimum_bid
    done ← place_waiting placed env config
    ok (record done {
      queue = record done.queue { slots = replace_slot p done.slot done.queue.slots };
    })

  unfoldable pub submit_bid :
      Store → MessageInfo → Env → BidInput → Option String → Result (Store × Response)
  submit_bid store info env bid_input bid_owner = do
    config ← load_config store
    owner ← validate_position_owner info bid_owner
    let key = to_string bid_input.bid_for
    let attrs =
        ("method", text "deposit")
        ∷ ("bid_owner", text owner)
        ∷ ("bid_input", bid_input_text key bid_input.liq_premium)
        ∷ []
    validate_bid_input store bid_input
    queue ← load_queue store key
    bid_asset ← assert_bid_asset_from_sent_funds queue.bid_asset.info info.funds config.minimum_bid
    placed ← place_bid queue owner bid_input.liq_premium bid_asset.amount env config attrs
    ok (save_queue store key placed.queue, record { messages = []; attributes = placed.attrs })
