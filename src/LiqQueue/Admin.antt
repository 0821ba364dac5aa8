-- ===== src/LiqQueue/Admin.antt =====
-- `instantiate`, `update_config`, `edit_queue` and `add_queue` of contracts/liq-queue/src/contract.rs.
pub mod Authority
pub mod Premiums
use membrane_core.Prelude.{
  ℕ, zero, suc, ◌+◌, ◌-◌, ◌%◌, ◌^◌, Bool, Option, some, none, List, [], ◌∷◌, ◌++◌, String, str_eq,
  ◌&&◌, ◌||◌, not, ltb, leb, ◌==◌, if◌then◌else◌,
}
use membrane_core.Crates.{Crates}
use membrane_core.Result.{
  Result, ok, err, generic_err, not_found, unauthorized, invalid_premium, invalid_bid_threshold,
  duplicate_queue, ◌>>=◌, ◌>>◌, must, or_err, reject_if,
}
use membrane_core.Asset.{Addr, AssetInfo, native_token, to_string}
use membrane_core.Math.Decimal256
use membrane_core.Math.Decimal256.{one}
use membrane_core.Chain.{given}
unfoldable pub use membrane_core.Chain.{validate, validate_option}
use membrane_core.LiqQueue.Types.{PremiumSlot, Queue, Config}
use membrane_core.LiqQueue.State.{
  Store, Env, MessageInfo, Response, Attribute, text, number, config_debug, load_queue, save_queue,
  load_config, save_config,
}
use membrane_core.LiqQueue.Slots.{push, is_some}

pub record InstantiateMsg : Type 0 where
  pub owner : Option String
  pub positions_contract : String
  pub osmosis_proxy_contract : String
  pub waiting_period : ℕ
  pub minimum_bid : ℕ
  pub maximum_waiting_bids : ℕ

pub record ConfigUpdate : Type 0 where
  pub owner : Option String
  pub positions_contract : Option String
  pub osmosis_proxy_contract : Option String
  pub waiting_period : Option ℕ
  pub minimum_bid : Option ℕ
  pub maximum_waiting_bids : Option ℕ

module _ ⦃x : Crates⦄ where
  -- The version number that `set_contract_version` saves is read nowhere, and left out.
  unfoldable pub instantiate :
      Store → Env → MessageInfo → InstantiateMsg → Result (Store × Response)
  instantiate store env info msg = do
    positions_contract ← validate msg.positions_contract
    owner ← validate_option msg.owner info.sender
    osmosis_proxy_contract ← validate msg.osmosis_proxy_contract
    let config : Config = record {
      owner = owner;
      positions_contract = positions_contract;
      osmosis_proxy_contract = osmosis_proxy_contract;
      added_assets = some [];
      waiting_period = msg.waiting_period;
      bid_asset = native_token "cdt";
      minimum_bid = msg.minimum_bid;
      maximum_waiting_bids = msg.maximum_waiting_bids;
    }
    ok (
      save_config store config,
      record {
        messages = [];
        attributes =
            ("method", text "instantiate")
            ∷ ("config", config_debug config)
            ∷ ("contract_address", text env.contract_address)
            ∷ [];
      },
    )

  -- The owner keeps the contract; the address that a transfer names takes it over.
  unfoldable pub authorize : Store → Config → Addr → Result Config
  authorize store config sender = if str_eq sender config.owner then ok config else (do
    pending ← or_err store.ownership_transfer not_found
    if str_eq sender pending then ok (record config { owner = sender }) else err unauthorized)

  unfoldable pub transfer_owner : Store → Option String → Result Store
  transfer_owner store none = ok store
  transfer_owner store (some owner) = do
    valid_addr ← validate owner
    ok (record store { ownership_transfer = some valid_addr })

  unfoldable pub transfer_attrs : Option String → Result (List Attribute)
  transfer_attrs none = ok []
  transfer_attrs (some owner) = do
    valid_addr ← validate owner
    ok (("owner_transfer", text valid_addr) ∷ [])

  unfoldable pub update_config : Store → MessageInfo → ConfigUpdate → Result (Store × Response)
  update_config store info update = do
    old ← load_config store
    config ← authorize store old info.sender
    store' ← transfer_owner store update.owner
    attrs ← transfer_attrs update.owner
    positions_contract ← validate_option update.positions_contract config.positions_contract
    osmosis_proxy_contract ←
        validate_option update.osmosis_proxy_contract config.osmosis_proxy_contract
    let updated = record config {
      positions_contract = positions_contract;
      osmosis_proxy_contract = osmosis_proxy_contract;
      waiting_period = given update.waiting_period config.waiting_period;
      minimum_bid = given update.minimum_bid config.minimum_bid;
      maximum_waiting_bids = given update.maximum_waiting_bids config.maximum_waiting_bids;
    }
    ok (
      save_config store' updated,
      record {
        messages = [];
        attributes =
            ("method", text "update_config") ∷ attrs
            ++ ("updated_config", config_debug updated) ∷ [];
      },
    )

  -- An empty slot of this premium.
  unfoldable pub new_slot : ℕ → Result PremiumSlot
  new_slot premium = do
    liq_premium ← Decimal256.percent premium
    ok (record {
      bids = [];
      waiting_bids = [];
      liq_premium = liq_premium;
      sum_snapshot = 0;
      product_snapshot = one;
      total_bid_amount = 0;
      last_total = 0;
      current_epoch = 0;
      current_scale = 0;
      residue_collateral = 0;
      residue_bid = 0;
    })

  -- The slots of as many premiums from this one up.
  unfoldable pub new_slots : ℕ → ℕ → Result (List PremiumSlot)
  new_slots zero premium = ok []
  new_slots (suc rounds) premium = do
    slot ← new_slot premium
    slots ← new_slots rounds (premium + 1)
    ok (slot ∷ slots)

  -- The slots above the old maximum.
  unfoldable pub added_slots : Queue → ℕ → Result (List PremiumSlot)
  added_slots queue new_premium =
      let delta = given (x.u128_sub new_premium queue.max_premium) 0 in
      let premium_floor = queue.max_premium + 1 in
      if delta == 0 then ok [] else new_slots (new_premium + 1 - premium_floor) premium_floor

  -- Below the old maximum no slot is taken away.
  unfoldable pub edit_premium : Queue → Option ℕ → Result Queue
  edit_premium queue none = ok queue
  edit_premium queue (some new_premium) = do
    reject_if (ltb 50 new_premium || ltb new_premium 1) invalid_premium
    added ← added_slots queue new_premium
    ok (record queue { slots = queue.slots ++ added; max_premium = new_premium })

  unfoldable pub edit_threshold : Queue → Option ℕ → Result Queue
  edit_threshold queue none = ok queue
  edit_threshold queue (some bid_threshold) = do
    reject_if (ltb 10_000_000 bid_threshold || ltb bid_threshold 1_000_000) invalid_bid_threshold
    ok (record queue { bid_threshold = bid_threshold })

  unfoldable pub edit_queue :
      Store → MessageInfo → AssetInfo → Option ℕ → Option ℕ → Result (Store × Response)
  edit_queue store info bid_for max_premium bid_threshold = do
    config ← load_config store
    reject_if (not (str_eq info.sender config.owner)) unauthorized
    queue ← load_queue store (to_string bid_for)
    widened ← edit_premium queue max_premium
    edited ← edit_threshold widened bid_threshold
    ok (
      save_queue store (to_string bid_for) edited,
      record {
        messages = [];
        attributes =
            ("method", text "edit_queue")
            ∷ ("max_premium", number edited.max_premium)
            ∷ ("bid_threshold", number edited.bid_threshold)
            ∷ [];
      },
    )

  unfoldable pub add_queue : Store → MessageInfo → AssetInfo → ℕ → ℕ → Result (Store × Response)
  add_queue store info bid_for max_premium bid_threshold = do
    config ← load_config store
    reject_if
        (not (str_eq info.sender config.owner)
          && not (str_eq info.sender config.positions_contract))
        unauthorized
    max_premium_plus_1 ← must (x.u128_add max_premium 1)
    slots ← new_slots (max_premium_plus_1 % 2 ^ 64) 0
    let key = to_string bid_for
    reject_if (is_some (store.queues key)) duplicate_queue
    let queue : Queue = record {
      bid_asset = record { info = config.bid_asset; amount = 0 };
      max_premium = max_premium;
      slots = slots;
      current_bid_id = 1;
      bid_threshold = bid_threshold;
    }
    new_assets ← must config.added_assets
    ok (
      save_config (save_queue store key queue)
          (record config { added_assets = some (push new_assets bid_for) }),
      record {
        messages = [];
        attributes =
            ("method", text "add_queue")
            ∷ ("bid_for", text key)
            ∷ ("bid_asset", text (to_string config.bid_asset))
            ∷ ("max_premium", number max_premium)
            ∷ ("bid_threshold", number bid_threshold)
            ∷ [];
      },
    )
