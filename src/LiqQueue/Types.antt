-- ===== src/LiqQueue/Types.antt =====
-- The data of the liquidation queue: packages/membrane/src/types.rs (`Bid`, `BidInput`,
-- `PremiumSlot`, `Queue`) and packages/membrane/src/liq_queue.rs (`Config`).
-- Every integer is its value: u8, u64, `Uint128` below 2 ^ 128, `Uint256` and `Decimal256`.
use membrane_core.Prelude.{ℕ, Option, List}
use membrane_core.Asset.{Addr, AssetInfo, Asset}
use membrane_core.Math.Decimal256.{Decimal256}
use membrane_core.Math.Uint256.{Uint256}

pub record BidInput : Type 0 where
  pub bid_for : AssetInfo
  pub liq_premium : ℕ

pub record Bid : Type 0 where
  pub user : Addr
  pub id : ℕ
  pub amount : Uint256
  pub liq_premium : ℕ
  pub product_snapshot : Decimal256
  pub sum_snapshot : Decimal256
  pub pending_liquidated_collateral : Uint256
  pub wait_end : Option ℕ
  pub epoch_snapshot : ℕ
  pub scale_snapshot : ℕ

pub record PremiumSlot : Type 0 where
  pub bids : List Bid
  pub waiting_bids : List Bid
  pub liq_premium : Decimal256
  pub sum_snapshot : Decimal256
  pub product_snapshot : Decimal256
  pub total_bid_amount : Uint256
  pub last_total : ℕ
  pub current_epoch : ℕ
  pub current_scale : ℕ
  pub residue_collateral : Decimal256
  pub residue_bid : Decimal256

pub record Queue : Type 0 where
  pub bid_asset : Asset
  pub max_premium : ℕ
  pub slots : List PremiumSlot
  pub current_bid_id : ℕ
  pub bid_threshold : Uint256

pub record Config : Type 0 where
  pub owner : Addr
  pub positions_contract : Addr
  pub osmosis_proxy_contract : Addr
  pub added_assets : Option (List AssetInfo)
  pub waiting_period : ℕ
  pub bid_asset : AssetInfo
  pub minimum_bid : ℕ
  pub maximum_waiting_bids : ℕ
