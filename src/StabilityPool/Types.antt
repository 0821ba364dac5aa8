-- ===== src/StabilityPool/Types.antt =====
-- `Deposit` and `AssetPool` of packages/membrane/src/types.rs, `Config` of
-- packages/membrane/src/stability_pool.rs, the storage items of contracts/stability-pool/src/state.rs.
use membrane_core.Prelude.{ℕ, Option, some, List, String}
use membrane_core.Result.{Result, or_err, not_found}
use membrane_core.Asset.{Addr, Asset}
use membrane_core.Chain.{Coin}
use membrane_core.Math.Decimal.{Decimal}

-- Times are in seconds.
pub record Deposit : Type 0 where
  pub user : Addr
  pub amount : Decimal
  pub deposit_time : ℕ
  pub last_accrued : ℕ
  pub unstake_time : Option ℕ

pub record AssetPool : Type 0 where
  pub credit_asset : Asset
  pub liq_premium : Decimal
  pub deposits : List Deposit

pub record Config : Type 0 where
  pub owner : Addr
  pub incentive_rate : Decimal
  pub max_incentives : ℕ
  pub unstaking_period : ℕ
  pub minimum_deposit_amount : ℕ
  pub mbrn_denom : String
  pub osmosis_proxy : Addr
  pub positions_contract : Addr
  pub oracle_contract : Addr

pub record Propagation : Type 0 where
  pub repaid_amount : ℕ

-- A user's claims are its `Coins`, by denomination and amount.
pub record Store : Type 0 where
  pub config : Option Config
  pub asset : Option AssetPool
  pub prop : Option Propagation
  pub incentives : Option ℕ
  pub users : Addr → Option (List (String × ℕ))
  pub ownership_transfer : Option Addr

pub record UserInfo : Type 0 where
  pub position_id : ℕ
  pub position_owner : String

pub data CosmosMsg : Type 0 where
  bank_send : Addr → Coin → CosmosMsg
  -- `CDP_ExecuteMsg::LiqRepay` to the positions contract, with the funds
  liq_repay : Addr → List Coin → CosmosMsg
  -- `CDP_ExecuteMsg::Repay` to the positions contract: the position, its owner, who gets the excess
  repay_position : Addr → ℕ → Option String → Option String → List Coin → CosmosMsg

-- An attribute's value, before it is printed.
pub data AttrValue : Type 0 where
  text : String → AttrValue
  decimal : Decimal → AttrValue
  asset_text : Asset → AttrValue
  user_text : UserInfo → AttrValue
  config_debug : Config → AttrValue

pub record Response : Type 0 where
  pub messages : List CosmosMsg
  pub attributes : List (String × AttrValue)

-- `CONFIG.load`
unfoldable pub load_config : Store → Result Config
load_config s = or_err s.config not_found

-- `ASSET.load`
unfoldable pub load_asset : Store → Result AssetPool
load_asset s = or_err s.asset not_found

-- `ASSET.save`
unfoldable pub save_asset : Store → AssetPool → Store
save_asset s pool = record s { asset = some pool }
