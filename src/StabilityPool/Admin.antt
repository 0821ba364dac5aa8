-- ===== src/StabilityPool/Admin.antt =====
-- `instantiate` and `update_config` of contracts/stability-pool/src/contract.rs.
pub mod Ranges
use membrane_core.Prelude.{
  ℕ, Option, none, some, List, [], ◌∷◌, ◌++◌, Bool, ◌||◌, ltb, str_eq, if◌then◌else◌, String,
}
use membrane_core.Crates.{Crates}
use membrane_core.Result.{
  Result, ok, err, not_found, unauthorized, custom_error, ◌>>=◌, ◌>>◌, or_err, reject_if,
}
use membrane_core.Asset.{Addr}
use membrane_core.Chain.{Env, MessageInfo, given, validate, validate_option}
use membrane_core.Math.Decimal.{Decimal}
use membrane_core.StabilityPool.Types.{
  Deposit, AssetPool, Config, Propagation, Store, AttrValue, text, config_debug, Response,
  load_config, save_asset,
}

pub record InstantiateMsg : Type 0 where
  pub owner : Option String
  pub asset_pool : AssetPool
  pub incentive_rate : Option Decimal
  pub max_incentives : Option ℕ
  pub minimum_deposit_amount : ℕ
  pub mbrn_denom : String
  pub osmosis_proxy : String
  pub positions_contract : String
  pub oracle_contract : String

pub record UpdateConfig : Type 0 where
  pub owner : Option String
  pub incentive_rate : Option Decimal
  pub max_incentives : Option ℕ
  pub unstaking_period : Option ℕ
  pub minimum_deposit_amount : Option ℕ
  pub osmosis_proxy : Option String
  pub positions_contract : Option String
  pub oracle_contract : Option String
  pub mbrn_denom : Option String

-- `Decimal::percent(20)`, `Decimal::percent(9)`
abbrev pub twenty_percent : Decimal
twenty_percent = 200_000_000_000_000_000

abbrev nine_percent : Decimal
nine_percent = 90_000_000_000_000_000

-- A new value, unless it lies outside the range; or the old one.
unfoldable pub within : ℕ → ℕ → String → Option ℕ → ℕ → Result ℕ
within low high message none old = ok old
within low high message (some value) old = do
  reject_if (ltb value low || ltb high value) (custom_error message)
  ok value

unfoldable pub transfer_attrs : Option Addr → List (String × AttrValue)
transfer_attrs none = []
transfer_attrs (some owner) = ("owner_transfer", text owner) ∷ []

unfoldable pub oracle_attrs : Option String → List (String × AttrValue)
oracle_attrs none = []
oracle_attrs (some oracle) = ("new_oracle_contract", text oracle) ∷ []

unfoldable pub transfer_owner : Store → Option Addr → Store
transfer_owner store none = store
transfer_owner store (some owner) = record store { ownership_transfer = some owner }

-- The owner keeps the contract; the address that a transfer names takes it over.
unfoldable pub authorize : Store → Config → Addr → Result Config
authorize store config sender = if str_eq sender config.owner then ok config else (do
  pending ← or_err store.ownership_transfer not_found
  if str_eq sender pending then ok (record config { owner = sender }) else err unauthorized)

module _ ⦃x : Crates⦄ where
  -- The version number that `set_contract_version` saves is read nowhere, and left out.
  unfoldable pub instantiate :
      Store → Env → MessageInfo → InstantiateMsg → Result (Store × Response)
  instantiate store env info msg = do
    osmosis_proxy ← validate msg.osmosis_proxy
    positions_contract ← validate msg.positions_contract
    oracle_contract ← validate msg.oracle_contract
    owner ← validate_option msg.owner info.sender
    let config : Config = record {
      owner = owner;
      incentive_rate = given msg.incentive_rate nine_percent;
      max_incentives = given msg.max_incentives 10_000_000_000_000;
      unstaking_period = 1;
      minimum_deposit_amount = msg.minimum_deposit_amount;
      mbrn_denom = msg.mbrn_denom;
      osmosis_proxy = osmosis_proxy;
      positions_contract = positions_contract;
      oracle_contract = oracle_contract;
    }
    let store' = record store {
      config = some config;
      prop = some (record { repaid_amount = 0 });
      incentives = some 0;
    }
    ok (
      save_asset store' (record msg.asset_pool { deposits = [] }),
      record {
        messages = [];
        attributes =
            ("method", text "instantiate")
            ∷ ("config", config_debug config)
            ∷ ("contract_address", text env.contract_address)
            ∷ [];
      },
    )

  unfoldable pub valid_owner : Option String → Result (Option Addr)
  valid_owner none = ok none
  valid_owner (some owner) = validate owner >>= λ valid_addr. ok (some valid_addr)

  -- The denomination and the addresses of the other contracts.
  unfoldable pub change_contracts : Config → UpdateConfig → Result Config
  change_contracts config update = do
    osmosis_proxy ← validate_option update.osmosis_proxy config.osmosis_proxy
    positions_contract ← validate_option update.positions_contract config.positions_contract
    oracle_contract ← validate_option update.oracle_contract config.oracle_contract
    ok (record config {
      mbrn_denom = given update.mbrn_denom config.mbrn_denom;
      osmosis_proxy = osmosis_proxy;
      positions_contract = positions_contract;
      oracle_contract = oracle_contract;
    })

  -- The settings that are numbers.
  unfoldable pub change_settings : Config → UpdateConfig → Result Config
  change_settings config update = do
    incentive_rate ←
        within 0 twenty_percent "Incentive rate cannot be greater than 20%" update.incentive_rate
          config.incentive_rate
    max_incentives ←
        within 1_000_000 10_000_000 "Max incentives must be between 1M and 10M"
          update.max_incentives config.max_incentives
    unstaking_period ←
        within 1 7 "Unstaking period must be between 1 and 7 days" update.unstaking_period
          config.unstaking_period
    ok (record config {
      incentive_rate = incentive_rate;
      max_incentives = max_incentives;
      unstaking_period = unstaking_period;
      minimum_deposit_amount = given update.minimum_deposit_amount config.minimum_deposit_amount;
    })

  unfoldable pub update_config : Store → MessageInfo → UpdateConfig → Result (Store × Response)
  update_config store info update = do
    old ← load_config store
    config ← authorize store old info.sender
    owner ← valid_owner update.owner
    moved ← change_contracts config update
    updated ← change_settings moved update
    ok (
      record (transfer_owner store owner) { config = some updated },
      record {
        messages = [];
        attributes =
            ("method", text "update_config") ∷ transfer_attrs owner
            ++ (oracle_attrs update.oracle_contract
                ++ ("updated_config", config_debug updated) ∷ []);
      },
    )
