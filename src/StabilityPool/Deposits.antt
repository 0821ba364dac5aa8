-- ===== src/StabilityPool/Deposits.antt =====
-- `deposit` of contracts/stability-pool/src/contract.rs.
pub mod Backed
use membrane_core.Prelude.{ℕ, Option, none, some, List, [], ◌∷◌, ◌++◌, String, not, ltb}
use membrane_core.Crates.{Crates}
use membrane_core.Result.{Result, ok, minimum_deposit, invalid_asset, ◌>>=◌, ◌>>◌, must, reject_if}
use membrane_core.Asset.{Addr, Asset, equal}
use membrane_core.Chain.{Env, MessageInfo, validate_position_owner}
use membrane_core.StabilityPool.Types.{
  Deposit, AssetPool, Config, Store, text, asset_text, Response, load_config, load_asset,
  save_asset,
}

module _ ⦃x : Crates⦄ where
  -- The pool with one more deposit.
  unfoldable pub add_deposit : AssetPool → Addr → ℕ → ℕ → Result AssetPool
  add_deposit pool user amount now = do
    decimal ← must (x.decimal_from_ratio amount 1)
    total ← must (x.u128_add pool.credit_asset.amount amount)
    ok (record pool {
      credit_asset = record pool.credit_asset { amount = total };
      deposits =
          pool.deposits
          ++ record {
            user = user;
            amount = decimal;
            deposit_time = now;
            last_accrued = now;
            unstake_time = none;
          }
            ∷ [];
    })

  unfoldable pub deposit :
      Store → Env → MessageInfo → Option String → Asset → Result (Store × Response)
  deposit store env info position_owner asset = do
    config ← load_config store
    reject_if (ltb asset.amount config.minimum_deposit_amount)
        (minimum_deposit config.minimum_deposit_amount)
    owner ← validate_position_owner info position_owner
    pool ← load_asset store
    reject_if (not (equal pool.credit_asset.info asset.info)) invalid_asset
    pool' ← add_deposit pool owner asset.amount (x.seconds env.time)
    ok (
      save_asset store pool',
      record {
        messages = [];
        attributes =
            ("method", text "deposit")
            ∷ ("position_owner", text owner)
            ∷ ("deposited_asset", asset_text asset)
            ∷ [];
      },
    )
