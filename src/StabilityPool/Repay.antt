-- ===== src/StabilityPool/Repay.antt =====
-- `repay` of contracts/stability-pool/src/contract.rs.
pub mod Sent
use membrane_core.Prelude.{ℕ, ◌==◌, some, [], ◌∷◌, true, not, ◌||◌, ltb, str_eq, if◌then◌else◌}
use membrane_core.Crates.{Crates}
use membrane_core.Result.{
  Result, ok, unauthorized, invalid_asset, invalid_pool_withdrawal, ◌>>=◌, ◌>>◌, must, reject_if,
}
use membrane_core.Asset.{Asset, equal}
use membrane_core.Chain.{Coin, Env, MessageInfo, asset_to_coin, validate}
use membrane_core.StabilityPool.Types.{
  UserInfo, AssetPool, Config, Store, CosmosMsg, repay_position, text, user_text, Response,
  load_config, load_asset, save_asset,
}
use membrane_core.StabilityPool.Unstake.{withdrawal_from_state}
use membrane_core.StabilityPool.Withdraw.{user_total}

-- The amount to repay, or what could be withdrawn where that is less.
abbrev pub repay_amount : ℕ → ℕ → ℕ
repay_amount withdrawable amount = if ltb withdrawable amount then withdrawable else amount

abbrev pub repay_msg : Config → UserInfo → Coin → CosmosMsg
repay_msg config user_info coin =
    repay_position config.positions_contract user_info.position_id (some user_info.position_owner)
      (some user_info.position_owner) (coin ∷ [])

abbrev pub repaid : Config → UserInfo → Coin → Response
repaid config user_info coin = record {
  messages = repay_msg config user_info coin ∷ [];
  attributes = ("method", text "repay") ∷ ("user_info", user_text user_info) ∷ [];
}

module _ ⦃x : Crates⦄ where
  unfoldable pub repay : Store → Env → MessageInfo → UserInfo → Asset → Result (Store × Response)
  repay store env info user_info repayment = do
    config ← load_config store
    reject_if (not (str_eq info.sender config.positions_contract)) unauthorized
    pool ← load_asset store
    reject_if (not (equal pool.credit_asset.info repayment.info)) invalid_asset
    position_owner ← validate user_info.position_owner
    total ← user_total position_owner pool
    amount ← must (x.decimal_from_ratio repayment.amount 1)
    reject_if (ltb total amount || total == 0) invalid_pool_withdrawal
    withdrawn ← withdrawal_from_state store env config position_owner amount pool true
    let (store', withdrawable, pool') = withdrawn
    coin ← asset_to_coin (record repayment { amount = repay_amount withdrawable repayment.amount })
    ok (save_asset store' pool', repaid config user_info coin)
