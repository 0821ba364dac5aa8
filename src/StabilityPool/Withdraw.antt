-- ===== src/StabilityPool/Withdraw.antt =====
-- `withdraw` of contracts/stability-pool/src/contract.rs.
pub mod Backed
use membrane_core.Prelude.{
  ℕ, ◌==◌, Option, List, [], ◌∷◌, ◌++◌, Bool, not, ltb, str_eq, filter, if◌then◌else◌, String,
}
use membrane_core.Crates.{Crates}
use membrane_core.Result.{
  Result, ok, err, generic_err, custom_error, invalid_pool_withdrawal, ◌>>=◌, ◌>>◌, must, reject_if,
}
use membrane_core.Asset.{Addr, Asset, AssetInfo, token, native_token}
use membrane_core.Chain.{Env, MessageInfo}
use membrane_core.Math.Decimal.{Decimal}
use membrane_core.StabilityPool.Types.{
  Deposit, AssetPool, Config, Store, CosmosMsg, bank_send, AttrValue, text, asset_text, Response,
  load_config, load_asset, save_asset,
}
use membrane_core.StabilityPool.Unstake.{withdrawal_from_state}

-- `withdrawal_msg`
unfoldable pub withdrawal_msg : Addr → ℕ → AssetInfo → Result CosmosMsg
withdrawal_msg recipient amount (native_token denom) =
    ok (bank_send recipient (record { denom = denom; amount = amount }))
withdrawal_msg recipient amount (token address) = err (generic_err "Native assets only")

abbrev withdraw_attrs : Addr → List (String × AttrValue)
withdraw_attrs sender = ("method", text "withdraw") ∷ ("position_owner", text sender) ∷ []

-- The message and the attributes of what is sent to the user, if anything is.
unfoldable pub send : Addr → Asset → Result Response
send sender asset =
    if asset.amount == 0
    then ok (record { messages = []; attributes = withdraw_attrs sender })
    else (do
      message ← withdrawal_msg sender asset.amount asset.info
      ok (record {
        messages = message ∷ [];
        attributes = withdraw_attrs sender ++ ("withdrawn_asset", asset_text asset) ∷ [];
      }))

module _ ⦃x : Crates⦄ where
  -- The sum of a user's deposits.
  unfoldable pub sum_deposits : Decimal → List Deposit → Result Decimal
  sum_deposits total [] = ok total
  sum_deposits total (d ∷ deposits) =
      must (x.decimal_add total d.amount) >>= λ more. sum_deposits more deposits

  unfoldable pub user_total : Addr → AssetPool → Result Decimal
  user_total user pool = sum_deposits 0 (filter (λ d. str_eq d.user user) pool.deposits)

  -- What is paid is no more than the user had, nor than asked for with a minimum on top, and makes up
  -- with what is left the whole of what the user had.
  unfoldable pub check_withdrawable : ℕ → Config → ℕ → ℕ → ℕ → Result (Unit {0})
  check_withdrawable amount config withdrawable total new_total = do
    let invalid = custom_error "Invalid withdrawable amount"
    reject_if (ltb total withdrawable) invalid
    limit ← must (x.u128_add amount config.minimum_deposit_amount)
    reject_if (ltb limit withdrawable) invalid
    sum ← must (x.u128_add withdrawable new_total)
    reject_if (not (sum == total)) invalid

  unfoldable pub withdraw : Store → Env → MessageInfo → ℕ → Result (Store × Response)
  withdraw store env info amount = do
    config ← load_config store
    pool ← load_asset store
    total ← user_total info.sender pool
    amount_dec ← must (x.decimal_from_ratio amount 1)
    reject_if (ltb total amount_dec) invalid_pool_withdrawal
    let skip_unstaking = config.unstaking_period == 0
    withdrawn ← withdrawal_from_state store env config info.sender amount_dec pool skip_unstaking
    let (store', withdrawable, pool') = withdrawn
    new_total ← user_total info.sender pool'
    check_withdrawable amount config withdrawable (x.decimal_to_uint_floor total)
        (x.decimal_to_uint_floor new_total)
    response ← send info.sender (record pool.credit_asset { amount = withdrawable })
    ok (save_asset store' pool', response)
