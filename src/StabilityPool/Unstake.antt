-- ===== src/StabilityPool/Unstake.antt =====
-- `withdrawal_from_state` of contracts/stability-pool/src/contract.rs.
pub mod Losses
pub mod Paid
use membrane_core.Prelude.{
  ℕ, ◌+◌, ◌^◌, ◌==◌, Option, none, some, List, [], ◌∷◌, ◌++◌, Bool, true, false, not, ◌&&◌, ◌||◌,
  ltb, leb, str_eq, filter, if◌then◌else◌, String,
}
use membrane_core.Crates.{Crates, checked_sub, checked_mul}
use membrane_core.Result.{
  Error, Result, ok, err, panic, generic_err, custom_error, invalid_pool_withdrawal, ◌>>=◌, ◌>>◌,
  must, or_err, reject_if,
}
use membrane_core.Asset.{Addr, Asset, AssetInfo, token, native_token}
use membrane_core.Chain.{Env, MessageInfo}
use membrane_core.Math.Decimal.{Decimal}
use membrane_core.StabilityPool.Types.{
  Deposit, AssetPool, Config, Store, CosmosMsg, bank_send, AttrValue, text, asset_text, Response,
  load_config, load_asset, save_asset,
}
use membrane_core.StabilityPool.Incentives.{Accrual, accrue_incentives}

abbrev pub seconds_per_day : ℕ
seconds_per_day = 86_400

-- The variables that the closure over the deposits changes. `stored` is the total of the incentives.
pub record Progress : Type 0 where
  pub withdrawal_amount : Decimal
  pub withdrawable_amount : ℕ
  pub returning_deposit : Option Deposit
  pub mbrn_incentives : ℕ
  pub stored : Option ℕ
  pub error : Option Error

-- One deposit within the closure, and whether it may be withdrawn.
pub record Visit : Type 0 where
  pub progress : Progress
  pub deposit : Deposit
  pub withdrawable : Bool

abbrev is_nonzero : ℕ → Bool
is_nonzero n = not (n == 0)

-- At the back of the line, unless it is empty.
unfoldable pub return_deposit : List Deposit → Option Deposit → List Deposit
return_deposit deposits none = deposits
return_deposit deposits (some deposit) =
    if deposit.amount == 0 then deposits else deposits ++ deposit ∷ []

module _ ⦃x : Crates⦄ where
  -- `amount * Uint128::new(1u128)`
  unfoldable pub floor : Decimal → Result ℕ
  floor amount = must (x.u128_mul_decimal 1 amount)

  -- An error of `accrue_incentives` is kept for the end of the loop.
  unfoldable pub note_accrual :
      ℕ → Progress → Deposit → Result Accrual → Result (Progress × Deposit)
  note_accrual now p deposit panic = panic
  note_accrual now p deposit (err e) =
      ok (record p { error = some e }, record deposit { last_accrued = now })
  note_accrual now p deposit (ok accrual) = do
    incentives ← must (x.u128_add p.mbrn_incentives accrual.incentives)
    ok (record p { mbrn_incentives = incentives; stored = some accrual.total }, accrual.deposit)

  unfoldable pub accrue : ℕ → Config → Progress → Decimal → Deposit → Result (Progress × Deposit)
  accrue now config p amount deposit = do
    stake ← floor amount
    note_accrual now p deposit (accrue_incentives now config p.stored stake deposit)

  -- The amount to unstake, raised to the minimum, or to the deposit where too little would stay.
  unfoldable pub raise_minimum : Config → Decimal → Decimal → Result Decimal
  raise_minimum config amount withdrawal_amount = do
    whole ← floor withdrawal_amount
    if not (ltb whole config.minimum_deposit_amount) then ok withdrawal_amount else (do
      minimum ← must (x.decimal_from_ratio config.minimum_deposit_amount 1)
      rest ← must (x.decimal_sub amount minimum)
      if ltb rest minimum then ok amount else ok minimum)

  -- A part of a deposit is unstaked, the rest of it returns.
  unfoldable pub split_deposit : ℕ → Config → Progress → Deposit → Result Visit
  split_deposit now config p deposit = do
    amount ← raise_minimum config deposit.amount p.withdrawal_amount
    rest ← must (x.decimal_sub deposit.amount amount)
    ok (record {
      progress = record p {
        withdrawal_amount = 0;
        returning_deposit = some (record deposit { amount = rest; unstake_time = none });
      };
      deposit = record deposit { amount = amount; unstake_time = some now };
      withdrawable = false;
    })

  unfoldable pub unstake_whole : ℕ → Progress → Deposit → Result Visit
  unstake_whole now p deposit = do
    amount ← must (x.decimal_sub p.withdrawal_amount deposit.amount)
    ok (record {
      progress = record p { withdrawal_amount = amount };
      deposit = record deposit { unstake_time = some now };
      withdrawable = false;
    })

  -- Whether the deposit may be withdrawn; if it is not unstaking yet, it starts to.
  unfoldable pub unstake : ℕ → Config → Progress → Deposit → Option ℕ → Result Visit
  unstake now config p deposit (some unstaked) = do
    elapsed ← must (checked_sub now unstaked)
    period ← must (checked_mul (2 ^ 64) config.unstaking_period seconds_per_day)
    ok (record { progress = p; deposit = deposit; withdrawable = leb period elapsed })
  unstake now config p deposit none =
      if ltb p.withdrawal_amount deposit.amount && is_nonzero p.withdrawal_amount
      then split_deposit now config p deposit
      else if is_nonzero p.withdrawal_amount
      then unstake_whole now p deposit
      else ok (record { progress = p; deposit = deposit; withdrawable = false })

  unfoldable pub take_rest : ℕ → ℕ → Result (ℕ × Decimal)
  take_rest withdrawable whole = do all ← must (x.u128_add withdrawable whole); ok (all, 0)

  -- The dust that a withdrawal would leave is withdrawn too.
  unfoldable pub take_dust : Config → ℕ → Decimal → Result (ℕ × Decimal)
  take_dust config withdrawable rest = do
    whole ← floor rest
    if ltb whole config.minimum_deposit_amount
        then take_rest withdrawable whole
        else ok (withdrawable, rest)

  unfoldable pub take_part : ℕ → Config → Progress → Deposit → Result (Progress × Deposit)
  take_part now config p deposit = do
    whole ← floor p.withdrawal_amount
    withdrawable ← must (x.u128_add p.withdrawable_amount whole)
    rest ← must (x.decimal_sub deposit.amount p.withdrawal_amount)
    taken ← take_dust config withdrawable rest
    accrued ←
        accrue now config (record p { withdrawable_amount = taken.0 }) p.withdrawal_amount
          (record deposit { amount = taken.1 })
    ok (record accrued.0 { withdrawal_amount = 0 }, accrued.1)

  unfoldable pub take_whole : Progress → Deposit → Result (Progress × Deposit)
  take_whole p deposit = do
    amount ← must (x.decimal_sub p.withdrawal_amount deposit.amount)
    whole ← floor deposit.amount
    withdrawable ← must (x.u128_add p.withdrawable_amount whole)
    ok (
      record p { withdrawal_amount = amount; withdrawable_amount = withdrawable },
      record deposit { amount = 0 },
    )

  -- Withdraws from a deposit that may be.
  unfoldable pub take_from : ℕ → Config → Visit → Result (Progress × Deposit)
  take_from now config v =
      if not (is_nonzero v.progress.withdrawal_amount) || not v.withdrawable
      then ok (v.progress, v.deposit)
      else if ltb v.progress.withdrawal_amount v.deposit.amount
      then take_part now config v.progress v.deposit
      else take_whole v.progress v.deposit

  unfoldable pub visit : ℕ → Config → Bool → Progress → Deposit → Result (Progress × Deposit)
  visit now config skip_unstaking p deposit = do
    accrued ← accrue now config p deposit.amount deposit
    v ←
        (if skip_unstaking
          then ok (record {
            progress = accrued.0;
            deposit = record accrued.1 { unstake_time = some now };
            withdrawable = true;
          })
          else unstake now config accrued.0 accrued.1 accrued.1.unstake_time)
    take_from now config v

  -- The closure, mapped over the deposits.
  unfoldable pub visit_all :
      ℕ → Config → Addr → Bool → Progress → List Deposit → Result (Progress × List Deposit)
  visit_all now config user skip_unstaking p [] = ok (p, [])
  visit_all now config user skip_unstaking p (deposit ∷ deposits) = do
    first ←
        (if str_eq deposit.user user
          then visit now config skip_unstaking p deposit
          else ok (p, deposit))
    rest ← visit_all now config user skip_unstaking first.0 deposits
    ok (rest.0, first.1 ∷ rest.1)

  -- The incentives among the user's claims; only a user with a deposit accrues any.
  unfoldable pub add_incentives :
      Config → Option (List (String × ℕ)) → ℕ → Result (List (String × ℕ))
  add_incentives config (some claims) incentives =
      or_err (x.coins_add claims config.mbrn_denom incentives) (generic_err "Coins::add")
  add_incentives config none incentives =
      or_err (x.coins_from config.mbrn_denom incentives) (generic_err "Coins::from_str")

  unfoldable pub save_incentives : Store → Config → Addr → ℕ → Result Store
  save_incentives store config user incentives = do
    claims ← add_incentives config (store.users user) incentives
    ok (record store { users = λ u. if str_eq u user then some claims else store.users u })

  -- The pool with the deposits that are left.
  unfoldable pub settle_pool : AssetPool → Progress → List Deposit → Result AssetPool
  settle_pool pool p deposits = do
    reject_if (is_nonzero p.withdrawal_amount) invalid_pool_withdrawal
    total ← must (x.u128_sub pool.credit_asset.amount p.withdrawable_amount)
    ok (record pool {
      credit_asset = record pool.credit_asset { amount = total };
      deposits = return_deposit (filter (λ d. is_nonzero d.amount) deposits) p.returning_deposit;
    })

  -- The error that is returned prints the kept one.
  unfoldable pub reject_error : Option Error → Result (Unit {0})
  reject_error none = ok tt
  reject_error (some e) = err (custom_error "accrue_incentives")

  unfoldable pub withdrawal_from_state :
      Store → Env → Config → Addr → Decimal → AssetPool → Bool → Result (Store × ℕ × AssetPool)
  withdrawal_from_state store env config user withdrawal_amount pool skip_unstaking = do
    let start : Progress = record {
      withdrawal_amount = withdrawal_amount;
      withdrawable_amount = 0;
      returning_deposit = none;
      mbrn_incentives = 0;
      stored = store.incentives;
      error = none;
    }
    visited ← visit_all (x.seconds env.time) config user skip_unstaking start pool.deposits
    let p = visited.0
    pool' ← settle_pool pool p visited.1
    reject_error p.error
    let store' = record store { incentives = p.stored }
    store'' ←
        (if p.mbrn_incentives == 0
          then ok store'
          else save_incentives store' config user p.mbrn_incentives)
    ok (store'', p.withdrawable_amount, pool')
