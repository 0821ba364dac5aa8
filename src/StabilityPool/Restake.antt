-- ===== src/StabilityPool/Restake.antt =====
-- `restake` of contracts/stability-pool/src/contract.rs.
pub mod Kept
use membrane_core.Prelude.{
  ℕ, ◌==◌, Option, none, some, List, [], ◌∷◌, Bool, true, false, not, ◌&&◌, ltb, str_eq,
  if◌then◌else◌,
}
use membrane_core.Crates.{Crates}
use membrane_core.Result.{Result, ok, ◌>>=◌, ◌>>◌, must}
use membrane_core.Asset.{Addr}
use membrane_core.Chain.{Env, MessageInfo}
use membrane_core.Math.Decimal.{Decimal}
use membrane_core.StabilityPool.Types.{
  Deposit, AssetPool, Config, Store, text, decimal, Response, load_config, load_asset, save_asset,
}
use membrane_core.StabilityPool.Unstake.{Progress, accrue, reject_error, save_incentives}

abbrev is_unstaking : Option ℕ → Bool
is_unstaking none = false
is_unstaking (some time) = true

module _ ⦃x : Crates⦄ where
  -- What is left to restake after a deposit of this amount.
  unfoldable pub restake_left : Decimal → Decimal → Result Decimal
  restake_left amount left = if ltb amount left then must (x.decimal_sub left amount) else ok 0

  -- A deposit that is restaked; `withdrawal_amount` of the progress is what is left to restake.
  unfoldable pub restake_one : ℕ → Config → Progress → Deposit → Result (Progress × Deposit)
  restake_one now config p deposit = do
    accrued ← accrue now config p deposit.amount deposit
    left ← restake_left deposit.amount accrued.0.withdrawal_amount
    ok (
      record accrued.0 { withdrawal_amount = left },
      record accrued.1 { unstake_time = none; deposit_time = now },
    )

  -- Whether the closure edits a deposit.
  abbrev pub is_restaked : Addr → Progress → Deposit → Bool
  is_restaked user p deposit =
      str_eq deposit.user user
      && (not (p.withdrawal_amount == 0) && is_unstaking deposit.unstake_time)

  unfoldable pub restake_all :
      ℕ → Config → Addr → Progress → List Deposit → Result (Progress × List Deposit)
  restake_all now config user p [] = ok (p, [])
  restake_all now config user p (deposit ∷ deposits) = do
    first ←
        (if is_restaked user p deposit then restake_one now config p deposit else ok (p, deposit))
    rest ← restake_all now config user first.0 deposits
    ok (rest.0, first.1 ∷ rest.1)

  unfoldable pub restake : Store → Env → MessageInfo → Decimal → Result (Store × Response)
  restake store env info restake_amount = do
    pool ← load_asset store
    config ← load_config store
    let start : Progress = record {
      withdrawal_amount = restake_amount;
      withdrawable_amount = 0;
      returning_deposit = none;
      mbrn_incentives = 0;
      stored = store.incentives;
      error = none;
    }
    visited ← restake_all (x.seconds env.time) config info.sender start pool.deposits
    let p = visited.0
    reject_error p.error
    let store' = record store { incentives = p.stored }
    store'' ←
        (if p.mbrn_incentives == 0
          then ok store'
          else save_incentives store' config info.sender p.mbrn_incentives)
    ok (
      save_asset store'' (record pool { deposits = visited.1 }),
      record {
        messages = [];
        attributes = ("method", text "restake") ∷ ("restake_amount", decimal restake_amount) ∷ [];
      },
    )
