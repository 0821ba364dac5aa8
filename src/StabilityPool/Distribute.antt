-- ===== src/StabilityPool/Distribute.antt =====
-- The choice of the deposits that `distribute_funds` of contracts/stability-pool/src/contract.rs pays
-- for, with the incentives that they accrue, and `add_to_user_claims`.
pub mod Drawn
use membrane_core.Prelude.{
  ℕ, ◌==◌, Option, none, some, List, [], ◌∷◌, not, ltb, str_eq, if◌then◌else◌, String,
}
use membrane_core.Crates.{Crates}
use membrane_core.Result.{Result, ok, generic_err, ◌>>=◌, must, or_err}
use membrane_core.Asset.{Addr}
use membrane_core.Math.Decimal.{Decimal}
use membrane_core.StabilityPool.Types.{Deposit, Config, Store}
use membrane_core.StabilityPool.Incentives.{accrue_incentives}
use membrane_core.StabilityPool.Unstake.{floor}

-- `distribution_list.push`, before the rounds that follow
unfoldable pub put_first : Deposit → Result (Store × List Deposit) → Result (Store × List Deposit)
put_first drawn rest = rest >>= λ r. ok (r.0, drawn ∷ r.1)

module _ ⦃x : Crates⦄ where
  unfoldable pub add_coin : Option (List (String × ℕ)) → String → ℕ → Result (List (String × ℕ))
  add_coin (some claims) denom amount =
      or_err (x.coins_add claims denom amount) (generic_err "Coins::add")
  add_coin none denom amount = or_err (x.coins_from denom amount) (generic_err "Coins::from_str")

  unfoldable pub save_claims : Store → Addr → String → ℕ → Result Store
  save_claims store user denom amount = do
    claims ← add_coin (store.users user) denom amount
    ok (record store { users = λ u. if str_eq u user then some claims else store.users u })

  unfoldable pub add_to_user_claims : Store → Addr → String → ℕ → Result Store
  add_to_user_claims store user denom amount =
      if amount == 0 then ok store else save_claims store user denom amount

  unfoldable pub accrue_drawn : Store → ℕ → Config → Decimal → Deposit → Result Store
  accrue_drawn store now config amount deposit = do
    stake ← floor amount
    accrual ← accrue_incentives now config store.incentives stake deposit
    add_to_user_claims (record store { incentives = some accrual.total }) deposit.user
        config.mbrn_denom accrual.incentives

  -- The incentives of what is drawn, unless they are up to date.
  unfoldable pub update_drawn : Store → ℕ → Config → Decimal → Deposit → Result Store
  update_drawn store now config amount deposit =
      if ltb deposit.last_accrued now
      then accrue_drawn store now config amount deposit
      else ok store

  -- The store, the new total, what is drawn of the deposit.
  unfoldable pub draw_part :
      Store → ℕ → Config → Decimal → Decimal → Deposit → Result (Store × Decimal × Deposit)
  draw_part store now config repaid current deposit = do
    remaining ← must (x.decimal_sub repaid current)
    rest ← must (x.decimal_sub deposit.amount remaining)
    total ← must (x.decimal_add current remaining)
    store' ← update_drawn store now config remaining (record deposit { amount = rest })
    ok (store', total, record deposit { amount = remaining })

  unfoldable pub draw_whole :
      Store → ℕ → Config → Decimal → Deposit → Result (Store × Decimal × Deposit)
  draw_whole store now config total deposit = do
    store' ← update_drawn store now config deposit.amount deposit
    ok (store', total, deposit)

  unfoldable pub draw_one :
      Store → ℕ → Config → Decimal → Decimal → Deposit → Result (Store × Decimal × Deposit)
  draw_one store now config repaid current deposit = do
    total ← must (x.decimal_add current deposit.amount)
    if ltb repaid total
        then draw_part store now config repaid current deposit
        else draw_whole store now config total deposit

  -- The loop over the deposits: the store and the distribution list. At the end of the deposits it stops.
  unfoldable pub draw :
      Store → ℕ → Config → Decimal → Decimal → List Deposit → Result (Store × List Deposit)
  draw store now config repaid current [] = ok (store, [])
  draw store now config repaid current (deposit ∷ deposits) =
      if not (ltb current repaid)
      then ok (store, [])
      else (draw_one store now config repaid current deposit >>= λ one.
          put_first one.2 (draw one.0 now config repaid one.1 deposits))
