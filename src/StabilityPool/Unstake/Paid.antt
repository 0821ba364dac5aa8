-- ===== src/StabilityPool/Unstake/Paid.antt =====
-- `withdrawal_from_state` of contracts/stability-pool/src/contract.rs: the payment and the pool.
use membrane_core.Prelude.{
  ℕ, ◌+◌, ◌*◌, ◌^◌, ◌≤◌, ◌≡◌, ◌==◌, refl, subst, Bool, true, false, not, str_eq, if◌then◌else◌,
  Option, none, some, List, [], ◌∷◌, ◌++◌, arith, filter, sum_by, sum_by-append, sum_by-filter,
}
use membrane_core.Crates.{Crates}
use membrane_core.Result.{ok, >>=-eq-ok, ok-injective, must, reject_if, invalid_pool_withdrawal}
use membrane_core.Asset.{Addr}
use membrane_core.Chain.{Env}
use membrane_core.Math.Decimal.{Decimal}
use membrane_core.StabilityPool.Types.{Deposit, AssetPool, Config, Store}
use membrane_core.StabilityPool.Unstake.{
  Progress, visit, visit_all, return_deposit, settle_pool, reject_error, save_incentives,
  withdrawal_from_state,
}
use membrane_core.StabilityPool.Unstake.Losses.{returning, Loses, visit-Loses}

-- All the deposits together.
abbrev pub deposited : List Deposit → ℕ
deposited = sum_by (λ d. d.amount)

-- What a withdrawal leaves: the deposits lost at least what it pays, the pool's total exactly that.
pub record IsPaid (pool : AssetPool) (withdrawable : ℕ) (pool' : AssetPool) : Type 0 where
  pub deposits : deposited pool'.deposits + withdrawable * 10 ^ 18 ≤ deposited pool.deposits
  pub total : pool'.credit_asset.amount + withdrawable ≡ pool.credit_asset.amount
  pub info : pool'.credit_asset.info ≡ pool.credit_asset.info

return_deposit-bound :
    (deposits : List Deposit) (returned : Option Deposit)
    → deposited (return_deposit deposits returned) ≤ deposited deposits + returning returned
unfolding return_deposit
return_deposit-bound deposits none = omega arith
return_deposit-bound deposits (some d) = by_test (d.amount == 0)
  where
    by_test :
        (b : Bool)
        → deposited (if b then deposits else deposits ++ d ∷ []) ≤ deposited deposits + d.amount
    by_test true = omega arith
    by_test false = omega (arith, sum_by-append (λ e. e.amount) deposits (d ∷ []))

module _ ⦃x : Crates⦄ where
  visit_all-bound :
      (now : ℕ) (config : Config) (user : Addr) (skip : Bool) (p : Progress)
      (deposits : List Deposit) (r : Progress × List Deposit)
      → visit_all now config user skip p deposits ≡ ok r
      → deposited r.1 + returning r.0.returning_deposit + r.0.withdrawable_amount * 10 ^ 18
        ≤ deposited deposits + returning p.returning_deposit + p.withdrawable_amount * 10 ^ 18
  unfolding visit_all
  visit_all-bound now config user skip p [] r h =
      subst
        (λ q.
          deposited q.1 + returning q.0.returning_deposit + q.0.withdrawable_amount * 10 ^ 18
          ≤ 0 + returning p.returning_deposit + p.withdrawable_amount * 10 ^ 18)
        (ok-injective h) (omega arith)
  visit_all-bound now config user skip p (d ∷ deposits) r h =
      let same : Progress × Deposit = (p, d) in
      let step = if str_eq d.user user then visit now config skip p d else ok same in
      let (first, ef, h₁) = >>=-eq-ok step _ h in
      let (rest, er, h₂) = >>=-eq-ok (visit_all now config user skip first.0 deposits) _ h₁ in
      let head =
        by_user (str_eq d.user user) first same (record { loses = omega arith; user = refl }) ef in
      subst
        (λ q.
          deposited q.1 + returning q.0.returning_deposit + q.0.withdrawable_amount * 10 ^ 18
          ≤ d.amount
            + deposited deposits
            + returning p.returning_deposit
            + p.withdrawable_amount * 10 ^ 18)
        (ok-injective h₂)
        (omega (arith, head.loses, visit_all-bound now config user skip first.0 deposits rest er))
    where
      by_user :
          (b : Bool) (first same : Progress × Deposit)
          → Loses p d same.0 same.1
          → (if b then visit now config skip p d else ok same) ≡ ok first
          → Loses p d first.0 first.1
      by_user true first same kept k = visit-Loses now config skip p d first k
      by_user false first same kept k = subst (λ q. Loses p d q.0 q.1) (ok-injective k) kept

  settle_pool-IsPaid :
      (pool pool' : AssetPool) (p : Progress) (deposits : List Deposit)
      → deposited deposits + returning p.returning_deposit + p.withdrawable_amount * 10 ^ 18
        ≤ deposited pool.deposits
      → settle_pool pool p deposits ≡ ok pool'
      → IsPaid pool p.withdrawable_amount pool'
  unfolding settle_pool
  settle_pool-IsPaid pool pool' p deposits bound h =
      let (_, _, h₁) =
        >>=-eq-ok (reject_if (not (p.withdrawal_amount == 0)) invalid_pool_withdrawal) _ h in
      let (total, et, h₂) =
        >>=-eq-ok (must (x.u128_sub pool.credit_asset.amount p.withdrawable_amount)) _ h₁ in
      let rest = filter (λ d. not (d.amount == 0)) deposits in
      subst (IsPaid pool p.withdrawable_amount) (ok-injective h₂) (record {
        deposits = omega (
          arith,
          bound,
          return_deposit-bound rest p.returning_deposit,
          sum_by-filter (λ d. d.amount) (λ d. not (d.amount == 0)) deposits,
        );
        total = total_lem pool.credit_asset.amount p.withdrawable_amount total et;
        info = refl;
      })
    where
      total_lem : (m n k : ℕ) → must (x.u128_sub m n) ≡ ok k → k + n ≡ m
      total_lem m n k e = ground (arith, x.u128_sub_lem m n)

  -- A withdrawal from the pool never pays more than the deposits lose, fractions and dust included, and
  -- takes exactly what it pays off the pool's total.
  pub withdrawal_from_state-IsPaid :
      (s s' : Store) (env : Env) (config : Config) (user : Addr) (amount : Decimal)
      (pool pool' : AssetPool) (skip : Bool) (withdrawable : ℕ)
      → withdrawal_from_state s env config user amount pool skip ≡ ok (s', withdrawable, pool')
      → IsPaid pool withdrawable pool'
  unfolding withdrawal_from_state
  withdrawal_from_state-IsPaid s s' env config user amount pool pool' skip withdrawable h =
      let start : Progress = record {
        withdrawal_amount = amount;
        withdrawable_amount = 0;
        returning_deposit = none;
        mbrn_incentives = 0;
        stored = s.incentives;
        error = none;
      } in
      let now = x.seconds env.time in
      let (visited, ev, h₁) = >>=-eq-ok (visit_all now config user skip start pool.deposits) _ h in
      let p = visited.0 in
      let (settled, es, h₂) = >>=-eq-ok (settle_pool pool p visited.1) _ h₁ in
      let (_, _, h₃) = >>=-eq-ok (reject_error p.error) _ h₂ in
      let s₁ = record s { incentives = p.stored } in
      let (s₂, _, h₄) =
        >>=-eq-ok
          (if p.mbrn_incentives == 0
            then ok s₁
            else save_incentives s₁ config user p.mbrn_incentives)
          _ h₃ in
      subst (λ q. IsPaid pool q.1 q.2) (ok-injective h₄)
        (settle_pool-IsPaid pool settled p visited.1
          (omega (arith, visit_all-bound now config user skip start pool.deposits visited ev)) es)
