-- ===== src/StabilityPool/Withdraw/Backed.antt =====
-- `withdraw` of contracts/stability-pool/src/contract.rs and the total of the pool.
use membrane_core.Prelude.{ℕ, ◌≡◌, ◌==◌, sym, ap, subst, ◌∙◌, some, some-inj, arith, ltb}
use membrane_core.Crates.{Crates}
use membrane_core.Result.{
  ok, >>=-eq-ok, ok-injective, must, or_err-eq-ok, not_found, reject_if, invalid_pool_withdrawal,
}
use membrane_core.Chain.{Env, MessageInfo}
use membrane_core.StabilityPool.Types.{
  AssetPool, Store, Response, load_config, load_asset, save_asset,
}
use membrane_core.StabilityPool.Unstake.{withdrawal_from_state}
use membrane_core.StabilityPool.Unstake.Paid.{IsPaid, withdrawal_from_state-IsPaid}
use membrane_core.StabilityPool.Deposits.Backed.{IsBacked}
use membrane_core.StabilityPool.Withdraw.{user_total, check_withdrawable, send, withdraw}

pub paid-IsBacked :
    (pool pool' : AssetPool) (n : ℕ) → IsPaid pool n pool' → IsBacked pool → IsBacked pool'
paid-IsBacked pool pool' n paid h = omega (arith, paid.deposits, paid.total, h)

module _ ⦃x : Crates⦄ where
  -- A withdrawal leaves the pool backed: if its total covered the deposits before, it covers what is
  -- left of them afterwards.
  pub withdraw-IsBacked :
      (s s' : Store) (env : Env) (info : MessageInfo) (amount : ℕ) (response : Response)
      (pool : AssetPool)
      → s.asset ≡ some pool
      → IsBacked pool
      → withdraw s env info amount ≡ ok (s', response)
      → (pool' : AssetPool) × (s'.asset ≡ some pool') × IsBacked pool'
  unfolding withdraw load_asset save_asset
  withdraw-IsBacked s s' env info amount response pool saved backed e =
      let (config, _, e₁) = >>=-eq-ok (load_config s) _ e in
      let (found, ef, e₂) = >>=-eq-ok (load_asset s) _ e₁ in
      let (total, _, e₃) = >>=-eq-ok (user_total info.sender found) _ e₂ in
      let (asked, _, e₄) = >>=-eq-ok (must (x.decimal_from_ratio amount 1)) _ e₃ in
      let (_, _, e₅) = >>=-eq-ok (reject_if (ltb total asked) invalid_pool_withdrawal) _ e₄ in
      let skip = config.unstaking_period == 0 in
      let (w, ew, e₆) =
        >>=-eq-ok (withdrawal_from_state s env config info.sender asked found skip) _ e₅ in
      let pool' = w.2 in
      let (new_total, _, e₇) = >>=-eq-ok (user_total info.sender pool') _ e₆ in
      let (_, _, e₈) =
        >>=-eq-ok
          (check_withdrawable amount config w.1 (x.decimal_to_uint_floor total)
            (x.decimal_to_uint_floor new_total))
          _ e₇ in
      let (r, _, e₉) =
        >>=-eq-ok (send info.sender (record found.credit_asset { amount = w.1 })) _ e₈ in
      let same : pool ≡ found = some-inj (sym saved ∙ or_err-eq-ok s.asset not_found ef) in
      let paid =
        withdrawal_from_state-IsPaid s w.0 env config info.sender asked found pool' skip w.1 ew in
      (
        pool',
        ap (λ q. q.0.asset) (sym (ok-injective e₉)),
        paid-IsBacked found pool' w.1 paid (subst IsBacked same backed),
      )
