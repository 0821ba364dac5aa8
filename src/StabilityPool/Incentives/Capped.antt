-- ===== src/StabilityPool/Incentives/Capped.antt =====
-- `accrue_incentives` of contracts/stability-pool/src/contract.rs and the maximum of the
-- incentives.
use membrane_core.Prelude.{
  ℕ, ◌+◌, ◌≤◌, ◌≡◌, refl, subst, Bool, true, false, some, arith, ltb, if◌then◌else◌,
}
use membrane_core.Crates.{Crates}
use membrane_core.Result.{ok, >>=-eq-ok, ok-injective, must}
use membrane_core.StabilityPool.Types.{Deposit, Config}
use membrane_core.StabilityPool.Incentives.{
  Accrual, accumulate_interest, time_elapsed, rest_capped, cap_incentives, accrue_incentives,
}

-- What accruing does: the total grows by what is accrued and stays within the cap, the deposit only
-- notes the time.
pub record IsCapped (max total now : ℕ) (deposit : Deposit) (accrual : Accrual) : Type 0 where
  pub grows : accrual.total ≡ total + accrual.incentives
  pub capped : accrual.total ≤ max
  pub noted : accrual.deposit ≡ record deposit { last_accrued = now }

module _ ⦃x : Crates⦄ where
  cap_incentives-bound :
      (max total incentives : ℕ) (r : ℕ × ℕ)
      → cap_incentives max total incentives ≡ ok r
      → (r.1 ≡ total + r.0) × (r.1 ≤ max)
  unfolding cap_incentives rest_capped
  cap_incentives-bound max total incentives r h =
      let (sum, es, h₁) = >>=-eq-ok (must (x.u128_add total incentives)) _ h in
      by_test sum (sum_lem sum es) (ltb max sum) (incentives, sum)
        (λ t. ground (arith, sum_lem sum es)) h₁
    where
      sum_lem : (k : ℕ) → must (x.u128_add total incentives) ≡ ok k → k ≡ total + incentives
      sum_lem k e = ground (arith, x.u128_add_lem total incentives)

      rest_lem : (k : ℕ) → must (x.u128_sub max total) ≡ ok k → max ≡ total + k
      rest_lem k e = ground (arith, x.u128_sub_lem max total)

      by_test :
          (sum : ℕ)
          → sum ≡ total + incentives
          → (b : Bool) (kept : ℕ × ℕ) → (b ≡ false → (kept.1 ≡ total + kept.0) × (kept.1 ≤ max))
          → (if b then rest_capped max total else ok kept) ≡ ok r
          → (r.1 ≡ total + r.0) × (r.1 ≤ max)
      by_test sum e true kept fine k =
          let (rest, er, k₁) = >>=-eq-ok (must (x.u128_sub max total)) _ k in
          subst (λ q. (q.1 ≡ total + q.0) × (q.1 ≤ max)) (ok-injective k₁)
            (rest_lem rest er, omega arith)
      by_test sum e false kept fine k =
          subst (λ q. (q.1 ≡ total + q.0) × (q.1 ≤ max)) (ok-injective k) (fine refl)

  -- Whenever accrue_incentives succeeds, the new total of the incentives is within the configured
  -- maximum and is the old total plus what this deposit accrues, and the deposit changes only in the
  -- time of its last accrual.
  pub accrue_incentives-IsCapped :
      (now stake total : ℕ) (config : Config) (deposit : Deposit) (accrual : Accrual)
      → accrue_incentives now config (some total) stake deposit ≡ ok accrual
      → IsCapped config.max_incentives total now deposit accrual
  unfolding accrue_incentives
  accrue_incentives-IsCapped now stake total config deposit accrual h =
      let (elapsed, _, h₁) = >>=-eq-ok (time_elapsed now deposit deposit.unstake_time) _ h in
      let (incentives, _, h₂) =
        >>=-eq-ok (accumulate_interest stake config.incentive_rate elapsed) _ h₁ in
      let (capped, ec, h₃) =
        >>=-eq-ok (cap_incentives config.max_incentives total incentives) _ h₂ in
      let (grows, bound) = cap_incentives-bound config.max_incentives total incentives capped ec in
      subst (IsCapped config.max_incentives total now deposit) (ok-injective h₃)
        (record { grows = grows; capped = bound; noted = refl })
