-- ===== src/StabilityPool/Incentives.antt =====
-- `accrue_incentives` of contracts/stability-pool/src/contract.rs, `accumulate_interest` of
-- packages/membrane/src/helpers.rs.
pub mod Capped
use membrane_core.Prelude.{ℕ, Option, none, some, ltb, if◌then◌else◌}
use membrane_core.Crates.{Crates, checked_sub}
use membrane_core.Result.{Result, ok, overflow, not_found, ◌>>=◌, must, or_err}
use membrane_core.Math.Decimal.{Decimal}
use membrane_core.StabilityPool.Types.{Deposit, Config}

abbrev pub seconds_per_year : ℕ
seconds_per_year = 31_536_000

-- What a deposit accrues, and what the call leaves: the total of the incentives, the deposit.
pub record Accrual : Type 0 where
  pub incentives : ℕ
  pub total : ℕ
  pub deposit : Deposit

module _ ⦃x : Crates⦄ where
  unfoldable pub accumulate_interest : ℕ → Decimal → ℕ → Result ℕ
  accumulate_interest base rate time_elapsed = do
    years ← must (x.decimal_from_ratio time_elapsed seconds_per_year)
    applied_rate ← or_err (x.decimal_checked_mul rate years) overflow
    must (x.u128_mul_decimal base applied_rate)

  -- An unstaking deposit accrues nothing; the subtraction on u64 panics on underflow.
  unfoldable pub time_elapsed : ℕ → Deposit → Option ℕ → Result ℕ
  time_elapsed now deposit (some unstaked) = ok 0
  time_elapsed now deposit none = must (checked_sub now deposit.last_accrued)

  -- What is left below the cap.
  unfoldable pub rest_capped : ℕ → ℕ → Result (ℕ × ℕ)
  rest_capped max_incentives total =
      must (x.u128_sub max_incentives total) >>= λ rest. ok (rest, max_incentives)

  -- The incentives within the cap, and the new total.
  unfoldable pub cap_incentives : ℕ → ℕ → ℕ → Result (ℕ × ℕ)
  cap_incentives max_incentives total incentives = do
    sum ← must (x.u128_add total incentives)
    if ltb max_incentives sum then rest_capped max_incentives total else ok (incentives, sum)

  -- At this time in seconds, with this total of the incentives in the storage.
  unfoldable pub accrue_incentives : ℕ → Config → Option ℕ → ℕ → Deposit → Result Accrual
  accrue_incentives now config stored stake deposit = do
    elapsed ← time_elapsed now deposit deposit.unstake_time
    incentives ← accumulate_interest stake config.incentive_rate elapsed
    total_incentives ← or_err stored not_found
    capped ← cap_incentives config.max_incentives total_incentives incentives
    ok (record {
      incentives = capped.0;
      total = capped.1;
      deposit = record deposit { last_accrued = now };
    })
