-- ===== src/Vesting/Unlock.antt =====
-- `get_unlocked_amount` of contracts/vesting/src/contract.rs.
pub mod Payments
pub mod Schedule
use membrane_core.Prelude.{ℕ, ◌-◌, ◌^◌, Option, none, some, ltb, ◌==◌, if◌then◌else◌}
use membrane_core.Crates.{Crates, checked_sub, checked_mul}
use membrane_core.Result.{Result, ok, panic, generic_err, ◌>>=◌, must, or_err}
use membrane_core.Math.Decimal.{decimal_division}
use membrane_core.Vesting.Types.{Allocation}

-- `SECONDS_IN_A_DAY`
abbrev pub seconds_in_a_day : ℕ
seconds_in_a_day = 86_400

module _ ⦃x : Crates⦄ where
  -- What the share of the linear period unlocks beyond what is withdrawn.
  unfoldable pub newly_unlocked : Allocation → ℕ → Result ℕ
  newly_unlocked allocation ratio = if ratio == 0 then ok 0 else (do
    unlocked ← must (x.u128_mul_decimal allocation.amount ratio)
    must (x.u128_sub unlocked allocation.amount_withdrawn))

  -- Within the linear period: so many of its seconds have passed.
  unfoldable pub unlock_part : Allocation → ℕ → ℕ → Result (ℕ × Allocation)
  unlock_part allocation passed linear = do
    passed_dec ← must (x.decimal_from_ratio passed 1)
    linear_dec ← must (x.decimal_from_ratio linear 1)
    ratio_unlocked ← decimal_division passed_dec linear_dec
    unlocked ← newly_unlocked allocation ratio_unlocked
    withdrawn ← must (x.u128_add allocation.amount_withdrawn unlocked)
    ok (unlocked, record allocation { amount_withdrawn = withdrawn })

  -- After the linear period.
  unfoldable pub unlock_rest : Allocation → Result (ℕ × Allocation)
  unlock_rest allocation = do
    diff ←
        or_err (x.u128_sub allocation.amount allocation.amount_withdrawn)
          (generic_err "Nothing left to unlock")
    withdrawn ← must (x.u128_add allocation.amount_withdrawn allocation.amount)
    ok (diff, record allocation { amount_withdrawn = withdrawn })

  -- So many seconds after the start; the arithmetic on u64 panics on overflow.
  unfoldable pub unlock_after : Allocation → ℕ → Result (ℕ × Allocation)
  unlock_after allocation time_passed = do
    cliff_in_seconds ← must (checked_mul (2 ^ 64) allocation.vesting_period.cliff seconds_in_a_day)
    if ltb time_passed cliff_in_seconds then ok (0, allocation) else (do
      linear_in_seconds ←
          must (checked_mul (2 ^ 64) allocation.vesting_period.linear seconds_in_a_day)
      let passed = time_passed - cliff_in_seconds
      if ltb passed linear_in_seconds
          then unlock_part allocation passed linear_in_seconds
          else unlock_rest allocation)

  unfoldable pub get_unlocked_amount : Option Allocation → ℕ → Result (ℕ × Allocation)
  get_unlocked_amount none current_block_time = panic
  get_unlocked_amount (some allocation) current_block_time =
      if allocation.amount == 0 then ok (0, allocation) else (do
        time_passed ← must (checked_sub current_block_time allocation.start_time_of_allocation)
        unlock_after allocation time_passed)
