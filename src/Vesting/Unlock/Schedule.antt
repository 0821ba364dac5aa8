-- ===== src/Vesting/Unlock/Schedule.antt =====
-- `get_unlocked_amount` of contracts/vesting/src/contract.rs against a vesting schedule.
use native.Mathlib.Nat.{
  mul-le-mul_left, mul-le-mul_right, le-div_iff_mul-le, div-mul-le_self, div-zero,
  mul-div-mul_right,
}
use membrane_core.Prelude.{
  ℕ, ◌+◌, ◌-◌, ◌*◌, ◌/◌, ◌^◌, ◌≤◌, ◌<◌, ◌≢◌, zero, suc, ◌≡◌, inl, inr, refl, subst, ◌||◌, some,
  arith, ltb, ◌==◌, if◌then◌else◌, Bool-cases,
}
use membrane_core.Crates.{Crates, checked_sub, checked_mul}
use membrane_core.Result.{Result, ok, must}
use membrane_core.Math.Decimal.{Decimal, decimal_division}
use membrane_core.Vesting.Types.{Allocation}
use membrane_core.Vesting.Unlock.{
  seconds_in_a_day, newly_unlocked, unlock_part, unlock_rest, unlock_after, get_unlocked_amount,
}
use membrane_core.Vesting.Unlock.Payments.{share, share_bound, scaled_bound}

abbrev pub cliff_end : Allocation → ℕ
cliff_end a = a.start_time_of_allocation + a.vesting_period.cliff * seconds_in_a_day

abbrev pub linear_seconds : Allocation → ℕ
linear_seconds a = a.vesting_period.linear * seconds_in_a_day

abbrev pub vesting_end : Allocation → ℕ
vesting_end a = cliff_end a + linear_seconds a

-- What has vested of an allocation: nothing before the cliff's end, then the share of the linear
-- period that has passed, and from its end on all of it.
abbrev pub vested : Allocation → ℕ → ℕ
vested a now =
    if ltb now (cliff_end a)
    then 0
    else if ltb now (vesting_end a)
    then a.amount * share (now - cliff_end a) (linear_seconds a) / 10 ^ 18
    else a.amount

-- The numbers of an allocation fit the machine's.
pub record Fits (a : Allocation) : Type 0 where
  pub amount : a.amount < 2 ^ 127
  pub cliff : a.vesting_period.cliff * seconds_in_a_day < 2 ^ 64
  pub linear : a.vesting_period.linear * seconds_in_a_day < 2 ^ 64

pub vested_bound : (a : Allocation) (now : ℕ) → vested a now ≤ a.amount
vested_bound a now =
    let bound = λ (h : now - cliff_end a < linear_seconds a).
      scaled_bound a.amount (share (now - cliff_end a) (linear_seconds a))
        (share_bound (now - cliff_end a) (linear_seconds a) h) in
    ground arith

div_mono : (m n k : ℕ) → m ≤ n → m / k ≤ n / k
div_mono m n zero h = rw (div-zero m) (omega arith)
div_mono m n (suc k) h =
    let below = div-mul-le_self m (suc k) in
    (le-div_iff_mul-le {k = suc k} {x = m / suc k} {y = n} (omega arith)).1 (omega (arith, below))

share_mono : (p q l : ℕ) → p ≤ q → share p l ≤ share q l
share_mono p q l h = div_mono (p * 10 ^ 18) (q * 10 ^ 18) l (mul-le-mul_right (10 ^ 18) h)

scaled_mono : (a r s : ℕ) → r ≤ s → a * r / 10 ^ 18 ≤ a * s / 10 ^ 18
scaled_mono a r s h = div_mono (a * r) (a * s) (10 ^ 18) (mul-le-mul_left a h)

-- What has vested only grows.
pub vested_mono : (a : Allocation) (now later : ℕ) → now ≤ later → vested a now ≤ vested a later
vested_mono a now later h =
    let grows =
      scaled_mono a.amount (share (now - cliff_end a) (linear_seconds a))
        (share (later - cliff_end a) (linear_seconds a))
        (share_mono (now - cliff_end a) (later - cliff_end a) (linear_seconds a) (omega arith)) in
    let bound = vested_bound a now in ground arith

-- The allocation after it has paid what has vested.
unfoldable pub settled : Allocation → ℕ → Allocation
settled a now =
    if a.amount == 0 || ltb now (cliff_end a)
    then a
    else if ltb now (vesting_end a)
    then record a { amount_withdrawn = vested a now }
    else record a { amount_withdrawn = a.amount_withdrawn + a.amount }

module _ ⦃x : Crates⦄ where
  from_ratio_lem : (a : ℕ) → a < 2 ^ 64 → must (x.decimal_from_ratio a 1) ≡ ok (a * 10 ^ 18)
  from_ratio_lem a h = ground (arith, x.decimal_from_ratio_lem a 1)

  division_lem : (p l : ℕ) → p < l → decimal_division (p * 10 ^ 18) (l * 10 ^ 18) ≡ ok (share p l)
  unfolding decimal_division
  division_lem p l h =
      let cancel : p * 10 ^ 18 * 10 ^ 18 / (l * 10 ^ 18) ≡ share p l =
        mul-div-mul_right (p * 10 ^ 18) l (omega arith) in
      let bound = share_bound p l h in
      ground (arith, x.decimal_checked_div_lem (p * 10 ^ 18) (l * 10 ^ 18))

  newly_unlocked_lem :
      (a : Allocation) (ratio : Decimal)
      → a.amount < 2 ^ 128
      → ratio ≤ 10 ^ 18
      → a.amount_withdrawn ≤ a.amount * ratio / 10 ^ 18
      → newly_unlocked a ratio ≡ ok (a.amount * ratio / 10 ^ 18 - a.amount_withdrawn)
  unfolding newly_unlocked
  newly_unlocked_lem a ratio fits bound on_time =
      let scaled = scaled_bound a.amount ratio bound in
      ground (
        arith,
        x.u128_mul_decimal_lem a.amount ratio,
        x.u128_sub_lem (a.amount * ratio / 10 ^ 18) a.amount_withdrawn,
      )

  unlock_part_lem :
      (a : Allocation) (passed linear : ℕ)
      → passed < linear
      → linear < 2 ^ 64
      → a.amount < 2 ^ 127
      → a.amount_withdrawn ≤ a.amount * share passed linear / 10 ^ 18
      → let v = a.amount * share passed linear / 10 ^ 18 in
        unlock_part a passed linear ≡ ok (v - a.amount_withdrawn, record a { amount_withdrawn = v })
  unfolding unlock_part
  unlock_part_lem a passed linear within small fits on_time =
      let bound = share_bound passed linear within in
      let scaled = scaled_bound a.amount (share passed linear) bound in
      rw (from_ratio_lem passed (omega arith)) (
        rw (from_ratio_lem linear small) (
          rw (division_lem passed linear within) (
            rw (newly_unlocked_lem a (share passed linear) (omega arith) bound on_time)
              (rw (added (a.amount * share passed linear / 10 ^ 18) on_time scaled) refl))))
    where
      added :
          (v : ℕ)
          → a.amount_withdrawn ≤ v
          → v ≤ a.amount
          → must (x.u128_add a.amount_withdrawn (v - a.amount_withdrawn)) ≡ ok v
      added v h k = ground (arith, x.u128_add_lem a.amount_withdrawn (v - a.amount_withdrawn))

  unlock_rest_lem :
      (a : Allocation)
      → a.amount < 2 ^ 127
      → a.amount_withdrawn ≤ a.amount
      → unlock_rest a
        ≡ ok (
          a.amount - a.amount_withdrawn,
          record a { amount_withdrawn = a.amount_withdrawn + a.amount },
        )
  unfolding unlock_rest
  unlock_rest_lem a fits h = ground (
    arith,
    x.u128_sub_lem a.amount a.amount_withdrawn,
    x.u128_add_lem a.amount_withdrawn a.amount,
  )

  within_lem :
      (a : Allocation) (now : ℕ)
      → Fits a
      → cliff_end a ≤ now
      → now < vesting_end a
      → a.amount ≢ 0
      → a.amount_withdrawn ≤ vested a now
      → unlock_part a (now - cliff_end a) (linear_seconds a)
        ≡ ok (vested a now - a.amount_withdrawn, settled a now)
  unfolding settled
  within_lem a now fits after before positive on_time =
      let v : vested a now ≡ a.amount * share (now - cliff_end a) (linear_seconds a) / 10 ^ 18 =
        ground arith in
      let s : settled a now ≡ record a { amount_withdrawn = vested a now } = ground arith in
      rw s (
        rw v (
          unlock_part_lem a (now - cliff_end a) (linear_seconds a) (omega arith) fits.linear
            fits.amount (subst (λ n. a.amount_withdrawn ≤ n) v on_time)))

  rest_lem :
      (a : Allocation) (now : ℕ)
      → Fits a
      → vesting_end a ≤ now
      → a.amount ≢ 0
      → a.amount_withdrawn ≤ vested a now
      → unlock_rest a ≡ ok (vested a now - a.amount_withdrawn, settled a now)
  unfolding settled
  rest_lem a now fits after positive on_time =
      let v : vested a now ≡ a.amount = ground arith in
      let s : settled a now ≡ record a { amount_withdrawn = a.amount_withdrawn + a.amount } =
        ground arith in
      rw s (rw v (unlock_rest_lem a fits.amount (subst (λ n. a.amount_withdrawn ≤ n) v on_time)))

  nothing_lem :
      (a : Allocation) (r : Result (ℕ × Allocation))
      → r ≡ ok (0, a)
      → r ≡ ok (0 - a.amount_withdrawn, a)
  nothing_lem a r h = subst (λ n. r ≡ ok (n, a)) (sub_lem a.amount_withdrawn) h
    where
      sub_lem : (n : ℕ) → 0 ≡ 0 - n
      sub_lem n = omega arith

  empty-settled : (a : Allocation) (now : ℕ) → a.amount ≡ 0 → settled a now ≡ a
  unfolding settled
  empty-settled a now h = ground arith

  early_lem :
      (a : Allocation) (now : ℕ) (r : Result (ℕ × Allocation))
      → now < cliff_end a
      → r ≡ ok (0, a)
      → r ≡ ok (vested a now - a.amount_withdrawn, settled a now)
  unfolding settled
  early_lem a now r early h =
      let v : vested a now ≡ 0 = ground arith in
      let s : settled a now ≡ a = ground arith in rw s (rw v (nothing_lem a r h))

  unlock_after-vested :
      (a : Allocation) (now : ℕ)
      → Fits a
      → a.start_time_of_allocation ≤ now
      → a.amount ≢ 0
      → a.amount_withdrawn ≤ vested a now
      → unlock_after a (now - a.start_time_of_allocation)
        ≡ ok (vested a now - a.amount_withdrawn, settled a now)
  unfolding unlock_after
  unlock_after-vested a now fits started positive on_time =
      let c = a.vesting_period.cliff * seconds_in_a_day in
      let time = now - a.start_time_of_allocation in
      let same : time - c ≡ now - cliff_end a = omega arith in
      rw (fitting_mul a.vesting_period.cliff fits.cliff) (elim (Bool-cases (ltb time c)) [
        | inl e ↦ rw e (early_lem a now (ok (0, a)) (ground arith) refl)
        | inr e ↦ rw e (
            rw (fitting_mul a.vesting_period.linear fits.linear) (
              rw same (elim (Bool-cases (ltb (now - cliff_end a) (linear_seconds a))) [
                | inl w ↦
                    rw w (within_lem a now fits (ground arith) (ground arith) positive on_time)
                | inr w ↦ rw w (rest_lem a now fits (ground arith) positive on_time)
              ])))
      ])
    where
      fitting_mul :
          (n : ℕ)
          → n * seconds_in_a_day < 2 ^ 64
          → must (checked_mul (2 ^ 64) n seconds_in_a_day) ≡ ok (n * seconds_in_a_day)
      fitting_mul n h = ground arith

  -- From the start of an allocation on, if no more is withdrawn than what has vested, get_unlocked_amount
  -- succeeds and unlocks exactly what has vested and is not withdrawn.
  pub get_unlocked_amount-vested :
      (a : Allocation) (now : ℕ)
      → Fits a
      → a.start_time_of_allocation ≤ now
      → a.amount_withdrawn ≤ vested a now
      → get_unlocked_amount (some a) now ≡ ok (vested a now - a.amount_withdrawn, settled a now)
  unfolding get_unlocked_amount unlock_after
  get_unlocked_amount-vested a now fits started on_time = elim (Bool-cases (a.amount == 0)) [
    | inl e ↦
        let v : vested a now ≡ 0 = none_vested a now (ground arith) in
        rw e (rw v (rw (empty-settled a now (ground arith)) (nothing_lem a (ok (0, a)) refl)))
    | inr e ↦ rw e (
        rw (elapsed_lem now a.start_time_of_allocation started)
          (unlock_after-vested a now fits started (ground arith) on_time))
  ]
    where
      elapsed_lem : (m n : ℕ) → n ≤ m → must (checked_sub m n) ≡ ok (m - n)
      elapsed_lem m n h = ground arith

      none_vested : (b : Allocation) (t : ℕ) → b.amount ≡ 0 → vested b t ≡ 0
      none_vested b t h = omega (arith, vested_bound b t)
