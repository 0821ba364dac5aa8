-- ===== src/StabilityPool/Unstake/Losses.antt =====
-- The closure of `withdrawal_from_state` of contracts/stability-pool/src/contract.rs on one
-- deposit.
use membrane_core.Prelude.{
  ℕ, ◌+◌, ◌*◌, ◌^◌, ◌≤◌, ◌≡◌, ◌==◌, refl, sym, ap, subst, ◌∙◌, Bool, true, false, not, ◌&&◌, ◌||◌,
  ltb, if◌then◌else◌, Option, none, some, arith,
}
use membrane_core.Crates.{Crates, checked_sub, checked_mul}
use membrane_core.Result.{Result, ok, err, panic, >>=-eq-ok, ok-injective, must, or_err, not_found}
use membrane_core.Math.Decimal.{Decimal}
use membrane_core.StabilityPool.Types.{Deposit, Config}
use membrane_core.StabilityPool.Incentives.{
  Accrual, accumulate_interest, time_elapsed, cap_incentives, accrue_incentives,
}
use membrane_core.StabilityPool.Unstake.{
  seconds_per_day, Progress, Visit, floor, note_accrual, accrue, raise_minimum, split_deposit,
  unstake_whole, unstake, take_rest, take_dust, take_part, take_whole, take_from, visit,
}

abbrev pub returning : Option Deposit → ℕ
returning none = 0
returning (some d) = d.amount

-- What there is: the deposit, what returns, what is paid out.
abbrev pub weight : Progress → Deposit → ℕ
weight p d = d.amount + returning p.returning_deposit + p.withdrawable_amount * 10 ^ 18

-- A step on a deposit of a user.
pub record Loses (p : Progress) (d : Deposit) (p' : Progress) (d' : Deposit) : Type 0 where
  pub loses : weight p' d' ≤ weight p d
  pub user : d'.user ≡ d.user

Loses-trans : (p q r : Progress) (a b c : Deposit) → Loses p a q b → Loses q b r c → Loses p a r c
Loses-trans p q r a b c h k = record {
  loses = omega (arith, h.loses, k.loses);
  user = k.user ∙ h.user;
}

module _ ⦃x : Crates⦄ where
  pub accrue_incentives-deposit :
      (now : ℕ) (config : Config) (stored : Option ℕ) (stake : ℕ) (d : Deposit) (accrual : Accrual)
      → accrue_incentives now config stored stake d ≡ ok accrual
      → accrual.deposit ≡ record d { last_accrued = now }
  unfolding accrue_incentives
  accrue_incentives-deposit now config stored stake d accrual h =
      let (elapsed, _, h₁) = >>=-eq-ok (time_elapsed now d d.unstake_time) _ h in
      let (incentives, _, h₂) =
        >>=-eq-ok (accumulate_interest stake config.incentive_rate elapsed) _ h₁ in
      let (total, _, h₃) = >>=-eq-ok (or_err stored not_found) _ h₂ in
      let (capped, _, h₄) =
        >>=-eq-ok (cap_incentives config.max_incentives total incentives) _ h₃ in
      ap (λ a. a.deposit) (sym (ok-injective h₄))

  note_accrual-Loses :
      (now : ℕ) (p : Progress) (d : Deposit) (accrual : Result Accrual) (r : Progress × Deposit)
      → ((a : Accrual) → accrual ≡ ok a → a.deposit ≡ record d { last_accrued = now })
      → note_accrual now p d accrual ≡ ok r
      → Loses p d r.0 r.1
  unfolding note_accrual
  note_accrual-Loses now p d panic r same h = cc
  note_accrual-Loses now p d (err e) r same h =
      subst (λ q. Loses p d q.0 q.1) (ok-injective h) (record { loses = omega arith; user = refl })
  note_accrual-Loses now p d (ok a) r same h =
      let (incentives, _, h₁) = >>=-eq-ok (must (x.u128_add p.mbrn_incentives a.incentives)) _ h in
      let e = same a refl in
      subst (λ q. Loses p d q.0 q.1) (ok-injective h₁)
        (record { loses = omega (arith, ap (λ b. b.amount) e); user = ap (λ b. b.user) e })

  accrue-Loses :
      (now : ℕ) (config : Config) (p : Progress) (amount : Decimal) (d : Deposit)
      (r : Progress × Deposit)
      → accrue now config p amount d ≡ ok r
      → Loses p d r.0 r.1
  unfolding accrue
  accrue-Loses now config p amount d r h =
      let (stake, _, h₁) = >>=-eq-ok (floor amount) _ h in
      note_accrual-Loses now p d (accrue_incentives now config p.stored stake d) r
        (accrue_incentives-deposit now config p.stored stake d) h₁

  floor-eq-ok : (amount whole : ℕ) → floor amount ≡ ok whole → whole * 10 ^ 18 ≤ amount
  unfolding floor
  floor-eq-ok amount whole h = ground (arith, x.u128_mul_decimal_lem 1 amount)

  decimal_sub-eq-ok : (a b c : ℕ) → must (x.decimal_sub a b) ≡ ok c → c + b ≡ a
  decimal_sub-eq-ok a b c h = ground (arith, x.decimal_sub_lem a b)

  u128_add-eq-ok : (a b c : ℕ) → must (x.u128_add a b) ≡ ok c → c ≡ a + b
  u128_add-eq-ok a b c h = ground (arith, x.u128_add_lem a b)

  split_deposit-Loses :
      (now : ℕ) (config : Config) (p : Progress) (d : Deposit) (v : Visit)
      → split_deposit now config p d ≡ ok v
      → Loses p d v.progress v.deposit
  unfolding split_deposit
  split_deposit-Loses now config p d v h =
      let (amount, _, h₁) = >>=-eq-ok (raise_minimum config d.amount p.withdrawal_amount) _ h in
      let (rest, er, h₂) = >>=-eq-ok (must (x.decimal_sub d.amount amount)) _ h₁ in
      subst (λ w. Loses p d w.progress w.deposit) (ok-injective h₂)
        (record { loses = omega (arith, decimal_sub-eq-ok d.amount amount rest er); user = refl })

  unstake_whole-Loses :
      (now : ℕ) (p : Progress) (d : Deposit) (v : Visit)
      → unstake_whole now p d ≡ ok v
      → Loses p d v.progress v.deposit
  unfolding unstake_whole
  unstake_whole-Loses now p d v h =
      let (amount, _, h₁) = >>=-eq-ok (must (x.decimal_sub p.withdrawal_amount d.amount)) _ h in
      subst (λ w. Loses p d w.progress w.deposit) (ok-injective h₁)
        (record { loses = omega arith; user = refl })

  unstake-Loses :
      (now : ℕ) (config : Config) (p : Progress) (d : Deposit) (unstaked : Option ℕ) (v : Visit)
      → unstake now config p d unstaked ≡ ok v
      → Loses p d v.progress v.deposit
  unfolding unstake
  unstake-Loses now config p d (some t) v h =
      let (elapsed, _, h₁) = >>=-eq-ok (must (checked_sub now t)) _ h in
      let (period, _, h₂) =
        >>=-eq-ok (must (checked_mul (2 ^ 64) config.unstaking_period seconds_per_day)) _ h₁ in
      subst (λ w. Loses p d w.progress w.deposit) (ok-injective h₂)
        (record { loses = omega arith; user = refl })
  unstake-Loses now config p d none v h =
      by_tests (ltb p.withdrawal_amount d.amount && not (p.withdrawal_amount == 0))
        (not (p.withdrawal_amount == 0)) h
    where
      by_tests :
          (part nonzero : Bool)
          → (if part
              then split_deposit now config p d
              else if nonzero
              then unstake_whole now p d
              else ok (record { progress = p; deposit = d; withdrawable = false }))
            ≡ ok v
          → Loses p d v.progress v.deposit
      by_tests true nonzero k = split_deposit-Loses now config p d v k
      by_tests false true k = unstake_whole-Loses now p d v k
      by_tests false false k =
          subst (λ w. Loses p d w.progress w.deposit) (ok-injective k)
            (record { loses = omega arith; user = refl })

  take_dust-bound :
      (config : Config) (withdrawable rest : ℕ) (r : ℕ × Decimal)
      → take_dust config withdrawable rest ≡ ok r
      → r.1 + r.0 * 10 ^ 18 ≤ rest + withdrawable * 10 ^ 18
  unfolding take_dust take_rest
  take_dust-bound config withdrawable rest r h =
      let (whole, ew, h₁) = >>=-eq-ok (floor rest) _ h in
      by_test whole (floor-eq-ok rest whole ew) (ltb whole config.minimum_deposit_amount)
        (withdrawable, rest) (omega arith) h₁
    where
      by_test :
          (whole : ℕ)
          → whole * 10 ^ 18 ≤ rest
          → (b : Bool) (kept : ℕ × Decimal)
          → kept.1 + kept.0 * 10 ^ 18 ≤ rest + withdrawable * 10 ^ 18
          → (if b then take_rest withdrawable whole else ok kept) ≡ ok r
          → r.1 + r.0 * 10 ^ 18 ≤ rest + withdrawable * 10 ^ 18
      by_test whole bound true kept fine k =
          let (all, ea, k₁) = >>=-eq-ok (must (x.u128_add withdrawable whole)) _ k in
          let sum = u128_add-eq-ok withdrawable whole all ea in
          subst (λ q. q.1 + q.0 * 10 ^ 18 ≤ rest + withdrawable * 10 ^ 18) (ok-injective k₁)
            (omega (arith, sum, bound))
      by_test whole bound false kept fine k =
          subst (λ q. q.1 + q.0 * 10 ^ 18 ≤ rest + withdrawable * 10 ^ 18) (ok-injective k) fine

  take_part-Loses :
      (now : ℕ) (config : Config) (p : Progress) (d : Deposit) (r : Progress × Deposit)
      → take_part now config p d ≡ ok r
      → Loses p d r.0 r.1
  unfolding take_part
  take_part-Loses now config p d r h =
      let (whole, ew, h₁) = >>=-eq-ok (floor p.withdrawal_amount) _ h in
      let (withdrawable, ea, h₂) = >>=-eq-ok (must (x.u128_add p.withdrawable_amount whole)) _ h₁ in
      let (rest, er, h₃) = >>=-eq-ok (must (x.decimal_sub d.amount p.withdrawal_amount)) _ h₂ in
      let (taken, et, h₄) = >>=-eq-ok (take_dust config withdrawable rest) _ h₃ in
      let p₁ = record p { withdrawable_amount = taken.0 } in
      let d₁ = record d { amount = taken.1 } in
      let (accrued, ec, h₅) = >>=-eq-ok (accrue now config p₁ p.withdrawal_amount d₁) _ h₄ in
      let kept = accrue-Loses now config p₁ p.withdrawal_amount d₁ accrued ec in
      let paid =
        paid_lem d.amount p.withdrawal_amount rest whole withdrawable p.withdrawable_amount
          (taken.1 + taken.0 * 10 ^ 18) (decimal_sub-eq-ok d.amount p.withdrawal_amount rest er)
          (floor-eq-ok p.withdrawal_amount whole ew)
          (u128_add-eq-ok p.withdrawable_amount whole withdrawable ea)
          (take_dust-bound config withdrawable rest taken et) in
      subst (λ q. Loses p d q.0 q.1) (ok-injective h₅)
        (record { loses = omega (arith, kept.loses, paid); user = kept.user })
    where
      paid_lem :
          (amount asked rest whole withdrawable before taken : ℕ)
          → rest + asked ≡ amount
          → whole * 10 ^ 18 ≤ asked
          → withdrawable ≡ before + whole
          → taken ≤ rest + withdrawable * 10 ^ 18
          → taken ≤ amount + before * 10 ^ 18
      paid_lem amount asked rest whole withdrawable before taken e f g k = omega arith

  take_whole-Loses :
      (p : Progress) (d : Deposit) (r : Progress × Deposit)
      → take_whole p d ≡ ok r
      → Loses p d r.0 r.1
  unfolding take_whole
  take_whole-Loses p d r h =
      let (amount, _, h₁) = >>=-eq-ok (must (x.decimal_sub p.withdrawal_amount d.amount)) _ h in
      let (whole, ew, h₂) = >>=-eq-ok (floor d.amount) _ h₁ in
      let (withdrawable, ea, h₃) = >>=-eq-ok (must (x.u128_add p.withdrawable_amount whole)) _ h₂ in
      let sum = u128_add-eq-ok p.withdrawable_amount whole withdrawable ea in
      let bound = floor-eq-ok d.amount whole ew in
      subst (λ q. Loses p d q.0 q.1) (ok-injective h₃)
        (record { loses = omega (arith, sum, bound); user = refl })

  take_from-Loses :
      (now : ℕ) (config : Config) (v : Visit) (r : Progress × Deposit)
      → take_from now config v ≡ ok r
      → Loses v.progress v.deposit r.0 r.1
  unfolding take_from
  take_from-Loses now config v r h =
      by_tests (not (not (v.progress.withdrawal_amount == 0)) || not v.withdrawable)
        (ltb v.progress.withdrawal_amount v.deposit.amount) (v.progress, v.deposit)
        (record { loses = omega arith; user = refl }) h
    where
      by_tests :
          (skip part : Bool) (same : Progress × Deposit)
          → Loses v.progress v.deposit same.0 same.1
          → (if skip
              then ok same
              else if part
              then take_part now config v.progress v.deposit
              else take_whole v.progress v.deposit)
            ≡ ok r
          → Loses v.progress v.deposit r.0 r.1
      by_tests true part same kept k =
          subst (λ q. Loses v.progress v.deposit q.0 q.1) (ok-injective k) kept
      by_tests false true same kept k = take_part-Loses now config v.progress v.deposit r k
      by_tests false false same kept k = take_whole-Loses v.progress v.deposit r k

  -- One deposit of the user.
  pub visit-Loses :
      (now : ℕ) (config : Config) (skip : Bool) (p : Progress) (d : Deposit)
      (r : Progress × Deposit)
      → visit now config skip p d ≡ ok r
      → Loses p d r.0 r.1
  unfolding visit
  visit-Loses now config skip p d r h =
      let (accrued, ec, h₁) = >>=-eq-ok (accrue now config p d.amount d) _ h in
      let freed : Visit = record {
        progress = accrued.0;
        deposit = record accrued.1 { unstake_time = some now };
        withdrawable = true;
      } in
      let step =
        if skip then ok freed else unstake now config accrued.0 accrued.1 accrued.1.unstake_time in
      let (v, ev, h₂) = >>=-eq-ok step _ h₁ in
      Loses-trans p accrued.0 r.0 d accrued.1 r.1 (accrue-Loses now config p d.amount d accrued ec)
        (Loses-trans accrued.0 v.progress r.0 accrued.1 v.deposit r.1
          (step-Loses accrued skip v freed (record { loses = omega arith; user = refl }) ev)
          (take_from-Loses now config v r h₂))
    where
      step-Loses :
          (a : Progress × Deposit) (b : Bool) (v freed : Visit)
          → Loses a.0 a.1 freed.progress freed.deposit
          → (if b then ok freed else unstake now config a.0 a.1 a.1.unstake_time) ≡ ok v
          → Loses a.0 a.1 v.progress v.deposit
      step-Loses a true v freed kept k =
          subst (λ w. Loses a.0 a.1 w.progress w.deposit) (ok-injective k) kept
      step-Loses a false v freed kept k = unstake-Loses now config a.0 a.1 a.1.unstake_time v k
