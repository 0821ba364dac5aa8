-- ===== src/Vesting/Unlock/Payments.antt =====
-- What `get_unlocked_amount` of contracts/vesting/src/contract.rs unlocks, once and repeatedly.
use native.Mathlib.Nat.{mul-le-mul_left, div-le_of_le-mul, mul-div-mul_right, mul_comm}
use membrane_core.Prelude.{
  ℕ, ◌+◌, ◌-◌, ◌*◌, ◌/◌, ◌^◌, ◌≤◌, ◌<◌, ◌≡◌, ◌⊎◌, refl, sym, subst, ap, ◌∙◌, Bool, true, false,
  some, List, [], ◌∷◌, arith, ltb, leb, ◌==◌, if◌then◌else◌,
}
use membrane_core.Crates.{Crates, checked_sub, checked_mul}
use membrane_core.Result.{
  Result, ok, generic_err, ◌>>=◌, >>=-eq-ok, ok-injective, must, or_err, or_err-eq-ok,
}
use membrane_core.Math.Decimal.{Decimal, decimal_division, decimal_division-eq-ok}
use membrane_core.Vesting.Types.{Allocation}
use membrane_core.Vesting.Unlock.{
  seconds_in_a_day, newly_unlocked, unlock_part, unlock_rest, unlock_after, get_unlocked_amount,
}

-- What an allocation has paid out: what is withdrawn, up to its amount.
abbrev pub paid : Allocation → ℕ
paid a = if leb a.amount_withdrawn a.amount then a.amount_withdrawn else a.amount

-- An unlock: what it pays is what the allocation has paid afterwards and had not before.
pub record IsPayment (a : Allocation) (unlocked : ℕ) (a' : Allocation) : Type 0 where
  pub pays : paid a' ≡ paid a + unlocked
  pub amount : a'.amount ≡ a.amount
  pub start : a'.start_time_of_allocation ≡ a.start_time_of_allocation
  pub period : a'.vesting_period ≡ a.vesting_period

pub scaled_bound : (a r : ℕ) → r ≤ 10 ^ 18 → a * r / 10 ^ 18 ≤ a
scaled_bound a r h =
    div-le_of_le-mul (10 ^ 18) (subst (λ p. a * r ≤ p) (mul_comm a (10 ^ 18)) (mul-le-mul_left a h))

-- The share of the linear period that has passed, as a decimal.
abbrev pub share : ℕ → ℕ → Decimal
share passed linear = passed * 10 ^ 18 / linear

pub share_bound : (passed linear : ℕ) → passed < linear → share passed linear ≤ 10 ^ 18
share_bound passed linear h = div-le_of_le-mul linear (omega arith)

pub share_lem :
    (passed linear p l ratio : ℕ)
    → p ≡ passed * 10 ^ 18
    → l ≡ linear * 10 ^ 18
    → ratio ≡ p * 10 ^ 18 / l
    → ratio ≡ share passed linear
share_lem passed linear p l ratio hp hl hr =
    rw hr (rw hp (rw hl (mul-div-mul_right (passed * 10 ^ 18) linear (omega arith))))

module _ ⦃x : Crates⦄ where
  pub from_ratio-eq-ok : (a d : ℕ) → must (x.decimal_from_ratio a 1) ≡ ok d → d ≡ a * 10 ^ 18
  from_ratio-eq-ok a d h = ground (arith, x.decimal_from_ratio_lem a 1)

  newly_unlocked-eq-ok :
      (a : Allocation) (ratio unlocked : ℕ)
      → newly_unlocked a ratio ≡ ok unlocked
      → (unlocked ≡ 0) ⊎ (unlocked + a.amount_withdrawn ≡ a.amount * ratio / 10 ^ 18)
  unfolding newly_unlocked
  newly_unlocked-eq-ok a ratio unlocked h = ground (
    arith,
    x.u128_mul_decimal_lem a.amount ratio,
    x.u128_sub_lem (a.amount * ratio / 10 ^ 18) a.amount_withdrawn,
  )

  u128_add-eq-ok : (a b c : ℕ) → must (x.u128_add a b) ≡ ok c → c ≡ a + b
  u128_add-eq-ok a b c h = ground (arith, x.u128_add_lem a b)

  -- A payment that leaves the withdrawn amount within the allocation, or pays nothing.
  part-pays :
      (amount withdrawn unlocked scaled : ℕ)
      → (unlocked ≡ 0) ⊎ (unlocked + withdrawn ≡ scaled)
      → scaled ≤ amount
      → (if leb (withdrawn + unlocked) amount then withdrawn + unlocked else amount)
        ≡ (if leb withdrawn amount then withdrawn else amount) + unlocked
  part-pays amount withdrawn unlocked scaled h bound = ground arith

  unlock_part-IsPayment :
      (a : Allocation) (passed linear : ℕ) (r : ℕ × Allocation)
      → passed < linear
      → unlock_part a passed linear ≡ ok r
      → IsPayment a r.0 r.1
  unfolding unlock_part
  unlock_part-IsPayment a passed linear r within h =
      let (p, ep, h₁) = >>=-eq-ok (must (x.decimal_from_ratio passed 1)) _ h in
      let (l, el, h₂) = >>=-eq-ok (must (x.decimal_from_ratio linear 1)) _ h₁ in
      let (ratio, er, h₃) = >>=-eq-ok (decimal_division p l) _ h₂ in
      let (unlocked, eu, h₄) = >>=-eq-ok (newly_unlocked a ratio) _ h₃ in
      let (withdrawn, ew, h₅) = >>=-eq-ok (must (x.u128_add a.amount_withdrawn unlocked)) _ h₄ in
      let same : ratio ≡ share passed linear =
        share_lem passed linear p l ratio (from_ratio-eq-ok passed p ep)
          (from_ratio-eq-ok linear l el) (decimal_division-eq-ok p l ratio er).1 in
      let bound = scaled_bound a.amount ratio (rw same (share_bound passed linear within)) in
      subst (λ q. IsPayment a q.0 q.1) (ok-injective h₅)
        (record {
          pays = rw (u128_add-eq-ok a.amount_withdrawn unlocked withdrawn ew) (
              part-pays a.amount a.amount_withdrawn unlocked (a.amount * ratio / 10 ^ 18)
                (newly_unlocked-eq-ok a ratio unlocked eu) bound);
          amount = refl;
          start = refl;
          period = refl;
        })

  unlock_rest-IsPayment :
      (a : Allocation) (r : ℕ × Allocation) → unlock_rest a ≡ ok r → IsPayment a r.0 r.1
  unfolding unlock_rest
  unlock_rest-IsPayment a r h =
      let nothing = generic_err "Nothing left to unlock" in
      let (diff, ed, h₁) =
        >>=-eq-ok (or_err (x.u128_sub a.amount a.amount_withdrawn) nothing) _ h in
      let (withdrawn, ew, h₂) = >>=-eq-ok (must (x.u128_add a.amount_withdrawn a.amount)) _ h₁ in
      subst (λ q. IsPayment a q.0 q.1) (ok-injective h₂)
        (record {
          pays = rw (u128_add-eq-ok a.amount_withdrawn a.amount withdrawn ew) (
              rest-pays a.amount a.amount_withdrawn diff (
                sym (x.u128_sub_lem a.amount a.amount_withdrawn)
                ∙ or_err-eq-ok (x.u128_sub a.amount a.amount_withdrawn) nothing ed));
          amount = refl;
          start = refl;
          period = refl;
        })
    where
      rest-pays :
          (amount withdrawn diff : ℕ)
          → checked_sub amount withdrawn ≡ some diff
          → (if leb (withdrawn + amount) amount then withdrawn + amount else amount)
            ≡ (if leb withdrawn amount then withdrawn else amount) + diff
      rest-pays amount withdrawn diff h = ground arith

  -- Nothing is paid, and nothing changes.
  nothing-IsPayment : (a : Allocation) (r : ℕ × Allocation) → (0, a) ≡ r → IsPayment a r.0 r.1
  nothing-IsPayment a r h =
      subst (λ q. IsPayment a q.0 q.1) h
        (record { pays = omega arith; amount = refl; start = refl; period = refl })

  unlock_linear-IsPayment :
      (a : Allocation) (passed linear : ℕ) (r : ℕ × Allocation) (within : Bool)
      → (within ≡ true → passed < linear)
      → (if within then unlock_part a passed linear else unlock_rest a) ≡ ok r
      → IsPayment a r.0 r.1
  unlock_linear-IsPayment a passed linear r true t h =
      unlock_part-IsPayment a passed linear r (t refl) h
  unlock_linear-IsPayment a passed linear r false t h = unlock_rest-IsPayment a r h

  unlock_cliff-IsPayment :
      (a : Allocation) (time cliff : ℕ) (r : ℕ × Allocation) (before : Bool)
      → (if before then ok (0, a) else (do
        linear ← must (checked_mul (2 ^ 64) a.vesting_period.linear seconds_in_a_day)
        if ltb (time - cliff) linear then unlock_part a (time - cliff) linear else unlock_rest a))
        ≡ ok r
      → IsPayment a r.0 r.1
  unlock_cliff-IsPayment a time cliff r true h = nothing-IsPayment a r (ok-injective h)
  unlock_cliff-IsPayment a time cliff r false h =
      let (linear, el, h₁) =
        >>=-eq-ok (must (checked_mul (2 ^ 64) a.vesting_period.linear seconds_in_a_day)) _ h in
      unlock_linear-IsPayment a (time - cliff) linear r (ltb (time - cliff) linear)
        (λ t. ground arith) h₁

  get_unlocked_nonzero-IsPayment :
      (a : Allocation) (now : ℕ) (r : ℕ × Allocation) (empty : Bool)
      → (if empty
          then ok (0, a)
          else (do time ← must (checked_sub now a.start_time_of_allocation); unlock_after a time))
        ≡ ok r
      → IsPayment a r.0 r.1
  unfolding unlock_after
  get_unlocked_nonzero-IsPayment a now r true h = nothing-IsPayment a r (ok-injective h)
  get_unlocked_nonzero-IsPayment a now r false h =
      let (time, et, h₁) = >>=-eq-ok (must (checked_sub now a.start_time_of_allocation)) _ h in
      let (cliff, ec, h₂) =
        >>=-eq-ok (must (checked_mul (2 ^ 64) a.vesting_period.cliff seconds_in_a_day)) _ h₁ in
      unlock_cliff-IsPayment a time cliff r (ltb time cliff) h₂

  -- Whenever get_unlocked_amount succeeds, what it unlocks is exactly what the allocation counts as
  -- paid afterwards and did not before, where an allocation never counts more than its amount as
  -- paid; the amount, the start and the vesting period stay.
  pub get_unlocked_amount-IsPayment :
      (a a' : Allocation) (now unlocked : ℕ)
      → get_unlocked_amount (some a) now ≡ ok (unlocked, a')
      → IsPayment a unlocked a'
  unfolding get_unlocked_amount
  get_unlocked_amount-IsPayment a a' now unlocked h =
      get_unlocked_nonzero-IsPayment a now (unlocked, a') (a.amount == 0) h

  -- Withdrawals at these times, one after the other: what they pay in all, and what is left.
  unfoldable pub withdrawals : Allocation → List ℕ → Result (ℕ × Allocation)
  withdrawals a [] = ok (0, a)
  withdrawals a (now ∷ times) = do
    first ← get_unlocked_amount (some a) now
    rest ← withdrawals first.1 times
    ok (first.0 + rest.0, rest.1)

  withdrawals-pay :
      (a : Allocation) (times : List ℕ) (r : ℕ × Allocation)
      → withdrawals a times ≡ ok r
      → (paid r.1 ≡ paid a + r.0) × (r.1.amount ≡ a.amount)
  unfolding withdrawals
  withdrawals-pay a [] r h =
      subst (λ q. (paid q.1 ≡ paid a + q.0) × (q.1.amount ≡ a.amount)) (ok-injective h)
        (omega arith, refl)
  withdrawals-pay a (now ∷ times) r h =
      let (first, ef, h₁) = >>=-eq-ok (get_unlocked_amount (some a) now) _ h in
      let (rest, er, h₂) = >>=-eq-ok (withdrawals first.1 times) _ h₁ in
      let step = get_unlocked_amount-IsPayment a first.1 now first.0 ef in
      let (total, amount) = withdrawals-pay first.1 times rest er in
      subst (λ q. (paid q.1 ≡ paid a + q.0) × (q.1.amount ≡ a.amount)) (ok-injective h₂)
        (total ∙ ap (λ p. p + rest.0) step.pays ∙ omega arith, amount ∙ step.amount)

  -- However many withdrawals are made of an allocation, and whenever, they never pay more in all than
  -- its amount less what it had paid before.
  pub withdrawals_bound :
      (a : Allocation) (times : List ℕ) (total : ℕ) (a' : Allocation)
      → withdrawals a times ≡ ok (total, a')
      → paid a + total ≤ a.amount
  withdrawals_bound a times total a' h =
      let (pays, amount) = withdrawals-pay a times (total, a') h in
      let bound : paid a' ≤ a'.amount = ground arith in
      subst (λ n. n ≤ a.amount) pays (subst (λ n. paid a' ≤ n) amount bound)
