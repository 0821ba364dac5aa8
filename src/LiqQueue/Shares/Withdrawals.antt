-- ===== src/LiqQueue/Shares/Withdrawals.antt =====
-- `assert_withdraw_amount` of contracts/liq-queue/src/bid.rs against what it is for.
use membrane_core.Prelude.{
  ℕ, ◌+◌, ◌-◌, ◌<◌, ◌≤◌, ◌≡◌, ◌⊎◌, inl, inr, arith, Bool-cases, some, ltb, ◌&&◌,
}
use membrane_core.Crates.{Crates}
use membrane_core.Result.{ok, err, invalid_withdrawal}
use membrane_core.Math.Uint256
use membrane_core.LiqQueue.Shares.{assert_withdraw_amount}

-- A withdrawal leaves nothing of the bid, or at least a minimal bid.
abbrev pub IsWithdrawable : ℕ → ℕ → ℕ → Type 0
IsWithdrawable amount held minimum_bid =
    (left : ℕ) × (amount + left ≡ held) × ((left ≡ 0) ⊎ (minimum_bid ≤ left))

withdraw-cases :
    (amount held minimum_bid : ℕ)
    → (held < amount)
      ⊎ (((amount ≤ held) × ((held - amount ≡ 0) ⊎ (minimum_bid ≤ held - amount)))
          ⊎ ((amount ≤ held) × (0 < held - amount) × (held - amount < minimum_bid)))
withdraw-cases amount held minimum_bid = elim (Bool-cases (ltb held amount)) [
  | inl over ↦ inl (ground arith)
  | inr fits ↦ inr (elim (Bool-cases (ltb (held - amount) minimum_bid && ltb 0 (held - amount))) [
    | inl short ↦ inr (ground arith)
    | inr enough ↦ inl (ground arith)
  ])
]

module _ ⦃x : Crates⦄ where
  -- Of a bid's amount either exactly what was asked for may be withdrawn, and then nothing or at
  -- least the minimum is left; or the call reports an invalid withdrawal, and it is not so.
  pub assert_withdraw_amount_lem :
      (amount held minimum_bid : ℕ)
      → (IsWithdrawable amount held minimum_bid
          × (assert_withdraw_amount (some amount) held minimum_bid ≡ ok amount))
        ⊎ ((¬ IsWithdrawable amount held minimum_bid)
            × (assert_withdraw_amount (some amount) held minimum_bid
                ≡ err (invalid_withdrawal minimum_bid)))
  unfolding assert_withdraw_amount
  assert_withdraw_amount_lem amount held minimum_bid =
      elim (withdraw-cases amount held minimum_bid) [
        | inl over ↦ inr ((λ w. omega (arith, w.1, over)), ground arith)
        | inr (inl (fits, rest)) ↦
            inl ((held - amount, omega arith, rest), ground (arith, Uint256.sub_lem held amount))
        | inr (inr (fits, some_left, short)) ↦
            inr ((λ w. omega (arith, w.1, w.2)), ground (arith, Uint256.sub_lem held amount))
      ]
