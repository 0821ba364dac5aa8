-- ===== src/StabilityPool/Restake/Kept.antt =====
-- `restake` of contracts/stability-pool/src/contract.rs and the line of deposits.
use membrane_core.Prelude.{
  ℕ, ◌≡◌, ◌==◌, refl, sym, ap, ◌∙◌, Bool, true, false, none, some, some-inj, List, [], ◌∷◌, map,
  if◌then◌else◌,
}
use membrane_core.Crates.{Crates}
use membrane_core.Result.{
  Result, ok, err, panic, >>=-eq-ok, ok-injective, must, or_err-eq-ok, not_found,
}
use membrane_core.Asset.{Addr}
use membrane_core.Chain.{Env, MessageInfo}
use membrane_core.Math.Decimal.{Decimal}
use membrane_core.StabilityPool.Types.{
  Deposit, AssetPool, Config, Store, Response, load_config, load_asset, save_asset,
}
use membrane_core.StabilityPool.Incentives.{Accrual, accrue_incentives}
use membrane_core.StabilityPool.Unstake.{
  Progress, floor, note_accrual, accrue, reject_error, save_incentives,
}
use membrane_core.StabilityPool.Unstake.Losses.{accrue_incentives-deposit}
use membrane_core.StabilityPool.Restake.{
  restake_left, restake_one, is_restaked, restake_all, restake,
}

-- Who owns a deposit, and how much it is.
abbrev pub owned : Deposit → Addr × Decimal
owned d = (d.user, d.amount)

module _ ⦃x : Crates⦄ where
  note_accrual-owned :
      (now : ℕ) (p : Progress) (d : Deposit) (accrual : Result Accrual) (r : Progress × Deposit)
      → ((a : Accrual) → accrual ≡ ok a → a.deposit ≡ record d { last_accrued = now })
      → note_accrual now p d accrual ≡ ok r
      → owned r.1 ≡ owned d
  unfolding note_accrual
  note_accrual-owned now p d panic r same h = cc
  note_accrual-owned now p d (err e) r same h = ap (λ q. owned q.1) (sym (ok-injective h))
  note_accrual-owned now p d (ok a) r same h =
      let (incentives, _, h₁) = >>=-eq-ok (must (x.u128_add p.mbrn_incentives a.incentives)) _ h in
      ap (λ q. owned q.1) (sym (ok-injective h₁)) ∙ ap owned (same a refl)

  restake_one-owned :
      (now : ℕ) (config : Config) (p : Progress) (d : Deposit) (r : Progress × Deposit)
      → restake_one now config p d ≡ ok r
      → owned r.1 ≡ owned d
  unfolding restake_one accrue
  restake_one-owned now config p d r h =
      let (accrued, ec, h₁) = >>=-eq-ok (accrue now config p d.amount d) _ h in
      let (left, _, h₂) = >>=-eq-ok (restake_left d.amount accrued.0.withdrawal_amount) _ h₁ in
      let (stake, _, ec₁) = >>=-eq-ok (floor d.amount) _ ec in
      ap (λ q. owned q.1) (sym (ok-injective h₂))
      ∙ note_accrual-owned now p d (accrue_incentives now config p.stored stake d) accrued
          (accrue_incentives-deposit now config p.stored stake d) ec₁

  restake_all-owned :
      (now : ℕ) (config : Config) (user : Addr) (p : Progress) (deposits : List Deposit)
      (r : Progress × List Deposit)
      → restake_all now config user p deposits ≡ ok r
      → map owned r.1 ≡ map owned deposits
  unfolding restake_all
  restake_all-owned now config user p [] r h = ap (λ q. map owned q.1) (sym (ok-injective h))
  restake_all-owned now config user p (d ∷ deposits) r h =
      let same : Progress × Deposit = (p, d) in
      let step = if is_restaked user p d then restake_one now config p d else ok same in
      let (first, ef, h₁) = >>=-eq-ok step _ h in
      let (rest, er, h₂) = >>=-eq-ok (restake_all now config user first.0 deposits) _ h₁ in
      let head = by_test (is_restaked user p d) first same refl ef in
      let tail = restake_all-owned now config user first.0 deposits rest er in
      ap (λ q. map owned q.1) (sym (ok-injective h₂))
      ∙ ap (λ o. o ∷ map owned rest.1) head
      ∙ ap (λ os. owned d ∷ os) tail
    where
      by_test :
          (b : Bool) (first same : Progress × Deposit)
          → same ≡ (p, d)
          → (if b then restake_one now config p d else ok same) ≡ ok first
          → owned first.1 ≡ owned d
      by_test true first same e k = restake_one-owned now config p d first k
      by_test false first same e k = ap (λ q. owned q.1) (sym (ok-injective k) ∙ e)

  -- Restaking changes neither the pool's total nor which user owns which amounts in the line of
  -- deposits, whatever amount is asked for.
  pub restake-owned :
      (s s' : Store) (env : Env) (info : MessageInfo) (amount : Decimal) (response : Response)
      (pool : AssetPool)
      → s.asset ≡ some pool
      → restake s env info amount ≡ ok (s', response)
      → (pool' : AssetPool) × (s'.asset ≡ some pool')
        × (pool'.credit_asset ≡ pool.credit_asset)
        × (map owned pool'.deposits ≡ map owned pool.deposits)
  unfolding restake load_asset save_asset
  restake-owned s s' env info amount response pool saved e =
      let (found, ef, e₁) = >>=-eq-ok (load_asset s) _ e in
      let (config, _, e₂) = >>=-eq-ok (load_config s) _ e₁ in
      let start : Progress = record {
        withdrawal_amount = amount;
        withdrawable_amount = 0;
        returning_deposit = none;
        mbrn_incentives = 0;
        stored = s.incentives;
        error = none;
      } in
      let now = x.seconds env.time in
      let (visited, ev, e₃) =
        >>=-eq-ok (restake_all now config info.sender start found.deposits) _ e₂ in
      let p = visited.0 in
      let (_, _, e₄) = >>=-eq-ok (reject_error p.error) _ e₃ in
      let s₁ = record s { incentives = p.stored } in
      let (s₂, _, e₅) =
        >>=-eq-ok
          (if p.mbrn_incentives == 0
            then ok s₁
            else save_incentives s₁ config info.sender p.mbrn_incentives)
          _ e₄ in
      let same : pool ≡ found = some-inj (sym saved ∙ or_err-eq-ok s.asset not_found ef) in
      (
        record found { deposits = visited.1 },
        ap (λ q. q.0.asset) (sym (ok-injective e₅)),
        ap (λ q. q.credit_asset) (sym same),
        restake_all-owned now config info.sender start found.deposits visited ev
            ∙ ap (λ q. map owned q.deposits) (sym same),
      )
