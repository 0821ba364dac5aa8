-- ===== src/StabilityPool/Deposits/Backed.antt =====
-- What `deposit` of contracts/stability-pool/src/contract.rs adds to the pool.
use membrane_core.Prelude.{
  ℕ, ◌+◌, ◌*◌, ◌^◌, ◌≤◌, ◌≡◌, refl, sym, ap, subst, some, none, [], ◌∷◌, Option, String, arith, ltb,
  not, sum_by, sum_by-append, Bool, true, false,
}
use membrane_core.Crates.{Crates}
use membrane_core.Result.{
  ok, >>=-eq-ok, ok-injective, must, or_err-eq-ok, not_found, reject_if, reject_if-eq-ok,
  minimum_deposit, invalid_asset,
}
use membrane_core.Asset.{Addr, Asset, equal}
use membrane_core.Chain.{Env, MessageInfo, validate_position_owner}
use membrane_core.StabilityPool.Types.{
  Deposit, AssetPool, Config, Store, Response, load_config, load_asset, save_asset,
}
use membrane_core.StabilityPool.Deposits.{add_deposit, deposit}

-- The pool's total covers its deposits.
abbrev pub IsBacked : AssetPool → Type 0
IsBacked pool = sum_by (λ d. d.amount) pool.deposits ≤ pool.credit_asset.amount * 10 ^ 18

-- What a deposit of this amount adds to the pool.
pub record IsAdded (pool : AssetPool) (amount minimum : ℕ) (pool' : AssetPool) : Type 0 where
  pub large : minimum ≤ amount
  pub total : pool'.credit_asset.amount ≡ pool.credit_asset.amount + amount
  pub deposits :
      sum_by (λ d. d.amount) pool'.deposits
      ≡ sum_by (λ d. d.amount) pool.deposits + amount * 10 ^ 18

module _ ⦃x : Crates⦄ where
  add_deposit-IsAdded :
      (pool pool' : AssetPool) (user : Addr) (amount now minimum : ℕ)
      → minimum ≤ amount
      → add_deposit pool user amount now ≡ ok pool'
      → IsAdded pool amount minimum pool'
  unfolding add_deposit
  add_deposit-IsAdded pool pool' user amount now minimum large h =
      let (decimal, ed, h₁) = >>=-eq-ok (must (x.decimal_from_ratio amount 1)) _ h in
      let (total, et, h₂) = >>=-eq-ok (must (x.u128_add pool.credit_asset.amount amount)) _ h₁ in
      let value : decimal ≡ amount * 10 ^ 18 = decimal_lem amount decimal ed in
      let sum = sum_lem pool.credit_asset.amount amount total et in
      let new : Deposit = record {
        user = user;
        amount = decimal;
        deposit_time = now;
        last_accrued = now;
        unstake_time = none;
      } in
      let all = sum_by-append (λ d. d.amount) pool.deposits (new ∷ []) in
      subst (IsAdded pool amount minimum) (ok-injective h₂)
        (record { large = large; total = sum; deposits = omega (arith, all, value) })
    where
      decimal_lem : (n d : ℕ) → must (x.decimal_from_ratio n 1) ≡ ok d → d ≡ n * 10 ^ 18
      decimal_lem n d e = ground (arith, x.decimal_from_ratio_lem n 1)

      sum_lem : (m n k : ℕ) → must (x.u128_add m n) ≡ ok k → k ≡ m + n
      sum_lem m n k e = ground (arith, x.u128_add_lem m n)

  -- A deposit is accepted only from the configured minimum on and only in the pool's asset. It adds its
  -- amount to the pool's total and, as a decimal, exactly the same to the deposits.
  pub deposit-IsAdded :
      (s s' : Store) (env : Env) (info : MessageInfo) (owner : Option String) (asset : Asset)
      (response : Response)
      → deposit s env info owner asset ≡ ok (s', response)
      → (config : Config) × (pool : AssetPool) × (pool' : AssetPool) × (s.config ≡ some config)
        × (s.asset ≡ some pool)
        × (s'.asset ≡ some pool')
        × (equal pool.credit_asset.info asset.info ≡ true)
        × IsAdded pool asset.amount config.minimum_deposit_amount pool'
  unfolding deposit load_config load_asset save_asset
  deposit-IsAdded s s' env info owner asset response e =
      let (config, ec, e₁) = >>=-eq-ok (load_config s) _ e in
      let small = ltb asset.amount config.minimum_deposit_amount in
      let (_, es, e₂) =
        >>=-eq-ok (reject_if small (minimum_deposit config.minimum_deposit_amount)) _ e₁ in
      let (valid, _, e₃) = >>=-eq-ok (validate_position_owner info owner) _ e₂ in
      let (pool, ep, e₄) = >>=-eq-ok (load_asset s) _ e₃ in
      let other = not (equal pool.credit_asset.info asset.info) in
      let (_, eo, e₅) = >>=-eq-ok (reject_if other invalid_asset) _ e₄ in
      let (pool', ea, e₆) =
        >>=-eq-ok (add_deposit pool valid asset.amount (x.seconds env.time)) _ e₅ in
      let large : config.minimum_deposit_amount ≤ asset.amount =
        large_lem (reject_if-eq-ok small (minimum_deposit config.minimum_deposit_amount) es) in
      (
        config,
        pool,
        pool',
        or_err-eq-ok s.config not_found ec,
        or_err-eq-ok s.asset not_found ep,
        ap (λ q. q.0.asset) (sym (ok-injective e₆)),
        same_lem (equal pool.credit_asset.info asset.info) (reject_if-eq-ok other invalid_asset eo),
        add_deposit-IsAdded pool pool' valid asset.amount (x.seconds env.time)
            config.minimum_deposit_amount large ea,
      )
    where
      large_lem : {m n : ℕ} → ltb m n ≡ false → n ≤ m
      large_lem h = ground arith

      same_lem : (b : Bool) → not b ≡ false → b ≡ true
      same_lem true h = refl
      same_lem false h = cc
