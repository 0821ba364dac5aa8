-- ===== src/StabilityPool/Repay/Sent.antt =====
-- `repay` of contracts/stability-pool/src/contract.rs: the message and the pool.
use membrane_core.Prelude.{
  ℕ, ◌+◌, ◌≤◌, ◌≡◌, ◌==◌, sym, ap, subst, ◌∙◌, Bool, true, false, some, some-inj, [], ◌∷◌, not,
  ◌||◌, ltb, str_eq, str_eq_iff, arith,
}
use membrane_core.Crates.{Crates}
use membrane_core.Result.{
  ok, >>=-eq-ok, ok-injective, must, or_err-eq-ok, not_found, reject_if, reject_if-eq-ok,
  unauthorized, invalid_asset, invalid_pool_withdrawal,
}
use membrane_core.Asset.{Asset, AssetInfo, token, native_token, equal}
use membrane_core.Chain.{Coin, Env, MessageInfo, asset_to_coin, validate}
use membrane_core.StabilityPool.Types.{
  UserInfo, AssetPool, Config, Store, Response, load_config, load_asset, save_asset,
}
use membrane_core.StabilityPool.Unstake.{withdrawal_from_state}
use membrane_core.StabilityPool.Unstake.Paid.{IsPaid, withdrawal_from_state-IsPaid}
use membrane_core.StabilityPool.Deposits.Backed.{IsBacked}
use membrane_core.StabilityPool.Withdraw.{user_total}
use membrane_core.StabilityPool.Withdraw.Backed.{paid-IsBacked}
use membrane_core.StabilityPool.Repay.{repay_amount, repay_msg, repay}

-- What a repayment of this asset did.
pub record IsSent (s s' : Store) (info : MessageInfo) (user_info : UserInfo) (repayment : Asset)
    (pool : AssetPool) (response : Response) : Type 0 where
  pub config : Config
  pub pool' : AssetPool
  pub coin : Coin
  pub loaded : s.config ≡ some config
  pub allowed : info.sender ≡ config.positions_contract
  pub saved : s'.asset ≡ some pool'
  pub backed : IsBacked pool'
  pub sent : response.messages ≡ repay_msg config user_info coin ∷ []
  pub asked : coin.amount ≤ repayment.amount
  pub covered : pool'.credit_asset.amount + coin.amount ≤ pool.credit_asset.amount

asset_to_coin-amount :
    (a : Asset) (coin : Coin) → asset_to_coin a ≡ ok coin → coin.amount ≡ a.amount
unfolding asset_to_coin
asset_to_coin-amount a coin h = by_kind a.info h
  where
    by_kind :
        (i : AssetInfo) → asset_to_coin (record a { info = i }) ≡ ok coin → coin.amount ≡ a.amount
    by_kind (token address) k = cc
    by_kind (native_token denom) k = ap (λ c. c.amount) (sym (ok-injective k))

paid-covered :
    (pool pool' : AssetPool) (withdrawable amount sent : ℕ)
    → IsPaid pool withdrawable pool'
    → sent ≡ repay_amount withdrawable amount
    → (sent ≤ amount) × (pool'.credit_asset.amount + sent ≤ pool.credit_asset.amount)
paid-covered pool pool' withdrawable amount sent paid e = ground (arith, paid.total)

module _ ⦃x : Crates⦄ where
  -- A repayment that succeeds on a pool whose total covers its deposits was sent by the positions
  -- contract. It leaves the total covering the deposits, and its one message sends that contract a
  -- coin, for the position and its owner, of no more than was asked for and no more than the total lost.
  pub repay-IsSent :
      (s s' : Store) (env : Env) (info : MessageInfo) (user_info : UserInfo) (repayment : Asset)
      (pool : AssetPool) (response : Response)
      → s.asset ≡ some pool
      → IsBacked pool
      → repay s env info user_info repayment ≡ ok (s', response)
      → IsSent s s' info user_info repayment pool response
  unfolding repay load_config load_asset save_asset
  repay-IsSent s s' env info user_info repayment pool response saved backed e =
      let (config, eg, e₁) = >>=-eq-ok (load_config s) _ e in
      let stranger = not (str_eq info.sender config.positions_contract) in
      let (_, ea, e₂) = >>=-eq-ok (reject_if stranger unauthorized) _ e₁ in
      let (found, ef, e₃) = >>=-eq-ok (load_asset s) _ e₂ in
      let other = not (equal found.credit_asset.info repayment.info) in
      let (_, _, e₄) = >>=-eq-ok (reject_if other invalid_asset) _ e₃ in
      let (user, _, e₅) = >>=-eq-ok (validate user_info.position_owner) _ e₄ in
      let (total, _, e₆) = >>=-eq-ok (user_total user found) _ e₅ in
      let (asked, _, e₇) = >>=-eq-ok (must (x.decimal_from_ratio repayment.amount 1)) _ e₆ in
      let short = ltb total asked || total == 0 in
      let (_, _, e₈) = >>=-eq-ok (reject_if short invalid_pool_withdrawal) _ e₇ in
      let (w, ew, e₉) = >>=-eq-ok (withdrawal_from_state s env config user asked found true) _ e₈ in
      let sum = repay_amount w.1 repayment.amount in
      let (coin, ec, e₁₀) = >>=-eq-ok (asset_to_coin (record repayment { amount = sum })) _ e₉ in
      let same : pool ≡ found = some-inj (sym saved ∙ or_err-eq-ok s.asset not_found ef) in
      let paid = withdrawal_from_state-IsPaid s w.0 env config user asked found w.2 true w.1 ew in
      let (less, covered) =
        paid-covered found w.2 w.1 repayment.amount coin.amount paid
          (asset_to_coin-amount (record repayment { amount = sum }) coin ec) in
      record {
        config = config;
        pool' = w.2;
        coin = coin;
        loaded = or_err-eq-ok s.config not_found eg;
        allowed =
            (str_eq_iff info.sender config.positions_contract).0
              (is_same _ (reject_if-eq-ok stranger unauthorized ea));
        saved = ap (λ q. q.0.asset) (sym (ok-injective e₁₀));
        backed = paid-IsBacked found w.2 w.1 paid (subst IsBacked same backed);
        sent = ap (λ q. q.1.messages) (sym (ok-injective e₁₀));
        asked = less;
        covered =
            subst (λ p. w.2.credit_asset.amount + coin.amount ≤ p.credit_asset.amount) (sym same)
              covered;
      }
    where
      is_same : (b : Bool) → not b ≡ false → b ≡ true
      is_same b h = ground arith
