-- ===== src/StabilityPool/Liquidate/Repaid.antt =====
-- `liquidate` of contracts/stability-pool/src/contract.rs: the repaid amount and the pool.
use membrane_core.Prelude.{
  ℕ, ◌+◌, ◌-◌, ◌*◌, ◌/◌, ◌^◌, ◌≤◌, ◌<◌, ◌≡◌, inl, inr, refl, Bool-cases, some, [], ◌∷◌, String,
  arith, ltb, str_eq_iff, if◌then◌else◌,
}
use membrane_core.Crates.{Crates}
use membrane_core.Result.{ok, must}
use membrane_core.Asset.{native_token}
use membrane_core.Chain.{Coin, MessageInfo, asset_to_coin}
use membrane_core.Math.Decimal.{Decimal}
use membrane_core.StabilityPool.Types.{
  AssetPool, Propagation, Config, Store, liq_repay, Response, load_config, load_asset, save_asset,
}
use membrane_core.StabilityPool.Liquidate.{repay_all, repay_asked, repayment, liquidated, liquidate}

-- What is repaid of a requested decimal amount: its whole part, or all that the pool has.
abbrev pub repaid_of : ℕ → Decimal → ℕ
repaid_of available requested =
    if ltb (available * 10 ^ 18) requested then available else requested / 10 ^ 18

-- The repayment that leaves a pool, and the message that carries it.
pub record IsRepaid (s s' : Store) (config : Config) (pool : AssetPool) (denom : String)
    (requested : Decimal) (response : Response) : Type 0 where
  pub pool' : AssetPool
  pub saved : s'.asset ≡ some pool'
  pub left :
      pool'.credit_asset.amount + repaid_of pool.credit_asset.amount requested
      ≡ pool.credit_asset.amount
  pub deposits : pool'.deposits ≡ pool.deposits
  pub sent :
      response.messages
      ≡ liq_repay config.positions_contract
          (record { denom = denom; amount = repaid_of pool.credit_asset.amount requested } ∷ [])
        ∷ []

repaid_bound : (available requested : ℕ) → repaid_of available requested ≤ available
repaid_bound available requested = ground arith

module _ ⦃x : Crates⦄ where
  from_ratio_lem :
      (n : ℕ) → n * 10 ^ 18 < 2 ^ 128 → must (x.decimal_from_ratio n 1) ≡ ok (n * 10 ^ 18)
  from_ratio_lem n h = ground (arith, x.decimal_from_ratio_lem n 1)

  sub_lem : (a b : ℕ) → b ≤ a → must (x.decimal_sub a b) ≡ ok (a - b)
  sub_lem a b h = ground (arith, x.decimal_sub_lem a b)

  floor_lem : (a : ℕ) → a < 2 ^ 128 → must (x.u128_mul_decimal 1 a) ≡ ok (a / 10 ^ 18)
  floor_lem a h = ground (arith, x.u128_mul_decimal_lem 1 a)

  repayment_lem :
      (available requested : ℕ)
      → available * 10 ^ 18 < 2 ^ 128
      → requested < 2 ^ 128
      → (leftover : Decimal) × (repayment available requested
          ≡ ok (repaid_of available requested, leftover))
  unfolding repayment repay_all repay_asked
  repayment_lem available requested fits small =
      elim (Bool-cases (ltb (available * 10 ^ 18) requested)) [
        | inl e ↦ (
          requested - available * 10 ^ 18,
          rw (from_ratio_lem available fits)
              (rw e (rw (sub_lem requested (available * 10 ^ 18) (ground arith)) refl)),
        )
        | inr e ↦
            (0, rw (from_ratio_lem available fits) (rw e (rw (floor_lem requested small) refl)))
      ]

  -- In a configured pool of a native asset, whose amounts fit the machine's, a liquidation by the
  -- positions contract always succeeds, whatever amount is requested: the pool repays the whole part
  -- of it, or all it has where that is less, in one message to the positions contract, loses exactly
  -- that from its total, and keeps its deposits until the distribution.
  pub liquidate-IsRepaid :
      (s : Store) (info : MessageInfo) (requested : Decimal) (config : Config) (pool : AssetPool)
      (prop : Propagation) (denom : String)
      → s.config ≡ some config
      → s.asset ≡ some pool
      → s.prop ≡ some prop
      → info.sender ≡ config.positions_contract
      → pool.credit_asset.info ≡ native_token denom
      → pool.credit_asset.amount * 10 ^ 18 < 2 ^ 128
      → requested < 2 ^ 128
      → prop.repaid_amount + pool.credit_asset.amount < 2 ^ 128
      → (s' : Store) × (response : Response) × (liquidate s info requested ≡ ok (s', response))
        × IsRepaid s s' config pool denom requested response
  unfolding liquidate load_config load_asset save_asset asset_to_coin
  liquidate-IsRepaid s info requested config pool prop denom configured saved propagated sender
        native fits small room =
      let available = pool.credit_asset.amount in
      let repaid = repaid_of available requested in
      let bound = repaid_bound available requested in
      let (leftover, er) = repayment_lem available requested fits small in
      let coin : Coin = record { denom = denom; amount = repaid } in
      let result =
        liquidated s config pool (prop.repaid_amount + repaid) (available - repaid) coin leftover in
      (
        result.0,
        result.1,
        rw configured (
            rw ((str_eq_iff info.sender config.positions_contract).1 sender) (
              rw saved (
                rw er (
                  rw propagated (
                    rw (add_lem prop.repaid_amount repaid (omega arith))
                      (rw native (rw (u128_sub_lem available repaid bound) refl))))))),
        record {
          pool' = _;
          saved = refl;
          left = left_lem available repaid bound;
          deposits = refl;
          sent = refl;
        },
      )
    where
      add_lem : (m n : ℕ) → m + n < 2 ^ 128 → must (x.u128_add m n) ≡ ok (m + n)
      add_lem m n h = ground (arith, x.u128_add_lem m n)

      u128_sub_lem : (m n : ℕ) → n ≤ m → must (x.u128_sub m n) ≡ ok (m - n)
      u128_sub_lem m n h = ground (arith, x.u128_sub_lem m n)

      left_lem : (m n : ℕ) → n ≤ m → m - n + n ≡ m
      left_lem m n h = omega arith
