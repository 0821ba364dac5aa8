-- ===== src/StabilityPool/Liquidate.antt =====
-- `liquidate` of contracts/stability-pool/src/contract.rs.
pub mod Repaid
use membrane_core.Prelude.{ℕ, Option, some, List, [], ◌∷◌, not, ltb, str_eq, if◌then◌else◌}
use membrane_core.Crates.{Crates}
use membrane_core.Result.{Result, ok, not_found, unauthorized, ◌>>=◌, ◌>>◌, must, or_err, reject_if}
use membrane_core.Chain.{Coin, MessageInfo, asset_to_coin}
use membrane_core.Math.Decimal.{Decimal}
use membrane_core.StabilityPool.Types.{
  AssetPool, Propagation, Config, Store, liq_repay, text, decimal, Response, load_config,
  load_asset, save_asset,
}

-- The store and the response after the coin was repaid: the new totals of the propagation and the pool.
abbrev pub liquidated : Store → Config → AssetPool → ℕ → ℕ → Coin → Decimal → Store × Response
liquidated store config pool propagated total coin leftover = (
  save_asset (record store { prop = some (record { repaid_amount = propagated }) })
      (record pool { credit_asset = record pool.credit_asset { amount = total } }),
  record {
    messages = liq_repay config.positions_contract (coin ∷ []) ∷ [];
    attributes = ("method", text "liquidate") ∷ ("leftover_repayment", decimal leftover) ∷ [];
  },
)

module _ ⦃x : Crates⦄ where
  unfoldable pub repay_all : ℕ → Decimal → Decimal → Result (ℕ × Decimal)
  repay_all available available_dec liq_amount =
      must (x.decimal_sub liq_amount available_dec) >>= λ leftover. ok (available, leftover)

  unfoldable pub repay_asked : Decimal → Result (ℕ × Decimal)
  repay_asked liq_amount = must (x.u128_mul_decimal 1 liq_amount) >>= λ repaid. ok (repaid, 0)

  -- What the pool repays of this amount, and what is left over.
  unfoldable pub repayment : ℕ → Decimal → Result (ℕ × Decimal)
  repayment available liq_amount = do
    available_dec ← must (x.decimal_from_ratio available 1)
    if ltb available_dec liq_amount
        then repay_all available available_dec liq_amount
        else repay_asked liq_amount

  unfoldable pub liquidate : Store → MessageInfo → Decimal → Result (Store × Response)
  liquidate store info credit_amount = do
    config ← load_config store
    reject_if (not (str_eq info.sender config.positions_contract)) unauthorized
    pool ← load_asset store
    repaid ← repayment pool.credit_asset.amount credit_amount
    prop ← or_err store.prop not_found
    propagated ← must (x.u128_add prop.repaid_amount repaid.0)
    coin ← asset_to_coin (record { info = pool.credit_asset.info; amount = repaid.0 })
    total ← must (x.u128_sub pool.credit_asset.amount repaid.0)
    ok (liquidated store config pool propagated total coin repaid.1)
