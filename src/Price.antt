-- ===== src/Price.antt =====
-- `PriceResponse` and `PriceResponse256` of packages/membrane/src/oracle.rs.
use membrane_core.Prelude.{ℕ, ◌%◌, ◌^◌, List, String, ltb, if◌then◌else◌}
use membrane_core.Crates.{Crates}
use membrane_core.Result.{Result, ok, panic, ◌>>=◌}
use membrane_core.Math.Decimal256
use membrane_core.Math.Decimal256.{Decimal256}
use membrane_core.Math.Uint256
use membrane_core.Math.Uint256.{Uint256, from_u128}

-- `price` is the atomics of a cosmwasm `Decimal`.
pub record PriceInfo : Type 0 where
  pub source : String
  pub price : ℕ

pub record PriceResponse : Type 0 where
  pub prices : List PriceInfo
  pub price : ℕ
  pub decimals : ℕ

pub record PriceResponse256 : Type 0 where
  pub prices : List PriceInfo
  pub price : Decimal256
  pub decimals : ℕ

-- `10u64.pow(decimals as u32)`, which panics above u64
unfoldable pub pow_decimals : ℕ → Result ℕ
pow_decimals decimals =
    let scale = 10 ^ (decimals % 2 ^ 32) in if ltb scale (2 ^ 64) then ok scale else panic

module _ ⦃x : Crates⦄ where
  -- `PriceResponse::to_decimal256`
  unfoldable pub to_decimal256 : PriceResponse → Result PriceResponse256
  to_decimal256 r = do
    price ← Decimal256.from_str (x.decimal_to_string r.price)
    ok (record { prices = r.prices; price = price; decimals = r.decimals })

  -- `PriceResponse256::get_value`
  unfoldable pub get_value : PriceResponse256 → Uint256 → Result Decimal256
  unfolding pow_decimals
  get_value r amount = do
    scale ← pow_decimals r.decimals
    decimal_asset_amount ← Decimal256.from_ratio amount (from_u128 scale)
    Decimal256.mul r.price decimal_asset_amount

  -- `PriceResponse256::get_amount`
  unfoldable pub get_amount : PriceResponse256 → Decimal256 → Result Uint256
  unfolding pow_decimals
  get_amount r value = do
    pre_scaled_amount ← Decimal256.div value r.price
    scale ← pow_decimals r.decimals
    Uint256.mul_decimal (from_u128 scale) pre_scaled_amount
