-- ===== src/Crates.antt =====
-- The third-party crates that the contracts call, as an interface with their documented laws:
-- `uint` (the 256-bit integer of packages/membrane/src/math.rs, whose operators panic on overflow),
-- `cosmwasm_std` (`Uint128`, `Decimal`, `Timestamp`, address validation), `cw_coins` (`Coins`).
use membrane_core.Prelude.{
  ℕ, ◌+◌, ◌-◌, ◌*◌, ◌/◌, ◌^◌, ◌≡◌, Option, none, some, List, String, ltb, leb, ◌==◌, if◌then◌else◌,
}

-- Text as its bytes.
abbrev pub Text : Type 0
Text = List ℕ

-- The checked operations: `none` where the operation has no value.
abbrev pub checked_add : ℕ → ℕ → ℕ → Option ℕ
checked_add bound a b = if ltb (a + b) bound then some (a + b) else none

abbrev pub checked_mul : ℕ → ℕ → ℕ → Option ℕ
checked_mul bound a b = if ltb (a * b) bound then some (a * b) else none

abbrev pub checked_sub : ℕ → ℕ → Option ℕ
checked_sub a b = if leb b a then some (a - b) else none

abbrev pub checked_div : ℕ → ℕ → Option ℕ
checked_div a b = if b == 0 then none else some (a / b)

-- `Decimal::from_ratio`: 18 fractional digits in 128 bits.
abbrev pub checked_ratio : ℕ → ℕ → Option ℕ
checked_ratio a b =
    if b == 0 then none else (let q = a * 10 ^ 18 / b in if ltb q (2 ^ 128) then some q else none)

-- A number times a `Decimal`, rounded down.
abbrev pub checked_scale : ℕ → ℕ → Option ℕ
checked_scale a d = let p = a * d / 10 ^ 18 in if ltb p (2 ^ 128) then some p else none

pub record Crates : Type 0 where
  -- `uint::construct_uint!`: `+`, `*`, `-`, `/`, where `none` is a panic
  pub u256_add : ℕ → ℕ → Option ℕ
  pub u256_mul : ℕ → ℕ → Option ℕ
  pub u256_sub : ℕ → ℕ → Option ℕ
  pub u256_div : ℕ → ℕ → Option ℕ
  pub u256_add_lem : (a b : ℕ) → u256_add a b ≡ checked_add (2 ^ 256) a b
  pub u256_mul_lem : (a b : ℕ) → u256_mul a b ≡ checked_mul (2 ^ 256) a b
  pub u256_sub_lem : (a b : ℕ) → u256_sub a b ≡ checked_sub a b
  pub u256_div_lem : (a b : ℕ) → u256_div a b ≡ checked_div a b
  -- `U256::from_dec_str`
  pub u256_from_dec_str : Text → Option ℕ
  -- `cosmwasm_std::Uint128`: `+` and `-` panic, `checked_sub` returns an error
  pub u128_add : ℕ → ℕ → Option ℕ
  pub u128_sub : ℕ → ℕ → Option ℕ
  pub u128_add_lem : (a b : ℕ) → u128_add a b ≡ checked_add (2 ^ 128) a b
  pub u128_sub_lem : (a b : ℕ) → u128_sub a b ≡ checked_sub a b
  -- `cosmwasm_std::Decimal`, by its atomics: `from_ratio` panics, `checked_div`, `checked_mul` and
  -- `checked_sub` return an error; `Uint128 * Decimal` rounds down and panics
  pub decimal_from_ratio : ℕ → ℕ → Option ℕ
  pub decimal_checked_div : ℕ → ℕ → Option ℕ
  pub decimal_checked_mul : ℕ → ℕ → Option ℕ
  pub decimal_checked_sub : ℕ → ℕ → Option ℕ
  pub u128_mul_decimal : ℕ → ℕ → Option ℕ
  pub decimal_from_ratio_lem : (a b : ℕ) → decimal_from_ratio a b ≡ checked_ratio a b
  pub decimal_checked_div_lem : (a b : ℕ) → decimal_checked_div a b ≡ checked_ratio a b
  pub decimal_checked_mul_lem : (a b : ℕ) → decimal_checked_mul a b ≡ checked_scale a b
  pub decimal_checked_sub_lem : (a b : ℕ) → decimal_checked_sub a b ≡ checked_sub a b
  pub u128_mul_decimal_lem : (a d : ℕ) → u128_mul_decimal a d ≡ checked_scale a d
  -- `Decimal + Decimal` and `Decimal - Decimal`, which panic
  pub decimal_add : ℕ → ℕ → Option ℕ
  pub decimal_sub : ℕ → ℕ → Option ℕ
  pub decimal_add_lem : (a b : ℕ) → decimal_add a b ≡ checked_add (2 ^ 128) a b
  pub decimal_sub_lem : (a b : ℕ) → decimal_sub a b ≡ checked_sub a b
  -- `Decimal::to_uint_floor`
  pub decimal_to_uint_floor : ℕ → ℕ
  pub decimal_to_uint_floor_lem : (a : ℕ) → decimal_to_uint_floor a ≡ a / 10 ^ 18
  -- `cw_coins::Coins`, by its denominations and amounts: `add` of a coin, `from_str` of a printed coin
  pub coins_add : List (String × ℕ) → String → ℕ → Option (List (String × ℕ))
  pub coins_from : String → ℕ → Option (List (String × ℕ))
  -- `cosmwasm_std::Decimal::to_string`, of the 18-digit fixed-point number of these atomics
  pub decimal_to_string : ℕ → Text
  -- `Api::addr_validate`: the address, or an error
  pub addr_validate : String → Option String
  -- `Timestamp::seconds` and `Timestamp::plus_seconds`, of a time in nanoseconds
  pub seconds : ℕ → ℕ
  pub plus_seconds : ℕ → ℕ → Option ℕ
