-- ===== src/Tests.antt =====
-- A concrete instance of the crates, and a queue that the tests and examples run on.
pub mod Scenario
pub mod Liquidation
pub mod Bids
pub mod Shares
pub mod Management
pub mod Queries
pub mod Vesting
pub mod StabilityPool
use membrane_core.Prelude.{
  String, str_eq, true, false, ℕ, zero, suc, ◌+◌, ◌-◌, ◌*◌, ◌/◌, ◌%◌, ◌^◌, ◌≡◌, refl, Option, some,
  none, List, [], ◌∷◌, ◌++◌, ltb, leb, ◌==◌, ◌&&◌, if◌then◌else◌,
}
use membrane_core.Crates.{
  Crates, Text, checked_add, checked_mul, checked_sub, checked_div, checked_ratio, checked_scale,
}

abbrev digit_value : ℕ → ℕ → Option ℕ
digit_value acc c = if leb b'0' c && leb c b'9' then some (10 * acc + (c - b'0')) else none

-- Decimal digits from the left; the empty text is 0.
abbrev parse_from : ℕ → Text → Option ℕ
parse_from acc [] = some acc
parse_from acc (c ∷ s) = elim (digit_value acc c) [ none ↦ none | some n ↦ parse_from n s ]

-- So many decimal digits of a number.
abbrev digits_of : ℕ → ℕ → Text
digits_of zero n = []
digits_of (suc k) n = digits_of k (n / 10) ++ (n % 10 + b'0') ∷ []

-- All 18 fractional digits are printed, which `Decimal256::from_str` reads too.
abbrev print_decimal : ℕ → Text
print_decimal d = digits_of 21 (d / 10 ^ 18) ++ b'.' ∷ digits_of 18 (d % 10 ^ 18)

-- An amount more of a denomination.
abbrev add_coin : List (String × ℕ) → String → ℕ → Option (List (String × ℕ))
add_coin [] denom amount = some ((denom, amount) ∷ [])
add_coin ((d, n) ∷ coins) denom amount = elim (str_eq d denom) [
  | true ↦ some ((d, n + amount) ∷ coins)
  | false ↦ elim (add_coin coins denom amount) [ none ↦ none | some rest ↦ some ((d, n) ∷ rest) ]
]

instance abbrev pub documented : Crates
documented = record {
  u256_add = checked_add (2 ^ 256);
  u256_mul = checked_mul (2 ^ 256);
  u256_sub = checked_sub;
  u256_div = checked_div;
  u256_add_lem = λ a b. refl;
  u256_mul_lem = λ a b. refl;
  u256_sub_lem = λ a b. refl;
  u256_div_lem = λ a b. refl;
  u256_from_dec_str = parse_from 0;
  u128_add = checked_add (2 ^ 128);
  u128_sub = checked_sub;
  u128_add_lem = λ a b. refl;
  u128_sub_lem = λ a b. refl;
  decimal_from_ratio = checked_ratio;
  decimal_checked_div = checked_ratio;
  decimal_checked_mul = checked_scale;
  decimal_checked_sub = checked_sub;
  u128_mul_decimal = checked_scale;
  decimal_from_ratio_lem = λ a b. refl;
  decimal_checked_div_lem = λ a b. refl;
  decimal_checked_mul_lem = λ a b. refl;
  decimal_checked_sub_lem = λ a b. refl;
  u128_mul_decimal_lem = λ a d. refl;
  decimal_add = checked_add (2 ^ 128);
  decimal_sub = checked_sub;
  decimal_add_lem = λ a b. refl;
  decimal_sub_lem = λ a b. refl;
  decimal_to_uint_floor = λ a. a / 10 ^ 18;
  decimal_to_uint_floor_lem = λ a. refl;
  coins_add = add_coin;
  coins_from = λ denom amount. some ((denom, amount) ∷ []);
  decimal_to_string = print_decimal;
  addr_validate = λ a. some a;
  seconds = λ t. t / 1_000_000_000;
  plus_seconds = λ t s. some (t + s * 1_000_000_000);
}
