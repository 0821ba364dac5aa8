-- ===== src/Math/Uint256.antt =====
-- `Uint256` of packages/membrane/src/math.rs, over the `uint` crate's `U256`, whose limbs are
-- the four 64-bit words of the value, the lowest first.
use membrane_core.Prelude.{
  ℕ, ◌+◌, ◌-◌, ◌*◌, ◌/◌, ◌%◌, ◌^◌, ◌<◌, ◌≤◌, ◌≡◌, ◌||◌, arith, leb, ltb, ◌==◌, if◌then◌else◌, not,
}
use membrane_core.Crates.{Crates, checked_add, checked_sub}
use membrane_core.Result.{Result, ok, panic, ◌>>=◌, ◌>>◌, assert, must}
use membrane_core.Math.Decimal256.{Decimal256, fractional}

abbrev pub Uint256 : Type 0
Uint256 = ℕ

abbrev pub zero' : Uint256
zero' = 0

abbrev pub one : Uint256
one = 1

-- Word `i` of the array inside a `U256`.
limb : ℕ → Uint256 → ℕ
limb i n = n / 2 ^ (64 * i) % 2 ^ 64

-- `U256([low, hi, 0, 0])`
from_limbs : ℕ → ℕ → Uint256
from_limbs low hi = low + hi * 2 ^ 64

-- `split_u128`
split_u128 : ℕ → ℕ × ℕ
split_u128 a = (a / 2 ^ 64 % 2 ^ 64, a % 2 ^ 64)

-- `From<u128>` and `From<Uint128>`
unfoldable pub from_u128 : ℕ → Uint256
unfolding split_u128 from_limbs
from_u128 val = let (hi, low) = split_u128 val in from_limbs low hi

-- `From<Uint256> for u128` and `for Uint128`
unfoldable pub to_u128 : Uint256 → Result ℕ
unfolding limb
to_u128 n = do assert (limb 2 n == 0); assert (limb 3 n == 0); ok (limb 1 n * 2 ^ 64 + limb 0 n)

pub from_u128_lem : (n : ℕ) → n < 2 ^ 128 → from_u128 n ≡ n
unfolding from_u128
from_u128_lem n h = omega arith

pub to_u128_lem : (n : ℕ) → n < 2 ^ 128 → to_u128 n ≡ ok n
unfolding to_u128
to_u128_lem n h = ground arith

pub to_u128-eq-ok : (n m : ℕ) → n < 2 ^ 256 → to_u128 n ≡ ok m → (m ≡ n) × (n < 2 ^ 128)
unfolding to_u128
to_u128-eq-ok n m b h = ground arith

module _ ⦃x : Crates⦄ where
  unfoldable pub add : Uint256 → Uint256 → Result Uint256
  add a b = must (x.u256_add a b)

  unfoldable pub sub : Uint256 → Uint256 → Result Uint256
  sub a b = assert (leb b a) >> must (x.u256_sub a b)

  unfoldable pub mul : Uint256 → Uint256 → Result Uint256
  mul a b = if a == 0 || b == 0 then ok 0 else must (x.u256_mul a b)

  -- self * nom / denom
  unfoldable pub multiply_ratio : Uint256 → ℕ → ℕ → Result Uint256
  multiply_ratio n nominator denominator =
      if denominator == 0
      then panic
      else do product ← must (x.u256_mul n nominator); must (x.u256_div product denominator)

  -- `Uint256 * Decimal256`, which `Decimal256 * Uint256` calls.
  unfoldable pub mul_decimal : Uint256 → Decimal256 → Result Uint256
  mul_decimal n d = if n == 0 || d == 0 then ok 0 else multiply_ratio n d fractional

  -- `Uint256 / Decimal256`
  unfoldable pub div_decimal : Uint256 → Decimal256 → Result Uint256
  div_decimal n d = do assert (not (d == 0)); if n == 0 then ok 0 else multiply_ratio n fractional d

  pub add_lem : (a b : ℕ) → add a b ≡ must (checked_add (2 ^ 256) a b)
  unfolding add
  add_lem a b = rw (x.u256_add_lem a b)

  pub sub_lem : (a b : ℕ) → sub a b ≡ must (checked_sub a b)
  unfolding sub
  sub_lem a b = rw (x.u256_sub_lem a b) (ground arith)

  pub add-eq-ok : (a b c : ℕ) → add a b ≡ ok c → (c ≡ a + b) × (a + b < 2 ^ 256)
  add-eq-ok a b c h = ground (arith, add_lem a b)

  pub sub-eq-ok : (a b c : ℕ) → sub a b ≡ ok c → (b ≤ a) × (c ≡ a - b)
  sub-eq-ok a b c h = ground (arith, sub_lem a b)

  pub multiply_ratio-eq-ok :
      (n a b c : ℕ) → multiply_ratio n a b ≡ ok c → (0 < b) × (c ≡ n * a / b) × (n * a < 2 ^ 256)
  unfolding multiply_ratio
  multiply_ratio-eq-ok n a b c h = ground (arith, x.u256_mul_lem n a, x.u256_div_lem (n * a) b)

  -- The product with a decimal is rounded down, on both branches.
  pub mul_decimal-eq-ok :
      (n d c : ℕ) → mul_decimal n d ≡ ok c → (c ≡ n * d / fractional) × (n * d < 2 ^ 256)
  unfolding mul_decimal
  mul_decimal-eq-ok n d c h = ground (arith, multiply_ratio-eq-ok n d fractional c)

  pub multiply_ratio_lem :
      (n a b : ℕ)
      → 0 < b
      → multiply_ratio n a b ≡ (if ltb (n * a) (2 ^ 256) then ok (n * a / b) else panic)
  unfolding multiply_ratio
  multiply_ratio_lem n a b h = ground (arith, x.u256_mul_lem n a, x.u256_div_lem (n * a) b)

  pub mul_decimal_lem :
      (n d : ℕ)
      → mul_decimal n d ≡ (if ltb (n * d) (2 ^ 256) then ok (n * d / fractional) else panic)
  unfolding mul_decimal
  mul_decimal_lem n d = ground (arith, multiply_ratio_lem n d fractional (omega arith))

  -- The whole part of a decimal, `d * Uint256::one()`.
  pub whole_lem : (d : ℕ) → d < 2 ^ 256 → mul_decimal one d ≡ ok (d / fractional)
  whole_lem d h = ground (arith, mul_decimal_lem one d)
