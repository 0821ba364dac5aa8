-- ===== src/Math/Decimal256.antt =====
-- `Decimal256` of packages/membrane/src/math.rs, over the `uint` crate's `U256`.
use membrane_core.Prelude.{
  ℕ, zero, suc, ◌+◌, ◌-◌, ◌*◌, ◌/◌, ◌^◌, ◌<◌, ◌≤◌, ◌≢◌, ◌≡◌, List, [], ◌∷◌, arith, not, ltb, leb,
  ◌==◌, if◌then◌else◌, length,
}
use membrane_core.Crates.{Crates, Text, checked_add, checked_mul, checked_sub}
use membrane_core.Result.{Result, ok, err, panic, generic_err, ◌>>=◌, ◌>>◌, assert, must, or_err}

abbrev pub Decimal256 : Type 0
Decimal256 = ℕ

-- `DECIMAL_FRACTIONAL`
abbrev pub fractional : ℕ
fractional = 1_000_000_000_000_000_000

abbrev pub one : Decimal256
one = fractional

abbrev pub zero' : Decimal256
zero' = 0

-- `str::split('.')`: the parts before the dots, and the last one.
split_dots : Text → List Text
split_dots [] = [] ∷ []
split_dots (c ∷ s) = elim (split_dots s) [
  | [] ↦ [] ∷ []
  | part ∷ parts ↦ if c == b'.' then [] ∷ part ∷ parts else (c ∷ part) ∷ parts
]

module _ ⦃x : Crates⦄ where
  -- `Decimal256::percent`
  unfoldable pub percent : ℕ → Result Decimal256
  percent p = must (x.u256_mul p 10_000_000_000_000_000)

  -- `Decimal256::permille`
  unfoldable pub permille : ℕ → Result Decimal256
  permille p = must (x.u256_mul p 1_000_000_000_000_000)

  unfoldable pub from_ratio : ℕ → ℕ → Result Decimal256
  from_ratio nominator denominator =
      if denominator == 0
      then panic
      else do scaled ← must (x.u256_mul nominator fractional); must (x.u256_div scaled denominator)

  unfoldable pub from_uint256 : ℕ → Result Decimal256
  from_uint256 n = must (x.u256_mul n fractional)

  unfoldable pub add : Decimal256 → Decimal256 → Result Decimal256
  add a b = must (x.u256_add a b)

  unfoldable pub sub : Decimal256 → Decimal256 → Result Decimal256
  sub a b = if not (leb b a) then panic else must (x.u256_sub a b)

  unfoldable pub mul : Decimal256 → Decimal256 → Result Decimal256
  mul a b = do product ← must (x.u256_mul a b); must (x.u256_div product fractional)

  unfoldable pub div : Decimal256 → Decimal256 → Result Decimal256
  div a b = do
    assert (not (b == 0))
    scaled ← must (x.u256_mul a fractional)
    must (x.u256_div scaled b)

  -- `U256::from(10).pow(exp)`, by repeated multiplication; it is used for `exp` up to 18.
  pow10 : ℕ → ℕ
  pow10 zero = 1
  pow10 (suc n) = 10 * pow10 n

  from_whole : Text → Result Decimal256
  from_whole whole = do
    w ← or_err (x.u256_from_dec_str whole) (generic_err "Error parsing whole")
    must (x.u256_mul w fractional)

  from_whole_and_fraction : Text → Text → Result Decimal256
  from_whole_and_fraction whole frac = do
    w ← or_err (x.u256_from_dec_str whole) (generic_err "Error parsing whole")
    f ← or_err (x.u256_from_dec_str frac) (generic_err "Error parsing fractional")
    exp ←
        or_err (checked_sub 18 (length frac))
          (generic_err "Cannot parse more than 18 fractional digits")
    whole_as_atomics ← must (x.u256_mul w fractional)
    fraction_as_atomics ← must (x.u256_mul f (pow10 exp))
    must (x.u256_add whole_as_atomics fraction_as_atomics)

  from_parts : List Text → Result Decimal256
  from_parts (whole ∷ []) = from_whole whole
  from_parts (whole ∷ frac ∷ []) = from_whole_and_fraction whole frac
  from_parts _ = err (generic_err "Unexpected number of dots")

  -- `FromStr::from_str`
  unfoldable pub from_str : Text → Result Decimal256
  unfolding from_parts from_whole from_whole_and_fraction pow10 split_dots
  from_str input = from_parts (split_dots input)

  -- What each operator returns, and when it panics.
  pub add_lem : (a b : ℕ) → add a b ≡ must (checked_add (2 ^ 256) a b)
  unfolding add
  add_lem a b = rw (x.u256_add_lem a b)

  pub from_uint256_lem : (n : ℕ) → from_uint256 n ≡ must (checked_mul (2 ^ 256) n fractional)
  unfolding from_uint256
  from_uint256_lem n = rw (x.u256_mul_lem n fractional)

  pub percent_lem : (p : ℕ) → p < 2 ^ 64 → percent p ≡ ok (p * 10_000_000_000_000_000)
  unfolding percent
  percent_lem p h = rw (x.u256_mul_lem p 10_000_000_000_000_000) (ground arith)

  pub sub_lem : (a b : ℕ) → sub a b ≡ must (checked_sub a b)
  unfolding sub
  sub_lem a b = rw (x.u256_sub_lem a b) (ground arith)

  pub sub-eq-ok : (a b c : ℕ) → sub a b ≡ ok c → (b ≤ a) × (c ≡ a - b)
  sub-eq-ok a b c h = ground (arith, sub_lem a b)

  pub add-eq-ok : (a b c : ℕ) → add a b ≡ ok c → (c ≡ a + b) × (a + b < 2 ^ 256)
  add-eq-ok a b c h = ground (arith, add_lem a b)

  pub from_uint256-eq-ok :
      (n c : ℕ) → from_uint256 n ≡ ok c → (c ≡ n * fractional) × (n * fractional < 2 ^ 256)
  from_uint256-eq-ok n c h = ground (arith, from_uint256_lem n)

  pub mul_lem :
      (a b : ℕ) → mul a b ≡ (if ltb (a * b) (2 ^ 256) then ok (a * b / fractional) else panic)
  unfolding mul
  mul_lem a b = rw (x.u256_mul_lem a b) (ground (arith, x.u256_div_lem (a * b) fractional))

  pub mul-eq-ok : (a b c : ℕ) → mul a b ≡ ok c → (c ≡ a * b / fractional) × (a * b < 2 ^ 256)
  mul-eq-ok a b c h = ground (arith, mul_lem a b)

  pub div_lem :
      (a b : ℕ)
      → b ≢ 0
      → div a b ≡ (if ltb (a * fractional) (2 ^ 256) then ok (a * fractional / b) else panic)
  unfolding div
  div_lem a b h =
      rw (x.u256_mul_lem a fractional) (ground (arith, x.u256_div_lem (a * fractional) b))

  pub div-eq-ok :
      (a b c : ℕ) → div a b ≡ ok c → (0 < b) × (c ≡ a * fractional / b) × (a * fractional < 2 ^ 256)
  unfolding div
  div-eq-ok a b c h = ground (arith, x.u256_mul_lem a fractional, x.u256_div_lem (a * fractional) b)
