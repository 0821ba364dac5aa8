-- ===== src/Math/Words.antt =====
-- The conversions between `Uint256` and u128 of packages/membrane/src/math.rs.
use membrane_core.Prelude.{ℕ, ◌^◌, ◌<◌, ◌≡◌, arith, ltb, if◌then◌else◌}
use membrane_core.Result.{ok, panic}
use membrane_core.Math.Uint256.{from_u128, to_u128, from_u128_lem}

-- A 256-bit value is converted to u128 exactly where it fits, and the conversion panics elsewhere;
-- and the conversion of a u128 comes back as the same u128.
pub to_u128-from_u128 :
    (n m : ℕ)
    → n < 2 ^ 256
    → m < 2 ^ 128
    → (to_u128 n ≡ (if ltb n (2 ^ 128) then ok n else panic)) × (to_u128 (from_u128 m) ≡ ok m)
unfolding to_u128
to_u128-from_u128 n m b h = (ground arith, rw (from_u128_lem m h) (ground arith))
