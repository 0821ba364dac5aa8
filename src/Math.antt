-- ===== src/Math.antt =====
-- packages/membrane/src/math.rs: the fork of cosmwasm-bignumber. A `Decimal256` is kept as its
-- atomics, a `Uint256` as its value; both stand below 2 ^ 256 and every operator panics above.
pub mod Decimal256
pub mod Uint256
pub mod Rounding
pub mod Words
pub mod Decimal
