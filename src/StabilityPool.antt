-- ===== src/StabilityPool.antt =====
-- contracts/stability-pool.
pub mod Types
pub mod Incentives
pub mod Deposits
pub mod Liquidate
pub mod Unstake
pub mod Withdraw
pub mod Distribute
pub mod Restake
pub mod Admin
pub mod Repay
