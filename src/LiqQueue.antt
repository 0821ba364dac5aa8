-- ===== src/LiqQueue.antt =====
-- contracts/liq-queue.
pub mod Types
pub mod State
pub mod Slots
pub mod Pool
pub mod Shares
pub mod Activation
pub mod Counted
pub mod Submit
pub mod Retract
pub mod Liquidate
pub mod Claim
pub mod Admin
pub mod Contract
pub mod Query
