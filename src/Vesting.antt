-- ===== src/Vesting.antt =====
-- contracts/vesting.
pub mod Types
pub mod Unlock
pub mod Withdraw
pub mod Admin
pub mod Books
pub mod Fees
pub mod Allocate
pub mod Query
pub mod Contract
