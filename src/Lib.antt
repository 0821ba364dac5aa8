-- ===== src/Lib.antt =====
-- Verification of contracts of Membrane: the liquidation queue, with the 256-bit arithmetic that it
-- runs on, the stability pool, and the vesting contract.
--
-- The liquidation queue (contracts/liq-queue) holds, for each collateral asset, a queue of premium
-- slots. Users submit bids of the debt token at a premium (`submit_bid`); the positions contract
-- liquidates collateral against the slots from the lowest premium up (`execute_liquidation`), and
-- the bidders claim the collateral (`claim_liquidations`) or take back what is left (`retract_bid`).
-- The bids of a slot are spent pro rata without touching each of them: a slot keeps a product, a sum,
-- a scale and an epoch, a bid the snapshots of them at its activation.
--
-- The vesting contract (contracts/vesting) keeps recipients with allocations of the governance token.
-- An allocation unlocks nothing before its cliff, then linearly; `withdraw_unlocked` mints what is
-- unlocked. The owner adds recipients and allocations, up to a total; a recipient may divide its
-- allocation (`add_allocation`). The allocations are staked, and the rewards are claimed from the
-- staking contract and shared out by what remains of each (`claim_fees_for_contract`).
--
-- The stability pool (contracts/stability-pool) keeps a line of deposits of the debt token and the
-- total of what it holds. The positions contract takes from the total (`liquidate`); deposits accrue
-- incentives up to a cap; a user unstakes deposits and withdraws them after a period (`withdraw`), or
-- stakes them again (`restake`). What a liquidation seized is distributed for the first deposits.
--
-- The files, each with the code that it models:
--   Crates            the third-party crates as an interface, a parameter of everything else: the
--                     operations of `uint` and `cosmwasm_std` with their documented laws
--   Result            errors and panics as values; contracts/liq-queue/src/error.rs
--   Math              packages/membrane/src/math.rs: `Decimal256` and `Uint256` (a number below
--                     2 ^ 256, a decimal by its atomics), what each operator rounds and when it panics
--   Asset, Price      `AssetInfo` and `Asset` of packages/membrane/src/types.rs, `PriceResponse256` of
--                     packages/membrane/src/oracle.rs
--   Chain             coins, the sender, the block, and the helpers on addresses and coins that the
--                     contracts share; `asset_to_coin` of packages/membrane/src/helpers.rs
--   LiqQueue.Types    the structs of packages/membrane/src/types.rs and liq_queue.rs
--   LiqQueue.State    the storage items of contracts/liq-queue/src/state.rs as a record, the messages,
--                     the response
--   LiqQueue.Slots    `read_premium_slot`, `store_premium_slot`, `remove_bid`, `store_bid`, `read_bid`,
--                     `read_bids_by_user` of contracts/liq-queue/src/bid.rs, as are the next seven modules
--   LiqQueue.Pool     `execute_pool_liquidation`
--   LiqQueue.Shares   `calculate_remaining_bid`, `calculate_liquidated_collateral`, the residues,
--                     `assert_withdraw_amount`
--   LiqQueue.Activation, Submit, Retract, Liquidate, Claim
--                     `set_slot_total` and the four operations on bids
--   LiqQueue.Admin    `instantiate`, `update_config`, `edit_queue`, `add_queue` of
--                     contracts/liq-queue/src/contract.rs
--   LiqQueue.Query    contracts/liq-queue/src/query.rs
--   LiqQueue.Contract `execute`, and the calls as steps between stores
--   LiqQueue.Counted  the invariant of the books that the theorems share: the premiums of a queue are
--                     distinct, its total is the sum of its slots' totals
--   Vesting.Types     the structs of packages/membrane/src/vesting.rs and types.rs, the storage items
--                     of contracts/vesting/src/state.rs
--   Vesting.Unlock, Withdraw, Admin, Fees, Allocate
--                     `get_unlocked_amount` and the messages of contracts/vesting/src/contract.rs; the
--                     queries to the staking contract are a parameter (`Querier`);
--                     Withdraw has the test of the amount in `mint_tokens` of
--                     contracts/osmosis-proxy/src/contract.rs, where the message of a withdrawal goes
--   Vesting.Query     contracts/vesting/src/query.rs
--   Vesting.Contract  `execute`, and the stores that its calls can reach
--   Vesting.Books     what is allocated and to whom, which the theorems on the calls share
--   StabilityPool.Types
--                     the structs of packages/membrane/src/types.rs and stability_pool.rs, the storage
--                     items of contracts/stability-pool/src/state.rs
--   StabilityPool.Incentives, Deposits, Liquidate, Unstake, Withdraw, Restake,
--   Repay, Distribute, Admin
--                     `accrue_incentives`, `deposit`, `liquidate`, `withdrawal_from_state`, `withdraw`,
--                     `restake`, `repay`, the loop of `distribute_funds` that chooses the deposits, with
--                     `add_to_user_claims`, `instantiate` and `update_config` of
--                     contracts/stability-pool/src/contract.rs; a closure over the deposits is a
--                     function on the variables that it changes (`Progress`)
--   Tests             a concrete instance of the crates and the theorems at concrete inputs
--
-- An operation takes the store and returns a new one, an error or a panic; the chain rolls a failed
-- call back, so a failure returns no store. The loop over the premiums is recursion on its number
-- of rounds, `max_premium + 1`, and the loop of `read_bid` likewise; no other bound is assumed. The
-- u8 of a premium keeps its wrap-around (`% 256`), and a cast to `usize` the 32 bits of the chain's
-- machine. Storage is what the code loads and saves by key; a decoding error of the storage and the
-- version number that `set_contract_version` writes are left out. Attributes are kept as values
-- before they are printed.
--
-- Not modelled: the claims, the queries and the rest of `distribute_funds` of the stability pool,
-- the rest of the osmosis proxy, the printed form and the serialisation of the numbers, `migrate`,
-- and the other contracts of the repository, which the ones above meet only by messages and by the
-- queries of `Querier`.
pub mod Prelude
pub mod Result
pub mod Crates
pub mod Math
pub mod Asset
pub mod Chain
pub mod Price
pub mod LiqQueue
pub mod Vesting
pub mod StabilityPool
pub mod Tests
