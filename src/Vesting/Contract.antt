-- ===== src/Vesting/Contract.antt =====
-- `execute` of contracts/vesting/src/contract.rs, and the calls as steps of the chain.
pub mod Recipients
pub mod Created
pub mod Solvent
use membrane_core.Prelude.{ℕ, Option, String, ◌≡◌}
use membrane_core.Crates.{Crates}
use membrane_core.Result.{Result, ok}
use membrane_core.Chain.{Env, MessageInfo}
use membrane_core.Vesting.Types.{VestingPeriod, Store, Proposal, ProposalVoteOption, Response}
use membrane_core.Vesting.Withdraw.{withdraw_unlocked}
use membrane_core.Vesting.Admin.{
  ConfigUpdate, InstantiateMsg, instantiate, update_config, add_recipient, remove_recipient,
  submit_proposal, cast_vote,
}
use membrane_core.Vesting.Fees.{Querier, claim_fees_for_recipient, claim_fees_for_contract}
use membrane_core.Vesting.Allocate.{add_allocation}

pub data ExecuteMsg : Type 0 where
  new_recipient : String → ExecuteMsg
  old_recipient : String → ExecuteMsg
  -- recipient, allocation, vesting period
  new_share : String → ℕ → Option VestingPeriod → ExecuteMsg
  withdraw contract_fees recipient_fees : ExecuteMsg
  propose : Proposal → ExecuteMsg
  vote_on : ℕ → ProposalVoteOption → ExecuteMsg
  configure : ConfigUpdate → ExecuteMsg

module _ ⦃x : Crates⦄ where
  unfoldable pub execute :
      Store → Querier → Env → MessageInfo → ExecuteMsg → Result (Store × Response)
  execute store querier env info (new_recipient recipient) = add_recipient store info recipient
  execute store querier env info (old_recipient recipient) = remove_recipient store info recipient
  execute store querier env info (new_share recipient allocation vesting_period) =
      add_allocation store querier env info recipient allocation vesting_period
  execute store querier env info withdraw = withdraw_unlocked store env info
  execute store querier env info contract_fees = claim_fees_for_contract store querier env
  execute store querier env info recipient_fees = claim_fees_for_recipient store info
  execute store querier env info (propose proposal) = submit_proposal store info proposal
  execute store querier env info (vote_on proposal_id vote) = cast_vote store info proposal_id vote
  execute store querier env info (configure update) = update_config store info update

  -- The stores that a contract can come to: instantiated, and then changed by calls that succeed.
  pub data IsReachable : Store → Type 0 where
    created :
        (empty store : Store) (env : Env) (info : MessageInfo) (msg : InstantiateMsg)
        (response : Response)
        → instantiate empty env info msg ≡ ok (store, response)
        → IsReachable store
    called :
        (before : Store) (querier : Querier) (env : Env) (info : MessageInfo) (msg : ExecuteMsg)
        (response : Response) {store : Store}
        → IsReachable before
        → execute before querier env info msg ≡ ok (store, response)
        → IsReachable store
