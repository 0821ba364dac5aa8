-- ===== src/Vesting/Types.antt =====
-- `VestingPeriod`, `Recipient` and `Allocation` of packages/membrane/src/types.rs, the messages and
-- responses of packages/membrane/src/vesting.rs, the storage items of contracts/vesting/src/state.rs.
use membrane_core.Prelude.{ℕ, Bool, Option, some, List, String}
use membrane_core.Crates.{Text}
use membrane_core.Result.{Result, or_err, not_found}
use membrane_core.Asset.{Addr, Asset}
use membrane_core.Chain.{Coin}

-- Both periods in days.
pub record VestingPeriod : Type 0 where
  pub cliff : ℕ
  pub linear : ℕ

-- The start time in seconds.
pub record Allocation : Type 0 where
  pub amount : ℕ
  pub amount_withdrawn : ℕ
  pub start_time_of_allocation : ℕ
  pub vesting_period : VestingPeriod

pub record Recipient : Type 0 where
  pub recipient : Addr
  pub allocation : Option Allocation
  pub claimables : List Asset

pub record Config : Type 0 where
  pub owner : Addr
  pub total_allocation : ℕ
  pub mbrn_denom : String
  pub osmosis_proxy : Addr
  pub staking_contract : Addr

pub record Store : Type 0 where
  pub config : Option Config
  pub recipients : Option (List Recipient)
  pub ownership_transfer : Option Addr

-- The message of a proposal is forwarded as it is; `msg` is its serialised form.
pub record ProposalMessage : Type 0 where
  pub order : ℕ
  pub msg : Text

pub data ProposalVoteOption : Type 0 where
  for_option against_option amend_option remove_option align_option : ProposalVoteOption

pub record Proposal : Type 0 where
  pub title : String
  pub description : String
  pub link : Option String
  pub messages : Option (List ProposalMessage)
  pub expedited : Bool

-- The first address is the contract that a message goes to, or the receiver of the coins.
pub data CosmosMsg : Type 0 where
  bank_send : Addr → List Coin → CosmosMsg
  -- denom, amount, mint_to_address
  mint_tokens : Addr → String → ℕ → Addr → CosmosMsg
  -- restake, send_to
  claim_rewards : Addr → Bool → Option String → CosmosMsg
  -- the proposal, the recipient
  submit_proposal_msg : Addr → Proposal → Option String → CosmosMsg
  -- the proposal's id, the vote, the recipient
  cast_vote_msg : Addr → ℕ → ProposalVoteOption → Option String → CosmosMsg

-- An attribute's value, before it is printed.
pub data AttrValue : Type 0 where
  text : String → AttrValue
  number : ℕ → AttrValue
  coins : List Coin → AttrValue
  assets : List Asset → AttrValue
  config_debug : Config → AttrValue

pub record Response : Type 0 where
  pub messages : List CosmosMsg
  pub attributes : List (String × AttrValue)

-- `CONFIG.load`
unfoldable pub load_config : Store → Result Config
load_config s = or_err s.config not_found

-- `RECIPIENTS.load`
unfoldable pub load_recipients : Store → Result (List Recipient)
load_recipients s = or_err s.recipients not_found

-- `CONFIG.save`
unfoldable pub save_config : Store → Config → Store
save_config s config = record s { config = some config }

-- `RECIPIENTS.save`
unfoldable pub save_recipients : Store → List Recipient → Store
save_recipients s recipients = record s { recipients = some recipients }
