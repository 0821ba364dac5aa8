-- ===== src/Vesting/Admin.antt =====
-- `instantiate`, `update_config`, `add_recipient`, `remove_recipient`, `submit_proposal` and `cast_vote`
-- of contracts/vesting/src/contract.rs.
use membrane_core.Prelude.{
  ℕ, ◌-◌, ◌*◌, Option, none, some, List, [], ◌∷◌, ◌++◌, Bool, false, ◌||◌, not, String, str_eq,
  find?, filter, length, if◌then◌else◌,
}
use membrane_core.Crates.{Crates}
use membrane_core.Result.{
  Result, ok, err, not_found, unauthorized, invalid_recipient, custom_error, ◌>>=◌, ◌>>◌, must,
  or_err, reject_if,
}
use membrane_core.Asset.{Addr}
use membrane_core.Chain.{Env, MessageInfo, given, validate, validate_option}
use membrane_core.Vesting.Types.{
  Allocation, Recipient, Config, Store, Proposal, ProposalVoteOption, submit_proposal_msg,
  cast_vote_msg, AttrValue, text, config_debug, Response, load_config, load_recipients, save_config,
  save_recipients,
}
use membrane_core.Vesting.Withdraw.{has_address}

pub record InstantiateMsg : Type 0 where
  pub owner : Option String
  pub initial_allocation : ℕ
  pub pre_launch_contributors : String
  pub pre_launch_community : List String
  pub mbrn_denom : String
  pub osmosis_proxy : String
  pub staking_contract : String

pub record ConfigUpdate : Type 0 where
  pub owner : Option String
  pub mbrn_denom : Option String
  pub osmosis_proxy : Option String
  pub staking_contract : Option String
  pub additional_allocation : Option ℕ

-- `recipients.iter().any(|recipient| recipient.recipient == address)`
abbrev pub any_recipient : Addr → List Recipient → Bool
any_recipient address [] = false
any_recipient address (r ∷ recipients) = has_address address r || any_recipient address recipients

-- A new allocation of this amount that starts now, after so many days of a cliff, over a year.
abbrev pub new_allocation : ℕ → ℕ → ℕ → Allocation
new_allocation amount now cliff = record {
  amount = amount;
  amount_withdrawn = 0;
  start_time_of_allocation = now;
  vesting_period = record { cliff = cliff; linear = 365 };
}

-- One address of the community, where it is valid.
unfoldable pub enlist : ℕ → Option Addr → List Recipient → List Recipient
enlist now none recipients = recipients
enlist now (some address) recipients =
    if any_recipient address recipients
    then recipients
    else (recipients
        ++ record {
          recipient = address;
          allocation = some (new_allocation 1_000_000_000 now 0);
          claimables = [];
        }
          ∷ [])

unfoldable pub transfer_attrs : Option Addr → List (String × AttrValue)
transfer_attrs none = []
transfer_attrs (some owner) = ("owner_transfer", text owner) ∷ []

module _ ⦃x : Crates⦄ where
  unfoldable pub enlist_all : ℕ → List Recipient → List String → List Recipient
  enlist_all now recipients [] = recipients
  enlist_all now recipients (address ∷ addresses) =
      enlist_all now (enlist now (x.addr_validate address) recipients) addresses

  -- The version number that `set_contract_version` saves is read nowhere, and left out; so is the
  -- first save of the configuration, which the last one overwrites.
  unfoldable pub instantiate :
      Store → Env → MessageInfo → InstantiateMsg → Result (Store × Response)
  instantiate store env info msg = do
    osmosis_proxy ← validate msg.osmosis_proxy
    staking_contract ← validate msg.staking_contract
    owner ← validate_option msg.owner info.sender
    contributors ← validate msg.pre_launch_contributors
    let now = x.seconds env.time
    let first : Recipient = record {
      recipient = contributors;
      allocation = some (new_allocation msg.initial_allocation now 730);
      claimables = [];
    }
    let recipients = enlist_all now (first ∷ []) msg.pre_launch_community
    total ← must (x.u128_add msg.initial_allocation ((length recipients - 1) * 1_000_000_000))
    let config : Config = record {
      owner = owner;
      total_allocation = total;
      mbrn_denom = msg.mbrn_denom;
      osmosis_proxy = osmosis_proxy;
      staking_contract = staking_contract;
    }
    ok (
      save_config (save_recipients store recipients) config,
      record {
        messages = [];
        attributes =
            ("method", text "instantiate")
            ∷ ("config", config_debug config)
            ∷ ("contract_address", text env.contract_address)
            ∷ [];
      },
    )

  -- The owner keeps the contract; the address that a transfer names takes it over.
  unfoldable pub authorize : Store → Config → Addr → Result Config
  authorize store config sender = if str_eq sender config.owner then ok config else (do
    pending ← or_err store.ownership_transfer not_found
    if str_eq sender pending then ok (record config { owner = sender }) else err unauthorized)

  unfoldable pub valid_owner : Option String → Result (Option Addr)
  valid_owner none = ok none
  valid_owner (some owner) = do valid_addr ← validate owner; ok (some valid_addr)

  unfoldable pub add_total : Option ℕ → ℕ → Result ℕ
  add_total none total = ok total
  add_total (some additional) total = must (x.u128_add total additional)

  unfoldable pub transfer_owner : Store → Option Addr → Store
  transfer_owner store none = store
  transfer_owner store (some owner) = record store { ownership_transfer = some owner }

  unfoldable pub update_config : Store → MessageInfo → ConfigUpdate → Result (Store × Response)
  update_config store info update = do
    old ← load_config store
    config ← authorize store old info.sender
    owner ← valid_owner update.owner
    osmosis_proxy ← validate_option update.osmosis_proxy config.osmosis_proxy
    staking_contract ← validate_option update.staking_contract config.staking_contract
    total ← add_total update.additional_allocation config.total_allocation
    let updated = record config {
      total_allocation = total;
      mbrn_denom = given update.mbrn_denom config.mbrn_denom;
      osmosis_proxy = osmosis_proxy;
      staking_contract = staking_contract;
    }
    ok (
      save_config (transfer_owner store owner) updated,
      record {
        messages = [];
        attributes =
            ("method", text "update_config") ∷ transfer_attrs owner
            ++ ("updated_config", config_debug updated) ∷ [];
      },
    )

  unfoldable pub add_recipient : Store → MessageInfo → String → Result (Store × Response)
  add_recipient store info recipient = do
    config ← load_config store
    reject_if (not (str_eq info.sender config.owner)) unauthorized
    valid_recipient ← validate recipient
    recipients ← load_recipients store
    reject_if (any_recipient valid_recipient recipients) (custom_error "Duplicate Recipient")
    let new : Recipient = record { recipient = valid_recipient; allocation = none; claimables = [] }
    ok (
      save_recipients store (recipients ++ new ∷ []),
      record {
        messages = [];
        attributes = ("method", text "add_recipient") ∷ ("Recipient", text recipient) ∷ [];
      },
    )

-- The recipient to remove is compared as it is given.
unfoldable pub remove_recipient : Store → MessageInfo → String → Result (Store × Response)
remove_recipient store info recipient = do
  config ← load_config store
  reject_if (not (str_eq info.sender config.owner)) unauthorized
  recipients ← load_recipients store
  ok (
    save_recipients store (filter (λ r. not (has_address recipient r)) recipients),
    record {
      messages = [];
      attributes = ("method", text "remove_recipient") ∷ ("Recipient", text recipient) ∷ [];
    },
  )

unfoldable pub submit_proposal : Store → MessageInfo → Proposal → Result (Store × Response)
submit_proposal store info proposal = do
  config ← load_config store
  recipients ← load_recipients store
  recipient ← or_err (find? (has_address info.sender) recipients) invalid_recipient
  ok (
    store,
    record {
      messages = submit_proposal_msg config.owner proposal (some recipient.recipient) ∷ [];
      attributes = ("method", text "submit_proposal") ∷ ("proposer", text recipient.recipient) ∷ [];
    },
  )

unfoldable pub cast_vote : Store → MessageInfo → ℕ → ProposalVoteOption → Result (Store × Response)
cast_vote store info proposal_id vote = do
  config ← load_config store
  recipients ← load_recipients store
  recipient ← or_err (find? (has_address info.sender) recipients) invalid_recipient
  ok (
    store,
    record {
      messages = cast_vote_msg config.owner proposal_id vote (some recipient.recipient) ∷ [];
      attributes = ("method", text "cast_vote") ∷ ("voter", text recipient.recipient) ∷ [];
    },
  )
