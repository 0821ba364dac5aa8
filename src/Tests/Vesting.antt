-- ===== src/Tests/Vesting.antt =====
-- The theorems on the vesting contract at concrete inputs: two recipients, whose allocations vest over
-- ten days after a day.
use membrane_core.Prelude.{
  ◌==◌, ◌+◌, ◌-◌, ◌≤◌, ◌≡◌, refl, some, none, List, [], ◌∷◌, arith, subst, inl, inr, Bool-cases,
  String, str_eq_iff, str_eq, if◌then◌else◌, All,
}
use membrane_core.Tests.{documented}
use membrane_core.Tests.Scenario.{at, from_sender, from_ok}
use membrane_core.Result.{ok, err, zero_amount, ◌>>=◌}
use membrane_core.Asset.{native_token, Asset}
use membrane_core.Chain.{validate, validate_option}
use membrane_core.Math.Decimal.{decimal_division}
use membrane_core.Vesting.Types.{
  Allocation, Recipient, Config, Store, Response, mint_tokens, load_config, load_recipients,
}
use membrane_core.Vesting.Unlock.{newly_unlocked, unlock_part, unlock_after, get_unlocked_amount}
use membrane_core.Vesting.Unlock.Payments.{paid, withdrawals, withdrawals_bound}
use membrane_core.Vesting.Unlock.Schedule.{vested, settled, Fits, get_unlocked_amount-vested}
use membrane_core.Vesting.Withdraw.{unlock, deliver, withdraw_unlocked}
use membrane_core.Vesting.Withdraw.Whole.{Holds, withdraw_each, withdraw_each_whole}
use membrane_core.Vesting.Withdraw.Minted.{IsMinted, withdraw_unlocked-IsMinted}
use membrane_core.Vesting.Admin.{enlist, enlist_all, instantiate, InstantiateMsg}
use membrane_core.Vesting.Books.{IsSolvent, total_allocated}
use membrane_core.Vesting.Fees.{
  Querier, allocation_ratio, allocation_ratios, get_allocation_ratios, add_claim, credit,
  credit_all, share_rewards, claim_shared, claim_fees_for_contract,
}
use membrane_core.Vesting.Fees.Blocked.{IsWithin, claim_fees_for_contract-AreWithin}
use membrane_core.Vesting.Fees.Rewards.{all_claimed, claimed, share_rewards-bound}
use membrane_core.Vesting.Allocate.{
  divide, divvy_from, divvy_one, divvy_sender, increase, increase_all, divvy,
}
use membrane_core.Vesting.Allocate.Conserved.{divvy-total, divvy-total_new}
use membrane_core.Vesting.Query.{find_recipient, unlocked_now, query_unlocked}
use membrane_core.Vesting.Query.Announced.{query_unlocked-withdraw_unlocked}
use membrane_core.Vesting.Contract.{created}
use membrane_core.Vesting.Contract.Solvent.{reachable-IsSolvent}

abbrev allocation : Allocation
allocation = record {
  amount = 1000;
  amount_withdrawn = 100;
  start_time_of_allocation = 0;
  vesting_period = record { cliff = 1; linear = 10 };
}

abbrev alice : Recipient
alice = record { recipient = "alice"; allocation = some allocation; claimables = [] }

abbrev bob : Recipient
bob = record {
  recipient = "bob";
  allocation = some (record allocation { amount = 500; amount_withdrawn = 0 });
  claimables = [];
}

abbrev config : Config
config = record {
  owner = "owner";
  total_allocation = 2000;
  mbrn_denom = "mbrn";
  osmosis_proxy = "proxy";
  staking_contract = "staking";
}

abbrev store : Store
store = record {
  config = some config;
  recipients = some (alice ∷ bob ∷ []);
  ownership_transfer = none;
}

abbrev rewards : List Asset
rewards = record { info = native_token "cdt"; amount = 300 } ∷ []

abbrev staking : Querier
staking = record {
  user_rewards = λ contract user. ok rewards;
  user_stake = λ contract user. ok 2000;
}

abbrev no_response : Response
no_response = record { messages = []; attributes = [] }

allocation-Fits : Fits allocation
allocation-Fits = record { amount = omega arith; cliff = omega arith; linear = omega arith }

-- Six days in, half of the linear period has passed.
get_unlocked_amount-vested_example :
    get_unlocked_amount (some allocation) 518_400
    ≡ ok (vested allocation 518_400 - 100, settled allocation 518_400)
get_unlocked_amount-vested_example =
    get_unlocked_amount-vested allocation 518_400 allocation-Fits (omega arith) (omega arith)

alice-Holds : Holds store "alice" allocation
alice-Holds = record {
  config = config;
  recipients = alice ∷ bob ∷ [];
  recipient = alice;
  configured = refl;
  listed = refl;
  found = refl;
  allocated = refl;
}

withdraw_each_whole_example :
    (s' : Store) × (withdraw_each store "alice" (at 518_400 ∷ at 600_000 ∷ at 1_000_000 ∷ [])
      ≡ ok (1000 - 100, s'))
withdraw_each_whole_example =
    withdraw_each_whole store "alice" allocation 300_000 (at 518_400 ∷ at 600_000 ∷ [])
      (at 1_000_000) alice-Holds allocation-Fits (omega arith) (omega arith) (omega arith)
      (omega arith) (omega arith) (omega arith)

withdrawals_bound_example : paid allocation + 400 ≤ 1000
unfolding withdrawals get_unlocked_amount unlock_after unlock_part decimal_division newly_unlocked
withdrawals_bound_example =
    withdrawals_bound allocation (518_400 ∷ []) 400 (record allocation { amount_withdrawn = 500 })
      refl

abbrev withdrawn_half : Store × Response
withdrawn_half =
    from_ok (store, no_response) (withdraw_unlocked store (at 518_400) (from_sender "alice"))

withdraw_unlocked-IsMinted_example : IsMinted store withdrawn_half.0 "alice" withdrawn_half.1
unfolding withdraw_unlocked load_config load_recipients unlock get_unlocked_amount unlock_after
    unlock_part decimal_division newly_unlocked
withdraw_unlocked-IsMinted_example =
    withdraw_unlocked-IsMinted store withdrawn_half.0 (at 518_400) (from_sender "alice")
      withdrawn_half.1 refl

query_unlocked-withdraw_unlocked_example :
    (s' : Store) × (response : Response) × (withdraw_unlocked store
        (at 518_400)
        (from_sender "alice")
      ≡ ok (s', response))
    × (response.messages ≡ mint_tokens "proxy" "mbrn" 400 "alice" ∷ [])
    × ((withdraw_unlocked store (at 518_400) (from_sender "alice") >>= deliver)
        ≡ (if 400 == 0 then err zero_amount else ok (s', response)))
unfolding query_unlocked find_recipient load_recipients unlocked_now get_unlocked_amount
    unlock_after unlock_part decimal_division newly_unlocked
query_unlocked-withdraw_unlocked_example =
    query_unlocked-withdraw_unlocked store (at 518_400) (from_sender "alice") config
      (record { unlocked_amount = 400 }) refl refl

abbrev shared : List Recipient
shared = from_ok [] (share_rewards staking (at 0) config rewards (alice ∷ bob ∷ []))

share_rewards-bound_example :
    all_claimed (native_token "cdt") shared
    ≤ all_claimed (native_token "cdt") (alice ∷ bob ∷ []) + claimed (native_token "cdt") rewards
unfolding share_rewards get_allocation_ratios allocation_ratios allocation_ratio decimal_division
    credit_all credit add_claim
share_rewards-bound_example =
    share_rewards-bound staking (at 0) config rewards (alice ∷ bob ∷ []) shared 2000
      (native_token "cdt") refl (omega arith) refl

abbrev claimed_fees : Store × Response
claimed_fees = from_ok (store, no_response) (claim_fees_for_contract store staking (at 0))

claim_fees_for_contract-AreWithin_example : All (λ r. IsWithin r.allocation) (alice ∷ bob ∷ [])
unfolding claim_fees_for_contract load_config claim_shared load_recipients share_rewards
    get_allocation_ratios allocation_ratios allocation_ratio decimal_division credit_all credit
    add_claim
claim_fees_for_contract-AreWithin_example =
    claim_fees_for_contract-AreWithin store claimed_fees.0 staking (at 0) config (alice ∷ bob ∷ [])
      (record { info = native_token "cdt"; amount = 300 }) [] claimed_fees.1 refl refl refl refl

-- Alice gives a part of her allocation to Bob, and to Carol, who is new.
abbrev to_bob : List Recipient
to_bob = from_ok [] (divvy "alice" "bob" 200 (alice ∷ bob ∷ []))

abbrev to_carol : List Recipient
to_carol = from_ok [] (divvy "alice" "carol" 200 (alice ∷ bob ∷ []))

two-distinct :
    (k : String) → (if str_eq "alice" k then 1 else 0) + ((if str_eq "bob" k then 1 else 0) + 0) ≤ 1
two-distinct k = elim (Bool-cases (str_eq "alice" k)) [
  | inl e ↦
      subst (λ j. (if str_eq "alice" j then 1 else 0) + ((if str_eq "bob" j then 1 else 0) + 0) ≤ 1)
        ((str_eq_iff "alice" k).0 e) (omega arith)
  | inr e ↦ ground arith
]

divvy-total_example : total_allocated to_bob ≤ total_allocated (alice ∷ bob ∷ [])
unfolding divvy divvy_sender divvy_one divvy_from increase_all increase divide
divvy-total_example = divvy-total "alice" "bob" 200 (alice ∷ bob ∷ []) to_bob two-distinct refl

divvy-total_new_example : total_allocated to_carol ≡ total_allocated (alice ∷ bob ∷ [])
unfolding divvy divvy_sender divvy_one divvy_from
divvy-total_new_example =
    divvy-total_new "alice" "carol" 200 (alice ∷ bob ∷ []) to_carol two-distinct refl refl

abbrev launch : InstantiateMsg
launch = record {
  owner = none;
  initial_allocation = 30_000_000_000;
  pre_launch_contributors = "labs";
  pre_launch_community = "alice" ∷ "bob" ∷ "alice" ∷ [];
  mbrn_denom = "mbrn";
  osmosis_proxy = "proxy";
  staking_contract = "staking";
}

abbrev launched : Store × Response
launched = from_ok (store, no_response) (instantiate store (at 100) (from_sender "deployer") launch)

reachable-IsSolvent_example : IsSolvent launched.0
unfolding instantiate validate validate_option enlist_all enlist
reachable-IsSolvent_example =
    reachable-IsSolvent launched.0
      (created store launched.0 (at 100) (from_sender "deployer") launch launched.1 refl)
