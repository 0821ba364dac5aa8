-- ===== src/Tests/StabilityPool.antt =====
-- The theorems on the stability pool at concrete inputs: two users with three deposits, one of them
-- unstaking since day 1.
use membrane_core.Prelude.{ℕ, true, false, ◌≡◌, refl, some, none, List, [], ◌∷◌, map, arith}
use membrane_core.Tests.{documented}
use membrane_core.Tests.Scenario.{at, from_sender, from_ok}
use membrane_core.Result.{ok}
use membrane_core.Asset.{Asset, native_token, equal}
use membrane_core.Chain.{asset_to_coin, validate_option, validate, validate_position_owner}
use membrane_core.StabilityPool.Types.{
  load_asset, load_config, UserInfo, Deposit, AssetPool, Config, Store, Response,
}
use membrane_core.StabilityPool.Incentives.{
  rest_capped, cap_incentives, accumulate_interest, time_elapsed, Accrual, accrue_incentives,
}
use membrane_core.StabilityPool.Incentives.Capped.{IsCapped, accrue_incentives-IsCapped}
use membrane_core.StabilityPool.Deposits.{add_deposit, deposit}
use membrane_core.StabilityPool.Deposits.Backed.{IsBacked, IsAdded, deposit-IsAdded}
use membrane_core.StabilityPool.Liquidate.{liquidate}
use membrane_core.StabilityPool.Liquidate.Repaid.{IsRepaid, liquidate-IsRepaid}
use membrane_core.StabilityPool.Repay.{repay}
use membrane_core.StabilityPool.Repay.Sent.{IsSent, repay-IsSent}
use membrane_core.StabilityPool.Unstake.{
  return_deposit, reject_error, settle_pool, take_rest, take_dust, take_part, take_from, unstake,
  note_accrual, floor, accrue, visit, visit_all, withdrawal_from_state,
}
use membrane_core.StabilityPool.Distribute.{
  draw_part, put_first, add_to_user_claims, accrue_drawn, update_drawn, draw_whole, draw_one, draw,
}
use membrane_core.StabilityPool.Distribute.Drawn.{IsFront, draw-IsFront}
use membrane_core.StabilityPool.Restake.{restake_left, restake_one, restake_all, restake}
use membrane_core.StabilityPool.Restake.Kept.{owned, restake-owned}
use membrane_core.StabilityPool.Admin.{
  within, change_settings, change_contracts, valid_owner, authorize, UpdateConfig, update_config,
}
use membrane_core.StabilityPool.Admin.Ranges.{IsUpdated, update_config-IsUpdated}
use membrane_core.StabilityPool.Unstake.Paid.{IsPaid, withdrawal_from_state-IsPaid}
use membrane_core.StabilityPool.Withdraw.{
  withdrawal_msg, send, check_withdrawable, sum_deposits, user_total, withdraw,
}
use membrane_core.StabilityPool.Withdraw.Backed.{withdraw-IsBacked}

abbrev config : Config
config = record {
  owner = "owner";
  incentive_rate = 90_000_000_000_000_000;
  max_incentives = 10_000_000;
  unstaking_period = 1;
  minimum_deposit_amount = 5;
  mbrn_denom = "mbrn";
  osmosis_proxy = "proxy";
  positions_contract = "positions";
  oracle_contract = "oracle";
}

abbrev unstaking : Deposit
unstaking = record {
  user = "alice";
  amount = 100_000_000_000_000_000_000;
  deposit_time = 0;
  last_accrued = 0;
  unstake_time = some 86_400;
}

abbrev staked : Deposit
staked = record unstaking { amount = 50_000_000_000_000_000_000; unstake_time = none }

abbrev pool : AssetPool
pool = record {
  credit_asset = record { info = native_token "cdt"; amount = 450 };
  liq_premium = 0;
  deposits =
      unstaking
      ∷ record staked { user = "bob"; amount = 300_000_000_000_000_000_000 }
      ∷ staked
      ∷ [];
}

abbrev store : Store
store = record {
  config = some config;
  asset = some pool;
  prop = some (record { repaid_amount = 7 });
  incentives = some 9_999_999;
  users = λ u. none;
  ownership_transfer = none;
}

abbrev no_response : Response
no_response = record { messages = []; attributes = [] }

-- A year at nine percent would accrue more than the one unit that is left below the cap.
abbrev accrual : Accrual
accrual =
    from_ok (record { incentives = 0; total = 0; deposit = staked })
      (accrue_incentives 31_536_000 config (some 9_999_999) 50 staked)

accrue_incentives-IsCapped_example : IsCapped 10_000_000 9_999_999 31_536_000 staked accrual
unfolding accrue_incentives time_elapsed accumulate_interest cap_incentives rest_capped
accrue_incentives-IsCapped_example =
    accrue_incentives-IsCapped 31_536_000 50 9_999_999 config staked accrual refl

abbrev cdt : Asset
cdt = record { info = native_token "cdt"; amount = 20 }

abbrev deposit_made : Store × Response
deposit_made =
    from_ok (store, no_response) (deposit store (at 200_000) (from_sender "carol") none cdt)

deposit-IsAdded_example :
    (c : Config) × (before : AssetPool) × (after : AssetPool) × (store.config ≡ some c)
    × (store.asset ≡ some before)
    × (deposit_made.0.asset ≡ some after)
    × (equal before.credit_asset.info (native_token "cdt") ≡ true)
    × IsAdded before 20 c.minimum_deposit_amount after
unfolding deposit load_config validate_position_owner load_asset equal add_deposit
deposit-IsAdded_example =
    deposit-IsAdded store deposit_made.0 (at 200_000) (from_sender "carol") none cdt deposit_made.1
      refl

-- Alice takes 97 of the deposit that she has unstaked for more than a day, and its dust of 3.
abbrev taken : Store × ℕ × AssetPool
taken =
    from_ok (store, 0, pool)
      (withdrawal_from_state store (at 200_000) config "alice" 97_000_000_000_000_000_000 pool
        false)

withdrawal_from_state-IsPaid_example : IsPaid pool 100 taken.2
unfolding withdrawal_from_state visit_all visit accrue floor note_accrual accrue_incentives
    time_elapsed accumulate_interest cap_incentives unstake take_from take_part take_dust take_rest
    settle_pool reject_error
withdrawal_from_state-IsPaid_example =
    withdrawal_from_state-IsPaid store taken.0 (at 200_000) config "alice"
      97_000_000_000_000_000_000 pool taken.2 false 100 refl

abbrev withdrawn : Store × Response
withdrawn = from_ok (store, no_response) (withdraw store (at 200_000) (from_sender "alice") 97)

withdraw-IsBacked_example : (after : AssetPool) × (withdrawn.0.asset ≡ some after) × IsBacked after
unfolding withdraw load_config load_asset user_total sum_deposits withdrawal_from_state visit_all
    visit accrue floor note_accrual accrue_incentives time_elapsed accumulate_interest
    cap_incentives unstake take_from take_part take_dust take_rest settle_pool reject_error
    return_deposit check_withdrawable send withdrawal_msg
withdraw-IsBacked_example =
    withdraw-IsBacked store withdrawn.0 (at 200_000) (from_sender "alice") 97 withdrawn.1 pool refl
      (omega arith) refl

liquidate-IsRepaid_example :
    (s' : Store) × (response : Response) × (liquidate store
        (from_sender "positions")
        500_000_000_000_000_000_000
      ≡ ok (s', response))
    × IsRepaid store s' config pool "cdt" 500_000_000_000_000_000_000 response
liquidate-IsRepaid_example =
    liquidate-IsRepaid store (from_sender "positions") 500_000_000_000_000_000_000 config pool
      (record { repaid_amount = 7 }) "cdt" refl refl refl refl refl (omega arith) (omega arith)
      (omega arith)

-- The whole of the first deposit, and 250 of the second.
abbrev drawn : Store × List Deposit
drawn = from_ok (store, []) (draw store 200_000 config 350_000_000_000_000_000_000 0 pool.deposits)

draw-IsFront_example : IsFront 350_000_000_000_000_000_000 pool.deposits drawn.1
unfolding draw draw_one draw_whole update_drawn accrue_drawn floor accrue_incentives time_elapsed
    accumulate_interest cap_incentives add_to_user_claims put_first draw_part
draw-IsFront_example =
    draw-IsFront store drawn.0 200_000 config 350_000_000_000_000_000_000 pool.deposits drawn.1 refl

abbrev restaked : Store × Response
restaked =
    from_ok (store, no_response)
      (restake store (at 200_000) (from_sender "alice") 100_000_000_000_000_000_000)

restake-owned_example :
    (pool' : AssetPool) × (restaked.0.asset ≡ some pool')
    × (pool'.credit_asset ≡ pool.credit_asset)
    × (map owned pool'.deposits ≡ map owned pool.deposits)
unfolding restake load_asset load_config restake_all restake_one accrue floor note_accrual
    accrue_incentives time_elapsed accumulate_interest cap_incentives restake_left reject_error
restake-owned_example =
    restake-owned store restaked.0 (at 200_000) (from_sender "alice") 100_000_000_000_000_000_000
      restaked.1 pool refl refl

-- A transfer of the contract, a lower rate and a period of a week.
abbrev update : UpdateConfig
update = record {
  owner = some "dave";
  incentive_rate = some 50_000_000_000_000_000;
  max_incentives = none;
  unstaking_period = some 7;
  minimum_deposit_amount = some 10;
  osmosis_proxy = none;
  positions_contract = none;
  oracle_contract = some "new oracle";
  mbrn_denom = none;
}

abbrev updated : Store × Response
updated =
    from_ok (store, no_response)
      (update_config (record store { ownership_transfer = some "carol" }) (from_sender "carol")
        update)

update_config-IsUpdated_example :
    IsUpdated (record store { ownership_transfer = some "carol" }) updated.0 "carol"
unfolding update_config load_config authorize valid_owner validate change_contracts validate_option
    change_settings within
update_config-IsUpdated_example =
    update_config-IsUpdated (record store { ownership_transfer = some "carol" }) updated.0
      (from_sender "carol") update updated.1 refl

abbrev alice : UserInfo
alice = record { position_id = 1; position_owner = "alice" }

-- The dust of 3 leaves the deposit with the 97 that are repaid.
abbrev repaid_position : Store × Response
repaid_position =
    from_ok (store, no_response)
      (repay store (at 200_000) (from_sender "positions") alice (record cdt { amount = 97 }))

repay-IsSent_example :
    IsSent store repaid_position.0
      (from_sender "positions")
      alice
      (record cdt { amount = 97 })
      pool
      repaid_position.1
unfolding repay load_config load_asset equal validate user_total sum_deposits withdrawal_from_state
    visit_all visit accrue floor note_accrual accrue_incentives time_elapsed accumulate_interest
    cap_incentives unstake take_from take_part take_dust take_rest settle_pool reject_error
    return_deposit asset_to_coin
repay-IsSent_example =
    repay-IsSent store repaid_position.0 (at 200_000) (from_sender "positions") alice
      (record cdt { amount = 97 }) pool repaid_position.1 refl (omega arith) refl
