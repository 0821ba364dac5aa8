-- ===== src/LiqQueue/Contract.antt =====
-- `execute` of contracts/liq-queue/src/contract.rs, and the calls as steps of the chain.
use membrane_core.Prelude.{ℕ, Option, List, String, ◌≡◌}
use membrane_core.Crates.{Crates}
use membrane_core.Result.{Result, ok}
use membrane_core.Asset.{AssetInfo}
use membrane_core.Price.{PriceResponse}
use membrane_core.LiqQueue.Types.{BidInput}
use membrane_core.LiqQueue.State.{Store, Env, MessageInfo, Response}
use membrane_core.LiqQueue.Submit.{submit_bid}
use membrane_core.LiqQueue.Retract.{retract_bid}
use membrane_core.LiqQueue.Liquidate.{execute_liquidation}
use membrane_core.LiqQueue.Claim.{claim_liquidations}
use membrane_core.LiqQueue.Admin.{ConfigUpdate, update_config, edit_queue, add_queue}

pub data ExecuteMsg : Type 0 where
  submit : BidInput → Option String → ExecuteMsg
  retract : ℕ → AssetInfo → Option ℕ → ExecuteMsg
  -- credit price, collateral price, collateral amount, asset
  liquidate : PriceResponse → PriceResponse → ℕ → AssetInfo → ExecuteMsg
  claim : AssetInfo → Option (List ℕ) → ExecuteMsg
  -- asset, maximal premium, threshold
  new_queue : AssetInfo → ℕ → ℕ → ExecuteMsg
  update_queue : AssetInfo → Option ℕ → Option ℕ → ExecuteMsg
  configure : ConfigUpdate → ExecuteMsg

module _ ⦃x : Crates⦄ where
  unfoldable pub execute : Store → Env → MessageInfo → ExecuteMsg → Result (Store × Response)
  execute store env info (submit bid_input bid_owner) =
      submit_bid store info env bid_input bid_owner
  execute store env info (retract bid_id bid_for amount) =
      retract_bid store info bid_id bid_for amount
  execute store env info (liquidate credit_price collateral_price collateral_amount bid_for) =
      execute_liquidation store env info collateral_amount bid_for collateral_price credit_price
  execute store env info (claim bid_for bid_ids) = claim_liquidations store env info bid_for bid_ids
  execute store env info (new_queue bid_for max_premium bid_threshold) =
      add_queue store info bid_for max_premium bid_threshold
  execute store env info (update_queue bid_for max_premium bid_threshold) =
      edit_queue store info bid_for max_premium bid_threshold
  execute store env info (configure update) = update_config store info update

  -- A call that succeeds replaces the store; any other leaves it.
  pub data Step (s t : Store) : Type 0 where
    call :
        (env : Env) (info : MessageInfo) (msg : ExecuteMsg) (response : Response)
        → execute s env info msg ≡ ok (t, response)
        → Step s t

  -- The stores that a sequence of successful calls leads to, the first call innermost.
  pub data Calls (s : Store) : Store → Type 0 where
    no_call : Calls s s
    one_more : (t : Store) {u : Store} → Step t u → Calls s t → Calls s u
