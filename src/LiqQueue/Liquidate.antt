-- ===== src/LiqQueue/Liquidate.antt =====
-- `execute_liquidation` of contracts/liq-queue/src/bid.rs: the slots are spent from the lowest
-- premium up.
pub mod Spending
pub mod Books
use membrane_core.Prelude.{
  ℕ, zero, suc, ◌+◌, ◌%◌, Bool, true, false, List, [], ◌∷◌, String, str_eq, not, ◌==◌,
  if◌then◌else◌,
}
use membrane_core.Crates.{Crates}
use membrane_core.Result.{
  Result, ok, err, panic, unauthorized, insufficient_bids, ◌>>=◌, ◌>>◌, must, or_err, reject_if,
}
use membrane_core.Asset.{AssetInfo, token, native_token, to_string, equal}
use membrane_core.Price.{PriceResponse, PriceResponse256, to_decimal256}
use membrane_core.Math.Uint256
use membrane_core.Math.Uint256.{Uint256, to_u128}
use membrane_core.LiqQueue.Types.{PremiumSlot, Queue, Config}
use membrane_core.LiqQueue.State.{
  Store, Env, MessageInfo, Response, CosmosMsg, burn_tokens, text, number, load_queue, save_queue,
  load_config,
}
use membrane_core.LiqQueue.Slots.{read_premium_slot, store_premium_slot}
use membrane_core.LiqQueue.Pool.{execute_pool_liquidation}
use membrane_core.LiqQueue.Activation.{set_slot_total}

-- What a liquidation is called with, and the configuration that it loads.
pub record Liquidation : Type 0 where
  pub bid_for : String
  pub price : PriceResponse256
  pub credit_price : PriceResponse
  pub env : Env
  pub config : Config

-- The variables of the loop.
pub record Progress : Type 0 where
  pub store : Store
  pub queue : Queue
  pub remaining : Uint256
  pub repaid : Uint256
  pub filled : Bool

module _ ⦃x : Crates⦄ where
  -- The slot's bids are spent, and the slot is written back.
  unfoldable pub spend_slot : Liquidation → ℕ → PremiumSlot → Progress → Result Progress
  spend_slot l premium slot p = do
    credit_price ← to_decimal256 l.credit_price
    done ←
        execute_pool_liquidation p.store slot (premium % 256) l.bid_for p.remaining l.price
          credit_price p.filled
    repaid ← Uint256.add p.repaid done.amounts.required_stable
    remaining ←
        (if done.amounts.filled then ok 0 else Uint256.sub p.remaining done.amounts.collateral)
    ok (record {
      store = done.store;
      queue = store_premium_slot p.queue done.slot;
      remaining = remaining;
      repaid = repaid;
      filled = done.amounts.filled;
    })

  -- A slot that was read: its due bids are activated, and it is spent unless it is empty.
  unfoldable pub visit_slot : Liquidation → ℕ → PremiumSlot → Progress → Result Progress
  visit_slot l premium old p = do
    (slot, queue) ← set_slot_total old l.env p.queue l.config
    if slot.total_bid_amount == 0
        then ok (record p { queue = queue })
        else spend_slot l premium slot (record p { queue = queue })

  -- One round of the loop. A premium that has no slot is passed over.
  unfoldable pub liquidate_premium : Liquidation → ℕ → Progress → Result Progress
  liquidate_premium l premium p = elim (read_premium_slot p.queue (premium % 256)) [
    | ok slot ↦ visit_slot l premium slot p
    | err _ ↦ ok p
    | panic ↦ panic
  ]

  -- The loop, with the rounds that are left; it ends early once the collateral is spent.
  unfoldable pub liquidate_from : ℕ → ℕ → Liquidation → Progress → Result Progress
  liquidate_from zero premium l p = ok p
  liquidate_from (suc rounds) premium l p = do
    p' ← liquidate_premium l premium p
    elim p'.filled [ true ↦ ok p' | false ↦ liquidate_from rounds (premium + 1) l p' ]

  -- Takes the repaid amount off the queue's total.
  unfoldable pub settle : Queue → ℕ → Result Queue
  settle queue r_amount = do
    total ← or_err (x.u128_sub queue.bid_asset.amount r_amount) insufficient_bids
    ok (record queue { bid_asset = record queue.bid_asset { amount = total } })

  collateral_kind : AssetInfo → String
  collateral_kind (token address) = "token"
  collateral_kind (native_token denom) = "native_token"

  unfoldable pub burn_messages : Config → Env → AssetInfo → ℕ → List CosmosMsg
  burn_messages config env bid_asset r_amount =
      if r_amount == 0
      then []
      else burn_tokens config.osmosis_proxy_contract (to_string bid_asset) r_amount
          env.contract_address
        ∷ []

  -- The collateral that was not spent is taken off the reported amount.
  unfoldable pub spent_collateral : Uint256 → Uint256 → Result Uint256
  spent_collateral collateral_amount remaining =
      if remaining == 0 then ok collateral_amount else Uint256.sub collateral_amount remaining

  -- After the loop: the repaid amount is burned, and the queue is saved.
  unfoldable pub finish : Liquidation → AssetInfo → Uint256 → Progress → Result (Store × Response)
  unfolding collateral_kind
  finish l bid_for collateral_amount done = do
    spent ← spent_collateral collateral_amount done.remaining
    r_amount ← to_u128 done.repaid
    settled ← settle done.queue r_amount
    ok (
      save_queue done.store l.bid_for settled,
      record {
        messages = burn_messages l.config l.env settled.bid_asset.info r_amount;
        attributes =
            ("action", text "execute_bid")
            ∷ ("denom", text (to_string settled.bid_asset.info))
            ∷ ("repay_amount", number done.repaid)
            ∷ ("collateral_token", text l.bid_for)
            ∷ ("collateral_info", text (collateral_kind bid_for))
            ∷ ("collateral_amount", number spent)
            ∷ [];
      },
    )

  unfoldable pub execute_liquidation :
      Store
      → Env
      → MessageInfo
      → Uint256
      → AssetInfo
      → PriceResponse
      → PriceResponse
      → Result (Store × Response)
  execute_liquidation store env info collateral_amount bid_for collateral_price credit_price = do
    config ← load_config store
    reject_if (not (str_eq info.sender config.positions_contract)) unauthorized
    let key = to_string bid_for
    queue ← load_queue store key
    reject_if (not (equal queue.bid_asset.info config.bid_asset)) unauthorized
    price ← to_decimal256 collateral_price
    let l : Liquidation = record {
      bid_for = key;
      price = price;
      credit_price = credit_price;
      env = env;
      config = config;
    }
    rounds ← must (x.u128_add queue.max_premium 1)
    done ← liquidate_from rounds 0 l (record {
      store = store;
      queue = queue;
      remaining = collateral_amount;
      repaid = 0;
      filled = false;
    })
    finish l bid_for collateral_amount done
