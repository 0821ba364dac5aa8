-- ===== src/LiqQueue/State.antt =====
-- What a call of the contract reads and writes: the storage items of
-- contracts/liq-queue/src/state.rs, the message's sender and funds, the block, the response.
-- A call that fails or panics is rolled back by the chain, so only a success returns a store.
use membrane_core.Prelude.{
  ℕ, Option, some, List, String, false, ◌&&◌, ◌≡◌, arith, str_eq, str_eq_iff, ◌==◌, if◌then◌else◌,
}
use membrane_core.Result.{Result, or_err, not_found}
use membrane_core.Math.Decimal256.{Decimal256}
use membrane_core.Asset.{Addr}
use membrane_core.LiqQueue.Types.{Config, Queue}
pub use membrane_core.Chain.{Coin, MessageInfo, Env}

pub record Store : Type 0 where
  pub config : Option Config
  pub queues : String → Option Queue
  pub epoch_scale_sum : String → ℕ → ℕ → ℕ → Option Decimal256
  pub ownership_transfer : Option Addr

-- An attribute's value, before it is printed.
pub data AttrValue : Type 0 where
  text : String → AttrValue
  number : ℕ → AttrValue
  bid_input_text : String → ℕ → AttrValue
  config_debug : Config → AttrValue

abbrev pub Attribute : Type 0
Attribute = String × AttrValue

pub data CosmosMsg : Type 0 where
  -- `BankMsg::Send` of one coin
  bank_send : Addr → Coin → CosmosMsg
  -- `OP_ExecuteMsg::BurnTokens` to the Osmosis proxy: contract, denom, amount, burn_from_address
  burn_tokens : Addr → String → ℕ → Addr → CosmosMsg

pub record Response : Type 0 where
  pub messages : List CosmosMsg
  pub attributes : List Attribute

-- `QUEUES.load`
unfoldable pub load_queue : Store → String → Result Queue
load_queue s key = or_err (s.queues key) not_found

-- `QUEUES.save`
unfoldable pub save_queue : Store → String → Queue → Store
save_queue s key queue = record s { queues = λ k. if str_eq k key then some queue else s.queues k }

-- `CONFIG.load`
unfoldable pub load_config : Store → Result Config
load_config s = or_err s.config not_found

-- `CONFIG.save`
unfoldable pub save_config : Store → Config → Store
save_config s config = record s { config = some config }

-- `store_epoch_scale_sum`
unfoldable pub store_epoch_scale_sum : Store → String → ℕ → ℕ → ℕ → Decimal256 → Store
store_epoch_scale_sum s bid_for premium_slot epoch scale sum = record s {
  epoch_scale_sum = λ b p e c.
      if str_eq b bid_for && (p == premium_slot && (e == epoch && c == scale))
      then some sum
      else s.epoch_scale_sum b p e c;
}

-- `read_epoch_scale_sum`, whose only error is that nothing is stored there
unfoldable pub read_epoch_scale_sum : Store → String → ℕ → ℕ → ℕ → Option Decimal256
read_epoch_scale_sum s bid_for premium epoch scale = s.epoch_scale_sum bid_for premium epoch scale

pub load-save_queue :
    (s : Store) (key : String) (q : Queue) → (save_queue s key q).queues key ≡ some q
unfolding save_queue
load-save_queue s key q = ground (arith, str_eq_iff key key)

pub load-save_queue_ne :
    (s : Store) (key other : String) (q : Queue)
    → str_eq other key ≡ false
    → (save_queue s key q).queues other ≡ s.queues other
unfolding save_queue
load-save_queue_ne s key other q h = ground arith
