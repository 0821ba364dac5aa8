-- ===== src/Tests/Scenario.antt =====
-- A queue with empty slots at 0% and 1% and, at 2%, an active bid and a waiting one, and the calls that
-- the examples make on it.
use membrane_core.Prelude.{ℕ, ◌*◌, String, some, none, [], ◌∷◌, arith, refl, str_eq, if◌then◌else◌}
use membrane_core.Result.{Result, ok, err, panic}
use membrane_core.Asset.{AssetInfo, native_token}
use membrane_core.Price.{PriceResponse}
use membrane_core.LiqQueue.Types.{Config, Queue, Bid, PremiumSlot}
use membrane_core.LiqQueue.State.{Store, Env, MessageInfo, Response}
use membrane_core.LiqQueue.Counted.{IsCounted}

abbrev pub config : Config
config = record {
  owner = "owner";
  positions_contract = "positions";
  osmosis_proxy_contract = "proxy";
  added_assets = some [];
  waiting_period = 60;
  bid_asset = native_token "cdt";
  minimum_bid = 10;
  maximum_waiting_bids = 10;
}

abbrev pub active_bid : Bid
active_bid = record {
  user = "alice";
  id = 1;
  amount = 500;
  liq_premium = 2;
  product_snapshot = 1_000_000_000_000_000_000;
  sum_snapshot = 0;
  pending_liquidated_collateral = 0;
  wait_end = none;
  epoch_snapshot = 0;
  scale_snapshot = 0;
}

abbrev pub waiting_bid : Bid
waiting_bid = record active_bid { id = 2; amount = 300; wait_end = some 160 }

abbrev pub empty_slot : PremiumSlot
empty_slot = record {
  bids = [];
  waiting_bids = [];
  liq_premium = 0;
  sum_snapshot = 0;
  product_snapshot = 1_000_000_000_000_000_000;
  total_bid_amount = 0;
  last_total = 0;
  current_epoch = 0;
  current_scale = 0;
  residue_collateral = 0;
  residue_bid = 2_500_000_000_000_000_000;
}

abbrev pub slot : PremiumSlot
slot = record empty_slot {
  bids = active_bid ∷ [];
  waiting_bids = waiting_bid ∷ [];
  liq_premium = 20_000_000_000_000_000;
  total_bid_amount = 500;
}

abbrev pub queue : Queue
queue = record {
  bid_asset = record { info = native_token "cdt"; amount = 500 };
  max_premium = 2;
  slots = empty_slot ∷ record empty_slot { liq_premium = 10_000_000_000_000_000 } ∷ slot ∷ [];
  current_bid_id = 3;
  bid_threshold = 1000;
}

pub queue-IsCounted : IsCounted queue
queue-IsCounted = record {
  sound = record {
    distinct = (
      (λ e. omega (arith, e), (λ e. omega (arith, e), tt)),
      ((λ e. omega (arith, e), tt), (tt, tt)),
    );
    fit = (omega arith, (omega arith, (omega arith, tt)));
  };
  counted = refl;
}

abbrev pub osmo : AssetInfo
osmo = native_token "osmo"

abbrev pub store : Store
store = record {
  config = some config;
  queues = λ k. if str_eq k "osmo" then some queue else none;
  epoch_scale_sum = λ b p e c. none;
  ownership_transfer = some "heir";
}

abbrev pub at : ℕ → Env
at seconds = record { time = seconds * 1_000_000_000; contract_address = "queue" }

abbrev pub from_sender : String → MessageInfo
from_sender sender = record { sender = sender; funds = [] }

-- The price of one unit of an asset with six decimals.
abbrev pub unit_price : PriceResponse
unit_price = record { prices = []; price = 1_000_000_000_000_000_000; decimals = 6 }

abbrev pub no_response : Response
no_response = record { messages = []; attributes = [] }

-- What a call returned, where it succeeded.
abbrev pub from_ok {ℓ} : {A : Type ℓ} → A → Result A → A
from_ok a (ok b) = b
from_ok a (err e) = a
from_ok a panic = a
