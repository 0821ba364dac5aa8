-- ===== src/Tests/Queries.antt =====
-- The queries at a concrete store.
use membrane_core.Prelude.{ℕ, ◌≤◌, ◌≡◌, refl, true, some, none, List, [], ◌∷◌, map}
use membrane_core.Price.{get_amount, get_value, to_decimal256}
use membrane_core.Tests.{documented}
use membrane_core.Tests.Scenario.{config, store, queue, queue-IsCounted, osmo, unit_price}
use membrane_core.Result.{ok, ◌>>=◌}
use membrane_core.Asset.{to_string, native_token, equal}
use membrane_core.Math.Decimal256
use membrane_core.Math.Uint256
use membrane_core.LiqQueue.State.{Store, load_config, load_queue, read_epoch_scale_sum}
use membrane_core.LiqQueue.Slots.{read_premium_slot, read_bid, read_bid_from, read_bids_by_user}
use membrane_core.LiqQueue.Shares.{
  calculate_remaining_bid, remaining_bid_dec, compounded, to_integer,
  calculate_liquidated_collateral,
}
use membrane_core.LiqQueue.Query.{
  quote_amounts, quote_slot, quote_slots, Quote, SlotResponse, BidResponse, query_liquidatible,
  query_queues, query_premium_slot, query_premium_slots, query_bid, query_bids_by_user,
  query_user_claims,
}
use membrane_core.LiqQueue.Query.Quotes.{query_liquidatible-IsCovered}

-- 1000 units of collateral at 2% below their price are more than the 500 units can pay.
abbrev quoted : Quote
quoted = record { remaining = 490; repaid = 500 }

query_liquidatible-IsCovered_example :
    (500 ≤ 500) × (490 ≤ 1000) × (equal (native_token "cdt") (native_token "cdt") ≡ true)
unfolding to_string query_liquidatible equal quote_slots quote_slot to_decimal256
    Decimal256.from_str Decimal256.sub Decimal256.mul quote_amounts get_value Decimal256.from_ratio
    Uint256.from_u128 get_amount Decimal256.div Uint256.mul_decimal Uint256.multiply_ratio
    Uint256.sub Uint256.add
query_liquidatible-IsCovered_example =
    query_liquidatible-IsCovered store osmo unit_price 1000 (native_token "cdt") unit_price queue
      quoted refl queue-IsCounted refl

abbrev amount_list : List SlotResponse → List ℕ
amount_list = map (λ r. r.total_bid_amount)

abbrev id_list : List BidResponse → List ℕ
id_list = map (λ r. r.id)

-- A queue's slots, from the second one on.
slots_after_one :
    (query_premium_slots store osmo (some 1) none >>= λ slots. ok (amount_list slots))
    ≡ ok (500 ∷ [])
unfolding query_premium_slots load_queue to_string Decimal256.from_uint256 Uint256.from_u128
    Decimal256.mul
slots_after_one = refl

-- The active bid is whole; the waiting one is as it was submitted.
active_bid_query : (query_bid store osmo 1 >>= λ r. ok r.amount) ≡ ok 500
unfolding query_bid load_queue to_string read_bid read_bid_from read_premium_slot Decimal256.percent
    calculate_remaining_bid remaining_bid_dec compounded to_integer Decimal256.from_uint256
    Decimal256.mul Decimal256.div Decimal256.sub Uint256.mul_decimal Uint256.multiply_ratio
    calculate_liquidated_collateral read_epoch_scale_sum Uint256.add
active_bid_query = refl

waiting_bid_query : (query_bid store osmo 2 >>= λ r. ok r.amount) ≡ ok 300
unfolding query_bid load_queue to_string read_bid read_bid_from read_premium_slot Decimal256.percent
    calculate_remaining_bid remaining_bid_dec compounded to_integer Decimal256.from_uint256
    Decimal256.mul Decimal256.div Decimal256.sub Uint256.mul_decimal Uint256.multiply_ratio
    calculate_liquidated_collateral read_epoch_scale_sum Uint256.add
waiting_bid_query = refl

user_query :
    (query_bids_by_user store osmo "alice" none none >>= λ rs. ok (id_list rs)) ≡ ok (1 ∷ [])
unfolding query_bid load_queue to_string read_bid read_bid_from read_premium_slot Decimal256.percent
    calculate_remaining_bid remaining_bid_dec compounded to_integer Decimal256.from_uint256
    Decimal256.mul Decimal256.div Decimal256.sub Uint256.mul_decimal Uint256.multiply_ratio
    calculate_liquidated_collateral read_epoch_scale_sum Uint256.add query_bids_by_user
    read_bids_by_user
user_query = refl

abbrev listed : Store
listed = record store { config = some (record config { added_assets = some (osmo ∷ []) }) }

queues_query :
    (query_queues listed none none >>= λ qs. ok (map (λ q. q.max_premium) qs)) ≡ ok (2 ∷ [])
unfolding query_queues load_config load_queue to_string
queues_query = refl

premium_query : (query_premium_slot store osmo 2 >>= λ s. ok s.total_bid_amount) ≡ ok 500
unfolding query_premium_slot load_queue to_string Decimal256.percent
premium_query = refl

claims_query :
    (query_user_claims listed "alice" >>= λ cs. ok (map (λ c. c.pending_liquidated_collateral) cs))
    ≡ ok (0 ∷ [])
unfolding query_user_claims load_config query_bid load_queue to_string read_bid read_bid_from
    read_premium_slot Decimal256.percent calculate_remaining_bid remaining_bid_dec compounded
    to_integer Decimal256.from_uint256 Decimal256.mul Decimal256.div Decimal256.sub
    Uint256.mul_decimal Uint256.multiply_ratio calculate_liquidated_collateral read_epoch_scale_sum
    Uint256.add query_bids_by_user read_bids_by_user
claims_query = refl
