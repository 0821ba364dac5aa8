-- ===== src/LiqQueue/Slots.antt =====
-- Finding and writing back slots and bids of a queue: the helpers of contracts/liq-queue/src/bid.rs
-- below `read_premium_slot`. A slot is written back by taking it out and pushing it at the end.
pub mod Lookup
use membrane_core.Prelude.{
  ℕ, zero, suc, ◌+◌, ◌*◌, ◌%◌, ◌<◌, ◌^◌, ◌≡◌, Bool, true, false, not, Option, some, none, List, [],
  ◌∷◌, ◌++◌, arith, String, str_eq, ltb, ◌==◌, if◌then◌else◌, find?, filter, take, length,
}
use membrane_core.Crates.{Crates}
use membrane_core.Result.{Result, ok, err, panic, generic_err, invalid_premium, ◌>>=◌, or_err}
use membrane_core.Math.Decimal256
use membrane_core.Math.Decimal256.{Decimal256}
use membrane_core.Math.Uint256.{from_u128}
use membrane_core.Asset.{Addr}
use membrane_core.LiqQueue.Types.{Bid, PremiumSlot, Queue}

-- `IntoIterator::extend` and `push`
abbrev pub push {ℓ} : {A : Type ℓ} → List A → A → List A
push xs a = xs ++ a ∷ []

abbrev pub has_premium : Decimal256 → PremiumSlot → Bool
has_premium p slot = slot.liq_premium == p

abbrev pub has_id : ℕ → Bid → Bool
has_id id bid = bid.id == id

abbrev pub is_some {ℓ} : {A : Type ℓ} → Option A → Bool
is_some none = false
is_some (some _) = true

-- All slots but those of the slot's premium, and then the slot.
unfoldable pub replace_slot : Decimal256 → PremiumSlot → List PremiumSlot → List PremiumSlot
replace_slot p slot slots = push (filter (λ s. not (has_premium p s)) slots) slot

unfoldable pub store_premium_slot : Queue → PremiumSlot → Queue
store_premium_slot queue slot = record queue {
  slots = replace_slot slot.liq_premium slot queue.slots;
}

-- The slot without the bid, in both lists.
unfoldable pub drop_bid : ℕ → PremiumSlot → PremiumSlot
drop_bid id slot = record slot {
  bids = filter (λ b. not (has_id id b)) slot.bids;
  waiting_bids = filter (λ b. not (has_id id b)) slot.waiting_bids;
}

-- The slot with the bid in the list that its `wait_end` names, at the end.
unfoldable pub put_bid : Bid → PremiumSlot → PremiumSlot
put_bid bid slot =
    if is_some bid.wait_end
    then record slot {
      waiting_bids = push (filter (λ b. not (has_id bid.id b)) slot.waiting_bids) bid;
    }
    else record slot { bids = push (filter (λ b. not (has_id bid.id b)) slot.bids) bid }

-- `take(limit)` of the user's active bids after `start_after`, over all slots.
user_bids : Addr → ℕ → List PremiumSlot → List Bid
user_bids user start [] = []
user_bids user start (slot ∷ slots) =
    filter (λ b. str_eq b.user user) (filter (λ b. ltb start b.id) slot.bids)
    ++ user_bids user start slots

abbrev get_or {ℓ} : {A : Type ℓ} → Option A → A → A
get_or none a = a
get_or (some b) a = b

-- `MAX_LIMIT`
abbrev pub max_limit : ℕ
max_limit = 32

unfoldable pub read_bids_by_user : Queue → Addr → Option ℕ → Option ℕ → List Bid
unfolding user_bids
read_bids_by_user queue user limit start_after =
    take (get_or limit max_limit) (user_bids user (get_or start_after 0) queue.slots)

module _ ⦃x : Crates⦄ where
  -- The premium of a slot, of a bid's u8: `percent(1) * from_uint256(liq_premium)`. The closures
  -- of the source compute it for each slot; it has a value for every u8.
  unfoldable pub slot_premium : ℕ → Result Decimal256
  slot_premium liq_premium = do
    one_percent ← Decimal256.percent 1
    premium ← Decimal256.from_uint256 (from_u128 liq_premium)
    Decimal256.mul one_percent premium

  unfoldable pub read_premium_slot : Queue → ℕ → Result PremiumSlot
  read_premium_slot queue premium = do
    p ← Decimal256.percent premium
    or_err (find? (has_premium p) queue.slots) (generic_err "Invalid premium")

  -- `remove_bid`
  unfoldable pub remove_bid : Bid → Queue → Result Queue
  remove_bid bid queue = do
    p ← slot_premium bid.liq_premium
    slot ← or_err (find? (has_premium p) queue.slots) invalid_premium
    ok (record queue { slots = replace_slot p (drop_bid bid.id slot) queue.slots })

  -- `store_bid`
  unfoldable pub store_bid : Queue → Bid → Result Queue
  store_bid queue bid = do
    p ← slot_premium bid.liq_premium
    slot ← or_err (find? (has_premium p) queue.slots) invalid_premium
    ok (record queue { slots = replace_slot p (put_bid bid slot) queue.slots })

  -- The loop of `read_bid` over `premium ..`, with the rounds that are left.
  unfoldable pub read_bid_from : ℕ → ℕ → ℕ → Queue → Result Bid
  read_bid_from zero premium bid_id queue = err (generic_err "Bid not found")
  read_bid_from (suc rounds) premium bid_id queue = do
    slot ← read_premium_slot queue premium
    elim (find? (has_id bid_id) slot.bids) [
      | some bid ↦ ok bid
      | none ↦ elim (find? (has_id bid_id) slot.waiting_bids) [
        | some bid ↦ ok bid
        | none ↦ read_bid_from rounds (premium + 1) bid_id queue
      ]
    ]

  -- `max_premium as u8 + 1u8` panics at 255.
  unfoldable pub read_bid : ℕ → Queue → Result Bid
  read_bid bid_id queue =
      if queue.max_premium % 256 == 255
      then panic
      else read_bid_from (queue.max_premium % 256 + 1) 0 bid_id queue

  pub slot_premium_lem : (p : ℕ) → p < 256 → slot_premium p ≡ ok (p * 10_000_000_000_000_000)
  unfolding slot_premium from_u128
  slot_premium_lem p h = rw (Decimal256.percent_lem 1 (omega arith)) (
      ground (
        arith,
        Decimal256.from_uint256_lem (from_u128 p),
        Decimal256.mul_lem 10_000_000_000_000_000 (from_u128 p * 1_000_000_000_000_000_000),
      ))
