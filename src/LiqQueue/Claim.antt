-- ===== src/LiqQueue/Claim.antt =====
-- `claim_liquidations` of contracts/liq-queue/src/bid.rs.
pub mod Unique
use membrane_core.Prelude.{
  ℕ, Bool, true, false, Option, some, none, List, [], ◌∷◌, ◌++◌, String, str_eq, not, ltb, leb,
  ◌==◌, if◌then◌else◌,
}
use membrane_core.Crates.{Crates}
use membrane_core.Result.{Result, ok, custom_error, unauthorized, ◌>>=◌, ◌>>◌, reject_if}
use membrane_core.Asset.{Addr, AssetInfo, to_string}
use membrane_core.Math.Decimal256
use membrane_core.Math.Uint256
use membrane_core.Math.Uint256.{Uint256, to_u128}
use membrane_core.LiqQueue.Types.{Bid, Queue}
use membrane_core.LiqQueue.State.{
  Store, Env, MessageInfo, Response, CosmosMsg, text, number, load_queue, save_queue,
}
use membrane_core.LiqQueue.Slots.{
  read_premium_slot, store_premium_slot, remove_bid, store_bid, read_bid, read_bids_by_user,
}
use membrane_core.LiqQueue.Shares.{
  calculate_remaining_bid, calculate_liquidated_collateral, claim_col_residue,
}
use membrane_core.LiqQueue.Retract.{withdrawal_msg}

abbrev pub contains : ℕ → List ℕ → Bool
contains a [] = false
contains a (b ∷ bs) = if a == b then true else contains a bs

-- The loop that refuses a repeated id.
unfoldable pub assert_unique : List ℕ → List ℕ → Result (Unit {0})
assert_unique seen [] = ok tt
assert_unique seen (id ∷ ids) =
    reject_if (contains id seen) (custom_error "Duplicate bid ids")
    >> assert_unique (seen ++ id ∷ []) ids

-- `bid.wait_end` lies after the block's time.
unfoldable pub is_waiting : Bid → ℕ → Bool
is_waiting bid now = elim bid.wait_end [ none ↦ false | some wait_end ↦ ltb now wait_end ]

-- The variables of the loop.
pub record Claims : Type 0 where
  pub queue : Queue
  pub amount : Uint256

module _ ⦃x : Crates⦄ where
  read_bids : List ℕ → Queue → Result (List Bid)
  read_bids [] queue = ok []
  read_bids (id ∷ ids) queue = do
    bid ← read_bid id queue
    bids ← read_bids ids queue
    ok (bid ∷ bids)

  -- The bids of these ids, or the sender's active bids.
  unfoldable pub bids_to_claim : Option (List ℕ) → Queue → Addr → Result (List Bid)
  unfolding read_bids
  bids_to_claim none queue user = ok (read_bids_by_user queue user none none)
  bids_to_claim (some bid_ids) queue user = assert_unique [] bid_ids >> read_bids bid_ids queue

  -- The bid's share is claimed, and the bid is written back with what is left of it.
  unfoldable pub claim_share : Store → String → Bid → Claims → Result Claims
  claim_share store bid_for bid c = do
    slot ← read_premium_slot c.queue bid.liq_premium
    (remaining_bid, residue_bid) ← calculate_remaining_bid bid slot
    (liquidated, residue_collateral) ← calculate_liquidated_collateral store bid bid_for
    collateral_residues ← Decimal256.add slot.residue_collateral residue_collateral
    bid_residues ← Decimal256.add slot.residue_bid residue_bid
    (residue, paid) ←
        claim_col_residue
          (record slot { residue_collateral = collateral_residues; residue_bid = bid_residues })
    earned ← Uint256.add bid.pending_liquidated_collateral liquidated
    share ← Uint256.add earned residue
    amount ← Uint256.add c.amount share
    let stored = store_premium_slot c.queue paid
    queue ←
        (if leb remaining_bid 1
          then remove_bid bid stored
          else store_bid stored (record bid {
            amount = remaining_bid;
            product_snapshot = paid.product_snapshot;
            sum_snapshot = paid.sum_snapshot;
            scale_snapshot = paid.current_scale;
            pending_liquidated_collateral = 0;
          }))
    ok (record { queue = queue; amount = amount })

  -- One round of the loop.
  unfoldable pub claim_bid : Store → String → Addr → ℕ → Bid → Claims → Result Claims
  claim_bid store bid_for sender now bid c = do
    reject_if (not (str_eq bid.user sender)) unauthorized
    if is_waiting bid now then ok c else claim_share store bid_for bid c

  unfoldable pub claim_bids : Store → String → Addr → ℕ → List Bid → Claims → Result Claims
  claim_bids store bid_for sender now [] c = ok c
  claim_bids store bid_for sender now (bid ∷ bids) c = do
    c' ← claim_bid store bid_for sender now bid c
    claim_bids store bid_for sender now bids c'

  claim_messages : AssetInfo → Uint256 → Addr → Result (List CosmosMsg)
  claim_messages bid_for amount recipient = if amount == 0 then ok [] else (do
    c_amount ← to_u128 amount
    msg ← withdrawal_msg bid_for c_amount recipient
    ok (msg ∷ []))

  unfoldable pub claim_liquidations :
      Store → Env → MessageInfo → AssetInfo → Option (List ℕ) → Result (Store × Response)
  unfolding claim_messages
  claim_liquidations store env info bid_for bid_ids = do
    let key = to_string bid_for
    queue ← load_queue store key
    bids ← bids_to_claim bid_ids queue info.sender
    done ←
        claim_bids store key info.sender (x.seconds env.time) bids
          (record { queue = queue; amount = 0 })
    messages ← claim_messages bid_for done.amount info.sender
    ok (
      save_queue store key done.queue,
      record {
        messages = messages;
        attributes =
            ("action", text "claim_liquidations")
            ∷ ("collateral_token", text key)
            ∷ ("collateral_amount", number done.amount)
            ∷ [];
      },
    )
