-- ===== src/LiqQueue/Retract/Waiting.antt =====
-- `retract_bid` of contracts/liq-queue/src/bid.rs on a bid that waits.
use membrane_core.Prelude.{
  ℕ, ◌+◌, ◌^◌, ◌<◌, ◌≤◌, ◌≡◌, ap, ◌∙◌, subst, Bool, true, false, Option, List, String, arith, ◌==◌,
  if◌then◌else◌,
}
use membrane_core.Crates.{Crates}
use membrane_core.Result.{ok, ◌>>=◌, >>=-eq-ok, ok-injective}
use membrane_core.Asset.{Addr}
use membrane_core.Math.Uint256
use membrane_core.Math.Uint256.{Uint256, from_u128, to_u128, to_u128-eq-ok}
use membrane_core.LiqQueue.Types.{Bid, PremiumSlot, Queue}
use membrane_core.LiqQueue.State.{Store, CosmosMsg}
use membrane_core.LiqQueue.Slots.{is_some, read_premium_slot, remove_bid, store_bid}
use membrane_core.LiqQueue.Shares.{assert_withdraw_amount}
use membrane_core.LiqQueue.Counted.{slots_total, IsCounted}
use membrane_core.LiqQueue.Retract.Totals.{
  HasTotalsOf, remove_bid-IsRewritten, store_bid-IsRewritten, pay_refund-IsPaid,
}
use membrane_core.LiqQueue.Slots.Lookup.{HasDistinct}
use membrane_core.LiqQueue.Retract.{Refund, retract_waiting, retract_active, refund_bid, pay_refund}

module _ ⦃x : Crates⦄ where
  edited-HasTotalsOf :
      (queue queue' : Queue) (bid : Bid) (withdrawn : ℕ) (all : Bool)
      → HasDistinct queue.slots
      → (if all then remove_bid bid queue else (do
        left ← Uint256.sub bid.amount withdrawn
        store_bid queue (record bid { amount = left })))
        ≡ ok queue'
      → HasTotalsOf queue queue'
  edited-HasTotalsOf queue queue' bid withdrawn true h e =
      (remove_bid-IsRewritten bid queue queue' h e).totals
  edited-HasTotalsOf queue queue' bid withdrawn false h e =
      let (left, _, e₁) = >>=-eq-ok (Uint256.sub bid.amount withdrawn) _ e in
      (store_bid-IsRewritten queue queue' (record bid { amount = left }) h e₁).totals

  retract_waiting-HasTotalsOf :
      (queue : Queue) (bid : Bid) (amount : Option Uint256) (minimum_bid : ℕ) (refund : Refund)
      → HasDistinct queue.slots
      → retract_waiting queue bid amount minimum_bid ≡ ok refund
      → HasTotalsOf queue refund.queue
  unfolding retract_waiting
  retract_waiting-HasTotalsOf queue bid amount minimum_bid refund h e =
      let (withdrawn, _, e₁) =
        >>=-eq-ok (assert_withdraw_amount amount bid.amount (from_u128 minimum_bid)) _ e in
      let all = withdrawn == bid.amount in
      let (queue', eq, e₂) =
        >>=-eq-ok
          (if all then remove_bid bid queue else (do
            left ← Uint256.sub bid.amount withdrawn
            store_bid queue (record bid { amount = left })))
          _ e₁ in
      subst (λ r. HasTotalsOf queue r.queue) (ok-injective e₂)
        (edited-HasTotalsOf queue queue' bid withdrawn all h eq)

  waiting-HasTotalsOf :
      (store : Store) (queue : Queue) (bid : Bid) (bid_for : String) (amount : Option Uint256)
      (minimum_bid : ℕ) (refund : Refund) (waits : Bool)
      → waits ≡ true
      → HasDistinct queue.slots
      → (slot : PremiumSlot)
      → (if waits
          then retract_waiting queue bid amount minimum_bid
          else retract_active store queue slot bid bid_for amount minimum_bid)
        ≡ ok refund
      → HasTotalsOf queue refund.queue
  waiting-HasTotalsOf store queue bid bid_for amount minimum_bid refund true t h slot e =
      retract_waiting-HasTotalsOf queue bid amount minimum_bid refund h e
  waiting-HasTotalsOf store queue bid bid_for amount minimum_bid refund false t h slot e = cc

  -- A bid that waits was not counted when it was submitted, but what it withdraws is taken off the
  -- queue's total: in a queue whose total counts its slots, retracting it, with a refund that fits
  -- 256 bits, leaves the slots' totals
  -- as they were, and a total that falls short of them by the refund, which the total had to cover.
  pub pay_refund-waiting :
      (store : Store) (queue queue' : Queue) (bid : Bid) (bid_for : String)
      (amount : Option Uint256) (minimum_bid : ℕ) (refund : Refund) (recipient : Addr)
      (msgs : List CosmosMsg)
      → IsCounted queue
      → is_some bid.wait_end ≡ true
      → refund.amount < 2 ^ 256
      → refund_bid store queue bid bid_for amount minimum_bid ≡ ok refund
      → pay_refund refund recipient ≡ ok (queue', msgs)
      → (slots_total queue'.slots ≡ slots_total queue.slots)
        × (slots_total queue'.slots ≡ queue'.bid_asset.amount + refund.amount)
        × (refund.amount ≤ queue.bid_asset.amount)
  unfolding refund_bid
  pay_refund-waiting store queue queue' bid bid_for amount minimum_bid refund recipient msgs counted
        waits word h paid =
      let (slot, _, h₁) = >>=-eq-ok (read_premium_slot queue bid.liq_premium) _ h in
      let kept =
        waiting-HasTotalsOf store queue bid bid_for amount minimum_bid refund (is_some bid.wait_end)
          waits counted.sound.distinct slot h₁ in
      let (total, slots, _) = pay_refund-IsPaid refund recipient (queue', msgs) word paid in
      let same : slots_total queue'.slots ≡ slots_total queue.slots =
        ap slots_total slots ∙ kept.slots in
      let asset : refund.queue.bid_asset.amount ≡ queue.bid_asset.amount =
        ap (λ a. a.amount) kept.bid_asset in
      (same, omega (arith, same, total, asset, counted.counted), omega (arith, total, asset))
