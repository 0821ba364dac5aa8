-- ===== src/LiqQueue/Retract/Active.antt =====
-- `retract_bid` of contracts/liq-queue/src/bid.rs on an active bid.
use membrane_core.Prelude.{
  ℕ, ◌+◌, ◌/◌, ◌%◌, ◌^◌, ◌<◌, ◌≡◌, refl, ap, sym, ◌∙◌, subst, Bool, true, false, Option, some, List,
  String, arith, ◌==◌, ◌&&◌, if◌then◌else◌, find?,
}
use membrane_core.Crates.{Crates}
use membrane_core.Result.{Result, ok, generic_err, ◌>>=◌, >>=-eq-ok, ok-injective, or_err-eq-ok}
use membrane_core.Asset.{Addr}
use membrane_core.Math.Decimal256
use membrane_core.Math.Decimal256.{Decimal256, fractional}
use membrane_core.Math.Uint256
use membrane_core.Math.Uint256.{Uint256, from_u128}
use membrane_core.LiqQueue.Types.{Bid, PremiumSlot, Queue}
use membrane_core.LiqQueue.State.{Store, CosmosMsg}
use membrane_core.LiqQueue.Slots.{
  has_premium, is_some, read_premium_slot, store_premium_slot, remove_bid, store_bid,
}
use membrane_core.LiqQueue.Slots.Lookup.{
  HasDistinct, find?-premium, find?-replace_slot, sum_by-replace_slot,
}
use membrane_core.LiqQueue.Shares.{
  calculate_remaining_bid, calculate_liquidated_collateral, claim_bid_residue,
  assert_withdraw_amount,
}
use membrane_core.LiqQueue.Shares.Residues.{claim_bid_residue_lem}
use membrane_core.LiqQueue.Counted.{slot_total, slots_total, IsCounted, read_premium_slot-eq-ok}
use membrane_core.LiqQueue.Retract.{
  Refund, deduct_withdrawal, update_active, withdraw_active, retract_active, retract_waiting,
  refund_bid, pay_refund,
}
use membrane_core.LiqQueue.Retract.Totals.{
  HasTotalsOf, IsRewritten, replace-HasTotalsOf, remove_bid-IsRewritten, store_bid-IsRewritten,
  IsSent, pay_refund-IsPaid,
}

-- A refund of what was withdrawn and of the whole part of a residue: the slots lost what was
-- withdrawn.
abbrev IsWithdrawn : Queue → ℕ → ℕ → Refund → Type 0
IsWithdrawn queue withdrawn residue refund =
    (refund.amount ≡ withdrawn + residue / fractional)
    × (slots_total refund.queue.slots + withdrawn ≡ slots_total queue.slots)
    × (refund.queue.bid_asset ≡ queue.bid_asset)

HasTotalsOf-IsWithdrawn :
    (queue queue' : Queue) (withdrawn residue : ℕ) (refund : Refund)
    → HasTotalsOf queue queue'
    → IsWithdrawn queue' withdrawn residue refund
    → IsWithdrawn queue withdrawn residue refund
HasTotalsOf-IsWithdrawn queue queue' withdrawn residue refund h (all, slots, asset) =
    (all, slots ∙ h.slots, asset ∙ h.bid_asset)

module _ ⦃x : Crates⦄ where
  -- What a retraction of an active bid did: `remaining` is what is left of the bid, `fraction` the
  -- part of a unit that its compounding adds to the slot's residue.
  pub record IsRetracted (queue queue' : Queue) (bid : Bid) (amount : Option Uint256)
      (minimum_bid : ℕ) (refund : Refund) (recipient : Addr) (msgs : List CosmosMsg) : Type 0 where
    pub slot : PremiumSlot
    pub remaining : ℕ
    pub fraction : ℕ
    pub withdrawn : ℕ
    pub residue : ℕ
    pub read : read_premium_slot queue bid.liq_premium ≡ ok slot
    pub left : calculate_remaining_bid bid slot ≡ ok (remaining, fraction)
    pub accepted : assert_withdraw_amount amount remaining (from_u128 minimum_bid) ≡ ok withdrawn
    pub whole : residue ≡ (slot.residue_bid + fraction) / fractional
    pub refunded : refund.amount ≡ withdrawn + residue
    pub slots : slots_total queue'.slots + withdrawn ≡ slots_total queue.slots
    pub short : slots_total queue'.slots ≡ queue'.bid_asset.amount + residue
    pub sent : IsSent queue.bid_asset.info refund.amount recipient msgs

  -- A slot found in another queue under the same premium is read there.
  read_found_slot :
      (queue queue' : Queue) (premium : ℕ) (slot slot' : PremiumSlot)
      → read_premium_slot queue premium ≡ ok slot
      → find? (has_premium slot.liq_premium) queue'.slots ≡ some slot'
      → read_premium_slot queue' premium ≡ ok slot'
  unfolding read_premium_slot
  read_found_slot queue queue' premium slot slot' h found =
      let (p, ep, h₁) = >>=-eq-ok (Decimal256.percent premium) _ h in
      let first =
        or_err-eq-ok (find? (has_premium p) queue.slots) (generic_err "Invalid premium") h₁ in
      let at_p : find? (has_premium p) queue'.slots ≡ some slot' =
        subst (λ q. find? (has_premium q) queue'.slots ≡ some slot')
          (find?-premium p queue.slots slot first) found in
      rw ep (rw at_p refl)

  deduct_withdrawal-IsWithdrawn :
      (queue : Queue) (bid : Bid) (slot : PremiumSlot) (withdrawn : ℕ) (refund : Refund)
      → HasDistinct queue.slots
      → read_premium_slot queue bid.liq_premium ≡ ok slot
      → slot.residue_bid < 2 ^ 256
      → deduct_withdrawal queue bid withdrawn ≡ ok refund
      → IsWithdrawn queue withdrawn slot.residue_bid refund
  unfolding deduct_withdrawal store_premium_slot
  deduct_withdrawal-IsWithdrawn queue bid slot withdrawn refund h read fits e =
      let (total, et, e₁) = >>=-eq-ok (Uint256.sub slot.total_bid_amount withdrawn) (deduct slot) (
        sym (ap (λ r. r >>= λ t. Uint256.sub t.total_bid_amount withdrawn >>= deduct t) read)
        ∙ e) in
      let less = record slot { total_bid_amount = total } in
      let paid = record less { residue_bid = slot.residue_bid % fractional } in
      let (amount, ea, e₂) =
        >>=-eq-ok (Uint256.add withdrawn (slot.residue_bid / fractional))
          (λ amount. ok (record { queue = store_premium_slot queue paid; amount = amount }))
          (sym (ap (λ r. r >>= pay_out) (claim_bid_residue_lem less fits)) ∙ e₁) in
      subst (IsWithdrawn queue withdrawn slot.residue_bid) (ok-injective e₂) (
        (Uint256.add-eq-ok withdrawn (slot.residue_bid / fractional) amount ea).0,
        omega (
          arith,
          sum_by-replace_slot slot_total slot.liq_premium slot paid queue.slots h
              (read_premium_slot-eq-ok queue bid.liq_premium slot read),
          Uint256.sub-eq-ok slot.total_bid_amount withdrawn total et,
        ),
        refl,
      )
    where
      pay_out : Uint256 × PremiumSlot → Result Refund
      pay_out (residue, paid) = Uint256.add withdrawn residue >>= λ amount.
          ok (record { queue = store_premium_slot queue paid; amount = amount })

      deduct : PremiumSlot → Uint256 → Result Refund
      deduct t total = claim_bid_residue (record t { total_bid_amount = total }) >>= pay_out

  updated-IsRewritten :
      (queue queue' : Queue) (slot : PremiumSlot) (bid : Bid) (withdrawable withdrawn : ℕ)
      (all : Bool)
      → HasDistinct queue.slots
      → (if all then remove_bid bid queue else (do
        left ← Uint256.sub withdrawable withdrawn
        store_bid queue (record bid {
          amount = left;
          product_snapshot = slot.product_snapshot;
          sum_snapshot = slot.sum_snapshot;
          scale_snapshot = slot.current_scale;
        })))
        ≡ ok queue'
      → IsRewritten queue queue'
  updated-IsRewritten queue queue' slot bid withdrawable withdrawn true h e =
      remove_bid-IsRewritten bid queue queue' h e
  updated-IsRewritten queue queue' slot bid withdrawable withdrawn false h e =
      let (left, _, e₁) = >>=-eq-ok (Uint256.sub withdrawable withdrawn) _ e in
      store_bid-IsRewritten queue queue' _ h e₁

  update_active-IsRewritten :
      (queue queue' : Queue) (slot : PremiumSlot) (bid : Bid) (withdrawable withdrawn : ℕ)
      → HasDistinct queue.slots
      → update_active queue slot bid withdrawable withdrawn ≡ ok queue'
      → IsRewritten queue queue'
  unfolding update_active
  update_active-IsRewritten queue queue' slot bid withdrawable withdrawn h e =
      updated-IsRewritten queue queue' slot bid withdrawable withdrawn
        (withdrawn == bid.amount && (bid.pending_liquidated_collateral == 0)) h e

  withdraw_active-IsWithdrawn :
      (queue : Queue) (old stacked : PremiumSlot) (bid : Bid) (withdrawable : ℕ)
      (amount : Option Uint256) (minimum_bid : ℕ) (refund : Refund)
      → HasDistinct queue.slots
      → read_premium_slot queue bid.liq_premium ≡ ok old
      → stacked.liq_premium ≡ old.liq_premium
      → stacked.total_bid_amount ≡ old.total_bid_amount
      → stacked.residue_bid < 2 ^ 256
      → withdraw_active queue stacked bid withdrawable amount minimum_bid ≡ ok refund
      → (withdrawn : ℕ) × (assert_withdraw_amount amount withdrawable (from_u128 minimum_bid)
          ≡ ok withdrawn)
        × IsWithdrawn queue withdrawn stacked.residue_bid refund
  unfolding withdraw_active store_premium_slot
  withdraw_active-IsWithdrawn queue old stacked bid withdrawable amount minimum_bid refund h read
        premium same fits e =
      let p = stacked.liq_premium in
      let stored = store_premium_slot queue stacked in
      let at_old = read_premium_slot-eq-ok queue bid.liq_premium old read in
      let found : find? (has_premium p) queue.slots ≡ some old =
        subst (λ q. find? (has_premium q) queue.slots ≡ some old) (sym premium) at_old in
      let first = replace-HasTotalsOf queue p old stacked h found same refl in
      let (withdrawn, accepted, e₁) =
        >>=-eq-ok (assert_withdraw_amount amount withdrawable (from_u128 minimum_bid)) _ e in
      let (queue', eq, e₂) =
        >>=-eq-ok (update_active stored stacked bid withdrawable withdrawn) _ e₁ in
      let second =
        update_active-IsRewritten stored queue' stacked bid withdrawable withdrawn first.distinct
          eq in
      let at_stored : find? (has_premium p) stored.slots ≡ some stacked =
        rw (find?-replace_slot p p stacked queue.slots refl) (itself p) in
      let (slot, at_slot, kept) = second.residues p stacked at_stored in
      let at_premium : find? (has_premium old.liq_premium) queue'.slots ≡ some slot =
        subst (λ q. find? (has_premium q) queue'.slots ≡ some slot) premium at_slot in
      let paid =
        deduct_withdrawal-IsWithdrawn queue' bid slot withdrawn refund second.totals.distinct
          (read_found_slot queue queue' bid.liq_premium old slot read at_premium)
          (subst (λ n. n < 2 ^ 256) (sym kept) fits) e₂ in
      (
        withdrawn,
        accepted,
        HasTotalsOf-IsWithdrawn queue stored withdrawn stacked.residue_bid refund first (
            HasTotalsOf-IsWithdrawn stored queue' withdrawn stacked.residue_bid refund second.totals
              (subst (λ n. IsWithdrawn queue' withdrawn n refund) kept paid)),
      )
    where
      itself :
          (n : ℕ)
          → (if n == n then some stacked else find? (has_premium n) queue.slots) ≡ some stacked
      itself n = ground arith

  -- How an active bid is withdrawn from, with what is left of it.
  abbrev WithdrawsFrom : Queue → PremiumSlot → Bid → Option Uint256 → ℕ → Refund → Type 0
  WithdrawsFrom queue slot bid amount minimum_bid refund =
      (left : Uint256 × Decimal256) × (withdrawn : ℕ) × (calculate_remaining_bid bid slot ≡ ok left)
      × (assert_withdraw_amount amount left.0 (from_u128 minimum_bid) ≡ ok withdrawn)
      × IsWithdrawn queue withdrawn (slot.residue_bid + left.1) refund

  retract_active-WithdrawsFrom :
      (store : Store) (queue : Queue) (slot : PremiumSlot) (bid : Bid) (bid_for : String)
      (amount : Option Uint256) (minimum_bid : ℕ) (refund : Refund)
      → HasDistinct queue.slots
      → read_premium_slot queue bid.liq_premium ≡ ok slot
      → retract_active store queue slot bid bid_for amount minimum_bid ≡ ok refund
      → WithdrawsFrom queue slot bid amount minimum_bid refund
  unfolding retract_active
  retract_active-WithdrawsFrom store queue slot bid bid_for amount minimum_bid refund h read e =
      let (left, el, e₁) = >>=-eq-ok (calculate_remaining_bid bid slot) _ e in
      let (earned, _, e₂) = >>=-eq-ok (calculate_liquidated_collateral store bid bid_for) _ e₁ in
      let (pending, _, e₃) =
        >>=-eq-ok (Uint256.add bid.pending_liquidated_collateral earned.0) _ e₂ in
      let (collaterals, _, e₄) = >>=-eq-ok (Decimal256.add slot.residue_collateral earned.1) _ e₃ in
      let (bids, eb, e₅) = >>=-eq-ok (Decimal256.add slot.residue_bid left.1) _ e₄ in
      let (sum, fits) = Decimal256.add-eq-ok slot.residue_bid left.1 bids eb in
      let (withdrawn, accepted, paid) =
        withdraw_active-IsWithdrawn queue slot
          (record slot { residue_collateral = collaterals; residue_bid = bids })
          (record bid { pending_liquidated_collateral = pending }) left.0 amount minimum_bid refund
          h read refl refl (omega (arith, sum, fits)) e₅ in
      (left, withdrawn, el, accepted, subst (λ n. IsWithdrawn queue withdrawn n refund) sum paid)

  active-WithdrawsFrom :
      (store : Store) (queue : Queue) (slot : PremiumSlot) (bid : Bid) (bid_for : String)
      (amount : Option Uint256) (minimum_bid : ℕ) (refund : Refund) (waits : Bool)
      → waits ≡ false
      → HasDistinct queue.slots
      → read_premium_slot queue bid.liq_premium ≡ ok slot
      → (if waits
          then retract_waiting queue bid amount minimum_bid
          else retract_active store queue slot bid bid_for amount minimum_bid)
        ≡ ok refund
      → WithdrawsFrom queue slot bid amount minimum_bid refund
  active-WithdrawsFrom store queue slot bid bid_for amount minimum_bid refund true a h read e = cc
  active-WithdrawsFrom store queue slot bid bid_for amount minimum_bid refund false a h read e =
      retract_active-WithdrawsFrom store queue slot bid bid_for amount minimum_bid refund h read e

  -- Retracting an active bid withdraws what assert_withdraw_amount accepts of what is left of it, and
  -- refunds that and the whole part of the slot's residue, the bid's own fraction of a unit included:
  -- one message sends the refund, or none where it is zero. In a queue whose total counts its slots
  -- the slots lose what is withdrawn, and the queue's total loses the residue too: it falls short of
  -- the slots' totals by the residue. The refund fits 256 bits.
  pub pay_refund-active :
      (store : Store) (queue queue' : Queue) (bid : Bid) (bid_for : String)
      (amount : Option Uint256) (minimum_bid : ℕ) (refund : Refund) (recipient : Addr)
      (msgs : List CosmosMsg)
      → IsCounted queue
      → is_some bid.wait_end ≡ false
      → refund.amount < 2 ^ 256
      → refund_bid store queue bid bid_for amount minimum_bid ≡ ok refund
      → pay_refund refund recipient ≡ ok (queue', msgs)
      → IsRetracted queue queue' bid amount minimum_bid refund recipient msgs
  unfolding refund_bid
  pay_refund-active store queue queue' bid bid_for amount minimum_bid refund recipient msgs counted
        active word h paid =
      let (slot, es, h₁) = >>=-eq-ok (read_premium_slot queue bid.liq_premium) _ h in
      let (left, withdrawn, el, accepted, (all, slots, asset)) =
        active-WithdrawsFrom store queue slot bid bid_for amount minimum_bid refund
          (is_some bid.wait_end) active counted.sound.distinct es h₁ in
      let residue = (slot.residue_bid + left.1) / fractional in
      let (total, same, sent) = pay_refund-IsPaid refund recipient (queue', msgs) word paid in
      let moved : slots_total queue'.slots + withdrawn ≡ slots_total queue.slots =
        ap (λ ss. slots_total ss + withdrawn) same ∙ slots in
      let deposited : refund.queue.bid_asset.amount ≡ queue.bid_asset.amount =
        ap (λ a. a.amount) asset in
      record {
        slot = slot;
        remaining = left.0;
        fraction = left.1;
        withdrawn = withdrawn;
        residue = residue;
        read = es;
        left = el;
        accepted = accepted;
        whole = refl;
        refunded = all;
        slots = moved;
        short = omega (arith, moved, total, deposited, counted.counted, all);
        sent = subst (λ a. IsSent a.info refund.amount recipient msgs) asset sent;
      }
