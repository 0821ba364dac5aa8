-- ===== src/LiqQueue/Retract/Totals.antt =====
-- `remove_bid`, `store_bid` and the payment of `retract_bid` of contracts/liq-queue/src/bid.rs, as
-- far as the books of the queue go.
use membrane_core.Prelude.{
  ℕ, ◌⊎◌, inl, inr, ap, sym, some-inj, Bool-cases, ◌+◌, ◌^◌, ◌<◌, ◌≡◌, refl, ◌∙◌, subst, Bool, true,
  false, some, List, [], ◌∷◌, arith, ◌==◌, if◌then◌else◌, find?,
}
use membrane_core.Crates.{Crates}
use membrane_core.Result.{
  ok, invalid_premium, ◌>>=◌, >>=-eq-ok, ok-injective, must, must-eq-ok, or_err, or_err-eq-ok,
}
use membrane_core.Asset.{Addr, AssetInfo}
use membrane_core.Math.Uint256.{to_u128, to_u128-eq-ok}
use membrane_core.LiqQueue.Types.{Bid, PremiumSlot, Queue}
use membrane_core.LiqQueue.State.{CosmosMsg}
use membrane_core.LiqQueue.Slots.{
  has_premium, drop_bid, put_bid, replace_slot, slot_premium, remove_bid, store_bid,
}
use membrane_core.LiqQueue.Slots.Lookup.{
  HasDistinct, find?-premium, find?-replace_slot, replace_slot-HasDistinct, sum_by-replace_slot,
}
use membrane_core.LiqQueue.Counted.{slot_total, slots_total}
use membrane_core.LiqQueue.Retract.{Refund, take_from_queue, pay_refund, withdrawal_msg}

-- Only the bids of the slots may differ: the deposited total and the slots' totals are the same.
pub record HasTotalsOf (before after : Queue) : Type 0 where
  pub bid_asset : after.bid_asset ≡ before.bid_asset
  pub slots : slots_total after.slots ≡ slots_total before.slots
  pub distinct : HasDistinct after.slots

-- Every slot of the one queue stands in the other too, with the residue of bids that it had.
abbrev pub KeepsResidues : Queue → Queue → Type 0
KeepsResidues before after =
    (p : ℕ) (slot : PremiumSlot)
    → find? (has_premium p) before.slots ≡ some slot
    → (slot' : PremiumSlot) × (find? (has_premium p) after.slots ≡ some slot')
      × (slot'.residue_bid ≡ slot.residue_bid)

-- A slot's bids are rewritten, and nothing else.
pub record IsRewritten (before after : Queue) : Type 0 where
  pub totals : HasTotalsOf before after
  pub residues : KeepsResidues before after

-- A slot is replaced by one of the same total.
pub replace-HasTotalsOf :
    (queue : Queue) (p : ℕ) (old slot : PremiumSlot)
    → HasDistinct queue.slots
    → find? (has_premium p) queue.slots ≡ some old
    → slot.total_bid_amount ≡ old.total_bid_amount
    → slot.liq_premium ≡ p
    → HasTotalsOf queue (record queue { slots = replace_slot p slot queue.slots })
replace-HasTotalsOf queue p old slot h found same premium = record {
  bid_asset = refl;
  slots = omega (arith, sum_by-replace_slot slot_total p old slot queue.slots h found, same);
  distinct = replace_slot-HasDistinct p slot queue.slots premium h;
}

replace-KeepsResidues :
    (queue : Queue) (p : ℕ) (old slot : PremiumSlot)
    → find? (has_premium p) queue.slots ≡ some old
    → slot.residue_bid ≡ old.residue_bid
    → slot.liq_premium ≡ p
    → KeepsResidues queue (record queue { slots = replace_slot p slot queue.slots })
replace-KeepsResidues queue p old slot found same premium q at_q found_q =
    elim (Bool-cases (p == q)) [
      | inl e ↦ (
        slot,
        rw (find?-replace_slot p q slot queue.slots premium) (rw e refl),
        same ∙ ap (λ s. s.residue_bid) (some-inj (sym found ∙ moved e found_q)),
      )
      | inr e ↦ (at_q, rw (find?-replace_slot p q slot queue.slots premium) (rw e found_q), refl)
    ]
  where
    moved :
        (p == q) ≡ true
        → find? (has_premium q) queue.slots ≡ some at_q
        → find? (has_premium p) queue.slots ≡ some at_q
    moved e h =
        let same_premium : q ≡ p = ground arith in
        subst (λ n. find? (has_premium n) queue.slots ≡ some at_q) same_premium h

replace-IsRewritten :
    (queue : Queue) (p : ℕ) (old slot : PremiumSlot)
    → HasDistinct queue.slots
    → find? (has_premium p) queue.slots ≡ some old
    → (slot.total_bid_amount ≡ old.total_bid_amount)
      × (slot.liq_premium ≡ old.liq_premium)
      × (slot.residue_bid ≡ old.residue_bid)
    → IsRewritten queue (record queue { slots = replace_slot p slot queue.slots })
replace-IsRewritten queue p old slot h found (total, premium, residue) =
    let at_p = premium ∙ find?-premium p queue.slots old found in
    record {
      totals = replace-HasTotalsOf queue p old slot h found total at_p;
      residues = replace-KeepsResidues queue p old slot found residue at_p;
    }

put_bid_total :
    (bid : Bid) (slot : PremiumSlot)
    → ((put_bid bid slot).total_bid_amount ≡ slot.total_bid_amount)
      × ((put_bid bid slot).liq_premium ≡ slot.liq_premium)
      × ((put_bid bid slot).residue_bid ≡ slot.residue_bid)
unfolding put_bid
put_bid_total bid slot = (ground arith, ground arith, ground arith)

drop_bid_total :
    (id : ℕ) (slot : PremiumSlot)
    → ((drop_bid id slot).total_bid_amount ≡ slot.total_bid_amount)
      × ((drop_bid id slot).liq_premium ≡ slot.liq_premium)
      × ((drop_bid id slot).residue_bid ≡ slot.residue_bid)
unfolding drop_bid
drop_bid_total id slot = (refl, refl, refl)

module _ ⦃x : Crates⦄ where
  pub remove_bid-IsRewritten :
      (bid : Bid) (queue queue' : Queue)
      → HasDistinct queue.slots
      → remove_bid bid queue ≡ ok queue'
      → IsRewritten queue queue'
  unfolding remove_bid
  remove_bid-IsRewritten bid queue queue' h e =
      let (p, _, e₁) = >>=-eq-ok (slot_premium bid.liq_premium) _ e in
      let (slot, es, e₂) =
        >>=-eq-ok (or_err (find? (has_premium p) queue.slots) invalid_premium) _ e₁ in
      let found = or_err-eq-ok (find? (has_premium p) queue.slots) invalid_premium es in
      subst (IsRewritten queue) (ok-injective e₂) (
        replace-IsRewritten queue p slot (drop_bid bid.id slot) h found
          (drop_bid_total bid.id slot))

  pub store_bid-IsRewritten :
      (queue queue' : Queue) (bid : Bid)
      → HasDistinct queue.slots
      → store_bid queue bid ≡ ok queue'
      → IsRewritten queue queue'
  unfolding store_bid
  store_bid-IsRewritten queue queue' bid h e =
      let (p, _, e₁) = >>=-eq-ok (slot_premium bid.liq_premium) _ e in
      let (slot, es, e₂) =
        >>=-eq-ok (or_err (find? (has_premium p) queue.slots) invalid_premium) _ e₁ in
      let found = or_err-eq-ok (find? (has_premium p) queue.slots) invalid_premium es in
      subst (IsRewritten queue) (ok-injective e₂)
        (replace-IsRewritten queue p slot (put_bid bid slot) h found (put_bid_total bid slot))

  -- Nothing is sent where there is nothing to refund; otherwise one message sends all of it.
  abbrev pub IsSent : AssetInfo → ℕ → Addr → List CosmosMsg → Type 0
  IsSent info amount recipient msgs =
      ((amount ≡ 0) × (msgs ≡ []))
      ⊎ ((msg : CosmosMsg) × (withdrawal_msg info amount recipient ≡ ok msg) × (msgs ≡ msg ∷ []))

  -- What is paid out leaves the queue's total, and nothing else.
  abbrev pub IsPaid : Refund → Addr → Queue × List CosmosMsg → Type 0
  IsPaid refund recipient (queue, msgs) =
      (queue.bid_asset.amount + refund.amount ≡ refund.queue.bid_asset.amount)
      × (queue.slots ≡ refund.queue.slots)
      × IsSent refund.queue.bid_asset.info refund.amount recipient msgs

  take_from_queue-eq-ok :
      (before queue : Queue) (w_amount amount : ℕ)
      → w_amount ≡ amount
      → take_from_queue before w_amount ≡ ok queue
      → (queue.bid_asset.amount + amount ≡ before.bid_asset.amount)
        × (queue.slots ≡ before.slots)
        × (queue.bid_asset.info ≡ before.bid_asset.info)
  unfolding take_from_queue
  take_from_queue-eq-ok before queue w_amount amount same e =
      let sub = x.u128_sub before.bid_asset.amount w_amount in
      let (total, et, e₁) = >>=-eq-ok (must sub) _ e in
      ground (arith, must-eq-ok sub et, x.u128_sub_lem before.bid_asset.amount w_amount)

  payment-IsPaid :
      (refund : Refund) (recipient : Addr) (r : Queue × List CosmosMsg) (empty : Bool)
      → (empty ≡ true → refund.amount ≡ 0)
      → refund.amount < 2 ^ 256
      → (if empty then ok (refund.queue, []) else (do
        w_amount ← to_u128 refund.amount
        queue ← take_from_queue refund.queue w_amount
        msg ← withdrawal_msg queue.bid_asset.info w_amount recipient
        ok (queue, msg ∷ [])))
        ≡ ok r
      → IsPaid refund recipient r
  payment-IsPaid refund recipient r true z word h =
      subst (IsPaid refund recipient) (ok-injective h)
        (omega (arith, z refl), refl, inl (z refl, refl))
  payment-IsPaid refund recipient r false z word h =
      let (w_amount, ew, h₁) = >>=-eq-ok (to_u128 refund.amount) _ h in
      let (queue, eq, h₂) = >>=-eq-ok (take_from_queue refund.queue w_amount) _ h₁ in
      let (msg, em, h₃) = >>=-eq-ok (withdrawal_msg queue.bid_asset.info w_amount recipient) _ h₂ in
      let same = (to_u128-eq-ok refund.amount w_amount word ew).0 in
      let (total, slots, info) =
        take_from_queue-eq-ok refund.queue queue w_amount refund.amount same eq in
      let sent : withdrawal_msg refund.queue.bid_asset.info refund.amount recipient ≡ ok msg =
        ap (λ i. withdrawal_msg i refund.amount recipient) (sym info)
        ∙ ap (λ n. withdrawal_msg queue.bid_asset.info n recipient) (sym same)
        ∙ em in
      subst (IsPaid refund recipient) (ok-injective h₃) (total, slots, inr (msg, sent, refl))

  pub pay_refund-IsPaid :
      (refund : Refund) (recipient : Addr) (r : Queue × List CosmosMsg)
      → refund.amount < 2 ^ 256
      → pay_refund refund recipient ≡ ok r
      → IsPaid refund recipient r
  unfolding pay_refund
  pay_refund-IsPaid refund recipient r word h =
      payment-IsPaid refund recipient r (refund.amount == 0) (λ t. ground arith) word h
