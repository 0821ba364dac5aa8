-- ===== src/LiqQueue/Liquidate/Spending.antt =====
-- One round of the loop of `execute_liquidation` of contracts/liq-queue/src/bid.rs, and the books.
use membrane_core.Prelude.{
  ℕ, zero, suc, ◌+◌, ◌%◌, ◌^◌, ◌<◌, ◌≤◌, ◌≡◌, refl, sym, subst, Bool, true, false, some, arith,
  ◌==◌, if◌then◌else◌, find?,
}
use membrane_core.Crates.{Crates}
use membrane_core.Result.{Result, ok, err, panic, >>=-eq-ok, ok-injective}
use membrane_core.Price.{to_decimal256}
use membrane_core.Math.Uint256
use membrane_core.LiqQueue.Types.{PremiumSlot, Queue}
use membrane_core.LiqQueue.Slots.{has_premium, read_premium_slot, store_premium_slot}
use membrane_core.LiqQueue.Pool.{PoolLiquidation, execute_pool_liquidation}
use membrane_core.LiqQueue.Pool.Product.{Effect, execute_pool_liquidation-Effect}
use membrane_core.LiqQueue.Activation.{set_slot_total}
use membrane_core.LiqQueue.Activation.Totals.{Totalled, set_slot_total-Totalled}
use membrane_core.LiqQueue.Counted.{
  slots_total, WaitsFit, AreSound, HasWords-of_fit, All-find?, replace_slot-AreSound,
  replace_slot_total, read_premium_slot-eq-ok,
}
use membrane_core.LiqQueue.Liquidate.{
  Liquidation, Progress, spend_slot, visit_slot, liquidate_premium, liquidate_from,
}

-- During the loop the slots hold the queue's total less what was repaid.
pub record IsSound (collateral : ℕ) (p : Progress) : Type 0 where
  pub slots : AreSound p.queue.slots
  pub books : slots_total p.queue.slots + p.repaid ≡ p.queue.bid_asset.amount
  pub left : p.remaining ≤ collateral
  pub fits : p.repaid < 2 ^ 256

-- A slot as it was found and as `set_slot_total` left it, with the queue's total following.
record IsVisited (collateral : ℕ) (old slot : PremiumSlot) (p : Progress) : Type 0 where
  moved : ℕ
  slots : AreSound p.queue.slots
  found : find? (has_premium old.liq_premium) p.queue.slots ≡ some old
  premium : slot.liq_premium ≡ old.liq_premium
  fits : WaitsFit slot
  slot_total : slot.total_bid_amount ≡ old.total_bid_amount + moved
  books : slots_total p.queue.slots + moved + p.repaid ≡ p.queue.bid_asset.amount
  left : p.remaining ≤ collateral

-- Writing the spent slot back keeps the books.
store_spent-IsSound :
    (collateral : ℕ) (old slot : PremiumSlot) (p : Progress) (done : PoolLiquidation)
    (repaid remaining : ℕ)
    → IsVisited collateral old slot p
    → Effect slot p.remaining done
    → repaid ≡ p.repaid + done.amounts.required_stable
    → remaining ≤ collateral
    → p.repaid + done.amounts.required_stable < 2 ^ 256
    → IsSound collateral (record {
      store = done.store;
      queue = store_premium_slot p.queue done.slot;
      remaining = remaining;
      repaid = repaid;
      filled = done.amounts.filled;
    })
unfolding store_premium_slot
store_spent-IsSound collateral old slot p done repaid remaining v effect paid left word =
    let premium : done.slot.liq_premium ≡ old.liq_premium =
      ground (arith, effect.kept, v.premium) in
    let found : find? (has_premium done.slot.liq_premium) p.queue.slots ≡ some old =
      subst (λ q. find? (has_premium q) p.queue.slots ≡ some old) (sym premium) v.found in
    let totals =
      replace_slot_total done.slot.liq_premium old done.slot p.queue.slots
        done.amounts.required_stable v.moved v.slots found
        (omega (arith, effect.spent, v.slot_total)) in
    record {
      slots =
          replace_slot-AreSound done.slot.liq_premium done.slot p.queue.slots v.slots refl
            (ground (arith, effect.kept, v.fits));
      books = omega (arith, totals, v.books, paid);
      left = left;
      fits = omega (arith, word, paid);
    }

module _ ⦃x : Crates⦄ where
  remaining-le :
      (filled : Bool) (before spent after collateral : ℕ)
      → before ≤ collateral
      → (if filled then ok 0 else Uint256.sub before spent) ≡ ok after
      → after ≤ collateral
  remaining-le true before spent after collateral h e = omega (arith, ok-injective e)
  remaining-le false before spent after collateral h e =
      omega (arith, Uint256.sub-eq-ok before spent after e)

  spend_slot-IsSound :
      (collateral : ℕ) (l : Liquidation) (premium : ℕ) (old slot : PremiumSlot) (p p' : Progress)
      → IsVisited collateral old slot p
      → spend_slot l premium slot p ≡ ok p'
      → IsSound collateral p'
  unfolding spend_slot
  spend_slot-IsSound collateral l premium old slot p p' v e =
      let (credit_price, _, e₁) = >>=-eq-ok (to_decimal256 l.credit_price) _ e in
      let (done, ed, e₂) =
        >>=-eq-ok
          (execute_pool_liquidation p.store slot (premium % 256) l.bid_for p.remaining l.price
            credit_price p.filled)
          _ e₁ in
      let spent = done.amounts.required_stable in
      let bought = done.amounts.collateral in
      let (repaid, er, e₃) = >>=-eq-ok (Uint256.add p.repaid spent) _ e₂ in
      let (remaining, em, e₄) =
        >>=-eq-ok (if done.amounts.filled then ok 0 else Uint256.sub p.remaining bought) _ e₃ in
      subst (IsSound collateral) (ok-injective e₄) (
        store_spent-IsSound collateral old slot p done repaid remaining v
          (execute_pool_liquidation-Effect p.store slot (premium % 256) l.bid_for p.remaining
            l.price credit_price p.filled done ed).0
          (Uint256.add-eq-ok p.repaid spent repaid er).0
          (remaining-le done.amounts.filled p.remaining bought remaining collateral v.left em)
          (Uint256.add-eq-ok p.repaid spent repaid er).1)

  -- What `set_slot_total` did to the slot and the queue makes it a visited slot.
  Totalled-IsVisited :
      (collateral now : ℕ) (old : PremiumSlot) (p : Progress) (r : PremiumSlot × Queue)
      → IsSound collateral p
      → find? (has_premium old.liq_premium) p.queue.slots ≡ some old
      → Totalled now old p.queue r
      → IsVisited collateral old r.0 (record p { queue = r.1 })
  Totalled-IsVisited collateral now old p r h found t =
      let same : p.queue.slots ≡ r.1.slots = ground (arith, t.4) in
      let grown : r.1.bid_asset.amount ≡ p.queue.bid_asset.amount + t.0 = ground (arith, t.4) in
      let fits =
        All-find? WaitsFit (has_premium old.liq_premium) p.queue.slots old h.slots.fit found in
      record {
        moved = t.0;
        slots = subst AreSound same h.slots;
        found = subst (λ ss. find? (has_premium old.liq_premium) ss ≡ some old) same found;
        premium = t.5;
        fits = omega (arith, t.3, fits);
        slot_total = t.1;
        books =
            subst (λ ss. slots_total ss + t.0 + p.repaid ≡ r.1.bid_asset.amount) same
              (omega (arith, h.books, grown));
        left = h.left;
      }

  -- A slot whose total is still zero was not changed, and neither was the queue.
  skipped-IsSound :
      (collateral now : ℕ) (old : PremiumSlot) (p : Progress) (r : PremiumSlot × Queue)
      → IsSound collateral p
      → Totalled now old p.queue r
      → r.0.total_bid_amount ≡ 0
      → IsSound collateral (record p { queue = r.1 })
  skipped-IsSound collateral now old p r h t z =
      let idle : t.0 ≡ 0 = omega (arith, t.1) in
      let same : p.queue.slots ≡ r.1.slots = ground (arith, t.4) in
      record {
        slots = subst AreSound same h.slots;
        books =
            subst (λ ss. slots_total ss + p.repaid ≡ r.1.bid_asset.amount) same
              (ground (arith, h.books, t.4, idle));
        left = h.left;
        fits = h.fits;
      }

  visited-IsSound :
      (collateral : ℕ) (l : Liquidation) (premium : ℕ) (old : PremiumSlot) (p p' : Progress)
      (r : PremiumSlot × Queue) (empty : Bool)
      → (empty ≡ true → r.0.total_bid_amount ≡ 0)
      → IsSound collateral p
      → find? (has_premium old.liq_premium) p.queue.slots ≡ some old
      → Totalled (x.seconds l.env.time) old p.queue r
      → (if empty
          then ok (record p { queue = r.1 })
          else spend_slot l premium r.0 (record p { queue = r.1 }))
        ≡ ok p'
      → IsSound collateral p'
  visited-IsSound collateral l premium old p p' r true zero' h found t e =
      subst (IsSound collateral) (ok-injective e)
        (skipped-IsSound collateral (x.seconds l.env.time) old p r h t (zero' refl))
  visited-IsSound collateral l premium old p p' r false zero' h found t e =
      spend_slot-IsSound collateral l premium old r.0 (record p { queue = r.1 }) p'
        (Totalled-IsVisited collateral (x.seconds l.env.time) old p r h found t) e

  visit_slot-IsSound :
      (collateral : ℕ) (l : Liquidation) (premium : ℕ) (old : PremiumSlot) (p p' : Progress)
      → IsSound collateral p
      → find? (has_premium old.liq_premium) p.queue.slots ≡ some old
      → visit_slot l premium old p ≡ ok p'
      → IsSound collateral p'
  unfolding visit_slot
  visit_slot-IsSound collateral l premium old p p' h found e =
      let (r, er, e₁) = >>=-eq-ok (set_slot_total old l.env p.queue l.config) _ e in
      let fits =
        All-find? WaitsFit (has_premium old.liq_premium) p.queue.slots old h.slots.fit found in
      visited-IsSound collateral l premium old p p' r (r.0.total_bid_amount == 0)
        (λ z. ground arith) h found
        (set_slot_total-Totalled old l.env p.queue l.config r.0 r.1
          (HasWords-of_fit old.waiting_bids fits) er)
        e₁

  read-IsSound :
      (collateral : ℕ) (l : Liquidation) (premium : ℕ) (p p' : Progress) (read : Result PremiumSlot)
      → ((slot : PremiumSlot)
          → read ≡ ok slot
          → find? (has_premium slot.liq_premium) p.queue.slots ≡ some slot)
      → IsSound collateral p
      → (elim read [ ok slot ↦ visit_slot l premium slot p | err _ ↦ ok p | panic ↦ panic ]) ≡ ok p'
      → IsSound collateral p'
  read-IsSound collateral l premium p p' (ok slot) found h e =
      visit_slot-IsSound collateral l premium slot p p' h (found slot refl) e
  read-IsSound collateral l premium p p' (err _) found h e =
      subst (IsSound collateral) (ok-injective e) h
  read-IsSound collateral l premium p p' panic found h e = cc

  liquidate_premium-IsSound :
      (collateral : ℕ) (l : Liquidation) (premium : ℕ) (p p' : Progress)
      → IsSound collateral p
      → liquidate_premium l premium p ≡ ok p'
      → IsSound collateral p'
  unfolding liquidate_premium
  liquidate_premium-IsSound collateral l premium p p' h e =
      read-IsSound collateral l premium p p' (read_premium_slot p.queue (premium % 256))
        (read_premium_slot-eq-ok p.queue (premium % 256)) h e

  -- Every round of the loop keeps the books.
  pub liquidate_from-IsSound :
      (collateral rounds premium : ℕ) (l : Liquidation) (p p' : Progress)
      → IsSound collateral p
      → liquidate_from rounds premium l p ≡ ok p'
      → IsSound collateral p'
  unfolding liquidate_from
  liquidate_from-IsSound collateral zero premium l p p' h e =
      subst (IsSound collateral) (ok-injective e) h
  liquidate_from-IsSound collateral (suc rounds) premium l p p' h e =
      let (q, eq, e₁) = >>=-eq-ok (liquidate_premium l premium p) _ e in
      go q.filled (liquidate_premium-IsSound collateral l premium p q h eq)
        (liquidate_from-IsSound collateral rounds (premium + 1) l q p') e₁
    where
      go :
          {q : Progress} (filled : Bool)
          → IsSound collateral q
          → (IsSound collateral q
              → liquidate_from rounds (premium + 1) l q ≡ ok p'
              → IsSound collateral p')
          → (elim filled [ true ↦ ok q | false ↦ liquidate_from rounds (premium + 1) l q ]) ≡ ok p'
          → IsSound collateral p'
      go true hq rest e' = subst (IsSound collateral) (ok-injective e') hq
      go false hq rest e' = rest hq e'
