-- ===== src/LiqQueue/Submit/Conservation.antt =====
-- `place_bid`, the part of `submit_bid` of contracts/liq-queue/src/bid.rs that puts what was sent
-- into the slot and the queue.
use membrane_core.Prelude.{
  ℕ, ◌+◌, ◌^◌, ◌<◌, ◌≤◌, ◌≡◌, ◌≢◌, ◌⊎◌, refl, sym, subst, some, List, arith, find?, All,
}
use membrane_core.Crates.{Crates}
use membrane_core.Result.{
  ok, invalid_premium, >>=-eq-ok, ok-injective, must, must-eq-ok, or_err, or_err-eq-ok,
}
use membrane_core.Asset.{Addr}
use membrane_core.Math.Uint256.{from_u128_lem}
use membrane_core.LiqQueue.Types.{PremiumSlot, Queue, Config}
use membrane_core.LiqQueue.State.{Env, Attribute}
use membrane_core.LiqQueue.Slots.{has_premium, slot_premium, replace_slot}
use membrane_core.LiqQueue.Slots.Lookup.{find?-premium}
use membrane_core.LiqQueue.Activation.Totals.{amounts}
use membrane_core.LiqQueue.Counted.{IsCounted, replace_slot-AreSound, replace_slot_total, All-find?}
use membrane_core.LiqQueue.Submit.{Placement, new_bid, place_active, place_waiting, place_bid}
use membrane_core.LiqQueue.Submit.Placing.{
  IsPlaced, IsActivated, place_active-IsActivated, place_waiting-IsPlaced,
}

-- There is room for so much more in the waiting bids of each slot.
abbrev pub HasRoom : ℕ → Queue → Type 0
HasRoom sent queue = All (λ s. amounts s.waiting_bids + sent < 2 ^ 256) queue.slots

-- What a deposit of `sent` did to a queue and to the slot `old` of its premium: `active` became
-- active and `waits` waits.
pub record IsDeposited (queue : Queue) (sent minimum_bid : ℕ) (old : PremiumSlot)
    (placed : Placement) (active waits : ℕ) : Type 0 where
  pub found : find? (has_premium old.liq_premium) queue.slots ≡ some old
  pub sent_all : active + waits ≡ sent
  pub slot_total : placed.slot.total_bid_amount ≡ old.total_bid_amount + active
  pub active_bids : amounts placed.slot.bids ≡ amounts old.bids + active
  pub waiting_bids : amounts placed.slot.waiting_bids ≡ amounts old.waiting_bids + waits
  pub queue_total : placed.queue.bid_asset.amount ≡ queue.bid_asset.amount + active
  pub full : waits ≢ 0 → queue.bid_threshold ≤ placed.slot.total_bid_amount
  pub bound : (active ≡ 0) ⊎ (placed.slot.total_bid_amount ≤ queue.bid_threshold + minimum_bid)
  pub ids : queue.current_bid_id < placed.queue.current_bid_id
  pub books : IsCounted placed.queue

-- The two placements of a bid, one after the other, and the queue that is saved.
placed-IsDeposited :
    (queue : Queue) (sent minimum_bid p next_id active : ℕ) (old : PremiumSlot)
    (before middle after : Placement)
    → IsCounted queue
    → HasRoom sent queue
    → find? (has_premium p) queue.slots ≡ some old
    → next_id ≡ queue.current_bid_id + 1
    → before.queue ≡ record queue { current_bid_id = next_id }
    → before.slot ≡ old
    → before.bid.amount ≡ sent
    → IsActivated before middle minimum_bid active
    → IsPlaced middle after 0 middle.bid.amount
    → IsDeposited queue sent minimum_bid old
        (record after {
          queue = record after.queue { slots = replace_slot p after.slot after.queue.slots };
        })
        active
        middle.bid.amount
placed-IsDeposited queue sent minimum_bid p next_id active old before middle after counted room
      found id eq es eb a w =
    let at_p = find?-premium p queue.slots old found in
    let same : after.queue.slots ≡ queue.slots = ground (arith, w.slots, a.placed.slots, eq) in
    let grown : after.queue.bid_asset.amount ≡ queue.bid_asset.amount + active =
      ground (arith, w.queue_total, a.placed.queue_total, eq) in
    let premium : after.slot.liq_premium ≡ p =
      ground (arith, w.premium, a.placed.premium, es, at_p) in
    let total : after.slot.total_bid_amount ≡ old.total_bid_amount + active =
      ground (arith, w.slot_total, a.placed.slot_total, es) in
    let waiting : amounts after.slot.waiting_bids ≡ amounts old.waiting_bids + middle.bid.amount =
      ground (arith, w.waiting_bids, a.placed.waiting_bids, es) in
    let room =
      All-find? (λ s. amounts s.waiting_bids + sent < 2 ^ 256) (has_premium p) queue.slots old room
        found in
    let sent_all : active + middle.bid.amount ≡ sent = omega (arith, a.rest, eb) in
    record {
      found = subst (λ q. find? (has_premium q) queue.slots ≡ some old) (sym at_p) found;
      sent_all = sent_all;
      slot_total = total;
      active_bids = ground (arith, w.active_bids, a.placed.active_bids, es);
      waiting_bids = waiting;
      queue_total = grown;
      full = λ n. ground (arith, a.full n, eq, w.slot_total);
      bound = ground (arith, a.bound, eq, w.slot_total);
      ids = ground (arith, w.ids, a.placed.ids, eq, id);
      books =
          subst (λ ss. IsCounted (record after.queue { slots = replace_slot p after.slot ss }))
            (sym same)
            (record {
              sound =
                  replace_slot-AreSound p after.slot queue.slots counted.sound premium
                    (omega (arith, waiting, room, sent_all));
              counted = omega (
                arith,
                replace_slot_total p old after.slot queue.slots 0 active counted.sound found
                    (omega (arith, total)),
                counted.counted,
                grown,
              );
            });
    }

module _ ⦃x : Crates⦄ where
  -- A deposit that succeeds is placed without loss: what was sent is what became active and what
  -- waits; the slot's total, its active bids and the queue's total all grow by the active part, the
  -- waiting bids by the rest. Nothing waits in a slot that is below the threshold, a slot that grows
  -- stays within the threshold and one minimal bid, the next id grows, and the queue still counts
  -- its slots. The queue counted its slots before, what is sent and the minimal bid are u128, and
  -- the waiting amounts have room for what is sent.
  pub place_bid-IsDeposited :
      (queue : Queue) (owner : Addr) (liq_premium sent : ℕ) (env : Env) (config : Config)
      (attrs : List Attribute) (placed : Placement)
      → IsCounted queue
      → HasRoom sent queue
      → sent < 2 ^ 128
      → config.minimum_bid < 2 ^ 128
      → place_bid queue owner liq_premium sent env config attrs ≡ ok placed
      → (old : PremiumSlot) × (active : ℕ) × (waits : ℕ) × IsDeposited queue sent config.minimum_bid
          old placed active waits
  unfolding place_bid new_bid
  place_bid-IsDeposited queue owner liq_premium sent env config attrs placed counted room word
        minimal h =
      let (p, _, h₁) = >>=-eq-ok (slot_premium liq_premium) _ h in
      let (old, eo, h₂) =
        >>=-eq-ok (or_err (find? (has_premium p) queue.slots) invalid_premium) _ h₁ in
      let (next_id, en, h₃) = >>=-eq-ok (must (x.u128_add queue.current_bid_id 1)) _ h₂ in
      let before : Placement = record {
        queue = record queue { current_bid_id = next_id };
        slot = old;
        bid = new_bid owner queue.current_bid_id sent liq_premium;
        attrs = attrs;
      } in
      let (middle, em, h₄) = >>=-eq-ok (place_active before sent config.minimum_bid) _ h₃ in
      let (after, ea, h₅) = >>=-eq-ok (place_waiting middle env config) _ h₄ in
      let held = from_u128_lem sent word in
      let (active, a) =
        place_active-IsActivated before middle sent config.minimum_bid held minimal em in
      (
        old,
        active,
        middle.bid.amount,
        subst (λ q. IsDeposited queue sent config.minimum_bid old q active middle.bid.amount)
            (ok-injective h₅)
            (placed-IsDeposited queue sent config.minimum_bid p next_id active old before middle
              after counted room
              (or_err-eq-ok (find? (has_premium p) queue.slots) invalid_premium eo)
              (ground (
                arith,
                must-eq-ok (x.u128_add queue.current_bid_id 1) en,
                x.u128_add_lem queue.current_bid_id 1,
              ))
              refl refl held a (place_waiting-IsPlaced middle after env config ea).0),
      )
