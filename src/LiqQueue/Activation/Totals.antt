-- ===== src/LiqQueue/Activation/Totals.antt =====
-- `set_slot_total` of contracts/liq-queue/src/bid.rs.
use membrane_core.Prelude.{
  ℕ, ◌+◌, ◌-◌, ◌^◌, ◌<◌, ◌≤◌, ◌≡◌, ◌≢◌, Bool, some, List, [], ◌∷◌, not, arith, ltb, leb, ◌==◌,
  if◌then◌else◌, ◌&&◌, refl, ◌⊎◌, inl, inr, subst, true, false, All-filter-true, filter, sum_by,
  sum_by-append, All,
}
use membrane_core.Crates.{Crates, checked_sub}
use membrane_core.Result.{ok, >>=-eq-ok, ok-injective, must, must-eq-ok}
use membrane_core.Math.Uint256
use membrane_core.Math.Uint256.{to_u128, to_u128-eq-ok}
use membrane_core.LiqQueue.Types.{Bid, PremiumSlot, Queue, Config}
use membrane_core.LiqQueue.State.{Env}
use membrane_core.LiqQueue.Slots.{push}
use membrane_core.LiqQueue.Activation.{
  Activated, process_bid_activation, add_to_queue, activate_bid, try_activate, activate_all,
  recount, set_slot_total,
}

abbrev pub amount_of : Bid → ℕ
amount_of b = b.amount

-- What the bids of a list hold together.
abbrev pub amounts : List Bid → ℕ
amounts = sum_by amount_of

pub amounts-push : (bids : List Bid) (b : Bid) → amounts (push bids b) ≡ amounts bids + b.amount
amounts-push bids b = omega (arith, sum_by-append amount_of bids (b ∷ []))

-- Between two states of a slot and its queue `moved` became active: the queue's total and the slot's
-- grow by it, as the amounts of the active bids do, and nothing else of the queue changes.
pub record Moved (slot : PremiumSlot) (queue : Queue) (slot' : PremiumSlot) (queue' : Queue)
    (moved : ℕ) : Type 0 where
  pub slot_total : slot'.total_bid_amount ≡ slot.total_bid_amount + moved
  pub active : amounts slot'.bids ≡ amounts slot.bids + moved
  pub queue_total : queue' ≡ record queue {
    bid_asset = record queue.bid_asset { amount = queue.bid_asset.amount + moved };
  }
  pub kept : slot' ≡ record slot { bids = slot'.bids; total_bid_amount = slot'.total_bid_amount }

-- The bid waits past this time.
abbrev pub IsStillWaiting : ℕ → Bid → Type 0
IsStillWaiting now bid = (wait_end : ℕ) × (bid.wait_end ≡ some wait_end) × (now < wait_end)

-- The amounts of the bids fit their words.
abbrev pub HasWords : List Bid → Type 0
HasWords = All (λ b. b.amount < 2 ^ 256)

Moved-trans :
    {slot : PremiumSlot} {queue : Queue} {slot' : PremiumSlot} {queue' : Queue}
    {slot'' : PremiumSlot} {queue'' : Queue} {m n : ℕ}
    → Moved slot queue slot' queue' m
    → Moved slot' queue' slot'' queue'' n
    → Moved slot queue slot'' queue'' (m + n)
Moved-trans h k = ground arith

Moved-refl : (slot : PremiumSlot) (queue : Queue) → Moved slot queue slot queue 0
Moved-refl slot queue = ground arith

module _ ⦃x : Crates⦄ where
  pub add_to_queue-eq-ok :
      (queue queue' : Queue) (amount : ℕ)
      → add_to_queue queue amount ≡ ok queue'
      → queue' ≡ record queue {
        bid_asset = record queue.bid_asset { amount = queue.bid_asset.amount + amount };
      }
  unfolding add_to_queue
  add_to_queue-eq-ok queue queue' amount h =
      let add = x.u128_add queue.bid_asset.amount amount in
      let (total, e, h₁) = >>=-eq-ok (must add) _ h in
      ground (arith, must-eq-ok add e, x.u128_add_lem queue.bid_asset.amount amount)

  activate_bid-Moved :
      (bid : Bid) (slot : PremiumSlot) (queue : Queue) (a : Activated)
      → bid.amount < 2 ^ 256
      → activate_bid bid slot queue ≡ ok a
      → Moved slot queue a.slot a.queue bid.amount × (a.bid.amount ≡ 0)
  unfolding activate_bid process_bid_activation
  activate_bid-Moved bid slot queue a fits h =
      let (b_amount, eb, h₁) = >>=-eq-ok (to_u128 bid.amount) _ h in
      let (queue', eq, h₂) = >>=-eq-ok (add_to_queue queue b_amount) _ h₁ in
      let (total, et, h₃) = >>=-eq-ok (Uint256.add slot.total_bid_amount bid.amount) _ h₂ in
      let active = process_bid_activation bid (record slot { total_bid_amount = total }) in
      ground (
        arith,
        to_u128-eq-ok bid.amount b_amount fits eb,
        add_to_queue-eq-ok queue queue' b_amount eq,
        Uint256.add-eq-ok slot.total_bid_amount bid.amount total et,
        amounts-push slot.bids active,
      )

  -- A bid's amount becomes active, or stays with the bid.
  try_activate-Moved :
      (now : ℕ) (bid : Bid) (slot : PremiumSlot) (queue : Queue) (a : Activated)
      → bid.amount < 2 ^ 256
      → try_activate now bid slot queue ≡ ok a
      → (moved : ℕ) × Moved slot queue a.slot a.queue moved
        × (moved + a.bid.amount ≡ bid.amount)
        × (a.bid.amount ≢ 0 → IsStillWaiting now a.bid)
  unfolding try_activate
  try_activate-Moved now bid slot queue a fits h =
      let (wait_end, ew, h₁) = >>=-eq-ok (must bid.wait_end) _ h in
      let moved = activate_bid-Moved bid slot queue a fits in
      let still = Moved-refl slot queue in
      (
        bid.amount - a.bid.amount,
        ground (arith, moved, still),
        ground (arith, moved),
        λ n. (wait_end, ground (arith, moved, must-eq-ok bid.wait_end ew), ground (arith, moved)),
      )

  -- The bids of the list that became active are those of amount zero; the others still wait.
  abbrev AllMoved : ℕ → List Bid → PremiumSlot → Queue → List Bid × PremiumSlot × Queue → Type 0
  AllMoved now bids slot queue (edited, slot', queue') =
      (moved : ℕ) × Moved slot queue slot' queue' moved
      × (moved + amounts edited ≡ amounts bids)
      × All (λ b. b.amount ≢ 0 → IsStillWaiting now b) edited

  activate_all-Moved :
      (now : ℕ) (bids : List Bid) (slot : PremiumSlot) (queue : Queue)
      (r : List Bid × PremiumSlot × Queue)
      → HasWords bids
      → activate_all now bids slot queue ≡ ok r
      → AllMoved now bids slot queue r
  unfolding activate_all
  activate_all-Moved now [] slot queue r fits h =
      subst (AllMoved now [] slot queue) (ok-injective h)
        (0, Moved-refl slot queue, omega arith, tt)
  activate_all-Moved now (bid ∷ bids) slot queue r fits h =
      let (a, ea, h₁) = >>=-eq-ok (try_activate now bid slot queue) _ h in
      let (r', er, h₂) = >>=-eq-ok (activate_all now bids a.slot a.queue) _ h₁ in
      let (m, first, em, wait) = try_activate-Moved now bid slot queue a fits.0 ea in
      let (n, others, en, waits) = activate_all-Moved now bids a.slot a.queue r' fits.1 er in
      subst (AllMoved now (bid ∷ bids) slot queue) (ok-injective h₂)
        (m + n, Moved-trans first others, omega arith, (wait, waits))

  amounts-filter :
      (bids : List Bid) → amounts (filter (λ b. not (b.amount == 0)) bids) ≡ amounts bids
  amounts-filter [] = refl
  amounts-filter (b ∷ bids) = ground (arith, amounts-filter bids)

  waiting-filter :
      (now : ℕ) (bids : List Bid)
      → All (λ b. b.amount ≢ 0 → IsStillWaiting now b) bids
      → All (λ b. (b.amount ≢ 0) × IsStillWaiting now b) (filter (λ b. not (b.amount == 0)) bids)
  waiting-filter now bids h =
      All-filter-true (λ b. b.amount ≢ 0 → IsStillWaiting now b)
        (λ b. (b.amount ≢ 0) × IsStillWaiting now b) (λ b. not (b.amount == 0)) bids
        (λ b waits t. let some_left : b.amount ≢ 0 = ground arith in (some_left, waits some_left)) h

  -- What `set_slot_total` did to a slot and its queue at a time.
  abbrev pub IsTotalled : ℕ → PremiumSlot → Queue → PremiumSlot → Queue → Type 0
  IsTotalled now slot queue slot' queue' =
      (moved : ℕ) × (slot'.total_bid_amount ≡ slot.total_bid_amount + moved)
      × (amounts slot'.bids ≡ amounts slot.bids + moved)
      × (moved + amounts slot'.waiting_bids ≡ amounts slot.waiting_bids)
      × (queue' ≡ record queue {
        bid_asset = record queue.bid_asset { amount = queue.bid_asset.amount + moved };
      })
      × (slot'.liq_premium ≡ slot.liq_premium)
      × (((slot' ≡ slot) × (queue.bid_threshold ≤ slot.total_bid_amount))
          ⊎ All (λ b. (b.amount ≢ 0) × IsStillWaiting now b) slot'.waiting_bids)

  abbrev pub Totalled : ℕ → PremiumSlot → Queue → PremiumSlot × Queue → Type 0
  Totalled now slot queue r = IsTotalled now slot queue r.0 r.1

  recount-Totalled :
      (now : ℕ) (slot : PremiumSlot) (queue : Queue) (r : PremiumSlot × Queue)
      → HasWords slot.waiting_bids
      → recount now slot queue ≡ ok r
      → Totalled now slot queue r
  unfolding recount
  recount-Totalled now slot queue r fits h =
      let (r', er, h₁) = >>=-eq-ok (activate_all now slot.waiting_bids slot queue) _ h in
      let (moved, m, em, waits) = activate_all-Moved now slot.waiting_bids slot queue r' fits er in
      subst (Totalled now slot queue) (ok-injective h₁) (
        moved,
        m.slot_total,
        m.active,
        omega (arith, em, amounts-filter r'.0),
        m.queue_total,
        ground (arith, m.kept),
        inr (waiting-filter now r'.0 waits),
      )

  early-Totalled :
      (now : ℕ) (slot : PremiumSlot) (queue : Queue) (r : PremiumSlot × Queue) (full : Bool)
      → (full ≡ true → queue.bid_threshold ≤ slot.total_bid_amount)
      → HasWords slot.waiting_bids
      → (if full then ok (slot, queue) else recount now slot queue) ≡ ok r
      → Totalled now slot queue r
  early-Totalled now slot queue r true above fits h =
      subst (Totalled now slot queue) (ok-injective h)
        (0, omega arith, omega arith, omega arith, ground arith, refl, inl (refl, above refl))
  early-Totalled now slot queue r false above fits h = recount-Totalled now slot queue r fits h

  -- `set_slot_total` loses nothing: what it takes off the waiting bids is what it adds to the slot's
  -- total, to its active bids and to the queue's total; nothing else of the queue changes. Unless it
  -- returned early, for a slot that is not below the threshold, each bid that is left waiting has an
  -- amount and waits past the block's time.
  pub set_slot_total-Totalled :
      (slot : PremiumSlot) (env : Env) (queue : Queue) (config : Config) (slot' : PremiumSlot)
      (queue' : Queue)
      → HasWords slot.waiting_bids
      → set_slot_total slot env queue config ≡ ok (slot', queue')
      → IsTotalled (x.seconds env.time) slot queue slot' queue'
  unfolding set_slot_total
  set_slot_total-Totalled slot env queue config slot' queue' fits h =
      let now = x.seconds env.time in
      let (elapsed, _, h₁) = >>=-eq-ok (must (checked_sub now slot.last_total)) _ h in
      early-Totalled now slot queue (slot', queue')
        (ltb elapsed config.waiting_period && leb queue.bid_threshold slot.total_bid_amount)
        (λ full. ground arith) fits h₁
