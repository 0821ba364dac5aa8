-- ===== src/LiqQueue/Submit/Placing.antt =====
-- The branches of `submit_bid` of contracts/liq-queue/src/bid.rs, one by one.
use membrane_core.Prelude.{
  ◌%◌, ℕ, ◌+◌, ◌-◌, ◌^◌, ◌<◌, ◌≤◌, ◌≡◌, ◌≢◌, ◌⊎◌, inl, inr, refl, sym, subst, Bool, true, false,
  some, List, [], ◌∷◌, ◌++◌, not, arith, ltb, leb, ◌==◌, if◌then◌else◌, length,
}
use membrane_core.Crates.{Crates}
use membrane_core.Result.{
  Result, ok, too_many_waiting_bids, ◌>>=◌, ◌>>◌, >>=-eq-ok, ok-injective, must, must-eq-ok,
  reject_if,
}
use membrane_core.Math.Uint256
use membrane_core.Math.Uint256.{from_u128, from_u128_lem, to_u128, to_u128-eq-ok}
use membrane_core.LiqQueue.Types.{Bid, Queue, Config}
use membrane_core.LiqQueue.State.{Env, Attribute, number}
use membrane_core.LiqQueue.Slots.{push}
use membrane_core.LiqQueue.Activation.{process_bid_activation, add_to_queue}
use membrane_core.LiqQueue.Activation.Totals.{amounts, amounts-push, add_to_queue-eq-ok}
use membrane_core.LiqQueue.Submit.{Placement, place_whole, place_split, place_active, place_waiting}

-- Of a placement's bid `active` was made active and `waits` put to wait: the totals and the bids'
-- amounts follow, and nothing else of the slot's premium and of the queue's slots changes.
pub record IsPlaced (before after : Placement) (active waits : ℕ) : Type 0 where
  pub slot_total : after.slot.total_bid_amount ≡ before.slot.total_bid_amount + active
  pub active_bids : amounts after.slot.bids ≡ amounts before.slot.bids + active
  pub waiting_bids : amounts after.slot.waiting_bids ≡ amounts before.slot.waiting_bids + waits
  pub queue_total : after.queue.bid_asset.amount ≡ before.queue.bid_asset.amount + active
  pub slots : after.queue.slots ≡ before.queue.slots
  pub threshold : after.queue.bid_threshold ≡ before.queue.bid_threshold
  pub premium : after.slot.liq_premium ≡ before.slot.liq_premium
  pub ids : before.queue.current_bid_id ≤ after.queue.current_bid_id

-- What activating did: the rest of the bid is only left over by a slot that is full, and a slot
-- that grew stays below the threshold and one minimal bid.
pub record IsActivated (before after : Placement) (minimum_bid active : ℕ) : Type 0 where
  pub placed : IsPlaced before after active 0
  pub rest : after.bid.amount + active ≡ before.bid.amount
  pub full : after.bid.amount ≢ 0 → before.queue.bid_threshold ≤ after.slot.total_bid_amount
  pub bound :
      (active ≡ 0) ⊎ (after.slot.total_bid_amount ≤ before.queue.bid_threshold + minimum_bid)

waits-word :
    (a b t sum waits : ℕ)
    → (sum ≡ a + b) × (a + b < 2 ^ 256)
    → (t ≤ sum) × (waits ≡ sum - t)
    → (waits < 2 ^ 256) × (a + b ≡ t + waits)
waits-word a b t sum waits h k = omega (arith, h, k)

active-sent :
    (amount sent waits waiting active active_sent : ℕ)
    → amount ≡ sent
    → (waits ≤ amount) × (active ≡ amount - waits)
    → (waiting ≡ waits)
    → active_sent + waiting ≡ sent
    → (active_sent ≡ active) × (active + waits ≡ amount)
active-sent amount sent waits waiting active active_sent held h e k = omega (arith, held, h, e, k)

module _ ⦃x : Crates⦄ where
  place_whole-IsActivated :
      (p p' : Placement) (sent minimum_bid : ℕ)
      → p.bid.amount ≡ sent
      → p.slot.total_bid_amount + p.bid.amount < p.queue.bid_threshold + minimum_bid
      → place_whole p sent ≡ ok p'
      → IsActivated p p' minimum_bid sent
  unfolding place_whole process_bid_activation
  place_whole-IsActivated p p' sent minimum_bid held below h =
      let (queue, eq, h₁) = >>=-eq-ok (add_to_queue p.queue sent) _ h in
      let (total, et, h₂) = >>=-eq-ok (Uint256.add p.slot.total_bid_amount p.bid.amount) _ h₁ in
      let active = process_bid_activation p.bid (record p.slot { total_bid_amount = total }) in
      let grown = Uint256.add-eq-ok p.slot.total_bid_amount p.bid.amount total et in
      subst (λ q. IsActivated p q minimum_bid sent) (ok-injective h₂)
        (record {
          placed = record {
            slot_total = omega (arith, grown, held);
            active_bids = omega (arith, amounts-push p.slot.bids active, held);
            waiting_bids = omega arith;
            queue_total = ground (arith, add_to_queue-eq-ok p.queue queue sent eq);
            slots = ground (arith, add_to_queue-eq-ok p.queue queue sent eq);
            threshold = ground (arith, add_to_queue-eq-ok p.queue queue sent eq);
            premium = refl;
            ids = ground (arith, add_to_queue-eq-ok p.queue queue sent eq);
          };
          rest = omega (arith, held);
          full = λ n. ground arith;
          bound = inr (omega (arith, grown, below));
        })

  -- A bid that was split: `waits` are left of it, beyond the threshold.
  split-IsActivated :
      (p p' : Placement) (queue : Queue) (minimum_bid total active waits id : ℕ) (bids : List Bid)
      (attrs : List Attribute)
      → queue ≡ record p.queue {
        current_bid_id = p.queue.current_bid_id + 1;
        bid_asset = record p.queue.bid_asset { amount = p.queue.bid_asset.amount + active };
      }
      → total ≡ p.slot.total_bid_amount + active
      → active + waits ≡ p.bid.amount
      → p.slot.total_bid_amount + p.bid.amount ≡ p.queue.bid_threshold + waits
      → amounts bids ≡ amounts p.slot.bids + active
      → p' ≡ record {
        queue = queue;
        slot = record p.slot { total_bid_amount = total; bids = bids };
        bid = record p.bid { id = id; amount = waits };
        attrs = attrs;
      }
      → IsActivated p p' minimum_bid active
  split-IsActivated p p' queue minimum_bid total active waits id bids attrs eq et ew over eb h =
      subst (λ q. IsActivated p q minimum_bid active) (sym h)
        (record {
          placed = record {
            slot_total = et;
            active_bids = eb;
            waiting_bids = omega arith;
            queue_total = ground (arith, eq);
            slots = ground (arith, eq);
            threshold = ground (arith, eq);
            premium = refl;
            ids = ground (arith, eq);
          };
          rest = omega (arith, ew);
          full = λ n. omega (arith, et, ew, over);
          bound = inr (omega (arith, et, ew, over));
        })

  u128_add-eq-ok : (a b c : ℕ) → must (x.u128_add a b) ≡ ok c → c ≡ a + b
  u128_add-eq-ok a b c h = ground (arith, must-eq-ok (x.u128_add a b) h, x.u128_add_lem a b)

  u128_sub-eq-ok : (a b c : ℕ) → must (x.u128_sub a b) ≡ ok c → c + b ≡ a
  u128_sub-eq-ok a b c h = ground (arith, must-eq-ok (x.u128_sub a b) h, x.u128_sub_lem a b)

  place_split-IsActivated :
      (p p' : Placement) (sent minimum_bid : ℕ)
      → p.bid.amount ≡ sent
      → place_split p sent ≡ ok p'
      → (active : ℕ) × IsActivated p p' minimum_bid active
  unfolding place_split process_bid_activation
  place_split-IsActivated p p' sent minimum_bid held h =
      let before = p.slot.total_bid_amount in
      let ids = p.queue.current_bid_id in
      let (sum, es, h₁) = >>=-eq-ok (Uint256.add before p.bid.amount) _ h in
      let (waits, ew, h₂) = >>=-eq-ok (Uint256.sub sum p.queue.bid_threshold) _ h₁ in
      let (active, ea, h₃) = >>=-eq-ok (Uint256.sub p.bid.amount waits) _ h₂ in
      let (next_id, en, h₄) = >>=-eq-ok (must (x.u128_add ids 1)) _ h₃ in
      let (waiting, eo, h₅) = >>=-eq-ok (to_u128 waits) _ h₄ in
      let (active_sent, ed, h₆) = >>=-eq-ok (must (x.u128_sub sent waiting)) _ h₅ in
      let numbered = record p.queue { current_bid_id = next_id } in
      let (queue, eq, h₇) = >>=-eq-ok (add_to_queue numbered active_sent) _ h₆ in
      let (total, et, h₈) = >>=-eq-ok (Uint256.add before active) _ h₇ in
      let over =
        waits-word before p.bid.amount p.queue.bid_threshold sum waits
          (Uint256.add-eq-ok before p.bid.amount sum es)
          (Uint256.sub-eq-ok sum p.queue.bid_threshold waits ew) in
      let same =
        active-sent p.bid.amount sent waits waiting active active_sent held
          (Uint256.sub-eq-ok p.bid.amount waits active ea) (to_u128-eq-ok waits waiting over.0 eo).0
          (u128_sub-eq-ok sent waiting active_sent ed) in
      (
        active,
        split-IsActivated p p' queue minimum_bid total active waits ids _ _
            (ground (
              arith,
              add_to_queue-eq-ok numbered queue active_sent eq,
              u128_add-eq-ok ids 1 next_id en,
              same.0,
            ))
            (Uint256.add-eq-ok before active total et).0 same.1 over.1 (amounts-push p.slot.bids _)
            (sym (ok-injective h₈)),
      )

  IsActivated-refl :
      (p : Placement) (minimum_bid : ℕ)
      → p.queue.bid_threshold ≤ p.slot.total_bid_amount
      → IsActivated p p minimum_bid 0
  IsActivated-refl p minimum_bid above = record {
    placed = record {
      slot_total = omega arith;
      active_bids = omega arith;
      waiting_bids = omega arith;
      queue_total = omega arith;
      slots = refl;
      threshold = refl;
      premium = refl;
      ids = omega arith;
    };
    rest = omega arith;
    full = λ n. above;
    bound = inl refl;
  }

  branch-IsActivated :
      (p p' : Placement) (sent minimum_bid sum limit : ℕ) (whole : Bool)
      → p.bid.amount ≡ sent
      → (whole ≡ true
          → p.slot.total_bid_amount + p.bid.amount < p.queue.bid_threshold + minimum_bid)
      → (if whole then place_whole p sent else place_split p sent) ≡ ok p'
      → (active : ℕ) × IsActivated p p' minimum_bid active
  branch-IsActivated p p' sent minimum_bid sum limit true held fits h =
      (sent, place_whole-IsActivated p p' sent minimum_bid held (fits refl) h)
  branch-IsActivated p p' sent minimum_bid sum limit false held fits h =
      place_split-IsActivated p p' sent minimum_bid held h

  -- The part of a slot that is not full yet.
  below-IsActivated :
      (p p' : Placement) (sent minimum_bid : ℕ)
      → p.bid.amount ≡ sent
      → minimum_bid < 2 ^ 128
      → (Uint256.add p.slot.total_bid_amount p.bid.amount >>= λ sum.
          Uint256.add p.queue.bid_threshold (from_u128 minimum_bid) >>= λ limit.
          if ltb sum limit then place_whole p sent else place_split p sent)
        ≡ ok p'
      → (active : ℕ) × IsActivated p p' minimum_bid active
  below-IsActivated p p' sent minimum_bid held word h =
      let (sum, es, h₁) = >>=-eq-ok (Uint256.add p.slot.total_bid_amount p.bid.amount) _ h in
      let (limit, el, h₂) =
        >>=-eq-ok (Uint256.add p.queue.bid_threshold (from_u128 minimum_bid)) _ h₁ in
      let in_all = Uint256.add-eq-ok p.slot.total_bid_amount p.bid.amount sum es in
      let bound = Uint256.add-eq-ok p.queue.bid_threshold (from_u128 minimum_bid) limit el in
      branch-IsActivated p p' sent minimum_bid sum limit (ltb sum limit) held
        (λ t. ground (arith, in_all, bound, from_u128_lem minimum_bid word)) h₂

  above-IsActivated :
      (p p' : Placement) (minimum_bid : ℕ) (rest : Result Placement) (above : Bool)
      → (above ≡ true → p.queue.bid_threshold ≤ p.slot.total_bid_amount)
      → (rest ≡ ok p' → (active : ℕ) × IsActivated p p' minimum_bid active)
      → (if above then ok p else rest) ≡ ok p'
      → (active : ℕ) × IsActivated p p' minimum_bid active
  above-IsActivated p p' minimum_bid rest true t f h = (
    0,
    subst (λ q. IsActivated p q minimum_bid 0) (ok-injective h)
        (IsActivated-refl p minimum_bid (t refl)),
  )
  above-IsActivated p p' minimum_bid rest false t f h = f h

  pub place_active-IsActivated :
      (p p' : Placement) (sent minimum_bid : ℕ)
      → p.bid.amount ≡ sent
      → minimum_bid < 2 ^ 128
      → place_active p sent minimum_bid ≡ ok p'
      → (active : ℕ) × IsActivated p p' minimum_bid active
  unfolding place_active
  place_active-IsActivated p p' sent minimum_bid held word h =
      above-IsActivated p p' minimum_bid _ (not (leb p.slot.total_bid_amount p.queue.bid_threshold))
        (λ t. ground arith) (below-IsActivated p p' sent minimum_bid held word) h

  waits-IsPlaced :
      (p p' : Placement) (env : Env) (config : Config) (empty : Bool)
      → (empty ≡ true → p.bid.amount ≡ 0)
      → (if empty then ok p else (do
        wait_until ← must (x.plus_seconds env.time config.waiting_period)
        let bid = record p.bid { wait_end = some (x.seconds wait_until) }
        let slot = record p.slot { waiting_bids = push p.slot.waiting_bids bid }
        reject_if
            (ltb (config.maximum_waiting_bids % 2 ^ 32) (length slot.waiting_bids))
            (too_many_waiting_bids config.maximum_waiting_bids)
        ok (record p {
          slot = slot;
          bid = bid;
          attrs = p.attrs ++ ("bid_id", number bid.id) ∷ ("bid", number bid.amount) ∷ [];
        })))
        ≡ ok p'
      → IsPlaced p p' 0 p.bid.amount × (p'.bid.amount ≡ p.bid.amount)
  waits-IsPlaced p p' env config true e h =
      subst (λ q. IsPlaced p q 0 p.bid.amount × (q.bid.amount ≡ p.bid.amount)) (ok-injective h)
        (
          record {
            slot_total = omega arith;
            active_bids = omega arith;
            waiting_bids = omega (arith, e refl);
            queue_total = omega arith;
            slots = refl;
            threshold = refl;
            premium = refl;
            ids = omega arith;
          },
          refl,
        )
  waits-IsPlaced p p' env config false e h =
      let (wait_until, _, h₁) =
        >>=-eq-ok (must (x.plus_seconds env.time config.waiting_period)) _ h in
      let bid = record p.bid { wait_end = some (x.seconds wait_until) } in
      let waiting = push p.slot.waiting_bids bid in
      let (_, _, h₂) =
        >>=-eq-ok
          (reject_if (ltb (config.maximum_waiting_bids % 2 ^ 32) (length waiting))
            (too_many_waiting_bids config.maximum_waiting_bids))
          _ h₁ in
      subst (λ q. IsPlaced p q 0 p.bid.amount × (q.bid.amount ≡ p.bid.amount)) (ok-injective h₂)
        (
          record {
            slot_total = omega arith;
            active_bids = omega arith;
            waiting_bids = amounts-push p.slot.waiting_bids bid;
            queue_total = omega arith;
            slots = refl;
            threshold = refl;
            premium = refl;
            ids = omega arith;
          },
          refl,
        )

  pub place_waiting-IsPlaced :
      (p p' : Placement) (env : Env) (config : Config)
      → place_waiting p env config ≡ ok p'
      → IsPlaced p p' 0 p.bid.amount × (p'.bid.amount ≡ p.bid.amount)
  unfolding place_waiting
  place_waiting-IsPlaced p p' env config h =
      waits-IsPlaced p p' env config (p.bid.amount == 0) (λ t. ground arith) h
