-- ===== src/LiqQueue/Admin/Premiums.antt =====
-- `add_queue` of contracts/liq-queue/src/contract.rs and the slots that it makes.
use membrane_core.Prelude.{
  ℕ, zero, suc, ◌+◌, ◌*◌, ◌%◌, ◌^◌, ◌<◌, ◌≤◌, ◌≡◌, ◌≢◌, ◌⊎◌, refl, sym, ap, ◌∙◌, subst, some, none,
  List, [], ◌∷◌, str_eq, str_eq_iff, ◌&&◌, not, arith, All, length,
}
use membrane_core.Crates.{Crates}
use membrane_core.Result.{
  ok, unauthorized, duplicate_queue, not_found, >>=-eq-ok, ok-injective, must, must-eq-ok,
  or_err-eq-ok, reject_if, reject_if-eq-ok,
}
use membrane_core.Asset.{AssetInfo, to_string}
use membrane_core.Math.Decimal256
use membrane_core.LiqQueue.Types.{PremiumSlot, Queue, Config}
use membrane_core.LiqQueue.State.{
  Store, MessageInfo, Response, load_config, save_config, load-save_queue,
}
use membrane_core.LiqQueue.Slots.{is_some}
use membrane_core.LiqQueue.Slots.Lookup.{HasDistinct}
use membrane_core.LiqQueue.Counted.{slots_total, WaitsFit, IsCounted}
use membrane_core.LiqQueue.Admin.{new_slot, new_slots, add_queue}

-- A slot of this percentage without bids or history.
abbrev pub empty_slot : ℕ → PremiumSlot
empty_slot percentage = record {
  bids = [];
  waiting_bids = [];
  liq_premium = percentage * 10_000_000_000_000_000;
  sum_snapshot = 0;
  product_snapshot = 1_000_000_000_000_000_000;
  total_bid_amount = 0;
  last_total = 0;
  current_epoch = 0;
  current_scale = 0;
  residue_collateral = 0;
  residue_bid = 0;
}

-- The slots of the percentages from this one up, all of them empty.
abbrev pub AreEmpty : ℕ → List PremiumSlot → Type 0
AreEmpty p [] = Unit {0}
AreEmpty p (s ∷ ss) = (s ≡ empty_slot p) × AreEmpty (p + 1) ss

-- Nothing is deposited in the slot, whose premium is not below this percentage.
pub record IsNew (percentage : ℕ) (slot : PremiumSlot) : Type 0 where
  pub from : percentage * 10_000_000_000_000_000 ≤ slot.liq_premium
  pub bids : slot.bids ≡ []
  pub waiting_bids : slot.waiting_bids ≡ []
  pub total : slot.total_bid_amount ≡ 0

IsNew-weaken : (p : ℕ) (slots : List PremiumSlot) → All (IsNew (p + 1)) slots → All (IsNew p) slots
IsNew-weaken p [] h = tt
IsNew-weaken p (s ∷ ss) h = (
  record {
    from = omega (arith, h.0.from);
    bids = h.0.bids;
    waiting_bids = h.0.waiting_bids;
    total = h.0.total;
  },
  IsNew-weaken p ss h.1,
)

IsNew-distinct :
    (p : ℕ) (slot : PremiumSlot) (slots : List PremiumSlot)
    → slot.liq_premium ≡ p * 10_000_000_000_000_000
    → All (IsNew (p + 1)) slots
    → All (λ t. t.liq_premium ≢ slot.liq_premium) slots
IsNew-distinct p slot [] e h = tt
IsNew-distinct p slot (s ∷ ss) e h =
    ((λ same. omega (arith, h.0.from, e, same)), IsNew-distinct p slot ss e h.1)

IsNew-total : (p : ℕ) (slots : List PremiumSlot) → All (IsNew p) slots → slots_total slots ≡ 0
IsNew-total p [] h = refl
IsNew-total p (s ∷ ss) h = omega (arith, h.0.total, IsNew-total p ss h.1)

IsNew-fit : (p : ℕ) (slots : List PremiumSlot) → All (IsNew p) slots → All WaitsFit slots
IsNew-fit p [] h = tt
IsNew-fit p (s ∷ ss) h = (ground (arith, h.0.waiting_bids), IsNew-fit p ss h.1)

module _ ⦃x : Crates⦄ where
  new_slot-eq-ok :
      (p : ℕ) (slot : PremiumSlot)
      → p < 2 ^ 64
      → new_slot p ≡ ok slot
      → IsNew p slot × (slot ≡ empty_slot p)
  unfolding new_slot
  new_slot-eq-ok p slot h e =
      let (premium, ep, e₁) = >>=-eq-ok (Decimal256.percent p) _ e in
      let value : premium ≡ p * 10_000_000_000_000_000 =
        ok-injective (sym ep ∙ Decimal256.percent_lem p h) in
      subst (λ s. IsNew p s × (s ≡ empty_slot p)) (ok-injective e₁)
        (
          record { from = omega (arith, value); bids = refl; waiting_bids = refl; total = refl },
          ap (λ n. record (empty_slot p) { liq_premium = n }) value,
        )

  -- The slots from a percentage up are new, distinct, and as many as asked for.
  pub new_slots-eq-ok :
      (rounds p : ℕ) (slots : List PremiumSlot)
      → p + rounds ≤ 2 ^ 64
      → new_slots rounds p ≡ ok slots
      → All (IsNew p) slots × HasDistinct slots × (length slots ≡ rounds) × AreEmpty p slots
  unfolding new_slots
  new_slots-eq-ok zero p slots h e =
      subst (λ ss. All (IsNew p) ss × HasDistinct ss × (length ss ≡ 0) × AreEmpty p ss)
        (ok-injective e) (tt, tt, refl, tt)
  new_slots-eq-ok (suc rounds) p slots h e =
      let (slot, es, e₁) = >>=-eq-ok (new_slot p) _ e in
      let (rest, er, e₂) = >>=-eq-ok (new_slots rounds (p + 1)) _ e₁ in
      let (first, empty) = new_slot-eq-ok p slot (omega arith) es in
      let (new, distinct, count, empties) = new_slots-eq-ok rounds (p + 1) rest (omega arith) er in
      subst (λ ss. All (IsNew p) ss × HasDistinct ss × (length ss ≡ suc rounds) × AreEmpty p ss)
        (ok-injective e₂)
        (
          (first, IsNew-weaken p rest new),
          (IsNew-distinct p slot rest (ap (λ s. s.liq_premium) empty) new, distinct),
          ap suc count,
          (empty, empties),
        )

  -- A queue is only added by the owner or the positions contract, under a key that had none. It has
  -- one slot more than the maximal premium, modulo 2 ^ 64: the slots of zero percent, one percent and
  -- so on up, each empty, without bids, totals or residues, in epoch and scale zero with sum zero and
  -- product one. Their premiums are distinct, and the queue's total counts the slots' totals.
  pub add_queue-IsCounted :
      (store store' : Store) (info : MessageInfo) (bid_for : AssetInfo)
      (max_premium bid_threshold : ℕ) (response : Response)
      → add_queue store info bid_for max_premium bid_threshold ≡ ok (store', response)
      → (config : Config) × (queue : Queue) × (store.config ≡ some config)
        × ((info.sender ≡ config.owner) ⊎ (info.sender ≡ config.positions_contract))
        × (store.queues (to_string bid_for) ≡ none)
        × (store'.queues (to_string bid_for) ≡ some queue)
        × IsCounted queue
        × AreEmpty 0 queue.slots
        × (length queue.slots ≡ (max_premium + 1) % 2 ^ 64)
  unfolding add_queue load_config save_config
  add_queue-IsCounted store store' info bid_for max_premium bid_threshold response h =
      let key = to_string bid_for in
      let (config, ec, h₁) = >>=-eq-ok (load_config store) _ h in
      let (_, es, h₂) =
        >>=-eq-ok
          (reject_if
            (not (str_eq info.sender config.owner)
              && not (str_eq info.sender config.positions_contract))
            unauthorized)
          _ h₁ in
      let (count, en, h₃) = >>=-eq-ok (must (x.u128_add max_premium 1)) _ h₂ in
      let (slots, el, h₄) = >>=-eq-ok (new_slots (count % 2 ^ 64) 0) _ h₃ in
      let (_, ek, h₅) = >>=-eq-ok (reject_if (is_some (store.queues key)) duplicate_queue) _ h₄ in
      let (assets, _, h₆) = >>=-eq-ok (must config.added_assets) _ h₅ in
      let (new, distinct, many, empties) =
        new_slots-eq-ok (count % 2 ^ 64) 0 slots (omega arith) el in
      let queue : Queue = record {
        bid_asset = record { info = config.bid_asset; amount = 0 };
        max_premium = max_premium;
        slots = slots;
        current_bid_id = 1;
        bid_threshold = bid_threshold;
      } in
      let counted : count ≡ max_premium + 1 =
        ground (arith, must-eq-ok (x.u128_add max_premium 1) en, x.u128_add_lem max_premium 1) in
      (
        config,
        queue,
        or_err-eq-ok store.config not_found ec,
        ground (
          arith,
          reject_if-eq-ok
              (not (str_eq info.sender config.owner)
                && not (str_eq info.sender config.positions_contract))
              unauthorized es,
          str_eq_iff info.sender config.owner,
          str_eq_iff info.sender config.positions_contract,
        ),
        ground (arith, reject_if-eq-ok (is_some (store.queues key)) duplicate_queue ek),
        subst (λ s. s.queues key ≡ some queue) (ap (λ p. p.0) (ok-injective h₆))
            (load-save_queue store key queue),
        record {
          sound = record { distinct = distinct; fit = IsNew-fit 0 slots new };
          counted = IsNew-total 0 slots new;
        },
        empties,
        subst (λ n. length slots ≡ n % 2 ^ 64) counted many,
      )
