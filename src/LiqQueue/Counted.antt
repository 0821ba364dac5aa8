-- ===== src/LiqQueue/Counted.antt =====
-- The books of a queue of contracts/liq-queue: the total that it keeps and the totals of its slots.
use membrane_core.Prelude.{
  Bool, true, false, if◌then◌else◌, ℕ, ◌+◌, ◌^◌, ◌<◌, ◌≡◌, sym, subst, some, List, [], ◌∷◌, arith,
  not, find?, filter, All, All-append, All-filter, some-inj, sum_by,
}
use membrane_core.Crates.{Crates}
use membrane_core.Result.{ok, generic_err, >>=-eq-ok, or_err-eq-ok}
use membrane_core.Math.Decimal256
use membrane_core.LiqQueue.Types.{Bid, PremiumSlot, Queue}
use membrane_core.LiqQueue.Slots.{has_premium, replace_slot, read_premium_slot}
use membrane_core.LiqQueue.Slots.Lookup.{
  HasDistinct, find?-premium, replace_slot-HasDistinct, sum_by-replace_slot,
}
use membrane_core.LiqQueue.Activation.Totals.{amounts, HasWords}

abbrev pub slot_total : PremiumSlot → ℕ
slot_total s = s.total_bid_amount

-- The sum of the slots' totals.
abbrev pub slots_total : List PremiumSlot → ℕ
slots_total = sum_by slot_total

-- What a slot's bids hold waiting fits a word.
abbrev pub WaitsFit : PremiumSlot → Type 0
WaitsFit s = amounts s.waiting_bids < 2 ^ 256

-- The slots have distinct premiums, and what waits in each fits a word.
pub record AreSound (slots : List PremiumSlot) : Type 0 where
  pub distinct : HasDistinct slots
  pub fit : All WaitsFit slots

-- The queue's total counts what its slots hold.
pub record IsCounted (queue : Queue) : Type 0 where
  pub sound : AreSound queue.slots
  pub counted : slots_total queue.slots ≡ queue.bid_asset.amount

pub HasWords-of_fit : (bids : List Bid) → amounts bids < 2 ^ 256 → HasWords bids
HasWords-of_fit [] h = tt
HasWords-of_fit (b ∷ bids) h = (omega arith, HasWords-of_fit bids (omega arith))

pub All-find? {ℓ κ} :
    {A : Type ℓ} (P : A → Type κ) (t : A → Bool) (xs : List A) (a : A)
    → All P xs
    → find? t xs ≡ some a
    → P a
All-find? P t [] a h e = cc
All-find? P t (x ∷ xs) a h e = go (t x) (All-find? P t xs a h.1) e
  where
    go :
        (b : Bool) → (find? t xs ≡ some a → P a) → (if b then some x else find? t xs) ≡ some a → P a
    go true rest e' = subst P (some-inj e') h.0
    go false rest e' = rest e'

pub replace_slot-AreSound :
    (p : ℕ) (slot : PremiumSlot) (slots : List PremiumSlot)
    → AreSound slots
    → slot.liq_premium ≡ p
    → WaitsFit slot
    → AreSound (replace_slot p slot slots)
unfolding replace_slot
replace_slot-AreSound p slot slots h premium fits = record {
  distinct = replace_slot-HasDistinct p slot slots premium h.distinct;
  fit =
      All-append WaitsFit (filter (λ s. not (has_premium p s)) slots) (slot ∷ [])
        (All-filter WaitsFit (λ s. not (has_premium p s)) slots h.fit) (fits, tt);
}

-- The total follows the slot that is replaced: `k` leaves and `m` comes in.
pub replace_slot_total :
    (p : ℕ) (old slot : PremiumSlot) (slots : List PremiumSlot) (k m : ℕ)
    → AreSound slots
    → find? (has_premium p) slots ≡ some old
    → slot.total_bid_amount + k ≡ old.total_bid_amount + m
    → slots_total (replace_slot p slot slots) + k ≡ slots_total slots + m
replace_slot_total p old slot slots k m h found moved =
    omega (arith, sum_by-replace_slot slot_total p old slot slots h.distinct found)

module _ ⦃x : Crates⦄ where
  pub read_premium_slot-eq-ok :
      (queue : Queue) (premium : ℕ) (slot : PremiumSlot)
      → read_premium_slot queue premium ≡ ok slot
      → find? (has_premium slot.liq_premium) queue.slots ≡ some slot
  unfolding read_premium_slot
  read_premium_slot-eq-ok queue premium slot h =
      let (p, _, h₁) = >>=-eq-ok (Decimal256.percent premium) _ h in
      let found =
        or_err-eq-ok (find? (has_premium p) queue.slots) (generic_err "Invalid premium") h₁ in
      let at_p = find?-premium p queue.slots slot found in
      subst (λ q. find? (has_premium q) queue.slots ≡ some slot) (sym at_p) found
