-- ===== src/LiqQueue/Slots/Lookup.antt =====
-- `read_premium_slot` and `store_premium_slot` of contracts/liq-queue/src/bid.rs.
use membrane_core.Prelude.{
  ℕ, ◌+◌, ◌*◌, ◌<◌, ◌≡◌, ◌≢◌, refl, sym, subst, Bool, not, some, none, List, [], ◌∷◌, ◌++◌, arith,
  ◌==◌, if◌then◌else◌, find?, filter, All, sum_by, sum_by-append, All-append, All-filter,
  Bool-cases, inl, inr,
}
use membrane_core.Crates.{Crates}
use membrane_core.Result.{ok}
use membrane_core.Math.Decimal256
use membrane_core.LiqQueue.Types.{PremiumSlot, Queue}
use membrane_core.LiqQueue.Slots.{
  push, has_premium, replace_slot, store_premium_slot, read_premium_slot,
}

-- No two slots have one premium.
abbrev pub HasDistinct : List PremiumSlot → Type 0
HasDistinct [] = Unit
HasDistinct (s ∷ ss) = All (λ t. t.liq_premium ≢ s.liq_premium) ss × HasDistinct ss

pub find?-premium :
    (p : ℕ) (slots : List PremiumSlot) (slot : PremiumSlot)
    → find? (has_premium p) slots ≡ some slot
    → slot.liq_premium ≡ p
find?-premium p [] slot h = cc
find?-premium p (s ∷ ss) slot h = ground (arith, find?-premium p ss slot)

find?-filter-none :
    (p : ℕ) (slots : List PremiumSlot)
    → find? (has_premium p) (filter (λ s. not (has_premium p s)) slots) ≡ none
find?-filter-none p [] = refl
find?-filter-none p (s ∷ ss) = ground (arith, find?-filter-none p ss)

find?-filter_ne :
    (p q : ℕ) (slots : List PremiumSlot)
    → p ≢ q
    → find? (has_premium q) (filter (λ s. not (has_premium p s)) slots)
      ≡ find? (has_premium q) slots
find?-filter_ne p q [] h = refl
find?-filter_ne p q (s ∷ ss) h = ground (arith, find?-filter_ne p q ss h)

find?-append {ℓ} :
    {A : Type ℓ} (t : A → Bool) (xs : List A) (y : A)
    → find? t (xs ++ y ∷ [])
      ≡ elim (find? t xs) [ none ↦ if t y then some y else none | some x ↦ some x ]
find?-append t [] y = refl
find?-append t (x ∷ xs) y = ground (arith, find?-append t xs y)

-- A slot that is written back is found under its premium, and every other slot as before.
pub find?-replace_slot :
    (p q : ℕ) (slot : PremiumSlot) (slots : List PremiumSlot)
    → slot.liq_premium ≡ p
    → find? (has_premium q) (replace_slot p slot slots)
      ≡ (if p == q then some slot else find? (has_premium q) slots)
unfolding replace_slot
find?-replace_slot p q slot slots e = ground (
  arith,
  find?-append (has_premium q) (filter (λ s. not (has_premium p s)) slots) slot,
  find?-filter-none p slots,
  find?-filter_ne p q slots,
)

filter_distinct :
    (p : ℕ) (slots : List PremiumSlot)
    → All (λ t. t.liq_premium ≢ p) slots
    → filter (λ s. not (has_premium p s)) slots ≡ slots
filter_distinct p [] h = refl
filter_distinct p (s ∷ ss) h = ground (arith, filter_distinct p ss h.1)

All-filter_premium :
    (p : ℕ) (slots : List PremiumSlot)
    → All (λ t. t.liq_premium ≢ p) (filter (λ s. not (has_premium p s)) slots)
All-filter_premium p [] = tt
All-filter_premium p (s ∷ ss) = ground (arith, All-filter_premium p ss)

filter-HasDistinct :
    (p : ℕ) (slots : List PremiumSlot)
    → HasDistinct slots
    → HasDistinct (filter (λ s. not (has_premium p s)) slots)
filter-HasDistinct p [] h = tt
filter-HasDistinct p (s ∷ ss) h = ground (
  arith,
  filter-HasDistinct p ss h.1,
  All-filter (λ t. t.liq_premium ≢ s.liq_premium) (λ s. not (has_premium p s)) ss h.0,
)

push-HasDistinct :
    (slots : List PremiumSlot) (slot : PremiumSlot)
    → All (λ t. t.liq_premium ≢ slot.liq_premium) slots
    → HasDistinct slots
    → HasDistinct (push slots slot)
push-HasDistinct [] slot new h = (tt, tt)
push-HasDistinct (s ∷ ss) slot new h = (
  All-append (λ t. t.liq_premium ≢ s.liq_premium) ss (slot ∷ []) h.0 ((λ e. new.0 (sym e)), tt),
  push-HasDistinct ss slot new.1 h.1,
)

pub replace_slot-HasDistinct :
    (p : ℕ) (slot : PremiumSlot) (slots : List PremiumSlot)
    → slot.liq_premium ≡ p
    → HasDistinct slots
    → HasDistinct (replace_slot p slot slots)
unfolding replace_slot
replace_slot-HasDistinct p slot slots e h =
    push-HasDistinct (filter (λ s. not (has_premium p s)) slots) slot
      (rw e (All-filter_premium p slots)) (filter-HasDistinct p slots h)

sum_by-filter :
    (f : PremiumSlot → ℕ) (p : ℕ) (old : PremiumSlot) (slots : List PremiumSlot)
    → HasDistinct slots
    → find? (has_premium p) slots ≡ some old
    → sum_by f (filter (λ s. not (has_premium p s)) slots) + f old ≡ sum_by f slots
sum_by-filter f p old [] h e = cc
sum_by-filter f p old (s ∷ ss) h e = elim (Bool-cases (has_premium p s)) [
  | inl hit ↦
      let at_p : s.liq_premium ≡ p = ground arith in
      let others = subst (λ q. All (λ t. t.liq_premium ≢ q) ss) at_p h.0 in
      ground (arith, filter_distinct p ss others)
  | inr miss ↦ ground (arith, sum_by-filter f p old ss h.1)
]

-- Where the premiums are distinct, a sum over the slots changes by the slot that is replaced.
pub sum_by-replace_slot :
    (f : PremiumSlot → ℕ) (p : ℕ) (old slot : PremiumSlot) (slots : List PremiumSlot)
    → HasDistinct slots
    → find? (has_premium p) slots ≡ some old
    → sum_by f (replace_slot p slot slots) + f old ≡ sum_by f slots + f slot
unfolding replace_slot
sum_by-replace_slot f p old slot slots h e = omega (
  arith,
  sum_by-append f (filter (λ s. not (has_premium p s)) slots) (slot ∷ []),
  sum_by-filter f p old slots h e,
)

module _ ⦃x : Crates⦄ where
  -- A slot that is written back is what `read_premium_slot` returns at its own premium; at any other
  -- premium of one byte it returns what it returned before, the error included.
  pub read-store_premium_slot :
      (queue : Queue) (slot : PremiumSlot) (premium : ℕ)
      → premium < 256
      → read_premium_slot (store_premium_slot queue slot) premium ≡ (
          if slot.liq_premium == premium * 10_000_000_000_000_000
          then ok slot
          else read_premium_slot queue premium)
  unfolding read_premium_slot store_premium_slot
  read-store_premium_slot queue slot premium h = rw (Decimal256.percent_lem premium (omega arith)) (
      ground (
        arith,
        find?-replace_slot slot.liq_premium (premium * 10_000_000_000_000_000) slot queue.slots
            refl,
      ))
