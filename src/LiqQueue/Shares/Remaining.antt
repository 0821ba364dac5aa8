-- ===== src/LiqQueue/Shares/Remaining.antt =====
-- What a bid has left: `calculate_remaining_bid` of contracts/liq-queue/src/bid.rs.
use native.Mathlib.Nat.{
  mul-le-mul, div-le_self, div-le_of_le-mul, mul-le-mul_left, div-eq_of_eq-mul_left,
}
use membrane_core.Prelude.{
  ℕ, ◌+◌, ◌-◌, ◌*◌, ◌/◌, ◌%◌, ◌^◌, ◌<◌, ◌≤◌, ◌≡◌, sym, ◌∙◌, arith, ◌==◌, if◌then◌else◌,
}
use membrane_core.Crates.{Crates}
use membrane_core.Result.{ok}
use membrane_core.Math.Decimal256
use membrane_core.Math.Decimal256.{fractional}
use membrane_core.LiqQueue.Types.{Bid, PremiumSlot}
use membrane_core.LiqQueue.Pool.{scale_factor}
use membrane_core.LiqQueue.Shares.{compounded, remaining_bid_dec, calculate_remaining_bid}
use membrane_core.LiqQueue.Shares.Residues.{to_integer_lem}

-- A bid that was activated in this slot: its snapshots are not ahead of the slot's counters.
pub record IsActiveIn (slot : PremiumSlot) (bid : Bid) : Type 0 where
  pub amount_fits : bid.amount < 2 ^ 128
  pub product_pos : 0 < bid.product_snapshot
  pub product_le : slot.product_snapshot ≤ fractional
  pub scale_le : bid.scale_snapshot ≤ slot.current_scale
  pub epoch_le : bid.epoch_snapshot ≤ slot.current_epoch

-- The product has fallen since the bid was activated, or was raised by one scale.
abbrev pub IsShrunk : PremiumSlot → Bid → Type 0
IsShrunk slot bid =
    (slot.current_scale ≡ bid.scale_snapshot → slot.product_snapshot ≤ bid.product_snapshot)
    × (slot.product_snapshot ≤ bid.product_snapshot * scale_factor)

-- amount * P / P₀ as a decimal, rounded down once.
abbrev pub compounded_value : Bid → PremiumSlot → ℕ
compounded_value bid slot = bid.amount * slot.product_snapshot * fractional / bid.product_snapshot

-- What is left of the bid, by the epochs and scales that have passed.
abbrev pub remaining_value : Bid → PremiumSlot → ℕ
remaining_value bid slot =
    if slot.current_epoch == bid.epoch_snapshot
    then (if slot.current_scale == bid.scale_snapshot
        then compounded_value bid slot
        else if slot.current_scale == bid.scale_snapshot + 1
        then compounded_value bid slot / scale_factor
        else 0)
    else 0

pub amount-mul_bound : (a p : ℕ) → a < 2 ^ 128 → p ≤ fractional → a * p ≤ 2 ^ 128 * fractional
amount-mul_bound a p h k = mul-le-mul {n₁ = a} {m₁ = p} {n₂ = 2 ^ 128} (omega arith) k

pub from-mul-cancel : (a p : ℕ) → a * fractional * p / fractional ≡ a * p
from-mul-cancel a p = omega arith

compounded_value-lt :
    (bid : Bid) (slot : PremiumSlot) → IsActiveIn slot bid → compounded_value bid slot < 2 ^ 256
compounded_value-lt bid slot h = omega (
  arith,
  amount-mul_bound bid.amount slot.product_snapshot h.amount_fits h.product_le,
  div-le_self (bid.amount * slot.product_snapshot * fractional) bid.product_snapshot,
)

-- a * p * f / q ≤ a * f * k, where p ≤ q * k.
ratio-le : (a p q k : ℕ) → 0 < q → p ≤ q * k → a * p * fractional / q ≤ a * fractional * k
ratio-le a p q k pos h = div-le_of_le-mul q (omega (arith, mul-le-mul_left (a * fractional) h))

ratio_self : (a q : ℕ) → 0 < q → a * q * fractional / q ≡ a * fractional
ratio_self a q pos = div-eq_of_eq-mul_left pos (omega arith)

remaining_value-lt :
    (bid : Bid) (slot : PremiumSlot) → IsActiveIn slot bid → remaining_value bid slot < 2 ^ 256
remaining_value-lt bid slot h = ground (arith, compounded_value-lt bid slot h)

remaining_value-le :
    (bid : Bid) (slot : PremiumSlot)
    → IsActiveIn slot bid
    → IsShrunk slot bid
    → remaining_value bid slot ≤ bid.amount * fractional
remaining_value-le bid slot h k = ground (
  arith,
  λ (le : slot.product_snapshot ≤ bid.product_snapshot * 1).
      ratio-le bid.amount slot.product_snapshot bid.product_snapshot 1 h.product_pos le,
  ratio-le bid.amount slot.product_snapshot bid.product_snapshot scale_factor h.product_pos k.1,
)

remaining_value_whole :
    (bid : Bid) (slot : PremiumSlot)
    → 0 < bid.product_snapshot
    → slot.current_epoch ≡ bid.epoch_snapshot
    → slot.current_scale ≡ bid.scale_snapshot
    → slot.product_snapshot ≡ bid.product_snapshot
    → remaining_value bid slot ≡ bid.amount * fractional
remaining_value_whole bid slot pos e s p =
    rw (e, s, p) (ground (arith, ratio_self bid.amount bid.product_snapshot pos))

module _ ⦃x : Crates⦄ where
  compounded_lem :
      (bid : Bid) (slot : PremiumSlot)
      → IsActiveIn slot bid
      → compounded bid slot.product_snapshot ≡ ok (compounded_value bid slot)
  unfolding compounded
  compounded_lem bid slot h =
      let bound = amount-mul_bound bid.amount slot.product_snapshot h.amount_fits h.product_le in
      ground (
        arith,
        bound,
        from-mul-cancel bid.amount slot.product_snapshot,
        Decimal256.from_uint256_lem bid.amount,
        Decimal256.mul_lem (bid.amount * fractional) slot.product_snapshot,
        Decimal256.div_lem (bid.amount * slot.product_snapshot) bid.product_snapshot (omega arith),
      )

  remaining_bid_dec_lem :
      (bid : Bid) (slot : PremiumSlot)
      → IsActiveIn slot bid
      → remaining_bid_dec bid slot
          (slot.current_epoch - bid.epoch_snapshot)
          (slot.current_scale - bid.scale_snapshot)
        ≡ ok (remaining_value bid slot)
  unfolding remaining_bid_dec
  remaining_bid_dec_lem bid slot h =
      ground
        (arith, compounded_lem bid slot h, x.u256_div_lem (compounded_value bid slot) scale_factor)

  -- A bid of a u128 amount and a positive product, whose scale and epoch are not ahead of the
  -- slot's, in a slot whose product is at most one, has a remaining amount and a residue, always:
  -- together they are the bid's amount times the slot's product over the bid's, divided by 10 ^ 9 after one
  -- change of scale, and nothing after more or after a new epoch.
  pub calculate_remaining_bid_lem :
      (bid : Bid) (slot : PremiumSlot)
      → IsActiveIn slot bid
      → calculate_remaining_bid bid slot
        ≡ ok (remaining_value bid slot / fractional, remaining_value bid slot % fractional)
  unfolding calculate_remaining_bid
  calculate_remaining_bid_lem bid slot h = ground (
    arith,
    x.u128_sub_lem slot.current_scale bid.scale_snapshot,
    x.u128_sub_lem slot.current_epoch bid.epoch_snapshot,
    remaining_bid_dec_lem bid slot h,
    to_integer_lem (remaining_value bid slot) (remaining_value-lt bid slot h),
  )

  -- For a bid of a u128 amount and a positive product, whose scale and epoch are not ahead of the
  -- slot's, in a slot whose product is at most one: while the product only falls, by steps of scale
  -- of 10 ^ 9, the bid never has more left than its amount; and an untouched slot gives back the
  -- whole bid, with no residue.
  pub calculate_remaining_bid_bounds :
      (bid : Bid) (slot : PremiumSlot) (remaining residue : ℕ)
      → IsActiveIn slot bid
      → IsShrunk slot bid
      → calculate_remaining_bid bid slot ≡ ok (remaining, residue)
      → (remaining ≤ bid.amount)
        × (residue < fractional)
        × (slot.current_epoch ≡ bid.epoch_snapshot
            → slot.current_scale ≡ bid.scale_snapshot
            → slot.product_snapshot ≡ bid.product_snapshot
            → (remaining ≡ bid.amount) × (residue ≡ 0))
  calculate_remaining_bid_bounds bid slot remaining residue h k e =
      let value = sym (calculate_remaining_bid_lem bid slot h) ∙ e in
      let below = remaining_value-le bid slot h k in
      (
        ground (arith, value, below),
        ground (arith, value),
        λ ee es ep.
            let whole = remaining_value_whole bid slot h.product_pos ee es ep in
            (ground (arith, value, whole), ground (arith, value, whole)),
      )
