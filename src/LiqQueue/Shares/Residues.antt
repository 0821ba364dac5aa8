-- ===== src/LiqQueue/Shares/Residues.antt =====
-- Whole parts and residues: `to_integer`, `claim_bid_residue` and `claim_col_residue` of
-- contracts/liq-queue/src/bid.rs.
use membrane_core.Prelude.{ℕ, ◌*◌, ◌/◌, ◌%◌, ◌^◌, ◌<◌, ◌≡◌, arith}
use membrane_core.Crates.{Crates}
use membrane_core.Result.{ok}
use membrane_core.Math.Decimal256
use membrane_core.Math.Decimal256.{fractional}
use membrane_core.Math.Uint256
use membrane_core.LiqQueue.Types.{PremiumSlot}
use membrane_core.LiqQueue.Shares.{to_integer, claim_bid_residue, claim_col_residue}

module _ ⦃x : Crates⦄ where
  -- `to_integer` always succeeds, with quotient and remainder.
  pub to_integer_lem : (d : ℕ) → d < 2 ^ 256 → to_integer d ≡ ok (d / fractional, d % fractional)
  unfolding to_integer
  to_integer_lem d h = rw (Uint256.whole_lem d h) (
      ground (
        arith,
        Decimal256.from_uint256_lem (d / fractional),
        Decimal256.sub_lem d (d / fractional * fractional),
      ))

  -- Of a slot's bid residue, a 256-bit decimal, the whole part is claimed and the rest of it stays:
  -- the claim always succeeds, nothing is lost in it, and what stays is less than one unit.
  pub claim_bid_residue_lem :
      (slot : PremiumSlot)
      → slot.residue_bid < 2 ^ 256
      → claim_bid_residue slot
        ≡ ok (
          slot.residue_bid / fractional,
          record slot { residue_bid = slot.residue_bid % fractional },
        )
  unfolding claim_bid_residue
  claim_bid_residue_lem slot h = rw (Uint256.whole_lem slot.residue_bid h) (
      ground (
        arith,
        Decimal256.from_uint256_lem (slot.residue_bid / fractional),
        Decimal256.sub_lem slot.residue_bid (slot.residue_bid / fractional * fractional),
      ))

  -- Of a slot's residue of collateral, a 256-bit decimal, the whole part is claimed and the rest of
  -- it stays: the claim always succeeds, nothing is lost in it, and what stays is less than one unit.
  pub claim_col_residue_lem :
      (slot : PremiumSlot)
      → slot.residue_collateral < 2 ^ 256
      → claim_col_residue slot
        ≡ ok (
          slot.residue_collateral / fractional,
          record slot { residue_collateral = slot.residue_collateral % fractional },
        )
  unfolding claim_col_residue
  claim_col_residue_lem slot h = rw (Uint256.whole_lem slot.residue_collateral h) (
      ground (
        arith,
        Decimal256.from_uint256_lem (slot.residue_collateral / fractional),
        Decimal256.sub_lem slot.residue_collateral
            (slot.residue_collateral / fractional * fractional),
      ))
