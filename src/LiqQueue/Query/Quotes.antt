-- ===== src/LiqQueue/Query/Quotes.antt =====
-- `query_liquidatible` of contracts/liq-queue/src/query.rs.
use membrane_core.Prelude.{
  ℕ, ◌+◌, ◌≤◌, ◌≡◌, refl, sym, ◌∙◌, some-inj, subst, Bool, true, false, some, List, [], ◌∷◌, arith,
  not, ltb, ◌||◌, ◌==◌, if◌then◌else◌,
}
use membrane_core.Crates.{Crates}
use membrane_core.Result.{
  Result, ok, generic_err, ◌>>=◌, >>=-eq-ok, ok-injective, or_err, or_err-eq-ok, reject_if,
  reject_if-eq-ok,
}
use membrane_core.Asset.{AssetInfo, to_string, equal}
use membrane_core.Price.{PriceResponse, PriceResponse256, to_decimal256, get_value, get_amount}
use membrane_core.Math.Decimal256
use membrane_core.Math.Decimal256.{one}
use membrane_core.Math.Uint256
use membrane_core.LiqQueue.Types.{PremiumSlot, Queue}
use membrane_core.LiqQueue.State.{Store}
use membrane_core.LiqQueue.Counted.{slots_total, IsCounted}
use membrane_core.LiqQueue.Query.{Quote, quote_amounts, quote_slot, quote_slots, query_liquidatible}

-- No more is repaid than `total` adds, and no more is left than there was.
abbrev pub IsCovered : ℕ → Quote → Quote → Type 0
IsCovered total before after =
    (after.repaid ≤ before.repaid + total) × (after.remaining ≤ before.remaining)

module _ ⦃x : Crates⦄ where
  spent-IsCovered :
      (total required : ℕ) (q q' : Quote) (whole : Bool) (then_all : Result Quote)
      → (whole ≡ false → required ≤ total)
      → (then_all ≡ ok q' → IsCovered total q q')
      → (if whole then then_all else (do
        repaid ← Uint256.add q.repaid required
        ok (record { remaining = 0; repaid = repaid })))
        ≡ ok q'
      → IsCovered total q q'
  spent-IsCovered total required q q' true then_all below all h = all h
  spent-IsCovered total required q q' false then_all below all h =
      let (repaid, er, h₁) = >>=-eq-ok (Uint256.add q.repaid required) _ h in
      subst (IsCovered total q) (ok-injective h₁)
        (omega (arith, Uint256.add-eq-ok q.repaid required repaid er, below refl), omega arith)

  quote_amounts-IsCovered :
      (collateral credit : PriceResponse256) (slot : PremiumSlot) (q q' : Quote)
      → quote_amounts collateral credit slot q ≡ ok q'
      → IsCovered slot.total_bid_amount q q'
  unfolding quote_amounts
  quote_amounts-IsCovered collateral credit slot q q' h =
      let total = slot.total_bid_amount in
      let (value, _, h₁) = >>=-eq-ok (get_value collateral q.remaining) _ h in
      let (required, _, h₂) = >>=-eq-ok (get_amount credit value) _ h₁ in
      spent-IsCovered total required q q' (ltb total required) _ (λ e. ground arith)
        (λ e.
          let (spent_value, _, e₁) = >>=-eq-ok (get_value credit total) _ e in
          let (spent, _, e₂) = >>=-eq-ok (get_amount collateral spent_value) _ e₁ in
          let (remaining, em, e₃) = >>=-eq-ok (Uint256.sub q.remaining spent) _ e₂ in
          let (repaid, er, e₄) = >>=-eq-ok (Uint256.add q.repaid total) _ e₃ in
          subst (IsCovered total q) (ok-injective e₄) (
            omega (arith, Uint256.add-eq-ok q.repaid total repaid er),
            omega (arith, Uint256.sub-eq-ok q.remaining spent remaining em),
          ))
        h₂

  skip-IsCovered :
      (total : ℕ) (q q' : Quote) (empty : Bool) (rest : Result Quote)
      → (rest ≡ ok q' → IsCovered total q q')
      → (if empty then ok q else rest) ≡ ok q'
      → IsCovered total q q'
  skip-IsCovered total q q' true rest f h =
      subst (IsCovered total q) (ok-injective h) (omega arith, omega arith)
  skip-IsCovered total q q' false rest f h = f h

  quote_slot-IsCovered :
      (collateral_price credit_price : PriceResponse) (slot : PremiumSlot) (q q' : Quote)
      → quote_slot collateral_price credit_price slot q ≡ ok q'
      → IsCovered slot.total_bid_amount q q'
  unfolding quote_slot
  quote_slot-IsCovered collateral_price credit_price slot q q' h =
      skip-IsCovered slot.total_bid_amount q q' (slot.total_bid_amount == 0 || (q.remaining == 0)) _
        (λ e.
          let (collateral, _, e₁) = >>=-eq-ok (to_decimal256 collateral_price) _ e in
          let (credit, _, e₂) = >>=-eq-ok (to_decimal256 credit_price) _ e₁ in
          let (discount, _, e₃) = >>=-eq-ok (Decimal256.sub one slot.liq_premium) _ e₂ in
          let (price, _, e₄) = >>=-eq-ok (Decimal256.mul collateral.price discount) _ e₃ in
          quote_amounts-IsCovered (record collateral { price = price }) credit slot q q' e₄)
        h

  quote_slots-IsCovered :
      (collateral_price credit_price : PriceResponse) (slots : List PremiumSlot) (q q' : Quote)
      → quote_slots collateral_price credit_price slots q ≡ ok q'
      → IsCovered (slots_total slots) q q'
  unfolding quote_slots
  quote_slots-IsCovered collateral_price credit_price [] q q' h =
      subst (IsCovered 0 q) (ok-injective h) (omega arith, omega arith)
  quote_slots-IsCovered collateral_price credit_price (slot ∷ slots) q q' h =
      let (r, er, h₁) = >>=-eq-ok (quote_slot collateral_price credit_price slot q) _ h in
      let first = quote_slot-IsCovered collateral_price credit_price slot q r er in
      let rest = quote_slots-IsCovered collateral_price credit_price slots r q' h₁ in
      (omega (arith, first.0, rest.0), omega (arith, first.1, rest.1))

  -- What the query quotes for a queue whose total counts its slots never exceeds that total, the
  -- collateral that is left over never exceeds what was offered, and the queue bids with the asset
  -- that was asked for.
  pub query_liquidatible-IsCovered :
      (store : Store) (bid_for : AssetInfo) (collateral_price : PriceResponse) (collateral : ℕ)
      (credit_info : AssetInfo) (credit_price : PriceResponse) (queue : Queue) (q : Quote)
      → store.queues (to_string bid_for) ≡ some queue
      → IsCounted queue
      → query_liquidatible store bid_for collateral_price collateral credit_info credit_price ≡ ok q
      → (q.repaid ≤ queue.bid_asset.amount)
        × (q.remaining ≤ collateral)
        × (equal queue.bid_asset.info credit_info ≡ true)
  unfolding query_liquidatible
  query_liquidatible-IsCovered store bid_for collateral_price collateral credit_info credit_price
        queue q found counted h =
      let missing = generic_err "Queue for this asset doesn't exist" in
      let wrong = generic_err "Invalid bid denomination for {}" in
      let (r, er, h₁) = >>=-eq-ok (or_err (store.queues (to_string bid_for)) missing) _ h in
      let same : queue ≡ r =
        some-inj (sym found ∙ or_err-eq-ok (store.queues (to_string bid_for)) missing er) in
      let (_, ea, h₂) =
        >>=-eq-ok (reject_if (not (equal r.bid_asset.info credit_info)) wrong) _ h₁ in
      let covered =
        quote_slots-IsCovered collateral_price credit_price r.slots
          (record { remaining = collateral; repaid = 0 }) q h₂ in
      let asset = reject_if-eq-ok (not (equal r.bid_asset.info credit_info)) wrong ea in
      let books = subst IsCounted same counted in
      (
        ground (arith, covered.0, books.counted, same),
        covered.1,
        subst (λ s. equal s.bid_asset.info credit_info ≡ true) (sym same)
            (not-false (equal r.bid_asset.info credit_info) asset),
      )
    where
      not-false : (b : Bool) → not b ≡ false → b ≡ true
      not-false true e = refl
      not-false false e = cc
