-- ===== src/Vesting/Fees/Blocked.antt =====
-- `claim_fees_for_contract` of contracts/vesting/src/contract.rs and the allocations that it
-- divides.
use membrane_core.Prelude.{
  ℕ, ◌≤◌, ◌≡◌, refl, sym, subst, ◌∙◌, true, false, Option, none, some, List, [], ◌∷◌, arith,
  if◌then◌else◌, filter, All, some-inj,
}
use membrane_core.Crates.{Crates}
use membrane_core.Result.{ok, >>=-eq-ok, ok-injective, must, or_err-eq-ok, not_found}
use membrane_core.Asset.{Asset}
use membrane_core.Chain.{Env}
use membrane_core.Math.Decimal.{Decimal}
use membrane_core.Vesting.Types.{
  Allocation, Recipient, Config, Store, Response, load_config, load_recipients,
}
use membrane_core.Vesting.Fees.{
  Querier, is_empty, is_allocated, allocation_ratio, allocation_ratios, get_allocation_ratios,
  share_rewards, claim_shared, claim_fees_for_contract,
}

-- No more is withdrawn than the amount.
abbrev pub IsWithin : Option Allocation → Type 0
IsWithin none = Unit
IsWithin (some a) = a.amount_withdrawn ≤ a.amount

module _ ⦃x : Crates⦄ where
  ratio-IsWithin :
      (staked ratio : ℕ) (a : Option Allocation) → allocation_ratio staked a ≡ ok ratio → IsWithin a
  unfolding allocation_ratio
  ratio-IsWithin staked ratio none h = tt
  ratio-IsWithin staked ratio (some a) h =
      let (remaining, er, _) = >>=-eq-ok (must (x.u128_sub a.amount a.amount_withdrawn)) _ h in
      ground (arith, x.u128_sub_lem a.amount a.amount_withdrawn)

  ratios-IsWithin :
      (staked : ℕ) (recipients : List Recipient) (ratios : List Decimal)
      → allocation_ratios staked recipients ≡ ok ratios
      → All (λ r. IsWithin r.allocation) recipients
  unfolding allocation_ratios
  ratios-IsWithin staked [] ratios h = tt
  ratios-IsWithin staked (r ∷ recipients) ratios h =
      let (ratio, er, h₁) = >>=-eq-ok (allocation_ratio staked r.allocation) _ h in
      let (rest, es, _) = >>=-eq-ok (allocation_ratios staked recipients) _ h₁ in
      (ratio-IsWithin staked ratio r.allocation er, ratios-IsWithin staked recipients rest es)

  -- Those without an allocation are within it too.
  allocated-IsWithin :
      (recipients : List Recipient)
      → All (λ r. IsWithin r.allocation) (filter is_allocated recipients)
      → All (λ r. IsWithin r.allocation) recipients
  allocated-IsWithin [] h = tt
  allocated-IsWithin (r ∷ recipients) h =
      by_allocation r.allocation refl h (allocated-IsWithin recipients)
    where
      by_allocation :
          (a : Option Allocation)
          → r.allocation ≡ a
          → All
              (λ q. IsWithin q.allocation)
              (if elim a [ none ↦ false | some b ↦ true ]
                then r ∷ filter is_allocated recipients
                else filter is_allocated recipients)
          → (All (λ q. IsWithin q.allocation) (filter is_allocated recipients)
              → All (λ q. IsWithin q.allocation) recipients)
          → IsWithin r.allocation × All (λ q. IsWithin q.allocation) recipients
      by_allocation none e k tail = (subst IsWithin (sym e) tt, tail k)
      by_allocation (some a) e k tail = (k.0, tail k.1)

  claim_shared-AreWithin :
      (s s' : Store) (querier : Querier) (env : Env) (config : Config) (recipients : List Recipient)
      (claims : List Asset) (response : Response)
      → s.recipients ≡ some recipients
      → claim_shared s querier env config claims ≡ ok (s', response)
      → All (λ r. IsWithin r.allocation) recipients
  unfolding claim_shared share_rewards get_allocation_ratios load_recipients
  claim_shared-AreWithin s s' querier env config recipients claims response saved e =
      let (found, ef, e₁) = >>=-eq-ok (load_recipients s) _ e in
      let (_, er, _) = >>=-eq-ok (share_rewards querier env config claims found) _ e₁ in
      let allocated = filter is_allocated found in
      let (ratios, eq, _) = >>=-eq-ok (get_allocation_ratios querier env config allocated) _ er in
      let (staked, _, es) =
        >>=-eq-ok (querier.user_stake config.staking_contract env.contract_address) _ eq in
      let same : found ≡ recipients =
        some-inj (sym (or_err-eq-ok s.recipients not_found ef) ∙ saved) in
      subst (λ rs. All (λ r. IsWithin r.allocation) rs) same
        (allocated-IsWithin found (ratios-IsWithin staked allocated ratios es))

  -- A claim of fees for the contract that has something to claim succeeds only while no recipient has
  -- withdrawn more than the amount of its allocation.
  pub claim_fees_for_contract-AreWithin :
      (s s' : Store) (querier : Querier) (env : Env) (config : Config) (recipients : List Recipient)
      (claim : Asset) (claims : List Asset) (response : Response)
      → s.config ≡ some config
      → s.recipients ≡ some recipients
      → querier.user_rewards config.staking_contract env.contract_address ≡ ok (claim ∷ claims)
      → claim_fees_for_contract s querier env ≡ ok (s', response)
      → All (λ r. IsWithin r.allocation) recipients
  unfolding claim_fees_for_contract load_config
  claim_fees_for_contract-AreWithin s s' querier env config recipients claim claims response
        configured saved rewards e =
      let (loaded, el, e₁) = >>=-eq-ok (load_config s) _ e in
      let (found, ef, e₂) =
        >>=-eq-ok (querier.user_rewards loaded.staking_contract env.contract_address) _ e₁ in
      let same : config ≡ loaded = some-inj (sym configured ∙ or_err-eq-ok s.config not_found el) in
      let answer =
        subst
          (λ c. querier.user_rewards c.staking_contract env.contract_address ≡ ok (claim ∷ claims))
          same rewards in
      by_claims loaded found _ (ok-injective (sym ef ∙ answer)) e₂
    where
      by_claims :
          (loaded : Config) (found : List Asset) (unchanged : Store × Response)
          → found ≡ claim ∷ claims
          → (if is_empty found then ok unchanged else claim_shared s querier env loaded found)
            ≡ ok (s', response)
          → All (λ r. IsWithin r.allocation) recipients
      by_claims loaded [] unchanged k j = cc
      by_claims loaded (c ∷ cs) unchanged k j =
          claim_shared-AreWithin s s' querier env loaded recipients (c ∷ cs) response saved j
