-- ===== src/Vesting/Fees/Rewards.antt =====
-- How `claim_fees_for_contract` of contracts/vesting/src/contract.rs shares the rewards out.
use native.Mathlib.Nat.{div-mul-le_self, le_of_mul-le-mul_right, mul-add, add-mul}
use membrane_core.Prelude.{
  ℕ, ◌+◌, ◌-◌, ◌*◌, ◌/◌, ◌^◌, ◌≤◌, ◌<◌, ◌≢◌, ◌≡◌, refl, sym, ap, subst, ◌∙◌, Bool, true, false,
  Option, none, some, List, [], ◌∷◌, arith, not, if◌then◌else◌, filter, sum_by, sum_by-append,
  sum_by-filter, str_eq_iff,
}
use membrane_core.Crates.{Crates}
use membrane_core.Result.{Result, ok, >>=-eq-ok, ok-injective, must}
use membrane_core.Asset.{AssetInfo, Asset, token, native_token, equal}
use membrane_core.Chain.{Env}
use membrane_core.Math.Decimal.{Decimal, decimal_division-eq-ok}
use membrane_core.Vesting.Types.{Allocation, Recipient, Config}
use membrane_core.Vesting.Unlock.Payments.{share, share_lem, scaled_bound, from_ratio-eq-ok}
use membrane_core.Vesting.Fees.{
  Querier, is_allocated, allocation_ratio, allocation_ratios, get_allocation_ratios, raise_claim,
  keep_claim, add_claim, credit, credit_all, share_rewards,
}

-- How much of an asset is claimed in a list of claims, and by the recipients in all.
abbrev pub claimed : AssetInfo → List Asset → ℕ
claimed info = sum_by (λ c. if equal c.info info then c.amount else 0)

abbrev pub all_claimed : AssetInfo → List Recipient → ℕ
all_claimed info = sum_by (λ r. claimed info r.claimables)

-- What is left of an allocation, and of all of them.
abbrev pub remaining_of : Option Allocation → ℕ
remaining_of none = 0
remaining_of (some a) = a.amount - a.amount_withdrawn

abbrev pub all_remaining : List Recipient → ℕ
all_remaining = sum_by (λ r. remaining_of r.allocation)

equal-≡ : (a b : AssetInfo) → equal a b ≡ true → a ≡ b
unfolding equal
equal-≡ (token a) (token b) h = ap token ((str_eq_iff a b).0 h)
equal-≡ (token a) (native_token b) h = cc
equal-≡ (native_token a) (token b) h = cc
equal-≡ (native_token a) (native_token b) h = ap native_token ((str_eq_iff a b).0 h)

-- A quotient of a sum is at least the sum of the quotients.
quotients_bound : (m n : ℕ) → m / 10 ^ 18 + n / 10 ^ 18 ≤ (m + n) / 10 ^ 18
quotients_bound m n = omega arith

scaled_add : (a r s : ℕ) → a * r / 10 ^ 18 + a * s / 10 ^ 18 ≤ a * (r + s) / 10 ^ 18
scaled_add a r s = rw (mul-add a r s) (quotients_bound (a * r) (a * s))

module _ ⦃x : Crates⦄ where
  add_claim-claimed :
      (info other : AssetInfo) (amount : ℕ) (claims after : List Asset)
      → add_claim other amount claims ≡ ok after
      → claimed info after ≡ claimed info claims + (if equal other info then amount else 0)
  unfolding add_claim raise_claim keep_claim
  add_claim-claimed info other amount [] after h =
      subst (λ cs. claimed info cs ≡ 0 + (if equal other info then amount else 0)) (ok-injective h)
        (omega arith)
  add_claim-claimed info other amount (c ∷ claims) after h =
      by_head (equal c.info other) refl h
        (λ rest k. add_claim-claimed info other amount claims rest k)
    where
      raised :
          (b : Bool) {total : ℕ}
          → total ≡ c.amount + amount
          → (if b then total else 0) + claimed info claims
            ≡ (if b then c.amount else 0) + claimed info claims + (if b then amount else 0)
      raised true h = omega arith
      raised false h = omega arith

      rest_of : Result (List Asset)
      rest_of = add_claim other amount claims

      by_head :
          (b : Bool)
          → equal c.info other ≡ b
          → (if b then raise_claim c amount claims else keep_claim c rest_of) ≡ ok after
          → ((rest : List Asset)
              → rest_of ≡ ok rest
              → claimed info rest ≡ claimed info claims + (if equal other info then amount else 0))
          → claimed info after
            ≡ claimed info (c ∷ claims) + (if equal other info then amount else 0)
      by_head true e k tail =
          let (total, et, k₁) = >>=-eq-ok (must (x.u128_add c.amount amount)) _ k in
          let sum : total ≡ c.amount + amount = ground (arith, x.u128_add_lem c.amount amount) in
          let same : equal c.info info ≡ equal other info =
            ap (λ i. equal i info) (equal-≡ c.info other e) in
          subst
            (λ cs.
              claimed info cs
              ≡ claimed info (c ∷ claims) + (if equal other info then amount else 0))
            (ok-injective k₁) (rw same (raised (equal other info) sum))
      by_head false e k tail =
          let (rest, er, k₁) = >>=-eq-ok rest_of _ k in
          subst
            (λ cs.
              claimed info cs
              ≡ claimed info (c ∷ claims) + (if equal other info then amount else 0))
            (ok-injective k₁) (omega (arith, tail rest er))

  credit-bound :
      (info : AssetInfo) (claim : Asset) (recipients credited : List Recipient)
      (ratios : List Decimal)
      → credit claim recipients ratios ≡ ok credited
      → all_claimed info credited
        ≤ all_claimed info recipients
          + (if equal claim.info info then claim.amount * sum_by (λ r. r) ratios / 10 ^ 18 else 0)
  unfolding credit
  credit-bound info claim [] credited ratios h =
      subst
        (λ rs.
          all_claimed info rs
          ≤ 0
            + (if equal claim.info info
                then claim.amount * sum_by (λ r. r) ratios / 10 ^ 18
                else 0))
        (ok-injective h) (omega arith)
  credit-bound info claim (r ∷ recipients) credited [] h = cc
  credit-bound info claim (r ∷ recipients) credited (ratio ∷ ratios) h =
      let (share, es, h₁) = >>=-eq-ok (must (x.u128_mul_decimal claim.amount ratio)) _ h in
      let (claims, ec, h₂) = >>=-eq-ok (add_claim claim.info share r.claimables) _ h₁ in
      let (rest, er, h₃) = >>=-eq-ok (credit claim recipients ratios) _ h₂ in
      subst
        (λ rs.
          all_claimed info rs
          ≤ claimed info r.claimables
            + all_claimed info recipients
            + (if equal claim.info info
                then claim.amount * (ratio + sum_by (λ q. q) ratios) / 10 ^ 18
                else 0))
        (ok-injective h₃)
        (sum_lem (equal claim.info info) _ _ _ _ _ _ _ _
          (add_claim-claimed info claim.info share r.claimables claims ec)
          (credit-bound info claim recipients rest ratios er)
          (share_value claim.amount ratio share es)
          (scaled_add claim.amount ratio (sum_by (λ q. q) ratios)))
    where
      share_value : (a d s : ℕ) → must (x.u128_mul_decimal a d) ≡ ok s → s ≡ a * d / 10 ^ 18
      share_value a d s h = ground (arith, x.u128_mul_decimal_lem a d)

      sum_lem :
          (b : Bool) (after before rest old share scaled more all : ℕ)
          → after ≡ before + (if b then share else 0)
          → rest ≤ old + (if b then more else 0)
          → share ≡ scaled
          → scaled + more ≤ all
          → after + rest ≤ before + old + (if b then all else 0)
      sum_lem true after before rest old share scaled more all h k e s = omega arith
      sum_lem false after before rest old share scaled more all h k e s = omega arith

  -- All the claims, where the ratios make up at most one.
  credit_all-bound :
      (info : AssetInfo) (claims : List Asset) (recipients credited : List Recipient)
      (ratios : List Decimal)
      → sum_by (λ r. r) ratios ≤ 10 ^ 18
      → credit_all claims recipients ratios ≡ ok credited
      → all_claimed info credited ≤ all_claimed info recipients + claimed info claims
  unfolding credit_all
  credit_all-bound info [] recipients credited ratios small h =
      subst (λ rs. all_claimed info rs ≤ all_claimed info recipients + 0) (ok-injective h)
        (omega arith)
  credit_all-bound info (claim ∷ claims) recipients credited ratios small h =
      let (first, ef, h₁) = >>=-eq-ok (credit claim recipients ratios) _ h in
      by_info (equal claim.info info) _ _ _ _ _ (credit-bound info claim recipients first ratios ef)
        (credit_all-bound info claims first credited ratios small h₁)
        (scaled_bound claim.amount (sum_by (λ r. r) ratios) small)
    where
      by_info :
          (b : Bool) (after middle before scaled more : ℕ)
          → middle ≤ before + (if b then scaled else 0)
          → after ≤ middle + more
          → scaled ≤ claim.amount
          → after ≤ before + ((if b then claim.amount else 0) + more)
      by_info true after middle before scaled more h k s = omega arith
      by_info false after middle before scaled more h k s = omega arith

  ratio-bound :
      (staked ratio : ℕ) (a : Option Allocation)
      → allocation_ratio staked a ≡ ok ratio
      → (0 < staked) × (ratio * staked ≤ remaining_of a * 10 ^ 18)
  unfolding allocation_ratio
  ratio-bound staked ratio none h = cc
  ratio-bound staked ratio (some a) h =
      let (remaining, er, h₁) = >>=-eq-ok (must (x.u128_sub a.amount a.amount_withdrawn)) _ h in
      let (r, ea, h₂) = >>=-eq-ok (must (x.decimal_from_ratio remaining 1)) _ h₁ in
      let (s, es, h₃) = >>=-eq-ok (must (x.decimal_from_ratio staked 1)) _ h₂ in
      let left : remaining ≡ a.amount - a.amount_withdrawn =
        ground (arith, x.u128_sub_lem a.amount a.amount_withdrawn) in
      let (nonzero, quotient) = decimal_division-eq-ok r s ratio h₃ in
      let value =
        share_lem remaining staked r s ratio (from_ratio-eq-ok remaining r ea)
          (from_ratio-eq-ok staked s es) quotient in
      (
        positive (from_ratio-eq-ok staked s es) nonzero,
        rw value (rw (sym left) (div-mul-le_self (remaining * 10 ^ 18) staked)),
      )
    where
      positive : {n m : ℕ} → n ≡ m * 10 ^ 18 → n ≢ 0 → 0 < m
      positive h k = ground arith

  ratios-bound :
      (staked : ℕ) (recipients : List Recipient) (ratios : List Decimal)
      → allocation_ratios staked recipients ≡ ok ratios
      → sum_by (λ r. r) ratios * staked ≤ all_remaining recipients * 10 ^ 18
  unfolding allocation_ratios
  ratios-bound staked [] ratios h =
      subst (λ rs. sum_by (λ r. r) rs * staked ≤ 0 * 10 ^ 18) (ok-injective h) (omega arith)
  ratios-bound staked (r ∷ recipients) ratios h =
      let (ratio, er, h₁) = >>=-eq-ok (allocation_ratio staked r.allocation) _ h in
      let (rest, es, h₂) = >>=-eq-ok (allocation_ratios staked recipients) _ h₁ in
      subst (λ rs. sum_by (λ q. q) rs * staked ≤ all_remaining (r ∷ recipients) * 10 ^ 18)
        (ok-injective h₂)
        (rw (add-mul ratio (sum_by (λ q. q) rest) staked) (
          sum_lem _ _ _ _ (ratio-bound staked ratio r.allocation er).1
            (ratios-bound staked recipients rest es)))
    where
      sum_lem : (m n p q : ℕ) → m ≤ p * 10 ^ 18 → n ≤ q * 10 ^ 18 → m + n ≤ (p + q) * 10 ^ 18
      sum_lem m n p q h k = omega arith

  ratios-small :
      (staked : ℕ) (recipients : List Recipient) (ratios : List Decimal)
      → all_remaining recipients ≤ staked
      → allocation_ratios staked recipients ≡ ok ratios
      → sum_by (λ r. r) ratios ≤ 10 ^ 18
  unfolding allocation_ratios
  ratios-small staked [] ratios h e =
      subst (λ rs. sum_by (λ r. r) rs ≤ 10 ^ 18) (ok-injective e) (omega arith)
  ratios-small staked (r ∷ recipients) ratios h e =
      let (ratio, er, _) = >>=-eq-ok (allocation_ratio staked r.allocation) _ e in
      let bound = ratios-bound staked (r ∷ recipients) ratios e in
      le_of_mul-le-mul_right (omega (arith, bound, h)) (ratio-bound staked ratio r.allocation er).0

  -- As long as the contract has staked at least what remains of all the allocations together, sharing
  -- the staking rewards out credits the recipients with no more of any asset, all together and beside
  -- what they had, than the rewards hold of it.
  pub share_rewards-bound :
      (querier : Querier) (env : Env) (config : Config) (claims : List Asset)
      (recipients shared : List Recipient) (staked : ℕ) (info : AssetInfo)
      → querier.user_stake config.staking_contract env.contract_address ≡ ok staked
      → all_remaining recipients ≤ staked
      → share_rewards querier env config claims recipients ≡ ok shared
      → all_claimed info shared ≤ all_claimed info recipients + claimed info claims
  unfolding share_rewards get_allocation_ratios
  share_rewards-bound querier env config claims recipients shared staked info answer enough h =
      let allocated = filter is_allocated recipients in
      let others = filter (λ r. not (is_allocated r)) recipients in
      let (ratios, er, h₁) = >>=-eq-ok (get_allocation_ratios querier env config allocated) _ h in
      let (found, ef, er₁) =
        >>=-eq-ok (querier.user_stake config.staking_contract env.contract_address) _ er in
      let (credited, ec, h₂) = >>=-eq-ok (credit_all claims allocated ratios) _ h₁ in
      let covered : all_remaining allocated ≤ found = omega (
        arith,
        sum_by-filter (λ r. remaining_of r.allocation) is_allocated recipients,
        enough,
        ok-injective (sym answer ∙ ef),
      ) in
      subst (λ rs. all_claimed info rs ≤ all_claimed info recipients + claimed info claims)
        (ok-injective h₂)
        (omega (
          arith,
          sum_by-append (λ r. claimed info r.claimables) others credited,
          sum_by-filter (λ r. claimed info r.claimables) is_allocated recipients,
          credit_all-bound info claims allocated credited ratios
              (ratios-small found allocated ratios covered er₁) ec,
        ))
