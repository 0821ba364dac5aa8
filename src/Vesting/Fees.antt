-- ===== src/Vesting/Fees.antt =====
-- `claim_fees_for_recipient`, `claim_fees_for_contract` and `get_allocation_ratios` of
-- contracts/vesting/src/contract.rs. The staking contract is met by its queries.
pub mod Kept
pub mod Blocked
pub mod Rewards
use membrane_core.Prelude.{
  ℕ, Option, none, some, List, [], ◌∷◌, ◌++◌, Bool, true, false, not, find?, filter, if◌then◌else◌,
  String,
}
use membrane_core.Crates.{Crates}
use membrane_core.Result.{
  Result, ok, panic, invalid_recipient, custom_error, ◌>>=◌, ◌>>◌, must, or_err, reject_if,
}
use membrane_core.Asset.{Addr, AssetInfo, Asset, token, native_token, equal}
use membrane_core.Chain.{Coin, Env, MessageInfo, asset_to_coin}
use membrane_core.Math.Decimal.{Decimal, decimal_division}
use membrane_core.Vesting.Types.{
  Allocation, Recipient, Config, Store, CosmosMsg, bank_send, claim_rewards, AttrValue, text, coins,
  assets, Response, load_config, load_recipients, save_recipients,
}
use membrane_core.Vesting.Withdraw.{has_address}

-- What the staking contract (the first address) answers on a user (the second one): the claimables of
-- `UserRewards`, the total of `UserStake`.
pub record Querier : Type 0 where
  pub user_rewards : Addr → Addr → Result (List Asset)
  pub user_stake : Addr → Addr → Result ℕ

-- `claimables == vec![]`
abbrev pub is_empty {ℓ} : {A : Type ℓ} → List A → Bool
is_empty [] = true
is_empty (a ∷ list) = false

abbrev push_native : Asset → AssetInfo → List Coin → Result (List Coin)
push_native claimable (token address) claimed = ok claimed
push_native claimable (native_token denom) claimed = do
  coin ← asset_to_coin claimable
  ok (claimed ++ coin ∷ [])

-- The native ones of the claimables as coins, after those there are.
unfoldable pub native_coins : List Coin → List Asset → Result (List Coin)
native_coins claimed [] = ok claimed
native_coins claimed (claimable ∷ claimables) =
    push_native claimable claimable.info claimed >>= λ more. native_coins more claimables

-- `recipients[i].claimables = vec![]` at the first recipient of this address
unfoldable pub clear_claimables : Addr → List Recipient → List Recipient
clear_claimables address [] = []
clear_claimables address (r ∷ recipients) =
    let rest = clear_claimables address recipients in
    if has_address address r then record r { claimables = [] } ∷ recipients else r ∷ rest

unfoldable pub claim_fees_for_recipient : Store → MessageInfo → Result (Store × Response)
claim_fees_for_recipient store info = do
  recipients ← load_recipients store
  recipient ← or_err (find? (has_address info.sender) recipients) invalid_recipient
  reject_if (is_empty recipient.claimables) (custom_error "Nothing to claim")
  claimables ← native_coins [] recipient.claimables
  ok (
    save_recipients store (clear_claimables info.sender recipients),
    record {
      messages = bank_send recipient.recipient claimables ∷ [];
      attributes =
          ("method", text "claim_fees_for_recipient") ∷ ("claimables", coins claimables) ∷ [];
    },
  )

abbrev pub is_allocated : Recipient → Bool
is_allocated r = elim r.allocation [ none ↦ false | some a ↦ true ]

module _ ⦃x : Crates⦄ where
  -- The ratio of what remains of an allocation to what the contract has staked.
  unfoldable pub allocation_ratio : ℕ → Option Allocation → Result Decimal
  allocation_ratio staked_mbrn none = panic
  allocation_ratio staked_mbrn (some allocation) = do
    remaining ← must (x.u128_sub allocation.amount allocation.amount_withdrawn)
    remaining_dec ← must (x.decimal_from_ratio remaining 1)
    staked_dec ← must (x.decimal_from_ratio staked_mbrn 1)
    decimal_division remaining_dec staked_dec

  unfoldable pub allocation_ratios : ℕ → List Recipient → Result (List Decimal)
  allocation_ratios staked_mbrn [] = ok []
  allocation_ratios staked_mbrn (r ∷ recipients) = do
    ratio ← allocation_ratio staked_mbrn r.allocation
    ratios ← allocation_ratios staked_mbrn recipients
    ok (ratio ∷ ratios)

  unfoldable pub get_allocation_ratios :
      Querier → Env → Config → List Recipient → Result (List Decimal)
  get_allocation_ratios querier env config recipients = do
    staked_mbrn ← querier.user_stake config.staking_contract env.contract_address
    allocation_ratios staked_mbrn recipients

  -- The amount of a claim, before other claims, is raised.
  unfoldable pub raise_claim : Asset → ℕ → List Asset → Result (List Asset)
  raise_claim claim amount claims = do
    total ← must (x.u128_add claim.amount amount)
    ok (record claim { amount = total } ∷ claims)

  unfoldable pub keep_claim : Asset → Result (List Asset) → Result (List Asset)
  keep_claim claim claims = claims >>= λ rest. ok (claim ∷ rest)

  -- An amount more of an asset: on the first claim of it, or as a new claim.
  unfoldable pub add_claim : AssetInfo → ℕ → List Asset → Result (List Asset)
  add_claim info amount [] = ok (record { info = info; amount = amount } ∷ [])
  add_claim info amount (claim ∷ claims) =
      let rest = add_claim info amount claims in
      if equal claim.info info then raise_claim claim amount claims else keep_claim claim rest

  -- One asset, to each of the recipients by its ratio.
  unfoldable pub credit : Asset → List Recipient → List Decimal → Result (List Recipient)
  credit claim_asset [] ratios = ok []
  credit claim_asset (r ∷ recipients) [] = panic
  credit claim_asset (r ∷ recipients) (ratio ∷ ratios) = do
    share ← must (x.u128_mul_decimal claim_asset.amount ratio)
    claimables ← add_claim claim_asset.info share r.claimables
    rest ← credit claim_asset recipients ratios
    ok (record r { claimables = claimables } ∷ rest)

  unfoldable pub credit_all : List Asset → List Recipient → List Decimal → Result (List Recipient)
  credit_all [] recipients ratios = ok recipients
  credit_all (claim_asset ∷ claims) recipients ratios =
      credit claim_asset recipients ratios >>= λ credited. credit_all claims credited ratios

  -- The recipients after these rewards: those without an allocation come first.
  unfoldable pub share_rewards :
      Querier → Env → Config → List Asset → List Recipient → Result (List Recipient)
  share_rewards querier env config claimables recipients = do
    let allocated_recipients = filter is_allocated recipients
    ratios ← get_allocation_ratios querier env config allocated_recipients
    credited ← credit_all claimables allocated_recipients ratios
    ok (filter (λ r. not (is_allocated r)) recipients ++ credited)

  -- The attributes of a claim for the contract.
  abbrev pub claim_attributes : List Asset → List (String × AttrValue)
  claim_attributes claimables =
      ("method", text "claim_fees_for_contract") ∷ ("claimables", assets claimables) ∷ []

  -- With something to claim.
  unfoldable pub claim_shared :
      Store → Querier → Env → Config → List Asset → Result (Store × Response)
  claim_shared store querier env config claimables = do
    recipients ← load_recipients store
    new_recipients ← share_rewards querier env config claimables recipients
    ok (
      save_recipients store new_recipients,
      record {
        messages = claim_rewards config.staking_contract false none ∷ [];
        attributes = claim_attributes claimables;
      },
    )

  unfoldable pub claim_fees_for_contract : Store → Querier → Env → Result (Store × Response)
  claim_fees_for_contract store querier env = do
    config ← load_config store
    claimables ← querier.user_rewards config.staking_contract env.contract_address
    if is_empty claimables
        then ok (store, record { messages = []; attributes = claim_attributes claimables })
        else claim_shared store querier env config claimables
