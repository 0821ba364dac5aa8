-- ===== src/Vesting/Fees/Kept.antt =====
-- The claims of fees of contracts/vesting/src/contract.rs and the books.
use membrane_core.Prelude.{
  ℕ, ◌+◌, ◌≡◌, refl, sym, ap, subst, ◌∙◌, Bool, true, false, List, [], ◌∷◌, arith, not,
  if◌then◌else◌, filter, find?, sum_by-append, sum_by-filter,
}
use membrane_core.Crates.{Crates}
use membrane_core.Result.{
  ok, invalid_recipient, custom_error, >>=-eq-ok, ok-injective, must, or_err, or_err-eq-ok,
  reject_if,
}
use membrane_core.Asset.{Addr, Asset}
use membrane_core.Chain.{Env, MessageInfo}
use membrane_core.Math.Decimal.{Decimal}
use membrane_core.Vesting.Types.{
  Recipient, Config, Store, Response, load_config, load_recipients, save_recipients,
}
use membrane_core.Vesting.Withdraw.{has_address}
use membrane_core.Vesting.Books.{amount_of, book, Within, Within-IsSound, IsSolvent}
use membrane_core.Vesting.Fees.{
  Querier, is_empty, is_allocated, native_coins, clear_claimables, claim_fees_for_recipient,
  get_allocation_ratios, add_claim, credit, credit_all, share_rewards, claim_shared,
  claim_fees_for_contract,
}

-- Every book is the same.
abbrev pub Same : List Recipient → List Recipient → Type 0
Same before after = (g : Addr → ℕ → ℕ) → book g after ≡ book g before

Same-Within : (before after : List Recipient) → Same before after → Within before after
Same-Within before after same g = omega (arith, same g)

-- A store whose recipients changed within the books.
pub saved-IsSolvent :
    (s : Store) (recipients : List Recipient) (h : IsSolvent s)
    → Within h.recipients recipients
    → IsSolvent (save_recipients s recipients)
unfolding save_recipients
saved-IsSolvent s recipients h within = record {
  config = h.config;
  recipients = recipients;
  config_saved = h.config_saved;
  recipients_saved = refl;
  sound = Within-IsSound h.config.total_allocation h.recipients recipients within h.sound;
}

-- What is loaded is what the books are about.
pub loaded-recipients :
    (s : Store) (recipients : List Recipient) (h : IsSolvent s)
    → load_recipients s ≡ ok recipients
    → h.recipients ≡ recipients
unfolding load_recipients
loaded-recipients s recipients h e =
    ground (arith, h.recipients_saved, or_err-eq-ok s.recipients _ e)

clear-Same :
    (address : Addr) (recipients : List Recipient)
    → Same recipients (clear_claimables address recipients)
unfolding clear_claimables
clear-Same address [] g = refl
clear-Same address (r ∷ recipients) g =
    by_head (has_address address r) (clear-Same address recipients g)
  where
    by_head :
        (b : Bool)
        → book g (clear_claimables address recipients) ≡ book g recipients
        → book g (
            if b
            then record r { claimables = [] } ∷ recipients
            else r ∷ clear_claimables address recipients)
          ≡ book g (r ∷ recipients)
    by_head true h = refl
    by_head false h = ap (λ n. g r.recipient (amount_of r.allocation) + n) h

pub claim_fees_for_recipient-IsSolvent :
    (s s' : Store) (info : MessageInfo) (response : Response)
    → IsSolvent s
    → claim_fees_for_recipient s info ≡ ok (s', response)
    → IsSolvent s'
unfolding claim_fees_for_recipient
claim_fees_for_recipient-IsSolvent s s' info response h e =
    let (recipients, er, e₁) = >>=-eq-ok (load_recipients s) _ e in
    let (recipient, _, e₂) =
      >>=-eq-ok (or_err (find? (has_address info.sender) recipients) invalid_recipient) _ e₁ in
    let (_, _, e₃) =
      >>=-eq-ok (reject_if (is_empty recipient.claimables) (custom_error "Nothing to claim")) _
        e₂ in
    let (claimables, _, e₄) = >>=-eq-ok (native_coins [] recipient.claimables) _ e₃ in
    let same = loaded-recipients s recipients h er in
    subst IsSolvent (ap (λ p. p.0) (ok-injective e₄)) (
      saved-IsSolvent s (clear_claimables info.sender recipients) h (
        subst (λ rs. Within rs (clear_claimables info.sender recipients)) (sym same)
          (Same-Within recipients (clear_claimables info.sender recipients)
            (clear-Same info.sender recipients))))

module _ ⦃x : Crates⦄ where
  credit-Same :
      (claim : Asset) (recipients : List Recipient) (ratios : List Decimal)
      (credited : List Recipient)
      → credit claim recipients ratios ≡ ok credited
      → Same recipients credited
  unfolding credit
  credit-Same claim [] ratios credited h g = subst (λ rs. book g rs ≡ 0) (ok-injective h) refl
  credit-Same claim (r ∷ recipients) [] credited h g = cc
  credit-Same claim (r ∷ recipients) (ratio ∷ ratios) credited h g =
      let (share, _, h₁) = >>=-eq-ok (must (x.u128_mul_decimal claim.amount ratio)) _ h in
      let (claimables, _, h₂) = >>=-eq-ok (add_claim claim.info share r.claimables) _ h₁ in
      let (rest, er, h₃) = >>=-eq-ok (credit claim recipients ratios) _ h₂ in
      subst (λ rs. book g rs ≡ book g (r ∷ recipients)) (ok-injective h₃)
        (ap (λ n. g r.recipient (amount_of r.allocation) + n)
          (credit-Same claim recipients ratios rest er g))

  credit_all-Same :
      (claims : List Asset) (recipients : List Recipient) (ratios : List Decimal)
      (credited : List Recipient)
      → credit_all claims recipients ratios ≡ ok credited
      → Same recipients credited
  unfolding credit_all
  credit_all-Same [] recipients ratios credited h g =
      subst (λ rs. book g rs ≡ book g recipients) (ok-injective h) refl
  credit_all-Same (claim ∷ claims) recipients ratios credited h g =
      let (first, ef, h₁) = >>=-eq-ok (credit claim recipients ratios) _ h in
      credit_all-Same claims first ratios credited h₁ g
      ∙ credit-Same claim recipients ratios first ef g

  share_rewards-Same :
      (querier : Querier) (env : Env) (config : Config) (claims : List Asset)
      (recipients shared : List Recipient)
      → share_rewards querier env config claims recipients ≡ ok shared
      → Same recipients shared
  unfolding share_rewards
  share_rewards-Same querier env config claims recipients shared h g =
      let allocated = filter is_allocated recipients in
      let (ratios, _, h₁) = >>=-eq-ok (get_allocation_ratios querier env config allocated) _ h in
      let (credited, ec, h₂) = >>=-eq-ok (credit_all claims allocated ratios) _ h₁ in
      let others = filter (λ r. not (is_allocated r)) recipients in
      subst (λ rs. book g rs ≡ book g recipients) (ok-injective h₂)
        (omega (
          arith,
          sum_by-append (λ r. g r.recipient (amount_of r.allocation)) others credited,
          credit_all-Same claims allocated ratios credited ec g,
          sum_by-filter (λ r. g r.recipient (amount_of r.allocation)) is_allocated recipients,
        ))

  claim_shared-IsSolvent :
      (s s' : Store) (querier : Querier) (env : Env) (config : Config) (claims : List Asset)
      (response : Response)
      → IsSolvent s
      → claim_shared s querier env config claims ≡ ok (s', response)
      → IsSolvent s'
  unfolding claim_shared
  claim_shared-IsSolvent s s' querier env config claims response h e =
      let (recipients, er, e₁) = >>=-eq-ok (load_recipients s) _ e in
      let (shared, es, e₂) = >>=-eq-ok (share_rewards querier env config claims recipients) _ e₁ in
      let same = loaded-recipients s recipients h er in
      subst IsSolvent (ap (λ p. p.0) (ok-injective e₂)) (
        saved-IsSolvent s shared h (
          subst (λ rs. Within rs shared) (sym same)
            (Same-Within recipients shared
              (share_rewards-Same querier env config claims recipients shared es))))

  pub claim_fees_for_contract-IsSolvent :
      (s s' : Store) (querier : Querier) (env : Env) (response : Response)
      → IsSolvent s
      → claim_fees_for_contract s querier env ≡ ok (s', response)
      → IsSolvent s'
  unfolding claim_fees_for_contract
  claim_fees_for_contract-IsSolvent s s' querier env response h e =
      let (config, _, e₁) = >>=-eq-ok (load_config s) _ e in
      let (claims, _, e₂) =
        >>=-eq-ok (querier.user_rewards config.staking_contract env.contract_address) _ e₁ in
      by_claims config claims (is_empty claims) _ refl e₂
    where
      by_claims :
          (config : Config) (claims : List Asset) (empty : Bool) (unchanged : Store × Response)
          → s ≡ unchanged.0
          → (if empty then ok unchanged else claim_shared s querier env config claims)
            ≡ ok (s', response)
          → IsSolvent s'
      by_claims config claims true unchanged same k =
          subst IsSolvent (same ∙ ap (λ p. p.0) (ok-injective k)) h
      by_claims config claims false unchanged same k =
          claim_shared-IsSolvent s s' querier env config claims response h k
