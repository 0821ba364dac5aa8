-- ===== src/Vesting/Contract/Solvent.antt =====
-- The stores that calls of contracts/vesting/src/contract.rs reach, and the books.
use membrane_core.Prelude.{
  ℕ, ◌≤◌, ◌≡◌, refl, sym, ap, subst, ◌∙◌, Bool, true, false, Option, none, some, arith, str_eq,
  if◌then◌else◌, some-inj, find?,
}
use membrane_core.Crates.{Crates}
use membrane_core.Result.{
  ok, err, not_found, unauthorized, invalid_recipient, ◌>>=◌, >>=-eq-ok, ok-injective, or_err,
  or_err-eq-ok,
}
use membrane_core.Asset.{Addr}
use membrane_core.Chain.{Env, MessageInfo, validate_option}
use membrane_core.Vesting.Types.{
  Config, Store, Proposal, ProposalVoteOption, Response, load_config, load_recipients, save_config,
}
use membrane_core.Vesting.Withdraw.{has_address}
use membrane_core.Vesting.Admin.{
  ConfigUpdate, authorize, valid_owner, add_total, transfer_owner, update_config, submit_proposal,
  cast_vote,
}
use membrane_core.Vesting.Books.{IsSolvent}
use membrane_core.Vesting.Fees.{Querier}
use membrane_core.Vesting.Fees.Kept.{
  claim_fees_for_recipient-IsSolvent, claim_fees_for_contract-IsSolvent,
}
use membrane_core.Vesting.Contract.Created.{instantiate-IsSolvent}
use membrane_core.Vesting.Contract.Recipients.{
  remove_recipient-IsSolvent, withdraw_unlocked-IsSolvent, add_recipient-IsSolvent,
  add_allocation-IsSolvent,
}
use membrane_core.Vesting.Contract.{
  ExecuteMsg, new_recipient, old_recipient, new_share, withdraw, contract_fees, recipient_fees,
  propose, vote_on, configure, execute, IsReachable, created, called,
}

module _ ⦃x : Crates⦄ where
  authorize-total :
      (s : Store) (old config : Config) (sender : Addr)
      → authorize s old sender ≡ ok config
      → config.total_allocation ≡ old.total_allocation
  unfolding authorize
  authorize-total s old config sender h = by_owner (str_eq sender old.owner) h
    where
      by_owner :
          (b : Bool)
          → (if b
              then ok old
              else (or_err s.ownership_transfer not_found >>= λ pending.
                  if str_eq sender pending
                  then ok (record old { owner = sender })
                  else err unauthorized))
            ≡ ok config
          → config.total_allocation ≡ old.total_allocation
      by_owner true k = ap (λ c. c.total_allocation) (sym (ok-injective k))
      by_owner false k =
          let (pending, _, k₁) = >>=-eq-ok (or_err s.ownership_transfer not_found) _ k in
          by_pending (str_eq sender pending) k₁
        where
          by_pending :
              (b : Bool)
              → (if b then ok (record old { owner = sender }) else err unauthorized) ≡ ok config
              → config.total_allocation ≡ old.total_allocation
          by_pending true j = ap (λ c. c.total_allocation) (sym (ok-injective j))
          by_pending false j = cc

  add_total-grows :
      (additional : Option ℕ) (total total' : ℕ)
      → add_total additional total ≡ ok total'
      → total ≤ total'
  unfolding add_total
  add_total-grows none total total' h = omega (arith, ok-injective h)
  add_total-grows (some more) total total' h = ground (arith, x.u128_add_lem total more)

  transfer_owner-recipients :
      (s : Store) (owner : Option Addr) → (transfer_owner s owner).recipients ≡ s.recipients
  unfolding transfer_owner
  transfer_owner-recipients s none = refl
  transfer_owner-recipients s (some owner) = refl

  update_config-IsSolvent :
      (s s' : Store) (info : MessageInfo) (update : ConfigUpdate) (response : Response)
      → IsSolvent s
      → update_config s info update ≡ ok (s', response)
      → IsSolvent s'
  unfolding update_config load_config save_config
  update_config-IsSolvent s s' info update response h e =
      let (old, eo, e₁) = >>=-eq-ok (load_config s) _ e in
      let (config, ec, e₂) = >>=-eq-ok (authorize s old info.sender) _ e₁ in
      let (owner, _, e₃) = >>=-eq-ok (valid_owner update.owner) _ e₂ in
      let (proxy, _, e₄) =
        >>=-eq-ok (validate_option update.osmosis_proxy config.osmosis_proxy) _ e₃ in
      let (staking, _, e₅) =
        >>=-eq-ok (validate_option update.staking_contract config.staking_contract) _ e₄ in
      let (total, et, e₆) =
        >>=-eq-ok (add_total update.additional_allocation config.total_allocation) _ e₅ in
      let loaded : h.config ≡ old =
        some-inj (sym h.config_saved ∙ or_err-eq-ok s.config not_found eo) in
      subst IsSolvent (ap (λ p. p.0) (ok-injective e₆)) (record {
        config = _;
        recipients = h.recipients;
        config_saved = refl;
        recipients_saved = transfer_owner-recipients s owner ∙ h.recipients_saved;
        sound = record {
          distinct = h.sound.distinct;
          covered = omega (
            arith,
            h.sound.covered,
            ap (λ c. c.total_allocation) loaded,
            authorize-total s old config info.sender ec,
            add_total-grows update.additional_allocation config.total_allocation total et,
          );
        };
      })

  -- Proposals and votes are forwarded, and change nothing.
  submit_proposal-same :
      (s s' : Store) (info : MessageInfo) (proposal : Proposal) (response : Response)
      → submit_proposal s info proposal ≡ ok (s', response)
      → s ≡ s'
  unfolding submit_proposal
  submit_proposal-same s s' info proposal response e =
      let (config, _, e₁) = >>=-eq-ok (load_config s) _ e in
      let (recipients, _, e₂) = >>=-eq-ok (load_recipients s) _ e₁ in
      let (r, _, e₃) =
        >>=-eq-ok (or_err (find? (has_address info.sender) recipients) invalid_recipient) _ e₂ in
      ap (λ p. p.0) (ok-injective e₃)

  cast_vote-same :
      (s s' : Store) (info : MessageInfo) (proposal_id : ℕ) (vote : ProposalVoteOption)
      (response : Response)
      → cast_vote s info proposal_id vote ≡ ok (s', response)
      → s ≡ s'
  unfolding cast_vote
  cast_vote-same s s' info proposal_id vote response e =
      let (config, _, e₁) = >>=-eq-ok (load_config s) _ e in
      let (recipients, _, e₂) = >>=-eq-ok (load_recipients s) _ e₁ in
      let (r, _, e₃) =
        >>=-eq-ok (or_err (find? (has_address info.sender) recipients) invalid_recipient) _ e₂ in
      ap (λ p. p.0) (ok-injective e₃)

  execute-IsSolvent :
      (s s' : Store) (querier : Querier) (env : Env) (info : MessageInfo) (msg : ExecuteMsg)
      (response : Response)
      → IsSolvent s
      → execute s querier env info msg ≡ ok (s', response)
      → IsSolvent s'
  unfolding execute
  execute-IsSolvent s s' querier env info (new_recipient recipient) response h e =
      add_recipient-IsSolvent s s' info recipient response h e
  execute-IsSolvent s s' querier env info (old_recipient recipient) response h e =
      remove_recipient-IsSolvent s s' info recipient response h e
  execute-IsSolvent s s' querier env info (new_share recipient amount period) response h e =
      add_allocation-IsSolvent s s' querier env info recipient amount period response h e
  execute-IsSolvent s s' querier env info withdraw response h e =
      withdraw_unlocked-IsSolvent s s' env info response h e
  execute-IsSolvent s s' querier env info contract_fees response h e =
      claim_fees_for_contract-IsSolvent s s' querier env response h e
  execute-IsSolvent s s' querier env info recipient_fees response h e =
      claim_fees_for_recipient-IsSolvent s s' info response h e
  execute-IsSolvent s s' querier env info (propose proposal) response h e =
      subst IsSolvent (submit_proposal-same s s' info proposal response e) h
  execute-IsSolvent s s' querier env info (vote_on proposal_id vote) response h e =
      subst IsSolvent (cast_vote-same s s' info proposal_id vote response e) h
  execute-IsSolvent s s' querier env info (configure update) response h e =
      update_config-IsSolvent s s' info update response h e

  -- In every store that a vesting contract can come to, from its instantiation by any successful calls
  -- in any order, no address stands twice among the recipients, and the allocated amounts together
  -- never exceed the total that the contract may distribute.
  pub reachable-IsSolvent : (s : Store) → IsReachable s → IsSolvent s
  reachable-IsSolvent s (created empty _ env info msg response e) =
      instantiate-IsSolvent empty s env info msg response e
  reachable-IsSolvent s (called before querier env info msg response h e) =
      execute-IsSolvent before s querier env info msg response (reachable-IsSolvent before h) e
