-- ===== src/Vesting/Withdraw/Minted.antt =====
-- What `withdraw_unlocked` of contracts/vesting/src/contract.rs asks to mint, and what it saves.
use membrane_core.Prelude.{
  ℕ, ◌≡◌, refl, subst, Option, none, some, List, [], ◌∷◌, ◌++◌, not, find?, filter,
}
use membrane_core.Crates.{Crates}
use membrane_core.Result.{
  ok, invalid_recipient, >>=-eq-ok, ok-injective, or_err, or_err-eq-ok, not_found,
}
use membrane_core.Asset.{Addr}
use membrane_core.Chain.{Env, MessageInfo}
use membrane_core.Vesting.Types.{
  Allocation, Recipient, Config, Store, mint_tokens, Response, load_config, load_recipients,
  save_recipients,
}
use membrane_core.Vesting.Unlock.Payments.{IsPayment, get_unlocked_amount-IsPayment}
use membrane_core.Vesting.Withdraw.{has_address, unlock, withdraw_unlocked}

-- A withdrawal by a recipient of what its allocation unlocks.
pub record IsMinted (s s' : Store) (sender : Addr) (response : Response) : Type 0 where
  pub config : Config
  pub recipients : List Recipient
  pub recipient : Recipient
  pub before : Allocation
  pub after : Allocation
  pub unlocked : ℕ
  pub config_saved : s.config ≡ some config
  pub recipients_saved : s.recipients ≡ some recipients
  pub found : find? (has_address sender) recipients ≡ some recipient
  pub allocated : recipient.allocation ≡ some before
  pub payment : IsPayment before unlocked after
  pub saved :
      s'.recipients
      ≡ some (
          filter (λ r. not (has_address sender r)) recipients
          ++ record recipient { allocation = some after } ∷ [])
  pub config_kept : s'.config ≡ s.config
  pub transfer_kept : s'.ownership_transfer ≡ s.ownership_transfer
  pub minted :
      response.messages ≡ mint_tokens config.osmosis_proxy config.mbrn_denom unlocked sender ∷ []

module _ ⦃x : Crates⦄ where
  unlock-IsPayment :
      (a : Option Allocation) (now : ℕ) (r : ℕ × Allocation)
      → unlock a now ≡ ok r
      → (before : Allocation) × (a ≡ some before) × IsPayment before r.0 r.1
  unfolding unlock
  unlock-IsPayment none now r h = cc
  unlock-IsPayment (some a) now r h = (a, refl, get_unlocked_amount-IsPayment a r.1 now r.0 h)

  -- A call of withdraw_unlocked succeeds only for a recipient that has an allocation. Its response
  -- asks the osmosis proxy, in one message and in the configured denomination, to mint to the sender
  -- exactly what the allocation counts as paid afterwards and did not before; it saves the changed
  -- allocation, and leaves the other recipients, the configuration and the pending transfer of the
  -- ownership as they were.
  pub withdraw_unlocked-IsMinted :
      (s s' : Store) (env : Env) (info : MessageInfo) (response : Response)
      → withdraw_unlocked s env info ≡ ok (s', response)
      → IsMinted s s' info.sender response
  unfolding withdraw_unlocked load_config load_recipients save_recipients
  withdraw_unlocked-IsMinted s s' env info response e =
      let (config, ec, e₁) = >>=-eq-ok (load_config s) _ e in
      let (recipients, er, e₂) = >>=-eq-ok (load_recipients s) _ e₁ in
      let (r, ef, e₃) =
        >>=-eq-ok (or_err (find? (has_address info.sender) recipients) invalid_recipient) _ e₂ in
      let (unlocked, eu, e₄) = >>=-eq-ok (unlock r.allocation (x.seconds env.time)) _ e₃ in
      let (before, ea, payment) = unlock-IsPayment r.allocation (x.seconds env.time) unlocked eu in
      subst (λ p. IsMinted s p.0 info.sender p.1) (ok-injective e₄)
        (record {
          config = config;
          recipients = recipients;
          recipient = r;
          before = before;
          after = unlocked.1;
          unlocked = unlocked.0;
          config_saved = or_err-eq-ok s.config not_found ec;
          recipients_saved = or_err-eq-ok s.recipients not_found er;
          found = or_err-eq-ok (find? (has_address info.sender) recipients) invalid_recipient ef;
          allocated = ea;
          payment = payment;
          saved = refl;
          config_kept = refl;
          transfer_kept = refl;
          minted = refl;
        })
