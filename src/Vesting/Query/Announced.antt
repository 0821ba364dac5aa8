-- ===== src/Vesting/Query/Announced.antt =====
-- `query_unlocked` of contracts/vesting/src/query.rs against `withdraw_unlocked`.
use membrane_core.Prelude.{
  ℕ, inl, inr, Bool-cases, ◌==◌, if◌then◌else◌, List, String, ◌≡◌, refl, ap, ◌∙◌, Option, none,
  some, [], ◌∷◌, find?,
}
use membrane_core.Crates.{Crates}
use membrane_core.Result.{
  ok, err, zero_amount, ◌>>=◌, generic_err, >>=-eq-ok, ok-injective, or_err-eq-ok, not_found,
}
use membrane_core.Chain.{Env, MessageInfo}
use membrane_core.Vesting.Types.{
  Allocation, Config, Store, mint_tokens, AttrValue, Response, load_config, load_recipients,
}
use membrane_core.Vesting.Unlock.{get_unlocked_amount}
use membrane_core.Vesting.Withdraw.{has_address, unlock, withdrawn, deliver, withdraw_unlocked}
use membrane_core.Vesting.Query.{UnlockedResponse, find_recipient, unlocked_now, query_unlocked}

module _ ⦃x : Crates⦄ where
  unlocked_now-unlock :
      (now : ℕ) (a : Option Allocation) (response : UnlockedResponse)
      → unlocked_now now a ≡ ok response
      → (after : Allocation) × (unlock a now ≡ ok (response.unlocked_amount, after))
  unfolding unlocked_now unlock
  unlocked_now-unlock now none response h = cc
  unlocked_now-unlock now (some a) response h =
      let (r, er, h₁) = >>=-eq-ok (get_unlocked_amount (some a) now) _ h in
      (r.1, er ∙ ap (λ q. ok (q.unlocked_amount, r.1)) (ok-injective h₁))

  -- If the query of the unlocked tokens of an address announces an amount, and the contract is
  -- configured, withdraw_unlocked called by that address in the same block returns a response whose one
  -- message asks the osmosis proxy to mint exactly this amount to it. The proxy's check of the amount
  -- lets the message pass unless the amount is zero; then it refuses it, and the withdrawal fails.
  pub query_unlocked-withdraw_unlocked :
      (s : Store) (env : Env) (info : MessageInfo) (config : Config) (announced : UnlockedResponse)
      → s.config ≡ some config
      → query_unlocked s env info.sender ≡ ok announced
      → (s' : Store) × (response : Response) × (withdraw_unlocked s env info ≡ ok (s', response))
        × (response.messages
            ≡ mint_tokens config.osmosis_proxy config.mbrn_denom announced.unlocked_amount
                info.sender
              ∷ [])
        × ((withdraw_unlocked s env info >>= deliver)
            ≡ (if announced.unlocked_amount == 0 then err zero_amount else ok (s', response)))
  unfolding deliver query_unlocked find_recipient withdraw_unlocked load_config load_recipients
  query_unlocked-withdraw_unlocked s env info config announced configured h =
      let invalid = generic_err "Invalid recipient" in
      let (r, ef, h₁) = >>=-eq-ok (find_recipient s info.sender) _ h in
      let (recipients, er, ef₁) = >>=-eq-ok (load_recipients s) _ ef in
      let found = or_err-eq-ok (find? (has_address info.sender) recipients) invalid ef₁ in
      let (after, eu) = unlocked_now-unlock (x.seconds env.time) r.allocation announced h₁ in
      let saved = or_err-eq-ok s.recipients not_found er in
      let after' = withdrawn s config recipients info.sender r announced.unlocked_amount after in
      let called : withdraw_unlocked s env info ≡ ok after' =
        rw configured (rw saved (rw found (rw eu refl))) in
      (
        after'.0,
        after'.1,
        called,
        refl,
        ap (λ r. r >>= deliver) called
            ∙ delivered after'.0 after'.1.attributes config.osmosis_proxy config.mbrn_denom
                announced.unlocked_amount info.sender,
      )
    where
      delivered :
          (t : Store) (attributes : List (String × AttrValue)) (proxy denom : String) (amount : ℕ)
          (address : String)
          → let response : Response = record {
            messages = mint_tokens proxy denom amount address ∷ [];
            attributes = attributes;
          } in
            deliver (t, response) ≡ (if amount == 0 then err zero_amount else ok (t, response))
      delivered t attributes proxy denom amount address = elim (Bool-cases (amount == 0)) [
        | inl e ↦ rw e refl
        | inr e ↦ rw e refl
      ]
