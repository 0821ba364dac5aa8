-- ===== src/Vesting/Withdraw.antt =====
-- `withdraw_unlocked` of contracts/vesting/src/contract.rs.
pub mod Minted
pub mod Whole
use membrane_core.Prelude.{
  ℕ, ◌==◌, Option, none, some, List, [], ◌∷◌, ◌++◌, Bool, not, str_eq, find?, filter,
}
use membrane_core.Crates.{Crates}
use membrane_core.Result.{
  Result, ok, err, invalid_allocation, invalid_recipient, zero_amount, ◌>>=◌, ◌>>◌, reject_if,
  or_err,
}
use membrane_core.Asset.{Addr}
use membrane_core.Chain.{Env, MessageInfo}
use membrane_core.Vesting.Types.{
  Allocation, Recipient, Config, Store, CosmosMsg, mint_tokens, text, number, Response, load_config,
  load_recipients, save_recipients,
}
use membrane_core.Vesting.Unlock.{get_unlocked_amount}

abbrev pub has_address : Addr → Recipient → Bool
has_address address r = str_eq r.recipient address

-- The recipient's new allocation, saved behind the others, and the message that mints the unlocked
-- amount.
abbrev pub withdrawn :
    Store → Config → List Recipient → Addr → Recipient → ℕ → Allocation → Store × Response
withdrawn store config recipients sender recipient unlocked allocation = (
  save_recipients store (
      filter (λ r. not (has_address sender r)) recipients
      ++ record recipient { allocation = some allocation } ∷ []),
  record {
    messages = mint_tokens config.osmosis_proxy config.mbrn_denom unlocked sender ∷ [];
    attributes =
        ("method", text "withdraw_unlocked")
        ∷ ("recipient", text sender)
        ∷ ("withdrawn_amount", number unlocked)
        ∷ [];
  },
)

-- What `mint_tokens` of contracts/osmosis-proxy/src/contract.rs tests of the amount, when it receives
-- the message. Its checks of its own configuration, the address and the denomination are left out.
unfoldable pub check_amount : CosmosMsg → Result (Unit {0})
check_amount (mint_tokens proxy denom amount address) = reject_if (amount == 0) zero_amount
check_amount message = ok tt

check_amounts : List CosmosMsg → Result (Unit {0})
check_amounts [] = ok tt
check_amounts (message ∷ messages) = check_amount message >> check_amounts messages

-- The response's messages reach the proxy; its refusal undoes the call.
unfoldable pub deliver : Store × Response → Result (Store × Response)
unfolding check_amounts check_amount
deliver (store, response) = check_amounts response.messages >> ok (store, response)

module _ ⦃x : Crates⦄ where
  unfoldable pub unlock : Option Allocation → ℕ → Result (ℕ × Allocation)
  unlock none now = err invalid_allocation
  unlock (some allocation) now = get_unlocked_amount (some allocation) now

  unfoldable pub withdraw_unlocked : Store → Env → MessageInfo → Result (Store × Response)
  withdraw_unlocked store env info = do
    config ← load_config store
    recipients ← load_recipients store
    recipient ← or_err (find? (has_address info.sender) recipients) invalid_recipient
    unlocked ← unlock recipient.allocation (x.seconds env.time)
    ok (withdrawn store config recipients info.sender recipient unlocked.0 unlocked.1)
