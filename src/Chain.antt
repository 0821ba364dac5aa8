-- ===== src/Chain.antt =====
-- What `cosmwasm_std` hands to a call of a contract: coins, the sender and funds, the block; and what
-- the contracts do with addresses and coins alike.
use membrane_core.Prelude.{ℕ, Option, none, some, List, String}
use membrane_core.Crates.{Crates}
use membrane_core.Result.{Result, ok, err, generic_err, or_err}
use membrane_core.Asset.{Addr, AssetInfo, Asset, token, native_token}

pub record Coin : Type 0 where
  pub denom : String
  pub amount : ℕ

pub record MessageInfo : Type 0 where
  pub sender : Addr
  pub funds : List Coin

-- `time` is the block's timestamp in nanoseconds.
pub record Env : Type 0 where
  pub time : ℕ
  pub contract_address : Addr

abbrev coin_of : AssetInfo → ℕ → Result Coin
coin_of (token address) amount = err (generic_err "CW20 Assets can't be converted into Coin")
coin_of (native_token denom) amount = ok (record { denom = denom; amount = amount })

unfoldable pub asset_to_coin : Asset → Result Coin
asset_to_coin asset = coin_of asset.info asset.amount

-- An optional field of an update, where `none` keeps the old value.
abbrev pub given {ℓ} : {A : Type ℓ} → Option A → A → A
given none old = old
given (some new) old = new

module _ ⦃x : Crates⦄ where
  -- `deps.api.addr_validate(&address)?`
  unfoldable pub validate : String → Result Addr
  validate address = or_err (x.addr_validate address) (generic_err "addr_validate")

  unfoldable pub validate_option : Option String → Addr → Result Addr
  validate_option none old = ok old
  validate_option (some address) old = validate address

  -- `validate_position_owner` of packages/membrane/src/helpers.rs
  unfoldable pub validate_position_owner : MessageInfo → Option String → Result Addr
  validate_position_owner info none = ok info.sender
  validate_position_owner info (some recipient) =
      or_err (x.addr_validate recipient) (generic_err "addr_validate")
