-- ===== src/Vesting/Query.antt =====
-- contracts/vesting/src/query.rs.
pub mod Announced
use membrane_core.Prelude.{ℕ, Option, none, some, List, [], ◌∷◌, String, find?, map, ◌+◌}
use membrane_core.Crates.{Crates}
use membrane_core.Result.{Result, ok, err, generic_err, ◌>>=◌, must, or_err}
use membrane_core.Asset.{Addr, Asset}
use membrane_core.Chain.{Env}
use membrane_core.Vesting.Types.{VestingPeriod, Allocation, Recipient, Store, load_recipients}
use membrane_core.Vesting.Withdraw.{has_address}
use membrane_core.Vesting.Unlock.{get_unlocked_amount}

pub record AllocationResponse : Type 0 where
  pub amount : ℕ
  pub amount_withdrawn : ℕ
  pub start_time_of_allocation : ℕ
  pub vesting_period : VestingPeriod

pub record UnlockedResponse : Type 0 where
  pub unlocked_amount : ℕ

pub record RecipientResponse : Type 0 where
  pub recipient : String
  pub allocation : Option Allocation
  pub claimables : List Asset

pub record RecipientsResponse : Type 0 where
  pub recipients : List RecipientResponse

unfoldable pub find_recipient : Store → String → Result Recipient
find_recipient store recipient = load_recipients store >>= λ recipients.
    or_err (find? (has_address recipient) recipients) (generic_err "Invalid recipient")

abbrev respond : Option Allocation → Result AllocationResponse
respond none = err (generic_err "Recipient has no allocation")
respond (some allocation) = ok (record {
  amount = allocation.amount;
  amount_withdrawn = allocation.amount_withdrawn;
  start_time_of_allocation = allocation.start_time_of_allocation;
  vesting_period = allocation.vesting_period;
})

unfoldable pub query_allocation : Store → String → Result AllocationResponse
query_allocation store recipient =
    find_recipient store recipient >>= λ found. respond found.allocation

abbrev recipient_response : Recipient → RecipientResponse
recipient_response r = record {
  recipient = r.recipient;
  allocation = r.allocation;
  claimables = r.claimables;
}

unfoldable pub query_recipients : Store → Result RecipientsResponse
query_recipients store = load_recipients store >>= λ recipients.
    ok (record { recipients = map recipient_response recipients })

unfoldable pub query_recipient : Store → String → Result RecipientResponse
query_recipient store recipient =
    find_recipient store recipient >>= λ found. ok (recipient_response found)

module _ ⦃x : Crates⦄ where
  unfoldable pub unlocked_now : ℕ → Option Allocation → Result UnlockedResponse
  unlocked_now now none = err (generic_err "Recipient has no allocation")
  unlocked_now now (some allocation) = get_unlocked_amount (some allocation) now >>= λ unlocked.
      ok (record { unlocked_amount = unlocked.0 })

  unfoldable pub query_unlocked : Store → Env → String → Result UnlockedResponse
  query_unlocked store env recipient =
      find_recipient store recipient >>= λ found. unlocked_now (x.seconds env.time) found.allocation

  -- `RecipientsResponse::get_total_vesting`
  unfoldable pub total_vesting_from : ℕ → List RecipientResponse → Result ℕ
  total_vesting_from total [] = ok total
  total_vesting_from total (r ∷ recipients) = elim r.allocation [
    | none ↦ total_vesting_from total recipients
    | some allocation ↦ do
      vesting ← must (x.u128_sub allocation.amount allocation.amount_withdrawn)
      more ← must (x.u128_add total vesting)
      total_vesting_from more recipients
  ]

  unfoldable pub get_total_vesting : RecipientsResponse → Result ℕ
  unfolding total_vesting_from
  get_total_vesting response = total_vesting_from 0 response.recipients
