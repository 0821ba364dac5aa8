-- ===== src/Vesting/Allocate.antt =====
-- `add_allocation` of contracts/vesting/src/contract.rs.
pub mod Divvied
pub mod Conserved
use membrane_core.Prelude.{
  ℕ, ◌==◌, Option, none, some, List, [], ◌∷◌, ◌++◌, Bool, not, ltb, str_eq, map, if◌then◌else◌,
  String,
}
use membrane_core.Crates.{Crates}
use membrane_core.Result.{
  Result, ok, panic, unauthorized, invalid_allocation, over_allocated, ◌>>=◌, ◌>>◌, must, reject_if,
}
use membrane_core.Asset.{Addr}
use membrane_core.Chain.{Env, MessageInfo, validate}
use membrane_core.Vesting.Types.{
  VestingPeriod, Allocation, Recipient, Config, Store, text, number, Response, load_config,
  load_recipients, save_recipients,
}
use membrane_core.Vesting.Withdraw.{has_address}
use membrane_core.Vesting.Admin.{any_recipient}
use membrane_core.Vesting.Fees.{Querier, claim_fees_for_contract}

-- The owner's way: the recipient's allocation is replaced.
unfoldable pub grant : Addr → Allocation → Recipient → Recipient
grant address allocation r =
    if has_address address r then record r { allocation = some allocation } else r

-- What a given amount leaves of an allocation, as `checked_sub` says, and the new allocation it makes.
abbrev pub divide_by : Allocation → ℕ → Option ℕ → Allocation × Allocation
divide_by stored amount none =
    (record stored { amount = 0 }, record stored { amount_withdrawn = 0 })
divide_by stored amount (some diff) =
    (record stored { amount = diff }, record stored { amount = amount; amount_withdrawn = 0 })

module _ ⦃x : Crates⦄ where
  unfoldable pub divide : Allocation → ℕ → Allocation × Allocation
  divide stored amount = divide_by stored amount (x.u128_sub stored.amount amount)

  -- One recipient, beside the new allocation so far.
  unfoldable pub divvy_from :
      Recipient → Option Allocation → ℕ → Option Allocation → Recipient × Option Allocation
  divvy_from r none amount new = (r, new)
  divvy_from r (some stored) amount new =
      let (kept, given) = divide stored amount in (record r { allocation = some kept }, some given)

  unfoldable pub divvy_one :
      Addr → ℕ → Option Allocation → Recipient → Recipient × Option Allocation
  divvy_one sender amount new r =
      if has_address sender r then divvy_from r r.allocation amount new else (r, new)

  unfoldable pub divvy_sender :
      Addr → ℕ → Option Allocation → List Recipient → List Recipient × Option Allocation
  divvy_sender sender amount new [] = ([], new)
  divvy_sender sender amount new (r ∷ recipients) =
      let (r', new') = divvy_one sender amount new r in
      let (rest, last) = divvy_sender sender amount new' recipients in (r' ∷ rest, last)

  unfoldable pub increase : Recipient → Option Allocation → Option Allocation → Result Recipient
  increase r none new = ok r
  increase r (some allocation) none = panic
  increase r (some allocation) (some new) = do
    amount ← must (x.u128_add allocation.amount new.amount)
    ok (record r { allocation = some (record allocation { amount = amount }) })

  unfoldable pub increase_all : Addr → Option Allocation → List Recipient → Result (List Recipient)
  increase_all address new [] = ok []
  increase_all address new (r ∷ recipients) = do
    r' ← if has_address address r then increase r r.allocation new else ok r
    rest ← increase_all address new recipients
    ok (r' ∷ rest)

  -- A recipient's way: a part of the sender's allocation goes to another recipient, or a new one.
  unfoldable pub divvy : Addr → Addr → ℕ → List Recipient → Result (List Recipient)
  divvy sender valid_recipient allocation recipients =
      let (divided, new) = divvy_sender sender allocation none recipients in
      if any_recipient valid_recipient divided
      then increase_all valid_recipient new divided
      else ok (
          divided ++ record { recipient = valid_recipient; allocation = new; claimables = [] } ∷ [])

  -- The recipients with the new allocation.
  unfoldable pub allocate :
      Store → Config → ℕ → Addr → Addr → ℕ → Option VestingPeriod → Result (List Recipient)
  allocate store config now sender valid_recipient allocation (some vesting_period) = do
    reject_if (not (str_eq sender config.owner)) unauthorized
    recipients ← load_recipients store
    let granted : Allocation = record {
      amount = allocation;
      amount_withdrawn = 0;
      start_time_of_allocation = now;
      vesting_period = vesting_period;
    }
    ok (map (grant valid_recipient granted) recipients)
  allocate store config now sender valid_recipient allocation none =
      load_recipients store >>= λ recipients. divvy sender valid_recipient allocation recipients

  unfoldable pub add_amount : ℕ → Option Allocation → Result ℕ
  add_amount total none = ok total
  add_amount total (some allocation) = must (x.u128_add total allocation.amount)

  unfoldable pub allocation_total : ℕ → List Recipient → Result ℕ
  allocation_total total [] = ok total
  allocation_total total (r ∷ recipients) =
      add_amount total r.allocation >>= λ more. allocation_total more recipients

  unfoldable pub add_allocation :
      Store
      → Querier
      → Env
      → MessageInfo
      → String
      → ℕ
      → Option VestingPeriod
      → Result (Store × Response)
  add_allocation store querier env info recipient allocation vesting_period = do
    claimed ← claim_fees_for_contract store querier env
    reject_if (allocation == 0) invalid_allocation
    valid_recipient ← validate recipient
    config ← load_config claimed.0
    recipients ←
        allocate claimed.0 config (x.seconds env.time) info.sender valid_recipient allocation
          vesting_period
    total ← allocation_total 0 recipients
    reject_if (ltb config.total_allocation total) over_allocated
    ok (
      save_recipients claimed.0 recipients,
      record claimed.1 {
        attributes =
            claimed.1.attributes
            ++ ("method", text "increase_allocation")
              ∷ ("recipient", text recipient)
              ∷ ("allocation_increase", number allocation)
              ∷ [];
      },
    )
