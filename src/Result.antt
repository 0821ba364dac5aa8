-- ===== src/Result.antt =====
-- Errors as values: `StdError` of cosmwasm_std as far as the contracts build it, the enum of
-- contracts/liq-queue/src/error.rs, and panics, which no `match` on a `Result` can catch.
use membrane_core.Prelude.{ℕ, Bool, true, false, ◌≡◌, refl, Option, none, some, String, arith}

pub data Error : Type 0 where
  -- `StdError`, carried by `ContractError::Std`; `with` is the number that a message is formatted with
  generic_err : String → Error
  generic_err_with : String → ℕ → Error
  not_found overflow : Error
  unauthorized insufficient_bids invalid_asset invalid_premium duplicate_queue : Error
  invalid_bid_threshold : Error
  invalid_withdrawal : ℕ → Error
  too_many_waiting_bids : ℕ → Error
  custom_error : String → Error
  -- contracts/vesting/src/error.rs, as far as it differs
  over_allocated invalid_allocation invalid_recipient : Error
  -- contracts/stability-pool/src/error.rs, likewise; `InvalidWithdrawal {}` has no minimum there
  minimum_deposit : ℕ → Error
  invalid_pool_withdrawal : Error
  -- contracts/osmosis-proxy/src/error.rs, likewise
  zero_amount : Error

-- What a call comes to: a panic, an error that it returns, a value.
pub data Result {ℓ} (A : Type ℓ) : Type ℓ where
  panic : Result A
  err : Error → Result A
  ok : A → Result A

module _ {ℓ κ} {A : Type ℓ} {B : Type κ} where
  infixl 5 ◌>>=◌
  -- `?`
  abbrev pub ◌>>=◌ : Result A → (A → Result B) → Result B
  panic >>= next = panic
  err reason >>= next = err reason
  ok value >>= next = next value

  -- A successful bind, taken apart.
  pub >>=-eq-ok :
      (r : Result A) (next : A → Result B) {b : B}
      → (r >>= next) ≡ ok b
      → (value : A) × (r ≡ ok value) × (next value ≡ ok b)
  >>=-eq-ok panic next h = cc
  >>=-eq-ok (err reason) next h = cc
  >>=-eq-ok (ok value) next h = (value, refl, h)

infixl 5 ◌>>◌
-- `check?;`
abbrev pub ◌>>◌ {κ} : {B : Type κ} → Result (Unit {0}) → Result B → Result B
check >> rest = check >>= λ done. rest

-- `if bad { return Err(e) }`
abbrev pub reject_if : Bool → Error → Result (Unit {0})
reject_if true e = err e
reject_if false e = ok tt

-- `assert!(good)`
abbrev pub assert : Bool → Result (Unit {0})
assert true = ok tt
assert false = panic

-- An operation that panics where it has no value: `unwrap()`, checked arithmetic.
abbrev pub must {ℓ} : {A : Type ℓ} → Option A → Result A
must none = panic
must (some a) = ok a

-- `ok_or(e)?`
abbrev pub or_err {ℓ} : {A : Type ℓ} → Option A → Error → Result A
or_err none e = err e
or_err (some a) e = ok a

-- The other operations, where they succeed.
pub ok-injective {ℓ} : {A : Type ℓ} {a b : A} → Result.ok a ≡ ok b → a ≡ b
ok-injective h = cc

pub or_err-eq-ok {ℓ} :
    {A : Type ℓ} (o : Option A) (e : Error) {a : A} → or_err o e ≡ ok a → o ≡ some a
or_err-eq-ok none e h = cc
or_err-eq-ok (some b) e h = ground arith

pub must-eq-ok {ℓ} : {A : Type ℓ} (o : Option A) {a : A} → must o ≡ ok a → o ≡ some a
must-eq-ok none h = cc
must-eq-ok (some b) h = ground arith

pub reject_if-eq-ok : (b : Bool) (e : Error) {u : Unit {0}} → reject_if b e ≡ ok u → b ≡ false
reject_if-eq-ok true e h = cc
reject_if-eq-ok false e h = refl

pub assert-eq-ok : (b : Bool) {u : Unit {0}} → assert b ≡ ok u → b ≡ true
assert-eq-ok true h = refl
assert-eq-ok false h = cc
