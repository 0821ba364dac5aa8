-- ===== src/Vesting/Allocate/Divvied.antt =====
-- `add_allocation` of contracts/vesting/src/contract.rs and the books.
use membrane_core.Prelude.{
  ℕ, ◌+◌, ◌≤◌, ◌≡◌, refl, sym, ap, subst, ◌∙◌, Bool, true, false, Option, none, some, List, [], ◌∷◌,
  ◌++◌, arith, not, map, str_eq, if◌then◌else◌,
}
use membrane_core.Crates.{Crates}
use membrane_core.Result.{ok, unauthorized, >>=-eq-ok, ok-injective, must, reject_if}
use membrane_core.Asset.{Addr}
use membrane_core.Vesting.Types.{
  VestingPeriod, Allocation, Recipient, Config, Store, load_recipients,
}
use membrane_core.Vesting.Withdraw.{has_address}
use membrane_core.Vesting.Admin.{any_recipient}
use membrane_core.Vesting.Books.{amount_of, book, occurrences, total_allocated, occurrences-append}
use membrane_core.Vesting.Allocate.{
  grant, divvy_from, divvy_one, divvy_sender, increase, increase_all, divvy, allocate, add_amount,
  allocation_total,
}

-- Books that do not depend on amounts.
abbrev by_address : (Addr → ℕ) → Addr → ℕ → ℕ
by_address f a n = f a

grant-recipient :
    (address : Addr) (a : Allocation) (r : Recipient) → (grant address a r).recipient ≡ r.recipient
unfolding grant
grant-recipient address a r = by_test (has_address address r)
  where
    by_test :
        (b : Bool) → (if b then record r { allocation = some a } else r).recipient ≡ r.recipient
    by_test true = refl
    by_test false = refl

grant-book :
    (f : Addr → ℕ) (address : Addr) (a : Allocation) (recipients : List Recipient)
    → book (by_address f) (map (grant address a) recipients) ≡ book (by_address f) recipients
grant-book f address a [] = refl
grant-book f address a (r ∷ recipients) =
    omega (arith, ap f (grant-recipient address a r), grant-book f address a recipients)

module _ ⦃x : Crates⦄ where
  divvy_from-recipient :
      (r : Recipient) (a : Option Allocation) (amount : ℕ) (new : Option Allocation)
      → (divvy_from r a amount new).0.recipient ≡ r.recipient
  unfolding divvy_from
  divvy_from-recipient r none amount new = refl
  divvy_from-recipient r (some a) amount new = refl

  divvy_one-recipient :
      (sender : Addr) (amount : ℕ) (new : Option Allocation) (r : Recipient)
      → (divvy_one sender amount new r).0.recipient ≡ r.recipient
  unfolding divvy_one
  divvy_one-recipient sender amount new r = by_test (has_address sender r)
    where
      by_test :
          (b : Bool)
          → (if b then divvy_from r r.allocation amount new else (r, new)).0.recipient ≡ r.recipient
      by_test true = divvy_from-recipient r r.allocation amount new
      by_test false = refl

  -- Dividing changes no address.
  pub divvy_sender-book :
      (f : Addr → ℕ) (sender : Addr) (amount : ℕ) (new : Option Allocation)
      (recipients : List Recipient)
      → book (by_address f) (divvy_sender sender amount new recipients).0
        ≡ book (by_address f) recipients
  unfolding divvy_sender
  divvy_sender-book f sender amount new [] = refl
  divvy_sender-book f sender amount new (r ∷ recipients) = omega (
    arith,
    ap f (divvy_one-recipient sender amount new r),
    divvy_sender-book f sender amount (divvy_one sender amount new r).1 recipients,
  )

  -- Nor does increasing.
  increase-recipient :
      (r r' : Recipient) (a new : Option Allocation)
      → increase r a new ≡ ok r'
      → r'.recipient ≡ r.recipient
  unfolding increase
  increase-recipient r r' none new h = ap (λ q. q.recipient) (sym (ok-injective h))
  increase-recipient r r' (some a) none h = cc
  increase-recipient r r' (some a) (some new) h =
      let (amount, _, h₁) = >>=-eq-ok (must (x.u128_add a.amount new.amount)) _ h in
      ap (λ q. q.recipient) (sym (ok-injective h₁))

  increase_one-recipient :
      (r r' : Recipient) (new : Option Allocation) (b : Bool)
      → (if b then increase r r.allocation new else ok r) ≡ ok r'
      → r'.recipient ≡ r.recipient
  increase_one-recipient r r' new true h = increase-recipient r r' r.allocation new h
  increase_one-recipient r r' new false h = ap (λ q. q.recipient) (sym (ok-injective h))

  increase_all-book :
      (f : Addr → ℕ) (address : Addr) (new : Option Allocation) (recipients after : List Recipient)
      → increase_all address new recipients ≡ ok after
      → book (by_address f) after ≡ book (by_address f) recipients
  unfolding increase_all
  increase_all-book f address new [] after h =
      subst (λ rs. book (by_address f) rs ≡ 0) (ok-injective h) refl
  increase_all-book f address new (r ∷ recipients) after h =
      let (r', er, h₁) =
        >>=-eq-ok (if has_address address r then increase r r.allocation new else ok r) _ h in
      let (rest, es, h₂) = >>=-eq-ok (increase_all address new recipients) _ h₁ in
      subst (λ rs. book (by_address f) rs ≡ book (by_address f) (r ∷ recipients)) (ok-injective h₂)
        (omega (
          arith,
          ap f (increase_one-recipient r r' new (has_address address r) er),
          increase_all-book f address new recipients rest es,
        ))

  -- A division adds at most the address that it gives to.
  pub divvy-distinct :
      (sender address : Addr) (amount : ℕ) (recipients after : List Recipient)
      → ((k : Addr) → occurrences k recipients ≤ 1)
      → divvy sender address amount recipients ≡ ok after
      → (k : Addr) → occurrences k after ≤ 1
  unfolding divvy
  divvy-distinct sender address amount recipients after distinct h k =
      by_known (any_recipient address divided) refl h
    where
      divided : List Recipient
      divided = (divvy_sender sender amount none recipients).0

      new : Option Allocation
      new = (divvy_sender sender amount none recipients).1

      one : (j : Addr) → occurrences j divided ≤ 1
      one j = omega (
        arith,
        divvy_sender-book (λ a. if str_eq a j then 1 else 0) sender amount none recipients,
        distinct j,
      )

      by_known :
          (known : Bool)
          → any_recipient address divided ≡ known
          → (if known
              then increase_all address new divided
              else ok (
                  divided
                  ++ record { recipient = address; allocation = new; claimables = [] } ∷ []))
            ≡ ok after
          → occurrences k after ≤ 1
      by_known true e j = omega (
        arith,
        increase_all-book (λ a. if str_eq a k then 1 else 0) address new divided after j,
        one k,
      )
      by_known false e j =
          subst (λ rs. occurrences k rs ≤ 1) (ok-injective j)
            (occurrences-append address k divided
              (record { recipient = address; allocation = new; claimables = [] }) refl e (one k))

  -- Allocating keeps the recipients distinct.
  pub allocate-distinct :
      (s : Store) (config : Config) (now : ℕ) (sender address : Addr) (amount : ℕ)
      (period : Option VestingPeriod) (recipients after : List Recipient)
      → load_recipients s ≡ ok recipients
      → ((k : Addr) → occurrences k recipients ≤ 1)
      → allocate s config now sender address amount period ≡ ok after
      → (k : Addr) → occurrences k after ≤ 1
  unfolding allocate
  allocate-distinct s config now sender address amount none recipients after loaded distinct h k =
      let (found, ef, h₁) = >>=-eq-ok (load_recipients s) _ h in
      let same : recipients ≡ found = ok-injective (sym loaded ∙ ef) in
      divvy-distinct sender address amount found after
        (subst (λ rs. (j : Addr) → occurrences j rs ≤ 1) same distinct) h₁ k
  allocate-distinct s config now sender address amount (some period) recipients after loaded
        distinct h k =
      let (_, _, h₁) = >>=-eq-ok (reject_if (not (str_eq sender config.owner)) unauthorized) _ h in
      let (found, ef, h₂) = >>=-eq-ok (load_recipients s) _ h₁ in
      let same : recipients ≡ found = ok-injective (sym loaded ∙ ef) in
      subst (λ rs. occurrences k rs ≤ 1) (ok-injective h₂)
        (omega (
          arith,
          grant-book (λ a. if str_eq a k then 1 else 0) address _ found,
          subst (λ rs. occurrences k rs ≤ 1) same (distinct k),
        ))

  add_amount-eq-ok :
      (total more : ℕ) (a : Option Allocation)
      → add_amount total a ≡ ok more
      → more ≡ total + amount_of a
  unfolding add_amount
  add_amount-eq-ok total more none h = omega (arith, ok-injective h)
  add_amount-eq-ok total more (some a) h = ground (arith, x.u128_add_lem total a.amount)

  -- The total that `add_allocation` checks.
  pub allocation_total-eq-ok :
      (total sum : ℕ) (recipients : List Recipient)
      → allocation_total total recipients ≡ ok sum
      → sum ≡ total + total_allocated recipients
  unfolding allocation_total
  allocation_total-eq-ok total sum [] h = omega (arith, ok-injective h)
  allocation_total-eq-ok total sum (r ∷ recipients) h =
      let (more, em, h₁) = >>=-eq-ok (add_amount total r.allocation) _ h in
      omega (
        arith,
        add_amount-eq-ok total more r.allocation em,
        allocation_total-eq-ok more sum recipients h₁,
      )
