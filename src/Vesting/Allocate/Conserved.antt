-- ===== src/Vesting/Allocate/Conserved.antt =====
-- `add_allocation` of contracts/vesting/src/contract.rs, where a recipient divides its allocation.
use membrane_core.Prelude.{
  ℕ, ◌+◌, ◌≤◌, ◌≡◌, inl, inr, refl, ap, subst, ◌∙◌, Bool, true, false, Option, none, some, List, [],
  ◌∷◌, ◌++◌, arith, str_eq, if◌then◌else◌, sum_by-append, Bool-cases,
}
use membrane_core.Crates.{Crates, checked_sub}
use membrane_core.Result.{ok, >>=-eq-ok, ok-injective, must}
use membrane_core.Asset.{Addr}
use membrane_core.Vesting.Types.{Allocation, Recipient}
use membrane_core.Vesting.Withdraw.{has_address}
use membrane_core.Vesting.Admin.{any_recipient}
use membrane_core.Vesting.Books.{amount_of, occurrences, total_allocated, occurrences-any_recipient}
use membrane_core.Vesting.Allocate.{
  divide_by, divide, divvy_from, divvy_one, divvy_sender, increase, increase_all, divvy,
}
use membrane_core.Vesting.Allocate.Divvied.{divvy_sender-book}

module _ ⦃x : Crates⦄ where
  -- What is kept and what is given make up what there was.
  divide-amount :
      (a : Allocation) (amount : ℕ)
      → (divide a amount).0.amount + (divide a amount).1.amount ≡ a.amount
  unfolding divide
  divide-amount a amount = by_diff (x.u128_sub a.amount amount) (x.u128_sub_lem a.amount amount)
    where
      by_diff :
          (diff : Option ℕ)
          → diff ≡ checked_sub a.amount amount
          → (divide_by a amount diff).0.amount + (divide_by a amount diff).1.amount ≡ a.amount
      by_diff none h = omega arith
      by_diff (some d) h = ground arith

  divvy_from-total :
      (r : Recipient) (a : Option Allocation) (amount : ℕ)
      → amount_of (divvy_from (record r { allocation = a }) a amount none).0.allocation
          + amount_of (divvy_from (record r { allocation = a }) a amount none).1
        ≡ amount_of a
  unfolding divvy_from
  divvy_from-total r none amount = omega arith
  divvy_from-total r (some a) amount = divide-amount a amount

  -- Those who are not the sender keep what they have.
  divvy_sender-others :
      (sender : Addr) (amount : ℕ) (new : Option Allocation) (recipients : List Recipient)
      → occurrences sender recipients ≡ 0
      → divvy_sender sender amount new recipients ≡ (recipients, new)
  unfolding divvy_sender divvy_one
  divvy_sender-others sender amount new [] h = refl
  divvy_sender-others sender amount new (r ∷ recipients) h =
      let e : has_address sender r ≡ false = ground arith in
      rw e (rw (divvy_sender-others sender amount new recipients (omega arith)) refl)

  -- What the sender keeps and the new allocation make up what there was.
  divvy_sender-total :
      (sender : Addr) (amount : ℕ) (recipients : List Recipient)
      → occurrences sender recipients ≤ 1
      → total_allocated (divvy_sender sender amount none recipients).0
          + amount_of (divvy_sender sender amount none recipients).1
        ≡ total_allocated recipients
  unfolding divvy_sender divvy_one
  divvy_sender-total sender amount [] h = refl
  divvy_sender-total sender amount (r ∷ recipients) h = elim (Bool-cases (has_address sender r)) [
    | inl e ↦ rw e (
        rw
          (divvy_sender-others sender amount (divvy_from r r.allocation amount none).1 recipients
            (ground arith))
          (omega (arith, divvy_from-total r r.allocation amount)))
    | inr e ↦ rw e (omega (arith, divvy_sender-total sender amount recipients (ground arith)))
  ]

  increase-total :
      (r r' : Recipient) (a new : Option Allocation)
      → increase r a new ≡ ok r'
      → a ≡ r.allocation
      → amount_of r'.allocation ≤ amount_of r.allocation + amount_of new
  unfolding increase
  increase-total r r' none new h e =
      subst (λ q. amount_of q.allocation ≤ amount_of r.allocation + amount_of new) (ok-injective h)
        (omega arith)
  increase-total r r' (some a) none h e = cc
  increase-total r r' (some a) (some new) h e =
      let (amount, ea, h₁) = >>=-eq-ok (must (x.u128_add a.amount new.amount)) _ h in
      let sum : amount ≡ a.amount + new.amount =
        ground (arith, x.u128_add_lem a.amount new.amount) in
      subst (λ q. amount_of q.allocation ≤ amount_of r.allocation + new.amount) (ok-injective h₁)
        (subst (λ o. amount ≤ amount_of o + new.amount) e (omega arith))

  -- Who is not given anything keeps what it has.
  increase_all-others :
      (address : Addr) (new : Option Allocation) (recipients after : List Recipient)
      → occurrences address recipients ≡ 0
      → increase_all address new recipients ≡ ok after
      → recipients ≡ after
  unfolding increase_all
  increase_all-others address new [] after h k = ok-injective k
  increase_all-others address new (r ∷ recipients) after h k =
      let (r', er, k₁) =
        >>=-eq-ok (if has_address address r then increase r r.allocation new else ok r) _ k in
      let (rest, es, k₂) = >>=-eq-ok (increase_all address new recipients) _ k₁ in
      let tail = increase_all-others address new recipients rest (omega (arith, h)) es in
      let e : has_address address r ≡ false = ground arith in
      let head : r ≡ r' =
        ok-injective
          (subst (λ b. (if b then increase r r.allocation new else ok r) ≡ ok r') e er) in
      subst (λ rs. r ∷ recipients ≡ rs) (ok-injective k₂)
        (subst (λ q. r ∷ recipients ≡ q ∷ rest) head (ap (λ rs. r ∷ rs) tail))

  increase_all-total :
      (address : Addr) (new : Option Allocation) (recipients after : List Recipient)
      → occurrences address recipients ≤ 1
      → increase_all address new recipients ≡ ok after
      → total_allocated after ≤ total_allocated recipients + amount_of new
  unfolding increase_all
  increase_all-total address new [] after h k =
      subst (λ rs. total_allocated rs ≤ 0 + amount_of new) (ok-injective k) (omega arith)
  increase_all-total address new (r ∷ recipients) after h k =
      let (r', er, k₁) =
        >>=-eq-ok (if has_address address r then increase r r.allocation new else ok r) _ k in
      let (rest, es, k₂) = >>=-eq-ok (increase_all address new recipients) _ k₁ in
      subst (λ rs. total_allocated rs ≤ total_allocated (r ∷ recipients) + amount_of new)
        (ok-injective k₂)
        (by_head r' rest (has_address address r) refl er es
          (λ few. increase_all-total address new recipients rest few es))
    where
      by_head :
          (r' : Recipient) (rest : List Recipient) (b : Bool)
          → has_address address r ≡ b
          → (if b then increase r r.allocation new else ok r) ≡ ok r'
          → increase_all address new recipients ≡ ok rest
          → (occurrences address recipients ≤ 1
              → total_allocated rest ≤ total_allocated recipients + amount_of new)
          → amount_of r'.allocation + total_allocated rest
            ≤ amount_of r.allocation + total_allocated recipients + amount_of new
      by_head r' rest true e er es tail =
          let none_left : occurrences address recipients ≡ 0 = ground arith in
          let same = increase_all-others address new recipients rest none_left es in
          omega (arith, ap total_allocated same, increase-total r r' r.allocation new er refl)
      by_head r' rest false e er es tail =
          let few : occurrences address recipients ≤ 1 = omega (arith, h) in
          omega (arith, ap (λ q. amount_of q.allocation) (ok-injective er), tail few)

  -- Where no address stands twice, a recipient that divides its allocation never makes the total of
  -- the allocations larger, whether the address it gives to is new, has an allocation or has none.
  pub divvy-total :
      (sender address : Addr) (amount : ℕ) (recipients after : List Recipient)
      → ((k : Addr) → occurrences k recipients ≤ 1)
      → divvy sender address amount recipients ≡ ok after
      → total_allocated after ≤ total_allocated recipients
  unfolding divvy
  divvy-total sender address amount recipients after distinct h =
      by_known (any_recipient address divided) h
    where
      divided : List Recipient
      divided = (divvy_sender sender amount none recipients).0

      new : Option Allocation
      new = (divvy_sender sender amount none recipients).1

      added : Recipient
      added = record { recipient = address; allocation = new; claimables = [] }

      total : total_allocated divided + amount_of new ≡ total_allocated recipients
      total = divvy_sender-total sender amount recipients (distinct sender)

      few : occurrences address divided ≤ 1
      few = omega (
        arith,
        divvy_sender-book (λ a. if str_eq a address then 1 else 0) sender amount none recipients,
        distinct address,
      )

      by_known :
          (known : Bool)
          → (if known then increase_all address new divided else ok (divided ++ added ∷ []))
            ≡ ok after
          → total_allocated after ≤ total_allocated recipients
      by_known true j = omega (arith, increase_all-total address new divided after few j, total)
      by_known false j =
          subst (λ rs. total_allocated rs ≤ total_allocated recipients) (ok-injective j)
            (omega (arith, sum_by-append (λ r. amount_of r.allocation) divided (added ∷ []), total))

  -- Where no address stands twice and the address is new, a recipient that divides its allocation
  -- leaves the total of the allocations exactly as it was: what it gives up is what the new recipient
  -- gets.
  pub divvy-total_new :
      (sender address : Addr) (amount : ℕ) (recipients after : List Recipient)
      → ((k : Addr) → occurrences k recipients ≤ 1)
      → occurrences address recipients ≡ 0
      → divvy sender address amount recipients ≡ ok after
      → total_allocated after ≡ total_allocated recipients
  unfolding divvy
  divvy-total_new sender address amount recipients after distinct fresh h =
      let (divided, new) = divvy_sender sender amount none recipients in
      let added : Recipient = record { recipient = address; allocation = new; claimables = [] } in
      let absent : any_recipient address divided ≡ false =
        occurrences-any_recipient address divided (
          divvy_sender-book (λ a. if str_eq a address then 1 else 0) sender amount none recipients
          ∙ fresh) in
      let pushed =
        subst
          (λ b.
            (if b then increase_all address new divided else ok (divided ++ added ∷ [])) ≡ ok after)
          absent h in
      subst (λ rs. total_allocated rs ≡ total_allocated recipients) (ok-injective pushed)
        (omega (
          arith,
          sum_by-append (λ r. amount_of r.allocation) divided (added ∷ []),
          divvy_sender-total sender amount recipients (distinct sender),
        ))
