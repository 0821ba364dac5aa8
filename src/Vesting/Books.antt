-- ===== src/Vesting/Books.antt =====
-- The books of contracts/vesting: the addresses of the recipients and the sum of the allocations.
use membrane_core.Prelude.{
  ℕ, ◌≤◌, ◌≡◌, inl, inr, refl, sym, subst, ◌∙◌, Bool-cases, false, Option, none, some, List, [],
  ◌∷◌, ◌++◌, arith, if◌then◌else◌, sum_by, sum_by-append, str_eq, str_eq_iff,
}
use membrane_core.Asset.{Addr}
use membrane_core.Vesting.Types.{Allocation, Recipient, Config, Store}
use membrane_core.Vesting.Admin.{any_recipient}

abbrev pub amount_of : Option Allocation → ℕ
amount_of none = 0
amount_of (some a) = a.amount

-- A sum over the recipients of a number that depends on the address and the amount.
abbrev pub book : (Addr → ℕ → ℕ) → List Recipient → ℕ
book g = sum_by (λ r. g r.recipient (amount_of r.allocation))

-- How often an address stands among the recipients.
abbrev pub occurrences : Addr → List Recipient → ℕ
occurrences address = book (λ a n. if str_eq a address then 1 else 0)

-- What is allocated in all.
abbrev pub total_allocated : List Recipient → ℕ
total_allocated = book (λ a n. n)

-- No address stands twice, and no more is allocated than the contract may distribute.
pub record IsSound (total : ℕ) (recipients : List Recipient) : Type 0 where
  pub distinct : (address : Addr) → occurrences address recipients ≤ 1
  pub covered : total_allocated recipients ≤ total

pub record IsSolvent (s : Store) : Type 0 where
  pub config : Config
  pub recipients : List Recipient
  pub config_saved : s.config ≡ some config
  pub recipients_saved : s.recipients ≡ some recipients
  pub sound : IsSound config.total_allocation recipients

-- Every book of the second list is at most that of the first.
abbrev pub Within : List Recipient → List Recipient → Type 0
Within before after = (g : Addr → ℕ → ℕ) → book g after ≤ book g before

pub Within-IsSound :
    (total : ℕ) (before after : List Recipient)
    → Within before after
    → IsSound total before
    → IsSound total after
Within-IsSound total before after within h = record {
  distinct = λ address.
      omega (arith, within (λ a n. if str_eq a address then 1 else 0), h.distinct address);
  covered = omega (arith, within (λ a n. n), h.covered);
}

pub any_recipient-occurrences :
    (address : Addr) (recipients : List Recipient)
    → any_recipient address recipients ≡ false
    → occurrences address recipients ≡ 0
any_recipient-occurrences address [] h = refl
any_recipient-occurrences address (r ∷ recipients) h =
    ground (arith, any_recipient-occurrences address recipients)

pub occurrences-any_recipient :
    (address : Addr) (recipients : List Recipient)
    → occurrences address recipients ≡ 0
    → any_recipient address recipients ≡ false
occurrences-any_recipient address [] h = refl
occurrences-any_recipient address (r ∷ recipients) h =
    ground (arith, occurrences-any_recipient address recipients)

-- A new address may be added.
pub occurrences-append :
    (address other : Addr) (recipients : List Recipient) (r : Recipient)
    → r.recipient ≡ address
    → any_recipient address recipients ≡ false
    → occurrences other recipients ≤ 1
    → occurrences other (recipients ++ r ∷ []) ≤ 1
occurrences-append address other recipients r same fresh h =
    let split =
      sum_by-append (λ q. if str_eq q.recipient other then 1 else 0) recipients (r ∷ []) in
    let absent = any_recipient-occurrences address recipients fresh in
    elim (Bool-cases (str_eq r.recipient other)) [
      | inl e ↦
          let here : address ≡ other = sym same ∙ (str_eq_iff r.recipient other).0 e in
          let none_yet : occurrences other recipients ≡ 0 =
            subst (λ a. occurrences a recipients ≡ 0) here absent in
          ground arith
      | inr e ↦ ground arith
    ]
