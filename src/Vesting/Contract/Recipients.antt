-- ===== src/Vesting/Contract/Recipients.antt =====
-- The calls of contracts/vesting/src/contract.rs on the recipients, and the books.
use membrane_core.Prelude.{
  ℕ, ◌+◌, ◌≤◌, ◌≡◌, refl, sym, ap, subst, false, Option, none, some, List, [], ◌∷◌, ◌++◌, String,
  arith, not, ltb, ◌==◌, str_eq, filter, find?, sum_by-append, sum_by-filter, sum_by-filter-find,
}
use membrane_core.Crates.{Crates}
use membrane_core.Result.{
  ok, not_found, unauthorized, invalid_recipient, invalid_allocation, over_allocated, custom_error,
  >>=-eq-ok, ok-injective, or_err, or_err-eq-ok, reject_if, reject_if-eq-ok,
}
use membrane_core.Asset.{Addr}
use membrane_core.Chain.{Env, MessageInfo, validate}
use membrane_core.Vesting.Types.{
  VestingPeriod, Allocation, Recipient, Config, Store, Response, load_config, load_recipients,
  save_recipients,
}
use membrane_core.Vesting.Unlock.Payments.{get_unlocked_amount-IsPayment}
use membrane_core.Vesting.Withdraw.{has_address, unlock, withdraw_unlocked}
use membrane_core.Vesting.Admin.{any_recipient, add_recipient, remove_recipient}
use membrane_core.Vesting.Books.{amount_of, IsSound, IsSolvent, Within, occurrences-append}
use membrane_core.Vesting.Fees.{Querier, claim_fees_for_contract}
use membrane_core.Vesting.Fees.Kept.{
  saved-IsSolvent, loaded-recipients, claim_fees_for_contract-IsSolvent,
}
use membrane_core.Vesting.Allocate.{allocate, allocation_total, add_allocation}
use membrane_core.Vesting.Allocate.Divvied.{allocate-distinct, allocation_total-eq-ok}

-- A recipient that is removed, or replaced by one with the same amount, keeps every book within.
filter-Within :
    (address : Addr) (recipients : List Recipient)
    → Within recipients (filter (λ r. not (has_address address r)) recipients)
filter-Within address recipients g = omega (
  arith,
  sum_by-filter (λ r. g r.recipient (amount_of r.allocation)) (has_address address) recipients,
)

replaced-Within :
    (address : Addr) (recipients : List Recipient) (r r' : Recipient)
    → find? (has_address address) recipients ≡ some r
    → r'.recipient ≡ r.recipient
    → amount_of r'.allocation ≡ amount_of r.allocation
    → Within recipients (filter (λ q. not (has_address address q)) recipients ++ r' ∷ [])
replaced-Within address recipients r r' found same amount g = omega (
  arith,
  sum_by-append (λ q. g q.recipient (amount_of q.allocation))
      (filter (λ q. not (has_address address q)) recipients) (r' ∷ []),
  sum_by-filter-find (λ q. g q.recipient (amount_of q.allocation)) (has_address address) recipients
      r found,
  ap (λ a. g a (amount_of r'.allocation)) same,
  ap (λ n. g r.recipient n) amount,
)

pub remove_recipient-IsSolvent :
    (s s' : Store) (info : MessageInfo) (recipient : String) (response : Response)
    → IsSolvent s
    → remove_recipient s info recipient ≡ ok (s', response)
    → IsSolvent s'
unfolding remove_recipient
remove_recipient-IsSolvent s s' info recipient response h e =
    let (config, _, e₁) = >>=-eq-ok (load_config s) _ e in
    let (_, _, e₂) =
      >>=-eq-ok (reject_if (not (str_eq info.sender config.owner)) unauthorized) _ e₁ in
    let (recipients, er, e₃) = >>=-eq-ok (load_recipients s) _ e₂ in
    let kept = filter (λ r. not (has_address recipient r)) recipients in
    subst IsSolvent (ap (λ p. p.0) (ok-injective e₃)) (
      saved-IsSolvent s kept h (
        subst (λ rs. Within rs kept) (sym (loaded-recipients s recipients h er))
          (filter-Within recipient recipients)))

module _ ⦃x : Crates⦄ where
  unlock-amount :
      (a : Option Allocation) (now : ℕ) (r : ℕ × Allocation)
      → unlock a now ≡ ok r
      → amount_of (some r.1) ≡ amount_of a
  unfolding unlock
  unlock-amount none now r h = cc
  unlock-amount (some a) now r h = (get_unlocked_amount-IsPayment a r.1 now r.0 h).amount

  pub withdraw_unlocked-IsSolvent :
      (s s' : Store) (env : Env) (info : MessageInfo) (response : Response)
      → IsSolvent s
      → withdraw_unlocked s env info ≡ ok (s', response)
      → IsSolvent s'
  unfolding withdraw_unlocked
  withdraw_unlocked-IsSolvent s s' env info response h e =
      let (config, _, e₁) = >>=-eq-ok (load_config s) _ e in
      let (recipients, er, e₂) = >>=-eq-ok (load_recipients s) _ e₁ in
      let (r, ef, e₃) =
        >>=-eq-ok (or_err (find? (has_address info.sender) recipients) invalid_recipient) _ e₂ in
      let (unlocked, eu, e₄) = >>=-eq-ok (unlock r.allocation (x.seconds env.time)) _ e₃ in
      let r' = record r { allocation = some unlocked.1 } in
      let after = filter (λ q. not (has_address info.sender q)) recipients ++ r' ∷ [] in
      subst IsSolvent (ap (λ p. p.0) (ok-injective e₄)) (
        saved-IsSolvent s after h (
          subst (λ rs. Within rs after) (sym (loaded-recipients s recipients h er))
            (replaced-Within info.sender recipients r r'
              (or_err-eq-ok (find? (has_address info.sender) recipients) invalid_recipient ef) refl
              (unlock-amount r.allocation (x.seconds env.time) unlocked eu))))

  pub add_recipient-IsSolvent :
      (s s' : Store) (info : MessageInfo) (recipient : String) (response : Response)
      → IsSolvent s
      → add_recipient s info recipient ≡ ok (s', response)
      → IsSolvent s'
  unfolding add_recipient save_recipients
  add_recipient-IsSolvent s s' info recipient response h e =
      let (config, _, e₁) = >>=-eq-ok (load_config s) _ e in
      let (_, _, e₂) =
        >>=-eq-ok (reject_if (not (str_eq info.sender config.owner)) unauthorized) _ e₁ in
      let (valid, _, e₃) = >>=-eq-ok (validate recipient) _ e₂ in
      let (recipients, er, e₄) = >>=-eq-ok (load_recipients s) _ e₃ in
      let duplicate = custom_error "Duplicate Recipient" in
      let (_, en, e₅) = >>=-eq-ok (reject_if (any_recipient valid recipients) duplicate) _ e₄ in
      let fresh = reject_if-eq-ok (any_recipient valid recipients) duplicate en in
      let new : Recipient = record { recipient = valid; allocation = none; claimables = [] } in
      let sound =
        subst (IsSound h.config.total_allocation) (loaded-recipients s recipients h er) h.sound in
      subst IsSolvent (ap (λ p. p.0) (ok-injective e₅)) (record {
        config = h.config;
        recipients = recipients ++ new ∷ [];
        config_saved = h.config_saved;
        recipients_saved = refl;
        sound = record {
          distinct = λ k. occurrences-append valid k recipients new refl fresh (sound.distinct k);
          covered = omega (
            arith,
            sum_by-append (λ r. amount_of r.allocation) recipients (new ∷ []),
            sound.covered,
          );
        };
      })

  -- What `add_allocation` saves after the claim of fees.
  allocated-IsSolvent :
      (s : Store) (config : Config) (now : ℕ) (sender address : Addr) (amount : ℕ)
      (period : Option VestingPeriod) (after : List Recipient) (total : ℕ)
      → IsSolvent s
      → load_config s ≡ ok config
      → allocate s config now sender address amount period ≡ ok after
      → allocation_total 0 after ≡ ok total
      → ltb config.total_allocation total ≡ false
      → IsSolvent (save_recipients s after)
  unfolding load_config load_recipients save_recipients
  allocated-IsSolvent s config now sender address amount period after total h ec ea et en = record {
    config = config;
    recipients = after;
    config_saved = or_err-eq-ok s.config _ ec;
    recipients_saved = refl;
    sound = record {
      distinct =
          allocate-distinct s config now sender address amount period h.recipients after
            (ap (λ o. or_err o not_found) h.recipients_saved) h.sound.distinct ea;
      covered = covered_lem (allocation_total-eq-ok 0 total after et) en;
    };
  }
    where
      covered_lem : {m n k : ℕ} → m ≡ 0 + n → ltb k m ≡ false → n ≤ k
      covered_lem e k = ground arith

  pub add_allocation-IsSolvent :
      (s s' : Store) (querier : Querier) (env : Env) (info : MessageInfo) (recipient : String)
      (amount : ℕ) (period : Option VestingPeriod) (response : Response)
      → IsSolvent s
      → add_allocation s querier env info recipient amount period ≡ ok (s', response)
      → IsSolvent s'
  unfolding add_allocation
  add_allocation-IsSolvent s s' querier env info recipient amount period response h e =
      let (claimed, el, e₁) = >>=-eq-ok (claim_fees_for_contract s querier env) _ e in
      let (_, _, e₂) = >>=-eq-ok (reject_if (amount == 0) invalid_allocation) _ e₁ in
      let (valid, _, e₃) = >>=-eq-ok (validate recipient) _ e₂ in
      let (config, ec, e₄) = >>=-eq-ok (load_config claimed.0) _ e₃ in
      let now = x.seconds env.time in
      let (after, ea, e₅) =
        >>=-eq-ok (allocate claimed.0 config now info.sender valid amount period) _ e₄ in
      let (total, et, e₆) = >>=-eq-ok (allocation_total 0 after) _ e₅ in
      let over = ltb config.total_allocation total in
      let (_, en, e₇) = >>=-eq-ok (reject_if over over_allocated) _ e₆ in
      subst IsSolvent (ap (λ p. p.0) (ok-injective e₇)) (
        allocated-IsSolvent claimed.0 config now info.sender valid amount period after total
          (claim_fees_for_contract-IsSolvent s claimed.0 querier env claimed.1 h el) ec ea et
          (reject_if-eq-ok over over_allocated en))
