-- ===== src/Vesting/Contract/Created.antt =====
-- `instantiate` of contracts/vesting/src/contract.rs and the books.
use membrane_core.Prelude.{
  ℕ, ◌+◌, ◌-◌, ◌*◌, ◌≤◌, ◌≡◌, refl, ap, subst, Bool, true, false, Option, none, some, List, [], ◌∷◌,
  ◌++◌, String, arith, str_eq, if◌then◌else◌, length, length-append, sum_by-append,
}
use membrane_core.Crates.{Crates}
use membrane_core.Result.{ok, >>=-eq-ok, ok-injective, must}
use membrane_core.Asset.{Addr}
use membrane_core.Chain.{Env, MessageInfo, validate, validate_option}
use membrane_core.Vesting.Types.{Recipient, Store, Response, save_config, save_recipients}
use membrane_core.Vesting.Admin.{
  InstantiateMsg, any_recipient, new_allocation, enlist, enlist_all, instantiate,
}
use membrane_core.Vesting.Books.{
  amount_of, occurrences, total_allocated, IsSolvent, occurrences-append,
}

-- The recipients while they are enlisted: each but the first has the community's amount.
record IsListed (initial : ℕ) (recipients : List Recipient) : Type 0 where
  distinct : (address : Addr) → occurrences address recipients ≤ 1
  some_listed : 1 ≤ length recipients
  listed_total :
      total_allocated recipients + 1_000_000_000 ≡ initial + length recipients * 1_000_000_000

enlist-IsListed :
    (initial now : ℕ) (address : Option Addr) (recipients : List Recipient)
    → IsListed initial recipients
    → IsListed initial (enlist now address recipients)
unfolding enlist
enlist-IsListed initial now none recipients h = h
enlist-IsListed initial now (some address) recipients h =
    by_known (any_recipient address recipients) refl
  where
    new : Recipient
    new = record {
      recipient = address;
      allocation = some (new_allocation 1_000_000_000 now 0);
      claimables = [];
    }

    by_known :
        (known : Bool)
        → any_recipient address recipients ≡ known
        → IsListed initial (if known then recipients else recipients ++ new ∷ [])
    by_known true e = h
    by_known false e = record {
      distinct = λ k. occurrences-append address k recipients new refl e (h.distinct k);
      some_listed = omega (arith, length-append recipients (new ∷ []));
      listed_total = omega (
        arith,
        length-append recipients (new ∷ []),
        sum_by-append (λ r. amount_of r.allocation) recipients (new ∷ []),
        h.listed_total,
      );
    }

module _ ⦃x : Crates⦄ where
  enlist_all-IsListed :
      (initial now : ℕ) (recipients : List Recipient) (addresses : List String)
      → IsListed initial recipients
      → IsListed initial (enlist_all now recipients addresses)
  unfolding enlist_all
  enlist_all-IsListed initial now recipients [] h = h
  enlist_all-IsListed initial now recipients (address ∷ addresses) h =
      enlist_all-IsListed initial now (enlist now (x.addr_validate address) recipients) addresses
        (enlist-IsListed initial now (x.addr_validate address) recipients h)

  first-IsListed :
      (initial now : ℕ) (contributors : Addr)
      → IsListed initial (
          record {
            recipient = contributors;
            allocation = some (new_allocation initial now 730);
            claimables = [];
          }
          ∷ [])
  first-IsListed initial now contributors = record {
    distinct = λ k. by_test (str_eq contributors k);
    some_listed = omega arith;
    listed_total = omega arith;
  }
    where
      by_test : (b : Bool) → (if b then 1 else 0) + 0 ≤ 1
      by_test true = omega arith
      by_test false = omega arith

  listed-covered :
      (initial total : ℕ) (recipients : List Recipient)
      → IsListed initial recipients
      → must (x.u128_add initial ((length recipients - 1) * 1_000_000_000)) ≡ ok total
      → total_allocated recipients ≡ total
  listed-covered initial total recipients h e =
      let total_lem : total ≡ initial + (length recipients - 1) * 1_000_000_000 =
        ground (arith, x.u128_add_lem initial ((length recipients - 1) * 1_000_000_000)) in
      omega (arith, total_lem, h.listed_total, h.some_listed)

  pub instantiate-IsSolvent :
      (empty s : Store) (env : Env) (info : MessageInfo) (msg : InstantiateMsg)
      (response : Response)
      → instantiate empty env info msg ≡ ok (s, response)
      → IsSolvent s
  unfolding instantiate save_config save_recipients
  instantiate-IsSolvent empty s env info msg response e =
      let (proxy, _, e₁) = >>=-eq-ok (validate msg.osmosis_proxy) _ e in
      let (staking, _, e₂) = >>=-eq-ok (validate msg.staking_contract) _ e₁ in
      let (owner, _, e₃) = >>=-eq-ok (validate_option msg.owner info.sender) _ e₂ in
      let (contributors, _, e₄) = >>=-eq-ok (validate msg.pre_launch_contributors) _ e₃ in
      let now = x.seconds env.time in
      let listed =
        enlist_all-IsListed msg.initial_allocation now _ msg.pre_launch_community
          (first-IsListed msg.initial_allocation now contributors) in
      let (total, et, e₅) =
        >>=-eq-ok
          (must (
            x.u128_add msg.initial_allocation
              ((length (enlist_all now _ msg.pre_launch_community) - 1) * 1_000_000_000)))
          _ e₄ in
      subst IsSolvent (ap (λ p. p.0) (ok-injective e₅)) (record {
        config = _;
        recipients = _;
        config_saved = refl;
        recipients_saved = refl;
        sound = record {
          distinct = listed.distinct;
          covered = omega (arith, listed-covered msg.initial_allocation total _ listed et);
        };
      })
