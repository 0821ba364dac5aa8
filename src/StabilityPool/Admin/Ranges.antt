-- ===== src/StabilityPool/Admin/Ranges.antt =====
-- `update_config` of contracts/stability-pool/src/contract.rs: the sender and the ranges of the
-- settings.
use membrane_core.Prelude.{
  ℕ, ◌≤◌, ◌≡◌, ◌⊎◌, inl, inr, refl, sym, ap, subst, ◌∙◌, Bool, true, false, Option, none, some,
  String, arith, ltb, ◌||◌, str_eq, str_eq_iff, if◌then◌else◌,
}
use membrane_core.Crates.{Crates}
use membrane_core.Result.{
  ok, err, not_found, unauthorized, custom_error, ◌>>=◌, >>=-eq-ok, ok-injective, or_err,
  or_err-eq-ok, reject_if, reject_if-eq-ok,
}
use membrane_core.Asset.{Addr}
use membrane_core.Chain.{MessageInfo, validate_option}
use membrane_core.StabilityPool.Types.{Config, Store, Response, load_config}
use membrane_core.StabilityPool.Admin.{
  UpdateConfig, twenty_percent, within, transfer_owner, authorize, valid_owner, change_contracts,
  change_settings, update_config,
}

-- A setting that stays, or lies in its range.
abbrev pub IsWithin : ℕ → ℕ → ℕ → ℕ → Type 0
IsWithin low high old new = (new ≡ old) ⊎ ((low ≤ new) × (new ≤ high))

-- The settings with a range stay, or lie in it.
abbrev pub AreWithin : Config → Config → Type 0
AreWithin old new =
    IsWithin 0 twenty_percent old.incentive_rate new.incentive_rate
    × IsWithin 1_000_000 10_000_000 old.max_incentives new.max_incentives
    × IsWithin 1 7 old.unstaking_period new.unstaking_period

-- What a change of the configuration by this sender did.
pub record IsUpdated (s s' : Store) (sender : Addr) : Type 0 where
  pub old : Config
  pub new : Config
  pub loaded : s.config ≡ some old
  pub saved : s'.config ≡ some new
  pub owner : new.owner ≡ sender
  pub allowed : (sender ≡ old.owner) ⊎ (s.ownership_transfer ≡ some sender)
  pub ranges : AreWithin old new
  pub pool : s'.asset ≡ s.asset

within-IsWithin :
    (low high : ℕ) (message : String) (value : Option ℕ) (old new : ℕ)
    → within low high message value old ≡ ok new
    → IsWithin low high old new
unfolding within
within-IsWithin low high message none old new h = inl (sym (ok-injective h))
within-IsWithin low high message (some value) old new h =
    let bad = ltb value low || ltb high value in
    let (_, eb, h₁) = >>=-eq-ok (reject_if bad (custom_error message)) _ h in
    inr (range_lem value new (ok-injective h₁) (reject_if-eq-ok bad (custom_error message) eb))
  where
    range_lem : (m n : ℕ) → m ≡ n → (ltb m low || ltb high m) ≡ false → (low ≤ n) × (n ≤ high)
    range_lem m n e k = ground arith

authorized :
    (s : Store) (old config : Config) (sender : Addr)
    → authorize s old sender ≡ ok config
    → ((sender ≡ old.owner) ⊎ (s.ownership_transfer ≡ some sender))
      × (config ≡ record old { owner = sender })
unfolding authorize
authorized s old config sender h = by_owner (str_eq sender old.owner) refl h
  where
    by_pending :
        (pending : Addr) (b : Bool)
        → s.ownership_transfer ≡ some pending
        → str_eq sender pending ≡ b
        → (if b then ok (record old { owner = sender }) else err unauthorized) ≡ ok config
        → ((sender ≡ old.owner) ⊎ (s.ownership_transfer ≡ some sender))
          × (config ≡ record old { owner = sender })
    by_pending pending true saved e k = (
      inr (saved ∙ ap (λ a. some a) (sym ((str_eq_iff sender pending).0 e))),
      sym (ok-injective k),
    )
    by_pending pending false saved e k = cc

    by_owner :
        (b : Bool)
        → str_eq sender old.owner ≡ b
        → (if b
            then ok old
            else (or_err s.ownership_transfer not_found >>= λ pending.
                if str_eq sender pending
                then ok (record old { owner = sender })
                else err unauthorized))
          ≡ ok config
        → ((sender ≡ old.owner) ⊎ (s.ownership_transfer ≡ some sender))
          × (config ≡ record old { owner = sender })
    by_owner true e k =
        let same : sender ≡ old.owner = (str_eq_iff sender old.owner).0 e in
        (inl same, sym (ok-injective k) ∙ ap (λ a. record old { owner = a }) (sym same))
    by_owner false e k =
        let (pending, ep, k₁) = >>=-eq-ok (or_err s.ownership_transfer not_found) _ k in
        by_pending pending (str_eq sender pending) (or_err-eq-ok s.ownership_transfer not_found ep)
          refl k₁

transfer_owner-asset : (s : Store) (owner : Option Addr) → (transfer_owner s owner).asset ≡ s.asset
unfolding transfer_owner
transfer_owner-asset s none = refl
transfer_owner-asset s (some owner) = refl

-- What the new addresses leave as it is.
abbrev IsMoved : Config → Config → Type 0
IsMoved c c' =
    (c'.owner ≡ c.owner)
    × (c'.incentive_rate ≡ c.incentive_rate)
    × (c'.max_incentives ≡ c.max_incentives)
    × (c'.unstaking_period ≡ c.unstaking_period)

IsWithin-from :
    (low high old old' new : ℕ)
    → old ≡ old'
    → IsWithin low high old new
    → IsWithin low high old' new
IsWithin-from low high old old' new same h = subst (λ n. IsWithin low high n new) same h

module _ ⦃x : Crates⦄ where
  change_contracts-same :
      (c c' : Config) (update : UpdateConfig) → change_contracts c update ≡ ok c' → IsMoved c c'
  unfolding change_contracts
  change_contracts-same c c' update e =
      let (_, _, e₁) = >>=-eq-ok (validate_option update.osmosis_proxy c.osmosis_proxy) _ e in
      let (_, _, e₂) =
        >>=-eq-ok (validate_option update.positions_contract c.positions_contract) _ e₁ in
      let (_, _, e₃) = >>=-eq-ok (validate_option update.oracle_contract c.oracle_contract) _ e₂ in
      subst (IsMoved c) (ok-injective e₃) (refl, refl, refl, refl)

  change_settings-within :
      (c c' : Config) (update : UpdateConfig)
      → change_settings c update ≡ ok c'
      → (c'.owner ≡ c.owner) × AreWithin c c'
  unfolding change_settings
  change_settings-within c c' update e =
      let (rate, er, e₁) =
        >>=-eq-ok
          (within 0 twenty_percent "Incentive rate cannot be greater than 20%" update.incentive_rate
            c.incentive_rate)
          _ e in
      let (max, em, e₂) =
        >>=-eq-ok
          (within 1_000_000 10_000_000 "Max incentives must be between 1M and 10M"
            update.max_incentives c.max_incentives)
          _ e₁ in
      let (period, ep, e₃) =
        >>=-eq-ok
          (within 1 7 "Unstaking period must be between 1 and 7 days" update.unstaking_period
            c.unstaking_period)
          _ e₂ in
      subst (λ q. (q.owner ≡ c.owner) × AreWithin c q) (ok-injective e₃)
        (
          refl,
          (
            within-IsWithin 0 twenty_percent _ update.incentive_rate c.incentive_rate rate er,
            within-IsWithin 1_000_000 10_000_000 _ update.max_incentives c.max_incentives max em,
            within-IsWithin 1 7 _ update.unstaking_period c.unstaking_period period ep,
          ),
        )

  -- A change of the configuration that succeeds was sent by the owner, or by the address that the last
  -- transfer named; the sender owns the contract afterwards. Each of the incentive rate, the maximum
  -- of the incentives and the unstaking period is as it was, or within 20%, one to ten million, and
  -- one to seven days. The pool stays.
  pub update_config-IsUpdated :
      (s s' : Store) (info : MessageInfo) (update : UpdateConfig) (response : Response)
      → update_config s info update ≡ ok (s', response)
      → IsUpdated s s' info.sender
  unfolding update_config load_config
  update_config-IsUpdated s s' info update response e =
      let (old, eo, e₁) = >>=-eq-ok (load_config s) _ e in
      let (config, ec, e₂) = >>=-eq-ok (authorize s old info.sender) _ e₁ in
      let (owner, _, e₃) = >>=-eq-ok (valid_owner update.owner) _ e₂ in
      let (moved, eg, e₄) = >>=-eq-ok (change_contracts config update) _ e₃ in
      let (updated, eu, e₅) = >>=-eq-ok (change_settings moved update) _ e₄ in
      let (allowed, same) = authorized s old config info.sender ec in
      let (kept, rate, max, period) = change_contracts-same config moved update eg in
      let (owned, (rate_in, max_in, period_in)) = change_settings-within moved updated update eu in
      let stored = ap (λ q. q.0) (sym (ok-injective e₅)) in
      record {
        old = old;
        new = updated;
        loaded = or_err-eq-ok s.config not_found eo;
        saved = ap (λ t. t.config) stored;
        owner = owned ∙ kept ∙ ap (λ c. c.owner) same;
        allowed = allowed;
        ranges = (
          IsWithin-from 0 twenty_percent moved.incentive_rate old.incentive_rate
              updated.incentive_rate (rate ∙ ap (λ c. c.incentive_rate) same) rate_in,
          IsWithin-from 1_000_000 10_000_000 moved.max_incentives old.max_incentives
              updated.max_incentives (max ∙ ap (λ c. c.max_incentives) same) max_in,
          IsWithin-from 1 7 moved.unstaking_period old.unstaking_period updated.unstaking_period
              (period ∙ ap (λ c. c.unstaking_period) same) period_in,
        );
        pool = ap (λ t. t.asset) stored ∙ transfer_owner-asset s owner;
      }
