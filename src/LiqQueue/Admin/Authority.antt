-- ===== src/LiqQueue/Admin/Authority.antt =====
-- `update_config` and `edit_queue` of contracts/liq-queue/src/contract.rs.
use membrane_core.Prelude.{
  ℕ, ◌≤◌, ◌≡◌, ◌⊎◌, refl, ap, ◌∙◌, sym, subst, Option, some, none, String, str_eq, str_eq_iff, ltb,
  ◌||◌, not, arith, if◌then◌else◌,
}
use membrane_core.Crates.{Crates}
use membrane_core.Result.{
  ok, err, not_found, unauthorized, invalid_premium, invalid_bid_threshold, ◌>>=◌, >>=-eq-ok,
  ok-injective, or_err, or_err-eq-ok, reject_if, reject_if-eq-ok,
}
use membrane_core.Asset.{Addr, AssetInfo, to_string}
use membrane_core.LiqQueue.Types.{Queue, Config}
use membrane_core.LiqQueue.State.{
  Store, MessageInfo, Response, load_queue, load_config, save_config, load-save_queue,
}
use membrane_core.LiqQueue.Admin.{
  ConfigUpdate, validate, authorize, transfer_owner, transfer_attrs, validate_option, update_config,
  added_slots, edit_premium, edit_threshold, edit_queue,
}

-- The sender keeps or takes over the contract, and leaves the queues alone.
pub record IsConfigured (store store' : Store) (sender : Addr) : Type 0 where
  pub old : Config
  pub new : Config
  pub loaded : store.config ≡ some old
  pub saved : store'.config ≡ some new
  pub owner : new.owner ≡ sender
  pub allowed : (sender ≡ old.owner) ⊎ (store.ownership_transfer ≡ some sender)
  pub bid_asset : new.bid_asset ≡ old.bid_asset
  pub added_assets : new.added_assets ≡ old.added_assets
  pub queues : store'.queues ≡ store.queues

-- The maximal premium that a change gives, within 1% to 50%, or the old one.
abbrev pub IsPremium : Option ℕ → ℕ → ℕ → Type 0
IsPremium none old new = new ≡ old
IsPremium (some given) old new = (new ≡ given) × (1 ≤ new) × (new ≤ 50)

abbrev pub IsThreshold : Option ℕ → ℕ → ℕ → Type 0
IsThreshold none old new = new ≡ old
IsThreshold (some given) old new = (new ≡ given) × (1_000_000 ≤ new) × (new ≤ 10_000_000)

-- What editing a queue changed.
pub record IsEdited (old new : Queue) (premium threshold : Option ℕ) : Type 0 where
  pub max_premium : IsPremium premium old.max_premium new.max_premium
  pub bid_threshold : IsThreshold threshold old.bid_threshold new.bid_threshold
  pub bid_asset : new.bid_asset ≡ old.bid_asset
  pub ids : new.current_bid_id ≡ old.current_bid_id

module _ ⦃x : Crates⦄ where
  pending-cases :
      (store : Store) (old config : Config) (sender : Addr)
      → (or_err store.ownership_transfer not_found >>= λ pending.
          if str_eq sender pending then ok (record old { owner = sender }) else err unauthorized)
        ≡ ok config
      → (store.ownership_transfer ≡ some sender) × (config ≡ record old { owner = sender })
  pending-cases store old config sender h =
      let (pending, ep, h₁) = >>=-eq-ok (or_err store.ownership_transfer not_found) _ h in
      ground (arith, or_err-eq-ok store.ownership_transfer not_found ep, str_eq_iff sender pending)

  authorize-eq-ok :
      (store : Store) (old config : Config) (sender : Addr)
      → authorize store old sender ≡ ok config
      → ((sender ≡ old.owner) ⊎ (store.ownership_transfer ≡ some sender))
        × (config ≡ record old { owner = sender })
  unfolding authorize
  authorize-eq-ok store old config sender h =
      ground (arith, pending-cases store old config sender, str_eq_iff sender old.owner)

  transfer_owner-eq-ok :
      (store store' : Store) (owner : Option String)
      → transfer_owner store owner ≡ ok store'
      → store'.queues ≡ store.queues
  unfolding transfer_owner
  transfer_owner-eq-ok store store' none h = ground arith
  transfer_owner-eq-ok store store' (some owner) h =
      let (valid_addr, _, h₁) = >>=-eq-ok (validate owner) _ h in ground (arith, ok-injective h₁)

  -- A change of the configuration that succeeds was sent by the owner, or by the address that the
  -- last transfer named; the sender owns the contract afterwards. The bid asset, the list of assets
  -- and the queues stay.
  pub update_config-IsConfigured :
      (store store' : Store) (info : MessageInfo) (update : ConfigUpdate) (response : Response)
      → update_config store info update ≡ ok (store', response)
      → IsConfigured store store' info.sender
  unfolding update_config load_config save_config
  update_config-IsConfigured store store' info update response h =
      let (old, eo, h₁) = >>=-eq-ok (load_config store) _ h in
      let (config, ec, h₂) = >>=-eq-ok (authorize store old info.sender) _ h₁ in
      let (moved, em, h₃) = >>=-eq-ok (transfer_owner store update.owner) _ h₂ in
      let (attrs, _, h₄) = >>=-eq-ok (transfer_attrs update.owner) _ h₃ in
      let (positions, _, h₅) =
        >>=-eq-ok (validate_option update.positions_contract config.positions_contract) _ h₄ in
      let (proxy, _, h₆) =
        >>=-eq-ok (validate_option update.osmosis_proxy_contract config.osmosis_proxy_contract) _
          h₅ in
      let (allowed, same) = authorize-eq-ok store old config info.sender ec in
      subst (λ s. IsConfigured store s info.sender) (ap (λ p. p.0) (ok-injective h₆))
        (record {
          old = old;
          new = _;
          loaded = or_err-eq-ok store.config not_found eo;
          saved = refl;
          owner = ap (λ c. c.owner) same;
          allowed = allowed;
          bid_asset = ap (λ c. c.bid_asset) same;
          added_assets = ap (λ c. c.added_assets) same;
          queues = transfer_owner-eq-ok store moved update.owner em;
        })

  edit_premium-eq-ok :
      (queue queue' : Queue) (premium : Option ℕ)
      → edit_premium queue premium ≡ ok queue'
      → IsPremium premium queue.max_premium queue'.max_premium
        × (queue'.bid_asset ≡ queue.bid_asset)
        × (queue'.current_bid_id ≡ queue.current_bid_id)
        × (queue'.bid_threshold ≡ queue.bid_threshold)
  unfolding edit_premium
  edit_premium-eq-ok queue queue' none h = ground (arith, ok-injective h)
  edit_premium-eq-ok queue queue' (some premium) h =
      let (_, eb, h₁) =
        >>=-eq-ok (reject_if (ltb 50 premium || ltb premium 1) invalid_premium) _ h in
      let (added, _, h₂) = >>=-eq-ok (added_slots queue premium) _ h₁ in
      ground (
        arith,
        ok-injective h₂,
        reject_if-eq-ok (ltb 50 premium || ltb premium 1) invalid_premium eb,
      )

  edit_threshold-eq-ok :
      (queue queue' : Queue) (threshold : Option ℕ)
      → edit_threshold queue threshold ≡ ok queue'
      → IsThreshold threshold queue.bid_threshold queue'.bid_threshold
        × (queue'.bid_asset ≡ queue.bid_asset)
        × (queue'.current_bid_id ≡ queue.current_bid_id)
        × (queue'.max_premium ≡ queue.max_premium)
  unfolding edit_threshold
  edit_threshold-eq-ok queue queue' none h = ground (arith, ok-injective h)
  edit_threshold-eq-ok queue queue' (some threshold) h =
      let (_, eb, h₁) =
        >>=-eq-ok
          (reject_if (ltb 10_000_000 threshold || ltb threshold 1_000_000) invalid_bid_threshold) _
          h in
      ground (
        arith,
        ok-injective h₁,
        reject_if-eq-ok (ltb 10_000_000 threshold || ltb threshold 1_000_000) invalid_bid_threshold
            eb,
      )

  -- Only the owner edits a queue that exists; the maximal premium it gives lies within 1 to 50, the
  -- threshold within a million and ten million. The deposited total and the ids stay.
  pub edit_queue-IsEdited :
      (store store' : Store) (info : MessageInfo) (bid_for : AssetInfo)
      (premium threshold : Option ℕ) (response : Response)
      → edit_queue store info bid_for premium threshold ≡ ok (store', response)
      → (config : Config) × (old : Queue) × (new : Queue) × (store.config ≡ some config)
        × (info.sender ≡ config.owner)
        × (store.queues (to_string bid_for) ≡ some old)
        × (store'.queues (to_string bid_for) ≡ some new)
        × IsEdited old new premium threshold
  unfolding edit_queue load_config load_queue
  edit_queue-IsEdited store store' info bid_for premium threshold response h =
      let key = to_string bid_for in
      let (config, ec, h₁) = >>=-eq-ok (load_config store) _ h in
      let (_, es, h₂) =
        >>=-eq-ok (reject_if (not (str_eq info.sender config.owner)) unauthorized) _ h₁ in
      let (old, eo, h₃) = >>=-eq-ok (load_queue store key) _ h₂ in
      let (widened, ew, h₄) = >>=-eq-ok (edit_premium old premium) _ h₃ in
      let (new, en, h₅) = >>=-eq-ok (edit_threshold widened threshold) _ h₄ in
      let (p, a, i, t) = edit_premium-eq-ok old widened premium ew in
      let (t', a', i', p') = edit_threshold-eq-ok widened new threshold en in
      (
        config,
        old,
        new,
        or_err-eq-ok store.config not_found ec,
        ground (
          arith,
          reject_if-eq-ok (not (str_eq info.sender config.owner)) unauthorized es,
          str_eq_iff info.sender config.owner,
        ),
        or_err-eq-ok (store.queues key) not_found eo,
        subst (λ s. s.queues key ≡ some new) (ap (λ p. p.0) (ok-injective h₅))
            (load-save_queue store key new),
        record {
          max_premium = subst (IsPremium premium old.max_premium) (sym p') p;
          bid_threshold = subst (λ o. IsThreshold threshold o new.bid_threshold) t t';
          bid_asset = a' ∙ a;
          ids = i' ∙ i;
        },
      )
