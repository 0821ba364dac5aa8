-- ===== src/Tests/Management.antt =====
-- The theorems on the configuration and the queues at concrete inputs.
use membrane_core.Prelude.{◌+◌, ◌%◌, ◌^◌, ◌≡◌, ◌⊎◌, refl, some, none, length}
use membrane_core.Tests.{documented}
use membrane_core.Tests.Scenario.{store, osmo, from_sender, no_response, from_ok}
use membrane_core.Asset.{to_string, native_token}
use membrane_core.Math.Decimal256
use membrane_core.LiqQueue.Types.{Queue, Config}
use membrane_core.LiqQueue.State.{load_queue, load_config, Store, Response}
use membrane_core.LiqQueue.Counted.{IsCounted}
use membrane_core.LiqQueue.Admin.{
  edit_threshold, new_slot, new_slots, added_slots, edit_premium, validate_option, transfer_attrs,
  validate, transfer_owner, authorize, ConfigUpdate, update_config, edit_queue, add_queue,
}
use membrane_core.LiqQueue.Admin.Authority.{
  IsConfigured, IsEdited, update_config-IsConfigured, edit_queue-IsEdited,
}
use membrane_core.LiqQueue.Admin.Premiums.{AreEmpty, add_queue-IsCounted}

abbrev shorter_wait : ConfigUpdate
shorter_wait = record {
  owner = some "next";
  positions_contract = none;
  osmosis_proxy_contract = none;
  waiting_period = some 30;
  minimum_bid = none;
  maximum_waiting_bids = none;
}

-- The heir that the last transfer named takes the contract over.
abbrev updated : Store × Response
updated = from_ok (store, no_response) (update_config store (from_sender "heir") shorter_wait)

update_config-IsConfigured_example : IsConfigured store updated.0 "heir"
unfolding update_config load_config authorize transfer_owner validate transfer_attrs validate_option
update_config-IsConfigured_example =
    update_config-IsConfigured store updated.0 (from_sender "heir") shorter_wait updated.1 refl

abbrev edited : Store × Response
edited =
    from_ok (store, no_response)
      (edit_queue store (from_sender "owner") osmo (some 4) (some 2_000_000))

edit_queue-IsEdited_example :
    (config : Config) × (old : Queue) × (new : Queue) × (store.config ≡ some config)
    × ("owner" ≡ config.owner)
    × (store.queues "osmo" ≡ some old)
    × (edited.0.queues "osmo" ≡ some new)
    × IsEdited old new (some 4) (some 2_000_000)
unfolding edit_queue load_config load_queue to_string edit_premium added_slots new_slots new_slot
    Decimal256.percent edit_threshold
edit_queue-IsEdited_example =
    edit_queue-IsEdited store edited.0 (from_sender "owner") osmo (some 4) (some 2_000_000) edited.1
      refl

abbrev widened : Store × Response
widened =
    from_ok (store, no_response)
      (add_queue store (from_sender "positions") (native_token "atom") 3 2_000_000)

add_queue-IsCounted_example :
    (config : Config) × (queue : Queue) × (store.config ≡ some config)
    × (("positions" ≡ config.owner) ⊎ ("positions" ≡ config.positions_contract))
    × (store.queues "atom" ≡ none)
    × (widened.0.queues "atom" ≡ some queue)
    × IsCounted queue
    × AreEmpty 0 queue.slots
    × (length queue.slots ≡ (3 + 1) % 2 ^ 64)
unfolding add_queue load_config new_slots new_slot Decimal256.percent to_string
add_queue-IsCounted_example =
    add_queue-IsCounted store widened.0 (from_sender "positions") (native_token "atom") 3 2_000_000
      widened.1 refl
