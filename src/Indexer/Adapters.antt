-- ===== src/Indexer/Adapters.antt =====
-- indexer/src/adapter-registry.ts: the registry of risk-pool adapters.
use nextblock.Base.{ℕ, String, Option, none, some}
use nextblock.Base.Keys.{number_key}
use nextblock.Base.Table.{Table, load, save, amend}
use nextblock.Indexer.Log.{Meta, LogParams, no_params, Feed, log_event}

pub data AdapterStatus : Type 0 where
  registered active disabled deprecated : AdapterStatus

pub record Adapter : Type 0 where
  pub adapter : ℕ
  pub name : String
  pub metadata_hash : ℕ
  pub exposure_cap : ℕ
  pub status : AdapterStatus
  pub updated_at : ℕ

pub record Store : Type 0 where
  pub adapters : Table ℕ Adapter
  pub feed : Feed

abbrev pub new_adapter : ℕ → (adapter : ℕ) → String → (metadata_hash exposure_cap : ℕ) → Adapter
new_adapter ts adapter name metadata_hash exposure_cap = record {
  adapter = adapter;
  name = name;
  metadata_hash = metadata_hash;
  exposure_cap = exposure_cap;
  status = registered;
  updated_at = ts;
}

abbrev touched : ℕ → Option Adapter → Option Adapter
touched ts none = none
touched ts (some a) = some (record a { updated_at = ts })

-- `const a = touch(id, ts); if (a != null) { …; a.save(); }`
pub update : ℕ → ℕ → (Adapter → Adapter) → Table ℕ Adapter → Table ℕ Adapter
update id ts f t = amend id (touched ts (load id t)) f t

log_adapter : Meta → String → LogParams → Feed → Feed
log_adapter m name p feed = log_event m "AdapterRegistry" name p feed

pub handle_adapter_registered :
    Meta → (id adapter : ℕ) → String → (metadata_hash exposure_cap : ℕ) → Store → Store
unfolding log_adapter
handle_adapter_registered m id adapter name metadata_hash exposure_cap s = record {
  adapters = save id (new_adapter m.timestamp adapter name metadata_hash exposure_cap) s.adapters;
  feed =
      log_adapter m "AdapterRegistered"
        (record no_params { actor = some adapter; amount = some exposure_cap }) s.feed;
}

pub handle_adapter_activated : Meta → (id by : ℕ) → Store → Store
unfolding log_adapter
handle_adapter_activated m id by s = record {
  adapters = update id m.timestamp (λ a. record a { status = active }) s.adapters;
  feed = log_adapter m "AdapterActivated" (record no_params { actor = some by }) s.feed;
}

pub handle_adapter_disabled : Meta → (id by : ℕ) → Store → Store
unfolding log_adapter
handle_adapter_disabled m id by s = record {
  adapters = update id m.timestamp (λ a. record a { status = disabled }) s.adapters;
  feed = log_adapter m "AdapterDisabled" (record no_params { actor = some by }) s.feed;
}

pub handle_adapter_deprecated : Meta → (id by : ℕ) → Store → Store
unfolding log_adapter
handle_adapter_deprecated m id by s = record {
  adapters = update id m.timestamp (λ a. record a { status = deprecated }) s.adapters;
  feed = log_adapter m "AdapterDeprecated" (record no_params { actor = some by }) s.feed;
}

pub handle_adapter_exposure_cap_updated : Meta → (id cap : ℕ) → Store → Store
unfolding log_adapter
handle_adapter_exposure_cap_updated m id cap s = record {
  adapters = update id m.timestamp (λ a. record a { exposure_cap = cap }) s.adapters;
  feed = log_adapter m "AdapterExposureCapUpdated" (record no_params { amount = some cap }) s.feed;
}

pub data Event : Type 0 where
  adapter_registered : (id adapter : ℕ) → String → (metadata_hash exposure_cap : ℕ) → Event
  adapter_activated adapter_disabled adapter_deprecated : (id by : ℕ) → Event
  adapter_exposure_cap_updated : (id cap : ℕ) → Event

unfoldable pub handle : Meta → Event → Store → Store
unfolding handle_adapter_registered handle_adapter_activated handle_adapter_disabled
    handle_adapter_deprecated handle_adapter_exposure_cap_updated
handle m (adapter_registered id adapter name hash cap) s =
    handle_adapter_registered m id adapter name hash cap s
handle m (adapter_activated id by) s = handle_adapter_activated m id by s
handle m (adapter_disabled id by) s = handle_adapter_disabled m id by s
handle m (adapter_deprecated id by) s = handle_adapter_deprecated m id by s
handle m (adapter_exposure_cap_updated id cap) s = handle_adapter_exposure_cap_updated m id cap s
