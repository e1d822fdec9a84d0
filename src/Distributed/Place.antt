-- ===== src/Distributed/Place.antt =====
-- Creation, placement, migration and the routing of layers in src/distributed_runtime.cpp.
use chromo_fold.Prelude.{
  ℕ, ◌-◌, ◌/◌, ◌%◌, ◌^◌, min, Bool, true, false, not, ◌&&◌, ◌||◌, Option, none, some, List, [], ◌∷◌,
  ltb, leb, ◌==◌, if◌then◌else◌, length, get_elem?, bit_xor,
}
use chromo_fold.Prelude.Words.{add32, add64, mul64, u32_mod}
use chromo_fold.Prelude.Map.{find, emplace, assign}
use chromo_fold.Distributed.Types.{
  DeviceDescriptor, Config, SequencePlacement, Counters, Error, Status, success, failure, Runtime,
  is_shutting_down, not_placed, unregistered_device, mode_single, mode_tensor,
}

unfoldable pub failed : Error → Runtime → Runtime
failed e r = record r { error = some e }

-- The loop over the devices; an ordinal below zero has its top bit set.
unfoldable pub valid_devices : List DeviceDescriptor → Bool
valid_devices [] = true
valid_devices (d ∷ ds) =
    not (leb (2 ^ 31) d.ordinal) && not (d.memory_budget_bytes == 0) && valid_devices ds

unfoldable pub valid_config : Config → Bool
unfolding valid_devices
valid_config k =
    not (length k.devices == 0)
    && not (k.layer_count == 0)
    && leb k.mode mode_tensor
    && not (
        k.mode == mode_tensor
        && (k.tensor_parallel_size == 0 || ltb (length k.devices) k.tensor_parallel_size))
    && valid_devices k.devices

abbrev pub initial_counters : ℕ → Counters
initial_counters devices = record {
  devices_registered = devices;
  peer_links_enabled = 0;
  peer_links_rejected = 0;
  sequences_placed = 0;
  sequences_migrated = 0;
  batches_dispatched = 0;
  tensor_parallel_batches = 0;
  layer_parallel_batches = 0;
  peer_copies = 0;
  peer_bytes = 0;
  host_staged_copies = 0;
  host_staged_bytes = 0;
  routing_failures = 0;
  device_failures = 0;
  cross_device_contamination = 0;
  dense_fallback_launches = 0;
  page_refs_at_shutdown = 0;
  snapshot_refs_at_shutdown = 0;
}

unfoldable pub create : Config → Option Runtime
unfolding valid_config
create k =
    if not (valid_config k)
    then none
    else some (record {
      config = k;
      devices = k.devices;
      placements = [];
      counters = initial_counters (length k.devices);
      shutting_down = false;
      error = none;
    })

-- value ^ (value >> bits)
abbrev fold_bits : ℕ → ℕ → ℕ
fold_bits value bits = bit_xor value (value / 2 ^ bits)

unfoldable pub mix : ℕ → ℕ
mix value = fold_bits third 31
  where
    second : ℕ
    second = mul64 (fold_bits value 30) 13787848793156543929

    third : ℕ
    third = mul64 (fold_bits second 27) 10723151780598845931

-- A placement that is written for the first time.
unfoldable pub new_placement : Runtime → ℕ → DeviceDescriptor → SequencePlacement
new_placement r id device = record {
  sequence_id = id;
  primary_device = device.ordinal;
  generation = 1;
  shard_count = if r.config.mode == mode_tensor then r.config.tensor_parallel_size else 1;
}

unfoldable pub device_index : Runtime → ℕ → ℕ
unfolding mix
device_index r id = mix (bit_xor id r.config.routing_seed) % length r.devices % u32_mod

unfoldable pub placed : Runtime → ℕ → SequencePlacement → Runtime
placed r id p = record r {
  placements = emplace id p r.placements;
  counters = record r.counters { sequences_placed = add64 r.counters.sequences_placed 1 };
  error = none;
}

-- The result is what `out` receives, none where the call returns -1. There is a device at the index,
-- as a runtime has at least one.
unfoldable pub place_sequence : Runtime → ℕ → Runtime × Option SequencePlacement
unfolding failed device_index new_placement placed
place_sequence r id =
    if r.shutting_down then (failed is_shutting_down r, none) else elim (find id r.placements) [
      | some p ↦ (r, some p)
      | none ↦ elim (get_elem? r.devices (device_index r id)) [
        | none ↦ (r, none)
        | some d ↦ (placed r id (new_placement r id d), some (new_placement r id d))
      ]
    ]

-- std::find_if by the ordinal
unfoldable pub find_device : ℕ → List DeviceDescriptor → Option DeviceDescriptor
find_device ordinal [] = none
find_device ordinal (d ∷ ds) = if d.ordinal == ordinal then some d else find_device ordinal ds

unfoldable pub migrated : Runtime → ℕ → SequencePlacement → ℕ → Runtime
migrated r id p destination = record r {
  placements =
      assign id (record p { primary_device = destination; generation = add32 p.generation 1 })
        r.placements;
  counters = record r.counters { sequences_migrated = add64 r.counters.sequences_migrated 1 };
  error = none;
}

unfoldable pub migrate_sequence : Runtime → ℕ → ℕ → Runtime × Status
unfolding failed find_device migrated
migrate_sequence r id destination = elim (find id r.placements) [
  | none ↦ (failed not_placed r, failure)
  | some p ↦ elim (find_device destination r.devices) [
    | none ↦ (failed unregistered_device r, failure)
    | some d ↦ (migrated r id p destination, success)
  ]
]

unfoldable pub layer_index : Runtime → ℕ → ℕ
layer_index r layer =
    if r.config.mode == mode_single
    then 0
    else mul64 layer (length r.devices) / r.config.layer_count % u32_mod

-- The ordinal of the device, none where the call returns -1. Again there is a device at the index.
unfoldable pub route_layer : Runtime → ℕ → Option ℕ
unfolding layer_index
route_layer r layer =
    if leb r.config.layer_count layer
    then none
    else elim device [ none ↦ none | some d ↦ some d.ordinal ]
  where
    device : Option DeviceDescriptor
    device = get_elem? r.devices (min (layer_index r layer) ((length r.devices - 1) % u32_mod))
