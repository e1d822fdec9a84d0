-- ===== src/Distributed/Examples.antt =====
-- Runs of src/distributed_runtime.cpp on three devices, of which two share a peer group.
use chromo_fold.Prelude.{ℕ, ◌≡◌, refl, ◌≢◌, ◌↔◌, true, false, none, List, [], ◌∷◌, All}
use chromo_fold.Prelude.Words.{mul64}
use chromo_fold.Prelude.Map.{find, emplace}
use chromo_fold.Distributed.Types.{DeviceDescriptor, Config, BatchItem, Runtime, success}
use chromo_fold.Distributed.Place.{
  create, valid_config, valid_devices, initial_counters, place_sequence, device_index, mix,
  find_device, layer_index,
}
use chromo_fold.Distributed.Batch.{check_item, check_items, execute_batch}
use chromo_fold.Distributed.Placement.{IsPlaced, run-create-IsPlaced}
use chromo_fold.Distributed.Batches.{IsAllowed, execute_batch_iff}
use chromo_fold.Distributed.{Call, places, migrates, links, executes, step, run}

abbrev device : ℕ → ℕ → DeviceDescriptor
device ordinal group = record {
  ordinal = ordinal;
  total_memory_bytes = 16;
  memory_budget_bytes = 8;
  compute_major = 9;
  compute_minor = 0;
  peer_group = group;
}

abbrev config : Config
config = record {
  mode = 1;
  devices = device 0 1 ∷ device 1 1 ∷ device 2 5 ∷ [];
  layer_count = 7;
  tensor_parallel_size = 0;
  allow_host_staging = 0;
  strict_peer_access = 1;
  routing_seed = 11;
}

abbrev fresh : Runtime
fresh = record {
  config = config;
  devices = config.devices;
  placements = [];
  counters = initial_counters 3;
  shutting_down = false;
  error = none;
}

abbrev item : BatchItem
item = record {
  sequence_id = 40;
  layer = 6;
  shard = 0;
  source_device = 0;
  execution_device = 1;
  has_query = true;
  has_output = true;
  token_count = 2;
}

abbrev calls : List Call
calls = places 40 ∷ migrates 40 2 ∷ executes (item ∷ []) ∷ links ∷ []

-- Layer 6 of 7 goes to the last device, and a batch of a sequence that was placed is dispatched.
calls_run :
    (layer_index fresh 6 ≡ 2)
    × ((execute_batch (run fresh (places 40 ∷ [])) (item ∷ [])).1 ≡ success)
unfolding layer_index mul64 execute_batch check_items check_item run step place_sequence find
    emplace find_device device_index mix
calls_run = (refl, refl)

run-create-IsPlaced_example : IsPlaced (run fresh calls)
unfolding create valid_config valid_devices
run-create-IsPlaced_example = run-create-IsPlaced config fresh calls refl

execute_batch_iff_example :
    ((execute_batch fresh (item ∷ [])).1 ≡ success)
    ↔ ((item ∷ [] ≢ []) × (fresh.shutting_down ≡ false) × All (IsAllowed fresh) (item ∷ []))
execute_batch_iff_example = execute_batch_iff fresh (item ∷ [])
