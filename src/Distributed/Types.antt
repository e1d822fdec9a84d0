-- ===== src/Distributed/Types.antt =====
-- The structs of src/distributed_runtime.cpp and include/chromofold/distributed_runtime.h. A sequence
-- number (int64_t) and a device's ordinal (int32_t) are compared alone, and stand for their bit
-- patterns. An array with its length, such as `devices`, is a list.
use chromo_fold.Prelude.{ℕ, Bool, Option, List}
use chromo_fold.Prelude.Map.{Map}

pub record DeviceDescriptor : Type 0 where
  pub ordinal : ℕ
  pub total_memory_bytes : ℕ
  pub memory_budget_bytes : ℕ
  pub compute_major : ℕ
  pub compute_minor : ℕ
  pub peer_group : ℕ

pub record Config : Type 0 where
  pub mode : ℕ
  pub devices : List DeviceDescriptor
  pub layer_count : ℕ
  pub tensor_parallel_size : ℕ
  pub allow_host_staging : ℕ
  pub strict_peer_access : ℕ
  pub routing_seed : ℕ

pub record SequencePlacement : Type 0 where
  pub sequence_id : ℕ
  pub primary_device : ℕ
  pub generation : ℕ
  pub shard_count : ℕ

-- `has_query` and `has_output` say that the pointers are not null.
pub record BatchItem : Type 0 where
  pub sequence_id : ℕ
  pub layer : ℕ
  pub shard : ℕ
  pub source_device : ℕ
  pub execution_device : ℕ
  pub has_query : Bool
  pub has_output : Bool
  pub token_count : ℕ

pub record Counters : Type 0 where
  pub devices_registered : ℕ
  pub peer_links_enabled : ℕ
  pub peer_links_rejected : ℕ
  pub sequences_placed : ℕ
  pub sequences_migrated : ℕ
  pub batches_dispatched : ℕ
  pub tensor_parallel_batches : ℕ
  pub layer_parallel_batches : ℕ
  pub peer_copies : ℕ
  pub peer_bytes : ℕ
  pub host_staged_copies : ℕ
  pub host_staged_bytes : ℕ
  pub routing_failures : ℕ
  pub device_failures : ℕ
  pub cross_device_contamination : ℕ
  pub dense_fallback_launches : ℕ
  pub page_refs_at_shutdown : ℕ
  pub snapshot_refs_at_shutdown : ℕ

-- What `fail` writes, a constructor for each text.
pub data Error : Type 0 where
  is_shutting_down not_placed unregistered_device link_unavailable : Error
  invalid_item unplaced_item unknown_device no_transport : Error

-- The `int` that a call returns, 0 or -1.
pub data Status : Type 0 where
  success failure : Status

-- `config.devices` points to the vector `devices`, and is the same list.
pub record Runtime : Type 0 where
  pub config : Config
  pub devices : List DeviceDescriptor
  pub placements : Map SequencePlacement
  pub counters : Counters
  pub shutting_down : Bool
  pub error : Option Error

abbrev pub mode_single : ℕ
mode_single = 0

abbrev pub mode_layer : ℕ
mode_layer = 1

abbrev pub mode_tensor : ℕ
mode_tensor = 2
