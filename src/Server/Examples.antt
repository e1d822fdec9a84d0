-- ===== src/Server/Examples.antt =====
-- Runs of src/llama_server_runtime.cpp over an empty cache and resolver.
use chromo_fold.Prelude.{ℕ, ◌≡◌, refl, false, none, some, [], ◌∷◌, ltb, if◌then◌else◌}
use chromo_fold.Prelude.Words.{add64, mul64}
use chromo_fold.Prelude.Map.{find, emplace, assign}
use chromo_fold.Cache.Types as HostTypes
use chromo_fold.Cache.Create as HostCreate
use chromo_fold.Cache.Auditor.{maybe_audit, audit_locked}
use chromo_fold.Cache.Order.{validate_page_order}
use chromo_fold.Cache.Pages.{layer_ids}
use chromo_fold.Resolver.Types as DeviceTypes
use chromo_fold.Resolver.Types.{Answer, refused, done}
use chromo_fold.Resolver.Sequences as DeviceSequences
use chromo_fold.Resolver.Pages as DevicePages
use chromo_fold.Server.{creates, shuts_down, run, appends}
use chromo_fold.Server.Types.{Config, Runtime, failure}
use chromo_fold.Server.Slots.{
  host_config, device_config, no_stats, slot_create, slot_reset, sequence_copy,
}
use chromo_fold.Server.Batches.{shutdown, emptied, append_layer}
use chromo_fold.Server.Laws.{IsShut, shutdown_lasts, copy_stuck}

abbrev config : Config
config = record {
  layer_count = 1;
  query_head_count = 1;
  kv_head_count = 1;
  head_dim = 4;
  page_size = 2;
  block_size = 4;
  context_window = 16;
  gqa_group_size = 1;
  cuda_device = 0;
  strict_mode = 0;
  evidence_path = none;
  llama_commit = some (1 ∷ []);
  model_sha256 = some (2 ∷ []);
}

abbrev host : HostTypes.Cache
host = record {
  config = host_config config;
  sequences = [];
  page_store = [];
  retired = [];
  counters = HostTypes.no_counts;
  next_page_id = 1;
  global_generation = 1;
  next_speculation_id = 1;
  last_error = none;
}

-- The device refuses its calls from one on.
abbrev answers : ℕ → ℕ → Answer
answers limit n = if ltb n limit then done 7 else refused

abbrev cuda : ℕ → DeviceTypes.Resolver
cuda limit = record {
  config = device_config config;
  sequences = [];
  pages = [];
  pending_snapshots = [];
  next_page_id = 1;
  counters = DeviceSequences.no_counts;
  error = none;
  device = answers limit;
}

abbrev runtime : ℕ → Runtime
runtime limit = record {
  config = config;
  host_cache = host;
  cuda_resolver = cuda limit;
  live_sequences = [];
  stats = no_stats;
  shutting_down = false;
  error = none;
}

-- One slot, with a token on the device; a copy of it needs a fifth answer.
abbrev one_slot : Runtime
one_slot = run (runtime 4) (creates 1 ∷ appends 1 0 0 1 ∷ [])

shutdown_lasts_example :
    IsShut
      (emptied one_slot).host_cache
      (emptied one_slot).cuda_resolver
      (run (shutdown one_slot).0 (creates 2 ∷ shuts_down ∷ []))
unfolding slot_create append_layer HostCreate.sequence_create find maybe_audit audit_locked emplace
    validate_page_order DeviceSequences.sequence_create DeviceSequences.stage_active mul64
shutdown_lasts_example = shutdown_lasts one_slot (creates 2 ∷ shuts_down ∷ []) refl

copy_stuck_example :
    ((sequence_copy one_slot 1 2 0 2).1 ≡ failure)
    × ((slot_create (sequence_copy one_slot 1 2 0 2).0 2).1 ≡ failure)
    × ((slot_reset (sequence_copy one_slot 1 2 0 2).0 2).1 ≡ failure)
unfolding append_layer slot_create HostCreate.sequence_create find maybe_audit audit_locked emplace
    validate_page_order DeviceSequences.sequence_create DeviceSequences.stage_active mul64
    HostCreate.sequence_copy HostCreate.acquire_pages layer_ids HostCreate.copied_layers
    HostCreate.drop_old DevicePages.copy_sequence assign add64
copy_stuck_example = copy_stuck one_slot 1 2 0 2 refl refl refl refl refl refl
