-- ===== src/Cluster/Types.antt =====
-- The structs of src/disaggregated_serving.cpp and include/chromofold/disaggregated_serving.h. A
-- digest is the list of its bytes; a lease's token, which is compared alone, is the number that its
-- 32 bytes spell.
use Prim.Native.String.{String}
use chromo_fold.Prelude.{ℕ, Bool, List}
use chromo_fold.Prelude.Map.{Map}

pub record PageId : Type 0 where
  pub model_sha256 : List ℕ
  pub tokenizer_sha256 : List ℕ
  pub token_sequence_sha256 : List ℕ
  pub rope_hash : ℕ
  pub compression_profile_hash : ℕ
  pub layer : ℕ
  pub page_index : ℕ
  pub page_size : ℕ
  pub codec_version : ℕ

pub record WorkerDescriptor : Type 0 where
  pub worker_id : ℕ
  pub role : ℕ
  pub transport : ℕ
  pub healthy : ℕ
  pub model_loaded : ℕ
  pub free_vram_bytes : ℕ
  pub active_sequences : ℕ
  pub decode_backlog : ℕ
  pub cache_namespace : ℕ

pub record Lease : Type 0 where
  pub owner_worker_id : ℕ
  pub generation : ℕ
  pub expires_at_millis : ℕ
  pub token : ℕ

pub record PageManifest : Type 0 where
  pub page_id : PageId
  pub lease : Lease
  pub payload_bytes : ℕ
  pub checksum : ℕ
  pub key_codec : ℕ
  pub value_codec : ℕ
  pub replica_count : ℕ

-- `has_tokens` says that the pointer to the tokens is not null.
pub record RouterRequest : Type 0 where
  pub has_tokens : Bool
  pub token_count : ℕ
  pub model_hash : ℕ
  pub request_id : ℕ

pub record RouterDecision : Type 0 where
  pub prefill_worker_id : ℕ
  pub decode_worker_id : ℕ
  pub cached_prefix_tokens : ℕ
  pub suffix_tokens : ℕ
  pub estimated_transfer_bytes : ℕ

pub record Config : Type 0 where
  pub protocol_version : ℕ
  pub replication_factor : ℕ
  pub require_authentication : ℕ
  pub require_integrity : ℕ
  pub allow_host_staging : ℕ
  pub max_workers : ℕ
  pub max_inflight_transfers : ℕ
  pub max_queued_requests : ℕ
  pub lease_duration_millis : ℕ
  pub max_pinned_host_bytes : ℕ

pub record Counters : Type 0 where
  pub workers_registered : ℕ
  pub prefix_cache_hits : ℕ
  pub prefill_tokens_avoided : ℕ
  pub page_manifests_published : ℕ
  pub page_transfers_started : ℕ
  pub page_transfers_completed : ℕ
  pub transfer_bytes : ℕ
  pub partial_transfers_rejected : ℕ
  pub authentication_failures : ℕ
  pub integrity_failures : ℕ
  pub replay_rejections : ℕ
  pub lease_acquires : ℕ
  pub lease_renews : ℕ
  pub lease_transfers : ℕ
  pub stale_generation_rejections : ℕ
  pub replica_recoveries : ℕ
  pub router_retries : ℕ
  pub overload_rejections : ℕ
  pub cross_request_contamination : ℕ
  pub dense_fallback_launches : ℕ
  pub page_refs_at_shutdown : ℕ
  pub snapshot_refs_at_shutdown : ℕ

-- `pages` and `leases` are keyed by the number that the bytes of a page key spell.
pub record Runtime : Type 0 where
  pub config : Config
  pub workers : Map WorkerDescriptor
  pub pages : Map PageManifest
  pub leases : Map Lease
  pub counters : Counters
  pub inflight_transfers : ℕ
  pub shutting_down : Bool
  pub error : String

-- The `int` that a call returns, 0 or -1.
pub data Status : Type 0 where
  success failure : Status

abbrev pub role_prefill : ℕ
role_prefill = 2

abbrev pub role_decode : ℕ
role_decode = 3
