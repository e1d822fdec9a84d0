-- ===== src/Resolver/Types.antt =====
-- The structs of src/cuda/multisequence_cuda_resolver.cu and of the headers
-- include/chromofold/multisequence_cuda_resolver.h and device_kv_seal_attention.h. A pointer is an
-- address, 0 where it is null; a float argument, which is passed on alone, its bit pattern. A sequence
-- number, an int64_t used as a key alone, stands for its 64-bit pattern.
use chromo_fold.Prelude.{ℕ, Bool, true, false, Option, List}
use chromo_fold.Prelude.Int.{ℤ}
use chromo_fold.Prelude.Map.{Map}
use chromo_fold.Cache.Tensor.{TensorView}

pub record Config : Type 0 where
  pub layer_count : ℕ
  pub kv_head_count : ℕ
  pub query_head_count : ℕ
  pub head_dim : ℕ
  pub page_size : ℕ
  pub gqa_group_size : ℕ
  pub use_async_allocator : ℕ

pub record PageDescriptor : Type 0 where
  pub key_payload : ℕ
  pub value_payload : ℕ
  pub key_scales : ℕ
  pub value_scales : ℕ
  pub token_begin : ℕ
  pub token_count : ℕ
  pub kv_head_count : ℕ
  pub head_dim : ℕ
  pub block_size : ℕ
  pub blocks_per_page : ℕ
  pub key_payload_bytes : ℕ
  pub value_payload_bytes : ℕ
  pub resident_bytes : ℕ
  pub generation : ℕ

pub record PagePublication : Type 0 where
  pub sequence_id : ℕ
  pub layer : ℕ
  pub descriptor : PageDescriptor
  pub resident_bytes : ℕ
  pub seal_generation : ℕ

pub record BatchItem : Type 0 where
  pub sequence_id : ℕ
  pub layer : ℕ
  pub query : TensorView
  pub output : ℕ
  pub output_type : ℕ
  pub output_token_stride_bytes : ℕ
  pub output_head_stride_bytes : ℕ
  pub output_element_stride_bytes : ℕ
  pub query_token_begin : ℕ
  pub softmax_scale : ℕ
  pub causal_window : ℕ

pub record Counters : Type 0 where
  pub pages_registered : ℕ
  pub page_registration_failures : ℕ
  pub descriptor_tables_built : ℕ
  pub descriptor_table_rebuilds : ℕ
  pub snapshots_acquired : ℕ
  pub snapshots_released : ℕ
  pub in_flight_page_references : ℕ
  pub snapshot_release_events : ℕ
  pub stale_snapshot_rejections : ℕ
  pub server_batches_received : ℕ
  pub compressed_batches_executed : ℕ
  pub sequence_attention_launches : ℕ
  pub prefill_items : ℕ
  pub decode_items : ℕ
  pub tokens_per_batch_peak : ℕ
  pub copy_on_write_tail_copies : ℕ
  pub cancellation_requests : ℕ
  pub pages_retired : ℕ
  pub pages_reclaimed : ℕ
  pub pending_reclamation_bytes : ℕ
  pub pending_reclamation_bytes_peak : ℕ
  pub cross_sequence_contamination : ℕ
  pub dense_fallback_launches : ℕ
  pub cuda_errors : ℕ

pub record Buffer : Type 0 where
  pub ptr : ℕ
  pub bytes : ℕ

pub record SharedPage : Type 0 where
  pub id : ℕ
  pub seal_generation : ℕ
  pub descriptor : PageDescriptor
  pub resident_bytes : ℕ
  pub logical_refs : ℕ
  pub in_flight_refs : ℕ
  pub retired : Bool
  pub retirement_event : ℕ

pub record PageRef : Type 0 where
  pub page_id : ℕ
  pub logical_token_begin : ℤ

pub record ActivePage : Type 0 where
  pub keys : Buffer
  pub values : Buffer
  pub token_begin : ℕ
  pub token_count : ℕ
  pub generation : ℕ

pub record LayerState : Type 0 where
  pub pages : List PageRef
  pub descriptors : Buffer
  pub descriptor_capacity : ℕ
  pub descriptor_generation : ℕ
  pub active : ActivePage

pub record SequenceState : Type 0 where
  pub id : ℕ
  pub layers : List LayerState
  pub topology_generation : ℕ
  pub dispatchable : Bool

pub record Snapshot : Type 0 where
  pub sequence_id : ℕ
  pub layer : ℕ
  pub page_ids : List ℕ
  pub descriptors : ℕ
  pub descriptor_count : ℕ
  pub active_k : ℕ
  pub active_v : ℕ
  pub active_begin : ℕ
  pub active_count : ℕ
  pub topology_generation : ℕ
  pub descriptor_generation : ℕ
  pub active_generation : ℕ

pub record PendingSnapshot : Type 0 where
  pub snapshot : Snapshot
  pub event : ℕ

-- What is thrown, a constructor for each text; a call of CUDA that fails has one.
pub data Error : Type 0 where
  unavailable_page unavailable_sequence layer_out_of_range snapshot_underflow : Error
  sequence_exists invalid_target incomplete_descriptor invalid_active : Error
  missing_source invalid_tensor missing_sequence logical_underflow : Error
  partial_shift no_such_page cuda_failure : Error

-- What a call of the CUDA runtime gives: an error, cudaErrorNotReady, or success, with the address or
-- the event that it writes.
pub data Answer : Type 0 where
  refused not_ready : Answer
  done : ℕ → Answer

-- `device` is what the calls of the CUDA runtime to come will answer, in their order.
pub record Resolver : Type 0 where
  pub config : Config
  pub sequences : Map SequenceState
  pub pages : Map SharedPage
  pub pending_snapshots : List PendingSnapshot
  pub next_page_id : ℕ
  pub counters : Counters
  pub error : Option Error
  pub device : ℕ → Answer

-- The `int` that a call returns, 0 or -1.
pub data Status : Type 0 where
  success failure : Status

-- Code that may throw, and writes something in place: at a throw, with what it had written.
pub data Pass {ℓ} (A : Type ℓ) : Type ℓ where
  passes : A → Resolver → Pass A
  stops : Error → A → Resolver → Pass A

-- A caller's test of the result.
abbrev pub resolver_ok : Status → Bool
resolver_ok success = true
resolver_ok failure = false
