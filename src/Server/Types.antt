-- ===== src/Server/Types.antt =====
-- The structs of src/llama_server_runtime.cpp and include/chromofold/llama_server_runtime.h. A text is
-- the list of its bytes, none where the pointer is null; a pointer is an address, 0 where it is null;
-- a float, which is passed on alone, its bit pattern.
use chromo_fold.Prelude.{ℕ, Bool, Option, List}
use chromo_fold.Cache.Tensor.{TensorView}
use chromo_fold.Cache.Types as HostTypes
use chromo_fold.Resolver.Types as DeviceTypes

pub record Config : Type 0 where
  pub layer_count : ℕ
  pub query_head_count : ℕ
  pub kv_head_count : ℕ
  pub head_dim : ℕ
  pub page_size : ℕ
  pub block_size : ℕ
  pub context_window : ℕ
  pub gqa_group_size : ℕ
  pub cuda_device : ℕ
  pub strict_mode : ℕ
  pub evidence_path : Option (List ℕ)
  pub llama_commit : Option (List ℕ)
  pub model_sha256 : Option (List ℕ)

pub record BatchToken : Type 0 where
  pub sequence_id : ℕ
  pub batch_index : ℕ
  pub absolute_position : ℕ
  pub token_count : ℕ

-- cf_sequence_attention_item, with all of its fields.
pub record AttentionItem : Type 0 where
  pub sequence_id : ℕ
  pub layer : ℕ
  pub query : TensorView
  pub output : ℕ
  pub output_type : ℕ
  pub output_token_stride_bytes : ℕ
  pub output_head_stride_bytes : ℕ
  pub output_element_stride_bytes : ℕ
  pub query_token_begin : ℕ
  pub softmax_scale : ℕ
  pub causal_window : ℕ

-- An array with its count is a list.
pub record Batch : Type 0 where
  pub tokens : List BatchToken
  pub attention_items : List AttentionItem

pub record Stats : Type 0 where
  pub http_requests : ℕ
  pub interleaved_batches : ℕ
  pub slot_reuses : ℕ
  pub cancelled_requests : ℕ
  pub context_shifts : ℕ
  pub speculative_rollbacks : ℕ
  pub dense_nodes_scheduled : ℕ
  pub shutdown_audits : ℕ
  pub shutdown_failures : ℕ

-- What `fail` writes: a constructor for each text, or the last error of the cache or the resolver.
pub data Error : Type 0 where
  is_shutting_down sequence_exists no_sequence no_source : Error
  dense_node unknown_sequence audit_failed : Error
  of_cache : Option HostTypes.Error → Error
  of_resolver : Option DeviceTypes.Error → Error

-- `host_cache` and `cuda_resolver` point to what the runtime owns.
pub record Runtime : Type 0 where
  pub config : Config
  pub host_cache : HostTypes.Cache
  pub cuda_resolver : DeviceTypes.Resolver
  pub live_sequences : List ℕ
  pub stats : Stats
  pub shutting_down : Bool
  pub error : Option Error

-- The `int` that a call returns, 0 or -1.
pub data Status : Type 0 where
  success failure : Status
