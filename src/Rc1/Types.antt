-- ===== src/Rc1/Types.antt =====
-- The structs of src/rc1_runtime.cpp and include/chromofold/rc1_runtime.h, over an interface to double.
-- A text is the list of its bytes, none where the pointer is null.
use chromo_fold.Prelude.{ℕ, Bool, Option, List}
use chromo_fold.Qualification.Types.{Double}

-- cf_rc1_decision
pub data Decision : Type 0 where
  pass fail incomplete : Decision

pub record MemorySample : Type 0 where
  pub model_bytes : ℕ
  pub kv_bytes : ℕ
  pub compressed_page_bytes : ℕ
  pub active_tail_bytes : ℕ
  pub transfer_buffer_bytes : ℕ
  pub allocator_reserved_bytes : ℕ
  pub observed_vram_bytes : ℕ

pub record ReferenceSample : Type 0 where
  pub page_refs : ℕ
  pub snapshot_refs : ℕ
  pub lease_refs : ℕ
  pub request_refs : ℕ

pub record Config (Real : Type 0) : Type 0 where
  pub max_requests : ℕ
  pub max_metric_series : ℕ
  pub max_ttft_p95_ms : Real
  pub max_inter_token_p95_ms : Real
  pub max_memory_error_ratio : Real

pub record RequestEvent (Real : Type 0) : Type 0 where
  pub trace_id : Option (List ℕ)
  pub request_id : Option (List ℕ)
  pub tenant_id : Option (List ℕ)
  pub model_id : Option (List ℕ)
  pub worker_id : Option (List ℕ)
  pub release_digest : Option (List ℕ)
  pub queue_ms : Real
  pub prefill_ms : Real
  pub transfer_ms : Real
  pub decode_ms : Real
  pub ttft_ms : Real
  pub inter_token_ms : Real
  pub prompt_tokens : ℕ
  pub completion_tokens : ℕ
  pub prompt_content_present : ℕ
  pub correctness_failure : ℕ
  pub cuda_error : ℕ
  pub cross_tenant_contamination : ℕ

pub record Summary (Real : Type 0) : Type 0 where
  pub requests : ℕ
  pub ttft_p95_ms : Real
  pub inter_token_p95_ms : Real
  pub memory_error_ratio : Real
  pub prompt_leaks : ℕ
  pub correctness_failures : ℕ
  pub cuda_errors : ℕ
  pub cross_tenant_contamination : ℕ
  pub unreconciled_references : ℕ
  pub decision : Decision

pub record Runtime (Real : Type 0) : Type 0 where
  pub config : Config Real
  pub ttft : List Real
  pub inter_token : List Real
  pub prompt_leaks : ℕ
  pub correctness_failures : ℕ
  pub cuda_errors : ℕ
  pub cross_tenant_contamination : ℕ
  pub unreconciled_references : ℕ
  pub memory_error_ratio : Real
  pub memory_recorded : Bool

-- What a call returns: 0, or -1 to -4.
pub data Status : Type 0 where
  success : Status
  bad_sample too_many no_text negative : Status

-- long double, with the conversion to double and std::fabs.
pub record LongDouble (d : Double) : Type 1 where
  pub long : Double
  pub narrow : long.Real → d.Real
  pub fabs : long.Real → long.Real
