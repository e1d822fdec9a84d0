-- ===== src/Qualification/Types.antt =====
-- The structs of src/qualification.cpp and include/chromofold/qualification.h. A text is the list of
-- its bytes, none where the pointer is null. Numbers of type double are those of an interface.
use chromo_fold.Prelude.{ℕ, Bool, Option, List}

-- What the code uses of double, by the operations that it calls; `ceil95 n` is
-- static_cast<size_t>(std::ceil(n * 0.95)).
pub record Double : Type 1 where
  pub Real : Type 0
  pub of_nat : ℕ → Real
  pub plus : Real → Real → Real
  pub minus : Real → Real → Real
  pub times : Real → Real → Real
  pub over : Real → Real → Real
  pub le : Real → Real → Bool
  pub lt : Real → Real → Bool
  pub ceil95 : ℕ → ℕ

pub record TraceContext : Type 0 where
  pub trace_id : Option (List ℕ)
  pub request_id : Option (List ℕ)
  pub tenant_id : Option (List ℕ)
  pub model_id : Option (List ℕ)
  pub sequence_id : Option (List ℕ)
  pub worker_id : Option (List ℕ)
  pub release_version : Option (List ℕ)

pub record RequestMeasurement : Type 0 where
  pub trace : TraceContext
  pub queue_us : ℕ
  pub route_us : ℕ
  pub prefill_us : ℕ
  pub encode_us : ℕ
  pub transfer_us : ℕ
  pub decode_attach_us : ℕ
  pub decode_us : ℕ
  pub output_us : ℕ
  pub prompt_tokens : ℕ
  pub generated_tokens : ℕ
  pub model_bytes : ℕ
  pub kv_bytes : ℕ
  pub compressed_page_bytes : ℕ
  pub active_tail_bytes : ℕ
  pub transfer_buffer_bytes : ℕ
  pub allocator_reserved_bytes : ℕ
  pub observed_vram_bytes : ℕ
  pub error : ℕ
  pub prompt_content_present : ℕ

pub record SloPolicy (Real : Type 0) : Type 0 where
  pub ttft_p95_us : ℕ
  pub inter_token_p95_us : ℕ
  pub availability_percent : Real
  pub deadline_success_percent : Real
  pub minimum_samples : ℕ

pub record Result (Real : Type 0) : Type 0 where
  pub samples : ℕ
  pub errors : ℕ
  pub ttft_p95_us : ℕ
  pub inter_token_p95_us : ℕ
  pub availability_percent : Real
  pub deadline_success_percent : Real
  pub memory_accounting_delta_bytes : ℕ
  pub cardinality_bounded : Bool
  pub content_redacted : Bool
  pub performance_within_policy : Bool
  pub references_reconciled : Bool
  pub passed : Bool

pub record Runtime : Type 0 where
  pub max_series : ℕ
  pub max_requests : ℕ
  pub measurements : List RequestMeasurement
  pub series : List (List ℕ)
  pub page_refs : ℕ
  pub snapshot_refs : ℕ
  pub lease_refs : ℕ
  pub request_refs : ℕ
  pub content_redacted : Bool
  pub cardinality_bounded : Bool

-- The `int` that a call returns: 0, -1, or -2 where there is no room.
pub data Status : Type 0 where
  success failure full : Status
