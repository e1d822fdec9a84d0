-- ===== src/Scheduler/Types.antt =====
-- The structs of include/chromofold/production_scheduler.h and src/production_scheduler.cpp. Enum
-- fields are uint32_t there, and stay numbers.
use Prim.Native.String.{String}
use chromo_fold.Prelude.{ℕ, Bool}
use chromo_fold.Prelude.Map.{Map}

pub record Config : Type 0 where
  pub version : ℕ
  pub max_tenants : ℕ
  pub max_workers : ℕ
  pub max_queued_requests : ℕ
  pub max_active_requests : ℕ
  pub routing_seed : ℕ
  pub overload_queue_threshold : ℕ

pub record TenantPolicy : Type 0 where
  pub tenant_id : ℕ
  pub weight : ℕ
  pub max_concurrent_requests : ℕ
  pub max_queued_requests : ℕ
  pub prompt_tokens_per_minute : ℕ
  pub completion_tokens_per_minute : ℕ
  pub max_kv_bytes : ℕ
  pub gpu_time_budget_micros : ℕ

pub record WorkerCapacity : Type 0 where
  pub worker_id : ℕ
  pub state : ℕ
  pub gpu_arch : ℕ
  pub free_vram_bytes : ℕ
  pub total_vram_bytes : ℕ
  pub prefill_tokens_per_second : ℕ
  pub decode_tokens_per_second : ℕ
  pub active_sequences : ℕ
  pub queue_depth : ℕ
  pub model_mask : ℕ
  pub circuit_state : ℕ

pub record RequestSpec : Type 0 where
  pub request_id : ℕ
  pub tenant_id : ℕ
  pub model_id : ℕ
  pub slo_class : ℕ
  pub priority : ℕ
  pub prompt_tokens : ℕ
  pub max_completion_tokens : ℕ
  pub cached_prefix_tokens : ℕ
  pub deadline_millis : ℕ
  pub idempotency_key : ℕ

pub record ScheduleDecision : Type 0 where
  pub result : ℕ
  pub worker_id : ℕ
  pub estimated_prefill_micros : ℕ
  pub estimated_decode_micros : ℕ
  pub estimated_kv_bytes : ℕ
  pub queue_position : ℕ
  pub fairness_score : ℕ

pub record ScalePlan : Type 0 where
  pub desired_prefill_workers : ℕ
  pub desired_decode_workers : ℕ
  pub desired_model_replicas : ℕ
  pub drain_worker_count : ℕ

pub record Counters : Type 0 where
  pub admissions : ℕ
  pub queued : ℕ
  pub overload_rejections : ℕ
  pub quota_rejections : ℕ
  pub model_rejections : ℕ
  pub deadline_schedules : ℕ
  pub fairness_schedules : ℕ
  pub cross_tenant_reuse_rejections : ℕ
  pub cancellations : ℕ
  pub preemptions : ℕ
  pub checkpoint_resumes : ℕ
  pub circuit_opens : ℕ
  pub circuit_recoveries : ℕ
  pub scale_up_plans : ℕ
  pub safe_drains : ℕ
  pub duplicate_usage_records : ℕ
  pub cross_tenant_contamination : ℕ
  pub dense_fallback_launches : ℕ
  pub active_refs_at_shutdown : ℕ

abbrev pub no_counts : Counters
no_counts = record {
  admissions = 0;
  queued = 0;
  overload_rejections = 0;
  quota_rejections = 0;
  model_rejections = 0;
  deadline_schedules = 0;
  fairness_schedules = 0;
  cross_tenant_reuse_rejections = 0;
  cancellations = 0;
  preemptions = 0;
  checkpoint_resumes = 0;
  circuit_opens = 0;
  circuit_recoveries = 0;
  scale_up_plans = 0;
  safe_drains = 0;
  duplicate_usage_records = 0;
  cross_tenant_contamination = 0;
  dense_fallback_launches = 0;
  active_refs_at_shutdown = 0;
}

pub record TenantState : Type 0 where
  pub policy : TenantPolicy
  pub active : ℕ
  pub queued : ℕ
  pub prompt_tokens : ℕ
  pub completion_tokens : ℕ
  pub gpu_micros : ℕ
  pub virtual_runtime : ℕ

pub record RequestState : Type 0 where
  pub spec : RequestSpec
  pub worker_id : ℕ
  pub queued : Bool

pub record Runtime : Type 0 where
  pub config : Config
  pub tenants : Map TenantState
  pub workers : Map WorkerCapacity
  pub requests : Map RequestState
  pub usage_records : Map ℕ
  pub counters : Counters
  pub shutting_down : Bool
  pub error : String

-- The `int` that a call returns, 0 or -1.
pub data Status : Type 0 where
  success failure : Status

-- The codes of cf_admission_result, cf_worker_state and cf_circuit_state.
abbrev pub admit_now : ℕ
admit_now = 0

abbrev pub admit_queue : ℕ
admit_queue = 1

abbrev pub reject_overload : ℕ
reject_overload = 2

abbrev pub reject_quota : ℕ
reject_quota = 3

abbrev pub reject_model : ℕ
reject_model = 4

abbrev pub worker_healthy : ℕ
worker_healthy = 0

abbrev pub worker_draining : ℕ
worker_draining = 2

abbrev pub worker_quarantined : ℕ
worker_quarantined = 3

abbrev pub circuit_closed : ℕ
circuit_closed = 0

abbrev pub circuit_open : ℕ
circuit_open = 1
