-- ===== src/Scheduler/Admit.antt =====
-- Admission in src/production_scheduler.cpp: the quota, the choice of a worker, the queue, and the
-- charge to the tenant.
use chromo_fold.Prelude.{ℕ, Bool, ◌&&◌, ◌||◌, none, some, [], ◌∷◌, ltb, leb, ◌==◌, if◌then◌else◌}
use chromo_fold.Prelude.Words.{add32, add64, mul64}
use chromo_fold.Prelude.Map.{Map, find, contains, emplace, assign}
use chromo_fold.Scheduler.Types.{
  WorkerCapacity, RequestSpec, ScheduleDecision, Counters, TenantState, RequestState, Runtime,
  Status, success, failure, admit_now, admit_queue, reject_overload, reject_quota, reject_model,
}
use chromo_fold.Scheduler.Select.{estimate_prefill, estimate_decode, fairness_score, select_worker}

unfoldable pub over_quota : TenantState → RequestSpec → Bool
over_quota t q =
    ltb t.policy.prompt_tokens_per_minute (add64 t.prompt_tokens q.prompt_tokens)
    || ltb t.policy.completion_tokens_per_minute (add64 t.completion_tokens q.max_completion_tokens)
    || leb t.policy.gpu_time_budget_micros t.gpu_micros

-- The sum over the tenants of a 32-bit field, in 64 bits.
unfoldable pub sum_tenants : (TenantState → ℕ) → Map TenantState → ℕ → ℕ
sum_tenants f [] acc = acc
sum_tenants f ((id, t) ∷ rest) acc = sum_tenants f rest (add64 acc (f t))

unfoldable pub must_queue : Runtime → TenantState → Bool
must_queue r t =
    leb r.config.max_active_requests (sum_tenants (λ u. u.active) r.tenants 0)
    || leb t.policy.max_concurrent_requests t.active

unfoldable pub queue_full : Runtime → TenantState → Bool
queue_full r t =
    leb r.config.max_queued_requests (sum_tenants (λ u. u.queued) r.tenants 0)
    || leb t.policy.max_queued_requests t.queued

-- The tenant as the request is charged to it.
unfoldable pub charge : TenantState → RequestSpec → Bool → TenantState
charge t q queued = record t {
  active = if queued then t.active else add32 t.active 1;
  queued = if queued then add32 t.queued 1 else t.queued;
  prompt_tokens = add64 t.prompt_tokens q.prompt_tokens;
  virtual_runtime = add64 t.virtual_runtime (add64 q.prompt_tokens q.max_completion_tokens);
}

unfoldable pub charge_counters : Counters → Bool → Counters
charge_counters c queued = record c {
  queued = if queued then add64 c.queued 1 else c.queued;
  admissions = if queued then c.admissions else add64 c.admissions 1;
  deadline_schedules = add64 c.deadline_schedules 1;
  fairness_schedules = add64 c.fairness_schedules 1;
}

-- The rest of cf_scheduler_admit once `worker` is selected and there is room.
unfoldable pub enrol :
    Runtime → RequestSpec → TenantState → WorkerCapacity → Bool → Runtime × ScheduleDecision
unfolding charge
enrol r q t worker queued = (
  record r {
    tenants = assign q.tenant_id t' r.tenants;
    requests = emplace q.request_id request r.requests;
    counters = charge_counters r.counters queued;
  },
  record {
    result = if queued then admit_queue else admit_now;
    worker_id = worker.worker_id;
    estimated_prefill_micros = estimate_prefill q worker;
    estimated_decode_micros = estimate_decode q worker;
    estimated_kv_bytes = mul64 q.prompt_tokens 1024;
    queue_position = if queued then add64 (sum_tenants (λ u. u.queued) r.tenants 0) 1 else 0;
    fairness_score = fairness_score t' q;
  },
)
  where
    t' : TenantState
    t' = charge t q queued

    request : RequestState
    request = record { spec = q; worker_id = worker.worker_id; queued = queued }

unfoldable pub admit_worker :
    Runtime
    → RequestSpec
    → ScheduleDecision
    → TenantState
    → WorkerCapacity
    → Runtime × ScheduleDecision
unfolding enrol must_queue queue_full
admit_worker r q d t worker =
    if must_queue r t && queue_full r t
    then (
      record r {
        counters = record r.counters {
          overload_rejections = add64 r.counters.overload_rejections 1;
        };
      },
      record d { result = reject_overload },
    )
    else enrol r q t worker (must_queue r t)

unfoldable pub admit_tenant :
    Runtime → RequestSpec → ScheduleDecision → TenantState → Runtime × ScheduleDecision
unfolding over_quota admit_worker
admit_tenant r q d t =
    if over_quota t q
    then (
      record r {
        counters = record r.counters { quota_rejections = add64 r.counters.quota_rejections 1 };
      },
      record d { result = reject_quota },
    )
    else elim (select_worker t q r.workers) [
      | none ↦ (
        record r {
          counters = record r.counters { model_rejections = add64 r.counters.model_rejections 1 };
        },
        record d { result = reject_model },
      )
      | some worker ↦ admit_worker r q d t worker
    ]

-- A rejection is a success of the call: the decision tells it.
unfoldable pub admit :
    Runtime → RequestSpec → ScheduleDecision → Runtime × ScheduleDecision × Status
unfolding admit_tenant
admit r q d =
    if q.request_id == 0
      || q.tenant_id == 0
      || q.prompt_tokens == 0
      || q.max_completion_tokens == 0
      || r.shutting_down
      || contains q.request_id r.requests
    then (r, d, failure)
    else elim (find q.tenant_id r.tenants) [
      | none ↦ (r, d, failure)
      | some t ↦ let (r', d') = admit_tenant r q d t in (r', d', success)
    ]
