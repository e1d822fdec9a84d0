-- ===== src/Scheduler/Examples.antt =====
-- Runs of src/production_scheduler.cpp on a small fleet: one tenant, two workers, two requests.
use chromo_fold.Prelude.{
  ℕ, ◌≤◌, ◌≡◌, refl, ◌≢◌, inl, ◌↔◌, true, false, none, some, List, [], ◌∷◌, arith, length, ◌+◌, ◌-◌,
  ◌*◌, ◌/◌, max, ◌==◌,
}
use chromo_fold.Prelude.Words.{add32, add64, mul64}
use chromo_fold.Prelude.Map.{erase, Map, find, emplace, assign, total}
use chromo_fold.Scheduler.Types.{
  admit_now, Config, TenantPolicy, WorkerCapacity, RequestSpec, ScheduleDecision, TenantState,
  RequestState, Runtime, success, failure, no_counts, admit_queue,
}
use chromo_fold.Scheduler.{
  Call, registers_tenant, registers_worker, admits, create, register_tenant, shutdown_audit, step,
  run,
}
use chromo_fold.Scheduler.Select.{
  model_supported, estimate_prefill, estimate_decode, fairness_score, eligible, score, visit,
  select_loop, select_worker,
}
use chromo_fold.Scheduler.Admit.{
  over_quota, sum_tenants, must_queue, queue_full, charge, enrol, admit_worker, admit_tenant, admit,
}
use chromo_fold.Scheduler.Finish.{finish, discharge, settle, complete}
use chromo_fold.Scheduler.Workers.{register_worker, in_use, drain_worker, plan_scale}
use chromo_fold.Scheduler.Selection.{Preferred, select_worker_best}
use chromo_fold.Scheduler.Valid.{IsValid}
use chromo_fold.Scheduler.Invariant.{run-create-IsValid}
use chromo_fold.Scheduler.Admission.{IsCharged, admit_accepted}
use chromo_fold.Scheduler.Verdict.{IsVerdict, admit-IsVerdict}
use chromo_fold.Scheduler.Lifecycle.{complete_once, complete_reused, drain_worker_safe}
use chromo_fold.Scheduler.Plans.{healthy_of, overload, plan_scale_workers}
use chromo_fold.Scheduler.Audit.{shutdown_audit_iff, run_shut}

abbrev pub config : Config
config = record {
  version = 1;
  max_tenants = 2;
  max_workers = 4;
  max_queued_requests = 1;
  max_active_requests = 8;
  routing_seed = 7;
  overload_queue_threshold = 1;
}

abbrev pub policy : TenantPolicy
policy = record {
  tenant_id = 1;
  weight = 2;
  max_concurrent_requests = 1;
  max_queued_requests = 1;
  prompt_tokens_per_minute = 1000;
  completion_tokens_per_minute = 1000;
  max_kv_bytes = 0;
  gpu_time_budget_micros = 500;
}

abbrev pub worker : ℕ → ℕ → WorkerCapacity
worker id depth = record {
  worker_id = id;
  state = 0;
  gpu_arch = 0;
  free_vram_bytes = 8;
  total_vram_bytes = 8;
  prefill_tokens_per_second = 1000;
  decode_tokens_per_second = 100;
  active_sequences = 0;
  queue_depth = depth;
  model_mask = 1;
  circuit_state = 0;
}

abbrev pub request : ℕ → RequestSpec
request id = record {
  request_id = id;
  tenant_id = 1;
  model_id = 0;
  slo_class = 0;
  priority = 0;
  prompt_tokens = 10;
  max_completion_tokens = 5;
  cached_prefix_tokens = 4;
  deadline_millis = 0;
  idempotency_key = 0;
}

abbrev pub blank : ScheduleDecision
blank = record {
  result = 0;
  worker_id = 0;
  estimated_prefill_micros = 0;
  estimated_decode_micros = 0;
  estimated_kv_bytes = 0;
  queue_position = 0;
  fairness_score = 0;
}

abbrev pub fresh : Runtime
fresh = record {
  config = config;
  tenants = [];
  workers = [];
  requests = [];
  usage_records = [];
  counters = no_counts;
  shutting_down = false;
  error = "";
}

abbrev tenant : TenantState
tenant = record {
  policy = policy;
  active = 0;
  queued = 0;
  prompt_tokens = 0;
  completion_tokens = 0;
  gpu_micros = 0;
  virtual_runtime = 0;
}

abbrev fleet : Map WorkerCapacity
fleet = (4, worker 4 0) ∷ (3, worker 3 9) ∷ []

abbrev turned_fleet : Map WorkerCapacity
turned_fleet = (3, worker 3 9) ∷ (4, worker 4 0) ∷ []

abbrev ready : Runtime
ready = record fresh { tenants = (1, tenant) ∷ []; workers = fleet }

-- One request runs on worker 4.
abbrev running : Runtime
running = record ready {
  tenants = (1, record tenant { active = 1; prompt_tokens = 10; virtual_runtime = 15 }) ∷ [];
  requests = (5, record { spec = request 5; worker_id = 4; queued = false }) ∷ [];
}

abbrev opening_calls : List Call
opening_calls =
    registers_tenant policy ∷ registers_worker (worker 4 0) ∷ admits (request 5) blank ∷ []

-- A tenant is registered, then a worker beside worker 3, and the request goes to the new one.
opening_run :
    let r = run (record fresh { workers = (3, worker 3 9) ∷ [] }) opening_calls in
    (r.tenants ≡ running.tenants) × (r.workers ≡ fleet) × (r.requests ≡ running.requests)
unfolding run step admit enrol charge register_worker register_tenant find emplace assign add64
    select_worker visit eligible model_supported score mul64 add32 fairness_score sum_tenants
    estimate_prefill estimate_decode over_quota must_queue queue_full admit_worker admit_tenant
opening_run = (refl, refl, refl)

run-create-IsValid_example : IsValid (run fresh opening_calls)
unfolding create
run-create-IsValid_example =
    run-create-IsValid config fresh opening_calls (omega arith) (omega arith) refl
      ((omega arith, omega arith), (tt, (tt, tt)))

fresh-IsValid : IsValid fresh
unfolding create run
fresh-IsValid = run-create-IsValid config fresh [] (omega arith) (omega arith) refl tt

select_worker_best_example :
    ((id : ℕ) × (find id fleet ≡ some (worker 4 0)))
    × (eligible (request 5) (worker 4 0) ≡ true)
    × ((id : ℕ) (v : WorkerCapacity)
        → find id fleet ≡ some v
        → eligible (request 5) v ≡ true
        → Preferred tenant (request 5) (worker 4 0) v)
unfolding select_worker select_loop visit eligible model_supported score mul64 add64 add32
    fairness_score find estimate_prefill estimate_decode
select_worker_best_example =
    select_worker_best tenant (request 5) fleet (worker 4 0) (refl, (refl, tt)) refl

turned_find : (id : ℕ) → find id fleet ≡ find id turned_fleet
unfolding find
turned_find id = ground arith

fleet_keyed : (id : ℕ) (w : WorkerCapacity) → find id fleet ≡ some w → w.worker_id ≡ id
unfolding find
fleet_keyed id w e = ground arith

admit_accepted_example :
    (find 5 (admit ready (request 5) blank).0.requests
      ≡ some (record {
        spec = request 5;
        worker_id = (admit ready (request 5) blank).1.worker_id;
        queued = (admit ready (request 5) blank).1.result == admit_queue;
      }))
    × ((u : TenantState) × (find 1 (admit ready (request 5) blank).0.tenants ≡ some u)
        × IsCharged tenant (request 5) ((admit ready (request 5) blank).1.result == admit_queue) u)
unfolding admit enrol find add64 select_worker select_loop visit eligible model_supported
    sum_tenants over_quota must_queue queue_full admit_worker admit_tenant score mul64 add32
    fairness_score estimate_prefill estimate_decode
admit_accepted_example = admit_accepted ready (request 5) blank tenant refl refl (inl refl)

abbrev charged_tenant : TenantState
charged_tenant = record tenant { active = 1; prompt_tokens = 10; virtual_runtime = 15 }

admit-IsVerdict_example :
    ((admit (run fresh opening_calls) (request 6) blank).2 ≡ success)
    × (((admit (run fresh opening_calls) (request 6) blank).1.result ≡ admit_queue)
        ↔ IsVerdict (run fresh opening_calls) (request 6) charged_tenant admit_queue)
unfolding create run step register_tenant register_worker find emplace admit enrol charge assign
    add64 select_worker visit eligible model_supported score mul64 add32 fairness_score sum_tenants
    estimate_prefill estimate_decode over_quota must_queue queue_full admit_worker admit_tenant
admit-IsVerdict_example =
    admit-IsVerdict (run fresh opening_calls) (request 6) blank charged_tenant admit_queue
      (run-create-IsValid config fresh opening_calls (omega arith) (omega arith) refl
        ((omega arith, omega arith), (tt, (tt, tt))))
      (refl, tt) ((ground arith, ground arith, ground arith, ground arith)) refl refl refl

complete_once_example :
    let r = (complete running 5 5 40).0 in
    (find 5 r.requests ≡ none)
    × (find 5 r.usage_records ≡ some 40)
    × (complete r 5 1 1 ≡ (r, failure))
unfolding complete settle find
complete_once_example = complete_once running 5 5 40 1 1 (refl, tt) refl

complete_reused_example :
    let s = (admit (complete running 5 5 40).0 (request 5) blank).0 in
    let o = complete s 5 1 1 in
    (o.1 ≡ failure) × (o.0.requests ≡ s.requests) × (o.0.tenants ≡ s.tenants)
unfolding complete settle find
complete_reused_example = complete_reused running (request 5) blank 5 40 1 1 (refl, tt) refl

-- The number is admitted again after it was billed.
readmitted : (admit (complete running 5 5 40).0 (request 5) blank).1.result ≡ admit_now
unfolding complete settle finish discharge find assign erase add64 admit enrol select_worker
    select_loop visit eligible model_supported sum_tenants over_quota must_queue queue_full
    admit_worker admit_tenant score mul64 add32 fairness_score estimate_prefill estimate_decode
readmitted = refl

drain_worker_safe_example :
    let r = (drain_worker running 3).0 in
    ((k : ℕ) (q : RequestState) → find k r.requests ≡ some q → q.worker_id ≢ 3)
    × ((w : WorkerCapacity) (q : RequestSpec) → find 3 r.workers ≡ some w → eligible q w ≡ false)
unfolding drain_worker in_use find
drain_worker_safe_example = drain_worker_safe running 3 refl

shutdown_audit_iff_example :
    ((shutdown_audit (run fresh opening_calls)).1 ≡ success)
    ↔ ((run fresh opening_calls).requests ≡ [])
unfolding create
shutdown_audit_iff_example = shutdown_audit_iff config fresh opening_calls refl

run_shut_example :
    let r = run (record running { shutting_down = true }) opening_calls in
    (r.shutting_down ≡ true)
    × (length r.requests ≤ 1)
    × (length r.tenants ≡ 1)
    × (length r.workers ≡ 2)
run_shut_example = run_shut (record running { shutting_down = true }) opening_calls refl

opening_healthy : total healthy_of (run fresh opening_calls).workers ≡ 1
unfolding run step admit enrol charge register_worker register_tenant find emplace assign add64
    select_worker visit eligible model_supported score mul64 add32 fairness_score sum_tenants
    estimate_prefill estimate_decode over_quota must_queue queue_full admit_worker admit_tenant
    total
opening_healthy = refl

plan_scale_workers_example :
    let r = run fresh opening_calls in
    let p = (plan_scale r).1 in
    let healthy = total healthy_of r.workers in
    (p.desired_prefill_workers ≡ max 1 (healthy / 2) + overload r)
    × (p.desired_decode_workers ≡ max 2 (healthy - healthy / 2) + overload r)
    × (p.desired_model_replicas ≡ 1 + overload r)
    × (p.drain_worker_count ≡ 0)
    × (p.desired_prefill_workers + p.desired_decode_workers ≡ max 3 healthy + 2 * overload r)
unfolding create run step register_tenant register_worker total find emplace
plan_scale_workers_example =
    plan_scale_workers (run fresh opening_calls)
      (run-create-IsValid config fresh opening_calls (omega arith) (omega arith) refl
        ((omega arith, omega arith), (tt, (tt, tt))))
      (omega (arith, opening_healthy))
