-- ===== src/Scheduler/Workers.antt =====
-- Workers in src/production_scheduler.cpp: registration, circuit breaking, drain and scale plans.
use chromo_fold.Prelude.{
  ℕ, ◌-◌, ◌/◌, Bool, false, ◌&&◌, ◌||◌, none, some, [], ◌∷◌, ltb, leb, ◌==◌, not, if◌then◌else◌,
  max, length,
}
use chromo_fold.Prelude.Words.{add32, add64}
use chromo_fold.Prelude.Map.{Map, find, contains, emplace, assign}
use chromo_fold.Scheduler.Types.{
  WorkerCapacity, ScalePlan, RequestState, Runtime, Status, success, failure, worker_healthy,
  worker_draining, worker_quarantined, circuit_closed, circuit_open,
}
use chromo_fold.Scheduler.Admit.{sum_tenants}

unfoldable pub register_worker : Runtime → WorkerCapacity → Runtime × Status
register_worker r worker =
    if worker.worker_id == 0
      || worker.total_vram_bytes == 0
      || worker.prefill_tokens_per_second == 0
      || worker.decode_tokens_per_second == 0
      || r.shutting_down
      || leb r.config.max_workers (length r.workers)
      || contains worker.worker_id r.workers
    then (r, failure)
    else (record r { workers = emplace worker.worker_id worker r.workers }, success)

unfoldable pub open_circuit : Runtime → ℕ → Runtime × Status
open_circuit r id = if id == 0 then (r, failure) else elim (find id r.workers) [
  | none ↦ (r, failure)
  | some w ↦ (
    record r {
      workers =
          assign id (record w { circuit_state = circuit_open; state = worker_quarantined })
            r.workers;
      counters = record r.counters { circuit_opens = add64 r.counters.circuit_opens 1 };
    },
    success,
  )
]

unfoldable pub recover_circuit : Runtime → ℕ → Runtime × Status
recover_circuit r id = if id == 0 then (r, failure) else elim (find id r.workers) [
  | none ↦ (r, failure)
  | some w ↦ if not (w.circuit_state == circuit_open) then (r, failure) else (
    record r {
      workers =
          assign id (record w { circuit_state = circuit_closed; state = worker_healthy }) r.workers;
      counters = record r.counters { circuit_recoveries = add64 r.counters.circuit_recoveries 1 };
    },
    success,
  )
]

-- Whether a request stands on the worker.
unfoldable pub in_use : ℕ → Map RequestState → Bool
in_use id [] = false
in_use id ((k, q) ∷ rest) = q.worker_id == id || in_use id rest

unfoldable pub drain_worker : Runtime → ℕ → Runtime × Status
unfolding in_use
drain_worker r id = if id == 0 then (r, failure) else elim (find id r.workers) [
  | none ↦ (r, failure)
  | some w ↦ if in_use id r.requests then (r, failure) else (
    record r {
      workers = assign id (record w { state = worker_draining }) r.workers;
      counters = record r.counters { safe_drains = add64 r.counters.safe_drains 1 };
    },
    success,
  )
]

unfoldable pub count_healthy : Map WorkerCapacity → ℕ → ℕ
count_healthy [] acc = acc
count_healthy ((id, w) ∷ rest) acc =
    count_healthy rest
      (if w.state == worker_healthy && w.circuit_state == circuit_closed then add32 acc 1 else acc)

-- The plan is written, and the runtime's counter too (the code casts its `const` away).
unfoldable pub plan_scale : Runtime → Runtime × ScalePlan × Status
unfolding count_healthy sum_tenants
plan_scale r = (
  if overloaded
      then record r {
        counters = record r.counters { scale_up_plans = add64 r.counters.scale_up_plans 1 };
      }
      else r,
  record {
    desired_prefill_workers = if overloaded then add32 prefill 1 else prefill;
    desired_decode_workers = if overloaded then add32 decode 1 else decode;
    desired_model_replicas = if overloaded then 2 else 1;
    drain_worker_count = 0;
  },
  success,
)
  where
    healthy : ℕ
    healthy = count_healthy r.workers 0

    prefill : ℕ
    prefill = max 1 (healthy / 2)

    decode : ℕ
    decode = max 2 (healthy - healthy / 2)

    overloaded : Bool
    overloaded = ltb r.config.overload_queue_threshold (sum_tenants (λ t. t.queued) r.tenants 0)
