-- ===== src/Scheduler.antt =====
-- src/production_scheduler.cpp: multi-tenant admission. Each cf_scheduler_ function is a function on
-- the runtime; the proofs are in the modules below. Arguments that are pointers are values here, so
-- the tests for null are left out, and each call is atomic, as under the runtime's mutex.
pub mod Types
pub mod Select
pub mod Admit
pub mod Finish
pub mod Workers
pub mod Selection
pub mod Books
pub mod Valid
pub mod Invariant
pub mod Admission
pub mod Verdict
pub mod Lifecycle
pub mod Plans
pub mod Audit
pub mod Phases
mod Examples
mod PhaseExamples
use Prim.Native.String.{String}
use chromo_fold.Prelude.{
  ℕ, true, false, not, ◌&&◌, ◌||◌, Option, none, some, List, [], ◌∷◌, leb, ◌==◌, if◌then◌else◌,
  length,
}
use chromo_fold.Prelude.Map.{contains, emplace}
use Types.{
  Config, TenantPolicy, WorkerCapacity, RequestSpec, ScheduleDecision, Counters, TenantState,
  Runtime, Status, success, failure, no_counts,
}
use Admit.{admit}
use Finish.{complete, cancel}
use Workers.{register_worker, open_circuit, recover_circuit, drain_worker, plan_scale}

pub create : Config → Option Runtime
create c =
    if not (c.version == 1)
      || c.max_tenants == 0
      || c.max_workers == 0
      || c.max_queued_requests == 0
      || c.max_active_requests == 0
    then none
    else some (record {
      config = c;
      tenants = [];
      workers = [];
      requests = [];
      usage_records = [];
      counters = no_counts;
      shutting_down = false;
      error = "";
    })

pub register_tenant : Runtime → TenantPolicy → Runtime × Status
register_tenant r policy =
    if policy.tenant_id == 0
      || policy.weight == 0
      || policy.max_concurrent_requests == 0
      || policy.max_queued_requests == 0
      || r.shutting_down
      || leb r.config.max_tenants (length r.tenants)
      || contains policy.tenant_id r.tenants
    then (r, failure)
    else (record r { tenants = emplace policy.tenant_id state r.tenants }, success)
  where
    state : TenantState
    state = record {
      policy = policy;
      active = 0;
      queued = 0;
      prompt_tokens = 0;
      completion_tokens = 0;
      gpu_micros = 0;
      virtual_runtime = 0;
    }

-- The audit stops new registrations and admissions, and counts the requests that are left.
pub shutdown_audit : Runtime → Runtime × Status
shutdown_audit r = (
  record r {
    shutting_down = true;
    counters = record r.counters { active_refs_at_shutdown = length r.requests };
  },
  if length r.requests == 0
        && r.counters.cross_tenant_contamination == 0
        && r.counters.dense_fallback_launches == 0
      then success
      else failure,
)

abbrev pub get_counters : Runtime → Counters
get_counters r = r.counters

abbrev pub last_error : Runtime → String
last_error r = r.error

-- The calls that change the runtime.
pub data Call : Type 0 where
  registers_tenant : TenantPolicy → Call
  registers_worker : WorkerCapacity → Call
  admits : RequestSpec → ScheduleDecision → Call
  completes : ℕ → ℕ → ℕ → Call
  cancels : ℕ → Call
  opens recovers drains : ℕ → Call
  plans audits : Call

pub step : Runtime → Call → Runtime
step r (registers_tenant policy) = (register_tenant r policy).0
step r (registers_worker worker) = (register_worker r worker).0
step r (admits q d) = (admit r q d).0
step r (completes id generated gpu) = (complete r id generated gpu).0
step r (cancels id) = (cancel r id).0
step r (opens id) = (open_circuit r id).0
step r (recovers id) = (recover_circuit r id).0
step r (drains id) = (drain_worker r id).0
step r plans = (plan_scale r).0
step r audits = (shutdown_audit r).0

pub run : Runtime → List Call → Runtime
run r [] = r
run r (c ∷ cs) = run (step r c) cs
