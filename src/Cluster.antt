-- ===== src/Cluster.antt =====
-- src/disaggregated_serving.cpp: a cluster of prefill and decode workers that lease pages. Each
-- cf_cluster_ function is a function on the runtime, atomic as under its mutex; null pointers are left
-- out, and a reading of the clock is an argument. The proofs are in the modules below.
pub mod Types
pub mod Keys
pub mod Leases
pub mod Route
pub mod Laws
mod Examples
use Prim.Native.String.{String}
use chromo_fold.Prelude.{ℕ, Option, none, some, [], not, ◌||◌, ◌==◌, if◌then◌else◌, false}
use Types.{Config, Counters, Lease, PageId, PageManifest, RouterRequest, Runtime, WorkerDescriptor}
use Leases.{acquire_lease, renew_lease, transfer_lease, publish_manifest}
use Route.{register_worker, route_request, record_transfer, mark_worker_failed, shutdown_audit}

abbrev pub no_counts : Counters
no_counts = record {
  workers_registered = 0;
  prefix_cache_hits = 0;
  prefill_tokens_avoided = 0;
  page_manifests_published = 0;
  page_transfers_started = 0;
  page_transfers_completed = 0;
  transfer_bytes = 0;
  partial_transfers_rejected = 0;
  authentication_failures = 0;
  integrity_failures = 0;
  replay_rejections = 0;
  lease_acquires = 0;
  lease_renews = 0;
  lease_transfers = 0;
  stale_generation_rejections = 0;
  replica_recoveries = 0;
  router_retries = 0;
  overload_rejections = 0;
  cross_request_contamination = 0;
  dense_fallback_launches = 0;
  page_refs_at_shutdown = 0;
  snapshot_refs_at_shutdown = 0;
}

abbrev pub create : Config → Option Runtime
create k =
    if not (k.protocol_version == 1)
      || k.replication_factor == 0
      || k.max_workers == 0
      || k.max_inflight_transfers == 0
      || k.max_queued_requests == 0
      || k.lease_duration_millis == 0
    then none
    else some (record {
      config = k;
      workers = [];
      pages = [];
      leases = [];
      counters = no_counts;
      inflight_transfers = 0;
      shutting_down = false;
      error = "";
    })

abbrev pub get_counters : Runtime → Counters
get_counters r = r.counters

abbrev pub last_error : Runtime → String
last_error r = r.error

-- The calls that change the runtime, with the readings of the clock.
pub data Call : Type 0 where
  registers : WorkerDescriptor → Call
  routes : RouterRequest → (ℕ → ℕ) → Call
  acquires : PageId → ℕ → ℕ → ℕ → Call
  renews : PageId → Lease → ℕ → Call
  hands_over : PageId → Lease → ℕ → ℕ → Call
  publishes : PageManifest → Call
  records : PageManifest → ℕ → ℕ → ℕ → ℕ → Call
  fails : ℕ → Call
  audits : Call

abbrev pub step : Runtime → Call → Runtime
step r (registers w) = (register_worker r w).0
step r (routes q clock) = (route_request r q clock).0
step r (acquires id worker now later) = (acquire_lease r id worker now later).0
step r (renews id current now) = (renew_lease r id current now).0
step r (hands_over id current worker now) = (transfer_lease r id current worker now).0
step r (publishes m) = (publish_manifest r m).0
step r (records m bytes complete authenticated integrity_ok) =
    (record_transfer r m bytes complete authenticated integrity_ok).0
step r (fails id) = (mark_worker_failed r id).0
step r audits = (shutdown_audit r).0
