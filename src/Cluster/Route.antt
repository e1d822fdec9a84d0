-- ===== src/Cluster/Route.antt =====
-- Workers, routing, transfers and the shutdown audit in src/disaggregated_serving.cpp.
use chromo_fold.Prelude.{
  ℕ, ◌*◌, ◌-◌, ◌/◌, ◌%◌, max, min, Bool, true, false, not, ◌&&◌, ◌||◌, Option, none, some, [], ◌∷◌,
  ltb, leb, ◌==◌, if◌then◌else◌, length,
}
use chromo_fold.Prelude.Words.{add32, add64, mul64, u32_mod}
use chromo_fold.Prelude.Map.{Map, find, contains, emplace, assign}
use chromo_fold.Cluster.Types.{
  WorkerDescriptor, Lease, PageManifest, RouterRequest, RouterDecision, Counters, Runtime, Status,
  success, failure, role_prefill, role_decode,
}

pub register_worker : Runtime → WorkerDescriptor → Runtime × Status
register_worker r w =
    if w.worker_id == 0
      || ltb role_decode w.role
      || ltb w.transport 1
      || ltb 5 w.transport
      || r.shutting_down
      || leb r.config.max_workers (length r.workers)
      || contains w.worker_id r.workers
    then (r, failure)
    else (
      record r {
        workers = emplace w.worker_id w r.workers;
        counters = record r.counters { workers_registered = add64 r.counters.workers_registered 1 };
      },
      success,
    )

-- The best worker of a role so far, with its score.
pub record Best : Type 0 where
  pub worker : Option WorkerDescriptor
  pub best : ℕ

-- The divisors are 64-bit sums; where one wraps to 0 the code divides by zero, and the model has 0.
unfoldable pub role_score : ℕ → WorkerDescriptor → ℕ
role_score role w =
    if role == role_prefill
    then w.free_vram_bytes / add64 w.active_sequences 1
    else w.free_vram_bytes / add64 (add64 w.decode_backlog w.active_sequences) 1

unfoldable pub serves : ℕ → WorkerDescriptor → Bool
serves role w = not (w.healthy == 0) && not (w.model_loaded == 0) && w.role == role

unfoldable pub improve : ℕ → Best → WorkerDescriptor → Best
unfolding serves role_score
improve role b w =
    let better : Bool = elim b.worker [ none ↦ true | some v ↦ ltb b.best (role_score role w) ] in
    if serves role w && better then record { worker = some w; best = role_score role w } else b

-- The loop over the workers, for one of the two roles: it treats them independently.
unfoldable pub best_loop : ℕ → Best → Map WorkerDescriptor → Best
unfolding improve
best_loop role b [] = b
best_loop role b ((id, w) ∷ ws) = best_loop role (improve role b w) ws

unfoldable pub best_worker : ℕ → Map WorkerDescriptor → Option WorkerDescriptor
unfolding best_loop
best_worker role ws = (best_loop role (record { worker = none; best = 0 }) ws).worker

-- The loop over the pages; the clock is read anew for each. The product is 32 bits wide.
unfoldable pub cached_prefix : (ℕ → ℕ) → ℕ → Map PageManifest → ℕ → ℕ
cached_prefix clock tokens [] cached = cached
cached_prefix clock tokens ((key, m) ∷ ms) cached =
    let prefix = min tokens (m.page_id.page_size * add32 m.page_id.page_index 1 % u32_mod) in
    cached_prefix clock tokens ms
      (if ltb (clock key) m.lease.expires_at_millis then max cached prefix else cached)

unfoldable pub decide : RouterRequest → WorkerDescriptor → WorkerDescriptor → ℕ → RouterDecision
decide q prefill decode cached = record {
  prefill_worker_id = prefill.worker_id;
  decode_worker_id = decode.worker_id;
  cached_prefix_tokens = cached;
  suffix_tokens = q.token_count - cached;
  estimated_transfer_bytes = mul64 (q.token_count - cached) 1024;
}

count_hit : ℕ → Runtime → Runtime
count_hit cached r = if cached == 0 then r else record r {
  counters = record r.counters {
    prefix_cache_hits = add64 r.counters.prefix_cache_hits 1;
    prefill_tokens_avoided = add64 r.counters.prefill_tokens_avoided cached;
  };
}

unfoldable pub count_overload : Runtime → Runtime
count_overload r = record r {
  counters = record r.counters { overload_rejections = add64 r.counters.overload_rejections 1 };
}

unfoldable pub route_pair :
    Runtime
    → RouterRequest
    → (ℕ → ℕ)
    → Option WorkerDescriptor
    → Option WorkerDescriptor
    → Runtime × Option RouterDecision
unfolding cached_prefix decide count_hit count_overload
route_pair r q clock (some prefill) (some decode) =
    let cached = cached_prefix clock q.token_count r.pages 0 in
    (count_hit cached r, some (decide q prefill decode cached))
route_pair r q clock (some prefill) none = (count_overload r, none)
route_pair r q clock none decode = (count_overload r, none)

unfoldable pub route_request : Runtime → RouterRequest → (ℕ → ℕ) → Runtime × Option RouterDecision
unfolding best_worker route_pair
route_request r q clock =
    if not q.has_tokens || q.token_count == 0 || r.shutting_down
    then (r, none)
    else route_pair r q clock (best_worker role_prefill r.workers)
        (best_worker role_decode r.workers)

-- A transfer that has started, before its tests.
unfoldable pub started : Runtime → Runtime
started r = record r {
  inflight_transfers = add64 r.inflight_transfers 1;
  counters = record r.counters {
    page_transfers_started = add64 r.counters.page_transfers_started 1;
  };
}

unfoldable pub ended : Counters → Runtime → Runtime
ended k r = record r { inflight_transfers = r.inflight_transfers - 1; counters = k }

unfoldable pub finish_transfer : Runtime → PageManifest → ℕ → ℕ → ℕ → ℕ → Runtime × Status
unfolding ended
finish_transfer r m bytes complete authenticated integrity_ok =
    let k = r.counters in
    if not (r.config.require_authentication == 0) && authenticated == 0
    then (
      ended (record k { authentication_failures = add64 k.authentication_failures 1 }) r,
      failure,
    )
    else if not (r.config.require_integrity == 0) && integrity_ok == 0
    then (ended (record k { integrity_failures = add64 k.integrity_failures 1 }) r, failure)
    else if complete == 0 || not (bytes == m.payload_bytes)
    then (
      ended (record k { partial_transfers_rejected = add64 k.partial_transfers_rejected 1 }) r,
      failure,
    )
    else (
      ended
          (record k {
            page_transfers_completed = add64 k.page_transfers_completed 1;
            transfer_bytes = add64 k.transfer_bytes bytes;
          })
          r,
      success,
    )

unfoldable pub record_transfer : Runtime → PageManifest → ℕ → ℕ → ℕ → ℕ → Runtime × Status
unfolding started finish_transfer count_overload
record_transfer r m bytes complete authenticated integrity_ok =
    if bytes == 0
    then (r, failure)
    else if leb r.config.max_inflight_transfers r.inflight_transfers
    then (count_overload r, failure)
    else finish_transfer (started r) m bytes complete authenticated integrity_ok

-- The loop over the pages that the worker held.
count_recoveries : ℕ → Map Lease → Map PageManifest → ℕ → ℕ
count_recoveries worker leases [] n = n
count_recoveries worker leases ((key, m) ∷ ms) n =
    let owned : Bool = elim (find key leases) [
      | none ↦ false
      | some l ↦ l.owner_worker_id == worker && ltb 1 m.replica_count
    ] in
    count_recoveries worker leases ms (if owned then add64 n 1 else n)

pub mark_worker_failed : Runtime → ℕ → Runtime × Status
unfolding count_recoveries
mark_worker_failed r id = if id == 0 then (r, failure) else elim (find id r.workers) [
  | none ↦ (r, failure)
  | some w ↦ (
    record r {
      workers = assign id (record w { healthy = 0 }) r.workers;
      counters = record r.counters {
        replica_recoveries = count_recoveries id r.leases r.pages r.counters.replica_recoveries;
      };
    },
    success,
  )
]

pub shutdown_audit : Runtime → Runtime × Status
shutdown_audit r = (
  record r {
    shutting_down = true;
    counters = record r.counters { page_refs_at_shutdown = 0; snapshot_refs_at_shutdown = 0 };
  },
  if r.inflight_transfers == 0
        && r.counters.cross_request_contamination == 0
        && r.counters.dense_fallback_launches == 0
      then success
      else failure,
)
