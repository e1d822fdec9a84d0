-- ===== src/Cluster/Examples.antt =====
-- Runs of src/disaggregated_serving.cpp on one prefill and one decode worker, and one page.
use chromo_fold.Prelude.{
  ℕ, ◌+◌, ◌<◌, ◌≡◌, refl, ◌≢◌, ◌⊎◌, ◌↔◌, true, false, none, some, replicate, [], ◌∷◌, arith,
}
use chromo_fold.Prelude.Words.{add32, add64}
use chromo_fold.Prelude.Map.{find}
use chromo_fold.Cluster.{no_counts}
use chromo_fold.Cluster.Types.{
  PageId, WorkerDescriptor, Lease, PageManifest, RouterRequest, RouterDecision, Config, Runtime,
  success, failure, role_prefill, role_decode,
}
use chromo_fold.Cluster.Keys.{page_key}
use chromo_fold.Cluster.Leases.{
  new_lease, acquire_lease, transfer_lease, renew_lease, publish_manifest,
}
use chromo_fold.Cluster.Route.{
  serves, improve, role_score, best_loop, best_worker, cached_prefix, decide, route_pair,
  route_request, record_transfer,
}
use chromo_fold.Cluster.Laws.{
  acquire_lease_exclusive, transfer_lease_revokes, record_transfer_lem, IsRegistered,
  route_request_split,
}

abbrev config : Config
config = record {
  protocol_version = 1;
  replication_factor = 1;
  require_authentication = 1;
  require_integrity = 1;
  allow_host_staging = 0;
  max_workers = 4;
  max_inflight_transfers = 2;
  max_queued_requests = 4;
  lease_duration_millis = 100;
  max_pinned_host_bytes = 0;
}

abbrev worker : ℕ → ℕ → WorkerDescriptor
worker id role = record {
  worker_id = id;
  role = role;
  transport = 1;
  healthy = 1;
  model_loaded = 1;
  free_vram_bytes = 64;
  active_sequences = 0;
  decode_backlog = 0;
  cache_namespace = 0;
}

abbrev page : PageId
page = record {
  model_sha256 = replicate 32 7;
  tokenizer_sha256 = replicate 32 7;
  token_sequence_sha256 = replicate 32 7;
  rope_hash = 0;
  compression_profile_hash = 0;
  layer = 0;
  page_index = 0;
  page_size = 16;
  codec_version = 1;
}

abbrev request : RouterRequest
request = record { has_tokens = true; token_count = 20; model_hash = 0; request_id = 1 }

abbrev held : Lease
held = record { owner_worker_id = 3; generation = 1; expires_at_millis = 50; token = 9 }

abbrev manifest : PageManifest
manifest = record {
  page_id = page;
  lease = held;
  payload_bytes = 64;
  checksum = 5;
  key_codec = 0;
  value_codec = 0;
  replica_count = 1;
}

abbrev ready : Runtime
ready = record {
  config = config;
  workers = (2, worker 2 2) ∷ (3, worker 3 3) ∷ [];
  pages = (page_key page, manifest) ∷ [];
  leases = (page_key page, held) ∷ [];
  counters = no_counts;
  inflight_transfers = 0;
  shutting_down = false;
  error = "";
}

acquire_lease_exclusive_example :
    let l = new_lease ready page 7 2 60 in
    let r = (acquire_lease ready page 7 55 60).0 in
    (find (page_key page) r.leases ≡ some l)
    × (l.owner_worker_id ≡ 7)
    × (acquire_lease r page 8 90 91 ≡ (r, none))
unfolding acquire_lease find page_key add64
acquire_lease_exclusive_example =
    acquire_lease_exclusive ready page 7 8 55 60 90 91 (new_lease ready page 7 2 60) refl
      (omega arith)

transfer_lease_revokes_example :
    let l = new_lease ready page 7 2 60 in
    let r = (transfer_lease ready page held 7 60).0 in
    (find (page_key page) r.leases ≡ some l)
    × (l.owner_worker_id ≡ 7)
    × ((renew_lease r page held 61).1 ≡ none)
    × ((b : ℕ) → (transfer_lease r page held b 61).1 ≡ none)
    × ((m : PageManifest)
        → page_key m.page_id ≡ page_key page
        → m.lease ≡ held
        → (publish_manifest r m).1 ≡ failure)
unfolding transfer_lease find page_key add64
transfer_lease_revokes_example =
    transfer_lease_revokes ready page held (new_lease ready page 7 2 60) 7 60 61 (omega arith) refl

record_transfer_lem_example :
    let o = record_transfer ready manifest 64 1 1 1 in
    (o.0.inflight_transfers ≡ 0)
    × ((o.1 ≡ success) ↔ (
        (manifest.payload_bytes ≢ 0)
        × (0 < 2)
        × ((ready.config.require_authentication ≡ 0) ⊎ (request.request_id ≢ 0))
        × ((ready.config.require_integrity ≡ 0) ⊎ (request.request_id ≢ 0))
        × (request.request_id ≢ 0)
        × (64 ≡ manifest.payload_bytes)))
record_transfer_lem_example = record_transfer_lem ready manifest 64 1 1 1 (omega arith)

-- The page still serves as a cached prefix at time 10.
abbrev routed : RouterDecision
routed = decide request (worker 2 2) (worker 3 3) 16

route_request_split_example :
    (routed.cached_prefix_tokens + routed.suffix_tokens ≡ request.token_count)
    × ((p : WorkerDescriptor) × IsRegistered role_prefill ready.workers p
        × (routed.prefill_worker_id ≡ p.worker_id))
    × ((p : WorkerDescriptor) × IsRegistered role_decode ready.workers p
        × (routed.decode_worker_id ≡ p.worker_id))
unfolding route_request best_worker best_loop improve serves role_score cached_prefix route_pair
    add32 find
route_request_split_example =
    route_request_split ready request (λ key. 10) routed (refl, (refl, tt)) refl
