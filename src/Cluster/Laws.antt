-- ===== src/Cluster/Laws.antt =====
-- What leases, transfers and routing of src/disaggregated_serving.cpp promise.
use chromo_fold.Prelude.{
  ℕ, ◌+◌, ◌-◌, ◌≤◌, ◌<◌, ◌≡◌, ap, inl, inr, ◌⊎◌, ◌↔◌, ◌≢◌, true, false, Option, none, some, [], ◌∷◌,
  arith, ◌==◌, Bool-cases, Option-cases, subst, sym, is_some, ==→eq,
}
use chromo_fold.Prelude.Words.{add64, u64_mod}
use chromo_fold.Prelude.Map.{Map, find, contains, find-assign, find-emplace, upsert, IsDistinct}
use chromo_fold.Cluster.Types.{
  PageId, WorkerDescriptor, Lease, PageManifest, RouterRequest, RouterDecision, Runtime, success,
  failure, role_prefill, role_decode,
}
use chromo_fold.Cluster.Keys.{page_key}
use chromo_fold.Cluster.Leases.{
  new_lease, lease_acquired, acquire_lease, stale, lease_transferred, transfer_lease, renew_lease,
  publish_manifest,
}
use chromo_fold.Cluster.Route.{
  serves, improve, Best, best_loop, best_worker, cached_prefix, decide, route_pair, route_request,
  started, ended, finish_transfer, record_transfer, count_overload,
}

find-upsert {ℓ} : {V : Type ℓ} (k : ℕ) (v : V) (m : Map V) → find k (upsert k v m) ≡ some v
find-upsert k v m = elim (Bool-cases (contains k m)) [
  | inl there ↦ rw there (ground (arith, find-assign k k v m))
  | inr new ↦ rw new (ground (arith, find-emplace k k v m new))
]

acquire_lease-some :
    (r : Runtime) (id : PageId) (a now later : ℕ) (l : Lease)
    → (acquire_lease r id a now later).1 ≡ some l
    → (l.owner_worker_id ≡ a) × ((acquire_lease r id a now later).0 ≡ lease_acquired r id l)
unfolding acquire_lease new_lease
acquire_lease-some r id a now later l ok = ground arith

acquire_lease-held :
    (r : Runtime) (id : PageId) (b now later : ℕ) (l : Lease)
    → find (page_key id) r.leases ≡ some l
    → now < l.expires_at_millis
    → acquire_lease r id b now later ≡ (r, none)
unfolding acquire_lease
acquire_lease-held r id b now later l here live = ground arith

-- A lease that a worker acquired stands under the page with its number, and until it expires no
-- acquisition of the page succeeds or changes anything.
pub acquire_lease_exclusive :
    (r : Runtime) (id : PageId) (a b now later then_ last : ℕ) (l : Lease)
    → (acquire_lease r id a now later).1 ≡ some l
    → then_ < l.expires_at_millis
    → let r' = (acquire_lease r id a now later).0 in
      (find (page_key id) r'.leases ≡ some l)
      × (l.owner_worker_id ≡ a)
      × (acquire_lease r' id b then_ last ≡ (r', none))
unfolding lease_acquired
acquire_lease_exclusive r id a b now later then_ last l ok live =
    let done = acquire_lease-some r id a now later l ok in
    let held = find-upsert (page_key id) l r.leases in
    rw done.1 (held, done.0, acquire_lease-held (lease_acquired r id l) id b then_ last l held live)

transfer_lease-some :
    (r : Runtime) (id : PageId) (current l : Lease) (worker now : ℕ)
    → (transfer_lease r id current worker now).1 ≡ some l
    → (contains (page_key id) r.leases ≡ true)
      × (l.owner_worker_id ≡ worker)
      × (l.generation ≡ add64 current.generation 1)
      × ((transfer_lease r id current worker now).0 ≡ lease_transferred r id l)
unfolding transfer_lease new_lease stale
transfer_lease-some r id current l worker now ok = ground arith

-- A lease that another has replaced is of no use.
module _ (r : Runtime) (id : PageId) (current l : Lease)
    (here : find (page_key id) r.leases ≡ some l)
    (old : (l.generation == current.generation) ≡ false) where
  renew_lease-old : (now : ℕ) → (renew_lease r id current now).1 ≡ none
  unfolding renew_lease stale
  renew_lease-old now = ground arith

  transfer_lease-old : (b now : ℕ) → (transfer_lease r id current b now).1 ≡ none
  unfolding transfer_lease stale
  transfer_lease-old b now = ground arith

  publish_manifest-old :
      (m : PageManifest)
      → page_key m.page_id ≡ page_key id
      → m.lease ≡ current
      → (publish_manifest r m).1 ≡ failure
  unfolding publish_manifest stale
  publish_manifest-old m key lease = ground arith

-- After the transfer of a lease with a 64-bit generation to a worker, the new lease stands under
-- the page, and the old one can neither be renewed nor transferred, nor publish a manifest of the
-- page.
pub transfer_lease_revokes :
    (r : Runtime) (id : PageId) (current l : Lease) (worker now later : ℕ)
    → current.generation < u64_mod
    → (transfer_lease r id current worker now).1 ≡ some l
    → let r' = (transfer_lease r id current worker now).0 in
      (find (page_key id) r'.leases ≡ some l)
      × (l.owner_worker_id ≡ worker)
      × ((renew_lease r' id current later).1 ≡ none)
      × ((b : ℕ) → (transfer_lease r' id current b later).1 ≡ none)
      × ((m : PageManifest)
          → page_key m.page_id ≡ page_key id
          → m.lease ≡ current
          → (publish_manifest r' m).1 ≡ failure)
unfolding lease_transferred add64
transfer_lease_revokes r id current l worker now later range ok =
    let done = transfer_lease-some r id current l worker now ok in
    let here : find (page_key id) (lease_transferred r id l).leases ≡ some l =
      ground (arith, find-assign (page_key id) (page_key id) l r.leases, done.0) in
    let old : (l.generation == current.generation) ≡ false = ground (arith, done.2) in
    let s = lease_transferred r id l in
    rw done.3 (
      here,
      done.1,
      renew_lease-old s id current l here old later,
      λ b. transfer_lease-old s id current l here old b later,
      λ m key lease. publish_manifest-old s id current l here old m key lease,
    )

-- Where the count of transfers in flight is below 2^64 - 1, recording a transfer leaves it as it
-- was, and succeeds exactly if there are bytes, the count is below its limit, the transfer is
-- authenticated and intact where that is required, and it is complete and has the bytes of the
-- manifest.
pub record_transfer_lem :
    (r : Runtime) (m : PageManifest) (bytes complete authenticated integrity_ok : ℕ)
    → r.inflight_transfers < u64_mod - 1
    → let o = record_transfer r m bytes complete authenticated integrity_ok in
      (o.0.inflight_transfers ≡ r.inflight_transfers)
      × ((o.1 ≡ success) ↔ (
          (bytes ≢ 0)
          × (r.inflight_transfers < r.config.max_inflight_transfers)
          × ((r.config.require_authentication ≡ 0) ⊎ (authenticated ≢ 0))
          × ((r.config.require_integrity ≡ 0) ⊎ (integrity_ok ≢ 0))
          × (complete ≢ 0)
          × (bytes ≡ m.payload_bytes)))
unfolding record_transfer finish_transfer started ended count_overload add64
record_transfer_lem r m bytes complete authenticated integrity_ok few =
    (ground arith, (λ ok. ground arith, λ h. ground arith))

cached_prefix-le :
    (clock : ℕ → ℕ) (n : ℕ) (ms : Map PageManifest) (cached : ℕ)
    → cached ≤ n
    → cached_prefix clock n ms cached ≤ n
unfolding cached_prefix
cached_prefix-le clock n [] cached h = h
cached_prefix-le clock n ((key, m) ∷ ms) cached h = cached_prefix-le clock n ms _ (ground arith)

-- A worker of the table with the role, healthy, with the model, under a number of its own.
abbrev pub IsRegistered : ℕ → Map WorkerDescriptor → WorkerDescriptor → Type 0
IsRegistered role ws w =
    ((id : ℕ) × (find id ws ≡ some w)) × (w.healthy ≢ 0) × (w.model_loaded ≢ 0) × (w.role ≡ role)

abbrev Registered : ℕ → Map WorkerDescriptor → Option WorkerDescriptor → Type 0
Registered role ws none = Unit {0}
Registered role ws (some w) = IsRegistered role ws w

improve_cases :
    (role : ℕ) (b : Best) (w : WorkerDescriptor)
    → ((improve role b w).worker ≡ b.worker)
      ⊎ (((improve role b w).worker ≡ some w)
          × (w.healthy ≢ 0)
          × (w.model_loaded ≢ 0)
          × (w.role ≡ role))
unfolding improve serves
improve_cases role b w = elim (Bool-cases (serves role w)) [
  | inl e ↦ ground arith
  | inr e ↦ inl (ground arith)
]

find_first :
    (id : ℕ) (w : WorkerDescriptor) (ws : Map WorkerDescriptor) → find id ((id, w) ∷ ws) ≡ some w
unfolding find
find_first id w ws = ground arith

find-below :
    (id j : ℕ) (w v : WorkerDescriptor) (ws : Map WorkerDescriptor)
    → contains id ws ≡ false
    → find j ws ≡ some v
    → find j ((id, w) ∷ ws) ≡ some v
unfolding find
find-below id j w v ws new f = elim (Bool-cases (id == j)) [
  | inl e ↦ absurd (ground (arith, ap (λ (x : ℕ). contains x ws) (==→eq id j e), ap is_some f))
  | inr e ↦ rw e f
]

-- Behind the entries that were visited, the table.
best_loop-Registered :
    (role : ℕ) (table : Map WorkerDescriptor) (b : Best) (ws : Map WorkerDescriptor)
    → IsDistinct ws
    → ((id : ℕ) (w : WorkerDescriptor) → find id ws ≡ some w → find id table ≡ some w)
    → Registered role table b.worker
    → Registered role table (best_loop role b ws).worker
unfolding best_loop
best_loop-Registered role table b [] d sub h = h
best_loop-Registered role table b ((id, w) ∷ ws) d sub h =
    best_loop-Registered role table (improve role b w) ws d.1 below (elim (improve_cases role b w) [
      | inl e ↦ subst (Registered role table) (sym e) h
      | inr s ↦
          subst (Registered role table) (sym s.0)
            ((id, sub id w (find_first id w ws)), s.1, s.2, s.3)
    ])
  where
    below : (j : ℕ) (v : WorkerDescriptor) → find j ws ≡ some v → find j table ≡ some v
    below j v f = sub j v (find-below id j w v ws d.0 f)

route_request-some :
    (r : Runtime) (q : RouterRequest) (clock : ℕ → ℕ) (d : RouterDecision)
    → (route_request r q clock).1 ≡ some d
    → (p : WorkerDescriptor) × (e : WorkerDescriptor) × (best_worker role_prefill r.workers
        ≡ some p)
      × (best_worker role_decode r.workers ≡ some e)
      × (d ≡ decide q p e (cached_prefix clock q.token_count r.pages 0))
unfolding route_request
route_request-some r q clock d ok = elim (Option-cases (best_worker role_prefill r.workers)) [
  | inl n ↦ absurd (ground (arith, route_pair))
  | inr (p, f) ↦ elim (Option-cases (best_worker role_decode r.workers)) [
    | inl n ↦ absurd (ground (arith, route_pair))
    | inr (e, g) ↦ (p, e, f, g, ground (arith, route_pair))
  ]
]

-- Where the keys of the table of workers are distinct, a routing decision splits the tokens into a
-- cached prefix and a suffix, and the workers that it names are entries of the table, healthy,
-- with the model, one of the prefill role and one of the decode role.
pub route_request_split :
    (r : Runtime) (q : RouterRequest) (clock : ℕ → ℕ) (d : RouterDecision)
    → IsDistinct r.workers
    → (route_request r q clock).1 ≡ some d
    → (d.cached_prefix_tokens + d.suffix_tokens ≡ q.token_count)
      × ((p : WorkerDescriptor) × IsRegistered role_prefill r.workers p
          × (d.prefill_worker_id ≡ p.worker_id))
      × ((p : WorkerDescriptor) × IsRegistered role_decode r.workers p
          × (d.decode_worker_id ≡ p.worker_id))
unfolding best_worker decide
route_request_split r q clock d distinct ok =
    let found = route_request-some r q clock d ok in
    let small = cached_prefix-le clock q.token_count r.pages 0 (omega arith) in
    (
      omega (
        arith,
        small,
        ap (λ (x : RouterDecision). x.cached_prefix_tokens) found.4,
        ap (λ (x : RouterDecision). x.suffix_tokens) found.4,
      ),
      (
        found.0,
        subst (Registered role_prefill r.workers) found.2 (best role_prefill),
        ap (λ (x : RouterDecision). x.prefill_worker_id) found.4,
      ),
      (
        found.1,
        subst (Registered role_decode r.workers) found.3 (best role_decode),
        ap (λ (x : RouterDecision). x.decode_worker_id) found.4,
      ),
    )
  where
    best : (role : ℕ) → Registered role r.workers (best_worker role r.workers)
    best role =
        best_loop-Registered role r.workers (record { worker = none; best = 0 }) r.workers distinct
          (λ id w f. f) tt
