-- ===== src/Cluster/Leases.antt =====
-- Leases and manifests in src/disaggregated_serving.cpp. Each reading of the steady clock is an
-- argument.
use chromo_fold.Prelude.{ℕ, Bool, not, ◌||◌, Option, none, some, ltb, ◌==◌, if◌then◌else◌}
use chromo_fold.Prelude.Words.{add64}
use chromo_fold.Prelude.Map.{find, assign, upsert}
use chromo_fold.Cluster.Types.{PageId, Lease, PageManifest, Runtime, Status, success, failure}
use chromo_fold.Cluster.Keys.{page_key, fill_token}

count_stale : Runtime → Runtime
count_stale r = record r {
  counters = record r.counters {
    stale_generation_rejections = add64 r.counters.stale_generation_rejections 1;
  };
}

-- A lease that a call writes; `now` is read for the expiry.
unfoldable pub new_lease : Runtime → PageId → ℕ → ℕ → ℕ → Lease
new_lease r id worker generation now = record {
  owner_worker_id = worker;
  generation = generation;
  expires_at_millis = add64 now r.config.lease_duration_millis;
  token = fill_token id worker generation;
}

unfoldable pub lease_acquired : Runtime → PageId → Lease → Runtime
lease_acquired r id l = record r {
  leases = upsert (page_key id) l r.leases;
  counters = record r.counters { lease_acquires = add64 r.counters.lease_acquires 1 };
}

-- The clock is read once for the test and once for the expiry.
unfoldable pub acquire_lease : Runtime → PageId → ℕ → ℕ → ℕ → Runtime × Option Lease
unfolding new_lease lease_acquired
acquire_lease r id worker now later =
    if worker == 0 then (r, none) else elim (find (page_key id) r.leases) [
      | none ↦ (
        lease_acquired r id (new_lease r id worker 1 later),
        some (new_lease r id worker 1 later),
      )
      | some l ↦ if ltb now l.expires_at_millis then (r, none) else (
        lease_acquired r id (new_lease r id worker (add64 l.generation 1) later),
        some (new_lease r id worker (add64 l.generation 1) later),
      )
    ]

unfoldable pub stale : Lease → Lease → Bool
stale l current = not (l.generation == current.generation) || not (l.token == current.token)

lease_renewed : Runtime → PageId → Lease → Runtime
lease_renewed r id l = record r {
  leases = assign (page_key id) l r.leases;
  counters = record r.counters { lease_renews = add64 r.counters.lease_renews 1 };
}

unfoldable pub renew_lease : Runtime → PageId → Lease → ℕ → Runtime × Option Lease
unfolding stale count_stale lease_renewed
renew_lease r id current now = elim (find (page_key id) r.leases) [
  | none ↦ (count_stale r, none)
  | some l ↦
      let renewed = record l { expires_at_millis = add64 now r.config.lease_duration_millis } in
      if stale l current then (count_stale r, none) else (lease_renewed r id renewed, some renewed)
]

-- The manifest of the page, if there is one, takes the lease too.
unfoldable pub lease_transferred : Runtime → PageId → Lease → Runtime
lease_transferred r id l = record r {
  leases = assign (page_key id) l r.leases;
  pages = elim (find (page_key id) r.pages) [
    | none ↦ r.pages
    | some m ↦ assign (page_key id) (record m { lease = l }) r.pages
  ];
  counters = record r.counters { lease_transfers = add64 r.counters.lease_transfers 1 };
}

unfoldable pub transfer_lease : Runtime → PageId → Lease → ℕ → ℕ → Runtime × Option Lease
unfolding stale count_stale new_lease lease_transferred
transfer_lease r id current worker now =
    if worker == 0 then (r, none) else elim (find (page_key id) r.leases) [
      | none ↦ (count_stale r, none)
      | some l ↦
          let next = new_lease r id worker (add64 l.generation 1) now in
          if stale l current
          then (count_stale r, none)
          else (lease_transferred r id next, some next)
    ]

published : Runtime → PageManifest → Runtime
published r m = record r {
  pages = upsert (page_key m.page_id) m r.pages;
  counters = record r.counters {
    page_manifests_published = add64 r.counters.page_manifests_published 1;
  };
}

unfoldable pub publish_manifest : Runtime → PageManifest → Runtime × Status
unfolding stale count_stale published
publish_manifest r m =
    if m.payload_bytes == 0 || m.checksum == 0 || m.replica_count == 0
    then (r, failure)
    else elim (find (page_key m.page_id) r.leases) [
      | none ↦ (count_stale r, failure)
      | some l ↦ if stale l m.lease then (count_stale r, failure) else (published r m, success)
    ]
