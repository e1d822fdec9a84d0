-- ===== src/Scheduler/Lifecycle.antt =====
-- The end of a request, and workers that leave service (src/production_scheduler.cpp).
use chromo_fold.Prelude.{
  ap, ◌∙◌, is_some, ℕ, ◌≡◌, refl, ◌≢◌, inl, inr, true, false, some, none, [], ◌∷◌, arith,
  Option-cases,
}
use chromo_fold.Prelude.Map.{Map, find, contains, find-assign, find-emplace, find-erase, IsDistinct}
use chromo_fold.Scheduler.Admit.{admit, enrol}
use chromo_fold.Scheduler.Admission.{rejected, failed, enrolled, admit-Outcome}
use chromo_fold.Scheduler.Types.{
  ScheduleDecision, TenantState, RequestSpec, RequestState, Runtime, WorkerCapacity, success,
  failure, worker_draining, worker_healthy, worker_quarantined, circuit_closed, circuit_open,
}
use chromo_fold.Scheduler.Select.{eligible}
use chromo_fold.Scheduler.Finish.{finish, complete}
use chromo_fold.Scheduler.Workers.{in_use, open_circuit, recover_circuit, drain_worker}

complete-missing :
    (r : Runtime) (id generated gpu : ℕ)
    → find id r.requests ≡ none
    → complete r id generated gpu ≡ (r, failure)
unfolding complete
complete-missing r id generated gpu e = ground arith

complete-success :
    (r : Runtime) (id generated gpu : ℕ)
    → (complete r id generated gpu).1 ≡ success
    → (q : RequestState) × (t : TenantState) × (contains id r.usage_records ≡ false)
      × (complete r id generated gpu ≡ (finish r id q t generated gpu, success))
unfolding complete
complete-success r id generated gpu ok = elim (Option-cases (find id r.requests)) [
  | inl e ↦ absurd (ground arith)
  | inr (q, e) ↦ elim (Option-cases (find q.spec.tenant_id r.tenants)) [
    | inl gone ↦ absurd (ground arith)
    | inr (t, here) ↦ (q, t, ground arith, ground arith)
  ]
]

finish_tables :
    (r : Runtime) (id : ℕ) (q : RequestState) (t : TenantState) (generated gpu : ℕ)
    → IsDistinct r.requests
    → contains id r.usage_records ≡ false
    → (find id (finish r id q t generated gpu).requests ≡ none)
      × (find id (finish r id q t generated gpu).usage_records ≡ some gpu)
unfolding finish
finish_tables r id q t generated gpu d new =
    ground (arith, find-erase id id r.requests d, find-emplace id id gpu r.usage_records new)

-- On distinct request keys, a request that is completed is gone, its number is billed, and a
-- second completion of it fails and changes nothing.
pub complete_once :
    (r : Runtime) (id generated gpu again more : ℕ)
    → IsDistinct r.requests
    → (complete r id generated gpu).1 ≡ success
    → let r' = (complete r id generated gpu).0 in
      (find id r'.requests ≡ none)
      × (find id r'.usage_records ≡ some gpu)
      × (complete r' id again more ≡ (r', failure))
complete_once r id generated gpu again more d ok =
    let done = complete-success r id generated gpu ok in
    let tables = finish_tables r id done.0 done.1 generated gpu d done.2 in
    rw done.3 (
      tables.0,
      tables.1,
      complete-missing (finish r id done.0 done.1 generated gpu) id again more tables.0,
    )

complete-billed :
    (r : Runtime) (id generated gpu : ℕ)
    → contains id r.usage_records ≡ true
    → ((complete r id generated gpu).1 ≡ failure)
      × ((complete r id generated gpu).0.requests ≡ r.requests)
      × ((complete r id generated gpu).0.tenants ≡ r.tenants)
unfolding complete
complete-billed r id generated gpu billed = ground arith

admit_usage_records :
    (r : Runtime) (q : RequestSpec) (d : ScheduleDecision)
    → (admit r q d).0.usage_records ≡ r.usage_records
unfolding enrol
admit_usage_records r q d = elim (admit-Outcome r q d) [
  | rejected c v two x y e ↦ rw e refl
  | failed e ↦ rw e refl
  | enrolled t w b here new e ↦ rw e refl
]

-- On distinct request keys, after a request is completed and its number is put up for admission
-- again, a completion of the number fails, and leaves the requests and the tenants as they are, so
-- that a request admitted under it keeps its place.
pub complete_reused :
    (r : Runtime) (q : RequestSpec) (d : ScheduleDecision) (generated gpu again more : ℕ)
    → IsDistinct r.requests
    → (complete r q.request_id generated gpu).1 ≡ success
    → let s = (admit (complete r q.request_id generated gpu).0 q d).0 in
      let o = complete s q.request_id again more in
      (o.1 ≡ failure) × (o.0.requests ≡ s.requests) × (o.0.tenants ≡ s.tenants)
complete_reused r q d generated gpu again more distinct ok =
    let once = complete_once r q.request_id generated gpu again more distinct ok in
    complete-billed (admit (complete r q.request_id generated gpu).0 q d).0 q.request_id again more
      (ap (λ m. contains q.request_id m)
          (admit_usage_records (complete r q.request_id generated gpu).0 q d)
        ∙ ap is_some once.1)

in_use-find :
    (id k : ℕ) (q : RequestState) (qs : Map RequestState)
    → in_use id qs ≡ false
    → find k qs ≡ some q
    → q.worker_id ≢ id
unfolding in_use find
in_use-find id k q [] free f = absurd (cc)
in_use-find id k q ((j, s) ∷ qs) free f = ground (arith, in_use-find id k q qs)

drain_worker-success :
    (r : Runtime) (id : ℕ)
    → (drain_worker r id).1 ≡ success
    → (in_use id r.requests ≡ false)
      × ((drain_worker r id).0.requests ≡ r.requests)
      × ((w : WorkerCapacity)
          → find id (drain_worker r id).0.workers ≡ some w
          → w.state ≡ worker_draining)
unfolding drain_worker
drain_worker-success r id ok = elim (Option-cases (find id r.workers)) [
  | inl e ↦ absurd (ground arith)
  | inr (w, e) ↦ (
    ground arith,
    ground arith,
    λ v f. ground (arith, find-assign id id (record w { state = worker_draining }) r.workers),
  )
]

-- After a drain that succeeds, no request stands on the worker, and the worker is not eligible for
-- any.
pub drain_worker_safe :
    (r : Runtime) (id : ℕ)
    → (drain_worker r id).1 ≡ success
    → let r' = (drain_worker r id).0 in
      ((k : ℕ) (q : RequestState) → find k r'.requests ≡ some q → q.worker_id ≢ id)
      × ((w : WorkerCapacity) (q : RequestSpec)
          → find id r'.workers ≡ some w
          → eligible q w ≡ false)
unfolding eligible
drain_worker_safe r id ok =
    let done = drain_worker-success r id ok in
    (
      λ k q f. in_use-find id k q r.requests done.0 (rw done.1 at f),
      λ w q f. ground (arith, done.2 w f),
    )

abbrev opened : WorkerCapacity → WorkerCapacity
opened w = record w { circuit_state = circuit_open; state = worker_quarantined }

abbrev recovered : WorkerCapacity → WorkerCapacity
recovered w = record w { circuit_state = circuit_closed; state = worker_healthy }

module _ (r : Runtime) (id : ℕ) (w : WorkerCapacity) (here : find id r.workers ≡ some w) where
  open_circuit-find : id ≢ 0 → find id (open_circuit r id).0.workers ≡ some (opened w)
  unfolding open_circuit
  open_circuit-find h = ground (arith, find-assign id id (opened w) r.workers)

  recover_circuit-find :
      id ≢ 0
      → w.circuit_state ≡ circuit_open
      → ((recover_circuit r id).1 ≡ success)
        × (find id (recover_circuit r id).0.workers ≡ some (recovered w))
  unfolding recover_circuit
  recover_circuit-find h o = ground (arith, find-assign id id (recovered w) r.workers)

  recover_circuit_closed : w.circuit_state ≡ circuit_closed → recover_circuit r id ≡ (r, failure)
  unfolding recover_circuit
  recover_circuit_closed c = ground arith

  opened-eligible : (q : RequestSpec) → w.circuit_state ≡ circuit_open → eligible q w ≡ false
  unfolding eligible
  opened-eligible q o = ground arith

-- An open circuit shuts a registered worker out; a recovery after it succeeds and puts the worker
-- back as healthy, in whatever state it was before, and a second recovery fails and changes
-- nothing.
open_recover :
    (r : Runtime) (id : ℕ) (w : WorkerCapacity)
    → id ≢ 0
    → find id r.workers ≡ some w
    → let o = (open_circuit r id).0 in
      ((v : WorkerCapacity) (q : RequestSpec) → find id o.workers ≡ some v → eligible q v ≡ false)
      × ((recover_circuit o id).1 ≡ success)
      × (find id (recover_circuit o id).0.workers
          ≡ some (record w { circuit_state = circuit_closed; state = worker_healthy }))
      × (recover_circuit (recover_circuit o id).0 id ≡ ((recover_circuit o id).0, failure))
open_recover r id w h here =
    let o = open_circuit-find r id w here h in
    let b = recover_circuit-find (open_circuit r id).0 id (opened w) o h refl in
    (
      λ v q f. opened-eligible (open_circuit r id).0 id v f q (cc (o, f)),
      b.0,
      b.1,
      recover_circuit_closed (recover_circuit (open_circuit r id).0 id).0 id (recovered w) b.1 refl,
    )
