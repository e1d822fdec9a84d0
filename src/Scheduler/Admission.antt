-- ===== src/Scheduler/Admission.antt =====
-- What cf_scheduler_admit (src/production_scheduler.cpp) decides, records and leaves alone.
use chromo_fold.Prelude.{
  ℕ, ◌+◌, ◌%◌, ◌≤◌, ◌≡◌, refl, ◌≢◌, ◌⊎◌, inl, inr, Bool, true, false, ◌&&◌, ◌||◌, some, arith, ◌==◌,
  if◌then◌else◌, Bool-cases, Option-cases, ap,
}
use chromo_fold.Prelude.Words.{add64, add32, u32_mod, u64_mod}
use chromo_fold.Prelude.Map.{find, contains, find-assign, find-emplace}
use chromo_fold.Scheduler.Types.{
  TenantState, RequestSpec, WorkerCapacity, Runtime, ScheduleDecision, Counters, Status, success,
  failure, admit_now, admit_queue, reject_quota, reject_model, reject_overload,
}
use chromo_fold.Scheduler.Select.{select_worker}
use chromo_fold.Scheduler.Admit.{charge, enrol, must_queue, queue_full, over_quota, admit}

abbrev pub IsRequest : RequestSpec → Type 0
IsRequest q =
    (q.request_id ≢ 0) × (q.tenant_id ≢ 0) × (q.prompt_tokens ≢ 0) × (q.max_completion_tokens ≢ 0)

-- The tables of two runtimes are the same.
abbrev SameTables : Runtime → Runtime → Type 0
SameTables r s =
    (s.tenants ≡ r.tenants)
    × (s.workers ≡ r.workers)
    × (s.requests ≡ r.requests)
    × (s.usage_records ≡ r.usage_records)

refused : Runtime → RequestSpec → Bool
refused r q =
    q.request_id == 0
    || q.tenant_id == 0
    || q.prompt_tokens == 0
    || q.max_completion_tokens == 0
    || r.shutting_down
    || contains q.request_id r.requests

-- An admission that succeeds with a rejection leaves every table as it was.
admit_rejected :
    (r : Runtime) (q : RequestSpec) (d : ScheduleDecision)
    → (admit r q d).2 ≡ success
    → (admit r q d).1.result ≢ admit_now
    → (admit r q d).1.result ≢ admit_queue
    → SameTables r (admit r q d).0
unfolding admit enrol
admit_rejected r q d ok a b = ground arith

-- Either an admission keeps the tables, or it enrols the request.
pub data Outcome (r : Runtime) (q : RequestSpec) (d : ScheduleDecision) : Type 0 where
  rejected :
      (c : Counters) (v : ℕ)
      → 2 ≤ v
      → c.cross_tenant_contamination ≡ r.counters.cross_tenant_contamination
      → c.dense_fallback_launches ≡ r.counters.dense_fallback_launches
      → admit r q d ≡ (record r { counters = c }, record d { result = v }, success)
      → Outcome r q d
  failed : admit r q d ≡ (r, d, failure) → Outcome r q d
  enrolled :
      (t : TenantState) (w : WorkerCapacity) (queued : Bool)
      → find q.tenant_id r.tenants ≡ some t
      → contains q.request_id r.requests ≡ false
      → admit r q d ≡ ((enrol r q t w queued).0, (enrol r q t w queued).1, success)
      → Outcome r q d

pub admit-Outcome : (r : Runtime) (q : RequestSpec) (d : ScheduleDecision) → Outcome r q d
unfolding admit refused
admit-Outcome r q d = elim (Bool-cases (refused r q)) [
  | inl no_ ↦ failed (ground arith)
  | inr yes_ ↦ elim (Option-cases (find q.tenant_id r.tenants)) [
    | inl e ↦ failed (ground arith)
    | inr (t, here) ↦ elim (Bool-cases (over_quota t q)) [
      | inl over ↦
          rejected (record r.counters { quota_rejections = add64 r.counters.quota_rejections 1 })
            reject_quota (omega arith) refl refl (ground arith)
      | inr under ↦ elim (Option-cases (select_worker t q r.workers)) [
        | inl e ↦
            rejected (record r.counters { model_rejections = add64 r.counters.model_rejections 1 })
              reject_model (omega arith) refl refl (ground arith)
        | inr (w, e) ↦ elim (Bool-cases (must_queue r t && queue_full r t)) [
          | inl full ↦
              rejected
                (record r.counters { overload_rejections = add64 r.counters.overload_rejections 1 })
                reject_overload (omega arith) refl refl (ground arith)
          | inr room ↦ enrolled t w (must_queue r t) here (ground arith) (ground arith)
        ]
      ]
    ]
  ]
]

module _ (r : Runtime) (q : RequestSpec) (t : TenantState) (w : WorkerCapacity) (queued : Bool)
    (here : find q.tenant_id r.tenants ≡ some t)
    (new : contains q.request_id r.requests ≡ false) where
  enrol_accepted :
      (find q.request_id (enrol r q t w queued).0.requests
        ≡ some (record {
          spec = q;
          worker_id = (enrol r q t w queued).1.worker_id;
          queued = (enrol r q t w queued).1.result == admit_queue;
        }))
      × (find q.tenant_id (enrol r q t w queued).0.tenants
          ≡ some (charge t q ((enrol r q t w queued).1.result == admit_queue)))
  unfolding enrol
  enrol_accepted = ground (
    arith,
    find-emplace q.request_id q.request_id
        (record { spec = q; worker_id = w.worker_id; queued = queued }) r.requests new,
    find-assign q.tenant_id q.tenant_id (charge t q queued) r.tenants,
  )

  enrol_isolates :
      (id k : ℕ)
      → id ≢ q.tenant_id
      → k ≢ q.request_id
      → (find id (enrol r q t w queued).0.tenants ≡ find id r.tenants)
        × (find k (enrol r q t w queued).0.requests ≡ find k r.requests)
        × ((enrol r q t w queued).0.workers ≡ r.workers)
  unfolding enrol
  enrol_isolates id k h g = ground (
    arith,
    find-emplace q.request_id k (record { spec = q; worker_id = w.worker_id; queued = queued })
        r.requests new,
    find-assign q.tenant_id id (charge t q queued) r.tenants,
  )

-- A tenant with one more request, which runs or waits.
abbrev pub IsCharged : TenantState → RequestSpec → Bool → TenantState → Type 0
IsCharged t q queued u =
    (u.policy ≡ t.policy)
    × (u.active ≡ (if queued then t.active else (t.active + 1) % u32_mod))
    × (u.queued ≡ (if queued then (t.queued + 1) % u32_mod else t.queued))
    × (u.prompt_tokens ≡ (t.prompt_tokens + q.prompt_tokens) % u64_mod)
    × (u.virtual_runtime
        ≡ (t.virtual_runtime + (q.prompt_tokens + q.max_completion_tokens) % u64_mod) % u64_mod)
    × (u.completion_tokens ≡ t.completion_tokens)
    × (u.gpu_micros ≡ t.gpu_micros)

charge-IsCharged :
    (t : TenantState) (q : RequestSpec) (queued : Bool) → IsCharged t q queued (charge t q queued)
unfolding charge add32 add64
charge-IsCharged t q true = ground arith
charge-IsCharged t q false = ground arith

-- A request that a registered tenant had accepted stands in the table, on the worker that the
-- decision names, waiting exactly if the decision says so; the tenant has one more running or one
-- more waiting request, its tokens and its virtual time grow by those of the request, modulo 2^32
-- and 2^64, and the rest of it is as it was.
pub admit_accepted :
    (r : Runtime) (q : RequestSpec) (d : ScheduleDecision) (t : TenantState)
    → find q.tenant_id r.tenants ≡ some t
    → (admit r q d).2 ≡ success
    → ((admit r q d).1.result ≡ admit_now) ⊎ ((admit r q d).1.result ≡ admit_queue)
    → (find q.request_id (admit r q d).0.requests
        ≡ some (record {
          spec = q;
          worker_id = (admit r q d).1.worker_id;
          queued = (admit r q d).1.result == admit_queue;
        }))
      × ((u : TenantState) × (find q.tenant_id (admit r q d).0.tenants ≡ some u)
          × IsCharged t q ((admit r q d).1.result == admit_queue) u)
admit_accepted r q d t here ok a = elim (admit-Outcome r q d) [
  | rejected c v two _ _ e ↦
      absurd (ground (arith, ap (λ (x : Runtime × ScheduleDecision × Status). x.1.result) e))
  | failed e ↦ absurd (cc (ap (λ (x : Runtime × ScheduleDecision × Status). x.2) e))
  | enrolled u w queued there new e ↦
      let same : u ≡ t = cc in
      let (stands, charged) = enrol_accepted r q u w queued there new in
      let b = (enrol r q u w queued).1.result == admit_queue in
      rw e (rw (← same) (stands, (charge u q b, charged, charge-IsCharged u q b)))
]

-- An admission touches no other tenant, no other request and no worker.
admit_isolates :
    (r : Runtime) (q : RequestSpec) (d : ScheduleDecision) (id k : ℕ)
    → id ≢ q.tenant_id
    → k ≢ q.request_id
    → (find id (admit r q d).0.tenants ≡ find id r.tenants)
      × (find k (admit r q d).0.requests ≡ find k r.requests)
      × ((admit r q d).0.workers ≡ r.workers)
admit_isolates r q d id k h g = elim (admit-Outcome r q d) [
  | rejected c v two _ _ e ↦ rw e (refl, refl, refl)
  | failed e ↦ rw e (refl, refl, refl)
  | enrolled t w queued here new e ↦ rw e (enrol_isolates r q t w queued here new id k h g)
]
