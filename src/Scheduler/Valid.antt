-- ===== src/Scheduler/Valid.antt =====
-- Registration, admission and the end of a request keep the books (src/production_scheduler.cpp).
use chromo_fold.Prelude.{
  ℕ, ◌+◌, ◌-◌, ◌≡◌, refl, inl, inr, true, false, some, arith, if◌then◌else◌, Bool-cases,
  Option-cases, if_elim,
}
use chromo_fold.Prelude.Words.{add32, add64, add32_small}
use chromo_fold.Prelude.Map.{find, contains, assign, erase, total}
use chromo_fold.Scheduler.{register_tenant}
use chromo_fold.Scheduler.Types.{
  TenantPolicy, TenantState, RequestSpec, RequestState, Runtime, WorkerCapacity, ScheduleDecision,
  Status,
}
use chromo_fold.Scheduler.Select.{select_worker}
use chromo_fold.Scheduler.Admit.{
  sum_tenants, enrol, must_queue, queue_full, over_quota, admit, admit_tenant, admit_worker,
}
use chromo_fold.Scheduler.Finish.{discharge, settle, complete, cancel}
use chromo_fold.Scheduler.Books.{
  IsBalanced, IsWithin, InRange, emplace-IsBalanced, enrol-IsBalanced, discharge-IsBalanced,
  emplace-IsWithin, assign-IsWithin, sum_tenants-eq-total,
}

pub record IsValid (r : Runtime) : Type 0 where
  pub balanced : IsBalanced r.tenants r.requests
  pub within : IsWithin r.config r.tenants

-- The books name nothing but these three fields.
pub same_books :
    {r s : Runtime}
    → s.config ≡ r.config
    → s.tenants ≡ r.tenants
    → s.requests ≡ r.requests
    → IsValid r
    → IsValid s
same_books {r} {s} c t q v = record { balanced = rw (t, q) v.balanced; within = rw (c, t) v.within }

pub register_tenant-IsValid :
    (r : Runtime) (p : TenantPolicy) → IsValid r → InRange p → IsValid (register_tenant r p).0
unfolding register_tenant
register_tenant-IsValid r p v range =
    if_elim (λ (x : Runtime × Status). IsValid x.0) _ (λ _. v)
      λ free.
        let new : contains p.tenant_id r.tenants ≡ false = ground arith in
        record {
          balanced = emplace-IsBalanced r.tenants r.requests v.balanced p.tenant_id _ new refl refl;
          within = emplace-IsWithin r.config r.tenants v.within p.tenant_id _ new refl refl range;
        }

abbrev IsValidAfter : Runtime × Status → Type 0
IsValidAfter x = IsValid x.0

-- With the books kept, the loops add without wrap.
module _ (r : Runtime) (v : IsValid r) where
  pub active_total_exact : sum_tenants (λ t. t.active) r.tenants 0 ≡ total (λ t. t.active) r.tenants
  active_total_exact =
      sum_tenants-eq-total (λ t. t.active) r.tenants
        (omega (arith, v.within.active_total, v.within.active_range))

  pub queued_total_exact : sum_tenants (λ t. t.queued) r.tenants 0 ≡ total (λ t. t.queued) r.tenants
  queued_total_exact =
      sum_tenants-eq-total (λ t. t.queued) r.tenants
        (omega (arith, v.within.queued_total, v.within.queued_range))

  module _ (q : RequestSpec) (t : TenantState) (here : find q.tenant_id r.tenants ≡ some t) where
    enrol_running :
        (w : WorkerCapacity)
        → contains q.request_id r.requests ≡ false
        → must_queue r t ≡ false
        → IsValid (enrol r q t w false).0
    unfolding enrol must_queue
    enrol_running w new room = record {
      balanced =
          enrol-IsBalanced r.tenants r.requests v.balanced q.tenant_id t here q.request_id _ _ new
            refl counted refl;
      within =
          assign-IsWithin r.config r.tenants v.within q.tenant_id t _ here refl
            (ground (arith, counted)) (v.within.waiting q.tenant_id t here)
            (ground (arith, counted, active_total_exact, v.within.active_total))
            (omega (arith, v.within.queued_total));
    }
      where
        counted : add32 t.active 1 ≡ t.active + 1
        counted = add32_small t.active 1 (
            ground
              (arith, v.within.policies q.tenant_id t here, v.within.concurrent q.tenant_id t here))

    enrol_queued :
        (w : WorkerCapacity)
        → contains q.request_id r.requests ≡ false
        → queue_full r t ≡ false
        → IsValid (enrol r q t w true).0
    unfolding enrol queue_full
    enrol_queued w new room = record {
      balanced =
          enrol-IsBalanced r.tenants r.requests v.balanced q.tenant_id t here q.request_id _ _ new
            refl refl counted;
      within =
          assign-IsWithin r.config r.tenants v.within q.tenant_id t _ here refl
            (v.within.concurrent q.tenant_id t here) (ground (arith, counted))
            (omega (arith, v.within.active_total))
            (ground (arith, counted, queued_total_exact, v.within.queued_total));
    }
      where
        counted : add32 t.queued 1 ≡ t.queued + 1
        counted = add32_small t.queued 1 (
            ground
              (arith, v.within.policies q.tenant_id t here, v.within.waiting q.tenant_id t here))

    admit_worker-IsValid :
        (d : ScheduleDecision) (w : WorkerCapacity)
        → contains q.request_id r.requests ≡ false
        → IsValid (admit_worker r q d t w).0
    unfolding admit_worker
    admit_worker-IsValid d w new = elim (Bool-cases (must_queue r t)) [
      | inl waits ↦ elim (Bool-cases (queue_full r t)) [
        | inl full ↦ rw (waits, full) (same_books refl refl refl v)
        | inr room ↦ rw (waits, room) (enrol_queued w new room)
      ]
      | inr runs ↦ rw runs (enrol_running w new runs)
    ]

    admit_tenant-IsValid :
        (d : ScheduleDecision)
        → contains q.request_id r.requests ≡ false
        → IsValid (admit_tenant r q d t).0
    unfolding admit_tenant
    admit_tenant-IsValid d new = elim (Bool-cases (over_quota t q)) [
      | inl over ↦ rw over (same_books refl refl refl v)
      | inr under ↦ elim (Option-cases (select_worker t q r.workers)) [
        | inl e ↦ rw (under, e, admit_tenant) (same_books refl refl refl v)
        | inr (w, e) ↦ rw (under, e, admit_tenant) (admit_worker-IsValid d w new)
      ]
    ]

  discharged-IsValid :
      (k : ℕ) (s : RequestState) (t t' : TenantState)
      → find k r.requests ≡ some s
      → find s.spec.tenant_id r.tenants ≡ some t
      → t'.policy ≡ t.policy
      → t'.active ≡ (if s.queued then t.active else t.active - 1)
      → t'.queued ≡ (if s.queued then t.queued - 1 else t.queued)
      → IsBalanced (assign s.spec.tenant_id t' r.tenants) (erase k r.requests)
        × IsWithin r.config (assign s.spec.tenant_id t' r.tenants)
  discharged-IsValid k s t t' held here p a q = (
    discharge-IsBalanced r.tenants r.requests v.balanced s.spec.tenant_id t here k s t' held refl a
        q,
    assign-IsWithin r.config r.tenants v.within s.spec.tenant_id t t' here p
        (ground (arith, v.within.concurrent s.spec.tenant_id t here))
        (ground (arith, v.within.waiting s.spec.tenant_id t here))
        (ground (arith, v.within.active_total)) (ground (arith, v.within.queued_total)),
  )

  pub admit-IsValid : (q : RequestSpec) (d : ScheduleDecision) → IsValid (admit r q d).0
  unfolding admit
  admit-IsValid q d = elim (Option-cases (find q.tenant_id r.tenants)) [
    | inl e ↦ rw (e, admit) (if_elim valid_admission _ (λ _. v) (λ _. v))
    | inr (t, e) ↦
        rw (e, admit)
          (if_elim valid_admission _ (λ _. v) (λ free. admit_tenant-IsValid q t e d (ground arith)))
  ]
    where
      valid_admission : Runtime × ScheduleDecision × Status → Type 0
      valid_admission x = IsValid x.0

  settle-IsValid :
      (id : ℕ) (s : RequestState) (generated gpu : ℕ)
      → find id r.requests ≡ some s
      → IsValid (settle r id s generated gpu).0
  unfolding settle
  settle-IsValid id s generated gpu e = elim (Bool-cases (contains id r.usage_records)) [
    | inl billed ↦ rw (billed, settle) (same_books refl refl refl v)
    | inr fresh ↦ elim (Option-cases (find s.spec.tenant_id r.tenants)) [
      | inl gone ↦ rw (fresh, gone, settle) v
      | inr (t, here) ↦
          let kept = discharged-IsValid id s t (charged t) e here refl refl refl in
          rw (fresh, here, settle) (record { balanced = kept.0; within = kept.1 })
    ]
  ]
    where
      charged : TenantState → TenantState
      charged t = record (discharge t s) {
        completion_tokens = add64 t.completion_tokens generated;
        gpu_micros = add64 t.gpu_micros gpu;
      }

  pub complete-IsValid : (id generated gpu : ℕ) → IsValid (complete r id generated gpu).0
  unfolding complete
  complete-IsValid id generated gpu = elim (Option-cases (find id r.requests)) [
    | inl e ↦ rw (e, complete) (if_elim IsValidAfter _ (λ _. v) (λ _. v))
    | inr (s, e) ↦
        rw (e, complete)
          (if_elim IsValidAfter _ (λ _. v) (λ _. settle-IsValid id s generated gpu e))
  ]

  pub cancel-IsValid : (id : ℕ) → IsValid (cancel r id).0
  unfolding cancel
  cancel-IsValid id = elim (Option-cases (find id r.requests)) [
    | inl e ↦ rw (e, cancel) (if_elim IsValidAfter _ (λ _. v) (λ _. v))
    | inr (s, e) ↦ elim (Option-cases (find s.spec.tenant_id r.tenants)) [
      | inl gone ↦ rw (e, gone, cancel) (if_elim IsValidAfter _ (λ _. v) (λ _. v))
      | inr (t, here) ↦
          let kept = discharged-IsValid id s t (discharge t s) e here refl refl refl in
          rw (e, here, cancel)
            (if_elim IsValidAfter _ (λ _. v) (λ _. record { balanced = kept.0; within = kept.1 }))
    ]
  ]
