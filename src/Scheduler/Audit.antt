-- ===== src/Scheduler/Audit.antt =====
-- Shutdown in src/production_scheduler.cpp.
use chromo_fold.Prelude.{
  ℕ, ◌≤◌, ◌≡◌, refl, ◌∙◌, ◌↔◌, Bool, true, some, [], ◌∷◌, List, arith, ap, length,
}
use chromo_fold.Prelude.Map.{Map, assign, erase}
use chromo_fold.Scheduler.{
  Call, registers_tenant, admits, completes, cancels, opens, recovers, drains, create,
  register_tenant, shutdown_audit, step, run,
}
use chromo_fold.Scheduler.Types.{
  Config, TenantState, RequestSpec, Runtime, ScheduleDecision, WorkerCapacity, success,
}
use chromo_fold.Scheduler.Admit.{enrol, admit, charge_counters}
use chromo_fold.Scheduler.Admission.{rejected, failed, enrolled, admit-Outcome}
use chromo_fold.Scheduler.Finish.{complete, cancel}
use chromo_fold.Scheduler.Workers.{
  register_worker, open_circuit, recover_circuit, drain_worker, plan_scale,
}

-- No call writes the counters that the audit tests.
abbrev IsClean : Runtime → Type 0
IsClean r = (r.counters.cross_tenant_contamination ≡ 0) × (r.counters.dense_fallback_launches ≡ 0)

enrol-IsClean :
    (r : Runtime) (q : RequestSpec) (t : TenantState) (w : WorkerCapacity) (b : Bool)
    → IsClean r
    → IsClean (enrol r q t w b).0
unfolding enrol charge_counters
enrol-IsClean r q t w b h = ground arith

admit-IsClean :
    (r : Runtime) (q : RequestSpec) (d : ScheduleDecision) → IsClean r → IsClean (admit r q d).0
admit-IsClean r q d h = elim (admit-Outcome r q d) [
  | rejected c v two x y e ↦ rw e (x ∙ h.0, y ∙ h.1)
  | failed e ↦ rw e h
  | enrolled t w b here new e ↦ rw e (enrol-IsClean r q t w b h)
]

step-IsClean : (r : Runtime) (c : Call) → IsClean r → IsClean (step r c)
unfolding step register_tenant register_worker complete cancel open_circuit recover_circuit
    drain_worker plan_scale shutdown_audit
step-IsClean r (registers_tenant p) h = ground arith
step-IsClean r (admits q d) h = admit-IsClean r q d h
step-IsClean r _ h = ground arith

run-IsClean : (r : Runtime) (cs : List Call) → IsClean r → IsClean (run r cs)
unfolding run
run-IsClean r [] h = h
run-IsClean r (c ∷ cs) h = run-IsClean (step r c) cs (step-IsClean r c h)

create-IsClean : (c : Config) (r : Runtime) → create c ≡ some r → IsClean r
unfolding create
create-IsClean c r e = ground arith

length-eq_zero {ℓ} : {A : Type ℓ} (l : List A) → length l ≡ 0 → l ≡ []
length-eq_zero [] e = refl
length-eq_zero (x ∷ l) e = absurd (omega arith)

-- After any calls from a fresh runtime, the audit succeeds exactly when no request is left.
pub shutdown_audit_iff :
    (c : Config) (r : Runtime) (cs : List Call)
    → create c ≡ some r
    → ((shutdown_audit (run r cs)).1 ≡ success) ↔ ((run r cs).requests ≡ [])
unfolding shutdown_audit
shutdown_audit_iff c r cs e =
    let clean = run-IsClean r cs (create-IsClean c r e) in
    (
      λ ok. length-eq_zero (run r cs).requests (ground (arith, clean)),
      λ empty. ground (arith, clean, ap length empty),
    )

length-assign {ℓ} : {V : Type ℓ} (k : ℕ) (v : V) (m : Map V) → length (assign k v m) ≡ length m
unfolding assign
length-assign k v [] = refl
length-assign k v ((j, w) ∷ m) = ground (arith, length-assign k v m)

length-erase-le {ℓ} : {V : Type ℓ} (k : ℕ) (m : Map V) → length (erase k m) ≤ length m
unfolding erase
length-erase-le k [] = omega arith
length-erase-le k ((j, w) ∷ m) = ground (arith, length-erase-le k m)

record IsShutFrom (r s : Runtime) : Type 0 where
  shut : s.shutting_down ≡ true
  requests : length s.requests ≤ length r.requests
  tenants : length s.tenants ≡ length r.tenants
  workers : length s.workers ≡ length r.workers

step-IsShutFrom : (r : Runtime) (c : Call) → r.shutting_down ≡ true → IsShutFrom r (step r c)
unfolding step register_tenant register_worker admit complete cancel open_circuit recover_circuit
    drain_worker plan_scale shutdown_audit
step-IsShutFrom r (registers_tenant p) h = ground arith
step-IsShutFrom r (opens id) h = grind (arith, length-assign, length-erase-le)
step-IsShutFrom r (recovers id) h = grind (arith, length-assign, length-erase-le)
step-IsShutFrom r (drains id) h = grind (arith, length-assign, length-erase-le)
step-IsShutFrom r (completes id g u) h = grind (arith, length-assign, length-erase-le)
step-IsShutFrom r (cancels id) h = grind (arith, length-assign, length-erase-le)
step-IsShutFrom r _ h = ground arith

-- Once shut down, a runtime stays so through any calls, and takes in no tenant, no worker and no
-- request.
pub run_shut :
    (r : Runtime) (cs : List Call)
    → r.shutting_down ≡ true
    → ((run r cs).shutting_down ≡ true)
      × (length (run r cs).requests ≤ length r.requests)
      × (length (run r cs).tenants ≡ length r.tenants)
      × (length (run r cs).workers ≡ length r.workers)
unfolding run
run_shut r [] h = (h, omega arith, refl, refl)
run_shut r (c ∷ cs) h =
    let s = step-IsShutFrom r c h in ground (arith, s, run_shut (step r c) cs s.shut)
