-- ===== src/Scheduler/Phases.antt =====
-- The life of a request in src/production_scheduler.cpp, as an abstract machine that all calls refine.
use chromo_fold.Prelude.{
  ℕ, ◌≡◌, refl, sym, ap, ◌∙◌, inl, inr, Bool, true, false, Option, some, none, List, [], ◌∷◌, All,
  arith, ◌==◌, ==→eq, Bool-cases, Option-cases,
}
use chromo_fold.Prelude.Map.{
  Map, find, contains, emplace, erase, find-emplace, find-erase, IsDistinct, emplace-IsDistinct,
  erase-IsDistinct,
}
use chromo_fold.Scheduler.{
  Call, registers_tenant, registers_worker, admits, completes, cancels, opens, recovers, drains,
  plans, audits, create, register_tenant, shutdown_audit, step, run,
}
use chromo_fold.Scheduler.Types.{Config, RequestSpec, RequestState, Runtime, ScheduleDecision}
use chromo_fold.Scheduler.Admit.{enrol}
use chromo_fold.Scheduler.Admission.{rejected, failed, enrolled, admit-Outcome}
use chromo_fold.Scheduler.Finish.{complete, cancel}
use chromo_fold.Scheduler.Workers.{
  register_worker, open_circuit, recover_circuit, drain_worker, plan_scale,
}

-- A request is not there, or stands on a worker, waiting or not.
pub data Phase : Type 0 where
  absent : Phase
  placed : Bool → ℕ → Phase

abbrev phase_of : Option RequestState → Phase
phase_of none = absent
phase_of (some q) = placed q.queued q.worker_id

abbrev pub phase : ℕ → Runtime → Phase
phase id r = phase_of (find id r.requests)

-- The calls that may take a request away.
abbrev ends : ℕ → Call → Bool
ends id (completes j generated gpu) = j == id
ends id (cancels j) = j == id
ends id c = false

-- The moves of a request under a call.
pub data Moves (id : ℕ) (c : Call) (p : Phase) : Phase → Type 0 where
  stays : Moves id c p p
  enters :
      (q : RequestSpec) (d : ScheduleDecision) (queued : Bool) (worker : ℕ)
      → c ≡ admits q d
      → q.request_id ≡ id
      → p ≡ absent
      → Moves id c p (placed queued worker)
  leaves : ends id c ≡ true → Moves id c p absent

-- What a call does to the table.
data Change (r : Runtime) (c : Call) : Type 0 where
  kept : (step r c).requests ≡ r.requests → Change r c
  entered :
      (q : RequestSpec) (d : ScheduleDecision) (s : RequestState)
      → c ≡ admits q d
      → contains q.request_id r.requests ≡ false
      → (step r c).requests ≡ emplace q.request_id s r.requests
      → Change r c
  ended :
      (j : ℕ)
      → ((id : ℕ) → ends id c ≡ (j == id))
      → (step r c).requests ≡ erase j r.requests
      → Change r c

complete-Change : (r : Runtime) (id generated gpu : ℕ) → Change r (completes id generated gpu)
unfolding step complete
complete-Change r id generated gpu = elim (Option-cases (find id r.requests)) [
  | inl e ↦ kept (ground arith)
  | inr (q, e) ↦ elim (Bool-cases (id == 0)) [
    | inl z ↦ kept (ground arith)
    | inr z ↦ elim (Bool-cases (contains id r.usage_records)) [
      | inl t ↦ kept (ground arith)
      | inr t ↦ elim (Option-cases (find q.spec.tenant_id r.tenants)) [
        | inl n ↦ kept (ground arith)
        | inr (x, n) ↦ ended id (λ j. refl) (ground arith)
      ]
    ]
  ]
]

cancel-Change : (r : Runtime) (id : ℕ) → Change r (cancels id)
unfolding step cancel
cancel-Change r id = elim (Option-cases (find id r.requests)) [
  | inl e ↦ kept (ground arith)
  | inr (q, e) ↦ elim (Bool-cases (id == 0)) [
    | inl z ↦ kept (ground arith)
    | inr z ↦ elim (Option-cases (find q.spec.tenant_id r.tenants)) [
      | inl n ↦ kept (ground arith)
      | inr (x, n) ↦ ended id (λ j. refl) (ground arith)
    ]
  ]
]

admit-Change : (r : Runtime) (q : RequestSpec) (d : ScheduleDecision) → Change r (admits q d)
unfolding step enrol
admit-Change r q d = elim (admit-Outcome r q d) [
  | rejected c v two x y e ↦ kept (ap (λ o. o.0.requests) e)
  | failed e ↦ kept (ap (λ o. o.0.requests) e)
  | enrolled t w b here new e ↦
      entered q d (record { spec = q; worker_id = w.worker_id; queued = b }) refl new
        (ap (λ o. o.0.requests) e)
]

step-Change : (r : Runtime) (c : Call) → Change r c
unfolding step register_tenant register_worker open_circuit recover_circuit drain_worker plan_scale
    shutdown_audit
step-Change r (admits q d) = admit-Change r q d
step-Change r (completes id generated gpu) = complete-Change r id generated gpu
step-Change r (cancels id) = cancel-Change r id
step-Change r (registers_tenant p) = kept (ground arith)
step-Change r (registers_worker w) = kept (ground arith)
step-Change r (opens id) = kept (ground arith)
step-Change r (recovers id) = kept (ground arith)
step-Change r (drains id) = kept (ground arith)
step-Change r plans = kept (ground arith)
step-Change r audits = kept (ground arith)

step-IsDistinct : (r : Runtime) (c : Call) → IsDistinct r.requests → IsDistinct (step r c).requests
step-IsDistinct r c h = elim (step-Change r c) [
  | kept e ↦ rw e h
  | entered q d s a new e ↦ rw e (emplace-IsDistinct q.request_id s r.requests h)
  | ended j a e ↦ rw e (erase-IsDistinct j r.requests h)
]

run-IsDistinct :
    (r : Runtime) (cs : List Call) → IsDistinct r.requests → IsDistinct (run r cs).requests
unfolding run
run-IsDistinct r [] h = h
run-IsDistinct r (c ∷ cs) h = run-IsDistinct (step r c) cs (step-IsDistinct r c h)

create-IsDistinct : (k : Config) (r : Runtime) → create k ≡ some r → IsDistinct r.requests
unfolding create
create-IsDistinct k r e = ground arith

not_there : (id : ℕ) (m : Map RequestState) → contains id m ≡ false → phase_of (find id m) ≡ absent
not_there id m h = elim (Option-cases (find id m)) [
  | inl e ↦ rw e refl
  | inr (q, e) ↦ absurd (ground arith)
]

step-Moves :
    (r : Runtime) (c : Call) (id : ℕ)
    → IsDistinct r.requests
    → Moves id c (phase id r) (phase id (step r c))
step-Moves r c id h = elim (step-Change r c) [
  | kept e ↦ rw e stays
  | entered q d s a new e ↦
      rw (e, find-emplace q.request_id id s r.requests new)
        (elim (Bool-cases (q.request_id == id)) [
          | inl t ↦
              let same = ==→eq q.request_id id t in
              rw t (
                enters q d s.queued s.worker_id a same (
                  not_there id r.requests (ap (λ (x : ℕ). contains x r.requests) (sym same) ∙ new)))
          | inr t ↦ rw t stays
        ])
  | ended j a e ↦
      rw (e, find-erase j id r.requests h)
        (elim (Bool-cases (j == id)) [ inl t ↦ rw t (leaves (a id ∙ t)) | inr t ↦ rw t stays ])
]

-- At any state of a run of a created runtime, a call moves each request as the abstract machine
-- does: it stays, or an admission of its number puts an absent one on a worker, or a completion or
-- cancellation of its number takes it away.
pub step_refines :
    (k : Config) (r : Runtime) (cs : List Call) (c : Call) (id : ℕ)
    → create k ≡ some r
    → Moves id c (phase id (run r cs)) (phase id (step (run r cs) c))
step_refines k r cs c id e =
    step-Moves (run r cs) c id (run-IsDistinct r cs (create-IsDistinct k r e))

placed_stays :
    (id : ℕ) (c : Call) (p p' : Phase) (b : Bool) (w : ℕ)
    → Moves id c p p'
    → ends id c ≡ false
    → p ≡ placed b w
    → p' ≡ placed b w
placed_stays id c p p' b w stays n e = e
placed_stays id c p p' b w (enters q d x y a s z) n e = absurd (ground arith)
placed_stays id c p p' b w (leaves t) n e = absurd (ground arith)

run_stays :
    (r : Runtime) (cs : List Call) (id : ℕ) (b : Bool) (w : ℕ)
    → IsDistinct r.requests
    → All (λ (c : Call). ends id c ≡ false) cs
    → phase id r ≡ placed b w
    → phase id (run r cs) ≡ placed b w
unfolding run
run_stays r [] id b w d h e = e
run_stays r (c ∷ cs) id b w d h e =
    run_stays (step r c) cs id b w (step-IsDistinct r c d) h.1
      (placed_stays id c (phase id r) (phase id (step r c)) b w (step-Moves r c id d) h.0 e)

-- A request that waits on a worker at a state of a run of a created runtime still waits there
-- after any calls none of which completes or cancels its number: no call starts it.
pub queued_waits :
    (k : Config) (r : Runtime) (cs ds : List Call) (id w : ℕ)
    → create k ≡ some r
    → phase id (run r cs) ≡ placed true w
    → All (λ (c : Call). ends id c ≡ false) ds
    → phase id (run (run r cs) ds) ≡ placed true w
queued_waits k r cs ds id w e p h =
    run_stays (run r cs) ds id true w (run-IsDistinct r cs (create-IsDistinct k r e)) h p
