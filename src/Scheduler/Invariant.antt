-- ===== src/Scheduler/Invariant.antt =====
-- Every call of src/production_scheduler.cpp keeps the books.
use chromo_fold.Prelude.{ℕ, ◌<◌, ◌≡◌, refl, some, [], ◌∷◌, List, arith, All}
use chromo_fold.Prelude.Words.{u32_mod}
use chromo_fold.Prelude.Map.{find, total}
use chromo_fold.Scheduler.{
  Call, registers_tenant, registers_worker, admits, completes, cancels, opens, recovers, drains,
  plans, audits, create, shutdown_audit, step, run,
}
use chromo_fold.Scheduler.Types.{Config, Runtime, WorkerCapacity}
use chromo_fold.Scheduler.Workers.{
  register_worker, open_circuit, recover_circuit, drain_worker, plan_scale,
}
use chromo_fold.Scheduler.Books.{IsBalanced, IsWithin, InRange}
use chromo_fold.Scheduler.Valid.{
  IsValid, same_books, register_tenant-IsValid, admit-IsValid, complete-IsValid, cancel-IsValid,
}

-- The calls on workers, and the audit, leave the books alone.
module _ (r : Runtime) where
  abbrev KeepsBooks : Runtime → Type 0
  KeepsBooks s = (s.config ≡ r.config) × (s.tenants ≡ r.tenants) × (s.requests ≡ r.requests)

  register_worker_books : (w : WorkerCapacity) → KeepsBooks (register_worker r w).0
  unfolding register_worker
  register_worker_books w = ground arith

  open_circuit_books : (id : ℕ) → KeepsBooks (open_circuit r id).0
  unfolding open_circuit
  open_circuit_books id = ground arith

  recover_circuit_books : (id : ℕ) → KeepsBooks (recover_circuit r id).0
  unfolding recover_circuit
  recover_circuit_books id = ground arith

  drain_worker_books : (id : ℕ) → KeepsBooks (drain_worker r id).0
  unfolding drain_worker
  drain_worker_books id = ground arith

  plan_scale_books : KeepsBooks (plan_scale r).0
  unfolding plan_scale
  plan_scale_books = ground arith

  shutdown_audit_books : KeepsBooks (shutdown_audit r).0
  unfolding shutdown_audit
  shutdown_audit_books = (refl, refl, refl)

from_books : {r s : Runtime} → KeepsBooks r s → IsValid r → IsValid s
from_books k v = same_books k.0 k.1 k.2 v

-- A policy that a call registers keeps to the range of its fields.
abbrev InRangeCall : Call → Type 0
InRangeCall (registers_tenant p) = InRange p
InRangeCall (registers_worker w) = Unit {0}
InRangeCall (admits q d) = Unit {0}
InRangeCall (completes id generated gpu) = Unit {0}
InRangeCall (cancels id) = Unit {0}
InRangeCall (opens id) = Unit {0}
InRangeCall (recovers id) = Unit {0}
InRangeCall (drains id) = Unit {0}
InRangeCall plans = Unit {0}
InRangeCall audits = Unit {0}

-- Each call on a runtime whose books are in order leaves them in order, if a policy that it
-- registers has 32-bit limits.
step-IsValid : (r : Runtime) (c : Call) → IsValid r → InRangeCall c → IsValid (step r c)
unfolding step
step-IsValid r (registers_tenant p) v range = register_tenant-IsValid r p v range
step-IsValid r (registers_worker w) v range = from_books (register_worker_books r w) v
step-IsValid r (admits q d) v range = admit-IsValid r v q d
step-IsValid r (completes id generated gpu) v range = complete-IsValid r v id generated gpu
step-IsValid r (cancels id) v range = cancel-IsValid r v id
step-IsValid r (opens id) v range = from_books (open_circuit_books r id) v
step-IsValid r (recovers id) v range = from_books (recover_circuit_books r id) v
step-IsValid r (drains id) v range = from_books (drain_worker_books r id) v
step-IsValid r plans v range = from_books (plan_scale_books r) v
step-IsValid r audits v range = from_books (shutdown_audit_books r) v

run-IsValid : (r : Runtime) (cs : List Call) → IsValid r → All InRangeCall cs → IsValid (run r cs)
unfolding run
run-IsValid r [] v range = v
run-IsValid r (c ∷ cs) v range = run-IsValid (step r c) cs (step-IsValid r c v range.0) range.1

IsBalanced-empty : IsBalanced [] []
unfolding total find
IsBalanced-empty = record {
  tenants_distinct = tt;
  requests_distinct = tt;
  active_counted = λ id t e. cc;
  queued_counted = λ id t e. cc;
  owned = λ k q e. cc;
}

IsWithin-empty :
    (c : Config) → c.max_active_requests < u32_mod → c.max_queued_requests < u32_mod → IsWithin c []
unfolding total find
IsWithin-empty c a q = record {
  active_range = a;
  queued_range = q;
  active_total = omega arith;
  queued_total = omega arith;
  policies = λ id t e. cc;
  concurrent = λ id t e. cc;
  waiting = λ id t e. cc;
}

create_books :
    (c : Config) (r : Runtime)
    → create c ≡ some r
    → (r.config ≡ c) × (r.tenants ≡ []) × (r.requests ≡ [])
unfolding create
create_books c r e = ground arith

create-IsValid :
    (c : Config) (r : Runtime)
    → c.max_active_requests < u32_mod
    → c.max_queued_requests < u32_mod
    → create c ≡ some r
    → IsValid r
create-IsValid c r a q e =
    let books = create_books c r e in
    record {
      balanced = rw (books.1, books.2) IsBalanced-empty;
      within = rw (books.0, books.1) (IsWithin-empty c a q);
    }

-- Whatever the calls after a successful cf_scheduler_create with 32-bit limits and policies, the
-- books are in order.
pub run-create-IsValid :
    (c : Config) (r : Runtime) (cs : List Call)
    → c.max_active_requests < u32_mod
    → c.max_queued_requests < u32_mod
    → create c ≡ some r
    → All InRangeCall cs
    → IsValid (run r cs)
run-create-IsValid c r cs a q e range = run-IsValid r cs (create-IsValid c r a q e) range
