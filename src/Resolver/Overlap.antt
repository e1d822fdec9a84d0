-- ===== src/Resolver/Overlap.antt =====
-- Batches of src/cuda/multisequence_cuda_resolver.cu among other calls. cf_ms_cuda_execute_batch_async
-- holds the mutex while it takes its snapshots, launches its kernels without it, and holds it again while
-- it makes the snapshots pending, or gives them back after an exception. Other calls, batches included,
-- run in between, in any order; the counters of a launch, which it writes without the mutex, are one step.
use chromo_fold.Prelude.{
  ℕ, zero, suc, Option, none, some, List, [], ◌∷◌, ◌==◌, if◌then◌else◌, length,
}
use chromo_fold.Resolver.{Call, step}
use chromo_fold.Resolver.Types.{BatchItem, Snapshot, Error, Resolver, passes, stops}
use chromo_fold.Resolver.Device.{cuda_check}
use chromo_fold.Resolver.Batches.{
  acquire_all, count_batch, count_launch, pend_all, batch_failed, batch_executed,
}

-- Where a thread stands in the function: at its launches, with the items that are left, or in the
-- handler of an exception.
pub data Stage : Type 0 where
  launching : List BatchItem → Stage
  failing : Error → Stage

-- The locals of a thread in the function.
pub record Running : Type 0 where
  pub stage : Stage
  pub snapshots : List Snapshot

pub record System : Type 0 where
  pub resolver : Resolver
  pub batches : List Running

-- No thread is in the function.
abbrev pub idle : Resolver → System
idle r = record { resolver = r; batches = [] }

-- The first critical section.
unfoldable pub begin : List BatchItem → Resolver → Resolver × Option Running
unfolding acquire_all count_batch
begin items r = if length items == 0 then (r, none) else elim (acquire_all items r) [
  | stops e ss r' ↦ (r', some (record { stage = failing e; snapshots = ss }))
  | passes ss r' ↦ (count_batch items r', some (record { stage = launching items; snapshots = ss }))
]

-- A launch, then the second critical section, or the one of the handler.
unfoldable pub advance : Stage → List Snapshot → Resolver → Resolver × Option Running
unfolding cuda_check count_launch pend_all batch_executed batch_failed
advance (launching []) ss r = elim (pend_all ss r) [
  | stops e ss' r' ↦ (r', some (record { stage = failing e; snapshots = ss' }))
  | passes ss' r' ↦ (batch_executed r', none)
]
advance (launching (i ∷ is)) ss r = elim (cuda_check tt r) [
  | stops e _ r' ↦ (r', some (record { stage = failing e; snapshots = ss }))
  | passes _ r' ↦ (count_launch i r', some (record { stage = launching is; snapshots = ss }))
]
advance (failing e) ss r = (batch_failed e ss r, none)

abbrev pub joined : Option Running → List Running → List Running
joined none bs = bs
joined (some b) bs = b ∷ bs

-- The step of one of the threads.
unfoldable pub resume : ℕ → List Running → Resolver → Resolver × List Running
unfolding advance
resume n [] r = (r, [])
resume zero (b ∷ bs) r = let a = advance b.stage b.snapshots r in (a.0, joined a.1 bs)
resume (suc n) (b ∷ bs) r = let rest = resume n bs r in (rest.0, b ∷ rest.1)

pub data Act : Type 0 where
  calls : Call → Act
  begins : List BatchItem → Act
  resumes : ℕ → Act

abbrev pub act : System → Act → System
act s (calls c) = record s { resolver = step s.resolver c }
act s (begins items) =
    let b = begin items s.resolver in record { resolver = b.0; batches = joined b.1 s.batches }
act s (resumes n) =
    let b = resume n s.batches s.resolver in record { resolver = b.0; batches = b.1 }

abbrev pub schedule : System → List Act → System
schedule s [] = s
schedule s (a ∷ acts) = schedule (act s a) acts
