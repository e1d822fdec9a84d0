-- ===== src/Resolver.antt =====
-- src/cuda/multisequence_cuda_resolver.cu: sequences over pages in device memory. Each cf_ms_cuda_
-- function is a function on the resolver; null arguments are left out. All hold the mutex throughout but
-- cf_ms_cuda_execute_batch_async, which gives it up between its snapshots and their events: Overlap has
-- its parts as steps among other calls, and Batches.execute_batch is the call that no other overlaps.
-- What the CUDA runtime answers is part of the state, a parameter of the model.
pub mod Types
pub mod Device
pub mod Sequences
pub mod Publish
pub mod Pages
pub mod Snapshots
pub mod Batches
pub mod Settle
pub mod Auditor
pub mod Held
pub mod Flight
pub mod Reclaim
pub mod Sweep
pub mod Still
pub mod Counts
pub mod Unmoved
pub mod Overlap
pub mod Alone
pub mod Flown
pub mod Taken
pub mod Invariant
pub mod Capacity
mod Examples
use chromo_fold.Prelude.{ℕ, Option, List, [], ◌∷◌}
use chromo_fold.Prelude.Int.{ℤ}
use Types.{Counters, Error, PagePublication, Resolver}
use Sequences.{sequence_create, stage_active, cancel_sequence}
use Publish.{publish_page}
use Pages.{copy_sequence, sequence_remove, shift_sequence}
use Settle.{reclaim}

abbrev pub get_counters : Resolver → Counters
get_counters r = r.counters

abbrev pub last_error : Resolver → Option Error
last_error r = r.error

-- The calls that hold the mutex throughout.
pub data Call : Type 0 where
  creates : ℕ → Call
  removes : ℕ → Call
  publishes : PagePublication → Call
  stages : ℕ → ℕ → ℕ → ℕ → Call
  copies : ℕ → ℕ → Call
  shifts : ℕ → ℕ → ℕ → ℤ → Call
  cancels : ℕ → Call
  reclaims : Call

abbrev pub step : Resolver → Call → Resolver
step r (creates id) = (sequence_create r id).0
step r (removes id) = (sequence_remove r id).0
step r (publishes p) = (publish_page r p).0
step r (stages id layer token_begin token_count) =
    (stage_active r id layer token_begin token_count).0
step r (copies source destination) = (copy_sequence r source destination).0
step r (shifts id b e delta) = (shift_sequence r id b e delta).0
step r (cancels id) = (cancel_sequence r id).0
step r reclaims = (reclaim r).0

abbrev pub run : Resolver → List Call → Resolver
run r [] = r
run r (c ∷ cs) = run (step r c) cs
