-- ===== src/Cache.antt =====
-- src/multisequence_cache.cpp: many sequences over shared, immutable pages. Each cf_ function is a
-- function on the cache, atomic as under its mutex; the tests for null pointers are left out, and the
-- stream argument, which the code does not use. The proofs are in the modules below.
pub mod Types
pub mod Outcome
pub mod Pages
pub mod Order
pub mod Auditor
pub mod Create
pub mod Edit
pub mod Tensor
pub mod Append
pub mod Speculation
pub mod Holds
pub mod Sound
pub mod History
pub mod Rollback
pub mod AuditLaws
pub mod Bounds
mod Examples
use chromo_fold.Prelude.{ℕ, List, [], ◌∷◌}
use chromo_fold.Prelude.Int.{ℤ}
use Types.{Cache}
use Create.{sequence_create, sequence_copy}
use Edit.{sequence_remove, sequence_shift}
use Tensor.{TensorView}
use Append.{AttentionItem, sequence_append, attention, reclaim}
use Speculation.{speculation_begin, speculation_commit, speculation_rollback}

-- The calls that change the cache.
pub data Call : Type 0 where
  creates : ℕ → Call
  copies : ℕ → ℕ → ℕ → ℕ → Call
  removes : ℕ → ℤ → ℤ → Call
  shifts : ℕ → ℕ → ℕ → ℤ → Call
  appends : ℕ → ℕ → ℕ → TensorView → TensorView → Call
  attends : List AttentionItem → Call
  begins : ℕ → Call
  commits : ℕ → ℕ → ℕ → Call
  rolls_back : ℕ → ℕ → Call
  reclaims : Call

pub step : Cache → Call → Cache
step c (creates id) = (sequence_create id c).0
step c (copies source destination b e) = (sequence_copy source destination b e c).0
step c (removes id b e) = (sequence_remove id b e c).0
step c (shifts id b e delta) = (sequence_shift id b e delta c).0
step c (appends id layer begin keys values) = (sequence_append id layer begin keys values c).0
step c (attends items) = (attention items c).0
step c (begins id) = (speculation_begin id c).0
step c (commits id spec accepted) = (speculation_commit id spec accepted c).0
step c (rolls_back id spec) = (speculation_rollback id spec c).0
step c reclaims = (reclaim c).0

pub run : Cache → List Call → Cache
run c [] = c
run c (call ∷ calls) = run (step c call) calls
