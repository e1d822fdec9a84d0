-- ===== src/Cache/Types.antt =====
-- The structs of src/multisequence_cache.cpp and include/chromofold/multisequence_cache.h. A sequence
-- number, an int64_t used as a key alone, stands for its 64-bit pattern.
use chromo_fold.Prelude.{ℕ, Bool, Option, List}
use chromo_fold.Prelude.Int.{ℤ}
use chromo_fold.Prelude.Map.{Map}

pub record Config : Type 0 where
  pub layer_count : ℕ
  pub kv_head_count : ℕ
  pub query_head_count : ℕ
  pub head_dim : ℕ
  pub page_size : ℕ
  pub gqa_group_size : ℕ
  pub use_async_allocator : ℕ
  pub enable_invariant_auditor : ℕ

pub record Counters : Type 0 where
  pub sequences_created : ℕ
  pub sequences_copied : ℕ
  pub sequences_removed : ℕ
  pub sequences_shifted : ℕ
  pub active_sequences : ℕ
  pub active_sequences_peak : ℕ
  pub shared_pages : ℕ
  pub shared_page_references : ℕ
  pub page_ref_increments : ℕ
  pub page_ref_decrements : ℕ
  pub pages_reclaimed : ℕ
  pub pages_pending_reclamation : ℕ
  pub pending_reclamation_bytes : ℕ
  pub pending_reclamation_bytes_peak : ℕ
  pub speculative_transactions_started : ℕ
  pub speculative_transactions_committed : ℕ
  pub speculative_transactions_rolled_back : ℕ
  pub batches_dispatched : ℕ
  pub sequences_per_batch_peak : ℕ
  pub invariant_audits : ℕ
  pub invariant_failures : ℕ
  pub unsupported_operations : ℕ
  pub dense_fallback_launches : ℕ

abbrev pub no_counts : Counters
no_counts = record {
  sequences_created = 0;
  sequences_copied = 0;
  sequences_removed = 0;
  sequences_shifted = 0;
  active_sequences = 0;
  active_sequences_peak = 0;
  shared_pages = 0;
  shared_page_references = 0;
  page_ref_increments = 0;
  page_ref_decrements = 0;
  pages_reclaimed = 0;
  pages_pending_reclamation = 0;
  pending_reclamation_bytes = 0;
  pending_reclamation_bytes_peak = 0;
  speculative_transactions_started = 0;
  speculative_transactions_committed = 0;
  speculative_transactions_rolled_back = 0;
  batches_dispatched = 0;
  sequences_per_batch_peak = 0;
  invariant_audits = 0;
  invariant_failures = 0;
  unsupported_operations = 0;
  dense_fallback_launches = 0;
}

pub record SharedPage : Type 0 where
  pub page_id : ℕ
  pub generation : ℕ
  pub token_begin : ℕ
  pub token_count : ℕ
  pub resident_bytes : ℕ
  pub refcount : ℕ
  pub retired : Bool

pub record PageRef : Type 0 where
  pub page_id : ℕ
  pub logical_token_begin : ℕ
  pub token_count : ℕ

pub record LayerState : Type 0 where
  pub sealed_pages : List PageRef
  pub active_token_begin : ℕ
  pub active_token_count : ℕ
  pub active_generation : ℕ
  pub descriptor_generation : ℕ

pub record SpeculationState : Type 0 where
  pub id : ℕ
  pub baseline_token_count : ℕ
  pub baseline_generation : ℕ
  pub active : Bool

pub record SequenceState : Type 0 where
  pub id : ℕ
  pub layers : List LayerState
  pub topology_generation : ℕ
  pub logical_shift : ℤ
  pub speculation : SpeculationState

pub record RetiredPage : Type 0 where
  pub page_id : ℕ
  pub resident_bytes : ℕ
  pub retirement_generation : ℕ

-- What the code throws, a constructor for each text.
pub data Error : Type 0 where
  unknown_page retired_page refcount_overflow refcount_underflow : Error
  zero_length_ref overlapping_pages tail_overlap : Error
  sequence_exists no_source no_sequence audit_failed : Error
  remove_inside_page remove_inside_tail : Error
  negative_token negative_active shift_misaligned : Error
  append_topology append_gap append_overflow : Error
  unknown_item invalid_item no_resolver : Error
  speculation_active invalid_speculation tail_predates accepted_too_many : Error
  bad_reclaim : Error

pub record Cache : Type 0 where
  pub config : Config
  pub sequences : Map SequenceState
  pub page_store : Map SharedPage
  pub retired : List RetiredPage
  pub counters : Counters
  pub next_page_id : ℕ
  pub global_generation : ℕ
  pub next_speculation_id : ℕ
  pub last_error : Option Error
