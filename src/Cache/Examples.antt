-- ===== src/Cache/Examples.antt =====
-- Runs of src/multisequence_cache.cpp on a small cache: two sequences that share a page, and a
-- retired page that waits in the queue.
use chromo_fold.Prelude.{
  ℕ, ◌≤◌, ◌≡◌, refl, ◌↔◌, true, none, some, List, [], ◌∷◌, arith, ◌==◌, get_elem?,
}
use chromo_fold.Prelude.Int.{pos}
use chromo_fold.Prelude.Map.{find, emplace, assign, erase, total}
use chromo_fold.Cache.Types.{
  Cache, Config, SharedPage, PageRef, LayerState, SequenceState, no_counts,
}
use chromo_fold.Cache.Outcome.{each_layer}
use chromo_fold.Cache.Pages.{ref_ids, layer_ids, release_page, release_pages, released}
use chromo_fold.Cache.Order.{validate_page_order}
use chromo_fold.Cache.Auditor.{audit_locked, maybe_audit}
use chromo_fold.Cache.Create.{create, no_speculation}
use chromo_fold.Cache.Edit.{
  remove_layer, sequence_remove, sequence_remove_body, remove_found, remove_all, gone,
}
use chromo_fold.Cache.Speculation.{baseline, speculation_begin, speculation_rollback}
use chromo_fold.Cache.Sound.{IsSound}
use chromo_fold.Cache.Bounds.{IsBounded}
use chromo_fold.Cache.Bounds.Invariant.{run-create-IsBounded}
use chromo_fold.Cache.{run, reclaims}
use chromo_fold.Cache.AuditLaws.{IsAudited, audit_locked_iff}
use chromo_fold.Cache.Rollback.{begin_rollback}
use chromo_fold.Cache.{creates, removes, begins, step}
use chromo_fold.Cache.History.{step-IsSound}

abbrev config : Config
config = record {
  layer_count = 1;
  kv_head_count = 2;
  query_head_count = 4;
  head_dim = 8;
  page_size = 4;
  gqa_group_size = 2;
  use_async_allocator = 0;
  enable_invariant_auditor = 1;
}

abbrev page : ℕ → ℕ → SharedPage
page id holders = record {
  page_id = id;
  generation = 1;
  token_begin = 0;
  token_count = 4;
  resident_bytes = 64;
  refcount = holders;
  retired = holders == 0;
}

abbrev sequence : ℕ → List PageRef → SequenceState
sequence id pages = record {
  id = id;
  layers =
      (record {
        sealed_pages = pages;
        active_token_begin = 8;
        active_token_count = 2;
        active_generation = 1;
        descriptor_generation = 1;
      })
      ∷ [];
  topology_generation = 1;
  logical_shift = pos 0;
  speculation = no_speculation;
}

abbrev first_ref : PageRef
first_ref = record { page_id = 11; logical_token_begin = 0; token_count = 4 }

abbrev second_ref : PageRef
second_ref = record { page_id = 12; logical_token_begin = 4; token_count = 4 }

abbrev tail_layer : LayerState
tail_layer = record {
  sealed_pages = first_ref ∷ second_ref ∷ [];
  active_token_begin = 8;
  active_token_count = 2;
  active_generation = 1;
  descriptor_generation = 1;
}

abbrev shared : Cache
shared = record {
  config = config;
  sequences = (5, sequence 5 (first_ref ∷ second_ref ∷ [])) ∷ (6, sequence 6 (first_ref ∷ [])) ∷ [];
  page_store = (11, page 11 2) ∷ (12, page 12 1) ∷ (13, page 13 0) ∷ [];
  retired = (record { page_id = 13; resident_bytes = 64; retirement_generation = 1 }) ∷ [];
  counters = no_counts;
  next_page_id = 14;
  global_generation = 3;
  next_speculation_id = 1;
  last_error = none;
}

abbrev empty : Cache
empty = record {
  config = config;
  sequences = [];
  page_store = [];
  retired = [];
  counters = no_counts;
  next_page_id = 1;
  global_generation = 1;
  next_speculation_id = 1;
  last_error = none;
}

shared-IsSound : IsSound shared
unfolding find total layer_ids ref_ids
shared-IsSound = record {
  holds = record {
    distinct = (refl, (refl, (refl, tt)));
    keyed = λ id p e. ground arith;
    counted = λ id p e. ground arith;
    free = λ id p e r. ground arith;
    resolved = λ id more. ground arith;
    queued = λ id. ground arith;
  };
  shaped = record {
    distinct = (refl, (refl, tt));
    named = λ id s e. ground arith;
    layered = λ id s e. ground arith;
  };
}

-- The pages of sequence 5 go, and its tail; nothing refers to page 12 then.
step-IsSound_example : IsSound (step shared (removes 5 (pos 0) (pos 10)))
unfolding sequence_remove sequence_remove_body remove_found remove_all gone release_pages
    release_page released maybe_audit audit_locked find layer_ids ref_ids erase assign each_layer
    remove_layer validate_page_order emplace
step-IsSound_example = step-IsSound shared (removes 5 (pos 0) (pos 10)) shared-IsSound refl

audit_locked_iff_example : (audit_locked shared ≡ true) ↔ IsAudited shared
unfolding total layer_ids ref_ids
audit_locked_iff_example = audit_locked_iff shared (λ j. ground arith)

-- A second layer is two tokens behind the first.
abbrev uneven : SequenceState
uneven = record (sequence 6 []) {
  layers =
      record tail_layer { sealed_pages = [] }
      ∷ record tail_layer { sealed_pages = []; active_token_count = 0 }
      ∷ [];
}

abbrev uneven_cache : Cache
uneven_cache = record shared { sequences = (6, uneven) ∷ [] }

begin_rollback_example :
    let d = (speculation_begin 6 uneven_cache).0 in
    (t : SequenceState) × (m : LayerState) × (find 6 (speculation_rollback 6 1 d).0.sequences
      ≡ some t)
    × (get_elem? t.layers 1 ≡ some m)
    × (m.active_token_count ≡ baseline uneven.layers 0)
    × (0 ≤ m.active_token_count)
    × (t.topology_generation ≡ 1)
unfolding find
begin_rollback_example =
    begin_rollback 6 uneven_cache uneven 1
      (record tail_layer { sealed_pages = []; active_token_count = 0 }) (omega arith) refl refl refl

run-create-IsBounded_example : IsBounded (run empty (creates 7 ∷ begins 7 ∷ reclaims ∷ []))
unfolding create
run-create-IsBounded_example =
    run-create-IsBounded config empty (creates 7 ∷ begins 7 ∷ reclaims ∷ []) refl
