-- ===== src/Resolver/Batches.antt =====
-- Batches of attention items in src/cuda/multisequence_cuda_resolver.cu.
use chromo_fold.Prelude.{
  ℕ, Bool, not, ◌&&◌, ◌||◌, List, [], ◌∷◌, ◌++◌, max, ◌==◌, if◌then◌else◌, length,
}
use chromo_fold.Prelude.Words.{add64}
use chromo_fold.Cache.Tensor.{tensor_validate}
use chromo_fold.Resolver.Types.{
  BatchItem, Snapshot, Error, refused, not_ready, done, Resolver, Status, success, failure, Pass,
  passes, stops, invalid_tensor, cuda_failure,
}
use chromo_fold.Resolver.Device.{called, cuda_check}
use chromo_fold.Resolver.Sequences.{cleared, failed, count_cuda_error}
use chromo_fold.Resolver.Snapshots.{acquire_snapshot, release_all}

unfoldable pub scalar_bytes : ℕ → ℕ
scalar_bytes type = if type == 1 || type == 2 then 2 else if type == 3 then 4 else 0

-- `output` is not null, and its type has a width.
unfoldable pub valid_item : BatchItem → Bool
valid_item i =
    tensor_validate i.query && not (i.output == 0) && not (scalar_bytes i.output_type == 0)

unfoldable pub acquire_all : List BatchItem → Resolver → Pass (List Snapshot)
unfolding acquire_snapshot
acquire_all [] r = passes [] r
acquire_all (i ∷ is) r =
    if not (valid_item i)
    then stops invalid_tensor [] r
    else elim (acquire_snapshot i.sequence_id i.layer r) [
      | stops e s r' ↦ stops e [] r'
      | passes s r' ↦ elim (acquire_all is r') [
        | stops e ss r2 ↦ stops e (s ++ ss) r2
        | passes ss r2 ↦ passes (s ++ ss) r2
      ]
    ]

unfoldable pub count_batch : List BatchItem → Resolver → Resolver
count_batch items r = record r {
  counters = record r.counters {
    server_batches_received = add64 r.counters.server_batches_received 1;
    tokens_per_batch_peak = max r.counters.tokens_per_batch_peak (length items);
  };
}

unfoldable pub count_launch : BatchItem → Resolver → Resolver
count_launch i r = record r {
  counters = record r.counters {
    sequence_attention_launches = add64 r.counters.sequence_attention_launches 1;
    decode_items =
        if i.query.token_count == 1
        then add64 r.counters.decode_items 1
        else r.counters.decode_items;
    prefill_items =
        if i.query.token_count == 1
        then r.counters.prefill_items
        else add64 r.counters.prefill_items 1;
  };
}

-- cudaGetLastError after each launch
unfoldable pub launch_all : List BatchItem → Resolver → Pass (Unit {0})
unfolding cuda_check count_launch
launch_all [] r = passes tt r
launch_all (i ∷ is) r = elim (cuda_check tt r) [
  | stops e _ r' ↦ stops e tt r'
  | passes _ r' ↦ launch_all is (count_launch i r')
]

abbrev count_event : Resolver → Resolver
count_event r = record r {
  counters = record r.counters {
    snapshot_release_events = add64 r.counters.snapshot_release_events 1;
  };
}

-- What std::move leaves of a snapshot.
abbrev pub moved_from : Snapshot → Snapshot
moved_from s = record s { page_ids = [] }

unfoldable pub push_pending : Snapshot → ℕ → Resolver → Resolver
push_pending s event r = count_event (record r {
  pending_snapshots = r.pending_snapshots ++ record { snapshot = s; event = event } ∷ [];
})

-- cudaEventCreateWithFlags and cudaEventRecord for each snapshot, which is moved first.
unfoldable pub pend_all : List Snapshot → Resolver → Pass (List Snapshot)
unfolding cuda_check push_pending
pend_all [] r = passes [] r
pend_all (s ∷ ss) r = elim (r.device 0) [
  | refused ↦ stops cuda_failure (moved_from s ∷ ss) (called r)
  | not_ready ↦ stops cuda_failure (moved_from s ∷ ss) (called r)
  | done event ↦ elim (cuda_check tt (called r)) [
    | stops e _ r' ↦ stops e (moved_from s ∷ ss) r'
    | passes _ r' ↦ elim (pend_all ss (push_pending s event r')) [
      | stops e ss' r2 ↦ stops e (moved_from s ∷ ss') r2
      | passes ss' r2 ↦ passes (moved_from s ∷ ss') r2
    ]
  ]
]

unfoldable pub batch_failed : Error → List Snapshot → Resolver → Resolver
unfolding release_all
batch_failed e ss r = failed e (count_cuda_error (release_all ss r))

unfoldable pub batch_executed : Resolver → Resolver
batch_executed r = cleared (record r {
  counters = record r.counters {
    compressed_batches_executed = add64 r.counters.compressed_batches_executed 1;
  };
})

unfoldable pub launch_batch : List BatchItem → List Snapshot → Resolver → Resolver × Status
unfolding launch_all pend_all batch_failed batch_executed
launch_batch items ss r = elim (launch_all items r) [
  | stops e _ r' ↦ (batch_failed e ss r', failure)
  | passes _ r' ↦ elim (pend_all ss r') [
    | stops e ss' r2 ↦ (batch_failed e ss' r2, failure)
    | passes ss' r2 ↦ (batch_executed r2, success)
  ]
]

-- The attention kernel writes device memory alone.
unfoldable pub execute_batch : Resolver → List BatchItem → Resolver × Status
unfolding acquire_all count_batch batch_failed launch_batch
execute_batch r items = if length items == 0 then (r, failure) else elim (acquire_all items r) [
  | stops e ss r' ↦ (batch_failed e ss r', failure)
  | passes ss r' ↦ launch_batch items ss (count_batch items r')
]
