-- ===== src/Resolver/Examples.antt =====
-- Runs of src/cuda/multisequence_cuda_resolver.cu on one layer and a device that answers every call,
-- or whose events are not ready.
use chromo_fold.Prelude.{
  ℕ, ◌≤◌, ◌<◌, ◌≡◌, refl, true, none, [], ◌∷◌, arith, List, length, ◌==◌, if◌then◌else◌, Bool-cases,
  inl, inr,
}
use chromo_fold.Prelude.Words.{u32_mod, mul32, add64, mul64, add32}
use chromo_fold.Prelude.Int.{pos}
use chromo_fold.Prelude.Map.{contains, find, emplace, assign}
use chromo_fold.Cache.Tensor.{tensor_validate}
use chromo_fold.Resolver.{run, creates, publishes, removes, reclaims, copies}
use chromo_fold.Resolver.Overlap.{
  Running, launching, idle, System, Act, calls, begins, resumes, act, schedule, begin, resume,
}
use chromo_fold.Resolver.Types.{
  Config, PageDescriptor, PagePublication, BatchItem, Answer, not_ready, done, Resolver, LayerState,
  success, failure,
}
use chromo_fold.Resolver.Device.{new_capacity}
use chromo_fold.Resolver.Sequences.{create, no_counts, empty_layer, sequence_create}
use chromo_fold.Resolver.Publish.{publish_page}
use chromo_fold.Resolver.Pages.{copy_sequence, sequence_remove}
use chromo_fold.Resolver.Batches.{valid_item, scalar_bytes}
use chromo_fold.Resolver.Settle.{reclaim}
use chromo_fold.Resolver.Auditor.{audit, ref_ids}
use chromo_fold.Resolver.Taken.{begin_takes}
use chromo_fold.Resolver.Invariant.{pending_present}
use chromo_fold.Resolver.Held.{snapshot_ids, HasRoom, batch_ids, in_flight}
use chromo_fold.Resolver.Capacity.{new_capacity_enough}

abbrev config : Config
config = record {
  layer_count = 1;
  kv_head_count = 1;
  query_head_count = 1;
  head_dim = 4;
  page_size = 2;
  gqa_group_size = 1;
  use_async_allocator = 0;
}

-- The answers are a function of the number of the call.
abbrev resolver : (ℕ → Answer) → Resolver
resolver device = record {
  config = config;
  sequences = [];
  pages = [];
  pending_snapshots = [];
  next_page_id = 1;
  counters = no_counts;
  error = none;
  device = device;
}

abbrev descriptor : PageDescriptor
descriptor = record {
  key_payload = 1;
  value_payload = 2;
  key_scales = 3;
  value_scales = 4;
  token_begin = 0;
  token_count = 2;
  kv_head_count = 1;
  head_dim = 4;
  block_size = 4;
  blocks_per_page = 2;
  key_payload_bytes = 4;
  value_payload_bytes = 4;
  resident_bytes = 24;
  generation = 1;
}

abbrev page : ℕ → PagePublication
page id = record {
  sequence_id = id;
  layer = 0;
  descriptor = descriptor;
  resident_bytes = 24;
  seal_generation = 1;
}

abbrev item : ℕ → BatchItem
item id = record {
  sequence_id = id;
  layer = 0;
  query = record {
    has_data = true;
    scalar_type = 3;
    token_count = 1;
    head_count = 1;
    head_dim = 4;
    token_stride_bytes = 16;
    head_stride_bytes = 16;
    element_stride_bytes = 4;
  };
  output = 9;
  output_type = 3;
  output_token_stride_bytes = 16;
  output_head_stride_bytes = 16;
  output_element_stride_bytes = 4;
  query_token_begin = 2;
  softmax_scale = 1;
  causal_window = 0;
}

abbrev ready : ℕ → Answer
ready n = done 7

-- Two batches of one sequence take their snapshots, then the sequence is removed. The first batch is
-- launched and waits for its event, the second is not launched yet, and a reclamation runs.
abbrev late : ℕ → Answer
late n = if n == 5 then not_ready else done 7

abbrev before : List Act
before = calls (creates 1) ∷ calls (publishes (page 1)) ∷ []

abbrev after : List Act
after =
    begins (item 1 ∷ [])
    ∷ begins (item 1 ∷ [])
    ∷ calls (removes 1)
    ∷ resumes 1
    ∷ resumes 1
    ∷ calls reclaims
    ∷ []

abbrev acts : List Act
acts = calls (creates 1) ∷ calls (publishes (page 1)) ∷ after

-- The page stands in one reference, and is held by no batch, or by one.
room :
    HasRoom
      (batch_ids (item 1 ∷ []) (schedule (idle (resolver late)) before).resolver.sequences)
      (schedule (idle (resolver late)) before).resolver
unfolding publish_page sequence_create find emplace assign mul64 add64 ref_ids
room id = elim (Bool-cases (1 == id)) [
  | inl t ↦ rw (t, HasRoom, in_flight) (omega arith)
  | inr t ↦ rw (t, HasRoom, in_flight) (omega arith)
]

abbrev begun : System
begun = act (schedule (idle (resolver late)) before) (begins (item 1 ∷ []))

more_room : HasRoom (batch_ids (item 1 ∷ []) begun.resolver.sequences) begun.resolver
unfolding publish_page sequence_create find emplace assign mul64 add64 ref_ids begin valid_item
    tensor_validate scalar_bytes add32
more_room id = elim (Bool-cases (1 == id)) [
  | inl t ↦ rw (t, HasRoom, in_flight) (omega arith)
  | inr t ↦ rw (t, HasRoom, in_flight) (omega arith)
]

abbrev full_layer : LayerState
full_layer = record empty_layer { pages = record { page_id = 1; logical_token_begin = pos 0 } ∷ [] }

-- A copy over a sequence that has pages leaves counts that the audit refuses.
copied_over : Resolver
unfolding publish_page
copied_over =
    run (resolver ready)
      (creates 1 ∷ creates 2 ∷ publishes (page 1) ∷ publishes (page 2) ∷ copies 1 2 ∷ [])

audit_before :
    audit
      (run (resolver ready) (creates 1 ∷ creates 2 ∷ publishes (page 1) ∷ publishes (page 2) ∷ []))
    ≡ success
unfolding audit publish_page find sequence_create emplace mul64 assign add64
audit_before = refl

audit_after : audit copied_over ≡ failure
unfolding audit copied_over copy_sequence find sequence_create emplace mul64 assign add64
audit_after = refl

pending_present_example : contains 1 (schedule (idle (resolver late)) acts).resolver.pages ≡ true
unfolding create mul32 reclaim sequence_remove find begin resume valid_item tensor_validate
    scalar_bytes mul64 add64 add32 publish_page sequence_create emplace assign ref_ids
pending_present_example =
    pending_present config late (resolver late) acts 1 refl
      (tt, (tt, (room, (more_room, (tt, (tt, (tt, (tt, tt)))))))) refl

new_capacity_enough_example :
    (length full_layer.pages ≤ new_capacity full_layer) × (new_capacity full_layer < u32_mod)
new_capacity_enough_example = new_capacity_enough full_layer (omega arith) (omega arith)

-- The snapshot of a batch on the one page.
abbrev first_batch : Running
first_batch = record {
  stage = launching (item 1 ∷ []);
  snapshots =
      record {
        sequence_id = 1;
        layer = 0;
        page_ids = 1 ∷ [];
        descriptors = 7;
        descriptor_count = 1;
        active_k = 0;
        active_v = 0;
        active_begin = 0;
        active_count = 0;
        topology_generation = 2;
        descriptor_generation = 1;
        active_generation = 0;
      }
      ∷ [];
}

begin_takes_example :
    snapshot_ids first_batch.snapshots
    ≡ batch_ids (item 1 ∷ []) (schedule (idle (resolver late)) before).resolver.sequences
unfolding find begin valid_item tensor_validate scalar_bytes mul64 add64 add32 publish_page
    sequence_create emplace assign ref_ids
begin_takes_example =
    begin_takes (schedule (idle (resolver late)) before).resolver (item 1 ∷ []) first_batch refl
      refl
