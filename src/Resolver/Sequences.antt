-- ===== src/Resolver/Sequences.antt =====
-- Sequences and active pages in src/cuda/multisequence_cuda_resolver.cu. Device memory
-- itself, which the copies fill, is not part of the state.
use chromo_fold.Prelude.{
  ℕ, Bool, true, false, not, ◌&&◌, ◌||◌, Option, none, some, List, [], ltb, ◌==◌, if◌then◌else◌,
  get_elem?, set, replicate,
}
use chromo_fold.Prelude.Words.{add64, mul64, mul32}
use chromo_fold.Prelude.Map.{find, contains, emplace, assign}
use chromo_fold.Resolver.Types.{
  Config, Counters, Buffer, ActivePage, LayerState, SequenceState, Error, Resolver, Status, success,
  failure, Pass, passes, stops, Answer, sequence_exists, invalid_active,
}
use chromo_fold.Resolver.Device.{cuda_check, allocate}

abbrev pub no_counts : Counters
no_counts = record {
  pages_registered = 0;
  page_registration_failures = 0;
  descriptor_tables_built = 0;
  descriptor_table_rebuilds = 0;
  snapshots_acquired = 0;
  snapshots_released = 0;
  in_flight_page_references = 0;
  snapshot_release_events = 0;
  stale_snapshot_rejections = 0;
  server_batches_received = 0;
  compressed_batches_executed = 0;
  sequence_attention_launches = 0;
  prefill_items = 0;
  decode_items = 0;
  tokens_per_batch_peak = 0;
  copy_on_write_tail_copies = 0;
  cancellation_requests = 0;
  pages_retired = 0;
  pages_reclaimed = 0;
  pending_reclamation_bytes = 0;
  pending_reclamation_bytes_peak = 0;
  cross_sequence_contamination = 0;
  dense_fallback_launches = 0;
  cuda_errors = 0;
}

unfoldable pub valid_config : Config → Bool
valid_config k =
    not (k.layer_count == 0)
    && not (k.kv_head_count == 0)
    && not (k.query_head_count == 0)
    && not (k.head_dim == 0)
    && not (k.page_size == 0)
    && not (k.gqa_group_size == 0)
    && k.query_head_count == mul32 k.kv_head_count k.gqa_group_size

-- `device` is what the device will answer.
unfoldable pub create : Config → (ℕ → Answer) → Option Resolver
unfolding valid_config
create k device =
    if not (valid_config k)
    then none
    else some (record {
      config = k;
      sequences = [];
      pages = [];
      pending_snapshots = [];
      next_page_id = 1;
      counters = no_counts;
      error = none;
      device = device;
    })

abbrev pub cleared : Resolver → Resolver
cleared r = record r { error = none }

abbrev pub failed : Error → Resolver → Resolver
failed e r = record r { error = some e }

abbrev pub count_cuda_error : Resolver → Resolver
count_cuda_error r = record r {
  counters = record r.counters { cuda_errors = add64 r.counters.cuda_errors 1 };
}

abbrev no_buffer : Buffer
no_buffer = record { ptr = 0; bytes = 0 }

abbrev pub empty_active : ActivePage
empty_active = record {
  keys = no_buffer;
  values = no_buffer;
  token_begin = 0;
  token_count = 0;
  generation = 0;
}

abbrev pub empty_layer : LayerState
empty_layer = record {
  pages = [];
  descriptors = no_buffer;
  descriptor_capacity = 0;
  descriptor_generation = 0;
  active = empty_active;
}

abbrev pub new_sequence : Resolver → ℕ → SequenceState
new_sequence r id = record {
  id = id;
  layers = replicate r.config.layer_count empty_layer;
  topology_generation = 1;
  dispatchable = true;
}

unfoldable pub sequence_create : Resolver → ℕ → Resolver × Status
sequence_create r id =
    if contains id r.sequences
    then (failed sequence_exists r, failure)
    else (cleared (record r { sequences = emplace id (new_sequence r id) r.sequences }), success)

-- A change of one sequence in place.
abbrev pub put_sequence : ℕ → SequenceState → Resolver → Resolver
put_sequence id s r = record r { sequences = assign id s r.sequences }

abbrev pub put_layers : ℕ → SequenceState → List LayerState → Resolver → Resolver
put_layers id s layers r = put_sequence id (record s { layers = layers }) r

abbrev pub active_bytes : Resolver → ℕ
active_bytes r = mul64 (mul64 (mul64 r.config.page_size r.config.kv_head_count) r.config.head_dim) 4

-- Both buffers are allocated, and both copied to.
unfoldable pub fill_active : ActivePage → Resolver → Pass ActivePage
unfolding allocate cuda_check
fill_active a r = elim (allocate (active_bytes r) a.keys r) [
  | stops e b r1 ↦ stops e (record a { keys = b }) r1
  | passes b r1 ↦ elim (allocate (active_bytes r1) a.values r1) [
    | stops e v r2 ↦ stops e (record a { keys = b; values = v }) r2
    | passes v r2 ↦ elim (cuda_check (record a { keys = b; values = v }) r2) [
      | stops e a' r3 ↦ stops e a' r3
      | passes a' r3 ↦ cuda_check a' r3
    ]
  ]
]

abbrev staged : ℕ → ℕ → ActivePage → ActivePage
staged token_begin token_count a = record a {
  token_begin = token_begin;
  token_count = token_count;
  generation = add64 a.generation 1;
}

abbrev put_active : ℕ → ℕ → SequenceState → LayerState → ActivePage → Resolver → Resolver
put_active id layer s l a r = put_layers id s (set s.layers layer (record l { active = a })) r

unfoldable pub stage_at : Resolver → ℕ → ℕ → ℕ → ℕ → SequenceState → LayerState → Resolver × Status
unfolding fill_active
stage_at r id layer token_begin token_count s l = elim (fill_active l.active r) [
  | stops e a r' ↦ (failed e (count_cuda_error (put_active id layer s l a r')), failure)
  | passes a r' ↦ (cleared (put_active id layer s l (staged token_begin token_count a) r'), success)
]

-- The pointers `keys` and `values` are not null.
unfoldable pub stage_active : Resolver → ℕ → ℕ → ℕ → ℕ → Resolver × Status
unfolding stage_at
stage_active r id layer token_begin token_count =
    if token_count == 0 || ltb r.config.page_size token_count
    then (r, failure)
    else elim (find id r.sequences) [
      | none ↦ (failed invalid_active (count_cuda_error r), failure)
      | some s ↦ elim (get_elem? s.layers layer) [
        | none ↦ (failed invalid_active (count_cuda_error r), failure)
        | some l ↦ stage_at r id layer token_begin token_count s l
      ]
    ]

unfoldable pub cancel_sequence : Resolver → ℕ → Resolver × Status
cancel_sequence r id = elim (find id r.sequences) [
  | none ↦ (r, failure)
  | some s ↦
      let q = put_sequence id (record s { dispatchable = false }) r in
      (
        record q {
          counters = record q.counters {
            cancellation_requests = add64 q.counters.cancellation_requests 1;
          };
        },
        success,
      )
]
