-- ===== src/Server/Slots.antt =====
-- Creation and the life of slots in src/llama_server_runtime.cpp. A stream is passed on alone, and is
-- left out.
use chromo_fold.Prelude.{
  ℕ, Bool, false, not, ◌&&◌, ◌||◌, Option, none, some, List, [], ◌∷◌, ◌==◌, if◌then◌else◌, is_some,
  elem,
}
use chromo_fold.Prelude.Words.{add64, mul32}
use chromo_fold.Prelude.Int.{ℤ, pos, negsuc, ltb_ℤ}
use chromo_fold.Cache.Outcome.{cache_ok}
use chromo_fold.Cache.Types as HostTypes
use chromo_fold.Cache.Create as HostCreate
use chromo_fold.Cache.Edit as HostEdit
use chromo_fold.Resolver.Types as DeviceTypes
use chromo_fold.Resolver.Types.{resolver_ok}
use chromo_fold.Resolver.Sequences as DeviceSequences
use chromo_fold.Resolver.Pages as DevicePages
use chromo_fold.Server.Types.{
  Config, Stats, Error, is_shutting_down, sequence_exists, no_sequence, no_source, of_cache,
  of_resolver, Runtime, Status, success, failure,
}

unfoldable pub valid_config : Config → Bool
valid_config k =
    not (k.layer_count == 0)
    && not (k.query_head_count == 0)
    && not (k.kv_head_count == 0)
    && not (k.head_dim == 0)
    && not (k.page_size == 0)
    && not (k.block_size == 0)
    && not (k.gqa_group_size == 0)
    && k.query_head_count == mul32 k.kv_head_count k.gqa_group_size
    && is_some k.llama_commit
    && is_some k.model_sha256

abbrev pub host_config : Config → HostTypes.Config
host_config k = record {
  layer_count = k.layer_count;
  kv_head_count = k.kv_head_count;
  query_head_count = k.query_head_count;
  head_dim = k.head_dim;
  page_size = k.page_size;
  gqa_group_size = k.gqa_group_size;
  use_async_allocator = 1;
  enable_invariant_auditor = 1;
}

abbrev pub device_config : Config → DeviceTypes.Config
device_config k = record {
  layer_count = k.layer_count;
  kv_head_count = k.kv_head_count;
  query_head_count = k.query_head_count;
  head_dim = k.head_dim;
  page_size = k.page_size;
  gqa_group_size = k.gqa_group_size;
  use_async_allocator = 1;
}

abbrev pub no_stats : Stats
no_stats = record {
  http_requests = 0;
  interleaved_batches = 0;
  slot_reuses = 0;
  cancelled_requests = 0;
  context_shifts = 0;
  speculative_rollbacks = 0;
  dense_nodes_scheduled = 0;
  shutdown_audits = 0;
  shutdown_failures = 0;
}

-- `device` is what the device will answer.
unfoldable pub create : Config → (ℕ → DeviceTypes.Answer) → Option Runtime
unfolding valid_config
create k device = if not (valid_config k) then none else elim (HostCreate.create (host_config k)) [
  | none ↦ none
  | some host ↦ elim (DeviceSequences.create (device_config k) device) [
    | none ↦ none
    | some cuda ↦ some (record {
      config = k;
      host_cache = host;
      cuda_resolver = cuda;
      live_sequences = [];
      stats = no_stats;
      shutting_down = false;
      error = none;
    })
  ]
]

abbrev pub fail : Error → Runtime → Runtime × Status
fail e r = (record r { error = some e }, failure)

abbrev cache_failed : HostTypes.Cache → Runtime → Runtime × Status
cache_failed host r = fail (of_cache host.last_error) (record r { host_cache = host })

abbrev pub resolver_failed : DeviceTypes.Resolver → Runtime → Runtime × Status
resolver_failed cuda r = fail (of_resolver cuda.error) (record r { cuda_resolver = cuda })

abbrev pub succeed : Runtime → Runtime × Status
succeed r = (record r { error = none }, success)

unfoldable pub sequence_is_live : Runtime → ℕ → Bool
sequence_is_live r id = not r.shutting_down && elem id r.live_sequences

-- live_sequences.insert(id)
abbrev pub insert : ℕ → List ℕ → List ℕ
insert id live = if elem id live then live else id ∷ live

-- live_sequences.erase(id)
remove : ℕ → List ℕ → List ℕ
remove id [] = []
remove id (x ∷ xs) = if x == id then xs else x ∷ remove id xs

-- Both positions are -1: the whole sequence.
abbrev pub whole : ℤ
whole = negsuc 0

abbrev slot_created : ℕ → HostTypes.Cache → DeviceTypes.Resolver → Runtime → Runtime
slot_created id host cuda r = record r {
  host_cache = host;
  cuda_resolver = cuda;
  live_sequences = insert id r.live_sequences;
  stats = record r.stats { http_requests = add64 r.stats.http_requests 1 };
}

-- The host's sequence is taken back if the device refuses its own.
unfoldable pub slot_create : Runtime → ℕ → Runtime × Status
slot_create r id =
    let host = HostCreate.sequence_create id r.host_cache in
    let cuda = DeviceSequences.sequence_create r.cuda_resolver id in
    if r.shutting_down
    then fail is_shutting_down r
    else if elem id r.live_sequences
    then fail sequence_exists r
    else if not (cache_ok host.1)
    then cache_failed host.0 r
    else if not (resolver_ok cuda.1)
    then resolver_failed cuda.0
        (record r { host_cache = (HostEdit.sequence_remove id whole whole host.0).0 })
    else succeed (slot_created id host.0 cuda.0 r)

abbrev slot_reset_done : ℕ → HostTypes.Cache → DeviceTypes.Resolver → Runtime → Runtime
slot_reset_done id host cuda r = record r {
  host_cache = host;
  cuda_resolver = cuda;
  live_sequences = remove id r.live_sequences;
  stats = record r.stats { slot_reuses = add64 r.stats.slot_reuses 1 };
}

unfoldable pub slot_reset : Runtime → ℕ → Runtime × Status
unfolding remove
slot_reset r id =
    let cuda = DevicePages.sequence_remove r.cuda_resolver id in
    let host = HostEdit.sequence_remove id whole whole r.host_cache in
    if not (elem id r.live_sequences)
    then fail no_sequence r
    else if not (resolver_ok cuda.1)
    then resolver_failed cuda.0 r
    else if not (cache_ok host.1)
    then cache_failed host.0 (record r { cuda_resolver = cuda.0 })
    else succeed (slot_reset_done id host.0 cuda.0 r)

abbrev cancel_done : DeviceTypes.Resolver → Runtime → Runtime
cancel_done cuda r = record r {
  cuda_resolver = cuda;
  stats = record r.stats { cancelled_requests = add64 r.stats.cancelled_requests 1 };
}

unfoldable pub cancel : Runtime → ℕ → Runtime × Status
cancel r id =
    let cuda = DeviceSequences.cancel_sequence r.cuda_resolver id in
    if not (elem id r.live_sequences)
    then fail no_sequence r
    else if not (resolver_ok cuda.1)
    then resolver_failed cuda.0 r
    else succeed (cancel_done cuda.0 r)

-- The device copies the whole sequence, whatever the range.
unfoldable pub sequence_copy : Runtime → ℕ → ℕ → ℕ → ℕ → Runtime × Status
sequence_copy r source destination b e =
    let host = HostCreate.sequence_copy source destination b e r.host_cache in
    let cuda = DevicePages.copy_sequence r.cuda_resolver source destination in
    if r.shutting_down || not (elem source r.live_sequences)
    then fail no_source r
    else if not (cache_ok host.1)
    then cache_failed host.0 r
    else if not (resolver_ok cuda.1)
    then resolver_failed cuda.0 (record r { host_cache = host.0 })
    else succeed (record r {
      host_cache = host.0;
      cuda_resolver = cuda.0;
      live_sequences = insert destination r.live_sequences;
    })

unfoldable pub sequence_remove : Runtime → ℕ → ℤ → ℤ → Runtime × Status
unfolding slot_reset sequence_is_live
sequence_remove r id b e =
    let host = HostEdit.sequence_remove id b e r.host_cache in
    if ltb_ℤ b (pos 0) && ltb_ℤ e (pos 0)
    then slot_reset r id
    else if not (sequence_is_live r id)
    then fail no_sequence r
    else if not (cache_ok host.1)
    then cache_failed host.0 r
    else succeed (record r { host_cache = host.0 })

abbrev shift_done : HostTypes.Cache → DeviceTypes.Resolver → Runtime → Runtime
shift_done host cuda r = record r {
  host_cache = host;
  cuda_resolver = cuda;
  stats = record r.stats { context_shifts = add64 r.stats.context_shifts 1 };
}

-- A sequence that is not live is refused without a text.
unfoldable pub sequence_shift : Runtime → ℕ → ℕ → ℕ → ℤ → Runtime × Status
unfolding sequence_is_live
sequence_shift r id b e delta =
    let host = HostEdit.sequence_shift id b e delta r.host_cache in
    let cuda = DevicePages.shift_sequence r.cuda_resolver id b e delta in
    if not (sequence_is_live r id)
    then (r, failure)
    else if not (cache_ok host.1)
    then cache_failed host.0 r
    else if not (resolver_ok cuda.1)
    then resolver_failed cuda.0 (record r { host_cache = host.0 })
    else succeed (shift_done host.0 cuda.0 r)
