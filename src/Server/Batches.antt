-- ===== src/Server/Batches.antt =====
-- Tokens, batches and shutdown in src/llama_server_runtime.cpp.
use chromo_fold.Prelude.{
  ℕ, Bool, true, not, ◌&&◌, ◌||◌, List, [], ◌∷◌, ltb, ◌==◌, if◌then◌else◌, elem, length,
}
use chromo_fold.Prelude.Words.{add64}
use chromo_fold.Cache.Outcome.{cache_ok}
use chromo_fold.Cache.Types as HostTypes
use chromo_fold.Cache.Edit as HostEdit
use chromo_fold.Cache.Append as HostAppend
use chromo_fold.Resolver.Types as DeviceTypes
use chromo_fold.Resolver.Types.{resolver_ok}
use chromo_fold.Resolver.Sequences as DeviceSequences
use chromo_fold.Resolver.Pages as DevicePages
use chromo_fold.Resolver.Batches as DeviceBatches
use chromo_fold.Resolver.Settle as DeviceSettle
use chromo_fold.Resolver.Auditor as DeviceAuditor
use chromo_fold.Server.Types.{
  AttentionItem, Batch, is_shutting_down, dense_node, unknown_sequence, audit_failed, Runtime,
  Status, success, failure,
}
use chromo_fold.Server.Slots.{fail, resolver_failed, succeed, sequence_is_live, insert, whole}

-- `key` and `value` are not null.
unfoldable pub append_layer : Runtime → ℕ → ℕ → ℕ → ℕ → Runtime × Status
unfolding sequence_is_live
append_layer r id layer token_begin token_count =
    let cuda = DeviceSequences.stage_active r.cuda_resolver id layer token_begin token_count in
    if token_count == 0 || not (sequence_is_live r id)
    then (r, failure)
    else if not (resolver_ok cuda.1)
    then resolver_failed cuda.0 r
    else succeed (record r { cuda_resolver = cuda.0 })

batch_item : AttentionItem → DeviceTypes.BatchItem
batch_item i = record {
  sequence_id = i.sequence_id;
  layer = i.layer;
  query = i.query;
  output = i.output;
  output_type = i.output_type;
  output_token_stride_bytes = i.output_token_stride_bytes;
  output_head_stride_bytes = i.output_head_stride_bytes;
  output_element_stride_bytes = i.output_element_stride_bytes;
  query_token_begin = i.query_token_begin;
  softmax_scale = i.softmax_scale;
  causal_window = i.causal_window;
}

batch_items : List AttentionItem → List DeviceTypes.BatchItem
unfolding batch_item
batch_items [] = []
batch_items (i ∷ is) = batch_item i ∷ batch_items is

-- The loop's test of each item
are_live : List AttentionItem → List ℕ → Bool
are_live [] live = true
are_live (i ∷ is) live = elem i.sequence_id live && are_live is live

-- The set of sequences that the loop collects.
batch_sequences : List AttentionItem → List ℕ → List ℕ
batch_sequences [] ids = ids
batch_sequences (i ∷ is) ids = batch_sequences is (insert i.sequence_id ids)

count_interleaved : List AttentionItem → Runtime → Runtime
unfolding batch_sequences
count_interleaved items r = record r {
  stats = record r.stats {
    interleaved_batches =
        if ltb 1 (length (batch_sequences items []))
        then add64 r.stats.interleaved_batches 1
        else r.stats.interleaved_batches;
  };
}

unfoldable pub execute_batch : Runtime → Batch → Runtime × Status
unfolding batch_items are_live count_interleaved
execute_batch r batch =
    let items = batch.attention_items in
    let cuda = DeviceBatches.execute_batch r.cuda_resolver (batch_items items) in
    if length items == 0
    then (r, failure)
    else if r.shutting_down
    then fail is_shutting_down r
    else if not (r.stats.dense_nodes_scheduled == 0)
    then fail dense_node r
    else if not (are_live items r.live_sequences)
    then fail unknown_sequence r
    else if not (resolver_ok cuda.1)
    then resolver_failed cuda.0 (count_interleaved items r)
    else succeed (record (count_interleaved items r) { cuda_resolver = cuda.0 })

-- What shutdown does to one sequence; the results are not read.
drop_sequence : ℕ → HostTypes.Cache × DeviceTypes.Resolver → HostTypes.Cache × DeviceTypes.Resolver
drop_sequence id s = (
  (HostEdit.sequence_remove id whole whole s.0).0,
  (DevicePages.sequence_remove (DeviceSequences.cancel_sequence s.1 id).0 id).0,
)

drop_sequences :
    List ℕ → HostTypes.Cache × DeviceTypes.Resolver → HostTypes.Cache × DeviceTypes.Resolver
unfolding drop_sequence
drop_sequences [] s = s
drop_sequences (id ∷ ids) s = drop_sequences ids (drop_sequence id s)

unfoldable pub emptied : Runtime → Runtime
unfolding drop_sequences
emptied r =
    let s = drop_sequences r.live_sequences (r.host_cache, r.cuda_resolver) in
    record r {
      shutting_down = true;
      live_sequences = [];
      host_cache = (HostAppend.reclaim s.0).0;
      cuda_resolver = (DeviceSettle.reclaim s.1).0;
      stats = record r.stats { shutdown_audits = add64 r.stats.shutdown_audits 1 };
    }

pub passes_audits : Runtime → Bool
passes_audits r =
    resolver_ok (DeviceAuditor.audit r.cuda_resolver) && cache_ok (HostAppend.audit r.host_cache)

unfoldable pub shutdown : Runtime → Runtime × Status
unfolding emptied passes_audits
shutdown r =
    let q = emptied r in
    let failed = record q {
      stats = record q.stats { shutdown_failures = add64 q.stats.shutdown_failures 1 };
    } in
    if r.shutting_down
    then (r, if r.stats.shutdown_failures == 0 then success else failure)
    else if not (passes_audits q)
    then fail audit_failed failed
    else succeed q
