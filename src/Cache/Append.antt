-- ===== src/Cache/Append.antt =====
-- Append, attention dispatch and reclamation in src/multisequence_cache.cpp.
use chromo_fold.Prelude.{
  ℕ, max, Bool, not, ◌&&◌, ◌||◌, Option, none, some, List, [], ◌∷◌, ltb, leb, ◌==◌, if◌then◌else◌,
  length, get_elem?, set,
}
use chromo_fold.Prelude.Words.{add32, add64, sub64}
use chromo_fold.Prelude.Map.{Map, find, contains, emplace, erase}
use chromo_fold.Cache.Types.{
  Cache, Config, Counters, Error, LayerState, SequenceState, RetiredPage, no_sequence,
  append_topology, append_gap, append_overflow, unknown_item, invalid_item, no_resolver,
  bad_reclaim,
}
use chromo_fold.Cache.Outcome.{
  returns, throws, M, ◌>>=◌, ◌>>◌, get, put, pure, throw, require, refuse, Status, success, failure,
  attempt,
}
use chromo_fold.Cache.Auditor.{maybe_audit, audit_locked}
use chromo_fold.Cache.Edit.{update_sequence}
use chromo_fold.Cache.Tensor.{TensorView, tensor_validate}

pub same_topology : Config → TensorView → TensorView → Bool
same_topology k keys values =
    keys.token_count == values.token_count
    && keys.head_count == values.head_count
    && keys.head_dim == values.head_dim
    && keys.head_count == k.kv_head_count
    && keys.head_dim == k.head_dim

unfoldable pub appended : ℕ → ℕ → LayerState → LayerState
appended token_begin count l = record l {
  active_token_begin = if l.active_token_count == 0 then token_begin else l.active_token_begin;
  active_token_count = add32 l.active_token_count count;
  active_generation = add64 l.active_generation 1;
}

unfoldable pub append_counted : ℕ → ℕ → ℕ → ℕ → LayerState → Cache → Cache
unfolding update_sequence appended
append_counted id index token_begin count l c =
    let d = update_sequence id written c in
    record d { global_generation = add64 d.global_generation 1 }
  where
    written : SequenceState → SequenceState
    written s = record s {
      layers = set s.layers index (appended token_begin count l);
      topology_generation = add64 s.topology_generation 1;
    }

-- The tests of the layer and the append to it; both sums are 32 bits wide.
pub gap : ℕ → LayerState → Bool
gap token_begin l =
    not (l.active_token_count == 0)
    && not (token_begin == add32 l.active_token_begin l.active_token_count)

unfoldable pub append_room : ℕ → ℕ → ℕ → ℕ → LayerState → M (Unit {0})
unfolding append_counted
append_room id index token_begin count l = do
  c ← get
  refuse (ltb c.config.page_size (add32 l.active_token_count count)) append_overflow
  put (append_counted id index token_begin count l c)

unfoldable pub append_layer : ℕ → ℕ → ℕ → ℕ → LayerState → M (Unit {0})
unfolding gap append_room
append_layer id index token_begin count l = do
  refuse (gap token_begin l) append_gap
  append_room id index token_begin count l

-- `layers[layer_index]`: the index is below the layer count that each sequence has.
unfoldable pub append_at : ℕ → ℕ → ℕ → ℕ → SequenceState → M (Unit {0})
unfolding append_layer
append_at id index token_begin count s = do
  l ← require no_sequence (get_elem? s.layers index)
  append_layer id index token_begin count l
  maybe_audit

-- The try block.
unfoldable pub sequence_append_body : ℕ → ℕ → ℕ → TensorView → TensorView → M (Unit {0})
unfolding append_at same_topology
sequence_append_body id index token_begin keys values = do
  start ← get
  s ← require no_sequence (find id start.sequences)
  refuse (not (same_topology start.config keys values)) append_topology
  append_at id index token_begin keys.token_count s

unfoldable pub sequence_append : ℕ → ℕ → ℕ → TensorView → TensorView → Cache → Cache × Status
unfolding sequence_append_body
sequence_append id index token_begin keys values c =
    if leb c.config.layer_count index || not (tensor_validate keys) || not (tensor_validate values)
    then (c, failure)
    else attempt (sequence_append_body id index token_begin keys values) c

pub record AttentionItem : Type 0 where
  pub sequence_id : ℕ
  pub layer : ℕ
  pub query : TensorView
  pub has_output : Bool

-- The tests of the items, with the set of sequence numbers that they name.
unfoldable pub check_items : List AttentionItem → Map (Unit {0}) → M (Map (Unit {0}))
check_items [] observed = pure observed
check_items (i ∷ is) observed = do
  c ← get
  refuse (not (contains i.sequence_id c.sequences)) unknown_item
  refuse (leb c.config.layer_count i.layer || not (tensor_validate i.query) || not i.has_output)
      invalid_item
  check_items is (emplace i.sequence_id tt observed)

unfoldable pub dispatched : ℕ → Cache → Cache
dispatched n c = record c {
  counters = record c.counters {
    batches_dispatched = add64 c.counters.batches_dispatched 1;
    sequences_per_batch_peak = max c.counters.sequences_per_batch_peak n;
    unsupported_operations = add64 c.counters.unsupported_operations 1;
  };
}

-- The try block.
unfoldable pub attention_body : List AttentionItem → M (Unit {0})
unfolding dispatched
attention_body items = do
  observed ← check_items items []
  d ← get
  put (dispatched (length observed) d)
  throw no_resolver

-- The host cache has no resolver, and refuses every batch.
unfoldable pub attention : List AttentionItem → Cache → Cache × Status
unfolding attention_body
attention items c = if length items == 0 then (c, failure) else attempt (attention_body items) c

unfoldable pub reclaimed : RetiredPage → Cache → Cache
reclaimed q c = record c {
  page_store = erase q.page_id c.page_store;
  counters = record c.counters {
    pages_reclaimed = add64 c.counters.pages_reclaimed 1;
    pending_reclamation_bytes = sub64 c.counters.pending_reclamation_bytes q.resident_bytes;
  };
}

-- The loop over the queue of retired pages.
unfoldable pub reclaim_pages : List RetiredPage → M (Unit {0})
unfolding reclaimed
reclaim_pages [] c = returns tt c
reclaim_pages (q ∷ qs) c = elim (find q.page_id c.page_store) [
  | none ↦ throws bad_reclaim c
  | some p ↦
      let rest = reclaim_pages qs (reclaimed q c) in
      if not (p.refcount == 0) then throws bad_reclaim c else rest
]

unfoldable pub queue_cleared : Cache → Cache
queue_cleared c = record c {
  retired = [];
  counters = record c.counters { pages_pending_reclamation = 0 };
}

-- The try block.
unfoldable pub reclaim_body : M (Unit {0})
unfolding reclaim_pages queue_cleared
reclaim_body = do
  start ← get
  reclaim_pages start.retired
  c ← get
  put (queue_cleared c)
  maybe_audit

unfoldable pub reclaim : Cache → Cache × Status
unfolding reclaim_body
reclaim = attempt reclaim_body

abbrev pub audit : Cache → Status
audit c = if audit_locked c then success else failure

abbrev pub get_counters : Cache → Counters
get_counters c = c.counters

abbrev pub last_error : Cache → Option Error
last_error c = c.last_error
