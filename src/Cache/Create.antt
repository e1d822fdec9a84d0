-- ===== src/Cache/Create.antt =====
-- The life of a sequence in src/multisequence_cache.cpp: creation, and copies that share pages.
use chromo_fold.Prelude.{
  ℕ, ◌*◌, ◌%◌, max, Bool, false, not, ◌&&◌, ◌||◌, Option, none, some, List, [], ◌∷◌, ◌++◌, ltb, leb,
  ◌==◌, if◌then◌else◌, length, replicate,
}
use chromo_fold.Prelude.Words.{u32_mod, add64}
use chromo_fold.Prelude.Int.{pos}
use chromo_fold.Prelude.Map.{find, contains, emplace, erase}
use chromo_fold.Cache.Types.{
  Cache, Config, PageRef, LayerState, SpeculationState, SequenceState, no_counts, sequence_exists,
  no_source,
}
use chromo_fold.Cache.Outcome.{
  returns, throws, M, ◌>>=◌, ◌>>◌, get, put, pure, throw, require, refuse, Status, failure, attempt,
}
use chromo_fold.Cache.Pages.{acquire_page, release_pages, layer_ids, release_sequence_pages}
use chromo_fold.Cache.Order.{ref_end, active_end}
use chromo_fold.Cache.Auditor.{maybe_audit}

unfoldable pub valid_config : Config → Bool
valid_config k =
    not (k.layer_count == 0)
    && not (k.kv_head_count == 0)
    && not (k.query_head_count == 0)
    && not (k.head_dim == 0)
    && not (k.page_size == 0)
    && not (k.gqa_group_size == 0)
    && k.query_head_count == k.kv_head_count * k.gqa_group_size % u32_mod

unfoldable pub create : Config → Option Cache
unfolding valid_config
create k =
    if not (valid_config k)
    then none
    else some (record {
      config = k;
      sequences = [];
      page_store = [];
      retired = [];
      counters = no_counts;
      next_page_id = 1;
      global_generation = 1;
      next_speculation_id = 1;
      last_error = none;
    })

abbrev pub no_speculation : SpeculationState
no_speculation = record {
  id = 0;
  baseline_token_count = 0;
  baseline_generation = 0;
  active = false;
}

abbrev pub empty_layer : LayerState
empty_layer = record {
  sealed_pages = [];
  active_token_begin = 0;
  active_token_count = 0;
  active_generation = 0;
  descriptor_generation = 0;
}

abbrev pub new_sequence : ℕ → List LayerState → ℕ → SequenceState
new_sequence id layers generation = record {
  id = id;
  layers = layers;
  topology_generation = generation;
  logical_shift = pos 0;
  speculation = no_speculation;
}

unfoldable pub update_active_peak : Cache → Cache
update_active_peak c = record c {
  counters = record c.counters {
    active_sequences = length c.sequences;
    active_sequences_peak = max c.counters.active_sequences_peak (length c.sequences);
  };
}

unfoldable pub created : ℕ → Cache → Cache
unfolding update_active_peak
created id c =
    let generation = add64 c.global_generation 1 in
    update_active_peak (record c {
      global_generation = generation;
      sequences =
          emplace id (new_sequence id (replicate c.config.layer_count empty_layer) generation)
            c.sequences;
      counters = record c.counters { sequences_created = add64 c.counters.sequences_created 1 };
    })

-- The try block.
unfoldable pub sequence_create_body : ℕ → M (Unit {0})
unfolding created
sequence_create_body id = do
  c ← get
  refuse (contains id c.sequences) sequence_exists
  put (created id c)
  maybe_audit

unfoldable pub sequence_create : ℕ → Cache → Cache × Status
unfolding sequence_create_body
sequence_create id = attempt (sequence_create_body id)

-- The page lies within the copied range.
pub in_range : ℕ → ℕ → PageRef → Bool
in_range token_begin token_end r =
    not (ltb r.logical_token_begin token_begin || ltb token_end (ref_end r))

-- The references that a copy of the layer takes.
unfoldable pub copied_refs : ℕ → ℕ → List PageRef → List PageRef
copied_refs b e [] = []
copied_refs b e (r ∷ rs) = if in_range b e r then r ∷ copied_refs b e rs else copied_refs b e rs

unfoldable pub copied_layer : ℕ → ℕ → LayerState → LayerState
unfolding copied_refs
copied_layer b e l =
    let whole = ltb 0 l.active_token_count && leb b l.active_token_begin && leb (active_end l) e in
    record {
      sealed_pages = copied_refs b e l.sealed_pages;
      active_token_begin = if whole then l.active_token_begin else 0;
      active_token_count = if whole then l.active_token_count else 0;
      active_generation = if whole then add64 l.active_generation 1 else 0;
      descriptor_generation = add64 l.descriptor_generation 1;
    }

unfoldable pub copied_layers : ℕ → ℕ → List LayerState → List LayerState
unfolding copied_layer
copied_layers b e [] = []
copied_layers b e (l ∷ ls) = copied_layer b e l ∷ copied_layers b e ls

-- The loop acquires page after page; at a throw it releases those that it has, and throws again.
unfoldable pub acquire_pages : List ℕ → List ℕ → M (Unit {0})
acquire_pages [] done c = returns tt c
acquire_pages (id ∷ ids) done c = elim (acquire_page id c) [
  | returns _ c' ↦ acquire_pages ids (done ++ id ∷ []) c'
  | throws e c' ↦ (do release_pages done; throw e) c'
]

-- A sequence that stands under the destination's number goes.
unfoldable pub drop_old : ℕ → M (Unit {0})
drop_old id c = elim (find id c.sequences) [
  | none ↦ pure tt c
  | some old ↦
      (do release_sequence_pages old; d ← get; put (record d { sequences = erase id d.sequences }))
        c
]

unfoldable pub copied : ℕ → SequenceState → Cache → Cache
unfolding update_active_peak
copied id candidate c = update_active_peak (record c {
  global_generation = add64 c.global_generation 1;
  sequences = emplace id candidate c.sequences;
  counters = record c.counters { sequences_copied = add64 c.counters.sequences_copied 1 };
})

-- The copy, once the source is found and the candidate's layers are known. (The code acquires each
-- page as it copies the reference.)
unfoldable pub copy_layers : ℕ → List LayerState → ℕ → M (Unit {0})
unfolding copied
copy_layers destination layers generation = do
  acquire_pages (layer_ids layers) []
  drop_old destination
  d ← get
  put (copied destination (new_sequence destination layers generation) d)
  maybe_audit

-- The try block.
unfoldable pub sequence_copy_body : ℕ → ℕ → ℕ → ℕ → M (Unit {0})
unfolding copy_layers
sequence_copy_body source destination b e = do
  start ← get
  s ← require no_source (find source start.sequences)
  copy_layers destination (copied_layers b e s.layers) (add64 start.global_generation 1)

unfoldable pub sequence_copy : ℕ → ℕ → ℕ → ℕ → Cache → Cache × Status
unfolding sequence_copy_body
sequence_copy source destination b e c =
    if source == destination || ltb e b
    then (c, failure)
    else attempt (sequence_copy_body source destination b e) c
