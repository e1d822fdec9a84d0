-- ===== src/Cache/Pages.antt =====
-- Shared pages of src/multisequence_cache.cpp: reference counts, and the queue of retired pages.
use chromo_fold.Prelude.{
  ℕ, ◌+◌, ◌-◌, true, ◌&&◌, List, [], ◌∷◌, ◌++◌, ltb, ◌==◌, if◌then◌else◌, max, length,
}
use chromo_fold.Prelude.Words.{u32_mod, add64}
use chromo_fold.Prelude.Map.{find, assign}
use chromo_fold.Cache.Types.{
  Cache, Counters, SharedPage, PageRef, LayerState, SequenceState, RetiredPage, unknown_page,
  retired_page, refcount_overflow, refcount_underflow,
}
use chromo_fold.Cache.Outcome.{M, ◌>>=◌, ◌>>◌, get, put, require, refuse, pure}

-- The page, and the state as it stands.
abbrev resolve_page : ℕ → M SharedPage
resolve_page id c = require unknown_page (find id c.page_store) c

unfoldable pub acquired : ℕ → SharedPage → Cache → Cache
acquired id p c = record c {
  page_store = assign id (record p { refcount = p.refcount + 1 }) c.page_store;
  counters = record c.counters {
    page_ref_increments = add64 c.counters.page_ref_increments 1;
    shared_page_references = add64 c.counters.shared_page_references 1;
    shared_pages =
        if p.refcount + 1 == 2 then add64 c.counters.shared_pages 1 else c.counters.shared_pages;
  };
}

unfoldable pub acquire_page : ℕ → M (Unit {0})
unfolding acquired
acquire_page id = do
  p ← resolve_page id
  refuse p.retired retired_page
  refuse (p.refcount == u32_mod - 1) refcount_overflow
  c ← get
  put (acquired id p c)

-- The counters of a release, before the page may retire.
release_counters : SharedPage → Counters → Counters
release_counters p k = record k {
  shared_pages =
      if p.refcount == 2 && ltb 0 k.shared_pages then k.shared_pages - 1 else k.shared_pages;
  page_ref_decrements = add64 k.page_ref_decrements 1;
  shared_page_references =
      if ltb 0 k.shared_page_references
      then k.shared_page_references - 1
      else k.shared_page_references;
}

retire_counters : SharedPage → List RetiredPage → Counters → Counters
retire_counters p queue k =
    let pending = add64 k.pending_reclamation_bytes p.resident_bytes in
    record k {
      pages_pending_reclamation = length queue;
      pending_reclamation_bytes = pending;
      pending_reclamation_bytes_peak = max k.pending_reclamation_bytes_peak pending;
    }

pub retire_entry : SharedPage → Cache → RetiredPage
retire_entry p c = record {
  page_id = p.page_id;
  resident_bytes = p.resident_bytes;
  retirement_generation = c.global_generation;
}

unfoldable pub released : ℕ → SharedPage → Cache → Cache
unfolding release_counters retire_counters retire_entry
released id p c =
    if p.refcount == 1
    then record c {
      page_store = assign id (record p { refcount = 0; retired = true }) c.page_store;
      retired = c.retired ++ retire_entry p c ∷ [];
      counters =
          retire_counters p (c.retired ++ retire_entry p c ∷ []) (release_counters p c.counters);
    }
    else record c {
      page_store = assign id (record p { refcount = p.refcount - 1 }) c.page_store;
      counters = release_counters p c.counters;
    }

unfoldable pub release_page : ℕ → M (Unit {0})
unfolding released
release_page id = do
  p ← resolve_page id
  refuse (p.refcount == 0) refcount_underflow
  c ← get
  put (released id p c)

-- for (id : ids) release_page(cache, id);
unfoldable pub release_pages : List ℕ → M (Unit {0})
release_pages [] = pure tt
release_pages (id ∷ ids) = do release_page id; release_pages ids

-- The pages of a sequence, in the order of its layers.
unfoldable pub ref_ids : List PageRef → List ℕ
ref_ids [] = []
ref_ids (r ∷ rs) = r.page_id ∷ ref_ids rs

unfoldable pub layer_ids : List LayerState → List ℕ
unfolding ref_ids
layer_ids [] = []
layer_ids (l ∷ ls) = ref_ids l.sealed_pages ++ layer_ids ls

abbrev pub release_sequence_pages : SequenceState → M (Unit {0})
release_sequence_pages s = release_pages (layer_ids s.layers)
