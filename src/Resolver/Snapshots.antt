-- ===== src/Resolver/Snapshots.antt =====
-- The snapshots of src/cuda/multisequence_cuda_resolver.cu, which hold the pages of a batch.
use chromo_fold.Prelude.{
  ℕ, ◌-◌, not, none, some, List, [], ◌∷◌, ◌++◌, ◌==◌, if◌then◌else◌, length, get_elem?,
}
use chromo_fold.Prelude.Words.{add32, add64, sub64}
use chromo_fold.Prelude.Map.{find, assign}
use chromo_fold.Resolver.Types.{
  SharedPage, PageRef, LayerState, SequenceState, Snapshot, Resolver, Pass, passes, stops,
  unavailable_sequence, layer_out_of_range, snapshot_underflow, no_such_page,
}

unfoldable pub held : ℕ → SharedPage → Resolver → Resolver
held id p r = record r {
  pages = assign id (record p { in_flight_refs = add32 p.in_flight_refs 1 }) r.pages;
  counters = record r.counters {
    in_flight_page_references = add64 r.counters.in_flight_page_references 1;
  };
}

-- The numbers of the pages that are held so far.
unfoldable pub hold : List PageRef → List ℕ → Resolver → Pass (List ℕ)
unfolding held
hold [] ids r = passes ids r
hold (ref ∷ refs) ids r = elim (find ref.page_id r.pages) [
  | none ↦ stops no_such_page ids r
  | some p ↦ hold refs (ids ++ ref.page_id ∷ []) (held ref.page_id p r)
]

unfoldable pub new_snapshot : ℕ → ℕ → SequenceState → LayerState → List ℕ → Snapshot
new_snapshot id layer s l ids = record {
  sequence_id = id;
  layer = layer;
  page_ids = ids;
  descriptors = l.descriptors.ptr;
  descriptor_count = length l.pages;
  active_k = l.active.keys.ptr;
  active_v = l.active.values.ptr;
  active_begin = l.active.token_begin;
  active_count = l.active.token_count;
  topology_generation = s.topology_generation;
  descriptor_generation = l.descriptor_generation;
  active_generation = l.active.generation;
}

abbrev pub count_snapshot : Resolver → Resolver
count_snapshot r = record r {
  counters = record r.counters { snapshots_acquired = add64 r.counters.snapshots_acquired 1 };
}

-- The snapshot alone. Where a page is missing, the snapshot is lost, and what it held stays held.
unfoldable pub acquire_at : ℕ → ℕ → SequenceState → LayerState → Resolver → Pass (List Snapshot)
unfolding hold new_snapshot
acquire_at id layer s l r = elim (hold l.pages [] r) [
  | stops e ids r' ↦ stops e [] r'
  | passes ids r' ↦ passes (new_snapshot id layer s l ids ∷ []) (count_snapshot r')
]

unfoldable pub acquire_snapshot : ℕ → ℕ → Resolver → Pass (List Snapshot)
unfolding acquire_at
acquire_snapshot id layer r = elim (find id r.sequences) [
  | none ↦ stops unavailable_sequence [] r
  | some s ↦
      if not s.dispatchable
      then stops unavailable_sequence [] r
      else elim (get_elem? s.layers layer) [
        | none ↦ stops layer_out_of_range [] r
        | some l ↦ acquire_at id layer s l r
      ]
]

unfoldable pub let_go : ℕ → SharedPage → Resolver → Resolver
let_go id p r = record r {
  pages = assign id (record p { in_flight_refs = p.in_flight_refs - 1 }) r.pages;
  counters = record r.counters {
    in_flight_page_references = sub64 r.counters.in_flight_page_references 1;
  };
}

abbrev count_release : Resolver → Resolver
count_release r = record r {
  counters = record r.counters { snapshots_released = add64 r.counters.snapshots_released 1 };
}

unfoldable pub release_refs : List ℕ → Resolver → Pass (Unit {0})
unfolding let_go
release_refs [] r = passes tt (count_release r)
release_refs (id ∷ ids) r = elim (find id r.pages) [
  | none ↦ stops snapshot_underflow tt r
  | some p ↦
      if p.in_flight_refs == 0
      then stops snapshot_underflow tt r
      else release_refs ids (let_go id p r)
]

-- The state that a loop leaves, whether it threw or not.
abbrev pub state_of : {A : Type 0} → Pass A → Resolver
state_of (passes a r) = r
state_of (stops e a r) = r

-- The catch clause: each snapshot is released on its own.
unfoldable pub release_all : List Snapshot → Resolver → Resolver
unfolding release_refs
release_all [] r = r
release_all (s ∷ ss) r = release_all ss (state_of (release_refs s.page_ids r))
