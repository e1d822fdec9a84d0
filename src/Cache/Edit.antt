-- ===== src/Cache/Edit.antt =====
-- Removal, shift and append in src/multisequence_cache.cpp.
use chromo_fold.Prelude.{
  ℕ, ◌-◌, ◌%◌, ◌&&◌, ◌||◌, none, some, List, [], ◌∷◌, ltb, leb, if◌then◌else◌,
}
use chromo_fold.Prelude.Words.{u32_mod, add64}
use chromo_fold.Prelude.Int.{ℤ, pos, pos_part, ◌+ℤ◌, ltb_ℤ}
use chromo_fold.Prelude.Map.{find, assign, erase}
use chromo_fold.Cache.Types.{
  Cache, PageRef, LayerState, SequenceState, no_sequence, remove_inside_page, remove_inside_tail,
  negative_token, negative_active, shift_misaligned,
}
use chromo_fold.Cache.Outcome.{
  Outcome, returns, throws, M, ◌>>=◌, ◌>>◌, get, put, pure, throw, require, Status, failure,
  attempt, Pass, passes, stops, pass_map, each_layer,
}
use chromo_fold.Cache.Pages.{release_page, release_sequence_pages}
use chromo_fold.Cache.Order.{ref_end, active_end, validate_page_order}
use chromo_fold.Cache.Auditor.{maybe_audit}
use chromo_fold.Cache.Create.{update_active_peak}

unfoldable pub count_unsupported : Cache → Cache
count_unsupported c = record c {
  counters = record c.counters {
    unsupported_operations = add64 c.counters.unsupported_operations 1;
  };
}

-- The loop over the pages of a layer, with what it retains; a page that only overlaps the range
-- stops it.
unfoldable pub remove_refs : ℕ → ℕ → List PageRef → M (List PageRef)
unfolding count_unsupported
remove_refs b e [] = pure []
remove_refs b e (r ∷ rs) =
    let rest = remove_refs b e rs in
    if leb (ref_end r) b || leb e r.logical_token_begin
    then (do kept ← rest; pure (r ∷ kept))
    else if ltb r.logical_token_begin b || ltb e (ref_end r)
    then (do c ← get; put (count_unsupported c); throw remove_inside_page)
    else (do release_page r.page_id; rest)

unfoldable pub remove_tail : ℕ → ℕ → LayerState → Cache → Pass LayerState
unfolding count_unsupported
remove_tail b e l c =
    if leb b l.active_token_begin && leb (active_end l) e
    then passes (cut 0) c
    else if leb l.active_token_begin b && ltb b (active_end l) && leb (active_end l) e
    then passes (cut (b - l.active_token_begin)) c
    else if ltb l.active_token_begin e && ltb b (active_end l)
    then stops remove_inside_tail l (count_unsupported c)
    else passes (cut l.active_token_count) c
  where
    cut : ℕ → LayerState
    cut n = record l {
      active_token_count = n;
      descriptor_generation = add64 l.descriptor_generation 1;
    }

unfoldable pub remove_layer : ℕ → ℕ → LayerState → Cache → Pass LayerState
unfolding remove_refs remove_tail
remove_layer b e l c = elim (remove_refs b e l.sealed_pages c) [
  | returns kept c' ↦ remove_tail b e (record l { sealed_pages = kept }) c'
  | throws x c' ↦ stops x l c'
]

-- What a loop over the layers of sequence `id` wrote is in the table, at a throw too.
unfoldable pub write_layers : ℕ → SequenceState → Pass (List LayerState) → Outcome (Unit {0})
write_layers id s (passes ls c) =
    returns tt (record c { sequences = assign id (record s { layers = ls }) c.sequences })
write_layers id s (stops e ls c) =
    throws e (record c { sequences = assign id (record s { layers = ls }) c.sequences })

-- it->second is written after the loop.
unfoldable pub update_sequence : ℕ → (SequenceState → SequenceState) → Cache → Cache
update_sequence id f c = elim (find id c.sequences) [
  | none ↦ c
  | some s ↦ record c { sequences = assign id (f s) c.sequences }
]

abbrev pub bump_generation : SequenceState → SequenceState
bump_generation s = record s { topology_generation = add64 s.topology_generation 1 }

unfoldable pub gone : ℕ → Cache → Cache
unfolding update_active_peak
gone id c = update_active_peak (record c {
  sequences = erase id c.sequences;
  counters = record c.counters { sequences_removed = add64 c.counters.sequences_removed 1 };
  global_generation = add64 c.global_generation 1;
})

-- The whole sequence goes.
unfoldable pub remove_all : ℕ → SequenceState → M (Unit {0})
unfolding gone
remove_all id s = do release_sequence_pages s; c ← get; put (gone id c)

unfoldable pub removal_counted : ℕ → Cache → Cache
unfolding update_sequence
removal_counted id c =
    let d = update_sequence id bump_generation c in
    record d {
      global_generation = add64 d.global_generation 1;
      counters = record d.counters { sequences_removed = add64 d.counters.sequences_removed 1 };
    }

unfoldable pub remove_range : ℕ → ℕ → ℕ → SequenceState → M (Unit {0})
unfolding removal_counted write_layers
remove_range id b e s = do
  (λ c. write_layers id s (each_layer (remove_layer b e) s.layers c))
  c ← get
  put (removal_counted id c)

-- Two negative positions mean everything; a negative begin alone is 0. So the positions, int64_t
-- in the source, are at least 0 where the range is used.
unfoldable pub remove_found : ℕ → ℤ → ℤ → SequenceState → M (Unit {0})
unfolding remove_all remove_range
remove_found id position_begin position_end s =
    if ltb_ℤ position_begin (pos 0) && ltb_ℤ position_end (pos 0)
    then remove_all id s
    else remove_range id (pos_part position_begin) (pos_part position_end) s

-- The try block.
unfoldable pub sequence_remove_body : ℕ → ℤ → ℤ → M (Unit {0})
unfolding remove_found
sequence_remove_body id position_begin position_end = do
  start ← get
  s ← require no_sequence (find id start.sequences)
  remove_found id position_begin position_end s
  maybe_audit

unfoldable pub sequence_remove : ℕ → ℤ → ℤ → Cache → Cache × Status
unfolding sequence_remove_body
sequence_remove id position_begin position_end c =
    if ltb_ℤ position_end position_begin
    then (c, failure)
    else attempt (sequence_remove_body id position_begin position_end) c

unfoldable pub shifted_ref : ℤ → PageRef → PageRef
shifted_ref delta r = record r {
  logical_token_begin = pos_part (pos r.logical_token_begin +ℤ delta) % u32_mod;
}

-- The references are written one by one; a throw leaves those before it shifted.
unfoldable pub shift_refs : ℕ → ℕ → ℤ → List PageRef → Cache → Pass (List PageRef)
unfolding shifted_ref count_unsupported
shift_refs b e delta [] c = passes [] c
shift_refs b e delta (r ∷ rs) c =
    let rest = shift_refs b e delta rs c in
    if leb b r.logical_token_begin && leb (ref_end r) e
    then (if ltb_ℤ (pos r.logical_token_begin +ℤ delta) (pos 0)
        then stops negative_token (r ∷ rs) c
        else pass_map (λ done. shifted_ref delta r ∷ done) rest)
    else if ltb r.logical_token_begin e && ltb b (ref_end r)
    then stops shift_misaligned (r ∷ rs) (count_unsupported c)
    else pass_map (λ done. r ∷ done) rest

abbrev pub checked_order : LayerState → Cache → Pass LayerState
checked_order l c = elim (validate_page_order l) [
  | some e ↦ stops e l c
  | none ↦ passes (record l { descriptor_generation = add64 l.descriptor_generation 1 }) c
]

unfoldable pub shift_tail : ℕ → ℕ → ℤ → LayerState → Cache → Pass LayerState
shift_tail b e delta l c =
    if ltb 0 l.active_token_count && leb b l.active_token_begin && leb (active_end l) e
    then (if ltb_ℤ (pos l.active_token_begin +ℤ delta) (pos 0)
        then stops negative_active l c
        else checked_order
            (record l {
              active_token_begin = pos_part (pos l.active_token_begin +ℤ delta) % u32_mod;
            })
            c)
    else checked_order l c

unfoldable pub shift_layer : ℕ → ℕ → ℤ → LayerState → Cache → Pass LayerState
unfolding shift_refs shift_tail
shift_layer b e delta l c = elim (shift_refs b e delta l.sealed_pages c) [
  | passes rs c' ↦ shift_tail b e delta (record l { sealed_pages = rs }) c'
  | stops x rs c' ↦ stops x (record l { sealed_pages = rs }) c'
]

unfoldable pub shift_counted : ℕ → ℤ → Cache → Cache
unfolding update_sequence
shift_counted id delta c =
    let d = update_sequence id shifted c in
    record d {
      global_generation = add64 d.global_generation 1;
      counters = record d.counters { sequences_shifted = add64 d.counters.sequences_shifted 1 };
    }
  where
    shifted : SequenceState → SequenceState
    shifted s = record s {
      logical_shift = s.logical_shift +ℤ delta;
      topology_generation = add64 s.topology_generation 1;
    }

-- The try block.
unfoldable pub sequence_shift_body : ℕ → ℕ → ℕ → ℤ → M (Unit {0})
unfolding shift_counted write_layers shift_layer
sequence_shift_body id b e delta = do
  start ← get
  s ← require no_sequence (find id start.sequences)
  (λ d. write_layers id s (each_layer (shift_layer b e delta) s.layers d))
  d ← get
  put (shift_counted id delta d)
  maybe_audit

unfoldable pub sequence_shift : ℕ → ℕ → ℕ → ℤ → Cache → Cache × Status
unfolding sequence_shift_body
sequence_shift id b e delta c =
    if ltb e b then (c, failure) else attempt (sequence_shift_body id b e delta) c
