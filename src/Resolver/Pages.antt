-- ===== src/Resolver/Pages.antt =====
-- Copies, removals and shifts of whole sequences in src/cuda/multisequence_cuda_resolver.cu.
use chromo_fold.Prelude.{
  ℕ, ◌-◌, Bool, true, false, ◌&&◌, none, some, List, [], ◌∷◌, max, ltb, ◌==◌, if◌then◌else◌,
}
use chromo_fold.Prelude.Words.{add32, add64}
use chromo_fold.Prelude.Int.{ℤ, pos, ◌+ℤ◌, ltb_ℤ, leb_ℤ}
use chromo_fold.Prelude.Map.{find, assign, erase, upsert}
use chromo_fold.Resolver.Types.{
  SharedPage, PageRef, ActivePage, LayerState, Resolver, Status, success, failure, Pass, passes,
  stops, missing_source, missing_sequence, logical_underflow, partial_shift, no_such_page,
}
use chromo_fold.Resolver.Device.{released, refresh_descriptor_table}
use chromo_fold.Resolver.Sequences.{
  cleared, failed, count_cuda_error, empty_active, empty_layer, put_sequence, put_layers,
  fill_active,
}

-- ++resolver->pages.at(page_id).logical_refs
unfoldable pub count_ref : ℕ → SharedPage → Resolver → Resolver
count_ref id p r = record r {
  pages = assign id (record p { logical_refs = add32 p.logical_refs 1 }) r.pages;
}

unfoldable pub count_refs : List PageRef → Resolver → Pass (Unit {0})
unfolding count_ref
count_refs [] r = passes tt r
count_refs (ref ∷ refs) r = elim (find ref.page_id r.pages) [
  | none ↦ stops no_such_page tt r
  | some p ↦ count_refs refs (count_ref ref.page_id p r)
]

copied_active : ActivePage → ActivePage → ActivePage
copied_active source a = record a {
  token_begin = source.token_begin;
  token_count = source.token_count;
  generation = add64 source.generation 1;
}

abbrev count_tail_copy : Resolver → Resolver
count_tail_copy r = record r {
  counters = record r.counters {
    copy_on_write_tail_copies = add64 r.counters.copy_on_write_tail_copies 1;
  };
}

-- The active page of a layer that is copied into a new one.
unfoldable pub copy_active : ActivePage → Resolver → Pass ActivePage
unfolding fill_active copied_active
copy_active source r =
    if source.token_count == 0 then passes empty_active r else elim (fill_active empty_active r) [
      | stops e a r' ↦ stops e a r'
      | passes a r' ↦ passes (copied_active source a) (count_tail_copy r')
    ]

unfoldable pub copy_layer : LayerState → Resolver → Pass LayerState
unfolding count_refs copy_active refresh_descriptor_table
copy_layer source r =
    let target = record empty_layer { pages = source.pages } in
    elim (count_refs source.pages r) [
      | stops e _ r1 ↦ stops e target r1
      | passes _ r1 ↦ elim (copy_active source.active r1) [
        | stops e a r2 ↦ stops e (record target { active = a }) r2
        | passes a r2 ↦ refresh_descriptor_table (record target { active = a }) r2
      ]
    ]

-- A sequence has as many layers as the configuration says.
unfoldable pub copy_layers : List LayerState → Resolver → Pass (List LayerState)
unfolding copy_layer
copy_layers [] r = passes [] r
copy_layers (l ∷ ls) r = elim (copy_layer l r) [
  | stops e l' r' ↦ stops e (l' ∷ []) r'
  | passes l' r' ↦ elim (copy_layers ls r') [
    | stops e ls' r2 ↦ stops e (l' ∷ ls') r2
    | passes ls' r2 ↦ passes (l' ∷ ls') r2
  ]
]

-- The candidate takes the place of a sequence that was there.
unfoldable pub copied : ℕ → List LayerState → Resolver → Resolver
copied destination layers r = cleared (record r {
  sequences =
      upsert destination
        (record { id = destination; layers = layers; topology_generation = 1; dispatchable = true })
        r.sequences;
})

unfoldable pub copy_sequence : Resolver → ℕ → ℕ → Resolver × Status
unfolding copy_layers copied
copy_sequence r source destination =
    if source == destination then (r, failure) else elim (find source r.sequences) [
      | none ↦ (failed missing_source (count_cuda_error r), failure)
      | some s ↦ elim (copy_layers s.layers r) [
        | stops e ls r' ↦ (failed e (count_cuda_error r'), failure)
        | passes ls r' ↦ (copied destination ls r', success)
      ]
    ]

-- The last reference retires the page.
unfoldable pub retire_counts : SharedPage → Resolver → Resolver
retire_counts p r =
    let bytes = add64 r.counters.pending_reclamation_bytes p.resident_bytes in
    record r {
      counters = record r.counters {
        pages_retired = add64 r.counters.pages_retired 1;
        pending_reclamation_bytes = bytes;
        pending_reclamation_bytes_peak = max r.counters.pending_reclamation_bytes_peak bytes;
      };
    }

unfoldable pub drop_ref : ℕ → SharedPage → Resolver → Resolver
unfolding retire_counts
drop_ref id p r =
    let q = record r {
      pages =
          assign id
            (record p {
              logical_refs = p.logical_refs - 1;
              retired = if p.logical_refs == 1 then true else p.retired;
            })
            r.pages;
    } in
    if p.logical_refs == 1 then retire_counts p q else q

unfoldable pub drop_refs : List PageRef → Resolver → Pass (Unit {0})
unfolding drop_ref
drop_refs [] r = passes tt r
drop_refs (ref ∷ refs) r = elim (find ref.page_id r.pages) [
  | none ↦ stops no_such_page tt r
  | some p ↦
      if p.logical_refs == 0
      then stops logical_underflow tt r
      else drop_refs refs (drop_ref ref.page_id p r)
]

layer_released : LayerState → LayerState
unfolding released
layer_released l = record l {
  descriptors = released l.descriptors;
  active = record l.active { keys = released l.active.keys; values = released l.active.values };
}

unfoldable pub drop_layers : List LayerState → Resolver → Pass (List LayerState)
unfolding drop_refs layer_released
drop_layers [] r = passes [] r
drop_layers (l ∷ ls) r = elim (drop_refs l.pages r) [
  | stops e _ r' ↦ stops e (l ∷ ls) r'
  | passes _ r' ↦ elim (drop_layers ls r') [
    | stops e ls' r2 ↦ stops e (layer_released l ∷ ls') r2
    | passes ls' r2 ↦ passes (layer_released l ∷ ls') r2
  ]
]

unfoldable pub sequence_remove : Resolver → ℕ → Resolver × Status
unfolding drop_layers
sequence_remove r id = elim (find id r.sequences) [
  | none ↦ (failed missing_sequence r, failure)
  | some s ↦ elim (drop_layers s.layers r) [
    | stops e ls r' ↦ (failed e (put_layers id s ls r'), failure)
    | passes ls r' ↦ (record r' { sequences = erase id r'.sequences }, success)
  ]
]

-- A reference is moved if its page lies in the range. A page that lies there in part is thrown at
-- (false), and the references before it stay moved. The sum of a position and the offset does not
-- overflow an int64_t.
unfoldable pub shift_refs : ℕ → ℕ → ℕ → ℤ → List PageRef → Bool × List PageRef
shift_refs size b e delta [] = (true, [])
shift_refs size b e delta (ref ∷ refs) =
    let rest = shift_refs size b e delta refs in
    let moved = record ref { logical_token_begin = ref.logical_token_begin +ℤ delta } in
    let end = ref.logical_token_begin +ℤ pos size in
    if leb_ℤ (pos b) ref.logical_token_begin && leb_ℤ end (pos e)
    then (rest.0, moved ∷ rest.1)
    else if ltb_ℤ ref.logical_token_begin (pos e) && ltb_ℤ (pos b) end
    then (false, ref ∷ refs)
    else (rest.0, ref ∷ rest.1)

pub shift_layers : ℕ → ℕ → ℕ → ℤ → List LayerState → Bool × List LayerState
unfolding shift_refs
shift_layers size b e delta [] = (true, [])
shift_layers size b e delta (l ∷ ls) =
    let refs = shift_refs size b e delta l.pages in
    let rest = shift_layers size b e delta ls in
    let shifted = record l { pages = refs.1 } in
    if refs.0 then (rest.0, shifted ∷ rest.1) else (false, shifted ∷ ls)

unfoldable pub shift_sequence : Resolver → ℕ → ℕ → ℕ → ℤ → Resolver × Status
unfolding shift_layers
shift_sequence r id b e delta = if ltb e b then (r, failure) else elim (find id r.sequences) [
  | none ↦ (failed missing_sequence r, failure)
  | some s ↦
      let result = shift_layers r.config.page_size b e delta s.layers in
      if result.0
      then (
        put_sequence id
            (record s { layers = result.1; topology_generation = add64 s.topology_generation 1 }) r,
        success,
      )
      else (failed partial_shift (put_layers id s result.1 r), failure)
]
