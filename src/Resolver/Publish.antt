-- ===== src/Resolver/Publish.antt =====
-- The publication of pages in src/cuda/multisequence_cuda_resolver.cu.
use chromo_fold.Prelude.{
  Bool, false, ◌||◌, none, some, [], ◌∷◌, ◌++◌, ◌==◌, if◌then◌else◌, get_elem?, set,
}
use chromo_fold.Prelude.Words.{add64}
use chromo_fold.Prelude.Int.{pos}
use chromo_fold.Prelude.Map.{find, emplace}
use chromo_fold.Resolver.Types.{
  PageDescriptor, PagePublication, SharedPage, LayerState, SequenceState, Error, Resolver, Status,
  success, failure, passes, stops, invalid_target, incomplete_descriptor,
}
use chromo_fold.Resolver.Device.{refresh_descriptor_table}
use chromo_fold.Resolver.Sequences.{cleared, failed, put_layers, put_sequence}

abbrev publication_failed : Error → Resolver → Resolver
publication_failed e r = failed e (record r {
  counters = record r.counters {
    page_registration_failures = add64 r.counters.page_registration_failures 1;
  };
})

pub is_incomplete : PageDescriptor → Bool
is_incomplete d =
    d.key_payload == 0 || d.value_payload == 0 || d.key_scales == 0 || d.value_scales == 0

abbrev pub new_page : Resolver → PagePublication → SharedPage
new_page r p = record {
  id = r.next_page_id;
  seal_generation = p.seal_generation;
  descriptor = p.descriptor;
  resident_bytes = p.resident_bytes;
  logical_refs = 1;
  in_flight_refs = 0;
  retired = false;
  retirement_event = 0;
}

unfoldable pub page_emplaced : Resolver → PagePublication → Resolver
page_emplaced r p = record r {
  next_page_id = add64 r.next_page_id 1;
  pages = emplace r.next_page_id (new_page r p) r.pages;
}

pub ref_pushed : Resolver → PagePublication → LayerState → LayerState
ref_pushed r p l = record l {
  pages =
      l.pages
      ++ record { page_id = r.next_page_id; logical_token_begin = pos p.descriptor.token_begin }
        ∷ [];
}

unfoldable pub published : PagePublication → SequenceState → LayerState → Resolver → Resolver
published p s l r =
    let q =
      put_sequence p.sequence_id
        (record s {
          layers = set s.layers p.layer l;
          topology_generation = add64 s.topology_generation 1;
        })
        r in
    cleared (record q {
      counters = record q.counters { pages_registered = add64 q.counters.pages_registered 1 };
    })

-- A page whose table cannot be published stays in its layer.
unfoldable pub publish_at :
    Resolver → PagePublication → SequenceState → LayerState → Resolver × Status
unfolding page_emplaced ref_pushed refresh_descriptor_table published
publish_at r p s l = elim (refresh_descriptor_table (ref_pushed r p l) (page_emplaced r p)) [
  | stops e l' r' ↦
      (publication_failed e (put_layers p.sequence_id s (set s.layers p.layer l') r'), failure)
  | passes l' r' ↦ (published p s l' r', success)
]

unfoldable pub publish_page : Resolver → PagePublication → Resolver × Status
unfolding is_incomplete publish_at
publish_page r p = elim (find p.sequence_id r.sequences) [
  | none ↦ (publication_failed invalid_target r, failure)
  | some s ↦ elim (get_elem? s.layers p.layer) [
    | none ↦ (publication_failed invalid_target r, failure)
    | some l ↦
        if is_incomplete p.descriptor
        then (publication_failed incomplete_descriptor r, failure)
        else publish_at r p s l
  ]
]
