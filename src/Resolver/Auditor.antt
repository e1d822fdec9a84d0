-- ===== src/Resolver/Auditor.antt =====
-- cf_ms_cuda_audit of src/cuda/multisequence_cuda_resolver.cu.
use chromo_fold.Prelude.{ℕ, Bool, true, ◌&&◌, ◌||◌, List, [], ◌∷◌, ◌++◌, ◌==◌, if◌then◌else◌, count}
use chromo_fold.Prelude.Map.{Map}
use chromo_fold.Resolver.Types.{
  SharedPage, PageRef, LayerState, SequenceState, Resolver, Status, success, failure,
}
use chromo_fold.Resolver.Device.{are_available}

-- The pages that are observed, once for each reference.
unfoldable pub ref_ids : List PageRef → List ℕ
ref_ids [] = []
ref_ids (ref ∷ refs) = ref.page_id ∷ ref_ids refs

unfoldable pub layer_ids : List LayerState → List ℕ
unfolding ref_ids
layer_ids [] = []
layer_ids (l ∷ ls) = ref_ids l.pages ++ layer_ids ls

sequence_ids : Map SequenceState → List ℕ
unfolding layer_ids
sequence_ids [] = []
sequence_ids ((id, s) ∷ m) = layer_ids s.layers ++ sequence_ids m

unfoldable pub audit_layers : List LayerState → Map SharedPage → Bool
audit_layers [] pages = true
audit_layers (l ∷ ls) pages = are_available l.pages pages && audit_layers ls pages

unfoldable pub audit_sequences : Map SequenceState → Map SharedPage → Bool
unfolding audit_layers
audit_sequences [] pages = true
audit_sequences ((id, s) ∷ m) pages =
    id == s.id && audit_layers s.layers pages && audit_sequences m pages

unfoldable pub audit_pages : List ℕ → Map SharedPage → Bool
audit_pages observed [] = true
audit_pages observed ((id, p) ∷ m) =
    (p.retired || p.logical_refs == count id observed) && audit_pages observed m

unfoldable pub audit : Resolver → Status
unfolding audit_sequences audit_pages sequence_ids
audit r =
    if audit_sequences r.sequences r.pages
      && audit_pages (sequence_ids r.sequences) r.pages
      && r.counters.cross_sequence_contamination == 0
      && r.counters.dense_fallback_launches == 0
    then success
    else failure
