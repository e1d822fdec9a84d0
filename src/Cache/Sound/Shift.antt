-- ===== src/Cache/Sound/Shift.antt =====
-- A context shift keeps the reference counts, whether it succeeds or throws half-way
-- (src/multisequence_cache.cpp).
use chromo_fold.Prelude.{
  ℕ, ◌≡◌, refl, inl, inr, ◌&&◌, List, [], ◌∷◌, ltb, leb, if◌then◌else◌, if_elim, Option-cases,
}
use chromo_fold.Prelude.Int.{ℤ, pos, ◌+ℤ◌, ltb_ℤ}
use chromo_fold.Prelude.Map.{find}
use chromo_fold.Cache.Types.{
  Cache, PageRef, LayerState, no_sequence, negative_token, shift_misaligned,
}
use chromo_fold.Cache.Outcome.{Status, Pass, passes, stops, pass_map, each_layer}
use chromo_fold.Cache.Pages.{ref_ids}
use chromo_fold.Cache.Order.{ref_end, active_end, validate_page_order}
use chromo_fold.Cache.Edit.{
  count_unsupported, write_layers, shifted_ref, shift_refs, checked_order, shift_tail, shift_layer,
  shift_counted, sequence_shift_body, sequence_shift,
}
use chromo_fold.Cache.Sound.{
  IsSound, SameParts, require-Ends, then-Ends, attempt-IsSound, maybe_audit-IsSound,
}
use chromo_fold.Cache.Sound.InPlace.{
  PassEnds, IsQuiet, SameParts-refl, each_layer-AreQuiet, write_layers-Ends,
  update_sequence-IsSound, recast-IsSound,
}

unsupported-SameParts : (c : Cache) → SameParts c (count_unsupported c)
unfolding count_unsupported
unsupported-SameParts c = record {
  config = refl;
  sequences = refl;
  page_store = refl;
  retired = refl;
}

cons-quiet :
    (c : Cache) (r r' : PageRef) (rs : List PageRef) (o : Pass (List PageRef))
    → r'.page_id ≡ r.page_id
    → PassEnds (λ rs' d. (ref_ids rs' ≡ ref_ids rs) × SameParts c d) o
    → PassEnds
        (λ rs' d. (ref_ids rs' ≡ ref_ids (r ∷ rs)) × SameParts c d)
        (pass_map (λ rest. r' ∷ rest) o)
unfolding ref_ids
cons-quiet c r r' rs (passes rs' d) e h = (rw (e, h.0) refl, h.1)
cons-quiet c r r' rs (stops x rs' d) e h = (rw (e, h.0) refl, h.1)

shift_refs-step :
    (b e : ℕ) (delta : ℤ) (r : PageRef) (rs : List PageRef) (c : Cache) (rest : Pass (List PageRef))
    → PassEnds (λ rs' d. (ref_ids rs' ≡ ref_ids rs) × SameParts c d) rest
    → PassEnds
        (λ rs' d. (ref_ids rs' ≡ ref_ids (r ∷ rs)) × SameParts c d)
        (if leb b r.logical_token_begin && leb (ref_end r) e
          then (if ltb_ℤ (pos r.logical_token_begin +ℤ delta) (pos 0)
              then stops negative_token (r ∷ rs) c
              else pass_map (λ done. shifted_ref delta r ∷ done) rest)
          else if ltb r.logical_token_begin e && ltb b (ref_end r)
          then stops shift_misaligned (r ∷ rs) (count_unsupported c)
          else pass_map (λ done. r ∷ done) rest)
unfolding shifted_ref
shift_refs-step b e delta r rs c rest below =
    if_elim Same (leb b r.logical_token_begin && leb (ref_end r) e)
      (λ _.
        if_elim Same (ltb_ℤ (pos r.logical_token_begin +ℤ delta) (pos 0))
          (λ _. (refl, SameParts-refl c))
          (λ _. cons-quiet c r (shifted_ref delta r) rs rest refl below))
      λ _.
        if_elim Same (ltb r.logical_token_begin e && ltb b (ref_end r))
          (λ _. (refl, unsupported-SameParts c)) (λ _. cons-quiet c r r rs rest refl below)
  where
    Same : Pass (List PageRef) → Type 0
    Same = PassEnds (λ rs' d. (ref_ids rs' ≡ ref_ids (r ∷ rs)) × SameParts c d)

shift_refs-quiet :
    (b e : ℕ) (delta : ℤ) (rs : List PageRef) (c : Cache)
    → PassEnds (λ rs' d. (ref_ids rs' ≡ ref_ids rs) × SameParts c d) (shift_refs b e delta rs c)
unfolding shift_refs ref_ids
shift_refs-quiet b e delta [] c = (refl, SameParts-refl c)
shift_refs-quiet b e delta (r ∷ rs) c =
    shift_refs-step b e delta r rs c (shift_refs b e delta rs c) (shift_refs-quiet b e delta rs c)

checked_order-IsQuiet :
    (l m : LayerState) (c d : Cache)
    → ref_ids m.sealed_pages ≡ ref_ids l.sealed_pages
    → SameParts c d
    → PassEnds (λ l' e. IsQuiet l l' c e) (checked_order m d)
checked_order-IsQuiet l m c d ids parts = elim (Option-cases (validate_page_order m)) [
  | inl e ↦ rw (e, checked_order) (record { ids = ids; parts = parts })
  | inr (x, e) ↦ rw (e, checked_order) (record { ids = ids; parts = parts })
]

shift_tail-IsQuiet :
    (b e : ℕ) (delta : ℤ) (l m : LayerState) (c d : Cache)
    → ref_ids m.sealed_pages ≡ ref_ids l.sealed_pages
    → SameParts c d
    → PassEnds (λ l' f. IsQuiet l l' c f) (shift_tail b e delta m d)
unfolding shift_tail
shift_tail-IsQuiet b e delta l m c d ids parts =
    if_elim (PassEnds (λ l' f. IsQuiet l l' c f))
      (ltb 0 m.active_token_count && leb b m.active_token_begin && leb (active_end m) e)
      (λ _.
        if_elim (PassEnds (λ l' f. IsQuiet l l' c f))
          (ltb_ℤ (pos m.active_token_begin +ℤ delta) (pos 0))
          (λ _. record { ids = ids; parts = parts }) (λ _. checked_order-IsQuiet l _ c d ids parts))
      (λ _. checked_order-IsQuiet l m c d ids parts)

shift_layer-IsQuiet :
    (b e : ℕ) (delta : ℤ) (l : LayerState) (c : Cache)
    → PassEnds (λ l' d. IsQuiet l l' c d) (shift_layer b e delta l c)
unfolding shift_layer
shift_layer-IsQuiet b e delta l c =
    go (shift_refs b e delta l.sealed_pages c) (shift_refs-quiet b e delta l.sealed_pages c)
  where
    go :
        (o : Pass (List PageRef))
        → PassEnds (λ rs' d. (ref_ids rs' ≡ ref_ids l.sealed_pages) × SameParts c d) o
        → PassEnds
            (λ l' d. IsQuiet l l' c d)
            (elim o [
              | passes rs c' ↦ shift_tail b e delta (record l { sealed_pages = rs }) c'
              | stops x rs c' ↦ stops x (record l { sealed_pages = rs }) c'
            ])
    go (passes rs d) h = shift_tail-IsQuiet b e delta l (record l { sealed_pages = rs }) c d h.0 h.1
    go (stops x rs d) h = record { ids = h.0; parts = h.1 }

shift_counted-IsSound :
    (id : ℕ) (delta : ℤ) (c : Cache) → IsSound c → IsSound (shift_counted id delta c)
unfolding shift_counted
shift_counted-IsSound id delta c v =
    recast-IsSound _ _ _ (update_sequence-IsSound id _ c (λ s. refl) (λ s. refl) v)

pub sequence_shift-IsSound :
    (id b e : ℕ) (delta : ℤ) (c : Cache) → IsSound c → IsSound (sequence_shift id b e delta c).0
unfolding sequence_shift sequence_shift_body
sequence_shift-IsSound id b e delta c v =
    if_elim (λ (x : Cache × Status). IsSound x.0) (ltb e b) (λ _. v)
      (λ _. attempt-IsSound (sequence_shift_body id b e delta) c (
        require-Ends IsSound no_sequence (find id c.sequences) _ c (λ _. v)
          λ s here.
            then-Ends IsSound
              (λ d. write_layers id s (each_layer (shift_layer b e delta) s.layers d)) _ c
              (write_layers-Ends id s c _ v here (
                each_layer-AreQuiet (shift_layer b e delta) (shift_layer-IsQuiet b e delta) s.layers
                  c))
              λ d w. maybe_audit-IsSound _ (shift_counted-IsSound id delta d w)))
