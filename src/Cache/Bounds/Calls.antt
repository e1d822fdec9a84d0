-- ===== src/Cache/Bounds/Calls.antt =====
-- Every call of src/multisequence_cache.cpp keeps the active tails within a page.
use chromo_fold.Prelude.{
  ℕ, ◌≤◌, ◌≡◌, ◌∙◌, inl, inr, ◌&&◌, ◌||◌, some, List, [], arith, ltb, ◌==◌, if_elim, Option-cases,
}
use chromo_fold.Prelude.Int.{ℤ, pos, ltb_ℤ}
use chromo_fold.Prelude.Map.{find, contains}
use chromo_fold.Cache.Types.{
  Cache, LayerState, SequenceState, sequence_exists, no_source, no_sequence,
}
use chromo_fold.Cache.Outcome.{Pass, Status, M, ◌>>◌, attempt, each_layer}
use chromo_fold.Cache.Pages.{layer_ids, release_sequence_pages}
use chromo_fold.Cache.Auditor.{maybe_audit}
use chromo_fold.Cache.Create.{
  created, sequence_create_body, sequence_create, acquire_pages, drop_old, copied, copy_layers,
  sequence_copy_body, sequence_copy, update_active_peak,
}
use chromo_fold.Cache.Edit.{
  remove_layer, write_layers, bump_generation, gone, remove_all, removal_counted, remove_range,
  remove_found, sequence_remove_body, sequence_remove, shift_layer, shift_counted,
  sequence_shift_body, sequence_shift,
}
use chromo_fold.Cache.Sound.{
  Ends, refuse-Ends, require-Ends, then-Ends, attempt-Ends, maybe_audit-Ends,
}
use chromo_fold.Cache.Sound.InPlace.{PassEnds}
use chromo_fold.Cache.Bounds.{
  FitLayers, Fits, IsBounded, BoundedAs, Same, AllFit-find, AllFit-erase, AllFit-emplace, Ends-map,
  Same-IsBounded, parts-IsBounded, each_layer-Fits, write_layers-Bounded, update_sequence-IsBounded,
}
use chromo_fold.Cache.Bounds.Parts.{
  FitLayers-replicate, FitLayers-copied_layers, Shrinks, release_pages-Same, acquire_pages-Same,
  remove_layer-Shrinks, shift_layer-Shrinks,
}

pub attempted : (m : M (Unit {0})) (c : Cache) → Ends IsBounded (m c) → IsBounded (attempt m c).0
attempted = attempt-Ends IsBounded parts-IsBounded

pub audited : (c : Cache) → IsBounded c → Ends IsBounded (maybe_audit c)
audited = maybe_audit-Ends IsBounded parts-IsBounded

pub found-Fits :
    (id : ℕ) (s : SequenceState) (c : Cache)
    → IsBounded c
    → find id c.sequences ≡ some s
    → Fits c.config.page_size s
found-Fits id s c v e = AllFit-find c.config.page_size id s c.sequences v e

pub sequence_create-IsBounded :
    (id : ℕ) (c : Cache) → IsBounded c → IsBounded (sequence_create id c).0
unfolding sequence_create sequence_create_body created update_active_peak
sequence_create-IsBounded id c v = attempted (sequence_create_body id) c (
    refuse-Ends IsBounded (contains id c.sequences) sequence_exists _ c (λ _. v)
      λ _. audited (created id c) (
        AllFit-emplace c.config.page_size id _ c.sequences
          (FitLayers-replicate c.config.page_size c.config.layer_count, omega arith) v))

-- The rest of a copy, from a cache like the one at the start.
drop_old-Bounded : (id : ℕ) (c d : Cache) → BoundedAs c d → Ends (BoundedAs c) (drop_old id d)
unfolding drop_old
drop_old-Bounded id c d v = elim (Option-cases (find id d.sequences)) [
  | inl e ↦ rw (e, drop_old) v
  | inr (s, e) ↦
      rw (e, drop_old)
        (then-Ends (BoundedAs c) (release_sequence_pages s) _ d
          (Ends-map (Same d) (BoundedAs c) (release_sequence_pages s d)
            (λ f same. (same.0 ∙ v.0, Same-IsBounded d f same v.1))
            (release_pages-Same (layer_ids s.layers) d))
          λ f w. (w.0, AllFit-erase f.config.page_size id f.sequences w.1))
]

copy_layers-Ends :
    (id : ℕ) (ls : List LayerState) (generation : ℕ) (c : Cache)
    → IsBounded c
    → FitLayers c.config.page_size ls
    → Ends IsBounded (copy_layers id ls generation c)
unfolding copy_layers copied update_active_peak
copy_layers-Ends id ls generation c v h =
    Ends-map (BoundedAs c) IsBounded (copy_layers id ls generation c) (λ d w. w.1)
      (then-Ends (BoundedAs c) (acquire_pages (layer_ids ls) []) _ c
        (Ends-map (Same c) (BoundedAs c) (acquire_pages (layer_ids ls) [] c)
          (λ d same. (same.0, Same-IsBounded c d same v)) (acquire_pages-Same (layer_ids ls) [] c))
        λ d w. then-Ends (BoundedAs c) (drop_old id) _ d (drop_old-Bounded id c d w) λ e u.
          maybe_audit-Ends (BoundedAs c) (λ f g p b. (p.config ∙ b.0, parts-IsBounded f g p b.1)) _
            (u.0, AllFit-emplace e.config.page_size id _ e.sequences (rw u.0 h, omega arith) u.1))

pub sequence_copy-IsBounded :
    (source destination b e : ℕ) (c : Cache)
    → IsBounded c
    → IsBounded (sequence_copy source destination b e c).0
unfolding sequence_copy sequence_copy_body
sequence_copy-IsBounded source destination b e c v =
    if_elim (λ (x : Cache × Status). IsBounded x.0) (source == destination || ltb e b) (λ _. v)
      (λ _. attempted (sequence_copy_body source destination b e) c (
        require-Ends IsBounded no_source (find source c.sequences) _ c (λ _. v)
          λ s here. copy_layers-Ends destination _ _ c v (
            FitLayers-copied_layers c.config.page_size b e s.layers
              (found-Fits source s c v here).0)))

-- The loop over the layers of a sequence, and what is written after it.
pub looped-Ends :
    (id : ℕ) (s : SequenceState) (f : LayerState → Cache → Pass LayerState) (k : M (Unit {0}))
    (c : Cache)
    → IsBounded c
    → find id c.sequences ≡ some s
    → ((l : LayerState) (d : Cache)
        → l.active_token_count ≤ c.config.page_size
        → PassEnds (Shrinks c.config.page_size d) (f l d))
    → ((d : Cache) → IsBounded d → Ends IsBounded (k d))
    → Ends IsBounded ((do (λ d. write_layers id s (each_layer f s.layers d)); k) c)
looped-Ends id s f k c v here shrinks =
    let fits = found-Fits id s c v here in
    then-Ends IsBounded (λ d. write_layers id s (each_layer f s.layers d)) k c
      (write_layers-Bounded id s c (each_layer f s.layers c) v fits.1
        (each_layer-Fits c.config.page_size f shrinks s.layers c fits.0))

remove_range-Ends :
    (id b e : ℕ) (s : SequenceState) (c : Cache)
    → IsBounded c
    → find id c.sequences ≡ some s
    → Ends IsBounded (remove_range id b e s c)
unfolding remove_range removal_counted
remove_range-Ends id b e s c v here =
    looped-Ends id s (remove_layer b e) _ c v here (remove_layer-Shrinks c.config.page_size b e)
      λ d w. update_sequence-IsBounded id bump_generation d (λ t h. h) w

remove_all-Ends :
    (id : ℕ) (s : SequenceState) (c : Cache) → IsBounded c → Ends IsBounded (remove_all id s c)
unfolding remove_all gone update_active_peak
remove_all-Ends id s c v =
    then-Ends IsBounded (release_sequence_pages s) _ c
      (Ends-map (Same c) IsBounded (release_sequence_pages s c)
        (λ d same. Same-IsBounded c d same v) (release_pages-Same (layer_ids s.layers) c))
      λ d w. AllFit-erase d.config.page_size id d.sequences w

remove_found-Ends :
    (id : ℕ) (b e : ℤ) (s : SequenceState) (c : Cache)
    → IsBounded c
    → find id c.sequences ≡ some s
    → Ends IsBounded (remove_found id b e s c)
unfolding remove_found
remove_found-Ends id b e s c v here =
    if_elim (λ (m : M (Unit {0})). Ends IsBounded (m c)) (ltb_ℤ b (pos 0) && ltb_ℤ e (pos 0))
      (λ _. remove_all-Ends id s c v) (λ _. remove_range-Ends id _ _ s c v here)

pub sequence_remove-IsBounded :
    (id : ℕ) (b e : ℤ) (c : Cache) → IsBounded c → IsBounded (sequence_remove id b e c).0
unfolding sequence_remove sequence_remove_body
sequence_remove-IsBounded id b e c v =
    if_elim (λ (x : Cache × Status). IsBounded x.0) (ltb_ℤ e b) (λ _. v)
      (λ _. attempted (sequence_remove_body id b e) c (
        require-Ends IsBounded no_sequence (find id c.sequences) _ c (λ _. v)
          λ s here.
            then-Ends IsBounded (remove_found id b e s) _ c (remove_found-Ends id b e s c v here)
              audited))

pub sequence_shift-IsBounded :
    (id b e : ℕ) (delta : ℤ) (c : Cache) → IsBounded c → IsBounded (sequence_shift id b e delta c).0
unfolding sequence_shift sequence_shift_body shift_counted
sequence_shift-IsBounded id b e delta c v =
    if_elim (λ (x : Cache × Status). IsBounded x.0) (ltb e b) (λ _. v)
      (λ _. attempted (sequence_shift_body id b e delta) c (
        require-Ends IsBounded no_sequence (find id c.sequences) _ c (λ _. v)
          λ s here.
            looped-Ends id s (shift_layer b e delta) _ c v here
              (λ l d. shift_layer-Shrinks c.config.page_size b e delta l d)
              λ d w. audited _ (update_sequence-IsBounded id _ d (λ t h. h) w)))
