-- ===== src/Cache/Sound/Copy.antt =====
-- Creation and copies keep the reference counts (src/multisequence_cache.cpp).
use chromo_fold.Prelude.{
  ℕ, zero, suc, ◌≤◌, ◌<◌, ◌≡◌, refl, sym, ◌∙◌, ap, inl, inr, false, ◌||◌, none, some, List, [], ◌∷◌,
  arith, ◌==◌, ltb, if_elim, All-append, All-split, Bool-cases, Option-cases, count, length,
  length-replicate, replicate, All, subst,
}
use chromo_fold.Prelude.Words.{add64}
use chromo_fold.Prelude.Map.{
  Map, find, contains, emplace, erase, find-erase_self, total-erase, le-total, erase-missing,
}
use chromo_fold.Cache.Types.{Cache, PageRef, LayerState, SequenceState}
use chromo_fold.Cache.Outcome.{returns, ◌>>=◌, Status}
use chromo_fold.Cache.Pages.{ref_ids, layer_ids, release_sequence_pages}
use chromo_fold.Cache.Create.{
  created, sequence_create_body, sequence_create, in_range, copied_refs, copied_layers, drop_old,
  copied, copy_layers, sequence_copy_body, sequence_copy, empty_layer, new_sequence,
}
use chromo_fold.Cache.Holds.{Holds, Holds-cong, SameElse}
use chromo_fold.Cache.Holds.Groups.{plus_all, release_pages-Holds, acquire_pages-Holds}
use chromo_fold.Cache.Sound.{
  refs, IsSound, Holds-parts, Ends, refuse-Ends, attempt-IsSound, maybe_audit-IsSound,
  erase-IsShaped, added-IsSound,
}

layer_ids-replicate : (n : ℕ) → layer_ids (replicate n empty_layer) ≡ []
unfolding layer_ids
layer_ids-replicate zero = refl
layer_ids-replicate (suc n) = layer_ids-replicate n

created-IsSound :
    (id : ℕ) (c : Cache) → IsSound c → contains id c.sequences ≡ false → IsSound (created id c)
unfolding created
created-IsSound id c v new =
    added-IsSound c.config c.sequences v.shaped id _ (created id c) new refl
      (length-replicate c.config.layer_count empty_layer) refl refl
      (Holds-cong (λ j. rw (layer_ids-replicate c.config.layer_count) (omega arith))
        (Holds-parts refl refl v.holds))

pub sequence_create-IsSound : (id : ℕ) (c : Cache) → IsSound c → IsSound (sequence_create id c).0
unfolding sequence_create sequence_create_body
sequence_create-IsSound id c v = attempt-IsSound (sequence_create_body id) c (
    refuse-Ends IsSound _ _ _ c (λ _. v)
      λ new. maybe_audit-IsSound (created id c) (created-IsSound id c v new))

-- What a copy refers to, the source refers to.
copied_refs-held :
    (b e : ℕ) (held : ℕ → ℕ) (rs : List PageRef)
    → All (λ id. 0 < held id) (ref_ids rs)
    → All (λ id. 0 < held id) (ref_ids (copied_refs b e rs))
unfolding copied_refs ref_ids
copied_refs-held b e held [] h = tt
copied_refs-held b e held (r ∷ rs) h = elim (Bool-cases (in_range b e r)) [
  | inl whole ↦ rw whole (h.0, copied_refs-held b e held rs h.1)
  | inr part ↦ rw part (copied_refs-held b e held rs h.1)
]

copied_layers-held :
    (b e : ℕ) (held : ℕ → ℕ) (ls : List LayerState)
    → All (λ id. 0 < held id) (layer_ids ls)
    → All (λ id. 0 < held id) (layer_ids (copied_layers b e ls))
unfolding copied_layers layer_ids
copied_layers-held b e held [] h = tt
copied_layers-held b e held (l ∷ ls) h =
    let parts = All-split (λ id. 0 < held id) (ref_ids l.sealed_pages) (layer_ids ls) h in
    All-append (λ id. 0 < held id) (ref_ids (copied_refs b e l.sealed_pages)) _
      (copied_refs-held b e held l.sealed_pages parts.0) (copied_layers-held b e held ls parts.1)

-- Every page of a sequence is held.
own_ids-held :
    (ids : List ℕ) (held : ℕ → ℕ) → ((j : ℕ) → count j ids ≤ held j) → All (λ id. 0 < held id) ids
own_ids-held [] held h = tt
own_ids-held (id ∷ ids) held h =
    (ground (arith, h id), own_ids-held ids held (λ j. omega (arith, h j)))

drop_old-IsSound :
    (id : ℕ) (c d : Cache) (ids : List ℕ)
    → IsSound c
    → Holds (plus_all ids (refs c.sequences)) d
    → SameElse c d
    → (f : Cache) × (drop_old id d ≡ returns tt f)
      × (f.config ≡ c.config)
      × (f.sequences ≡ erase id c.sequences)
      × Holds (plus_all ids (refs (erase id c.sequences))) f
unfolding drop_old
drop_old-IsSound id c d ids v h same = elim (Option-cases (find id c.sequences)) [
  | inl e ↦
      let kept = erase-missing id c.sequences e in
      (
        d,
        missing_old e,
        same.config,
        same.sequences ∙ sym kept,
        Holds-cong (λ j. ap (λ (m : Map SequenceState). plus_all ids (refs m) j) (sym kept)) h,
      )
  | inr (old, e) ↦
      let done =
        release_pages-Holds (plus_all ids (refs (erase id c.sequences))) d (layer_ids old.layers) (
          Holds-cong
            (λ j.
              omega (arith, total-erase (λ u. count j (layer_ids u.layers)) id old c.sequences e))
            h) in
      (
        record done.0 { sequences = erase id done.0.sequences },
        present_old old done.0 e done.1,
        done.3.config ∙ same.config,
        ap (erase id) (done.3.sequences ∙ same.sequences),
        Holds-parts refl refl done.2,
      )
]
  where
    missing_old : find id c.sequences ≡ none → drop_old id d ≡ returns tt d
    missing_old e =
        let gone_ : find id d.sequences ≡ none = ap (find id) same.sequences ∙ e in
        rw (gone_, drop_old) refl

    present_old :
        (old : SequenceState) (f : Cache)
        → find id c.sequences ≡ some old
        → release_sequence_pages old d ≡ returns tt f
        → drop_old id d ≡ returns tt (record f { sequences = erase id f.sequences })
    present_old old f e r =
        let here : find id d.sequences ≡ some old = ap (find id) same.sequences ∙ e in
        rw (here, drop_old) (rw (r, ◌>>=◌) refl)

-- The candidate takes its place.
copied-IsSound :
    (id : ℕ) (candidate : SequenceState) (c d : Cache)
    → IsSound c
    → candidate.id ≡ id
    → length candidate.layers ≡ c.config.layer_count
    → d.config ≡ c.config
    → d.sequences ≡ erase id c.sequences
    → Holds (plus_all (layer_ids candidate.layers) (refs (erase id c.sequences))) d
    → IsSound (copied id candidate d)
unfolding copied
copied-IsSound id candidate c d v own layers k m h =
    added-IsSound c.config (erase id c.sequences) (erase-IsShaped c.config c.sequences v.shaped id)
      id candidate (copied id candidate d)
      (ground (arith, find-erase_self id c.sequences v.shaped.distinct)) own layers k
      (ap (emplace id candidate) m) (Holds-parts refl refl h)

length-copied_layers : (b e : ℕ) (ls : List LayerState) → length (copied_layers b e ls) ≡ length ls
unfolding copied_layers
length-copied_layers b e [] = refl
length-copied_layers b e (l ∷ ls) = ap suc (length-copied_layers b e ls)

SameElse-IsSound : (c d : Cache) → IsSound c → SameElse c d → Holds (refs c.sequences) d → IsSound d
SameElse-IsSound c d v same h = record {
  holds = subst (λ m. Holds (refs m) d) (sym same.sequences) h;
  shaped = rw (same.config, same.sequences) v.shaped;
}

copy_layers-Ends :
    (destination generation : ℕ) (layers : List LayerState) (c : Cache)
    → IsSound c
    → All (λ id. 0 < refs c.sequences id) (layer_ids layers)
    → length layers ≡ c.config.layer_count
    → Ends IsSound (copy_layers destination layers generation c)
unfolding copy_layers
copy_layers-Ends destination generation layers c v held sized =
    elim (acquire_pages-Holds (refs c.sequences) c (layer_ids layers) []
      (Holds-cong (λ j. omega arith) v.holds) held) [
        | inr (x, d, e, h, same) ↦ rw (e, ◌>>=◌) (SameElse-IsSound c d v same h)
        | inl (d, e, h, same) ↦
            let old = drop_old-IsSound destination c d (layer_ids layers) v h same in
            rw (e, ◌>>=◌)
              (rw (old.1, ◌>>=◌)
                (maybe_audit-IsSound _ (
                  copied-IsSound destination (new_sequence destination layers generation) c old.0 v
                    refl sized old.2 old.3 old.4)))
      ]

sequence_copy_body-Ends :
    (source destination b e : ℕ) (c : Cache)
    → IsSound c
    → Ends IsSound (sequence_copy_body source destination b e c)
unfolding sequence_copy_body
sequence_copy_body-Ends source destination b e c v = elim (Option-cases (find source c.sequences)) [
  | inl none_ ↦ rw (none_, ◌>>=◌) v
  | inr (s, here) ↦
      rw (here, ◌>>=◌)
        (copy_layers-Ends destination (add64 c.global_generation 1) (copied_layers b e s.layers) c v
          (copied_layers-held b e (refs c.sequences) s.layers (
            own_ids-held (layer_ids s.layers) (refs c.sequences)
              (λ j. le-total (λ u. count j (layer_ids u.layers)) source s c.sequences here)))
          (length-copied_layers b e s.layers ∙ v.shaped.layered source s here))
]

pub sequence_copy-IsSound :
    (source destination b e : ℕ) (c : Cache)
    → IsSound c
    → IsSound (sequence_copy source destination b e c).0
unfolding sequence_copy
sequence_copy-IsSound source destination b e c v =
    if_elim (λ (x : Cache × Status). IsSound x.0) (source == destination || ltb e b) (λ _. v)
      (λ _.
        attempt-IsSound (sequence_copy_body source destination b e) c
          (sequence_copy_body-Ends source destination b e c v))
