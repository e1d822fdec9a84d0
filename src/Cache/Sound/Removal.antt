-- ===== src/Cache/Sound/Removal.antt =====
-- cf_sequence_remove_async keeps the reference counts where it succeeds, and breaks them where it
-- throws behind a page that it released (src/multisequence_cache.cpp).
use chromo_fold.Prelude.{ℕ, ◌≡◌, refl, ap, inl, inr, ◌&&◌, some, List, Bool-cases, Option-cases}
use chromo_fold.Prelude.Int.{ℤ, pos, pos_part, ltb_ℤ}
use chromo_fold.Prelude.Map.{find, assign, erase}
use chromo_fold.Cache.Types.{Cache, LayerState, SequenceState}
use chromo_fold.Cache.Outcome.{
  Outcome, returns, throws, M, ◌>>=◌, ◌>>◌, success, attempt, Pass, passes, stops, each_layer,
}
use chromo_fold.Cache.Pages.{layer_ids}
use chromo_fold.Cache.Auditor.{maybe_audit}
use chromo_fold.Cache.Edit.{
  remove_layer, write_layers, bump_generation, gone, remove_all, removal_counted, remove_range,
  remove_found, sequence_remove_body, sequence_remove,
}
use chromo_fold.Cache.Holds.Groups.{release_pages-Holds}
use chromo_fold.Cache.Sound.{
  refs, IsSound, Holds-parts, IsSound-parts, Ends, maybe_audit-IsSound, erased-IsSound,
  assigned-IsSound, split-Holds,
}
use chromo_fold.Cache.Sound.InPlace.{update_sequence-IsSound, recast-IsSound}
use chromo_fold.Cache.Sound.Remove.{
  Returns, Completes, AreHeldBy, remove_layer-Holds, each_layer-AreHeldBy,
}

abbrev ReturnsSound : Outcome (Unit {0}) → Type 0
ReturnsSound = Returns (λ _ d. IsSound d)

Ends-Returns : (o : Outcome (Unit {0})) → Ends IsSound o → ReturnsSound o
Ends-Returns (returns _ d) h = h
Ends-Returns (throws x d) h = tt

then-Returns :
    (m k : M (Unit {0})) (c : Cache)
    → ReturnsSound (m c)
    → ((d : Cache) → IsSound d → ReturnsSound (k d))
    → ReturnsSound ((do m; k) c)
then-Returns m k c = go (m c)
  where
    go :
        (o : Outcome (Unit {0}))
        → ReturnsSound o
        → ((d : Cache) → IsSound d → ReturnsSound (k d))
        → ReturnsSound ((do (λ _. o); k) c)
    go (returns a d) v next = next d v
    go (throws e d) v next = tt

attempt-Returns :
    (m : M (Unit {0})) (c : Cache)
    → (attempt m c).1 ≡ success
    → ReturnsSound (m c)
    → IsSound (attempt m c).0
attempt-Returns m c = go (m c)
  where
    go :
        (o : Outcome (Unit {0}))
        → (attempt (λ _. o) c).1 ≡ success
        → ReturnsSound o
        → IsSound (attempt (λ _. o) c).0
    go (returns a d) ok v =
        IsSound-parts
          (record { config = refl; sequences = refl; page_store = refl; retired = refl }) v
    go (throws e d) ok v = cc

remove_all-Ends :
    (id : ℕ) (s : SequenceState) (c : Cache)
    → IsSound c
    → find id c.sequences ≡ some s
    → Ends IsSound (remove_all id s c)
unfolding remove_all gone
remove_all-Ends id s c v here =
    let done =
      release_pages-Holds (refs (erase id c.sequences)) c (layer_ids s.layers)
        (split-Holds c id s v here) in
    rw (done.1, ◌>>=◌)
      (erased-IsSound c (gone id done.0) id v done.3.config (ap (erase id) done.3.sequences)
        (Holds-parts refl refl done.2))

write_layers-Returns :
    (id : ℕ) (s : SequenceState) (c : Cache) (o : Pass (List LayerState))
    → IsSound c
    → find id c.sequences ≡ some s
    → Completes (λ ls d. AreHeldBy (refs (erase id c.sequences)) s.layers ls c d) o
    → ReturnsSound (write_layers id s o)
unfolding write_layers
write_layers-Returns id s c (passes ls d) v here h =
    assigned-IsSound c.config c.sequences v.shaped id s (record s { layers = ls })
      (record d { sequences = assign id (record s { layers = ls }) d.sequences }) here refl h.sized
      h.same.config (ap (assign id (record s { layers = ls })) h.same.sequences)
      (Holds-parts refl refl h.holds)
write_layers-Returns id s c (stops x ls d) v here h = tt

remove_range-Returns :
    (id b e : ℕ) (s : SequenceState) (c : Cache)
    → IsSound c
    → find id c.sequences ≡ some s
    → ReturnsSound (remove_range id b e s c)
unfolding remove_range removal_counted
remove_range-Returns id b e s c v here =
    then-Returns (λ d. write_layers id s (each_layer (remove_layer b e) s.layers d)) _ c
      (write_layers-Returns id s c _ v here (
        each_layer-AreHeldBy (remove_layer b e) (remove_layer-Holds b e)
          (refs (erase id c.sequences)) s.layers c (split-Holds c id s v here)))
      λ d w.
        recast-IsSound _ _ _
          (update_sequence-IsSound id bump_generation d (λ t. refl) (λ t. refl) w)

remove_found-Returns :
    (id : ℕ) (b e : ℤ) (s : SequenceState) (c : Cache)
    → IsSound c
    → find id c.sequences ≡ some s
    → ReturnsSound (remove_found id b e s c)
unfolding remove_found
remove_found-Returns id b e s c v here = elim (Bool-cases (ltb_ℤ b (pos 0) && ltb_ℤ e (pos 0))) [
  | inl all ↦ rw all (Ends-Returns (remove_all id s c) (remove_all-Ends id s c v here))
  | inr part ↦ rw part (remove_range-Returns id (pos_part b) (pos_part e) s c v here)
]

sequence_remove_body-Returns :
    (id : ℕ) (b e : ℤ) (c : Cache) → IsSound c → ReturnsSound (sequence_remove_body id b e c)
unfolding sequence_remove_body
sequence_remove_body-Returns id b e c v = elim (Option-cases (find id c.sequences)) [
  | inl missing ↦ rw (missing, ◌>>=◌) tt
  | inr (s, here) ↦
      rw (here, ◌>>=◌)
        (then-Returns (remove_found id b e s) maybe_audit c (remove_found-Returns id b e s c v here)
          λ d w. Ends-Returns (maybe_audit d) (maybe_audit-IsSound d w))
]

-- A removal that succeeds on a sound cache leaves it sound.
pub sequence_remove-IsSound :
    (id : ℕ) (b e : ℤ) (c : Cache)
    → IsSound c
    → (sequence_remove id b e c).1 ≡ success
    → IsSound (sequence_remove id b e c).0
unfolding sequence_remove
sequence_remove-IsSound id b e c v = elim (Bool-cases (ltb_ℤ e b)) [
  | inl bad ↦ rw bad (λ ok. v)
  | inr good ↦ rw good (λ ok.
      attempt-Returns (sequence_remove_body id b e) c ok (sequence_remove_body-Returns id b e c v))
]
