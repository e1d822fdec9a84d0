-- ===== src/Cache/Sound/InPlace.antt =====
-- Calls that write positions, counts and counters alone: no reference changes, whether they succeed
-- or throw in the middle of a loop (src/multisequence_cache.cpp).
use chromo_fold.Prelude.{
  ℕ, suc, ◌≡◌, refl, sym, ◌∙◌, ap, inl, inr, some, List, [], ◌∷◌, Option-cases, length, subst,
}
use chromo_fold.Prelude.Map.{find, assign, erase}
use chromo_fold.Cache.Types.{Cache, Counters, LayerState, SequenceState}
use chromo_fold.Cache.Outcome.{Pass, passes, stops, pass_map, each_layer}
use chromo_fold.Cache.Pages.{ref_ids, layer_ids}
use chromo_fold.Cache.Edit.{write_layers, update_sequence}
use chromo_fold.Cache.Holds.{Holds}
use chromo_fold.Cache.Holds.Groups.{plus_all}
use chromo_fold.Cache.Sound.{
  refs, IsSound, SameParts, Holds-parts, IsSound-parts, Ends, assigned-IsSound, split-Holds,
}

-- However the loop ends, P holds of what it wrote and of the state.
abbrev pub PassEnds {κ} : {A : Type 0} → (A → Cache → Type κ) → Pass A → Type κ
PassEnds P (passes a c) = P a c
PassEnds P (stops e a c) = P a c

pub record IsQuiet (l l' : LayerState) (c d : Cache) : Type 0 where
  pub ids : ref_ids l'.sealed_pages ≡ ref_ids l.sealed_pages
  pub parts : SameParts c d

pub record AreQuiet (ls ls' : List LayerState) (c d : Cache) : Type 0 where
  pub ids : layer_ids ls' ≡ layer_ids ls
  pub sized : length ls' ≡ length ls
  pub parts : SameParts c d

pub SameParts-refl : (c : Cache) → SameParts c c
SameParts-refl c = record { config = refl; sequences = refl; page_store = refl; retired = refl }

SameParts-trans : {c d e : Cache} → SameParts c d → SameParts d e → SameParts c e
SameParts-trans s t = record {
  config = t.config ∙ s.config;
  sequences = t.sequences ∙ s.sequences;
  page_store = t.page_store ∙ s.page_store;
  retired = t.retired ∙ s.retired;
}

each_layer-cons :
    (l l' : LayerState) (ls : List LayerState) (c d : Cache) (o : Pass (List LayerState))
    → IsQuiet l l' c d
    → PassEnds (λ ls' e. AreQuiet ls ls' d e) o
    → PassEnds (λ ls' e. AreQuiet (l ∷ ls) ls' c e) (pass_map (λ rest. l' ∷ rest) o)
unfolding layer_ids
each_layer-cons l l' ls c d (passes ls' e) h g = record {
  ids = rw (h.ids, g.ids) refl;
  sized = ap suc g.sized;
  parts = SameParts-trans h.parts g.parts;
}
each_layer-cons l l' ls c d (stops x ls' e) h g = record {
  ids = rw (h.ids, g.ids) refl;
  sized = ap suc g.sized;
  parts = SameParts-trans h.parts g.parts;
}

module _ (f : LayerState → Cache → Pass LayerState)
    (quiet : (l : LayerState) (c : Cache) → PassEnds (λ l' d. IsQuiet l l' c d) (f l c)) where
  each_layer-step :
      (l : LayerState) (ls : List LayerState) (c : Cache)
      → ((d : Cache) → PassEnds (λ ls' e. AreQuiet ls ls' d e) (each_layer f ls d))
      → (o : Pass LayerState) → PassEnds (λ l' d. IsQuiet l l' c d) o
      → PassEnds
          (λ ls' d. AreQuiet (l ∷ ls) ls' c d)
          (elim o [
            | passes l' c' ↦ pass_map (λ rest. l' ∷ rest) (each_layer f ls c')
            | stops e l' c' ↦ stops e (l' ∷ ls) c'
          ])
  unfolding layer_ids
  each_layer-step l ls c rest (passes l' d) h =
      each_layer-cons l l' ls c d (each_layer f ls d) h (rest d)
  each_layer-step l ls c rest (stops e l' d) h = record {
    ids = rw h.ids refl;
    sized = refl;
    parts = h.parts;
  }

  pub each_layer-AreQuiet :
      (ls : List LayerState) (c : Cache)
      → PassEnds (λ ls' d. AreQuiet ls ls' c d) (each_layer f ls c)
  unfolding each_layer
  each_layer-AreQuiet [] c = record { ids = refl; sized = refl; parts = SameParts-refl c }
  each_layer-AreQuiet (l ∷ ls) c =
      each_layer-step l ls c (λ d. each_layer-AreQuiet ls d) (f l c) (quiet l c)

-- A sequence is written with the same references.
pub rewritten-IsSound :
    (c d : Cache) (id : ℕ) (s t : SequenceState)
    → IsSound c
    → SameParts c d
    → find id c.sequences ≡ some s
    → t.id ≡ s.id
    → layer_ids t.layers ≡ layer_ids s.layers
    → length t.layers ≡ length s.layers
    → IsSound (record d { sequences = assign id t d.sequences })
rewritten-IsSound c d id s t v same here own ids sized =
    assigned-IsSound c.config c.sequences v.shaped id s t
      (record d { sequences = assign id t d.sequences }) here own sized same.config
      (ap (assign id t) same.sequences)
      (subst
        (λ l.
          Holds (plus_all l (refs (erase id c.sequences)))
            (record d { sequences = assign id t d.sequences }))
        (sym ids) (Holds-parts same.page_store same.retired (split-Holds c id s v here)))

pub write_layers-Ends :
    (id : ℕ) (s : SequenceState) (c : Cache) (o : Pass (List LayerState))
    → IsSound c
    → find id c.sequences ≡ some s
    → PassEnds (λ ls d. AreQuiet s.layers ls c d) o
    → Ends IsSound (write_layers id s o)
unfolding write_layers
write_layers-Ends id s c (passes ls d) v here q =
    rewritten-IsSound c d id s (record s { layers = ls }) v q.parts here refl q.ids q.sized
write_layers-Ends id s c (stops e ls d) v here q =
    rewritten-IsSound c d id s (record s { layers = ls }) v q.parts here refl q.ids q.sized

-- The fields of a sequence beside its number and its layers.
pub update_sequence-IsSound :
    (id : ℕ) (f : SequenceState → SequenceState) (c : Cache)
    → ((s : SequenceState) → (f s).id ≡ s.id)
    → ((s : SequenceState) → (f s).layers ≡ s.layers)
    → IsSound c
    → IsSound (update_sequence id f c)
unfolding update_sequence
update_sequence-IsSound id f c own same v = elim (Option-cases (find id c.sequences)) [
  | inl e ↦ rw (e, update_sequence) v
  | inr (s, e) ↦
      rw (e, update_sequence)
        (rewritten-IsSound c c id s (f s) v (SameParts-refl c) e (own s) (ap layer_ids (same s))
          (ap length (same s)))
]

pub recast-IsSound :
    (c : Cache) (generation : ℕ) (k : Counters)
    → IsSound c
    → IsSound (record c { global_generation = generation; counters = k })
recast-IsSound c generation k =
    IsSound-parts (record { config = refl; sequences = refl; page_store = refl; retired = refl })
