-- ===== src/Cache/Bounds.antt =====
-- Active tails against the size of a page (src/multisequence_cache.cpp): the predicate, and what the
-- parts of the calls keep of it.
pub mod Parts
pub mod Calls
pub mod Invariant
use chromo_fold.Prelude.{
  ℕ, ◌≤◌, ◌≡◌, refl, ◌∙◌, inl, inr, true, false, some, none, List, [], ◌∷◌, arith, ◌==◌,
  if◌then◌else◌, Option-cases, Bool-cases, All,
}
use chromo_fold.Prelude.Map.{Map, find, emplace, assign, erase}
use chromo_fold.Cache.Types.{Cache, LayerState, SequenceState}
use chromo_fold.Cache.Outcome.{
  Outcome, returns, throws, Pass, passes, stops, pass_map, each_layer, M,
}
use chromo_fold.Cache.Edit.{write_layers, update_sequence}
use chromo_fold.Cache.Sound.{Ends, SameParts}
use chromo_fold.Cache.Sound.InPlace.{PassEnds}

-- No layer has more active tokens than a page, nor has the baseline of the speculation.
abbrev pub FitLayers : ℕ → List LayerState → Type 0
FitLayers n ls = All (λ l. l.active_token_count ≤ n) ls

abbrev pub Fits : ℕ → SequenceState → Type 0
Fits n s = FitLayers n s.layers × (s.speculation.baseline_token_count ≤ n)

abbrev AllFit : ℕ → Map SequenceState → Type 0
AllFit n [] = Unit {0}
AllFit n ((id, s) ∷ m) = Fits n s × AllFit n m

abbrev pub IsBounded : Cache → Type 0
IsBounded c = AllFit c.config.page_size c.sequences

-- The configuration and the sequences are the same.
abbrev pub Same : Cache → Cache → Type 0
Same c d = (d.config ≡ c.config) × (d.sequences ≡ c.sequences)

pub AllFit-find :
    (n id : ℕ) (s : SequenceState) (m : Map SequenceState)
    → AllFit n m
    → find id m ≡ some s
    → Fits n s
unfolding find
AllFit-find n id s [] h e = cc
AllFit-find n id s ((j, t) ∷ m) h e = elim (Bool-cases (j == id)) [
  | inl hit ↦ let same : t ≡ s = ground arith in rw (← same) h.0
  | inr miss ↦ AllFit-find n id s m h.1 (ground arith)
]

pub AllFit-assign :
    (n id : ℕ) (s : SequenceState) (m : Map SequenceState)
    → Fits n s
    → AllFit n m
    → AllFit n (assign id s m)
unfolding assign
AllFit-assign n id s [] f h = tt
AllFit-assign n id s ((j, t) ∷ m) f h = elim (Bool-cases (j == id)) [
  | inl hit ↦ rw hit (f, h.1)
  | inr miss ↦ rw miss (h.0, AllFit-assign n id s m f h.1)
]

pub AllFit-erase : (n id : ℕ) (m : Map SequenceState) → AllFit n m → AllFit n (erase id m)
unfolding erase
AllFit-erase n id [] h = tt
AllFit-erase n id ((j, t) ∷ m) h = elim (Bool-cases (j == id)) [
  | inl hit ↦ rw hit h.1
  | inr miss ↦ rw miss (h.0, AllFit-erase n id m h.1)
]

pub AllFit-emplace :
    (n id : ℕ) (s : SequenceState) (m : Map SequenceState)
    → Fits n s
    → AllFit n m
    → AllFit n (emplace id s m)
unfolding emplace
AllFit-emplace n id s m f h = elim (Option-cases (find id m)) [
  | inl new ↦ rw (new, emplace) (f, h)
  | inr (t, old) ↦ rw (old, emplace) h
]

pub Ends-map {κ μ} :
    {A : Type 0} (P : Cache → Type κ) (Q : Cache → Type μ) (o : Outcome A)
    → ((d : Cache) → P d → Q d)
    → Ends P o
    → Ends Q o
Ends-map P Q (returns a d) f h = f d h
Ends-map P Q (throws e d) f h = f d h

pub Same-IsBounded : (c d : Cache) → Same c d → IsBounded c → IsBounded d
Same-IsBounded c d s h = rw (s.0, s.1) h

pub parts-IsBounded : (c d : Cache) → SameParts c d → IsBounded c → IsBounded d
parts-IsBounded c d s h = rw (s.config, s.sequences) h

-- How a loop over the layers ends, from layers that fit.
abbrev FitsPass : ℕ → Cache → Pass (List LayerState) → Type 0
FitsPass n c = PassEnds (λ ls d. FitLayers n ls × Same c d)

module _ (n : ℕ) (f : LayerState → Cache → Pass LayerState)
    (keeps : (l : LayerState) (c : Cache)
      → l.active_token_count ≤ n
      → PassEnds (λ l' d. (l'.active_token_count ≤ n) × Same c d) (f l c)) where
  each_layer-cons :
      (l : LayerState) (c d : Cache) (o : Pass (List LayerState))
      → l.active_token_count ≤ n
      → Same c d
      → FitsPass n d o
      → FitsPass n c (pass_map (λ rest. l ∷ rest) o)
  each_layer-cons l c d (passes ls e) h s g = ((h, g.0), (g.1.0 ∙ s.0, g.1.1 ∙ s.1))
  each_layer-cons l c d (stops x ls e) h s g = ((h, g.0), (g.1.0 ∙ s.0, g.1.1 ∙ s.1))

  each_layer-step :
      (l : LayerState) (ls : List LayerState) (c : Cache)
      → FitLayers n ls
      → ((d : Cache) → FitsPass n d (each_layer f ls d))
      → (o : Pass LayerState) → PassEnds (λ l' d. (l'.active_token_count ≤ n) × Same c d) o
      → FitsPass n c (elim o [
        | passes l' c' ↦ pass_map (λ rest. l' ∷ rest) (each_layer f ls c')
        | stops e l' c' ↦ stops e (l' ∷ ls) c'
      ])
  each_layer-step l ls c h rest (passes l' d) g =
      each_layer-cons l' c d (each_layer f ls d) g.0 g.1 (rest d)
  each_layer-step l ls c h rest (stops e l' d) g = ((g.0, h), g.1)

  pub each_layer-Fits :
      (ls : List LayerState) (c : Cache) → FitLayers n ls → FitsPass n c (each_layer f ls c)
  unfolding each_layer
  each_layer-Fits [] c h = (tt, (refl, refl))
  each_layer-Fits (l ∷ ls) c h =
      each_layer-step l ls c h.1 (λ d. each_layer-Fits ls d h.1) (f l c) (keeps l c h.0)

-- Bounded, in a cache with the configuration of `c`.
abbrev pub BoundedAs : Cache → Cache → Type 0
BoundedAs c d = (d.config ≡ c.config) × IsBounded d

pub write_layers-Bounded :
    (id : ℕ) (s : SequenceState) (c : Cache) (o : Pass (List LayerState))
    → IsBounded c
    → s.speculation.baseline_token_count ≤ c.config.page_size
    → FitsPass c.config.page_size c o
    → Ends IsBounded (write_layers id s o)
unfolding write_layers
write_layers-Bounded id s c (passes ls d) v base q =
    rw (q.1.0, q.1.1)
      (AllFit-assign c.config.page_size id (record s { layers = ls }) c.sequences (q.0, base) v)
write_layers-Bounded id s c (stops e ls d) v base q =
    rw (q.1.0, q.1.1)
      (AllFit-assign c.config.page_size id (record s { layers = ls }) c.sequences (q.0, base) v)

pub update_sequence-IsBounded :
    (id : ℕ) (f : SequenceState → SequenceState) (c : Cache)
    → ((s : SequenceState) → Fits c.config.page_size s → Fits c.config.page_size (f s))
    → IsBounded c
    → IsBounded (update_sequence id f c)
unfolding update_sequence
update_sequence-IsBounded id f c keeps v = elim (Option-cases (find id c.sequences)) [
  | inl e ↦ rw (e, update_sequence) v
  | inr (s, e) ↦
      rw (e, update_sequence)
        (AllFit-assign c.config.page_size id (f s) c.sequences
          (keeps s (AllFit-find c.config.page_size id s c.sequences v e)) v)
]
