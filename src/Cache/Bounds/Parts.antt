-- ===== src/Cache/Bounds/Parts.antt =====
-- What the parts of the calls of src/multisequence_cache.cpp keep of the bound on the active tails.
use chromo_fold.Prelude.{
  ℕ, zero, suc, ◌≤◌, refl, ◌∙◌, ◌||◌, List, [], ◌∷◌, ◌++◌, arith, ltb, leb, max, if_elim, set,
  replicate,
}
use chromo_fold.Prelude.Int.{ℤ}
use chromo_fold.Prelude.Words.{add32}
use chromo_fold.Cache.Types.{Cache, LayerState, PageRef}
use chromo_fold.Cache.Outcome.{
  Outcome, returns, throws, Pass, passes, stops, M, ◌>>=◌, ◌>>◌, pure, throw,
}
use chromo_fold.Cache.Pages.{acquire_page, acquired, release_page, released, release_pages}
use chromo_fold.Cache.Order.{ref_end}
use chromo_fold.Cache.Create.{acquire_pages, copied_layer, copied_layers, empty_layer}
use chromo_fold.Cache.Edit.{
  remove_refs, remove_tail, remove_layer, shift_refs, shift_tail, shift_layer, count_unsupported,
}
use chromo_fold.Cache.Speculation.{baseline, commit_layer, rolled_back_layers}
use chromo_fold.Cache.Sound.{Ends, then-Ends}
use chromo_fold.Cache.Sound.InPlace.{PassEnds}
use chromo_fold.Cache.Bounds.{FitLayers, Same, Ends-map}

pub FitLayers-replicate : (n k : ℕ) → FitLayers n (replicate k empty_layer)
FitLayers-replicate n zero = tt
FitLayers-replicate n (suc k) = (omega arith, FitLayers-replicate n k)

pub FitLayers-copied_layers :
    (n b e : ℕ) (ls : List LayerState) → FitLayers n ls → FitLayers n (copied_layers b e ls)
unfolding copied_layers copied_layer
FitLayers-copied_layers n b e [] h = tt
FitLayers-copied_layers n b e (l ∷ ls) h =
    (ground (arith, h.0), FitLayers-copied_layers n b e ls h.1)

pub FitLayers-rolled_back_layers :
    (n base : ℕ) (ls : List LayerState) → base ≤ n → FitLayers n (rolled_back_layers base ls)
unfolding rolled_back_layers
FitLayers-rolled_back_layers n base [] h = tt
FitLayers-rolled_back_layers n base (l ∷ ls) h = (h, FitLayers-rolled_back_layers n base ls h)

pub baseline-le : (n m : ℕ) (ls : List LayerState) → m ≤ n → FitLayers n ls → baseline ls m ≤ n
unfolding baseline
baseline-le n m [] h g = h
baseline-le n m (l ∷ ls) h g =
    baseline-le n (max m l.active_token_count) ls (omega (arith, g.0)) g.1

pub FitLayers-set :
    (n i : ℕ) (l : LayerState) (ls : List LayerState)
    → l.active_token_count ≤ n
    → FitLayers n ls
    → FitLayers n (set ls i l)
FitLayers-set n i l [] h g = tt
FitLayers-set n zero l (x ∷ ls) h g = (h, g.1)
FitLayers-set n (suc i) l (x ∷ ls) h g = (g.0, FitLayers-set n i l ls h g.1)

Same-trans : (c d e : Cache) → Same c d → Same d e → Same c e
Same-trans c d e s t = (t.0 ∙ s.0, t.1 ∙ s.1)

acquire_page-Same : (id : ℕ) (c : Cache) → Ends (Same c) (acquire_page id c)
unfolding acquire_page acquired
acquire_page-Same id c = ground arith

release_page-Same : (id : ℕ) (c : Cache) → Ends (Same c) (release_page id c)
unfolding release_page released
release_page-Same id c = ground arith

pub release_pages-Same : (ids : List ℕ) (c : Cache) → Ends (Same c) (release_pages ids c)
unfolding release_pages
release_pages-Same [] c = (refl, refl)
release_pages-Same (id ∷ ids) c =
    then-Ends (Same c) (release_page id) (release_pages ids) c (release_page-Same id c) λ d s.
      Ends-map (Same d) (Same c) (release_pages ids d) (λ e. Same-trans c d e s)
        (release_pages-Same ids d)

acquire_pages-step :
    (id : ℕ) (ids done : List ℕ) (c : Cache)
    → ((d : Cache) → Ends (Same d) (acquire_pages ids (done ++ id ∷ []) d))
    → (o : Outcome (Unit {0})) → Ends (Same c) o
    → Ends (Same c) (elim o [
      | returns _ c' ↦ acquire_pages ids (done ++ id ∷ []) c'
      | throws e c' ↦ (do release_pages done; throw {A = Unit {0}} e) c'
    ])
acquire_pages-step id ids done c rest (returns a d) s =
    Ends-map (Same d) (Same c) (acquire_pages ids (done ++ id ∷ []) d) (λ e. Same-trans c d e s)
      (rest d)
acquire_pages-step id ids done c rest (throws x d) s =
    then-Ends (Same c) (release_pages done) (throw {A = Unit {0}} x) d
      (Ends-map (Same d) (Same c) (release_pages done d) (λ e. Same-trans c d e s)
        (release_pages-Same done d))
      λ e t. t

pub acquire_pages-Same : (ids done : List ℕ) (c : Cache) → Ends (Same c) (acquire_pages ids done c)
unfolding acquire_pages
acquire_pages-Same [] done c = (refl, refl)
acquire_pages-Same (id ∷ ids) done c =
    acquire_pages-step id ids done c (λ d. acquire_pages-Same ids (done ++ id ∷ []) d)
      (acquire_page id c) (acquire_page-Same id c)

remove_refs-Same : (b e : ℕ) (rs : List PageRef) (c : Cache) → Ends (Same c) (remove_refs b e rs c)
unfolding remove_refs count_unsupported
remove_refs-Same b e [] c = (refl, refl)
remove_refs-Same b e (r ∷ rs) c =
    if_elim (λ (m : M (List PageRef)). Ends (Same c) (m c))
      (leb (ref_end r) b || leb e r.logical_token_begin)
      (λ _. kept (remove_refs b e rs c) (remove_refs-Same b e rs c))
      λ _.
        if_elim (λ (m : M (List PageRef)). Ends (Same c) (m c))
          (ltb r.logical_token_begin b || ltb e (ref_end r)) (λ _. (refl, refl))
          λ _.
            then-Ends (Same c) (release_page r.page_id) (remove_refs b e rs) c
              (release_page-Same r.page_id c)
              λ d s.
                Ends-map (Same d) (Same c) (remove_refs b e rs d) (λ f. Same-trans c d f s)
                  (remove_refs-Same b e rs d)
  where
    kept :
        (o : Outcome (List PageRef))
        → Ends (Same c) o
        → Ends (Same c) ((do kept ← (λ _. o); pure (r ∷ kept)) c)
    kept (returns a d) s = s
    kept (throws x d) s = s

-- A layer with no more active tokens, and the same sequences.
abbrev pub Shrinks : ℕ → Cache → LayerState → Cache → Type 0
Shrinks n c l d = (l.active_token_count ≤ n) × Same c d

Shrinks-trans :
    (n : ℕ) (c d : Cache) (o : Pass LayerState)
    → Same c d
    → PassEnds (Shrinks n d) o
    → PassEnds (Shrinks n c) o
Shrinks-trans n c d (passes x f) s g = (g.0, Same-trans c d f s g.1)
Shrinks-trans n c d (stops z x f) s g = (g.0, Same-trans c d f s g.1)

remove_tail-Shrinks :
    (n b e : ℕ) (l : LayerState) (c : Cache)
    → l.active_token_count ≤ n
    → PassEnds (Shrinks n c) (remove_tail b e l c)
unfolding remove_tail count_unsupported
remove_tail-Shrinks n b e l c h = ground arith

pub remove_layer-Shrinks :
    (n b e : ℕ) (l : LayerState) (c : Cache)
    → l.active_token_count ≤ n
    → PassEnds (Shrinks n c) (remove_layer b e l c)
unfolding remove_layer
remove_layer-Shrinks n b e l c h =
    go (remove_refs b e l.sealed_pages c) (remove_refs-Same b e l.sealed_pages c)
  where
    go :
        (o : Outcome (List PageRef))
        → Ends (Same c) o
        → PassEnds (Shrinks n c) (elim o [
          | returns kept c' ↦ remove_tail b e (record l { sealed_pages = kept }) c'
          | throws x c' ↦ stops x l c'
        ])
    go (returns kept d) s =
        Shrinks-trans n c d (remove_tail b e (record l { sealed_pages = kept }) d) s
          (remove_tail-Shrinks n b e (record l { sealed_pages = kept }) d h)
    go (throws x d) s = (h, s)

shift_refs-Same :
    (b e : ℕ) (delta : ℤ) (rs : List PageRef) (c : Cache)
    → PassEnds (λ rs' d. Same c d) (shift_refs b e delta rs c)
unfolding shift_refs count_unsupported
shift_refs-Same b e delta [] c = (refl, refl)
shift_refs-Same b e delta (r ∷ rs) c = ground (arith, shift_refs-Same b e delta rs c)

shift_tail-Shrinks :
    (n b e : ℕ) (delta : ℤ) (l : LayerState) (c : Cache)
    → l.active_token_count ≤ n
    → PassEnds (Shrinks n c) (shift_tail b e delta l c)
unfolding shift_tail
shift_tail-Shrinks n b e delta l c h = ground arith

pub shift_layer-Shrinks :
    (n b e : ℕ) (delta : ℤ) (l : LayerState) (c : Cache)
    → l.active_token_count ≤ n
    → PassEnds (Shrinks n c) (shift_layer b e delta l c)
unfolding shift_layer
shift_layer-Shrinks n b e delta l c h =
    go (shift_refs b e delta l.sealed_pages c) (shift_refs-Same b e delta l.sealed_pages c)
  where
    go :
        (o : Pass (List PageRef))
        → PassEnds (λ rs d. Same c d) o
        → PassEnds (Shrinks n c) (elim o [
          | passes rs c' ↦ shift_tail b e delta (record l { sealed_pages = rs }) c'
          | stops x rs c' ↦ stops x (record l { sealed_pages = rs }) c'
        ])
    go (passes rs d) s =
        Shrinks-trans n c d (shift_tail b e delta (record l { sealed_pages = rs }) d) s
          (shift_tail-Shrinks n b e delta (record l { sealed_pages = rs }) d h)
    go (stops x rs d) s = (h, s)

pub commit_layer-Shrinks :
    (n base accepted : ℕ) (l : LayerState) (c : Cache)
    → l.active_token_count ≤ n
    → PassEnds (Shrinks n c) (commit_layer base accepted l c)
unfolding commit_layer add32
commit_layer-Shrinks n base accepted l c h = ground arith
