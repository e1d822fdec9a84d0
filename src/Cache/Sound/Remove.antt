-- ===== src/Cache/Sound/Remove.antt =====
-- A removal that succeeds keeps the reference counts (src/multisequence_cache.cpp).
use chromo_fold.Prelude.{
  ℕ, suc, ◌≡◌, refl, ap, inl, inr, ◌&&◌, ◌||◌, List, [], ◌∷◌, arith, ltb, leb, if_elim, Bool-cases,
  count-append, length,
}
use chromo_fold.Cache.Types.{Cache, PageRef, LayerState}
use chromo_fold.Cache.Outcome.{
  Outcome, returns, throws, ◌>>=◌, pure, Pass, passes, stops, pass_map, each_layer,
}
use chromo_fold.Cache.Pages.{ref_ids, layer_ids}
use chromo_fold.Cache.Order.{ref_end, active_end}
use chromo_fold.Cache.Edit.{remove_refs, remove_tail, remove_layer}
use chromo_fold.Cache.Holds.{
  Holds, Holds-cong, SameElse, SameElse-refl, SameElse-trans, plus, release_page-Holds,
}
use chromo_fold.Cache.Holds.Groups.{plus_all}

-- Where the code returns, P holds of the state.
abbrev pub Returns {κ} : {A : Type 0} → (A → Cache → Type κ) → Outcome A → Type κ
Returns P (returns a c) = P a c
Returns P (throws e c) = Unit

abbrev pub Completes {κ} : {A : Type 0} → (A → Cache → Type κ) → Pass A → Type κ
Completes P (passes a c) = P a c
Completes P (stops e a c) = Unit

-- What is held beside `held` is what `ids` refers to.
pub record IsHeldBy (held : ℕ → ℕ) (ids : List ℕ) (c d : Cache) : Type 0 where
  pub holds : Holds (plus_all ids held) d
  pub same : SameElse c d

from_Returns :
    (held : ℕ → ℕ) (c d : Cache)
    → SameElse c d
    → (o : Outcome (List PageRef)) → Returns (λ kept f. IsHeldBy held (ref_ids kept) d f) o
    → Returns (λ kept f. IsHeldBy held (ref_ids kept) c f) o
from_Returns held c d same (returns kept f) h = record {
  holds = h.holds;
  same = SameElse-trans same h.same;
}
from_Returns held c d same (throws x f) h = tt

module _ (b e : ℕ) where
  remove_refs-kept :
      (held : ℕ → ℕ) (r : PageRef) (c : Cache) (o : Outcome (List PageRef))
      → Returns (λ kept d. IsHeldBy (plus r.page_id held) (ref_ids kept) c d) o
      → Returns
          (λ kept d. IsHeldBy held (ref_ids kept) c d)
          ((do kept ← (λ _. o); pure (r ∷ kept)) c)
  unfolding ref_ids
  remove_refs-kept held r c (returns kept d) h = record {
    holds = Holds-cong (λ j. omega arith) h.holds;
    same = h.same;
  }
  remove_refs-kept held r c (throws x d) h = tt

  remove_refs-Holds :
      (held : ℕ → ℕ) (rs : List PageRef) (c : Cache)
      → Holds (plus_all (ref_ids rs) held) c
      → Returns (λ kept d. IsHeldBy held (ref_ids kept) c d) (remove_refs b e rs c)
  unfolding remove_refs ref_ids
  remove_refs-Holds held [] c h = record { holds = h; same = SameElse-refl c }
  remove_refs-Holds held (r ∷ rs) c h =
      elim (Bool-cases (leb (ref_end r) b || leb e r.logical_token_begin)) [
        | inl outside ↦ rw outside (
            remove_refs-kept held r c (remove_refs b e rs c)
              (remove_refs-Holds (plus r.page_id held) rs c (Holds-cong (λ j. omega arith) h)))
        | inr meets ↦ elim (Bool-cases (ltb r.logical_token_begin b || ltb e (ref_end r))) [
          | inl part ↦ rw (meets, part) tt
          | inr whole ↦
              let done =
                release_page-Holds (plus_all (ref_ids rs) held) c r.page_id
                  (Holds-cong (λ j. omega arith) h) in
              rw (meets, whole, done.1, ◌>>=◌)
                (from_Returns held c done.0 done.3 (remove_refs b e rs done.0)
                  (remove_refs-Holds held rs done.0 done.2))
        ]
      ]

  -- The tail changes no reference.
  remove_tail-held :
      (held : ℕ → ℕ) (l : LayerState) (c d : Cache)
      → IsHeldBy held (ref_ids l.sealed_pages) c d
      → Completes (λ l' f. IsHeldBy held (ref_ids l'.sealed_pages) c f) (remove_tail b e l d)
  unfolding remove_tail
  remove_tail-held held l c d h =
      if_elim Good (leb b l.active_token_begin && leb (active_end l) e) (λ _. h)
        λ _.
          if_elim Good (leb l.active_token_begin b && ltb b (active_end l) && leb (active_end l) e)
            (λ _. h)
            λ _.
              if_elim Good (ltb l.active_token_begin e && ltb b (active_end l)) (λ _. tt) (λ _. h)
    where
      Good : Pass LayerState → Type 0
      Good = Completes (λ l' f. IsHeldBy held (ref_ids l'.sealed_pages) c f)

  pub remove_layer-Holds :
      (held : ℕ → ℕ) (l : LayerState) (c : Cache)
      → Holds (plus_all (ref_ids l.sealed_pages) held) c
      → Completes (λ l' d. IsHeldBy held (ref_ids l'.sealed_pages) c d) (remove_layer b e l c)
  unfolding remove_layer
  remove_layer-Holds held l c h =
      go (remove_refs b e l.sealed_pages c) (remove_refs-Holds held l.sealed_pages c h)
    where
      go :
          (o : Outcome (List PageRef))
          → Returns (λ kept d. IsHeldBy held (ref_ids kept) c d) o
          → Completes
              (λ l' d. IsHeldBy held (ref_ids l'.sealed_pages) c d)
              (elim o [
                | returns kept c' ↦ remove_tail b e (record l { sealed_pages = kept }) c'
                | throws x c' ↦ stops x l c'
              ])
      go (returns kept d) k = remove_tail-held held (record l { sealed_pages = kept }) c d k
      go (throws x d) k = tt

-- The layers that a loop wrote, and what is held then.
pub record AreHeldBy (held : ℕ → ℕ) (ls ls' : List LayerState) (c d : Cache) : Type 0 where
  pub holds : Holds (plus_all (layer_ids ls') held) d
  pub sized : length ls' ≡ length ls
  pub same : SameElse c d

AreHeldBy-cons :
    (held : ℕ → ℕ) (l l' : LayerState) (ls : List LayerState) (c d : Cache)
    → SameElse c d
    → (o : Pass (List LayerState))
    → Completes (λ ls' e. AreHeldBy (plus_all (ref_ids l'.sealed_pages) held) ls ls' d e) o
    → Completes (λ ls' e. AreHeldBy held (l ∷ ls) ls' c e) (pass_map (λ rest. l' ∷ rest) o)
unfolding layer_ids
AreHeldBy-cons held l l' ls c d same (passes ls' e) h = record {
  holds =
      Holds-cong (λ j. omega (arith, count-append j (ref_ids l'.sealed_pages) (layer_ids ls')))
        h.holds;
  sized = ap suc h.sized;
  same = SameElse-trans same h.same;
}
AreHeldBy-cons held l l' ls c d same (stops x ls' e) h = tt

module _ (f : LayerState → Cache → Pass LayerState)
    (good : (held : ℕ → ℕ) (l : LayerState) (c : Cache)
      → Holds (plus_all (ref_ids l.sealed_pages) held) c
      → Completes (λ l' d. IsHeldBy held (ref_ids l'.sealed_pages) c d) (f l c)) where
  each_layer-next :
      (held : ℕ → ℕ) (l : LayerState) (ls : List LayerState) (c : Cache)
      → ((l' : LayerState) (d : Cache)
          → Holds (plus_all (layer_ids ls) (plus_all (ref_ids l'.sealed_pages) held)) d
          → Completes
              (λ ls' e. AreHeldBy (plus_all (ref_ids l'.sealed_pages) held) ls ls' d e)
              (each_layer f ls d))
      → (o : Pass LayerState)
      → Completes (λ l' d. IsHeldBy (plus_all (layer_ids ls) held) (ref_ids l'.sealed_pages) c d) o
      → Completes
          (λ ls' d. AreHeldBy held (l ∷ ls) ls' c d)
          (elim o [
            | passes l' c' ↦ pass_map (λ rest. l' ∷ rest) (each_layer f ls c')
            | stops e l' c' ↦ stops e (l' ∷ ls) c'
          ])
  each_layer-next held l ls c rest (passes l' d) h =
      AreHeldBy-cons held l l' ls c d h.same (each_layer f ls d)
        (rest l' d (Holds-cong (λ j. omega arith) h.holds))
  each_layer-next held l ls c rest (stops e l' d) h = tt

  pub each_layer-AreHeldBy :
      (held : ℕ → ℕ) (ls : List LayerState) (c : Cache)
      → Holds (plus_all (layer_ids ls) held) c
      → Completes (λ ls' d. AreHeldBy held ls ls' c d) (each_layer f ls c)
  unfolding each_layer layer_ids
  each_layer-AreHeldBy held [] c h = record { holds = h; sized = refl; same = SameElse-refl c }
  each_layer-AreHeldBy held (l ∷ ls) c h =
      each_layer-next held l ls c
        (λ l' d k. each_layer-AreHeldBy (plus_all (ref_ids l'.sealed_pages) held) ls d k) (f l c)
        (good (plus_all (layer_ids ls) held) l c (
          Holds-cong (λ j. omega (arith, count-append j (ref_ids l.sealed_pages) (layer_ids ls)))
            h))
