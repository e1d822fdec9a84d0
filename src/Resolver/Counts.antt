-- ===== src/Resolver/Counts.antt =====
-- The parts of copies, removals and publications in src/cuda/multisequence_cuda_resolver.cu that leave the
-- counts in flight as they are.
use chromo_fold.Prelude.{
  ℕ, some, List, [], ◌∷◌, ◌==◌, ◌≡◌, refl, sym, ap, ◌∙◌, inl, inr, Bool-cases, Option-cases, ==→eq,
}
use chromo_fold.Prelude.Map.{
  Map, find, contains, emplace, assign, assign-IsDistinct, emplace-IsDistinct,
}
use chromo_fold.Resolver.Types.{
  ActivePage, SharedPage, PagePublication, PageRef, LayerState, Resolver,
}
use chromo_fold.Resolver.Sequences.{fill_active, empty_active, empty_layer}
use chromo_fold.Resolver.Publish.{page_emplaced, new_page}
use chromo_fold.Resolver.Pages.{
  count_ref, count_refs, copy_active, copy_layer, copy_layers, drop_ref, drop_refs, drop_layers,
  retire_counts,
}
use chromo_fold.Resolver.Held.{refs_of, in_flight, in_flight-assign, Yields}
use chromo_fold.Resolver.Sweep.{absent}
use chromo_fold.Resolver.Still.{
  SameFlight, SameFlight-self, IsStill, IsStill-after, IsStill-then, refresh-IsStill,
  fill_active-IsStill,
}

-- A write of a page that leaves its count in flight.
assign_same :
    (k : ℕ) (p q : SharedPage) (m : Map SharedPage) (id : ℕ)
    → find k m ≡ some p
    → q.in_flight_refs ≡ p.in_flight_refs
    → in_flight id (assign k q m) ≡ in_flight id m
assign_same k p q m id e h = in_flight-assign k id p q m e ∙ elim (Bool-cases (k == id)) [
  | inl t ↦ rw t (h ∙ sym (ap refs_of e) ∙ ap (λ (x : ℕ). in_flight x m) (==→eq k id t))
  | inr t ↦ rw t refl
]

count_refs-IsStill : (refs : List PageRef) (r : Resolver) → IsStill r (count_refs refs r)
unfolding count_refs count_ref
count_refs-IsStill [] r = SameFlight-self r
count_refs-IsStill (ref ∷ refs) r = elim (Option-cases (find ref.page_id r.pages)) [
  | inl e ↦ rw (e, Yields) (SameFlight-self r)
  | inr (p, e) ↦
      rw (e, Yields)
        (IsStill-after r (count_ref ref.page_id p r) (count_refs refs (count_ref ref.page_id p r))
          (
            assign-IsDistinct ref.page_id _ r.pages,
            refl,
            λ id. assign_same ref.page_id p _ r.pages id e refl,
          )
          (count_refs-IsStill refs (count_ref ref.page_id p r)))
]

copy_active-IsStill : (a : ActivePage) (r : Resolver) → IsStill r (copy_active a r)
unfolding copy_active
copy_active-IsStill a r = elim (Bool-cases (a.token_count == 0)) [
  | inl t ↦ rw (t, Yields) (SameFlight-self r)
  | inr t ↦
      rw (t, Yields)
        (IsStill-then r (fill_active empty_active r) _ _ (fill_active-IsStill empty_active r)
          (λ e b q. SameFlight-self q) (λ b q. SameFlight-self q))
]

copy_layer-IsStill : (l : LayerState) (r : Resolver) → IsStill r (copy_layer l r)
unfolding copy_layer
copy_layer-IsStill l r =
    IsStill-then r (count_refs l.pages r) _ _ (count_refs-IsStill l.pages r)
      (λ e a q. SameFlight-self q)
      (λ a q.
        IsStill-then q (copy_active l.active q) _ _ (copy_active-IsStill l.active q)
          (λ e b t. SameFlight-self t)
          (λ b t. refresh-IsStill (record empty_layer { pages = l.pages; active = b }) t))

pub copy_layers-IsStill : (ls : List LayerState) (r : Resolver) → IsStill r (copy_layers ls r)
unfolding copy_layers
copy_layers-IsStill [] r = SameFlight-self r
copy_layers-IsStill (l ∷ ls) r =
    IsStill-then r (copy_layer l r) _ _ (copy_layer-IsStill l r) (λ e a q. SameFlight-self q)
      (λ a q.
        IsStill-then q (copy_layers ls q) _ _ (copy_layers-IsStill ls q)
          (λ e b t. SameFlight-self t) (λ b t. SameFlight-self t))

drop_ref_same :
    (k : ℕ) (p : SharedPage) (r : Resolver)
    → find k r.pages ≡ some p
    → SameFlight r (drop_ref k p r)
unfolding drop_ref retire_counts
drop_ref_same k p r e = elim (Bool-cases (p.logical_refs == 1)) [
  | inl t ↦ rw t (assign-IsDistinct k _ r.pages, refl, λ id. assign_same k p _ r.pages id e refl)
  | inr t ↦ rw t (assign-IsDistinct k _ r.pages, refl, λ id. assign_same k p _ r.pages id e refl)
]

drop_refs-IsStill : (refs : List PageRef) (r : Resolver) → IsStill r (drop_refs refs r)
unfolding drop_refs
drop_refs-IsStill [] r = SameFlight-self r
drop_refs-IsStill (ref ∷ refs) r = elim (Option-cases (find ref.page_id r.pages)) [
  | inl e ↦ rw (e, Yields) (SameFlight-self r)
  | inr (p, e) ↦
      rw (e, Yields)
        (elim (Bool-cases (p.logical_refs == 0)) [
          | inl t ↦ rw (t, Yields) (SameFlight-self r)
          | inr t ↦
              rw (t, Yields)
                (IsStill-after r (drop_ref ref.page_id p r)
                  (drop_refs refs (drop_ref ref.page_id p r)) (drop_ref_same ref.page_id p r e)
                  (drop_refs-IsStill refs (drop_ref ref.page_id p r)))
        ])
]

pub drop_layers-IsStill : (ls : List LayerState) (r : Resolver) → IsStill r (drop_layers ls r)
unfolding drop_layers
drop_layers-IsStill [] r = SameFlight-self r
drop_layers-IsStill (l ∷ ls) r =
    IsStill-then r (drop_refs l.pages r) _ _ (drop_refs-IsStill l.pages r)
      (λ e a q. SameFlight-self q)
      (λ a q.
        IsStill-then q (drop_layers ls q) _ _ (drop_layers-IsStill ls q)
          (λ e b t. SameFlight-self t) (λ b t. SameFlight-self t))

emplace_same :
    (k : ℕ) (v : SharedPage) (m : Map SharedPage) (id : ℕ)
    → v.in_flight_refs ≡ 0
    → in_flight id (emplace k v m) ≡ in_flight id m
unfolding emplace find
emplace_same k v m id z = elim (Bool-cases (contains k m)) [
  | inl c ↦ rw c refl
  | inr c ↦ rw c (elim (Bool-cases (k == id)) [
    | inl t ↦ rw t (z ∙ sym (absent k m c) ∙ ap (λ (x : ℕ). in_flight x m) (==→eq k id t))
    | inr t ↦ rw t refl
  ])
]

pub page_emplaced_same : (r : Resolver) (p : PagePublication) → SameFlight r (page_emplaced r p)
unfolding page_emplaced
page_emplaced_same r p = (
  emplace-IsDistinct r.next_page_id _ r.pages,
  refl,
  λ id. emplace_same r.next_page_id (new_page r p) r.pages id refl,
)
