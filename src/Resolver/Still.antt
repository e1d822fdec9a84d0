-- ===== src/Resolver/Still.antt =====
-- The calls of src/cuda/multisequence_cuda_resolver.cu that leave the pages in flight as they are.
use chromo_fold.Prelude.{ℕ, not, ◌&&◌, ◌==◌, ltb, length, ◌≡◌, refl, ◌∙◌, inl, inr, Bool-cases}
use chromo_fold.Prelude.Words.{mul64}
use chromo_fold.Prelude.Map.{IsDistinct}
use chromo_fold.Resolver.Types.{
  ActivePage, Buffer, LayerState, Error, Resolver, Pass, passes, stops,
}
use chromo_fold.Resolver.Device.{
  cuda_check, allocate, enlarge, upload, refresh_descriptor_table, are_available, new_capacity,
  count_rebuild, table_built,
}
use chromo_fold.Resolver.Sequences.{fill_active, active_bytes}
use chromo_fold.Resolver.Held.{in_flight, Yields}
use chromo_fold.Resolver.Flight.{Answer-cases}

abbrev pub SameFlight : Resolver → Resolver → Type 0
SameFlight r q =
    (IsDistinct r.pages → IsDistinct q.pages)
    × (q.pending_snapshots ≡ r.pending_snapshots)
    × ((id : ℕ) → in_flight id q.pages ≡ in_flight id r.pages)

pub SameFlight-comp : (r q t : Resolver) → SameFlight r q → SameFlight q t → SameFlight r t
SameFlight-comp r q t f g = (λ d. g.0 (f.0 d), g.1 ∙ f.1, λ id. g.2 id ∙ f.2 id)

pub SameFlight-self : (r : Resolver) → SameFlight r r
SameFlight-self r = (λ d. d, refl, λ id. refl)

-- The same of code that may throw, and of such code after another.
abbrev pub IsStill {ℓ} : {A : Type ℓ} → Resolver → Pass A → Type 0
IsStill r p = Yields (λ a q. SameFlight r q) (λ a q. SameFlight r q) p

pub IsStill-after {ℓ} :
    {A : Type ℓ} (r q : Resolver) (p : Pass A) → SameFlight r q → IsStill q p → IsStill r p
IsStill-after r q (passes a t) f g = SameFlight-comp r q t f g
IsStill-after r q (stops e a t) f g = SameFlight-comp r q t f g

pub IsStill-then {ℓ κ} :
    {A : Type ℓ} {B : Type κ} (r : Resolver) (p : Pass A) (f : Error → A → Resolver → Pass B)
    (g : A → Resolver → Pass B)
    → IsStill r p
    → ((e : Error) (a : A) (q : Resolver) → IsStill q (f e a q))
    → ((a : A) (q : Resolver) → IsStill q (g a q))
    → IsStill r (elim p [ stops e a q ↦ f e a q | passes a q ↦ g a q ])
IsStill-then r (passes a q) f g h k l = IsStill-after r q (g a q) h (l a q)
IsStill-then r (stops e a q) f g h k l = IsStill-after r q (f e a q) h (k e a q)

cuda_check-IsStill : {A : Type 0} (a : A) (r : Resolver) → IsStill r (cuda_check a r)
unfolding cuda_check
cuda_check-IsStill a r = elim (Answer-cases (r.device 0)) [
  | inl e ↦ rw (e, Yields) (SameFlight-self r)
  | inr (inl e) ↦ rw (e, Yields) (SameFlight-self r)
  | inr (inr (n, e)) ↦ rw (e, Yields) (SameFlight-self r)
]

allocate-IsStill : (n : ℕ) (b : Buffer) (r : Resolver) → IsStill r (allocate n b r)
unfolding allocate
allocate-IsStill n b r = elim (Bool-cases (not (b.ptr == 0) && n == b.bytes)) [
  | inl t ↦ rw (t, Yields) (SameFlight-self r)
  | inr t ↦
      rw (t, Yields)
        (elim (Bool-cases (n == 0)) [
          | inl z ↦ rw (z, Yields) (SameFlight-self r)
          | inr z ↦
              rw (z, Yields)
                (elim (Answer-cases (r.device 0)) [
                  | inl e ↦ rw (e, Yields) (SameFlight-self r)
                  | inr (inl e) ↦ rw (e, Yields) (SameFlight-self r)
                  | inr (inr (k, e)) ↦ rw (e, Yields) (SameFlight-self r)
                ])
        ])
]

enlarge-IsStill : (l : LayerState) (r : Resolver) → IsStill r (enlarge l r)
unfolding enlarge count_rebuild
enlarge-IsStill l r = elim (Bool-cases (ltb l.descriptor_capacity (length l.pages))) [
  | inl t ↦
      rw (t, Yields)
        (IsStill-then r (allocate (mul64 (new_capacity l) 88) l.descriptors r) _ _
          (allocate-IsStill _ l.descriptors r) (λ e b q. SameFlight-self q)
          (λ b q. SameFlight-self q))
  | inr t ↦ rw (t, Yields) (SameFlight-self r)
]

upload-IsStill : (l : LayerState) (r : Resolver) → IsStill r (upload l r)
unfolding upload table_built
upload-IsStill l r = elim (Bool-cases (length l.pages == 0)) [
  | inl t ↦ rw (t, Yields) (SameFlight-self r)
  | inr t ↦
      rw (t, Yields)
        (IsStill-then r (cuda_check l r) _ _ (cuda_check-IsStill l r) (λ e b q. SameFlight-self q)
          (λ b q. SameFlight-self q))
]

pub refresh-IsStill : (l : LayerState) (r : Resolver) → IsStill r (refresh_descriptor_table l r)
unfolding refresh_descriptor_table
refresh-IsStill l r = elim (Bool-cases (are_available l.pages r.pages)) [
  | inl t ↦
      rw (t, Yields)
        (IsStill-then r (enlarge l r) _ _ (enlarge-IsStill l r) (λ e b q. SameFlight-self q)
          (λ b q. upload-IsStill b q))
  | inr t ↦ rw (t, Yields) (SameFlight-self r)
]

pub fill_active-IsStill : (a : ActivePage) (r : Resolver) → IsStill r (fill_active a r)
unfolding fill_active
fill_active-IsStill a r =
    IsStill-then r (allocate (active_bytes r) a.keys r) _ _ (allocate-IsStill _ a.keys r)
      (λ e b q. SameFlight-self q)
      (λ b q.
        IsStill-then q (allocate (active_bytes q) a.values q) _ _ (allocate-IsStill _ a.values q)
          (λ e v t. SameFlight-self t)
          (λ v t.
            IsStill-then t (cuda_check (record a { keys = b; values = v }) t) _ _
              (cuda_check-IsStill _ t) (λ e x u. SameFlight-self u)
              (λ x u. cuda_check-IsStill x u)))
