-- ===== src/Resolver/Unmoved.antt =====
-- The calls of src/cuda/multisequence_cuda_resolver.cu that leave the counts in flight as they are.
use chromo_fold.Prelude.{ℕ, ◌==◌, ltb, get_elem?, inl, inr, Bool-cases, Option-cases, if_elim, ◌||◌}
use chromo_fold.Prelude.Int.{ℤ}
use chromo_fold.Prelude.Map.{find}
use chromo_fold.Resolver.Types.{PagePublication, Error, Resolver, Pass, passes, stops, Status}
use chromo_fold.Resolver.Device.{refresh_descriptor_table}
use chromo_fold.Resolver.Sequences.{stage_active, stage_at, fill_active}
use chromo_fold.Resolver.Publish.{
  publish_page, publish_at, published, is_incomplete, ref_pushed, page_emplaced,
}
use chromo_fold.Resolver.Pages.{
  copy_layers, copied, copy_sequence, drop_layers, sequence_remove, shift_sequence, shift_layers,
}
use chromo_fold.Resolver.Still.{
  SameFlight, SameFlight-comp, SameFlight-self, IsStill, IsStill-after, refresh-IsStill,
  fill_active-IsStill,
}
use chromo_fold.Resolver.Counts.{copy_layers-IsStill, drop_layers-IsStill, page_emplaced_same}

-- What a call of a piece of code gives as its result.
still_result :
    {A : Type 0} (r : Resolver) (p : Pass A) (f : Error → A → Resolver → Resolver × Status)
    (g : A → Resolver → Resolver × Status)
    → IsStill r p
    → ((e : Error) (a : A) (q : Resolver) → SameFlight q (f e a q).0)
    → ((a : A) (q : Resolver) → SameFlight q (g a q).0)
    → SameFlight r
        (elim p as (λ x. Resolver × Status) [ stops e a q ↦ f e a q | passes a q ↦ g a q ]).0
still_result r (passes a q) f g h k l = SameFlight-comp r q (g a q).0 h (l a q)
still_result r (stops e a q) f g h k l = SameFlight-comp r q (f e a q).0 h (k e a q)

pub publish_same : (r : Resolver) (p : PagePublication) → SameFlight r (publish_page r p).0
unfolding publish_page publish_at published
publish_same r p = elim (Option-cases (find p.sequence_id r.sequences)) [
  | inl e ↦ rw (e, SameFlight, publish_page) (SameFlight-self r)
  | inr (s, e) ↦
      rw (e, SameFlight, publish_page)
        (elim (Option-cases (get_elem? s.layers p.layer)) [
          | inl d ↦ rw (d, SameFlight, publish_page) (SameFlight-self r)
          | inr (l, d) ↦
              rw (d, SameFlight, publish_page)
                (elim (Bool-cases (is_incomplete p.descriptor)) [
                  | inl t ↦ rw (t, SameFlight) (SameFlight-self r)
                  | inr t ↦
                      rw (t, SameFlight)
                        (still_result r
                          (refresh_descriptor_table (ref_pushed r p l) (page_emplaced r p)) _ _
                          (IsStill-after r (page_emplaced r p) _ (page_emplaced_same r p)
                            (refresh-IsStill (ref_pushed r p l) (page_emplaced r p)))
                          (λ e a q. SameFlight-self q) (λ a q. SameFlight-self q))
                ])
        ])
]

pub stage_same : (r : Resolver) (id layer b n : ℕ) → SameFlight r (stage_active r id layer b n).0
unfolding stage_active stage_at
stage_same r id layer b n = elim (Bool-cases (n == 0 || ltb r.config.page_size n)) [
  | inl t ↦ rw (t, SameFlight) (SameFlight-self r)
  | inr t ↦
      rw (t, SameFlight)
        (elim (Option-cases (find id r.sequences)) [
          | inl e ↦ rw (e, SameFlight) (SameFlight-self r)
          | inr (s, e) ↦
              rw (e, SameFlight)
                (elim (Option-cases (get_elem? s.layers layer)) [
                  | inl d ↦ rw (d, SameFlight) (SameFlight-self r)
                  | inr (l, d) ↦
                      rw (d, SameFlight)
                        (still_result r (fill_active l.active r) _ _
                          (fill_active-IsStill l.active r) (λ e a q. SameFlight-self q)
                          (λ a q. SameFlight-self q))
                ])
        ])
]

pub copy_same : (r : Resolver) (s d : ℕ) → SameFlight r (copy_sequence r s d).0
unfolding copy_sequence copied
copy_same r s d = elim (Bool-cases (s == d)) [
  | inl t ↦ rw (t, SameFlight) (SameFlight-self r)
  | inr t ↦
      rw (t, SameFlight)
        (elim (Option-cases (find s r.sequences)) [
          | inl e ↦ rw (e, SameFlight) (SameFlight-self r)
          | inr (x, e) ↦
              rw (e, SameFlight)
                (still_result r (copy_layers x.layers r) _ _ (copy_layers-IsStill x.layers r)
                  (λ e a q. SameFlight-self q) (λ a q. SameFlight-self q))
        ])
]

pub remove_same : (r : Resolver) (id : ℕ) → SameFlight r (sequence_remove r id).0
unfolding sequence_remove
remove_same r id = elim (Option-cases (find id r.sequences)) [
  | inl e ↦ rw (e, SameFlight, sequence_remove) (SameFlight-self r)
  | inr (x, e) ↦
      rw (e, SameFlight, sequence_remove)
        (still_result r (drop_layers x.layers r) _ _ (drop_layers-IsStill x.layers r)
          (λ e a q. SameFlight-self q) (λ a q. SameFlight-self q))
]

pub shift_same :
    (r : Resolver) (id b e : ℕ) (delta : ℤ) → SameFlight r (shift_sequence r id b e delta).0
unfolding shift_sequence
shift_same r id b e delta = elim (Bool-cases (ltb e b)) [
  | inl t ↦ rw (t, SameFlight) (SameFlight-self r)
  | inr t ↦
      rw (t, SameFlight)
        (elim (Option-cases (find id r.sequences)) [
          | inl d ↦ rw (d, SameFlight) (SameFlight-self r)
          | inr (x, d) ↦
              rw (d, SameFlight)
                (if_elim (λ (y : Resolver × Status). SameFlight r y.0)
                  (shift_layers r.config.page_size b e delta x.layers).0 (λ u. SameFlight-self r)
                  (λ u. SameFlight-self r))
        ])
]
