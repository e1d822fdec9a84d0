-- ===== src/Resolver/Taken.antt =====
-- What a batch of src/cuda/multisequence_cuda_resolver.cu takes: the pages of all its layers.
use mathlib.Core.Bool.{true≢false}
use mathlib.Core.List.{append-nil, append_assoc}
use chromo_fold.Prelude.{
  ℕ, Bool, true, false, subst, Option, none, some, List, [], ◌∷◌, ◌++◌, ◌==◌, length, get_elem?,
  ◌≡◌, refl, sym, ap, ◌∙◌, inl, inr, arith, Bool-cases, Option-cases,
}
use chromo_fold.Prelude.Map.{Map, find}
use chromo_fold.Resolver.Types.{
  BatchItem, PageRef, LayerState, SequenceState, Snapshot, Resolver, Pass, passes, stops,
}
use chromo_fold.Resolver.Snapshots.{
  held, hold, new_snapshot, acquire_at, acquire_snapshot, count_snapshot,
}
use chromo_fold.Resolver.Batches.{acquire_all, valid_item, count_batch}
use chromo_fold.Resolver.Auditor.{ref_ids}
use chromo_fold.Resolver.Held.{Yields, layer_refs, sequence_refs, item_ids, batch_ids, snapshot_ids}
use chromo_fold.Resolver.Overlap.{Stage, Running, launching, failing, begin}

-- On success: the numbers are those of a list, and the sequences are as they were.
abbrev Takes : List ℕ → Resolver → List Snapshot → Resolver → Type 0
Takes ids r ss q = (snapshot_ids ss ≡ ids) × (q.sequences ≡ r.sequences)

abbrev Whatever : {A : Type 0} → A → Resolver → Type 0
Whatever a q = Unit {0}

abbrev Collects : List ℕ → Resolver → List ℕ → Resolver → Type 0
Collects ids r out q = (out ≡ ids) × (q.sequences ≡ r.sequences)

hold-Collects :
    (refs : List PageRef) (ids : List ℕ) (r : Resolver)
    → Yields (Collects (ids ++ ref_ids refs) r) Whatever (hold refs ids r)
unfolding hold ref_ids
hold-Collects [] ids r = (sym (append-nil ids), refl)
hold-Collects (ref ∷ refs) ids r = elim (Option-cases (find ref.page_id r.pages)) [
  | inl e ↦ rw (e, Yields) tt
  | inr (p, e) ↦
      rw (e, Yields)
        (at (hold refs (ids ++ ref.page_id ∷ []) (held ref.page_id p r))
          (hold-Collects refs (ids ++ ref.page_id ∷ []) (held ref.page_id p r)))
]
  where
    at :
        (p : Pass (List ℕ))
        → Yields (Collects (ids ++ ref.page_id ∷ [] ++ ref_ids refs) r) Whatever p
        → Yields (Collects (ids ++ (ref.page_id ∷ ref_ids refs)) r) Whatever p
    at (passes out q) h = (h.0 ∙ append_assoc ids (ref.page_id ∷ []) (ref_ids refs), h.1)
    at (stops e out q) h = tt

acquire_at-Takes :
    (id layer : ℕ) (s : SequenceState) (l : LayerState) (r : Resolver)
    → Yields (Takes (ref_ids l.pages) r) Whatever (acquire_at id layer s l r)
unfolding acquire_at new_snapshot
acquire_at-Takes id layer s l r = at (hold l.pages [] r) (hold-Collects l.pages [] r)
  where
    at :
        (p : Pass (List ℕ))
        → Yields (Collects (ref_ids l.pages) r) Whatever p
        → Yields (Takes (ref_ids l.pages) r) Whatever (elim p [
          | stops e ids r' ↦ stops e [] r'
          | passes ids r' ↦ passes (new_snapshot id layer s l ids ∷ []) (count_snapshot r')
        ])
    at (passes out q) h = (append-nil out ∙ h.0, h.1)
    at (stops e out q) h = tt

acquire_snapshot-Takes :
    (i : BatchItem) (r : Resolver)
    → Yields (Takes (item_ids i r.sequences) r) Whatever (acquire_snapshot i.sequence_id i.layer r)
unfolding acquire_snapshot
acquire_snapshot-Takes i r = elim (Option-cases (find i.sequence_id r.sequences)) [
  | inl e ↦ rw (e, Yields) tt
  | inr (s, e) ↦
      rw (e, Yields)
        (elim (Bool-cases s.dispatchable) [
          | inr d ↦ rw (d, Yields) tt
          | inl d ↦
              rw (d, Yields)
                (elim (Option-cases (get_elem? s.layers i.layer)) [
                  | inl n ↦ rw (n, Yields) tt
                  | inr (l, n) ↦
                      rw (n, Yields)
                        (subst
                          (λ (ids : List ℕ).
                            Yields (Takes ids r) Whatever (acquire_at i.sequence_id i.layer s l r))
                          (sym (ap (sequence_refs i.layer) e ∙ ap layer_refs n))
                          (acquire_at-Takes i.sequence_id i.layer s l r))
                ])
        ])
]

acquire_all-Takes :
    (is : List BatchItem) (r : Resolver)
    → Yields (Takes (batch_ids is r.sequences) r) Whatever (acquire_all is r)
unfolding acquire_all
acquire_all-Takes [] r = (refl, refl)
acquire_all-Takes (i ∷ is) r = elim (Bool-cases (valid_item i)) [
  | inr e ↦ rw (e, Yields) tt
  | inl e ↦
      rw (e, Yields)
        (at (acquire_snapshot i.sequence_id i.layer r) (acquire_snapshot-Takes i r)
          (λ q. acquire_all-Takes is q))
]
  where
    split : (xs ys : List Snapshot) → snapshot_ids (xs ++ ys) ≡ snapshot_ids xs ++ snapshot_ids ys
    split [] ys = refl
    split (x ∷ xs) ys =
        ap (λ (zs : List ℕ). x.page_ids ++ zs) (split xs ys)
        ∙ sym (append_assoc x.page_ids (snapshot_ids xs) (snapshot_ids ys))

    both :
        (ss : List Snapshot) (q : Resolver)
        → Takes (item_ids i r.sequences) r ss q
        → (p : Pass (List Snapshot)) → Yields (Takes (batch_ids is q.sequences) q) Whatever p
        → Yields
            (Takes (batch_ids (i ∷ is) r.sequences) r)
            Whatever
            (elim p [ stops e ts r2 ↦ stops e (ss ++ ts) r2 | passes ts r2 ↦ passes (ss ++ ts) r2 ])
    both ss q h (passes ts t) k = (
      split ss ts
          ∙ ap (λ (x : List ℕ). x ++ snapshot_ids ts) h.0
          ∙ ap (λ (x : List ℕ). item_ids i r.sequences ++ x)
              (k.0 ∙ ap (λ (m : Map SequenceState). batch_ids is m) h.1),
      k.1 ∙ h.1,
    )
    both ss q h (stops e ts t) k = tt

    at :
        (p : Pass (List Snapshot))
        → Yields (Takes (item_ids i r.sequences) r) Whatever p
        → ((q : Resolver) → Yields (Takes (batch_ids is q.sequences) q) Whatever (acquire_all is q))
        → Yields (Takes (batch_ids (i ∷ is) r.sequences) r) Whatever (elim p [
          | stops e s r' ↦ stops e [] r'
          | passes s r' ↦ elim (acquire_all is r') [
            | stops e ss r2 ↦ stops e (s ++ ss) r2
            | passes ss r2 ↦ passes (s ++ ss) r2
          ]
        ])
    at (stops e ss q) h rest = tt
    at (passes ss q) h rest = both ss q h (acquire_all is q) (rest q)

abbrev snapshots_of : Option Running → List Snapshot
snapshots_of none = []
snapshots_of (some b) = b.snapshots

abbrev at_launch : Stage → Bool
at_launch (launching is) = true
at_launch (failing e) = false

abbrev at_option : Option Running → Bool
at_option none = false
at_option (some b) = at_launch b.stage

-- A batch that comes to its launches has in its snapshots all the pages of the layers that its
-- items name, in order, as often as they name them.
pub begin_takes :
    (r : Resolver) (items : List BatchItem) (b : Running)
    → (begin items r).1 ≡ some b
    → b.stage ≡ launching items
    → snapshot_ids b.snapshots ≡ batch_ids items r.sequences
unfolding begin count_batch
begin_takes r items b e l = elim (Bool-cases (length items == 0)) [
  | inl t ↦ absurd (ground arith)
  | inr t ↦ at (acquire_all items r) (acquire_all-Takes items r) (rw t at e)
]
  where
    at :
        (p : Pass (List Snapshot))
        → Yields (Takes (batch_ids items r.sequences) r) Whatever p
        → (elim p as (λ x. Resolver × Option Running) [
          | stops e ss r' ↦ (r', some (record { stage = failing e; snapshots = ss }))
          | passes ss r' ↦
              (count_batch items r', some (record { stage = launching items; snapshots = ss }))
        ]).1
          ≡ some b
        → snapshot_ids b.snapshots ≡ batch_ids items r.sequences
    at (passes ss q) h f = ap (λ (o : Option Running). snapshot_ids (snapshots_of o)) (sym f) ∙ h.0
    at (stops x ss q) h f =
        absurd
          (true≢false (sym (ap at_launch l) ∙ sym (ap (λ (o : Option Running). at_option o) f)))
