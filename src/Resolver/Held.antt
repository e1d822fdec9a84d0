-- ===== src/Resolver/Held.antt =====
-- Pages in flight in src/cuda/multisequence_cuda_resolver.cu: what a batch holds is counted.
use mathlib.Core.List.{append-nil, append_assoc}
use chromo_fold.Prelude.{
  ℕ, ◌+◌, ◌≤◌, ◌<◌, not, Option, none, some, List, [], ◌∷◌, ◌++◌, ◌==◌, if◌then◌else◌, count,
  count-append, get_elem?, ◌≡◌, refl, sym, ap, ◌∙◌, inl, inr, arith, Bool-cases, Option-cases,
  ==→eq,
}
use chromo_fold.Prelude.Words.{add32_small, u32_mod}
use chromo_fold.Prelude.Map.{Map, find, assign, find-assign, assign-IsDistinct, IsDistinct}
use chromo_fold.Resolver.Types.{
  BatchItem, SharedPage, PageRef, LayerState, SequenceState, Snapshot, Resolver, Pass, passes,
  stops, layer_out_of_range, unavailable_sequence,
}
use chromo_fold.Resolver.Snapshots.{
  held, hold, new_snapshot, acquire_at, acquire_snapshot, count_snapshot,
}
use chromo_fold.Resolver.Auditor.{ref_ids}

-- How often a page is held, 0 where it is gone.
abbrev pub refs_of : Option SharedPage → ℕ
refs_of none = 0
refs_of (some p) = p.in_flight_refs

abbrev pub in_flight : ℕ → Map SharedPage → ℕ
in_flight id pages = refs_of (find id pages)

pub in_flight-assign :
    (k id : ℕ) (p q : SharedPage) (m : Map SharedPage)
    → find k m ≡ some p
    → in_flight id (assign k q m) ≡ (if k == id then q.in_flight_refs else in_flight id m)
in_flight-assign k id p q m h =
    ap refs_of (find-assign k id q m)
    ∙ elim (Bool-cases (k == id)) [ inl e ↦ simp (e, h) refl | inr e ↦ simp e refl ]

-- What a piece of code does to the pages in flight: it adds those of a list.
abbrev pub Adds : List ℕ → Resolver → Resolver → Type 0
Adds ids r q = (id : ℕ) → in_flight id q.pages ≡ in_flight id r.pages + count id ids

abbrev pub HasRoom : List ℕ → Resolver → Type 0
HasRoom ids r = (id : ℕ) → in_flight id r.pages + count id ids < u32_mod

abbrev Grows : Resolver → Resolver → Type 0
Grows r q = (id : ℕ) → in_flight id r.pages ≤ in_flight id q.pages

-- The parts of the state that counting leaves.
abbrev pub Keeps : Resolver → Resolver → Type 0
Keeps r q =
    (q.sequences ≡ r.sequences)
    × (q.pending_snapshots ≡ r.pending_snapshots)
    × (IsDistinct r.pages → IsDistinct q.pages)

-- A predicate of a result, and one of a throw.
abbrev pub Yields {ℓ} :
    {A : Type ℓ} → (A → Resolver → Type 0) → (A → Resolver → Type 0) → Pass A → Type 0
Yields P Q (passes a r) = P a r
Yields P Q (stops e a r) = Q a r

pub count_self : (k : ℕ) → count k (k ∷ []) ≡ 1
count_self k = ground arith

Yields-map {ℓ} :
    {A : Type ℓ} {P Q P' Q' : A → Resolver → Type 0}
    → ((a : A) (r : Resolver) → P a r → P' a r)
    → ((a : A) (r : Resolver) → Q a r → Q' a r)
    → (p : Pass A) → Yields P Q p
    → Yields P' Q' p
Yields-map f g (passes a r) h = f a r h
Yields-map f g (stops e a r) h = g a r h

held-Adds :
    (k : ℕ) (p : SharedPage) (r : Resolver)
    → find k r.pages ≡ some p
    → HasRoom (k ∷ []) r
    → Adds (k ∷ []) r (held k p r)
unfolding held
held-Adds k p r h room id = in_flight-assign k id p _ r.pages h ∙ elim (Bool-cases (k == id)) [
  | inl e ↦ simp e (
      add32_small p.in_flight_refs 1 (omega (arith, room k, count_self k, ap refs_of h))
      ∙ omega (arith, ap refs_of h, ap (λ (x : ℕ). in_flight x r.pages) (==→eq k id e)))
  | inr e ↦ simp e (omega arith)
]

held-Keeps : (k : ℕ) (p : SharedPage) (r : Resolver) → Keeps r (held k p r)
unfolding held
held-Keeps k p r = (refl, refl, assign-IsDistinct k _ r.pages)

Adds-comp : (xs ys : List ℕ) (r q t : Resolver) → Adds xs r q → Adds ys q t → Adds (xs ++ ys) r t
Adds-comp xs ys r q t f g id = omega (arith, f id, g id, count-append id xs ys)

pub Keeps-comp : (r q t : Resolver) → Keeps r q → Keeps q t → Keeps r t
Keeps-comp r q t f g = (g.0 ∙ f.0, g.1 ∙ f.1, λ d. g.2 (f.2 d))

-- hold counts each reference, and gives their pages; where it throws, no count has gone down.
hold_lem :
    (refs : List PageRef) (ids : List ℕ) (r : Resolver)
    → HasRoom (ref_ids refs) r
    → Yields
        (λ out q. (out ≡ ids ++ ref_ids refs) × Adds (ref_ids refs) r q × Keeps r q)
        (λ out q. Grows r q × Keeps r q)
        (hold refs ids r)
unfolding hold ref_ids
hold_lem [] ids r room = (sym (append-nil ids), (λ id. omega arith), (refl, refl, λ d. d))
hold_lem (ref ∷ refs) ids r room =
    let k = ref.page_id in
    elim (Option-cases (find ref.page_id r.pages)) [
      | inl e ↦ rw (e, Yields) ((λ id. omega arith), (refl, refl, λ d. d))
      | inr (p, e) ↦
          let one = held-Adds k p r e (λ id. omega (arith, room id)) in
          rw (e, Yields)
            (Yields-map
              (λ out q h. (
                h.0 ∙ append_assoc ids (ref.page_id ∷ []) (ref_ids refs),
                Adds-comp (ref.page_id ∷ []) (ref_ids refs) r (held ref.page_id p r) q one h.1,
                Keeps-comp r (held k p r) q (held-Keeps k p r) h.2,
              ))
              (λ out q h. (
                λ id. omega (arith, h.0 id, one id),
                Keeps-comp r (held k p r) q (held-Keeps k p r) h.1,
              ))
              (hold refs (ids ++ ref.page_id ∷ []) (held ref.page_id p r))
              (hold_lem refs (ids ++ ref.page_id ∷ []) (held ref.page_id p r)
                (λ id. omega (arith, room id, one id))))
    ]

-- What an item of a batch asks for.
abbrev pub layer_refs : Option LayerState → List ℕ
layer_refs none = []
layer_refs (some l) = ref_ids l.pages

abbrev pub sequence_refs : ℕ → Option SequenceState → List ℕ
sequence_refs layer none = []
sequence_refs layer (some s) = layer_refs (get_elem? s.layers layer)

abbrev pub item_ids : BatchItem → Map SequenceState → List ℕ
item_ids i m = sequence_refs i.layer (find i.sequence_id m)

abbrev pub batch_ids : List BatchItem → Map SequenceState → List ℕ
batch_ids [] m = []
batch_ids (i ∷ is) m = item_ids i m ++ batch_ids is m

abbrev pub snapshot_ids : List Snapshot → List ℕ
snapshot_ids [] = []
snapshot_ids (s ∷ ss) = s.page_ids ++ snapshot_ids ss

-- At least those of a list are added.
abbrev pub Covers : List ℕ → Resolver → Resolver → Type 0
Covers ids r q = (id : ℕ) → in_flight id r.pages + count id ids ≤ in_flight id q.pages

pub Keeps-self : (r : Resolver) → Keeps r r
Keeps-self r = (refl, refl, λ d. d)

acquire_at_lem :
    (id layer : ℕ) (s : SequenceState) (l : LayerState) (r : Resolver)
    → HasRoom (ref_ids l.pages) r
    → Yields
        (λ ss q. Adds (ref_ids l.pages) r q × Covers (snapshot_ids ss) r q × Keeps r q)
        (λ ss q. Covers (snapshot_ids ss) r q × Keeps r q)
        (acquire_at id layer s l r)
unfolding acquire_at new_snapshot
acquire_at_lem id layer s l r room = at (hold l.pages [] r) (hold_lem l.pages [] r room)
  where
    at :
        (p : Pass (List ℕ))
        → Yields
            (λ out q. (out ≡ ref_ids l.pages) × Adds (ref_ids l.pages) r q × Keeps r q)
            (λ out q. Grows r q × Keeps r q)
            p
        → Yields
            (λ ss q. Adds (ref_ids l.pages) r q × Covers (snapshot_ids ss) r q × Keeps r q)
            (λ ss q. Covers (snapshot_ids ss) r q × Keeps r q)
            (elim p [
              | stops e ids r' ↦ stops e [] r'
              | passes ids r' ↦ passes (new_snapshot id layer s l ids ∷ []) (count_snapshot r')
            ])
    at (passes out q) h = (
      h.1,
      λ id. omega (
        arith,
        h.1 id,
        ap (λ (x : List ℕ). count id (x ++ [])) h.0,
        count-append id (ref_ids l.pages) [],
      ),
      h.2,
    )
    at (stops e out q) h = (λ id. omega (arith, h.0 id), h.1)

pub acquire_snapshot_lem :
    (i : BatchItem) (r : Resolver)
    → HasRoom (item_ids i r.sequences) r
    → Yields
        (λ ss q. Adds (item_ids i r.sequences) r q × Covers (snapshot_ids ss) r q × Keeps r q)
        (λ ss q. Covers (snapshot_ids ss) r q × Keeps r q)
        (acquire_snapshot i.sequence_id i.layer r)
unfolding acquire_snapshot
acquire_snapshot_lem i r room = at (find i.sequence_id r.sequences) room
  where
    on_layer :
        (s : SequenceState) (o : Option LayerState)
        → HasRoom (layer_refs o) r
        → Yields
            (λ ss q. Adds (layer_refs o) r q × Covers (snapshot_ids ss) r q × Keeps r q)
            (λ ss q. Covers (snapshot_ids ss) r q × Keeps r q)
            (elim o [
              | none ↦ stops layer_out_of_range [] r
              | some l ↦ acquire_at i.sequence_id i.layer s l r
            ])
    on_layer s none h = (λ id. omega arith, Keeps-self r)
    on_layer s (some l) h = acquire_at_lem i.sequence_id i.layer s l r h

    at :
        (o : Option SequenceState)
        → HasRoom (sequence_refs i.layer o) r
        → Yields
            (λ ss q. Adds (sequence_refs i.layer o) r q × Covers (snapshot_ids ss) r q × Keeps r q)
            (λ ss q. Covers (snapshot_ids ss) r q × Keeps r q)
            (elim o [
              | none ↦ stops unavailable_sequence [] r
              | some s ↦
                  if not s.dispatchable
                  then stops unavailable_sequence [] r
                  else elim (get_elem? s.layers i.layer) [
                    | none ↦ stops layer_out_of_range [] r
                    | some l ↦ acquire_at i.sequence_id i.layer s l r
                  ]
            ])
    at none h = (λ id. omega arith, Keeps-self r)
    at (some s) h = elim (Bool-cases s.dispatchable) [
      | inl e ↦ rw (e, Yields) (on_layer s (get_elem? s.layers i.layer) h)
      | inr e ↦ rw (e, Yields) (λ id. omega arith, Keeps-self r)
    ]
