-- ===== src/Resolver/Flight.antt =====
-- Batches and reclamation in src/cuda/multisequence_cuda_resolver.cu: a page that a pending snapshot
-- holds has its count, whatever the device answers.
use chromo_fold.Prelude.{
  ℕ, ◌+◌, ◌≤◌, List, [], ◌∷◌, ◌++◌, count, count-append, ◌≡◌, refl, ap, ◌⊎◌, inl, inr, arith,
  Bool-cases,
}
use chromo_fold.Prelude.Map.{Map, IsDistinct}
use chromo_fold.Resolver.Types.{
  BatchItem, SequenceState, Snapshot, PendingSnapshot, Answer, refused, not_ready, done, Resolver,
  Pass, passes, stops,
}
use chromo_fold.Resolver.Device.{called, cuda_check}
use chromo_fold.Resolver.Batches.{acquire_all, valid_item, push_pending, moved_from, pend_all}
use chromo_fold.Resolver.Snapshots.{acquire_snapshot}
use chromo_fold.Resolver.Held.{
  in_flight, Adds, HasRoom, Keeps, Yields, Covers, Keeps-self, Keeps-comp, item_ids, batch_ids,
  snapshot_ids, acquire_snapshot_lem,
}

pub Answer-cases : (a : Answer) → (a ≡ refused) ⊎ ((a ≡ not_ready) ⊎ ((n : ℕ) × (a ≡ done n)))
Answer-cases refused = inl refl
Answer-cases not_ready = inr (inl refl)
Answer-cases (done n) = inr (inr (n, refl))

snapshot_ids-append :
    (id : ℕ) (xs ys : List Snapshot)
    → count id (snapshot_ids (xs ++ ys)) ≡ count id (snapshot_ids xs) + count id (snapshot_ids ys)
snapshot_ids-append id [] ys = omega arith
snapshot_ids-append id (x ∷ xs) ys = omega (
  arith,
  snapshot_ids-append id xs ys,
  count-append id x.page_ids (snapshot_ids (xs ++ ys)),
  count-append id x.page_ids (snapshot_ids xs),
)

abbrev pub Pending : List Snapshot → Resolver → Resolver → Type 0
Pending ss r q = Covers (snapshot_ids ss) r q × Keeps r q

pub acquire_all_lem :
    (is : List BatchItem) (r : Resolver)
    → HasRoom (batch_ids is r.sequences) r
    → Yields (λ ss q. Pending ss r q) (λ ss q. Pending ss r q) (acquire_all is r)
unfolding acquire_all
acquire_all_lem [] r room = (λ id. omega arith, Keeps-self r)
acquire_all_lem (i ∷ is) r room = elim (Bool-cases (valid_item i)) [
  | inr e ↦ rw (e, Yields) (λ id. omega arith, Keeps-self r)
  | inl e ↦
      rw (e, Yields)
        (at (acquire_snapshot i.sequence_id i.layer r)
          (acquire_snapshot_lem i r (λ id.
            omega (
              arith,
              room id,
              count-append id (item_ids i r.sequences) (batch_ids is r.sequences),
            )))
          (λ q h. acquire_all_lem is q h))
]
  where
    both :
        (ss : List Snapshot) (q : Resolver)
        → Pending ss r q
        → (p : Pass (List Snapshot)) → Yields (λ ts t. Pending ts q t) (λ ts t. Pending ts q t) p
        → Yields
            (λ ts t. Pending ts r t)
            (λ ts t. Pending ts r t)
            (elim p [ stops e ts r2 ↦ stops e (ss ++ ts) r2 | passes ts r2 ↦ passes (ss ++ ts) r2 ])
    both ss q h (passes ts t) k = (
      λ id. omega (arith, h.0 id, k.0 id, snapshot_ids-append id ss ts),
      Keeps-comp r q t h.1 k.1,
    )
    both ss q h (stops e ts t) k = (
      λ id. omega (arith, h.0 id, k.0 id, snapshot_ids-append id ss ts),
      Keeps-comp r q t h.1 k.1,
    )

    at :
        (p : Pass (List Snapshot))
        → Yields
            (λ ss q. Adds (item_ids i r.sequences) r q × Covers (snapshot_ids ss) r q × Keeps r q)
            (λ ss q. Covers (snapshot_ids ss) r q × Keeps r q)
            p
        → ((q : Resolver)
            → HasRoom (batch_ids is q.sequences) q
            → Yields (λ ss t. Pending ss q t) (λ ss t. Pending ss q t) (acquire_all is q))
        → Yields
            (λ ss q. Pending ss r q)
            (λ ss q. Pending ss r q)
            (elim p [
              | stops e s r' ↦ stops e [] r'
              | passes s r' ↦ elim (acquire_all is r') [
                | stops e ss r2 ↦ stops e (s ++ ss) r2
                | passes ss r2 ↦ passes (s ++ ss) r2
              ]
            ])
    at (stops e ss q) h rest = (λ id. omega (arith, h.0 id), h.1)
    at (passes ss q) h rest =
        both ss q (h.1, h.2) (acquire_all is q)
          (rest q (λ id. omega (
            arith,
            room id,
            h.0 id,
            count-append id (item_ids i r.sequences) (batch_ids is r.sequences),
            ap (λ (m : Map SequenceState). count id (batch_ids is m)) h.2.0,
          )))

-- What the pending snapshots hold.
abbrev pub pending_ids : List PendingSnapshot → List ℕ
pending_ids [] = []
pending_ids (p ∷ ps) = p.snapshot.page_ids ++ pending_ids ps

pending_ids-append :
    (id : ℕ) (xs ys : List PendingSnapshot)
    → count id (pending_ids (xs ++ ys)) ≡ count id (pending_ids xs) + count id (pending_ids ys)
pending_ids-append id [] ys = omega arith
pending_ids-append id (x ∷ xs) ys = omega (
  arith,
  pending_ids-append id xs ys,
  count-append id x.snapshot.page_ids (pending_ids (xs ++ ys)),
  count-append id x.snapshot.page_ids (pending_ids xs),
)

-- The pages are distinct, and each is held at least as often as a list and the pending snapshots say.
abbrev pub HoldsAlso : List ℕ → Resolver → Type 0
HoldsAlso ids r =
    IsDistinct r.pages
    × ((id : ℕ) → count id (pending_ids r.pending_snapshots) + count id ids ≤ in_flight id r.pages)

-- A loop over snapshots that moves them to the pending ones, or leaves them.
pub pend_all_lem :
    (ss : List Snapshot) (rest : List ℕ) (r : Resolver)
    → HoldsAlso (snapshot_ids ss ++ rest) r
    → Yields
        (λ ts q. HoldsAlso (snapshot_ids ts ++ rest) q)
        (λ ts q. HoldsAlso (snapshot_ids ts ++ rest) q)
        (pend_all ss r)
unfolding pend_all cuda_check push_pending
pend_all_lem [] rest r h = h
pend_all_lem (s ∷ ss) rest r h = elim (Answer-cases (r.device 0)) [
  | inl e ↦ rw (e, Yields) (lost h)
  | inr (inl e) ↦ rw (e, Yields) (lost h)
  | inr (inr (n, e)) ↦
      rw (e, Yields)
        (elim (Answer-cases (r.device 1)) [
          | inl d ↦ rw (d, Yields) (lost h)
          | inr (inl d) ↦ rw (d, Yields) (lost h)
          | inr (inr (k, d)) ↦
              rw (d, Yields)
                (front (pend_all ss (push_pending s n (called (called r))))
                  (pend_all_lem ss rest (push_pending s n (called (called r))) (pushed n h)))
        ])
]
  where
    split :
        (id : ℕ)
        → count id (snapshot_ids (s ∷ ss) ++ rest)
          ≡ count id s.page_ids + count id (snapshot_ids ss ++ rest)
    split id = omega (
      arith,
      count-append id s.page_ids (snapshot_ids ss),
      count-append id (snapshot_ids (s ∷ ss)) rest,
      count-append id (snapshot_ids ss) rest,
    )

    lost : HoldsAlso (snapshot_ids (s ∷ ss) ++ rest) r → HoldsAlso (snapshot_ids ss ++ rest) r
    lost h = (h.0, λ id. omega (arith, h.1 id, split id))

    pushed :
        (n : ℕ)
        → HoldsAlso (snapshot_ids (s ∷ ss) ++ rest) r
        → HoldsAlso (snapshot_ids ss ++ rest) (push_pending s n (called (called r)))
    pushed n h = (
      h.0,
      λ id. omega (
        arith,
        h.1 id,
        pending_ids-append id r.pending_snapshots (record { snapshot = s; event = n } ∷ []),
        split id,
        count-append id s.page_ids [],
      ),
    )

    front :
        (p : Pass (List Snapshot))
        → Yields
            (λ ts q. HoldsAlso (snapshot_ids ts ++ rest) q)
            (λ ts q. HoldsAlso (snapshot_ids ts ++ rest) q)
            p
        → Yields
            (λ ts q. HoldsAlso (snapshot_ids ts ++ rest) q)
            (λ ts q. HoldsAlso (snapshot_ids ts ++ rest) q)
            (elim p [
              | stops e ts q ↦ stops e (moved_from s ∷ ts) q
              | passes ts q ↦ passes (moved_from s ∷ ts) q
            ])
    front (passes ts q) h = h
    front (stops e ts q) h = h
