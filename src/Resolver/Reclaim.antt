-- ===== src/Resolver/Reclaim.antt =====
-- What a batch and a reclamation of src/cuda/multisequence_cuda_resolver.cu leave: every page that a
-- pending snapshot holds.
use chromo_fold.Prelude.{
  ℕ, ◌+◌, ◌-◌, ◌≤◌, true, some, List, [], ◌∷◌, ◌++◌, ◌==◌, count, count-append, ◌≡◌, refl, sym, ap,
  ◌∙◌, inl, inr, arith, Bool-cases, Option-cases, ==→eq,
}
use chromo_fold.Prelude.Map.{find, assign-IsDistinct, IsDistinct}
use chromo_fold.Resolver.Types.{
  SharedPage, Snapshot, PendingSnapshot, Error, Resolver, Pass, passes, stops,
}
use chromo_fold.Resolver.Batches.{batch_failed}
use chromo_fold.Resolver.Snapshots.{let_go, release_refs, state_of, release_all}
use chromo_fold.Resolver.Held.{
  refs_of, in_flight, in_flight-assign, Yields, snapshot_ids, count_self,
}
use chromo_fold.Resolver.Flight.{pending_ids, HoldsAlso}

-- Pages are let go of; what else is held stays so, and no count falls below 0.
abbrev pub StillHeld : List ℕ → List ℕ → Resolver → Type 0
StillHeld ids rest r =
    IsDistinct r.pages × ((id : ℕ) → count id ids + count id rest ≤ in_flight id r.pages)

let_go_lem :
    (k : ℕ) (ids rest : List ℕ) (p : SharedPage) (r : Resolver)
    → find k r.pages ≡ some p
    → StillHeld (k ∷ ids) rest r
    → StillHeld ids rest (let_go k p r)
unfolding let_go
let_go_lem k ids rest p r e h = (
  assign-IsDistinct k _ r.pages h.0,
  λ id. ground (
    arith,
    h.1 id,
    in_flight-assign k id p (record p { in_flight_refs = p.in_flight_refs - 1 }) r.pages e,
    ap refs_of e,
    fit id,
  ),
)
  where
    fit : (id : ℕ) → (k == id) ≡ true → in_flight id r.pages ≡ in_flight k r.pages
    fit id t = ap (λ (x : ℕ). in_flight x r.pages) (sym (==→eq k id t))

pub release_refs_lem :
    (ids rest : List ℕ) (r : Resolver)
    → StillHeld ids rest r
    → Yields
        (λ a q. StillHeld [] rest q × (q.pending_snapshots ≡ r.pending_snapshots))
        (λ a q. ⊥)
        (release_refs ids r)
unfolding release_refs
release_refs_lem [] rest r h = (h, refl)
release_refs_lem (k ∷ ids) rest r h = elim (Option-cases (find k r.pages)) [
  | inl e ↦ absurd (omega (arith, h.1 k, count_self k, ap refs_of e, count-append k (k ∷ []) ids))
  | inr (p, e) ↦ elim (Bool-cases (p.in_flight_refs == 0)) [
    | inl z ↦ absurd (
        omega (
          arith,
          h.1 k,
          count_self k,
          ap refs_of e,
          ==→eq p.in_flight_refs 0 z,
          count-append k (k ∷ []) ids,
        ))
    | inr z ↦
        rw (e, z, Yields) (release_refs_lem ids rest (let_go k p r) (let_go_lem k ids rest p r e h))
  ]
]

pub StillHeld-append :
    (xs ys rest : List ℕ) (r : Resolver) → StillHeld (xs ++ ys) rest r → StillHeld xs (ys ++ rest) r
StillHeld-append xs ys rest r h =
    (h.0, λ id. omega (arith, h.1 id, count-append id xs ys, count-append id ys rest))

pub StillHeld-split :
    (ys rest : List ℕ) (r : Resolver) → StillHeld [] (ys ++ rest) r → StillHeld ys rest r
StillHeld-split ys rest r h = (h.0, λ id. omega (arith, h.1 id, count-append id ys rest))

release_all_lem :
    (ss : List Snapshot) (rest : List ℕ) (r : Resolver)
    → StillHeld (snapshot_ids ss) rest r
    → StillHeld [] rest (release_all ss r)
      × ((release_all ss r).pending_snapshots ≡ r.pending_snapshots)
unfolding release_all
release_all_lem [] rest r h = (h, refl)
release_all_lem (s ∷ ss) rest r h =
    let (k, e) = at (release_refs s.page_ids r) (
      release_refs_lem s.page_ids (snapshot_ids ss ++ rest) r
        (StillHeld-append s.page_ids (snapshot_ids ss) rest r h)) in
    let (m, d) = release_all_lem ss rest (state_of (release_refs s.page_ids r)) k in (m, d ∙ e)
  where
    at :
        (p : Pass (Unit {0}))
        → Yields
            (λ a q.
              StillHeld [] (snapshot_ids ss ++ rest) q
              × (q.pending_snapshots ≡ r.pending_snapshots))
            (λ a q. ⊥)
            p
        → StillHeld (snapshot_ids ss) rest (state_of p)
          × ((state_of p).pending_snapshots ≡ r.pending_snapshots)
    at (passes a q) h = (StillHeld-split (snapshot_ids ss) rest q h.0, h.1)
    at (stops e a q) h = absurd h

pub batch_failed-HoldsAlso :
    (e : Error) (ss : List Snapshot) (rest : List ℕ) (r : Resolver)
    → HoldsAlso (snapshot_ids ss ++ rest) r
    → HoldsAlso rest (batch_failed e ss r)
unfolding batch_failed
batch_failed-HoldsAlso e ss rest r h =
    let (k, d) = release_all_lem ss (pending_ids r.pending_snapshots ++ rest) r (
      h.0,
      λ id. omega (
        arith,
        h.1 id,
        count-append id (snapshot_ids ss) rest,
        count-append id (pending_ids r.pending_snapshots) rest,
      ),
    ) in
    (
      k.0,
      λ id. omega (
        arith,
        k.1 id,
        count-append id (pending_ids r.pending_snapshots) rest,
        ap (λ (x : List PendingSnapshot). count id (pending_ids x)) d,
      ),
    )
