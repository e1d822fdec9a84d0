-- ===== src/Resolver/Sweep.antt =====
-- cf_ms_cuda_reclaim_async of src/cuda/multisequence_cuda_resolver.cu: the pages in flight stay.
use chromo_fold.Prelude.{
  ℕ, true, false, List, [], ◌∷◌, ◌++◌, ◌==◌, count-append, ◌≡◌, refl, sym, ap, ◌∙◌, inl, inr, arith,
  Bool-cases, Option-cases, ==→eq, is_some,
}
use chromo_fold.Prelude.Map.{Map, find, contains, IsDistinct}
use chromo_fold.Resolver.Types.{
  SharedPage, PendingSnapshot, Counters, Resolver, Pass, passes, stops, Status, success, failure,
}
use chromo_fold.Resolver.Device.{called}
use chromo_fold.Resolver.Sequences.{failed, count_cuda_error}
use chromo_fold.Resolver.Settle.{settle, is_reclaimable, sweep, count_reclaimed, swept, reclaim}
use chromo_fold.Resolver.Snapshots.{release_refs}
use chromo_fold.Resolver.Held.{refs_of, in_flight, Yields}
use chromo_fold.Resolver.Flight.{HoldsAlso, Answer-cases, pending_ids}
use chromo_fold.Resolver.Reclaim.{StillHeld, StillHeld-append, StillHeld-split, release_refs_lem}

settle_lem :
    (ps : List PendingSnapshot) (rest : List ℕ) (r : Resolver)
    → StillHeld (pending_ids ps) rest r
    → Yields
        (λ qs q. StillHeld (pending_ids qs) rest q)
        (λ qs q. StillHeld (pending_ids qs) rest q)
        (settle ps r)
unfolding settle
settle_lem [] rest r h = h
settle_lem (p ∷ ps) rest r h = elim (Answer-cases (r.device 0)) [
  | inl e ↦ rw (e, Yields) h
  | inr (inl e) ↦
      rw (e, Yields)
        (kept (settle ps (called r))
          (settle_lem ps (p.snapshot.page_ids ++ rest) (called r) (swap h)))
  | inr (inr (n, e)) ↦
      rw (e, Yields)
        (gone (release_refs p.snapshot.page_ids (called r))
          (release_refs_lem p.snapshot.page_ids (pending_ids ps ++ rest) (called r)
            (StillHeld-append p.snapshot.page_ids (pending_ids ps) rest (called r) h))
          (λ q k. settle_lem ps rest q k))
]
  where
    swap :
        StillHeld (pending_ids (p ∷ ps)) rest r
        → StillHeld (pending_ids ps) (p.snapshot.page_ids ++ rest) (called r)
    swap h = (
      h.0,
      λ id. omega (
        arith,
        h.1 id,
        count-append id p.snapshot.page_ids (pending_ids ps),
        count-append id p.snapshot.page_ids rest,
      ),
    )

    back :
        (qs : List PendingSnapshot) (q : Resolver)
        → StillHeld (pending_ids qs) (p.snapshot.page_ids ++ rest) q
        → StillHeld (pending_ids (p ∷ qs)) rest q
    back qs q h = (
      h.0,
      λ id. omega (
        arith,
        h.1 id,
        count-append id p.snapshot.page_ids (pending_ids qs),
        count-append id p.snapshot.page_ids rest,
      ),
    )

    kept :
        (x : Pass (List PendingSnapshot))
        → Yields
            (λ qs q. StillHeld (pending_ids qs) (p.snapshot.page_ids ++ rest) q)
            (λ qs q. StillHeld (pending_ids qs) (p.snapshot.page_ids ++ rest) q)
            x
        → Yields
            (λ qs q. StillHeld (pending_ids qs) rest q)
            (λ qs q. StillHeld (pending_ids qs) rest q)
            (elim x [ stops e ps' r' ↦ stops e (p ∷ ps') r' | passes ps' r' ↦ passes (p ∷ ps') r' ])
    kept (passes qs q) h = back qs q h
    kept (stops e qs q) h = back qs q h

    gone :
        (x : Pass (Unit {0}))
        → Yields
            (λ a q.
              StillHeld [] (pending_ids ps ++ rest) q × (q.pending_snapshots ≡ r.pending_snapshots))
            (λ a q. ⊥)
            x
        → ((q : Resolver)
            → StillHeld (pending_ids ps) rest q
            → Yields
                (λ qs t. StillHeld (pending_ids qs) rest t)
                (λ qs t. StillHeld (pending_ids qs) rest t)
                (settle ps q))
        → Yields
            (λ qs q. StillHeld (pending_ids qs) rest q)
            (λ qs q. StillHeld (pending_ids qs) rest q)
            (elim x [ stops e _ r' ↦ stops e (p ∷ ps) r' | passes _ r' ↦ settle ps r' ])
    gone (passes a q) h next = next q (StillHeld-split (pending_ids ps) rest q h.0)
    gone (stops e a q) h next = absurd h

-- A sweep takes no page that is in flight.
reclaimable_free : (p : SharedPage) → is_reclaimable p ≡ true → p.in_flight_refs ≡ 0
unfolding is_reclaimable
reclaimable_free p h = ground arith

contains-sweep :
    (j : ℕ) (m : Map SharedPage) (k : Counters)
    → contains j m ≡ false
    → contains j (sweep m k).0 ≡ false
unfolding sweep find
contains-sweep j [] k h = h
contains-sweep j ((i, p) ∷ m) k h =
    ground (arith, contains-sweep j m k, contains-sweep j m (count_reclaimed p k))

sweep-IsDistinct : (m : Map SharedPage) (k : Counters) → IsDistinct m → IsDistinct (sweep m k).0
unfolding sweep
sweep-IsDistinct [] k h = h
sweep-IsDistinct ((i, p) ∷ m) k h = elim (Bool-cases (is_reclaimable p)) [
  | inl e ↦ rw e (sweep-IsDistinct m (count_reclaimed p k) h.1)
  | inr e ↦ rw e (contains-sweep i m k h.0, sweep-IsDistinct m k h.1)
]

pub absent : (j : ℕ) (m : Map SharedPage) → contains j m ≡ false → in_flight j m ≡ 0
absent j m h = elim (Option-cases (find j m)) [
  | inl e ↦ ap refs_of e
  | inr (p, e) ↦ ground (arith, ap is_some e)
]

in_flight-sweep :
    (j : ℕ) (m : Map SharedPage) (k : Counters)
    → IsDistinct m
    → in_flight j (sweep m k).0 ≡ in_flight j m
unfolding sweep find
in_flight-sweep j [] k h = refl
in_flight-sweep j ((i, p) ∷ m) k h = elim (Bool-cases (is_reclaimable p)) [
  | inr e ↦
      rw e (elim (Bool-cases (i == j)) [
        | inl t ↦ rw t refl
        | inr t ↦ rw t (in_flight-sweep j m k h.1)
      ])
  | inl e ↦ rw e (
      in_flight-sweep j m (count_reclaimed p k) h.1 ∙ elim (Bool-cases (i == j)) [
        | inl t ↦ rw t (
            ap (λ (x : ℕ). in_flight x m) (sym (==→eq i j t))
            ∙ absent i m h.0
            ∙ sym (reclaimable_free p e))
        | inr t ↦ rw t refl
      ])
]

swept-StillHeld :
    (ids rest : List ℕ) (r : Resolver) → StillHeld ids rest r → StillHeld ids rest (swept r)
unfolding swept
swept-StillHeld ids rest r h = (
  sweep-IsDistinct r.pages r.counters h.0,
  λ id. omega (arith, h.1 id, in_flight-sweep id r.pages r.counters h.0),
)

pub reclaim-HoldsAlso :
    (rest : List ℕ) (r : Resolver) → HoldsAlso rest r → HoldsAlso rest (reclaim r).0
unfolding reclaim swept
reclaim-HoldsAlso rest r h =
    at (settle r.pending_snapshots r)
      (settle_lem r.pending_snapshots rest r (h.0, λ id. omega (arith, h.1 id)))
  where
    at :
        (x : Pass (List PendingSnapshot))
        → Yields
            (λ qs q. StillHeld (pending_ids qs) rest q)
            (λ qs q. StillHeld (pending_ids qs) rest q)
            x
        → HoldsAlso rest
            (elim x as (λ y. Resolver × Status) [
              | stops e ps r' ↦
                  (failed e (count_cuda_error (record r' { pending_snapshots = ps })), failure)
              | passes ps r' ↦ (swept (record r' { pending_snapshots = ps }), success)
            ]).0
    at (passes qs q) k =
        let s = swept-StillHeld (pending_ids qs) rest q k in (s.0, λ id. omega (arith, s.1 id))
    at (stops e qs q) k = (k.0, λ id. omega (arith, k.1 id))
