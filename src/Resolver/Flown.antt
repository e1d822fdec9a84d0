-- ===== src/Resolver/Flown.antt =====
-- What a step of a batch of src/cuda/multisequence_cuda_resolver.cu leaves held, whatever runs beside it.
use chromo_fold.Prelude.{
  ℕ, zero, suc, ◌+◌, Option, none, some, List, [], ◌∷◌, ◌++◌, count, count-append, ◌≡◌, sym, ap,
  inl, inr, arith, Bool-cases, ◌==◌, length,
}
use chromo_fold.Resolver.Types.{BatchItem, Snapshot, PendingSnapshot, Resolver, Pass, passes, stops}
use chromo_fold.Resolver.Device.{cuda_check}
use chromo_fold.Resolver.Batches.{acquire_all, count_batch, count_launch, pend_all, batch_executed}
use chromo_fold.Resolver.Held.{HasRoom, Yields, batch_ids, snapshot_ids}
use chromo_fold.Resolver.Flight.{
  Answer-cases, Pending, HoldsAlso, acquire_all_lem, pend_all_lem, pending_ids,
}
use chromo_fold.Resolver.Reclaim.{batch_failed-HoldsAlso}
use chromo_fold.Resolver.Overlap.{
  Stage, launching, failing, Running, begin, advance, joined, resume,
}

-- The pages that the batches between their critical sections hold.
abbrev pub held_ids : List Running → List ℕ
held_ids [] = []
held_ids (b ∷ bs) = snapshot_ids b.snapshots ++ held_ids bs

-- Room for another list in front.
HoldsAlso-Pending :
    (ss : List Snapshot) (rest : List ℕ) (r q : Resolver)
    → HoldsAlso rest r
    → Pending ss r q
    → HoldsAlso (snapshot_ids ss ++ rest) q
HoldsAlso-Pending ss rest r q h k = (
  k.1.2 h.0,
  λ id. omega (
    arith,
    h.1 id,
    k.0 id,
    count-append id (snapshot_ids ss) rest,
    ap (λ (x : List PendingSnapshot). count id (pending_ids x)) k.1.1,
  ),
)

HoldsAlso-count :
    (xs ys : List ℕ) (r : Resolver)
    → ((id : ℕ) → count id ys ≡ count id xs)
    → HoldsAlso xs r
    → HoldsAlso ys r
HoldsAlso-count xs ys r e h = (h.0, λ id. omega (arith, h.1 id, e id))

abbrev kept_ids : Option Running → List ℕ
kept_ids none = []
kept_ids (some b) = snapshot_ids b.snapshots

count-joined :
    (id : ℕ) (o : Option Running) (bs : List Running)
    → count id (held_ids (joined o bs)) ≡ count id (kept_ids o) + count id (held_ids bs)
count-joined id none bs = omega arith
count-joined id (some b) bs = count-append id (snapshot_ids b.snapshots) (held_ids bs)

-- A step gives a batch, or none, that holds its pages beside the others.
abbrev Held : List ℕ → Resolver × Option Running → Type 0
Held rest x = HoldsAlso (kept_ids x.1 ++ rest) x.0

begin-Held :
    (items : List BatchItem) (rest : List ℕ) (r : Resolver)
    → HasRoom (batch_ids items r.sequences) r
    → HoldsAlso rest r
    → Held rest (begin items r)
unfolding begin count_batch
begin-Held items rest r room h = elim (Bool-cases (length items == 0)) [
  | inl e ↦ rw (e, Held) h
  | inr e ↦ rw (e, Held) (at (acquire_all items r) (acquire_all_lem items r room))
]
  where
    at :
        (p : Pass (List Snapshot))
        → Yields (λ ss q. Pending ss r q) (λ ss q. Pending ss r q) p
        → Held rest (elim p as (λ x. Resolver × Option Running) [
          | stops e ss r' ↦ (r', some (record { stage = failing e; snapshots = ss }))
          | passes ss r' ↦
              (count_batch items r', some (record { stage = launching items; snapshots = ss }))
        ])
    at (passes ss q) k = HoldsAlso-Pending ss rest r q h k
    at (stops e ss q) k = HoldsAlso-Pending ss rest r q h k

advance-Held :
    (s : Stage) (ss : List Snapshot) (rest : List ℕ) (r : Resolver)
    → HoldsAlso (snapshot_ids ss ++ rest) r
    → Held rest (advance s ss r)
unfolding advance cuda_check count_launch batch_executed
advance-Held (launching []) ss rest r h = at (pend_all ss r) (pend_all_lem ss rest r h)
  where
    at :
        (p : Pass (List Snapshot))
        → Yields
            (λ ts q. HoldsAlso (snapshot_ids ts ++ rest) q)
            (λ ts q. HoldsAlso (snapshot_ids ts ++ rest) q)
            p
        → Held rest (elim p as (λ x. Resolver × Option Running) [
          | stops e ss' r' ↦ (r', some (record { stage = failing e; snapshots = ss' }))
          | passes ss' r' ↦ (batch_executed r', none)
        ])
    at (passes ts q) k = (k.0, λ id. omega (arith, k.1 id, count-append id (snapshot_ids ts) rest))
    at (stops e ts q) k = k
advance-Held (launching (i ∷ is)) ss rest r h = elim (Answer-cases (r.device 0)) [
  | inl e ↦ rw (advance, e, Held) h
  | inr (inl e) ↦ rw (advance, e, Held) h
  | inr (inr (n, e)) ↦ rw (advance, e, Held) h
]
advance-Held (failing e) ss rest r h = batch_failed-HoldsAlso e ss rest r h

-- A step of one batch, beside the others and a list.
pub resume-HoldsAlso :
    (n : ℕ) (bs : List Running) (r : Resolver) (rest : List ℕ)
    → HoldsAlso (held_ids bs ++ rest) r
    → HoldsAlso (held_ids (resume n bs r).1 ++ rest) (resume n bs r).0
unfolding resume
resume-HoldsAlso n [] r rest h = h
resume-HoldsAlso zero (b ∷ bs) r rest h =
    let x = advance b.stage b.snapshots r in
    let xs = snapshot_ids b.snapshots in
    HoldsAlso-count (kept_ids x.1 ++ (held_ids bs ++ rest)) (held_ids (joined x.1 bs) ++ rest) x.0
      (λ id. omega (
        arith,
        count-joined id x.1 bs,
        count-append id (kept_ids x.1) (held_ids bs ++ rest),
        count-append id (held_ids (joined x.1 bs)) rest,
        count-append id (held_ids bs) rest,
      ))
      (advance-Held b.stage b.snapshots (held_ids bs ++ rest) r (
        HoldsAlso-count ((xs ++ held_ids bs) ++ rest) (xs ++ (held_ids bs ++ rest)) r
          (λ id. omega (
            arith,
            count-append id (xs ++ held_ids bs) rest,
            count-append id xs (held_ids bs),
            count-append id xs (held_ids bs ++ rest),
            count-append id (held_ids bs) rest,
          ))
          h))
resume-HoldsAlso (suc n) (b ∷ bs) r rest h =
    let xs = snapshot_ids b.snapshots in
    let moved = turn xs (held_ids bs) in
    let back = λ (id : ℕ). sym (turn xs (held_ids (resume n bs r).1) id) in
    HoldsAlso-count (held_ids (resume n bs r).1 ++ (xs ++ rest))
      ((xs ++ held_ids (resume n bs r).1) ++ rest) (resume n bs r).0 back
      (resume-HoldsAlso n bs r (xs ++ rest)
        (HoldsAlso-count ((xs ++ held_ids bs) ++ rest) (held_ids bs ++ (xs ++ rest)) r moved h))
  where
    turn : (ys zs : List ℕ) (id : ℕ) → count id (zs ++ (ys ++ rest)) ≡ count id ((ys ++ zs) ++ rest)
    turn ys zs id = omega (
      arith,
      count-append id zs (ys ++ rest),
      count-append id ys rest,
      count-append id (ys ++ zs) rest,
      count-append id ys zs,
    )

pub begin-HoldsAlso :
    (items : List BatchItem) (bs : List Running) (r : Resolver)
    → HasRoom (batch_ids items r.sequences) r
    → HoldsAlso (held_ids bs) r
    → HoldsAlso (held_ids (joined (begin items r).1 bs)) (begin items r).0
begin-HoldsAlso items bs r room h =
    let x = begin items r in
    HoldsAlso-count (kept_ids x.1 ++ held_ids bs) (held_ids (joined x.1 bs)) x.0
      (λ id. omega (arith, count-joined id x.1 bs, count-append id (kept_ids x.1) (held_ids bs)))
      (begin-Held items (held_ids bs) r room h)
