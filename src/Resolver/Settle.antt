-- ===== src/Resolver/Settle.antt =====
-- The reclamation of src/cuda/multisequence_cuda_resolver.cu.
use chromo_fold.Prelude.{Bool, ◌&&◌, List, [], ◌∷◌, ◌==◌, if◌then◌else◌}
use chromo_fold.Prelude.Words.{add64, sub64}
use chromo_fold.Prelude.Map.{Map}
use chromo_fold.Resolver.Types.{
  SharedPage, PendingSnapshot, refused, not_ready, done, Counters, Resolver, Status, success,
  failure, Pass, passes, stops, cuda_failure,
}
use chromo_fold.Resolver.Device.{called}
use chromo_fold.Resolver.Sequences.{failed, count_cuda_error}
use chromo_fold.Resolver.Snapshots.{release_refs}

-- The loop over the pending snapshots, from one on: what stays in the vector.
unfoldable pub settle : List PendingSnapshot → Resolver → Pass (List PendingSnapshot)
unfolding release_refs
settle [] r = passes [] r
settle (p ∷ ps) r = elim (r.device 0) [
  | refused ↦ stops cuda_failure (p ∷ ps) (called r)
  | not_ready ↦ elim (settle ps (called r)) [
    | stops e ps' r' ↦ stops e (p ∷ ps') r'
    | passes ps' r' ↦ passes (p ∷ ps') r'
  ]
  | done n ↦ elim (release_refs p.snapshot.page_ids (called r)) [
    | stops e _ r' ↦ stops e (p ∷ ps) r'
    | passes _ r' ↦ settle ps r'
  ]
]

unfoldable pub is_reclaimable : SharedPage → Bool
is_reclaimable p = p.retired && p.logical_refs == 0 && p.in_flight_refs == 0

pub count_reclaimed : SharedPage → Counters → Counters
count_reclaimed p k = record k {
  pending_reclamation_bytes = sub64 k.pending_reclamation_bytes p.resident_bytes;
  pages_reclaimed = add64 k.pages_reclaimed 1;
}

-- The pages that stay, and the counters.
unfoldable pub sweep : Map SharedPage → Counters → Map SharedPage × Counters
unfolding is_reclaimable count_reclaimed
sweep [] k = ([], k)
sweep ((id, p) ∷ m) k =
    let gone = sweep m (count_reclaimed p k) in
    let kept = sweep m k in if is_reclaimable p then gone else ((id, p) ∷ kept.0, kept.1)

unfoldable pub swept : Resolver → Resolver
unfolding sweep
swept r = record r { pages = (sweep r.pages r.counters).0; counters = (sweep r.pages r.counters).1 }

unfoldable pub reclaim : Resolver → Resolver × Status
unfolding settle swept
reclaim r = elim (settle r.pending_snapshots r) [
  | stops e ps r' ↦ (failed e (count_cuda_error (record r' { pending_snapshots = ps })), failure)
  | passes ps r' ↦ (swept (record r' { pending_snapshots = ps }), success)
]
