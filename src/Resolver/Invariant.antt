-- ===== src/Resolver/Invariant.antt =====
-- The pages that are held, over all interleavings of the calls of src/cuda/multisequence_cuda_resolver.cu.
use mathlib.Core.List.{append-nil}
use chromo_fold.Prelude.{
  ℕ, ◌≤◌, true, some, List, [], ◌∷◌, ◌++◌, count, count-append, ◌≡◌, ap, sym, subst, inl, inr,
  arith, Bool-cases, Option-cases, if_elim, elem,
}
use chromo_fold.Prelude.Map.{find, contains}
use chromo_fold.Resolver.{
  Call, creates, removes, publishes, stages, copies, shifts, cancels, reclaims, step,
}
use chromo_fold.Resolver.Types.{Config, PendingSnapshot, Answer, Resolver, Status}
use chromo_fold.Resolver.Sequences.{create, sequence_create, cancel_sequence}
use chromo_fold.Resolver.Held.{HasRoom, batch_ids}
use chromo_fold.Resolver.Flight.{HoldsAlso, pending_ids}
use chromo_fold.Resolver.Sweep.{reclaim-HoldsAlso, absent}
use chromo_fold.Resolver.Still.{SameFlight}
use chromo_fold.Resolver.Unmoved.{copy_same, publish_same, remove_same, shift_same, stage_same}
use chromo_fold.Resolver.Overlap.{idle, System, Act, calls, begins, resumes, act, schedule, resume}
use chromo_fold.Resolver.Flown.{held_ids, begin-HoldsAlso, resume-HoldsAlso}

SameFlight-HoldsAlso :
    (ids : List ℕ) (r q : Resolver) → SameFlight r q → HoldsAlso ids r → HoldsAlso ids q
SameFlight-HoldsAlso ids r q s h = (
  s.0 h.0,
  λ id.
      omega
        (arith, h.1 id, s.2 id, ap (λ (x : List PendingSnapshot). count id (pending_ids x)) s.1),
)

step-HoldsAlso :
    (ids : List ℕ) (r : Resolver) (c : Call) → HoldsAlso ids r → HoldsAlso ids (step r c)
unfolding sequence_create cancel_sequence
step-HoldsAlso ids r (creates id) h =
    if_elim (λ (y : Resolver × Status). HoldsAlso ids y.0) (contains id r.sequences) (λ u. h)
      (λ u. h)
step-HoldsAlso ids r (removes id) h =
    SameFlight-HoldsAlso ids r (step r (removes id)) (remove_same r id) h
step-HoldsAlso ids r (publishes p) h =
    SameFlight-HoldsAlso ids r (step r (publishes p)) (publish_same r p) h
step-HoldsAlso ids r (stages id layer b n) h =
    SameFlight-HoldsAlso ids r (step r (stages id layer b n)) (stage_same r id layer b n) h
step-HoldsAlso ids r (copies s d) h =
    SameFlight-HoldsAlso ids r (step r (copies s d)) (copy_same r s d) h
step-HoldsAlso ids r (shifts id b e delta) h =
    SameFlight-HoldsAlso ids r (step r (shifts id b e delta)) (shift_same r id b e delta) h
step-HoldsAlso ids r (cancels id) h = elim (Option-cases (find id r.sequences)) [
  | inl e ↦ rw (e, HoldsAlso, step) h
  | inr (s, e) ↦ rw (e, HoldsAlso, step) h
]
step-HoldsAlso ids r reclaims h = reclaim-HoldsAlso ids r h

-- Every page is held as often as the batches and the pending snapshots say.
abbrev IsHeld : System → Type 0
IsHeld s = HoldsAlso (held_ids s.batches) s.resolver

-- No count in flight leaves its 32 bits where a batch takes its snapshots.
abbrev pub Fits : System → Act → Type 0
Fits s (begins items) = HasRoom (batch_ids items s.resolver.sequences) s.resolver
Fits s a = Unit {0}

abbrev pub AllFit : System → List Act → Type 0
AllFit s [] = Unit {0}
AllFit s (a ∷ acts) = Fits s a × AllFit (act s a) acts

act-IsHeld : (s : System) (a : Act) → Fits s a → IsHeld s → IsHeld (act s a)
act-IsHeld s (calls c) f h = step-HoldsAlso (held_ids s.batches) s.resolver c h
act-IsHeld s (begins items) f h = begin-HoldsAlso items s.batches s.resolver f h
act-IsHeld s (resumes n) f h =
    let b = resume n s.batches s.resolver in
    subst (λ (ids : List ℕ). HoldsAlso ids b.0) (append-nil (held_ids b.1))
      (resume-HoldsAlso n s.batches s.resolver [] (
        subst (λ (ids : List ℕ). HoldsAlso ids s.resolver) (sym (append-nil (held_ids s.batches)))
          h))

schedule-IsHeld :
    (s : System) (acts : List Act) → AllFit s acts → IsHeld s → IsHeld (schedule s acts)
schedule-IsHeld s [] f h = h
schedule-IsHeld s (a ∷ acts) f h = schedule-IsHeld (act s a) acts f.1 (act-IsHeld s a f.0 h)

pub create_empty :
    (k : Config) (device : ℕ → Answer) (r : Resolver)
    → create k device ≡ some r
    → (r.pages ≡ []) × (r.pending_snapshots ≡ [])
unfolding create
create_empty k device r e = ground arith

create-IsHeld :
    (k : Config) (device : ℕ → Answer) (r : Resolver) → create k device ≡ some r → IsHeld (idle r)
create-IsHeld k device r e =
    let (p, q) = create_empty k device r e in rw (p, q, HoldsAlso) (tt, λ id. omega arith)

elem-count : (id : ℕ) (ids : List ℕ) → elem id ids ≡ true → 1 ≤ count id ids
elem-count id [] h = ground arith
elem-count id (x ∷ xs) h = ground (arith, elem-count id xs)

-- From a created resolver, whatever the device answers and however the calls and the critical
-- sections and launches of batches follow one another, every page of a snapshot that a batch has
-- taken and not given back, or that is pending, is still there, where no batch takes a count in
-- flight beyond 32 bits.
pub pending_present :
    (k : Config) (device : ℕ → Answer) (r : Resolver) (acts : List Act) (id : ℕ)
    → create k device ≡ some r
    → AllFit (idle r) acts
    → elem id (
        held_ids (schedule (idle r) acts).batches
        ++ pending_ids (schedule (idle r) acts).resolver.pending_snapshots)
      ≡ true
    → contains id (schedule (idle r) acts).resolver.pages ≡ true
pending_present k device r acts id e f m =
    let s = schedule (idle r) acts in
    let h = schedule-IsHeld (idle r) acts f (create-IsHeld k device r e) in
    let ids = held_ids s.batches ++ pending_ids s.resolver.pending_snapshots in
    elim (Bool-cases (contains id s.resolver.pages)) [
      | inl c ↦ c
      | inr c ↦ absurd (
          omega (
            arith,
            h.1 id,
            absent id s.resolver.pages c,
            elem-count id ids m,
            count-append id (held_ids s.batches) (pending_ids s.resolver.pending_snapshots),
          ))
    ]
