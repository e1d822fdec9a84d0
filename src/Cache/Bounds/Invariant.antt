-- ===== src/Cache/Bounds/Invariant.antt =====
-- The active tails of src/multisequence_cache.cpp stay within a page through all calls.
use chromo_fold.Prelude.{
  ℕ, ◌≤◌, ◌≡◌, refl, inl, inr, not, ◌||◌, some, List, [], ◌∷◌, arith, ltb, leb, ◌==◌, if_elim,
  Option-cases, Bool-cases, get_elem?, length,
}
use chromo_fold.Prelude.Words.{add32}
use chromo_fold.Prelude.Map.{Map, find}
use chromo_fold.Cache.Types.{
  Cache, Config, LayerState, RetiredPage, SequenceState, no_sequence, append_topology, append_gap,
  append_overflow, no_resolver,
}
use chromo_fold.Cache.Outcome.{Outcome, returns, throws, Status, M, ◌>>=◌, ◌>>◌, get, put, throw}
use chromo_fold.Cache.Create.{create}
use chromo_fold.Cache.Tensor.{TensorView, tensor_validate}
use chromo_fold.Cache.Append.{
  appended, append_counted, append_room, append_layer, append_at, gap, same_topology,
  sequence_append_body, sequence_append, AttentionItem, check_items, dispatched, attention_body,
  attention, reclaimed, reclaim_pages, queue_cleared, reclaim_body, reclaim,
}
use chromo_fold.Cache.Speculation.{
  begun, speculation_begin, own_speculation, commit_layer, commit_counted, speculation_commit_body,
  speculation_commit, rolled_back, speculation_rollback_body, speculation_rollback,
}
use chromo_fold.Cache.{
  Call, creates, copies, removes, shifts, appends, attends, begins, commits, rolls_back, reclaims,
  step, run,
}
use chromo_fold.Cache.Sound.{Ends, refuse-Ends, require-Ends, then-Ends}
use chromo_fold.Cache.Sound.Tails.{check_items-Ends}
use chromo_fold.Cache.Bounds.{
  IsBounded, Same, AllFit-assign, Ends-map, Same-IsBounded, update_sequence-IsBounded,
}
use chromo_fold.Cache.Bounds.Parts.{
  FitLayers-rolled_back_layers, FitLayers-set, baseline-le, commit_layer-Shrinks,
}
use chromo_fold.Cache.Bounds.Calls.{
  attempted, audited, found-Fits, looped-Ends, sequence_create-IsBounded, sequence_copy-IsBounded,
  sequence_remove-IsBounded, sequence_shift-IsBounded,
}

append_counted-IsBounded :
    (id index token_begin n : ℕ) (l : LayerState) (s : SequenceState) (c : Cache)
    → IsBounded c
    → find id c.sequences ≡ some s
    → add32 l.active_token_count n ≤ c.config.page_size
    → IsBounded (append_counted id index token_begin n l c)
unfolding append_counted appended
append_counted-IsBounded id index token_begin n l s c v here room =
    update_sequence-IsBounded id _ c
      (λ t h. (FitLayers-set c.config.page_size index _ t.layers room h.0, h.1)) v

append_layer-Ends :
    (id index token_begin n : ℕ) (l : LayerState) (s : SequenceState) (c : Cache)
    → IsBounded c
    → find id c.sequences ≡ some s
    → Ends IsBounded (append_layer id index token_begin n l c)
unfolding append_layer append_room
append_layer-Ends id index token_begin n l s c v here =
    refuse-Ends IsBounded (gap token_begin l) append_gap (append_room id index token_begin n l) c
      (λ _. v)
      λ _.
        refuse-Ends IsBounded (ltb c.config.page_size (add32 l.active_token_count n))
          append_overflow (put (append_counted id index token_begin n l c)) c (λ _. v)
          λ room. append_counted-IsBounded id index token_begin n l s c v here (ground arith)

sequence_append-IsBounded :
    (id index token_begin : ℕ) (keys values : TensorView) (c : Cache)
    → IsBounded c
    → IsBounded (sequence_append id index token_begin keys values c).0
unfolding sequence_append sequence_append_body append_at
sequence_append-IsBounded id index token_begin keys values c v =
    if_elim (λ (x : Cache × Status). IsBounded x.0)
      (leb c.config.layer_count index || not (tensor_validate keys) || not (tensor_validate values))
      (λ _. v)
      (λ _. attempted (sequence_append_body id index token_begin keys values) c (
        require-Ends IsBounded no_sequence (find id c.sequences) _ c (λ _. v)
          λ s here.
            refuse-Ends IsBounded (not (same_topology c.config keys values)) append_topology
              (append_at id index token_begin keys.token_count s) c (λ _. v)
              λ _.
                require-Ends IsBounded no_sequence (get_elem? s.layers index) _ c (λ _. v)
                  λ l at.
                    then-Ends IsBounded (append_layer id index token_begin keys.token_count l) _ c
                      (append_layer-Ends id index token_begin keys.token_count l s c v here)
                      audited))

own-Bounded :
    (id spec : ℕ) (k : SequenceState → M (Unit {0})) (c : Cache)
    → IsBounded c
    → ((s : SequenceState) → find id c.sequences ≡ some s → Ends IsBounded (k s c))
    → Ends IsBounded ((do s ← own_speculation id spec; k s) c)
unfolding own_speculation
own-Bounded id spec k c v next = elim (Option-cases (find id c.sequences)) [
  | inl e ↦ rw (e, ◌>>=◌) v
  | inr (s, e) ↦ elim (Bool-cases (not s.speculation.active || not (s.speculation.id == spec))) [
    | inl other ↦ rw (e, other, ◌>>=◌, own_speculation) v
    | inr own ↦ rw (e, own, ◌>>=◌, own_speculation) (next s e)
  ]
]

speculation_commit-IsBounded :
    (id spec accepted : ℕ) (c : Cache)
    → IsBounded c
    → IsBounded (speculation_commit id spec accepted c).0
unfolding speculation_commit speculation_commit_body commit_counted
speculation_commit-IsBounded id spec accepted c v =
    if_elim (λ (x : Cache × Status). IsBounded x.0) (spec == 0) (λ _. v)
      (λ _. attempted (speculation_commit_body id spec accepted) c (
        own-Bounded id spec _ c v λ s here.
          looped-Ends id s (commit_layer s.speculation.baseline_token_count accepted) _ c v here
            (commit_layer-Shrinks c.config.page_size s.speculation.baseline_token_count accepted)
            λ d w. audited _ (update_sequence-IsBounded id _ d (λ t h. (h.0, omega arith)) w)))

speculation_rollback-IsBounded :
    (id spec : ℕ) (c : Cache) → IsBounded c → IsBounded (speculation_rollback id spec c).0
unfolding speculation_rollback speculation_rollback_body rolled_back
speculation_rollback-IsBounded id spec c v =
    if_elim (λ (x : Cache × Status). IsBounded x.0) (spec == 0) (λ _. v)
      (λ _. attempted (speculation_rollback_body id spec) c (
        own-Bounded id spec _ c v λ s here. audited _ (
          AllFit-assign c.config.page_size id _ c.sequences
            (
              FitLayers-rolled_back_layers c.config.page_size s.speculation.baseline_token_count
                  s.layers (found-Fits id s c v here).1,
              omega arith,
            )
            v)))

speculation_begin-IsBounded :
    (id : ℕ) (c : Cache) → IsBounded c → IsBounded (speculation_begin id c).0
unfolding speculation_begin begun
speculation_begin-IsBounded id c v = elim (Option-cases (find id c.sequences)) [
  | inl e ↦ rw (e, speculation_begin) v
  | inr (s, e) ↦
      rw (e, speculation_begin)
        (if_elim (λ (x : Cache × ℕ). IsBounded x.0) s.speculation.active (λ _. v)
          λ _.
            let fits = found-Fits id s c v e in
            AllFit-assign c.config.page_size id _ c.sequences
              (fits.0, baseline-le c.config.page_size 0 s.layers (omega arith) fits.0) v)
]

attention-IsBounded :
    (items : List AttentionItem) (c : Cache) → IsBounded c → IsBounded (attention items c).0
unfolding attention attention_body dispatched
attention-IsBounded items c v =
    if_elim (λ (x : Cache × Status). IsBounded x.0) (length items == 0) (λ _. v)
      (λ _.
        attempted (attention_body items) c
          (go (check_items items [] c) (check_items-Ends items [] c)))
  where
    go :
        (o : Outcome (Map (Unit {0})))
        → Ends (λ d. d ≡ c) o
        → Ends IsBounded (
            (do
              observed ← (λ _. o)
              d ← get
              put (dispatched (length observed) d)
              throw {A = Unit {0}} no_resolver)
              c)
    go (returns observed d) e = rw e v
    go (throws x d) e = rw e v

reclaim_pages-Same : (qs : List RetiredPage) (c : Cache) → Ends (Same c) (reclaim_pages qs c)
unfolding reclaim_pages reclaimed
reclaim_pages-Same [] c = (refl, refl)
reclaim_pages-Same (q ∷ qs) c = ground (arith, reclaim_pages-Same qs (reclaimed q c))

reclaim-IsBounded : (c : Cache) → IsBounded c → IsBounded (reclaim c).0
unfolding reclaim reclaim_body queue_cleared
reclaim-IsBounded c v = attempted reclaim_body c (
    then-Ends IsBounded (reclaim_pages c.retired) _ c
      (Ends-map (Same c) IsBounded (reclaim_pages c.retired c) (λ d same. Same-IsBounded c d same v)
        (reclaim_pages-Same c.retired c))
      λ d w. audited (queue_cleared d) w)

step-IsBounded : (c : Cache) (call : Call) → IsBounded c → IsBounded (step c call)
unfolding step
step-IsBounded c (creates id) v = sequence_create-IsBounded id c v
step-IsBounded c (copies source destination b e) v =
    sequence_copy-IsBounded source destination b e c v
step-IsBounded c (removes id b e) v = sequence_remove-IsBounded id b e c v
step-IsBounded c (shifts id b e delta) v = sequence_shift-IsBounded id b e delta c v
step-IsBounded c (appends id layer begin keys values) v =
    sequence_append-IsBounded id layer begin keys values c v
step-IsBounded c (attends items) v = attention-IsBounded items c v
step-IsBounded c (begins id) v = speculation_begin-IsBounded id c v
step-IsBounded c (commits id spec accepted) v = speculation_commit-IsBounded id spec accepted c v
step-IsBounded c (rolls_back id spec) v = speculation_rollback-IsBounded id spec c v
step-IsBounded c reclaims v = reclaim-IsBounded c v

run-IsBounded : (c : Cache) (calls : List Call) → IsBounded c → IsBounded (run c calls)
unfolding run
run-IsBounded c [] v = v
run-IsBounded c (call ∷ calls) v = run-IsBounded (step c call) calls (step-IsBounded c call v)

create-IsBounded : (k : Config) (c : Cache) → create k ≡ some c → IsBounded c
unfolding create
create-IsBounded k c e = ground arith

-- From a fresh cache, after any calls, those that fail included, no layer of a sequence has more
-- active tokens than a page, nor has the baseline of its speculation.
pub run-create-IsBounded :
    (k : Config) (c : Cache) (calls : List Call) → create k ≡ some c → IsBounded (run c calls)
run-create-IsBounded k c calls e = run-IsBounded c calls (create-IsBounded k c e)
