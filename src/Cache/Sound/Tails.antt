-- ===== src/Cache/Sound/Tails.antt =====
-- Appends, speculation and attention keep the reference counts, whether they succeed or throw
-- (src/multisequence_cache.cpp).
use chromo_fold.Prelude.{
  ℕ, zero, suc, ◌-◌, ◌≡◌, refl, ◌∙◌, ap, inl, inr, true, not, ◌||◌, some, List, [], ◌∷◌, ◌++◌,
  arith, ◌==◌, ltb, leb, if_elim, Bool-cases, Option-cases, length, length-set, get_elem?, set,
}
use chromo_fold.Prelude.Words.{add32, add64}
use chromo_fold.Prelude.Map.{Map, find, emplace}
use chromo_fold.Cache.Types.{
  Cache, LayerState, SequenceState, no_sequence, append_topology, append_gap, append_overflow,
  no_resolver,
}
use chromo_fold.Cache.Outcome.{
  Outcome, returns, throws, M, ◌>>=◌, ◌>>◌, get, put, throw, Status, each_layer,
}
use chromo_fold.Cache.Pages.{ref_ids, layer_ids}
use chromo_fold.Cache.Edit.{write_layers, update_sequence}
use chromo_fold.Cache.Tensor.{TensorView, tensor_validate}
use chromo_fold.Cache.Append.{
  same_topology, appended, append_counted, gap, append_room, append_layer, append_at,
  sequence_append_body, sequence_append, AttentionItem, check_items, dispatched, attention_body,
  attention,
}
use chromo_fold.Cache.Speculation.{
  begun, speculation_begin, own_speculation, commit_layer, commit_counted, speculation_commit_body,
  speculation_commit, rolled_back_layers, rolled_back, speculation_rollback_body,
  speculation_rollback,
}
use chromo_fold.Cache.Sound.{
  IsSound, IsSound-parts, Ends, refuse-Ends, require-Ends, then-Ends, attempt-IsSound,
  recounted-IsSound, maybe_audit-IsSound,
}
use chromo_fold.Cache.Sound.InPlace.{
  PassEnds, IsQuiet, SameParts-refl, each_layer-AreQuiet, rewritten-IsSound, write_layers-Ends,
  update_sequence-IsSound, recast-IsSound,
}

layer_ids-set :
    (ls : List LayerState) (i : ℕ) (l l' : LayerState)
    → get_elem? ls i ≡ some l
    → l'.sealed_pages ≡ l.sealed_pages
    → layer_ids (set ls i l') ≡ layer_ids ls
unfolding layer_ids
layer_ids-set [] i l l' e same = cc
layer_ids-set (x ∷ ls) zero l l' e same =
    let hit : l ≡ x = cc in
    ap (λ t. ref_ids t ++ layer_ids ls) (same ∙ ap (λ (m : LayerState). m.sealed_pages) hit)
layer_ids-set (x ∷ ls) (suc i) l l' e same =
    ap (λ t. ref_ids x.sealed_pages ++ t) (layer_ids-set ls i l l' e same)

append_counted-IsSound :
    (id index token_begin n : ℕ) (l : LayerState) (s : SequenceState) (c : Cache)
    → IsSound c
    → find id c.sequences ≡ some s
    → get_elem? s.layers index ≡ some l
    → IsSound (append_counted id index token_begin n l c)
unfolding append_counted update_sequence appended
append_counted-IsSound id index token_begin n l s c v here at =
    rw (here, update_sequence)
      (recast-IsSound _ _ _ (
        rewritten-IsSound c c id s
          (record s {
            layers = set s.layers index (appended token_begin n l);
            topology_generation = add64 s.topology_generation 1;
          })
          v (SameParts-refl c) here refl
          (layer_ids-set s.layers index l (appended token_begin n l) at refl)
          (length-set s.layers index (appended token_begin n l))))

append_layer-Ends :
    (id index token_begin n : ℕ) (l : LayerState) (s : SequenceState) (c : Cache)
    → IsSound c
    → find id c.sequences ≡ some s
    → get_elem? s.layers index ≡ some l
    → Ends IsSound (append_layer id index token_begin n l c)
unfolding append_layer
append_layer-Ends id index token_begin n l s c v here at =
    refuse-Ends IsSound (gap token_begin l) append_gap (append_room id index token_begin n l) c
      (λ _. v)
      λ _.
        refuse-Ends IsSound (ltb c.config.page_size (add32 l.active_token_count n)) append_overflow
          (put (append_counted id index token_begin n l c)) c (λ _. v)
          λ _. append_counted-IsSound id index token_begin n l s c v here at

append_at-Ends :
    (id index token_begin n : ℕ) (s : SequenceState) (c : Cache)
    → IsSound c
    → find id c.sequences ≡ some s
    → Ends IsSound (append_at id index token_begin n s c)
unfolding append_at
append_at-Ends id index token_begin n s c v here =
    require-Ends IsSound no_sequence (get_elem? s.layers index) _ c (λ _. v)
      λ l at.
        then-Ends IsSound (append_layer id index token_begin n l) _ c
          (append_layer-Ends id index token_begin n l s c v here at) maybe_audit-IsSound

pub sequence_append-IsSound :
    (id index token_begin : ℕ) (keys values : TensorView) (c : Cache)
    → IsSound c
    → IsSound (sequence_append id index token_begin keys values c).0
unfolding sequence_append sequence_append_body
sequence_append-IsSound id index token_begin keys values c v =
    if_elim (λ (x : Cache × Status). IsSound x.0)
      (leb c.config.layer_count index || not (tensor_validate keys) || not (tensor_validate values))
      (λ _. v)
      (λ _. attempt-IsSound (sequence_append_body id index token_begin keys values) c (
        require-Ends IsSound no_sequence (find id c.sequences) _ c (λ _. v)
          λ s here.
            refuse-Ends IsSound (not (same_topology c.config keys values)) append_topology
              (append_at id index token_begin keys.token_count s) c (λ _. v)
              λ _. append_at-Ends id index token_begin keys.token_count s c v here))

commit_layer-IsQuiet :
    (base accepted : ℕ) (l : LayerState) (c : Cache)
    → PassEnds (λ l' d. IsQuiet l l' c d) (commit_layer base accepted l c)
unfolding commit_layer
commit_layer-IsQuiet base accepted l c =
    if_elim (PassEnds (λ l' d. IsQuiet l l' c d)) (ltb l.active_token_count base)
      (λ _. record { ids = refl; parts = SameParts-refl c })
      λ _.
        if_elim (PassEnds (λ l' d. IsQuiet l l' c d)) (ltb (l.active_token_count - base) accepted)
          (λ _. record { ids = refl; parts = SameParts-refl c })
          (λ _. record { ids = refl; parts = SameParts-refl c })

-- The test of the transaction changes nothing.
own-Ends :
    (id spec : ℕ) (k : SequenceState → M (Unit {0})) (c : Cache)
    → IsSound c
    → ((s : SequenceState)
        → find id c.sequences ≡ some s
        → s.speculation.active ≡ true
        → s.speculation.id ≡ spec
        → Ends IsSound (k s c))
    → Ends IsSound ((do s ← own_speculation id spec; k s) c)
unfolding own_speculation
own-Ends id spec k c v next = elim (Option-cases (find id c.sequences)) [
  | inl e ↦ rw (e, ◌>>=◌) v
  | inr (s, e) ↦ elim (Bool-cases (not s.speculation.active || not (s.speculation.id == spec))) [
    | inl other ↦ rw (e, other, ◌>>=◌, own_speculation) v
    | inr own ↦ rw (e, own, ◌>>=◌, own_speculation) (next s e (ground arith) (ground arith))
  ]
]

pub speculation_commit-IsSound :
    (id spec accepted : ℕ) (c : Cache)
    → IsSound c
    → IsSound (speculation_commit id spec accepted c).0
unfolding speculation_commit speculation_commit_body commit_counted
speculation_commit-IsSound id spec accepted c v =
    if_elim (λ (x : Cache × Status). IsSound x.0) (spec == 0) (λ _. v)
      (λ _. attempt-IsSound (speculation_commit_body id spec accepted) c (
        own-Ends id spec _ c v λ s here active own.
          then-Ends IsSound
            (λ d.
              write_layers id s
                (each_layer (commit_layer s.speculation.baseline_token_count accepted) s.layers d))
            _ c
            (write_layers-Ends id s c _ v here (
              each_layer-AreQuiet (commit_layer s.speculation.baseline_token_count accepted)
                (commit_layer-IsQuiet s.speculation.baseline_token_count accepted) s.layers c))
            λ d w.
              maybe_audit-IsSound _
                (recast-IsSound _ _ _ (update_sequence-IsSound id _ d (λ s. refl) (λ s. refl) w))))

layer_ids-rolled_back :
    (base : ℕ) (ls : List LayerState)
    → (layer_ids (rolled_back_layers base ls) ≡ layer_ids ls)
      × (length (rolled_back_layers base ls) ≡ length ls)
unfolding layer_ids rolled_back_layers
layer_ids-rolled_back base [] = (refl, refl)
layer_ids-rolled_back base (l ∷ ls) =
    let rest = layer_ids-rolled_back base ls in
    (ap (λ t. ref_ids l.sealed_pages ++ t) rest.0, ap suc rest.1)

pub speculation_rollback-IsSound :
    (id spec : ℕ) (c : Cache) → IsSound c → IsSound (speculation_rollback id spec c).0
unfolding speculation_rollback speculation_rollback_body rolled_back
speculation_rollback-IsSound id spec c v =
    if_elim (λ (x : Cache × Status). IsSound x.0) (spec == 0) (λ _. v)
      (λ _. attempt-IsSound (speculation_rollback_body id spec) c (
        own-Ends id spec _ c v λ s here active own.
          let same = layer_ids-rolled_back s.speculation.baseline_token_count s.layers in
          maybe_audit-IsSound _ (
            recast-IsSound _ _ _
              (rewritten-IsSound c c id s _ v (SameParts-refl c) here refl same.0 same.1))))

pub speculation_begin-IsSound :
    (id : ℕ) (c : Cache) → IsSound c → IsSound (speculation_begin id c).0
unfolding speculation_begin begun
speculation_begin-IsSound id c v = elim (Option-cases (find id c.sequences)) [
  | inl e ↦
      rw (e, speculation_begin)
        (IsSound-parts
          (record { config = refl; sequences = refl; page_store = refl; retired = refl }) v)
  | inr (s, e) ↦
      rw (e, speculation_begin)
        (if_elim (λ (x : Cache × ℕ). IsSound x.0) s.speculation.active
          (λ _.
            IsSound-parts
              (record { config = refl; sequences = refl; page_store = refl; retired = refl }) v)
          (λ _.
            IsSound-parts
              (record { config = refl; sequences = refl; page_store = refl; retired = refl })
              (rewritten-IsSound c c id s _ v (SameParts-refl c) e refl refl refl)))
]

pub check_items-Ends :
    (is : List AttentionItem) (observed : Map (Unit {0})) (c : Cache)
    → Ends (λ d. d ≡ c) (check_items is observed c)
unfolding check_items
check_items-Ends [] observed c = refl
check_items-Ends (i ∷ is) observed c =
    ground (arith, check_items-Ends is (emplace i.sequence_id tt observed) c)

pub attention-IsSound :
    (items : List AttentionItem) (c : Cache) → IsSound c → IsSound (attention items c).0
unfolding attention attention_body dispatched
attention-IsSound items c v =
    if_elim (λ (x : Cache × Status). IsSound x.0) (length items == 0) (λ _. v)
      (λ _.
        attempt-IsSound (attention_body items) c
          (go (check_items items [] c) (check_items-Ends items [] c)))
  where
    go :
        (o : Outcome (Map (Unit {0})))
        → Ends (λ d. d ≡ c) o
        → Ends IsSound (
            (do
              observed ← (λ _. o)
              d ← get
              put (dispatched (length observed) d)
              throw {A = Unit {0}} no_resolver)
              c)
    go (returns observed d) e = rw e (recounted-IsSound c _ v)
    go (throws x d) e = rw e v
