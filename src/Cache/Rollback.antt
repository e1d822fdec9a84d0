-- ===== src/Cache/Rollback.antt =====
-- Speculative transactions of src/multisequence_cache.cpp: what commit and rollback make of the tails.
use chromo_fold.Prelude.{
  ℕ, zero, suc, ◌≤◌, ◌≡◌, refl, ◌∙◌, ap, ◌≢◌, true, false, some, List, [], ◌∷◌, arith, ◌==◌, max,
  if_elim, get_elem?,
}
use chromo_fold.Prelude.Words.{add64}
use chromo_fold.Prelude.Map.{find, find-assign}
use chromo_fold.Cache.Types.{Cache, LayerState, SequenceState}
use chromo_fold.Cache.Outcome.{returns, ◌>>=◌, Status}
use chromo_fold.Cache.Create.{no_speculation}
use chromo_fold.Cache.Speculation.{
  baseline, begun, speculation_begin, own_speculation, rolled_back_layers, rolled_back,
  speculation_rollback_body, speculation_rollback,
}
use chromo_fold.Cache.Sound.{SameParts, attempt-Ends, maybe_audit-Ends}

baseline-ge : (ls : List LayerState) (n : ℕ) → n ≤ baseline ls n
unfolding baseline
baseline-ge [] n = omega arith
baseline-ge (l ∷ ls) n = omega (arith, baseline-ge ls (max n l.active_token_count))

count-le-baseline :
    (ls : List LayerState) (n i : ℕ) (l : LayerState)
    → get_elem? ls i ≡ some l
    → l.active_token_count ≤ baseline ls n
unfolding baseline
count-le-baseline [] n i l e = cc
count-le-baseline (x ∷ ls) n zero l e = ground (arith, baseline-ge ls (max n x.active_token_count))
count-le-baseline (x ∷ ls) n (suc i) l e = count-le-baseline ls (max n x.active_token_count) i l e

abbrev pub started : Cache → SequenceState → SequenceState
started c s = record s {
  speculation = record {
    id = c.next_speculation_id;
    baseline_token_count = baseline s.layers 0;
    baseline_generation = s.topology_generation;
    active = true;
  };
}

-- A transaction on an idle sequence starts under the next number, at the largest active count of
-- the layers, and a second one is refused while it is open.
speculation_begin_lem :
    (id : ℕ) (c : Cache) (s : SequenceState)
    → find id c.sequences ≡ some s
    → s.speculation.active ≡ false
    → ((speculation_begin id c).1 ≡ c.next_speculation_id)
      × (find id (speculation_begin id c).0.sequences ≡ some (started c s))
      × ((speculation_begin id (speculation_begin id c).0).1 ≡ 0)
unfolding speculation_begin begun
speculation_begin_lem id c s here idle = ground (arith, find-assign id id (started c s) c.sequences)

-- What a rollback writes.
abbrev pub restored : SequenceState → SequenceState
restored s = record s {
  layers = rolled_back_layers s.speculation.baseline_token_count s.layers;
  topology_generation = s.speculation.baseline_generation;
  speculation = no_speculation;
}

abbrev Has : ℕ → SequenceState → Cache → Type 0
Has id s c = find id c.sequences ≡ some s

Has-parts : (id : ℕ) (s : SequenceState) (c d : Cache) → SameParts c d → Has id s c → Has id s d
Has-parts id s c d same h = ap (find id) same.sequences ∙ h

own_speculation-own :
    (id spec : ℕ) (c : Cache) (s : SequenceState)
    → find id c.sequences ≡ some s
    → s.speculation.active ≡ true
    → s.speculation.id ≡ spec
    → own_speculation id spec c ≡ returns s c
unfolding own_speculation
own_speculation-own id spec c s here active own = ground arith

rolled_back-Has :
    (id : ℕ) (s : SequenceState) (c : Cache) → Has id s c → Has id (restored s) (rolled_back id s c)
unfolding rolled_back
rolled_back-Has id s c here = ground (arith, find-assign id id (restored s) c.sequences)

-- A rollback by the open transaction's number, not 0, ends it: each layer's count is the baseline,
-- the topology generation is that of the begin.
speculation_rollback_lem :
    (id spec : ℕ) (c : Cache) (s : SequenceState)
    → spec ≢ 0
    → find id c.sequences ≡ some s
    → s.speculation.active ≡ true
    → s.speculation.id ≡ spec
    → find id (speculation_rollback id spec c).0.sequences ≡ some (restored s)
unfolding speculation_rollback speculation_rollback_body
speculation_rollback_lem id spec c s valid here active own =
    if_elim (λ (x : Cache × Status). Has id (restored s) x.0) (spec == 0)
      (λ zero_. absurd (ground arith))
      (λ _.
        attempt-Ends (Has id (restored s)) (Has-parts id (restored s))
          (speculation_rollback_body id spec) c
          (rw (own_speculation-own id spec c s here active own, ◌>>=◌)
            (maybe_audit-Ends (Has id (restored s)) (Has-parts id (restored s)) (rolled_back id s c)
              (rolled_back-Has id s c here))))

get_elem?-rolled_back_layers :
    (base : ℕ) (ls : List LayerState) (i : ℕ) (l : LayerState)
    → get_elem? ls i ≡ some l
    → get_elem? (rolled_back_layers base ls) i
      ≡ some
          (record l { active_token_count = base; active_generation = add64 l.active_generation 1 })
unfolding rolled_back_layers
get_elem?-rolled_back_layers base [] i l e = cc
get_elem?-rolled_back_layers base (x ∷ ls) zero l e = ground arith
get_elem?-rolled_back_layers base (x ∷ ls) (suc i) l e = get_elem?-rolled_back_layers base ls i l e

-- A rollback straight after the begin of a transaction, whose number is not 0, sets every layer's
-- count to the largest of all, which is not below the layer's own, and keeps the topology
-- generation.
pub begin_rollback :
    (id : ℕ) (c : Cache) (s : SequenceState) (i : ℕ) (l : LayerState)
    → c.next_speculation_id ≢ 0
    → find id c.sequences ≡ some s
    → s.speculation.active ≡ false
    → get_elem? s.layers i ≡ some l
    → let d = (speculation_begin id c).0 in
      (t : SequenceState) × (m : LayerState) × (find id
          (speculation_rollback id c.next_speculation_id d).0.sequences
        ≡ some t)
      × (get_elem? t.layers i ≡ some m)
      × (m.active_token_count ≡ baseline s.layers 0)
      × (l.active_token_count ≤ m.active_token_count)
      × (t.topology_generation ≡ s.topology_generation)
begin_rollback id c s i l valid here idle at =
    let begin = speculation_begin_lem id c s here idle in
    (
      restored (started c s),
      record l {
        active_token_count = baseline s.layers 0;
        active_generation = add64 l.active_generation 1;
      },
      speculation_rollback_lem id c.next_speculation_id (speculation_begin id c).0 (started c s)
          valid begin.1 refl refl,
      get_elem?-rolled_back_layers (baseline s.layers 0) s.layers i l at,
      refl,
      count-le-baseline s.layers 0 i l at,
      refl,
    )
