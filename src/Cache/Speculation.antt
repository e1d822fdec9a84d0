-- ===== src/Cache/Speculation.antt =====
-- Speculative tails in src/multisequence_cache.cpp: begin, commit and rollback.
use chromo_fold.Prelude.{
  ℕ, ◌-◌, max, true, not, ◌||◌, none, some, List, [], ◌∷◌, ltb, ◌==◌, if◌then◌else◌,
}
use chromo_fold.Prelude.Words.{add32, add64}
use chromo_fold.Prelude.Map.{find, assign}
use chromo_fold.Cache.Types.{
  Cache, LayerState, SpeculationState, SequenceState, no_sequence, speculation_active,
  invalid_speculation, tail_predates, accepted_too_many,
}
use chromo_fold.Cache.Outcome.{
  returns, throws, M, ◌>>=◌, ◌>>◌, get, put, Status, failure, attempt, Pass, passes, stops,
  each_layer,
}
use chromo_fold.Cache.Auditor.{maybe_audit}
use chromo_fold.Cache.Edit.{write_layers, update_sequence}
use chromo_fold.Cache.Create.{no_speculation}

-- The largest active count of the layers.
unfoldable pub baseline : List LayerState → ℕ → ℕ
baseline [] n = n
baseline (l ∷ ls) n = baseline ls (max n l.active_token_count)

unfoldable pub begun : ℕ → SequenceState → Cache → Cache
unfolding baseline
begun id s c = record c {
  next_speculation_id = add64 c.next_speculation_id 1;
  sequences = assign id (record s { speculation = started }) c.sequences;
  counters = record c.counters {
    speculative_transactions_started = add64 c.counters.speculative_transactions_started 1;
  };
}
  where
    started : SpeculationState
    started = record {
      id = c.next_speculation_id;
      baseline_token_count = baseline s.layers 0;
      baseline_generation = s.topology_generation;
      active = true;
    }

-- The id of the transaction is the result, 0 at a failure.
unfoldable pub speculation_begin : ℕ → Cache → Cache × ℕ
unfolding begun
speculation_begin id c = elim (find id c.sequences) [
  | none ↦ (record c { last_error = some no_sequence }, 0)
  | some s ↦
      if s.speculation.active
      then (record c { last_error = some speculation_active }, 0)
      else (record (begun id s c) { last_error = none }, c.next_speculation_id)
]

-- The sequence, if the transaction is its own.
unfoldable pub own_speculation : ℕ → ℕ → M SequenceState
own_speculation id spec c = elim (find id c.sequences) [
  | none ↦ throws invalid_speculation c
  | some s ↦
      if not s.speculation.active || not (s.speculation.id == spec)
      then throws invalid_speculation c
      else returns s c
]

unfoldable pub commit_layer : ℕ → ℕ → LayerState → Cache → Pass LayerState
commit_layer base accepted l c =
    if ltb l.active_token_count base
    then stops tail_predates l c
    else if ltb (l.active_token_count - base) accepted
    then stops accepted_too_many l c
    else passes
        (record l {
          active_token_count = add32 base accepted;
          active_generation = add64 l.active_generation 1;
        })
        c

unfoldable pub commit_counted : ℕ → Cache → Cache
unfolding update_sequence
commit_counted id c =
    let d = update_sequence id ended c in
    record d {
      global_generation = add64 d.global_generation 1;
      counters = record d.counters {
        speculative_transactions_committed = add64 d.counters.speculative_transactions_committed 1;
      };
    }
  where
    ended : SequenceState → SequenceState
    ended s = record s {
      speculation = no_speculation;
      topology_generation = add64 s.topology_generation 1;
    }

-- The try block.
unfoldable pub speculation_commit_body : ℕ → ℕ → ℕ → M (Unit {0})
unfolding commit_counted write_layers own_speculation commit_layer
speculation_commit_body id spec accepted = do
  s ← own_speculation id spec
  (λ d.
      write_layers id s
        (each_layer (commit_layer s.speculation.baseline_token_count accepted) s.layers d))
  d ← get
  put (commit_counted id d)
  maybe_audit

unfoldable pub speculation_commit : ℕ → ℕ → ℕ → Cache → Cache × Status
unfolding speculation_commit_body
speculation_commit id spec accepted c =
    if spec == 0 then (c, failure) else attempt (speculation_commit_body id spec accepted) c

unfoldable pub rolled_back_layers : ℕ → List LayerState → List LayerState
rolled_back_layers base [] = []
rolled_back_layers base (l ∷ ls) =
    record l { active_token_count = base; active_generation = add64 l.active_generation 1 }
    ∷ rolled_back_layers base ls

unfoldable pub rolled_back : ℕ → SequenceState → Cache → Cache
unfolding rolled_back_layers
rolled_back id s c = record c {
  global_generation = add64 c.global_generation 1;
  sequences = assign id restored c.sequences;
  counters = record c.counters {
    speculative_transactions_rolled_back = add64 c.counters.speculative_transactions_rolled_back 1;
  };
}
  where
    restored : SequenceState
    restored = record s {
      layers = rolled_back_layers s.speculation.baseline_token_count s.layers;
      topology_generation = s.speculation.baseline_generation;
      speculation = no_speculation;
    }

-- The try block.
unfoldable pub speculation_rollback_body : ℕ → ℕ → M (Unit {0})
unfolding rolled_back own_speculation
speculation_rollback_body id spec = do
  s ← own_speculation id spec
  d ← get
  put (rolled_back id s d)
  maybe_audit

unfoldable pub speculation_rollback : ℕ → ℕ → Cache → Cache × Status
unfolding speculation_rollback_body
speculation_rollback id spec c =
    if spec == 0 then (c, failure) else attempt (speculation_rollback_body id spec) c
