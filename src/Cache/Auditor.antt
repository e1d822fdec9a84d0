-- ===== src/Cache/Auditor.antt =====
-- audit_locked and maybe_audit of src/multisequence_cache.cpp. Any throw inside the audit gives -1,
-- so the audit is a test; `observed` counts the references to each page.
use chromo_fold.Prelude.{
  ℕ, Bool, true, false, not, ◌&&◌, ◌||◌, Option, none, some, List, [], ◌∷◌, ◌==◌, if◌then◌else◌,
  length,
}
use chromo_fold.Prelude.Words.{add64}
use chromo_fold.Prelude.Map.{Map, find, contains, emplace, assign}
use chromo_fold.Cache.Types.{
  Cache, Config, SharedPage, PageRef, LayerState, SequenceState, audit_failed,
}
use chromo_fold.Cache.Outcome.{M, throws, pure}
use chromo_fold.Cache.Order.{validate_page_order}

-- observed[id], 0 where the key is not there
unfoldable pub observed_at : ℕ → Map ℕ → ℕ
observed_at id m = elim (find id m) [ none ↦ 0 | some n ↦ n ]

-- ++observed[id]
unfoldable pub observe : ℕ → Map ℕ → Map ℕ
unfolding observed_at
observe id m = if contains id m then assign id (add64 (observed_at id m) 1) m else emplace id 1 m

-- none: something was thrown.
unfoldable pub audit_refs : Map SharedPage → List PageRef → Map ℕ → Option (Map ℕ)
unfolding observe
audit_refs pages [] m = some m
audit_refs pages (r ∷ rs) m = elim (find r.page_id pages) [
  | none ↦ none
  | some p ↦ if p.retired then none else audit_refs pages rs (observe r.page_id m)
]

unfoldable pub audit_layers : Map SharedPage → List LayerState → Map ℕ → Option (Map ℕ)
unfolding audit_refs
audit_layers pages [] m = some m
audit_layers pages (l ∷ ls) m = elim (validate_page_order l) [
  | some e ↦ none
  | none ↦ elim (audit_refs pages l.sealed_pages m) [
    | none ↦ none
    | some m' ↦ audit_layers pages ls m'
  ]
]

unfoldable pub audit_sequences :
    Config → Map SharedPage → Map SequenceState → Map ℕ → Option (Map ℕ)
unfolding audit_layers
audit_sequences k pages [] m = some m
audit_sequences k pages ((id, s) ∷ rest) m =
    if not (id == s.id) || not (length s.layers == k.layer_count)
    then none
    else elim (audit_layers pages s.layers m) [
      | none ↦ none
      | some m' ↦ audit_sequences k pages rest m'
    ]

-- The loop over the pages.
unfoldable pub audit_pages : Map ℕ → Map SharedPage → Bool
unfolding observed_at
audit_pages m [] = true
audit_pages m ((id, p) ∷ rest) =
    let expected = observed_at id m in
    not (not p.retired && not (p.refcount == expected))
    && not (p.retired && (not (p.refcount == 0) || not (expected == 0)))
    && audit_pages m rest

unfoldable pub audit_locked : Cache → Bool
unfolding audit_sequences audit_pages
audit_locked c = elim (audit_sequences c.config c.page_store c.sequences []) [
  | none ↦ false
  | some m ↦ audit_pages m c.page_store
]

pub counted_audit : Cache → Cache
counted_audit c = record c {
  counters = record c.counters { invariant_audits = add64 c.counters.invariant_audits 1 };
}

pub failed_audit : Cache → Cache
failed_audit c = record c {
  counters = record c.counters { invariant_failures = add64 c.counters.invariant_failures 1 };
}

unfoldable pub maybe_audit : M (Unit {0})
unfolding counted_audit failed_audit
maybe_audit c =
    if c.config.enable_invariant_auditor == 0
    then pure tt c
    else if audit_locked (counted_audit c)
    then pure tt (counted_audit c)
    else throws audit_failed (failed_audit (counted_audit c))
