-- ===== src/Cache/Order.antt =====
-- validate_page_order of src/multisequence_cache.cpp. Positions are uint32_t, so the 64-bit ends of
-- the ranges do not wrap.
use chromo_fold.Prelude.{
  ℕ, ◌+◌, Bool, true, false, not, ◌&&◌, Option, none, some, List, [], ◌∷◌, ltb, ◌==◌, if◌then◌else◌,
}
use chromo_fold.Cache.Types.{
  Error, PageRef, LayerState, zero_length_ref, overlapping_pages, tail_overlap,
}

abbrev pub ref_end : PageRef → ℕ
ref_end r = r.logical_token_begin + r.token_count

abbrev pub active_end : LayerState → ℕ
active_end l = l.active_token_begin + l.active_token_count

-- The check of the active tail, after the loop.
check_tail : LayerState → ℕ → Bool → Option Error
check_tail l end first =
    if not first && ltb 0 l.active_token_count && ltb l.active_token_begin end
    then some tail_overlap
    else none

check_refs : LayerState → ℕ → Bool → List PageRef → Option Error
unfolding check_tail
check_refs l end first [] = check_tail l end first
check_refs l end first (r ∷ rs) =
    let rest = check_refs l (ref_end r) false rs in
    if r.token_count == 0
    then some zero_length_ref
    else if not first && ltb r.logical_token_begin end
    then some overlapping_pages
    else rest

-- none, or what is thrown.
unfoldable pub validate_page_order : LayerState → Option Error
unfolding check_refs
validate_page_order l = check_refs l 0 true l.sealed_pages
