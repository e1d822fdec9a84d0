-- ===== src/Cache/Sound.antt =====
-- The reference counts of a whole cache (src/multisequence_cache.cpp), and what an operation keeps.
pub mod Copy
pub mod Remove
pub mod Removal
pub mod InPlace
pub mod Shift
pub mod Tails
pub mod Reclaim
use mathlib.Core.List.{append-nil, append_assoc}
use chromo_fold.Prelude.{
  ℕ, zero, suc, ◌+◌, ◌-◌, ◌≤◌, ◌<◌, ◌≡◌, refl, sym, ◌∙◌, ap, inl, inr, ◌⊎◌, ◌↔◌, ◌≢◌, Bool, true,
  false, not, ◌&&◌, ◌||◌, Option, none, some, List, [], ◌∷◌, ◌++◌, map, arith, ◌==◌, ltb, leb, max,
  if◌then◌else◌, if_elim, Bool-cases, Option-cases, ==→eq, ==→ne, count, count-append, length,
  length-replicate, length-set, get_elem?, set, replicate, All, subst,
}
use chromo_fold.Prelude.Words.{u32_mod, add32, add64, sub64}
use chromo_fold.Prelude.Int.{ℤ, pos, negsuc, pos_part, neg_part, ◌+ℤ◌, ltb_ℤ}
use chromo_fold.Prelude.Map.{
  Map, find, contains, emplace, assign, erase, total, IsDistinct, find-assign, find-emplace,
  find-erase, find-erase_ne, contains-assign, assign-IsDistinct, emplace-IsDistinct,
  erase-IsDistinct, total-assign, total-erase, total-emplace, le-total, total_zero,
  total-assign_same,
}
use chromo_fold.Cache.Types.{
  Cache, Config, Counters, Error, SharedPage, PageRef, LayerState, SpeculationState, SequenceState,
  RetiredPage, no_counts, sequence_exists, no_source, no_sequence, audit_failed, remove_inside_page,
  remove_inside_tail, negative_token, negative_active, shift_misaligned, append_topology,
  append_gap, append_overflow, unknown_item, invalid_item, no_resolver, speculation_active,
  invalid_speculation, tail_predates, accepted_too_many, bad_reclaim,
}
use chromo_fold.Cache.Outcome.{
  Outcome, returns, throws, M, ◌>>=◌, ◌>>◌, get, put, pure, throw, require, refuse, Status, success,
  failure, attempt, Pass, passes, stops, pass_map, each_layer,
}
use chromo_fold.Cache.Pages.{
  acquire_page, release_page, release_pages, ref_ids, layer_ids, release_sequence_pages,
}
use chromo_fold.Cache.Order.{ref_end, active_end, validate_page_order}
use chromo_fold.Cache.Auditor.{maybe_audit, audit_locked, counted_audit, failed_audit}
use chromo_fold.Cache.Create.{
  create, created, sequence_create, in_range, copied_refs, copied_layer, copied_layers,
  acquire_pages, drop_old, copied, sequence_copy, update_active_peak, no_speculation, empty_layer,
  new_sequence,
}
use chromo_fold.Cache.Edit.{
  count_unsupported, remove_refs, remove_tail, remove_layer, write_layers, update_sequence,
  bump_generation, gone, remove_all, removal_counted, remove_range, remove_found, sequence_remove,
  shifted_ref, shift_refs, checked_order, shift_tail, shift_layer, shift_counted, sequence_shift,
}
use chromo_fold.Cache.Tensor.{TensorView, tensor_validate}
use chromo_fold.Cache.Append.{
  same_topology, appended, append_counted, append_layer, sequence_append, AttentionItem,
  check_items, dispatched, attention, reclaimed, reclaim_pages, queue_cleared, reclaim, audit,
}
use chromo_fold.Cache.Speculation.{
  baseline, begun, speculation_begin, own_speculation, commit_layer, commit_counted,
  speculation_commit, rolled_back_layers, rolled_back, speculation_rollback,
}
use chromo_fold.Cache.Holds.{
  Holds, Holds-cong, SameElse, SameElse-refl, SameElse-trans, plus, queue_ids, retired_at,
  release_page-Holds,
}
use chromo_fold.Cache.Holds.Groups.{plus_all, release_pages-Holds, acquire_pages-Holds}

-- How often the sequences refer to a page.
abbrev pub refs : Map SequenceState → ℕ → ℕ
refs m id = total (λ s. count id (layer_ids s.layers)) m

-- Each sequence stands under its number, with a layer for each of the model's.
pub record IsShaped (k : Config) (m : Map SequenceState) : Type 0 where
  pub distinct : IsDistinct m
  pub named : (id : ℕ) (s : SequenceState) → find id m ≡ some s → s.id ≡ id
  pub layered : (id : ℕ) (s : SequenceState) → find id m ≡ some s → length s.layers ≡ k.layer_count

pub record IsSound (c : Cache) : Type 0 where
  pub holds : Holds (refs c.sequences) c
  pub shaped : IsShaped c.config c.sequences

-- What soundness names is the same.
pub record SameParts (c d : Cache) : Type 0 where
  pub config : d.config ≡ c.config
  pub sequences : d.sequences ≡ c.sequences
  pub page_store : d.page_store ≡ c.page_store
  pub retired : d.retired ≡ c.retired

pub Holds-parts :
    {held : ℕ → ℕ} {c d : Cache}
    → d.page_store ≡ c.page_store
    → d.retired ≡ c.retired
    → Holds held c
    → Holds held d
Holds-parts pages queue h = record {
  distinct = rw pages h.distinct;
  keyed = λ id p. rw pages (h.keyed id p);
  counted = λ id p. rw pages (h.counted id p);
  free = λ id p. rw pages (h.free id p);
  resolved = λ id. rw pages (h.resolved id);
  queued = λ id. rw (pages, queue) (h.queued id);
}

pub IsSound-parts : {c d : Cache} → SameParts c d → IsSound c → IsSound d
IsSound-parts {c} {d} same v = record {
  holds =
      subst (λ m. Holds (refs m) d) (sym same.sequences)
        (Holds-parts same.page_store same.retired v.holds);
  shaped = rw (same.config, same.sequences) v.shaped;
}

-- However the code ends, by a return or by a throw.
abbrev pub Ends {κ} : {A : Type 0} → (Cache → Type κ) → Outcome A → Type κ
Ends P (returns a c) = P c
Ends P (throws e c) = P c

module _ {κ} {A : Type 0} (P : Cache → Type κ) where
  pub refuse-Ends :
      (b : Bool) (e : Error) (k : M A) (c : Cache)
      → (b ≡ true → P c)
      → (b ≡ false → Ends P (k c))
      → Ends P ((do refuse b e; k) c)
  refuse-Ends true e k c h g = h refl
  refuse-Ends false e k c h g = g refl

  pub require-Ends :
      {B : Type 0} (e : Error) (o : Option B) (k : B → M A) (c : Cache)
      → (o ≡ none → P c)
      → ((b : B) → o ≡ some b → Ends P (k b c))
      → Ends P ((do b ← require e o; k b) c)
  require-Ends e none k c h g = h refl
  require-Ends e (some b) k c h g = g b refl

-- Where the first part keeps P however it ends, so does the rest from there.
pub then-Ends {κ} :
    {A : Type 0} (P : Cache → Type κ) (m : M (Unit {0})) (k : M A) (c : Cache)
    → Ends P (m c)
    → ((d : Cache) → P d → Ends P (k d))
    → Ends P ((do m; k) c)
then-Ends {A = A} P m k c = go (m c)
  where
    go :
        (o : Outcome (Unit {0}))
        → Ends P o
        → ((d : Cache) → P d → Ends P (k d))
        → Ends P ((do (λ _. o); k) c)
    go (returns a d) v next = next d v
    go (throws e d) v next = v

attempt-throws :
    (m : M (Unit {0})) (c d : Cache) (e : Error)
    → m c ≡ throws e d
    → attempt m c ≡ (record d { last_error = some e }, failure)
attempt-throws m c d e h = rw (h, attempt) refl

-- The audit and the error text touch the counters and the last error alone.
module _ {κ} (P : Cache → Type κ) (kept : (c d : Cache) → SameParts c d → P c → P d) where
  pub attempt-Ends : (m : M (Unit {0})) (c : Cache) → Ends P (m c) → P (attempt m c).0
  attempt-Ends m c = go (m c)
    where
      go : (o : Outcome (Unit {0})) → Ends P o → P (attempt (λ _. o) c).0
      go (returns a d) v =
          kept d (record d { last_error = none })
            (record { config = refl; sequences = refl; page_store = refl; retired = refl }) v
      go (throws e d) v =
          kept d (record d { last_error = some e })
            (record { config = refl; sequences = refl; page_store = refl; retired = refl }) v

  recounted : (c : Cache) (k : Counters) → P c → P (record c { counters = k })
  recounted c k =
      kept c (record c { counters = k })
        (record { config = refl; sequences = refl; page_store = refl; retired = refl })

  pub maybe_audit-Ends : (c : Cache) → P c → Ends P (maybe_audit c)
  unfolding maybe_audit
  maybe_audit-Ends c v = elim (Bool-cases (c.config.enable_invariant_auditor == 0)) [
    | inl off ↦ rw off v
    | inr on ↦ elim (Bool-cases (audit_locked (counted_audit c))) [
      | inl good ↦ rw (on, good) (recounted c _ v)
      | inr bad ↦ rw (on, bad) (recounted c _ v)
    ]
  ]

pub attempt-IsSound : (m : M (Unit {0})) (c : Cache) → Ends IsSound (m c) → IsSound (attempt m c).0
attempt-IsSound = attempt-Ends IsSound (λ c d. IsSound-parts)

pub recounted-IsSound : (c : Cache) (k : Counters) → IsSound c → IsSound (record c { counters = k })
recounted-IsSound = recounted IsSound (λ c d. IsSound-parts)

pub maybe_audit-IsSound : (c : Cache) → IsSound c → Ends IsSound (maybe_audit c)
maybe_audit-IsSound = maybe_audit-Ends IsSound (λ c d. IsSound-parts)

module _ (k : Config) (m : Map SequenceState) (v : IsShaped k m) (id : ℕ) where
  emplace-IsShaped :
      (s : SequenceState)
      → contains id m ≡ false
      → s.id ≡ id
      → length s.layers ≡ k.layer_count
      → IsShaped k (emplace id s m)
  emplace-IsShaped s new own layers = record {
    distinct = emplace-IsDistinct id s m v.distinct;
    named = λ j t e. ground (arith, find-emplace id j s m new, v.named j t);
    layered = λ j t e. ground (arith, find-emplace id j s m new, v.layered j t);
  }

  pub erase-IsShaped : IsShaped k (erase id m)
  erase-IsShaped = record {
    distinct = erase-IsDistinct id m v.distinct;
    named = λ j t e. ground (arith, find-erase id j m v.distinct, v.named j t);
    layered = λ j t e. ground (arith, find-erase id j m v.distinct, v.layered j t);
  }

  assign-IsShaped :
      (s t : SequenceState)
      → find id m ≡ some s
      → t.id ≡ s.id
      → length t.layers ≡ length s.layers
      → IsShaped k (assign id t m)
  assign-IsShaped s t here own layers = record {
    distinct = assign-IsDistinct id t m v.distinct;
    named = λ j u e. ground (arith, find-assign id j t m, v.named j u, v.named id s here);
    layered = λ j u e. ground (arith, find-assign id j t m, v.layered j u, v.layered id s here);
  }

  -- A sequence is added whose references are already held.
  pub added-IsSound :
      (s : SequenceState) (d : Cache)
      → contains id m ≡ false
      → s.id ≡ id
      → length s.layers ≡ k.layer_count
      → d.config ≡ k
      → d.sequences ≡ emplace id s m
      → Holds (plus_all (layer_ids s.layers) (refs m)) d
      → IsSound d
  added-IsSound s d new own layers config seqs h = record {
    holds =
        subst (λ n. Holds (refs n) d) (sym seqs)
          (Holds-cong (λ j. sym (total-emplace (λ t. count j (layer_ids t.layers)) id s m new)) h);
    shaped = rw (config, seqs) (emplace-IsShaped s new own layers);
  }

  -- A sequence is written anew, and the references of the others are held.
  pub assigned-IsSound :
      (s t : SequenceState) (d : Cache)
      → find id m ≡ some s
      → t.id ≡ s.id
      → length t.layers ≡ length s.layers
      → d.config ≡ k
      → d.sequences ≡ assign id t m
      → Holds (plus_all (layer_ids t.layers) (refs (erase id m))) d
      → IsSound d
  assigned-IsSound s t d here own layers config seqs h = record {
    holds =
        subst (λ n. Holds (refs n) d) (sym seqs)
          (Holds-cong
            (λ j. omega (
              arith,
              total-assign (λ u. count j (layer_ids u.layers)) id t s m here,
              total-erase (λ u. count j (layer_ids u.layers)) id s m here,
            ))
            h);
    shaped = rw (config, seqs) (assign-IsShaped s t here own layers);
  }

-- A sequence goes whose references were let go.
pub erased-IsSound :
    (c d : Cache) (id : ℕ)
    → IsSound c
    → d.config ≡ c.config
    → d.sequences ≡ erase id c.sequences
    → Holds (refs (erase id c.sequences)) d
    → IsSound d
erased-IsSound c d id v k m h = record {
  holds = subst (λ t. Holds (refs t) d) (sym m) h;
  shaped = rw (k, m) (erase-IsShaped c.config c.sequences v.shaped id);
}

-- The references of one sequence and those of the others.
pub split-Holds :
    (c : Cache) (id : ℕ) (s : SequenceState)
    → IsSound c
    → find id c.sequences ≡ some s
    → Holds (plus_all (layer_ids s.layers) (refs (erase id c.sequences))) c
split-Holds c id s v here =
    Holds-cong
      (λ j. omega (arith, total-erase (λ u. count j (layer_ids u.layers)) id s c.sequences here))
      v.holds
