-- ===== src/Cache/AuditLaws.antt =====
-- What the audit of src/multisequence_cache.cpp tests.
mod Layers
use chromo_fold.Prelude.{
  ℕ, ◌+◌, ◌<◌, ◌≡◌, refl, sym, ◌∙◌, inl, inr, ◌↔◌, true, false, not, ◌||◌, Option, none, some, List,
  [], ◌∷◌, ◌++◌, arith, ◌==◌, if◌then◌else◌, if_elim, Bool-cases, Option-cases, count, count-append,
  length, subst,
}
use chromo_fold.Prelude.Words.{add64}
use chromo_fold.Prelude.Map.{Map, find, total, find-assign, find-emplace}
use chromo_fold.Cache.Types.{Cache, Config, SharedPage, PageRef, LayerState, SequenceState}
use chromo_fold.Cache.Pages.{ref_ids, layer_ids}
use chromo_fold.Cache.Order.{validate_page_order}
use chromo_fold.Cache.Auditor.{audit_locked}
use chromo_fold.Cache.Sound.{refs}
use chromo_fold.Cache.Auditor.{
  observed_at, observe, audit_refs, audit_layers, audit_sequences, audit_pages,
}
use chromo_fold.Prelude.Words.{u64_mod, add64_small}
use Layers.{
  observed_at-observe, AreLive, Observes, Fits, Counts, Counts-shift, audit_refs-cons,
  audit_refs-live, audit_refs-some, AreLive-append, AreLive-split, AreOrdered, audit_layers-cons,
  audit_layers-live, audit_layers-some,
}

-- All references of the sequences.
abbrev all_ids : Map SequenceState → List ℕ
all_ids [] = []
all_ids ((id, s) ∷ rest) = layer_ids s.layers ++ all_ids rest

refs-all_ids : (m : Map SequenceState) (j : ℕ) → refs m j ≡ count j (all_ids m)
unfolding total
refs-all_ids [] j = refl
refs-all_ids ((id, s) ∷ rest) j =
    omega (arith, refs-all_ids rest j, count-append j (layer_ids s.layers) (all_ids rest))

abbrev AreWellFormed : Config → Map SequenceState → Type 0
AreWellFormed k [] = Unit {0}
AreWellFormed k ((id, s) ∷ rest) =
    ((s.id ≡ id) × (length s.layers ≡ k.layer_count) × AreOrdered s.layers) × AreWellFormed k rest

audit_sequences-cons :
    (k : Config) (pages : Map SharedPage) (id : ℕ) (s : SequenceState) (rest : Map SequenceState)
    (m m' : Map ℕ)
    → s.id ≡ id
    → length s.layers ≡ k.layer_count
    → audit_layers pages s.layers m ≡ some m'
    → audit_sequences k pages ((id, s) ∷ rest) m ≡ audit_sequences k pages rest m'
unfolding audit_sequences
audit_sequences-cons k pages id s rest m m' own sized e = rw e (
    if_elim (λ o. o ≡ audit_sequences k pages rest m')
      (not (id == s.id) || not (length s.layers == k.layer_count)) (λ bad. absurd (ground arith))
      (λ _. refl))

audit_sequences-live :
    (k : Config) (pages : Map SharedPage) (seqs : Map SequenceState) (m : Map ℕ)
    → Fits (all_ids seqs) m
    → AreLive pages (all_ids seqs)
    → AreWellFormed k seqs
    → Counts m (all_ids seqs) (audit_sequences k pages seqs m)
unfolding audit_sequences
audit_sequences-live k pages [] m fits live formed = λ j. omega arith
audit_sequences-live k pages ((id, s) ∷ rest) m fits live formed =
    elim (Option-cases (audit_layers pages s.layers m)) [
      | inl bad ↦ absurd (subst (Counts m (layer_ids s.layers)) bad counted)
      | inr (m', e) ↦
          let seen = subst (Counts m (layer_ids s.layers)) e counted in
          subst (Counts m (layer_ids s.layers ++ all_ids rest))
            (sym (audit_sequences-cons k pages id s rest m m' formed.0.0 formed.0.1 e))
            (Counts-shift m m' (layer_ids s.layers) (all_ids rest) seen
              (audit_sequences k pages rest m')
              (audit_sequences-live k pages rest m'
                (λ j.
                  omega (arith, seen j, fits j, count-append j (layer_ids s.layers) (all_ids rest)))
                parts.1 formed.1))
    ]
  where
    parts : AreLive pages (layer_ids s.layers) × AreLive pages (all_ids rest)
    parts = AreLive-split pages (layer_ids s.layers) (all_ids rest) live

    counted : Counts m (layer_ids s.layers) (audit_layers pages s.layers m)
    counted =
        audit_layers-live pages s.layers m
          (λ j. omega (arith, fits j, count-append j (layer_ids s.layers) (all_ids rest))) parts.0
          formed.0.2

audit_sequences-some :
    (k : Config) (pages : Map SharedPage) (seqs : Map SequenceState) (m m' : Map ℕ)
    → audit_sequences k pages seqs m ≡ some m'
    → AreLive pages (all_ids seqs) × AreWellFormed k seqs
unfolding audit_sequences
audit_sequences-some k pages [] m m' e = (tt, tt)
audit_sequences-some k pages ((id, s) ∷ rest) m m' e =
    elim (Bool-cases (not (id == s.id) || not (length s.layers == k.layer_count))) [
      | inl bad ↦ absurd (ground arith)
      | inr good ↦ elim (Option-cases (audit_layers pages s.layers m)) [
        | inl bad ↦ absurd (ground arith)
        | inr (m'', seen) ↦
            let own : s.id ≡ id = ground arith in
            let sized : length s.layers ≡ k.layer_count = ground arith in
            let parts = audit_layers-some pages s.layers m m'' seen in
            let more =
              audit_sequences-some k pages rest m'' m'
                (sym (audit_sequences-cons k pages id s rest m m'' own sized seen) ∙ e) in
            (
              AreLive-append pages (layer_ids s.layers) (all_ids rest) parts.0 more.0,
              ((own, sized, parts.1), more.1),
            )
      ]
    ]

-- The counts of the pages against `held`.
abbrev AreCounted : (ℕ → ℕ) → Map SharedPage → Type 0
AreCounted held [] = Unit {0}
AreCounted held ((id, p) ∷ rest) =
    ((p.retired ≡ false → p.refcount ≡ held id)
      × (p.retired ≡ true → (p.refcount ≡ 0) × (held id ≡ 0)))
    × AreCounted held rest

audit_pages_iff :
    (m : Map ℕ) (held : ℕ → ℕ) (pages : Map SharedPage)
    → ((j : ℕ) → observed_at j m ≡ held j)
    → (audit_pages m pages ≡ true) ↔ AreCounted held pages
unfolding audit_pages
audit_pages_iff m held [] same = (λ e. tt, λ c. refl)
audit_pages_iff m held ((id, p) ∷ rest) same =
    let more = audit_pages_iff m held rest same in
    (
      λ e. (
        (λ live. ground (arith, same id), λ gone_. ground (arith, same id)),
        more.0 (ground arith),
      ),
      λ c. ground (arith, same id, more.1 c.1, c.0.0, c.0.1),
    )

-- What the audit is to find out: each sequence stands under its number, has every layer, with its
-- pages in order; each reference is to a live page; each live page has as many references as it
-- counts, and each retired page none.
pub record IsAudited (c : Cache) : Type 0 where
  pub formed : AreWellFormed c.config c.sequences
  pub live : AreLive c.page_store (all_ids c.sequences)
  pub counted : AreCounted (refs c.sequences) c.page_store

module _ (c : Cache) (fits : (j : ℕ) → refs c.sequences j < u64_mod) where
  observed_empty : (j : ℕ) → observed_at j [] ≡ 0
  unfolding observed_at find
  observed_empty j = refl

  audit_locked-some :
      (m : Map ℕ)
      → audit_sequences c.config c.page_store c.sequences [] ≡ some m
      → audit_locked c ≡ audit_pages m c.page_store
  unfolding audit_locked
  audit_locked-some m e = rw (e, audit_locked) refl

  observed_refs :
      (m : Map ℕ)
      → AreWellFormed c.config c.sequences
      → AreLive c.page_store (all_ids c.sequences)
      → audit_sequences c.config c.page_store c.sequences [] ≡ some m
      → (j : ℕ) → observed_at j m ≡ refs c.sequences j
  observed_refs m formed live e j =
      let seen = subst (Counts [] (all_ids c.sequences)) e (
        audit_sequences-live c.config c.page_store c.sequences []
          (λ i. omega (arith, observed_empty i, fits i, refs-all_ids c.sequences i)) live formed) in
      omega (arith, seen j, observed_empty j, refs-all_ids c.sequences j)

  audited : audit_locked c ≡ true → IsAudited c
  unfolding audit_locked
  audited e = elim (Option-cases (audit_sequences c.config c.page_store c.sequences [])) [
    | inl bad ↦ absurd (ground arith)
    | inr (m, s) ↦
        let parts = audit_sequences-some c.config c.page_store c.sequences [] m s in
        record {
          formed = parts.1;
          live = parts.0;
          counted =
              (audit_pages_iff m (refs c.sequences) c.page_store
                  (observed_refs m parts.1 parts.0 s)).0
                (sym (audit_locked-some m s) ∙ e);
        }
  ]

  passes_audit : IsAudited c → audit_locked c ≡ true
  passes_audit a = elim (Option-cases (audit_sequences c.config c.page_store c.sequences [])) [
    | inl bad ↦ absurd (
        subst (Counts [] (all_ids c.sequences)) bad (
          audit_sequences-live c.config c.page_store c.sequences []
            (λ i. omega (arith, observed_empty i, fits i, refs-all_ids c.sequences i)) a.live
            a.formed))
    | inr (m, s) ↦
        audit_locked-some m s
        ∙ (audit_pages_iff m (refs c.sequences) c.page_store (observed_refs m a.formed a.live s)).1
            a.counted
  ]

-- Where no page has 2^64 references, audit_locked succeeds exactly on a cache whose sequences are
-- well formed and in order, whose references are all to live pages, and whose pages count their
-- references.
pub audit_locked_iff :
    (c : Cache) → ((j : ℕ) → refs c.sequences j < u64_mod) → (audit_locked c ≡ true) ↔ IsAudited c
audit_locked_iff c fits = (audited c fits, passes_audit c fits)
