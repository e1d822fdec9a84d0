-- ===== src/Cache/AuditLaws/Layers.antt =====
-- The audit of the layers of src/multisequence_cache.cpp.
use chromo_fold.Prelude.{
  ℕ, ◌+◌, ◌<◌, ◌≡◌, refl, sym, ◌∙◌, inl, inr, false, Option, none, some, List, [], ◌∷◌, ◌++◌, arith,
  ◌==◌, if◌then◌else◌, Bool-cases, Option-cases, count, count-append, subst,
}
use chromo_fold.Prelude.Words.{add64}
use chromo_fold.Prelude.Map.{Map, find, find-assign, find-emplace}
use chromo_fold.Cache.Types.{SharedPage, PageRef, LayerState}
use chromo_fold.Cache.Pages.{ref_ids, layer_ids}
use chromo_fold.Cache.Order.{validate_page_order}
use chromo_fold.Cache.Auditor.{observed_at, observe, audit_refs, audit_layers}
use chromo_fold.Prelude.Words.{u64_mod, add64_small}

pub observed_at-observe :
    (id j : ℕ) (m : Map ℕ)
    → observed_at id m + 1 < u64_mod
    → observed_at j (observe id m) ≡ (if id == j then 1 else 0) + observed_at j m
unfolding observed_at observe
observed_at-observe id j m small = ground (
  arith,
  find-emplace id j 1 m,
  find-assign id j (add64 (observed_at id m) 1) m,
  add64_small (observed_at id m) 1 small,
)

-- The references resolve to live pages.
abbrev pub AreLive : Map SharedPage → List ℕ → Type 0
AreLive pages [] = Unit {0}
AreLive pages (id ∷ ids) =
    ((p : SharedPage) × (find id pages ≡ some p) × (p.retired ≡ false)) × AreLive pages ids

-- The table that the audit builds counts the references, where they do not pass 64 bits.
abbrev pub Observes : List ℕ → Map ℕ → Map ℕ → Type 0
Observes ids m m' = (j : ℕ) → observed_at j m' ≡ count j ids + observed_at j m

abbrev pub Fits : List ℕ → Map ℕ → Type 0
Fits ids m = (j : ℕ) → count j ids + observed_at j m < u64_mod

-- How a loop of the audit ends: with the references counted, or by a throw.
abbrev pub Counts : Map ℕ → List ℕ → Option (Map ℕ) → Type 0
Counts m ids none = ⊥
Counts m ids (some m') = Observes ids m m'

pub Counts-shift :
    (m n : Map ℕ) (xs ys : List ℕ)
    → Observes xs m n
    → (o : Option (Map ℕ)) → Counts n ys o
    → Counts m (xs ++ ys) o
Counts-shift m n xs ys seen none h = h
Counts-shift m n xs ys seen (some m') h = λ j. omega (arith, seen j, h j, count-append j xs ys)

pub audit_refs-cons :
    (pages : Map SharedPage) (r : PageRef) (rs : List PageRef) (m : Map ℕ) (p : SharedPage)
    → find r.page_id pages ≡ some p
    → p.retired ≡ false
    → audit_refs pages (r ∷ rs) m ≡ audit_refs pages rs (observe r.page_id m)
unfolding audit_refs
audit_refs-cons pages r rs m p e l = rw (e, audit_refs) (rw l refl)

pub audit_refs-live :
    (pages : Map SharedPage) (rs : List PageRef) (m : Map ℕ)
    → Fits (ref_ids rs) m
    → AreLive pages (ref_ids rs)
    → Counts m (ref_ids rs) (audit_refs pages rs m)
unfolding audit_refs ref_ids
audit_refs-live pages [] m fits live = λ j. omega arith
audit_refs-live pages (r ∷ rs) m fits live =
    let seen = λ (j : ℕ). observed_at-observe r.page_id j m (ground (arith, fits r.page_id)) in
    subst (Counts m (r.page_id ∷ ref_ids rs))
      (sym (audit_refs-cons pages r rs m live.0.0 live.0.1 live.0.2))
      (Counts-shift m (observe r.page_id m) (r.page_id ∷ []) (ref_ids rs)
        (λ j. omega (arith, seen j)) (audit_refs pages rs (observe r.page_id m))
        (audit_refs-live pages rs (observe r.page_id m) (λ j. omega (arith, seen j, fits j))
          live.1))

pub audit_refs-some :
    (pages : Map SharedPage) (rs : List PageRef) (m m' : Map ℕ)
    → audit_refs pages rs m ≡ some m'
    → AreLive pages (ref_ids rs)
unfolding audit_refs ref_ids
audit_refs-some pages [] m m' e = tt
audit_refs-some pages (r ∷ rs) m m' e = elim (Option-cases (find r.page_id pages)) [
  | inl missing ↦ absurd (ground arith)
  | inr (p, here) ↦ elim (Bool-cases p.retired) [
    | inl gone_ ↦ absurd (ground arith)
    | inr live ↦ (
      (p, here, live),
      audit_refs-some pages rs (observe r.page_id m) m'
          (sym (audit_refs-cons pages r rs m p here live) ∙ e),
    )
  ]
]

pub AreLive-append :
    (pages : Map SharedPage) (xs ys : List ℕ)
    → AreLive pages xs
    → AreLive pages ys
    → AreLive pages (xs ++ ys)
AreLive-append pages [] ys h g = g
AreLive-append pages (x ∷ xs) ys h g = (h.0, AreLive-append pages xs ys h.1 g)

pub AreLive-split :
    (pages : Map SharedPage) (xs ys : List ℕ)
    → AreLive pages (xs ++ ys)
    → AreLive pages xs × AreLive pages ys
AreLive-split pages [] ys h = (tt, h)
AreLive-split pages (x ∷ xs) ys h =
    let rest = AreLive-split pages xs ys h.1 in ((h.0, rest.0), rest.1)

abbrev pub AreOrdered : List LayerState → Type 0
AreOrdered [] = Unit {0}
AreOrdered (l ∷ ls) = (validate_page_order l ≡ none) × AreOrdered ls

pub audit_layers-cons :
    (pages : Map SharedPage) (l : LayerState) (ls : List LayerState) (m m' : Map ℕ)
    → validate_page_order l ≡ none
    → audit_refs pages l.sealed_pages m ≡ some m'
    → audit_layers pages (l ∷ ls) m ≡ audit_layers pages ls m'
unfolding audit_layers
audit_layers-cons pages l ls m m' o e = rw (o, audit_layers) (rw (e, audit_layers) refl)

pub audit_layers-live :
    (pages : Map SharedPage) (ls : List LayerState) (m : Map ℕ)
    → Fits (layer_ids ls) m
    → AreLive pages (layer_ids ls)
    → AreOrdered ls
    → Counts m (layer_ids ls) (audit_layers pages ls m)
unfolding audit_layers layer_ids
audit_layers-live pages [] m fits live ordered = λ j. omega arith
audit_layers-live pages (l ∷ ls) m fits live ordered =
    elim (Option-cases (audit_refs pages l.sealed_pages m)) [
      | inl bad ↦ absurd (subst (Counts m (ref_ids l.sealed_pages)) bad counted)
      | inr (m', e) ↦
          let seen = subst (Counts m (ref_ids l.sealed_pages)) e counted in
          subst (Counts m (ref_ids l.sealed_pages ++ layer_ids ls))
            (sym (audit_layers-cons pages l ls m m' ordered.0 e))
            (Counts-shift m m' (ref_ids l.sealed_pages) (layer_ids ls) seen
              (audit_layers pages ls m')
              (audit_layers-live pages ls m'
                (λ j.
                  omega
                    (arith, seen j, fits j, count-append j (ref_ids l.sealed_pages) (layer_ids ls)))
                parts.1 ordered.1))
    ]
  where
    parts : AreLive pages (ref_ids l.sealed_pages) × AreLive pages (layer_ids ls)
    parts = AreLive-split pages (ref_ids l.sealed_pages) (layer_ids ls) live

    counted : Counts m (ref_ids l.sealed_pages) (audit_refs pages l.sealed_pages m)
    counted =
        audit_refs-live pages l.sealed_pages m
          (λ j. omega (arith, fits j, count-append j (ref_ids l.sealed_pages) (layer_ids ls)))
          parts.0

pub audit_layers-some :
    (pages : Map SharedPage) (ls : List LayerState) (m m' : Map ℕ)
    → audit_layers pages ls m ≡ some m'
    → AreLive pages (layer_ids ls) × AreOrdered ls
unfolding audit_layers layer_ids
audit_layers-some pages [] m m' e = (tt, tt)
audit_layers-some pages (l ∷ ls) m m' e = elim (Option-cases (validate_page_order l)) [
  | inr (x, bad) ↦ absurd (ground arith)
  | inl ordered ↦ elim (Option-cases (audit_refs pages l.sealed_pages m)) [
    | inl bad ↦ absurd (ground arith)
    | inr (m'', seen) ↦
        let rest =
          audit_layers-some pages ls m'' m'
            (sym (audit_layers-cons pages l ls m m'' ordered seen) ∙ e) in
        (
          AreLive-append pages (ref_ids l.sealed_pages) (layer_ids ls)
              (audit_refs-some pages l.sealed_pages m m'' seen) rest.0,
          (ordered, rest.1),
        )
  ]
]
