-- ===== src/Cache/Holds.antt =====
-- Reference counts of src/multisequence_cache.cpp against any count of the references that are held.
pub mod Groups
use chromo_fold.Prelude.{
  ℕ, ◌+◌, ◌-◌, ◌<◌, ◌≡◌, refl, ◌∙◌, ap, inl, inr, ◌⊎◌, ◌≢◌, true, false, none, some, List, [], ◌∷◌,
  ◌++◌, arith, ◌==◌, if◌then◌else◌, Bool-cases, Option-cases, count, count-append, All,
}
use chromo_fold.Prelude.Words.{u32_mod}
use chromo_fold.Prelude.Map.{
  Map, find, contains, assign, IsDistinct, find-assign, assign-IsDistinct,
}
use mathlib.Core.List.{append-nil, append_assoc}
use native.Mathlib.Decide.{ℕ_discrete}
use chromo_fold.Cache.Types.{Cache, SharedPage, RetiredPage, Error, refcount_overflow}
use chromo_fold.Cache.Outcome.{returns, throws, ◌>>=◌}
use chromo_fold.Cache.Pages.{
  acquire_page, release_page, release_pages, acquired, released, retire_entry,
}
use chromo_fold.Cache.Create.{acquire_pages}

abbrev pub queue_ids : List RetiredPage → List ℕ
queue_ids [] = []
queue_ids (q ∷ qs) = q.page_id ∷ queue_ids qs

-- 1 for a page that is retired.
abbrev pub retired_at : ℕ → Map SharedPage → ℕ
retired_at id m = elim (find id m) [ none ↦ 0 | some p ↦ if p.retired then 1 else 0 ]

-- `held id` references to each page are held: the page has that count, a retired page has none and
-- stands in the queue once, and nothing else stands there.
pub record Holds (held : ℕ → ℕ) (c : Cache) : Type 0 where
  pub distinct : IsDistinct c.page_store
  pub keyed : (id : ℕ) (p : SharedPage) → find id c.page_store ≡ some p → p.page_id ≡ id
  pub counted : (id : ℕ) (p : SharedPage) → find id c.page_store ≡ some p → p.refcount ≡ held id
  pub free :
      (id : ℕ) (p : SharedPage) → find id c.page_store ≡ some p → p.retired ≡ true → p.refcount ≡ 0
  pub resolved : (id : ℕ) → 0 < held id → contains id c.page_store ≡ true
  pub queued : (id : ℕ) → count id (queue_ids c.retired) ≡ retired_at id c.page_store

-- All but the pages, the queue and the counters.
pub record SameElse (c d : Cache) : Type 0 where
  pub config : d.config ≡ c.config
  pub sequences : d.sequences ≡ c.sequences
  pub global_generation : d.global_generation ≡ c.global_generation

pub SameElse-refl : (c : Cache) → SameElse c c
SameElse-refl c = record { config = refl; sequences = refl; global_generation = refl }

pub SameElse-trans : {c d e : Cache} → SameElse c d → SameElse d e → SameElse c e
SameElse-trans s t = record {
  config = t.config ∙ s.config;
  sequences = t.sequences ∙ s.sequences;
  global_generation = t.global_generation ∙ s.global_generation;
}

pub Holds-cong :
    {held kept : ℕ → ℕ} {c : Cache} → ((id : ℕ) → held id ≡ kept id) → Holds held c → Holds kept c
Holds-cong same h = record {
  distinct = h.distinct;
  keyed = h.keyed;
  counted = λ id p e. h.counted id p e ∙ same id;
  free = h.free;
  resolved = λ id more. h.resolved id (omega (arith, same id));
  queued = h.queued;
}

abbrev pub plus : ℕ → (ℕ → ℕ) → ℕ → ℕ
plus id held j = (if id == j then 1 else 0) + held j

queue_ids-snoc :
    (qs : List RetiredPage) (q : RetiredPage)
    → queue_ids (qs ++ q ∷ []) ≡ queue_ids qs ++ q.page_id ∷ []
queue_ids-snoc [] q = refl
queue_ids-snoc (x ∷ qs) q = ap (λ l. x.page_id ∷ l) (queue_ids-snoc qs q)

module _ (held : ℕ → ℕ) (c : Cache) (id : ℕ) (p : SharedPage)
    (here : find id c.page_store ≡ some p) where
  -- One page is written anew, and the queue may grow.
  replaced-Holds :
      (kept : ℕ → ℕ) (p' : SharedPage) (d : Cache)
      → Holds held c
      → d.page_store ≡ assign id p' c.page_store
      → p'.page_id ≡ p.page_id
      → p'.refcount ≡ kept id
      → (p'.retired ≡ true → p'.refcount ≡ 0)
      → ((j : ℕ) → (id == j) ≡ false → kept j ≡ held j)
      → ((j : ℕ)
          → count j (queue_ids d.retired)
            ≡ (if id == j then (if p'.retired then 1 else 0) else retired_at j c.page_store))
      → Holds kept d
  replaced-Holds kept p' d h store named counts frees others queue = record {
    distinct = rw store (assign-IsDistinct id p' c.page_store h.distinct);
    keyed = λ j q e. ground (arith, store, at j, h.keyed id p here, h.keyed j q);
    counted = λ j q e. ground (arith, store, at j, others j, h.counted j q);
    free = λ j q e r. ground (arith, store, at j, frees, h.free j q);
    resolved = λ j more. ground (arith, store, at j, others j, h.resolved j);
    queued = λ j. ground (arith, store, at j, queue j);
  }
    where
      at :
          (j : ℕ)
          → find j (assign id p' c.page_store) ≡ (
              if id == j
              then (if contains id c.page_store then some p' else none)
              else find j c.page_store)
      at j = find-assign id j p' c.page_store

  acquired-Holds : Holds held c → p.retired ≡ false → Holds (plus id held) (acquired id p c)
  unfolding acquired
  acquired-Holds h live =
      replaced-Holds (plus id held) (record p { refcount = p.refcount + 1 }) (acquired id p c) h
        refl refl (ground (arith, h.counted id p here)) (λ r. cc) (λ j other. ground arith)
        (λ j. ground (arith, h.queued j))

module _ (held : ℕ → ℕ) (c : Cache) (id : ℕ) (p : SharedPage) (here : find id c.page_store ≡ some p)
    (h : Holds (plus id held) c) where
  abbrev last_page : SharedPage
  last_page = record p { refcount = 0; retired = true }

  abbrev more_page : SharedPage
  more_page = record p { refcount = p.refcount - 1 }

  released_last : p.refcount ≡ 1 → Holds held (released id p c)
  unfolding released
  released_last one =
      replaced-Holds (plus id held) c id p here held last_page (released id p c) h (ground arith)
        refl (ground (arith, h.counted id p here)) (λ r. refl) (λ j other. ground arith)
        λ j. ground (
          arith,
          queue_ids-snoc c.retired (retire_entry p c),
          count-append j (queue_ids c.retired) (p.page_id ∷ []),
          h.queued j,
          h.keyed id p here,
          h.free id p here,
        )

  released_more : p.refcount ≢ 1 → Holds held (released id p c)
  unfolding released
  released_more more =
      replaced-Holds (plus id held) c id p here held more_page (released id p c) h (ground arith)
        refl (ground (arith, h.counted id p here))
        (λ r. ground (arith, h.free id p here, h.counted id p here)) (λ j other. ground arith)
        λ j. ground (arith, h.queued j)

  released-Holds : Holds held (released id p c)
  released-Holds = elim (ℕ_discrete p.refcount 1) [
    | yes one ↦ released_last one
    | no more ↦ released_more more
  ]

acquired-else : (id : ℕ) (p : SharedPage) (c : Cache) → SameElse c (acquired id p c)
unfolding acquired
acquired-else id p c = record { config = refl; sequences = refl; global_generation = refl }

released-else : (id : ℕ) (p : SharedPage) (c : Cache) → SameElse c (released id p c)
unfolding released
released-else id p c = record {
  config = ground arith;
  sequences = ground arith;
  global_generation = ground arith;
}

-- The outcome of an acquisition of a page that is held: one more, or an error that changes nothing.
acquire_page-Holds :
    (held : ℕ → ℕ) (c : Cache) (id : ℕ)
    → Holds held c
    → 0 < held id
    → ((d : Cache) × (acquire_page id c ≡ returns tt d) × Holds (plus id held) d × SameElse c d)
      ⊎ ((e : Error) × (acquire_page id c ≡ throws e c))
unfolding acquire_page
acquire_page-Holds held c id h more = elim (Option-cases (find id c.page_store)) [
  | inl e ↦ absurd (ground (arith, h.resolved id more))
  | inr (p, here) ↦ elim (Bool-cases p.retired) [
    | inl gone ↦ absurd (ground (arith, h.free id p here gone, h.counted id p here))
    | inr live ↦ elim (Bool-cases (p.refcount == u32_mod - 1)) [
      | inl full ↦ inr (refcount_overflow, ground arith)
      | inr room ↦ inl (
        acquired id p c,
        ground arith,
        acquired-Holds held c id p here h live,
        acquired-else id p c,
      )
    ]
  ]
]

pub release_page-Holds :
    (held : ℕ → ℕ) (c : Cache) (id : ℕ)
    → Holds (plus id held) c
    → (d : Cache) × (release_page id c ≡ returns tt d) × Holds held d × SameElse c d
unfolding release_page
release_page-Holds held c id h = elim (Option-cases (find id c.page_store)) [
  | inl e ↦ absurd (ground (arith, h.resolved id (ground arith)))
  | inr (p, here) ↦ (
    released id p c,
    ground (arith, h.counted id p here),
    released-Holds held c id p here h,
    released-else id p c,
  )
]
