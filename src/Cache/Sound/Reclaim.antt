-- ===== src/Cache/Sound/Reclaim.antt =====
-- Reclamation of a sound cache (src/multisequence_cache.cpp).
use chromo_fold.Prelude.{
  ℕ, ◌≡◌, refl, sym, ◌∙◌, inl, inr, Option, none, some, List, [], ◌∷◌, arith, ◌==◌, if◌then◌else◌,
  Option-cases, subst,
}
use chromo_fold.Prelude.Map.{Map, find, erase, find-erase, erase-IsDistinct}
use chromo_fold.Cache.Types.{Cache, SharedPage, RetiredPage}
use chromo_fold.Cache.Outcome.{returns, ◌>>=◌}
use chromo_fold.Cache.Append.{reclaimed, reclaim_pages, queue_cleared, reclaim_body, reclaim}
use chromo_fold.Cache.Holds.{Holds, SameElse, SameElse-refl, SameElse-trans}
use chromo_fold.Cache.Sound.{
  refs, IsSound, SameParts, Holds-parts, IsSound-parts, attempt-Ends, maybe_audit-Ends,
}

-- Nothing but the pages, the queue and the counters; and the queue is `qs`.
abbrev HoldsQueue : (ℕ → ℕ) → List RetiredPage → Cache → Type 0
HoldsQueue held qs c = Holds held (record c { retired = qs })

-- The head of the queue is a retired page to which nothing refers.
queue_head :
    (held : ℕ → ℕ) (q : RetiredPage) (qs : List RetiredPage) (c : Cache)
    → HoldsQueue held (q ∷ qs) c
    → (p : SharedPage) × (find q.page_id c.page_store ≡ some p)
      × (p.refcount ≡ 0)
      × (held q.page_id ≡ 0)
queue_head held q qs c h = elim (Option-cases (find q.page_id c.page_store)) [
  | inl e ↦ absurd (ground (arith, h.queued q.page_id))
  | inr (p, e) ↦ (
    p,
    e,
    ground (arith, h.queued q.page_id, h.free q.page_id p e),
    ground (arith, h.queued q.page_id, h.free q.page_id p e, h.counted q.page_id p e),
  )
]

reclaimed-Holds :
    (held : ℕ → ℕ) (q : RetiredPage) (qs : List RetiredPage) (c : Cache)
    → HoldsQueue held (q ∷ qs) c
    → HoldsQueue held qs (reclaimed q c)
unfolding reclaimed
reclaimed-Holds held q qs c h = record {
  distinct = erase-IsDistinct q.page_id c.page_store h.distinct;
  keyed = λ id p e. ground (arith, at id, h.keyed id p);
  counted = λ id p e. ground (arith, at id, h.counted id p);
  free = λ id p e r. ground (arith, at id, h.free id p);
  resolved = λ id more. ground (arith, at id, h.resolved id more, queue_head held q qs c h);
  queued = λ id. ground (arith, at id, h.queued id);
}
  where
    at :
        (id : ℕ)
        → find id (erase q.page_id c.page_store)
          ≡ (if q.page_id == id then none else find id c.page_store)
    at id = find-erase q.page_id id c.page_store h.distinct

abbrev live_page : Map SharedPage → ℕ → Option SharedPage
live_page m id = elim (find id m) [ none ↦ none | some p ↦ if p.retired then none else some p ]

reclaim_pages-cons :
    (q : RetiredPage) (qs : List RetiredPage) (c : Cache) (p : SharedPage)
    → find q.page_id c.page_store ≡ some p
    → p.refcount ≡ 0
    → reclaim_pages (q ∷ qs) c ≡ reclaim_pages qs (reclaimed q c)
unfolding reclaim_pages
reclaim_pages-cons q qs c p e zero_ = ground arith

reclaimed-live :
    (held : ℕ → ℕ) (q : RetiredPage) (qs : List RetiredPage) (c : Cache)
    → HoldsQueue held (q ∷ qs) c
    → (id : ℕ) → live_page (reclaimed q c).page_store id ≡ live_page c.page_store id
unfolding reclaimed
reclaimed-live held q qs c h id =
    ground (arith, find-erase q.page_id id c.page_store h.distinct, h.queued q.page_id)

reclaimed-else : (q : RetiredPage) (c : Cache) → SameElse c (reclaimed q c)
unfolding reclaimed
reclaimed-else q c = record { config = refl; sequences = refl; global_generation = refl }

reclaim_pages-Holds :
    (held : ℕ → ℕ) (qs : List RetiredPage) (c : Cache)
    → HoldsQueue held qs c
    → (d : Cache) × (reclaim_pages qs c ≡ returns tt d)
      × HoldsQueue held [] d
      × ((id : ℕ) → live_page d.page_store id ≡ live_page c.page_store id)
      × SameElse c d
reclaim_pages-Holds held [] c h = (c, unfold reclaim_pages in refl, h, λ id. refl, SameElse-refl c)
reclaim_pages-Holds held (q ∷ qs) c h =
    let head = queue_head held q qs c h in
    let rest = reclaim_pages-Holds held qs (reclaimed q c) (reclaimed-Holds held q qs c h) in
    (
      rest.0,
      reclaim_pages-cons q qs c head.0 head.1 head.2 ∙ rest.1,
      rest.2,
      λ id. rest.3 id ∙ reclaimed-live held q qs c h id,
      SameElse-trans (reclaimed-else q c) rest.4,
    )

-- What a reclamation leaves of a cache.
pub record IsReclaimed (c d : Cache) : Type 0 where
  pub sound : IsSound d
  pub sequences : d.sequences ≡ c.sequences
  pub queue : d.retired ≡ []
  pub pages :
      (id : ℕ)
      → find id d.page_store
        ≡ elim (find id c.page_store) [ none ↦ none | some p ↦ if p.retired then none else some p ]

-- With an empty queue no page is retired.
all_live :
    (held : ℕ → ℕ) (c : Cache)
    → HoldsQueue held [] c
    → (id : ℕ) → find id c.page_store ≡ live_page c.page_store id
all_live held c h id = ground (arith, h.queued id)

IsReclaimed-parts : {c d e : Cache} → SameParts d e → IsReclaimed c d → IsReclaimed c e
IsReclaimed-parts same r = record {
  sound = IsSound-parts same r.sound;
  sequences = same.sequences ∙ r.sequences;
  queue = same.retired ∙ r.queue;
  pages = λ id. rw same.page_store (r.pages id);
}

queue_cleared-IsReclaimed :
    (c d : Cache)
    → IsSound c
    → HoldsQueue (refs c.sequences) [] d
    → ((id : ℕ) → live_page d.page_store id ≡ live_page c.page_store id)
    → SameElse c d
    → IsReclaimed c (queue_cleared d)
unfolding queue_cleared
queue_cleared-IsReclaimed c d v h same_live same = record {
  sound = record {
    holds =
        subst (λ m. Holds (refs m) (queue_cleared d)) (sym same.sequences)
          (Holds-parts refl refl h);
    shaped = rw (same.config, same.sequences) v.shaped;
  };
  sequences = same.sequences;
  queue = refl;
  pages = λ id. all_live (refs c.sequences) d h id ∙ same_live id;
}

-- Reclaiming a sound cache empties the queue and removes each retired page; every other page and
-- every sequence is as it was, and the counts still agree.
pub reclaim_lem : (c : Cache) → IsSound c → IsReclaimed c (reclaim c).0
unfolding reclaim reclaim_body
reclaim_lem c v =
    let done = reclaim_pages-Holds (refs c.sequences) c.retired c v.holds in
    attempt-Ends (IsReclaimed c) (λ d e. IsReclaimed-parts) reclaim_body c
      (rw (done.1, ◌>>=◌)
        (maybe_audit-Ends (IsReclaimed c) (λ d e. IsReclaimed-parts) (queue_cleared done.0)
          (queue_cleared-IsReclaimed c done.0 v done.2 done.3 done.4)))
