-- ===== src/Cache/Holds/Groups.antt =====
-- Pages that are acquired and released together (src/multisequence_cache.cpp).
use chromo_fold.Prelude.{
  ℕ, ◌+◌, ◌<◌, ◌≡◌, refl, ◌∙◌, ap, inl, inr, ◌⊎◌, List, [], ◌∷◌, ◌++◌, arith, count, count-append,
  All,
}
use mathlib.Core.List.{append-nil, append_assoc}
use chromo_fold.Cache.Types.{Cache, Error}
use chromo_fold.Cache.Outcome.{returns, throws, ◌>>=◌}
use chromo_fold.Cache.Pages.{acquire_page, release_page, release_pages}
use chromo_fold.Cache.Create.{acquire_pages}
use chromo_fold.Cache.Holds.{
  SameElse-refl, SameElse-trans, Holds-cong, acquire_page-Holds, release_page-Holds, Holds,
  SameElse,
}

abbrev pub plus_all : List ℕ → (ℕ → ℕ) → ℕ → ℕ
plus_all ids held j = count j ids + held j

release_pages-cons :
    (c d : Cache) (id : ℕ) (ids : List ℕ)
    → release_page id c ≡ returns tt d
    → release_pages (id ∷ ids) c ≡ release_pages ids d
unfolding release_pages
release_pages-cons c d id ids e = rw (e, ◌>>=◌) refl

-- Held pages are released one by one with no error.
pub release_pages-Holds :
    (held : ℕ → ℕ) (c : Cache) (ids : List ℕ)
    → Holds (plus_all ids held) c
    → (d : Cache) × (release_pages ids c ≡ returns tt d) × Holds held d × SameElse c d
unfolding release_pages
release_pages-Holds held c [] h = (c, refl, Holds-cong (λ j. omega arith) h, SameElse-refl c)
release_pages-Holds held c (id ∷ ids) h =
    let one = release_page-Holds (plus_all ids held) c id (Holds-cong (λ j. omega arith) h) in
    let rest = release_pages-Holds held one.0 ids one.2 in
    (rest.0, release_pages-cons c one.0 id ids one.1 ∙ rest.1, rest.2, SameElse-trans one.3 rest.3)

acquire_pages-cons :
    (c d : Cache) (id : ℕ) (ids done : List ℕ)
    → acquire_page id c ≡ returns tt d
    → acquire_pages (id ∷ ids) done c ≡ acquire_pages ids (done ++ id ∷ []) d
unfolding acquire_pages
acquire_pages-cons c d id ids done e = rw (e, acquire_pages) refl

acquire_pages_undone :
    (c d : Cache) (id : ℕ) (ids done : List ℕ) (x : Error)
    → acquire_page id c ≡ throws x c
    → release_pages done c ≡ returns tt d
    → acquire_pages (id ∷ ids) done c ≡ throws x d
unfolding acquire_pages
acquire_pages_undone c d id ids done x e f = rw (e, acquire_pages) (rw (f, ◌>>=◌) refl)

-- From a state in which the pages of `done` are acquired, and each page of `ids` is held, the
-- pages of `ids` are acquired all together, or at an error those of `done` and of `ids` that were
-- acquired are released again.
pub acquire_pages-Holds :
    (held : ℕ → ℕ) (c : Cache) (ids done : List ℕ)
    → Holds (plus_all done held) c
    → All (λ id. 0 < held id) ids
    → ((d : Cache) × (acquire_pages ids done c ≡ returns tt d)
        × Holds (plus_all (done ++ ids) held) d
        × SameElse c d)
      ⊎ ((e : Error) × (d : Cache) × (acquire_pages ids done c ≡ throws e d)
          × Holds held d
          × SameElse c d)
unfolding acquire_pages
acquire_pages-Holds held c [] done h more =
    inl (c, refl, Holds-cong (λ j. ground (arith, append-nil done)) h, SameElse-refl c)
acquire_pages-Holds held c (id ∷ ids) done h more =
    elim (acquire_page-Holds (plus_all done held) c id h (omega (arith, more.0))) [
      | inr (e, x) ↦
          let undo = release_pages-Holds held c done h in
          inr (e, undo.0, acquire_pages_undone c undo.0 id ids done e x undo.1, undo.2, undo.3)
      | inl (d, x, hd, same) ↦
          elim (acquire_pages-Holds held d ids (done ++ id ∷ [])
            (Holds-cong (λ j. omega (arith, count-append j done (id ∷ []))) hd) more.1) [
              | inl (f, y, hf, same') ↦ inl (
                f,
                acquire_pages-cons c d id ids done x ∙ y,
                Holds-cong (λ j. ap (λ l. count j l + held j) (append_assoc done (id ∷ []) ids)) hf,
                SameElse-trans same same',
              )
              | inr (e, f, y, hf, same') ↦
                  inr
                    (e, f, acquire_pages-cons c d id ids done x ∙ y, hf, SameElse-trans same same')
            ]
    ]
