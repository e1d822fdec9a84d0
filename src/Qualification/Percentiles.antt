-- ===== src/Qualification/Percentiles.antt =====
-- The 95th percentile of src/qualification.cpp: a value that 95 of 100 do not exceed.
use chromo_fold.Prelude.{
  ℕ, zero, suc, ◌+◌, ◌-◌, ◌*◌, ◌≤◌, ◌<◌, Bool, true, ◌||◌, List, [], ◌∷◌, min, leb, ◌==◌,
  if◌then◌else◌, length, elem, All, ◌≡◌, ◌≢◌, refl, sym, ap, ◌∙◌, arith, Bool-cases, inl, inr,
  ==→eq,
}
use chromo_fold.Prelude.Words.{sub64}
use chromo_fold.Qualification.Types.{Double}
use chromo_fold.Qualification.Evaluate.{place, sort, at, percentile95}

-- How many values do not exceed a bound.
abbrev pub count_le : ℕ → List ℕ → ℕ
count_le v [] = 0
count_le v (x ∷ xs) = (if leb x v then 1 else 0) + count_le v xs

abbrev IsSorted : List ℕ → Type 0
IsSorted [] = Unit {0}
IsSorted (x ∷ xs) = All (λ (y : ℕ). x ≤ y) xs × IsSorted xs

weaken : (a b : ℕ) (xs : List ℕ) → a ≤ b → All (λ (y : ℕ). b ≤ y) xs → All (λ (y : ℕ). a ≤ y) xs
weaken a b [] h k = tt
weaken a b (x ∷ xs) h k = (omega arith, weaken a b xs h k.1)

place-All :
    (a v : ℕ) (xs : List ℕ)
    → a ≤ v
    → All (λ (y : ℕ). a ≤ y) xs
    → All (λ (y : ℕ). a ≤ y) (place v xs)
unfolding place
place-All a v [] h k = (h, tt)
place-All a v (x ∷ xs) h k = elim (Bool-cases (leb v x)) [
  | inl t ↦ rw t (h, k)
  | inr t ↦ rw t (k.0, place-All a v xs h k.1)
]

place-IsSorted : (v : ℕ) (xs : List ℕ) → IsSorted xs → IsSorted (place v xs)
unfolding place
place-IsSorted v [] h = (tt, tt)
place-IsSorted v (x ∷ xs) h = elim (Bool-cases (leb v x)) [
  | inl t ↦ rw t ((ground arith, weaken v x xs (ground arith) h.0), h)
  | inr t ↦ rw t (place-All x v xs (ground arith) h.0, place-IsSorted v xs h.1)
]

sort-IsSorted : (xs : List ℕ) → IsSorted (sort xs)
unfolding sort
sort-IsSorted [] = tt
sort-IsSorted (x ∷ xs) = place-IsSorted x (sort xs) (sort-IsSorted xs)

length-place : (v : ℕ) (xs : List ℕ) → length (place v xs) ≡ suc (length xs)
unfolding place
length-place v [] = refl
length-place v (x ∷ xs) = ground (arith, length-place v xs)

length-sort : (xs : List ℕ) → length (sort xs) ≡ length xs
unfolding sort
length-sort [] = refl
length-sort (x ∷ xs) = length-place x (sort xs) ∙ ap suc (length-sort xs)

count_le-place :
    (b v : ℕ) (xs : List ℕ) → count_le b (place v xs) ≡ (if leb v b then 1 else 0) + count_le b xs
unfolding place
count_le-place b v [] = refl
count_le-place b v (x ∷ xs) = ground (arith, count_le-place b v xs)

count_le-sort : (b : ℕ) (xs : List ℕ) → count_le b (sort xs) ≡ count_le b xs
unfolding sort
count_le-sort b [] = refl
count_le-sort b (x ∷ xs) = omega (arith, count_le-place b x (sort xs), count_le-sort b xs)

elem-place : (b v : ℕ) (xs : List ℕ) → elem b (place v xs) ≡ (v == b || elem b xs)
unfolding place
elem-place b v [] = refl
elem-place b v (x ∷ xs) = ground (arith, elem-place b v xs)

elem-sort : (b : ℕ) (xs : List ℕ) → elem b (sort xs) ≡ elem b xs
unfolding sort
elem-sort b [] = refl
elem-sort b (x ∷ xs) = elem-place b x (sort xs) ∙ ap (λ (t : Bool). x == b || t) (elem-sort b xs)

-- In a sorted list the values up to an index do not exceed the one there.
at-elem : (xs : List ℕ) (i : ℕ) → i < length xs → elem (at xs i) xs ≡ true
unfolding at
at-elem [] i h = absurd (omega arith)
at-elem (x ∷ xs) zero h = ground arith
at-elem (x ∷ xs) (suc i) h = ground (arith, at-elem xs i (omega arith))

at-All : (a : ℕ) (xs : List ℕ) (i : ℕ) → i < length xs → All (λ (y : ℕ). a ≤ y) xs → a ≤ at xs i
unfolding at
at-All a [] i h k = absurd (omega arith)
at-All a (x ∷ xs) zero h k = k.0
at-All a (x ∷ xs) (suc i) h k = at-All a xs i (omega arith) k.1

at-count_le : (xs : List ℕ) (i : ℕ) → i < length xs → IsSorted xs → suc i ≤ count_le (at xs i) xs
unfolding at
at-count_le [] i h s = absurd (omega arith)
at-count_le (x ∷ xs) zero h s = ground arith
at-count_le (x ∷ xs) (suc i) h s =
    ground (arith, at-count_le xs i (omega arith) s.1, at-All x xs i (omega arith) s.0)

-- What the code relies on: the rounded product is neither below 95 of 100 nor above all.
abbrev pub IsCeil95 : (ℕ → ℕ) → Type 0
IsCeil95 f = (n : ℕ) → n ≤ 4294967296 → (19 * n ≤ 20 * f n) × (f n ≤ n)

covers :
    (values : List ℕ) (i : ℕ)
    → i < length values
    → (elem (at (sort values) i) values ≡ true) × (suc i ≤ count_le (at (sort values) i) values)
covers values i h =
    let fits : i < length (sort values) = omega (arith, h, length-sort values) in
    (
      sym (elem-sort (at (sort values) i) values) ∙ at-elem (sort values) i fits,
      omega (
        arith,
        at-count_le (sort values) i fits (sort-IsSorted values),
        count_le-sort (at (sort values) i) values,
      ),
    )

index_fits :
    (c n : ℕ)
    → n ≢ 0
    → n ≤ 4294967296
    → 19 * n ≤ 20 * c
    → c ≤ n
    → (min (sub64 c 1) (n - 1) < n) × (suc (min (sub64 c 1) (n - 1)) ≡ c)
unfolding sub64
index_fits c n z m l u = ground arith

-- The 95th percentile of at most 2^32 values, and at least one, is one of them, and at least 95 of
-- 100 of the values do not exceed it, where the rounded product of the size and 0.95 is at least
-- 95 of 100 of the size and at most the size.
pub percentile95_covers :
    (d : Double) (values : List ℕ)
    → IsCeil95 d.ceil95
    → length values ≢ 0
    → length values ≤ 4294967296
    → (elem (percentile95 d values) values ≡ true)
      × (19 * length values ≤ 20 * count_le (percentile95 d values) values)
unfolding percentile95
percentile95_covers d values c n m = elim (Bool-cases (length values == 0)) [
  | inl t ↦ absurd (n (==→eq (length values) 0 t))
  | inr t ↦
      let (l, u) = c (length values) m in
      let (f, e) = index_fits (d.ceil95 (length values)) (length values) n m l u in
      let (h, k) = covers values (min (sub64 (d.ceil95 (length values)) 1) (length values - 1)) f in
      rw t (h, omega (arith, k, e, l))
]
