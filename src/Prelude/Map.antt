-- ===== src/Prelude/Map.antt =====
-- std::map and std::unordered_map with 64-bit keys: an association list. A key is written once; the
-- order of the entries stands for an order of iteration that the program does not choose.
use Prim.Native.Nat.{ℕ, ◌+◌, ◌≤◌}
use mathlib.Core.Path.{◌≡◌, refl}
use mathlib.Core.Logic.{◌≢◌, inl, inr}
use mathlib.Core.Bool.{Bool, false}
use mathlib.Core.Option.{Option, none, some}
use mathlib.Core.List.{List, [], ◌∷◌}
use native.Mathlib.Omega.{arith}
use chromo_fold.Prelude.Tests.{◌==◌, if◌then◌else◌, is_some, Bool-cases, ==→eq, ==→ne}

abbrev pub Map {ℓ} : Type ℓ → Type ℓ
Map V = List (ℕ × V)

module _ {ℓ} {V : Type ℓ} where
  unfoldable pub find : ℕ → Map V → Option V
  find k [] = none
  find k ((j, v) ∷ m) = if j == k then some v else find k m

  -- m.count(k) != 0
  abbrev pub contains : ℕ → Map V → Bool
  contains k m = is_some (find k m)

  -- m.emplace(k, v): a key that is there keeps its value.
  unfoldable pub emplace : ℕ → V → Map V → Map V
  emplace k v m = if contains k m then m else (k, v) ∷ m

  -- it->second = v, at the iterator of k
  unfoldable pub assign : ℕ → V → Map V → Map V
  assign k v [] = []
  assign k v ((j, w) ∷ m) = if j == k then (k, v) ∷ m else (j, w) ∷ assign k v m

  -- m[k] = v
  abbrev pub upsert : ℕ → V → Map V → Map V
  upsert k v m = if contains k m then assign k v m else emplace k v m

  -- m.erase(k)
  unfoldable pub erase : ℕ → Map V → Map V
  erase k [] = []
  erase k ((j, w) ∷ m) = if j == k then m else (j, w) ∷ erase k m

  -- The sum of a measure over the values.
  unfoldable pub total : (V → ℕ) → Map V → ℕ
  total f [] = 0
  total f ((j, w) ∷ m) = f w + total f m

  abbrev pub IsDistinct : Map V → Type 0
  IsDistinct [] = Unit {0}
  IsDistinct ((j, w) ∷ m) = (contains j m ≡ false) × IsDistinct m

  pub find-assign :
      (k j : ℕ) (v : V) (m : Map V)
      → find j (assign k v m)
        ≡ (if k == j then (if contains k m then some v else none) else find j m)
  unfolding find assign
  find-assign k j v [] = ground arith
  find-assign k j v ((i, w) ∷ m) = ground (arith, find-assign k j v m)

  pub find-emplace :
      (k j : ℕ) (v : V) (m : Map V)
      → contains k m ≡ false
      → find j (emplace k v m) ≡ (if k == j then some v else find j m)
  unfolding find emplace
  find-emplace k j v m h = ground arith

  pub find-erase_ne : (k j : ℕ) (m : Map V) → k ≢ j → find j (erase k m) ≡ find j m
  unfolding find erase
  find-erase_ne k j [] h = refl
  find-erase_ne k j ((i, w) ∷ m) h = ground (arith, find-erase_ne k j m h)

  pub find-erase_self : (k : ℕ) (m : Map V) → IsDistinct m → find k (erase k m) ≡ none
  unfolding find erase
  find-erase_self k [] d = refl
  find-erase_self k ((i, w) ∷ m) d = ground (arith, find-erase_self k m d.1)

  pub find-erase :
      (k j : ℕ) (m : Map V)
      → IsDistinct m
      → find j (erase k m) ≡ (if k == j then none else find j m)
  find-erase k j m d = elim (Bool-cases (k == j)) [
    | inl e ↦ rw (e, ← ==→eq k j e) (find-erase_self k m d)
    | inr e ↦ rw e (find-erase_ne k j m (==→ne k j e))
  ]

  pub contains-assign : (k j : ℕ) (v : V) (m : Map V) → contains j (assign k v m) ≡ contains j m
  contains-assign k j v m = ground (arith, find-assign k j v m)

  pub assign-IsDistinct : (k : ℕ) (v : V) (m : Map V) → IsDistinct m → IsDistinct (assign k v m)
  unfolding assign
  assign-IsDistinct k v [] d = tt
  assign-IsDistinct k v ((i, w) ∷ m) d =
      ground (arith, assign-IsDistinct k v m d.1, contains-assign k i v m)

  pub emplace-IsDistinct : (k : ℕ) (v : V) (m : Map V) → IsDistinct m → IsDistinct (emplace k v m)
  unfolding emplace
  emplace-IsDistinct k v m d = ground arith

  pub erase-IsDistinct : (k : ℕ) (m : Map V) → IsDistinct m → IsDistinct (erase k m)
  unfolding erase
  erase-IsDistinct k [] d = tt
  erase-IsDistinct k ((i, w) ∷ m) d = ground (arith, erase-IsDistinct k m d.1, find-erase_ne k i m)

  pub total-assign :
      (f : V → ℕ) (k : ℕ) (v w : V) (m : Map V)
      → find k m ≡ some w
      → total f (assign k v m) + f w ≡ total f m + f v
  unfolding find assign total
  total-assign f k v w [] h = ground arith
  total-assign f k v w ((i, x) ∷ m) h = ground (arith, total-assign f k v w m)

  pub total-erase :
      (f : V → ℕ) (k : ℕ) (w : V) (m : Map V)
      → find k m ≡ some w
      → total f (erase k m) + f w ≡ total f m
  unfolding find erase total
  total-erase f k w [] h = ground arith
  total-erase f k w ((i, x) ∷ m) h = ground (arith, total-erase f k w m)

  pub total-emplace :
      (f : V → ℕ) (k : ℕ) (v : V) (m : Map V)
      → contains k m ≡ false
      → total f (emplace k v m) ≡ f v + total f m
  unfolding emplace total
  total-emplace f k v m h = ground arith

  pub le-total : (f : V → ℕ) (k : ℕ) (w : V) (m : Map V) → find k m ≡ some w → f w ≤ total f m
  le-total f k w m h = omega (arith, total-erase f k w m h)

  pub total_zero :
      (f : V → ℕ) (m : Map V)
      → IsDistinct m
      → ((k : ℕ) (v : V) → find k m ≡ some v → f v ≡ 0)
      → total f m ≡ 0
  unfolding find total
  total_zero f [] d h = refl
  total_zero f ((j, w) ∷ m) d h =
      omega (arith, h j w (ground arith), total_zero f m d.1 (λ k v e. h k v (ground arith)))

  -- A field that an assignment keeps has the same total.
  pub total-assign_same :
      (f : V → ℕ) (k : ℕ) (v w : V) (m : Map V)
      → find k m ≡ some w
      → f v ≡ f w
      → total f (assign k v m) ≡ total f m
  total-assign_same f k v w m h e = omega (arith, total-assign f k v w m h)

  pub erase-missing : (k : ℕ) (m : Map V) → find k m ≡ none → erase k m ≡ m
  unfolding find erase
  erase-missing k [] h = refl
  erase-missing k ((j, w) ∷ m) h = elim (Bool-cases (j == k)) [
    | inl hit ↦ absurd (ground arith)
    | inr miss ↦ rw (miss, erase-missing k m (ground arith)) refl
  ]
