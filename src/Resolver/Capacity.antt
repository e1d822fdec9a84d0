-- ===== src/Resolver/Capacity.antt =====
-- The descriptor tables of src/cuda/multisequence_cuda_resolver.cu: the loop that doubles a capacity
-- ends, and there is room for the references.
use native.Mathlib.Nat.{pow-suc}
use chromo_fold.Prelude.{
  ℕ, zero, suc, ◌*◌, ◌%◌, ◌^◌, ◌≤◌, ◌<◌, length, ltb, Bool-cases, inl, inr, ◌≡◌, arith,
}
use chromo_fold.Prelude.Words.{mul32, u32_mod}
use chromo_fold.Resolver.Types.{LayerState}
use chromo_fold.Resolver.Device.{grow, new_capacity}

-- With fuel for the doublings, the loop stops above the size, or where it began, on a number of
-- 32 bits.
doubles : (fuel capacity : ℕ) → capacity * 2 * 2 ^ fuel ≡ capacity * 2 ^ suc fuel
doubles fuel capacity = grind (arith, pow-suc 2 fuel)

grow_enough :
    (fuel capacity size : ℕ)
    → 1 ≤ capacity
    → capacity < u32_mod
    → size ≤ 2147483648
    → size ≤ capacity * 2 ^ fuel
    → (size ≤ grow fuel capacity size) × (grow fuel capacity size < u32_mod)
unfolding grow mul32
grow_enough zero capacity size a c h e = (omega arith, c)
grow_enough (suc fuel) capacity size a c h e = elim (Bool-cases (ltb capacity size)) [
  | inr t ↦ rw t (ground arith, c)
  | inl t ↦
      let small : capacity * 2 % u32_mod ≡ capacity * 2 = ground arith in
      rw t (
        grow_enough fuel (capacity * 2 % u32_mod) size (ground arith) (omega arith) h
          (ground (arith, doubles fuel capacity, small)))
]

-- For at most 2^31 references and a capacity of 32 bits, the doubling loop ends: the capacity has
-- room for the references, and 32 bits.
pub new_capacity_enough :
    (l : LayerState)
    → l.descriptor_capacity < u32_mod
    → length l.pages ≤ 2147483648
    → (length l.pages ≤ new_capacity l) × (new_capacity l < u32_mod)
unfolding new_capacity mul32
new_capacity_enough l c h =
    grow_enough 32 _ (length l.pages) (ground arith) (ground arith) h (ground arith)
