-- ===== src/Distributed/Routing.antt =====
-- The routing of layers in src/distributed_runtime.cpp.
use chromo_fold.Prelude.{
  ℕ, zero, suc, ◌-◌, ◌*◌, ◌/◌, ◌%◌, ◌≤◌, ◌<◌, min, ◌≡◌, refl, ap, inl, inr, none, some, List, [],
  ◌∷◌, arith, ◌==◌, if◌then◌else◌, Bool-cases, length, get_elem?,
}
use native.Mathlib.Nat.{
  le-div_iff_mul-le, div-mul-le_self, mul-le-mul, mul-le-mul_right, mul-lt-mul_of_pos_right,
  div-lt_iff_lt-mul,
}
use chromo_fold.Prelude.Words.{mul64, u32_mod, u64_mod}
use chromo_fold.Distributed.Types.{DeviceDescriptor, Runtime, mode_single}
use chromo_fold.Distributed.Place.{layer_index, route_layer}

-- What a runtime from cf_distributed_create has, its counts being 32-bit numbers.
abbrev IsReady : Runtime → Type 0
IsReady r = (r.config.layer_count < u32_mod) × (0 < length r.devices) × (length r.devices < u32_mod)

get_elem?-lt {ℓ} :
    {A : Type ℓ} (l : List A) (i : ℕ) → i < length l → (a : A) × (get_elem? l i ≡ some a)
get_elem?-lt [] i h = absurd (omega arith)
get_elem?-lt (x ∷ l) zero h = (x, refl)
get_elem?-lt (x ∷ l) (suc i) h = get_elem?-lt l i (omega arith)

product-lt : (a b : ℕ) → a < u32_mod → b < u32_mod → a * b < u64_mod
product-lt a b h k = omega (
  arith,
  mul-le-mul {n₁ = a} {m₁ = b} {n₂ = 4294967295} {m₂ = 4294967295} (omega arith) (omega arith),
)

scaled-lt : (a n l : ℕ) → a < l → 0 < n → a * n / l < n
scaled-lt a n l h more =
    (div-lt_iff_lt-mul (omega arith)).1 (omega (arith, mul-lt-mul_of_pos_right h more))

scaled_monotone : (a b n l : ℕ) → a ≤ b → 0 < l → a * n / l ≤ b * n / l
scaled_monotone a b n l le more =
    (le-div_iff_mul-le more).1 (omega (arith, div-mul-le_self (a * n) l, mul-le-mul_right n le))

-- On 32-bit counts with at least one device, the index of a layer of the model is below the number
-- of devices, and is the exact quotient, without wrap, or 0 on a single device.
layer_index_exact :
    (r : Runtime) (layer : ℕ)
    → IsReady r
    → layer < r.config.layer_count
    → (layer_index r layer < length r.devices)
      × (layer_index r layer ≡ (
          if r.config.mode == mode_single
          then 0
          else layer * length r.devices / r.config.layer_count))
unfolding layer_index mul64
layer_index_exact r layer ready h =
    let n = length r.devices in
    let small = product-lt layer n (omega arith) ready.2 in
    let below = scaled-lt layer n r.config.layer_count h ready.1 in
    let whole : mul64 layer n / r.config.layer_count ≡ layer * n / r.config.layer_count =
      ap (λ (x : ℕ). x / r.config.layer_count) (omega arith) in
    elim (Bool-cases (r.config.mode == mode_single)) [
      | inl one ↦ rw one (ready.1, refl)
      | inr many ↦ rw many (omega (arith, whole), omega (arith, whole))
    ]

-- On 32-bit counts with at least one device, a layer of the model is routed to the device at its
-- index, and no other layer is routed.
route_layer_lem :
    (r : Runtime) (layer : ℕ)
    → IsReady r
    → (r.config.layer_count ≤ layer → route_layer r layer ≡ none)
      × (layer < r.config.layer_count
          → (d : DeviceDescriptor) × (get_elem? r.devices (layer_index r layer) ≡ some d)
            × (route_layer r layer ≡ some d.ordinal))
unfolding route_layer
route_layer_lem r layer ready = (
  λ h. ground arith,
  λ h.
      let at = layer_index_exact r layer ready h in
      let found = get_elem?-lt r.devices (layer_index r layer) at.0 in
      let same : min (layer_index r layer) ((length r.devices - 1) % u32_mod)
          ≡ layer_index r layer =
        omega arith in
      (found.0, found.1, rw (same, found.1) (ground arith)),
)

-- On 32-bit counts with at least one device, a later layer of the model goes to no earlier device.
layer_index_monotone :
    (r : Runtime) (a b : ℕ)
    → IsReady r
    → a ≤ b
    → b < r.config.layer_count
    → layer_index r a ≤ layer_index r b
layer_index_monotone r a b ready le h =
    let n = length r.devices in
    let at = layer_index_exact r a ready (omega arith) in
    let bt = layer_index_exact r b ready h in
    let more = scaled_monotone a b n r.config.layer_count le (omega arith) in
    elim (Bool-cases (r.config.mode == mode_single)) [
      | inl one ↦ rw (at.1, bt.1, one) (omega arith)
      | inr many ↦ rw (at.1, bt.1, many) more
    ]
