-- ===== src/Prelude/Xor.antt =====
-- Exclusive or on the native numbers, digit by digit, and the maps of words that lose nothing:
-- x ^ (x >> s), and the product with an odd number modulo 2^64.
use Prim.Native.Nat.{
  ℕ, zero, suc, ◌+◌, ◌*◌, ◌/◌, ◌%◌, ◌^◌, ◌≤◌, ◌<◌, bit_xor, bit_xor-bitwise, digits, differ,
}
use native.Mathlib.Nat.{pow-suc, div-div-eq-div-mul}
use mathlib.Core.Path.{◌≡◌, refl, sym, ap, ◌∙◌}
use native.Mathlib.Omega.{arith}
use mathlib.Core.Logic.{inl, inr}
use chromo_fold.Prelude.Tests.{◌==◌, Bool-cases, ==→ne}
use chromo_fold.Prelude.Words.{u64_mod, mul64}

abbrev xor_digits : ℕ → ℕ → ℕ → ℕ
xor_digits n a b = digits (λ b. b) differ n a b

xor_digits_fuel : (n m a b : ℕ) → a ≤ n → a ≤ m → xor_digits n a b ≡ xor_digits m a b
xor_digits_fuel zero zero zero b h k = refl
xor_digits_fuel zero (suc m) zero b h k = refl
xor_digits_fuel (suc n) zero zero b h k = refl
xor_digits_fuel (suc n) (suc m) zero b h k = refl
xor_digits_fuel zero m (suc a) b h k = absurd (omega arith)
xor_digits_fuel (suc n) zero (suc a) b h k = absurd (omega arith)
xor_digits_fuel (suc n) (suc m) (suc a) b h k =
    rw (xor_digits_fuel n m (suc a / 2) (b / 2) (omega arith) (omega arith))

differ_digits : (x y : ℕ) → x < 2 → y < 2 → differ x y ≡ (x + y) % 2
differ_digits zero y h k = omega arith
differ_digits (suc zero) zero h k = refl
differ_digits (suc zero) (suc zero) h k = refl
differ_digits (suc zero) (suc (suc y)) h k = absurd (omega arith)
differ_digits (suc (suc x)) y h k = absurd (omega arith)

bit_xor_step : (a b : ℕ) → bit_xor a b ≡ bit_xor (a / 2) (b / 2) * 2 + (a + b) % 2
bit_xor_step zero b = omega (arith, bit_xor-bitwise 0 b, bit_xor-bitwise 0 (b / 2))
bit_xor_step (suc a) b = omega (
  arith,
  bit_xor-bitwise (suc a) b,
  bit_xor-bitwise (suc a / 2) (b / 2),
  xor_digits_fuel a (suc a / 2) (suc a / 2) (b / 2) (omega arith) (omega arith),
  differ_digits (suc a % 2) (b % 2) (omega arith) (omega arith),
)

cancel_fuel : (n a b c : ℕ) → a + b ≤ n → bit_xor a c ≡ bit_xor b c → a ≡ b
cancel_fuel zero a b c h e = omega arith
cancel_fuel (suc n) a b c h e = elim (Bool-cases (a + b == 0)) [
  | inl z ↦ ground arith
  | inr z ↦ omega (
    arith,
    bit_xor_step a c,
    bit_xor_step b c,
    cancel_fuel n (a / 2) (b / 2) (c / 2) (omega (arith, ==→ne (a + b) 0 z))
        (omega (arith, e, bit_xor_step a c, bit_xor_step b c)),
  )
]

-- Exclusive or with a number loses nothing, on the right and on the left.
pub bit_xor_cancel : (a b c : ℕ) → bit_xor a c ≡ bit_xor b c → a ≡ b
bit_xor_cancel a b c e = cancel_fuel (a + b) a b c (omega arith) e

comm_fuel : (n a b : ℕ) → a + b ≤ n → bit_xor a b ≡ bit_xor b a
comm_fuel zero a b h = grind arith
comm_fuel (suc n) a b h = elim (Bool-cases (a + b == 0)) [
  | inl z ↦ grind arith
  | inr z ↦ omega (
    arith,
    bit_xor_step a b,
    bit_xor_step b a,
    comm_fuel n (a / 2) (b / 2) (omega (arith, ==→ne (a + b) 0 z)),
  )
]

pub bit_xor_comm : (a b : ℕ) → bit_xor a b ≡ bit_xor b a
bit_xor_comm a b = comm_fuel (a + b) a b (omega arith)

-- A word stays a word.
pub bit_xor_fits : (w a b : ℕ) → a < 2 ^ w → b < 2 ^ w → bit_xor a b < 2 ^ w
bit_xor_fits zero a b h k = grind arith
bit_xor_fits (suc w) a b h k = omega (
  arith,
  bit_xor_step a b,
  pow-suc 2 w,
  bit_xor_fits w (a / 2) (b / 2) (omega (arith, pow-suc 2 w)) (omega (arith, pow-suc 2 w)),
)

twice : (d : ℕ) → d * 2 ≡ 2 * d
twice d = omega arith

halves_swap : (a d : ℕ) → a / 2 / d / 2 ≡ a / 2 / 2 / d
halves_swap a d =
    div-div-eq-div-mul (a / 2) d 2
    ∙ ap (λ (t : ℕ). a / 2 / t) (twice d)
    ∙ sym (div-div-eq-div-mul (a / 2) 2 d)

-- x ^ (x >> s) is one to one, where the shift divides by 2 * d.
shift_fuel : (n d a b : ℕ) → a + b ≤ n → bit_xor a (a / 2 / d) ≡ bit_xor b (b / 2 / d) → a ≡ b
shift_fuel zero d a b h e = omega arith
shift_fuel (suc n) d a b h e = elim (Bool-cases (a + b == 0)) [
  | inl z ↦ grind arith
  | inr z ↦
      let halves : a / 2 ≡ b / 2 =
        shift_fuel n d (a / 2) (b / 2) (omega (arith, ==→ne (a + b) 0 z)) (
          rw (← halves_swap a d, ← halves_swap b d)
            (omega (arith, e, bit_xor_step a (a / 2 / d), bit_xor_step b (b / 2 / d)))) in
      omega (
        arith,
        halves,
        ap (λ (t : ℕ). t / d) halves,
        e,
        bit_xor_step a (a / 2 / d),
        bit_xor_step b (b / 2 / d),
      )
]

pub bit_xor_shift : (d a b : ℕ) → bit_xor a (a / 2 / d) ≡ bit_xor b (b / 2 / d) → a ≡ b
bit_xor_shift d a b e = shift_fuel (a + b) d a b (omega arith) e

-- Two odd numbers, by whose products a word can be told.
pub mul64_cancel_first :
    (x y : ℕ)
    → x < u64_mod
    → y < u64_mod
    → mul64 x 13787848793156543929 ≡ mul64 y 13787848793156543929
    → x ≡ y
unfolding mul64
mul64_cancel_first x y hx hy e = omega arith

pub mul64_cancel_second :
    (x y : ℕ)
    → x < u64_mod
    → y < u64_mod
    → mul64 x 10723151780598845931 ≡ mul64 y 10723151780598845931
    → x ≡ y
unfolding mul64
mul64_cancel_second x y hx hy e = omega arith
