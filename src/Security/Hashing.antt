-- ===== src/Security/Hashing.antt =====
-- What the hashes of src/security_release.cpp tell apart: mix64 is one to one on words, and so is
-- each turn of digest32.
use native.Mathlib.Nat.{pow-suc, div-le_self, div-div-eq-div-mul}
use mathlib.Core.List.{head-eq_of_cons-eq, tail-eq_of_cons-eq}
use chromo_fold.Prelude.{
  ℕ, zero, suc, ◌+◌, ◌*◌, ◌/◌, ◌^◌, ◌<◌, List, [], ◌∷◌, ◌++◌, ◌≡◌, refl, ap, sym, ◌∙◌, bit_xor,
  arith, All, set, length,
}
use chromo_fold.Prelude.Words.{mul64, u64_mod}
use chromo_fold.Prelude.Xor.{
  bit_xor_cancel, bit_xor_comm, bit_xor_fits, bit_xor_shift, mul64_cancel_first,
  mul64_cancel_second,
}
use chromo_fold.Security.Digest.{fold_bits, mix64, digest_state, le_bytes, digest_word}

abbrev pub IsWord : ℕ → Type 0
IsWord n = n < u64_mod

xor-IsWord : (a b : ℕ) → IsWord a → IsWord b → IsWord (bit_xor a b)
xor-IsWord a b h k = bit_xor_fits 64 a b h k

fold_bits-IsWord : (a s : ℕ) → IsWord a → IsWord (fold_bits a s)
fold_bits-IsWord a s h = xor-IsWord a (a / 2 ^ s) h (omega (arith, div-le_self a (2 ^ s)))

mul64-IsWord : (a b : ℕ) → IsWord (mul64 a b)
unfolding mul64
mul64-IsWord a b = omega arith

pub mix64-IsWord : (a : ℕ) → IsWord (mix64 a)
unfolding mix64
mix64-IsWord a = fold_bits-IsWord _ 31 (mul64-IsWord _ _)

two_pow : (d : ℕ) → 2 * 2 ^ d ≡ 2 ^ suc d
two_pow d = omega (arith, pow-suc 2 d)

shift_suc : (d a : ℕ) → a / 2 / 2 ^ d ≡ a / 2 ^ suc d
shift_suc d a = div-div-eq-div-mul a 2 (2 ^ d) ∙ ap (λ (t : ℕ). a / t) (two_pow d)

fold_cancel : (d a b : ℕ) → fold_bits a (suc d) ≡ fold_bits b (suc d) → a ≡ b
fold_cancel d a b e =
    bit_xor_shift (2 ^ d) a b
      (ap (bit_xor a) (shift_suc d a) ∙ e ∙ sym (ap (bit_xor b) (shift_suc d b)))

mix64_cancel : (a b : ℕ) → IsWord a → IsWord b → mix64 a ≡ mix64 b → a ≡ b
unfolding mix64
mix64_cancel a b h k e = fold_cancel 29 a b (
    mul64_cancel_first _ _ (fold_bits-IsWord a 30 h) (fold_bits-IsWord b 30 k) (
      fold_cancel 26 _ _ (
        mul64_cancel_second _ _ (fold_bits-IsWord _ 27 (mul64-IsWord _ _))
          (fold_bits-IsWord _ 27 (mul64-IsWord _ _)) (fold_cancel 30 _ _ e))))

turn : ℕ → ℕ → ℕ → ℕ
turn index state word = mix64 (bit_xor (bit_xor state word) index)

turn_state_cancel :
    (i w a b : ℕ) → IsWord i → IsWord w → IsWord a → IsWord b → turn i a w ≡ turn i b w → a ≡ b
unfolding turn
turn_state_cancel i w a b hi hw ha hb e = bit_xor_cancel a b w (
    bit_xor_cancel _ _ i (
      mix64_cancel _ _ (xor-IsWord _ i (xor-IsWord a w ha hw) hi)
        (xor-IsWord _ i (xor-IsWord b w hb hw) hi) e))

turn_word_cancel :
    (i a w v : ℕ) → IsWord i → IsWord a → IsWord w → IsWord v → turn i a w ≡ turn i a v → w ≡ v
unfolding turn
turn_word_cancel i a w v hi ha hw hv e = bit_xor_cancel w v a (
    bit_xor_comm w a
    ∙ bit_xor_cancel _ _ i (
        mix64_cancel _ _ (xor-IsWord _ i (xor-IsWord a w ha hw) hi)
          (xor-IsWord _ i (xor-IsWord a v ha hv) hi) e)
    ∙ bit_xor_comm a v)

turn-IsWord : (i a w : ℕ) → IsWord (turn i a w)
unfolding turn
turn-IsWord i a w = mix64-IsWord _

-- A state that differs before the words differs after them.
digest_state_cancel :
    (words : List ℕ) (i a b : ℕ)
    → All IsWord words
    → i + length words < u64_mod
    → IsWord a
    → IsWord b
    → digest_state i a words ≡ digest_state i b words
    → a ≡ b
unfolding digest_state turn
digest_state_cancel [] i a b hs hi ha hb e = e
digest_state_cancel (w ∷ words) i a b hs hi ha hb e =
    turn_state_cancel i w a b (omega arith) hs.0 ha hb (
      digest_state_cancel words (suc i) (turn i a w) (turn i b w) hs.1 (omega arith)
        (turn-IsWord i a w) (turn-IsWord i b w) e)

pub digest_state-IsWord : (words : List ℕ) (i a : ℕ) → IsWord a → IsWord (digest_state i a words)
unfolding digest_state turn
digest_state-IsWord [] i a h = h
digest_state-IsWord (w ∷ words) i a h = digest_state-IsWord words (suc i) _ (turn-IsWord i a w)

-- The state after the words tells a change of one of them.
pub digest_state-set :
    (words : List ℕ) (k v i a : ℕ)
    → All IsWord words
    → IsWord v
    → i + length words < u64_mod
    → IsWord a
    → digest_state i a words ≡ digest_state i a (set words k v)
    → words ≡ set words k v
unfolding digest_state turn
digest_state-set [] k v i a hs hv hi ha e = refl
digest_state-set (w ∷ words) zero v i a hs hv hi ha e =
    ap (λ (t : ℕ). t ∷ words)
      (turn_word_cancel i a w v (omega arith) ha hs.0 hv (
        digest_state_cancel words (suc i) (turn i a w) (turn i a v) hs.1 (omega arith)
          (turn-IsWord i a w) (turn-IsWord i a v) e))
digest_state-set (w ∷ words) (suc k) v i a hs hv hi ha e =
    ap (λ (t : List ℕ). w ∷ t)
      (digest_state-set words k v (suc i) (turn i a w) hs.1 hv (omega arith) (turn-IsWord i a w) e)

-- A number of n bytes can be told by them, whatever follows.
le_bytes_cancel :
    (n a b : ℕ) (xs ys : List ℕ)
    → a < 256 ^ n
    → b < 256 ^ n
    → le_bytes n a ++ xs ≡ le_bytes n b ++ ys
    → a ≡ b
unfolding le_bytes
le_bytes_cancel zero a b xs ys h k e = omega arith
le_bytes_cancel (suc n) a b xs ys h k e = omega (
  arith,
  head-eq_of_cons-eq e,
  le_bytes_cancel n (a / 256) (b / 256) xs ys (omega (arith, pow-suc 256 n))
      (omega (arith, pow-suc 256 n)) (tail-eq_of_cons-eq e),
)

pub digest_word_cancel :
    (a b : ℕ) (xs ys : List ℕ)
    → IsWord a
    → IsWord b
    → digest_word a 0 ++ xs ≡ digest_word b 0 ++ ys
    → a ≡ b
unfolding digest_word mul64
digest_word_cancel a b xs ys h k e = bit_xor_cancel a b 0 (
    mix64_cancel _ _ (xor-IsWord a 0 h (omega arith)) (xor-IsWord b 0 k (omega arith))
      (le_bytes_cancel 8 _ _ xs ys (mix64-IsWord _) (mix64-IsWord _) e))
