-- ===== src/Prelude/Bits/Digits.antt =====
-- Bits of products, quotients and remainders by powers of 2; words are equal when their bits are.
use Prim.Native.Nat.{ℕ, zero, suc, ◌+◌, ◌*◌, ◌/◌, ◌%◌, ◌^◌, ◌<◌}
use mathlib.Core.Path.{◌≡◌, ap, sym, ◌∙◌}
use native.Mathlib.Omega.{arith}
use native.Mathlib.Nat.{
  pow-suc, one-le-pow, mod-lt, mod-add-div', add-mul-mod_self_right, mod-eq_of_lt,
}
use mpgc.Prelude.Bits.{test_bit}

pub test_bit-mul_pow : (s x i : ℕ) → test_bit (x * 2 ^ s) (s + i) ≡ test_bit x i
unfolding test_bit
test_bit-mul_pow zero x i =
    let whole : x * 2 ^ 0 ≡ x = omega arith in
    let index : 0 + i ≡ i = omega arith in rw (whole, index)
test_bit-mul_pow (suc s) x i =
    let half : x * 2 ^ suc s / 2 ≡ x * 2 ^ s = omega (arith, ap (λ (t : ℕ). x * t) (pow-suc 2 s)) in
    let index : suc s + i ≡ suc (s + i) = omega arith in
    rw index (ap (λ t. test_bit t (s + i)) half ∙ test_bit-mul_pow s x i)

pub test_bit-mul_pow_low : (s x i : ℕ) → i < s → test_bit (x * 2 ^ s) i ≡ 0
unfolding test_bit
test_bit-mul_pow_low zero x i h = absurd (omega arith)
test_bit-mul_pow_low (suc s) x zero h = omega (arith, ap (λ (t : ℕ). x * t) (pow-suc 2 s))
test_bit-mul_pow_low (suc s) x (suc i) h =
    let half : x * 2 ^ suc s / 2 ≡ x * 2 ^ s = omega (arith, ap (λ (t : ℕ). x * t) (pow-suc 2 s)) in
    rw half (test_bit-mul_pow_low s x i (omega arith))

module _ (w x : ℕ) where
  quotient : ℕ
  quotient = x / 2 ^ suc w

  remainder : ℕ
  remainder = x % 2 ^ suc w

  divided : remainder + quotient * 2 ^ w * 2 ≡ x
  unfolding quotient remainder
  divided =
      omega (arith, mod-add-div' x (2 ^ suc w), ap (λ (t : ℕ). x / 2 ^ suc w * t) (pow-suc 2 w))

  half_mod : x % 2 ^ suc w / 2 ≡ x / 2 % 2 ^ w
  unfolding remainder
  half_mod =
      let less : remainder < 2 ^ suc w = mod-lt x (omega (arith, one-le-pow (suc w) 2)) in
      let half : x / 2 ≡ remainder / 2 + quotient * 2 ^ w = omega (arith, divided) in
      sym (
        ap (λ t. t % 2 ^ w) half
        ∙ add-mul-mod_self_right (remainder / 2) quotient (2 ^ w)
        ∙ mod-eq_of_lt (omega (arith, less, pow-suc 2 w)))

  low_mod : x % 2 ^ suc w % 2 ≡ x % 2
  unfolding remainder
  low_mod = omega (arith, divided)

pub test_bit-mod : (w x i : ℕ) → i < w → test_bit (x % 2 ^ w) i ≡ test_bit x i
unfolding test_bit
test_bit-mod zero x i h = absurd (omega arith)
test_bit-mod (suc w) x zero h = low_mod w x
test_bit-mod (suc w) x (suc i) h = rw (half_mod w x) (test_bit-mod w (x / 2) i (omega arith))

-- Words are equal when their bits are.
pub eq_of_bits :
    (k a b : ℕ) → a < 2 ^ k → b < 2 ^ k → ((i : ℕ) → i < k → test_bit a i ≡ test_bit b i) → a ≡ b
unfolding test_bit
eq_of_bits zero a b ha hb all = omega arith
eq_of_bits (suc k) a b ha hb all =
    let half : a / 2 ≡ b / 2 =
      eq_of_bits k (a / 2) (b / 2) (omega (arith, pow-suc 2 k)) (omega (arith, pow-suc 2 k))
        (λ i lt. all (suc i) (omega arith)) in
    omega (arith, half, all 0 (omega arith))
