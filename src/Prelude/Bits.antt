-- ===== src/Prelude/Bits.antt =====
-- Single bits of a machine word, and how `|`, `&` and `~` act on them, at every width.
mod Step
pub mod Masks
pub mod Digits
use Step.{bit_or_step, bit_and_step}
use native.Mathlib.Nat.{pow-suc, pow-succ', one-le-pow, div-div-eq-div-mul}
use Prim.Native.Nat.{
  ℕ, zero, suc, ◌+◌, ◌-◌, ◌*◌, ◌/◌, ◌%◌, ◌^◌, ◌≤◌, ◌<◌, bit_and, bit_or, min, max,
}
use Prim.Native.Nat.{bit_and-bitwise}
use mathlib.Core.Path.{◌≡◌, refl, ap, ap₂, sym, subst}
use mathlib.Core.Logic.{◌≢◌}
use native.Mathlib.Omega.{arith}
use native.Mathlib.Decide.{ℕ_discrete}

-- Bit `i` of `a`, counted from the right.
unfoldable pub test_bit : ℕ → ℕ → ℕ
test_bit a zero = a % 2
test_bit a (suc i) = test_bit (a / 2) i

pub test_bit-le : (a i : ℕ) → test_bit a i ≤ 1
unfolding test_bit
test_bit-le a zero = omega arith
test_bit-le a (suc i) = test_bit-le (a / 2) i

pub test_bit-zero : (i : ℕ) → test_bit 0 i ≡ 0
unfolding test_bit
test_bit-zero zero = refl
test_bit-zero (suc i) = test_bit-zero i

pub test_bit-or : (a b i : ℕ) → test_bit (bit_or a b) i ≡ max (test_bit a i) (test_bit b i)
unfolding test_bit
test_bit-or a b zero = omega (arith, bit_or_step a b)
test_bit-or a b (suc i) =
    let half : bit_or a b / 2 ≡ bit_or (a / 2) (b / 2) = omega (arith, bit_or_step a b) in
    rw half (test_bit-or (a / 2) (b / 2) i)

pub test_bit-and : (a b i : ℕ) → test_bit (bit_and a b) i ≡ min (test_bit a i) (test_bit b i)
unfolding test_bit
test_bit-and a b zero = omega (arith, bit_and_step a b)
test_bit-and a b (suc i) =
    let half : bit_and a b / 2 ≡ bit_and (a / 2) (b / 2) = omega (arith, bit_and_step a b) in
    rw half (test_bit-and (a / 2) (b / 2) i)

half-pow : (k : ℕ) → 2 ^ suc k / 2 ≡ 2 ^ k
half-pow k = omega (arith, pow-suc 2 k)

pub test_bit-pow_self : (k : ℕ) → test_bit (2 ^ k) k ≡ 1
unfolding test_bit
test_bit-pow_self zero = refl
test_bit-pow_self (suc k) = rw (half-pow k) (test_bit-pow_self k)

pub test_bit-pow_ne : (k i : ℕ) → k ≢ i → test_bit (2 ^ k) i ≡ 0
unfolding test_bit
test_bit-pow_ne zero zero h = absurd (h refl)
test_bit-pow_ne zero (suc i) h = test_bit-zero i
test_bit-pow_ne (suc k) zero h = omega (arith, pow-suc 2 k)
test_bit-pow_ne (suc k) (suc i) h = rw (half-pow k) (test_bit-pow_ne k i (λ e. h (ap suc e)))

-- The bits of `2 ^ k - 1` are those below `k`.
pub test_bit-low : (k i : ℕ) → i < k → test_bit (2 ^ k - 1) i ≡ 1
unfolding test_bit
test_bit-low zero i h = absurd (omega arith)
test_bit-low (suc k) zero h = omega (arith, pow-suc 2 k, one-le-pow k 2)
test_bit-low (suc k) (suc i) h =
    let half : (2 ^ suc k - 1) / 2 ≡ 2 ^ k - 1 = omega (arith, pow-suc 2 k, one-le-pow k 2) in
    rw half (test_bit-low k i (omega arith))

pub test_bit_of_lt : (k x i : ℕ) → x < 2 ^ k → k ≤ i → test_bit x i ≡ 0
unfolding test_bit
test_bit_of_lt zero x i h le = rw (small) (test_bit-zero i)
  where
    small : x ≡ 0
    small = omega arith
test_bit_of_lt (suc k) x zero h le = absurd (omega arith)
test_bit_of_lt (suc k) x (suc i) h le =
    test_bit_of_lt k (x / 2) i (omega (arith, pow-suc 2 k)) (omega arith)

-- The complement in a word of `k` bits.
abbrev pub complement : ℕ → ℕ → ℕ
complement k x = 2 ^ k - 1 - x

pub test_bit-complement :
    (k x i : ℕ) → x < 2 ^ k → i < k → test_bit (complement k x) i ≡ 1 - test_bit x i
unfolding test_bit
test_bit-complement zero x i h lt = absurd (omega arith)
test_bit-complement (suc k) x zero h lt = omega (arith, pow-suc 2 k)
test_bit-complement (suc k) x (suc i) h lt =
    let half : complement (suc k) x / 2 ≡ complement k (x / 2) = omega (arith, pow-suc 2 k) in
    rw half (test_bit-complement k (x / 2) i (omega (arith, pow-suc 2 k)) (omega arith))

-- A word is zero when none of its bits is set.
pub eq_zero_of_bits : (k x : ℕ) → x < 2 ^ k → ((i : ℕ) → i < k → test_bit x i ≡ 0) → x ≡ 0
unfolding test_bit
eq_zero_of_bits zero x h all = omega arith
eq_zero_of_bits (suc k) x h all =
    let half : x / 2 ≡ 0 =
      eq_zero_of_bits k (x / 2) (omega (arith, pow-suc 2 k)) (λ i lt. all (suc i) (omega arith)) in
    omega (arith, half, all 0 (omega arith))

pub bit_or-lt : (k a b : ℕ) → a < 2 ^ k → b < 2 ^ k → bit_or a b < 2 ^ k
bit_or-lt zero zero zero ha hb = omega arith
bit_or-lt zero zero (suc b) ha hb = absurd (omega arith)
bit_or-lt zero (suc a) b ha hb = absurd (omega arith)
bit_or-lt (suc k) a b ha hb = omega (
  arith,
  bit_or_step a b,
  pow-suc 2 k,
  bit_or-lt k (a / 2) (b / 2) (omega (arith, pow-suc 2 k)) (omega (arith, pow-suc 2 k)),
)

pub bit_and-le : (k a b : ℕ) → a < 2 ^ k → bit_and a b ≤ a
bit_and-le zero zero b h = rw (bit_and-bitwise 0 b) (omega arith)
bit_and-le zero (suc a) b h = absurd (omega arith)
bit_and-le (suc k) a b h =
    omega (arith, bit_and_step a b, bit_and-le k (a / 2) (b / 2) (omega (arith, pow-suc 2 k)))

-- `a & 2 ^ k` is zero exactly when bit `k` of `a` is.
pub bit_and-pow-eq-zero : (w k a : ℕ) → a < 2 ^ w → test_bit a k ≡ 0 → bit_and a (2 ^ k) ≡ 0
bit_and-pow-eq-zero w k a h z =
    eq_zero_of_bits w (bit_and a (2 ^ k)) (omega (arith, bit_and-le w a (2 ^ k) h)) λ i lt.
      elim (ℕ_discrete k i) [
        | yes e ↦ omega (arith, test_bit-and a (2 ^ k) i, subst (λ j. test_bit a j ≡ 0) e z)
        | no ne ↦ omega (arith, test_bit-and a (2 ^ k) i, test_bit-pow_ne k i ne)
      ]

pub bit_and-pow-ne-zero : (k a : ℕ) → test_bit a k ≡ 1 → bit_and a (2 ^ k) ≢ 0
bit_and-pow-ne-zero k a one e = omega (
  arith,
  test_bit-and a (2 ^ k) k,
  test_bit-pow_self k,
  ap (λ x. test_bit x k) e,
  test_bit-zero k,
)

-- A shift to the right by `k`.
pub test_bit-shift_right : (k x i : ℕ) → test_bit (x / 2 ^ k) i ≡ test_bit x (k + i)
unfolding test_bit
test_bit-shift_right zero x i =
    let whole : x / 2 ^ 0 ≡ x = omega arith in
    let index : 0 + i ≡ i = omega arith in rw (whole, index)
test_bit-shift_right (suc k) x i =
    let halved : x / 2 ^ suc k ≡ x / 2 / 2 ^ k =
      rw (pow-succ' 2 k) (sym (div-div-eq-div-mul x 2 (2 ^ k))) in
    let index : suc k + i ≡ suc (k + i) = omega arith in
    rw (halved, index) (test_bit-shift_right k (x / 2) i)
