-- ===== src/Prelude/Bits/Masks.antt =====
-- Words under a mask of low or high ones.
use mpgc.Prelude.Bits.{bit_and-le}
use mpgc.Prelude.Bits.Step.{bit_and_step}
use Prim.Native.Nat.{ℕ, zero, suc, ◌-◌, ◌*◌, ◌/◌, ◌%◌, ◌^◌, ◌≤◌, ◌<◌, bit_and}
use mathlib.Core.Path.{◌≡◌, ap, sym, ◌∙◌}
use native.Mathlib.Nat.{pow-suc, pow-succ', mul_left_comm, one-le-pow, div-div-eq-div-mul}
use native.Mathlib.Omega.{arith}

bit_and-ones : (w x : ℕ) → x < 2 ^ w → bit_and x (2 ^ w - 1) ≡ x
bit_and-ones zero x h = omega (arith, bit_and-le 0 x 0 h)
bit_and-ones (suc w) x h =
    let half : (2 ^ suc w - 1) / 2 ≡ 2 ^ w - 1 = omega (arith, pow-suc 2 w, one-le-pow 2 w) in
    let odd : (2 ^ suc w - 1) % 2 ≡ 1 = omega (arith, pow-suc 2 w, one-le-pow 2 w) in
    omega (
      arith,
      bit_and_step x (2 ^ suc w - 1),
      ap (bit_and (x / 2)) half,
      odd,
      bit_and-ones w (x / 2) (omega (arith, pow-suc 2 w)),
    )

pub bit_and-high : (k w x : ℕ) → k ≤ w → x < 2 ^ w → bit_and x (2 ^ w - 2 ^ k) ≡ x / 2 ^ k * 2 ^ k
bit_and-high zero w x le h = omega (arith, bit_and-ones w x h)
bit_and-high (suc k) zero x le h = absurd (omega arith)
bit_and-high (suc k) (suc w) x le h =
    let half : (2 ^ suc w - 2 ^ suc k) / 2 ≡ 2 ^ w - 2 ^ k =
      omega (arith, pow-suc 2 w, pow-suc 2 k) in
    let even : (2 ^ suc w - 2 ^ suc k) % 2 ≡ 0 = omega (arith, pow-suc 2 w, pow-suc 2 k) in
    let twice : x / 2 / 2 ^ k * 2 ^ suc k ≡ 2 * (x / 2 / 2 ^ k * 2 ^ k) =
      ap (λ n. x / 2 / 2 ^ k * n) (pow-succ' 2 k) ∙ mul_left_comm (x / 2 / 2 ^ k) 2 (2 ^ k) in
    let quot : x / 2 / 2 ^ k ≡ x / 2 ^ suc k =
      div-div-eq-div-mul x 2 (2 ^ k) ∙ ap (λ n. x / n) (sym (pow-succ' 2 k)) in
    let rest : bit_and (x / 2) (2 ^ w - 2 ^ k) ≡ x / 2 / 2 ^ k * 2 ^ k =
      bit_and-high k w (x / 2) (omega arith) (omega (arith, pow-suc 2 w)) in
    rw (← quot, twice)
      (omega (arith, bit_and_step x (2 ^ suc w - 2 ^ suc k), ap (bit_and (x / 2)) half, even, rest))
