-- ===== src/Prelude/Bits/Step.antt =====
-- What `bit_or` and `bit_and` do to the lowest digits and to the rest. The native operations stand
-- for a recursion on digits with the first number for fuel; more fuel than that changes nothing.
use Prim.Native.Nat.{
  ℕ, zero, suc, ◌+◌, ◌*◌, ◌/◌, ◌%◌, ◌≤◌, min, max, digits, bit_and, bit_or, bit_and-bitwise,
  bit_or-bitwise,
}
use mathlib.Core.Path.{◌≡◌, refl, ◌∙◌}
use native.Mathlib.Omega.{arith}
use native.Mathlib.Decide.{ℕ_discrete}

module _ (rest : ℕ → ℕ) (op : ℕ → ℕ → ℕ) where
  one_more : (x y fuel : ℕ) → x ≤ fuel → digits rest op (suc fuel) x y ≡ digits rest op fuel x y
  one_more zero y zero h = refl
  one_more zero y (suc fuel) h = refl
  one_more (suc x) y zero h = absurd (omega arith)
  one_more (suc x) y (suc fuel) h = rw (one_more (suc x / 2) (y / 2) fuel (omega arith)) refl

  spare : (n x y fuel : ℕ) → x ≤ fuel → fuel ≤ n → digits rest op n x y ≡ digits rest op fuel x y
  spare zero x y zero h le = refl
  spare zero x y (suc fuel) h le = absurd (omega arith)
  spare (suc n) x y fuel h le = elim (ℕ_discrete fuel (suc n)) [
    | yes e ↦ rw e refl
    | no less ↦ one_more x y n (omega arith) ∙ spare n x y fuel h (omega arith)
  ]

  -- Half of `suc x` is fuel enough where the recursion has `x`.
  spare_half : (x y : ℕ) → digits rest op x (suc x / 2) y ≡ digits rest op (suc x / 2) (suc x / 2) y
  spare_half x y = spare x (suc x / 2) y (suc x / 2) (omega arith) (omega arith)

pub bit_and_step : (x y : ℕ) → bit_and x y ≡ min (x % 2) (y % 2) + 2 * bit_and (x / 2) (y / 2)
bit_and_step zero y = omega (arith, bit_and-bitwise 0 y, bit_and-bitwise 0 (y / 2))
bit_and_step (suc x) y =
    let whole = bit_and-bitwise (suc x) y in
    let half = bit_and-bitwise (suc x / 2) (y / 2) in
    omega (arith, whole, half, spare_half (λ _. 0) min x (y / 2))

pub bit_or_step : (x y : ℕ) → bit_or x y ≡ max (x % 2) (y % 2) + 2 * bit_or (x / 2) (y / 2)
bit_or_step zero y = omega (arith, bit_or-bitwise 0 y, bit_or-bitwise 0 (y / 2))
bit_or_step (suc x) y =
    let whole = bit_or-bitwise (suc x) y in
    let half = bit_or-bitwise (suc x / 2) (y / 2) in
    omega (arith, whole, half, spare_half (λ n. n) max x (y / 2))
