-- ===== src/OffsetPtr/Parts.antt =====
-- The parts of a pointer's word (include/mpgc/offset_ptr.h) as remainders and quotients.
use mpgc.Prelude.{
  ℕ, ◌+◌, ◌-◌, ◌*◌, ◌/◌, ◌%◌, ◌^◌, ◌≤◌, ◌<◌, bit_and, ◌≡◌, ◌≢◌, sym, ap, ◌∙◌, arith, dec_lt,
}
use native.Mathlib.Nat.{mod-lt, mod-le, one-le-pow}
use mpgc.Prelude.Bits.{
  complement, bit_and-le, test_bit, test_bit-and, test_bit-low, test_bit_of_lt, test_bit-le,
  test_bit-shift_right, test_bit-complement, test_bit-pow_self, test_bit-pow_ne,
}
use mpgc.Descriptor.Field.{decode, encode, replace}
use mpgc.Prelude.Bits.Digits.{eq_of_bits, test_bit-mod}
use mpgc.Descriptor.FieldBits.{decode_of_bits, test_bit-replace, replace-lt}
use mpgc.OffsetPtr.Defs.{
  ptr_type_fld, ptr_type_2bit_fld, used_val, offset_of, remove_sweep_assigned,
}

-- A mask of low ones takes the remainder.
bit_and-low : (k x : ℕ) → k ≤ 64 → x < 2 ^ 64 → bit_and x (2 ^ k - 1) ≡ x % 2 ^ k
bit_and-low k x le h =
    let less : x % 2 ^ k < 2 ^ k = mod-lt x (omega (arith, one-le-pow k 2)) in
    eq_of_bits 64 (bit_and x (2 ^ k - 1)) (x % 2 ^ k) (omega (arith, bit_and-le 64 x (2 ^ k - 1) h))
      (omega (arith, mod-le x (2 ^ k)))
      (λ i lt. elim (dec_lt i k) [
        | yes low ↦ omega (
          arith,
          test_bit-and x (2 ^ k - 1) i,
          test_bit-low k i low,
          test_bit-le x i,
          test_bit-mod k x i low,
        )
        | no high ↦ omega (
          arith,
          test_bit-and x (2 ^ k - 1) i,
          test_bit_of_lt k (2 ^ k - 1) i (omega (arith, one-le-pow k 2)) (omega arith),
          test_bit_of_lt k (x % 2 ^ k) i less (omega arith),
        )
      ])

pub used_val_lem : (x : ℕ) → x < 2 ^ 64 → used_val x ≡ x % 2 ^ 56
unfolding used_val
used_val_lem x h = bit_and-low 56 x (omega arith) h

pub offset_of_lem : (x : ℕ) → x < 2 ^ 64 → offset_of x ≡ x % 2 ^ 52
unfolding offset_of
offset_of_lem x h = bit_and-low 52 x (omega arith) h

pub bit_and-fifteen : (x : ℕ) → x < 2 ^ 64 → bit_and x 15 ≡ x % 16
bit_and-fifteen x h = bit_and-low 4 x (omega arith) h

-- The kind of a pointer is in the lowest bits of its word.
pub decode-mod : (x : ℕ) → x < 2 ^ 64 → decode ptr_type_fld x ≡ x % 8
decode-mod x h =
    decode_of_bits ptr_type_fld (omega arith) x (x % 8) h (omega arith)
      (λ i lt. let index : 0 + i ≡ i = omega arith in rw index (sym (test_bit-mod 3 x i lt)))

pub decode_2bit-mod : (x : ℕ) → x < 2 ^ 64 → decode ptr_type_2bit_fld x ≡ x % 4
decode_2bit-mod x h =
    decode_of_bits ptr_type_2bit_fld (omega arith) x (x % 4) h (omega arith)
      (λ i lt. let index : 0 + i ≡ i = omega arith in rw index (sym (test_bit-mod 2 x i lt)))

test_bit-sum_low : (q v i : ℕ) → v < 8 → i < 3 → test_bit (q * 8 + v) i ≡ test_bit v i
test_bit-sum_low q v i h lt =
    let same : (q * 8 + v) % 8 ≡ v % 8 = omega arith in
    sym (test_bit-mod 3 (q * 8 + v) i lt) ∙ ap (λ t. test_bit t i) same ∙ test_bit-mod 3 v i lt

test_bit-quotient : (x y i : ℕ) → x / 8 ≡ y / 8 → 3 ≤ i → test_bit x i ≡ test_bit y i
test_bit-quotient x y i e le =
    let index : 3 + (i - 3) ≡ i = omega arith in
    rw (← index) (
      sym (test_bit-shift_right 3 x (i - 3))
      ∙ ap (λ t. test_bit t (i - 3)) e
      ∙ test_bit-shift_right 3 y (i - 3))

-- What is written there leaves the rest.
pub replace-eq : (x v : ℕ) → x < 2 ^ 64 → v < 8 → replace ptr_type_fld x v ≡ x / 8 * 8 + v
replace-eq x v h hv =
    eq_of_bits 64 (replace ptr_type_fld x v) (x / 8 * 8 + v)
      (replace-lt ptr_type_fld (omega arith) x v h) (omega arith)
      (λ i lt. elim (dec_lt i 3) [
        | yes low ↦ ground (
          arith,
          test_bit-replace ptr_type_fld (omega arith) x v i lt,
          test_bit-sum_low (x / 8) v i hv low,
        )
        | no high ↦
            let same : x / 8 ≡ (x / 8 * 8 + v) / 8 = omega arith in
            ground (
              arith,
              test_bit-replace ptr_type_fld (omega arith) x v i lt,
              test_bit-quotient x (x / 8 * 8 + v) i same (omega arith),
            )
      ])

-- Only the third bit is cleared.
pub test_bit-remove_sweep_assigned :
    (x i : ℕ)
    → i < 64
    → (i ≢ 2 → test_bit (remove_sweep_assigned x) i ≡ test_bit x i)
      × (test_bit (remove_sweep_assigned x) 2 ≡ 0)
unfolding remove_sweep_assigned encode
test_bit-remove_sweep_assigned x i lt =
    let cleared : (j : ℕ) → j < 64 → test_bit (complement 64 4) j ≡ 1 - test_bit (2 ^ 2) j =
      λ j lt. test_bit-complement 64 4 j (omega arith) lt in
    (
      λ ne. omega (
        arith,
        test_bit-and x (complement 64 4) i,
        cleared i lt,
        test_bit-pow_ne 2 i (λ e. ne (sym e)),
        test_bit-le x i,
      ),
      omega
          (arith, test_bit-and x (complement 64 4) 2, cleared 2 (omega arith), test_bit-pow_self 2),
    )
