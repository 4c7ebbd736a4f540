-- ===== src/OffsetPtr/Values.antt =====
-- The words that stand for the addresses of a heap (include/mpgc/offset_ptr.h).
use mpgc.Prelude.{ℕ, ◌+◌, ◌-◌, ◌*◌, ◌/◌, ◌%◌, ◌^◌, ◌≤◌, ◌<◌, ◌≡◌, ap, arith, ◌==◌, ltb}
use mpgc.Descriptor.Field.{replace}
use mpgc.OffsetPtr.Defs.{
  initialize, ptr_type_fld, used_val, is_null, is_signature_valid, remove_special_bits, is_weak,
  is_strong, compute_val, is_inside_heap,
}
use mpgc.OffsetPtr.Parts.{used_val_lem, bit_and-fifteen, decode-mod, decode_2bit-mod, replace-eq}

pub is_null_lem : (x : ℕ) → x < 2 ^ 64 → is_null x ≡ (x % 2 ^ 56 == 0)
unfolding is_null
is_null_lem x h = ap (λ u. u == 0) (used_val_lem x h)

pub is_signature_valid_lem : (x : ℕ) → x < 2 ^ 64 → is_signature_valid x ≡ (x / 2 ^ 52 % 16 == 10)
unfolding is_signature_valid
is_signature_valid_lem x h = ap (λ u. u == 10) (bit_and-fifteen (x / 2 ^ 52) (omega arith))

pub is_weak_lem : (x : ℕ) → x < 2 ^ 64 → is_weak x ≡ (x % 4 == 1)
unfolding is_weak
is_weak_lem x h = ap (λ u. u == 1) (decode_2bit-mod x h)

pub is_strong_lem : (x : ℕ) → x < 2 ^ 64 → is_strong x ≡ (x % 8 == 0)
unfolding is_strong
is_strong_lem x h = ap (λ u. u == 0) (decode-mod x h)

pub remove_special_bits_lem : (x : ℕ) → x < 2 ^ 64 → remove_special_bits x ≡ x / 8 * 8
unfolding remove_special_bits
remove_special_bits_lem x h = omega (arith, replace-eq x 0 h (omega arith))

module _ (base size : ℕ) where
  -- The address of a word of the heap.
  pub record InHeap (p : ℕ) : Type 0 where
    pub from : base ≤ p
    pub below : p < base + size
    pub aligned : (p - base) % 8 ≡ 0

-- The heap is at `base`, and has at most the bytes that an offset can name.
module _ (base size : ℕ) (positive : 0 < base) (fits : base + 2 ^ 52 < 2 ^ 64)
    (small : size ≤ 2 ^ 52) where
  pub compute_val_lem :
      (p : ℕ) → InHeap base size p → compute_val (initialize base size) p ≡ 10 * 2 ^ 52 + (p - base)
  unfolding compute_val initialize
  compute_val_lem p h = let from = h.from in let below = h.below in ground arith

  pub is_inside_heap_lem :
      (x : ℕ)
      → x < 2 ^ 64
      → x / 2 ^ 52 % 16 ≡ 10
      → is_inside_heap (initialize base size) x ≡ ltb (x % 2 ^ 52 / 8 * 8) size
  unfolding is_inside_heap initialize
  is_inside_heap_lem x h e =
      let u : used_val x ≡ 10 * 2 ^ 52 + x % 2 ^ 52 = omega (arith, used_val_lem x h) in
      let r : replace ptr_type_fld (used_val x) 0 ≡ 10 * 2 ^ 52 + x % 2 ^ 52 / 8 * 8 =
        omega (arith, u, replace-eq (used_val x) 0 (omega arith) (omega arith)) in
      rw r (ground arith)
