-- ===== src/OffsetPtr/Defs.antt =====
-- `base_offset_ptr` of include/mpgc/offset_ptr.h: an offset into the heap with a signature above it and
-- the kind of the pointer in its lowest bits. An address is a number of bytes, below 2 ^ 64; sums and
-- differences of addresses wrap around. A failed assertion is `none`.
use mpgc.Prelude.{
  ℕ, ◌+◌, ◌-◌, ◌/◌, ◌%◌, ◌^◌, bit_and, Bool, not, ◌&&◌, ◌||◌, ◌==◌, ltb, leb, if◌then◌else◌, Option,
  none, some,
}
use mpgc.Prelude.Bits.{complement}
use mpgc.Descriptor.Field.{Field, shift_left, decode, encode, replace}

-- `special_ptr_type`.
pub data SpecialPtrType : Type 0 where
  strong : SpecialPtrType
  weak : SpecialPtrType
  contingent : SpecialPtrType
  sweep_assigned_no_weak : SpecialPtrType
  sweep_assigned : SpecialPtrType

abbrev pub bits_of : SpecialPtrType → ℕ
bits_of strong = 0
bits_of weak = 1
bits_of contingent = 2
bits_of sweep_assigned_no_weak = 4
bits_of sweep_assigned = 5

-- `_offset_bits`, `_signature_bits`, `_signature` and `_signature_mask`.
abbrev pub offset_bits : ℕ
offset_bits = 52

abbrev pub signature_bits : ℕ
signature_bits = 4

abbrev pub signature_digit : ℕ
signature_digit = 10

abbrev pub signature_mask : ℕ
signature_mask = 15

abbrev pub ptr_type_fld : Field
ptr_type_fld = record { shift = 0; width = 3 }

abbrev pub ptr_type_2bit_fld : Field
ptr_type_2bit_fld = record { shift = 0; width = 2 }

-- `_real_base`, `_signed_base`, `_heap_end` and `_heap_size`.
pub record Heap : Type 0 where
  pub real_base : ℕ
  pub signed_base : ℕ
  pub heap_end : ℕ
  pub heap_size : ℕ

abbrev pub signature : ℕ
signature = shift_left signature_digit offset_bits

abbrev pub used_bits : ℕ
used_bits = offset_bits + signature_bits

abbrev pub used_mask : ℕ
used_mask = shift_left 1 used_bits - 1

abbrev pub offset_mask : ℕ
offset_mask = shift_left 1 offset_bits - 1

-- `a - b` and `a + b` on addresses.
abbrev pub minus : ℕ → ℕ → ℕ
minus a b = (a + 2 ^ 64 - b) % 2 ^ 64

abbrev pub plus : ℕ → ℕ → ℕ
plus a b = (a + b) % 2 ^ 64

unfoldable pub initialize : ℕ → ℕ → Heap
initialize p size = record {
  real_base = p;
  signed_base = minus p signature;
  heap_end = plus p size;
  heap_size = size;
}

unfoldable pub used_val : ℕ → ℕ
used_val offset = bit_and offset used_mask

unfoldable pub is_null : ℕ → Bool
unfolding used_val
is_null offset = used_val offset == 0

-- `offset()`.
unfoldable pub offset_of : ℕ → ℕ
offset_of offset = bit_and offset offset_mask

unfoldable pub is_signature_valid : ℕ → Bool
is_signature_valid offset = bit_and (offset / 2 ^ offset_bits) signature_mask == signature_digit

unfoldable pub remove_special_bits : ℕ → ℕ
remove_special_bits offset = replace ptr_type_fld offset (bits_of strong)

-- The third bit is left aside.
unfoldable pub is_weak : ℕ → Bool
is_weak offset = decode ptr_type_2bit_fld offset == bits_of weak

unfoldable pub is_contingent : ℕ → Bool
is_contingent offset = decode ptr_type_fld offset == bits_of contingent

unfoldable pub is_sweep_assigned : ℕ → Bool
is_sweep_assigned offset = decode ptr_type_fld offset == bits_of sweep_assigned

unfoldable pub is_strong : ℕ → Bool
is_strong offset = decode ptr_type_fld offset == bits_of strong

-- The word that `set_sweep_assigned(other)` and `set_weak_assigned(other)` assign.
unfoldable pub set_sweep_assigned : ℕ → ℕ
set_sweep_assigned other = replace ptr_type_fld other (bits_of sweep_assigned)

unfoldable pub set_weak_assigned : ℕ → ℕ
set_weak_assigned other = replace ptr_type_fld other (bits_of weak)

unfoldable pub remove_sweep_assigned : ℕ → ℕ
remove_sweep_assigned offset =
    bit_and offset (complement 64 (encode ptr_type_fld (bits_of sweep_assigned_no_weak)))

-- The compare and exchange on the word `offset`: its answer, and the word afterwards.
unfoldable pub atomic_remove_sweep_assigned : ℕ → ℕ → Bool × ℕ
unfolding remove_sweep_assigned
atomic_remove_sweep_assigned exp offset =
    let exchanged = remove_sweep_assigned exp in
    (offset == exp, if offset == exp then exchanged else offset)

module _ (h : Heap) where
  -- `compute_val`; a null pointer is the address 0.
  unfoldable pub compute_val : ℕ → ℕ
  compute_val p = if p == 0 then 0 else minus p h.signed_base

  unfoldable pub is_inside_heap : ℕ → Bool
  unfolding used_val
  is_inside_heap offset =
      ltb (plus h.signed_base (replace ptr_type_fld (used_val offset) (bits_of strong))) h.heap_end

  -- `is_valid(uint8_t *p)`.
  unfoldable pub is_heap_address : ℕ → Bool
  is_heap_address p = leb h.real_base p && ltb p h.heap_end

  unfoldable pub is_ok : ℕ → Bool
  unfolding is_null is_signature_valid is_inside_heap
  is_ok offset = is_null offset || (is_signature_valid offset && is_inside_heap offset)

  -- The member `is_valid()`.
  unfoldable pub is_valid : ℕ → Bool
  unfolding is_signature_valid is_inside_heap
  is_valid offset = not (offset == 0) && (is_signature_valid offset && is_inside_heap offset)

  unfoldable pub could_be_offset_ptr : ℕ → Bool
  unfolding is_signature_valid is_inside_heap
  could_be_offset_ptr offset = is_signature_valid offset && is_inside_heap offset

  unfoldable pub as_bare_pointer : ℕ → Option ℕ
  unfolding is_null is_signature_valid is_weak used_val
  as_bare_pointer offset =
      if is_null offset || (is_signature_valid offset && not (is_weak offset))
      then some (if is_null offset then 0 else plus h.signed_base (used_val offset))
      else none

  unfoldable pub is_equal : ℕ → ℕ → Bool
  unfolding is_null used_val
  is_equal offset rhs =
      if rhs == 0 then is_null offset else minus rhs h.signed_base == used_val offset

  unfoldable pub checked_offset : ℕ → Option ℕ
  unfolding is_ok
  checked_offset o = if is_ok o then some o else none
