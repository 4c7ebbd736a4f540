-- ===== src/Descriptor/Header.antt =====
-- The low bits of a descriptor on the heap (include/mpgc/gc_desc.h): the check bits that say where it
-- stands, and the two flags of a cycle. An atomic operation is one step.
pub mod Frame
pub mod Laws
use mpgc.Prelude.{
  ℕ, ◌+◌, ◌-◌, ◌*◌, ◌/◌, ◌%◌, ◌^◌, bit_and, bit_or, Bool, true, false, not, ◌||◌, ◌==◌, leb,
  if◌then◌else◌, Option, none, some,
}
use mpgc.Prelude.Bits.{complement}
use mpgc.Descriptor.Field.{mask, max_val, decode_bool, encode, replace, encode_bool, replace_bool}
use mpgc.Descriptor.Defs.{
  check_bits_fld, is_compact_fld, is_array_fld, include_fields_fld, blob_size_fld,
  sweep_allocated_fld, in_control_map_fld, Cat, illegal, external, list, bitmap, category, is_array,
  n_fields, include_fields, blob_size,
}
use mpgc.Descriptor.Collector.{blob}

-- `p` is the offset of the descriptor in the heap.
abbrev pub check_bits_for : ℕ → ℕ
check_bits_for p = p / 2 ^ 3

abbrev pub is_compact : ℕ → Bool
is_compact rep = decode_bool is_compact_fld rep

-- The constructor that puts `other` on the heap at `p`. Its assertion on what stood there before is
-- not modelled.
unfoldable pub install : ℕ → ℕ → Option ℕ
install p other = elim (category other) [
  | illegal ↦ none
  | _ ↦ some (if is_compact other then replace check_bits_fld other (check_bits_for p) else other)
]

-- `me` is the address of the descriptor, and `external_ok` what `external_is_valid()` says.
unfoldable pub is_valid : ℕ → ℕ → Bool → ℕ → Bool
is_valid me p external_ok rep =
    let checked = bit_and rep (mask check_bits_fld) == encode check_bits_fld (check_bits_for p) in
    if me == 0 || not (me % 8 == 0)
    then false
    else elim (category rep) [ illegal ↦ false | external ↦ external_ok | _ ↦ checked ]

unfoldable pub was_allocated_during_sweep : ℕ → Bool
was_allocated_during_sweep rep = decode_bool sweep_allocated_fld rep

unfoldable pub set_sweep_allocated : ℕ → ℕ
set_sweep_allocated rep = replace_bool sweep_allocated_fld rep true

unfoldable pub atomic_clear_sweep_allocated : ℕ → Bool × ℕ
atomic_clear_sweep_allocated rep = (
  decode_bool sweep_allocated_fld rep,
  bit_and rep (complement 64 (encode_bool sweep_allocated_fld true)),
)

unfoldable pub is_in_control_map : ℕ → Bool
is_in_control_map rep = decode_bool in_control_map_fld rep

unfoldable pub atomic_set_in_control_map : ℕ → Bool × ℕ
atomic_set_in_control_map rep =
    (not (decode_bool in_control_map_fld rep), bit_or rep (encode_bool in_control_map_fld true))

unfoldable pub atomic_clear_in_control_map : ℕ → Bool × ℕ
atomic_clear_in_control_map rep = (
  decode_bool in_control_map_fld rep,
  bit_and rep (complement 64 (encode_bool in_control_map_fld true)),
)
