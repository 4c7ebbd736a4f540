-- ===== src/Descriptor/Field.antt =====
-- `bits::field` of ruts/include/ruts/bit_field.h, on 64-bit words.
use mpgc.Prelude.{ℕ, ◌-◌, ◌*◌, ◌/◌, ◌%◌, ◌^◌, bit_and, bit_or, Bool, not, ◌==◌, if◌then◌else◌}
use mpgc.Prelude.Bits.{complement}

-- `x << s` on a word.
abbrev pub shift_left : ℕ → ℕ → ℕ
shift_left x s = x * 2 ^ s % 2 ^ 64

-- `_shift` and `_width`; `_mask` is computed from them.
pub record Field : Type 0 where
  pub shift : ℕ
  pub width : ℕ

unfoldable pub mask : Field → ℕ
mask f = shift_left (2 ^ f.width - 1) f.shift

unfoldable pub max_val : Field → ℕ
max_val f = 2 ^ f.width - 1

unfoldable pub decode : Field → ℕ → ℕ
unfolding mask
decode f from = bit_and from (mask f) / 2 ^ f.shift

unfoldable pub encode : Field → ℕ → ℕ
unfolding mask
encode f val = bit_and (shift_left val f.shift) (mask f)

unfoldable pub replace : Field → ℕ → ℕ → ℕ
unfolding mask encode
replace f from val = bit_or (bit_and from (complement 64 (mask f))) (encode f val)

-- The specialisation `field<bool>`, also through its `reference`.
unfoldable pub decode_bool : Field → ℕ → Bool
unfolding mask
decode_bool f from = not (bit_and from (mask f) == 0)

unfoldable pub encode_bool : Field → Bool → ℕ
unfolding mask
encode_bool f val = if val then mask f else 0

unfoldable pub replace_bool : Field → ℕ → Bool → ℕ
unfolding mask
replace_bool f from val =
    if val then bit_or from (mask f) else bit_and from (complement 64 (mask f))
