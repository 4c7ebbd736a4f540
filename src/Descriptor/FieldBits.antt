-- ===== src/Descriptor/FieldBits.antt =====
-- The fields of ruts/include/ruts/bit_field.h bit by bit.
use mpgc.Prelude.{
  ℕ, ◌+◌, ◌-◌, ◌*◌, ◌%◌, ◌^◌, ◌≤◌, ◌<◌, bit_and, bit_or, ◌≡◌, sym, ap, ◌∙◌, Bool, true, false, ◌&&◌,
  ◌==◌, ltb, leb, if◌then◌else◌, arith, dec_lt,
}
use mpgc.Prelude.Bits.{
  test_bit, test_bit-le, test_bit-zero, test_bit-or, test_bit-and, test_bit-low, test_bit_of_lt,
  test_bit-shift_right, complement, test_bit-complement, bit_and-pow-eq-zero, bit_and-pow-ne-zero,
  bit_and-le, bit_or-lt,
}
use native.Mathlib.Nat.{one-le-pow, mod-lt, mod-le, div-le_self, pow-le-pow_right}
use mpgc.Prelude.Bits.Digits.{test_bit-mul_pow, test_bit-mul_pow_low, test_bit-mod, eq_of_bits}
use mpgc.Descriptor.Field.{
  Field, shift_left, mask, decode, encode, replace, decode_bool, encode_bool,
}

-- From here on a bit above the word is 0, and the field lies in the word.
pub test_bit-shift_left :
    (x s j : ℕ) → j < 64 → test_bit (shift_left x s) j ≡ (if ltb j s then 0 else test_bit x (j - s))
test_bit-shift_left x s j h = elim (dec_lt j s) [
  | yes lt ↦ ground (arith, test_bit-mod 64 (x * 2 ^ s) j h, test_bit-mul_pow_low s x j lt)
  | no ge ↦
      let index : s + (j - s) ≡ j = omega arith in
      ground (
        arith,
        test_bit-mod 64 (x * 2 ^ s) j h,
        ap (test_bit (x * 2 ^ s)) index,
        test_bit-mul_pow s x (j - s),
      )
]

abbrev pub is_inside : Field → ℕ → Bool
is_inside f j = leb f.shift j && ltb j (f.shift + f.width)

module _ (f : Field) (fits : f.shift + f.width ≤ 64) where
  test_bit-mask : (j : ℕ) → j < 64 → test_bit (mask f) j ≡ (if is_inside f j then 1 else 0)
  unfolding mask
  test_bit-mask j h = elim (dec_lt (j - f.shift) f.width) [
    | yes lt ↦ ground (
      arith,
      test_bit-shift_left (2 ^ f.width - 1) f.shift j h,
      test_bit-low f.width (j - f.shift) lt,
    )
    | no ge ↦ ground (
      arith,
      test_bit-shift_left (2 ^ f.width - 1) f.shift j h,
      test_bit_of_lt f.width (2 ^ f.width - 1) (j - f.shift) (omega (arith, one-le-pow f.width 2))
          (omega arith),
    )
  ]

  pub test_bit-encode :
      (v j : ℕ)
      → j < 64
      → test_bit (encode f v) j ≡ (if is_inside f j then test_bit v (j - f.shift) else 0)
  unfolding encode
  test_bit-encode v j h = ground (
    arith,
    test_bit-and (shift_left v f.shift) (mask f) j,
    test_bit-mask j h,
    test_bit-shift_left v f.shift j h,
    test_bit-le v (j - f.shift),
  )

  pub test_bit-decode : (x i : ℕ) → i < f.width → test_bit (decode f x) i ≡ test_bit x (f.shift + i)
  unfolding decode
  test_bit-decode x i h = ground (
    arith,
    test_bit-shift_right f.shift (bit_and x (mask f)) i,
    test_bit-and x (mask f) (f.shift + i),
    test_bit-mask (f.shift + i) (omega arith),
    test_bit-le x (f.shift + i),
  )

  test_bit-decode_above : (x i : ℕ) → x < 2 ^ 64 → f.width ≤ i → test_bit (decode f x) i ≡ 0
  unfolding decode
  test_bit-decode_above x i hx h =
      test_bit-shift_right f.shift (bit_and x (mask f)) i
      ∙ test_bit-and x (mask f) (f.shift + i)
      ∙ elim (dec_lt (f.shift + i) 64) [
        | yes lt ↦ ground (arith, test_bit-mask (f.shift + i) lt)
        | no ge ↦ omega (arith, test_bit_of_lt 64 x (f.shift + i) hx (omega arith))
      ]

  decode-le : (x : ℕ) → x < 2 ^ 64 → decode f x ≤ x
  unfolding decode
  decode-le x h =
      omega (arith, bit_and-le 64 x (mask f) h, div-le_self (bit_and x (mask f)) (2 ^ f.shift))

  pub decode-lt : (x : ℕ) → x < 2 ^ 64 → decode f x < 2 ^ f.width
  decode-lt x h =
      let less : decode f x % 2 ^ f.width < 2 ^ f.width =
        mod-lt (decode f x) (omega (arith, one-le-pow f.width 2)) in
      let same : decode f x ≡ decode f x % 2 ^ f.width =
        eq_of_bits 64 (decode f x) (decode f x % 2 ^ f.width) (omega (arith, decode-le x h))
          (omega (arith, decode-le x h, mod-le (decode f x) (2 ^ f.width)))
          (λ i lt. elim (dec_lt i f.width) [
            | yes low ↦ sym (test_bit-mod f.width (decode f x) i low)
            | no high ↦
                test_bit-decode_above x i h (omega arith)
                ∙ sym (test_bit_of_lt f.width (decode f x % 2 ^ f.width) i less (omega arith))
          ]) in
      omega (arith, less, same)

  -- To decode is to know the bits.
  pub decode_of_bits :
      (x v : ℕ)
      → x < 2 ^ 64
      → v < 2 ^ f.width
      → ((i : ℕ) → i < f.width → test_bit x (f.shift + i) ≡ test_bit v i)
      → decode f x ≡ v
  decode_of_bits x v hx hv same =
      eq_of_bits f.width (decode f x) v (decode-lt x hx) hv
        (λ i lt. test_bit-decode x i lt ∙ same i lt)

  pub encode-lt : (v : ℕ) → encode f v < 2 ^ 64
  unfolding encode
  encode-lt v = omega (
    arith,
    bit_and-le 64 (shift_left v f.shift) (mask f) (mod-lt (v * 2 ^ f.shift) (omega arith)),
    mod-lt (v * 2 ^ f.shift) {m = 2 ^ 64} (omega arith),
  )

  mask-eq-pow : f.width ≡ 1 → mask f ≡ 2 ^ f.shift
  unfolding mask
  mask-eq-pow one =
      rw one
        (omega (arith, pow-le-pow_right {n = 2} (omega arith) {i = f.shift} {j = 63} (omega arith)))

  -- A field that is one bit wide, as a truth value.
  pub decode_bool_lem :
      (x : ℕ) → f.width ≡ 1 → x < 2 ^ 64 → decode_bool f x ≡ (test_bit x f.shift == 1)
  unfolding decode_bool
  decode_bool_lem x one hx = rw (mask-eq-pow one) (elim (dec_lt 0 (test_bit x f.shift)) [
    | yes set ↦ ground (
      arith,
      test_bit-le x f.shift,
      bit_and-pow-ne-zero f.shift x (omega (arith, test_bit-le x f.shift)),
    )
    | no clear ↦ ground (arith, bit_and-pow-eq-zero 64 f.shift x hx (omega arith))
  ])

  pub test_bit-encode_bool :
      (b : Bool) (j : ℕ)
      → f.width ≡ 1
      → j < 64
      → test_bit (encode_bool f b) j ≡ (if b && j == f.shift then 1 else 0)
  unfolding encode_bool
  test_bit-encode_bool b j one h = ground (arith, test_bit-mask j h, test_bit-zero j)

  pub encode_bool-lt : (b : Bool) → encode_bool f b < 2 ^ 64
  unfolding encode_bool mask
  encode_bool-lt true = mod-lt ((2 ^ f.width - 1) * 2 ^ f.shift) (omega arith)
  encode_bool-lt false = omega arith

  mask-lt : mask f < 2 ^ 64
  unfolding mask
  mask-lt = mod-lt ((2 ^ f.width - 1) * 2 ^ f.shift) (omega arith)

  -- `replace` writes the field and nothing else.
  pub test_bit-replace :
      (x v j : ℕ)
      → j < 64
      → test_bit (replace f x v) j
        ≡ (if is_inside f j then test_bit v (j - f.shift) else test_bit x j)
  unfolding replace
  test_bit-replace x v j h = ground (
    arith,
    test_bit-or (bit_and x (complement 64 (mask f))) (encode f v) j,
    test_bit-and x (complement 64 (mask f)) j,
    test_bit-complement 64 (mask f) j mask-lt h,
    test_bit-mask j h,
    test_bit-encode v j h,
    test_bit-le x j,
  )

  pub replace-lt : (x v : ℕ) → x < 2 ^ 64 → replace f x v < 2 ^ 64
  unfolding replace
  replace-lt x v h =
      bit_or-lt 64 (bit_and x (complement 64 (mask f))) (encode f v)
        (omega (arith, bit_and-le 64 x (complement 64 (mask f)) h)) (encode-lt v)

  pub test_bit-under_mask :
      (x j : ℕ)
      → j < 64
      → test_bit (bit_and x (mask f)) j ≡ (if is_inside f j then test_bit x j else 0)
  test_bit-under_mask x j h =
      ground (arith, test_bit-and x (mask f) j, test_bit-mask j h, test_bit-le x j)

  -- A flag, set and cleared.
  pub test_bit-set_flag :
      (x j : ℕ)
      → f.width ≡ 1
      → j < 64
      → test_bit (bit_or x (encode_bool f true)) j ≡ (if j == f.shift then 1 else test_bit x j)
  test_bit-set_flag x j one h = ground (
    arith,
    test_bit-or x (encode_bool f true) j,
    test_bit-encode_bool true j one h,
    test_bit-le x j,
  )

  pub test_bit-clear_flag :
      (x j : ℕ)
      → f.width ≡ 1
      → j < 64
      → test_bit (bit_and x (complement 64 (encode_bool f true))) j
        ≡ (if j == f.shift then 0 else test_bit x j)
  test_bit-clear_flag x j one h = ground (
    arith,
    test_bit-and x (complement 64 (encode_bool f true)) j,
    test_bit-complement 64 (encode_bool f true) j (encode_bool-lt true) h,
    test_bit-encode_bool true j one h,
    test_bit-le x j,
  )
