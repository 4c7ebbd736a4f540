-- ===== src/Descriptor/Bitmaps.antt =====
-- Bitmap descriptors of include/mpgc/gc_desc.h: what `bitmap_rep` writes, and what is read back.
use mpgc.Prelude.{
  ℕ, zero, suc, ◌+◌, ◌-◌, ◌%◌, ◌^◌, ◌≤◌, ◌<◌, ◌≡◌, refl, sym, ap, ◌∙◌, max, bit_or, List, [], ◌∷◌,
  Bool, true, false, ◌||◌, ◌==◌, ltb, if◌then◌else◌, Option, some, arith, dec_lt, ℕ_discrete,
}
use native.Mathlib.Nat.{pow-suc, pow-le-pow_right, mod-lt}
use mpgc.Prelude.Bits.{
  test_bit, test_bit-or, test_bit-le, test_bit-zero, bit_or-lt, test_bit-pow_self, test_bit-pow_ne,
  test_bit-low, bit_and-pow-eq-zero, bit_and-pow-ne-zero,
}
use mpgc.Descriptor.Field.{shift_left, decode}
use mpgc.Prelude.Bits.Digits.{test_bit-mul_pow, test_bit-mul_pow_low, test_bit-mod}
use mpgc.Descriptor.FieldBits.{
  test_bit-encode, test_bit-encode_bool, decode_of_bits, decode_bool_lem, encode-lt, encode_bool-lt,
  is_inside,
}
use mpgc.Descriptor.Defs.{
  is_compact_fld, is_bitmap_fld, is_array_fld, bitmap_size_fld, bitmap_map_fld, in_bitmap, bitmap,
  category, is_array, ExternalDescriptor, for_each_ref_index, object_n_fields,
}
use mpgc.Descriptor.Collector.{int_bit, to_bitmap, bitmap_rep}
use mpgc.Descriptor.Sorting.{IncreasingFrom}
use mpgc.Descriptor.Lists.{category_of_bits}

abbrev pub member : ℕ → List ℕ → Bool
member j [] = false
member j (x ∷ xs) = j == x || member j xs

-- The indices below `n`.
abbrev pub below : ℕ → List ℕ → List ℕ
below n [] = []
below n (x ∷ xs) = if ltb x n then x ∷ below n xs else below n xs

int_bit-bits : (x j : ℕ) → x < 32 → j < 32 → test_bit (int_bit x) j ≡ (if j == x then 1 else 0)
unfolding int_bit
int_bit-bits x j hx hj = elim (dec_lt x 31) [
  | yes lt ↦ elim (ℕ_discrete x j) [
    | yes e ↦ ground (arith, test_bit-pow_self x, ap (λ i. test_bit (2 ^ x) i) e)
    | no ne ↦ ground (arith, test_bit-pow_ne x j ne)
  ]
  | no ge ↦ elim (dec_lt j 31) [
    | yes low ↦ ground (arith, test_bit-mul_pow_low 31 (2 ^ 33 - 1) j low)
    | no top ↦ ground (
      arith,
      test_bit-mul_pow 31 (2 ^ 33 - 1) 0,
      test_bit-low 33 0 (omega arith),
      ap (λ i. test_bit (2 ^ 64 - 2 ^ 31) i) (last j hj top),
    )
  ]
]
  where
    last : (j : ℕ) → j < 32 → ¬ (j < 31) → j ≡ 31
    last j h top = omega arith

int_bit-lt : (x : ℕ) → int_bit x < 2 ^ 64
unfolding int_bit
int_bit-lt x = elim (dec_lt x 31) [
  | yes lt ↦ ground (arith, pow-le-pow_right {n = 2} (omega arith) {i = x} {j = 31} (omega arith))
  | no ge ↦ ground arith
]

abbrev AllBelow32 : List ℕ → Type 0
AllBelow32 [] = Unit
AllBelow32 (x ∷ xs) = (x < 32) × AllBelow32 xs

to_bitmap-bits :
    (from : List ℕ) (bm j : ℕ)
    → AllBelow32 from
    → j < 32
    → test_bit (to_bitmap from bm) j ≡ max (test_bit bm j) (if member j from then 1 else 0)
unfolding to_bitmap
to_bitmap-bits [] bm j all h = omega arith
to_bitmap-bits (x ∷ from) bm j all h = ground (
  arith,
  to_bitmap-bits from (bit_or bm (int_bit x)) j all.1 h,
  test_bit-or bm (int_bit x) j,
  int_bit-bits x j all.0 h,
  test_bit-le bm j,
)

not_member : (j k end : ℕ) (xs : List ℕ) → j < k → IncreasingFrom k end xs → member j xs ≡ false
not_member j k end [] lt inc = refl
not_member j k end (x ∷ xs) lt inc =
    ground (arith, inc.0, not_member j (suc x) end xs (omega (arith, inc.0)) inc.2)

none_below : (m k end : ℕ) (xs : List ℕ) → m ≤ k → IncreasingFrom k end xs → below m xs ≡ []
none_below m k end [] le inc = refl
none_below m k end (x ∷ xs) le inc =
    ground (arith, inc.0, none_below m (suc x) end xs (omega (arith, inc.0)) inc.2)

module _ (n i bm : ℕ) (low : i < 32) (small : bm < 2 ^ 64) where
  next_bit : shift_left (2 ^ i) 1 ≡ 2 ^ (i + 1)
  next_bit =
      let next : i + 1 ≡ suc i = omega arith in
      rw next (
        omega (
          arith,
          pow-suc 2 i,
          pow-le-pow_right {n = 2} (omega arith) {i = i} {j = 31} (omega arith),
        ))

  step_set :
      test_bit bm i ≡ 1 → in_bitmap (suc n) i (2 ^ i) bm ≡ i ∷ in_bitmap n (i + 1) (2 ^ (i + 1)) bm
  unfolding in_bitmap
  step_set e = rw next_bit (ground (arith, bit_and-pow-ne-zero i bm e))

  step_clear :
      test_bit bm i ≡ 0 → in_bitmap (suc n) i (2 ^ i) bm ≡ in_bitmap n (i + 1) (2 ^ (i + 1)) bm
  unfolding in_bitmap
  step_clear e = rw next_bit (ground (arith, bit_and-pow-eq-zero 64 i bm small e))

-- One bit after the other gives the indices that are below the end of the loop.
in_bitmap_lem :
    (n i end bm : ℕ) (xs : List ℕ)
    → i + n ≤ 32
    → bm < 2 ^ 64
    → IncreasingFrom i end xs
    → ((j : ℕ) → i ≤ j → j < 32 → test_bit bm j ≡ (if member j xs then 1 else 0))
    → in_bitmap n i (2 ^ i) bm ≡ below (i + n) xs
unfolding in_bitmap
in_bitmap_lem zero i end bm xs le small inc bits =
    let index : i + 0 ≡ i = omega arith in rw index (sym (none_below i i end xs (omega arith) inc))
in_bitmap_lem (suc n) i end bm [] le small inc bits =
    step_clear n i bm (omega arith) small (bits i (omega arith) (omega arith))
    ∙ in_bitmap_lem n (i + 1) end bm [] (omega arith) small tt (λ j ge lt. bits j (omega arith) lt)
in_bitmap_lem (suc n) i end bm (x ∷ xs) le small inc bits =
    let index : i + 1 + n ≡ i + suc n = omega arith in
    elim (ℕ_discrete i x) [
      | yes e ↦
          step_set n i bm (omega arith) small (ground (arith, bits i (omega arith) (omega arith)))
          ∙ ap (λ l. i ∷ l)
              (in_bitmap_lem n (i + 1) end bm xs (omega arith) small (rest_inc e)
                (λ j ge lt. ground (arith, bits j (omega arith) lt)))
          ∙ rw index (ground arith)
      | no ne ↦
          step_clear n i bm (omega arith) small (
            ground (
              arith,
              bits i (omega arith) (omega arith),
              not_member i (suc x) end xs (omega (arith, inc.0)) inc.2,
            ))
          ∙ in_bitmap_lem n (i + 1) end bm (x ∷ xs) (omega arith) small
              (omega (arith, inc.0), inc.1, inc.2) (λ j ge lt. bits j (omega arith) lt)
          ∙ ap (λ m. below m (x ∷ xs)) index
    ]
  where
    rest_inc : i ≡ x → IncreasingFrom (i + 1) end xs
    rest_inc e = let next : i + 1 ≡ suc x = omega arith in rw next (inc.2)

module _ (words : ℕ) (from : List ℕ) (some_words : 0 < words) (few : words ≤ 32)
    (inc : IncreasingFrom 0 words from) where
  abbrev map_bits : ℕ
  map_bits = to_bitmap from 0

  rep-lt : bitmap_rep words from < 2 ^ 64
  unfolding bitmap_rep
  rep-lt =
      bit_or-lt 64 _ _
        (bit_or-lt 64 _ _
          (bit_or-lt 64 _ _ (encode_bool-lt is_compact_fld (omega arith) true)
            (encode_bool-lt is_bitmap_fld (omega arith) true))
          (encode-lt bitmap_size_fld (omega arith) (words - 1)))
        (encode-lt bitmap_map_fld (omega arith) map_bits)

  rep_bits :
      (j : ℕ)
      → j < 64
      → test_bit (bitmap_rep words from) j
        ≡ max
            (max
              (max (if j == 63 then 1 else 0) (if j == 62 then 1 else 0))
              (if is_inside bitmap_size_fld j then test_bit (words - 1) (j - 56) else 0))
            (if is_inside bitmap_map_fld j then test_bit map_bits (j - 24) else 0)
  unfolding bitmap_rep
  rep_bits j h =
      rw
        (
          test_bit-or,
          test_bit-or,
          test_bit-or,
          test_bit-encode_bool is_compact_fld (omega arith) true j refl h,
          test_bit-encode_bool is_bitmap_fld (omega arith) true j refl h,
          test_bit-encode bitmap_size_fld (omega arith) (words - 1) j h,
          test_bit-encode bitmap_map_fld (omega arith) map_bits j h,
        )
        refl

  pub bitmap_category : category (bitmap_rep words from) ≡ bitmap
  unfolding category
  bitmap_category =
      rw
        (category_of_bits (bitmap_rep words from) 3 rep-lt (omega arith)
          (unfold test_bit in ground (arith, rep_bits 62 (omega arith)))
          (unfold test_bit in ground (arith, rep_bits 63 (omega arith))))
        refl

  pub bitmap_not_array : is_array (bitmap_rep words from) ≡ false
  unfolding is_array
  bitmap_not_array =
      rw (decode_bool_lem is_array_fld (omega arith) (bitmap_rep words from) refl rep-lt)
        (ground (arith, rep_bits 61 (omega arith)))

  size_field_lem : decode bitmap_size_fld (bitmap_rep words from) ≡ words - 1
  size_field_lem =
      decode_of_bits bitmap_size_fld (omega arith) (bitmap_rep words from) (words - 1) rep-lt
        (omega arith)
        λ i lt. ground (arith, rep_bits (56 + i) (omega arith), test_bit-le (words - 1) i)

  map_field_lem : decode bitmap_map_fld (bitmap_rep words from) ≡ map_bits % 2 ^ 32
  map_field_lem =
      decode_of_bits bitmap_map_fld (omega arith) (bitmap_rep words from) (map_bits % 2 ^ 32) rep-lt
        (mod-lt map_bits (omega arith))
        λ i lt. ground (
          arith,
          rep_bits (24 + i) (omega arith),
          test_bit-mod 32 map_bits i lt,
          test_bit-le map_bits i,
        )

  all_low : (xs : List ℕ) (i : ℕ) → IncreasingFrom i words xs → AllBelow32 xs
  all_low [] i h = tt
  all_low (x ∷ xs) i h = (omega (arith, h.1), all_low xs (suc x) h.2)

  module _ (at : ℕ → Option ExternalDescriptor) where
    -- For a bitmap descriptor the loop of `for_each_ref_index` ends one field too early: it gives the
    -- references but for one in the last field.
    pub for_each_ref_index-bitmap_rep :
        for_each_ref_index at (bitmap_rep words from) ≡ some (below (words - 1) from)
    unfolding for_each_ref_index
    for_each_ref_index-bitmap_rep =
        let last : 0 + (words - 1) ≡ words - 1 = omega arith in
        rw (for_each_ref_index, bitmap_category, size_field_lem, map_field_lem)
          (ap (λ l. some l)
            (in_bitmap_lem (words - 1) 0 words (map_bits % 2 ^ 32) from (omega arith)
                (omega (arith, mod-lt map_bits {m = 2 ^ 32} (omega arith))) inc
                (λ j ge lt. ground (
                  arith,
                  test_bit-mod 32 map_bits j lt,
                  to_bitmap-bits from 0 j (all_low from 0 inc) lt,
                  test_bit-zero j,
                ))
              ∙ ap (λ m. below m from) last))

    pub object_n_fields-bitmap_rep : object_n_fields at (bitmap_rep words from) ≡ some words
    unfolding object_n_fields
    object_n_fields-bitmap_rep =
        rw (bitmap_category, object_n_fields, size_field_lem) (ground arith)
