-- ===== src/Descriptor/Lists.antt =====
-- List descriptors of include/mpgc/gc_desc.h: what `list_rep` writes is what is read back.
use mpgc.Prelude.{
  ℕ, zero, suc, ◌+◌, ◌-◌, ◌*◌, ◌^◌, ◌≤◌, ◌<◌, ◌≡◌, refl, ap, ◌∙◌, max, bit_or, List, [], ◌∷◌,
  length, Bool, true, false, ◌&&◌, ◌==◌, if◌then◌else◌, some, get_elem?, arith,
}
use mathlib.Core.Path.{ap₂}
use mpgc.Prelude.Bits.{test_bit, test_bit-or, test_bit-le, bit_or-lt}
use mpgc.Descriptor.Field.{Field, decode, encode}
use mpgc.Descriptor.FieldBits.{
  test_bit-encode, test_bit-encode_bool, decode_of_bits, decode_bool_lem, encode-lt, encode_bool-lt,
  is_inside,
}
use mpgc.Descriptor.Defs.{
  size_field, is_compact_fld, is_bitmap_fld, is_array_fld, cat_fld, n_fields_fld,
  include_fields_fld, list_base, list_width, included, list, category, n_fields, is_array,
  include_fields,
}
use mpgc.Descriptor.Collector.{encode_list, list_header}

pub list_width_lem :
    (refs w : ℕ) → get_elem? list_width refs ≡ some w → (refs < 8) × (0 < w) × (refs * w + w ≤ 33)
list_width_lem zero w e = ground arith
list_width_lem (suc zero) w e = ground arith
list_width_lem (suc (suc zero)) w e = ground arith
list_width_lem (suc (suc (suc zero))) w e = ground arith
list_width_lem (suc (suc (suc (suc zero)))) w e = ground arith
list_width_lem (suc (suc (suc (suc (suc zero))))) w e = ground arith
list_width_lem (suc (suc (suc (suc (suc (suc zero)))))) w e = ground arith
list_width_lem (suc (suc (suc (suc (suc (suc (suc zero))))))) w e = ground arith
list_width_lem (suc (suc (suc (suc (suc (suc (suc (suc n)))))))) w e = cc

pub category_of_bits :
    (rep v : ℕ)
    → rep < 2 ^ 64
    → v < 4
    → test_bit rep 62 ≡ test_bit v 0
    → test_bit rep 63 ≡ test_bit v 1
    → decode cat_fld rep ≡ v
category_of_bits rep v small four low high =
    decode_of_bits cat_fld (omega arith) rep v small four bits
  where
    bits : (i : ℕ) → i < 2 → test_bit rep (62 + i) ≡ test_bit v i
    bits zero lt = low
    bits (suc zero) lt = high
    bits (suc (suc i)) lt = absurd (omega arith)

module _ (words refs : ℕ) (b : Bool) (w : ℕ) (narrow : w ≤ 33) where
  abbrev pub rest_fld : Field
  rest_fld = size_field (list_base - w) w

  pub header-lt : list_header words refs b w < 2 ^ 64
  unfolding list_header
  header-lt =
      bit_or-lt 64 _ _
        (bit_or-lt 64 _ _
          (bit_or-lt 64 _ _
            (bit_or-lt 64 _ _ (encode_bool-lt is_compact_fld (omega arith) true)
              (encode_bool-lt is_bitmap_fld (omega arith) false))
            (encode-lt n_fields_fld (omega arith) refs))
          (encode_bool-lt include_fields_fld (omega arith) b))
        (encode-lt rest_fld (omega arith) words)

  abbrev flag_bits : ℕ → ℕ
  flag_bits j =
      max
        (max (if j == 63 then 1 else 0)
          (if is_inside n_fields_fld j then test_bit refs (j - 57) else 0))
        (if b && j == 60 then 1 else 0)

  header_bits :
      (j : ℕ)
      → j < 64
      → test_bit (list_header words refs b w) j
        ≡ max
            (flag_bits j)
            (if is_inside rest_fld j then test_bit words (j - (list_base - w)) else 0)
  unfolding list_header
  header_bits j h =
      rw
        (
          test_bit-or,
          test_bit-or,
          test_bit-or,
          test_bit-or,
          test_bit-encode_bool is_compact_fld (omega arith) true j refl h,
          test_bit-encode_bool is_bitmap_fld (omega arith) false j refl h,
          test_bit-encode n_fields_fld (omega arith) refs j h,
          test_bit-encode_bool include_fields_fld (omega arith) b j refl h,
          test_bit-encode rest_fld (omega arith) words j h,
        )
        (omega arith)

  pub header_clear :
      (j : ℕ) → j < 64 → j < list_base - w → test_bit (list_header words refs b w) j ≡ 0
  header_clear j h lt = ground (arith, header_bits j h)

  -- What is written below the header does not touch it.
  abbrev pub IsHeaderOf : ℕ → Type 0
  IsHeaderOf rep =
      (rep < 2 ^ 64)
      × ((j : ℕ)
          → j < 64
          → list_base - w ≤ j
          → test_bit rep j ≡ test_bit (list_header words refs b w) j)

  module _ (small : refs < 8) (fits : words < 2 ^ w) (rep : ℕ) (same : IsHeaderOf rep) where
    upper :
        (j : ℕ)
        → j < 64
        → list_base - w ≤ j
        → test_bit rep j
          ≡ max
              (flag_bits j)
              (if is_inside rest_fld j then test_bit words (j - (list_base - w)) else 0)
    upper j h le = same.1 j h le ∙ header_bits j h

    pub category_lem : category rep ≡ list
    unfolding category
    category_lem =
        rw
          (category_of_bits rep 2 same.0 (omega arith)
            (unfold test_bit in ground (arith, upper 62 (omega arith) (omega arith)))
            (unfold test_bit in ground (arith, upper 63 (omega arith) (omega arith))))
          refl

    pub is_array_lem : is_array rep ≡ false
    unfolding is_array
    is_array_lem =
        rw (decode_bool_lem is_array_fld (omega arith) rep refl same.0)
          (ground (arith, upper 61 (omega arith) (omega arith)))

    pub n_fields_lem : n_fields rep ≡ refs
    unfolding n_fields
    n_fields_lem =
        decode_of_bits n_fields_fld (omega arith) rep refs same.0 (omega arith)
          λ i lt. ground (arith, upper (57 + i) (omega arith) (omega arith), test_bit-le refs i)

    pub include_fields_lem : include_fields rep ≡ b
    unfolding include_fields
    include_fields_lem =
        rw (decode_bool_lem include_fields_fld (omega arith) rep refl same.0)
          (ground (arith, upper 60 (omega arith) (omega arith)))

    pub words_lem : decode rest_fld rep ≡ words
    words_lem =
        decode_of_bits rest_fld (omega arith) rep words same.0 fits λ i lt.
          ground (arith, upper (57 - w + i) (omega arith) (omega arith), test_bit-le words i)

module _ (w : ℕ) where
  pub encode_list-lt :
      (from : List ℕ) (shift r : ℕ)
      → shift + w ≤ 64
      → r < 2 ^ 64
      → encode_list from shift w r < 2 ^ 64
  unfolding encode_list
  encode_list-lt [] shift r fits small = small
  encode_list-lt (x ∷ from) shift r fits small =
      encode_list-lt from (shift - w) (bit_or r (encode (size_field shift w) x)) (omega arith)
        (bit_or-lt 64 r _ small (encode-lt (size_field shift w) fits x))

  bit_above :
      (r x shift j : ℕ)
      → shift + w ≤ 64
      → j < 64
      → shift + w ≤ j
      → test_bit (bit_or r (encode (size_field shift w) x)) j ≡ test_bit r j
  bit_above r x shift j fits h le = ground (
    arith,
    test_bit-or r (encode (size_field shift w) x) j,
    test_bit-encode (size_field shift w) fits x j h,
  )

  pub encode_list_above :
      (from : List ℕ) (shift r j : ℕ)
      → shift + w ≤ 64
      → j < 64
      → shift + w ≤ j
      → test_bit (encode_list from shift w r) j ≡ test_bit r j
  unfolding encode_list
  encode_list_above [] shift r j fits h le = refl
  encode_list_above (x ∷ from) shift r j fits h le =
      encode_list_above from (shift - w) (bit_or r (encode (size_field shift w) x)) j (omega arith)
        h (omega arith)
      ∙ bit_above r x shift j fits h le

  -- Nothing is written yet from `top` down.
  abbrev IsClear : ℕ → ℕ → Type 0
  IsClear top r = (j : ℕ) → j < 64 → j < top → test_bit r j ≡ 0

  abbrev pub AllFit : List ℕ → Type 0
  AllFit [] = Unit
  AllFit (x ∷ xs) = (x < 2 ^ w) × AllFit xs

  module _ (x shift r : ℕ) (fits : shift + w ≤ 64) (clear : IsClear (shift + w) r) where
    written :
        (i : ℕ)
        → i < w
        → test_bit (bit_or r (encode (size_field shift w) x)) (shift + i) ≡ test_bit x i
    written i lt = ground (
      arith,
      test_bit-or r (encode (size_field shift w) x) (shift + i),
      test_bit-encode (size_field shift w) fits x (shift + i) (omega arith),
      clear (shift + i) (omega arith) (omega arith),
    )

    still-IsClear : IsClear shift (bit_or r (encode (size_field shift w) x))
    still-IsClear j h lt = ground (
      arith,
      test_bit-or r (encode (size_field shift w) x) j,
      test_bit-encode (size_field shift w) fits x j h,
      clear j h (omega arith),
    )

  pub included-encode_list :
      (from : List ℕ) (shift r : ℕ)
      → shift + w ≤ 64
      → r < 2 ^ 64
      → length from * w ≤ shift + w
      → AllFit from
      → IsClear (shift + w) r
      → included (length from) shift w (encode_list from shift w r) ≡ from
  unfolding included encode_list
  included-encode_list [] shift r fits small room all clear = refl
  included-encode_list (x ∷ []) shift r fits small room all clear =
      ap (λ v. v ∷ [])
        (decode_of_bits (size_field shift w) fits (bit_or r (encode (size_field shift w) x)) x
          (bit_or-lt 64 r _ small (encode-lt (size_field shift w) fits x)) all.0
          (written x shift r fits clear))
  included-encode_list (x ∷ y ∷ from) shift r fits small room all clear =
      let r1 = bit_or r (encode (size_field shift w) x) in
      let below : w ≤ shift = omega arith in
      let small1 : r1 < 2 ^ 64 = bit_or-lt 64 r _ small (encode-lt (size_field shift w) fits x) in
      ap₂ ◌∷◌
        (decode_of_bits (size_field shift w) fits (encode_list (y ∷ from) (shift - w) w r1) x
          (encode_list-lt (y ∷ from) (shift - w) r1 (omega arith) small1) all.0
          (λ i lt.
            encode_list_above (y ∷ from) (shift - w) r1 (shift + i) (omega arith) (omega arith)
              (omega arith)
            ∙ written x shift r fits clear i lt))
        (included-encode_list (y ∷ from) (shift - w) r1 (omega arith) small1 (omega arith) all.1
          (λ j h lt. still-IsClear x shift r fits clear j h (omega arith)))
