-- ===== src/Descriptor/Header/Frame.antt =====
-- What a descriptor says of its object (include/mpgc/gc_desc.h) stands in the bits from 24 on.
use mpgc.Prelude.{
  ℕ, zero, suc, ◌+◌, ◌-◌, ◌*◌, ◌^◌, ◌≤◌, ◌<◌, ◌≡◌, ◌≢◌, refl, sym, ap, ◌∙◌, [], ◌∷◌, ◌==◌, Option,
  none, some, get_elem?, arith, max, ◌++◌,
}
use mathlib.Core.Path.{ap₂}
use mpgc.Prelude.Bits.{test_bit}
use mpgc.Descriptor.Field.{Field, decode, decode_bool}
use mpgc.Prelude.Bits.Digits.{eq_of_bits}
use mpgc.Descriptor.FieldBits.{test_bit-decode, decode-lt, decode_bool_lem}
use mpgc.Descriptor.Defs.{
  size_field, cat_fld, is_array_fld, n_fields_fld, include_fields_fld, bitmap_size_fld,
  bitmap_map_fld, blob_size_fld, l1_size_fld, list_base, list_width, included, not_excluded,
  list_refs, Cat, illegal, external, list, bitmap, category, is_array, n_fields, include_fields,
  blob_size, count_from, ExternalDescriptor, for_each_ref_index, object_n_fields, object_size,
}
use mpgc.Descriptor.Lists.{list_width_lem}

-- Two words that differ in their low bits only.
pub record IsSameAbove (rep rep' : ℕ) : Type 0 where
  pub small : rep < 2 ^ 64
  pub small' : rep' < 2 ^ 64
  pub same : (j : ℕ) → 24 ≤ j → j < 64 → test_bit rep' j ≡ test_bit rep j

-- They describe the same object.
abbrev pub SameObject : ℕ → ℕ → (ℕ → Option ExternalDescriptor) → Type 0
SameObject rep rep' at =
    (object_n_fields at rep' ≡ object_n_fields at rep)
    × (for_each_ref_index at rep' ≡ for_each_ref_index at rep)
    × (is_array rep' ≡ is_array rep)
    × ((length : ℕ) → object_size at rep' length ≡ object_size at rep length)

module _ (rep rep' : ℕ) (s : IsSameAbove rep rep') where
  decode_same : (f : Field) → f.shift + f.width ≤ 64 → 24 ≤ f.shift → decode f rep' ≡ decode f rep
  decode_same f fits high =
      eq_of_bits f.width (decode f rep') (decode f rep) (decode-lt f fits rep' s.small')
        (decode-lt f fits rep s.small)
        (λ i lt.
          test_bit-decode f fits rep' i lt
          ∙ s.same (f.shift + i) (omega arith) (omega arith)
          ∙ sym (test_bit-decode f fits rep i lt))

  pub flag_same :
      (f : Field)
      → f.shift + f.width ≤ 64
      → f.width ≡ 1
      → 24 ≤ f.shift
      → decode_bool f rep' ≡ decode_bool f rep
  flag_same f fits one high =
      decode_bool_lem f fits rep' one s.small'
      ∙ ap (λ b. b == 1) (s.same f.shift high (omega arith))
      ∙ sym (decode_bool_lem f fits rep one s.small)

  pub category_same : category rep' ≡ category rep
  unfolding category
  category_same = rw (decode_same cat_fld (omega arith) (omega arith))

  pub is_array_same : is_array rep' ≡ is_array rep
  unfolding is_array
  is_array_same = flag_same is_array_fld (omega arith) refl (omega arith)

  n_fields_same : n_fields rep' ≡ n_fields rep
  unfolding n_fields
  n_fields_same = decode_same n_fields_fld (omega arith) (omega arith)

  include_same : include_fields rep' ≡ include_fields rep
  unfolding include_fields
  include_same = flag_same include_fields_fld (omega arith) refl (omega arith)

  included_same :
      (nf shift w : ℕ)
      → shift + w ≤ 64
      → nf * w + 24 ≤ shift + w
      → included nf shift w rep' ≡ included nf shift w rep
  unfolding included
  included_same zero shift w fits room = refl
  included_same (suc zero) shift w fits room =
      ap (λ x. x ∷ []) (decode_same (size_field shift w) fits (omega arith))
  included_same (suc (suc nf)) shift w fits room =
      ap₂ ◌∷◌ (decode_same (size_field shift w) fits (omega arith))
        (included_same (suc nf) (shift - w) w (omega arith) (omega arith))

  not_excluded_same :
      (nf f total shift w : ℕ)
      → shift + w ≤ 64
      → nf * w + 24 ≤ shift + w
      → not_excluded nf f total shift w rep' ≡ not_excluded nf f total shift w rep
  unfolding not_excluded
  not_excluded_same zero f total shift w fits room = refl
  not_excluded_same (suc zero) f total shift w fits room =
      rw (decode_same (size_field shift w) fits (omega arith)) refl
  not_excluded_same (suc (suc nf)) f total shift w fits room =
      let omit = decode (size_field shift w) rep in
      rw (decode_same (size_field shift w) fits (omega arith)) (
        ap (λ l. count_from (omit - f) f ++ l)
          (not_excluded_same (suc nf) (max f omit + 1) total (shift - w) w (omega arith)
            (omega arith)))

  module _ (w : ℕ) (width : get_elem? list_width (n_fields rep) ≡ some w) where
    room_left : n_fields rep * w + w ≤ 33
    room_left = (list_width_lem (n_fields rep) w width).2

    total_same :
        decode (size_field (list_base - w) w) rep' ≡ decode (size_field (list_base - w) w) rep
    total_same =
        decode_same (size_field (list_base - w) w) (omega (arith, room_left))
          (omega (arith, room_left))

    refs_same_at : list_refs rep' ≡ list_refs rep
    unfolding list_refs
    refs_same_at =
        rw
          (
            n_fields_same,
            include_same,
            width,
            total_same,
            included_same (n_fields rep) (list_base - 2 * w) w (omega (arith, room_left))
                (omega (arith, room_left)),
            not_excluded_same (n_fields rep) 0 (decode (size_field (list_base - w) w) rep)
                (list_base - w - w) w (omega (arith, room_left)) (omega (arith, room_left)),
          )
          refl

  width_cases :
      (o : Option ℕ) → get_elem? list_width (n_fields rep) ≡ o → list_refs rep' ≡ list_refs rep
  unfolding list_refs
  width_cases none e = rw (n_fields_same, include_same, e) refl
  width_cases (some w) e = refs_same_at w e

  blob_same : blob_size rep' ≡ blob_size rep
  unfolding blob_size
  blob_same = decode_same blob_size_fld (omega arith) (omega arith)

  list_size :
      (at : ℕ → Option ExternalDescriptor)
      → (o : Option ℕ) → get_elem? list_width (n_fields rep) ≡ o
      → category rep ≡ list
      → object_n_fields at rep' ≡ object_n_fields at rep
  unfolding object_n_fields
  list_size at none e c =
      rw
        (
          category_same,
          c,
          object_n_fields,
          n_fields_same,
          e,
          blob_same,
          decode_same l1_size_fld (omega arith) (omega arith),
        )
        refl
  list_size at (some w) e c =
      rw
        (
          category_same,
          c,
          object_n_fields,
          n_fields_same,
          e,
          blob_same,
          decode_same l1_size_fld (omega arith) (omega arith),
          total_same w e,
        )
        refl

  module _ (at : ℕ → Option ExternalDescriptor) where
    same_by :
        (c : Cat)
        → category rep ≡ c
        → c ≢ external
        → (object_n_fields at rep' ≡ object_n_fields at rep)
          × (for_each_ref_index at rep' ≡ for_each_ref_index at rep)
    unfolding object_n_fields for_each_ref_index
    same_by illegal c ne = (
      rw (category_same, c, object_n_fields) refl,
      rw (category_same, c, for_each_ref_index) refl,
    )
    same_by external c ne = absurd (ne refl)
    same_by list c ne = (
      list_size at (get_elem? list_width (n_fields rep)) refl c,
      rw (category_same, c, for_each_ref_index)
          (width_cases (get_elem? list_width (n_fields rep)) refl),
    )
    same_by bitmap c ne = (
      rw
          (
            category_same,
            c,
            object_n_fields,
            decode_same bitmap_size_fld (omega arith) (omega arith),
          )
          refl,
      rw
          (
            category_same,
            c,
            for_each_ref_index,
            decode_same bitmap_size_fld (omega arith) (omega arith),
            decode_same bitmap_map_fld (omega arith) (omega arith),
          )
          refl,
    )

    -- The object is described alike, but where the word is a pointer.
    pub object_same : category rep ≢ external → SameObject rep rep' at
    unfolding object_size
    object_same ne =
        let (fields, refs) = same_by (category rep) refl ne in
        (fields, refs, is_array_same, λ length. rw (fields, is_array_same) refl)
