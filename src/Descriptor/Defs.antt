-- ===== src/Descriptor/Defs.antt =====
-- What include/mpgc/gc_desc.h reads from the word of an object descriptor. A failed assertion, or an
-- index out of `list_width`, is `none`. The external descriptor that a word may point to is looked
-- up by the word.
use mpgc.Prelude.{
  ℕ, zero, suc, ◌+◌, ◌-◌, ◌*◌, bit_and, max, Bool, ◌==◌, ltb, if◌then◌else◌, List, [], ◌∷◌, ◌++◌,
  Option, none, some, get_elem?, ◌>>=◌,
}
use mpgc.Descriptor.Field.{Field, shift_left, decode, decode_bool}

abbrev pub size_field : ℕ → ℕ → Field
size_field shift width = record { shift = shift; width = width }

abbrev pub bool_field : ℕ → Field
bool_field right = record { shift = right; width = 1 }

abbrev pub check_bits_fld : Field
check_bits_fld = size_field 0 22

abbrev pub is_compact_fld : Field
is_compact_fld = bool_field 63

abbrev pub is_bitmap_fld : Field
is_bitmap_fld = bool_field 62

abbrev pub cat_fld : Field
cat_fld = size_field 62 2

abbrev pub is_array_fld : Field
is_array_fld = bool_field 61

abbrev pub bitmap_size_fld : Field
bitmap_size_fld = size_field 56 5

abbrev pub bitmap_map_fld : Field
bitmap_map_fld = size_field 24 32

abbrev pub include_fields_fld : Field
include_fields_fld = bool_field 60

abbrev pub n_fields_fld : Field
n_fields_fld = size_field 57 3

abbrev pub list_base : ℕ
list_base = 57

abbrev pub list_width : List ℕ
list_width = 33 ∷ 16 ∷ 11 ∷ 8 ∷ 6 ∷ 5 ∷ 4 ∷ 4 ∷ []

abbrev pub blob_size_fld : Field
blob_size_fld = size_field 24 33

abbrev pub l1_size_fld : Field
l1_size_fld = size_field 41 16

abbrev pub l1_f1_fld : Field
l1_f1_fld = size_field 25 16

abbrev pub sweep_allocated_fld : Field
sweep_allocated_fld = bool_field 23

abbrev pub in_control_map_fld : Field
in_control_map_fld = bool_field 22

pub data Cat : Type 0 where
  illegal : Cat
  external : Cat
  list : Cat
  bitmap : Cat

abbrev pub to_cat : ℕ → Cat
to_cat zero = illegal
to_cat (suc zero) = external
to_cat (suc (suc zero)) = list
to_cat (suc (suc (suc n))) = bitmap

unfoldable pub category : ℕ → Cat
category rep = to_cat (decode cat_fld rep)

unfoldable pub is_array : ℕ → Bool
is_array rep = decode_bool is_array_fld rep

unfoldable pub n_fields : ℕ → ℕ
n_fields rep = decode n_fields_fld rep

unfoldable pub include_fields : ℕ → Bool
include_fields rep = decode_bool include_fields_fld rep

unfoldable pub blob_size : ℕ → ℕ
blob_size rep = decode blob_size_fld rep

-- `for (; f < to; f++) fn(f)`, with `n` rounds left.
abbrev pub count_from : ℕ → ℕ → List ℕ
count_from zero f = []
count_from (suc n) f = f ∷ count_from n (f + 1)

-- The loops of `for_each_ref_index`, as the list of the indices that they hand to `fn`.
unfoldable pub included : ℕ → ℕ → ℕ → ℕ → List ℕ
included zero shift w rep = []
included (suc n) shift w rep = decode (size_field shift w) rep ∷ included n (shift - w) w rep

unfoldable pub not_excluded : ℕ → ℕ → ℕ → ℕ → ℕ → ℕ → List ℕ
not_excluded zero f total_fields shift w rep = count_from (total_fields - f) f
not_excluded (suc n) f total_fields shift w rep =
    let next_omit = decode (size_field shift w) rep in
    count_from (next_omit - f) f
    ++ not_excluded n (max f next_omit + 1) total_fields (shift - w) w rep

-- `bit` is the `f` of the loop, and `n` the rounds left.
unfoldable pub in_bitmap : ℕ → ℕ → ℕ → ℕ → List ℕ
in_bitmap zero i bit bm = []
in_bitmap (suc n) i bit bm =
    let rest = in_bitmap n (i + 1) (shift_left bit 1) bm in
    if bit_and bm bit == 0 then rest else i ∷ rest

unfoldable pub list_refs : ℕ → Option (List ℕ)
list_refs rep =
    let nf = n_fields rep in
    let including = (do
      w ← get_elem? list_width nf
      some (included nf (list_base - 2 * w) w rep)) in
    let excluding = (do
      w ← get_elem? list_width nf
      let total_fields = decode (size_field (list_base - w) w) rep
      some (not_excluded nf 0 total_fields (list_base - w - w) w rep)) in
    if include_fields rep then (if ltb 0 nf then including else some []) else excluding

-- An object of class `include_list_external_descriptor`.
pub record ExternalDescriptor : Type 0 where
  pub n_fields : ℕ
  pub ref_fields : List ℕ

module _ (external_at : ℕ → Option ExternalDescriptor) where
  unfoldable pub for_each_ref_index : ℕ → Option (List ℕ)
  for_each_ref_index rep = elim (category rep) [
    | illegal ↦ none
    | external ↦ external_at rep >>= λ ep. some (ep.ref_fields)
    | list ↦ list_refs rep
    | bitmap ↦ some (in_bitmap (decode bitmap_size_fld rep) 0 1 (decode bitmap_map_fld rep))
  ]

  unfoldable pub object_n_fields : ℕ → Option ℕ
  object_n_fields rep = elim (category rep) [
    | illegal ↦ none
    | external ↦ external_at rep >>= λ ep. some (ep.n_fields)
    | list ↦
        let nf = n_fields rep in
        let general = (do
          w ← get_elem? list_width nf
          some (decode (size_field (list_base - w) w) rep)) in
        if nf == 0
        then some (blob_size rep)
        else if nf == 1
        then some (decode l1_size_fld rep)
        else general
    | bitmap ↦ some (decode bitmap_size_fld rep + 1)
  ]

  -- `length` is the word behind the descriptor, in an array the number of its elements.
  unfoldable pub object_size : ℕ → ℕ → Option ℕ
  object_size rep length = do
    nf ← object_n_fields rep
    some (if is_array rep then nf * length + 2 else nf + 1)
