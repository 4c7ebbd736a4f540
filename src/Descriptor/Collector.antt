-- ===== src/Descriptor/Collector.antt =====
-- How include/mpgc/gc_desc.h and src/gc_desc.cpp encode a descriptor: the constructors, and
-- `ref_field_collector__`.
use mpgc.Prelude.{
  ℕ, ◌+◌, ◌-◌, ◌*◌, ◌%◌, ◌^◌, ◌≡◌, bit_or, max, Bool, true, false, not, ◌&&◌, ◌==◌, ltb, leb,
  if◌then◌else◌, List, [], ◌∷◌, ◌++◌, Option, some, get_elem?, length, map, ◌>>=◌,
}
use mpgc.Descriptor.Field.{max_val, encode, encode_bool}
use mpgc.Descriptor.Defs.{
  size_field, is_compact_fld, is_bitmap_fld, n_fields_fld, include_fields_fld, blob_size_fld,
  bitmap_size_fld, bitmap_map_fld, list_base, list_width, count_from, external, category,
  ExternalDescriptor, for_each_ref_index,
}

-- `gc_descriptor::blob`.
unfoldable pub blob : ℕ → ℕ
blob words =
    bit_or
      (bit_or
        (bit_or (bit_or (encode_bool is_compact_fld true) (encode_bool is_bitmap_fld false))
          (encode n_fields_fld 0))
        (encode_bool include_fields_fld true))
      (encode blob_size_fld words)

unfoldable pub encode_list : List ℕ → ℕ → ℕ → ℕ → ℕ
encode_list [] shift w r = r
encode_list (x ∷ from) shift w r =
    encode_list from (shift - w) w (bit_or r (encode (size_field shift w) x))

-- The representation without the indices.
unfoldable pub list_header : ℕ → ℕ → Bool → ℕ → ℕ
list_header words refs includep w =
    bit_or
      (bit_or
        (bit_or (bit_or (encode_bool is_compact_fld true) (encode_bool is_bitmap_fld false))
          (encode n_fields_fld refs))
        (encode_bool include_fields_fld includep))
      (encode (size_field (list_base - w) w) words)

unfoldable pub list_rep : ℕ → ℕ → Bool → List ℕ → Option ℕ
list_rep words refs includep from = do
  w ← get_elem? list_width refs
  some (
      if ltb (max_val (size_field (list_base - w) w)) words
      then 0
      else encode_list from (list_base - 2 * w) w (list_header words refs includep w))

-- `1 << i` on `int`, as a `size_t`: `1 << 31` is the least `int`, whose sign is extended.
unfoldable pub int_bit : ℕ → ℕ
int_bit i = if ltb i 31 then 2 ^ i else 2 ^ 64 - 2 ^ 31

unfoldable pub to_bitmap : List ℕ → ℕ → ℕ
unfolding int_bit
to_bitmap [] bm = bm
to_bitmap (x ∷ from) bm = to_bitmap from (bit_or bm (int_bit x))

unfoldable pub bitmap_rep : ℕ → List ℕ → ℕ
bitmap_rep words from =
    bit_or
      (bit_or (bit_or (encode_bool is_compact_fld true) (encode_bool is_bitmap_fld true))
        (encode bitmap_size_fld (words - 1)))
      (encode bitmap_map_fld (to_bitmap from 0))

-- `std::sort`.
unfoldable pub insert : ℕ → List ℕ → List ℕ
insert x [] = x ∷ []
insert x (y ∷ ys) = if leb x y then x ∷ y ∷ ys else y ∷ insert x ys

unfoldable pub sort : List ℕ → List ℕ
unfolding insert
sort [] = []
sort (x ∷ xs) = insert x (sort xs)

-- The loops of `to_descriptor` that collect the fields below `n` that hold no reference.
unfoldable pub missing : ℕ → List ℕ → ℕ → List ℕ
missing i [] n = count_from (n - i) i
missing i (next_skip ∷ rest) n =
    count_from (next_skip - i) i ++ missing (max i next_skip + 1) rest n

-- The part of the heap that holds external descriptors: a new one is reached from its word.
pub record ExternalHeap : Type 1 where
  pub State : Type 0
  pub external_at : State → ℕ → Option ExternalDescriptor
  pub make_external : State → ExternalDescriptor → ℕ × State
  pub is_external : (s : State) (d : ExternalDescriptor) → category (make_external s d).0 ≡ external
  pub is_there :
      (s : State) (d : ExternalDescriptor)
      → external_at (make_external s d).1 (make_external s d).0 ≡ some d

-- `add(other, offset)` for the fields of a member or a superclass.
unfoldable pub add : (ℕ → Option ExternalDescriptor) → List ℕ → ℕ → ℕ → Option (List ℕ)
add at field_offsets other offset = do
  refs ← for_each_ref_index at other
  some (field_offsets ++ map (λ i. i + offset) refs)

module _ (h : ExternalHeap) where
  open h use {State, make_external}

  -- The last three ways, when no list is to be used.
  unfoldable pub by_positive : ℕ → ℕ → List ℕ → State → ℕ × State
  by_positive pos_list n field_offsets s =
      if not (pos_list == 0)
      then (pos_list, s)
      else if leb n 32
      then (bitmap_rep n field_offsets, s)
      else make_external s (record { n_fields = n; ref_fields = field_offsets })

  unfoldable pub by_list : ℕ → List ℕ → State → Option (ℕ × State)
  by_list n field_offsets s = do
    let nrefs = length field_offsets
    pos_list ← (if ltb 8 nrefs then some 0 else list_rep n nrefs true field_offsets)
    let n_missing = (n + 2 ^ 64 - nrefs) % 2 ^ 64
    let positive = by_positive pos_list n field_offsets s
    let negative = (do
      neg_list ← list_rep n n_missing false (missing 0 field_offsets n)
      some (if not (neg_list == 0) then (neg_list, s) else positive))
    if ltb n_missing 8 && ltb n_missing nrefs then negative else some positive

  -- The descriptor's word. `field_offsets` is sorted in place, which nothing else sees.
  unfoldable pub to_descriptor : ℕ → List ℕ → State → Option (ℕ × State)
  to_descriptor n field_offsets s =
      let nrefs = length field_offsets in
      let all_refs = (do r ← list_rep n 0 false []; some (r, s)) in
      if nrefs == 0
      then some (blob n, s)
      else if nrefs == n
      then all_refs
      else by_list n (if ltb 1 nrefs then sort field_offsets else field_offsets) s
