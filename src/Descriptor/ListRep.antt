-- ===== src/Descriptor/ListRep.antt =====
-- `list_rep` of include/mpgc/gc_desc.h as a whole, read by `for_each_ref_index` and
-- `object_n_fields`.
use mpgc.Prelude.{
  ℕ, zero, suc, ◌+◌, ◌-◌, ◌*◌, ◌^◌, ◌≤◌, ◌<◌, ◌≡◌, refl, ap, ◌∙◌, max, List, [], ◌∷◌, ◌++◌, length,
  Bool, true, false, if◌then◌else◌, Option, some, get_elem?, arith, lt→ltb,
}
use mpgc.Descriptor.Field.{decode}
use mpgc.Descriptor.Defs.{
  size_field, list_base, list_width, included, not_excluded, count_from, list, category, n_fields,
  include_fields, is_array, list_refs, ExternalDescriptor, object_n_fields, blob_size,
}
use mpgc.Descriptor.Collector.{encode_list, list_header, missing}
use mpgc.Descriptor.Lists.{
  list_width_lem, IsHeaderOf, header-lt, encode_list-lt, encode_list_above, AllFit,
  included-encode_list, category_lem, n_fields_lem, include_fields_lem, words_lem, is_array_lem,
  header_clear,
}

-- The loop over an exclude list, on the list that an include list would have given.
not_excluded-eq-missing :
    (nf f total shift w rep : ℕ)
    → not_excluded nf f total shift w rep ≡ missing f (included nf shift w rep) total
unfolding not_excluded missing included
not_excluded-eq-missing zero f total shift w rep = refl
not_excluded-eq-missing (suc nf) f total shift w rep =
    let omit = decode (size_field shift w) rep in
    ap (λ l. count_from (omit - f) f ++ l)
      (not_excluded-eq-missing nf (max f omit + 1) total (shift - w) w rep)

-- What a list descriptor says of its object: `words` fields, and these references.
pub record IsListRep (words : ℕ) (refs : List ℕ) (rep : ℕ) : Type 0 where
  pub small : rep < 2 ^ 64
  pub category_lem : category rep ≡ list
  pub is_array_lem : is_array rep ≡ false
  pub refs_lem : list_refs rep ≡ some refs
  pub size_lem : (at : ℕ → Option ExternalDescriptor) → object_n_fields at rep ≡ some words

abbrev pub read_back : Bool → List ℕ → ℕ → List ℕ
read_back b from words = if b then from else missing 0 from words

two_widths : (n w : ℕ) → get_elem? list_width (suc n) ≡ some w → 2 * w ≤ 33
two_widths n w e = omega (arith, list_width_lem (suc n) w e)

list_reads :
    (from : List ℕ) (words : ℕ) (b : Bool) (w : ℕ) (narrow : w ≤ 33)
    → get_elem? list_width (length from) ≡ some w
    → AllFit w from
    → included
        (length from)
        (list_base - 2 * w)
        w
        (encode_list from (list_base - 2 * w) w (list_header words (length from) b w))
      ≡ from
unfolding included
list_reads [] words b w narrow width all = refl
list_reads (x ∷ xs) words b w narrow width all =
    included-encode_list w (x ∷ xs) (list_base - 2 * w) (list_header words (suc (length xs)) b w)
      (omega (arith, narrow)) (header-lt words (suc (length xs)) b w narrow)
      (omega (arith, list_width_lem (suc (length xs)) w width)) all
      (λ j h lt.
        header_clear words (suc (length xs)) b w narrow j h
          (omega (arith, two_widths (length xs) w width)))

list_is_header :
    (from : List ℕ) (words : ℕ) (b : Bool) (w : ℕ) (narrow : w ≤ 33)
    → get_elem? list_width (length from) ≡ some w
    → IsHeaderOf words
        (length from)
        b
        w
        narrow
        (encode_list from (list_base - 2 * w) w (list_header words (length from) b w))
unfolding encode_list
list_is_header [] words b w narrow width = (header-lt words 0 b w narrow, λ j h le. refl)
list_is_header (x ∷ xs) words b w narrow width = (
  encode_list-lt w (x ∷ xs) (list_base - 2 * w) (list_header words (suc (length xs)) b w)
      (omega arith) (header-lt words (suc (length xs)) b w narrow),
  λ j h le.
      encode_list_above w (x ∷ xs) (list_base - 2 * w) (list_header words (suc (length xs)) b w) j
        (omega arith) h (omega (arith, two_widths (length xs) w width)),
)

size_of_list :
    (at : ℕ → Option ExternalDescriptor) (rep words refs w : ℕ)
    → category rep ≡ list
    → n_fields rep ≡ refs
    → get_elem? list_width refs ≡ some w
    → decode (size_field (list_base - w) w) rep ≡ words
    → object_n_fields at rep ≡ some words
unfolding object_n_fields blob_size
size_of_list at rep words zero w c n width e = rw (c, object_n_fields, n) (ground arith)
size_of_list at rep words (suc zero) w c n width e = rw (c, object_n_fields, n) (ground arith)
size_of_list at rep words (suc (suc m)) w c n width e =
    rw (c, object_n_fields, n, width) (ground arith)

refs_of_list :
    (rep words refs w : ℕ) (b : Bool) (from : List ℕ)
    → n_fields rep ≡ refs
    → include_fields rep ≡ b
    → get_elem? list_width refs ≡ some w
    → decode (size_field (list_base - w) w) rep ≡ words
    → included refs (list_base - 2 * w) w rep ≡ from
    → length from ≡ refs
    → list_refs rep ≡ some (read_back b from words)
unfolding list_refs
refs_of_list rep words zero w true [] n i width e reads len = rw (i, n) refl
refs_of_list rep words zero w true (x ∷ from) n i width e reads len = absurd (omega (arith, len))
refs_of_list rep words (suc m) w true from n i width e reads len =
    rw (i, n, lt→ltb 0 (suc m) (omega arith), width) (ap (λ l. some l) reads)
refs_of_list rep words refs w false from n i width e reads len =
    let shift : list_base - w - w ≡ list_base - 2 * w = omega arith in
    rw (i, n, width, e, shift)
      (ap (λ l. some l)
        (not_excluded-eq-missing refs 0 words (list_base - 2 * w) w rep
          ∙ ap (λ l. missing 0 l words) reads))

module _ (words : ℕ) (b : Bool) (from : List ℕ) (w : ℕ)
    (width : get_elem? list_width (length from) ≡ some w) (fits : words < 2 ^ w)
    (all : AllFit w from) where
  abbrev header : ℕ
  header = list_header words (length from) b w

  abbrev rep : ℕ
  rep = encode_list from (list_base - 2 * w) w header

  narrow : w ≤ 33
  narrow = omega (arith, (list_width_lem (length from) w width).2)

  heads : IsHeaderOf words (length from) b w narrow rep
  heads = list_is_header from words b w narrow width

  few : length from < 8
  few = (list_width_lem (length from) w width).0

  total_lem : decode (size_field (list_base - w) w) rep ≡ words
  total_lem = words_lem words (length from) b w narrow few fits rep heads

  count_lem : n_fields rep ≡ length from
  count_lem = n_fields_lem words (length from) b w narrow few fits rep heads

  mode_lem : include_fields rep ≡ b
  mode_lem = include_fields_lem words (length from) b w narrow few fits rep heads

  read_refs : list_refs rep ≡ some (read_back b from words)
  read_refs =
      refs_of_list rep words (length from) w b from count_lem mode_lem width total_lem
        (list_reads from words b w narrow width all) refl

  pub rep-IsListRep : IsListRep words (read_back b from words) rep
  rep-IsListRep = record {
    small = heads.0;
    category_lem = category_lem words (length from) b w narrow few fits rep heads;
    is_array_lem = is_array_lem words (length from) b w narrow few fits rep heads;
    refs_lem = read_refs;
    size_lem = λ at.
        size_of_list at rep words (length from) w
          (category_lem words (length from) b w narrow few fits rep heads) count_lem width
          total_lem;
  }
