-- ===== src/Descriptor/Tests.antt =====
-- Descriptors of small types.
use mpgc.Prelude.{
  ℕ, ◌+◌, ◌-◌, ◌*◌, ◌/◌, ◌%◌, ◌^◌, ◌≡◌, ◌≢◌, refl, List, [], ◌∷◌, Option, none, some, Bool, true,
  arith, ◌==◌,
}
use mpgc.Descriptor.Defs.{ExternalDescriptor, category, external, for_each_ref_index}
use mpgc.Descriptor.Field.{decode, decode_bool, max_val}
use mpgc.Descriptor.Collector.{
  ExternalHeap, to_descriptor, by_list, by_positive, list_rep, sort, bitmap_rep,
}
use mpgc.Descriptor.Bitmaps.{below, for_each_ref_index-bitmap_rep}
use mpgc.Descriptor.Correct.{IsDescriptor, to_descriptor-IsDescriptor, to_descriptor_eight}
use mpgc.Descriptor.Header.{
  install, is_valid, is_compact, atomic_set_in_control_map, atomic_clear_in_control_map,
}
use mpgc.Descriptor.Header.Frame.{SameObject}
use mpgc.Descriptor.Header.Laws.{install-is_valid, IsFlagged, control_map_flag_lem}

-- A heap with room for one external descriptor.
external_word : category (2 ^ 62) ≡ external
unfolding category decode
external_word = refl

abbrev one_external : ExternalHeap
one_external = record {
  State = Option ExternalDescriptor;
  external_at = λ s rep. s;
  make_external = λ s d. (2 ^ 62, some d);
  is_external = λ s d. external_word;
  is_there = λ s d. refl;
}

-- A type with 16 fields, of which the first eight and the last are references: it gets a bitmap.
abbrev nine : List ℕ
nine = 15 ∷ 0 ∷ 1 ∷ 2 ∷ 3 ∷ 4 ∷ 5 ∷ 6 ∷ 7 ∷ []

to_descriptor-IsDescriptor_example :
    (r : ℕ × Option ExternalDescriptor) × (to_descriptor one_external 16 nine none ≡ some r)
    × IsDescriptor one_external 16 (sort nine) r
to_descriptor-IsDescriptor_example =
    to_descriptor-IsDescriptor one_external 16 nine none (omega arith) (omega arith) (omega arith)
      (λ e. absurd (omega (arith, e)))

abbrev eight : List ℕ
eight = 0 ∷ 1 ∷ 2 ∷ 3 ∷ 4 ∷ 5 ∷ 6 ∷ 7 ∷ []

to_descriptor_eight_example : to_descriptor one_external 20 eight none ≡ none
to_descriptor_eight_example = to_descriptor_eight one_external 20 eight none refl (omega arith)

abbrev pair : List ℕ
pair = 1 ∷ 3 ∷ []

for_each_ref_index-bitmap_rep_example :
    for_each_ref_index (λ rep. none) (bitmap_rep 4 pair) ≡ some (below (4 - 1) pair)
for_each_ref_index-bitmap_rep_example =
    for_each_ref_index-bitmap_rep 4 pair (omega arith) (omega arith) (omega arith) (λ rep. none)

-- The last field is not visited.
last_missed : below (4 - 1) pair ≡ 1 ∷ []
last_missed = refl

-- A blob of five words.
abbrev five_words : ℕ
five_words = 2 ^ 63 + 2 ^ 60 + 5 * 2 ^ 24

five_words-is_compact : is_compact five_words ≡ true
unfolding decode_bool
five_words-is_compact = refl

install-is_valid_example :
    (rep' : ℕ) × (install 640 five_words ≡ some rep')
    × ((at : ℕ → Option ExternalDescriptor) → SameObject five_words rep' at)
    × ((me q : ℕ) (ok : Bool)
        → me ≢ 0
        → me % 8 ≡ 0
        → is_valid me q ok rep' ≡ (640 / 8 % 2 ^ 22 == q / 8 % 2 ^ 22))
install-is_valid_example = install-is_valid five_words (omega arith) 640 five_words-is_compact

control_map_flag_lem_example :
    IsFlagged five_words true (atomic_set_in_control_map five_words)
    × IsFlagged five_words Bool.false (atomic_clear_in_control_map five_words)
control_map_flag_lem_example = control_map_flag_lem five_words (omega arith) five_words-is_compact

-- The type above gets a bitmap, which misses its last field.
nine_get_bitmap : to_descriptor one_external 16 nine none ≡ some (bitmap_rep 16 (sort nine), none)
unfolding to_descriptor by_list by_positive list_rep max_val bitmap_rep sort
nine_get_bitmap = refl
