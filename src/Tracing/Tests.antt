-- ===== src/Tracing/Tests.antt =====
-- Runs of tracing on small heaps, marked in a bitmap of one word.
use mpgc.Prelude.{
  ℕ, zero, suc, ◌<◌, ◌≡◌, refl, ◌↔◌, ◌||◌, ◌==◌, List, [], ◌∷◌, none, some, Bool, true, false,
  arith, get_or, if◌then◌else◌,
}
use mpgc.Prelude.Bits.{test_bit, test_bit-zero}
use mpgc.MarkBitmap.Word.{compute_bitmap_index}
use mpgc.MarkBitmap.Defs.{MarkBitmap}
use mpgc.MarkBitmap.Array.{bit_at, IsArray}
use mpgc.MarkBitmap.Marking.{IsValid, is_begun}
use mpgc.Tracing.Graph.{Field, Graph, strong, weak, contingent, IsLive}
use mpgc.Tracing.Marks.{Marks}
use mpgc.Tracing.CtrlMap.{size}
use mpgc.Tracing.Bitmap.{Layout, Bitmap, bitmap_marks}
use mpgc.Tracing.Collector.{Collector, empty_collector_stack}
use mpgc.Tracing.Ends.{work, load, unscanned, empty_collector_stack_ends}
use mpgc.Tracing.Correct.{IsStart, empty_collector_stack-IsLive}

-- Object 1 holds 2, and 4 under the control of 3; 2 holds 3; 5 is garbage that holds 1.
abbrev fields_of : ℕ → List Field
fields_of p =
    if p == 1
    then (10, strong 2) ∷ (11, weak 3) ∷ (12, contingent 4) ∷ []
    else if p == 2
    then (20, strong 3) ∷ []
    else if p == 5
    then (50, strong 1) ∷ []
    else []

abbrev is_object : ℕ → Bool
is_object p = p == 1 || p == 2 || p == 3 || p == 4 || p == 5

is_object-lt : (p : ℕ) → is_object p ≡ true → p < 6
is_object-lt p e = ground arith

abbrev heap : Graph
heap = record { valid = is_object; fields = fields_of; limit = 6; bounded = is_object-lt }

abbrev layout : Layout is_object
layout = record {
  size = 1;
  last_word = λ p. p;
  first_inside = λ p ok. omega (arith, is_object-lt p ok);
  last_inside = λ p ok. omega (arith, is_object-lt p ok);
}

abbrev empty_bitmap : MarkBitmap
empty_bitmap = record {
  size = 1;
  begin = 0 ∷ [];
  end = 0 ∷ [];
  weak = 0 ∷ [];
  sweep_bitmap_begin = 0 ∷ [];
  sweep_bitmap_end = 0 ∷ [];
}

abbrev zero_words : List ℕ
zero_words = 0 ∷ []

zeros : (i : ℕ) → get_or zero_words i 0 ≡ 0
zeros zero = refl
zeros (suc i) = refl

zeros-IsArray : IsArray zero_words
zeros-IsArray i = omega (arith, zeros i)

empty_bitmap-IsValid : IsValid empty_bitmap
empty_bitmap-IsValid = record {
  begin_size = refl;
  end_size = refl;
  weak_size = refl;
  begin_words = zeros-IsArray;
  end_words = zeros-IsArray;
  weak_words = zeros-IsArray;
}

empty_bitmap-clear : (t : ℕ) → is_begun empty_bitmap t ≡ false
unfolding bit_at
empty_bitmap-clear t = rw (zeros (compute_bitmap_index t), test_bit-zero) refl

abbrev marks : Marks is_object
marks = bitmap_marks is_object layout

abbrev start : Collector (Bitmap 1)
start = record {
  marks = record { bitmap = empty_bitmap; is_valid = empty_bitmap-IsValid; same_size = refl };
  queue = 1 ∷ [];
  ctrl_map = [];
  weak = [];
  marking_ref = none;
}

start-IsStart : IsStart heap marks (1 ∷ []) start
start-IsStart = record { queue = refl; ctrl_map = refl; unmarked = λ t. empty_bitmap-clear t }

start-work : work heap marks start < 20
unfolding work load unscanned size bit_at test_bit
start-work = omega arith

empty_collector_stack_ends_example :
    (r : Bool × Collector (Bitmap 1)) × (empty_collector_stack heap marks 20 false start ≡ some r)
    × (r.1.queue ≡ [])
empty_collector_stack_ends_example = empty_collector_stack_ends heap marks 20 false start start-work

empty_collector_stack-IsLive_example :
    (r : Bool × Collector (Bitmap 1)) × (empty_collector_stack heap marks 20 false start ≡ some r)
    × (r.1.queue ≡ [])
    × ((t : ℕ) → (is_begun r.1.marks.bitmap t ≡ true) ↔ IsLive heap (1 ∷ []) t)
empty_collector_stack-IsLive_example =
    empty_collector_stack-IsLive heap marks (1 ∷ []) 20 start start-IsStart start-work
