-- ===== src/MarkBitmap/Tests.antt =====
-- Runs of the bitmap's operations on a heap of two bitmap words, with an object on the words 3 to 5
-- and one on the words 60 to 70.
use mathlib.Core.Option
use mpgc.Prelude.{
  ◌>>=◌, ℕ, zero, suc, ◌≡◌, refl, ◌||◌, ◌==◌, List, [], ◌∷◌, some, Bool, true, false, arith,
}
use mpgc.MarkBitmap.Word.{IsWord}
use mpgc.Prelude.Bits.{test_bit}
use mpgc.MarkBitmap.Zeros.{clzl, ctzl}
use mpgc.MarkBitmap.Defs.{MarkBitmap, mark_end_first, is_marked_at, is_marked_or_null}
use mpgc.MarkBitmap.Array.{IsArray}
use mpgc.MarkBitmap.Marking.{
  IsValid, IsObjectMarked, is_begun, mark_end_first-IsObjectMarked, is_marked_at_lem,
  mark_end_first-mark_end_first,
}
use mpgc.MarkBitmap.Scan.{find_next_used_word, find_prev_used_word}
use mpgc.MarkBitmap.Scan.NextUsed.{IsFirst, find_next_used_word-IsFirst}
use mpgc.MarkBitmap.Scan.PrevUsed.{IsAfterLast, find_prev_used_word-IsAfterLast}

abbrev begins : List ℕ
begins = 1152921504606846984 ∷ 0 ∷ []

abbrev ends : List ℕ
ends = 288230376151711744 ∷ 144115188075855872 ∷ []

abbrev zeros : List ℕ
zeros = 0 ∷ 0 ∷ []

abbrev bitmap : MarkBitmap
bitmap = record {
  size = 2;
  begin = begins;
  end = ends;
  weak = zeros;
  sweep_bitmap_begin = 0 ∷ [];
  sweep_bitmap_end = 0 ∷ [];
}

two_words : (a b : ℕ) → IsWord a → IsWord b → IsArray (a ∷ b ∷ [])
two_words a b ha hb zero = ha
two_words a b ha hb (suc zero) = hb
two_words a b ha hb (suc (suc i)) = omega arith

bitmap-IsValid : IsValid bitmap
bitmap-IsValid = record {
  begin_size = refl;
  end_size = refl;
  weak_size = refl;
  begin_words = two_words _ _ (omega arith) (omega arith);
  end_words = two_words _ _ (omega arith) (omega arith);
  weak_words = two_words _ _ (omega arith) (omega arith);
}

mark_end_first-IsObjectMarked_example :
    (r : Bool) × (bm' : MarkBitmap) × (mark_end_first bitmap 10 20 ≡ some (r, bm'))
    × IsObjectMarked bitmap bm' 10 20 r
mark_end_first-IsObjectMarked_example =
    mark_end_first-IsObjectMarked bitmap bitmap-IsValid 10 20 (omega arith) (omega arith)

second_marking :
    (mark_end_first bitmap 10 20 >>= λ (r : Bool × MarkBitmap).
    Option.map (λ r'. r'.0) (mark_end_first (r.1) 10 20))
    ≡ some false
second_marking =
    mark_end_first-mark_end_first bitmap bitmap-IsValid 10 20 (omega arith) (omega arith)

is_marked_at_example :
    (is_marked_at bitmap 24 ≡ some (is_begun bitmap 3))
    × (is_marked_or_null bitmap 24 true ≡ some (3 == 0 || is_begun bitmap 3))
is_marked_at_example = is_marked_at_lem bitmap bitmap-IsValid 24 (omega arith)

find_next_used_word-IsFirst_example :
    (r : ℕ) × (find_next_used_word bitmap 4 128 ≡ some r) × IsFirst begins 4 128 r
find_next_used_word-IsFirst_example =
    find_next_used_word-IsFirst bitmap bitmap-IsValid 4 128 (omega arith) (omega arith)

find_prev_used_word-IsAfterLast_example :
    (r : ℕ) × (find_prev_used_word bitmap 66 ≡ some r) × IsAfterLast ends 66 r
find_prev_used_word-IsAfterLast_example =
    find_prev_used_word-IsAfterLast bitmap bitmap-IsValid 66 (omega arith)

find_next_used_word_60 : find_next_used_word bitmap 4 128 ≡ some 60
unfolding find_next_used_word clzl test_bit
find_next_used_word_60 = refl

find_prev_used_word_6 : find_prev_used_word bitmap 66 ≡ some 6
unfolding find_prev_used_word ctzl
find_prev_used_word_6 = refl
