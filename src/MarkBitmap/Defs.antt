-- ===== src/MarkBitmap/Defs.antt =====
-- The state of `mark_bitmap` (include/mpgc/gc_thread.h) and the operations that set and test its
-- bits. A failed assertion on an index, or an access out of an array, is `none`.
use mathlib.Core.Option
use mpgc.Prelude.{
  ℕ, ◌/◌, ◌%◌, ◌^◌, bit_and, bit_or, Bool, true, not, ◌||◌, Option, some, List, get_elem?, set,
  if◌then◌else◌, ◌>>=◌, ◌==◌,
}
use mpgc.Prelude.Bits.{complement}
use mpgc.MarkBitmap.Word.{
  value_log_bits, bits_per_value, construct_bitmap_word, compute_bitmap_index, compute_bit_number,
  and_test,
}

-- `_begin`, `_end` and `_weak` have `_size` words each, the two sweep bitmaps `_sweep_bitmap_size`.
pub record MarkBitmap : Type 0 where
  pub size : ℕ
  pub begin : List ℕ
  pub end : List ℕ
  pub weak : List ℕ
  pub sweep_bitmap_begin : List ℕ
  pub sweep_bitmap_end : List ℕ

-- `std::atomic::fetch_or` and `fetch_and` on one element: the value before, and the array after.
unfoldable pub fetch_or : List ℕ → ℕ → ℕ → Option (ℕ × List ℕ)
fetch_or words idx mask =
    Option.map (λ res. (res, set words idx (bit_or res mask))) (get_elem? words idx)

unfoldable pub fetch_and : List ℕ → ℕ → ℕ → Option (ℕ × List ℕ)
fetch_and words idx mask =
    Option.map (λ res. (res, set words idx (bit_and res mask))) (get_elem? words idx)

unfoldable pub mark_begin : MarkBitmap → ℕ → ℕ → Option (Bool × MarkBitmap)
unfolding fetch_or
mark_begin bm idx bit = do
  let desired = construct_bitmap_word bit
  (res, words) ← fetch_or bm.begin idx desired
  some (not (and_test res desired), record bm { begin = words })

unfoldable pub mark_end : MarkBitmap → ℕ → ℕ → Option (Bool × MarkBitmap)
unfolding fetch_or
mark_end bm idx bit = do
  let desired = construct_bitmap_word bit
  (res, words) ← fetch_or bm.end idx desired
  some (not (and_test res desired), record bm { end = words })

unfoldable pub unmark_end : MarkBitmap → ℕ → Option (Bool × MarkBitmap)
unfolding fetch_and
unmark_end bm word = do
  let desired = construct_bitmap_word (compute_bit_number word)
  (prev, words) ← fetch_and bm.end (compute_bitmap_index word) (complement 64 desired)
  some (and_test prev desired, record bm { end = words })

unfoldable pub mark_weak : MarkBitmap → ℕ → Option MarkBitmap
unfolding fetch_or
mark_weak bm word = do
  let desired = construct_bitmap_word (compute_bit_number word)
  (res, words) ← fetch_or bm.weak (compute_bitmap_index word) desired
  some (record bm { weak = words })

unfoldable pub is_end_marked : MarkBitmap → ℕ → ℕ → Option Bool
is_end_marked bm idx bit =
    Option.map (λ word. and_test word (construct_bitmap_word bit)) (get_elem? bm.end idx)

unfoldable pub is_marked : MarkBitmap → ℕ → ℕ → Option Bool
is_marked bm idx bit =
    Option.map (λ word. and_test word (construct_bitmap_word bit)) (get_elem? bm.begin idx)

-- `_mark_end_first` on the first and last word of an object: has this call marked it?
unfoldable pub mark_end_first : MarkBitmap → ℕ → ℕ → Option (Bool × MarkBitmap)
mark_end_first bm beg_word end_word = do
  (_, bm') ← mark_end bm (compute_bitmap_index end_word) (compute_bit_number end_word)
  mark_begin bm' (compute_bitmap_index beg_word) (compute_bit_number beg_word)

-- `_mark_begin_first`.
unfoldable pub mark_begin_then_end : MarkBitmap → ℕ → ℕ → Option (Bool × MarkBitmap)
mark_begin_then_end bm beg_word end_word = do
  (_, bm') ← mark_begin bm (compute_bitmap_index beg_word) (compute_bit_number beg_word)
  mark_end bm' (compute_bitmap_index end_word) (compute_bit_number end_word)

-- `mark_begin_first`, which marks the end only if it was the one to mark the begin.
unfoldable pub mark_begin_first : MarkBitmap → ℕ → ℕ → Option MarkBitmap
mark_begin_first bm beg_word end_word = do
  (first, bm') ← mark_begin bm (compute_bitmap_index beg_word) (compute_bit_number beg_word)
  if first
      then Option.map (λ r. r.1)
          (mark_end bm' (compute_bitmap_index end_word) (compute_bit_number end_word))
      else some bm'

-- `is_marked(p)` for an object at a byte offset; with `check_null` the null offset is marked.
unfoldable pub is_marked_at : MarkBitmap → ℕ → Option Bool
is_marked_at bm offset =
    let beg_word = offset / 2 ^ 3 in
    is_marked bm (compute_bitmap_index beg_word) (compute_bit_number beg_word)

unfoldable pub is_marked_or_null : MarkBitmap → ℕ → Bool → Option Bool
is_marked_or_null bm offset check_null =
    let beg_word = offset / 2 ^ 3 in
    if not check_null || not (beg_word == 0)
    then is_marked bm (compute_bitmap_index beg_word) (compute_bit_number beg_word)
    else some true

-- The sweep bitmaps: a bit for each logical chunk, set or cleared as the cycle's sense says.
unfoldable pub set_sweep_bitmap : List ℕ → ℕ → ℕ → Bool → Option (List ℕ)
set_sweep_bitmap words idx desired on =
    if on
    then Option.map (λ r. r.1) (fetch_or words idx desired)
    else Option.map (λ r. r.1) (fetch_and words idx (complement 64 desired))

unfoldable pub set_sweep_bitmap_both : MarkBitmap → ℕ → Bool → Option MarkBitmap
set_sweep_bitmap_both bm nr_chunk on = do
  let index = nr_chunk / 2 ^ value_log_bits
  let desired = construct_bitmap_word (nr_chunk % bits_per_value)
  ends ← set_sweep_bitmap bm.sweep_bitmap_end index desired on
  begins ← set_sweep_bitmap bm.sweep_bitmap_begin index desired on
  some (record bm { sweep_bitmap_end = ends; sweep_bitmap_begin = begins })

unfoldable pub is_end_sweep_bitmap_set : MarkBitmap → ℕ → Bool → Option Bool
is_end_sweep_bitmap_set bm nr_chunk on = do
  val ← get_elem? bm.sweep_bitmap_end (nr_chunk / 2 ^ value_log_bits)
  let expected = construct_bitmap_word (nr_chunk % bits_per_value)
  some (if on then and_test val expected else and_test (complement 64 val) expected)
