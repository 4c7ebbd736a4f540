-- ===== src/MarkBitmap/Marking.antt =====
-- Marking and testing objects in `mark_bitmap` (include/mpgc/gc_thread.h): what the operations do
-- to the bits that the arrays stand for.
use mathlib.Core.Option
use mpgc.Prelude.{
  ◌>>=◌, ℕ, ◌/◌, ◌<◌, ◌≡◌, refl, arith, length, ◌==◌, get_elem?-eq-get_or, if◌then◌else◌, some,
  Bool, true, false, not, ◌||◌, ◌∙◌, Bool-cases, inl, inr,
}
use mpgc.MarkBitmap.Word.{compute_bitmap_index, compute_bit_number}
use mpgc.MarkBitmap.Defs.{
  MarkBitmap, mark_begin, mark_end, unmark_end, is_marked, mark_end_first, mark_begin_then_end,
  mark_begin_first, is_marked_at, is_marked_or_null,
}
use mpgc.MarkBitmap.Array.{
  IsArray, bit_at, put, erase, fetch_or-eq-put, fetch_and-eq-erase, bit_at-put, IsArray-put,
  length-put, and_test-bit_at,
}

-- What the constructor establishes, with every word in 64 bits.
pub record IsValid (bm : MarkBitmap) : Type 0 where
  pub begin_size : length bm.begin ≡ bm.size
  pub end_size : length bm.end ≡ bm.size
  pub weak_size : length bm.weak ≡ bm.size
  pub begin_words : IsArray bm.begin
  pub end_words : IsArray bm.end
  pub weak_words : IsArray bm.weak

-- A word offset that the bitmap covers.
abbrev pub InHeap : MarkBitmap → ℕ → Type 0
InHeap bm w = compute_bitmap_index w < bm.size

abbrev pub is_begun : MarkBitmap → ℕ → Bool
is_begun bm w = bit_at bm.begin w == 1

abbrev pub is_ended : MarkBitmap → ℕ → Bool
is_ended bm w = bit_at bm.end w == 1

module _ (bm : MarkBitmap) (v : IsValid bm) (w : ℕ) (inside : InHeap bm w) where
  pub mark_begin_lem :
      mark_begin bm (compute_bitmap_index w) (compute_bit_number w)
      ≡ some (not (is_begun bm w), record bm { begin = put bm.begin w })
  unfolding mark_begin
  mark_begin_lem = rw (
    fetch_or-eq-put bm.begin w (omega (arith, v.begin_size)),
    and_test-bit_at bm.begin w v.begin_words,
  )

  pub mark_end_lem :
      mark_end bm (compute_bitmap_index w) (compute_bit_number w)
      ≡ some (not (is_ended bm w), record bm { end = put bm.end w })
  unfolding mark_end
  mark_end_lem =
      rw
        (fetch_or-eq-put bm.end w (omega (arith, v.end_size)), and_test-bit_at bm.end w v.end_words)

  -- The bit is cleared, no other changes, and the result says whether it was set.
  pub unmark_end_lem : unmark_end bm w ≡ some (is_ended bm w, record bm { end = erase bm.end w })
  unfolding unmark_end
  unmark_end_lem = rw (
    fetch_and-eq-erase bm.end w (omega (arith, v.end_size)),
    and_test-bit_at bm.end w v.end_words,
  )

  pub is_marked_lem :
      is_marked bm (compute_bitmap_index w) (compute_bit_number w) ≡ some (is_begun bm w)
  unfolding is_marked
  is_marked_lem = rw (
    get_elem?-eq-get_or bm.begin (compute_bitmap_index w) 0 (omega (arith, v.begin_size)),
    and_test-bit_at bm.begin w v.begin_words,
  )

  pub put_begin-IsValid : IsValid (record bm { begin = put bm.begin w })
  put_begin-IsValid = record {
    begin_size = length-put bm.begin w ∙ v.begin_size;
    end_size = v.end_size;
    weak_size = v.weak_size;
    begin_words = IsArray-put bm.begin w (omega (arith, v.begin_size)) v.begin_words;
    end_words = v.end_words;
    weak_words = v.weak_words;
  }

  pub put_end-IsValid : IsValid (record bm { end = put bm.end w })
  put_end-IsValid = record {
    begin_size = v.begin_size;
    end_size = length-put bm.end w ∙ v.end_size;
    weak_size = v.weak_size;
    begin_words = v.begin_words;
    end_words = IsArray-put bm.end w (omega (arith, v.end_size)) v.end_words;
    weak_words = v.weak_words;
  }

-- What marking the object on the words from `b` to `e` does, with `r` the call's result.
pub record IsObjectMarked (bm bm' : MarkBitmap) (b e : ℕ) (r : Bool) : Type 0 where
  pub claimed : r ≡ not (is_begun bm b)
  pub valid : IsValid bm'
  pub same_size : bm'.size ≡ bm.size
  pub begins : (u : ℕ) → bit_at bm'.begin u ≡ (if b == u then 1 else bit_at bm.begin u)
  pub ends : (u : ℕ) → bit_at bm'.end u ≡ (if e == u then 1 else bit_at bm.end u)
  pub same_weak : bm'.weak ≡ bm.weak
  pub same_sweep_begin : bm'.sweep_bitmap_begin ≡ bm.sweep_bitmap_begin
  pub same_sweep_end : bm'.sweep_bitmap_end ≡ bm.sweep_bitmap_end

module _ (bm : MarkBitmap) (v : IsValid bm) (b e : ℕ) (b_inside : InHeap bm b)
    (e_inside : InHeap bm e) where
  abbrev pub both_put : MarkBitmap
  both_put = record bm { begin = put bm.begin b; end = put bm.end e }

  pub both_put-IsValid : IsValid both_put
  both_put-IsValid =
      put_begin-IsValid (record bm { end = put bm.end e }) (put_end-IsValid bm v e e_inside) b
        b_inside

  pub both_put-IsObjectMarked : IsObjectMarked bm both_put b e (not (is_begun bm b))
  both_put-IsObjectMarked = record {
    claimed = refl;
    valid = both_put-IsValid;
    same_size = refl;
    begins = bit_at-put bm.begin b (omega (arith, v.begin_size));
    ends = bit_at-put bm.end e (omega (arith, v.end_size));
    same_weak = refl;
    same_sweep_begin = refl;
    same_sweep_end = refl;
  }

  pub mark_end_first_lem : mark_end_first bm b e ≡ some (not (is_begun bm b), both_put)
  unfolding mark_end_first
  mark_end_first_lem = rw (
    mark_end_lem bm v e e_inside,
    mark_begin_lem (record bm { end = put bm.end e }) (put_end-IsValid bm v e e_inside) b b_inside,
  )

  -- `_mark_end_first` of an object in the heap does not fail. It sets the begin bit of its first
  -- word and the end bit of its last, changes nothing else, and returns true exactly when the
  -- begin bit was clear before.
  pub mark_end_first-IsObjectMarked :
      (r : Bool) × (bm' : MarkBitmap) × (mark_end_first bm b e ≡ some (r, bm'))
      × IsObjectMarked bm bm' b e r
  mark_end_first-IsObjectMarked =
      (not (is_begun bm b), both_put, mark_end_first_lem, both_put-IsObjectMarked)

  -- `mark_begin_first`, for a new object: the begin bit is set; the end bit is set if this call was
  -- the first to set the begin bit, and else left alone.
  pub mark_begin_first_lem :
      mark_begin_first bm b e
      ≡ some (
          if is_begun bm b
          then record bm { begin = put bm.begin b }
          else record bm { begin = put bm.begin b; end = put bm.end e })
  unfolding mark_begin_first
  mark_begin_first_lem = rw (mark_begin_lem bm v b b_inside) (elim (Bool-cases (is_begun bm b)) [
    | inl e1 ↦ rw e1 refl
    | inr e1 ↦
        rw
          (
            e1,
            mark_end_lem (record bm { begin = put bm.begin b }) (put_begin-IsValid bm v b b_inside)
                e e_inside,
          )
          refl
  ])

  -- The order of the two bits does not matter to what is set, only to what the result reports.
  pub mark_begin_then_end_lem : mark_begin_then_end bm b e ≡ some (not (is_ended bm e), both_put)
  unfolding mark_begin_then_end
  mark_begin_then_end_lem = rw (
    mark_begin_lem bm v b b_inside,
    mark_end_lem (record bm { begin = put bm.begin b }) (put_begin-IsValid bm v b b_inside) e
        e_inside,
  )

-- The public `is_marked` of a heap offset reads the begin bit of the word it lies in; the form for
-- weak pointers takes the null offset for marked.
pub is_marked_at_lem :
    (bm : MarkBitmap)
    → IsValid bm
    → (offset : ℕ) → InHeap bm (offset / 8)
    → (is_marked_at bm offset ≡ some (is_begun bm (offset / 8)))
      × (is_marked_or_null bm offset true ≡ some (offset / 8 == 0 || is_begun bm (offset / 8)))
unfolding is_marked_at is_marked_or_null
is_marked_at_lem bm v offset inside = (
  is_marked_lem bm v (offset / 8) inside,
  rw (is_marked_lem bm v (offset / 8) inside) (ground arith),
)

-- Of two markings of an object the second does not fail, and reports that it has not marked it.
pub mark_end_first-mark_end_first :
    (bm : MarkBitmap)
    → IsValid bm
    → (b e : ℕ) → InHeap bm b
    → InHeap bm e
    → (mark_end_first bm b e >>= λ (r : Bool × MarkBitmap).
        Option.map (λ r'. r'.0) (mark_end_first (r.1) b e))
      ≡ some false
mark_end_first-mark_end_first bm v b e hb he =
    rw
      (
        mark_end_first_lem bm v b e hb he,
        mark_end_first_lem mid (both_put-IsValid bm v b e hb he) b e hb he,
      )
      (ground (arith, bit_at-put bm.begin b (omega (arith, v.begin_size)) b))
  where
    mid : MarkBitmap
    mid = both_put bm v b e hb he
