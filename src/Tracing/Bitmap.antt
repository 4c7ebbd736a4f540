-- ===== src/Tracing/Bitmap.antt =====
-- `MarkBitmap` as the marks of a collector. An object is known by the word offset of its first word,
-- and `last_word` gives that of its last, as `get_beg_word` and `get_end_word` do.
use mpgc.Prelude.{ℕ, ◌<◌, ◌≡◌, refl, Bool, true, false, not, ◌||◌, ◌==◌, some, arith}
use mpgc.MarkBitmap.Word.{compute_bitmap_index}
use mpgc.MarkBitmap.Defs.{MarkBitmap, mark_end_first}
use mpgc.MarkBitmap.Array.{bit_at-put}
use mpgc.MarkBitmap.Marking.{IsValid, is_begun, both_put, both_put-IsValid, mark_end_first_lem}
use mpgc.Tracing.Marks.{Marks}

-- A heap of `size` bitmap words, in which the objects that `valid` names lie.
pub record Layout (valid : ℕ → Bool) : Type 0 where
  pub size : ℕ
  pub last_word : ℕ → ℕ
  pub first_inside : (p : ℕ) → valid p ≡ true → compute_bitmap_index p < size
  pub last_inside : (p : ℕ) → valid p ≡ true → compute_bitmap_index (last_word p) < size

pub record Bitmap (size : ℕ) : Type 0 where
  pub bitmap : MarkBitmap
  pub is_valid : IsValid bitmap
  pub same_size : bitmap.size ≡ size

module _ (valid : ℕ → Bool) (h : Layout valid) where
  module _ (s : Bitmap h.size) (p : ℕ) (ok : valid p ≡ true) where
    pub first_in : compute_bitmap_index p < s.bitmap.size
    first_in = omega (arith, h.first_inside p ok, s.same_size)

    pub last_in : compute_bitmap_index (h.last_word p) < s.bitmap.size
    last_in = omega (arith, h.last_inside p ok, s.same_size)

    unfoldable pub after : Bitmap h.size
    after = record {
      bitmap = both_put s.bitmap s.is_valid p (h.last_word p) first_in last_in;
      is_valid = both_put-IsValid s.bitmap s.is_valid p (h.last_word p) first_in last_in;
      same_size = s.same_size;
    }

    -- The marked state is the one that `mark_end_first` of the bitmap returns.
    pub after_lem :
        mark_end_first s.bitmap p (h.last_word p) ≡ some (not (is_begun s.bitmap p), after.bitmap)
    unfolding after
    after_lem = mark_end_first_lem s.bitmap s.is_valid p (h.last_word p) first_in last_in

    pub after_marks : (q : ℕ) → is_begun after.bitmap q ≡ (p == q || is_begun s.bitmap q)
    unfolding after
    after_marks q =
        ground
          (arith, bit_at-put s.bitmap.begin p (omega (arith, first_in, s.is_valid.begin_size)) q)

  unfoldable pub mark_if : Bitmap h.size → (p : ℕ) → (b : Bool) → valid p ≡ b → Bool × Bitmap h.size
  mark_if s p true ok = (not (is_begun s.bitmap p), after s p ok)
  mark_if s p false bad = (false, s)

  abbrev pub mark : Bitmap h.size → ℕ → Bool × Bitmap h.size
  mark s p = mark_if s p (valid p) refl

  pub mark-valid :
      (s : Bitmap h.size) (p : ℕ) (b : Bool) (e : valid p ≡ b) (ok : valid p ≡ true)
      → ((mark_if s p b e).0 ≡ not (is_begun s.bitmap p))
        × ((q : ℕ) → is_begun (mark_if s p b e).1.bitmap q ≡ (p == q || is_begun s.bitmap q))
  unfolding mark_if
  mark-valid s p true e ok = (refl, after_marks s p e)
  mark-valid s p false e ok = absurd (cc)

  abbrev pub bitmap_marks : Marks valid
  bitmap_marks = record {
    State = Bitmap h.size;
    is_marked = λ s p. is_begun s.bitmap p;
    mark_end_first = mark;
    mark_claims = λ s p ok. (mark-valid s p (valid p) refl ok).0;
    mark_marks = λ s p q ok. (mark-valid s p (valid p) refl ok).1 q;
  }
