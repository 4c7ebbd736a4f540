-- ===== src/MarkBitmap/Array.antt =====
-- An array of bitmap words as the bits that it stands for, one for each word offset of the heap.
use mpgc.Prelude.{
  ℕ, ◌≤◌, ◌<◌, bit_and, bit_or, ◌≡◌, ap, subst, arith, List, length, get_or, set, get_or-set_self,
  get_or-set_ne, get_elem?-eq-get_or, length-set, ◌==◌, if◌then◌else◌, ℕ_discrete, some,
}
use mpgc.Prelude.Bits.{complement, bit_or-lt, bit_and-le, test_bit-le}
use mpgc.MarkBitmap.Word.{
  IsWord, left_bit, construct_bitmap_word, compute_bitmap_index, compute_bit_number, and_test,
  left_bit-set, left_bit-clear, construct-IsWord, and_test-bitmap_word,
}
use mpgc.MarkBitmap.Defs.{fetch_or, fetch_and}

abbrev pub IsArray : List ℕ → Type 0
IsArray ws = (i : ℕ) → IsWord (get_or ws i 0)

unfoldable pub bit_at : List ℕ → ℕ → ℕ
bit_at ws w = left_bit (get_or ws (compute_bitmap_index w) 0) (compute_bit_number w)

abbrev pub bitmap_word : ℕ → ℕ
bitmap_word w = construct_bitmap_word (compute_bit_number w)

-- The array with the bit of `w` set, and with it cleared.
pub put : List ℕ → ℕ → List ℕ
put ws w =
    set ws (compute_bitmap_index w) (bit_or (get_or ws (compute_bitmap_index w) 0) (bitmap_word w))

pub erase : List ℕ → ℕ → List ℕ
erase ws w =
    set ws (compute_bitmap_index w)
      (bit_and (get_or ws (compute_bitmap_index w) 0) (complement 64 (bitmap_word w)))

module _ (ws : List ℕ) (w : ℕ) (inside : compute_bitmap_index w < length ws) where
  pub fetch_or-eq-put :
      fetch_or ws (compute_bitmap_index w) (bitmap_word w)
      ≡ some (get_or ws (compute_bitmap_index w) 0, put ws w)
  unfolding fetch_or put
  fetch_or-eq-put = rw (get_elem?-eq-get_or ws (compute_bitmap_index w) 0 inside)

  pub fetch_and-eq-erase :
      fetch_and ws (compute_bitmap_index w) (complement 64 (bitmap_word w))
      ≡ some (get_or ws (compute_bitmap_index w) 0, erase ws w)
  unfolding fetch_and erase
  fetch_and-eq-erase = rw (get_elem?-eq-get_or ws (compute_bitmap_index w) 0 inside)

  same_word :
      (v x : ℕ)
      → compute_bitmap_index w ≡ compute_bitmap_index v
      → get_or (set ws (compute_bitmap_index w) x) (compute_bitmap_index v) 0 ≡ x
  same_word v x e =
      subst (λ j. get_or (set ws (compute_bitmap_index w) x) j 0 ≡ x) e
        (get_or-set_self ws (compute_bitmap_index w) x 0 inside)

  pub bit_at-put : (v : ℕ) → bit_at (put ws w) v ≡ (if w == v then 1 else bit_at ws v)
  unfolding bit_at put
  bit_at-put v = elim (ℕ_discrete (compute_bitmap_index w) (compute_bitmap_index v)) [
    | yes e ↦ rw (same_word v _ e) (
        ground (
          arith,
          e,
          left_bit-set (get_or ws (compute_bitmap_index w) 0) (compute_bit_number w)
              (compute_bit_number v) (omega arith) (omega arith),
          ap (λ j. left_bit (get_or ws j 0) (compute_bit_number v)) e,
        ))
    | no ne ↦
        rw (get_or-set_ne ws (compute_bitmap_index w) (compute_bitmap_index v) _ 0 ne)
          (ground arith)
  ]

  pub bit_at-erase : (v : ℕ) → bit_at (erase ws w) v ≡ (if w == v then 0 else bit_at ws v)
  unfolding bit_at erase
  bit_at-erase v = elim (ℕ_discrete (compute_bitmap_index w) (compute_bitmap_index v)) [
    | yes e ↦ rw (same_word v _ e) (
        ground (
          arith,
          e,
          left_bit-clear (get_or ws (compute_bitmap_index w) 0) (compute_bit_number w)
              (compute_bit_number v) (omega arith) (omega arith),
          ap (λ j. left_bit (get_or ws j 0) (compute_bit_number v)) e,
        ))
    | no ne ↦
        rw (get_or-set_ne ws (compute_bitmap_index w) (compute_bitmap_index v) _ 0 ne)
          (ground arith)
  ]

  IsArray-set : (x : ℕ) → IsWord x → IsArray ws → IsArray (set ws (compute_bitmap_index w) x)
  IsArray-set x hx h i = elim (ℕ_discrete (compute_bitmap_index w) i) [
    | yes e ↦
        subst (λ j. IsWord (get_or (set ws (compute_bitmap_index w) x) j 0)) e
          (rw (get_or-set_self ws (compute_bitmap_index w) x 0 inside) hx)
    | no ne ↦ rw (get_or-set_ne ws (compute_bitmap_index w) i x 0 ne) (h i)
  ]

  pub IsArray-put : IsArray ws → IsArray (put ws w)
  unfolding put
  IsArray-put h = IsArray-set _ (bit_or-lt 64 _ _ (h _) (construct-IsWord (compute_bit_number w))) h

  pub IsArray-erase : IsArray ws → IsArray (erase ws w)
  unfolding erase
  IsArray-erase h =
      IsArray-set _
        (omega (
          arith,
          h (compute_bitmap_index w),
          bit_and-le 64 (get_or ws (compute_bitmap_index w) 0) (complement 64 (bitmap_word w))
              (h (compute_bitmap_index w)),
        ))
        h

pub length-put : (ws : List ℕ) (w : ℕ) → length (put ws w) ≡ length ws
unfolding put
length-put ws w = length-set ws _ _

pub length-erase : (ws : List ℕ) (w : ℕ) → length (erase ws w) ≡ length ws
unfolding erase
length-erase ws w = length-set ws _ _

pub bit_at-le : (ws : List ℕ) (w : ℕ) → bit_at ws w ≤ 1
unfolding bit_at
bit_at-le ws w = test_bit-le _ _

-- The test that the operations make on the word that they read.
pub and_test-bit_at :
    (ws : List ℕ) (w : ℕ)
    → IsArray ws
    → and_test (get_or ws (compute_bitmap_index w) 0) (bitmap_word w) ≡ (bit_at ws w == 1)
unfolding bit_at
and_test-bit_at ws w h = and_test-bitmap_word _ (compute_bit_number w) (h _)
