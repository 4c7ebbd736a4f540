-- ===== src/Vector/Arrays.antt =====
-- Arrays on the heap, and what the standard algorithms do to a range of one. An array has at least
-- one element (include/mpgc/gc_allocate.h): the empty list stands for the null pointer. An access
-- outside the array is `none`.
use mpgc.Prelude.{
  ℕ, zero, suc, ◌+◌, ◌-◌, List, [], ◌∷◌, ◌++◌, Option, none, some, length, get_elem?, set, take,
  replicate, ltb, if◌then◌else◌, ◌>>=◌,
}

module _ {A : Type 0} where
  -- `*(begin + i) = v`.
  unfoldable pub write : ℕ → A → List A → Option (List A)
  write i v arr = if ltb i (length arr) then some (set arr i v) else none

  -- `std::fill` and `std::fill_n` of `n` elements.
  unfoldable pub fill : ℕ → ℕ → A → List A → Option (List A)
  fill zero i v arr = some arr
  fill (suc n) i v arr = do arr' ← write i v arr; fill n (i + 1) v arr'

  -- `std::copy` of a range that lies elsewhere.
  unfoldable pub copy : List A → ℕ → List A → Option (List A)
  copy [] i arr = some arr
  copy (x ∷ from) i arr = do arr' ← write i x arr; copy from (i + 1) arr'

  -- `std::move` of `n` elements within the array, from the first on.
  unfoldable pub move : ℕ → ℕ → ℕ → List A → Option (List A)
  move zero first d_first arr = some arr
  move (suc n) first d_first arr = do
    x ← get_elem? arr first
    arr' ← write d_first x arr
    move n (first + 1) (d_first + 1) arr'

  -- `std::move_backward` of `n` elements within the array, from the last on.
  unfoldable pub move_backward : ℕ → ℕ → ℕ → List A → Option (List A)
  move_backward zero last d_last arr = some arr
  move_backward (suc n) last d_last arr = do
    x ← get_elem? arr (last - 1)
    arr' ← write (d_last - 1) x arr
    move_backward n (last - 1) (d_last - 1) arr'

  -- `make_gc<gc_array<T>>(n, from, to)`, for an element type that is `zero_init_okay`: the elements
  -- of `from`, and behind them the zeroed memory of the allocation, `initial`. The constructor's loop
  -- over the elements behind is for other types.
  unfoldable pub make_array : A → ℕ → List A → List A
  make_array initial n from = take n from ++ replicate (n - length from) initial
