-- ===== src/MarkBitmap/Scan.antt =====
-- The searches of `mark_bitmap` (include/mpgc/gc_thread.h) that sweeping makes: the next word in
-- use, the previous one, and the loop over words that both are.
pub mod Loop
pub mod NextUsed
pub mod PrevUsed
use mpgc.Prelude.{
  ℕ, zero, suc, ◌+◌, ◌-◌, ◌*◌, ◌/◌, ◌%◌, ◌≤◌, ◌<◌, bit_and, List, get_elem?, Option, none, some,
  ◌>>=◌, leb, ◌==◌, if◌then◌else◌, ◌≡◌, ◌≢◌, refl, Bool, true,
}
use mpgc.MarkBitmap.Word.{
  construct_left_mask, construct_right_mask, construct_bitmap_word, compute_bitmap_index,
  compute_bit_number, bits_per_value,
}
use mpgc.MarkBitmap.Zeros.{clzl, ctzl}
use mpgc.MarkBitmap.Defs.{MarkBitmap}

-- How `while (B == 0) { idx++; if (idx == end_idx) return ...; B = words[idx]; }` ends.
pub data Scan : Type 0 where
  reached : (idx : ℕ) → Scan
  found : (idx B : ℕ) → Scan

-- On fuel; `none` is an access out of the array, or no fuel.
unfoldable pub scan : ℕ → List ℕ → ℕ → ℕ → ℕ → Option Scan
scan zero words end_idx idx B = none
scan (suc fuel) words end_idx idx B =
    let rest = get_elem? words (idx + 1) >>= λ B'. scan fuel words end_idx (idx + 1) B' in
    if B == 0
    then (if idx + 1 == end_idx then some (reached (idx + 1)) else rest)
    else some (found idx B)

-- `idx << value_log_bits`, with the first set bit of the word that is not zero.
abbrev pub first_set : Scan → ℕ
first_set (reached i) = i * 64
first_set (found i B) = i * 64 + clzl B

-- The fuel is the number of words left, one for each round.
unfoldable pub find_next_used_word : MarkBitmap → ℕ → ℕ → Option ℕ
unfolding scan
find_next_used_word bm word end =
    let bit = compute_bit_number word in
    let idx = compute_bitmap_index word in
    let end_idx = compute_bitmap_index end in
    let search = (do
      B ← get_elem? bm.begin idx
      outcome ← scan (end_idx - idx) bm.begin end_idx idx (bit_and B (construct_left_mask bit))
      some (first_set outcome)) in
    if leb end_idx idx then some (idx * 64) else search

-- `while (B == 0) { if (idx == 0) return 0; B = _end[--idx]; }`
unfoldable pub scan_back : List ℕ → ℕ → ℕ → Option Scan
scan_back words zero B = some (if B == 0 then reached 0 else found 0 B)
scan_back words (suc idx) B =
    let rest = get_elem? words idx >>= λ B'. scan_back words idx B' in
    if B == 0 then rest else some (found (suc idx) B)

abbrev pub after_last_set : Scan → ℕ
after_last_set (reached i) = 0
after_last_set (found i B) = i * 64 + (bits_per_value - ctzl B)

unfoldable pub find_prev_used_word : MarkBitmap → ℕ → Option ℕ
unfolding scan_back
find_prev_used_word bm word = do
  B ← get_elem? bm.end (compute_bitmap_index word)
  outcome ←
      scan_back bm.end (compute_bitmap_index word)
        (bit_and B (construct_right_mask (compute_bit_number word)))
  some (after_last_set outcome)

-- The outer loop of `find_next_free_word`, from bit `bit` of word `idx`; the result is the word and
-- whether a set bit has been found.
unfoldable pub next_free : ℕ → MarkBitmap → ℕ → ℕ → ℕ → Bool → Option (ℕ × Bool)
next_free zero bm end_idx idx bit found_set_bit = none
next_free (suc fuel) bm end_idx idx bit found_set_bit =
    let continue = λ (i b : ℕ).
      let again = next_free fuel bm end_idx i b true in
      (get_elem? bm.begin i >>= λ B.
      if leb 1 (bit_and B (construct_bitmap_word b)) then again else some (i * 64 + b, true)) in
    get_elem? bm.end idx >>= λ B0.
    scan (end_idx - idx) bm.end end_idx idx (bit_and B0 (construct_left_mask bit)) >>= λ outcome.
    elim outcome [
      | reached i ↦ some (i * 64, found_set_bit)
      | found i B ↦
          if B == 1
          then (if i + 1 == end_idx then some ((i + 1) * 64, true) else continue (i + 1) 0)
          else continue i (clzl B + 1)
    ]

-- At most one round for each word of the heap that is left.
unfoldable pub find_next_free_word : MarkBitmap → ℕ → ℕ → Bool → Option (ℕ × Bool)
unfolding next_free
find_next_free_word bm word end found_set_bit =
    next_free (compute_bitmap_index end * 64 - word + 1) bm (compute_bitmap_index end)
      (compute_bitmap_index word) (compute_bit_number word) found_set_bit
