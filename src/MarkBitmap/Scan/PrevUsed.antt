-- ===== src/MarkBitmap/Scan/PrevUsed.antt =====
-- `find_prev_used_word` finds the last end bit.
use mpgc.Prelude.{
  ℕ, ◌+◌, ◌-◌, ◌*◌, ◌≤◌, ◌<◌, bit_and, List, length, get_or, get_elem?-eq-get_or, some,
  if◌then◌else◌, ◌≡◌, ◌≢◌, refl, ltb, arith, ℕ_discrete, inl, inr, ◌⊎◌, ap, ◌∙◌,
}
use mpgc.Prelude.Bits.{test_bit-zero, bit_and-le}
use mpgc.MarkBitmap.Word.{
  IsWord, left_bit, compute_bitmap_index, compute_bit_number, construct_right_mask,
  left_bit-right_mask,
}
use mpgc.MarkBitmap.Zeros.{ctzl, ctzl_lem}
use mpgc.MarkBitmap.Defs.{MarkBitmap}
use mpgc.MarkBitmap.Array.{IsArray, bit_at}
use mpgc.MarkBitmap.Marking.{IsValid}
use mpgc.MarkBitmap.Scan.{Scan, reached, found, after_last_set, find_prev_used_word}
use mpgc.MarkBitmap.Scan.Loop.{
  AreZero, EndsBack, scan_back-EndsBack, bit_at_of_zero, bit_at_word, bit_at_offset,
}

-- The last set bit up to `word` stands just before `r`, or there is none and `r` is 0.
pub record IsAfterLast (ws : List ℕ) (word r : ℕ) : Type 0 where
  pub upto : r ≤ word + 1
  pub clear : (v : ℕ) → r ≤ v → v ≤ word → bit_at ws v ≡ 0
  pub zero_or_set : (r ≡ 0) ⊎ ((0 < r) × (bit_at ws (r - 1) ≡ 1))

module _ (ws : List ℕ) (word : ℕ) (words : IsArray ws) where
  abbrev idx : ℕ
  idx = compute_bitmap_index word

  abbrev masked : ℕ
  masked = bit_and (get_or ws idx 0) (construct_right_mask (compute_bit_number word))

  masked-IsWord : IsWord masked
  masked-IsWord = omega (
    arith,
    words idx,
    bit_and-le 64 (get_or ws idx 0) (construct_right_mask (compute_bit_number word)) (words idx),
  )

  masked_left :
      (c : ℕ)
      → c < 64
      → left_bit masked c
        ≡ (if ltb (compute_bit_number word) c then 0 else left_bit (get_or ws idx 0) c)
  masked_left c lt =
      left_bit-right_mask (get_or ws idx 0) (compute_bit_number word) c (omega arith) lt

  masked_bit :
      (v : ℕ)
      → v ≤ word
      → compute_bitmap_index v ≡ idx
      → bit_at ws v ≡ left_bit masked (compute_bit_number v)
  masked_bit v le e =
      ground (arith, e, masked_left (compute_bit_number v) (omega arith), bit_at_word ws idx v e)

  clear_first : masked ≡ 0 → (v : ℕ) → v ≤ word → compute_bitmap_index v ≡ idx → bit_at ws v ≡ 0
  clear_first z v le e =
      masked_bit v le e ∙ ap (λ x. left_bit x (compute_bit_number v)) z ∙ test_bit-zero _

  IsAfterLast-same : masked ≢ 0 → IsAfterLast ws word (idx * 64 + (64 - ctzl masked))
  IsAfterLast-same ne =
      let (small, one, after) = ctzl_lem masked masked-IsWord ne in
      let keeps : 63 - ctzl masked ≤ compute_bit_number word =
        ground (arith, one, masked_left (63 - ctzl masked) (omega arith)) in
      let last : idx * 64 + (64 - ctzl masked) - 1 ≡ idx * 64 + (63 - ctzl masked) =
        omega (arith, small) in
      record {
        upto = omega (arith, keeps);
        clear = λ v lo le.
            let e : compute_bitmap_index v ≡ idx = omega (arith, small) in
            masked_bit v le e
            ∙ after (compute_bit_number v) (omega (arith, e, small)) (omega arith);
        zero_or_set = inr (
          omega (arith, small),
          rw last (
              ground (
                arith,
                one,
                masked_left (63 - ctzl masked) (omega arith),
                bit_at_offset ws idx (63 - ctzl masked) (omega arith),
              )),
        );
      }

  IsAfterLast-earlier :
      (i : ℕ)
      → masked ≡ 0
      → AreZero ws i idx
      → i < idx
      → get_or ws i 0 ≢ 0
      → IsAfterLast ws word (i * 64 + (64 - ctzl (get_or ws i 0)))
  IsAfterLast-earlier i z all lt ne =
      let (small, one, after) = ctzl_lem (get_or ws i 0) (words i) ne in
      let last : i * 64 + (64 - ctzl (get_or ws i 0)) - 1 ≡ i * 64 + (63 - ctzl (get_or ws i 0)) =
        omega (arith, small) in
      record {
        upto = omega (arith, small);
        clear = λ v lo le. elim (ℕ_discrete (compute_bitmap_index v) idx) [
          | yes e ↦ clear_first z v le e
          | no other ↦ elim (ℕ_discrete (compute_bitmap_index v) i) [
            | yes e ↦
                bit_at_word ws i v e
                ∙ after (compute_bit_number v) (omega (arith, e, small)) (omega arith)
            | no above ↦
                bit_at_of_zero ws v (all (compute_bitmap_index v) (omega arith) (omega arith))
          ]
        ];
        zero_or_set =
            inr (omega (arith, small), rw last (bit_at_offset ws i _ (omega arith) ∙ one));
      }

  EndsBack-IsAfterLast :
      (s : Scan) → EndsBack ws idx masked s → IsAfterLast ws word (after_last_set s)
  EndsBack-IsAfterLast (reached i) (z, all) = record {
    upto = omega arith;
    clear = λ v lo le. elim (ℕ_discrete (compute_bitmap_index v) idx) [
      | yes e ↦ clear_first z v le e
      | no other ↦ bit_at_of_zero ws v (all (compute_bitmap_index v) (omega arith))
    ];
    zero_or_set = inl refl;
  }
  EndsBack-IsAfterLast (found i B') (le, ne, all, inl (e, same)) =
      rw (e, same) (IsAfterLast-same (rw (← same) ne))
  EndsBack-IsAfterLast (found i B') (le, ne, all, inr (lt, z, same)) =
      rw same (IsAfterLast-earlier i z all lt (rw (← same) ne))

-- For a word in the heap the search does not fail: it gives the word behind the last end bit up to
-- `word`, or 0 if no end bit is set up to there.
pub find_prev_used_word-IsAfterLast :
    (bm : MarkBitmap)
    → IsValid bm
    → (word : ℕ) → compute_bitmap_index word < bm.size
    → (r : ℕ) × (find_prev_used_word bm word ≡ some r) × IsAfterLast bm.end word r
unfolding find_prev_used_word
find_prev_used_word-IsAfterLast bm v word inside =
    let in_end : compute_bitmap_index word < length bm.end = omega (arith, v.end_size) in
    let (s, e, ends) =
      scan_back-EndsBack bm.end (compute_bitmap_index word) (masked bm.end word v.end_words)
        in_end in
    (
      after_last_set s,
      rw (get_elem?-eq-get_or bm.end (compute_bitmap_index word) 0 in_end, e),
      EndsBack-IsAfterLast bm.end word v.end_words s ends,
    )
