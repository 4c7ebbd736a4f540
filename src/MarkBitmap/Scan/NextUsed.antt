-- ===== src/MarkBitmap/Scan/NextUsed.antt =====
-- `find_next_used_word` finds the first begin bit.
use mpgc.Prelude.{
  ℕ, ◌+◌, ◌-◌, ◌*◌, ◌≤◌, ◌<◌, bit_and, List, length, get_or, get_elem?-eq-get_or, some,
  if◌then◌else◌, ◌≡◌, ◌≢◌, ltb, arith, ℕ_discrete, inl, inr, ◌⊎◌, dec_lt, ap, leb-false, ◌∙◌,
}
use mpgc.Prelude.Bits.{test_bit-zero, bit_and-le}
use mpgc.MarkBitmap.Word.{
  IsWord, left_bit, compute_bitmap_index, compute_bit_number, construct_left_mask,
  left_bit-left_mask,
}
use mpgc.MarkBitmap.Zeros.{clzl, clzl_lem}
use mpgc.MarkBitmap.Defs.{MarkBitmap}
use mpgc.MarkBitmap.Array.{IsArray, bit_at}
use mpgc.MarkBitmap.Marking.{IsValid}
use mpgc.MarkBitmap.Scan.{Scan, reached, found, scan, first_set, find_next_used_word}
use mpgc.MarkBitmap.Scan.Loop.{AreZero, Ends, scan-Ends, bit_at_of_zero, bit_at_word, bit_at_offset}

-- The first set bit from `word` on is at `r`, or there is none below `limit` and `r` is `limit`.
pub record IsFirst (ws : List ℕ) (word limit r : ℕ) : Type 0 where
  pub from : word ≤ r
  pub upto : r ≤ limit
  pub clear : (v : ℕ) → word ≤ v → v < r → bit_at ws v ≡ 0
  pub set_or_limit : (r ≡ limit) ⊎ ((r < limit) × (bit_at ws r ≡ 1))

module _ (ws : List ℕ) (word hi : ℕ) (words : IsArray ws)
    (below : compute_bitmap_index word < hi) where
  abbrev idx : ℕ
  idx = compute_bitmap_index word

  abbrev masked : ℕ
  masked = bit_and (get_or ws idx 0) (construct_left_mask (compute_bit_number word))

  masked-IsWord : IsWord masked
  masked-IsWord = omega (
    arith,
    words idx,
    bit_and-le 64 (get_or ws idx 0) (construct_left_mask (compute_bit_number word)) (words idx),
  )

  -- The bits of the first word that the mask keeps.
  masked_left :
      (c : ℕ)
      → c < 64
      → left_bit masked c
        ≡ (if ltb c (compute_bit_number word) then 0 else left_bit (get_or ws idx 0) c)
  masked_left c lt = left_bit-left_mask (get_or ws idx 0) (compute_bit_number word) c lt

  masked_bit :
      (v : ℕ)
      → word ≤ v
      → compute_bitmap_index v ≡ idx
      → bit_at ws v ≡ left_bit masked (compute_bit_number v)
  masked_bit v le e =
      ground (arith, e, masked_left (compute_bit_number v) (omega arith), bit_at_word ws idx v e)

  clear_first : masked ≡ 0 → (v : ℕ) → word ≤ v → compute_bitmap_index v ≡ idx → bit_at ws v ≡ 0
  clear_first z v le e =
      masked_bit v le e ∙ ap (λ x. left_bit x (compute_bit_number v)) z ∙ test_bit-zero _

  clear_between :
      (top v : ℕ)
      → masked ≡ 0
      → AreZero ws idx top
      → word ≤ v
      → compute_bitmap_index v < top
      → bit_at ws v ≡ 0
  clear_between top v z all le lt = elim (ℕ_discrete (compute_bitmap_index v) idx) [
    | yes e ↦ clear_first z v le e
    | no ne ↦ bit_at_of_zero ws v (all (compute_bitmap_index v) (omega arith) lt)
  ]

  IsFirst-same : masked ≢ 0 → IsFirst ws word (hi * 64) (idx * 64 + clzl masked)
  IsFirst-same ne =
      let (small, one, before) = clzl_lem masked masked-IsWord ne in
      let keeps : compute_bit_number word ≤ clzl masked =
        ground (arith, one, masked_left (clzl masked) small) in
      record {
        from = omega (arith, keeps);
        upto = omega (arith, small);
        clear = λ v le lt.
            let e : compute_bitmap_index v ≡ idx = omega (arith, small) in
            masked_bit v le e ∙ before (compute_bit_number v) (omega (arith, e));
        set_or_limit = inr (
          omega (arith, small),
          ground (
            arith,
            one,
            masked_left (clzl masked) small,
            bit_at_offset ws idx (clzl masked) small,
          ),
        );
      }

  IsFirst-later :
      (i : ℕ)
      → masked ≡ 0
      → AreZero ws idx i
      → idx < i
      → i < hi
      → get_or ws i 0 ≢ 0
      → IsFirst ws word (hi * 64) (i * 64 + clzl (get_or ws i 0))
  IsFirst-later i z all lt lt' ne =
      let (small, one, before) = clzl_lem (get_or ws i 0) (words i) ne in
      record {
        from = omega arith;
        upto = omega (arith, small);
        clear = λ v le lt''. elim (dec_lt (compute_bitmap_index v) i) [
          | yes below' ↦ clear_between i v z all le below'
          | no last ↦
              let e : compute_bitmap_index v ≡ i = omega (arith, small) in
              bit_at_word ws i v e ∙ before (compute_bit_number v) (omega (arith, e))
        ];
        set_or_limit = inr (omega (arith, small), bit_at_offset ws i _ small ∙ one);
      }

  Ends-IsFirst : (s : Scan) → Ends ws idx masked hi s → IsFirst ws word (hi * 64) (first_set s)
  Ends-IsFirst (reached i) (e, z, all) = record {
    from = omega arith;
    upto = omega arith;
    clear = λ v le lt. clear_between hi v z all le (omega arith);
    set_or_limit = inl (omega arith);
  }
  Ends-IsFirst (found i B') (le, lt, ne, all, inl (e, same)) =
      rw (e, same) (IsFirst-same (rw (← same) ne))
  Ends-IsFirst (found i B') (le, lt, ne, all, inr (lt', z, same)) =
      rw same (IsFirst-later i z all lt' lt (rw (← same) ne))

find_next_used_word_lem :
    (bm : MarkBitmap) (word end : ℕ)
    → compute_bitmap_index word < compute_bitmap_index end
    → compute_bitmap_index end ≤ length bm.begin
    → (s : Scan)
    → scan
        (compute_bitmap_index end - compute_bitmap_index word)
        bm.begin
        (compute_bitmap_index end)
        (compute_bitmap_index word)
        (bit_and
          (get_or bm.begin (compute_bitmap_index word) 0)
          (construct_left_mask (compute_bit_number word)))
      ≡ some s
    → find_next_used_word bm word end ≡ some (first_set s)
unfolding find_next_used_word
find_next_used_word_lem bm word end below inside s e = rw (
  get_elem?-eq-get_or bm.begin (compute_bitmap_index word) 0 (omega arith),
  leb-false (compute_bitmap_index end) (compute_bitmap_index word) below,
  e,
)

-- With `end` in a later word than `word` the search does not fail: it gives the first marked word of
-- the heap from `word` on, or the start of the bitmap word of `end` if none is marked before that.
pub find_next_used_word-IsFirst :
    (bm : MarkBitmap)
    → IsValid bm
    → (word end : ℕ) → compute_bitmap_index word < compute_bitmap_index end
    → compute_bitmap_index end ≤ bm.size
    → (r : ℕ) × (find_next_used_word bm word end ≡ some r)
      × IsFirst bm.begin word (compute_bitmap_index end * 64) r
find_next_used_word-IsFirst bm v word end below inside =
    let (s, e, ends) =
      scan-Ends (compute_bitmap_index end - compute_bitmap_index word) bm.begin
        (compute_bitmap_index end) (compute_bitmap_index word)
        (masked bm.begin word (compute_bitmap_index end) v.begin_words below) below
        (omega (arith, v.begin_size)) (omega arith) in
    (
      first_set s,
      find_next_used_word_lem bm word end below (omega (arith, v.begin_size)) s e,
      Ends-IsFirst bm.begin word (compute_bitmap_index end) v.begin_words below s ends,
    )
