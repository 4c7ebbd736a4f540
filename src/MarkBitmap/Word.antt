-- ===== src/MarkBitmap/Word.antt =====
-- One word of the mark bitmap (include/mpgc/gc_thread.h): a word offset of the heap is a word of
-- the bitmap and a bit in it, counted from the left; the masks, and the compiler's counts of
-- leading and trailing zeros.
use mpgc.Prelude.{
  ℕ, ◌+◌, ◌-◌, ◌*◌, ◌/◌, ◌%◌, ◌^◌, ◌≤◌, ◌<◌, bit_and, bit_or, ◌≡◌, ap, Bool, arith, ltb, ◌==◌,
  if◌then◌else◌, not, ℕ_discrete, dec_lt, ◌∙◌,
}
use mpgc.Prelude.Bits.{
  test_bit, test_bit-le, test_bit-or, test_bit-and, test_bit-pow_self, test_bit-pow_ne,
  test_bit-low, test_bit_of_lt, complement, test_bit-complement, test_bit-shift_right,
  bit_and-pow-eq-zero, bit_and-pow-ne-zero,
}
use native.Mathlib.Nat.{one-le-pow, pow-le-pow_right}

-- `bits_per_value`, `value_log_bits`, `chunk_size_log_bits`.
abbrev pub bits_per_value : ℕ
bits_per_value = 64

abbrev pub value_log_bits : ℕ
value_log_bits = 6

abbrev pub chunk_size_log_bits : ℕ
chunk_size_log_bits = 10

abbrev pub IsWord : ℕ → Type 0
IsWord x = x < 2 ^ 64

abbrev pub construct_left_mask : ℕ → ℕ
construct_left_mask bit = (2 ^ 64 - 1) / 2 ^ bit

abbrev pub construct_right_mask : ℕ → ℕ
construct_right_mask bit = (2 ^ 64 - 1) * 2 ^ (bits_per_value - 1 - bit) % 2 ^ 64

abbrev pub construct_bitmap_word : ℕ → ℕ
construct_bitmap_word bit = 2 ^ (bits_per_value - 1 - bit) % 2 ^ 64

-- `word_offset >> value_log_bits`, and `word_offset & (bits_per_value - 1)` as a remainder.
abbrev pub compute_bitmap_index : ℕ → ℕ
compute_bitmap_index word_offset = word_offset / 2 ^ value_log_bits

abbrev pub compute_bit_number : ℕ → ℕ
compute_bit_number word_offset = word_offset % bits_per_value

-- Bit `b` of a word, counted from the left as the bitmap counts.
abbrev pub left_bit : ℕ → ℕ → ℕ
left_bit x b = test_bit x (63 - b)

bitmap_word-eq-pow : (b : ℕ) → construct_bitmap_word b ≡ 2 ^ (63 - b)
bitmap_word-eq-pow b =
    omega (arith, pow-le-pow_right {n = 2} (omega arith) {i = 63 - b} {j = 63} (omega arith))

pub construct-IsWord : (b : ℕ) → IsWord (construct_bitmap_word b)
construct-IsWord b = omega arith

pub left_bit-bitmap_word :
    (b c : ℕ) → b < 64 → c < 64 → left_bit (construct_bitmap_word b) c ≡ (if b == c then 1 else 0)
left_bit-bitmap_word b c hb hc = elim (ℕ_discrete b c) [
  | yes e ↦
      rw (bitmap_word-eq-pow b) (ground (arith, test_bit-pow_self (63 - b), ap (λ x. 63 - x) e))
  | no ne ↦
      rw (bitmap_word-eq-pow b)
        (ground (arith, test_bit-pow_ne (63 - b) (63 - c) (λ e. ne (omega arith))))
]

left_bit-ones_above : (b c : ℕ) → c < b → c < 64 → left_bit (construct_left_mask b) c ≡ 0
left_bit-ones_above b c lt hc =
    test_bit-shift_right b (2 ^ 64 - 1) (63 - c)
    ∙ test_bit_of_lt 64 (2 ^ 64 - 1) (b + (63 - c)) (omega arith) (omega arith)

left_bit-ones_below : (b c : ℕ) → b ≤ c → c < 64 → left_bit (construct_left_mask b) c ≡ 1
left_bit-ones_below b c le hc =
    test_bit-shift_right b (2 ^ 64 - 1) (63 - c) ∙ test_bit-low 64 (b + (63 - c)) (omega arith)

pub left_bit-left_mask :
    (x b c : ℕ)
    → c < 64
    → left_bit (bit_and x (construct_left_mask b)) c ≡ (if ltb c b then 0 else left_bit x c)
left_bit-left_mask x b c hc = elim (dec_lt c b) [
  | yes lt ↦
      ground (arith, test_bit-and x (construct_left_mask b) (63 - c), left_bit-ones_above b c lt hc)
  | no ge ↦ ground (
    arith,
    test_bit-and x (construct_left_mask b) (63 - c),
    left_bit-ones_below b c (omega arith) hc,
    test_bit-le x (63 - c),
  )
]

right_mask-eq-complement : (b : ℕ) → construct_right_mask b ≡ complement 64 (2 ^ (63 - b) - 1)
right_mask-eq-complement b = omega (
  arith,
  one-le-pow (63 - b) 2,
  pow-le-pow_right {n = 2} (omega arith) {i = 63 - b} {j = 63} (omega arith),
)

left_bit-right_ones :
    (b c : ℕ) → b < 64 → c < 64 → left_bit (construct_right_mask b) c ≡ (if ltb b c then 0 else 1)
left_bit-right_ones b c hb hc = rw (right_mask-eq-complement b) (elim (dec_lt b c) [
  | yes lt ↦ ground (arith, bits, test_bit-low (63 - b) (63 - c) (omega arith))
  | no ge ↦
      ground (arith, bits, test_bit_of_lt (63 - b) (2 ^ (63 - b) - 1) (63 - c) small (omega arith))
])
  where
    small : 2 ^ (63 - b) - 1 < 2 ^ (63 - b)
    small = omega (arith, one-le-pow (63 - b) 2)

    bits :
        test_bit (complement 64 (2 ^ (63 - b) - 1)) (63 - c)
        ≡ 1 - test_bit (2 ^ (63 - b) - 1) (63 - c)
    bits =
        test_bit-complement 64 (2 ^ (63 - b) - 1) (63 - c)
          (omega
            (arith, pow-le-pow_right {n = 2} (omega arith) {i = 63 - b} {j = 63} (omega arith)))
          (omega arith)

pub left_bit-right_mask :
    (x b c : ℕ)
    → b < 64
    → c < 64
    → left_bit (bit_and x (construct_right_mask b)) c ≡ (if ltb b c then 0 else left_bit x c)
left_bit-right_mask x b c hb hc = ground (
  arith,
  test_bit-and x (construct_right_mask b) (63 - c),
  left_bit-right_ones b c hb hc,
  test_bit-le x (63 - c),
)

-- `fetch_or` of one bit, `fetch_and` of its complement, and the test that both are followed by.
pub left_bit-set :
    (x b c : ℕ)
    → b < 64
    → c < 64
    → left_bit (bit_or x (construct_bitmap_word b)) c ≡ (if b == c then 1 else left_bit x c)
left_bit-set x b c hb hc = ground (
  arith,
  test_bit-or x (construct_bitmap_word b) (63 - c),
  left_bit-bitmap_word b c hb hc,
  test_bit-le x (63 - c),
)

pub left_bit-clear :
    (x b c : ℕ)
    → b < 64
    → c < 64
    → left_bit (bit_and x (complement 64 (construct_bitmap_word b))) c
      ≡ (if b == c then 0 else left_bit x c)
left_bit-clear x b c hb hc = ground (
  arith,
  test_bit-and x (complement 64 (construct_bitmap_word b)) (63 - c),
  test_bit-complement 64 (construct_bitmap_word b) (63 - c) (construct-IsWord b) (omega arith),
  left_bit-bitmap_word b c hb hc,
  test_bit-le x (63 - c),
)

-- `x & construct_bitmap_word(b)` as a truth value.
abbrev pub and_test : ℕ → ℕ → Bool
and_test x mask = not (bit_and x mask == 0)

pub and_test-bitmap_word :
    (x b : ℕ) → IsWord x → and_test x (construct_bitmap_word b) ≡ (left_bit x b == 1)
and_test-bitmap_word x b hx = rw (bitmap_word-eq-pow b) (elim (ℕ_discrete (left_bit x b) 0) [
  | yes e ↦ ground (arith, bit_and-pow-eq-zero 64 (63 - b) x hx e)
  | no ne ↦ ground (
    arith,
    test_bit-le x (63 - b),
    bit_and-pow-ne-zero (63 - b) x (omega (arith, test_bit-le x (63 - b))),
  )
])
