-- ===== src/LocalPool/Align.antt =====
-- `align_size_up` (include/mpgc/gc_skiplist_allocator.h) and `required_padding`
-- (src/gc_skiplist_allocator.cpp).
use mpgc.Prelude.{
  ℕ, suc, ◌+◌, ◌-◌, ◌*◌, ◌/◌, ◌%◌, ◌^◌, ◌≤◌, ◌<◌, bit_and, ◌≡◌, arith, ◌==◌, if◌then◌else◌,
  ℕ_discrete, ◌∙◌, ap, sym,
}
use mpgc.Prelude.Bits.{complement}
use mpgc.Prelude.Bits.Masks.{bit_and-high}
use native.Mathlib.Nat.{one-le-pow, div-add-mod', mod-lt, pow-suc, mul_assoc, mul-mod_left}

-- `(size + (alignment - 1)) & ~(alignment - 1)` on 64-bit words.
unfoldable pub align_size_up : ℕ → ℕ → ℕ
align_size_up size alignment =
    let less_one = (alignment + 2 ^ 64 - 1) % 2 ^ 64 in
    bit_and ((size + less_one) % 2 ^ 64) (complement 64 less_one)

-- Addresses of chunks are in words; the source has bytes.
unfoldable pub required_padding : ℕ → ℕ → ℕ
unfolding align_size_up
required_padding c algn =
    let n = c * 8 in if algn == 1 then 0 else (align_size_up n (algn * 8) - n) / 8

-- Rounded up to a multiple of `a`, by division.
round_up : (n a : ℕ) → 0 < a → (n ≤ (n + a - 1) / a * a) × ((n + a - 1) / a * a < n + a)
round_up n a pos =
    let parts = div-add-mod' (n + a - 1) a in
    let small = mod-lt (n + a - 1) pos in (omega (arith, parts, small), omega (arith, parts, small))

pub align_size_up_lem :
    (n k : ℕ)
    → n + 2 ^ k ≤ 2 ^ 64
    → k < 64
    → align_size_up n (2 ^ k) ≡ (n + 2 ^ k - 1) / 2 ^ k * 2 ^ k
unfolding align_size_up
align_size_up_lem n k fits small =
    let pos : 1 ≤ 2 ^ k = one-le-pow k 2 (omega arith) in
    let less_one : (2 ^ k + 2 ^ 64 - 1) % 2 ^ 64 ≡ 2 ^ k - 1 = omega arith in
    let sum : (n + (2 ^ k - 1)) % 2 ^ 64 ≡ n + 2 ^ k - 1 = omega arith in
    let mask : complement 64 (2 ^ k - 1) ≡ 2 ^ 64 - 2 ^ k = omega arith in
    rw (less_one, sum, mask) (bit_and-high k 64 (n + 2 ^ k - 1) (omega arith) (omega arith))

-- For an alignment of 2 ^ k words with `k` below 61, and an address that lies low enough for 64 bits
-- with the alignment added, the padding is less than the alignment, and the address behind it is aligned.
pub required_padding_lem :
    (c k : ℕ)
    → (c + 2 ^ k) * 8 ≤ 2 ^ 64
    → k < 61
    → (required_padding c (2 ^ k) < 2 ^ k) × ((c + required_padding c (2 ^ k)) % 2 ^ k ≡ 0)
unfolding required_padding
required_padding_lem c k fits small = elim (ℕ_discrete (2 ^ k) 1) [
  | yes e ↦ rw e (omega arith, omega arith)
  | no ne ↦
      let pos : 1 ≤ 2 ^ k = one-le-pow k 2 (omega arith) in
      let K = suc (suc (suc k)) in
      let eight : 2 ^ k * 8 ≡ 2 ^ K =
        omega (arith, pow-suc 2 k, pow-suc 2 (suc k), pow-suc 2 (suc (suc k))) in
      let q = (c * 8 + 2 ^ K - 1) / 2 ^ K in
      let bytes : q * 2 ^ K ≡ q * 2 ^ k * 8 =
        ap (λ n. q * n) (sym eight) ∙ sym (mul_assoc q (2 ^ k) 8) in
      let up : align_size_up (c * 8) (2 ^ k * 8) ≡ q * 2 ^ k * 8 =
        rw eight (align_size_up_lem (c * 8) K (omega arith) (omega arith) ∙ bytes) in
      let (lo, hi) = round_up (c * 8) (2 ^ K) (omega arith) in
      let pad : (if 2 ^ k == 1 then 0 else (align_size_up (c * 8) (2 ^ k * 8) - c * 8) / 8)
          ≡ q * 2 ^ k - c =
        ground (arith, up) in
      let whole : c + (q * 2 ^ k - c) ≡ q * 2 ^ k = omega (arith, lo, bytes) in
      rw (pad, whole) (omega (arith, lo, hi, bytes, eight), mul-mod_left q (2 ^ k))
]
