-- ===== src/MarkBitmap/Zeros.antt =====
-- `__builtin_clzl` and `__builtin_ctzl` on a 64-bit word that is not zero.
use mpgc.Prelude.{ℕ, zero, suc, ◌-◌, ◌/◌, ◌%◌, ◌≤◌, ◌<◌, ◌≡◌, ◌≢◌, arith, ◌==◌, if◌then◌else◌}
use mpgc.Prelude.{Bool-cases, inl, inr, refl, dec_lt, ℕ_discrete, subst, sym, ==_iff, ◌+◌}
use mpgc.Prelude.Bits.{test_bit, test_bit-le, eq_zero_of_bits}
use mpgc.MarkBitmap.Word.{left_bit, IsWord}

-- Zeros at the left end of the lowest `n` bits.
count_leading : ℕ → ℕ → ℕ
count_leading zero x = 0
count_leading (suc n) x = if test_bit x n == 1 then 0 else suc (count_leading n x)

-- Zeros at the right end of the lowest `n` bits.
count_trailing : ℕ → ℕ → ℕ
count_trailing zero x = 0
count_trailing (suc n) x = if x % 2 == 1 then 0 else suc (count_trailing n (x / 2))

unfoldable pub clzl : ℕ → ℕ
unfolding count_leading
clzl x = count_leading 64 x

unfoldable pub ctzl : ℕ → ℕ
unfolding count_trailing
ctzl x = count_trailing 64 x

count_leading-le : (n x : ℕ) → count_leading n x ≤ n
unfolding count_leading
count_leading-le zero x = omega arith
count_leading-le (suc n) x = ground (arith, count_leading-le n x)

count_leading-zeros : (n x i : ℕ) → i < n → n ≤ i + count_leading n x → test_bit x i ≡ 0
unfolding count_leading
count_leading-zeros zero x i lt h = absurd (omega arith)
count_leading-zeros (suc n) x i lt h = elim (ℕ_discrete i n) [
  | yes e ↦ subst (λ j. test_bit x j ≡ 0) (sym e) (ground (arith, test_bit-le x n))
  | no ne ↦ ground (arith, count_leading-zeros n x i (omega arith))
]

count_leading_bit : (n x : ℕ) → count_leading n x < n → test_bit x (n - 1 - count_leading n x) ≡ 1
unfolding count_leading
count_leading_bit zero x h = absurd (omega arith)
count_leading_bit (suc n) x h = elim (Bool-cases (test_bit x n == 1)) [
  | inl e ↦
      let here : suc n - 1 - 0 ≡ n = omega arith in rw e (rw here ((==_iff (test_bit x n) 1).0 e))
  | inr e ↦
      let there : suc n - 1 - suc (count_leading n x) ≡ n - 1 - count_leading n x = omega arith in
      rw e (rw there (count_leading_bit n x (ground arith)))
]

count_trailing-le : (n x : ℕ) → count_trailing n x ≤ n
unfolding count_trailing
count_trailing-le zero x = omega arith
count_trailing-le (suc n) x = ground (arith, count_trailing-le n (x / 2))

count_trailing-zeros : (n x i : ℕ) → i < count_trailing n x → test_bit x i ≡ 0
unfolding count_trailing test_bit
count_trailing-zeros zero x i h = absurd (omega arith)
count_trailing-zeros (suc n) x zero h = ground arith
count_trailing-zeros (suc n) x (suc i) h = ground (arith, count_trailing-zeros n (x / 2) i)

count_trailing_bit : (n x : ℕ) → count_trailing n x < n → test_bit x (count_trailing n x) ≡ 1
unfolding count_trailing
count_trailing_bit zero x h = absurd (omega arith)
count_trailing_bit (suc n) x h = elim (Bool-cases (x % 2 == 1)) [
  | inl e ↦ rw e (unfold test_bit in (==_iff (x % 2) 1).0 e)
  | inr e ↦ rw e (halved _ (count_trailing_bit n (x / 2) (ground arith)))
]
  where
    halved : (j : ℕ) → test_bit (x / 2) j ≡ 1 → test_bit x (suc j) ≡ 1
    halved j p = unfold test_bit in p

-- The first set bit from the left, and nothing set before it.
pub clzl_lem :
    (x : ℕ)
    → IsWord x
    → x ≢ 0
    → (clzl x < 64) × (left_bit x (clzl x) ≡ 1) × ((c : ℕ) → c < clzl x → left_bit x c ≡ 0)
unfolding clzl
clzl_lem x hx ne = (
  small,
  count_leading_bit 64 x small,
  λ c lt. count_leading-zeros 64 x (63 - c) (omega arith) (omega (arith, small)),
)
  where
    small : count_leading 64 x < 64
    small = elim (dec_lt (count_leading 64 x) 64) [
      | yes lt ↦ lt
      | no ge ↦
          absurd (ne (eq_zero_of_bits 64 x hx λ i lt. count_leading-zeros 64 x i lt (omega arith)))
    ]

-- The last set bit from the left stands `ctzl` before the right end.
pub ctzl_lem :
    (x : ℕ)
    → IsWord x
    → x ≢ 0
    → (ctzl x < 64)
      × (left_bit x (63 - ctzl x) ≡ 1)
      × ((c : ℕ) → 63 - ctzl x < c → c < 64 → left_bit x c ≡ 0)
unfolding ctzl
ctzl_lem x hx ne = (
  small,
  rw back (count_trailing_bit 64 x small),
  λ c lt lt'. count_trailing-zeros 64 x (63 - c) (omega (arith, small)),
)
  where
    small : count_trailing 64 x < 64
    small = elim (dec_lt (count_trailing 64 x) 64) [
      | yes lt ↦ lt
      | no ge ↦
          absurd (ne (eq_zero_of_bits 64 x hx λ i lt. count_trailing-zeros 64 x i (omega arith)))
    ]

    back : 63 - (63 - count_trailing 64 x) ≡ count_trailing 64 x
    back = omega (arith, small)

clzl_runs : clzl 0x0010_0000_0000_0000 ≡ 11
unfolding clzl test_bit
clzl_runs = refl

ctzl_runs : ctzl 0x0010_0000_0000_0000 ≡ 52
unfolding ctzl
ctzl_runs = refl
