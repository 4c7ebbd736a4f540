-- ===== src/MarkBitmap/Scan/Loop.antt =====
-- What the loop over the words of a bitmap finds.
use mpgc.Prelude.{
  ℕ, zero, suc, ◌+◌, ◌*◌, ◌≤◌, ◌<◌, List, length, get_or, get_elem?-eq-get_or, some, ◌≡◌, ◌≢◌, refl,
  arith, ℕ_discrete, inl, inr, ◌⊎◌, subst, sym, ap,
}
use mpgc.Prelude.Bits.{test_bit-zero}
use mpgc.MarkBitmap.Word.{left_bit, compute_bitmap_index, compute_bit_number}
use mpgc.MarkBitmap.Array.{bit_at}
use mpgc.MarkBitmap.Scan.{Scan, reached, found, scan, scan_back}

-- The words strictly between `lo` and `hi` are zero.
abbrev pub AreZero : List ℕ → ℕ → ℕ → Type 0
AreZero ws lo hi = (j : ℕ) → lo < j → j < hi → get_or ws j 0 ≡ 0

-- Where a search forward from word `idx`, whose masked contents are `B`, may end.
abbrev pub Ends : List ℕ → ℕ → ℕ → ℕ → Scan → Type 0
Ends ws idx B hi (reached i) = (i ≡ hi) × (B ≡ 0) × AreZero ws idx hi
Ends ws idx B hi (found i B') =
    (idx ≤ i)
    × (i < hi)
    × (B' ≢ 0)
    × AreZero ws idx i
    × (((i ≡ idx) × (B' ≡ B)) ⊎ ((idx < i) × (B ≡ 0) × (B' ≡ get_or ws i 0)))

Ends-later :
    (ws : List ℕ) (idx B hi : ℕ) (s : Scan)
    → B ≡ 0
    → Ends ws (idx + 1) (get_or ws (idx + 1) 0) hi s
    → Ends ws idx B hi s
Ends-later ws idx B hi (reached i) z (e, z', all) = (
  e,
  z,
  λ j lo up. elim (ℕ_discrete j (idx + 1)) [
    | yes same ↦ rw same z'
    | no ne ↦ all j (omega arith) up
  ],
)
Ends-later ws idx B hi (found i B') z (le, lt, ne, all, inl (e, same)) = (
  omega arith,
  lt,
  ne,
  λ j lo up. absurd (omega arith),
  inr (omega arith, z, subst (λ k. B' ≡ get_or ws k 0) (sym e) same),
)
Ends-later ws idx B hi (found i B') z (le, lt, ne, all, inr (lt', z', same)) = (
  omega arith,
  lt,
  ne,
  λ j lo up. elim (ℕ_discrete j (idx + 1)) [ yes e ↦ rw e z' | no ne' ↦ all j (omega arith) up ],
  inr (omega arith, z, same),
)

pub scan-Ends :
    (fuel : ℕ) (ws : List ℕ) (hi idx B : ℕ)
    → idx < hi
    → hi ≤ length ws
    → hi ≤ idx + fuel
    → (s : Scan) × (scan fuel ws hi idx B ≡ some s) × Ends ws idx B hi s
unfolding scan
scan-Ends zero ws hi idx B lt le enough = absurd (omega arith)
scan-Ends (suc fuel) ws hi idx B lt le enough = elim (ℕ_discrete B 0) [
  | no ne ↦ (
    found idx B,
    ground arith,
    (omega arith, lt, ne, (λ j lo up. absurd (omega arith)), inl (refl, refl)),
  )
  | yes z ↦ elim (ℕ_discrete (idx + 1) hi) [
    | yes last ↦ (reached (idx + 1), ground arith, (last, z, λ j lo up. absurd (omega arith)))
    | no more ↦
        let inside : idx + 1 < length ws = omega arith in
        let (s, e, ends) =
          scan-Ends fuel ws hi (idx + 1) (get_or ws (idx + 1) 0) (omega arith) le (omega arith) in
        (
          s,
          ground (arith, get_elem?-eq-get_or ws (idx + 1) 0 inside, e),
          Ends-later ws idx B hi s z ends,
        )
  ]
]

-- Where a search back from word `idx` may end.
abbrev pub EndsBack : List ℕ → ℕ → ℕ → Scan → Type 0
EndsBack ws idx B (reached i) = (B ≡ 0) × ((j : ℕ) → j < idx → get_or ws j 0 ≡ 0)
EndsBack ws idx B (found i B') =
    (i ≤ idx)
    × (B' ≢ 0)
    × AreZero ws i idx
    × (((i ≡ idx) × (B' ≡ B)) ⊎ ((i < idx) × (B ≡ 0) × (B' ≡ get_or ws i 0)))

EndsBack-earlier :
    (ws : List ℕ) (idx B : ℕ) (s : Scan)
    → B ≡ 0
    → EndsBack ws idx (get_or ws idx 0) s
    → EndsBack ws (suc idx) B s
EndsBack-earlier ws idx B (reached i) z (z', all) =
    (z, λ j lt. elim (ℕ_discrete j idx) [ yes e ↦ rw e z' | no ne ↦ all j (omega arith) ])
EndsBack-earlier ws idx B (found i B') z (le, ne, all, inl (e, same)) = (
  omega arith,
  ne,
  λ j lo up. absurd (omega arith),
  inr (omega arith, z, subst (λ k. B' ≡ get_or ws k 0) (sym e) same),
)
EndsBack-earlier ws idx B (found i B') z (le, ne, all, inr (lt, z', same)) = (
  omega arith,
  ne,
  λ j lo up. elim (ℕ_discrete j idx) [ yes e ↦ rw e z' | no ne' ↦ all j lo (omega arith) ],
  inr (omega arith, z, same),
)

pub scan_back-EndsBack :
    (ws : List ℕ) (idx B : ℕ)
    → idx < length ws
    → (s : Scan) × (scan_back ws idx B ≡ some s) × EndsBack ws idx B s
unfolding scan_back
scan_back-EndsBack ws zero B lt = elim (ℕ_discrete B 0) [
  | no ne ↦ (
    found 0 B,
    ground arith,
    (omega arith, ne, (λ j lo up. absurd (omega arith)), inl (refl, refl)),
  )
  | yes z ↦ (reached 0, ground arith, (z, λ j up. absurd (omega arith)))
]
scan_back-EndsBack ws (suc idx) B lt = elim (ℕ_discrete B 0) [
  | no ne ↦ (
    found (suc idx) B,
    ground arith,
    (omega arith, ne, (λ j lo up. absurd (omega arith)), inl (refl, refl)),
  )
  | yes z ↦
      let inside : idx < length ws = omega arith in
      let (s, e, ends) = scan_back-EndsBack ws idx (get_or ws idx 0) inside in
      (
        s,
        ground (arith, get_elem?-eq-get_or ws idx 0 inside, e),
        EndsBack-earlier ws idx B s z ends,
      )
]

-- A word that is zero has no bit set.
pub bit_at_of_zero :
    (ws : List ℕ) (w : ℕ) → get_or ws (compute_bitmap_index w) 0 ≡ 0 → bit_at ws w ≡ 0
unfolding bit_at
bit_at_of_zero ws w e = rw e (test_bit-zero _)

-- The bits of word `i`.
pub bit_at_word :
    (ws : List ℕ) (i v : ℕ)
    → compute_bitmap_index v ≡ i
    → bit_at ws v ≡ left_bit (get_or ws i 0) (compute_bit_number v)
unfolding bit_at
bit_at_word ws i v e = ap (λ j. left_bit (get_or ws j 0) (compute_bit_number v)) e

pub bit_at_offset :
    (ws : List ℕ) (i c : ℕ) → c < 64 → bit_at ws (i * 64 + c) ≡ left_bit (get_or ws i 0) c
bit_at_offset ws i c lt =
    subst (λ k. bit_at ws (i * 64 + c) ≡ left_bit (get_or ws i 0) k) number
      (bit_at_word ws i (i * 64 + c) (omega arith))
  where
    number : compute_bit_number (i * 64 + c) ≡ c
    number = omega arith
