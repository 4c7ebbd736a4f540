-- ===== src/Descriptor/Sorting.antt =====
-- Lists of field indices in increasing order: sorting, and the indices that are missing from one
-- (`to_descriptor` of src/gc_desc.cpp).
use mpgc.Prelude.{
  ℕ, zero, suc, ◌+◌, ◌-◌, ◌≤◌, ◌<◌, ◌≡◌, ◌⊎◌, inl, inr, refl, sym, ap, subst, ◌∙◌, max, List, [],
  ◌∷◌, ◌++◌, length, length-append, In, leb, Bool-cases, true, arith, dec_le,
}
use mathlib.Core.List.{append-nil}
use mpgc.Descriptor.Defs.{count_from}
use mpgc.Descriptor.Collector.{insert, sort, missing}

-- Increasing, from `i` on and below `n`.
abbrev pub IncreasingFrom : ℕ → ℕ → List ℕ → Type 0
IncreasingFrom i n [] = Unit
IncreasingFrom i n (x ∷ xs) = (i ≤ x) × (x < n) × IncreasingFrom (suc x) n xs

abbrev pub Distinct : List ℕ → Type 0
Distinct [] = Unit
Distinct (x ∷ xs) = ¬ In x xs × Distinct xs

abbrev pub AllBelow : ℕ → List ℕ → Type 0
AllBelow n [] = Unit
AllBelow n (x ∷ xs) = (x < n) × AllBelow n xs

pub IncreasingFrom-le :
    (i j n : ℕ) (xs : List ℕ) → i ≤ j → IncreasingFrom j n xs → IncreasingFrom i n xs
IncreasingFrom-le i j n [] le h = tt
IncreasingFrom-le i j n (x ∷ xs) le h = (omega arith, h.1, h.2)

insert-IncreasingFrom :
    (i n x : ℕ) (ys : List ℕ)
    → i ≤ x
    → x < n
    → ¬ In x ys
    → IncreasingFrom i n ys
    → IncreasingFrom i n (insert x ys)
unfolding insert
insert-IncreasingFrom i n x [] le lt new h = (le, lt, tt)
insert-IncreasingFrom i n x (y ∷ ys) le lt new h = elim (Bool-cases (leb x y)) [
  | inl e ↦ rw e (le, lt, (less e, h.1, h.2))
  | inr e ↦
      rw e (h.0, h.1, insert-IncreasingFrom (suc y) n x ys (ground arith) lt (λ m. new (inr m)) h.2)
]
  where
    less : leb x y ≡ true → suc x ≤ y
    less e = elim (dec_le (suc x) y) [ yes p ↦ p | no p ↦ absurd (new (inl (ground arith))) ]

In-of_insert : (z x : ℕ) (ys : List ℕ) → In z (insert x ys) → (z ≡ x) ⊎ In z ys
unfolding insert
In-of_insert z x [] h = h
In-of_insert z x (y ∷ ys) h = elim (Bool-cases (leb x y)) [
  | inl e ↦ rw e at h
  | inr e ↦ behind (In-of_insert z x ys) (rw e at h)
]
  where
    behind :
        (In z (insert x ys) → (z ≡ x) ⊎ In z ys)
        → (z ≡ y) ⊎ In z (insert x ys)
        → (z ≡ x) ⊎ (z ≡ y) ⊎ In z ys
    behind again (inl p) = inr (inl p)
    behind again (inr m) = elim (again m) [ inl p ↦ inl p | inr q ↦ inr (inr q) ]

In-insert : (z x : ℕ) (ys : List ℕ) → (z ≡ x) ⊎ In z ys → In z (insert x ys)
unfolding insert
In-insert z x [] h = h
In-insert z x (y ∷ ys) h = elim (Bool-cases (leb x y)) [
  | inl e ↦ rw e h
  | inr e ↦ rw e (behind (In-insert z x ys) h)
]
  where
    behind :
        ((z ≡ x) ⊎ In z ys → In z (insert x ys))
        → (z ≡ x) ⊎ (z ≡ y) ⊎ In z ys
        → (z ≡ y) ⊎ In z (insert x ys)
    behind again (inl p) = inr (again (inl p))
    behind again (inr (inl p)) = inl p
    behind again (inr (inr m)) = inr (again (inr m))

pub In-of_sort : (z : ℕ) (xs : List ℕ) → In z (sort xs) → In z xs
unfolding sort
In-of_sort z [] h = h
In-of_sort z (x ∷ xs) h = elim (In-of_insert z x (sort xs) h) [
  | inl p ↦ inl p
  | inr m ↦ inr (In-of_sort z xs m)
]

pub In-sort : (z : ℕ) (xs : List ℕ) → In z xs → In z (sort xs)
unfolding sort
In-sort z [] h = h
In-sort z (x ∷ xs) (inl p) = In-insert z x (sort xs) (inl p)
In-sort z (x ∷ xs) (inr m) = In-insert z x (sort xs) (inr (In-sort z xs m))

pub sort-IncreasingFrom :
    (n : ℕ) (xs : List ℕ) → Distinct xs → AllBelow n xs → IncreasingFrom 0 n (sort xs)
unfolding sort
sort-IncreasingFrom n [] d b = tt
sort-IncreasingFrom n (x ∷ xs) d b =
    insert-IncreasingFrom 0 n x (sort xs) (omega arith) b.0 (λ m. d.0 (In-of_sort x xs m))
      (sort-IncreasingFrom n xs d.1 b.1)

length-insert : (x : ℕ) (ys : List ℕ) → length (insert x ys) ≡ suc (length ys)
unfolding insert
length-insert x [] = refl
length-insert x (y ∷ ys) = elim (Bool-cases (leb x y)) [
  | inl e ↦ rw e refl
  | inr e ↦ rw e (ap suc (length-insert x ys))
]

pub length-sort : (xs : List ℕ) → length (sort xs) ≡ length xs
unfolding sort
length-sort [] = refl
length-sort (x ∷ xs) = length-insert x (sort xs) ∙ ap suc (length-sort xs)

-- An increasing list is not longer than its range.
pub IncreasingFrom-length :
    (i n : ℕ) (xs : List ℕ) → i ≤ n → IncreasingFrom i n xs → length xs + i ≤ n
IncreasingFrom-length i n [] le h = omega arith
IncreasingFrom-length i n (x ∷ xs) le h = omega (arith, IncreasingFrom-length (suc x) n xs h.1 h.2)

-- And the whole range if it is as long.
pub IncreasingFrom-full :
    (k i : ℕ) (xs : List ℕ) → IncreasingFrom i (i + k) xs → length xs ≡ k → xs ≡ count_from k i
IncreasingFrom-full zero i [] h e = refl
IncreasingFrom-full zero i (x ∷ xs) h e = absurd (omega arith)
IncreasingFrom-full (suc k) i [] h e = absurd (omega arith)
IncreasingFrom-full (suc k) i (x ∷ xs) h e =
    let first : x ≡ i =
      omega (arith, IncreasingFrom-length (suc x) (i + suc k) xs (omega arith) h.2) in
    let end : i + suc k ≡ suc i + k = omega arith in
    let next : i + 1 ≡ suc i = omega arith in
    rw (next, first)
      (ap (λ l. i ∷ l)
        (IncreasingFrom-full k (suc i) xs
          (subst (λ m. IncreasingFrom (suc i) m xs) end
            (subst (λ j. IncreasingFrom (suc j) (i + suc k) xs) first h.2))
          (omega arith)))

pub length-count_from : (k i : ℕ) → length (count_from k i) ≡ k
length-count_from zero i = refl
length-count_from (suc k) i = ap suc (length-count_from k (i + 1))

-- A skipped range stands in front of what is missing behind it.
skip :
    (k i n : ℕ) (ys : List ℕ)
    → i + k ≤ n
    → missing i (count_from k i ++ ys) n ≡ missing (i + k) ys n
unfolding missing
skip zero i n ys h = ap (λ j. missing j ys n) (omega arith)
skip (suc k) i n ys h =
    let none_between : i - i ≡ 0 = omega arith in
    let next : max i i + 1 ≡ i + 1 = omega arith in
    let index : i + 1 + k ≡ i + suc k = omega arith in
    rw (none_between, next) (skip k (i + 1) n ys (omega arith) ∙ ap (λ j. missing j ys n) index)

one_kept :
    (s n : ℕ) (ys : List ℕ)
    → s < n
    → IncreasingFrom (suc s) n ys
    → missing s ys n ≡ s ∷ missing (s + 1) ys n
unfolding missing
one_kept s n [] lt h = let left : n - s ≡ suc (n - (s + 1)) = omega arith in rw left refl
one_kept s n (y ∷ ys) lt h =
    let left : y - s ≡ suc (y - (s + 1)) = omega (arith, h.0) in
    let last : max s y + 1 ≡ max (s + 1) y + 1 = omega (arith, h.0) in rw (left, last) refl

count_from-IncreasingFrom :
    (k i n : ℕ) (ys : List ℕ)
    → i + k ≤ n
    → IncreasingFrom (i + k) n ys
    → IncreasingFrom i n (count_from k i ++ ys)
count_from-IncreasingFrom zero i n ys le h = let index : i + 0 ≡ i = omega arith in rw index at h
count_from-IncreasingFrom (suc k) i n ys le h =
    let index : i + suc k ≡ suc i + k = omega arith in
    let next : i + 1 ≡ suc i = omega arith in
    (
      omega arith,
      omega arith,
      rw next (count_from-IncreasingFrom k (suc i) n ys (omega arith) (rw index at h)),
    )

pub missing-IncreasingFrom :
    (i n : ℕ) (xs : List ℕ) → i ≤ n → IncreasingFrom i n xs → IncreasingFrom i n (missing i xs n)
unfolding missing
missing-IncreasingFrom i n [] le h =
    subst (IncreasingFrom i n) (append-nil (count_from (n - i) i))
      (count_from-IncreasingFrom (n - i) i n [] (omega arith) tt)
missing-IncreasingFrom i n (x ∷ xs) le h =
    let next : max i x + 1 ≡ suc x = omega (arith, h.0) in
    rw next (
      count_from-IncreasingFrom (x - i) i n (missing (suc x) xs n) (omega (arith, h.0, h.1)) (
        IncreasingFrom-le (i + (x - i)) (suc x) n (missing (suc x) xs n) (omega (arith, h.0))
          (missing-IncreasingFrom (suc x) n xs h.1 h.2)))

none_missing : (i n : ℕ) → i ≤ n → missing i (count_from (n - i) i) n ≡ []
unfolding missing
none_missing i n le =
    let end : n - (i + (n - i)) ≡ 0 = omega arith in
    ap (λ l. missing i l n) (sym (append-nil (count_from (n - i) i)))
    ∙ skip (n - i) i n [] (omega arith)
    ∙ ap (λ k. count_from k (i + (n - i))) end

missing-cons :
    (i x n : ℕ) (xs : List ℕ)
    → i ≤ x
    → missing i (x ∷ xs) n ≡ count_from (x - i) i ++ missing (suc x) xs n
unfolding missing
missing-cons i x n xs le =
    let next : max i x + 1 ≡ suc x = omega arith in
    ap (λ j. count_from (x - i) i ++ missing j xs n) next

pub missing-nil : (i n : ℕ) → missing i [] n ≡ count_from (n - i) i
unfolding missing
missing-nil i n = refl

-- What is missing from the missing is the list itself.
pub missing-missing :
    (i n : ℕ) (xs : List ℕ) → i ≤ n → IncreasingFrom i n xs → missing i (missing i xs n) n ≡ xs
missing-missing i n [] le h = ap (λ l. missing i l n) (missing-nil i n) ∙ none_missing i n le
missing-missing i n (x ∷ xs) le h =
    let rest : List ℕ = missing (suc x) xs n in
    let next : x + 1 ≡ suc x = omega arith in
    ap (λ l. missing i l n) (missing-cons i x n xs h.0)
    ∙ skip (x - i) i n rest (omega (arith, h.0, h.1))
    ∙ ap (λ j. missing j rest n) (omega (arith, h.0))
    ∙ one_kept x n rest h.1 (missing-IncreasingFrom (suc x) n xs h.1 h.2)
    ∙ ap (λ j. x ∷ missing j rest n) next
    ∙ ap (λ l. x ∷ l) (missing-missing (suc x) n xs h.1 h.2)

pub length-missing :
    (i n : ℕ) (xs : List ℕ)
    → i ≤ n
    → IncreasingFrom i n xs
    → length (missing i xs n) + length xs + i ≡ n
length-missing i n [] le h = omega (arith, ap length (missing-nil i n), length-count_from (n - i) i)
length-missing i n (x ∷ xs) le h = omega (
  arith,
  h.0,
  ap length (missing-cons i x n xs h.0),
  length-append (count_from (x - i) i) (missing (suc x) xs n),
  length-count_from (x - i) i,
  length-missing (suc x) n xs h.1 h.2,
)

-- `to_descriptor` sorts only lists of more than one index.
pub sort_short : (xs : List ℕ) → length xs ≤ 1 → sort xs ≡ xs
unfolding sort insert
sort_short [] h = refl
sort_short (x ∷ []) h = refl
sort_short (x ∷ y ∷ xs) h = absurd (omega arith)
