-- ===== src/Vector/Pieces.antt =====
-- Pieces of lists, and the tests on numbers, in the terms that the operations of a vector need.
use mpgc.Prelude.{
  ℕ, zero, suc, ◌+◌, ◌-◌, ◌≤◌, ◌<◌, ◌≡◌, ◌⊎◌, refl, sym, ap, ◌∙◌, List, [], ◌∷◌, ◌++◌, Option, none,
  some, length, take, drop, replicate, arith, ltb, inl, inr, ◌==◌, false, true,
}
use mathlib.Core.List.{append_assoc}
use mpgc.Vector.Arrays.{write, fill}

pub add-suc : (m n : ℕ) → suc m + n ≡ suc (m + n)
add-suc m n = omega arith

module _ {A : Type 0} where
  pub take-prefix : (xs ys : List A) → take (length xs) (xs ++ ys) ≡ xs
  take-prefix [] ys = refl
  take-prefix (x ∷ xs) ys = ap (λ l. x ∷ l) (take-prefix xs ys)

  pub take-all : (n : ℕ) (xs : List A) → length xs ≤ n → take n xs ≡ xs
  take-all zero [] h = refl
  take-all zero (x ∷ xs) h = absurd (omega arith)
  take-all (suc n) [] h = refl
  take-all (suc n) (x ∷ xs) h = ap (λ l. x ∷ l) (take-all n xs (omega arith))

  drop-nil : (n : ℕ) → drop {A = A} n [] ≡ []
  drop-nil zero = refl
  drop-nil (suc n) = refl

  pub take-append-drop : (n : ℕ) (xs : List A) → take n xs ++ drop n xs ≡ xs
  take-append-drop zero xs = refl
  take-append-drop (suc n) [] = refl
  take-append-drop (suc n) (x ∷ xs) = ap (λ l. x ∷ l) (take-append-drop n xs)

  pub length-take : (n : ℕ) (xs : List A) → n ≤ length xs → length (take n xs) ≡ n
  length-take zero xs h = refl
  length-take (suc n) [] h = absurd (omega arith)
  length-take (suc n) (x ∷ xs) h = ap suc (length-take n xs (omega arith))

  pub length-drop : (n : ℕ) (xs : List A) → length (drop n xs) ≡ length xs - n
  length-drop zero xs = omega arith
  length-drop (suc n) [] = omega arith
  length-drop (suc n) (x ∷ xs) = omega (arith, length-drop n xs)

  pub drop-drop : (n m : ℕ) (xs : List A) → drop n (drop m xs) ≡ drop (m + n) xs
  drop-drop n zero xs = ap (λ k. drop k xs) (omega arith)
  drop-drop n (suc m) [] = drop-nil n ∙ sym (drop-nil (suc m + n))
  drop-drop n (suc m) (x ∷ xs) = drop-drop n m xs ∙ ap (λ k. drop k (x ∷ xs)) (sym (add-suc m n))

  pub length-padded : (n : ℕ) (xs : List A) → length (take n xs) + (n - length xs) ≡ n
  length-padded zero xs = omega arith
  length-padded (suc n) [] = omega arith
  length-padded (suc n) (x ∷ xs) = omega (arith, length-padded n xs)

  pub replicate-add : (m n : ℕ) (a : A) → replicate (m + n) a ≡ replicate m a ++ replicate n a
  replicate-add zero n a = ap (λ k. replicate k a) (omega arith)
  replicate-add (suc m) n a =
      ap (λ k. replicate k a) (add-suc m n) ∙ ap (λ l. a ∷ l) (replicate-add m n a)

  Option-cases : (o : Option (List A)) → (o ≡ none) ⊎ ((l : List A) × (o ≡ some l))
  Option-cases none = inl refl
  Option-cases (some l) = inr (l, refl)

  pub write-eq-fill : (i : ℕ) (v : A) (arr : List A) → write i v arr ≡ fill 1 i v arr
  unfolding fill
  write-eq-fill i v arr = elim (Option-cases (write i v arr)) [
    | inl e ↦ rw e refl
    | inr (arr', e) ↦ rw e refl
  ]

pub ltb-false : (a b : ℕ) → b ≤ a → ltb a b ≡ false
ltb-false a b h = ground arith

pub ==-false : (a b : ℕ) → a < b → (a == b) ≡ false
==-false a b h = ground arith

pub ==-false_gt : (a b : ℕ) → b < a → (a == b) ≡ false
==-false_gt a b h = ground arith

pub ==-true : (a b : ℕ) → a ≡ b → (a == b) ≡ true
==-true a b h = ground arith

pub sub-eq : (a b c : ℕ) → a ≡ b + c → a - b ≡ c
sub-eq a b c h = omega arith

-- `k` spare elements, of which the vector takes `d`.
pub spare-split :
    {A : Type 0} (initial : A) (xs : List A) (k d : ℕ)
    → d ≤ k
    → xs ++ replicate k initial ≡ (xs ++ replicate d initial) ++ replicate (k - d) initial
spare-split initial xs k d h =
    ap (λ n. xs ++ replicate n initial) (omega arith)
    ∙ ap (λ l. xs ++ l) (replicate-add d (k - d) initial)
    ∙ sym (append_assoc xs (replicate d initial) (replicate (k - d) initial))
