-- ===== src/Vector/Moves.antt =====
-- What the algorithms of Vector/Arrays do to an array whose parts are named.
use mpgc.Prelude.{
  ℕ, zero, suc, ◌+◌, ◌≡◌, refl, ap, ◌∙◌, List, [], ◌∷◌, ◌++◌, some, length, length-append,
  get_elem?, set, replicate, arith, lt→ltb,
}
use mathlib.Core.List.{append_assoc}
use mpgc.Vector.Arrays.{write, fill, copy}

module _ {A : Type 0} where
  pub get-middle :
      (a : List A) (x : A) (b : List A) (i : ℕ) → i ≡ length a → get_elem? (a ++ x ∷ b) i ≡ some x
  get-middle [] x b i e = rw e refl
  get-middle (y ∷ a) x b i e = rw e (get-middle a x b (length a) refl)

  set-middle : (a : List A) (x v : A) (b : List A) → set (a ++ x ∷ b) (length a) v ≡ a ++ v ∷ b
  set-middle [] x v b = refl
  set-middle (y ∷ a) x v b = ap (λ l. y ∷ l) (set-middle a x v b)

  pub write-middle :
      (a : List A) (x v : A) (b : List A) (i : ℕ)
      → i ≡ length a
      → write i v (a ++ x ∷ b) ≡ some (a ++ v ∷ b)
  unfolding write
  write-middle a x v b i e =
      rw
        (
          e,
          lt→ltb (length a) (length (a ++ x ∷ b)) (omega (arith, length-append a (x ∷ b))),
          set-middle a x v b,
        )
        refl

  -- One element passes from the right part to the left.
  abbrev pub shifted : List A → A → List A
  shifted a x = a ++ x ∷ []

  pub shifted-append : (a : List A) (x : A) (b : List A) → shifted a x ++ b ≡ a ++ x ∷ b
  shifted-append a x b = append_assoc a (x ∷ []) b

  pub length-shifted : (a : List A) (x : A) → length (shifted a x) ≡ length a + 1
  length-shifted a x = length-append a (x ∷ [])

  pub fill_lem :
      (n i : ℕ) (v : A) (a b c : List A)
      → i ≡ length a
      → length b ≡ n
      → fill n i v (a ++ (b ++ c)) ≡ some (a ++ (replicate n v ++ c))
  unfolding fill
  fill_lem zero i v a [] c e n = refl
  fill_lem zero i v a (x ∷ b) c e n = absurd (omega (arith, n))
  fill_lem (suc n) i v a [] c e h = absurd (omega (arith, h))
  fill_lem (suc n) i v a (x ∷ b) c e h =
      rw (write-middle a x v (b ++ c) i e, ← shifted-append a v (b ++ c))
        (fill_lem n (i + 1) v (shifted a v) b c (omega (arith, length-shifted a v, e))
            (omega (arith, h))
          ∙ ap (λ l. some l) (shifted-append a v (replicate n v ++ c)))

  pub copy_lem :
      (from : List A) (i : ℕ) (a b c : List A)
      → i ≡ length a
      → length b ≡ length from
      → copy from i (a ++ (b ++ c)) ≡ some (a ++ (from ++ c))
  unfolding copy
  copy_lem [] i a [] c e n = refl
  copy_lem [] i a (x ∷ b) c e n = absurd (omega (arith, n))
  copy_lem (v ∷ from) i a [] c e h = absurd (omega (arith, h))
  copy_lem (v ∷ from) i a (x ∷ b) c e h =
      rw (write-middle a x v (b ++ c) i e, ← shifted-append a v (b ++ c))
        (copy_lem from (i + 1) (shifted a v) b c (omega (arith, length-shifted a v, e))
            (omega (arith, h))
          ∙ ap (λ l. some l) (shifted-append a v (from ++ c)))
