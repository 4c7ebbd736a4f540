-- ===== src/Vector/Represents.antt =====
-- The list that a vector stands for, and the operations that change its array as a whole.
use mpgc.Prelude.{
  ℕ, zero, suc, ◌+◌, ◌-◌, ◌≤◌, ◌≡◌, refl, sym, ap, ◌∙◌, List, [], ◌∷◌, ◌++◌, Option, some, length,
  length-append, length-replicate, take, replicate, arith, lt→ltb, ltb→lt, ltb, Bool-cases, inl,
  inr, false, subst,
}
use mathlib.Core.List.{append_assoc, append-nil}
use mpgc.Vector.Arrays.{fill, make_array}
use mpgc.Vector.Defs.{Vector, ensure_capacity, resize, new_capacity, capacity}
use mpgc.Vector.Growth.{new_capacity-le}
use mpgc.Vector.Moves.{fill_lem}
use mpgc.Vector.Pieces.{
  take-prefix, take-all, length-padded, replicate-add, write-eq-fill, ltb-false, ==-false,
  ==-false_gt, ==-true, sub-eq, spare-split,
}

-- The elements come first in the array, and what is behind them is default-initialised.
pub record Represents {A : Type 0} (initial : A) (xs : List A) (v : Vector A) : Type 0 where
  pub spare : ℕ
  pub contents : v.rep ≡ xs ++ replicate spare initial
  pub same_size : v.size ≡ length xs

-- An operation succeeds, and the vector then stands for `xs`.
pub record Yields {A : Type 0} (initial : A) (xs : List A) (o : Option (Vector A)) : Type 0 where
  pub vector : Vector A
  pub succeeds : o ≡ some vector
  pub represents : Represents initial xs vector

module _ {A : Type 0} (initial : A) where
  pub kept-eq : (xs : List A) (v : Vector A) → Represents initial xs v → take v.size v.rep ≡ xs
  kept-eq xs v h = rw (h.same_size, h.contents) (take-prefix xs (replicate h.spare initial))

  size-le : (xs : List A) (v : Vector A) → Represents initial xs v → length xs ≤ capacity v
  size-le xs v h = rw h.contents (omega (arith, length-append xs (replicate h.spare initial)))

  le_of_full : (c count n c' : ℕ) → ltb count c ≡ false → n ≤ c → count ≤ c' → n ≤ c'
  le_of_full c count n c' h a b = ground arith

  -- Room for `count` elements is made and the elements stay.
  pub ensure_capacity_lem :
      (count : ℕ) (xs : List A) (v : Vector A)
      → Represents initial xs v
      → Represents initial xs (ensure_capacity initial count v)
  unfolding ensure_capacity make_array
  ensure_capacity_lem count xs v h = elim (Bool-cases (ltb count (capacity v))) [
    | inl fits ↦ rw fits h
    | inr more ↦
        let c : ℕ = new_capacity (capacity v) count in
        rw more record {
          spare = c - length xs;
          contents = rw (kept-eq xs v h) (
              ap (λ l. l ++ replicate (c - length xs) initial)
                (take-all c xs (
                  le_of_full (capacity v) count (length xs) c more (size-le xs v h)
                    (new_capacity-le (capacity v) count))));
          same_size = h.same_size;
        }
  ]

  -- Afterwards there is room for `count` elements.
  pub ensure_capacity-le :
      (count : ℕ) (v : Vector A) → count ≤ capacity (ensure_capacity initial count v)
  unfolding ensure_capacity make_array
  ensure_capacity-le count v = elim (Bool-cases (ltb count (capacity v))) [
    | inl fits ↦ rw fits (omega (arith, ltb→lt count (capacity v) fits))
    | inr more ↦
        let c : ℕ = new_capacity (capacity v) count in
        rw
          (
            more,
            length-append (take c (take v.size v.rep))
                (replicate (c - length (take v.size v.rep)) initial),
            length-replicate (c - length (take v.size v.rep)) initial,
          )
          (subst (λ k. count ≤ k) (sym (length-padded c (take v.size v.rep)))
            (new_capacity-le (capacity v) count))
  ]

  room-le :
      (count : ℕ) (xs : List A) (v : Vector A) (h : Represents initial xs v)
      → count ≤ capacity v
      → count ≤ length xs + h.spare
  room-le count xs v h c = omega (
    arith,
    c,
    ap length h.contents,
    length-append xs (replicate h.spare initial),
    length-replicate h.spare initial,
  )

  -- A vector that becomes larger has default-initialised elements at its end.
  pub resize-grow :
      (d : ℕ) (xs : List A) (v : Vector A)
      → Represents initial xs v
      → Yields initial (xs ++ replicate d initial) (resize initial (length xs + d) v)
  unfolding resize
  resize-grow zero xs v h =
      rw (==-true v.size (length xs + 0) (omega (arith, h.same_size)), append-nil xs)
        record { vector = v; succeeds = refl; represents = h }
  resize-grow (suc d) xs v h =
      let count : ℕ = length xs + suc d in
      let v1 : Vector A = ensure_capacity initial count v in
      let h1 : Represents initial xs v1 = ensure_capacity_lem count xs v h in
      let room : count ≤ length xs + h1.spare =
        room-le count xs v1 h1 (ensure_capacity-le count v) in
      rw
        (
          ==-false v.size count (omega (arith, h.same_size)),
          lt→ltb v.size count (omega (arith, h.same_size)),
        )
        record {
          vector = record v1 { size = count };
          succeeds = refl;
          represents = record {
            spare = h1.spare - suc d;
            contents = h1.contents ∙ spare-split initial xs h1.spare (suc d) (omega arith);
            same_size = omega (
              arith,
              length-append xs (replicate (suc d) initial),
              length-replicate (suc d) initial,
            );
          };
        }

  pub shrunk :
      (xs ys : List A) (k : ℕ)
      → fill (length ys) (length xs) initial ((xs ++ ys) ++ replicate k initial)
        ≡ some (xs ++ replicate (length ys + k) initial)
  shrunk xs ys k =
      ap (fill (length ys) (length xs) initial) (append_assoc xs ys (replicate k initial))
      ∙ fill_lem (length ys) (length xs) initial xs ys (replicate k initial) refl refl
      ∙ ap (λ l. some (xs ++ l)) (sym (replicate-add (length ys) k initial))

  -- A vector that becomes smaller loses its last elements.
  pub resize-shrink :
      (xs ys : List A) (v : Vector A)
      → Represents initial (xs ++ ys) v
      → Yields initial xs (resize initial (length xs) v)
  unfolding resize
  resize-shrink xs [] v h =
      rw (==-true v.size (length xs) (omega (arith, length-append xs [], h.same_size))) record {
        vector = v;
        succeeds = refl;
        represents = subst (λ l. Represents initial l v) (append-nil xs) h;
      }
  resize-shrink xs (y ∷ []) v h =
      let n : ℕ = length xs in
      let sizes : v.size ≡ suc n = omega (arith, h.same_size, length-append xs (y ∷ [])) in
      rw
        (
          ==-false_gt v.size n (omega arith),
          ltb-false v.size n (omega arith),
          ==-true n (v.size - 1) (omega arith),
          write-eq-fill n initial v.rep,
          h.contents,
          shrunk xs (y ∷ []) h.spare,
        )
        record {
          vector = record { rep = xs ++ replicate (1 + h.spare) initial; size = n };
          succeeds = refl;
          represents = record { spare = 1 + h.spare; contents = refl; same_size = refl };
        }
  resize-shrink xs (y ∷ z ∷ ys) v h =
      let n : ℕ = length xs in
      let sizes : v.size ≡ n + suc (suc (length ys)) =
        omega (arith, h.same_size, length-append xs (y ∷ z ∷ ys)) in
      let k : ℕ = suc (suc (length ys)) + h.spare in
      rw
        (
          ==-false_gt v.size n (omega arith),
          ltb-false v.size n (omega arith),
          ==-false n (v.size - 1) (omega arith),
          sub-eq v.size n (suc (suc (length ys))) sizes,
          h.contents,
          shrunk xs (y ∷ z ∷ ys) h.spare,
        )
        record {
          vector = record { rep = xs ++ replicate k initial; size = n };
          succeeds = refl;
          represents = record { spare = k; contents = refl; same_size = refl };
        }
