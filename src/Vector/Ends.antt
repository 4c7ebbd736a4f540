-- ===== src/Vector/Ends.antt =====
-- The operations at the end of a vector, and those that replace its contents.
use mpgc.Prelude.{
  ℕ, suc, ◌+◌, ◌-◌, ◌≤◌, ◌≡◌, refl, sym, ap, ◌∙◌, List, [], ◌∷◌, ◌++◌, Option, subst, some, length,
  length-append, length-replicate, get_elem?, replicate, arith, lt→ltb, if◌then◌else◌, ◌>>=◌, ◌==◌,
  Bool, true, take, drop,
}
use mathlib.Core.List.{append_assoc, append-nil}
use mpgc.Vector.Arrays.{write, fill, copy}
use mpgc.Vector.Defs.{
  Vector, ensure_capacity, assign, assign_range, resize, clear, pop_back, push_back,
}
use mpgc.Vector.Moves.{fill_lem, copy_lem, write-middle, get-middle}
use mpgc.Vector.Represents.{Represents, Yields, resize-grow, shrunk, ensure_capacity-le}
use mpgc.Vector.Pieces.{
  take-append-drop, length-take, replicate-add, write-eq-fill, ltb-false, ==-false_gt, sub-eq,
}

module _ {A : Type 0} (initial : A) where
  cleared :
      (xs : List A) (v : Vector A) (h : Represents initial xs v)
      → fill v.size 0 initial v.rep ≡ some (replicate (v.size + h.spare) initial)
  cleared xs v h =
      ap (fill v.size 0 initial) h.contents
      ∙ fill_lem v.size 0 initial [] xs (replicate h.spare initial) refl (sym h.same_size)
      ∙ ap (λ l. some l) (sym (replicate-add v.size h.spare initial))

  pub clear_lem :
      (xs : List A) (v : Vector A) → Represents initial xs v → Yields initial [] (clear initial v)
  unfolding clear
  clear_lem [] v h =
      rw (ltb-false 0 v.size (omega (arith, h.same_size)))
        record { vector = v; succeeds = refl; represents = h }
  clear_lem (x ∷ xs) v h =
      rw (lt→ltb 0 v.size (omega (arith, h.same_size)), cleared (x ∷ xs) v h)
        record {
          vector = record { rep = replicate (v.size + h.spare) initial; size = 0 };
          succeeds = refl;
          represents = record { spare = v.size + h.spare; contents = refl; same_size = refl };
        }

  pop_back_one :
      (xs : List A) (x : A) (v : Vector A)
      → Represents initial (xs ++ x ∷ []) v
      → Yields initial xs (pop_back initial v)
  unfolding pop_back
  pop_back_one xs x v h =
      let sizes : v.size ≡ suc (length xs) =
        omega (arith, h.same_size, length-append xs (x ∷ [])) in
      rw
        (
          lt→ltb 0 v.size (omega arith),
          sub-eq v.size 1 (length xs) (omega arith),
          write-eq-fill (length xs) initial v.rep,
          h.contents,
          shrunk initial xs (x ∷ []) h.spare,
        )
        record {
          vector = record { rep = xs ++ replicate (1 + h.spare) initial; size = length xs };
          succeeds = refl;
          represents = record { spare = 1 + h.spare; contents = refl; same_size = refl };
        }

  pub pop_back_lem :
      (xs ys : List A) (v : Vector A)
      → Represents initial (xs ++ ys) v
      → length ys ≡ 1
      → Yields initial xs (pop_back initial v)
  pop_back_lem xs [] v h n = absurd (omega arith)
  pop_back_lem xs (y ∷ []) v h n = pop_back_one xs y v h
  pop_back_lem xs (y ∷ z ∷ ys) v h n = absurd (omega arith)

  pub pop_back_empty :
      (v : Vector A) → Represents initial [] v → Yields initial [] (pop_back initial v)
  unfolding pop_back
  pop_back_empty v h =
      rw (ltb-false 0 v.size (omega (arith, h.same_size)))
        record { vector = v; succeeds = refl; represents = h }

  pub push_back_lem :
      (is_initial : A → Bool) (x : A) (xs : List A) (v : Vector A)
      → is_initial initial ≡ true
      → Represents initial xs v
      → Yields initial (xs ++ x ∷ []) (push_back initial is_initial x v)
  unfolding push_back
  push_back_lem is_initial x xs v same h =
      let r = resize-grow initial 1 xs v h in
      let n : ℕ = r.represents.spare in
      let rep : List A = r.vector.rep in
      let contents : rep ≡ xs ++ initial ∷ replicate n initial =
        r.represents.contents ∙ append_assoc xs (initial ∷ []) (replicate n initial) in
      let place : r.vector.size - 1 ≡ length xs =
        omega (arith, r.represents.same_size, length-append xs (initial ∷ [])) in
      record {
        vector = record { rep = xs ++ x ∷ replicate n initial; size = r.vector.size };
        succeeds =
            rw
              (
                ap (λ s. resize initial (s + 1) v) h.same_size ∙ r.succeeds,
                ap (λ l. get_elem? l (r.vector.size - 1)) contents
                    ∙ get-middle xs initial (replicate n initial) (r.vector.size - 1) place,
                same,
                ap (write (r.vector.size - 1) x) contents
                    ∙ write-middle xs initial x (replicate n initial) (r.vector.size - 1) place,
              )
              refl;
        represents = record {
          spare = n;
          contents = sym (append_assoc xs (x ∷ []) (replicate n initial));
          same_size = omega (
            arith,
            r.represents.same_size,
            length-append xs (initial ∷ []),
            length-append xs (x ∷ []),
          );
        };
      }

  -- Behind new elements the rest of the array is default-initialised.
  rest_cleared :
      (new arr : List A)
      → fill (length (new ++ arr) - length new) (length new) initial (new ++ arr)
        ≡ some (new ++ replicate (length arr) initial)
  rest_cleared new arr =
      ap (λ n. fill n (length new) initial (new ++ arr))
        (sub-eq (length (new ++ arr)) (length new) (length arr) (length-append new arr))
      ∙ ap (λ l. fill (length arr) (length new) initial (new ++ l)) (sym (append-nil arr))
      ∙ fill_lem (length arr) (length new) initial new arr [] refl refl
      ∙ ap (λ l. some (new ++ l)) (append-nil (replicate (length arr) initial))

  -- What `assign` does with the array `arr`, once the new elements are written by `o`.
  abbrev refilled : ℕ → List A → Option (List A) → Option (Vector A)
  refilled n arr o =
      (if length arr == 0 then some arr else (o >>= λ l. fill (length l - n) n initial l))
      >>= λ rep. some (record { rep = rep; size = n })

  refilled_lem :
      (new arr : List A) (o : Option (List A))
      → length new ≤ length arr
      → o ≡ some (new ++ drop (length new) arr)
      → Yields initial new (refilled (length new) arr o)
  refilled_lem [] [] o room e = record {
    vector = record { rep = []; size = 0 };
    succeeds = refl;
    represents = record { spare = 0; contents = refl; same_size = refl };
  }
  refilled_lem (x ∷ new) [] o room e = absurd (omega arith)
  refilled_lem new (y ∷ arr) o room e =
      let rest : List A = drop (length new) (y ∷ arr) in
      record {
        vector = record { rep = new ++ replicate (length rest) initial; size = length new };
        succeeds =
            rw (==-false_gt (length (y ∷ arr)) 0 (omega arith), e, rest_cleared new rest) refl;
        represents = record { spare = length rest; contents = refl; same_size = refl };
      }

  pub assign_lem :
      (n : ℕ) (x : A) (v : Vector A) → Yields initial (replicate n x) (assign initial n x v)
  unfolding assign
  assign_lem n x v =
      let arr : List A = (ensure_capacity initial n v).rep in
      subst (λ k. Yields initial (replicate n x) (refilled k arr (fill n 0 x arr)))
        (length-replicate n x)
        (refilled_lem (replicate n x) arr (fill n 0 x arr)
          (omega (arith, ensure_capacity-le initial n v, length-replicate n x))
          (rw (length-replicate n x) (
            ap (fill n 0 x) (sym (take-append-drop n arr))
            ∙ fill_lem n 0 x [] (take n arr) (drop n arr) refl
                (length-take n arr (ensure_capacity-le initial n v)))))

  pub assign_range_lem :
      (from : List A) (v : Vector A) → Yields initial from (assign_range initial from v)
  unfolding assign_range
  assign_range_lem from v =
      let n : ℕ = length from in
      let arr : List A = (ensure_capacity initial n v).rep in
      refilled_lem from arr (copy from 0 arr) (ensure_capacity-le initial n v) (
        ap (copy from 0) (sym (take-append-drop n arr))
        ∙ copy_lem from 0 [] (take n arr) (drop n arr) refl
            (length-take n arr (ensure_capacity-le initial n v)))
