-- ===== src/Vector/Overlaps.antt =====
-- What `std::move` and `std::move_backward` do to an array in which a range moves over a gap.
use mpgc.Prelude.{
  ℕ, zero, suc, ◌+◌, ◌-◌, ◌≡◌, refl, sym, ap, ◌∙◌, List, [], ◌∷◌, ◌++◌, Option, some, length,
  length-append, get_elem?, arith,
}
use mathlib.Core.List.{append_assoc}
use mpgc.Vector.Arrays.{write, move, move_backward}
use mpgc.Vector.Moves.{get-middle, write-middle, shifted, shifted-append, length-shifted}

module _ {A : Type 0} where
  -- The range has moved over a gap of `n` elements, which holds something else then.
  pub record IsMoved (n : ℕ) (o : Option (List A)) (place : List A → List A) : Type 0 where
    pub junk : List A
    pub same_length : length junk ≡ n
    pub result : o ≡ some (place junk)

  move-suc :
      (n first d_first : ℕ) (x : A) (arr arr' : List A)
      → get_elem? arr first ≡ some x
      → write d_first x arr ≡ some arr'
      → move (suc n) first d_first arr ≡ move n (first + 1) (d_first + 1) arr'
  unfolding move
  move-suc n first d_first x arr arr' e f = rw (e, f) refl

  move_backward-suc :
      (n last d_last : ℕ) (x : A) (arr arr' : List A)
      → get_elem? arr (last - 1) ≡ some x
      → write (d_last - 1) x arr ≡ some arr'
      → move_backward (suc n) last d_last arr ≡ move_backward n (last - 1) (d_last - 1) arr'
  unfolding move_backward
  move_backward-suc n last d_last x arr arr' e f = rw (e, f) refl

  -- The first element of the range passes over the gap `g ∷ gs`.
  over-first :
      (a : List A) (g : A) (gs : List A) (x : A) (c : List A)
      → a ++ (g ∷ gs ++ x ∷ c) ≡ (a ++ g ∷ gs) ++ x ∷ c
  over-first a g gs x c = sym (append_assoc a (g ∷ gs) (x ∷ c))

  pub move_lem :
      (n first d_first : ℕ) (a gap b c : List A)
      → d_first ≡ length a
      → first ≡ length a + length gap
      → length b ≡ n
      → IsMoved
          (length gap)
          (move n first d_first (a ++ (gap ++ (b ++ c))))
          (λ junk. a ++ (b ++ (junk ++ c)))
  unfolding move
  move_lem zero first d_first a gap [] c ed ef n = record {
    junk = gap;
    same_length = refl;
    result = refl;
  }
  move_lem zero first d_first a gap (x ∷ b) c ed ef n = absurd (omega (arith, n))
  move_lem (suc n) first d_first a gap [] c ed ef h = absurd (omega (arith, h))
  move_lem (suc n) first d_first a [] (x ∷ b) c ed ef h =
      let rest =
        move_lem n (first + 1) (d_first + 1) (shifted a x) [] b c
          (omega (arith, ed, length-shifted a x)) (omega (arith, ef, length-shifted a x))
          (omega (arith, h)) in
      record {
        junk = rest.junk;
        same_length = rest.same_length;
        result =
            move-suc n first d_first x (a ++ (x ∷ b ++ c)) (a ++ (x ∷ b ++ c))
              (get-middle a x (b ++ c) first (omega (arith, ef)))
              (write-middle a x x (b ++ c) d_first ed)
            ∙ ap (move n (first + 1) (d_first + 1)) (sym (shifted-append a x (b ++ c)))
            ∙ rest.result
            ∙ ap some (shifted-append a x (b ++ (rest.junk ++ c)));
      }
  move_lem (suc n) first d_first a (g ∷ gs) (x ∷ b) c ed ef h =
      let rest =
        move_lem n (first + 1) (d_first + 1) (shifted a x) (shifted gs x) b c
          (omega (arith, ed, length-shifted a x))
          (omega (arith, ef, length-shifted a x, length-shifted gs x)) (omega (arith, h)) in
      record {
        junk = rest.junk;
        same_length = omega (arith, rest.same_length, length-shifted gs x);
        result =
            move-suc n first d_first x (a ++ (g ∷ gs ++ (x ∷ b ++ c)))
              (a ++ x ∷ (gs ++ x ∷ (b ++ c)))
              (ap (λ l. get_elem? l first) (over-first a g gs x (b ++ c))
                ∙ get-middle (a ++ g ∷ gs) x (b ++ c) first
                    (omega (arith, ef, length-append a (g ∷ gs))))
              (write-middle a g x (gs ++ x ∷ (b ++ c)) d_first ed)
            ∙ ap (move n (first + 1) (d_first + 1)) (
                sym (shifted-append a x (gs ++ x ∷ (b ++ c)))
                ∙ ap (λ l. shifted a x ++ l) (sym (shifted-append gs x (b ++ c))))
            ∙ rest.result
            ∙ ap some (shifted-append a x (b ++ (rest.junk ++ c)));
      }

  -- A list that is not empty ends with an element.
  data Snoc : List A → Type 0 where
    nil : Snoc []
    snoc : (xs : List A) (x : A) → Snoc (xs ++ x ∷ [])

  cons-Snoc : (x : A) (ys : List A) → Snoc ys → Snoc (x ∷ ys)
  cons-Snoc x ys nil = snoc [] x
  cons-Snoc x ys (snoc zs y) = snoc (x ∷ zs) y

  view : (xs : List A) → Snoc xs
  view [] = nil
  view (x ∷ xs) = cons-Snoc x xs (view xs)

  -- The last element of the range, and the last element of the gap behind it.
  at-last : (a b : List A) (x : A) (c : List A) → a ++ (shifted b x ++ c) ≡ (a ++ b) ++ x ∷ c
  at-last a b x c = ap (λ l. a ++ l) (shifted-append b x c) ∙ sym (append_assoc a b (x ∷ c))

  at-gap :
      (a b : List A) (x : A) (gs : List A) (g : A) (c : List A)
      → (a ++ b) ++ x ∷ (shifted gs g ++ c) ≡ (a ++ (b ++ x ∷ gs)) ++ g ∷ c
  at-gap a b x gs g c =
      append_assoc a b (x ∷ (shifted gs g ++ c))
      ∙ ap (λ l. a ++ (b ++ x ∷ l)) (shifted-append gs g c)
      ∙ sym (
          append_assoc a (b ++ x ∷ gs) (g ∷ c) ∙ ap (λ l. a ++ l) (append_assoc b (x ∷ gs) (g ∷ c)))

  backward :
      (n last d_last : ℕ) (a b gap c : List A)
      → Snoc b
      → Snoc gap
      → last ≡ length a + length b
      → d_last ≡ last + length gap
      → length b ≡ n
      → IsMoved
          (length gap)
          (move_backward n last d_last (a ++ (b ++ (gap ++ c))))
          (λ junk. a ++ (junk ++ (b ++ c)))
  unfolding move_backward
  backward zero last d_last a b gap c nil vg el ed n = record {
    junk = gap;
    same_length = refl;
    result = refl;
  }
  backward zero last d_last a b gap c (snoc b' x) vg el ed n =
      absurd (omega (arith, n, length-append b' (x ∷ [])))
  backward (suc n) last d_last a b gap c nil vg el ed h = absurd (omega (arith, h))
  backward (suc n) last d_last a b gap c (snoc b' x) nil el ed h =
      let rest =
        backward n (last - 1) (d_last - 1) a b' [] (x ∷ c) (view b') nil
          (omega (arith, el, length-shifted b' x)) (omega (arith, el, ed, length-shifted b' x))
          (omega (arith, h, length-shifted b' x)) in
      record {
        junk = rest.junk;
        same_length = rest.same_length;
        result =
            ap (move_backward (suc n) last d_last) (at-last a b' x c)
            ∙ move_backward-suc n last d_last x ((a ++ b') ++ x ∷ c) ((a ++ b') ++ x ∷ c)
                (get-middle (a ++ b') x c (last - 1)
                  (omega (arith, el, length-append a b', length-shifted b' x)))
                (write-middle (a ++ b') x x c (d_last - 1)
                  (omega (arith, el, ed, length-append a b', length-shifted b' x)))
            ∙ ap (move_backward n (last - 1) (d_last - 1)) (append_assoc a b' (x ∷ c))
            ∙ rest.result
            ∙ ap (λ l. some (a ++ (rest.junk ++ l))) (sym (shifted-append b' x c));
      }
  backward (suc n) last d_last a b gap c (snoc b' x) (snoc gs g) el ed h =
      let rest =
        backward n (last - 1) (d_last - 1) a b' (x ∷ gs) (x ∷ c) (view b') (view (x ∷ gs))
          (omega (arith, el, length-shifted b' x))
          (omega (arith, el, ed, length-shifted b' x, length-shifted gs g))
          (omega (arith, h, length-shifted b' x)) in
      record {
        junk = rest.junk;
        same_length = omega (arith, rest.same_length, length-shifted gs g);
        result =
            ap (move_backward (suc n) last d_last) (at-last a b' x (shifted gs g ++ c))
            ∙ move_backward-suc n last d_last x ((a ++ b') ++ x ∷ (shifted gs g ++ c))
                ((a ++ (b' ++ x ∷ gs)) ++ x ∷ c)
                (get-middle (a ++ b') x (shifted gs g ++ c) (last - 1)
                  (omega (arith, el, length-append a b', length-shifted b' x)))
                (ap (write (d_last - 1) x) (at-gap a b' x gs g c)
                  ∙ write-middle (a ++ (b' ++ x ∷ gs)) g x c (d_last - 1) (
                      omega (
                        arith,
                        el,
                        ed,
                        length-append a (b' ++ x ∷ gs),
                        length-append b' (x ∷ gs),
                        length-shifted b' x,
                        length-shifted gs g,
                      )))
            ∙ ap (move_backward n (last - 1) (d_last - 1)) (
                append_assoc a (b' ++ x ∷ gs) (x ∷ c)
                ∙ ap (λ l. a ++ l) (append_assoc b' (x ∷ gs) (x ∷ c)))
            ∙ rest.result
            ∙ ap (λ l. some (a ++ (rest.junk ++ l))) (sym (shifted-append b' x c));
      }

  pub move_backward_lem :
      (n last d_last : ℕ) (a b gap c : List A)
      → last ≡ length a + length b
      → d_last ≡ last + length gap
      → length b ≡ n
      → IsMoved
          (length gap)
          (move_backward n last d_last (a ++ (b ++ (gap ++ c))))
          (λ junk. a ++ (junk ++ (b ++ c)))
  move_backward_lem n last d_last a b gap c el ed h =
      backward n last d_last a b gap c (view b) (view gap) el ed h
