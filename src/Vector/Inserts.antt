-- ===== src/Vector/Inserts.antt =====
-- Insertion and removal within a vector, as changes of the list that it stands for.
use mpgc.Prelude.{
  ℕ, zero, suc, ◌+◌, ◌-◌, ◌≡◌, refl, sym, ap, ◌∙◌, List, [], ◌∷◌, ◌++◌, Option, some, length,
  length-append, length-replicate, replicate, arith, lt→ltb, if◌then◌else◌, ◌>>=◌, ◌==◌, Bool-cases,
  inl, inr, ==_iff, lt→ltb,
}
use mathlib.Core.List.{append_assoc}
use mpgc.Vector.Arrays.{write, fill, move_backward, move}
use mpgc.Vector.Defs.{Vector, resize, move_right, insert, insert_range, erase_range, erase}
use mpgc.Vector.Moves.{fill_lem, copy_lem}
use mpgc.Vector.Overlaps.{IsMoved, move_lem, move_backward_lem}
use mpgc.Vector.Represents.{Represents, Yields, resize-grow, resize-shrink}
use mpgc.Vector.Pieces.{write-eq-fill, ==-false_gt, sub-eq}

module _ {A : Type 0} (initial : A) where
  -- `ys` has moved away behind `n` elements, which hold anything.
  record IsOpened (n : ℕ) (xs ys : List A) (o : Option (Vector A)) : Type 0 where
    pub vector : Vector A
    pub junk : List A
    pub spare : ℕ
    pub succeeds : o ≡ some vector
    pub same_length : length junk ≡ n
    pub contents : vector.rep ≡ xs ++ (junk ++ (ys ++ replicate spare initial))
    pub same_size : vector.size ≡ length (xs ++ ys) + n

  opened : (xs ys zs us : List A) → ((xs ++ ys) ++ zs) ++ us ≡ xs ++ (ys ++ (zs ++ us))
  opened xs ys zs us = append_assoc (xs ++ ys) zs us ∙ append_assoc xs ys (zs ++ us)

  move_right_lem :
      (n : ℕ) (xs ys : List A) (v : Vector A)
      → Represents initial (xs ++ ys) v
      → IsOpened n xs ys (move_right initial (length xs) n v)
  unfolding move_right
  move_right_lem n xs ys v h =
      let r = resize-grow initial n (xs ++ ys) v h in
      let k : ℕ = r.represents.spare in
      let m =
        move_backward_lem (v.size - length xs) v.size r.vector.size xs ys (replicate n initial)
          (replicate k initial) (omega (arith, h.same_size, length-append xs ys))
          (omega (
            arith,
            h.same_size,
            r.represents.same_size,
            length-append (xs ++ ys) (replicate n initial),
          ))
          (omega (arith, h.same_size, length-append xs ys)) in
      record {
        vector = record (r.vector) { rep = xs ++ (m.junk ++ (ys ++ replicate k initial)) };
        junk = m.junk;
        spare = k;
        succeeds =
            rw
              (
                ap (λ s. resize initial (s + n) v) h.same_size ∙ r.succeeds,
                ap (move_backward (v.size - length xs) v.size r.vector.size) (
                      r.represents.contents
                      ∙ opened xs ys (replicate n initial) (replicate k initial))
                    ∙ m.result,
              )
              refl;
        same_length = omega (arith, m.same_length, length-replicate n initial);
        contents = refl;
        same_size = omega (
          arith,
          r.represents.same_size,
          length-append (xs ++ ys) (replicate n initial),
          length-replicate n initial,
        );
      }

  -- Elements are put in place of those that hold anything.
  filled :
      (size spare : ℕ) (xs zs ys : List A)
      → size ≡ length (xs ++ ys) + length zs
      → Represents initial
          (xs ++ (zs ++ ys))
          (record { rep = xs ++ (zs ++ (ys ++ replicate spare initial)); size = size })
  filled size spare xs zs ys e = record {
    spare = spare;
    contents =
        ap (λ l. xs ++ l) (sym (append_assoc zs ys (replicate spare initial)))
        ∙ sym (append_assoc xs (zs ++ ys) (replicate spare initial));
    same_size =
        omega (arith, e, length-append xs ys, length-append xs (zs ++ ys), length-append zs ys);
  }

  fill-one :
      (n i : ℕ) (x : A) (arr : List A)
      → (if n == 1 then write i x arr else fill n i x arr) ≡ fill n i x arr
  fill-one n i x arr = elim (Bool-cases (n == 1)) [
    | inl e ↦ rw (e, (==_iff n 1).0 e) (write-eq-fill i x arr)
    | inr e ↦ rw e refl
  ]

  -- Values are inserted before a position: the elements from there on come behind them.
  pub insert_lem :
      (n : ℕ) (x : A) (xs ys : List A) (v : Vector A)
      → Represents initial (xs ++ ys) v
      → Yields initial (xs ++ (replicate n x ++ ys)) (insert initial (length xs) n x v)
  unfolding insert
  insert_lem zero x xs ys v h = record { vector = v; succeeds = refl; represents = h }
  insert_lem (suc n) x xs ys v h =
      let o = move_right_lem (suc n) xs ys v h in
      let new : List A = replicate (suc n) x in
      record {
        vector = record {
          rep = xs ++ (new ++ (ys ++ replicate (o.spare) initial));
          size = o.vector.size;
        };
        succeeds =
            rw
              (
                ==-false_gt (suc n) 0 (omega arith),
                o.succeeds,
                fill-one (suc n) (length xs) x o.vector.rep,
                o.contents,
                fill_lem (suc n) (length xs) x xs o.junk (ys ++ replicate (o.spare) initial) refl
                    o.same_length,
              )
              refl;
        represents =
            filled o.vector.size o.spare xs new ys
              (omega (arith, o.same_size, length-replicate n x));
      }

  pub insert_range_lem :
      (from xs ys : List A) (v : Vector A)
      → Represents initial (xs ++ ys) v
      → Yields initial (xs ++ (from ++ ys)) (insert_range initial (length xs) from v)
  unfolding insert_range
  insert_range_lem [] xs ys v h = record { vector = v; succeeds = refl; represents = h }
  insert_range_lem (x ∷ from) xs ys v h =
      let o = move_right_lem (suc (length from)) xs ys v h in
      record {
        vector = record {
          rep = xs ++ ((x ∷ from) ++ (ys ++ replicate (o.spare) initial));
          size = o.vector.size;
        };
        succeeds =
            rw
              (
                lt→ltb 0 (suc (length from)) (omega arith),
                o.succeeds,
                o.contents,
                copy_lem (x ∷ from) (length xs) xs o.junk (ys ++ replicate (o.spare) initial) refl
                    o.same_length,
              )
              refl;
        represents = filled o.vector.size o.spare xs (x ∷ from) ys (omega (arith, o.same_size));
      }

  closed :
      (n : ℕ) (xs ys zs : List A) (v : Vector A) (o : Option (List A))
      → Represents initial (xs ++ (ys ++ zs)) v
      → IsMoved (length ys) o (λ junk. xs ++ (zs ++ (junk ++ replicate n initial)))
      → Yields initial
          (xs ++ zs)
          (o >>= λ rep. resize initial (length (xs ++ zs)) (record v { rep = rep }))
  closed n xs ys zs v o h m = rw m.result (
      resize-shrink initial (xs ++ zs) m.junk
        (record v { rep = xs ++ (zs ++ (m.junk ++ replicate n initial)) })
        record {
          spare = n;
          contents = sym (opened xs zs m.junk (replicate n initial));
          same_size = omega (
            arith,
            h.same_size,
            m.same_length,
            length-append xs (ys ++ zs),
            length-append ys zs,
            length-append xs zs,
            length-append (xs ++ zs) m.junk,
          );
        })

  spread : (xs ys zs us : List A) → (xs ++ (ys ++ zs)) ++ us ≡ xs ++ (ys ++ (zs ++ us))
  spread xs ys zs us = append_assoc xs (ys ++ zs) us ∙ ap (λ l. xs ++ l) (append_assoc ys zs us)

  kept-eq :
      (xs ys zs : List A) (size : ℕ)
      → size ≡ length (xs ++ (ys ++ zs))
      → size - (length xs + length ys - length xs) ≡ length (xs ++ zs)
  kept-eq xs ys zs size e =
      omega (arith, e, length-append xs (ys ++ zs), length-append ys zs, length-append xs zs)

  -- The elements of a range are removed: those behind it come in their place.
  pub erase_range_lem :
      (xs ys zs : List A) (v : Vector A)
      → Represents initial (xs ++ (ys ++ zs)) v
      → Yields initial (xs ++ zs) (erase_range initial (length xs) (length xs + length ys) v)
  unfolding erase_range
  erase_range_lem xs ys zs v h =
      let last : ℕ = length xs + length ys in
      let n : ℕ = h.spare in
      rw (kept-eq xs ys zs v.size h.same_size, h.contents, spread xs ys zs (replicate n initial))
        (closed n xs ys zs v
          (move (v.size - last) last (length xs) (xs ++ (ys ++ (zs ++ replicate n initial)))) h
          (move_lem (v.size - last) last (length xs) xs ys zs (replicate n initial) refl refl
            (omega (arith, h.same_size, length-append xs (ys ++ zs), length-append ys zs))))

  -- `erase` of one element removes the range of that element.
  pub erase-eq-erase_range :
      (i : ℕ) (v : Vector A) → erase initial i v ≡ erase_range initial i (i + 1) v
  unfolding erase erase_range
  erase-eq-erase_range i v = rw (sub-eq (i + 1) i 1 refl) refl
