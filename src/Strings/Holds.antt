-- ===== src/Strings/Holds.antt =====
-- The text that a string stands for: the characters before the null at the end of its vector.
use mpgc.Prelude.{
  ℕ, suc, ◌≡◌, refl, sym, ap, ◌∙◌, List, [], ◌∷◌, ◌++◌, Option, length, length-append, replicate,
  arith, false,
}
use mathlib.Core.List.{append_assoc}
use mpgc.Vector.Arrays.{write}
use mpgc.Vector.Defs.{Vector, Access, found, to_access}
use mpgc.Vector.Represents.{Represents, Yields}
use mpgc.Vector.Moves.{write-middle}
use mpgc.Vector.Pieces.{==-false_gt}
use mpgc.Strings.Defs.{GcString, size, empty, put}

-- A vector with the text and a null, or, for the empty text, an empty one.
pub data Holds (text : List ℕ) (s : GcString) : Type 0 where
  terminated : Represents 0 (text ++ 0 ∷ []) s → Holds text s
  no_null : text ≡ [] → Represents 0 [] s → Holds text s

-- An operation succeeds, and the string then stands for `text`.
pub record Results (text : List ℕ) (o : Access GcString) : Type 0 where
  pub string : GcString
  pub succeeds : o ≡ found string
  pub holds : Holds text string

pub size-Holds : (text : List ℕ) (s : GcString) → Holds text s → size s ≡ length text
size-Holds text s (terminated h) =
    let n : s.size ≡ suc (length text) = omega (arith, h.same_size, length-append text (0 ∷ [])) in
    rw (==-false_gt s.size 0 (omega arith)) (omega arith)
size-Holds text s (no_null e h) = rw (h.same_size, e) refl

pub empty-Holds : (c : ℕ) (text : List ℕ) (s : GcString) → Holds (c ∷ text) s → empty s ≡ false
empty-Holds c text s h =
    rw (size-Holds (c ∷ text) s h) (==-false_gt (suc (length text)) 0 (omega arith))

-- Writing an element of the vector.
pub put_lem :
    (i c d : ℕ) (xs ys : List ℕ) (s : GcString)
    → Represents 0 (xs ++ d ∷ ys) s
    → i ≡ length xs
    → (s' : GcString) × (put i c s ≡ found s') × Represents 0 (xs ++ c ∷ ys) s'
unfolding put
put_lem i c d xs ys s h e = (
  record s { rep = xs ++ c ∷ (ys ++ replicate (h.spare) 0) },
  rw
      (
        ap (write i c) (h.contents ∙ append_assoc xs (d ∷ ys) (replicate (h.spare) 0)),
        write-middle xs d c (ys ++ replicate (h.spare) 0) i e,
      )
      refl,
  record {
    spare = h.spare;
    contents = sym (append_assoc xs (c ∷ ys) (replicate (h.spare) 0));
    same_size = omega (arith, h.same_size, length-append xs (d ∷ ys), length-append xs (c ∷ ys));
  },
)

-- What the vector yields, the string's operation finds.
pub lifted :
    (xs : List ℕ) (o : Option (Vector ℕ)) (y : Yields 0 xs o) → to_access o ≡ found y.vector
lifted xs o y = rw y.succeeds refl
