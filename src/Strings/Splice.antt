-- ===== src/Strings/Splice.antt =====
-- The operations that insert into a string or remove from it.
use mpgc.Prelude.{
  ℕ, zero, suc, ◌+◌, ◌-◌, ◌≤◌, ◌<◌, ◌≡◌, refl, sym, ap, ◌∙◌, subst, List, [], ◌∷◌, ◌++◌, Option,
  length, length-append, replicate, take, drop, arith, true, false, ◌^◌, leb, leb-false,
}
use mathlib.Core.List.{append_assoc}
use mpgc.Vector.Defs
use mpgc.Vector.Defs.{Vector, Access, found, out_of_range, fault, to_access}
use mpgc.Vector.Represents.{Represents, Yields}
use mpgc.Vector.Refines.{insert_at, insert_range_at, erase_range_at, pop_back_at}
use mpgc.Vector.Ends.{push_back_lem}
use mpgc.Vector.Pieces.{==-false_gt, ltb-false, take-append-drop, take-prefix}
use mpgc.Strings.Defs.{
  GcString, size, empty, insert, insert_range, erase, push_back, pop_back, pos, is_zero,
  range_length,
}
use mpgc.Strings.Holds.{
  Holds, terminated, no_null, Results, size-Holds, empty-Holds, put_lem, lifted,
}
use mpgc.Strings.Edit.{assign-Results, last-one}

pub take-append : (i : ℕ) (xs ys : List ℕ) → i ≤ length xs → take i (xs ++ ys) ≡ take i xs
take-append zero xs ys h = refl
take-append (suc i) [] ys h = absurd (omega arith)
take-append (suc i) (x ∷ xs) ys h = ap (λ l. x ∷ l) (take-append i xs ys (omega arith))

drop-append : (i : ℕ) (xs ys : List ℕ) → i ≤ length xs → drop i (xs ++ ys) ≡ drop i xs ++ ys
drop-append zero xs ys h = refl
drop-append (suc i) [] ys h = absurd (omega arith)
drop-append (suc i) (x ∷ xs) ys h = drop-append i xs ys (omega arith)

pub with_null :
    (text : List ℕ) (s : GcString)
    → Holds text s
    → 0 < length text
    → Represents 0 (text ++ 0 ∷ []) s
with_null text s (terminated h) n = h
with_null text s (no_null e h) n = absurd (omega (arith, ap length e))

pub not_empty : (text : List ℕ) (s : GcString) → Holds text s → 0 < length text → empty s ≡ false
not_empty text s h n = rw (size-Holds text s h) (==-false_gt (length text) 0 n)

-- The null stays behind what is spliced in.
spliced :
    (i : ℕ) (text new : List ℕ)
    → i ≤ length text
    → take i (text ++ 0 ∷ []) ++ (new ++ drop i (text ++ 0 ∷ []))
      ≡ (take i text ++ (new ++ drop i text)) ++ 0 ∷ []
spliced i text new h =
    rw (take-append i text (0 ∷ []) h, drop-append i text (0 ∷ []) h)
      (ap (λ l. take i text ++ l) (sym (append_assoc new (drop i text) (0 ∷ [])))
        ∙ sym (append_assoc (take i text) (new ++ drop i text) (0 ∷ [])))

spliced_range :
    (i j : ℕ) (text : List ℕ)
    → i ≤ length text
    → j ≤ length text
    → take i (text ++ 0 ∷ []) ++ drop j (text ++ 0 ∷ []) ≡ (take i text ++ drop j text) ++ 0 ∷ []
spliced_range i j text h k =
    rw (take-append i text (0 ∷ []) h, drop-append j text (0 ∷ []) k)
      (sym (append_assoc (take i text) (drop j text) (0 ∷ [])))

leb-true : (a b : ℕ) → a ≤ b → leb a b ≡ true
leb-true a b h = ground arith

-- What a vector's operation yields on the characters with their null.
from_vector :
    (cs text : List ℕ) (o : Option (Vector ℕ))
    → Yields 0 cs o
    → cs ≡ text ++ 0 ∷ []
    → Results text (to_access o)
from_vector cs text o y e = record {
  string = y.vector;
  succeeds = lifted cs o y;
  holds = terminated (subst (λ l. Represents 0 l y.vector) e y.represents);
}

-- Characters are inserted into a string that is not empty.
pub insert-Results :
    (i n c : ℕ) (text : List ℕ) (s : GcString)
    → Holds text s
    → 0 < length text
    → i ≤ length text
    → Results (take i text ++ (replicate n c ++ drop i text)) (insert (pos i) n c s)
unfolding insert
insert-Results i zero c text s h some_text le =
    rw (size-Holds text s h, ltb-false (length text) i le)
      record {
        string = s;
        succeeds = refl;
        holds = subst (λ l. Holds l s) (sym (take-append-drop i text)) h;
      }
insert-Results i (suc n) c text s h some_text le =
    rw
      (
        not_empty text s h some_text,
        size-Holds text s h,
        ltb-false (length text) i le,
        ==-false_gt (suc n) 0 (omega arith),
      )
      (from_vector _ _ _
        (insert_at 0 i (suc n) c (text ++ 0 ∷ []) s (with_null text s h some_text)
          (omega (arith, length-append text (0 ∷ []))))
        (spliced i text (replicate (suc n) c) le))

pub insert_range-Results :
    (i : ℕ) (new text : List ℕ) (s : GcString)
    → Holds text s
    → 0 < length text
    → i ≤ length text
    → Results (take i text ++ (new ++ drop i text)) (insert_range (pos i) new s)
unfolding insert_range
insert_range-Results i [] text s h some_text le =
    rw (size-Holds text s h, ltb-false (length text) i le)
      record {
        string = s;
        succeeds = refl;
        holds = subst (λ l. Holds l s) (sym (take-append-drop i text)) h;
      }
insert_range-Results i (c ∷ new) text s h some_text le =
    rw
      (
        not_empty text s h some_text,
        size-Holds text s h,
        ltb-false (length text) i le,
        ==-false_gt (suc (length new)) 0 (omega arith),
      )
      (from_vector _ _ _
        (insert_range_at 0 i (c ∷ new) (text ++ 0 ∷ []) s (with_null text s h some_text)
          (omega (arith, length-append text (0 ∷ []))))
        (spliced i text (c ∷ new) le))

pub push_back-Results :
    (c : ℕ) (text : List ℕ) (s : GcString) → Holds text s → Results (text ++ c ∷ []) (push_back c s)
unfolding push_back
push_back-Results c [] s h = rw (size-Holds [] s h) (assign-Results 0 c [] s h)
push_back-Results c (d ∷ text) s h =
    let r = with_null (d ∷ text) s h (omega arith) in
    let p =
      put_lem (s.size - 1) c 0 (d ∷ text) [] s r
        (omega (arith, r.same_size, length-append text (0 ∷ []))) in
    rw (empty-Holds d text s h, p.1)
      (from_vector _ _ _ (push_back_lem 0 is_zero 0 ((d ∷ text) ++ c ∷ []) p.0 refl p.2) refl)

one_less : (n : ℕ) → suc n - 1 ≡ n
one_less n = omega arith

pub pop_back-Results :
    (text : List ℕ) (s : GcString)
    → Holds text s
    → Results (take (length text - 1) text) (pop_back s)
unfolding pop_back
pop_back-Results [] s h = rw (size-Holds [] s h) record { string = s; succeeds = refl; holds = h }
pop_back-Results (d ∷ text) s h =
    let n : ℕ = length text in
    let all : List ℕ = d ∷ text in
    let y = pop_back_at 0 (all ++ 0 ∷ []) s (with_null all s h (omega arith)) in
    let last = last-one n all refl in
    let fewer : length (all ++ 0 ∷ []) - 1 ≡ suc n = omega (arith, length-append all (0 ∷ [])) in
    let kept : take (length (all ++ 0 ∷ []) - 1) (all ++ 0 ∷ []) ≡ take n all ++ last.0 ∷ [] =
      ap (λ k. take k (all ++ 0 ∷ [])) fewer ∙ take-prefix all (0 ∷ []) ∙ last.1 in
    let r : Represents 0 (take n all ++ last.0 ∷ []) y.vector =
      subst (λ l. Represents 0 l y.vector) kept y.represents in
    let p =
      put_lem (y.vector.size - 1) 0 last.0 (take n all) [] y.vector r
        (omega (arith, r.same_size, length-append (take n all) (last.0 ∷ []))) in
    rw (empty-Holds d text s h, lifted _ _ y, one_less n)
      record { string = p.0; succeeds = p.1; holds = terminated p.2 }

-- The checks that come before the vector's work.
erase-eq-erase_range :
    (i n : ℕ) (s : GcString)
    → i + n ≤ size s
    → size s ≤ s.size
    → size s < 2 ^ 63
    → erase (pos i) (pos n) s ≡ to_access (Defs.erase_range 0 i (i + n) s)
unfolding erase range_length
erase-eq-erase_range i n s le inside small =
    rw
      (
        ltb-false (size s) i (omega arith),
        leb-false (2 ^ 63) (i + n) (omega arith),
        leb-true (i + n) s.size (omega arith),
      )
      refl

-- A range within the string is removed.
pub erase-Results :
    (i n : ℕ) (text : List ℕ) (s : GcString)
    → Holds text s
    → 0 < length text
    → i + n ≤ length text
    → length text < 2 ^ 63
    → Results (take i text ++ drop (i + n) text) (erase (pos i) (pos n) s)
erase-Results i n text s h some_text le small =
    let r = with_null text s h some_text in
    let sizes : s.size ≡ length text + 1 =
      omega (arith, r.same_size, length-append text (0 ∷ [])) in
    let len : size s ≡ length text = size-Holds text s h in
    rw (erase-eq-erase_range i n s (omega arith) (omega arith) (omega arith)) (
      from_vector _ _ _
        (erase_range_at 0 i (i + n) (text ++ 0 ∷ []) s r (omega arith)
          (omega (arith, length-append text (0 ∷ []))))
        (spliced_range i (i + n) text (omega arith) le))
