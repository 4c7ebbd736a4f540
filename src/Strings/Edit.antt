-- ===== src/Strings/Edit.antt =====
-- The operations that change a string, as changes of the text that it stands for.
use mpgc.Prelude.{
  ℕ, zero, suc, ◌-◌, ◌≡◌, refl, sym, ap, ◌∙◌, subst, List, [], ◌∷◌, ◌++◌, length, length-append,
  length-replicate, replicate, take, arith, ◌==◌, if◌then◌else◌,
}
use mathlib.Core.List.{append_assoc}
use mpgc.Vector.Arrays.{fill, copy}
use mpgc.Vector.Defs
use mpgc.Vector.Defs.{Vector, Access, found, out_of_range, fault, to_access}
use mpgc.Vector.Represents.{Represents}
use mpgc.Vector.Moves.{fill_lem, copy_lem}
use mpgc.Vector.Refines.{resize_lem}
use mpgc.Vector.Ends.{clear_lem}
use mpgc.Vector.Pieces.{==-false_gt, length-padded}
use mpgc.Strings.Defs.{GcString, put, ◌>>=◌, resize, clear, assign, assign_n}
use mpgc.Strings.Holds.{Holds, terminated, no_null, Results, put_lem, lifted}

-- The text that `resize` leaves.
abbrev pub resized : ℕ → List ℕ → List ℕ
resized count text = take count text ++ replicate (count - length text) 0

take-replicate : (n : ℕ) (c : ℕ) → take n (replicate (suc n) c) ≡ replicate n c
take-replicate zero c = refl
take-replicate (suc n) c = ap (λ l. c ∷ l) (take-replicate n c)

replicate-eq : (m n : ℕ) → m ≡ n → replicate {A = ℕ} m 0 ≡ replicate n 0
replicate-eq m n e = ap (λ k. replicate k 0) e

take-nil : (n : ℕ) → take {A = ℕ} n [] ≡ []
take-nil zero = refl
take-nil (suc n) = refl

resized-nil : (n : ℕ) → resized n [] ≡ replicate n 0
resized-nil n = rw (take-nil n) (replicate-eq (n - 0) n (omega arith))

trim_empty : (n : ℕ) → take n (take (suc n) [] ++ replicate (suc n - 0) 0) ≡ resized n []
trim_empty n =
    ap (take n) (replicate-eq (suc n - 0) (suc n) (omega arith))
    ∙ take-replicate n 0
    ∙ sym (resized-nil n)

trim :
    (n : ℕ) (text : List ℕ)
    → take n (take (suc n) (text ++ 0 ∷ []) ++ replicate (suc n - length (text ++ 0 ∷ [])) 0)
      ≡ resized n text
trim zero text = replicate-eq 0 (0 - length text) (omega arith)
trim (suc n) [] =
    ap (λ l. 0 ∷ take n l)
      (ap (λ l. l ++ replicate (suc (suc n) - 1) 0) (take-nil (suc n))
        ∙ replicate-eq (suc (suc n) - 1) (suc n) (omega arith))
    ∙ ap (λ l. 0 ∷ l) (take-replicate n 0)
    ∙ replicate-eq (suc n) (suc n - 0) (omega arith)
trim (suc n) (c ∷ text) =
    ap (λ l. c ∷ take n (take (suc n) (text ++ 0 ∷ []) ++ l))
      (replicate-eq (suc (suc n) - suc (length (text ++ 0 ∷ []))) (suc n - length (text ++ 0 ∷ []))
        (omega arith))
    ∙ ap (λ l. c ∷ l) (trim n text)
    ∙ ap (λ l. c ∷ (take n text ++ l))
        (replicate-eq (n - length text) (suc n - suc (length text)) (omega arith))

-- The vector of a string, and what the null at its end becomes when its size changes.
pub chars : {text : List ℕ} {s : GcString} → Holds text s → List ℕ
chars {text = text} (terminated h) = text ++ 0 ∷ []
chars (no_null e h) = []

pub chars-Represents : (text : List ℕ) (s : GcString) (h : Holds text s) → Represents 0 (chars h) s
unfolding chars
chars-Represents text s (terminated h) = h
chars-Represents text s (no_null e h) = h

trim-chars :
    (n : ℕ) (text : List ℕ) (s : GcString) (h : Holds text s)
    → take n (take (suc n) (chars h) ++ replicate (suc n - length (chars h)) 0) ≡ resized n text
unfolding chars
trim-chars n text s (terminated h) = trim n text
trim-chars n text s (no_null e h) = rw e (trim_empty n)

pub last-one : (n : ℕ) (xs : List ℕ) → length xs ≡ suc n → (c : ℕ) × (xs ≡ take n xs ++ c ∷ [])
last-one zero [] h = absurd (omega arith)
last-one zero (c ∷ []) h = (c, refl)
last-one zero (c ∷ d ∷ xs) h = absurd (omega arith)
last-one (suc n) [] h = absurd (omega arith)
last-one (suc n) (c ∷ xs) h = let r = last-one n xs (omega arith) in (r.0, ap (λ l. c ∷ l) r.1)

pub length-resized : (n : ℕ) (text : List ℕ) → length (resized n text) ≡ n
length-resized n text = omega (
  arith,
  length-append (take n text) (replicate (n - length text) 0),
  length-replicate {A = ℕ} (n - length text) 0,
  length-padded n text,
)

pub clear-Results : (text : List ℕ) (s : GcString) → Holds text s → Results [] (clear s)
unfolding clear
clear-Results text s h =
    let y = clear_lem 0 (chars h) s (chars-Represents text s h) in
    record { string = y.vector; succeeds = lifted [] _ y; holds = no_null refl y.represents }

-- The string is cut, or lengthened with null characters.
pub resize-Results :
    (count : ℕ) (text : List ℕ) (s : GcString)
    → Holds text s
    → Results (resized count text) (resize count s)
unfolding resize
resize-Results zero text s h =
    subst (λ l. Results l (clear s)) (replicate-eq 0 (0 - length text) (omega arith))
      (clear-Results text s h)
resize-Results (suc n) text s h =
    let count : ℕ = suc n in
    let y = resize_lem 0 (suc count) (chars h) s (chars-Represents text s h) in
    let cells : List ℕ = resized (suc count) (chars h) in
    let l = last-one count cells (length-resized (suc count) (chars h)) in
    let p =
      put_lem count 0 l.0 (resized count text) [] y.vector
        (subst (λ xs. Represents 0 xs y.vector)
          (l.1 ∙ ap (λ xs. xs ++ l.0 ∷ []) (trim-chars count text s h)) y.represents)
        (sym (length-resized count text)) in
    record {
      string = p.0;
      succeeds = rw (==-false_gt (suc n) 0 (omega arith)) (
          ap (λ k. to_access (Defs.resize 0 k s) >>= λ s'. put (suc n) 0 s') (omega arith)
          ∙ ap (λ a. a >>= λ s'. put (suc n) 0 s') (lifted cells (Defs.resize 0 (suc count) s) y)
          ∙ p.1);
      holds = terminated p.2;
    }

-- The characters of a string are replaced by as many others.
overwrite-Results :
    (new t : List ℕ) (s : GcString)
    → Holds t s
    → length t ≡ length new
    → Results new (to_access (copy new 0 s.rep) >>= λ rep. found (record s { rep = rep }))
unfolding copy
overwrite-Results new t s (terminated h) e = record {
  string = record s { rep = new ++ 0 ∷ replicate (h.spare) 0 };
  succeeds =
      ap (λ xs. to_access (copy new 0 xs) >>= λ rep. found (record s { rep = rep }))
        (h.contents ∙ append_assoc t (0 ∷ []) (replicate (h.spare) 0))
      ∙ rw (copy_lem new 0 [] t (0 ∷ replicate (h.spare) 0) refl e) refl;
  holds = terminated record {
    spare = h.spare;
    contents = sym (append_assoc new (0 ∷ []) (replicate (h.spare) 0));
    same_size = omega (arith, h.same_size, length-append t (0 ∷ []), length-append new (0 ∷ []));
  };
}
overwrite-Results [] t s (no_null o h) e = record {
  string = s;
  succeeds = refl;
  holds = no_null refl h;
}
overwrite-Results (c ∷ new) t s (no_null o h) e = absurd (omega (arith, e, ap length o))

-- The string gets the characters of a list.
pub assign_n-Results :
    (new text : List ℕ) (s : GcString) → Holds text s → Results new (assign_n new s)
unfolding assign_n
assign_n-Results new text s h =
    let r = resize-Results (length new) text s h in
    let o =
      overwrite-Results new (resized (length new) text) r.string r.holds
        (length-resized (length new) text) in
    record { string = o.string; succeeds = rw r.succeeds o.succeeds; holds = o.holds }

fill_all-Results :
    (n c : ℕ) (t : List ℕ) (s : GcString)
    → Holds t s
    → length t ≡ suc n
    → Results (replicate (suc n) c) (
        (if s.size == 0 then fault else to_access (fill (s.size - 1) 0 c s.rep)) >>= λ rep.
        found (record s { rep = rep }))
fill_all-Results n c t s (terminated h) e =
    let size-eq : s.size ≡ suc (suc n) = omega (arith, h.same_size, length-append t (0 ∷ [])) in
    let new : List ℕ = replicate (suc n) c in
    let fewer : s.size - 1 ≡ suc n = omega (arith, size-eq) in
    record {
      string = record s { rep = new ++ 0 ∷ replicate (h.spare) 0 };
      succeeds = rw (==-false_gt s.size 0 (omega arith)) (
          ap (λ xs. to_access (fill (s.size - 1) 0 c xs) >>= λ rep. found (record s { rep = rep }))
            (h.contents ∙ append_assoc t (0 ∷ []) (replicate (h.spare) 0))
          ∙ ap
              (λ k. to_access (fill k 0 c (t ++ 0 ∷ replicate (h.spare) 0)) >>= λ rep.
                found (record s { rep = rep }))
              fewer
          ∙ rw (fill_lem (suc n) 0 c [] t (0 ∷ replicate (h.spare) 0) refl e) refl);
      holds = terminated record {
        spare = h.spare;
        contents = sym (append_assoc new (0 ∷ []) (replicate (h.spare) 0));
        same_size = omega (arith, size-eq, length-append new (0 ∷ []), length-replicate n c);
      };
    }
fill_all-Results n c t s (no_null o h) e = absurd (omega (arith, e, ap length o))

-- The string gets a character as often as asked, but at least once.
pub assign-Results :
    (n c : ℕ) (text : List ℕ) (s : GcString)
    → Holds text s
    → Results (replicate (suc n) c) (assign (suc n) c s)
unfolding assign
assign-Results n c text s h =
    let r = resize-Results (suc n) text s h in
    let o =
      fill_all-Results n c (resized (suc n) text) r.string r.holds (length-resized (suc n) text) in
    record { string = o.string; succeeds = rw r.succeeds o.succeeds; holds = o.holds }
