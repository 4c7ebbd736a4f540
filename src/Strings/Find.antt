-- ===== src/Strings/Find.antt =====
-- What the searches find in a text.
use mpgc.Prelude.{
  ℕ, zero, suc, ◌+◌, ◌-◌, ◌≤◌, ◌<◌, ◌≡◌, refl, Bool, true, false, if◌then◌else◌, arith, ap, ◌∙◌,
  sym, List, [], ◌∷◌, ◌++◌, length, get_elem?, get_or, get_elem?-eq-get_or, drop, ◌==◌, replicate,
  some, ltb, Bool-cases, inl, inr,
}
use mathlib.Core.List.{append_assoc}
use mpgc.Vector.Defs.{found}
use mpgc.Vector.Pieces.{add-suc}
use mpgc.Vector.Refines.{prefix-get}
use mpgc.Strings.Defs.{GcString, ℤ, pos}
use mpgc.Strings.Holds.{Holds, size-Holds}
use mpgc.Strings.Splice.{with_null, not_empty}
use mpgc.Strings.Search.{
  size_and_begin, find, find_first_of, rfind, find_last_of, find_match_forward, find_match_backward,
  matches_at, one_of_at, mem, difference, rounds,
}
use mpgc.Strings.Loops.{IsFirst, IsLast, match_forward-IsFirst, match_backward-IsLast}

abbrev pub starts_with : List ℕ → List ℕ → Bool
starts_with [] text = true
starts_with (c ∷ cs) [] = false
starts_with (c ∷ cs) (d ∷ text) = if d == c then starts_with cs text else false

-- The text `cs` stands at a position of `text`; a character of `cs` stands there.
abbrev pub occurs : List ℕ → List ℕ → ℕ → Bool
occurs cs text p = starts_with cs (drop p text)

abbrev pub has_one_of : List ℕ → List ℕ → ℕ → Bool
has_one_of cs text p = mem (get_or text p 0) cs

read :
    (text rest : List ℕ) (p : ℕ)
    → p < length text
    → get_elem? (text ++ rest) p ≡ some (get_or text p 0)
read text rest p h = prefix-get text rest p h ∙ get_elem?-eq-get_or text p 0 h

drop-at :
    (text : List ℕ) (p : ℕ) → p < length text → drop p text ≡ get_or text p 0 ∷ drop (p + 1) text
drop-at [] p h = absurd (omega arith)
drop-at (c ∷ text) zero h = refl
drop-at (c ∷ text) (suc p) h =
    drop-at text p (omega arith) ∙ ap (λ k. get_or text p 0 ∷ drop k (c ∷ text)) (sym (add-suc p 1))

found-if : (b x : Bool) → (if b then found x else found false) ≡ found (if b then x else false)
found-if true x = refl
found-if false x = refl

matches_at-eq-occurs :
    (cs text rest : List ℕ) (p : ℕ)
    → p + length cs ≤ length text
    → matches_at (text ++ rest) cs (pos p) ≡ found (occurs cs text p)
unfolding matches_at
matches_at-eq-occurs [] text rest p h = refl
matches_at-eq-occurs (c ∷ cs) text rest p h =
    rw
      (
        read text rest p (omega arith),
        drop-at text p (omega arith),
        matches_at-eq-occurs cs text rest (p + 1) (omega arith),
      )
      (found-if (get_or text p 0 == c) (occurs cs text (p + 1)))

one_of_at-eq :
    (cs text rest : List ℕ) (p : ℕ)
    → p < length text
    → one_of_at (text ++ rest) cs (pos p) ≡ found (has_one_of cs text p)
unfolding one_of_at
one_of_at-eq cs text rest p h = rw (read text rest p h) refl

size_and_begin-Holds :
    (text : List ℕ) (s : GcString)
    → Holds text s
    → 0 < length text
    → size_and_begin s ≡ found (length text)
unfolding size_and_begin
size_and_begin-Holds text s h some_text =
    rw (not_empty text s h some_text, size-Holds text s h) refl

rounds_lem : (start n m : ℕ) → rounds (pos start) (difference n m) ≡ n + 1 - m - start
rounds_lem start n m = elim (Bool-cases (ltb n m)) [
  | inl longer ↦ rw longer (ground (arith, longer))
  | inr fits ↦ rw fits (ground (arith, fits))
]

minus_zero : (n : ℕ) → n - 0 ≡ n
minus_zero n = omega arith

add_one-less : (n : ℕ) → n + 1 - 1 - 0 ≡ n
add_one-less n = omega arith

array :
    (text : List ℕ) (s : GcString)
    → Holds text s
    → 0 < length text
    → (rest : List ℕ) × (s.rep ≡ text ++ rest)
array text s h some_text =
    let r = with_null text s h some_text in
    (0 ∷ replicate (r.spare) 0, r.contents ∙ append_assoc text (0 ∷ []) (replicate (r.spare) 0))

module _ (cs text : List ℕ) (s : GcString) (h : Holds text s) (some_text : 0 < length text) where
  -- In a text that is not empty, `find` from a position that is not negative gives the first occurrence
  -- from there on of the text that is looked for, or `npos` if there is none.
  pub find-IsFirst :
      (start : ℕ)
      → IsFirst (occurs cs text) start (length text + 1 - length cs) (find cs (pos start) s)
  unfolding find find_match_forward
  find-IsFirst start =
      let a = array text s h some_text in
      rw (size_and_begin-Holds text s h some_text, rounds_lem start (length text) (length cs), a.1)
        (match_forward-IsFirst (matches_at (text ++ a.0) cs) (occurs cs text)
          (length text + 1 - length cs - start) start (length text + 1 - length cs) refl
          (λ q lt. matches_at-eq-occurs cs text a.0 q (omega arith)))

  -- `find_first_of` gives the first position from `start` on of one of the characters, or `npos`.
  pub find_first_of-IsFirst :
      (start : ℕ)
      → IsFirst (has_one_of cs text) start (length text) (find_first_of cs (pos start) s)
  unfolding find_first_of find_match_forward
  find_first_of-IsFirst start =
      let a = array text s h some_text in
      rw (size_and_begin-Holds text s h some_text, rounds_lem start (length text) 1, a.1)
        (match_forward-IsFirst (one_of_at (text ++ a.0) cs) (has_one_of cs text)
          (length text + 1 - 1 - start) start (length text) (omega arith)
          (λ q lt. one_of_at-eq cs text a.0 q lt))

  -- In a text that is not empty, `rfind` gives the last occurrence of the text that is looked for,
  -- whatever the position is from which it is to search, or `npos` if there is none.
  pub rfind-IsLast :
      (start : ℤ) → IsLast (occurs cs text) (length text + 1 - length cs) (rfind cs start s)
  unfolding rfind find_match_backward
  rfind-IsLast start =
      let a = array text s h some_text in
      rw
        (
          size_and_begin-Holds text s h some_text,
          rounds_lem 0 (length text) (length cs),
          minus_zero (length text + 1 - length cs),
          a.1,
        )
        (match_backward-IsLast (matches_at (text ++ a.0) cs) (occurs cs text)
          (length text + 1 - length cs) (λ q lt. matches_at-eq-occurs cs text a.0 q (omega arith)))

  pub find_last_of-IsLast :
      (start : ℤ) → IsLast (has_one_of cs text) (length text) (find_last_of cs start s)
  unfolding find_last_of find_match_backward
  find_last_of-IsLast start =
      let a = array text s h some_text in
      rw
        (
          size_and_begin-Holds text s h some_text,
          rounds_lem 0 (length text) 1,
          add_one-less (length text),
          a.1,
        )
        (match_backward-IsLast (one_of_at (text ++ a.0) cs) (has_one_of cs text) (length text)
          (λ q lt. one_of_at-eq cs text a.0 q lt))
