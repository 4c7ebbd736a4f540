-- ===== src/Descriptor/Outcomes.antt =====
-- What `list_rep` of src/gc_desc.cpp makes of the fields of a type, or of its other fields.
use mpgc.Prelude.{
  ℕ, zero, suc, ◌+◌, ◌-◌, ◌*◌, ◌^◌, ◌<◌, ◌≡◌, ◌≢◌, ◌⊎◌, inl, inr, refl, ap, List, [], ◌∷◌, length,
  Bool, true, false, ltb, if◌then◌else◌, Bool-cases, Option, some, get_elem?, arith, dec_lt, lt→ltb,
  subst,
}
use native.Mathlib.Nat.{one-le-pow}
use mpgc.Descriptor.Field.{max_val, decode}
use mpgc.Descriptor.Defs.{list_base, list_width, illegal, category}
use mpgc.Descriptor.Collector.{blob, encode_list, list_header, list_rep, missing}
use mpgc.Descriptor.Sorting.{
  IncreasingFrom, length-missing, missing-missing, missing-IncreasingFrom,
}
use mpgc.Descriptor.Lists.{AllFit}
use mpgc.Descriptor.ListRep.{IsListRep, rep-IsListRep, read_back}

width_of : (n : ℕ) → n < 8 → (w : ℕ) × (get_elem? list_width n ≡ some w)
width_of zero h = (33, refl)
width_of (suc zero) h = (16, refl)
width_of (suc (suc zero)) h = (11, refl)
width_of (suc (suc (suc zero))) h = (8, refl)
width_of (suc (suc (suc (suc zero)))) h = (6, refl)
width_of (suc (suc (suc (suc (suc zero))))) h = (5, refl)
width_of (suc (suc (suc (suc (suc (suc zero)))))) h = (4, refl)
width_of (suc (suc (suc (suc (suc (suc (suc zero))))))) h = (4, refl)
width_of (suc (suc (suc (suc (suc (suc (suc (suc n)))))))) h = absurd (omega arith)

all_fit :
    (w words i : ℕ) (from : List ℕ) → words < 2 ^ w → IncreasingFrom i words from → AllFit w from
all_fit w words i [] fits inc = tt
all_fit w words i (x ∷ from) fits inc =
    (omega (arith, inc.1), all_fit w words (suc x) from fits inc.2)

zero-category : category 0 ≡ illegal
unfolding category decode
zero-category = refl

pub IsListRep-ne-zero : (words : ℕ) (refs : List ℕ) (rep : ℕ) → IsListRep words refs rep → rep ≢ 0
IsListRep-ne-zero words refs rep r e = cc (zero-category, r.category_lem, ap category e)

-- `list_rep` either gives up or says what it was given.
data IsListed (words : ℕ) (refs : List ℕ) (o : Option ℕ) : Type 0 where
  too_big : o ≡ some 0 → IsListed words refs o
  listed : (rep : ℕ) → o ≡ some rep → IsListRep words refs rep → IsListed words refs o

list_rep-IsListed :
    (words : ℕ) (b : Bool) (from : List ℕ)
    → length from < 8
    → IncreasingFrom 0 words from
    → IsListed words (read_back b from words) (list_rep words (length from) b from)
unfolding list_rep max_val
list_rep-IsListed words b from few inc =
    let (w, width) = width_of (length from) few in
    elim (dec_lt (2 ^ w - 1) words) [
      | yes big ↦ too_big (rw (width, lt→ltb (2 ^ w - 1) words big) refl)
      | no small ↦
          listed (encode_list from (list_base - 2 * w) w (list_header words (length from) b w))
            (rw width (ground arith))
            (rep-IsListRep words b from w width (omega (arith, one-le-pow w 2))
              (all_fit w words 0 from (omega (arith, one-le-pow w 2)) inc))
    ]

abbrev pub HasPositive : ℕ → List ℕ → Option ℕ → Type 0
HasPositive n refs o = (pos : ℕ) × (o ≡ some pos) × ((pos ≡ 0) ⊎ IsListRep n refs pos)

of_listed : (n : ℕ) (refs : List ℕ) (o : Option ℕ) → IsListed n refs o → HasPositive n refs o
of_listed n refs o (too_big e) = (0, e, inl refl)
of_listed n refs o (listed rep e l) = (rep, e, inr l)

pub positive_outcome :
    (n : ℕ) (refs : List ℕ)
    → length refs ≢ 8
    → IncreasingFrom 0 n refs
    → HasPositive n refs
        (if ltb 8 (length refs) then some 0 else list_rep n (length refs) true refs)
positive_outcome n refs ne inc = elim (Bool-cases (ltb 8 (length refs))) [
  | inl many ↦ (0, rw many refl, inl refl)
  | inr few ↦ rw few (of_listed n refs _ (list_rep-IsListed n true refs (ground arith) inc))
]

-- The exclude list, on the number of fields that hold no reference.
pub negative_outcome :
    (n k : ℕ) (refs : List ℕ)
    → k < 8
    → length refs + k ≡ n
    → IncreasingFrom 0 n refs
    → HasPositive n refs (list_rep n k false (missing 0 refs n))
negative_outcome n k refs few sum inc =
    let holes = missing 0 refs n in
    let count : length holes ≡ k = omega (arith, length-missing 0 n refs (omega arith) inc, sum) in
    let back : missing 0 holes n ≡ refs = missing-missing 0 n refs (omega arith) inc in
    subst (λ l. HasPositive n l (list_rep n k false holes)) back
      (subst (λ j. HasPositive n (missing 0 holes n) (list_rep n j false holes)) count
        (of_listed n (missing 0 holes n) _ (
          list_rep-IsListed n false holes (omega (arith, count))
            (missing-IncreasingFrom 0 n refs (omega arith) inc))))

pub list_zero-IsListRep :
    (n : ℕ) (refs : List ℕ)
    → n < 2 ^ 33
    → missing 0 [] n ≡ refs
    → (rep : ℕ) × (list_rep n 0 false [] ≡ some rep) × IsListRep n refs rep
unfolding list_rep max_val
list_zero-IsListRep n refs fits e = (
  encode_list [] (list_base - 2 * 33) 33 (list_header n 0 false 33),
  ground arith,
  subst (λ l. IsListRep n l (encode_list [] (list_base - 2 * 33) 33 (list_header n 0 false 33))) e
      (rep-IsListRep n false [] 33 refl fits tt),
)

pub blob-IsListRep : (n : ℕ) → n < 2 ^ 33 → IsListRep n [] (blob n)
unfolding blob encode_list list_header
blob-IsListRep n fits = rep-IsListRep n true [] 33 refl fits tt
