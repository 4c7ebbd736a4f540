-- ===== src/Strings/Faults.antt =====
-- Where a string does something else than a text would.
use mpgc.Prelude.{
  ℕ, suc, ◌-◌, ◌≡◌, ◌≢◌, refl, false, arith, List, [], ◌∷◌, length, ◌==◌, ltb, if◌then◌else◌,
}
use mpgc.Vector.Defs.{fault, capacity}
use mpgc.Vector.Pieces.{==-false_gt}
use mpgc.Strings.Defs.{GcString, pos, insert_range}
use mpgc.Strings.Holds.{Holds, Results, size-Holds}
use mpgc.Strings.Edit.{assign_n-Results}

==-false_ne : (a : ℕ) → a ≢ 0 → (a == 0) ≡ false
==-false_ne a h = ground arith

-- How many characters a range has from `start` on, of `n` that are asked for.
abbrev pub range_size : ℕ → ℕ → List ℕ → ℕ
range_size start n text = if ltb (length text - start) n then length text - start else n

-- Characters can be inserted into an empty string that has no array, but not into one that has kept its
-- array, where an assertion fails.
pub insert_range-empty :
    (c : ℕ) (new : List ℕ) (s : GcString)
    → Holds [] s
    → (capacity s ≡ 0 → Results (c ∷ new) (insert_range (pos 0) (c ∷ new) s))
      × (capacity s ≢ 0 → insert_range (pos 0) (c ∷ new) s ≡ fault)
unfolding insert_range
insert_range-empty c new s h = (
  λ null.
      rw (size-Holds [] s h, null, ==-false_gt (suc (length new)) 0 (omega arith))
        (assign_n-Results (c ∷ new) [] s h),
  λ array.
      rw
        (
          size-Holds [] s h,
          ==-false_ne (capacity s) array,
          ==-false_gt (suc (length new)) 0 (omega arith),
        )
        refl,
)
